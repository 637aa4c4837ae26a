-- ===== src/Drv/FastAdd/Entries.antt =====
-- Which values are in the list after fastProcessStart and fastProcessStop.
use hq_components.Prelude.{
  Bool, Bool-cases, List, [], ap, arith, false, inl, inr, length, length-append, ltb, ltb→lt, min,
  not, refl, true, ℕ, ◌&&◌, ◌++◌, ◌==◌, ◌||◌, ◌∙◌, ◌∷◌, ◌≡◌, ◌≤◌,
}
use hq_components.Drv.FastAdd.{Sign, FastAdd, is_listed, last_entry, but_last, remove, stop, start}
use hq_components.Drv.FastAdd.Bounds.{AwayFrom, IsDistinct}

is_listed-last :
    (a : ℕ) (e : FastAdd) (es : List FastAdd)
    → is_listed a (last_entry e es ∷ but_last e es) ≡ is_listed a (e ∷ es)
is_listed-last a e [] = refl
is_listed-last a e (e' ∷ es) = ground (arith, is_listed-last a e' es)

AwayFrom-is_listed : (a : ℕ) (es : List FastAdd) → AwayFrom a es → is_listed a es ≡ false
AwayFrom-is_listed a [] d = refl
AwayFrom-is_listed a (e ∷ es) d = ground (arith, d.0, AwayFrom-is_listed a es d.1)

is_listed-AwayFrom : (a : ℕ) (es : List FastAdd) → is_listed a es ≡ false → AwayFrom a es
is_listed-AwayFrom a [] h = tt
is_listed-AwayFrom a (e ∷ es) h = (ground arith, is_listed-AwayFrom a es (ground arith))

-- Stopping a value takes it, and no other, off a list without repetitions.
pub stop-is_listed :
    (value a : ℕ) (es : List FastAdd)
    → IsDistinct es
    → is_listed a (stop true value es) ≡ (is_listed a es && not (a == value))
unfolding stop remove
stop-is_listed value a [] d = refl
stop-is_listed value a (e ∷ []) d = ground arith
stop-is_listed value a (e ∷ e' ∷ es) d = ground (
  arith,
  stop-is_listed value a (e' ∷ es) d.1,
  is_listed-last a e' es,
  AwayFrom-is_listed e.value (e' ∷ es) d.0,
)

is_listed-append :
    (a : ℕ) (es fs : List FastAdd) → is_listed a (es ++ fs) ≡ (is_listed a es || is_listed a fs)
is_listed-append a [] fs = refl
is_listed-append a (e ∷ es) fs = ground (arith, is_listed-append a es fs)

IsDistinct-append :
    (e : FastAdd) (es : List FastAdd)
    → IsDistinct es
    → is_listed e.value es ≡ false
    → IsDistinct (es ++ (e ∷ []))
IsDistinct-append e [] d h = (tt, tt)
IsDistinct-append e (f ∷ es) d h = (
  is_listed-AwayFrom f.value (es ++ (e ∷ []))
      (is_listed-append f.value es (e ∷ []) ∙ ground (arith, AwayFrom-is_listed f.value es d.0)),
  IsDistinct-append e es d.1 (ground arith),
)

is_listed-same : (a value : ℕ) (es : List FastAdd) → a ≡ value → is_listed a es ≡ is_listed value es
is_listed-same a value es e = ap (λ x. is_listed x es) e

-- Starting a value keeps the list free of repetitions and at most eight long. Where the mutex is
-- taken and there is room, the value is on the list then, also where it was before, and no other
-- value comes or goes: the call that is meant to stop a listed value stops nothing.
pub start-is_listed :
    (taken : Bool) (value max min : ℕ) (sign : Sign) (es : List FastAdd)
    → IsDistinct es
    → length es ≤ 8
    → let es' = start taken value max min sign es in
      IsDistinct es'
      × (length es' ≤ 8)
      × ((a : ℕ) → is_listed a es' ≡ (is_listed a es || (taken && ltb (length es) 8 && a == value)))
unfolding start stop
start-is_listed taken value max min sign es d l = elim (Bool-cases (ltb (length es) 8)) [
  | inr q ↦ rw q (d, l, λ a. ground arith)
  | inl q ↦ elim (Bool-cases taken) [
    | inr t ↦ rw (q, t) (d, l, λ a. ground arith)
    | inl t ↦ elim (Bool-cases (is_listed value es)) [
      | inl h ↦ rw (q, t, h) (d, l, λ a. ground (arith, is_listed-same a value es))
      | inr h ↦
          let e : FastAdd = record {
            counter = 0;
            delay = 0;
            value = value;
            max = max;
            min = min;
            sign = sign;
          } in
          rw (q, t, h)
            (
              IsDistinct-append e es d h,
              ground (arith, length-append es (e ∷ []), ltb→lt (length es) 8 q),
              λ a. ground (arith, is_listed-append a es (e ∷ [])),
            )
    ]
  ]
]
