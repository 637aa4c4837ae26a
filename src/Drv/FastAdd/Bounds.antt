-- ===== src/Drv/FastAdd/Bounds.antt =====
-- A value that changes by itself stays within its limits.
use hq_components.Prelude.{List, [], arith, min, refl, sym, ℕ, ◌+◌, ◌<◌, ◌∙◌, ◌∷◌, ◌≡◌, ◌≢◌, ◌≤◌}
use hq_components.Drv.FastAdd.{
  fp_minus, fp_plus, fp_plus_10, fp_minus_10, FastAdd, add_value, add_process, pass_entry, pass,
  store,
}

-- Limits for which no step of ten wraps: the upper one is at least ten, the lower one leaves room
-- for ten more.
pub record IsLimited (e : FastAdd) : Type 0 where
  pub ten : 10 ≤ e.max
  pub word : e.max < 4294967296
  pub room : e.min + 10 < 4294967296

-- One step keeps a value within its limits.
pub add_value-bounds :
    (e : FastAdd) (v : ℕ)
    → IsLimited e
    → e.min ≤ v
    → v ≤ e.max
    → let v' = add_value e.sign e.max e.min v in (e.min ≤ v') × (v' ≤ e.max)
unfolding add_value
add_value-bounds e v l p q = elim e.sign [
  | fp_minus ↦ ground (arith, l)
  | fp_plus ↦ ground (arith, l)
  | fp_plus_10 ↦ ground (arith, l)
  | fp_minus_10 ↦ ground (arith, l)
]

abbrev pub InLimits : List FastAdd → (ℕ → ℕ) → Type 0
InLimits [] mem = Unit {0}
InLimits (e ∷ es) mem =
    (IsLimited e × (e.min ≤ mem e.value) × (mem e.value ≤ e.max)) × InLimits es mem

-- No two entries of the list point to one value.
abbrev pub AwayFrom : ℕ → List FastAdd → Type 0
AwayFrom a [] = Unit {0}
AwayFrom a (e ∷ es) = (a ≢ e.value) × AwayFrom a es

abbrev pub IsDistinct : List FastAdd → Type 0
IsDistinct [] = Unit {0}
IsDistinct (e ∷ es) = AwayFrom e.value es × IsDistinct es

InLimits-store :
    (es : List FastAdd) (mem : ℕ → ℕ) (a v : ℕ)
    → AwayFrom a es
    → InLimits es mem
    → InLimits es (store mem a v)
InLimits-store [] mem a v d h = tt
InLimits-store (e ∷ es) mem a v d h =
    let same : store mem a v e.value ≡ mem e.value = ground (arith, d.0) in
    ((h.0.0, rw same h.0.1, rw same h.0.2), InLimits-store es mem a v d.1 h.1)

pass_entry-InLimits :
    (e : FastAdd) (mem : ℕ → ℕ)
    → IsLimited e
    → e.min ≤ mem e.value
    → mem e.value ≤ e.max
    → let (e', mem') = pass_entry e mem in
      IsLimited e' × (e'.min ≤ mem' e'.value) × (mem' e'.value ≤ e'.max)
unfolding pass_entry add_process
pass_entry-InLimits e mem l p q = ground (arith, add_value-bounds e (mem e.value) l p q)

-- Passing an entry leaves the limits, the address and what it does not point to.
pass_entry-keeps :
    (e : FastAdd) (mem : ℕ → ℕ) (a : ℕ)
    → let (e', mem') = pass_entry e mem in
      (e'.value ≡ e.value) × (e'.min ≡ e.min) × (e'.max ≡ e.max) × (a ≢ e.value → mem' a ≡ mem a)
unfolding pass_entry add_process
pass_entry-keeps e mem a = ground arith

pass_entry-InLimits_others :
    (e : FastAdd) (es : List FastAdd) (mem : ℕ → ℕ)
    → AwayFrom e.value es
    → InLimits es mem
    → InLimits es (pass_entry e mem).1
pass_entry-InLimits_others e [] mem d h = tt
pass_entry-InLimits_others e (f ∷ es) mem d h =
    let same : (pass_entry e mem).1 f.value ≡ mem f.value =
      (pass_entry-keeps e mem f.value).3 (λ q. d.0 (sym q)) in
    ((h.0.0, rw same h.0.1, rw same h.0.2), pass_entry-InLimits_others e es mem d.1 h.1)

pass-keeps : (es : List FastAdd) (mem : ℕ → ℕ) (a : ℕ) → AwayFrom a es → (pass es mem).1 a ≡ mem a
unfolding pass
pass-keeps [] mem a d = refl
pass-keeps (e ∷ es) mem a d =
    pass-keeps es (pass_entry e mem).1 a d.1 ∙ (pass_entry-keeps e mem a).3 d.0

-- A pass over values that no two entries share keeps every one of them within its limits, where the
-- upper limits are at least ten and the lower ones leave room for ten more.
pub pass-InLimits :
    (es : List FastAdd) (mem : ℕ → ℕ)
    → IsDistinct es
    → InLimits es mem
    → let (es', mem') = pass es mem in InLimits es' mem'
unfolding pass
pass-InLimits [] mem d h = tt
pass-InLimits (e ∷ es) mem d h =
    let (l, p, q) = h.0 in
    let here = pass_entry-InLimits e mem l p q in
    let keeps = pass_entry-keeps e mem 0 in
    let mem' = (pass_entry e mem).1 in
    let away : AwayFrom (pass_entry e mem).0.value es = rw keeps.0 d.0 in
    let same : (pass es mem').1 (pass_entry e mem).0.value ≡ mem' (pass_entry e mem).0.value =
      pass-keeps es mem' (pass_entry e mem).0.value away in
    (
      (here.0, rw same here.1, rw same here.2),
      pass-InLimits es mem' d.1 (pass_entry-InLimits_others e es mem d.0 h.1),
    )

-- Below an upper limit of ten, a step of ten up passes the limit: the difference that the code
-- compares with wraps.
pub add_value-low_limit :
    (max min v : ℕ) → max < 10 → v < 4294967280 → add_value fp_plus_10 max min v ≡ v + 10
unfolding add_value
add_value-low_limit max min v h w = ground arith
