-- ===== src/Drv/Ultrasonar/Bounds.antt =====
-- The table and the distance stay in bounds.
use hq_components.Prelude.{
  Bool, Bool-cases, List, [], arith, false, if◌then◌else◌, inl, inr, length, length-set, ltb,
  ltb→le, refl, replicate, set, suc, true, u32, zero, ℕ, ◌%◌, ◌*◌, ◌+◌, ◌<◌, ◌==◌, ◌∙◌, ◌∷◌, ◌≡◌,
  ◌≤◌,
}
use hq_components.Drv.Ultrasonar.{
  power_up, Sonar, add_all, reading, at_byte, scan, round, rounds, table_size,
}

-- Every entry of a table is a distance that the sensor can give.
abbrev pub AllNear : List ℕ → Type 0
AllNear [] = Unit {0}
AllNear (v ∷ vs) = (v ≤ 3100) × AllNear vs

pub record IsValid (s : Sonar) : Type 0 where
  pub sized : length s.filtered_tab ≡ 32
  pub near : AllNear s.filtered_tab
  pub bound : s.distance ≤ 3200

set-AllNear : (vs : List ℕ) (i v : ℕ) → v ≤ 3100 → AllNear vs → AllNear (set vs i v)
set-AllNear [] i v h a = a
set-AllNear (w ∷ vs) zero v h (n, a) = (h, a)
set-AllNear (w ∷ vs) (suc i) v h (n, a) = (n, set-AllNear vs i v h a)

zeros-AllNear : (n : ℕ) → AllNear (replicate n 0)
zeros-AllNear zero = tt
zeros-AllNear (suc n) = (omega arith, zeros-AllNear n)

add_all-bound :
    (d : ℕ) (vs : List ℕ)
    → AllNear vs
    → d + length vs * 3100 < 4294967296
    → add_all d vs ≤ d + length vs * 3100
unfolding add_all
add_all-bound d [] a h = omega arith
add_all-bound d (v ∷ vs) (n, a) h =
    let wraps : u32 (d + v) ≡ d + v = omega arith in
    rw wraps (omega (arith, add_all-bound (d + v) vs a (omega arith)))

pub reading-IsValid : (v : ℕ) (s : Sonar) → v ≤ 3100 → IsValid s → IsValid (reading v s)
unfolding reading
reading-IsValid v s h i =
    let tab = set s.filtered_tab (s.tab_iterator % table_size) v in
    let near = set-AllNear s.filtered_tab (s.tab_iterator % table_size) v h i.near in
    let sized : length tab ≡ 32 =
      length-set s.filtered_tab (s.tab_iterator % table_size) v ∙ i.sized in
    let bound = i.bound in
    let all = add_all-bound s.distance tab near (omega arith) in
    record { sized = sized; near = near; bound = omega arith }

if-IsValid :
    (b : Bool) (x y : ℕ × Bool × Sonar) → IsValid x.2 → IsValid y.2 → IsValid (if b then x else y).2
if-IsValid true x y h k = h
if-IsValid false x y h k = k

-- What at_byte does with a frame that says `v`.
abbrev on_frame : ℕ → Bool → Sonar → ℕ × Bool × Sonar
on_frame v ok s = if ltb 3100 v then (0, ok, s) else (2, true, reading v s)

on_frame-IsValid : (v : ℕ) (ok : Bool) (s : Sonar) → IsValid s → IsValid (on_frame v ok s).2
on_frame-IsValid v ok s i = elim (Bool-cases (ltb 3100 v)) [
  | inl t ↦ rw t i
  | inr f ↦ rw f (reading-IsValid v s (ltb→le 3100 v f) i)
]

at_byte-IsValid :
    (b : ℕ) (bs : List ℕ) (ok : Bool) (s : Sonar) → IsValid s → IsValid (at_byte b bs ok s).2
unfolding at_byte
at_byte-IsValid b [] ok s i = i
at_byte-IsValid b (h ∷ []) ok s i = i
at_byte-IsValid b (h ∷ l ∷ bs) ok s i =
    if-IsValid (b == 255) (on_frame (h * 256 + l) ok s) (0, ok, s)
      (on_frame-IsValid (h * 256 + l) ok s i) i

scan-IsValid :
    (bs : List ℕ) (k : ℕ) (ok : Bool) (s : Sonar) → IsValid s → IsValid (scan bs k ok s).1
unfolding scan
scan-IsValid [] k ok s i = i
scan-IsValid (b ∷ bs) (suc k) ok s i = scan-IsValid bs k ok s i
scan-IsValid (b ∷ bs) zero ok s i =
    scan-IsValid bs _ _ (at_byte b bs ok s).2 (at_byte-IsValid b bs ok s i)

round-IsValid : (bs : List ℕ) (s : Sonar) → IsValid s → IsValid (round bs s)
unfolding round
round-IsValid bs s i =
    let read = scan-IsValid bs 0 false s i in
    elim (Bool-cases (scan bs 0 false s).0) [
      | inl t ↦ rw t (record { sized = read.sized; near = read.near; bound = read.bound })
      | inr f ↦ rw f (record { sized = read.sized; near = read.near; bound = read.bound })
    ]

-- Whatever bytes come in, every round of the task keeps the table at 32 entries of at most 3100, and
-- the distance at most 3200.
pub rounds-IsValid : (reads : List (List ℕ)) (s : Sonar) → IsValid s → IsValid (rounds reads s)
unfolding rounds
rounds-IsValid [] s i = i
rounds-IsValid (bs ∷ reads) s i = rounds-IsValid reads (round bs s) (round-IsValid bs s i)

pub power_up-IsValid : IsValid power_up
power_up-IsValid = record { sized = refl; near = zeros-AllNear 32; bound = omega arith }
