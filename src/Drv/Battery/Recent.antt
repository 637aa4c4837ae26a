-- ===== src/Drv/Battery/Recent.antt =====
-- How the table keeps the last 32 voltages.
use hq_components.Prelude.{
  List, [], ap, append-nil, append_assoc, arith, drop, drop-drop, get_or, if◌then◌else◌, inl, inr,
  length, length-append, ltb, lt→ltb, refl, set, set-append, suc, sym, u32, zero, ℕ, ◌%◌, ◌++◌, ◌+◌,
  ◌-◌, ◌<◌, ◌∙◌, ◌∷◌, ◌≡◌, ◌≤◌, ◌⊎◌,
}
use hq_components.Drv.Battery.{Battery, sum_loop, record_voltage}

unfoldable pub total : List ℕ → ℕ
total [] = 0
total (v ∷ vs) = v + total vs

-- The last 32 of the voltages.
unfoldable pub recent : List ℕ → List ℕ
recent vs = drop (length vs - 32) vs

abbrev pub AllBelow : ℕ → List ℕ → Type 0
AllBelow n [] = Unit {0}
AllBelow n (v ∷ vs) = (v < n) × AllBelow n vs

pub total-append : (xs ys : List ℕ) → total (xs ++ ys) ≡ total xs + total ys
unfolding total
total-append [] ys = omega arith
total-append (x ∷ xs) ys = omega (arith, total-append xs ys)

get_or_behind : (xs ys : List ℕ) (y : ℕ) → get_or (xs ++ (y ∷ ys)) (length xs) 0 ≡ y
get_or_behind [] ys y = refl
get_or_behind (x ∷ xs) ys y = get_or_behind xs ys y

-- Summing up the slots behind `front`, which hold `xs`.
pub sum_loop_lem :
    (front xs rest : List ℕ) (sum : ℕ)
    → sum + total xs < 4294967296
    → sum_loop (front ++ (xs ++ rest)) (length xs) (length front) sum ≡ sum + total xs
unfolding sum_loop total
sum_loop_lem front [] rest sum h = omega arith
sum_loop_lem front (x ∷ xs) rest sum h =
    let front' = front ++ (x ∷ []) in
    let all = front ++ (x ∷ (xs ++ rest)) in
    let read : u32 (sum + get_or all (length front) 0) ≡ sum + x =
      omega (arith, get_or_behind front (xs ++ rest) x, h) in
    ap (λ s. sum_loop all (length xs) (length front + 1) s) read
    ∙ ap (λ t. sum_loop t (length xs) (length front + 1) (sum + x))
        (sym (append_assoc front (x ∷ []) (xs ++ rest)))
    ∙ ap (λ i. sum_loop (front' ++ (xs ++ rest)) (length xs) i (sum + x))
        (sym (length-append front (x ∷ [])))
    ∙ sum_loop_lem front' xs rest (sum + x) (omega (arith, h))
    ∙ omega arith

drop-append : (n : ℕ) (xs ys : List ℕ) → n ≤ length xs → drop n (xs ++ ys) ≡ drop n xs ++ ys
drop-append zero xs ys h = refl
drop-append (suc n) [] ys h = absurd (omega arith)
drop-append (suc n) (x ∷ xs) ys h = drop-append n xs ys (omega arith)

-- recent after one voltage more.
recent_short :
    (vs : List ℕ) (v : ℕ) → length vs < 32 → recent (vs ++ (v ∷ [])) ≡ recent vs ++ (v ∷ [])
unfolding recent
recent_short vs v h =
    let short : length vs - 32 ≡ 0 = omega arith in
    let short' : length (vs ++ (v ∷ [])) - 32 ≡ 0 = omega (arith, length-append vs (v ∷ [])) in
    rw (short, short') refl

recent_full :
    (vs bs : List ℕ) (b v : ℕ)
    → 32 ≤ length vs
    → recent vs ≡ b ∷ bs
    → recent (vs ++ (v ∷ [])) ≡ bs ++ (v ∷ [])
unfolding recent
recent_full vs bs b v h e =
    let n = length vs - 32 in
    let more : length (vs ++ (v ∷ [])) - 32 ≡ n + 1 = omega (arith, length-append vs (v ∷ [])) in
    ap (λ k. drop k (vs ++ (v ∷ []))) more
    ∙ drop-append (n + 1) vs (v ∷ []) (omega arith)
    ∙ ap (λ l. l ++ (v ∷ [])) (sym (drop-drop n 1 vs) ∙ ap (drop 1) e)

-- Where the last 32 of the voltages stand when the first slots hold `new` and the others `old`,
-- which is older, or not written yet.
abbrev pub Window : List ℕ → List ℕ → List ℕ → ℕ → Type 0
Window vs new old size =
    ((recent vs ≡ new) × ((size ≡ length new) × (length vs ≡ length new)))
    ⊎ ((recent vs ≡ old ++ new) × ((size ≡ 32) × (32 ≤ length vs)))

pub record Tracks (vs : List ℕ) (b : Battery) : Type 0 where
  pub new : List ℕ
  pub old : List ℕ
  pub table : b.voltage_table ≡ new ++ old
  pub count : b.voltage_measure_cnt % 32 ≡ length new
  pub full : length new + length old ≡ 32
  pub window : Window vs new old b.voltage_table_size

-- When all slots are new, they are the old ones of the next round.
all_old :
    (vs new : List ℕ) (size : ℕ) → length new ≡ 32 → Window vs new [] size → Window vs [] new size
all_old vs new size f (inl (r, (s, l))) = inr (r ∙ sym (append-nil new), (omega arith, omega arith))
all_old vs new size f (inr (r, (s, l))) = inr (r ∙ sym (append-nil new), (s, l))

next :
    (vs new old : List ℕ) (b : Battery)
    → b.voltage_table ≡ new ++ old
    → b.voltage_measure_cnt % 32 ≡ length new % 32
    → length new + length old ≡ 32
    → Window vs new old b.voltage_table_size
    → Tracks vs b
next vs new [] b t c f w = record {
  new = [];
  old = new;
  table = t ∙ append-nil new;
  count = omega (arith, c, f);
  full = omega (arith, f);
  window = all_old vs new b.voltage_table_size (omega (arith, f)) w;
}
next vs new (o ∷ old) b t c f w = record {
  new = new;
  old = o ∷ old;
  table = t;
  count = omega (arith, c, f);
  full = f;
  window = w;
}

-- The window after one voltage more, which takes the place of `o`.
window-next :
    (vs new old : List ℕ) (o v size : ℕ)
    → length new + length (o ∷ old) ≡ 32
    → Window vs new (o ∷ old) size
    → Window (vs ++ (v ∷ [])) (new ++ (v ∷ [])) old (if ltb size 32 then size + 1 else size)
window-next vs new old o v size f (inl (r, (s, l))) =
    let short = lt→ltb size 32 (omega arith) in
    rw short (
      inl (
        recent_short vs v (omega arith) ∙ ap (λ t. t ++ (v ∷ [])) r,
        (
          omega (arith, s, length-append new (v ∷ [])),
          omega (arith, length-append vs (v ∷ []), length-append new (v ∷ []), l),
        ),
      ))
window-next vs new old o v size f (inr (r, (s, l))) = rw s (
    inr (
      recent_full vs (old ++ new) o v l r ∙ append_assoc old new (v ∷ []),
      (refl, omega (arith, length-append vs (v ∷ []), l)),
    ))

record_voltage-table :
    (vs new old : List ℕ) (v : ℕ) (b : Battery)
    → b.voltage_table ≡ new ++ old
    → b.voltage_measure_cnt % 32 ≡ length new
    → length new + length old ≡ 32
    → Window vs new old b.voltage_table_size
    → Tracks (vs ++ (v ∷ [])) (record_voltage v b)
unfolding record_voltage
record_voltage-table vs new [] v b t c f w = absurd (omega arith)
record_voltage-table vs new (o ∷ old) v b t c f w =
    next (vs ++ (v ∷ [])) (new ++ (v ∷ [])) old (record_voltage v b)
      (ap (λ l. set l (b.voltage_measure_cnt % 32) v) t
        ∙ set-append new o old (b.voltage_measure_cnt % 32) v c
        ∙ sym (append_assoc new (v ∷ []) old))
      (omega (arith, c, length-append new (v ∷ []))) (omega (arith, f, length-append new (v ∷ [])))
      (window-next vs new old o v b.voltage_table_size f w)

pub record_voltage-Tracks :
    (vs : List ℕ) (v : ℕ) (b : Battery) → Tracks vs b → Tracks (vs ++ (v ∷ [])) (record_voltage v b)
record_voltage-Tracks vs v b i =
    record_voltage-table vs i.new i.old v b i.table i.count i.full i.window
