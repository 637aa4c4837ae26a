-- ===== src/Drv/Battery/Average.antt =====
-- The average of the rounds is that of the last 32 voltages.
use hq_components.Prelude.{
  Bool, List, [], ap, append-nil, append_assoc, arith, drop, inl, inr, length, length-append,
  length-drop, refl, replicate, suc, sym, true, zero, ℕ, ◌*◌, ◌++◌, ◌+◌, ◌-◌, ◌/◌, ◌<◌, ◌∙◌, ◌∷◌,
  ◌≡◌, ◌≤◌,
}
use hq_components.Drv.PowerOn.{Ctx}
use hq_components.Drv.Battery.{Battery, started, measured, sum_loop, record_voltage, step, run}
use hq_components.Drv.Battery.Recent.{
  total, recent, total-append, sum_loop_lem, Window, Tracks, record_voltage-Tracks, AllBelow,
}

sum-Window :
    (vs new old : List ℕ) (size : ℕ)
    → length new + length old ≡ 32
    → total (recent vs) < 4294967296
    → Window vs new old size
    → (sum_loop (new ++ old) size 0 0 ≡ total (recent vs)) × (size ≡ length (recent vs))
sum-Window vs new old size f h (inl (r, (s, l))) =
    let same = ap total r in
    let summed = sum_loop_lem [] new old 0 (omega (arith, h, same)) in
    (ap (λ k. sum_loop (new ++ old) k 0 0) s ∙ summed ∙ omega (arith, same), s ∙ ap length (sym r))
sum-Window vs new old size f h (inr (r, (s, l))) =
    let same : total (recent vs) ≡ total new + total old =
      ap total r ∙ total-append old new ∙ omega arith in
    let both = total-append new old in
    let summed = sum_loop_lem [] (new ++ old) [] 0 (omega (arith, h, same, both)) in
    (
      ap (λ k. sum_loop (new ++ old) k 0 0) (s ∙ sym f ∙ sym (length-append new old))
          ∙ ap (λ l. sum_loop l (length (new ++ old)) 0 0) (sym (append-nil (new ++ old)))
          ∙ summed
          ∙ omega (arith, same, both),
      s ∙ sym f ∙ omega (arith, length-append old new, ap length r),
    )

sum-Tracks :
    (vs : List ℕ) (b : Battery)
    → Tracks vs b
    → total (recent vs) < 4294967296
    → (sum_loop b.voltage_table b.voltage_table_size 0 0 ≡ total (recent vs))
      × (b.voltage_table_size ≡ length (recent vs))
sum-Tracks vs b i h =
    let s = sum-Window vs i.new i.old b.voltage_table_size i.full h i.window in
    (ap (λ t. sum_loop t b.voltage_table_size 0 0) i.table ∙ s.0, s.1)

-- The sum of at most 32 voltages below 10 V fits.
total-AllBelow : (vs : List ℕ) → AllBelow 10000 vs → total vs ≤ 10000 * length vs
unfolding total
total-AllBelow [] a = omega arith
total-AllBelow (v ∷ vs) a = omega (arith, total-AllBelow vs a.1, a.0)

drop-AllBelow : (n : ℕ) (vs : List ℕ) → AllBelow 10000 vs → AllBelow 10000 (drop n vs)
drop-AllBelow zero vs a = a
drop-AllBelow (suc n) [] a = tt
drop-AllBelow (suc n) (v ∷ vs) a = drop-AllBelow n vs a.1

recent-fits : (vs : List ℕ) → AllBelow 10000 vs → total (recent vs) < 4294967296
unfolding recent
recent-fits vs a =
    let n = length vs - 32 in
    omega (arith, total-AllBelow (drop n vs) (drop-AllBelow n vs a), length-drop n vs)

started-Tracks : Tracks [] started
unfolding recent
started-Tracks = record {
  new = [];
  old = replicate 32 0;
  table = refl;
  count = refl;
  full = refl;
  window = inl (refl, (refl, refl));
}

average-record_voltage :
    (v : ℕ) (b : Battery)
    → let b' = record_voltage v b in
      (b'.voltage_average
        ≡ sum_loop b'.voltage_table b'.voltage_table_size 0 0 / b'.voltage_table_size)
      × (b'.voltage_is_measured ≡ true)
unfolding record_voltage
average-record_voltage v b = (refl, refl)

-- The voltages of some rounds.
abbrev pub voltages : Bool → List (List ℕ) → List ℕ
voltages calibrated [] = []
voltages calibrated (r ∷ rs) = measured calibrated r ∷ voltages calibrated rs

run-cons :
    (calibrated : Bool) (r : List ℕ) (rs : List (List ℕ)) (b : Battery) (c : Ctx)
    → run calibrated (r ∷ rs) (b, c) ≡ run calibrated rs (step calibrated r (b, c))
unfolding run
run-cons calibrated r rs b c = refl

run-none : (calibrated : Bool) (b : Battery) (c : Ctx) → run calibrated [] (b, c) ≡ (b, c)
unfolding run
run-none calibrated b c = refl

-- The average is that of the slots in use.
Averaged : Battery → Type 0
Averaged b =
    b.voltage_average ≡ sum_loop b.voltage_table b.voltage_table_size 0 0 / b.voltage_table_size

step-lem :
    (calibrated : Bool) (r : List ℕ) (vs : List ℕ) (b : Battery) (c : Ctx)
    → Tracks vs b
    → let b' = (step calibrated r (b, c)).0 in
      Tracks (vs ++ (measured calibrated r ∷ [])) b' × Averaged b'
unfolding step Averaged
step-lem calibrated r vs b c i =
    let v = measured calibrated r in
    (record_voltage-Tracks vs v b i, (average-record_voltage v b).0)

run-Tracks :
    (calibrated : Bool) (rs : List (List ℕ)) (vs : List ℕ) (b : Battery) (c : Ctx)
    → Tracks vs b
    → Averaged b
    → let b' = (run calibrated rs (b, c)).0 in
      Tracks (vs ++ voltages calibrated rs) b' × Averaged b'
run-Tracks calibrated [] vs b c i a = rw (run-none calibrated b c, append-nil vs) (i, a)
run-Tracks calibrated (r ∷ rs) vs b c i a =
    let (b', c') = step calibrated r (b, c) in
    let one = step-lem calibrated r vs b c i in
    rw
      (
        run-cons calibrated r rs b c,
        sym (append_assoc vs (measured calibrated r ∷ []) (voltages calibrated rs)),
      )
      (run-Tracks calibrated rs (vs ++ (measured calibrated r ∷ [])) b' c' one.0 one.1)

started-Averaged : Averaged started
unfolding Averaged sum_loop
started-Averaged = refl

-- When all voltages are below 10 V, the average after some rounds is the sum of the last 32
-- voltages, or of all when they are fewer, divided by their number.
pub run-recent :
    (calibrated : Bool) (r : List ℕ) (rs : List (List ℕ)) (c : Ctx)
    → let vs = voltages calibrated (r ∷ rs) in
      AllBelow 10000 vs
      → (run calibrated (r ∷ rs) (started, c)).0.voltage_average
        ≡ total (recent vs) / length (recent vs)
unfolding Averaged
run-recent calibrated r rs c h =
    let vs = voltages calibrated (r ∷ rs) in
    let (i, a) = run-Tracks calibrated (r ∷ rs) [] started c started-Tracks started-Averaged in
    let (sum, size) = sum-Tracks vs (run calibrated (r ∷ rs) (started, c)).0 i (recent-fits vs h) in
    a
    ∙ ap (λ n. n / (run calibrated (r ∷ rs) (started, c)).0.voltage_table_size) sum
    ∙ ap (λ n. total (recent vs) / n) size
