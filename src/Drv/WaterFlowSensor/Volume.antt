-- ===== src/Drv/WaterFlowSensor/Volume.antt =====
-- The volume that is measured, and when the alert is raised.
use hq_components.Prelude.{
  List, [], ap, arith, if◌then◌else◌, leb, refl, replicate, suc, sym, u32, zero, ℕ, ◌*◌, ◌++◌, ◌+◌,
  ◌/◌, ◌<◌, ◌∙◌, ◌∷◌, ◌≡◌,
}
use hq_components.Drv.WaterFlowSensor.{
  State, Sensor, Effect, alert_value, short_no_water, long_no_water, water_flow_back, change_period,
  timer_start, timer_reset, timer_stop, flow, isr, reset_value, measure, Op, pulse, reset, apply,
  run, get_value, l_to_cl, idle,
}

-- The values that are reported to be at or above the alert value.
abbrev pub alerts : List Effect → List ℕ
alerts [] = []
alerts (alert_value v ∷ es) = v ∷ alerts es
alerts (short_no_water ∷ es) = alerts es
alerts (long_no_water ∷ es) = alerts es
alerts (water_flow_back ∷ es) = alerts es
alerts (change_period p ∷ es) = alerts es
alerts (timer_start ∷ es) = alerts es
alerts (timer_reset ∷ es) = alerts es
alerts (timer_stop ∷ es) = alerts es

-- The volume of `k` pulses in centilitres.
abbrev pub volume : ℕ → ℕ → ℕ
volume p k = k * 100 / p

-- The volumes behind the first `i` pulses, up to `i + n`, that are at least `limit`.
abbrev pub crossed : ℕ → ℕ → ℕ → ℕ → List ℕ
crossed limit p i zero = []
crossed limit p i (suc n) =
    if leb limit (volume p (i + 1))
    then volume p (i + 1) ∷ crossed limit p (i + 1) n
    else crossed limit p (i + 1) n

isr-lem :
    (d : Sensor) (rest : List Effect)
    → d.counter * 100 + 100 < 4294967296
    → let (es, d') = isr d in
      (d'.counter ≡ d.counter + 1)
      × (d'.value_cl ≡ volume d.pulses_per_liter (d.counter + 1))
      × (d'.pulses_per_liter ≡ d.pulses_per_liter)
      × (d'.alert_value_l ≡ d.alert_value_l)
      × (alerts (es ++ rest) ≡ (
          if leb (l_to_cl d.alert_value_l) (volume d.pulses_per_liter (d.counter + 1))
          then volume d.pulses_per_liter (d.counter + 1) ∷ alerts rest
          else alerts rest))
unfolding isr flow
isr-lem d rest h =
    let e : u32 (d.counter + 1) ≡ d.counter + 1 = omega arith in
    let e' : u32 ((d.counter + 1) * 100) ≡ (d.counter + 1) * 100 = omega arith in
    rw (e, e') (ground arith)

run-pulse :
    (ops : List Op) (d : Sensor)
    → run (pulse ∷ ops) d ≡ ((isr d).0 ++ (run ops (isr d).1).0, (run ops (isr d).1).1)
unfolding run apply
run-pulse ops d = refl

-- The value is the volume of the pulses that are counted.
pub record IsMeasured (d : Sensor) : Type 0 where
  pub measured : d.value_cl ≡ volume d.pulses_per_liter d.counter

isr-IsMeasured : (d : Sensor) → d.counter * 100 + 100 < 4294967296 → IsMeasured (isr d).1
isr-IsMeasured d h =
    let one = isr-lem d [] h in
    record {
      measured =
          one.1
          ∙ ap (λ c. volume d.pulses_per_liter c) (sym one.0)
          ∙ ap (λ p. volume p (isr d).1.counter) (sym one.2);
    }

run-none : (d : Sensor) → run [] d ≡ ([], d)
unfolding run
run-none d = refl

zero-volume : (p : ℕ) → 0 ≡ volume p 0
zero-volume zero = refl
zero-volume (suc p) = grind arith

run-pulses :
    (n : ℕ) (d : Sensor)
    → (d.counter + n) * 100 < 4294967296
    → IsMeasured d
    → let (es, d') = run (replicate n pulse) d in
      (d'.counter ≡ d.counter + n)
      × (d'.value_cl ≡ volume d.pulses_per_liter (d.counter + n))
      × (alerts es ≡ crossed (l_to_cl d.alert_value_l) d.pulses_per_liter d.counter n)
run-pulses zero d h m =
    let e : d.counter + 0 ≡ d.counter = omega arith in rw (run-none d, e) (refl, m.measured, refl)
run-pulses (suc n) d h m =
    let d' = (isr d).1 in
    let one = isr-lem d (run (replicate n pulse) d').0 (omega arith) in
    let all = run-pulses n d' (omega (arith, one.0)) (isr-IsMeasured d (omega arith)) in
    let counted : d'.counter + n ≡ d.counter + suc n = omega (arith, one.0) in
    let later : alerts (run (replicate n pulse) d').0
        ≡ crossed (l_to_cl d.alert_value_l) d.pulses_per_liter (d.counter + 1) n =
      all.2
      ∙ ap (λ c. crossed (l_to_cl d'.alert_value_l) d'.pulses_per_liter c n) one.0
      ∙ ap (λ p. crossed (l_to_cl d'.alert_value_l) p (d.counter + 1) n) one.2
      ∙ ap (λ a. crossed (l_to_cl a) d.pulses_per_liter (d.counter + 1) n) one.3 in
    let p = d.pulses_per_liter in
    let v = volume p (d.counter + 1) in
    rw (run-pulse (replicate n pulse) d) (
      all.0 ∙ counted,
      all.1 ∙ ap (λ q. volume q (d'.counter + n)) one.2 ∙ ap (volume p) counted,
      one.4 ∙ ap (λ es. if leb (l_to_cl d.alert_value_l) v then v ∷ es else es) later,
    )

run-reset :
    (ops : List Op) (d : Sensor)
    → run (reset ∷ ops) d ≡ (
      timer_stop ∷ (run ops (record d { value_cl = 0; counter = 0; state = idle })).0,
      (run ops (record d { value_cl = 0; counter = 0; state = idle })).1,
    )
unfolding run apply reset_value
run-reset ops d = refl

-- After a reset, `n` pulses are measured as their volume in centilitres, and the alert is raised
-- at each of the pulses whose volume reaches the alert value, with that volume, and at no other:
-- where the pulses times a hundred fit a word.
pub run-reset_pulses :
    (n : ℕ) (d : Sensor)
    → n * 100 < 4294967296
    → let (es, d') = run (reset ∷ replicate n pulse) d in
      (get_value d' ≡ volume d.pulses_per_liter n)
      × (alerts es ≡ crossed (l_to_cl d.alert_value_l) d.pulses_per_liter 0 n)
unfolding get_value
run-reset_pulses n d h =
    let d0 : Sensor = record d { value_cl = 0; counter = 0; state = idle } in
    let e : 0 + n ≡ n = omega arith in
    let nothing : 0 ≡ volume d.pulses_per_liter 0 = zero-volume d.pulses_per_liter in
    let all = run-pulses n d0 (omega arith) (record { measured = nothing }) in
    rw (run-reset (replicate n pulse) d) (all.1 ∙ ap (volume d.pulses_per_liter) e, all.2)

-- A measurement that is started again goes on with the pulses of the one before: the value is set
-- to zero, but the next pulse gives the volume of all pulses since the reset.
pub measure-isr :
    (d : Sensor)
    → d.counter * 100 + 100 < 4294967296
    → let d' = (measure d).1 in
      (get_value d' ≡ 0) × (get_value (isr d').1 ≡ volume d.pulses_per_liter (d.counter + 1))
unfolding measure get_value
measure-isr d h = (refl, (isr-lem (record d { value_cl = 0; state = State.start_measure }) [] h).1)
