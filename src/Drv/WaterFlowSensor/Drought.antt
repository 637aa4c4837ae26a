-- ===== src/Drv/WaterFlowSensor/Drought.antt =====
-- The reports of missing water and of its return follow one another.
use hq_components.Prelude.{List, [], arith, refl, suc, ℕ, ◌++◌, ◌+◌, ◌∷◌, ◌≡◌, ◌≤◌}
use hq_components.Drv.WaterFlowSensor.{
  State, Sensor, Effect, alert_value, short_no_water, long_no_water, water_flow_back, change_period,
  timer_start, timer_reset, timer_stop, flow, isr, timer_callback, reset_value, measure,
  stop_measure, Op, pulse, timeout, reset, begin, stop, alert, pulses, apply, run,
}

-- How often water is reported missing for a short and for a long time, and back.
pub record Count : Type 0 where
  pub shorts : ℕ
  pub longs : ℕ
  pub backs : ℕ

abbrev pub count : List Effect → Count
count [] = record { shorts = 0; longs = 0; backs = 0 }
count (short_no_water ∷ es) = let c = count es in record c { shorts = suc c.shorts }
count (long_no_water ∷ es) = let c = count es in record c { longs = suc c.longs }
count (water_flow_back ∷ es) = let c = count es in record c { backs = suc c.backs }
count (alert_value v ∷ es) = count es
count (change_period p ∷ es) = count es
count (timer_start ∷ es) = count es
count (timer_reset ∷ es) = count es
count (timer_stop ∷ es) = count es

abbrev pub begins : List Op → ℕ
begins [] = 0
begins (begin ∷ ops) = suc (begins ops)
begins (pulse ∷ ops) = begins ops
begins (timeout ∷ ops) = begins ops
begins (reset ∷ ops) = begins ops
begins (stop ∷ ops) = begins ops
begins (alert v ∷ ops) = begins ops
begins (pulses p ∷ ops) = begins ops

-- Water is reported missing, for a short time only, and it is watched for.
abbrev dry : State → ℕ
dry State.no_water_short_period = 1
dry State.no_water_long_period = 1
dry _ = 0

abbrev briefly : State → ℕ
briefly State.no_water_short_period = 1
briefly _ = 0

abbrev watched : State → ℕ
watched State.start_measure = 1
watched _ = 0

apply-counts :
    (op : Op) (d : Sensor) (rest : List Effect)
    → let (es, d') = apply op d in
      let c = count (es ++ rest) in
      let r = count rest in
      (c.backs + r.shorts + dry d'.state ≤ r.backs + c.shorts + dry d.state)
      × (c.longs + r.shorts + briefly d'.state ≤ r.longs + c.shorts + briefly d.state)
      × (c.shorts + r.backs + watched d'.state
          ≤ r.shorts + c.backs + begins (op ∷ []) + watched d.state)
unfolding apply isr flow timer_callback reset_value measure stop_measure
apply-counts _ d rest = ground arith

begins-cons : (op : Op) (ops : List Op) → begins (op ∷ ops) ≡ begins (op ∷ []) + begins ops
begins-cons _ ops = ground arith

run-apply :
    (op : Op) (ops : List Op) (d : Sensor)
    → run (op ∷ ops) d ≡ ((apply op d).0 ++ (run ops (apply op d).1).0, (run ops (apply op d).1).1)
unfolding run
run-apply op ops d = refl

run-none : (d : Sensor) → run [] d ≡ ([], d)
unfolding run
run-none d = refl

run-counts :
    (ops : List Op) (d : Sensor)
    → let (es, d') = run ops d in
      let c = count es in
      (c.backs + dry d'.state ≤ c.shorts + dry d.state)
      × (c.longs + briefly d'.state ≤ c.shorts + briefly d.state)
      × (c.shorts + watched d'.state ≤ c.backs + begins ops + watched d.state)
run-counts [] d = rw (run-none d) (omega arith, omega arith, omega arith)
run-counts (op ∷ ops) d =
    let d' = (apply op d).1 in
    let one = apply-counts op d (run ops d').0 in
    let all = run-counts ops d' in
    let b = begins-cons op ops in
    rw (run-apply op ops d)
      (omega (arith, one.0, all.0), omega (arith, one.1, all.1), omega (arith, one.2, all.2, b))

-- Whatever the pulses, the timer and the application do, in any order, from an idle sensor: water is
-- reported back at most as often as it was reported missing, missing for a long time at most as
-- often as for a short one, and missing for a short time at most once for each start of a
-- measurement and each report that it is back.
pub run-reports :
    (ops : List Op) (d : Sensor)
    → d.state ≡ State.idle
    → let c = count (run ops d).0 in
      (c.backs ≤ c.shorts) × (c.longs ≤ c.shorts) × (c.shorts ≤ c.backs + begins ops)
run-reports ops d i =
    let all = run-counts ops d in
    let quiet : (dry d.state ≡ 0) × (briefly d.state ≡ 0) × (watched d.state ≡ 0) =
      rw i (refl, refl, refl) in
    (omega (arith, all.0, quiet.0), omega (arith, all.1, quiet.1), omega (arith, all.2, quiet.2))
