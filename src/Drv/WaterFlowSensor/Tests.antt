-- ===== src/Drv/WaterFlowSensor/Tests.antt =====
-- Measurements, and the theorems of the sensor at concrete inputs.
use hq_components.Prelude.{List, [], arith, refl, replicate, ◌+◌, ◌∷◌, ◌≡◌, ◌≤◌}
use hq_components.Drv.WaterFlowSensor.{
  State, Sensor, Op, pulse, timeout, reset, begin, run, apply, isr, flow, timer_callback, measure,
  get_value, l_to_cl,
}
use hq_components.Drv.WaterFlowSensor.Volume.{
  alerts, crossed, volume, run-reset_pulses, measure-isr,
}
use hq_components.Drv.WaterFlowSensor.Drought.{count, begins, run-reports}

-- Four pulses a litre, and an alert at one litre.
abbrev sensor : Sensor
sensor = record {
  counter = 7;
  value_cl = 175;
  pulses_per_liter = 4;
  alert_value_l = 1;
  state = State.idle;
}

abbrev dry_spell : List Op
dry_spell = begin ∷ pulse ∷ timeout ∷ timeout ∷ pulse ∷ timeout ∷ []

two_reports : (count (run dry_spell sensor).0).shorts ≡ 2
unfolding run apply isr flow timer_callback measure
two_reports = refl

run-reset_pulses_test :
    let (es, d') = run (reset ∷ replicate 5 pulse) sensor in
    (get_value d' ≡ volume 4 5) × (alerts es ≡ crossed (l_to_cl 1) 4 0 5)
run-reset_pulses_test = run-reset_pulses 5 sensor (omega arith)

-- Two litres, where one pulse was given since the start.
measure-isr_test :
    let d' = (measure sensor).1 in (get_value d' ≡ 0) × (get_value (isr d').1 ≡ volume 4 8)
measure-isr_test = measure-isr sensor (omega arith)

run-reports_example :
    let c = count (run dry_spell sensor).0 in
    (c.backs ≤ c.shorts) × (c.longs ≤ c.shorts) × (c.shorts ≤ c.backs + begins dry_spell)
run-reports_example = run-reports dry_spell sensor refl
