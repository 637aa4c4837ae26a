-- ===== src/Drv/WaterFlowSensor.antt =====
-- drv/water_flow_sensor.c: counting pulses, the alert and the supervision of the flow.
-- An operation tells the events it reports and the calls of the timer, in order; the timer runs out
-- as an operation of its own. The name, the pin and the GPIO set-up are left out, and so is the
-- printing; the assertions on pointers hold.
pub mod Volume
pub mod Drought
mod Tests
use hq_components.Prelude.{List, [], if◌then◌else◌, leb, u32, ℕ, ◌*◌, ◌++◌, ◌+◌, ◌/◌, ◌∷◌}

-- water_flow_sensor_state_t
pub data State : Type 0 where
  idle start_measure no_water_short_period no_water_long_period : State

-- water_flow_sensor_t
pub record Sensor : Type 0 where
  pub counter : ℕ
  pub value_cl : ℕ
  pub pulses_per_liter : ℕ
  pub alert_value_l : ℕ
  pub state : State

-- The events of water_flow_sensor_event_t, and the calls of the timer with their periods.
pub data Effect : Type 0 where
  alert_value : ℕ → Effect
  short_no_water long_no_water water_flow_back : Effect
  change_period : ℕ → Effect
  timer_start timer_reset timer_stop : Effect

abbrev pub short_period_ms : ℕ
short_period_ms = 10000

abbrev pub long_period_ms : ℕ
long_period_ms = 60000

-- WATER_FLOW_CONVERT_L_TO_CL
abbrev pub l_to_cl : ℕ → ℕ
l_to_cl l = u32 (l * 100)

-- The middle part of gpio_isr_handler: what a pulse does to the supervision.
unfoldable pub flow : Sensor → List Effect × Sensor
flow d = elim d.state [
  | State.idle ↦ ([], d)
  | State.start_measure ↦ (timer_reset ∷ [], d)
  | _ ↦ (
    water_flow_back ∷ change_period short_period_ms ∷ timer_start ∷ [],
    record d { state = start_measure },
  )
]

-- gpio_isr_handler
unfoldable pub isr : Sensor → List Effect × Sensor
unfolding flow
isr d =
    let counter = u32 (d.counter + 1) in
    let value = l_to_cl counter / d.pulses_per_liter in
    let (es, d') = flow (record d { counter = counter; value_cl = value }) in
    (es ++ (if leb (l_to_cl d'.alert_value_l) value then alert_value value ∷ [] else []), d')

-- vTimerCallback
unfoldable pub timer_callback : Sensor → List Effect × Sensor
timer_callback d = elim d.state [
  | State.start_measure ↦ (
    short_no_water ∷ change_period long_period_ms ∷ timer_start ∷ [],
    record d { state = no_water_short_period },
  )
  | State.no_water_short_period ↦ (
    long_no_water ∷ change_period long_period_ms ∷ timer_start ∷ [],
    record d { state = no_water_long_period },
  )
  | _ ↦ ([], d)
]

-- WaterFlowSensor_Init: the counter and the value are those that stood in the memory.
unfoldable pub init : ℕ → Sensor → Sensor
init pulses d = record d { pulses_per_liter = pulses; alert_value_l = 4294967295; state = idle }

-- WaterFlowSensor_SetAlertValue
unfoldable pub set_alert_value : ℕ → Sensor → Sensor
set_alert_value v d = record d { alert_value_l = v }

-- WaterFlowSensor_ResetValue
unfoldable pub reset_value : Sensor → List Effect × Sensor
reset_value d = (timer_stop ∷ [], record d { value_cl = 0; counter = 0; state = idle })

-- WaterFlowSensor_StartMeasure
unfoldable pub measure : Sensor → List Effect × Sensor
measure d = (
  change_period short_period_ms ∷ timer_start ∷ [],
  record d { value_cl = 0; state = start_measure },
)

-- WaterFlowSensor_StopMeasure
unfoldable pub stop_measure : Sensor → List Effect × Sensor
stop_measure d = (timer_stop ∷ [], record d { state = idle })

-- WaterFlowSensor_GetValue
unfoldable pub get_value : Sensor → ℕ
get_value d = d.value_cl

-- WaterFlowSensor_SetPulsesPerLiter
unfoldable pub set_pulses_per_liter : ℕ → Sensor → Sensor
set_pulses_per_liter p d = record d { pulses_per_liter = p }

-- A pulse, the timer running out, and the calls of the application.
pub data Op : Type 0 where
  pulse timeout reset begin stop : Op
  alert pulses : ℕ → Op

unfoldable pub apply : Op → Sensor → List Effect × Sensor
unfolding isr timer_callback reset_value measure stop_measure set_alert_value set_pulses_per_liter
apply pulse d = isr d
apply timeout d = timer_callback d
apply reset d = reset_value d
apply begin d = measure d
apply stop d = stop_measure d
apply (alert v) d = ([], set_alert_value v d)
apply (pulses p) d = ([], set_pulses_per_liter p d)

unfoldable pub run : List Op → Sensor → List Effect × Sensor
unfolding apply
run [] d = ([], d)
run (op ∷ ops) d = let (es, d') = apply op d in let (fs, d'') = run ops d' in (es ++ fs, d'')
