-- ===== src/Drv/PwmDrv.antt =====
-- drv/pwm_drv.c: an output with a duty.
-- The calls of the MCPWM library are kept in a list, the last one first; the handles that it gives
-- out are not told apart, as a device has one of each. A duty is a whole number of percent, as
-- drv/led.c gives it, for which the float arithmetic is exact.
pub mod Hold
use hq_components.Prelude.{Bool, List, [], false, if◌then◌else◌, true, ℕ, ◌*◌, ◌/◌, ◌∷◌}

-- pwm_drv_mode_t
pub data Mode : Type 0 where
  duty_mode_high duty_mode_low : Mode

-- What an output does at an event.
pub data Action : Type 0 where
  action_low action_high : Action

-- The calls of the libraries that change the output. A level is forced with force_level, and
-- released with release_level, mcpwm_generator_set_force_level at -1.
pub data Call : Type 0 where
  new_timer : (timer_group period_ticks : ℕ) → Call
  new_operator : (timer_group : ℕ) → Call
  connect_timer new_comparator timer_enable : Call
  new_generator : (pin : ℕ) → Call
  set_compare_value : ℕ → Call
  set_action_on_empty set_action_on_compare : Action → Call
  timer_start timer_stop : Call
  force_level : Bool → Call
  release_level : Call

-- pwm_drv_t, with the calls made for the device.
pub record Pwm : Type 0 where
  pub mode : Mode
  pub frequency : ℕ
  pub ticks_period : ℕ
  pub pin : ℕ
  pub timer_group : ℕ
  pub is_hold_on : Bool
  pub calls : List Call

abbrev pub at_empty : Mode → Action
at_empty duty_mode_high = action_high
at_empty duty_mode_low = action_low

abbrev pub at_compare : Mode → Action
at_compare duty_mode_high = action_low
at_compare duty_mode_low = action_high

-- _init_pwm; the frequency is not 0.
unfoldable pub init_pwm : Pwm → Pwm
init_pwm dev =
    let ticks_period = 1000000 / dev.frequency in
    record dev {
      ticks_period = ticks_period;
      calls =
          timer_enable
          ∷ set_action_on_compare (at_compare dev.mode)
          ∷ set_action_on_empty (at_empty dev.mode)
          ∷ set_compare_value 0
          ∷ new_generator dev.pin
          ∷ new_comparator
          ∷ connect_timer
          ∷ new_operator dev.timer_group
          ∷ new_timer dev.timer_group ticks_period
          ∷ dev.calls;
    }

-- PWMDrv_Init
unfoldable pub pwm_init : Mode → ℕ → ℕ → ℕ → Pwm
unfolding init_pwm
pwm_init mode frequency timer_group pin = init_pwm (record {
  mode = mode;
  frequency = frequency;
  ticks_period = 0;
  pin = pin;
  timer_group = timer_group;
  is_hold_on = false;
  calls = [];
})

-- PWMDrv_SetDuty
unfoldable pub set_duty : ℕ → Pwm → Pwm
set_duty duty dev =
    let released = if dev.is_hold_on then release_level ∷ dev.calls else dev.calls in
    record dev {
      is_hold_on = false;
      calls = set_compare_value (dev.ticks_period * duty / 100) ∷ timer_start ∷ released;
    }

-- PWMDrv_Stop
unfoldable pub pwm_stop : Bool → Pwm → Pwm
pwm_stop is_high dev = record dev {
  is_hold_on = true;
  calls = force_level is_high ∷ timer_stop ∷ dev.calls;
}
