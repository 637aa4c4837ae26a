-- ===== src/Drv/Led/Lights.antt =====
-- The lights follow the last commands.
use hq_components.Prelude.{
  Bool, Bool-cases, List, Option, [], ap, arith, false, if◌then◌else◌, inl, inr, none, refl, some,
  true, ℕ, ◌*◌, ◌/◌, ◌==◌, ◌∙◌, ◌∷◌, ◌≡◌,
}
use hq_components.Drv.PwmDrv.{Call, set_compare_value, Pwm, set_duty, pwm_stop, pwm_init}
use hq_components.Drv.PwmDrv.Hold.{forced, is_running, Held, set_duty-Held, pwm_stop-Held}
use hq_components.Drv.Led.{
  LedName, upper_red, upper_green, bottom_red, bottom_green, number_of, Leds, get_brightness,
  set_led, init_leds,
}

-- A command: the brightness parameter at the time, the light, and whether it is switched on.
pub record Command : Type 0 where
  pub brightness : ℕ
  pub led : LedName
  pub on_off : Bool

-- The commands, the last one first.
unfoldable pub run : List Command → Leds → Leds
run [] leds = leds
run (c ∷ cs) leds = set_led c.brightness c.led c.on_off (run cs leds)

-- The last command to a light.
abbrev pub last_command : LedName → List Command → Option Command
last_command k [] = none
last_command k (c ∷ cs) = if number_of k == number_of c.led then some c else last_command k cs

-- The compare value at the front of the calls.
abbrev pub compare_value : List Call → Option ℕ
compare_value [] = none
compare_value (set_compare_value v ∷ cs) = some v
compare_value (c ∷ cs) = none

-- What a light shows after its last command: before any it is not driven, switched on it follows
-- the timer with the duty of the brightness, and switched off it is held low.
abbrev pub Shows : Option Command → Pwm → Type 0
Shows none dev = (forced dev.calls ≡ none) × (is_running dev.calls ≡ false)
Shows (some c) dev =
    if c.on_off
    then (forced dev.calls ≡ none)
      × (is_running dev.calls ≡ true)
      × (compare_value dev.calls ≡ some (get_brightness c.brightness * 100))
    else (forced dev.calls ≡ some false) × (is_running dev.calls ≡ false)

-- The invariant of a light.
pub record IsLight (last : Option Command) (dev : Pwm) : Type 0 where
  pub held : Held dev
  pub period : dev.ticks_period ≡ 10000
  pub shown : Shows last dev

init_leds-IsLight : (pins : LedName → ℕ) (k : LedName) → IsLight none (init_leds pins k)
unfolding init_leds pwm_init
init_leds-IsLight pins upper_red = record { held = refl; period = refl; shown = (refl, refl) }
init_leds-IsLight pins upper_green = record { held = refl; period = refl; shown = (refl, refl) }
init_leds-IsLight pins bottom_red = record { held = refl; period = refl; shown = (refl, refl) }
init_leds-IsLight pins bottom_green = record { held = refl; period = refl; shown = (refl, refl) }

duty-period : (d : ℕ) (dev : Pwm) → (set_duty d dev).ticks_period ≡ dev.ticks_period
unfolding set_duty
duty-period d dev = refl

duty-compare :
    (d : ℕ) (dev : Pwm) → compare_value (set_duty d dev).calls ≡ some (dev.ticks_period * d / 100)
unfolding set_duty
duty-compare d dev = refl

stop-period : (dev : Pwm) → (pwm_stop false dev).ticks_period ≡ dev.ticks_period
unfolding pwm_stop
stop-period dev = refl

-- The command to a light itself.
command-IsLight :
    (c : Command) (last : Option Command) (dev : Pwm)
    → IsLight last dev
    → IsLight
        (some c)
        ((if c.on_off then set_duty (get_brightness c.brightness) else pwm_stop false) dev)
command-IsLight c last dev l = elim (Bool-cases c.on_off) [
  | inl t ↦
      let d = get_brightness c.brightness in
      let (held, free, runs) = set_duty-Held d dev l.held in
      let value : dev.ticks_period * d / 100 ≡ d * 100 = rw l.period (omega arith) in
      rw t (record {
        held = held;
        period = duty-period d dev ∙ l.period;
        shown = (free, runs, duty-compare d dev ∙ ap some value);
      })
  | inr f ↦
      let (held, low, stops) = pwm_stop-Held false dev in
      rw f (record { held = held; period = stop-period dev ∙ l.period; shown = (low, stops) })
]

-- After init_leds and any commands, every light shows the last command to it, whatever the others
-- got: before any it is not driven; switched on it is free of a forced level and its timer runs with
-- a compare value of 100 ticks for each percent of the brightness; switched off it is held low and
-- its timer stands. The driver knows whether a level is forced.
pub lights-IsLight :
    (pins : LedName → ℕ) (cs : List Command) (k : LedName)
    → IsLight (last_command k cs) (run cs (init_leds pins) k)
unfolding run set_led
lights-IsLight pins [] k = init_leds-IsLight pins k
lights-IsLight pins (c ∷ cs) k = elim (Bool-cases (number_of k == number_of c.led)) [
  | inl t ↦
      rw t (
        command-IsLight c (last_command k cs) (run cs (init_leds pins) k)
          (lights-IsLight pins cs k))
  | inr f ↦ rw f (lights-IsLight pins cs k)
]
