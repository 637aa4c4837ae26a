-- ===== src/Drv/Led.antt =====
-- drv/led.c: the lights.
-- The array pwm_drv is a function of its index. parameters_getValue( PARAM_BRIGHTNESS ) is an
-- argument, and so are the pins, which the application's config names.
pub mod Lights
mod Tests
use hq_components.Prelude.{Bool, false, if◌then◌else◌, leb, ltb, ℕ, ◌*◌, ◌==◌, ◌||◌}
use hq_components.Drv.PwmDrv.{Pwm, duty_mode_high, pwm_init, set_duty, pwm_stop}

-- LEDs_t
pub data LedName : Type 0 where
  upper_red upper_green bottom_red bottom_green : LedName

abbrev pub number_of : LedName → ℕ
number_of upper_red = 0
number_of upper_green = 1
number_of bottom_red = 2
number_of bottom_green = 3

abbrev pub Leds : Type 0
Leds = LedName → Pwm

-- A change of one entry of the array.
abbrev pub change : LedName → (Pwm → Pwm) → Leds → Leds
change led f leds k = if number_of k == number_of led then f (leds k) else leds k

-- _get_brightness
unfoldable pub get_brightness : ℕ → ℕ
get_brightness value = if ltb value 1 || leb 10 value then 100 else value * 10

-- _set_led
unfoldable pub set_led : ℕ → LedName → Bool → Leds → Leds
unfolding get_brightness set_duty pwm_stop
set_led brightness led on_off leds =
    change led (if on_off then set_duty (get_brightness brightness) else pwm_stop false) leds

-- set_motor_green_led
unfoldable pub set_motor_green_led : ℕ → Bool → Leds → Leds
unfolding set_led
set_motor_green_led brightness on_off leds = set_led brightness upper_green on_off leds

-- set_servo_green_led
unfoldable pub set_servo_green_led : ℕ → Bool → Leds → Leds
unfolding set_led
set_servo_green_led brightness on_off leds = set_led brightness bottom_green on_off leds

-- set_motor_red_led
unfoldable pub set_motor_red_led : ℕ → Bool → Leds → Leds
unfolding set_led
set_motor_red_led brightness on_off leds = set_led brightness upper_red on_off leds

-- set_servo_red_led
unfoldable pub set_servo_red_led : ℕ → Bool → Leds → Leds
unfolding set_led
set_servo_red_led brightness on_off leds = set_led brightness bottom_red on_off leds

-- init_leds
unfoldable pub init_leds : (LedName → ℕ) → Leds
unfolding pwm_init
init_leds pins upper_red = pwm_init duty_mode_high 100 0 (pins upper_red)
init_leds pins bottom_red = pwm_init duty_mode_high 100 0 (pins bottom_red)
init_leds pins upper_green = pwm_init duty_mode_high 100 0 (pins upper_green)
init_leds pins bottom_green = pwm_init duty_mode_high 100 1 (pins bottom_green)
