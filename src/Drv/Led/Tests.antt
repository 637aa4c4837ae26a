-- ===== src/Drv/Led/Tests.antt =====
-- Two commands to the lights.
use hq_components.Prelude.{List, [], false, refl, true, ◌∷◌, ◌≡◌}
use hq_components.Drv.Led.{upper_red, upper_green, number_of, get_brightness, init_leds}
use hq_components.Drv.Led.Lights.{Command, run, last_command, IsLight, lights-IsLight}

-- Green on at brightness 3, after red was switched off.
abbrev commands : List Command
commands =
    record { brightness = 3; led = upper_green; on_off = true }
    ∷ record { brightness = 10; led = upper_red; on_off = false }
    ∷ []

lights-IsLight_example :
    IsLight (last_command upper_green commands) (run commands (init_leds number_of) upper_green)
lights-IsLight_example = lights-IsLight number_of commands upper_green

brightness_test : (get_brightness 0 ≡ 100) × (get_brightness 9 ≡ 90) × (get_brightness 10 ≡ 100)
unfolding get_brightness
brightness_test = (refl, refl, refl)
