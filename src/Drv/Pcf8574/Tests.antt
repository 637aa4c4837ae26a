-- ===== src/Drv/Pcf8574/Tests.antt =====
-- The pins of an expander, and the theorem at a concrete input.
use hq_components.Prelude.{List, [], arith, if◌then◌else◌, refl, set, ℕ, ◌&&◌, ◌<◌, ◌==◌, ◌∷◌, ◌≡◌}
use hq_components.Drv.Pcf8574.{
  get_output, get_output_pin, set_output_pin, set_output_pins, set_output, get_input_pin,
}
use hq_components.Drv.Pcf8574.Pins.{set_output_pin_lem}

abbrev lit : List ℕ
lit = 110 ∷ 255 ∷ 0 ∷ 0 ∷ 0 ∷ 0 ∷ 0 ∷ 0 ∷ []

-- The example in the comment of pcf8574_setoutputpins: 0b01101110 becomes 0b01110110.
three_pins : (set_output_pins 0 0 4 3 5 lit).pinstatus ≡ set lit 0 118
unfolding set_output_pins
three_pins = refl

-- There is no ninth expander.
ninth_refused : (set_output 0 8 1 lit).result ≡ 255
unfolding set_output
ninth_refused = refl

-- A failed read is taken for the pins: 263 is ESP_ERR_TIMEOUT.
error_as_pins : get_input_pin 263 0 0 1 ≡ 1
unfolding get_input_pin
error_as_pins = refl

-- All pins high is reported as 255 for each of them.
all_high : get_input_pin 0 255 0 1 ≡ 255
unfolding get_input_pin
all_high = refl

set_output_pin_lem_example :
    let o = set_output_pin 0 1 3 0 lit in
    (o.result ≡ 0)
    × (o.bus ≡ (64, get_output 1 o.pinstatus) ∷ [])
    × ((d p : ℕ)
        → d < 8
        → p < 8
        → get_output_pin d p o.pinstatus ≡ (if d == 1 && p == 3 then 0 else get_output_pin d p lit))
set_output_pin_lem_example = set_output_pin_lem 0 1 3 0 lit refl (omega arith) (omega arith)
