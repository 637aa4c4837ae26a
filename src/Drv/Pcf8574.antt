-- ===== src/Drv/Pcf8574.antt =====
-- drv/pcf8574.c: the pins of the port expanders.
-- A write to the bus is the byte of the address and that of the pins; `answer` is the error code of
-- i2c_master_cmd_begin as a byte. `~x & b` of a byte `b` is written with 255 - x.
pub mod Pins
mod Tests
use hq_components.Prelude.{
  List, [], get_or, if◌then◌else◌, leb, ltb, replicate, set, u8, ℕ, ◌&&◌, ◌*◌, ◌+◌, ◌-◌, ◌/◌, ◌==◌,
  ◌^◌, ◌∷◌,
}
use Prim.Native.Nat.{bit_and, bit_or}

-- PCF8574_MAXDEVICES
abbrev pub max_devices : ℕ
max_devices = 8

-- PCF8574_MAXPINS
abbrev pub max_pins : ℕ
max_pins = 8

-- PCF8574_ADDRBASE | I2C_MASTER_WRITE
abbrev pub write_address : ℕ
write_address = 64

-- What an output leaves: the result, the writes to the bus, and pcf8574_pinstatus.
pub record Output : Type 0 where
  pub result : ℕ
  pub bus : List (ℕ × ℕ)
  pub pinstatus : List ℕ

-- pcf8574_init
unfoldable pub init : List ℕ → List ℕ
init pinstatus = replicate max_devices 0

-- pcf8574_getoutput
unfoldable pub get_output : ℕ → List ℕ → ℕ
get_output device pinstatus = if ltb device max_devices then get_or pinstatus device 0 else 255

-- pcf8574_getoutputpin
unfoldable pub get_output_pin : ℕ → ℕ → List ℕ → ℕ
get_output_pin device pin pinstatus =
    if ltb device max_devices && ltb pin max_pins
    then bit_and (get_or pinstatus device 0 / 2 ^ pin) 1
    else 255

-- The part that the outputs share: the new byte is kept and sent.
abbrev pub update : ℕ → ℕ → ℕ → List ℕ → Output
update answer device b pinstatus = record {
  result = answer;
  bus = (write_address, b) ∷ [];
  pinstatus = set pinstatus device b;
}

-- The outputs when an argument is refused.
abbrev pub refused : List ℕ → Output
refused pinstatus = record { result = 255; bus = []; pinstatus = pinstatus }

-- pcf8574_setoutput
unfoldable pub set_output : ℕ → ℕ → ℕ → List ℕ → Output
set_output answer device byte pinstatus =
    if ltb device max_devices then update answer device byte pinstatus else refused pinstatus

-- The mask of `pinlength` pins that ends at the pin `pinstart`.
abbrev pub pins_mask : ℕ → ℕ → ℕ
pins_mask pinstart pinlength = u8 ((2 ^ pinlength - 1) * 2 ^ (pinstart + 1 - pinlength))

-- pcf8574_setoutputpins
unfoldable pub set_output_pins : ℕ → ℕ → ℕ → ℕ → ℕ → List ℕ → Output
set_output_pins answer device pinstart pinlength byte pinstatus =
    if ltb device max_devices
      && (leb pinlength (pinstart + 1)
          && (ltb pinstart max_pins && (ltb 0 pinstart && ltb 0 pinlength)))
    then (let mask = pins_mask pinstart pinlength in
        let shifted = bit_and (u8 (byte * 2 ^ (pinstart + 1 - pinlength))) mask in
        let b = bit_or (bit_and (get_or pinstatus device 0) (255 - mask)) shifted in
        update answer device b pinstatus)
    else refused pinstatus

-- pcf8574_setoutputpin
unfoldable pub set_output_pin : ℕ → ℕ → ℕ → ℕ → List ℕ → Output
set_output_pin answer device pin byte pinstatus =
    if ltb device max_devices && ltb pin max_pins
    then (let b = get_or pinstatus device 0 in
        update answer device (if byte == 0 then bit_and b (255 - 2 ^ pin) else bit_or b (2 ^ pin))
          pinstatus)
    else refused pinstatus

-- pcf8574_setoutputpinhigh
unfoldable pub set_output_pin_high : ℕ → ℕ → ℕ → List ℕ → Output
unfolding set_output_pin
set_output_pin_high answer device pin pinstatus = set_output_pin answer device pin 1 pinstatus

-- pcf8574_setoutputpinlow
unfoldable pub set_output_pin_low : ℕ → ℕ → ℕ → List ℕ → Output
unfolding set_output_pin
set_output_pin_low answer device pin pinstatus = set_output_pin answer device pin 0 pinstatus

-- pcf8574_getinput: `byte` is what i2c_master_read reads, and `answer` the error code, whole here.
unfoldable pub get_input : ℕ → ℕ → ℕ → ℕ
get_input answer byte device =
    if ltb device max_devices then (if answer == 0 then byte else answer) else 0

-- pcf8574_getinputpin
unfoldable pub get_input_pin : ℕ → ℕ → ℕ → ℕ → ℕ
unfolding get_input
get_input_pin answer byte device pin =
    if ltb device max_devices && ltb pin max_pins
    then (let b = u8 (get_input answer byte device) in
        if b == 255 then b else bit_and (b / 2 ^ pin) 1)
    else 255
