-- ===== src/Drv/But.antt =====
-- drv/but.c: the buttons, their edges and their hold times.
-- Of a callback the record tells whether it is set, and a scan tells which it called. `level` is
-- gpio_get_level. A number for a char holds 0 or 1, as the pins and the bits give.
pub mod Hold
pub mod Edges
mod Tests
use Prim.Native.Nat.{bit_or}
use hq_components.Prelude.{
  Bool, List, [], false, if◌then◌else◌, leb, map, true, u32, ℕ, ◌%◌, ◌&&◌, ◌++◌, ◌+◌, ◌/◌, ◌==◌,
  ◌^◌, ◌∷◌,
}

-- but_t
pub record But : Type 0 where
  pub tim_cnt : ℕ
  pub state : ℕ
  pub value : ℕ
  pub gpio : ℕ
  pub bit : ℕ
  pub is_gpio : Bool
  pub has_rise : Bool
  pub has_fall : Bool
  pub has_timer : Bool
  pub has_timer_long : Bool

-- What a scan calls: buzzer_click and the four callbacks.
pub data Call : Type 0 where
  click rise fall timer timer_long : Call

abbrev pub timer_cnt_timeout : ℕ
timer_cnt_timeout = 20

abbrev pub timer_long_cnt_timeout : ℕ
timer_long_cnt_timeout = 100

-- read_button; the expander's pins are the bits of read_i2c_value.
unfoldable pub read_button : (ℕ → ℕ) → ℕ → But → ℕ
read_button level read_i2c_value b =
    if b.is_gpio then level b.gpio else read_i2c_value / 2 ^ b.bit % 2

-- What init_but_struct writes of a button.
unfoldable pub init_but : ℕ → ℕ → But → But
init_but gpio bit b = record b {
  state = 0;
  value = 1;
  has_rise = false;
  has_fall = false;
  has_timer = false;
  gpio = gpio;
  bit = bit;
  is_gpio = true;
}

abbrev pub when : Bool → Call → List Call
when test call = if test then call ∷ [] else []

-- The calls of the edge part of process_button's loop, for a level that is read.
unfoldable pub edge : ℕ → But → List Call
edge red_val b =
    if red_val == b.value
    then []
    else if red_val == 1
    then when b.has_rise rise
    else if red_val == 0 && b.has_fall
    then click ∷ fall ∷ []
    else []

-- The timer part, first test: the counter is the one after its increment.
unfoldable pub short_hold : But → List Call × But
short_hold b =
    if leb timer_cnt_timeout b.tim_cnt && b.state == 0
    then (when b.has_timer timer, record b { state = 1 })
    else ([], b)

-- The second test of the timer part.
unfoldable pub long_hold : But → List Call × But
long_hold b =
    if leb timer_long_cnt_timeout b.tim_cnt && b.state == 1
    then (when b.has_timer_long timer_long, record b { tim_cnt = 0; state = 2 })
    else ([], b)

-- One round of process_button's loop.
unfoldable pub process_button : ℕ → But → List Call × But
unfolding edge short_hold long_hold
process_button red_val b =
    let seen : But = record b { value = red_val } in
    if red_val == 0
    then (let (short, b') = short_hold (record seen { tim_cnt = u32 (b.tim_cnt + 1) }) in
        let (long, b'') = long_hold b' in (edge red_val b ++ (short ++ long), b''))
    else (edge red_val b, record seen { tim_cnt = 0; state = 0 })

-- The rounds for one button at the levels that it reads in turn.
unfoldable pub run : List ℕ → But → List Call × But
unfolding process_button
run [] b = ([], b)
run (level ∷ levels) b =
    let (here, b') = process_button level b in
    let (later, b'') = run levels b' in (here ++ later, b'')

-- A pass over but_tab, with the calls of each button.
unfoldable pub pass : (ℕ → ℕ) → ℕ → List But → List (List Call × But)
unfolding process_button read_button
pass level read_i2c_value bs = map (λ b. process_button (read_button level read_i2c_value b) b) bs

-- set_bit_mask
unfoldable pub set_bit_mask : List But → ℕ → ℕ
set_bit_mask [] mask = mask
set_bit_mask (b ∷ bs) mask = set_bit_mask bs (if b.is_gpio then bit_or mask (2 ^ b.gpio) else mask)
