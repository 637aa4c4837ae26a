-- ===== src/OledUi/Oled.antt =====
-- oled_ui/oled.c: the canvas of the display and its glyphs.
-- Coordinates are 32-bit words, the negative ones from 2^31 on. The size of the canvas and its
-- offset of 0 are never changed by the code, and stand for themselves; ssd1306_lcd, the display of
-- the ssd1306 library, is the one of 128 by 64 that the canvas is made for. A glyph is read by
-- `glyph`, the bytes from its address on.
pub mod Pixels
pub mod Glyphs
pub mod Text
use hq_components.Prelude.{
  Bool, List, false, get_or, if◌then◌else◌, leb, ltb, replicate, set, suc, true, u32, u8, write_at,
  zero, ℕ, ◌%◌, ◌*◌, ◌+◌, ◌-◌, ◌/◌, ◌==◌, ◌^◌, ◌||◌,
}
use Prim.Native.Nat.{bit_and, bit_or}

-- DISPLAY_WIDTH and m_w
abbrev pub display_width : ℕ
display_width = 128

-- DISPLAY_HEIGHT and m_h
abbrev pub display_height : ℕ
display_height = 64

-- BLACK and WHITE
pub data Color : Type 0 where
  black white : Color

-- The byte of m_buf that holds a pixel: YADDR1( y ) + x.
abbrev pub byte_of : ℕ → ℕ → ℕ
byte_of x y = y / 8 * display_width + x

-- The tests at the start of oled_putPixel and oled_clearPixel.
abbrev pub is_outside : ℕ → ℕ → Bool
is_outside x y =
    leb 2147483648 x || (leb 2147483648 y || (leb display_width x || leb display_height y))

-- oled_putPixel
unfoldable pub put_pixel : ℕ → ℕ → List ℕ → List ℕ
put_pixel x y buf =
    if is_outside x y
    then buf
    else set buf (byte_of x y) (bit_or (get_or buf (byte_of x y) 0) (2 ^ (y % 8)))

-- oled_clearPixel
unfoldable pub clear_pixel : ℕ → ℕ → List ℕ → List ℕ
clear_pixel x y buf =
    if is_outside x y
    then buf
    else set buf (byte_of x y) (bit_and (get_or buf (byte_of x y) 0) (255 - 2 ^ (y % 8)))

-- What draw_GLCD does to a pixel of a glyph.
unfoldable pub paint : Color → ℕ → ℕ → List ℕ → List ℕ
unfolding put_pixel clear_pixel
paint black x y buf = clear_pixel x y buf
paint white x y buf = put_pixel x y buf

-- The size of a glyph in bytes across.
abbrev pub bytes_width : ℕ → ℕ
bytes_width w = if ltb 0 (w % 8) then w / 8 + 1 else w / 8

-- Where draw_GLCD gives up: the comparison with the unsigned size of the display.
abbrev pub is_past : ℕ → ℕ → Bool
is_past x y = leb display_width (u32 x) || leb display_height (u32 y)

module _ (color : Color) (w : ℕ) (glyph : ℕ → ℕ) (x y : ℕ) where
  -- The loop over `n` bits from `bit` on of the byte `j` in the row `i`: whether it went through,
  -- or draw_GLCD returned.
  unfoldable pub draw_bits : ℕ → ℕ → ℕ → ℕ → List ℕ → Bool × List ℕ
  unfolding paint
  draw_bits zero bit i j buf = (true, buf)
  draw_bits (suc n) bit i j buf =
      let dat = glyph (i * bytes_width w + j) in
      let drawn =
        if leb w (j * 8 + bit)
        then buf
        else if bit_and dat (2 ^ bit) == 0
        then buf
        else paint color (u32 (x + j * 8 + bit)) (u32 (y + i)) buf in
      let rest = draw_bits n (bit + 1) i j drawn in
      if is_past (x + j * 8 + bit) (y + i) then (false, buf) else rest

  -- The loop over `n` bytes from `j` on of the row `i`.
  unfoldable pub draw_bytes : ℕ → ℕ → ℕ → List ℕ → Bool × List ℕ
  unfolding draw_bits
  draw_bytes zero j i buf = (true, buf)
  draw_bytes (suc n) j i buf =
      let (through, drawn) = draw_bits 8 0 i j buf in
      let rest = draw_bytes n (j + 1) i drawn in if through then rest else (false, drawn)

  -- The loop over `n` rows from `i` on.
  unfoldable pub draw_rows : ℕ → ℕ → List ℕ → Bool × List ℕ
  unfolding draw_bytes
  draw_rows zero i buf = (true, buf)
  draw_rows (suc n) i buf =
      let (through, drawn) = draw_bytes (bytes_width w) 0 i buf in
      let rest = draw_rows n (i + 1) drawn in if through then rest else (false, drawn)

  -- draw_GLCD, with the result in front.
  unfoldable pub draw_glcd : ℕ → List ℕ → ℕ × List ℕ
  unfolding draw_rows
  draw_glcd h buf = let (through, drawn) = draw_rows h 0 buf in (if through then u8 w else 0, drawn)

-- oled_clearScreen
unfoldable pub clear_screen : List ℕ → List ℕ
clear_screen buf = write_at buf 0 (replicate (display_height / 8 * display_width) 0)
