-- ===== src/OledUi/Oled/Text.antt =====
-- oled_ui/oled.c: fonts, the text cursor and printing.
-- `unicode16` is ssd1306_unicode16FromUtf8 of the ssd1306 library with the state that it keeps:
-- 0xffff asks for more bytes. A table of a font is read by `data`, and bytes are put together by
-- sums, as they share no bits.
pub mod Cursor
pub mod Fonts
mod Tests
use hq_components.Prelude.{
  Bool, List, Option, [], drop, get_or, if◌then◌else◌, leb, ltb, none, some, u32, u8, ℕ, ◌%◌, ◌&&◌,
  ◌*◌, ◌+◌, ◌-◌, ◌/◌, ◌==◌, ◌||◌, ◌∷◌,
}
use hq_components.OledUi.Oled.{Color, black, white, display_width, display_height, draw_glcd}

-- oledGLCDInfo
pub record Info : Type 0 where
  pub first_symbol : ℕ
  pub last_symbol : ℕ
  pub height : ℕ
  pub count : ℕ

-- struct oledFontData
pub record FontData : Type 0 where
  pub info : Info
  pub bytes : List ℕ

-- struct oledFont
pub record Font : Type 0 where
  pub width : ℕ
  pub height : ℕ
  pub tables : List FontData

-- SCharInfo, with the bytes from the glyph's address on; `none` is NULL.
pub record CharInfo : Type 0 where
  pub width : ℕ
  pub height : ℕ
  pub spacing : ℕ
  pub glyph : Option (List ℕ)

-- _read_unicode_record: the record, and whether the result is not NULL.
unfoldable pub read_unicode_record : List ℕ → Info × Bool
read_unicode_record p =
    let first = get_or p 3 0 * 256 + get_or p 2 0 in
    let last = get_or p 5 0 * 256 + get_or p 4 0 in
    let count = (last + 65536 - first) % 65536 in
    (
      record { first_symbol = first; last_symbol = last; height = get_or p 6 0; count = count },
      ltb 0 count,
    )

-- The loop of _get_GLCD_char_bitmap over the tables of a font.
unfoldable pub find_bitmap : Font → List FontData → ℕ → CharInfo
find_bitmap font [] unicode = record {
  width = 0;
  height = 0;
  spacing = font.width / 2;
  glyph = none;
}
find_bitmap font (t ∷ tables) unicode =
    let rest = find_bitmap font tables unicode in
    if ltb unicode t.info.first_symbol || leb t.info.last_symbol unicode
    then rest
    else (let jump = drop ((unicode - t.info.first_symbol) * 4 + 8) t.bytes in
        let addr = get_or jump 3 0 * 65536 + get_or jump 2 0 * 256 + get_or jump 1 0 in
        record {
          width = u8 (get_or jump 0 0);
          height = font.height;
          spacing = 1;
          glyph = some (drop addr t.bytes);
        })

-- _get_GLCD_char_bitmap
unfoldable pub get_glcd_char_bitmap : Font → ℕ → CharInfo
unfolding find_bitmap
get_glcd_char_bitmap font unicode = find_bitmap font font.tables unicode

-- The static variables that printing works on; `decoder` is the state of unicode16.
pub record Screen (D : Type 0) : Type 0 where
  pub cursor_x : ℕ
  pub cursor_y : ℕ
  pub buf : List ℕ
  pub color : Color
  pub font : Font
  pub decoder : D

-- The comparison `>` of an int with the size of the canvas less that of a character.
abbrev pub is_over : ℕ → ℕ → ℕ → Bool
is_over cursor canvas size = ltb (canvas - size) cursor && ltb cursor 2147483648

abbrev pub bytes_of : Option (List ℕ) → List ℕ
bytes_of none = []
bytes_of (some bytes) = bytes

-- oled_setGLCDFont; `get_font_table` is _get_font_table over the tables of the fonts.
unfoldable pub set_font : {D : Type 0} → Option Font → Screen D → Screen D
set_font none s = s
set_font (some font) s = record s { font = font }

-- oled_setCursor
unfoldable pub set_cursor : {D : Type 0} → ℕ → ℕ → Screen D → Screen D
set_cursor x y s = record s { cursor_x = x; cursor_y = y }

-- The move of the cursor in oled_printGLCDChar.
unfoldable pub advance : {D : Type 0} → ℕ → Screen D → Screen D
advance step s =
    let x = u32 (s.cursor_x + step) in
    let y = u32 (s.cursor_y + s.font.height) in
    if is_over x display_width s.font.width
    then record s {
      cursor_x = 0;
      cursor_y = if is_over y display_height s.font.height then 0 else y;
    }
    else record s { cursor_x = x }

module _ {D : Type 0} (unicode16 : D → ℕ → ℕ × D) where
  -- oled_printGLCDChar
  unfoldable pub print_char : ℕ → Screen D → ℕ × Screen D
  unfolding get_glcd_char_bitmap draw_glcd advance
  print_char c s =
      let (unicode, d) = unicode16 s.decoder c in
      let read : Screen D = record s { decoder = d } in
      if unicode == 65535
      then (0, read)
      else (let info = get_glcd_char_bitmap s.font unicode in
          let glyph = λ (k : ℕ). get_or (bytes_of info.glyph) k 0 in
          let drawn =
            (draw_glcd s.color info.width glyph s.cursor_x s.cursor_y info.height s.buf).1 in
          (1, advance (info.width + info.spacing) (record read { buf = drawn })))

  -- write
  unfoldable pub write : ℕ → Screen D → ℕ × Screen D
  unfolding print_char
  write c s =
      if c == 10
      then (1, record s { cursor_x = 0; cursor_y = u32 (s.cursor_y + s.font.height) })
      else if c == 13
      then (1, s)
      else print_char c s

  -- oled_print, of the bytes before the closing 0.
  unfoldable pub print : List ℕ → Screen D → Screen D
  unfolding write
  print [] s = s
  print (c ∷ cs) s = print cs (write c s).1

  -- oled_printBlack
  unfoldable pub print_black : List ℕ → Screen D → Screen D
  unfolding print
  print_black cs s = record (print cs (record s { color = black })) { color = white }

  -- oled_printFixed
  unfoldable pub print_fixed : ℕ → ℕ → List ℕ → Option Font → Screen D → Screen D
  unfolding print set_font set_cursor
  print_fixed x y cs font s = print cs (set_cursor x y (set_font font s))

  -- oled_printFixedBlack
  unfoldable pub print_fixed_black : ℕ → ℕ → List ℕ → Option Font → Screen D → Screen D
  unfolding print_fixed
  print_fixed_black x y cs font s = record (print_fixed x y cs font (record s { color = black })) {
    color = white;
  }
