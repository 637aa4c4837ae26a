-- ===== src/OledUi/Oled/Text/Fonts.antt =====
-- oled_ui/oled.c: the three fonts, and the start of the display.
-- The tables of bytes of the fonts are a parameter; their names are dropped. The record of each is
-- read at the start.
use hq_components.Prelude.{List, Option, [], map, none, some, ℕ, ◌∷◌}
use hq_components.OledUi.Oled.{display_width, display_height, white, clear_screen}
use hq_components.OledUi.Oled.Text.{Info, FontData, Font, Screen, read_unicode_record, set_font}

-- enum oledFontSize
pub data FontSize : Type 0 where
  size_11 size_16 size_26 size_last : FontSize

-- font11, font16 and font26
pub record Fonts : Type 0 where
  pub font11 : Font
  pub font16 : Font
  pub font26 : Font

abbrev no_info : Info
no_info = record { first_symbol = 0; last_symbol = 0; height = 0; count = 0 }

abbrev unread : List ℕ → FontData
unread bytes = record { info = no_info; bytes = bytes }

-- The initial values of the fonts, with the tables of each.
abbrev pub fonts_of : (tables11 tables16 tables26 : List (List ℕ)) → Fonts
fonts_of tables11 tables16 tables26 = record {
  font11 = record { width = 11; height = 13; tables = map unread tables11 };
  font16 = record { width = 16; height = 17; tables = map unread tables16 };
  font26 = record { width = 16; height = 26; tables = map unread tables26 };
}

-- _get_font_table
unfoldable pub get_font_table : Fonts → FontSize → Option Font
get_font_table fonts size_11 = some fonts.font11
get_font_table fonts size_16 = some fonts.font16
get_font_table fonts size_26 = some fonts.font26
get_font_table fonts size_last = none

-- The loop of oled_init over the tables of a font.
unfoldable pub read_tables : List FontData → List FontData
unfolding read_unicode_record
read_tables [] = []
read_tables (t ∷ ts) = record t { info = (read_unicode_record t.bytes).0 } ∷ read_tables ts

abbrev pub read_font : Font → Font
read_font font = record font { tables = read_tables font.tables }

abbrev pub read_fonts : Fonts → Fonts
read_fonts fonts = record {
  font11 = read_font fonts.font11;
  font16 = read_font fonts.font16;
  font26 = read_font fonts.font26;
}

-- oled_init
unfoldable pub oled_init : {D : Type 0} → Fonts → Screen D → Fonts × Screen D
unfolding get_font_table clear_screen set_font read_tables
oled_init fonts s =
    let read = read_fonts fonts in
    (
      read,
      set_font (get_font_table read size_11) (record s { color = white; buf = clear_screen s.buf }),
    )

-- oled_update: what ssd1306_drawBufferFast is given, the place, the size and the bytes.
unfoldable pub oled_update : {D : Type 0} → Screen D → ℕ × ℕ × ℕ × ℕ × List ℕ
oled_update s = (0, 0, display_width, display_height, s.buf)
