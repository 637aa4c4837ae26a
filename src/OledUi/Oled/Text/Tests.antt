-- ===== src/OledUi/Oled/Text/Tests.antt =====
-- A text of two characters in a small font.
use hq_components.Prelude.{[], arith, refl, replicate, ℕ, ◌∷◌, ◌≡◌}
use hq_components.OledUi.Oled.{white}
use hq_components.OledUi.Oled.Text.{Font, FontData, Screen, print, write}
use hq_components.OledUi.Oled.Text.Cursor.{InCanvas, print-InCanvas}

-- The characters 'A' and 'B', each of 5 columns and one row.
abbrev table : FontData
table = record {
  info = record { first_symbol = 65; last_symbol = 67; height = 1; count = 2 };
  bytes = 0 ∷ 0 ∷ 65 ∷ 0 ∷ 67 ∷ 0 ∷ 1 ∷ 0 ∷ 5 ∷ 16 ∷ 0 ∷ 0 ∷ 5 ∷ 17 ∷ 0 ∷ 0 ∷ 21 ∷ 10 ∷ [];
}

abbrev font : Font
font = record { width = 5; height = 1; tables = table ∷ [] }

abbrev screen : Screen (Unit {0})
screen = record {
  cursor_x = 120;
  cursor_y = 63;
  buf = replicate 1024 0;
  color = white;
  font = font;
  decoder = tt;
}

-- Bytes stand for themselves.
abbrev ascii : Unit {0} → ℕ → ℕ × Unit {0}
ascii d c = (c, d)

print-InCanvas_example : InCanvas (print ascii (65 ∷ 66 ∷ []) screen)
print-InCanvas_example =
    print-InCanvas ascii (65 ∷ 66 ∷ []) screen (omega arith, (omega arith, tt))
      (record { right = omega arith; bottom = omega arith })

cursor_of : {D : Type 0} → Screen D → ℕ × ℕ
cursor_of s = (s.cursor_x, s.cursor_y)

-- The second character starts at the top again.
print_wraps : cursor_of (print ascii (65 ∷ 66 ∷ []) screen) ≡ (6, 0)
unfolding cursor_of print
print_wraps = refl

-- A new line leaves the canvas.
write-newline_leaves : cursor_of (write ascii 10 screen).1 ≡ (0, 64)
unfolding cursor_of write
write-newline_leaves = refl
