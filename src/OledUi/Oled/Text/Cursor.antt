-- ===== src/OledUi/Oled/Text/Cursor.antt =====
-- Where the text cursor goes.
use hq_components.Prelude.{
  ==_iff, Bool, List, [], arith, false, if◌then◌else◌, leb, ltb, refl, true, ℕ, ◌+◌, ◌<◌, ◌==◌,
  ◌||◌, ◌∷◌, ◌≡◌, ◌≢◌, ◌≤◌,
}
use hq_components.OledUi.Oled.Text.{
  Font, FontData, find_bitmap, Screen, CharInfo, advance, print_char, write, print,
  get_glcd_char_bitmap,
}

-- A character of the font at the cursor lies on the canvas.
pub record InCanvas {D : Type 0} (s : Screen D) : Type 0 where
  pub right : s.cursor_x + s.font.width ≤ 128
  pub bottom : s.cursor_y + s.font.height ≤ 64

abbrev pub Without : ℕ → List ℕ → Type 0
Without b [] = Unit {0}
Without b (c ∷ cs) = (c ≢ b) × Without b cs

advance-InCanvas :
    {D : Type 0} (step : ℕ) (s : Screen D)
    → step < 4096
    → InCanvas s
    → InCanvas (advance step s) × ((advance step s).font ≡ s.font)
unfolding advance
advance-InCanvas step s h i = (record { right = ground arith; bottom = ground arith }, ground arith)

-- How far a character moves the cursor.
abbrev pub step_of : CharInfo → ℕ
step_of c = c.width + c.spacing

if-step_of :
    (b : Bool) (x y : CharInfo)
    → step_of x < 4096
    → step_of y < 4096
    → step_of (if b then x else y) < 4096
if-step_of true x y h k = h
if-step_of false x y h k = k

find_bitmap-step_of :
    (font : Font) (tables : List FontData) (unicode : ℕ)
    → font.width ≤ 128
    → step_of (find_bitmap font tables unicode) < 4096
unfolding find_bitmap
find_bitmap-step_of font [] unicode h = omega arith
find_bitmap-step_of font (t ∷ tables) unicode h =
    if-step_of (ltb unicode t.info.first_symbol || leb t.info.last_symbol unicode) _ _
      (find_bitmap-step_of font tables unicode h) (omega arith)

if-InCanvas :
    {D : Type 0} (b : Bool) (x y : ℕ × Screen D)
    → (b ≡ true → InCanvas x.1)
    → InCanvas y.1
    → InCanvas (if b then x else y).1
if-InCanvas true x y h k = h refl
if-InCanvas false x y h k = k

module _ {D : Type 0} (unicode16 : D → ℕ → ℕ × D) where
  print_char-InCanvas : (c : ℕ) (s : Screen D) → InCanvas s → InCanvas (print_char unicode16 c s).1
  unfolding print_char get_glcd_char_bitmap
  print_char-InCanvas c s i =
      if-InCanvas (_ == 65535) _ _ (λ _. record { right = i.right; bottom = i.bottom })
        (advance-InCanvas (step_of (find_bitmap s.font s.font.tables (unicode16 s.decoder c).0)) _
          (find_bitmap-step_of s.font s.font.tables _ (omega (arith, i.right)))
          (record { right = i.right; bottom = i.bottom })).0

  -- write of a byte that is not '\n'
  write-InCanvas : (c : ℕ) (s : Screen D) → c ≢ 10 → InCanvas s → InCanvas (write unicode16 c s).1
  unfolding write
  write-InCanvas c s ne i =
      if-InCanvas (c == 10) _ _ (λ t. absurd (ne ((==_iff c 10).0 t)))
        (if-InCanvas (c == 13) _ _ (λ _. i) (print_char-InCanvas c s i))

  -- When a character of the font fits on the canvas at the cursor, it still does so after the
  -- printing of any text without a new line, whatever the font's tables and the decoder of UTF-8
  -- are.
  pub print-InCanvas :
      (cs : List ℕ) (s : Screen D) → Without 10 cs → InCanvas s → InCanvas (print unicode16 cs s)
  unfolding print
  print-InCanvas [] s w i = i
  print-InCanvas (c ∷ cs) s (ne, w) i =
      print-InCanvas cs (write unicode16 c s).1 w (write-InCanvas c s ne i)
