-- ===== src/OledUi/Oled/Glyphs/Tests.antt =====
-- Glyphs on small canvases.
use hq_components.Prelude.{
  List, arith, if◌then◌else◌, leb, length, ltb, refl, replicate, suc, zero, ℕ, ◌&&◌, ◌+◌, ◌-◌, ◌==◌,
  ◌≡◌,
}
use hq_components.OledUi.Oled.{white, draw_glcd}
use hq_components.OledUi.Oled.Pixels.{pixel, shade}
use hq_components.OledUi.Oled.Glyphs.{is_inked}
use hq_components.OledUi.Oled.Glyphs.Stamp.{is_under, draw_glcd-stamp}
use hq_components.OledUi.Oled.Glyphs.Edge.{draw_glcd-edge}

abbrev canvas : List ℕ
canvas = replicate 1024 0

-- Three columns and two rows: ink at the left and right above, in the middle below.
abbrev glyph : ℕ → ℕ
glyph zero = 5
glyph (suc k) = 2

draw_glcd-stamp_example :
    let (result, drawn) = draw_glcd white 3 glyph 10 20 2 canvas in
    (result ≡ 3)
    × (length drawn ≡ 1024)
    × (pixel 12 20 drawn
        ≡ (if is_under 3 2 glyph 10 20 12 20 then shade white else pixel 12 20 canvas))
draw_glcd-stamp_example =
    draw_glcd-stamp white 3 glyph 10 20 12 20 2 canvas (omega arith) (omega arith) (omega arith)
      (omega arith) refl

draw_glcd-edge_example :
    let (result, drawn) = draw_glcd white 3 glyph 124 20 2 canvas in
    (result ≡ 0)
    × (pixel 126 20 drawn ≡ (
        if (20 == 20 && (leb 124 126 && ltb 126 (124 + 3))) && is_inked 3 glyph (126 - 124) 0
        then shade white
        else pixel 126 20 canvas))
draw_glcd-edge_example =
    draw_glcd-edge white 3 glyph 124 20 126 20 2 canvas (omega arith) (omega arith) (omega arith)
      (omega arith) (omega arith) (omega arith) refl
