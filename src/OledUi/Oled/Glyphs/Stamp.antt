-- ===== src/OledUi/Oled/Glyphs/Stamp.antt =====
-- A glyph on the canvas, and the glyphs at its right edge.
use hq_components.Prelude.{
  ==_iff, Bool, Bool-cases, List, ap, arith, if◌then◌else◌, inl, inr, leb, length, ltb, suc, zero,
  ℕ, ◌&&◌, ◌*◌, ◌+◌, ◌-◌, ◌<◌, ◌==◌, ◌∙◌, ◌≡◌, ◌≤◌,
}
use hq_components.OledUi.Oled.{Color, bytes_width, draw_glcd}
use hq_components.OledUi.Oled.Pixels.{pixel, shade}
use hq_components.OledUi.Oled.Glyphs.{is_inked, hits, any_bits, any_bytes, any_rows, rows-Drawn}

-- The pixel lies under the glyph, at an inked place.
abbrev pub is_under : ℕ → ℕ → (ℕ → ℕ) → ℕ → ℕ → ℕ → ℕ → Bool
is_under w h glyph x y px py =
    ((leb x px && ltb px (x + w)) && (leb y py && ltb py (y + h)))
    && is_inked w glyph (px - x) (py - y)

module _ (color : Color) (w : ℕ) (glyph : ℕ → ℕ) (x y : ℕ) (px py : ℕ) where
  -- The pixel lies in the columns between two bounds of the row `i`, and the glyph has ink there.
  abbrev pub in_row : ℕ → ℕ → ℕ → Bool
  in_row from to i =
      (py == y + i && (leb (x + from) px && ltb px (x + to))) && is_inked w glyph (px - x) i

  hits-in_row : (k i : ℕ) → hits color w glyph x y px py k i ≡ in_row k (k + 1) i
  unfolding hits
  hits-in_row k i = elim (Bool-cases (px == x + k)) [
    | inl e ↦
        let at : px - x ≡ k = omega (arith, (==_iff px (x + k)).0 e) in
        rw (e, at) (ground (arith, (==_iff px (x + k)).0 e))
    | inr e ↦ ground (arith, e)
  ]

  pub any_bits-in_row :
      (n bit i j : ℕ)
      → any_bits color w glyph x y px py n bit i j ≡ in_row (j * 8 + bit) (j * 8 + bit + n) i
  unfolding any_bits
  any_bits-in_row zero bit i j = ground arith
  any_bits-in_row (suc n) bit i j =
      ground (arith, hits-in_row (j * 8 + bit) i, any_bits-in_row n (bit + 1) i j)

  pub any_bytes-in_row :
      (n j i : ℕ) → any_bytes color w glyph x y px py n j i ≡ in_row (j * 8) ((j + n) * 8) i
  unfolding any_bytes
  any_bytes-in_row zero j i = ground arith
  any_bytes-in_row (suc n) j i =
      ground (arith, any_bits-in_row 8 0 i j, any_bytes-in_row n (j + 1) i)

  any_rows-under :
      (n i : ℕ)
      → any_rows color w glyph x y px py n i ≡ (
          ((leb x px && ltb px (x + bytes_width w * 8)) && (leb (y + i) py && ltb py (y + i + n)))
          && is_inked w glyph (px - x) (py - y))
  unfolding any_rows
  any_rows-under zero i = ground arith
  any_rows-under (suc n) i = elim (Bool-cases (py == y + i)) [
    | inl e ↦
        let at : py - y ≡ i = omega (arith, (==_iff py (y + i)).0 e) in
        rw (any_bytes-in_row (bytes_width w) 0 i, any_rows-under n (i + 1), at, e)
          (ground (arith, (==_iff py (y + i)).0 e))
    | inr e ↦ ground (arith, any_bytes-in_row (bytes_width w) 0 i, any_rows-under n (i + 1), e)
  ]

  -- Ink lies within the width.
  inked-width : (h : ℕ) → any_rows color w glyph x y px py h 0 ≡ is_under w h glyph x y px py
  unfolding is_inked
  inked-width h = ground (arith, any_rows-under h 0)

  -- A glyph that lies on the display with the whole bytes of its rows is drawn: draw_GLCD gives its
  -- width, every pixel under an inked place of it takes the color, and every other pixel of the
  -- canvas stays as it was.
  pub draw_glcd-stamp :
      (h : ℕ) (buf : List ℕ)
      → w < 256
      → x + bytes_width w * 8 ≤ 128
      → y + h ≤ 64
      → px < 128
      → length buf ≡ 1024
      → let (result, drawn) = draw_glcd color w glyph x y h buf in
        (result ≡ w)
        × (length drawn ≡ 1024)
        × (pixel px py drawn
            ≡ (if is_under w h glyph x y px py then shade color else pixel px py buf))
  unfolding draw_glcd
  draw_glcd-stamp h buf hw hx hy hp sized =
      let (t, l, p) = rows-Drawn color w glyph x y px py h 0 buf hx (omega arith) hp sized in
      (
        rw t (omega arith),
        l ∙ sized,
        p ∙ ap (λ b. if b then shade color else pixel px py buf) (inked-width h),
      )
