-- ===== src/OledUi/Oled/Glyphs/Edge.antt =====
-- A glyph whose padding sticks out of the display.
use hq_components.Prelude.{
  Bool, Bool-cases, List, ap, arith, false, if◌then◌else◌, inl, inr, leb, length, ltb, ltb→le,
  ltb→lt, refl, suc, sym, true, zero, ℕ, ◌&&◌, ◌*◌, ◌+◌, ◌-◌, ◌<◌, ◌==◌, ◌∙◌, ◌≡◌, ◌≤◌,
}
use hq_components.OledUi.Oled.{Color, bytes_width, is_past, draw_bits, draw_bytes, draw_glcd}
use hq_components.OledUi.Oled.Pixels.{pixel, shade}
use hq_components.OledUi.Oled.Glyphs.{
  is_inked, any_bits, any_bytes, at_bit, at_bit_lem, bits-step, bits-Drawn,
}
use hq_components.OledUi.Oled.Glyphs.Stamp.{any_bits-in_row, any_bytes-in_row}

few_bytes : (w : ℕ) → w < 256 → bytes_width w ≤ 32
few_bytes w h = ground arith

past : (a b : ℕ) → 128 ≤ a → a < 4294967296 → is_past a b ≡ true
past a b h w = ground arith

module _ (color : Color) (w : ℕ) (glyph : ℕ → ℕ) (x y : ℕ) (px py : ℕ) where
  bits-past :
      (n bit i j : ℕ) (buf : List ℕ)
      → is_past (x + j * 8 + bit) (y + i) ≡ true
      → draw_bits color w glyph x y (suc n) bit i j buf ≡ (false, buf)
  unfolding draw_bits
  bits-past n bit i j buf e = rw e refl

  -- A loop that may have stopped at the edge kept the size of the canvas, and painted the pixel if
  -- the test says so.
  abbrev Cut : Bool → List ℕ → Bool × List ℕ → Type 0
  Cut test buf r =
      (length r.1 ≡ 1024) × (pixel px py r.1 ≡ (if test then shade color else pixel px py buf))

  no_bits :
      (n bit i j : ℕ) → px < x + j * 8 + bit → any_bits color w glyph x y px py n bit i j ≡ false
  no_bits n bit i j h = any_bits-in_row color w glyph x y px py n bit i j ∙ ground arith

  no_bytes : (n j i : ℕ) → px < x + j * 8 → any_bytes color w glyph x y px py n j i ≡ false
  no_bytes n j i h = any_bytes-in_row color w glyph x y px py n j i ∙ ground arith

  bits-Cut :
      (n bit i j : ℕ) (buf : List ℕ)
      → bit + n ≤ 8
      → x + j * 8 + 8 < 4294967296
      → y + i < 64
      → px < 128
      → length buf ≡ 1024
      → Cut
          (any_bits color w glyph x y px py n bit i j)
          buf
          (draw_bits color w glyph x y n bit i j buf)
  unfolding draw_bits any_bits
  bits-Cut zero bit i j buf e hx hy hp sized = (sized, refl)
  bits-Cut (suc n) bit i j buf e hx hy hp sized = elim (Bool-cases (ltb (x + j * 8 + bit) 128)) [
    | inl l ↦
        let less = ltb→lt (x + j * 8 + bit) 128 l in
        let (s, p) =
          at_bit_lem color w glyph x y px py bit i j buf (omega arith) less hy hp sized in
        let b = at_bit color w glyph x y px py bit i j buf in
        let rest = bits-Cut n (bit + 1) i j b (omega arith) hx hy hp (s ∙ sized) in
        rw (bits-step color w glyph x y px py n bit i j buf less hy)
          (rest.0, rest.1 ∙ ground (arith, p))
    | inr g ↦
        let far = ltb→le (x + j * 8 + bit) 128 g in
        let none_left = no_bits (suc n) bit i j (omega (arith, far, hp)) in
        rw (bits-past n bit i j buf (past (x + j * 8 + bit) (y + i) far (omega arith)))
          (sized, sym (ap (λ t. if t then shade color else pixel px py buf) none_left))
  ]

  bits-stops :
      (n bit i j : ℕ) (buf : List ℕ)
      → 128 < x + j * 8 + (bit + suc n)
      → x + j * 8 + (bit + suc n) < 4294967296
      → y + i < 64
      → (draw_bits color w glyph x y (suc n) bit i j buf).0 ≡ false
  bits-stops zero bit i j buf h b hy =
      ap (λ r. r.0)
        (bits-past zero bit i j buf (past (x + j * 8 + bit) (y + i) (omega arith) (omega arith)))
  bits-stops (suc n) bit i j buf h b hy = elim (Bool-cases (ltb (x + j * 8 + bit) 128)) [
    | inl l ↦
        rw
          (bits-step color w glyph x y px py (suc n) bit i j buf (ltb→lt (x + j * 8 + bit) 128 l)
            hy)
          (bits-stops n (bit + 1) i j (at_bit color w glyph x y px py bit i j buf) (omega arith)
            (omega arith) hy)
    | inr g ↦
        ap (λ r. r.0)
          (bits-past (suc n) bit i j buf
            (past (x + j * 8 + bit) (y + i) (ltb→le (x + j * 8 + bit) 128 g) (omega arith)))
  ]

  bytes-cut :
      (n j i : ℕ) (buf : List ℕ)
      → (draw_bits color w glyph x y 8 0 i j buf).0 ≡ false
      → draw_bytes color w glyph x y (suc n) j i buf
        ≡ (false, (draw_bits color w glyph x y 8 0 i j buf).1)
  unfolding draw_bytes
  bytes-cut n j i buf e = rw e refl

  bytes-next :
      (n j i : ℕ) (buf : List ℕ)
      → (draw_bits color w glyph x y 8 0 i j buf).0 ≡ true
      → draw_bytes color w glyph x y (suc n) j i buf
        ≡ draw_bytes color w glyph x y n (j + 1) i (draw_bits color w glyph x y 8 0 i j buf).1
  unfolding draw_bytes
  bytes-next n j i buf e = rw e refl

  bytes-stops :
      (n j i : ℕ) (buf : List ℕ)
      → 128 < x + (j + suc n) * 8
      → x + (j + suc n) * 8 < 4294967296
      → y + i < 64
      → (draw_bytes color w glyph x y (suc n) j i buf).0 ≡ false
  bytes-stops zero j i buf h b hy =
      ap (λ r. r.0) (bytes-cut zero j i buf (bits-stops 7 0 i j buf (omega arith) (omega arith) hy))
  bytes-stops (suc n) j i buf h b hy =
      elim (Bool-cases (draw_bits color w glyph x y 8 0 i j buf).0) [
        | inl e ↦ rw (bytes-next (suc n) j i buf e) (
            bytes-stops n (j + 1) i (draw_bits color w glyph x y 8 0 i j buf).1 (omega arith)
              (omega arith) hy)
        | inr e ↦ ap (λ r. r.0) (bytes-cut (suc n) j i buf e)
      ]

  bytes-none : (j i : ℕ) (buf : List ℕ) → draw_bytes color w glyph x y zero j i buf ≡ (true, buf)
  unfolding draw_bytes
  bytes-none j i buf = refl

  -- Where the loop over the bits of a byte stopped, the byte reaches over the edge.
  stopped_past :
      (j i : ℕ) (buf : List ℕ)
      → (draw_bits color w glyph x y 8 0 i j buf).0 ≡ false
      → y + i < 64
      → px < 128
      → length buf ≡ 1024
      → px < x + (j + 1) * 8
  stopped_past j i buf e hy hp sized = elim (Bool-cases (leb (x + j * 8 + 8) 128)) [
    | inl l ↦
        let through =
          bits-Drawn color w glyph x y px py 8 0 i j buf refl (ground (arith, l)) hy hp sized in
        absurd (ground (arith, through.0, e))
    | inr g ↦ let over : 128 < x + j * 8 + 8 = ground (arith, g) in omega (arith, over, hp)
  ]

  bytes-Cut :
      (n j i : ℕ) (buf : List ℕ)
      → x + (j + n) * 8 < 4294967296
      → y + i < 64
      → px < 128
      → length buf ≡ 1024
      → Cut (any_bytes color w glyph x y px py n j i) buf (draw_bytes color w glyph x y n j i buf)
  unfolding any_bytes
  bytes-Cut zero j i buf hx hy hp sized = rw (bytes-none j i buf) (sized, refl)
  bytes-Cut (suc n) j i buf hx hy hp sized =
      let (s, p) = bits-Cut 8 0 i j buf (omega arith) (omega arith) hy hp sized in
      let b = (draw_bits color w glyph x y 8 0 i j buf).1 in
      elim (Bool-cases (draw_bits color w glyph x y 8 0 i j buf).0) [
        | inl e ↦
            let rest = bytes-Cut n (j + 1) i b (omega arith) hy hp s in
            rw (bytes-next n j i buf e) (rest.0, rest.1 ∙ ground (arith, p))
        | inr e ↦
            let none_left = no_bytes n (j + 1) i (stopped_past j i buf e hy hp sized) in
            rw (bytes-cut n j i buf e, none_left) (s, ground (arith, p))
      ]

  -- Ink of the first row lies within the width.
  first_row :
      any_bytes color w glyph x y px py (bytes_width w) 0 0
      ≡ ((py == y && (leb x px && ltb px (x + w))) && is_inked w glyph (px - x) 0)
  unfolding is_inked
  first_row = any_bytes-in_row color w glyph x y px py (bytes_width w) 0 0 ∙ ground arith

  -- A glyph of at least one row that starts on the display, but sticks out of it at the right once
  -- its rows are filled up to whole bytes, is drawn in its first row only, although draw_GLCD gives
  -- 0: every pixel of the display under an inked place of the first row takes the color, and every
  -- other pixel of the columns of the display stays as it was.
  pub draw_glcd-edge :
      (h : ℕ) (buf : List ℕ)
      → 0 < h
      → x < 128
      → y < 64
      → 128 < x + bytes_width w * 8
      → w < 256
      → px < 128
      → length buf ≡ 1024
      → let (result, drawn) = draw_glcd color w glyph x y h buf in
        (result ≡ 0)
        × (pixel px py drawn ≡ (
            if (py == y && (leb x px && ltb px (x + w))) && is_inked w glyph (px - x) 0
            then shade color
            else pixel px py buf))
  unfolding draw_glcd
  draw_glcd-edge zero buf hh hx hy over hw hp sized = absurd (omega arith)
  draw_glcd-edge (suc h) buf hh hx hy over hw hp sized =
      let n = bytes_width w in
      let few = few_bytes w hw in
      let some_byte : n ≡ suc (n - 1) = omega (arith, over, hx) in
      let stop : (draw_bytes color w glyph x y n 0 0 buf).0 ≡ false =
        ap (λ k. (draw_bytes color w glyph x y k 0 0 buf).0) some_byte
        ∙ bytes-stops (n - 1) 0 0 buf (omega (arith, over, hx)) (omega (arith, few, hx))
            (omega arith) in
      let row = bytes-Cut n 0 0 buf (omega (arith, few, hx)) (omega arith) hp sized in
      rw stop (refl, row.1 ∙ ap (λ t. if t then shade color else pixel px py buf) first_row)
