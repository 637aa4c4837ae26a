-- ===== src/OledUi/Oled/Glyphs.antt =====
-- The three loops of draw_GLCD as a search for one pixel.
pub mod Stamp
pub mod Edge
mod Tests
use hq_components.Prelude.{
  Bool, List, arith, bit_at, bit_test, false, if◌then◌else◌, leb, length, ltb, not, refl, suc, true,
  u32, zero, ℕ, ◌%◌, ◌&&◌, ◌*◌, ◌+◌, ◌/◌, ◌<◌, ◌==◌, ◌^◌, ◌||◌, ◌∙◌, ◌≡◌, ◌≤◌,
}
use Prim.Native.Nat.{bit_and, bit_or}
use hq_components.OledUi.Oled.{
  Color, black, white, bytes_width, is_past, paint, draw_bits, draw_bytes, draw_rows, draw_glcd,
}
use hq_components.OledUi.Oled.Pixels.{pixel, shade, pixel-paint, length-paint}

-- Whether the column `k` of the row `i` of a glyph is inked.
unfoldable pub is_inked : ℕ → (ℕ → ℕ) → ℕ → ℕ → Bool
is_inked w glyph k i = ltb k w && not (bit_at (k % 8) (glyph (i * bytes_width w + k / 8)) == 0)

not_past : (a b : ℕ) → a < 128 → b < 64 → is_past a b ≡ false
not_past a b ha hb = ground arith

module _ (color : Color) (w : ℕ) (glyph : ℕ → ℕ) (x y : ℕ) (px py : ℕ) where
  -- Whether the column `k` of the row `i` paints the pixel.
  unfoldable pub hits : ℕ → ℕ → Bool
  hits k i = (px == x + k && py == y + i) && is_inked w glyph k i

  unfoldable pub any_bits : ℕ → ℕ → ℕ → ℕ → Bool
  any_bits zero bit i j = false
  any_bits (suc n) bit i j = hits (j * 8 + bit) i || any_bits n (bit + 1) i j

  unfoldable pub any_bytes : ℕ → ℕ → ℕ → Bool
  unfolding any_bits
  any_bytes zero j i = false
  any_bytes (suc n) j i = any_bits 8 0 i j || any_bytes n (j + 1) i

  unfoldable pub any_rows : ℕ → ℕ → Bool
  unfolding any_bytes
  any_rows zero i = false
  any_rows (suc n) i = any_bytes (bytes_width w) 0 i || any_rows n (i + 1)

  -- A loop went through, kept the size of the canvas, and painted the pixel if the test says so.
  abbrev pub Drawn : Bool → List ℕ → Bool × List ℕ → Type 0
  Drawn test buf r =
      (r.0 ≡ true)
      × (length r.1 ≡ length buf)
      × (pixel px py r.1 ≡ (if test then shade color else pixel px py buf))

  is_inked-bit :
      (i j bit : ℕ)
      → bit < 8
      → is_inked w glyph (j * 8 + bit) i ≡ (
          not (leb w (j * 8 + bit)) && not (bit_and (glyph (i * bytes_width w + j)) (2 ^ bit) == 0))
  unfolding is_inked
  is_inked-bit i j bit h =
      let q : (j * 8 + bit) % 8 ≡ bit = omega arith in
      let d : (j * 8 + bit) / 8 ≡ j = omega arith in
      rw (q, d) (ground (arith, bit_test bit (glyph (i * bytes_width w + j))))

  -- What draw_bits does at one bit.
  abbrev pub at_bit : ℕ → ℕ → ℕ → List ℕ → List ℕ
  at_bit bit i j buf =
      if leb w (j * 8 + bit)
      then buf
      else if bit_and (glyph (i * bytes_width w + j)) (2 ^ bit) == 0
      then buf
      else paint color (u32 (x + j * 8 + bit)) (u32 (y + i)) buf

  pub at_bit_lem :
      (bit i j : ℕ) (buf : List ℕ)
      → bit < 8
      → x + j * 8 + bit < 128
      → y + i < 64
      → px < 128
      → length buf ≡ 1024
      → (length (at_bit bit i j buf) ≡ length buf)
        × (pixel px py (at_bit bit i j buf)
            ≡ (if hits (j * 8 + bit) i then shade color else pixel px py buf))
  unfolding hits
  at_bit_lem bit i j buf hb hx hy hp sized =
      let k = j * 8 + bit in
      let wx : u32 (x + j * 8 + bit) ≡ x + k = omega (arith, hx) in
      let wy : u32 (y + i) ≡ y + i = omega (arith, hy) in
      rw (wx, wy)
        (
          ground (arith, length-paint color (x + k) (y + i) buf),
          ground (
            arith,
            is_inked-bit i j bit hb,
            pixel-paint color (x + k) (y + i) px py buf (omega arith) hy hp sized,
          ),
        )

  either :
      (s t : Bool) (buf b : List ℕ) (r : Bool × List ℕ)
      → length b ≡ length buf
      → pixel px py b ≡ (if s then shade color else pixel px py buf)
      → Drawn t b r
      → Drawn (s || t) buf r
  either s t buf b r l e d = (d.0, d.1 ∙ l, d.2 ∙ ground (arith, e))

  pub bits-step :
      (n bit i j : ℕ) (buf : List ℕ)
      → x + j * 8 + bit < 128
      → y + i < 64
      → draw_bits color w glyph x y (suc n) bit i j buf
        ≡ draw_bits color w glyph x y n (bit + 1) i j (at_bit bit i j buf)
  unfolding draw_bits
  bits-step n bit i j buf hx hy = rw (not_past (x + j * 8 + bit) (y + i) hx hy) refl

  pub bits-Drawn :
      (n bit i j : ℕ) (buf : List ℕ)
      → bit + n ≡ 8
      → x + j * 8 + 8 ≤ 128
      → y + i < 64
      → px < 128
      → length buf ≡ 1024
      → Drawn (any_bits n bit i j) buf (draw_bits color w glyph x y n bit i j buf)
  unfolding draw_bits any_bits
  bits-Drawn zero bit i j buf e hx hy hp sized = (refl, refl, refl)
  bits-Drawn (suc n) bit i j buf e hx hy hp sized =
      let (l, p) = at_bit_lem bit i j buf (omega arith) (omega arith) hy hp sized in
      let b = at_bit bit i j buf in
      let rest = bits-Drawn n (bit + 1) i j b (omega arith) hx hy hp (l ∙ sized) in
      rw (bits-step n bit i j buf (omega arith) hy) (
        either (hits (j * 8 + bit) i) (any_bits n (bit + 1) i j) buf b
          (draw_bits color w glyph x y n (bit + 1) i j b) l p rest)

  bytes-Drawn :
      (n j i : ℕ) (buf : List ℕ)
      → x + (j + n) * 8 ≤ 128
      → y + i < 64
      → px < 128
      → length buf ≡ 1024
      → Drawn (any_bytes n j i) buf (draw_bytes color w glyph x y n j i buf)
  unfolding draw_bytes any_bytes
  bytes-Drawn zero j i buf hx hy hp sized = (refl, refl, refl)
  bytes-Drawn (suc n) j i buf hx hy hp sized =
      let (t, l, p) = bits-Drawn 8 0 i j buf refl (omega arith) hy hp sized in
      let b = (draw_bits color w glyph x y 8 0 i j buf).1 in
      let rest = bytes-Drawn n (j + 1) i b (omega arith) hy hp (l ∙ sized) in
      rw t (
        either (any_bits 8 0 i j) (any_bytes n (j + 1) i) buf b
          (draw_bytes color w glyph x y n (j + 1) i b) l p rest)

  pub rows-Drawn :
      (n i : ℕ) (buf : List ℕ)
      → x + bytes_width w * 8 ≤ 128
      → y + (i + n) ≤ 64
      → px < 128
      → length buf ≡ 1024
      → Drawn (any_rows n i) buf (draw_rows color w glyph x y n i buf)
  unfolding draw_rows any_rows
  rows-Drawn zero i buf hx hy hp sized = (refl, refl, refl)
  rows-Drawn (suc n) i buf hx hy hp sized =
      let (t, l, p) =
        bytes-Drawn (bytes_width w) 0 i buf (omega (arith, hx)) (omega arith) hp sized in
      let b = (draw_bytes color w glyph x y (bytes_width w) 0 i buf).1 in
      let rest = rows-Drawn n (i + 1) b hx (omega arith) hp (l ∙ sized) in
      rw t (
        either (any_bytes (bytes_width w) 0 i) (any_rows n (i + 1)) buf b
          (draw_rows color w glyph x y n (i + 1) b) l p rest)
