-- ===== src/OledUi/Oled/Pixels.antt =====
-- One pixel of the canvas.
use hq_components.Prelude.{
  ==_iff, Bool-cases, List, ap, arith, bit_at, bit_at-clear, bit_at-set, get_or, get_or-set_ne,
  get_or-set_self, if◌then◌else◌, inl, inr, length, length-set, refl, set, sym, true, ℕ, ◌%◌, ◌&&◌,
  ◌-◌, ◌<◌, ◌==◌, ◌^◌, ◌∙◌, ◌≡◌,
}
use Prim.Native.Nat.{bit_and, bit_or}
use hq_components.OledUi.Oled.{Color, black, white, byte_of, put_pixel, clear_pixel, paint}

-- Whether a pixel is lit, as a bit.
unfoldable pub pixel : ℕ → ℕ → List ℕ → ℕ
pixel x y buf = bit_at (y % 8) (get_or buf (byte_of x y) 0)

abbrev pub shade : Color → ℕ
shade black = 0
shade white = 1

-- A pixel after one byte of the canvas has been replaced.
pixel-set :
    (x y px py b : ℕ) (buf : List ℕ)
    → x < 128
    → y < 64
    → length buf ≡ 1024
    → pixel px py (set buf (byte_of x y) b)
      ≡ (if byte_of px py == byte_of x y then bit_at (py % 8) b else pixel px py buf)
unfolding pixel
pixel-set x y px py b buf hx hy sized = ground (
  arith,
  get_or-set_self buf (byte_of x y) b 0,
  get_or-set_ne buf (byte_of x y) (byte_of px py) b 0,
)

-- Two pixels of the canvas are the same when their bytes and their bits are.
same_pixel :
    (x y px py : ℕ)
    → x < 128
    → px < 128
    → (px == x && py == y) ≡ (byte_of px py == byte_of x y && py % 8 == y % 8)
same_pixel x y px py h k = ground arith

abbrev new_byte : Color → ℕ → ℕ → ℕ
new_byte black y b = bit_and b (255 - 2 ^ (y % 8))
new_byte white y b = bit_or b (2 ^ (y % 8))

paint-inside :
    (c : Color) (x y : ℕ) (buf : List ℕ)
    → x < 128
    → y < 64
    → paint c x y buf ≡ set buf (byte_of x y) (new_byte c y (get_or buf (byte_of x y) 0))
unfolding paint put_pixel clear_pixel
paint-inside black x y buf hx hy = ground arith
paint-inside white x y buf hx hy = ground arith

bit-new_byte :
    (c : Color) (q y b : ℕ)
    → q < 8
    → bit_at q (new_byte c y b) ≡ (if q == y % 8 then shade c else bit_at q b)
bit-new_byte black q y b h = bit_at-clear (y % 8) q b (omega arith) h
bit-new_byte white q y b h = bit_at-set (y % 8) q b (omega arith) h

same_byte :
    (x y px py : ℕ) (buf : List ℕ)
    → (byte_of px py == byte_of x y) ≡ true
    → bit_at (py % 8) (get_or buf (byte_of x y) 0) ≡ pixel px py buf
unfolding pixel
same_byte x y px py buf e =
    ap (λ k. bit_at (py % 8) (get_or buf k 0)) (sym ((==_iff (byte_of px py) (byte_of x y)).0 e))

-- Painting a pixel of the canvas gives it the color and leaves every other one as it is.
pub pixel-paint :
    (c : Color) (x y px py : ℕ) (buf : List ℕ)
    → x < 128
    → y < 64
    → px < 128
    → length buf ≡ 1024
    → pixel px py (paint c x y buf) ≡ (if px == x && py == y then shade c else pixel px py buf)
pixel-paint c x y px py buf hx hy k sized =
    let old = get_or buf (byte_of x y) 0 in
    let q = py % 8 in
    ap (pixel px py) (paint-inside c x y buf hx hy)
    ∙ pixel-set x y px py (new_byte c y old) buf hx hy sized
    ∙ elim (Bool-cases (byte_of px py == byte_of x y)) [
      | inl e ↦
          rw (same_pixel x y px py hx k, e)
            (bit-new_byte c q y old (omega arith)
              ∙ ap (λ v. if q == y % 8 then shade c else v) (same_byte x y px py buf e))
      | inr e ↦ rw (same_pixel x y px py hx k, e) refl
    ]

pub length-paint : (c : Color) (x y : ℕ) (buf : List ℕ) → length (paint c x y buf) ≡ length buf
unfolding paint put_pixel clear_pixel
length-paint black x y buf =
    ground (
      arith,
      length-set buf (byte_of x y) (bit_and (get_or buf (byte_of x y) 0) (255 - 2 ^ (y % 8))),
    )
length-paint white x y buf =
    ground (arith, length-set buf (byte_of x y) (bit_or (get_or buf (byte_of x y) 0) (2 ^ (y % 8))))
