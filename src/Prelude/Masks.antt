-- ===== src/Prelude/Masks.antt =====
-- The masks of single bits: what they read, set and clear.
use Prim.Native.Nat.{ℕ, zero, suc, ◌-◌, ◌/◌, ◌%◌, ◌^◌, ◌<◌, bit_and, bit_or}
use mathlib.Core.Path.{◌≡◌, refl, ap, ◌∙◌}
use mathlib.Core.Bool.{true}
use native.Mathlib.Nat.{pow-suc}
use native.Mathlib.Omega.{arith}
use hq_components.Prelude.Tests.{◌==◌, ==_iff, if◌then◌else◌}
use hq_components.Prelude.Bits.{
  bit_at, bit_and-zero, bit_and_halves, bit_at-bit_and, bit_at-bit_or, bit_at-bound, all_below,
  all_below_sound,
}

div-bit : (p x : ℕ) → p < 8 → x / 2 ^ p % 2 ≡ bit_at p x
div-bit zero x h = omega arith
div-bit (suc zero) x h = omega arith
div-bit (suc (suc zero)) x h = omega arith
div-bit (suc (suc (suc zero))) x h = omega arith
div-bit (suc (suc (suc (suc zero)))) x h = omega arith
div-bit (suc (suc (suc (suc (suc zero))))) x h = omega arith
div-bit (suc (suc (suc (suc (suc (suc zero)))))) x h = omega arith
div-bit (suc (suc (suc (suc (suc (suc (suc zero))))))) x h = omega arith
div-bit (suc (suc (suc (suc (suc (suc (suc (suc k)))))))) x h = absurd (omega arith)

-- Shifting a number by a pin and taking its lowest bit reads the pin.
pub shifted-bit : (p x : ℕ) → p < 8 → bit_and (x / 2 ^ p) 1 ≡ bit_at p x
shifted-bit p x h =
    let y = x / 2 ^ p in
    let last : bit_and y 1 ≡ y % 2 =
      omega (arith, bit_and_halves y 1, bit_and-zero (y / 2) (y / 2) (omega arith)) in
    last ∙ div-bit p x h

highs : all_below 8 (λ p. all_below 8 (λ q. bit_at q (2 ^ p) == (if q == p then 1 else 0))) ≡ true
highs = refl

pub bit_at-high : (p q : ℕ) → p < 8 → q < 8 → bit_at q (2 ^ p) ≡ (if q == p then 1 else 0)
bit_at-high p q h l =
    let row =
      all_below_sound 8 (λ p. all_below 8 (λ q. bit_at q (2 ^ p) == (if q == p then 1 else 0))) p
        highs h in
    (==_iff (bit_at q (2 ^ p)) (if q == p then 1 else 0)).0
      (all_below_sound 8 (λ q. bit_at q (2 ^ p) == (if q == p then 1 else 0)) q row l)

lows :
    all_below 8 (λ p. all_below 8 (λ q. bit_at q (255 - 2 ^ p) == (if q == p then 0 else 1))) ≡ true
lows = refl

pub bit_at-low : (p q : ℕ) → p < 8 → q < 8 → bit_at q (255 - 2 ^ p) ≡ (if q == p then 0 else 1)
bit_at-low p q h l =
    let row =
      all_below_sound 8
        (λ p. all_below 8 (λ q. bit_at q (255 - 2 ^ p) == (if q == p then 0 else 1))) p lows h in
    (==_iff (bit_at q (255 - 2 ^ p)) (if q == p then 0 else 1)).0
      (all_below_sound 8 (λ q. bit_at q (255 - 2 ^ p) == (if q == p then 0 else 1)) q row l)

pub bit_at-set :
    (p q b : ℕ) → p < 8 → q < 8 → bit_at q (bit_or b (2 ^ p)) ≡ (if q == p then 1 else bit_at q b)
bit_at-set p q b h l =
    ground (arith, bit_at-bit_or q b (2 ^ p), bit_at-high p q h l, bit_at-bound q b)

pub bit_at-clear :
    (p q b : ℕ)
    → p < 8
    → q < 8
    → bit_at q (bit_and b (255 - 2 ^ p)) ≡ (if q == p then 0 else bit_at q b)
bit_at-clear p q b h l =
    ground (arith, bit_at-bit_and q b (255 - 2 ^ p), bit_at-low p q h l, bit_at-bound q b)

-- Masking a number by one bit tests the bit.
pub bit_test : (p x : ℕ) → (bit_and x (2 ^ p) == 0) ≡ (bit_at p x == 0)
bit_test zero x = ground (arith, bit_and_halves x 1, bit_and-zero (x / 2) (x / 2))
bit_test (suc p) x =
    let half : 2 ^ suc p / 2 ≡ 2 ^ p = omega (arith, pow-suc 2 p) in
    let more : bit_and (x / 2) (2 ^ suc p / 2) ≡ bit_and (x / 2) (2 ^ p) =
      ap (bit_and (x / 2)) half in
    ground (arith, bit_and_halves x (2 ^ suc p), more, pow-suc 2 p, bit_test p (x / 2))
