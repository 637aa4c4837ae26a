-- ===== src/Prelude/Bits.antt =====
-- The bits of a number, and what bit_and and bit_or make of them.
use Prim.Native.Nat.{
  ℕ, zero, suc, ◌+◌, ◌*◌, ◌/◌, ◌%◌, ◌≤◌, ◌<◌, min, max, bit_and, bit_or, digits, bit_and-bitwise,
  bit_or-bitwise,
}
use mathlib.Core.Path.{◌≡◌, refl, ap, ◌∙◌}
use mathlib.Core.Bool.{Bool, true, ◌&&◌}
use mathlib.Core.Logic.{◌⊎◌, inl, inr}
use native.Mathlib.Omega.{arith}

-- Bit `q`, counted from the lowest.
abbrev pub bit_at : ℕ → ℕ → ℕ
bit_at zero x = x % 2
bit_at (suc q) x = bit_at q (x / 2)

-- The recursion of the bitwise operations may run on any count that is large enough.
digits_enough :
    (z : ℕ → ℕ) (f : ℕ → ℕ → ℕ) (n m a b : ℕ) → a ≤ n → a ≤ m → digits z f n a b ≡ digits z f m a b
digits_enough z f zero zero a b p q = refl
digits_enough z f zero (suc m) zero b p q = refl
digits_enough z f zero (suc m) (suc a) b p q = absurd (omega arith)
digits_enough z f (suc n) zero zero b p q = refl
digits_enough z f (suc n) zero (suc a) b p q = absurd (omega arith)
digits_enough z f (suc n) (suc m) zero b p q = refl
digits_enough z f (suc n) (suc m) (suc a) b p q =
    omega (arith, digits_enough z f n m (suc a / 2) (b / 2) (omega arith) (omega arith))

pub bit_and_halves : (a b : ℕ) → bit_and a b ≡ bit_and (a / 2) (b / 2) * 2 + min (a % 2) (b % 2)
bit_and_halves zero b = omega (arith, bit_and-bitwise 0 b, bit_and-bitwise 0 (b / 2))
bit_and_halves (suc a) b = omega (
  arith,
  bit_and-bitwise (suc a) b,
  bit_and-bitwise (suc a / 2) (b / 2),
  digits_enough (λ b. zero) min a (suc a / 2) (suc a / 2) (b / 2) (omega arith) (omega arith),
)

pub bit_and-zero : (n a : ℕ) → a ≤ n → bit_and a 0 ≡ 0
bit_and-zero n zero h = refl
bit_and-zero zero (suc a) h = absurd (omega arith)
bit_and-zero (suc n) (suc a) h =
    omega (arith, bit_and_halves (suc a) 0, bit_and-zero n (suc a / 2) (omega arith))

pub bit_or_halves : (a b : ℕ) → bit_or a b ≡ bit_or (a / 2) (b / 2) * 2 + max (a % 2) (b % 2)
bit_or_halves zero b = omega (arith, bit_or-bitwise 0 b, bit_or-bitwise 0 (b / 2))
bit_or_halves (suc a) b = omega (
  arith,
  bit_or-bitwise (suc a) b,
  bit_or-bitwise (suc a / 2) (b / 2),
  digits_enough (λ b. b) max a (suc a / 2) (suc a / 2) (b / 2) (omega arith) (omega arith),
)

pub bit_at-bit_and : (q a b : ℕ) → bit_at q (bit_and a b) ≡ min (bit_at q a) (bit_at q b)
bit_at-bit_and zero a b = omega (arith, bit_and_halves a b)
bit_at-bit_and (suc q) a b =
    let half : bit_and a b / 2 ≡ bit_and (a / 2) (b / 2) = omega (arith, bit_and_halves a b) in
    ap (bit_at q) half ∙ bit_at-bit_and q (a / 2) (b / 2)

pub bit_at-bit_or : (q a b : ℕ) → bit_at q (bit_or a b) ≡ max (bit_at q a) (bit_at q b)
bit_at-bit_or zero a b = omega (arith, bit_or_halves a b)
bit_at-bit_or (suc q) a b =
    let half : bit_or a b / 2 ≡ bit_or (a / 2) (b / 2) = omega (arith, bit_or_halves a b) in
    ap (bit_at q) half ∙ bit_at-bit_or q (a / 2) (b / 2)

pub bit_at-bound : (q x : ℕ) → bit_at q x ≤ 1
bit_at-bound zero x = omega arith
bit_at-bound (suc q) x = bit_at-bound q (x / 2)

-- Whether a test holds of all numbers below `n`.
abbrev pub all_below : ℕ → (ℕ → Bool) → Bool
all_below zero f = true
all_below (suc n) f = f n && all_below n f

last_or_before : (i n : ℕ) → i < suc n → (i ≡ n) ⊎ (i < n)
last_or_before i n l = omega arith

and-true : (a b : Bool) → (a && b) ≡ true → (a ≡ true) × (b ≡ true)
and-true a b h = ground arith

pub all_below_sound : (n : ℕ) (f : ℕ → Bool) (i : ℕ) → all_below n f ≡ true → i < n → f i ≡ true
all_below_sound zero f i h l = absurd (omega arith)
all_below_sound (suc n) f i h l =
    let (last, before) = and-true (f n) (all_below n f) h in
    elim (last_or_before i n l) [
      | inl e ↦ ap f e ∙ last
      | inr less ↦ all_below_sound n f i before less
    ]
