-- ===== src/Prelude/Words.antt =====
-- The unsigned words of C, and the little-endian bytes that `memcpy` moves on the ESP32.
use Prim.Native.Nat.{ℕ, ◌+◌, ◌-◌, ◌*◌, ◌/◌, ◌%◌, ◌<◌}
use mathlib.Core.Path.{◌≡◌}
use mathlib.Core.List.{List, [], ◌∷◌}
use native.Mathlib.Omega.{arith}

abbrev pub u8 : ℕ → ℕ
u8 n = n % 256

abbrev pub u32 : ℕ → ℕ
u32 n = n % 4294967296

-- `a - b` of two uint32_t.
abbrev pub sub32 : ℕ → ℕ → ℕ
sub32 a b = (a + 4294967296 - b) % 4294967296

-- The four bytes of a uint32_t, lowest first.
abbrev pub le_bytes : ℕ → List ℕ
le_bytes n = (n % 256) ∷ (n / 256 % 256) ∷ (n / 65536 % 256) ∷ (n / 16777216 % 256) ∷ []

abbrev pub le_word : ℕ → ℕ → ℕ → ℕ → ℕ
le_word a b c d = a + 256 * b + 65536 * c + 16777216 * d

-- Reading back the bytes of a word gives the word.
pub le_word-le_bytes :
    (n : ℕ)
    → n < 4294967296
    → le_word (n % 256) (n / 256 % 256) (n / 65536 % 256) (n / 16777216 % 256) ≡ n
le_word-le_bytes n h = omega arith
