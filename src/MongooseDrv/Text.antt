-- ===== src/MongooseDrv/Text.antt =====
-- The texts of mongoose_drv/parameters_api.c and mongoose_drv/http_parameters_client.c: bytes, and
-- the number that both read from a body.
pub mod Numbers
mod Tests
use hq_components.Prelude.{
  Bool, List, [], if◌then◌else◌, leb, u32, ℕ, ◌%◌, ◌&&◌, ◌*◌, ◌++◌, ◌+◌, ◌-◌, ◌/◌, ◌<◌, ◌∷◌, ◌≡◌,
  ◌≤◌,
}
use Prim.Native.String.{String, [] as []ˢ, ◌∷◌ as ◌∷ˢ◌}
use Prim.Native.Char.{code}

-- The bytes of an ASCII text.
abbrev pub bytes : String → List ℕ
bytes []ˢ = []
bytes (c ∷ˢ s) = code c ∷ bytes s

-- isdigit
abbrev pub is_digit : ℕ → Bool
is_digit c = leb 48 c && leb c 57

-- The loop of str2int. The words are kept modulo 2^32, where C leaves the overflow of an int open.
unfoldable pub str2int_from : List ℕ → ℕ → ℕ
str2int_from [] ret = ret
str2int_from (c ∷ cs) ret =
    let rest = str2int_from cs (u32 (ret * 10 + (c - 48))) in if is_digit c then rest else ret

unfoldable pub str2int : List ℕ → ℕ
str2int str = str2int_from str 0

-- What `sprintf( buffer, "%ld", n )` writes for the 32 bits `n` of a long: its decimal digits, the
-- first of them not 0 when there are two or more, and something that begins with the sign for the
-- upper half.
pub record PrintsLong (print : ℕ → List ℕ) : Type 0 where
  pub one_digit : (n : ℕ) → n < 10 → print n ≡ (48 + n) ∷ []
  pub more_digits :
      (n : ℕ) → 10 ≤ n → n < 2147483648 → print n ≡ print (n / 10) ++ ((48 + n % 10) ∷ [])
  pub negative : (n : ℕ) → 2147483648 ≤ n → n < 4294967296 → (rest : List ℕ) × (print n ≡ 45 ∷ rest)
