-- ===== src/Drv/RingBuff/Slots.antt =====
-- The slot of a counter is its low bits, and what a memcpy of one slot leaves of the others.
use Prim.Native.Nat.{bit_and, bit_and-bitwise}
use native.Mathlib.Nat.{mul-suc, mul-zero, pow-suc}
use hq_components.Prelude.{
  List, [], ap, arith, bit_and-zero, bit_and_halves, get_or, get_or-set_ne, get_or-set_self, length,
  length-set, refl, set, suc, write_at, zero, ℕ, ◌%◌, ◌*◌, ◌+◌, ◌-◌, ◌/◌, ◌<◌, ◌^◌, ◌∙◌, ◌∷◌, ◌≡◌,
  ◌≤◌, ◌⊎◌,
}
use hq_components.Drv.RingBuff.{read_at}

-- The low `k` bits of a number.
abbrev pub low : ℕ → ℕ → ℕ
low zero x = 0
low (suc k) x = low k (x / 2) * 2 + x % 2

pub two-pow-positive : (k : ℕ) → 0 < 2 ^ k
two-pow-positive zero = omega arith
two-pow-positive (suc k) = omega (arith, two-pow-positive k, pow-suc 2 k)

two-pow-add : (k j : ℕ) → 2 ^ k ≤ 2 ^ (k + j)
two-pow-add k zero = let e : k + 0 ≡ k = omega arith in rw e (omega arith)
two-pow-add k (suc j) =
    let e : k + suc j ≡ suc (k + j) = omega arith in
    rw e (omega (arith, two-pow-add k j, pow-suc 2 (k + j)))

pub two-pow-bound : (k : ℕ) → k ≤ 31 → 2 ^ k ≤ 2147483648
two-pow-bound k h =
    let e : k + (31 - k) ≡ 31 = omega arith in
    let all : 2 ^ k ≤ 2 ^ (k + (31 - k)) = two-pow-add k (31 - k) in rw e at all

-- Masking by one less than a power of two takes the low bits.
pub bit_and-low : (k x : ℕ) → bit_and x (2 ^ k - 1) ≡ low k x
bit_and-low zero x = bit_and-zero x x (omega arith)
bit_and-low (suc k) x =
    let half : (2 ^ suc k - 1) / 2 ≡ 2 ^ k - 1 = omega (arith, two-pow-positive k, pow-suc 2 k) in
    let odd : (2 ^ suc k - 1) % 2 ≡ 1 = omega (arith, two-pow-positive k, pow-suc 2 k) in
    let ih : bit_and (x / 2) ((2 ^ suc k - 1) / 2) ≡ low k (x / 2) =
      rw half (bit_and-low k (x / 2)) in
    omega (arith, bit_and_halves x (2 ^ suc k - 1), ih, odd)

-- A number below a power of two shares no bit with it.
pub bit_and_below : (k x : ℕ) → x < 2 ^ k → bit_and x (2 ^ k) ≡ 0
bit_and_below zero zero h = bit_and-bitwise 0 1
bit_and_below zero (suc x) h = absurd (omega arith)
bit_and_below (suc k) x h =
    let half : 2 ^ suc k / 2 ≡ 2 ^ k = omega (arith, pow-suc 2 k) in
    let ih : bit_and (x / 2) (2 ^ suc k / 2) ≡ 0 =
      rw half (bit_and_below k (x / 2) (omega (arith, pow-suc 2 k))) in
    omega (arith, bit_and_halves x (2 ^ suc k), ih, pow-suc 2 k)

pub low-bound : (k x : ℕ) → low k x < 2 ^ k
low-bound zero x = omega arith
low-bound (suc k) x = omega (arith, low-bound k (x / 2), pow-suc 2 k)

-- Counters in the same slot are a whole ring apart.
pub low-apart : (k x y : ℕ) → low k x ≡ low k y → x < y → x + 2 ^ k ≤ y
low-apart zero x y e h = omega arith
low-apart (suc k) x y e h =
    omega (arith, low-apart k (x / 2) (y / 2) (omega arith) (omega arith), pow-suc 2 k)

pub low-period : (k j x : ℕ) → low k (x + 2 ^ (k + j)) ≡ low k x
low-period zero j x = refl
low-period (suc k) j x =
    let e : suc k + j ≡ suc (k + j) = omega arith in
    let double : 2 ^ (suc k + j) ≡ 2 ^ (k + j) * 2 = ap (λ n. 2 ^ n) e ∙ pow-suc 2 (k + j) in
    let half : (x + 2 ^ (suc k + j)) / 2 ≡ x / 2 + 2 ^ (k + j) = omega (arith, double) in
    let ih : low k ((x + 2 ^ (suc k + j)) / 2) ≡ low k (x / 2) = rw half (low-period k j (x / 2)) in
    omega (arith, ih, double)

-- A ring of at most 2 ^ 32 slots does not notice that a counter wraps.
pub low-wraps : (k x : ℕ) → k ≤ 32 → low k (x + 4294967296) ≡ low k x
low-wraps k x h =
    let e : k + (32 - k) ≡ 32 = omega arith in
    let all : low k (x + 2 ^ (k + (32 - k))) ≡ low k x = low-period k (32 - k) x in rw e at all

pub mul_gap : (p q s : ℕ) → p < q → p * s + s ≤ q * s
mul_gap p q zero h = omega (arith, mul-zero p, mul-zero q)
mul_gap p q (suc s) h = omega (arith, mul-suc p s, mul-suc q s, mul_gap p q s h)

pub length-read_at : (buf : List ℕ) (pos n : ℕ) → length (read_at buf pos n) ≡ n
length-read_at buf pos zero = refl
length-read_at buf pos (suc n) = ap suc (length-read_at buf (pos + 1) n)

read_at-set :
    (buf : List ℕ) (i v pos n : ℕ)
    → (i < pos) ⊎ (pos + n ≤ i)
    → read_at (set buf i v) pos n ≡ read_at buf pos n
read_at-set buf i v pos zero h = refl
read_at-set buf i v pos (suc n) h =
    let here : get_or (set buf i v) pos 0 ≡ get_or buf pos 0 =
      get_or-set_ne buf i pos v 0 (λ e. ground arith) in
    let rest = read_at-set buf i v (pos + 1) n (ground arith) in rw (here, rest) refl

-- A memcpy leaves what lies before and behind it.
pub read_at-write_at_apart :
    (buf : List ℕ) (p : ℕ) (src : List ℕ) (pos n : ℕ)
    → (p + length src ≤ pos) ⊎ (pos + n ≤ p)
    → read_at (write_at buf p src) pos n ≡ read_at buf pos n
read_at-write_at_apart buf p [] pos n h = refl
read_at-write_at_apart buf p (x ∷ xs) pos n h =
    read_at-write_at_apart (set buf p x) (p + 1) xs pos n (ground arith)
    ∙ read_at-set buf p x pos n (ground arith)

get_or-write_at_before :
    (buf : List ℕ) (p : ℕ) (src : List ℕ) (i : ℕ)
    → i < p
    → get_or (write_at buf p src) i 0 ≡ get_or buf i 0
get_or-write_at_before buf p [] i h = refl
get_or-write_at_before buf p (x ∷ xs) i h =
    get_or-write_at_before (set buf p x) (p + 1) xs i (omega arith)
    ∙ get_or-set_ne buf p i x 0 (λ e. omega arith)

-- A memcpy in bounds is read back.
pub read_at-write_at :
    (buf : List ℕ) (p : ℕ) (src : List ℕ)
    → p + length src ≤ length buf
    → read_at (write_at buf p src) p (length src) ≡ src
read_at-write_at buf p [] h = refl
read_at-write_at buf p (x ∷ xs) h =
    let here : get_or (write_at (set buf p x) (p + 1) xs) p 0 ≡ x =
      get_or-write_at_before (set buf p x) (p + 1) xs p (omega arith)
      ∙ get_or-set_self buf p x 0 (omega arith) in
    let rest : read_at (write_at (set buf p x) (p + 1) xs) (p + 1) (length xs) ≡ xs =
      read_at-write_at (set buf p x) (p + 1) xs (omega (arith, length-set buf p x)) in
    rw (here, rest) refl
