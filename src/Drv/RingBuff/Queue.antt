-- ===== src/Drv/RingBuff/Queue.antt =====
-- The ring buffer is a bounded queue, also when its counters wrap.
use Prim.Native.Nat.{bit_and}
use hq_components.Prelude.{
  Bool-cases, List, Option, [], ap, arith, false, if◌then◌else◌, inl, inr, length, length-write_at,
  ltb, ltb→le, ltb→lt, lt→ltb, none, refl, some, sub32, suc, sym, u32, write_at, zero, ℕ, ◌*◌, ◌++◌,
  ◌+◌, ◌-◌, ◌<◌, ◌^◌, ◌∙◌, ◌∷◌, ◌≡◌, ◌≢◌, ◌≤◌, ◌⊎◌,
}
use hq_components.Drv.RingBuff.{RingBuffer, init, is_full, is_empty, read_at, put, get}
use hq_components.Drv.RingBuff.Slots.{
  low, bit_and-low, low-bound, low-apart, low-wraps, mul_gap, two-pow-positive, two-pow-bound,
  bit_and_below, read_at-write_at_apart, read_at-write_at,
}

-- The elements of `n` slots, from the slot of the counter `t` on.
abbrev pub window : List ℕ → ℕ → ℕ → ℕ → ℕ → List (List ℕ)
window buf s k t zero = []
window buf s k t (suc n) = read_at buf (low k t * s) s ∷ window buf s k (t + 1) n

-- What a ring of 2 ^ k elements holds, oldest first.
abbrev pub contents : ℕ → RingBuffer → List (List ℕ)
contents k rb = window rb.buf rb.s_elem k rb.tail (sub32 rb.head rb.tail)

pub record IsRing (k : ℕ) (rb : RingBuffer) : Type 0 where
  pub size : rb.n_elem ≡ 2 ^ k
  pub small : k ≤ 31
  pub room : length rb.buf ≡ 2 ^ k * rb.s_elem
  pub head_bound : rb.head < 4294967296
  pub tail_bound : rb.tail < 4294967296
  pub count_bound : sub32 rb.head rb.tail ≤ 2 ^ k

mask_of : (k : ℕ) → k ≤ 31 → sub32 (2 ^ k) 1 ≡ 2 ^ k - 1
mask_of k h = omega (arith, two-pow-positive k, two-pow-bound k h)

slot_of : (k c : ℕ) (rb : RingBuffer) → IsRing k rb → bit_and c (sub32 rb.n_elem 1) ≡ low k c
slot_of k c rb r =
    ap (λ n. bit_and c (sub32 n 1)) r.size ∙ ap (bit_and c) (mask_of k r.small) ∙ bit_and-low k c

-- The windows at a counter and at the same counter wrapped are the same.
window-wraps :
    (buf : List ℕ) (s k t n : ℕ) → k ≤ 31 → window buf s k (t + 4294967296) n ≡ window buf s k t n
window-wraps buf s k t zero h = refl
window-wraps buf s k t (suc n) h =
    let e : t + 4294967296 + 1 ≡ t + 1 + 4294967296 = omega arith in
    let rest : window buf s k (t + 4294967296 + 1) n ≡ window buf s k (t + 1) n =
      rw e (window-wraps buf s k (t + 1) n h) in
    rw (low-wraps k t (omega arith), rest) refl

window-u32 :
    (buf : List ℕ) (s k t n : ℕ)
    → k ≤ 31
    → t ≤ 4294967296
    → window buf s k (u32 t) n ≡ window buf s k t n
window-u32 buf s k t n h b = elim (Bool-cases (ltb t 4294967296)) [
  | inl q ↦ let e : u32 t ≡ t = omega (arith, ltb→lt t 4294967296 q) in rw e refl
  | inr q ↦
      let e : t ≡ 4294967296 = omega (arith, ltb→le t 4294967296 q) in
      rw e (sym (window-wraps buf s k 0 n h))
]

slots-apart : (p q s l : ℕ) → l ≡ s → q ≢ p → (p * s + l ≤ q * s) ⊎ (q * s + s ≤ p * s)
slots-apart p q s l e ne = elim (Bool-cases (ltb p q)) [
  | inl h ↦ inl (omega (arith, mul_gap p q s (ltb→lt p q h)))
  | inr h ↦ inr (mul_gap q p s (ground (arith, ltb→le p q h)))
]

-- Writing a slot that is none of a window's leaves the window.
window-write_at :
    (buf : List ℕ) (s k t n p : ℕ) (src : List ℕ)
    → length src ≡ s
    → ((i : ℕ) → i < n → low k (t + i) ≢ p)
    → window (write_at buf (p * s) src) s k t n ≡ window buf s k t n
window-write_at buf s k t zero p src l apart = refl
window-write_at buf s k t (suc n) p src l apart =
    let e0 : t + 0 ≡ t = omega arith in
    let first : low k (t + 0) ≢ p = apart 0 (omega arith) in
    let ne : low k t ≢ p = rw e0 at first in
    let here : read_at (write_at buf (p * s) src) (low k t * s) s ≡ read_at buf (low k t * s) s =
      read_at-write_at_apart buf (p * s) src (low k t * s) s
        (slots-apart p (low k t) s (length src) l ne) in
    let rest =
      window-write_at buf s k (t + 1) n p src l (λ i h.
        let e : t + 1 + i ≡ t + suc i = omega arith in rw e (apart (suc i) (omega arith))) in
    rw (here, rest) refl

-- A window that grows by one ends in the slot behind it.
window-snoc :
    (buf : List ℕ) (s k t n : ℕ)
    → window buf s k t (suc n) ≡ window buf s k t n ++ (read_at buf (low k (t + n) * s) s ∷ [])
window-snoc buf s k t zero = let e : t + 0 ≡ t = omega arith in rw e refl
window-snoc buf s k t (suc n) =
    let e : t + suc n ≡ t + 1 + n = omega arith in
    rw e (ap (◌∷◌ (read_at buf (low k t * s) s)) (window-snoc buf s k (t + 1) n))

-- The slot of the head is the slot of the tail's counter plus the count.
low-head :
    (k : ℕ) (rb : RingBuffer)
    → IsRing k rb
    → low k rb.head ≡ low k (rb.tail + sub32 rb.head rb.tail)
low-head k rb r = elim (Bool-cases (ltb rb.head rb.tail)) [
  | inl q ↦
      let e : rb.tail + sub32 rb.head rb.tail ≡ rb.head + 4294967296 =
        omega (arith, ltb→lt rb.head rb.tail q, r.head_bound, r.tail_bound) in
      rw e (sym (low-wraps k rb.head (omega (arith, r.small))))
  | inr q ↦
      let e : rb.tail + sub32 rb.head rb.tail ≡ rb.head =
        omega (arith, ltb→le rb.head rb.tail q, r.head_bound, r.tail_bound) in
      rw e refl
]

pub length-window : (buf : List ℕ) (s k t n : ℕ) → length (window buf s k t n) ≡ n
length-window buf s k t zero = refl
length-window buf s k t (suc n) = ap suc (length-window buf s k (t + 1) n)

put-room :
    (k : ℕ) (elem : List ℕ) (rb : RingBuffer)
    → IsRing k rb
    → length elem ≡ rb.s_elem
    → is_full rb ≡ false
    → contents k (put elem rb).1 ≡ contents k rb ++ (elem ∷ [])
unfolding put is_full
put-room k elem rb r l q =
    let n = sub32 rb.head rb.tail in
    let p = low k rb.head in
    let bound = two-pow-bound k r.small in
    let counts : sub32 (u32 (rb.head + 1)) rb.tail ≡ suc n =
      ground (arith, r.size, bound, r.count_bound, r.head_bound, r.tail_bound) in
    let below : n < 2 ^ k = ground (arith, r.size, r.count_bound) in
    let apart : (i : ℕ) → i < n → low k (rb.tail + i) ≢ p = λ i h e.
      omega (
        arith,
        low-apart k (rb.tail + i) (rb.tail + n) (e ∙ low-head k rb r) (omega arith),
        below,
      ) in
    let at_p = p * rb.s_elem in
    let fits : at_p + length elem ≤ length rb.buf =
      omega (arith, mul_gap p (2 ^ k) rb.s_elem (low-bound k rb.head), l, r.room) in
    let back : read_at (write_at rb.buf at_p elem) at_p (length elem) ≡ elem =
      read_at-write_at rb.buf at_p elem fits in
    let whole : read_at (write_at rb.buf at_p elem) at_p rb.s_elem ≡ elem = rw l at back in
    rw q (
      rw (slot_of k rb.head rb r, counts)
        (window-snoc (write_at rb.buf at_p elem) rb.s_elem k rb.tail n
          ∙ rw
              (
                window-write_at rb.buf rb.s_elem k rb.tail n p elem l apart,
                ← low-head k rb r,
                whole,
              )
              refl))

-- A put into a ring of 2 ^ k elements, k at most 31, is a put into a queue that holds at most 2 ^ k
-- elements: it appends the element where there is room and is refused where there is none, and
-- keeps the ring well formed, also when a counter wraps.
pub put-contents :
    (k : ℕ) (elem : List ℕ) (rb : RingBuffer)
    → IsRing k rb
    → length elem ≡ rb.s_elem
    → let (ok, rb') = put elem rb in
      IsRing k rb'
      × (ok ≡ ltb (length (contents k rb)) (2 ^ k))
      × (contents k rb' ≡ (if ok then contents k rb ++ (elem ∷ []) else contents k rb))
unfolding put is_full
put-contents k elem rb r l =
    let counted = length-window rb.buf rb.s_elem k rb.tail (sub32 rb.head rb.tail) in
    let bound = two-pow-bound k r.small in
    elim (Bool-cases (is_full rb)) [
      | inl q ↦ rw q (r, ground (arith, r.size, r.count_bound), refl)
      | inr q ↦
          let more = put-room k elem rb r l q in
          rw q (
            record {
              size = r.size;
              small = r.small;
              room =
                  length-write_at rb.buf (bit_and rb.head (sub32 rb.n_elem 1) * rb.s_elem) elem
                  ∙ r.room;
              head_bound = omega arith;
              tail_bound = r.tail_bound;
              count_bound =
                  ground (arith, r.size, bound, r.count_bound, r.head_bound, r.tail_bound);
            },
            ground (arith, r.size, r.count_bound),
            rw q at more,
          )
    ]

get-room :
    (k : ℕ) (rb : RingBuffer)
    → IsRing k rb
    → is_empty rb ≡ false
    → contents k rb
      ≡ read_at rb.buf (bit_and rb.tail (sub32 rb.n_elem 1) * rb.s_elem) rb.s_elem
        ∷ contents k (record rb { tail = u32 (rb.tail + 1) })
unfolding is_empty
get-room k rb r q =
    let n = sub32 rb.head rb.tail in
    let s = rb.s_elem in
    let next : sub32 rb.head (u32 (rb.tail + 1)) ≡ n - 1 =
      ground (arith, r.head_bound, r.tail_bound) in
    let e : n ≡ suc (n - 1) = ground arith in
    let rest : contents k (record rb { tail = u32 (rb.tail + 1) })
        ≡ window rb.buf s k (rb.tail + 1) (n - 1) =
      ap (window rb.buf s k (u32 (rb.tail + 1))) next
      ∙ window-u32 rb.buf s k (rb.tail + 1) (n - 1) r.small (omega (arith, r.tail_bound)) in
    ap (window rb.buf s k rb.tail) e
    ∙ ap (λ h. read_at rb.buf (h * s) s ∷ window rb.buf s k (rb.tail + 1) (n - 1))
        (sym (slot_of k rb.tail rb r))
    ∙ ap (◌∷◌ (read_at rb.buf (bit_and rb.tail (sub32 rb.n_elem 1) * s) s)) (sym rest)

-- A queue from what a get takes and what it leaves.
abbrev pub given : Option (List ℕ) → List (List ℕ) → List (List ℕ)
given none rest = []
given (some elem) rest = elem ∷ rest

-- A get from a ring of 2 ^ k elements, k at most 31, is a get from a queue: it takes the oldest
-- element where there is one and is refused where there is none, and keeps the ring well formed,
-- also when a counter wraps.
pub get-contents :
    (k : ℕ) (rb : RingBuffer)
    → IsRing k rb
    → let (out, rb') = get rb in IsRing k rb' × (contents k rb ≡ given out (contents k rb'))
unfolding get is_empty
get-contents k rb r = elim (Bool-cases (is_empty rb)) [
  | inl q ↦
      let e : sub32 rb.head rb.tail ≡ 0 = ground arith in
      rw q (r, ap (window rb.buf rb.s_elem k rb.tail) e)
  | inr q ↦ rw q (
    record {
      size = r.size;
      small = r.small;
      room = r.room;
      head_bound = r.head_bound;
      tail_bound = omega arith;
      count_bound = ground (arith, r.head_bound, r.tail_bound, r.count_bound);
    },
    get-room k rb r q,
  )
]

-- An initialised ring of a power of two elements is well formed and holds nothing.
pub init-contents :
    (k s_elem : ℕ) (buffer : List ℕ)
    → k ≤ 31
    → 0 < s_elem
    → length buffer ≡ 2 ^ k * s_elem
    → (rb : RingBuffer) × (init s_elem (2 ^ k) buffer ≡ some rb)
      × IsRing k rb
      × (contents k rb ≡ [])
unfolding init
init-contents k s_elem buffer h p l =
    let positive = two-pow-positive k in
    let nothing : bit_and (sub32 (2 ^ k) 1) (2 ^ k) ≡ 0 =
      ap (λ n. bit_and n (2 ^ k)) (mask_of k h) ∙ bit_and_below k (2 ^ k - 1) (omega arith) in
    (
      record { s_elem = s_elem; n_elem = 2 ^ k; buf = buffer; head = 0; tail = 0 },
      rw (lt→ltb 0 s_elem p, nothing) refl,
      record {
        size = refl;
        small = h;
        room = l;
        head_bound = omega arith;
        tail_bound = omega arith;
        count_bound = omega arith;
      },
      refl,
    )
