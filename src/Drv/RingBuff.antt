-- ===== src/Drv/RingBuff.antt =====
-- drv/ringBuff.c: the ring buffer of fixed-size elements with free-running counters.
-- A size_t is 32 bits wide on the ESP32. The buffer is its bytes; the attributes of
-- ring_buffer_init are taken to be non-null pointers.
pub mod Slots
pub mod Queue
mod Tests
use Prim.Native.Nat.{bit_and}
use hq_components.Prelude.{
  Bool, List, Option, [], false, get_or, if◌then◌else◌, ltb, none, some, sub32, suc, true, u32,
  write_at, zero, ℕ, ◌*◌, ◌+◌, ◌==◌, ◌∷◌,
}

-- ring_buffer_t
pub record RingBuffer : Type 0 where
  pub s_elem : ℕ
  pub n_elem : ℕ
  pub buf : List ℕ
  pub head : ℕ
  pub tail : ℕ

-- ring_buffer_init: `none` is the error -1.
unfoldable pub init : ℕ → ℕ → List ℕ → Option RingBuffer
init s_elem n_elem buffer =
    if ltb 0 s_elem
    then (if bit_and (sub32 n_elem 1) n_elem == 0
        then some (record { s_elem = s_elem; n_elem = n_elem; buf = buffer; head = 0; tail = 0 })
        else none)
    else none

-- _ring_buffer_full
unfoldable pub is_full : RingBuffer → Bool
is_full rb = sub32 rb.head rb.tail == rb.n_elem

-- _ring_buffer_empty
unfoldable pub is_empty : RingBuffer → Bool
is_empty rb = sub32 rb.head rb.tail == 0

-- `memcpy( data, &buf[pos], n )`
abbrev pub read_at : List ℕ → ℕ → ℕ → List ℕ
read_at buf pos zero = []
read_at buf pos (suc n) = get_or buf pos 0 ∷ read_at buf (pos + 1) n

-- ring_buffer_put: whether it succeeds.
unfoldable pub put : List ℕ → RingBuffer → Bool × RingBuffer
unfolding is_full
put elem rb = if is_full rb then (false, rb) else (
  true,
  record rb {
    buf = write_at rb.buf (bit_and rb.head (sub32 rb.n_elem 1) * rb.s_elem) elem;
    head = u32 (rb.head + 1);
  },
)

-- ring_buffer_get: the element, or `none` for the error -1.
unfoldable pub get : RingBuffer → Option (List ℕ) × RingBuffer
unfolding is_empty
get rb = if is_empty rb then (none, rb) else (
  some (read_at rb.buf (bit_and rb.tail (sub32 rb.n_elem 1) * rb.s_elem) rb.s_elem),
  record rb { tail = u32 (rb.tail + 1) },
)
