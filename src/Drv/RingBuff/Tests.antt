-- ===== src/Drv/RingBuff/Tests.antt =====
-- Runs of the ring buffer, and its theorems at concrete inputs.
use hq_components.Prelude.{
  [], arith, false, if◌then◌else◌, length, ltb, refl, some, ◌++◌, ◌^◌, ◌∷◌, ◌≡◌,
}
use hq_components.Drv.RingBuff.{RingBuffer, init, put, get, is_full}
use hq_components.Drv.RingBuff.Queue.{
  IsRing, contents, given, put-contents, get-contents, init-contents,
}

-- Two elements of two bytes, the head about to wrap, one element held.
abbrev wrapping : RingBuffer
wrapping = record {
  s_elem = 2;
  n_elem = 2;
  buf = 1 ∷ 2 ∷ 3 ∷ 4 ∷ [];
  head = 4294967295;
  tail = 4294967294;
}

wrapping-IsRing : IsRing 1 wrapping
wrapping-IsRing = record {
  size = refl;
  small = omega arith;
  room = refl;
  head_bound = omega arith;
  tail_bound = omega arith;
  count_bound = omega arith;
}

fills_and_wraps :
    ((put (7 ∷ 8 ∷ []) wrapping).1.head ≡ 0)
    × (contents 1 (put (7 ∷ 8 ∷ []) wrapping).1 ≡ (1 ∷ 2 ∷ []) ∷ (7 ∷ 8 ∷ []) ∷ [])
    × ((put (9 ∷ 9 ∷ []) (put (7 ∷ 8 ∷ []) wrapping).1).0 ≡ false)
unfolding put is_full
fills_and_wraps = (refl, refl, refl)

put-contents_example :
    let (ok, rb') = put (7 ∷ 8 ∷ []) wrapping in
    IsRing 1 rb'
    × (ok ≡ ltb (length (contents 1 wrapping)) (2 ^ 1))
    × (contents 1 rb'
        ≡ (if ok then contents 1 wrapping ++ ((7 ∷ 8 ∷ []) ∷ []) else contents 1 wrapping))
put-contents_example = put-contents 1 (7 ∷ 8 ∷ []) wrapping wrapping-IsRing refl

get-contents_example :
    let (out, rb') = get wrapping in
    IsRing 1 rb' × (contents 1 wrapping ≡ given out (contents 1 rb'))
get-contents_example = get-contents 1 wrapping wrapping-IsRing

init-contents_test :
    (rb : RingBuffer) × (init 1 (2 ^ 2) (0 ∷ 0 ∷ 0 ∷ 0 ∷ []) ≡ some rb)
    × IsRing 2 rb
    × (contents 2 rb ≡ [])
init-contents_test = init-contents 2 1 (0 ∷ 0 ∷ 0 ∷ 0 ∷ []) (omega arith) (omega arith) refl
