-- ===== src/Backend/CmdClientReq/Receive.antt =====
-- How the client puts an answer together from the pieces that the network delivers.
use hq_components.Prelude.{
  List, [], append-nil, append_assoc, arith, drop, drop-drop, false, if◌then◌else◌, length,
  length-append, length-drop, le→ltb, ltb, lt→ltb, refl, some, take, take_append, write_at_behind,
  ℕ, ◌++◌, ◌+◌, ◌<◌, ◌==◌, ◌∙◌, ◌∷◌, ◌≡◌, ◌≤◌,
}
use hq_components.Backend.CmdClientReq.{ReadEvent, packet_read, receive, word_at}

-- Pieces that arrive in time.
abbrev pub in_time : List (List ℕ) → List ReadEvent
in_time [] = []
in_time (c ∷ cs) = record { ret = some c; expired = false; expired_after = false } ∷ in_time cs

abbrev pub joined : List (List ℕ) → List ℕ
joined [] = []
joined (c ∷ cs) = c ++ joined cs

-- No piece is empty, and the pieces make up what is missing of one packet.
abbrev pub Missing : ℕ → List (List ℕ) → Type 0
Missing n cs = (0 < length cs) × (n + length (joined cs) ≡ 64)

abbrev pub NoEmpty : List (List ℕ) → Type 0
NoEmpty [] = Unit {0}
NoEmpty (c ∷ cs) = (0 < length c) × NoEmpty cs

receive-step :
    (number : ℕ) (c : List ℕ) (es : List ReadEvent) (got rest : List ℕ) (n : ℕ)
    → n ≡ length got
    → length c ≤ length rest
    → let buffer = (got ++ c) ++ drop (length c) rest in
      receive number
        (record { ret = some c; expired = false; expired_after = false } ∷ es)
        n
        (got ++ rest)
      ≡ (if ltb (n + length c) 64
          then receive number es (n + length c) buffer
          else if word_at buffer 1 == number
          then packet_read (take 64 buffer)
          else receive number es 0 buffer)
unfolding receive
receive-step number c es got rest n e h = rw (write_at_behind got rest c n e h)

-- However the bytes that a packet still misses are cut into non-empty pieces, read in time and into
-- a buffer with room for them, the client puts the same packet together; it is the answer if it
-- carries the request's number, and otherwise the client goes on to the next packet with the reads
-- that follow.
pub receive-pieces :
    (number : ℕ) (cs : List (List ℕ)) (es : List ReadEvent) (got rest : List ℕ) (n : ℕ)
    → n ≡ length got
    → length (joined cs) ≤ length rest
    → NoEmpty cs
    → Missing n cs
    → let buffer = (got ++ joined cs) ++ drop (length (joined cs)) rest in
      receive number (in_time cs ++ es) n (got ++ rest) ≡ (
        if word_at buffer 1 == number
        then packet_read (got ++ joined cs)
        else receive number es 0 buffer)
receive-pieces number [] es got rest n e h f m = absurd (omega arith)
receive-pieces number (c ∷ []) es got rest n e h f m =
    let h' : length c ≤ length rest = omega (arith, length-append c []) in
    let m' : n + length c ≡ 64 = omega (arith, m.1, length-append c []) in
    rw (append-nil c) (
      receive-step number c es got rest n e h'
      ∙ rw
          (
            le→ltb (n + length c) 64 (omega arith),
            take_append 64 (got ++ c) (drop (length c) rest) (omega (arith, length-append got c)),
          )
          refl)
receive-pieces number (c ∷ d ∷ cs) es got rest n e h f m =
    let tail = d ++ joined cs in
    let total : length (c ++ tail) ≡ length c + length tail = length-append c tail in
    let some_more : 0 < length tail = omega (arith, length-append d (joined cs), f.1.0) in
    receive-step number c (in_time (d ∷ cs) ++ es) got rest n e (omega (arith, total))
    ∙ rw
        (
          lt→ltb (n + length c) 64 (omega (arith, total, m.1)),
          ← append_assoc got c tail,
          total,
          ← drop-drop (length c) (length tail) rest,
        )
        (receive-pieces number (d ∷ cs) es (got ++ c) (drop (length c) rest) (n + length c)
          (omega (arith, length-append got c)) (omega (arith, total, length-drop (length c) rest))
          f.1 (omega arith, omega (arith, total, m.1)))
