-- ===== src/Drv/Keepalive/Silence.antt =====
-- How many frames and failures the supervision of a connection can cause.
use hq_components.Prelude.{
  Bool, List, [], arith, false, refl, suc, true, ℕ, ◌*◌, ◌+◌, ◌<◌, ◌∷◌, ◌≡◌, ◌≢◌, ◌≤◌,
}
use hq_components.Drv.Keepalive.{KeepAlive, Effect, quiet, sent, failed, start, process, run}

abbrev pub sends : List Effect → ℕ
sends [] = 0
sends (sent ∷ es) = suc (sends es)
sends (quiet ∷ es) = sends es
sends (failed ∷ es) = sends es

abbrev pub failures : List Effect → ℕ
failures [] = 0
failures (failed ∷ es) = suc (failures es)
failures (quiet ∷ es) = failures es
failures (sent ∷ es) = failures es

-- A send callback that leaves the entry alone: the peer never answers.
abbrev pub silent : KeepAlive → KeepAlive
silent k = k

abbrev flag : Bool → ℕ
flag true = 1
flag false = 0

-- An entry with both callbacks, whose count of frames says whether it may have failed.
pub record IsWatched (k : KeepAlive) : Type 0 where
  pub with_send : k.has_send ≡ true
  pub with_error : k.has_error_cb ≡ true
  pub tries_capped : k.tries ≤ 2
  pub failed_late : k.error_flag ≡ true → k.tries ≡ 2

process-IsWatched :
    (now later : ℕ) (k : KeepAlive) → IsWatched k → IsWatched (process silent now later k).0
unfolding process
process-IsWatched now later k w = ground arith

process-counts :
    (now later : ℕ) (k : KeepAlive) (es : List Effect)
    → IsWatched k
    → let (k', e) = process silent now later k in
      (k.tries + sends (e ∷ es) ≡ k'.tries + sends es)
      × (flag k.error_flag + failures (e ∷ es) ≡ flag k'.error_flag + failures es)
unfolding process
process-counts now later k es w = ground arith

run-counts :
    (ts : List (ℕ × ℕ)) (k : KeepAlive)
    → IsWatched k
    → let (k', es) = run silent ts k in
      IsWatched k'
      × (k.tries + sends es ≡ k'.tries)
      × (flag k.error_flag + failures es ≡ flag k'.error_flag)
unfolding run
run-counts [] k w = (w, omega arith, omega arith)
run-counts ((now, later) ∷ ts) k w =
    let k' = (process silent now later k).0 in
    let rest = run-counts ts k' (process-IsWatched now later k w) in
    let here = process-counts now later k (run silent ts k').1 w in
    (rest.0, omega (arith, here, rest.1), omega (arith, here, rest.2))

-- Where both callbacks are set, a peer that stays silent after keepAliveStart is sent at most two
-- keep-alive frames and is given up at most once, and it is given up only where both frames are
-- sent: at any times whatever.
pub start-silence :
    (t : ℕ) (ts : List (ℕ × ℕ)) (k : KeepAlive)
    → k.has_send ≡ true
    → k.has_error_cb ≡ true
    → let es = (run silent ts (start t k)).1 in
      (sends es ≤ 2) × (failures es ≤ 1) × (2 * failures es ≤ sends es)
unfolding start
start-silence t ts k s e = ground (arith, run-counts ts (start t k))

-- Where both callbacks are set, a silent peer is given up: with the clock at `t` when it is
-- watched, passes that each find the timeout run out send the two frames and then report the
-- failure. The clock does not wrap.
pub start-gives_up :
    (t n1 l1 n2 l2 n3 l3 : ℕ) (k : KeepAlive)
    → k.has_send ≡ true
    → k.has_error_cb ≡ true
    → t + k.timeout < n1
    → l1 + k.timeout < n2
    → l2 + k.timeout < n3
    → n1 < 4294967296
    → n2 < 4294967296
    → n3 < 4294967296
    → (run silent ((n1, l1) ∷ (n2, l2) ∷ (n3, l3) ∷ []) (start t k)).1 ≡ sent ∷ sent ∷ failed ∷ []
unfolding start run process
start-gives_up t n1 l1 n2 l2 n3 l3 k s e p q r x y z = ground arith

module _ (send : KeepAlive → KeepAlive)
    (answers : (k : KeepAlive)
      → ((send k).tries ≡ 0)
        × ((send k).error_flag ≡ false)
        × ((send k).has_send ≡ k.has_send)) where
  process-answers :
      (now later : ℕ) (k : KeepAlive)
      → k.has_send ≡ true
      → k.tries ≤ 1
      → k.error_flag ≡ false
      → let (k', e) = process send now later k in
        (e ≢ failed) × (k'.has_send ≡ true) × (k'.tries ≤ 1) × (k'.error_flag ≡ false)
  unfolding process
  process-answers now later k s h f = ground (arith, answers k)

  run-answers :
      (ts : List (ℕ × ℕ)) (k : KeepAlive)
      → k.has_send ≡ true
      → k.tries ≤ 1
      → k.error_flag ≡ false
      → failures (run send ts k).1 ≡ 0
  unfolding run
  run-answers [] k s h f = refl
  run-answers ((now, later) ∷ ts) k s h f =
      let (k', e) = process send now later k in
      let one = process-answers now later k s h f in
      ground (arith, one, run-answers ts k' one.1 one.2 one.3)

  -- A connection whose frames go out is never given up: where the send callback accepts the
  -- connection, as the client's does for a frame that is sent, no pass reports a failure.
  pub start-answered :
      (t : ℕ) (ts : List (ℕ × ℕ)) (k : KeepAlive)
      → k.has_send ≡ true
      → failures (run send ts (start t k)).1 ≡ 0
  unfolding start
  start-answered t ts k s = run-answers ts (start t k) s (omega arith) refl
