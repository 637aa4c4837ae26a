-- ===== src/Drv/Keepalive/Tests.antt =====
-- Runs of the keep-alive supervision, and its theorems at concrete inputs.
use hq_components.Prelude.{List, [], arith, false, refl, true, ℕ, ◌*◌, ◌∷◌, ◌≡◌, ◌≤◌}
use hq_components.Drv.Keepalive.{KeepAlive, quiet, sent, failed, accept, start, process, run}
use hq_components.Drv.Keepalive.Silence.{
  silent, sends, failures, start-silence, start-gives_up, start-answered,
}

abbrev server_keep : KeepAlive
server_keep = record {
  deadline = 0;
  timeout = 3000;
  tries = 0;
  error_flag = false;
  active_flag = false;
  has_send = true;
  has_error_cb = true;
}

abbrev passes : List (ℕ × ℕ)
passes = (1000, 1000) ∷ (4000, 4001) ∷ (7100, 7100) ∷ (10200, 10200) ∷ (20000, 20000) ∷ []

given_up_once :
    (run silent passes (start 500 server_keep)).1 ≡ quiet ∷ sent ∷ sent ∷ failed ∷ quiet ∷ []
unfolding run start process
given_up_once = refl

start-silence_test :
    let es = (run silent passes (start 500 server_keep)).1 in
    (sends es ≤ 2) × (failures es ≤ 1) × (2 * failures es ≤ sends es)
start-silence_test = start-silence 500 passes server_keep refl refl

start-gives_up_test :
    (run silent ((4000, 4001) ∷ (7100, 7100) ∷ (10200, 10200) ∷ []) (start 500 server_keep)).1
    ≡ sent ∷ sent ∷ failed ∷ []
start-gives_up_test =
    start-gives_up 500 4000 4001 7100 7100 10200 10200 server_keep refl refl (omega arith)
      (omega arith) (omega arith) (omega arith) (omega arith) (omega arith)

accept_answers :
    (k : KeepAlive)
    → ((accept 9 k).tries ≡ 0)
      × ((accept 9 k).error_flag ≡ false)
      × ((accept 9 k).has_send ≡ k.has_send)
unfolding accept
accept_answers k = (refl, refl, refl)

start-answered_test : failures (run (accept 9) passes (start 500 server_keep)).1 ≡ 0
start-answered_test = start-answered (accept 9) accept_answers 500 passes server_keep refl
