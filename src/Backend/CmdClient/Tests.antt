-- ===== src/Backend/CmdClient/Tests.antt =====
-- The client's task and its connection at concrete inputs.
use hq_components.Prelude.{[], arith, false, leb, none, refl, some, true, ◌*◌, ◌+◌, ◌∷◌, ◌≡◌, ◌⊎◌}
use hq_components.Backend.CmdClient.{
  State, idle, ready, Ctx, Net, other, client_start, client_disconnect, reads, end_of_stream, run,
  handle, step, dispatch, try_connect, is_connected, ctx_init, finish_read, bytes,
}
use hq_components.Backend.CmdClient.Sockets.{IsSound, run-ctx_init, handle-keeps_socket}
use hq_components.Backend.CmdClient.Link.{
  rounds, Down, start-connects, disconnect-Down, try_connect-one_wait,
}

abbrev booted : Ctx
booted = record {
  state = idle;
  socket = none;
  error = false;
  start = false;
  disconnect_req = false;
  payload_size = 0;
  keep = record {
    deadline = 0;
    timeout = 2800;
    tries = 0;
    error_flag = false;
    active_flag = false;
    has_send = true;
    has_error_cb = true;
  };
}

abbrev net : Net
net = record { socket = some 5; connects = true; now = 100 }

abbrev linked : Ctx
linked = record booted { state = ready; socket = some 5; start = true }

booted-IsSound : IsSound booted
booted-IsSound = ground arith

linked-IsSound : IsSound linked
linked-IsSound = ground arith

-- A read that was blocked while the task closed the socket sends the task to the closing state once
-- more, which finds nothing to close.
late_read :
    (run
      (reads (bytes (1 ∷ [])) 7 ∷ rounds (net ∷ net ∷ []))
      (record booted { start = false })).state
    ≡ idle
unfolding run handle step dispatch finish_read
late_read = refl

run-ctx_init_example :
    IsSound (run (other client_start ∷ rounds (net ∷ net ∷ net ∷ [])) (ctx_init linked))
run-ctx_init_example = run-ctx_init (other client_start ∷ rounds (net ∷ net ∷ net ∷ [])) linked

handle-keeps_socket_test :
    ((handle (reads end_of_stream 7) linked).socket ≡ linked.socket)
    ⊎ ((linked.socket ≡ none) ⊎ (linked.state ≡ State.close_soc))
handle-keeps_socket_test = handle-keeps_socket (reads end_of_stream 7) linked linked-IsSound

start-connects_test :
    let c' = run (other client_start ∷ rounds (net ∷ net ∷ net ∷ [])) booted in
    (is_connected c' ≡ true) × (c'.socket ≡ some 5) × (c'.keep.active_flag ≡ true)
start-connects_test = start-connects net net net 5 booted booted-IsSound refl refl refl

disconnect-Down_example :
    Down (run (other client_disconnect ∷ rounds (net ∷ net ∷ net ∷ net ∷ net ∷ net ∷ [])) linked)
disconnect-Down_example =
    disconnect-Down (net ∷ net ∷ net ∷ net ∷ net ∷ net ∷ []) linked linked-IsSound (omega arith)

-- The connection comes up at the third look, well within three seconds.
try_connect-one_wait_test :
    try_connect 300 (λ k. leb 2 k) (λ k. 1010 + 10 * k) 3000 1000 0 ≡ some false
try_connect-one_wait_test =
    try_connect-one_wait 299 (λ k. leb 2 k) (λ k. 1010 + 10 * k) 3000 1000 (omega arith)
      (omega arith)
