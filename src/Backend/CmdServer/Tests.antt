-- ===== src/Backend/CmdServer/Tests.antt =====
-- Runs of the server task, and its theorems at concrete inputs.
use hq_components.Prelude.{[], arith, false, none, refl, replicate, some, true, ◌∷◌, ◌≡◌, ◌⊎◌}
use hq_components.Backend.CmdServer.{
  State, idle, ready, close_soc, Ctx, Net, end_of_stream, select_ready, round, other, server_start,
  is_working, signal, step, run,
}
use hq_components.Backend.CmdServer.Sockets.{IsSound, IsNet, run-IsSound, step-keeps_sockets}
use hq_components.Backend.CmdServer.Liveness.{IsStopped, rounds, stop-IsStopped, left_client}
use hq_components.Backend.CmdServer.Api.{Wait, keep_alive_send}
use hq_components.Backend.CmdServer.Answers.{Answer, get_value, get_value-lost}
use hq_components.Backend.CmdServer.Supervise.{keep_alive_send-closes}
use hq_components.Drv.Keepalive.{keep_alive_frame}

abbrev booted : Ctx
booted = record {
  state = idle;
  socket = none;
  client_socket = none;
  disconnect_req = false;
  error = false;
  start = false;
  payload = replicate 256 0;
  payload_size = 0;
  keep = record {
    deadline = 0;
    timeout = 3000;
    tries = 0;
    error_flag = false;
    active_flag = false;
    has_send = true;
    has_error_cb = true;
  };
  is_connected = false;
  server = record {
    store = record { values = 1 ∷ 0 ∷ 30 ∷ 1 ∷ 10 ∷ []; strings = replicate 1 (replicate 49 0) };
    sent = [];
  };
}

-- Everything works, and a client ends its connection when it is read.
abbrev net : Net
net = record {
  socket = some 3;
  binds = true;
  listens = true;
  select = select_ready;
  accept = some 4;
  is_set = true;
  read = end_of_stream;
  now = 100;
}

abbrev serving : Ctx
serving = record booted {
  state = ready;
  start = true;
  is_connected = true;
  socket = some 3;
  client_socket = some 4;
}

net-IsNet : IsNet net
net-IsNet = record { bind_refuses = λ e. cc; read_fits = tt }

booted-IsSound : IsSound booted
booted-IsSound = ground arith

serving-IsSound : IsSound serving
serving-IsSound = ground arith

accepted_after_three_rounds :
    (c : Ctx) × (run [] (other server_start ∷ round net ∷ round net ∷ round net ∷ []) booted
      ≡ some c)
    × (c.state ≡ ready)
unfolding run step signal
accepted_after_three_rounds = (_, refl, refl)

run-IsSound_example : IsSound (record booted { start = true; state = State.create_soc })
unfolding run step signal
run-IsSound_example =
    run-IsSound [] (other server_start ∷ round net ∷ []) booted (net-IsNet, tt) booted-IsSound refl

step-keeps_sockets_test :
    let c' = record serving { state = close_soc } in
    ((c'.socket ≡ serving.socket) ⊎ ((serving.socket ≡ none) ⊎ (serving.state ≡ close_soc)))
    × ((c'.client_socket ≡ serving.client_socket)
        ⊎ ((serving.client_socket ≡ none) ⊎ (serving.state ≡ close_soc)))
unfolding step
step-keeps_sockets_test = step-keeps_sockets [] net serving serving-IsSound refl

abbrev stopping : Ctx
stopping = record serving { start = false }

stopping-IsSound : IsSound stopping
stopping-IsSound = ground arith

stop-IsStopped_example :
    (c' : Ctx) × (run [] (rounds (net ∷ net ∷ net ∷ net ∷ [])) stopping ≡ some c') × IsStopped c'
stop-IsStopped_example =
    stop-IsStopped [] (net ∷ net ∷ net ∷ net ∷ []) stopping
      (net-IsNet, (net-IsNet, (net-IsNet, (net-IsNet, tt)))) (omega arith) stopping-IsSound refl
      (λ e. cc)

left_client_test :
    (c' : Ctx) × (run [] (round net ∷ round net ∷ round net ∷ []) serving ≡ some c')
    × (c'.state ≡ idle)
    × (c'.client_socket ≡ none)
    × (is_working c' ≡ true)
left_client_test = left_client [] net net net serving refl refl refl refl refl refl refl

abbrev patient : Wait
patient = record {
  mutex_taken = true;
  send_answer = some 64;
  response_taken = true;
  responce_buff = keep_alive_frame;
}

keep_alive_send-closes_test :
    let (done, out, c') = keep_alive_send patient keep_alive_frame serving in
    (done ≡ false)
    × (out ≡ [])
    × (c' ≡ record serving { disconnect_req = true })
    × (step [] net c' ≡ some (record serving { disconnect_req = true; state = close_soc }))
keep_alive_send-closes_test = keep_alive_send-closes [] patient net serving refl

abbrev no_answer : Answer
no_answer = record {
  mutex_free = true;
  answered = false;
  responce_buff = replicate 8 0;
  responce_buff_len = 0;
}

-- The answer 2 to the request for the parameter 2 comes in and is lost.
get_value-lost_test :
    let got =
      get_value [] true
        (some (8 ∷ 1 ∷ 2 ∷ 2 ∷ 2 ∷ 0 ∷ 0 ∷ 0 ∷ []) ∷ [])
        (some 4)
        2
        55
        (record booted { state = ready })
        no_answer
        booted.server.store in
    (got.done ≡ false)
    × (got.value ≡ 55)
    × (got.store ≡ booted.server.store)
    × (got.answer.responce_buff ≡ replicate 8 0)
    × (got.answer.responce_buff_len ≡ 0)
    × (got.answer.mutex_free ≡ true)
get_value-lost_test =
    get_value-lost [] true (some (8 ∷ 1 ∷ 2 ∷ 2 ∷ 2 ∷ 0 ∷ 0 ∷ 0 ∷ []) ∷ []) (some 4) 2 55
      (record booted { state = ready }) no_answer booted.server.store refl (omega arith)
