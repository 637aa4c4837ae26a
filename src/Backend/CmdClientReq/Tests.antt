-- ===== src/Backend/CmdClientReq/Tests.antt =====
-- The theorems on the client's requests at concrete inputs.
use hq_components.Prelude.{
  List, [], arith, drop, false, if◌then◌else◌, inr, length, not, refl, replicate, some, true, ℕ,
  ◌++◌, ◌==◌, ◌∷◌, ◌≡◌,
}
use hq_components.Backend.Parameters.{Store, get_value, get_max_value}
use hq_components.Backend.ParseCmd.{Server, send_data, parse_server}
use hq_components.Backend.ParseCmd.Serve.{write_value, encode}
use hq_components.Backend.CmdClientReq.Queue.{
  leaked, without_resp, get_request, set_request, unused, Requests, Event, posts, serves, wakes,
  run,
}
use hq_components.Backend.CmdClientReq.Memory.{IsSafe, run-IsSafe}
use hq_components.Backend.CmdClientReq.{
  Got, packet_read, prepare_u32_msg, receive, word_at, get_value_request, set_value_request,
  pc_get_uint32, pc_set_uint32, ok,
}
use hq_components.Backend.CmdClientReq.Encode.{mode_of, prepare_u32_msg-write}
use hq_components.Backend.CmdClientReq.Receive.{in_time, joined, receive-pieces}
use hq_components.Backend.CmdClientReq.Answer.{get_value_roundtrip, set_value_request-refused}

abbrev client : Store
client = record { values = 1 ∷ 0 ∷ 30 ∷ 1 ∷ 10 ∷ []; strings = replicate 1 (replicate 49 0) }

abbrev server : Server
server = record { store = record client { values = 1 ∷ 0 ∷ 45 ∷ 1 ∷ 3 ∷ [] }; sent = [] }

abbrev pieces : List (List ℕ)
pieces = (64 ∷ 9 ∷ []) ∷ (0 ∷ 0 ∷ 0 ∷ replicate 20 5) ∷ replicate 39 6 ∷ []

prepare_u32_msg-write_test :
    let msg = prepare_u32_msg 9 2 45 pc_set_uint32 500 in
    (msg.send_data ≡ encode (record { number = 9; mode = mode_of 500; call = write_value 2 45 }))
    × (msg.has_rx ≡ not (500 == 0))
    × (msg.request_number ≡ 9)
prepare_u32_msg-write_test = prepare_u32_msg-write 9 2 45 500 (omega arith)

receive-pieces_example :
    let buffer = ([] ++ joined pieces) ++ drop (length (joined pieces)) (replicate 256 0) in
    receive 9 (in_time pieces ++ []) 0 ([] ++ replicate 256 0)
    ≡ (if word_at buffer 1 == 9 then packet_read ([] ++ joined pieces) else receive 9 [] 0 buffer)
receive-pieces_example =
    receive-pieces 9 pieces [] [] (replicate 256 0) 0 refl (omega arith) (omega arith) (omega arith)

get_value_roundtrip_example :
    let msg = prepare_u32_msg 9 2 0 pc_get_uint32 500 in
    let value = get_value [] 2 server.store in
    (answer : List ℕ) × (parse_server [] (msg.send_data ++ []) server
      ≡ some (send_data answer server))
    × ((got : Got ℕ) × (get_value_request [] true true (some (packet_read answer)) 2 9 client
          ≡ some got)
        × (got.result ≡ ok)
        × (got.value ≡ some value)
        × (get_value [] 2 got.store ≡ value))
unfolding get_value get_max_value
get_value_roundtrip_example =
    get_value_roundtrip [] 9 2 500 [] server client (omega arith) (omega arith) (omega arith)
      (omega arith) (omega arith) (omega arith) (omega arith)

set_value_request-refused_test : set_value_request [] true true [] 2 101 9 client ≡ (ok, client)
unfolding get_max_value
set_value_request-refused_test =
    set_value_request-refused [] true true [] 2 101 9 client (inr (omega arith))

abbrev no_requests : Requests
no_requests = record {
  next = 0;
  queue = [];
  memory = λ i. unused;
  task_fault = false;
  client_fault = false;
}

abbrev traffic : List Event
traffic =
    posts get_request
    ∷ posts set_request
    ∷ serves true
    ∷ wakes false 0
    ∷ serves true
    ∷ wakes true 1
    ∷ posts get_request
    ∷ []

run-IsSafe_example : IsSafe (run traffic no_requests)
run-IsSafe_example = run-IsSafe traffic no_requests (record { waiting = omega arith; task = refl })

-- A set that is answered as it should be is never freed.
positive_set : (run traffic no_requests).memory 1 ≡ leaked
unfolding run
positive_set = refl

-- A get that fails reads its result behind the free.
failing_get :
    (run (posts get_request ∷ serves false ∷ wakes false 0 ∷ []) no_requests).client_fault ≡ true
unfolding run
failing_get = refl

-- A set without a response does so always.
set_without_resp :
    (run (posts without_resp ∷ serves true ∷ wakes false 0 ∷ []) no_requests).client_fault ≡ true
unfolding run
set_without_resp = refl
