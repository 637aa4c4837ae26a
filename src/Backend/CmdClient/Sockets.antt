-- ===== src/Backend/CmdClient/Sockets.antt =====
-- Which descriptor the client's task holds in which state, whatever the other tasks do.
use hq_components.Prelude.{
  Bool, List, Option, [], arith, false, inl, none, refl, true, ℕ, ◌∷◌, ◌≡◌, ◌≢◌, ◌⊎◌,
}
use hq_components.Backend.CmdClient.{
  State, idle, create_soc, connect_server, ready, close_soc, check_errors, Ctx, Net, Event, round,
  other, sends, reads, Signal, Outcome, ctx_init, dispatch, step, send, finish_read, signal, handle,
  run, client_start, client_stop, client_disconnect,
}

abbrev pub opened_in : State → Bool
opened_in connect_server = true
opened_in ready = true
opened_in _ = false

abbrev pub closed_in : State → Bool
closed_in idle = true
closed_in create_soc = true
closed_in check_errors = true
closed_in _ = false

pub record IsSound (c : Ctx) : Type 0 where
  pub opened : opened_in c.state ≡ true → c.socket ≢ none
  pub closed : closed_in c.state ≡ true → c.socket ≡ none

pub ctx_init-IsSound : (c : Ctx) → IsSound (ctx_init c)
unfolding ctx_init
ctx_init-IsSound c = ground arith

dispatch-IsSound :
    (st : State) (net : Net) (c : Ctx) → st ≡ c.state → IsSound c → IsSound (dispatch st net c)
unfolding dispatch
dispatch-IsSound _ net c q s = ground arith

signal-IsSound : (sig : Signal) (c : Ctx) → IsSound c → IsSound (signal sig c)
unfolding signal
signal-IsSound _ c s = ground arith

send-IsSound : (a : Option ℕ) (now : ℕ) (c : Ctx) → IsSound c → IsSound (send a now c).1
unfolding send
send-IsSound a now c s = ground arith

finish_read-IsSound :
    (o : Outcome) (now : ℕ) (c : Ctx) → IsSound c → IsSound (finish_read o now c).1
unfolding finish_read
finish_read-IsSound _ now c s = ground arith

pub handle-IsSound : (e : Event) (c : Ctx) → IsSound c → IsSound (handle e c)
unfolding handle step
handle-IsSound (round net) c s = dispatch-IsSound c.state net c refl s
handle-IsSound (other sig) c s = signal-IsSound sig c s
handle-IsSound (sends a now) c s = send-IsSound a now c s
handle-IsSound (reads o now) c s = finish_read-IsSound o now c s

run-IsSound : (es : List Event) (c : Ctx) → IsSound c → IsSound (run es c)
unfolding run
run-IsSound [] c s = s
run-IsSound (e ∷ es) c s = run-IsSound es (handle e c) (handle-IsSound e c s)

-- From its initialisation on, the client's task holds an open descriptor when it connects and when
-- it is connected, and none when it is idle, opens a socket or checks for errors: for all runs of
-- the task, the callbacks, the sends and the reads that were blocked in select(), in any order.
pub run-ctx_init : (es : List Event) (c : Ctx) → IsSound (run es (ctx_init c))
run-ctx_init es c = run-IsSound es (ctx_init c) (ctx_init-IsSound c)

dispatch-keeps_socket :
    (st : State) (net : Net) (c : Ctx)
    → st ≡ c.state
    → IsSound c
    → ((dispatch st net c).socket ≡ c.socket) ⊎ ((c.socket ≡ none) ⊎ (c.state ≡ close_soc))
unfolding dispatch
dispatch-keeps_socket _ net c q s = ground arith

finish_read-keeps : (o : Outcome) (now : ℕ) (c : Ctx) → (finish_read o now c).1.socket ≡ c.socket
unfolding finish_read
finish_read-keeps _ now c = ground arith

-- No event loses a descriptor in a sound context: the socket is left as it is, or opened where
-- there was none, or closed by the state that closes.
pub handle-keeps_socket :
    (e : Event) (c : Ctx)
    → IsSound c
    → ((handle e c).socket ≡ c.socket) ⊎ ((c.socket ≡ none) ⊎ (c.state ≡ close_soc))
unfolding handle step signal send
handle-keeps_socket (round net) c s = dispatch-keeps_socket c.state net c refl s
handle-keeps_socket (other client_start) c s = inl refl
handle-keeps_socket (other client_stop) c s = inl refl
handle-keeps_socket (other client_disconnect) c s = inl refl
handle-keeps_socket (sends a now) c s = ground arith
handle-keeps_socket (reads o now) c s = inl (finish_read-keeps o now c)
