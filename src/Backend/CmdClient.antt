-- ===== src/Backend/CmdClient.antt =====
-- backend/cmd_client.c: the task that keeps the client's connection, and its reads and sends.
-- A descriptor is an Option, `none` for -1. The task, the Wi-Fi driver, the keep-alive task and the
-- task that reads share the context, so they are events in any order; cmdClientRead blocks in
-- select(), and is two events: the guards, then what it does when select() returns.
pub mod Sockets
pub mod Link
mod Tests
use hq_components.Prelude.{
  Bool, List, Option, [], false, if◌then◌else◌, ltb, none, not, some, suc, true, u32, zero, ℕ, ◌&&◌,
  ◌+◌, ◌==◌, ◌||◌, ◌∷◌,
}
use hq_components.Drv.Keepalive.{KeepAlive}
use hq_components.Drv.Keepalive

-- enum cmd_client_app_state
pub data State : Type 0 where
  idle create_soc connect_server ready close_soc check_errors : State

-- struct cmd_client_context, less the address of the server and the buffers that nothing uses.
pub record Ctx : Type 0 where
  pub state : State
  pub socket : Option ℕ
  pub error : Bool
  pub start : Bool
  pub disconnect_req : Bool
  pub payload_size : ℕ
  pub keep : KeepAlive

-- What the network and the clock answer in one round of the task.
pub record Net : Type 0 where
  pub socket : Option ℕ
  pub connects : Bool
  pub now : ℕ

-- _idle_state
unfoldable pub idle_state : Ctx → Ctx
idle_state c =
    let c' : Ctx =
      if c.disconnect_req
      then record c { start = false; error = false; disconnect_req = false }
      else c in
    if c'.start then record c' { error = false; state = create_soc } else c'

-- _create_soc_state
unfoldable pub create_soc_state : Net → Ctx → Ctx
create_soc_state net c = elim c.socket [
  | some fd ↦ record c { state = close_soc }
  | none ↦ elim net.socket [
    | some fd ↦ record c { socket = some fd; state = connect_server }
    | none ↦ record c { error = true; state = close_soc }
  ]
]

-- _connect_server_state
unfoldable pub connect_server_state : Net → Ctx → Ctx
connect_server_state net c =
    if net.connects
    then record c { keep = Keepalive.start net.now c.keep; state = ready }
    else record c { error = true; state = close_soc }

-- _connect_ready_state
unfoldable pub connect_ready_state : Ctx → Ctx
connect_ready_state c =
    if not c.start || c.disconnect_req then record c { state = close_soc } else c

-- _close_soc_state
unfoldable pub close_soc_state : Ctx → Ctx
close_soc_state c = record c { socket = none; keep = Keepalive.stop c.keep; state = check_errors }

-- _check_errors_state
unfoldable pub check_errors_state : Ctx → Ctx
check_errors_state c = record c { error = false; state = idle }

-- One round of cmd_client_task.
unfoldable pub dispatch : State → Net → Ctx → Ctx
unfolding idle_state create_soc_state connect_server_state connect_ready_state close_soc_state
    check_errors_state
dispatch idle net c = idle_state c
dispatch create_soc net c = create_soc_state net c
dispatch connect_server net c = connect_server_state net c
dispatch ready net c = connect_ready_state c
dispatch close_soc net c = close_soc_state c
dispatch check_errors net c = check_errors_state c

unfoldable pub step : Net → Ctx → Ctx
unfolding dispatch
step net c = dispatch c.state net c

-- cmd_client_ctx_init
unfoldable pub ctx_init : Ctx → Ctx
ctx_init c = record c {
  state = idle;
  error = false;
  start = false;
  disconnect_req = false;
  socket = none;
  payload_size = 0;
}

-- cmdClientIsConnected
unfoldable pub is_connected : Ctx → Bool
is_connected c =
    not c.disconnect_req && c.start && (elim c.state [ State.ready ↦ true | _ ↦ false ])

-- cmdClientSend: `answer` is what send() returns, `none` for a negative number.
unfoldable pub send : Option ℕ → ℕ → Ctx → Option ℕ × Ctx
send answer now c = elim c.state [
  | State.ready ↦ elim c.socket [
    | none ↦ (none, c)
    | some fd ↦ elim answer [
      | none ↦ (none, c)
      | some sent ↦
          (some sent, if ltb 0 sent then record c { keep = Keepalive.accept now c.keep } else c)
    ]
  ]
  | _ ↦ (none, c)
]

-- What select() and then read() answer to cmdClientRead.
pub data Outcome : Type 0 where
  select_error select_timeout read_error end_of_stream : Outcome
  not_set : Outcome
  bytes : List ℕ → Outcome

-- What cmdClientRead returns: ERROR, TIMEOUT, or a count with the bytes it wrote.
pub data Answer : Type 0 where
  failed timed_out : Answer
  received : List ℕ → Answer

-- The guards of cmdClientRead, before select().
unfoldable pub may_read : ℕ → Ctx → Bool
unfolding is_connected
may_read len c =
    not (len == 0) && is_connected c && (elim c.socket [ none ↦ false | some fd ↦ true ])

-- cmdClientRead from the return of select() on.
unfoldable pub finish_read : Outcome → ℕ → Ctx → Answer × Ctx
finish_read select_error now c = (failed, record c { error = true; state = close_soc })
finish_read select_timeout now c = (timed_out, c)
finish_read not_set now c = (failed, record c { state = close_soc })
finish_read (bytes bs) now c =
    if c.start && not c.disconnect_req
    then (received bs, record c { keep = Keepalive.accept now c.keep })
    else (failed, record c { state = close_soc })
finish_read end_of_stream now c =
    if c.start && not c.disconnect_req
    then (received [], c)
    else (failed, record c { state = close_soc })
finish_read read_error now c =
    if c.start && not c.disconnect_req
    then (failed, record c { error = true; state = close_soc })
    else (failed, record c { state = close_soc })

-- cmdClientStart, cmdClientStop, and cmdClientDisconnect.
pub data Signal : Type 0 where
  client_start client_stop client_disconnect : Signal

unfoldable pub signal : Signal → Ctx → Ctx
signal client_start c = record c { start = true; disconnect_req = false }
signal client_stop c = record c { start = false }
signal client_disconnect c = record c { disconnect_req = true }

-- The tasks that share the context, in the order in which they run.
pub data Event : Type 0 where
  round : Net → Event
  other : Signal → Event
  sends : Option ℕ → ℕ → Event
  reads : Outcome → ℕ → Event

unfoldable pub handle : Event → Ctx → Ctx
unfolding step signal send finish_read
handle (round net) c = step net c
handle (other sig) c = signal sig c
handle (sends answer now) c = (send answer now c).1
handle (reads outcome now) c = (finish_read outcome now c).1

unfoldable pub run : List Event → Ctx → Ctx
unfolding handle
run [] c = c
run (e ∷ es) c = run es (handle e c)

-- cmdClientTryConnect: its pass `k` finds the context connected or not, and waits until `clock k`.
-- `none` is a run out of fuel.
unfoldable pub try_connect : ℕ → (ℕ → Bool) → (ℕ → ℕ) → ℕ → ℕ → ℕ → Option Bool
try_connect zero connected clock timeout time_now k = none
try_connect (suc fuel) connected clock timeout time_now k =
    let rest = try_connect fuel connected clock timeout time_now (k + 1) in
    if connected k
    then some true
    else if ltb (u32 (time_now + timeout)) (clock k)
    then rest
    else some (connected (k + 1))
