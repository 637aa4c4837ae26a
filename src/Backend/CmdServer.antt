-- ===== src/Backend/CmdServer.antt =====
-- backend/cmd_server.c: the task that serves one client on a listening socket.
-- A descriptor of -1 is `none`; socket() gives -1 on an error. What the network answers in one
-- round of the task is an argument. `server` holds the parameters and the packets that the parser
-- has handed to cmdServerSendData. The delays of the task have no effect on its state.
pub mod Sockets
pub mod Liveness
pub mod Api
pub mod Supervise
pub mod Answers
mod Tests
use hq_components.Prelude.{
  ==_iff, Bool, Bool-cases, List, Option, Option-cases, [], ap, append_assoc, arith, drop,
  drop_append, false, get_elem?, get_elem?-append, get_elem?-eq-get_or, get_or, get_or-set_ne,
  get_or-set_self, get_or_append_left, if◌then◌else◌, inl, inr, le_bytes, le_word, le_word-le_bytes,
  leb, length, length-append, length-drop, length-replicate, length-set, length-take,
  length-write_at, le→leb, le→ltb, ltb, ltb→le, ltb→lt, lt→leb, lt→ltb, map, min, none, not, refl,
  replicate, replicate-add, set, set-append, some, sub32, suc, sym, take, take-append-drop,
  take_append, true, u32, u8, write_at, write_at-append, write_at-replicate, write_at_front, zero,
  ℕ, ◌%◌, ◌&&◌, ◌*◌, ◌++◌, ◌+◌, ◌-◌, ◌/◌, ◌<◌, ◌==◌, ◌>>=◌, ◌^◌, ◌||◌, ◌↔◌, ◌∙◌, ◌∷◌, ◌≡◌, ◌≢◌, ◌≤◌,
  ◌⊎◌,
}
use hq_components.Backend.Parameters.{Parameter}
use hq_components.Backend.ParseCmd.{Server, parse_server_buffer}
use hq_components.Drv.Keepalive.{KeepAlive}
use hq_components.Drv.Keepalive

-- enum state_t
pub data State : Type 0 where
  idle create_soc listen ready parse_response close_soc check_errors : State

-- The members of cmd_server_t that the task reads or writes.
pub record Ctx : Type 0 where
  pub state : State
  pub socket : Option ℕ
  pub client_socket : Option ℕ
  pub disconnect_req : Bool
  pub error : Bool
  pub start : Bool
  pub payload : List ℕ
  pub payload_size : ℕ
  pub keep : KeepAlive
  pub is_connected : Bool
  pub server : Server

pub data Select : Type 0 where
  select_error select_timeout select_ready : Select

-- What read() gives: some bytes, the end of the stream, or an error.
pub data Read : Type 0 where
  bytes : List ℕ → Read
  end_of_stream read_error : Read

-- What the network and the clock answer in one round.
pub record Net : Type 0 where
  pub socket : Option ℕ
  pub binds : Bool
  pub listens : Bool
  pub select : Select
  pub accept : Option ℕ
  pub is_set : Bool
  pub read : Read
  pub now : ℕ

abbrev pub payload_capacity : ℕ
payload_capacity = 256

-- _change_state
unfoldable pub change_state : State → Ctx → Ctx
change_state new_state c = record c { state = new_state }

abbrev pub fail_close : Ctx → Ctx
fail_close c = record c { error = true; state = close_soc }

-- _idle_state
unfoldable pub idle_state : Ctx → Ctx
idle_state c =
    if c.start then record c { error = false; disconnect_req = false; state = create_soc } else c

-- _create_soc_state. A socket that fails still goes on to bind() and listen().
unfoldable pub create_soc_state : Net → Ctx → Ctx
create_soc_state net c = elim c.socket [
  | some fd ↦ record c { state = close_soc }
  | none ↦
      let c' : Ctx = record c {
        socket = net.socket;
        error = elim net.socket [ none ↦ true | some fd ↦ c.error ];
        state = elim net.socket [ none ↦ close_soc | some fd ↦ c.state ];
      } in
      if not net.binds
      then fail_close c'
      else if not net.listens
      then fail_close c'
      else record c' { state = listen }
]

-- _listen_client
unfoldable pub listen_client : Net → Ctx → Ctx
listen_client net c =
    if not c.start || c.disconnect_req then record c { state = close_soc } else elim net.select [
      | select_error ↦ fail_close c
      | select_timeout ↦ c
      | select_ready ↦ elim net.accept [
        | none ↦ fail_close c
        | some fd ↦ record c {
          client_socket = some fd;
          keep = Keepalive.start net.now c.keep;
          is_connected = true;
          state = ready;
        }
      ]
    ]

-- The read() of _connect_ready_state: at most the size of the payload.
unfoldable pub read_client : Read → Ctx → Ctx
read_client (bytes bs) c = record c {
  payload = write_at c.payload 0 bs;
  payload_size = length bs;
  state = parse_response;
}
read_client end_of_stream c = record c { state = close_soc }
read_client read_error c = fail_close c

-- _connect_ready_state
unfoldable pub connect_ready_state : Net → Ctx → Ctx
unfolding read_client
connect_ready_state net c =
    if not c.start || c.disconnect_req then record c { state = close_soc } else elim net.select [
      | select_error ↦ fail_close c
      | select_timeout ↦ c
      | select_ready ↦
          if c.start && net.is_set then read_client net.read c else record c { state = close_soc }
    ]

-- _close_soc_state
unfoldable pub close_soc_state : Ctx → Ctx
close_soc_state c = record c { client_socket = none; socket = none; state = check_errors }

-- _check_errors_state
unfoldable pub check_errors_state : Ctx → Ctx
check_errors_state c = record c { error = false; disconnect_req = false; state = idle }

-- cmd_server_ctx_init
unfoldable pub ctx_init : Ctx → Ctx
ctx_init c = record c {
  state = idle;
  error = false;
  start = false;
  disconnect_req = false;
  socket = none;
  client_socket = none;
  payload_size = 0;
}

-- cmdServerIsWorking
unfoldable pub is_working : Ctx → Bool
is_working c = c.is_connected

-- What the other tasks do to the context: cmdServerStart and cmdServerStop, which the Wi-Fi driver
-- calls, cmdServerErrorKACb, which the keep-alive task calls, and a failing keepAliveSend.
pub data Signal : Type 0 where
  server_start server_stop keep_alive_error keep_alive_refused : Signal

unfoldable pub signal : Signal → Ctx → Ctx
signal server_start c = record c { start = true }
signal server_stop c = record c { start = false }
signal keep_alive_error c = record c { disconnect_req = true; is_connected = false }
signal keep_alive_refused c = record c { disconnect_req = true }

-- The task and the others, in the order in which they run.
pub data Event : Type 0 where
  round : Net → Event
  other : Signal → Event

module _ (project : List Parameter) where
  -- _parse_response_state
  unfoldable pub parse_response_state : Net → Ctx → Option Ctx
  parse_response_state net c =
      parse_server_buffer project c.payload c.payload_size c.server >>= λ server. some (record c {
        keep = Keepalive.accept net.now c.keep;
        server = server;
        state = if not c.start || c.disconnect_req then close_soc else ready;
      })

  -- One round of cmd_server_task.
  unfoldable pub dispatch : State → Net → Ctx → Option Ctx
  unfolding idle_state create_soc_state listen_client connect_ready_state close_soc_state
      check_errors_state
  dispatch idle net c = some (idle_state c)
  dispatch create_soc net c = some (create_soc_state net c)
  dispatch listen net c = some (listen_client net c)
  dispatch ready net c = some (connect_ready_state net c)
  dispatch parse_response net c = parse_response_state net c
  dispatch close_soc net c = some (close_soc_state c)
  dispatch check_errors net c = some (check_errors_state c)

  unfoldable pub step : Net → Ctx → Option Ctx
  unfolding dispatch
  step net c = dispatch c.state net c

  unfoldable pub run : List Event → Ctx → Option Ctx
  run [] c = some c
  run (round net ∷ es) c = step net c >>= λ c'. run es c'
  run (other sig ∷ es) c = run es (signal sig c)
