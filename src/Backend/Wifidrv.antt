-- ===== src/Backend/Wifidrv.antt =====
-- backend/wifidrv.c: the state machine of the Wi-Fi connection and the requests of the other tasks.
-- The lists of callbacks hold numbers that stand for functions, and a round tells which it called.
-- The stored credentials, the configuration of the radio and the signal strength are left out but
-- for the name of the network that is chosen from the scanned ones.
pub mod Callbacks
pub mod Attempts
pub mod Scan
pub mod Credentials
pub mod Flash
pub mod Restart
pub mod Requests
mod Tests
use hq_components.Prelude.{
  Bool, List, Option, [], false, get_elem?, if◌then◌else◌, length, ltb, none, not, replicate, some,
  sub32, take, true, u32, ℕ, ◌&&◌, ◌++◌, ◌+◌, ◌==◌, ◌>>=◌, ◌||◌, ◌∷◌,
}

-- wifi_app_status_t
pub data State : Type 0 where
  init idle connect wait_connect scan start stop ready deinit : State

-- wifidrv_ctx_t, with wifi_type as `is_server`.
pub record Ctx : Type 0 where
  pub is_server : Bool
  pub state : State
  pub is_started : Bool
  pub is_power_save : Bool
  pub connected : Bool
  pub disconnect_req : Bool
  pub connect_req : Bool
  pub read_wifi_data : Bool
  pub connect_attemps : ℕ
  pub reason_disconnect : ℕ
  pub client_cnt : ℕ
  pub on_connect_cb : List ℕ
  pub on_disconnect_cb : List ℕ

-- What the radio and the flash answer in one round.
pub record Radio : Type 0 where
  pub connects : Bool
  pub has_data : Bool

-- Which list of callbacks a round has run.
pub data Called : Type 0 where
  nothing : Called
  on_connect on_disconnect : List ℕ → Called

abbrev pub callbacks_list_size : ℕ
callbacks_list_size = 8

-- _add_to_list: `none` is the failing assertion.
unfoldable pub add_to_list : ℕ → List ℕ → Option (List ℕ)
add_to_list cb list =
    if ltb (length list) callbacks_list_size then some (list ++ (cb ∷ [])) else none

-- _start_sta_mode with wifiDrvPowerSave( false )
unfoldable pub start_sta_mode : Ctx → Ctx
start_sta_mode c = if c.is_started then c else record c { is_started = true; is_power_save = false }

-- _start_access_pont
unfoldable pub start_access_pont : Ctx → Ctx
start_access_pont c = record c { is_started = true }

-- _state_init
unfoldable pub state_init : Radio → Ctx → Ctx
unfolding start_sta_mode start_access_pont
state_init r c =
    let c' : Ctx =
      if c.is_server
      then start_access_pont c
      else start_sta_mode (if r.has_data then record c { read_wifi_data = true } else c) in
    record c' { state = idle }

-- _state_idle
unfoldable pub state_idle : Ctx → Ctx
state_idle c =
    if c.is_server
    then record c { state = start; connected = true }
    else if c.connect_req
    then record c { state = connect }
    else c

-- _state_connect
unfoldable pub state_connect : Radio → Ctx → Ctx
unfolding start_sta_mode
state_connect r c =
    let c' = start_sta_mode c in
    if r.connects
    then record c' { state = wait_connect }
    else (let given_up : Ctx =
          if ltb 3 c'.connect_attemps
          then record c' { connect_attemps = 0; connect_req = false; is_started = false }
          else c' in
        record given_up { state = idle; connect_attemps = u32 (given_up.connect_attemps + 1) })

-- _state_wait_connecting
unfoldable pub state_wait_connecting : Ctx → Ctx
state_wait_connecting c =
    if c.connected
    then record c {
      disconnect_req = false;
      connect_req = false;
      connect_attemps = 0;
      state = start;
    }
    else (let timed_out : Ctx =
          if ltb 30 c.connect_attemps
          then record c {
            connect_req = false;
            connect_attemps = 0;
            state = idle;
            is_started = false;
          }
          else c in
        record timed_out { connect_attemps = u32 (timed_out.connect_attemps + 1) })

-- _state_start
unfoldable pub state_start : Ctx → Ctx
state_start c = record c { state = ready }

-- _state_stop
unfoldable pub state_stop : Ctx → Ctx
state_stop c = record c {
  disconnect_req = false;
  reason_disconnect =
      if c.disconnect_req && not (c.reason_disconnect == 0) then 0 else c.reason_disconnect;
  connected = false;
  state = idle;
}

-- _state_ready
unfoldable pub state_ready : Ctx → Ctx
state_ready c =
    if c.disconnect_req || not c.connected || c.connect_req then record c { state = stop } else c

-- One round of _wifi_event_task.
unfoldable pub dispatch : State → Radio → Ctx → Called × Ctx
unfolding state_init state_idle state_connect state_wait_connecting state_start state_stop
    state_ready
dispatch init r c = (nothing, state_init r c)
dispatch idle r c = (nothing, state_idle c)
dispatch connect r c = (nothing, state_connect r c)
dispatch wait_connect r c = (nothing, state_wait_connecting c)
dispatch start r c = (on_connect c.on_connect_cb, state_start c)
dispatch stop r c = (on_disconnect c.on_disconnect_cb, state_stop c)
dispatch ready r c = (nothing, state_ready c)
dispatch deinit r c = (on_disconnect c.on_disconnect_cb, state_stop c)
dispatch scan r c = (nothing, record c { state = idle })

unfoldable pub step : Radio → Ctx → Called × Ctx
unfolding dispatch
step r c = dispatch c.state r c

-- The handlers of the radio's events, and what the other tasks ask for.
pub data Signal : Type 0 where
  wifi_disconnect : ℕ → Signal
  got_ip client_joins client_leaves ask_connect ask_disconnect start_scan : Signal
  power_save : Bool → Signal

unfoldable pub signal : Signal → Ctx → Ctx
unfolding start_sta_mode
signal (wifi_disconnect reason) c = record c { connected = false; reason_disconnect = reason }
signal got_ip c = record c { connected = true }
signal client_joins c = record c { client_cnt = u32 (c.client_cnt + 1) }
signal client_leaves c = record c { client_cnt = sub32 c.client_cnt 1 }
signal ask_connect c = if c.is_server then c else record c { connect_req = true }
signal ask_disconnect c = if c.is_server then c else record c { disconnect_req = true }
signal start_scan c = elim c.state [
  | State.idle ↦ start_sta_mode c
  | State.ready ↦ start_sta_mode c
  | _ ↦ c
]
signal (power_save b) c = record c { is_power_save = b }

pub data Event : Type 0 where
  round : Radio → Event
  other : Signal → Event

-- A run of the task among the others, with the callbacks in order.
unfoldable pub run : List Event → Ctx → List Called × Ctx
unfolding step signal
run [] c = ([], c)
run (round r ∷ es) c =
    let (called, c') = step r c in let (all, c'') = run es c' in (called ∷ all, c'')
run (other sig ∷ es) c = run es (signal sig c)

-- wifiDrvSetFromAPList: whether it succeeds and the new name, `none` for a read behind the list.
unfoldable pub set_from_ap_list : ℕ → List (List ℕ) → List ℕ → Option (Bool × List ℕ)
set_from_ap_list num scan_list ssid =
    if ltb 32 num
    then some (false, ssid)
    else get_elem? scan_list num >>= λ name.
        some (true, take (length ssid) (name ++ replicate (length ssid) 0))
