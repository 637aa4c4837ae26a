-- ===== src/Drv/Sleep.antt =====
-- drv/sleep.c: the task that puts the device to sleep and wakes it up.
-- A round tells which of its calls it made. `signal` is sleep_signal where the round reads it, after
-- its delay; the other answers are those of the Wi-Fi driver and the client.
pub mod Wake
mod Tests
use hq_components.Prelude.{Bool, List, [], false, if◌then◌else◌, not, true, ◌&&◌, ◌++◌, ◌||◌, ◌∷◌}

-- sleep_state_t
pub data State : Type 0 where
  no_init no_sleep go_to_sleep start_sleeping unsleep_process wake_up : State

pub record Round : Type 0 where
  pub signal : Bool
  pub wifi_connect : Bool  -- the bool that wifiDrvConnect returns
  pub is_connected : Bool  -- cmdClientIsConnected
  pub try_connect : Bool  -- cmdClientTryConnect( 3000 ) gives 1

-- esp_light_sleep_start, cmdClientTryConnect, sendKeepAliveFrame, and the buzzer on and off.
pub data Call : Type 0 where
  light_sleep try_to_connect keep_alive_frame beep : Call

-- is_sleeping
unfoldable pub is_sleeping : State → Bool → Bool
is_sleeping st sleep_signal = (elim st [ State.no_sleep ↦ false | _ ↦ true ]) || sleep_signal

-- The test `wifiDrvConnect() == ESP_OK`: ESP_OK is 0, the number of false.
unfoldable pub unsleep_calls : Round → List Call
unsleep_calls r =
    (if not r.wifi_connect && not r.is_connected
      then try_to_connect ∷ (if r.try_connect then keep_alive_frame ∷ [] else [])
      else [])
    ++ (beep ∷ [])

-- One round of sleep_task.
unfoldable pub step : Round → State → List Call × State
unfolding unsleep_calls
step r no_init = ([], no_init)
step r no_sleep = ([], if r.signal then go_to_sleep else no_sleep)
step r go_to_sleep = ([], if r.signal then start_sleeping else wake_up)
step r start_sleeping = (light_sleep ∷ [], if not r.signal then wake_up else unsleep_process)
step r unsleep_process = (unsleep_calls r, if not r.signal then wake_up else start_sleeping)
step r wake_up = ([], if r.signal then go_to_sleep else no_sleep)

unfoldable pub run : List Round → State → List Call × State
unfolding step
run [] st = ([], st)
run (r ∷ rs) st =
    let (calls, st') = step r st in let (more, st'') = run rs st' in (calls ++ more, st'')
