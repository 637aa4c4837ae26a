-- ===== src/Drv/PowerOn.antt =====
-- drv/power_on.c: powering off after some minutes without a connection.
-- `ms2st` is the firmware's conversion to ticks. A poll is one round of the task: the two reads of
-- the clock in _state_wait_to_disable give one time. `pin` is the level of the pin that holds the
-- power; the LEDs are left out. menuDrvDisableSystemProcess does not return, so that nothing follows
-- STATE_OFF.
pub mod Quiet
mod Tests
use hq_components.Prelude.{Bool, List, [], false, if◌then◌else◌, ltb, true, u32, ℕ, ◌*◌, ◌+◌, ◌∷◌}

-- enum state_t
pub data State : Type 0 where
  idle wait_to_disable disable_system off : State

-- struct power_off_context, and the pin.
pub record Ctx : Type 0 where
  pub state : State
  pub power_off_timer : ℕ
  pub pin : Bool

-- What a round finds: the clock, and wifiDrvIsConnected().
pub record Poll : Type 0 where
  pub now : ℕ
  pub connected : Bool

-- power_on_enable_system
unfoldable pub enable_system : Ctx → Ctx
enable_system c = record c { pin = true }

-- power_on_disable_system
unfoldable pub disable_system_now : Ctx → Ctx
disable_system_now c = record c { pin = false }

-- power_on_reset_timer
unfoldable pub reset_timer : Ctx → Ctx
reset_timer c = elim c.state [ State.wait_to_disable ↦ record c { state = idle } | _ ↦ c ]

-- _state_wait_to_disable
unfoldable pub state_wait_to_disable : Poll → Ctx → Ctx
state_wait_to_disable p c =
    if p.connected
    then record c { state = idle }
    else if ltb c.power_off_timer p.now
    then record c { state = disable_system }
    else c

-- _state_disable_system
unfoldable pub state_disable_system : Ctx → Ctx
unfolding disable_system_now
state_disable_system c = record (disable_system_now c) { state = off }

module _ (ms2st : ℕ → ℕ) (minutes : ℕ) where
  -- The ticks that POWER_OFF_TIME_MIN minutes stand for.
  abbrev pub delay : ℕ
  delay = ms2st (u32 (minutes * 60 * 1000))

  -- _state_idle
  unfoldable pub state_idle : Poll → Ctx → Ctx
  state_idle p c =
      if p.connected
      then c
      else record c { power_off_timer = u32 (p.now + delay); state = wait_to_disable }

  -- One round of _power_on_task.
  unfoldable pub step : Poll → Ctx → Ctx
  unfolding state_idle state_wait_to_disable state_disable_system
  step p c = elim c.state [
    | State.idle ↦ state_idle p c
    | State.wait_to_disable ↦ state_wait_to_disable p c
    | State.disable_system ↦ state_disable_system c
    | State.off ↦ c
  ]

  unfoldable pub run : List Poll → Ctx → Ctx
  unfolding step
  run [] c = c
  run (p ∷ ps) c = run ps (step p c)
