-- ===== src/OledUi/MenuDrv.antt =====
-- oled_ui/menu_drv.c: the stack of entered menus and the state machine that shows them.
-- A menu_token_t pointer is a number, `none` for NULL; `has_process` tells which menus have a
-- process callback and `ms2st` is the firmware's conversion to ticks. The drawing, the LEDs and
-- what the menus' own callbacks do are left out; `active` is the menu whose button callbacks are
-- set, and `saved` counts the calls of parameters_save.
pub mod Stack
pub mod Walk
pub mod Buttons
mod Tests
use hq_components.Prelude.{
  Bool, List, Option, [], false, if◌then◌else◌, ltb, none, not, replicate, set, some, take, true,
  u32, ℕ, ◌%◌, ◌&&◌, ◌++◌, ◌+◌, ◌-◌, ◌==◌, ◌>>=◌, ◌||◌, ◌∷◌,
}

abbrev pub Tab : Type 0
Tab = List (Option ℕ)

-- menu_state_t
pub data State : Type 0 where
  init idle enter exit process info power_off_count power_off emergency_disable error_check : State

-- menu_drv_t
pub record Ctx : Type 0 where
  pub state : State
  pub last_state : State
  pub entered_menu_tab : Tab
  pub save_timeout : ℕ
  pub save_flag : Bool
  pub exit_req : Bool
  pub enter_req : Bool
  pub error_flag : Bool
  pub power_off_req : Bool
  pub emergency_led_status : Bool
  pub emergency_disable_is_active : Bool
  pub led_cnt : ℕ
  pub new_menu : Option ℕ
  pub power_off_timer : ℕ
  pub block_power_off_timer : ℕ
  pub active : Option ℕ
  pub saved : ℕ

-- The loop of last_tab_element from its second round on: `prev` is the element before.
abbrev pub last_from : Option ℕ → Tab → Option ℕ
last_from prev [] = none
last_from prev (none ∷ tab) = prev
last_from prev (some m ∷ tab) = last_from (some m) tab

-- last_tab_element
unfoldable pub last_tab_element : Tab → Option ℕ
last_tab_element [] = none
last_tab_element (first ∷ tab) = last_from first tab

-- tab_len from the index `i` on.
abbrev pub len_from : ℕ → Tab → ℕ
len_from i [] = 0
len_from i (none ∷ tab) = i
len_from i (some m ∷ tab) = len_from (i + 1) tab

-- tab_len: a full table has the length 0.
unfoldable pub tab_len : Tab → ℕ
tab_len tab = len_from 0 tab

-- add_menu_tab
unfoldable pub add_menu_tab : ℕ → Tab → Tab
unfolding tab_len
add_menu_tab menu tab = set tab (tab_len tab) (some menu)

-- remove_last_menu_tab
unfoldable pub remove_last_menu_tab : Tab → Tab
unfolding tab_len
remove_last_menu_tab tab =
    let pos = tab_len tab in if ltb 1 pos then set tab (pos - 1) none else tab

-- go_to_main_menu
unfoldable pub go_to_main_menu : Ctx → Ctx
go_to_main_menu c = record c { entered_menu_tab = take 1 c.entered_menu_tab ++ replicate 7 none }

-- menuSetMain
unfoldable pub set_main : Option ℕ → Ctx → Ctx
set_main menu c = record c {
  entered_menu_tab = menu ∷ replicate 7 none;
  state = elim c.state [ State.init ↦ State.init | _ ↦ idle ];
}

-- menuEnter
unfoldable pub menu_enter : Option ℕ → Ctx → Ctx
menu_enter menu c = record c { new_menu = menu; enter_req = true }

-- menuDrv_Exit
unfoldable pub menu_exit : Ctx → Ctx
menu_exit c = record c { exit_req = true }

-- menuDrvEnterEmergencyDisable
unfoldable pub enter_emergency_disable : Ctx → Ctx
enter_emergency_disable c = record c {
  last_state = c.state;
  state = emergency_disable;
  emergency_led_status = true;
  emergency_disable_is_active = true;
  led_cnt = 0;
  active = none;
}

-- menuDrvExitEmergencyDisable
unfoldable pub exit_emergency_disable : Ctx → Ctx
unfolding last_tab_element
exit_emergency_disable c = record c {
  state = c.last_state;
  emergency_disable_is_active = false;
  active = elim (last_tab_element c.entered_menu_tab) [ none ↦ c.active | some m ↦ some m ];
}

-- menu_state_idle
unfoldable pub state_idle : Option ℕ → Ctx → Ctx
unfolding add_menu_tab
state_idle menu c =
    if c.enter_req
    then (elim c.new_menu [
      | none ↦ record c { error_flag = true; state = error_check; enter_req = false }
      | some m ↦ record c {
        entered_menu_tab = add_menu_tab m c.entered_menu_tab;
        state = enter;
        enter_req = false;
      }
    ])
    else (elim menu [ none ↦ c | some m ↦ record c { state = enter; enter_req = false } ])

-- menu_state_enter: a menu that is NULL is followed all the same.
unfoldable pub state_enter : Option ℕ → Ctx → Option Ctx
state_enter none c = none
state_enter (some m) c = some (record c { active = some m; state = process })

-- menu_state_exit
unfoldable pub state_exit : Option ℕ → Ctx → Option Ctx
unfolding remove_last_menu_tab
state_exit none c = none
state_exit (some m) c = some (record c {
  active = none;
  entered_menu_tab =
      if c.exit_req then remove_last_menu_tab c.entered_menu_tab else c.entered_menu_tab;
  exit_req = false;
  state = error_check;
})

-- menu_state_error_check
unfoldable pub state_error_check : Ctx → Ctx
state_error_check c =
    let c' : Ctx = if c.error_flag then record c { error_flag = false; exit_req = true } else c in
    record c' { state = idle }

-- menu_state_emergency_disable
unfoldable pub state_emergency_disable : Ctx → Ctx
state_emergency_disable c = record c {
  emergency_led_status =
      if c.led_cnt % 10 == 0 then not c.emergency_led_status else c.emergency_led_status;
  led_cnt = u32 (c.led_cnt + 1);
}

-- menu_state_power_off_count
unfoldable pub state_power_off_count : ℕ → Ctx → Ctx
state_power_off_count now c =
    if not c.power_off_req
    then record c { state = if c.emergency_disable_is_active then emergency_disable else process }
    else if ltb now c.power_off_timer
    then c
    else record c { state = power_off }

-- save_process
unfoldable pub save_process : ℕ → Ctx → Ctx
save_process now c =
    if c.save_flag && ltb c.save_timeout now
    then record c { saved = c.saved + 1; save_flag = false }
    else c

-- menu_rise_power_off_but_cb
unfoldable pub rise_power_off : Ctx → Ctx
rise_power_off c = record c { power_off_req = false }

-- menu_timer_long_power_off_but_cb
unfoldable pub timer_long_power_off : Ctx → Ctx
timer_long_power_off c = elim c.state [
  | State.power_off_count ↦ record c { state = power_off }
  | State.power_off ↦ record c { state = power_off }
  | _ ↦ c
]

module _ (ms2st : ℕ → ℕ) where
  -- menuDrvSaveParameters
  unfoldable pub save_parameters : ℕ → Ctx → Ctx
  save_parameters now c = record c { save_timeout = u32 (now + ms2st 5000); save_flag = true }

  -- menu_timer_power_off_but_cb
  unfoldable pub timer_power_off : ℕ → Ctx → Ctx
  timer_power_off now c = if ltb now c.block_power_off_timer then c else record c {
    power_off_req = true;
    state = power_off_count;
    power_off_timer = u32 (now + ms2st 3500);
  }

module _ (has_process : ℕ → Bool) where
  -- menu_state_process
  unfoldable pub state_process : Option ℕ → Ctx → Option Ctx
  state_process none c = none
  state_process (some m) c =
      let c' : Ctx = if has_process m then c else record c { error_flag = true; state = exit } in
      some (if c'.enter_req || c'.exit_req then record c' { state = exit } else c')

  -- One round of menu_task, at the time `now`. `none` is the following of a NULL pointer.
  unfoldable pub dispatch : State → ℕ → Option ℕ → Ctx → Option Ctx
  unfolding state_idle state_enter state_exit state_process save_process state_power_off_count
      state_emergency_disable state_error_check
  dispatch init now menu c = some (record c { state = idle })
  dispatch idle now menu c = some (state_idle menu c)
  dispatch enter now menu c = state_enter menu c
  dispatch exit now menu c = state_exit menu c
  dispatch process now menu c = state_process menu c >>= λ c'. some (save_process now c')
  dispatch info now menu c = some c
  dispatch power_off_count now menu c = some (state_power_off_count now c)
  dispatch power_off now menu c = some c
  dispatch emergency_disable now menu c = some (state_emergency_disable c)
  dispatch error_check now menu c = some (state_error_check c)

  unfoldable pub step : ℕ → Ctx → Option Ctx
  unfolding dispatch last_tab_element
  step now c = dispatch c.state now (last_tab_element c.entered_menu_tab) c

  -- The rounds at the given times.
  unfoldable pub run : List ℕ → Ctx → Option Ctx
  unfolding step
  run [] c = some c
  run (now ∷ nows) c = step now c >>= λ c'. run nows c'
