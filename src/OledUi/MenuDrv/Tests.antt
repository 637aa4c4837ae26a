-- ===== src/OledUi/MenuDrv/Tests.antt =====
-- Walks through menus, and the theorems of the menu driver at concrete inputs.
use hq_components.Prelude.{
  Bool, [], arith, false, if◌then◌else◌, ltb, none, refl, replicate, some, true, ℕ, ◌+◌, ◌/◌, ◌∷◌,
  ◌≡◌,
}
use hq_components.OledUi.MenuDrv.{
  init, process, power_off, emergency_disable, Ctx, last_tab_element, add_menu_tab,
  remove_last_menu_tab, menu_enter, menu_exit, enter_emergency_disable, exit_emergency_disable,
  step, run, timer_power_off, rise_power_off,
}
use hq_components.OledUi.MenuDrv.Stack.{table, top, add_menu_tab-stack}
use hq_components.OledUi.MenuDrv.Walk.{
  showing, enter-exit, enter-eighth, timer_power_off-step, exit_emergency_disable-twice,
}

abbrev base : Ctx
base = record {
  state = process;
  last_state = init;
  entered_menu_tab = [];
  save_timeout = 0;
  save_flag = false;
  exit_req = false;
  enter_req = false;
  error_flag = false;
  power_off_req = false;
  emergency_led_status = false;
  emergency_disable_is_active = false;
  led_cnt = 0;
  new_menu = none;
  power_off_timer = 0;
  block_power_off_timer = 0;
  active = none;
  saved = 0;
}

abbrev all_process : ℕ → Bool
all_process m = true

abbrev per_tick : ℕ → ℕ
per_tick ms = ms / 10

add_menu_tab-stack_test :
    let tab = add_menu_tab 9 (table 8 (4 ∷ 5 ∷ [])) in
    (last_tab_element tab ≡ some 9)
    × (remove_last_menu_tab tab ≡ table 8 (4 ∷ 5 ∷ []))
    × (last_tab_element (remove_last_menu_tab tab) ≡ top (4 ∷ 5 ∷ []))
add_menu_tab-stack_test = add_menu_tab-stack (4 ∷ 5 ∷ []) 9 (omega arith) (omega arith)

enter-exit_example :
    let five = replicate {A = ℕ} 5 100 in
    let entered : Ctx = record (showing (4 ∷ 5 ∷ []) base) {
      entered_menu_tab = add_menu_tab 9 (table 8 (4 ∷ 5 ∷ []));
      new_menu = some 9;
      active = some 9;
    } in
    (run all_process five (menu_enter (some 9) (showing (4 ∷ 5 ∷ []) base)) ≡ some entered)
    × (last_tab_element entered.entered_menu_tab ≡ some 9)
    × (run all_process five (menu_exit entered)
        ≡ some (record (showing (4 ∷ 5 ∷ []) base) { new_menu = some 9 }))
enter-exit_example =
    enter-exit all_process (4 ∷ 5 ∷ []) 9 5 100 base (omega arith) (omega arith) refl refl refl

enter-eighth_test :
    run all_process
      (replicate {A = ℕ} 5 100)
      (menu_enter (some 9) (showing (1 ∷ 2 ∷ 3 ∷ 4 ∷ 5 ∷ 6 ∷ 7 ∷ []) base))
    ≡ none
enter-eighth_test =
    enter-eighth all_process (1 ∷ 2 ∷ 3 ∷ 4 ∷ 5 ∷ 6 ∷ 7 ∷ []) 9 7 100 base refl refl refl

timer_power_off-step_test :
    let held = timer_power_off per_tick 1000 base in
    let back = if false then emergency_disable else process in
    (step all_process 1400 held
      ≡ some (if ltb 1400 (1000 + per_tick 3500) then held else record held { state = power_off }))
    × (step all_process 1400 (rise_power_off held)
        ≡ some (record held { power_off_req = false; state = back }))
timer_power_off-step_test =
    timer_power_off-step all_process per_tick 1000 1400 base (omega arith) (omega arith)

exit_emergency_disable-twice_test :
    let twice = exit_emergency_disable (enter_emergency_disable (enter_emergency_disable base)) in
    ((exit_emergency_disable (enter_emergency_disable base)).state ≡ process)
    × (twice.state ≡ emergency_disable)
    × (twice.emergency_disable_is_active ≡ false)
exit_emergency_disable-twice_test = exit_emergency_disable-twice base
