-- ===== src/OledUi/MenuDrv/Walk.antt =====
-- Entering and leaving menus, from request to shown menu.
use hq_components.Prelude.{
  Bool, Bool-cases, List, Option, [], ap, arith, false, if◌then◌else◌, inl, inr, length,
  length-append, le→ltb, ltb, none, refl, replicate, some, sym, true, u32, ℕ, ◌++◌, ◌+◌, ◌<◌, ◌∙◌,
  ◌∷◌, ◌≡◌, ◌≤◌,
}
use hq_components.OledUi.MenuDrv.{
  Tab, State, idle, enter, exit, process, power_off, emergency_disable, error_check, Ctx,
  last_tab_element, add_menu_tab, remove_last_menu_tab, menu_enter, menu_exit,
  enter_emergency_disable, exit_emergency_disable, dispatch, step, run, state_idle, state_enter,
  state_exit, state_process, save_process, state_error_check, timer_power_off, rise_power_off,
  state_power_off_count,
}
use hq_components.OledUi.MenuDrv.Stack.{
  table, top, add_menu_tab-stack, add_menu_tab-table, last_tab_element-top, last_tab_element-full,
}

-- A context that shows the menu on the top of the stack, with nothing requested.
abbrev pub showing : List ℕ → Ctx → Ctx
showing ms c = record c {
  state = process;
  entered_menu_tab = table 8 ms;
  exit_req = false;
  enter_req = false;
  error_flag = false;
  save_flag = false;
  active = top ms;
}

-- A context on the way out of the menu `m`.
abbrev at : State → Bool → Tab → Option ℕ → ℕ → Ctx → Ctx
at st leaves tab buttons m c = record c {
  state = st;
  entered_menu_tab = tab;
  exit_req = leaves;
  enter_req = false;
  error_flag = false;
  save_flag = false;
  active = buttons;
  new_menu = some m;
}

module _ (has_process : ℕ → Bool) where
  enter_rounds :
      (ms : List ℕ) (m m0 a b d e f : ℕ) (c : Ctx)
      → last_tab_element (table 8 ms) ≡ some m0
      → has_process m0 ≡ true
      → last_tab_element (add_menu_tab m (table 8 ms)) ≡ some m
      → run has_process (a ∷ b ∷ d ∷ e ∷ f ∷ []) (menu_enter (some m) (showing ms c))
        ≡ some (record (showing ms c) {
          entered_menu_tab = add_menu_tab m (table 8 ms);
          new_menu = some m;
          active = some m;
        })
  unfolding run step dispatch menu_enter state_process state_exit state_enter state_idle
      state_error_check save_process
  enter_rounds ms m m0 a b d e f c t h l = rw (t, h) (rw t (rw l refl))

  run-step :
      (now : ℕ) (nows : List ℕ) (c : Ctx) {c' : Ctx}
      → step has_process now c ≡ some c'
      → run has_process (now ∷ nows) c ≡ run has_process nows c'
  unfolding run
  run-step now nows c e = rw e refl

  step-process :
      (now m : ℕ) (tab : Tab) (c : Ctx)
      → last_tab_element tab ≡ some m
      → has_process m ≡ true
      → step has_process now (at process true tab (some m) m c)
        ≡ some (at exit true tab (some m) m c)
  unfolding step dispatch state_process save_process
  step-process now m tab c t h = rw (t, h) refl

  step-exit :
      (now m : ℕ) (tab : Tab) (c : Ctx)
      → last_tab_element tab ≡ some m
      → step has_process now (at exit true tab (some m) m c)
        ≡ some (at error_check false (remove_last_menu_tab tab) none m c)
  unfolding step dispatch state_exit
  step-exit now m tab c t = rw t refl

  step-error_check :
      (now m : ℕ) (tab : Tab) (c : Ctx)
      → step has_process now (at error_check false tab none m c) ≡ some (at idle false tab none m c)
  unfolding step dispatch state_error_check
  step-error_check now m tab c = refl

  step-idle :
      (now m m0 : ℕ) (tab : Tab) (c : Ctx)
      → last_tab_element tab ≡ some m0
      → step has_process now (at idle false tab none m c) ≡ some (at enter false tab none m c)
  unfolding step dispatch state_idle
  step-idle now m m0 tab c t = rw t refl

  step-enter :
      (now m m0 : ℕ) (tab : Tab) (c : Ctx)
      → last_tab_element tab ≡ some m0
      → step has_process now (at enter false tab none m c)
        ≡ some (at process false tab (some m0) m c)
  unfolding step dispatch state_enter
  step-enter now m m0 tab c t = rw t refl

  exit_rounds :
      (tab left : Tab) (m m0 now : ℕ) (c : Ctx)
      → last_tab_element tab ≡ some m
      → has_process m ≡ true
      → remove_last_menu_tab tab ≡ left
      → last_tab_element left ≡ some m0
      → run has_process (replicate 5 now) (at process true tab (some m) m c)
        ≡ some (at process false left (some m0) m c)
  unfolding run
  exit_rounds tab left m m0 now c t h r l =
      run-step now (replicate 4 now) (at process true tab (some m) m c)
        (step-process now m tab c t h)
      ∙ run-step now (replicate 3 now) (at exit true tab (some m) m c)
          (step-exit now m tab c t ∙ ap (λ tab. some (at error_check false tab none m c)) r)
      ∙ run-step now (replicate 2 now) (at error_check false left none m c)
          (step-error_check now m left c)
      ∙ run-step now (replicate 1 now) (at idle false left none m c) (step-idle now m m0 left c l)
      ∙ run-step now [] (at enter false left none m c) (step-enter now m m0 left c l)

  -- With one to six menus on the stack, the top one shown and nothing else requested, entering a
  -- menu that can be shown shows it after five rounds of the task, on the top of the stack and with
  -- its buttons, and leaving it shows the menu from before after five rounds more, with the stack
  -- and the buttons as they were.
  pub enter-exit :
      (ms : List ℕ) (m m0 : ℕ) (now : ℕ) (c : Ctx)
      → 0 < length ms
      → length ms < 7
      → top ms ≡ some m0
      → has_process m0 ≡ true
      → has_process m ≡ true
      → let five = replicate 5 now in
        let entered : Ctx = record (showing ms c) {
          entered_menu_tab = add_menu_tab m (table 8 ms);
          new_menu = some m;
          active = some m;
        } in
        (run has_process five (menu_enter (some m) (showing ms c)) ≡ some entered)
        × (last_tab_element entered.entered_menu_tab ≡ some m)
        × (run has_process five (menu_exit entered)
            ≡ some (record (showing ms c) { new_menu = some m }))
  unfolding menu_exit
  enter-exit ms m m0 now c p h t x y =
      let stack = add_menu_tab-stack ms m p h in
      let shown = last_tab_element-top ms (omega arith) ∙ t in
      (
        enter_rounds ms m m0 now now now now now c shown x stack.0,
        stack.0,
        exit_rounds (add_menu_tab m (table 8 ms)) (table 8 ms) m m0 now c stack.0 y stack.1 shown
            ∙ ap (λ o. some (at process false (table 8 ms) o m c)) (sym t),
      )

  -- An eighth menu does not fit: with seven menus on the stack, entering one more fills the table,
  -- and the fifth round follows a NULL pointer.
  pub enter-eighth :
      (ms : List ℕ) (m m0 now : ℕ) (c : Ctx)
      → length ms ≡ 7
      → top ms ≡ some m0
      → has_process m0 ≡ true
      → run has_process (replicate 5 now) (menu_enter (some m) (showing ms c)) ≡ none
  unfolding run step dispatch menu_enter state_process state_exit state_enter state_idle
      state_error_check save_process
  enter-eighth ms m m0 now c p t x =
      let shown = last_tab_element-top ms (omega arith) ∙ t in
      let full : last_tab_element (add_menu_tab m (table 8 ms)) ≡ none =
        ap last_tab_element (add_menu_tab-table ms m (omega arith))
        ∙ last_tab_element-full (ms ++ (m ∷ [])) (omega (arith, length-append ms (m ∷ []))) in
      rw (shown, x) (rw shown (rw full refl))

  -- Holding the power button counts down: where powering off is not blocked and the sum does not
  -- wrap, rounds before the time is over change nothing, a round after it powers off, and a round
  -- after the button is released goes back to the menu, or to the emergency screen where that is on.
  pub timer_power_off-step :
      (ms2st : ℕ → ℕ) (now t : ℕ) (c : Ctx)
      → c.block_power_off_timer ≤ now
      → now + ms2st 3500 < 4294967296
      → let held = timer_power_off ms2st now c in
        let back = if c.emergency_disable_is_active then emergency_disable else process in
        (step has_process t held
          ≡ some (if ltb t (now + ms2st 3500) then held else record held { state = power_off }))
        × (step has_process t (rise_power_off held)
            ≡ some (record held { power_off_req = false; state = back }))
  unfolding step dispatch timer_power_off rise_power_off state_power_off_count
  timer_power_off-step ms2st now t c h w =
      let e : u32 (now + ms2st 3500) ≡ now + ms2st 3500 = omega arith in
      rw (le→ltb now c.block_power_off_timer h, e)
        (elim (Bool-cases (ltb t (now + ms2st 3500))) [
          | inl q ↦ rw q (refl, refl)
          | inr q ↦ rw q (refl, refl)
        ])

-- Leaving the emergency screen goes back to where it was entered; but where it was entered twice,
-- leaving it stays on the emergency screen, with the emergency marked as over.
pub exit_emergency_disable-twice :
    (c : Ctx)
    → let twice = exit_emergency_disable (enter_emergency_disable (enter_emergency_disable c)) in
      ((exit_emergency_disable (enter_emergency_disable c)).state ≡ c.state)
      × (twice.state ≡ emergency_disable)
      × (twice.emergency_disable_is_active ≡ false)
unfolding exit_emergency_disable enter_emergency_disable
exit_emergency_disable-twice c = (refl, refl, refl)
