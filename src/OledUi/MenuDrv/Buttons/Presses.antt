-- ===== src/OledUi/MenuDrv/Buttons/Presses.antt =====
-- Which menu a button reaches.
use hq_components.Prelude.{
  Bool, Bool-cases, List, Option, [], ap, false, if◌then◌else◌, inl, inr, none, refl, some, true, ℕ,
  ◌++◌, ◌∙◌, ◌∷◌, ◌≡◌,
}
use hq_components.OledUi.MenuDrv.Buttons.{
  Field, Button, Callbacks, Slot, Table, field_of, no_callbacks, activate_but, deactivate_but,
  Report, falls, rises, holds, holds_long, Effect, calls, update_screen, reset_power_timer,
  toggle_emergency, call_and_update, is_power, power_report, menu_report, on_report,
  fall_callback_but_cb, rise_callback_but_cb, timer_callback_but_cb, fall_turn_on_off_but_cb,
  timer_power_off_effects,
}

-- What happens to the table: a menu becomes active, or none is.
pub data Change : Type 0 where
  activates : ℕ → Change
  deactivates : Change

-- The calls of menus' callbacks among the effects, with their arguments.
abbrev pub called : List Effect → List (ℕ × Option ℕ)
called [] = []
called (calls callback arg ∷ es) = (callback, arg) ∷ called es
called (update_screen ∷ es) = called es
called (reset_power_timer ∷ es) = called es
called (toggle_emergency ∷ es) = called es

-- The callback that a report asks for: the power button calls the one of a press for a hold too,
-- and none for a release.
abbrev pub asked : Bool → Callbacks → Report → Option ℕ
asked power c falls = c.fall_callback
asked power c rises = if power then none else c.rise_callback
asked power c holds = if power then c.fall_callback else c.timer_callback
asked power c holds_long = none

abbrev pub one_call : Option ℕ → Option ℕ → List (ℕ × Option ℕ)
one_call none arg = []
one_call (some callback) arg = (callback, arg) ∷ []

called-update : (c arg : Option ℕ) → called (call_and_update c arg) ≡ one_call c arg
called-update none arg = refl
called-update (some c) arg = refl

called-before :
    (c arg : Option ℕ) (rest : List Effect)
    → called rest ≡ []
    → called (call_and_update c arg ++ rest) ≡ one_call c arg
called-before none arg rest e = e
called-before (some c) arg rest e = ap (λ t. (c, arg) ∷ t) e

no_toggle : (toggles : Bool) → called (if toggles then toggle_emergency ∷ [] else []) ≡ []
no_toggle true = refl
no_toggle false = refl

power-called :
    (toggles : Bool) (s : Slot) (e : Report)
    → called (power_report toggles s e) ≡ one_call (asked true s.callbacks e) s.arg
unfolding fall_turn_on_off_but_cb timer_power_off_effects
power-called toggles s falls = called-before s.callbacks.fall_callback s.arg _ (no_toggle toggles)
power-called toggles s rises = refl
power-called toggles s holds = called-update s.callbacks.fall_callback s.arg
power-called toggles s holds_long = refl

menu-called :
    (s : Slot) (e : Report) → called (menu_report s e) ≡ one_call (asked false s.callbacks e) s.arg
unfolding fall_callback_but_cb rise_callback_but_cb timer_callback_but_cb
menu-called s falls = called-before s.callbacks.fall_callback s.arg _ refl
menu-called s rises = called-before s.callbacks.rise_callback s.arg _ refl
menu-called s holds = called-update s.callbacks.timer_callback s.arg
menu-called s holds_long = refl

called-report :
    (toggles : Bool) (table : Table) (b : Button) (e : Report)
    → called (on_report toggles table b e)
      ≡ one_call (asked (is_power b) (table b).callbacks e) (table b).arg
unfolding on_report
called-report toggles table b e = elim (Bool-cases (is_power b)) [
  | inl t ↦ rw t (power-called toggles (table b) e)
  | inr f ↦ rw f (menu-called (table b) e)
]

asked-no_callbacks : (power : Bool) (e : Report) → asked power no_callbacks e ≡ none
asked-no_callbacks power falls = refl
asked-no_callbacks true rises = refl
asked-no_callbacks false rises = refl
asked-no_callbacks true holds = refl
asked-no_callbacks false holds = refl
asked-no_callbacks power holds_long = refl

module _ (button : ℕ → Field → Callbacks) where
  unfoldable pub change_all : List Change → Table → Table
  unfolding activate_but deactivate_but
  change_all [] table = table
  change_all (activates menu ∷ cs) table = change_all cs (activate_but menu (button menu) table)
  change_all (deactivates ∷ cs) table = change_all cs (deactivate_but table)

  -- The menu that is active after the changes.
  abbrev pub active_menu : List Change → Option ℕ → Option ℕ
  active_menu [] m = m
  active_menu (activates menu ∷ cs) m = active_menu cs (some menu)
  active_menu (deactivates ∷ cs) m = active_menu cs none

  -- What a report calls when a menu is active.
  abbrev pub expected : Option ℕ → Button → Report → List (ℕ × Option ℕ)
  expected none b e = []
  expected (some menu) b e = one_call (asked (is_power b) (button menu (field_of b)) e) (some menu)

  -- The table holds the callbacks of the active menu, or none.
  abbrev Holds : Option ℕ → Table → Type 0
  Holds none table = (b : Button) → (table b).callbacks ≡ no_callbacks
  Holds (some menu) table =
      (b : Button) → table b ≡ record { arg = some menu; callbacks = button menu (field_of b) }

  change_all-Holds :
      (cs : List Change) (m : Option ℕ) (table : Table)
      → Holds m table
      → Holds (active_menu cs m) (change_all cs table)
  unfolding change_all activate_but deactivate_but
  change_all-Holds [] m table h = h
  change_all-Holds (activates menu ∷ cs) m table h =
      change_all-Holds cs (some menu) (activate_but menu (button menu) table) (λ b. refl)
  change_all-Holds (deactivates ∷ cs) m table h =
      change_all-Holds cs none (deactivate_but table) (λ b. refl)

  called-Holds :
      (toggles : Bool) (m : Option ℕ) (table : Table) (b : Button) (e : Report)
      → Holds m table
      → called (on_report toggles table b e) ≡ expected m b e
  called-Holds toggles none table b e h =
      called-report toggles table b e
      ∙ ap (λ c. one_call (asked (is_power b) c e) (table b).arg) (h b)
      ∙ ap (λ c. one_call c (table b).arg) (asked-no_callbacks (is_power b) e)
  called-Holds toggles (some menu) table b e h =
      called-report toggles table b e
      ∙ ap (λ (s : Slot). one_call (asked (is_power b) s.callbacks e) s.arg) (h b)

  -- From a table without callbacks on, whichever menus became active since: a button calls the
  -- callback of the menu that is active now, of the field that belongs to the button and of what is
  -- reported, with that menu, and no other; and none when no menu is active. The power button calls
  -- the callback of a press for a hold too.
  pub on_report-active :
      (toggles : Bool) (cs : List Change) (table : Table) (b : Button) (e : Report)
      → ((k : Button) → (table k).callbacks ≡ no_callbacks)
      → called (on_report toggles (change_all cs table) b e) ≡ expected (active_menu cs none) b e
  on_report-active toggles cs table b e h =
      called-Holds toggles (active_menu cs none) (change_all cs table) b e
        (change_all-Holds cs none table h)
