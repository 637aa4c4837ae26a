-- ===== src/OledUi/MenuDrv/Buttons/Tests.antt =====
-- Two menus, one after the other.
use hq_components.Prelude.{List, [], none, refl, some, true, ℕ, ◌∷◌, ◌≡◌}
use hq_components.OledUi.MenuDrv.Buttons.{
  Field, button1, Callbacks, Table, no_callbacks, falls, on_report,
}
use hq_components.OledUi.MenuDrv.Buttons.Presses.{
  Change, activates, deactivates, change_all, active_menu, expected, called, on_report-active,
}

-- The callback of a press is the number of the menu.
abbrev button : ℕ → Field → Callbacks
button menu field = record {
  fall_callback = some menu;
  rise_callback = none;
  timer_callback = none;
}

abbrev empty : Table
empty b = record { arg = none; callbacks = no_callbacks }

abbrev changes : List Change
changes = activates 3 ∷ deactivates ∷ activates 5 ∷ []

on_report-active_example :
    called (on_report true (change_all button changes empty) button1 falls)
    ≡ expected button (active_menu button changes none) button1 falls
on_report-active_example = on_report-active button true changes empty button1 falls (λ k. refl)
