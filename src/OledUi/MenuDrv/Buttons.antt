-- ===== src/OledUi/MenuDrv/Buttons.antt =====
-- oled_ui/menu_drv.c: the table of button callbacks.
-- A callback is a number, `none` for NULL, and a menu is a number too, with its callbacks by the
-- field of menu_button_t. What the code does for each button in turn is written once, over the
-- number of the button and the field that belongs to it.
pub mod Presses
mod Tests
use hq_components.Prelude.{
  Bool, List, Option, [], false, if◌then◌else◌, none, some, true, ℕ, ◌++◌, ◌∷◌,
}

-- The fields of menu_button_t
pub data Field : Type 0 where
  up down enter exit up_minus up_plus down_minus down_plus on_off motor_on : Field

-- button1_menu to button10_menu
pub data Button : Type 0 where
  button1 button2 button3 button4 button5 button6 button7 button8 button9 button10 : Button

-- menu_but_cb_t
pub record Callbacks : Type 0 where
  pub fall_callback : Option ℕ
  pub rise_callback : Option ℕ
  pub timer_callback : Option ℕ

-- The part of a but_t of the menu that the driver uses, with the menu in `arg`.
pub record Slot : Type 0 where
  pub arg : Option ℕ
  pub callbacks : Callbacks

abbrev pub Table : Type 0
Table = Button → Slot

-- The field whose callbacks menu_activate_but gives to a button.
abbrev pub field_of : Button → Field
field_of button1 = enter
field_of button2 = up
field_of button3 = down
field_of button4 = up_minus
field_of button5 = down_minus
field_of button6 = up_plus
field_of button7 = down_plus
field_of button8 = exit
field_of button9 = motor_on
field_of button10 = on_off

abbrev pub no_callbacks : Callbacks
no_callbacks = record { fall_callback = none; rise_callback = none; timer_callback = none }

-- menu_activate_but, of a menu with its callbacks
unfoldable pub activate_but : ℕ → (Field → Callbacks) → Table → Table
activate_but menu button table b = record { arg = some menu; callbacks = button (field_of b) }

-- menu_deactivate_but
unfoldable pub deactivate_but : Table → Table
deactivate_but table b = record (table b) { callbacks = no_callbacks }

-- What drv/but.c reports of a button: a press, a release, a hold, and a long hold.
pub data Report : Type 0 where
  falls rises holds holds_long : Report

-- The effects of a report outside of the state of the driver, in order.
pub data Effect : Type 0 where
  calls : (callback : ℕ) (arg : Option ℕ) → Effect
  update_screen reset_power_timer toggle_emergency : Effect

-- The call of a callback that is not NULL, and the update of the screen.
abbrev pub call_and_update : Option ℕ → Option ℕ → List Effect
call_and_update none arg = []
call_and_update (some callback) arg = calls callback arg ∷ update_screen ∷ []

-- menu_fall_callback_but_cb
unfoldable pub fall_callback_but_cb : Slot → List Effect
fall_callback_but_cb s = call_and_update s.callbacks.fall_callback s.arg ++ (reset_power_timer ∷ [])

-- menu_rise_callback_but_cb
unfoldable pub rise_callback_but_cb : Slot → List Effect
rise_callback_but_cb s = call_and_update s.callbacks.rise_callback s.arg ++ (reset_power_timer ∷ [])

-- menu_timer_callback_but_cb
unfoldable pub timer_callback_but_cb : Slot → List Effect
timer_callback_but_cb s = call_and_update s.callbacks.timer_callback s.arg

-- menu_fall_turn_on_off_but_cb; `toggles` says whether ctx.toggleEmergencyDisable is set.
unfoldable pub fall_turn_on_off_but_cb : Bool → Slot → List Effect
fall_turn_on_off_but_cb toggles s =
    call_and_update s.callbacks.fall_callback s.arg
    ++ (reset_power_timer ∷ (if toggles then toggle_emergency ∷ [] else []))

-- The callbacks of menu_timer_power_off_but_cb and menu_rise_power_off_but_cb; their changes of the
-- state are timer_power_off and rise_power_off of the parent.
unfoldable pub timer_power_off_effects : Slot → List Effect
timer_power_off_effects s = call_and_update s.callbacks.fall_callback s.arg

abbrev pub rise_power_off_effects : List Effect
rise_power_off_effects = reset_power_timer ∷ []

abbrev pub is_power : Button → Bool
is_power button10 = true
is_power button1 = false
is_power button2 = false
is_power button3 = false
is_power button4 = false
is_power button5 = false
is_power button6 = false
is_power button7 = false
is_power button8 = false
is_power button9 = false

abbrev pub power_report : Bool → Slot → Report → List Effect
power_report toggles s falls = fall_turn_on_off_but_cb toggles s
power_report toggles s rises = rise_power_off_effects
power_report toggles s holds = timer_power_off_effects s
power_report toggles s holds_long = []

abbrev pub menu_report : Slot → Report → List Effect
menu_report s falls = fall_callback_but_cb s
menu_report s rises = rise_callback_but_cb s
menu_report s holds = timer_callback_but_cb s
menu_report s holds_long = []

-- menu_init_buttons: which callback of the driver a button calls, and with which slot.
unfoldable pub on_report : Bool → Table → Button → Report → List Effect
unfolding fall_callback_but_cb rise_callback_but_cb timer_callback_but_cb fall_turn_on_off_but_cb
    timer_power_off_effects
on_report toggles table b e =
    if is_power b then power_report toggles (table b) e else menu_report (table b) e
