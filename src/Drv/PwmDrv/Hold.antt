-- ===== src/Drv/PwmDrv/Hold.antt =====
-- When an output is held at a level.
use hq_components.Prelude.{
  Bool, Bool-cases, List, Option, [], arith, false, inl, inr, none, refl, some, sym, true, ℕ, ◌∙◌,
  ◌∷◌, ◌≡◌,
}
use hq_components.Drv.PwmDrv.{
  Call, new_timer, new_operator, connect_timer, new_comparator, timer_enable, new_generator,
  set_compare_value, set_action_on_empty, set_action_on_compare, timer_start, timer_stop,
  force_level, release_level, Pwm, Mode, pwm_init, set_duty, pwm_stop,
}

-- The level that the calls force on the output, the last call first; `none` when it follows the
-- timer.
abbrev pub forced : List Call → Option Bool
forced [] = none
forced (force_level level ∷ cs) = some level
forced (release_level ∷ cs) = none
forced (new_timer g p ∷ cs) = forced cs
forced (new_operator g ∷ cs) = forced cs
forced (connect_timer ∷ cs) = forced cs
forced (new_comparator ∷ cs) = forced cs
forced (timer_enable ∷ cs) = forced cs
forced (new_generator p ∷ cs) = forced cs
forced (set_compare_value v ∷ cs) = forced cs
forced (set_action_on_empty a ∷ cs) = forced cs
forced (set_action_on_compare a ∷ cs) = forced cs
forced (timer_start ∷ cs) = forced cs
forced (timer_stop ∷ cs) = forced cs

-- Whether the timer runs.
abbrev pub is_running : List Call → Bool
is_running [] = false
is_running (timer_start ∷ cs) = true
is_running (timer_stop ∷ cs) = false
is_running (force_level level ∷ cs) = is_running cs
is_running (release_level ∷ cs) = is_running cs
is_running (new_timer g p ∷ cs) = is_running cs
is_running (new_operator g ∷ cs) = is_running cs
is_running (connect_timer ∷ cs) = is_running cs
is_running (new_comparator ∷ cs) = is_running cs
is_running (timer_enable ∷ cs) = is_running cs
is_running (new_generator p ∷ cs) = is_running cs
is_running (set_compare_value v ∷ cs) = is_running cs
is_running (set_action_on_empty a ∷ cs) = is_running cs
is_running (set_action_on_compare a ∷ cs) = is_running cs

abbrev pub is_some : {A : Type 0} → Option A → Bool
is_some none = false
is_some (some a) = true

is_some-none : {A : Type 0} (m : Option A) → is_some m ≡ false → m ≡ none
is_some-none none e = refl
is_some-none (some a) e = absurd (ground (arith, e))

-- A device of the driver's: is_hold_on says whether a level is forced.
abbrev pub Held : Pwm → Type 0
Held dev = dev.is_hold_on ≡ is_some (forced dev.calls)

pub pwm_init-Held : (mode : Mode) (f g p : ℕ) → Held (pwm_init mode f g p)
unfolding pwm_init
pwm_init-Held mode f g p = refl

-- A duty frees the output and starts the timer; a stop holds the output at its level.
pub set_duty-Held :
    (duty : ℕ) (dev : Pwm)
    → Held dev
    → Held (set_duty duty dev)
      × (forced (set_duty duty dev).calls ≡ none)
      × (is_running (set_duty duty dev).calls ≡ true)
unfolding set_duty
set_duty-Held duty dev h = elim (Bool-cases dev.is_hold_on) [
  | inl t ↦ rw t (refl, refl, refl)
  | inr f ↦
      let free = is_some-none (forced dev.calls) (sym h ∙ f) in rw (f, free) (refl, refl, refl)
]

pub pwm_stop-Held :
    (is_high : Bool) (dev : Pwm)
    → Held (pwm_stop is_high dev)
      × (forced (pwm_stop is_high dev).calls ≡ some is_high)
      × (is_running (pwm_stop is_high dev).calls ≡ false)
unfolding pwm_stop
pwm_stop-Held is_high dev = (refl, refl, refl)
