-- ===== src/Drv/Buzzer.antt =====
-- drv/buzzer.c: the beeps and the task that ends them.
-- `ms2st` is the firmware's conversion to ticks, `sound` the value of the parameter PARAM_BUZZER,
-- and `on` the level of the buzzer's pin.
pub mod Beep
mod Tests
use hq_components.Prelude.{
  Bool, List, [], false, if◌then◌else◌, ltb, not, true, u32, ℕ, ◌&&◌, ◌+◌, ◌==◌, ◌∷◌,
}

pub record Buzzer : Type 0 where
  pub buzzer_timer : ℕ
  pub on : Bool

module _ (ms2st : ℕ → ℕ) where
  -- What buzzer_click and buzzer_error share: a beep of some milliseconds.
  abbrev pub beep : ℕ → ℕ → ℕ → Buzzer → Buzzer
  beep ms now sound b = record b {
    buzzer_timer = u32 (now + ms2st ms);
    on = if sound == 0 then b.on else true;
  }

  unfoldable pub buzzer_click : ℕ → ℕ → Buzzer → Buzzer
  buzzer_click now sound b = beep 100 now sound b

  unfoldable pub buzzer_error : ℕ → ℕ → Buzzer → Buzzer
  buzzer_error now sound b = beep 20 now sound b

-- One round of buzzer_task.
unfoldable pub buzzer_task : ℕ → Buzzer → Buzzer
buzzer_task now b =
    if not (b.buzzer_timer == 0) && ltb b.buzzer_timer now
    then record b { buzzer_timer = 0; on = false }
    else b

-- The rounds of the task at the given times.
unfoldable pub run : List ℕ → Buzzer → Buzzer
unfolding buzzer_task
run [] b = b
run (now ∷ nows) b = run nows (buzzer_task now b)
