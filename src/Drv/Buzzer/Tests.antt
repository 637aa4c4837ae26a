-- ===== src/Drv/Buzzer/Tests.antt =====
-- A click, and its theorem at concrete inputs.
use hq_components.Prelude.{[], arith, false, refl, true, ℕ, ◌++◌, ◌/◌, ◌∷◌, ◌≡◌}
use hq_components.Drv.Buzzer.{Buzzer, buzzer_click, buzzer_error, buzzer_task, run}
use hq_components.Drv.Buzzer.Beep.{run-click}

abbrev quiet : Buzzer
quiet = record { buzzer_timer = 0; on = false }

abbrev per_tick : ℕ → ℕ
per_tick ms = ms / 10

-- A click that comes when an error still sounds prolongs the beep.
click_after_error :
    run (12 ∷ 18 ∷ []) (buzzer_click per_tick 11 1 (buzzer_error per_tick 10 1 quiet))
    ≡ record { buzzer_timer = 21; on = true }
unfolding run buzzer_task buzzer_click buzzer_error
click_after_error = refl

run-click_test :
    let clicked = buzzer_click per_tick 40 1 quiet in
    ((run (42 ∷ 50 ∷ []) clicked).on ≡ true)
    × ((run ((42 ∷ 50 ∷ []) ++ (51 ∷ 60 ∷ [])) clicked).on ≡ false)
run-click_test =
    run-click per_tick 40 1 (42 ∷ 50 ∷ []) 51 (60 ∷ []) quiet (omega arith) (omega arith)
      (omega arith) (omega arith, (omega arith, tt)) (omega arith)
