-- ===== src/Drv/PowerOn/Tests.antt =====
-- Powering off, and its theorems at concrete inputs.
use hq_components.Prelude.{Bool, [], arith, false, inl, inr, refl, true, ℕ, ◌++◌, ◌/◌, ◌∷◌, ◌≡◌}
use hq_components.Drv.PowerOn.{idle, off, wait_to_disable, Ctx, Poll, run, reset_timer}
use hq_components.Drv.PowerOn.Quiet.{lonely, run-IsBusy, run-lonely}

abbrev running : Ctx
running = record { state = idle; power_off_timer = 0; pin = true }

abbrev per_tick : ℕ → ℕ
per_tick ms = ms / 10

abbrev at : ℕ → Bool → Poll
at t connected = record { now = t; connected = connected }

-- A button press goes back to the idle state, which sets the timer anew.
button_restarts : (reset_timer (record running { state = wait_to_disable })).state ≡ idle
unfolding reset_timer
button_restarts = refl

-- Five minutes are 30000 ticks.
run-IsBusy_example :
    (run per_tick 5
      (at 100 false ∷ at 30000 false ∷ at 30050 true ∷ at 60000 false ∷ [])
      running).pin
    ≡ true
run-IsBusy_example =
    run-IsBusy per_tick 5 (at 100 false ∷ at 30000 false ∷ at 30050 true ∷ at 60000 false ∷ []) 50
      running refl
      (
        (omega arith),
        (omega arith),
        inr (omega arith),
        (
          (omega arith),
          (omega arith),
          inr (omega arith),
          (
            (omega arith),
            (omega arith),
            inl refl,
            ((omega arith), (omega arith), inr (omega arith), tt),
          ),
        ),
      )

run-lonely_example :
    let c' =
      run per_tick 5
        (lonely per_tick 5 (100 ∷ 2000 ∷ []) ++ (at 30101 false ∷ at 30200 true ∷ []))
        running in
    (c'.pin ≡ false) × (c'.state ≡ off)
run-lonely_example =
    run-lonely per_tick 5 100 30101 30200 (2000 ∷ []) true running refl (omega arith)
      (omega arith, tt) (omega arith)
