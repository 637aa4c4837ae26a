-- ===== src/Drv/Sleep/Tests.antt =====
-- Going to sleep and waking up, and the theorems at concrete inputs.
use hq_components.Prelude.{Bool, [], arith, false, refl, true, ◌∷◌, ◌≡◌, ◌≤◌}
use hq_components.Drv.Sleep.{
  no_sleep, start_sleeping, unsleep_process, Round, light_sleep, beep, run, is_sleeping,
}
use hq_components.Drv.Sleep.Wake.{sleeps, frames, run-awake, run-no_frames}

abbrev round : Bool → Round
round signal = record {
  signal = signal;
  wifi_connect = true;
  is_connected = false;
  try_connect = true;
}

-- With the signal set the device goes to sleep and lies down again and again.
sleeps_on :
    run (round true ∷ round true ∷ round true ∷ round true ∷ round true ∷ []) no_sleep
    ≡ (light_sleep ∷ beep ∷ light_sleep ∷ [], unsleep_process)
unfolding run
sleeps_on = refl

run-awake_example :
    let (calls, st) = run (round false ∷ round false ∷ round false ∷ []) start_sleeping in
    (st ≡ no_sleep) × (is_sleeping st false ≡ false) × (sleeps calls ≤ 1)
run-awake_example =
    run-awake (round false ∷ round false ∷ round false ∷ []) start_sleeping
      (refl, (refl, (refl, tt))) (cc) (omega arith)

run-no_frames_test : frames (run (round true ∷ round true ∷ round false ∷ []) start_sleeping).0 ≡ 0
run-no_frames_test =
    run-no_frames (round true ∷ round true ∷ round false ∷ []) start_sleeping
      (refl, (refl, (refl, tt)))
