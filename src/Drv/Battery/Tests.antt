-- ===== src/Drv/Battery/Tests.antt =====
-- Some rounds, and the theorems at concrete inputs.
use hq_components.Prelude.{[], arith, false, length, refl, true, ◌/◌, ◌∷◌, ◌≡◌}
use hq_components.Drv.PowerOn.{Ctx, idle}
use hq_components.Drv.Battery.{started, measured, multisample, run}
use hq_components.Drv.Battery.Recent.{total, recent}
use hq_components.Drv.Battery.Average.{run-recent}
use hq_components.Drv.Battery.Cut.{run-healthy, run-uncalibrated}

abbrev powered : Ctx
powered = record { state = idle; power_off_timer = 0; pin = true }

-- Of the samples of a round only the last one counts.
last_sample : measured true (1900 ∷ 1950 ∷ 1800 ∷ []) ≡ 3780
unfolding measured multisample
last_sample = refl

run-recent_example :
    (run true ((1900 ∷ 1800 ∷ []) ∷ (1700 ∷ []) ∷ []) (started, powered)).0.voltage_average
    ≡ total (recent (3780 ∷ 3570 ∷ [])) / length (recent (3780 ∷ 3570 ∷ []))
unfolding measured multisample
run-recent_example =
    run-recent true (1900 ∷ 1800 ∷ []) ((1700 ∷ []) ∷ []) powered (omega arith, (omega arith, tt))

run-healthy_example : (run true ((1400 ∷ []) ∷ (1900 ∷ []) ∷ []) (started, powered)).1.pin ≡ false
unfolding measured multisample
run-healthy_example = run-healthy true ((1400 ∷ []) ∷ (1900 ∷ []) ∷ []) started powered

run-uncalibrated_test : (run false ((1900 ∷ []) ∷ []) (started, powered)).1.pin ≡ false
run-uncalibrated_test = run-uncalibrated (1900 ∷ []) [] started powered
