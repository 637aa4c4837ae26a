-- ===== src/Drv/Battery/Cut.antt =====
-- When the battery task cuts the power.
use hq_components.Prelude.{
  Bool, List, [], ap, arith, false, ltb, not, refl, true, ℕ, ◌&&◌, ◌*◌, ◌/◌, ◌∙◌, ◌∷◌, ◌≡◌,
}
use hq_components.Drv.PowerOn.{Ctx, disable_system_now}
use hq_components.Drv.Battery.{Battery, multisample, measured, step, run}
use hq_components.Drv.Battery.Average.{voltages}

-- Whether none of the voltages is critical.
abbrev pub healthy : List ℕ → Bool
healthy [] = true
healthy (v ∷ vs) = not (ltb v 3000) && healthy vs

run-cons :
    (calibrated : Bool) (r : List ℕ) (rs : List (List ℕ)) (b : Battery) (c : Ctx)
    → run calibrated (r ∷ rs) (b, c) ≡ run calibrated rs (step calibrated r (b, c))
unfolding run
run-cons calibrated r rs b c = refl

run-none : (calibrated : Bool) (b : Battery) (c : Ctx) → run calibrated [] (b, c) ≡ (b, c)
unfolding run
run-none calibrated b c = refl

step-pin :
    (calibrated : Bool) (r : List ℕ) (b : Battery) (c : Ctx) (rest : Bool)
    → ((step calibrated r (b, c)).1.pin && rest)
      ≡ (c.pin && (not (ltb (measured calibrated r) 3000) && rest))
unfolding step disable_system_now
step-pin calibrated r b c rest = ground arith

-- The power of a device is still on after some rounds exactly when it was on before and none of
-- their voltages is below 3000 mV: one such voltage is enough, whatever the average is, and the
-- voltages that follow do not switch the power on again.
pub run-healthy :
    (calibrated : Bool) (rs : List (List ℕ)) (b : Battery) (c : Ctx)
    → (run calibrated rs (b, c)).1.pin ≡ (c.pin && healthy (voltages calibrated rs))
run-healthy calibrated [] b c = rw (run-none calibrated b c) (ground arith)
run-healthy calibrated (r ∷ rs) b c =
    let (b', c') = step calibrated r (b, c) in
    rw (run-cons calibrated r rs b c) (
      run-healthy calibrated rs b' c'
      ∙ step-pin calibrated r b c (healthy (voltages calibrated rs)))

and_false : (a : Bool) → (a && false) ≡ false
and_false true = refl
and_false false = refl

multisample_uncalibrated : (samples : List ℕ) → multisample false samples 0 ≡ 0
unfolding multisample
multisample_uncalibrated [] = refl
multisample_uncalibrated (s ∷ samples) = multisample_uncalibrated samples

-- A chip without calibration data is powered off by the first round, whatever its battery: the
-- calibration is skipped, and with it every reading of the voltage.
pub run-uncalibrated :
    (r : List ℕ) (rs : List (List ℕ)) (b : Battery) (c : Ctx)
    → (run false (r ∷ rs) (b, c)).1.pin ≡ false
unfolding measured
run-uncalibrated r rs b c =
    let zero_volts = ap (λ m. 4200 * m / 2000) (multisample_uncalibrated r) in
    run-healthy false (r ∷ rs) b c
    ∙ ap (λ v. c.pin && (not (ltb v 3000) && healthy (voltages false rs))) zero_volts
    ∙ and_false c.pin
