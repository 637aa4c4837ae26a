-- ===== src/Drv/Buzzer/Beep.antt =====
-- A click sounds for its time and not longer.
use hq_components.Prelude.{
  List, [], ap, arith, false, refl, true, ℕ, ◌++◌, ◌+◌, ◌<◌, ◌^◌, ◌∙◌, ◌∷◌, ◌≡◌, ◌≢◌, ◌≤◌,
}
use hq_components.Drv.Buzzer.{Buzzer, buzzer_click, buzzer_task, run}

abbrev pub AllUpTo : ℕ → List ℕ → Type 0
AllUpTo n [] = Unit {0}
AllUpTo n (t ∷ ts) = (t ≤ n) × AllUpTo n ts

-- A round that is not after the end of the beep changes nothing.
before : (t : ℕ) (b : Buzzer) → t ≤ b.buzzer_timer → buzzer_task t b ≡ b
unfolding buzzer_task
before t b h = ground arith

-- Neither does a round when no beep is running.
silent : (t : ℕ) (b : Buzzer) → b.buzzer_timer ≡ 0 → buzzer_task t b ≡ b
unfolding buzzer_task
silent t b h = ground arith

run-cons : (t : ℕ) (ts : List ℕ) (b : Buzzer) → run (t ∷ ts) b ≡ run ts (buzzer_task t b)
unfolding run
run-cons t ts b = refl

run-none : (b : Buzzer) → run [] b ≡ b
unfolding run
run-none b = refl

run-before : (ts us : List ℕ) (b : Buzzer) → AllUpTo b.buzzer_timer ts → run (ts ++ us) b ≡ run us b
run-before [] us b a = refl
run-before (t ∷ ts) us b a =
    run-cons t (ts ++ us) b ∙ ap (run (ts ++ us)) (before t b a.0) ∙ run-before ts us b a.1

run-upto : (ts : List ℕ) (b : Buzzer) → AllUpTo b.buzzer_timer ts → run ts b ≡ b
run-upto [] b a = run-none b
run-upto (t ∷ ts) b a = run-cons t ts b ∙ ap (run ts) (before t b a.0) ∙ run-upto ts b a.1

run-silent : (us : List ℕ) (b : Buzzer) → b.buzzer_timer ≡ 0 → run us b ≡ b
run-silent [] b z = run-none b
run-silent (u ∷ us) b z = run-cons u us b ∙ ap (run us) (silent u b z) ∙ run-silent us b z

ends :
    (u : ℕ) (b : Buzzer)
    → b.buzzer_timer ≢ 0
    → b.buzzer_timer < u
    → buzzer_task u b ≡ record b { buzzer_timer = 0; on = false }
unfolding buzzer_task
ends u b n h = ground arith

run-ends :
    (u : ℕ) (us : List ℕ) (b : Buzzer)
    → b.buzzer_timer ≢ 0
    → b.buzzer_timer < u
    → run (u ∷ us) b ≡ record b { buzzer_timer = 0; on = false }
run-ends u us b n h =
    run-cons u us b
    ∙ ap (run us) (ends u b n h)
    ∙ run-silent us (record b { buzzer_timer = 0; on = false }) refl

module _ (ms2st : ℕ → ℕ) where
  click-timer :
      (t sound : ℕ) (b : Buzzer)
      → t + ms2st 100 < 2 ^ 32
      → (buzzer_click ms2st t sound b).buzzer_timer ≡ t + ms2st 100
  unfolding buzzer_click
  click-timer t sound b h = ground arith

  click-on : (t sound : ℕ) (b : Buzzer) → sound ≢ 0 → (buzzer_click ms2st t sound b).on ≡ true
  unfolding buzzer_click
  click-on t sound b h = ground arith

  -- A click with the sound switched on, whose end is a tick of 32 bits other than 0, sounds in all
  -- rounds of the task up to the end, is silenced by the first round after it, and stays silent in
  -- the rounds that follow.
  pub run-click :
      (t sound : ℕ) (ts : List ℕ) (u : ℕ) (us : List ℕ) (b : Buzzer)
      → sound ≢ 0
      → t + ms2st 100 < 2 ^ 32
      → 0 < t + ms2st 100
      → AllUpTo (t + ms2st 100) ts
      → t + ms2st 100 < u
      → let clicked = buzzer_click ms2st t sound b in
        ((run ts clicked).on ≡ true) × ((run (ts ++ (u ∷ us)) clicked).on ≡ false)
  run-click t sound ts u us b s w p a h =
      let c = buzzer_click ms2st t sound b in
      let tm = click-timer t sound b w in
      let upto : AllUpTo c.buzzer_timer ts = rw tm a in
      (
        ap (λ d. d.on) (run-upto ts c (upto)) ∙ click-on t sound b s,
        ap (λ d. d.on)
            (run-before ts (u ∷ us) c upto
              ∙ run-ends u us c (omega (arith, tm, p)) (omega (arith, tm, h))),
      )
