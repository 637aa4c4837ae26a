-- ===== src/Drv/But/Tests.antt =====
-- Presses of a button, and its theorems at concrete inputs.
use hq_components.Prelude.{
  [], arith, false, if◌then◌else◌, leb, refl, replicate, true, ◌++◌, ◌^◌, ◌∷◌, ◌≡◌,
}
use hq_components.Drv.But.{
  But, click, rise, fall, timer, timer_long, when, run, process_button, edge, short_hold, long_hold,
  read_button, set_bit_mask,
}
use hq_components.Drv.But.Hold.{IsReleased, fall_calls, run-press}
use hq_components.Drv.But.Edges.{alternates, run-alternates_edges}

abbrev button : But
button = record {
  tim_cnt = 0;
  state = 0;
  value = 1;
  gpio = 19;
  bit = 4;
  is_gpio = true;
  has_rise = true;
  has_fall = true;
  has_timer = true;
  has_timer_long = true;
}

button-IsReleased : IsReleased button
button-IsReleased = record { high = refl; unheld = refl; uncounted = refl }

short_press : (run (0 ∷ 0 ∷ 1 ∷ []) button).0 ≡ click ∷ fall ∷ rise ∷ []
unfolding run process_button edge short_hold long_hold
short_press = refl

-- No one writes the expander's value, so that a button of the expander reads 0.
expander_reads_low : read_button (λ pin. 1) 0 (record button { is_gpio = false }) ≡ 0
unfolding read_button
expander_reads_low = refl

mask_of_one : set_bit_mask (button ∷ []) 0 ≡ 2 ^ 19
unfolding set_bit_mask
mask_of_one = refl

run-press_example : run (replicate 120 0 ++ (1 ∷ [])) button ≡ (
  fall_calls button
      ++ ((if leb 20 120 then when true timer else [])
          ++ (if leb 100 120 then when true timer_long else [])
          ++ when true rise),
  button,
)
run-press_example = run-press 119 button button-IsReleased

run-alternates_edges_test : alternates 1 (run (0 ∷ 1 ∷ 1 ∷ 0 ∷ []) button).0 ≡ true
run-alternates_edges_test =
    run-alternates_edges (0 ∷ 1 ∷ 1 ∷ 0 ∷ []) button (omega arith) (omega arith) refl refl
