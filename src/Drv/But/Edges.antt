-- ===== src/Drv/But/Edges.antt =====
-- Presses and releases take turns.
use hq_components.Prelude.{
  Bool, List, [], ap, arith, refl, sym, true, ℕ, ◌&&◌, ◌++◌, ◌==◌, ◌∙◌, ◌∷◌, ◌≡◌, ◌≤◌,
}
use hq_components.Drv.But.{
  But, Call, click, rise, fall, timer, timer_long, edge, short_hold, long_hold, process_button, run,
}

-- The edges among the calls take turns, from a button of this level on.
abbrev pub alternates : ℕ → List Call → Bool
alternates v [] = true
alternates v (fall ∷ cs) = (v == 1) && alternates 0 cs
alternates v (rise ∷ cs) = (v == 0) && alternates 1 cs
alternates v (click ∷ cs) = alternates v cs
alternates v (timer ∷ cs) = alternates v cs
alternates v (timer_long ∷ cs) = alternates v cs

abbrev pub AllLevels : List ℕ → Type 0
AllLevels [] = Unit {0}
AllLevels (l ∷ ls) = (l ≤ 1) × AllLevels ls

process_button-alternates :
    (l : ℕ) (b : But) (cs : List Call)
    → l ≤ 1
    → b.value ≤ 1
    → b.has_rise ≡ true
    → b.has_fall ≡ true
    → alternates l cs ≡ true
    → alternates b.value ((process_button l b).0 ++ cs) ≡ true
unfolding process_button edge short_hold long_hold
process_button-alternates l b cs h v r f a = ground arith

process_button-value : (l : ℕ) (b : But) → (process_button l b).1.value ≡ l
unfolding process_button short_hold long_hold
process_button-value l b = ground arith

process_button-keeps :
    (l : ℕ) (b : But)
    → let b' = (process_button l b).1 in (b'.has_rise ≡ b.has_rise) × (b'.has_fall ≡ b.has_fall)
unfolding process_button short_hold long_hold
process_button-keeps l b = ground arith

-- Whatever levels a button with both edge callbacks reads, the falling and the rising edges that it
-- calls take turns, and the first is the one that its level allows.
pub run-alternates_edges :
    (ls : List ℕ) (b : But)
    → AllLevels ls
    → b.value ≤ 1
    → b.has_rise ≡ true
    → b.has_fall ≡ true
    → alternates b.value (run ls b).0 ≡ true
unfolding run
run-alternates_edges [] b h v r f = refl
run-alternates_edges (l ∷ ls) b h v r f =
    let b' = (process_button l b).1 in
    let same = process_button-value l b in
    let keeps = process_button-keeps l b in
    let rest =
      run-alternates_edges ls b' h.1 (omega (arith, same, h.0)) (keeps.0 ∙ r) (keeps.1 ∙ f) in
    process_button-alternates l b (run ls b').0 h.0 v r f
      (ap (λ v. alternates v (run ls b').0) (sym same) ∙ rest)
