-- ===== src/Drv/But/Hold.antt =====
-- What a press of any length calls.
use hq_components.Prelude.{
  List, [], ap, append-nil, append_assoc, arith, if◌then◌else◌, leb, ltb, refl, replicate, suc, sym,
  u32, zero, ℕ, ◌&&◌, ◌++◌, ◌+◌, ◌-◌, ◌<◌, ◌∙◌, ◌∷◌, ◌≡◌, ◌≤◌,
}
use hq_components.Drv.But.{
  But, Call, click, rise, fall, timer, timer_long, when, edge, short_hold, long_hold,
  process_button, run,
}

-- A button that has been held for `k` scans.
unfoldable pub held : ℕ → But → But
held k b = record b {
  value = 0;
  tim_cnt = if ltb k 100 then k else u32 (k - 100);
  state = if ltb k 20 then 0 else if ltb k 100 then 1 else 2;
}

-- The hold calls of the scans behind the first `k`, up to the scan `m`.
unfoldable pub hold_calls : ℕ → ℕ → But → List Call
hold_calls k m b =
    (if ltb k 20 && leb 20 m then when b.has_timer timer else [])
    ++ (if ltb k 100 && leb 100 m then when b.has_timer_long timer_long else [])

process_button-held :
    (k : ℕ) (b : But) → process_button 0 (held k b) ≡ (hold_calls k (suc k) b, held (suc k) b)
unfolding process_button edge short_hold long_hold held hold_calls
process_button-held k b = ground arith

hold_calls-add :
    (k m : ℕ) (b : But)
    → suc k ≤ m
    → hold_calls k (suc k) b ++ hold_calls (suc k) m b ≡ hold_calls k m b
unfolding hold_calls
hold_calls-add k m b h = ground (arith, append-nil (when b.has_timer timer))

hold_calls_none : (k : ℕ) (b : But) → hold_calls k k b ≡ []
unfolding hold_calls
hold_calls_none k b = ground arith

run-cons :
    (l : ℕ) (ls : List ℕ) (b : But)
    → run (l ∷ ls) b ≡ (
      (process_button l b).0 ++ (run ls (process_button l b).1).0,
      (run ls (process_button l b).1).1,
    )
unfolding run
run-cons l ls b = refl

run-last : (l : ℕ) (b : But) → run (l ∷ []) b ≡ process_button l b
unfolding run
run-last l b = ap (λ cs. (cs, (process_button l b).1)) (append-nil (process_button l b).0)

-- What follows some calls.
abbrev after : List Call → List Call × But → List Call × But
after cs r = (cs ++ r.0, r.1)

run-held :
    (n k : ℕ) (b : But)
    → run (replicate n 0 ++ (1 ∷ [])) (held k b)
      ≡ after (hold_calls k (k + n) b) (process_button 1 (held (k + n) b))
run-held zero k b =
    let e : k + 0 ≡ k = omega arith in rw (e, hold_calls_none k b) (run-last 1 (held k b))
run-held (suc n) k b =
    let e : k + suc n ≡ suc k + n = omega arith in
    let last = process_button 1 (held (suc k + n) b) in
    let first = hold_calls k (suc k) b in
    let later = hold_calls (suc k) (suc k + n) b in
    run-cons 0 (replicate n 0 ++ (1 ∷ [])) (held k b)
    ∙ ap
        (λ r.
          (r.0 ++ (run (replicate n 0 ++ (1 ∷ [])) r.1).0, (run (replicate n 0 ++ (1 ∷ [])) r.1).1))
        (process_button-held k b)
    ∙ ap (after first) (run-held n (suc k) b)
    ∙ ap (λ cs. (cs, last.1)) (sym (append_assoc first later last.0))
    ∙ ap (λ cs. (cs ++ last.0, last.1)) (hold_calls-add k (suc k + n) b (omega arith))
    ∙ ap (λ m. after (hold_calls k m b) (process_button 1 (held m b))) (sym e)

-- A button at rest.
pub record IsReleased (b : But) : Type 0 where
  pub high : b.value ≡ 1
  pub unheld : b.state ≡ 0
  pub uncounted : b.tim_cnt ≡ 0

abbrev pub fall_calls : But → List Call
fall_calls b = if b.has_fall then click ∷ fall ∷ [] else []

press-first : (b : But) → IsReleased b → process_button 0 b ≡ (fall_calls b, held 1 b)
unfolding process_button edge short_hold long_hold held
press-first b r = ground arith

release :
    (n : ℕ) (b : But)
    → 0 < n
    → IsReleased b
    → process_button 1 (held n b) ≡ (when b.has_rise rise, b)
unfolding process_button edge held
release n b h r = ground arith

-- A press of any number of scans, one or more, and its release: the falling edge is called once at
-- the start, with a click; the hold callback once where the press lasts 20 scans or more, and the
-- long one once where it lasts 100 or more; then the rising edge. Each is called only where it is
-- set, in this order, and the button is at rest again.
pub run-press :
    (n : ℕ) (b : But)
    → IsReleased b
    → run (replicate (suc n) 0 ++ (1 ∷ [])) b ≡ (
      fall_calls b
          ++ ((if leb 20 (suc n) then when b.has_timer timer else [])
              ++ (if leb 100 (suc n) then when b.has_timer_long timer_long else [])
              ++ when b.has_rise rise),
      b,
    )
unfolding hold_calls
run-press n b r =
    let e : 1 + n ≡ suc n = omega arith in
    run-cons 0 (replicate n 0 ++ (1 ∷ [])) b
    ∙ ap
        (λ r.
          (r.0 ++ (run (replicate n 0 ++ (1 ∷ [])) r.1).0, (run (replicate n 0 ++ (1 ∷ [])) r.1).1))
        (press-first b r)
    ∙ ap (after (fall_calls b)) (run-held n 1 b)
    ∙ ap (λ m. after (fall_calls b) (after (hold_calls 1 m b) (process_button 1 (held m b)))) e
    ∙ ap (λ r. after (fall_calls b) (after (hold_calls 1 (suc n) b) r))
        (release (suc n) b (omega arith) r)
