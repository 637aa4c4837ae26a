-- ===== src/Drv/PowerOn/Quiet.antt =====
-- The power goes off after the delay without a connection, and not before.
use hq_components.Prelude.{
  Bool, List, [], ap, arith, false, if◌then◌else◌, inl, le→ltb, lt→ltb, refl, true, ℕ, ◌++◌, ◌+◌,
  ◌<◌, ◌∙◌, ◌∷◌, ◌≡◌, ◌≤◌, ◌⊎◌,
}
use hq_components.Drv.PowerOn.{
  idle, wait_to_disable, disable_system, off, Ctx, Poll, delay, step, run, state_wait_to_disable,
  state_disable_system, state_idle,
}

module _ (ms2st : ℕ → ℕ) (minutes : ℕ) where
  -- The polls that follow a time of activity, `last`: the clock does not go back or wrap, and each
  -- poll without a connection comes at most the delay after the last one with a connection.
  abbrev pub IsBusy : ℕ → List Poll → Type 0
  IsBusy last [] = Unit {0}
  IsBusy last (p ∷ ps) =
      (last ≤ p.now)
      × (p.now + delay ms2st minutes < 4294967296)
      × ((p.connected ≡ true) ⊎ (p.now ≤ last + delay ms2st minutes))
      × IsBusy (if p.connected then p.now else last) ps

  -- The power is on, and stays on for the delay behind `last`.
  abbrev pub IsOn : ℕ → Ctx → Type 0
  IsOn last c =
      (c.state ≡ idle)
      ⊎ ((c.state ≡ wait_to_disable) × (last + delay ms2st minutes ≤ c.power_off_timer))

  step-IsOn :
      (last : ℕ) (p : Poll) (c : Ctx)
      → last ≤ p.now
      → p.now + delay ms2st minutes < 4294967296
      → (p.connected ≡ true) ⊎ (p.now ≤ last + delay ms2st minutes)
      → IsOn last c
      → IsOn (if p.connected then p.now else last) (step ms2st minutes p c)
        × ((step ms2st minutes p c).pin ≡ c.pin)
  unfolding step state_idle state_wait_to_disable
  step-IsOn last p c o w b h = ground arith

  run-IsOn :
      (ps : List Poll) (last : ℕ) (c : Ctx)
      → IsBusy last ps
      → IsOn last c
      → (run ms2st minutes ps c).pin ≡ c.pin
  unfolding run
  run-IsOn [] last c b h = refl
  run-IsOn (p ∷ ps) last c b h =
      let one = step-IsOn last p c b.0 b.1 b.2 h in
      run-IsOn ps (if p.connected then p.now else last) (step ms2st minutes p c) b.3 one.0 ∙ one.1

  -- From the idle state the power pin is left alone for as long as no poll of the task finds the
  -- delay run out since the last poll with a connection, where the clock does not wrap.
  pub run-IsBusy :
      (ps : List Poll) (last : ℕ) (c : Ctx)
      → c.state ≡ idle
      → IsBusy last ps
      → (run ms2st minutes ps c).pin ≡ c.pin
  run-IsBusy ps last c i b = run-IsOn ps last c b (inl i)

  -- Polls without a connection at any times.
  abbrev pub lonely : List ℕ → List Poll
  lonely [] = []
  lonely (t ∷ ts) = record { now = t; connected = false } ∷ lonely ts

  abbrev pub AllUpTo : ℕ → List ℕ → Type 0
  AllUpTo n [] = Unit {0}
  AllUpTo n (t ∷ ts) = (t ≤ n) × AllUpTo n ts

  run-step :
      (p : Poll) (ps : List Poll) (c : Ctx)
      → run ms2st minutes (p ∷ ps) c ≡ run ms2st minutes ps (step ms2st minutes p c)
  unfolding run
  run-step p ps c = refl

  run-none : (c : Ctx) → run ms2st minutes [] c ≡ c
  unfolding run
  run-none c = refl

  abbrev lonely_at : ℕ → Poll
  lonely_at t = record { now = t; connected = false }

  abbrev waiting : ℕ → Ctx → Ctx
  waiting timer c = record c { power_off_timer = timer; state = wait_to_disable }

  step-waits :
      (timer t : ℕ) (c : Ctx)
      → t ≤ timer
      → step ms2st minutes (lonely_at t) (waiting timer c) ≡ waiting timer c
  unfolding step state_wait_to_disable
  step-waits timer t c h = rw (le→ltb timer t h) refl

  step-ends :
      (timer t : ℕ) (c : Ctx)
      → timer < t
      → step ms2st minutes (lonely_at t) (waiting timer c)
        ≡ record c { power_off_timer = timer; state = disable_system }
  unfolding step state_wait_to_disable
  step-ends timer t c h = rw (lt→ltb timer t h) refl

  step-starts :
      (t : ℕ) (c : Ctx)
      → c.state ≡ idle
      → t + delay ms2st minutes < 4294967296
      → step ms2st minutes (lonely_at t) c ≡ waiting (t + delay ms2st minutes) c
  unfolding step state_idle
  step-starts t c i w = ground arith

  step-off :
      (p : Poll) (c : Ctx)
      → c.state ≡ disable_system
      → ((step ms2st minutes p c).pin ≡ false) × ((step ms2st minutes p c).state ≡ off)
  unfolding step state_disable_system
  step-off p c s = ground arith

  run-waits :
      (ts : List ℕ) (ps : List Poll) (timer : ℕ) (c : Ctx)
      → AllUpTo timer ts
      → run ms2st minutes (lonely ts ++ ps) (waiting timer c)
        ≡ run ms2st minutes ps (waiting timer c)
  run-waits [] ps timer c a = refl
  run-waits (t ∷ ts) ps timer c a =
      run-step (lonely_at t) (lonely ts ++ ps) (waiting timer c)
      ∙ ap (run ms2st minutes (lonely ts ++ ps)) (step-waits timer t c a.0)
      ∙ run-waits ts ps timer c a.1

  -- From the idle state, when the connection is lost at `t`: after any polls until the delay is
  -- over, the first poll behind it and one more take the power pin low, and the task is done.
  pub run-lonely :
      (t late last : ℕ) (ts : List ℕ) (connected : Bool) (c : Ctx)
      → c.state ≡ idle
      → t + delay ms2st minutes < 4294967296
      → AllUpTo (t + delay ms2st minutes) ts
      → t + delay ms2st minutes < late
      → let polls =
          lonely (t ∷ ts)
          ++ (record { now = late; connected = false }
              ∷ record { now = last; connected = connected }
              ∷ []) in
        let c' = run ms2st minutes polls c in (c'.pin ≡ false) × (c'.state ≡ off)
  run-lonely t late last ts connected c i w a l =
      let timer = t + delay ms2st minutes in
      let end : Poll = record { now = last; connected = connected } in
      let down : Ctx = record c { power_off_timer = timer; state = disable_system } in
      let whole : run ms2st minutes (lonely (t ∷ ts) ++ (lonely_at late ∷ end ∷ [])) c
          ≡ step ms2st minutes end down =
        run-step (lonely_at t) (lonely ts ++ (lonely_at late ∷ end ∷ [])) c
        ∙ ap (run ms2st minutes (lonely ts ++ (lonely_at late ∷ end ∷ []))) (step-starts t c i w)
        ∙ run-waits ts (lonely_at late ∷ end ∷ []) timer c a
        ∙ run-step (lonely_at late) (end ∷ []) (waiting timer c)
        ∙ ap (run ms2st minutes (end ∷ [])) (step-ends timer late c l)
        ∙ run-step end [] down
        ∙ run-none (step ms2st minutes end down) in
      rw whole (step-off end down refl)
