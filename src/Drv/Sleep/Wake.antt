-- ===== src/Drv/Sleep/Wake.antt =====
-- When the device sleeps and wakes, and what it does in between.
use hq_components.Prelude.{
  Bool, List, [], arith, false, length, refl, suc, true, ℕ, ◌++◌, ◌+◌, ◌-◌, ◌∙◌, ◌∷◌, ◌≡◌, ◌≢◌, ◌≤◌,
}
use hq_components.Drv.Sleep.{
  State, no_init, no_sleep, go_to_sleep, start_sleeping, unsleep_process, wake_up, Round, Call,
  light_sleep, try_to_connect, keep_alive_frame, beep, is_sleeping, unsleep_calls, step, run,
}

abbrev pub sleeps : List Call → ℕ
sleeps [] = 0
sleeps (light_sleep ∷ cs) = suc (sleeps cs)
sleeps (try_to_connect ∷ cs) = sleeps cs
sleeps (keep_alive_frame ∷ cs) = sleeps cs
sleeps (beep ∷ cs) = sleeps cs

abbrev pub frames : List Call → ℕ
frames [] = 0
frames (keep_alive_frame ∷ cs) = suc (frames cs)
frames (light_sleep ∷ cs) = frames cs
frames (try_to_connect ∷ cs) = frames cs
frames (beep ∷ cs) = frames cs

-- Rounds that find the signal as given.
abbrev pub Signals : Bool → List Round → Type 0
Signals b [] = Unit {0}
Signals b (r ∷ rs) = (r.signal ≡ b) × Signals b rs

-- How many rounds the task needs to be awake without a signal.
abbrev rank : State → ℕ
rank no_init = 0
rank no_sleep = 0
rank wake_up = 1
rank go_to_sleep = 2
rank start_sleeping = 2
rank unsleep_process = 2

-- The device lies down in the round that begins in start_sleeping.
abbrev pub lies : State → ℕ
lies start_sleeping = 1
lies _ = 0

run-step :
    (r : Round) (rs : List Round) (st : State)
    → run (r ∷ rs) st ≡ ((step r st).0 ++ (run rs (step r st).1).0, (run rs (step r st).1).1)
unfolding run
run-step r rs st = refl

step-wakes :
    (r : Round) (st : State) (cs : List Call)
    → r.signal ≡ false
    → st ≢ no_init
    → let (calls, st') = step r st in
      (st' ≢ no_init)
      × (rank st' ≤ rank st - 1)
      × (sleeps (calls ++ cs) + lies st' ≤ sleeps cs + lies st)
unfolding step unsleep_calls
step-wakes r st cs h n = ground arith

at_rank_zero : (st : State) → st ≢ no_init → rank st ≤ 0 → st ≡ no_sleep
at_rank_zero st n h = ground arith

run-none : (st : State) → run [] st ≡ ([], st)
unfolding run
run-none st = refl

run-wakes :
    (rs : List Round) (st : State) (n : ℕ)
    → Signals false rs
    → st ≢ no_init
    → rank st ≤ n
    → n ≤ length rs
    → let (calls, st') = run rs st in (st' ≡ no_sleep) × (sleeps calls + lies st' ≤ lies st)
run-wakes [] st n s i h l = rw (run-none st) (at_rank_zero st i (omega arith), omega arith)
run-wakes (r ∷ rs) st n s i h l =
    let st' = (step r st).1 in
    let one = step-wakes r st (run rs st').0 s.0 i in
    let all = run-wakes rs st' (n - 1) s.1 one.0 (omega (arith, one.1)) (omega arith) in
    rw (run-step r rs st) (all.0, omega (arith, one.2, all.1))

rank-bound : (st : State) → rank st ≤ 2
rank-bound _ = ground arith

-- When the task has been initialised and all its rounds, two or more, find no signal to sleep, it
-- ends in NO_SLEEP and is_sleeping answers false; on the way the device lies down once at most, and
-- only if the first of these rounds begins in START_SLEEPING.
pub run-awake :
    (rs : List Round) (st : State)
    → Signals false rs
    → st ≢ no_init
    → 2 ≤ length rs
    → let (calls, st') = run rs st in
      (st' ≡ no_sleep) × (is_sleeping st' false ≡ false) × (sleeps calls ≤ lies st)
unfolding is_sleeping
run-awake rs st s i l =
    let all = run-wakes rs st 2 s i (rank-bound st) l in
    (all.0, rw all.0 refl, omega (arith, all.1))

abbrev pub Connects : List Round → Type 0
Connects [] = Unit {0}
Connects (r ∷ rs) = (r.wifi_connect ≡ true) × Connects rs

step-frames :
    (r : Round) (st : State) (cs : List Call)
    → r.wifi_connect ≡ true
    → frames ((step r st).0 ++ cs) ≡ frames cs
unfolding step unsleep_calls
step-frames r _ cs h = ground arith

-- A client, for which wifiDrvConnect returns true, never sends a keep-alive frame when it wakes up
-- for a while: the test takes the true for a failure.
pub run-no_frames : (rs : List Round) (st : State) → Connects rs → frames (run rs st).0 ≡ 0
run-no_frames [] st c = rw (run-none st) refl
run-no_frames (r ∷ rs) st c =
    rw (run-step r rs st)
      (step-frames r st (run rs (step r st).1).0 c.0 ∙ run-no_frames rs (step r st).1 c.1)
