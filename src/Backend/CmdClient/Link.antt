-- ===== src/Backend/CmdClient/Link.antt =====
-- How the client's connection comes up and goes down.
use hq_components.Prelude.{
  Bool, Bool-cases, List, [], arith, false, inl, inr, length, le→ltb, none, refl, some, suc, true,
  u32, ℕ, ◌+◌, ◌-◌, ◌<◌, ◌||◌, ◌∷◌, ◌≡◌, ◌≤◌, ◌⊎◌,
}
use hq_components.Backend.CmdClient.{
  State, idle, create_soc, connect_server, ready, close_soc, check_errors, Ctx, Net, Event, round,
  other, client_disconnect, client_start, dispatch, step, handle, run, signal, is_connected,
  try_connect,
}
use hq_components.Drv.Keepalive.{start}
use hq_components.Backend.CmdClient.Sockets.{IsSound, handle-IsSound}

abbrev pub rounds : List Net → List Event
rounds [] = []
rounds (net ∷ nets) = round net ∷ rounds nets

-- A client that is idle and told to start is connected after three rounds of the task, with its
-- keep-alive supervision on, where socket() gives a descriptor and connect() succeeds.
pub start-connects :
    (a b d : Net) (fd : ℕ) (c : Ctx)
    → IsSound c
    → c.state ≡ idle
    → b.socket ≡ some fd
    → d.connects ≡ true
    → let c' = run (other client_start ∷ rounds (a ∷ b ∷ d ∷ [])) c in
      (is_connected c' ≡ true) × (c'.socket ≡ some fd) × (c'.keep.active_flag ≡ true)
unfolding run handle step dispatch signal is_connected start
start-connects a b d fd c s h p q = ground (arith, s.closed)

-- How many rounds a disconnecting task still needs.
abbrev rank : State → ℕ
rank idle = 1
rank check_errors = 2
rank close_soc = 3
rank ready = 4
rank connect_server = 5
rank create_soc = 6

abbrev pub Down : Ctx → Type 0
Down c = (c.state ≡ idle) × (c.socket ≡ none) × (c.start ≡ false) × (c.disconnect_req ≡ false)

dispatch-leaves :
    (st : State) (net : Net) (c : Ctx) (n : ℕ)
    → st ≡ c.state
    → IsSound c
    → Down c ⊎ ((c.disconnect_req ≡ true) × (rank st ≤ n))
    → let c' = dispatch st net c in Down c' ⊎ ((c'.disconnect_req ≡ true) × (rank c'.state ≤ n - 1))
unfolding dispatch
dispatch-leaves _ net c n q s g = ground arith

rank-positive : (st : State) → 0 < rank st
rank-positive _ = ground arith

rounds-leave :
    (nets : List Net) (c : Ctx) (n : ℕ)
    → IsSound c
    → Down c ⊎ ((c.disconnect_req ≡ true) × (rank c.state ≤ n))
    → n ≤ length nets
    → Down (run (rounds nets) c)
unfolding run handle step
rounds-leave [] c n s g l = ground (arith, rank-positive c.state)
rounds-leave (net ∷ nets) c n s g l =
    rounds-leave nets (dispatch c.state net c) (n - 1) (handle-IsSound (round net) c s)
      (dispatch-leaves c.state net c n refl s g) (omega arith)

rank-bound : (st : State) → rank st ≤ 6
rank-bound _ = ground arith

-- A request to disconnect takes the connection down: from every sound context, six rounds of the
-- task or more end in the idle state, the socket closed and the client stopped, whatever the
-- network answers.
pub disconnect-Down :
    (nets : List Net) (c : Ctx)
    → IsSound c
    → 6 ≤ length nets
    → Down (run (other client_disconnect ∷ rounds nets) c)
unfolding run handle signal
disconnect-Down nets c s l =
    rounds-leave nets (record c { disconnect_req = true }) 6
      (record { opened = s.opened; closed = s.closed }) (inr (refl, rank-bound c.state)) l

-- cmdClientTryConnect does not wait for its timeout: while the time has not run out after the first
-- pass, and the sum does not wrap, it answers from its first two looks at the connection, for every
-- amount of fuel but none.
pub try_connect-one_wait :
    (fuel : ℕ) (connected : ℕ → Bool) (clock : ℕ → ℕ) (timeout time_now : ℕ)
    → time_now + timeout < 4294967296
    → clock 0 ≤ time_now + timeout
    → try_connect (suc fuel) connected clock timeout time_now 0 ≡ some (connected 0 || connected 1)
unfolding try_connect
try_connect-one_wait fuel connected clock timeout time_now w h = elim (Bool-cases (connected 0)) [
  | inl q ↦ rw q refl
  | inr q ↦ rw (q, le→ltb (u32 (time_now + timeout)) (clock 0) (omega arith)) refl
]
