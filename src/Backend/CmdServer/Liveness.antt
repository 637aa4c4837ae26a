-- ===== src/Backend/CmdServer/Liveness.antt =====
-- Where the server task gets to: stopping it, and what it says of a client that has left.
use hq_components.Prelude.{
  List, [], arith, false, length, none, refl, some, true, ℕ, ◌-◌, ◌∷◌, ◌≡◌, ◌≢◌, ◌≤◌,
}
use hq_components.Backend.Parameters.{Parameter}
use hq_components.Backend.CmdServer.{
  State, idle, create_soc, listen, ready, parse_response, close_soc, check_errors, Ctx,
  end_of_stream, select_ready, Net, Event, round, dispatch, step, run, is_working, idle_state,
  create_soc_state, listen_client, connect_ready_state, close_soc_state, check_errors_state,
}
use hq_components.Backend.CmdServer.Sockets.{IsSound, IsNet, AllNets, run-IsSound}

-- The task is stopped and holds no descriptor.
pub record IsStopped (c : Ctx) : Type 0 where
  pub at_idle : c.state ≡ idle
  pub not_started : c.start ≡ false
  pub no_socket : c.socket ≡ none
  pub no_client : c.client_socket ≡ none

-- How many rounds a stopping task still needs.
abbrev rank : State → ℕ
rank idle = 0
rank check_errors = 1
rank close_soc = 2
rank listen = 3
rank ready = 3
rank create_soc = 4
rank parse_response = 5

abbrev pub rounds : List Net → List Event
rounds [] = []
rounds (net ∷ nets) = round net ∷ rounds nets

abbrev pub AllNet : List Net → Type 0
AllNet [] = Unit {0}
AllNet (net ∷ nets) = IsNet net × AllNet nets

-- One round of a task that has been told to stop comes nearer to the idle state.
record Stops (project : List Parameter) (net : Net) (c : Ctx) : Type 0 where
  next : Ctx
  steps : step project net c ≡ some next
  stays : next.start ≡ false
  nearer : rank next.state ≤ rank c.state - 1

module _ (project : List Parameter) where
  dispatch-stops :
      (st : State) (net : Net) (c : Ctx)
      → c.start ≡ false
      → st ≡ c.state
      → rank st ≤ 4
      → (c' : Ctx) × (dispatch project st net c ≡ some c')
        × (c'.start ≡ false)
        × (rank c'.state ≤ rank st - 1)
  unfolding dispatch
  dispatch-stops idle net c h q r = (idle_state c, refl, ground arith, ground arith)
  dispatch-stops create_soc net c h q r = (create_soc_state net c, refl, ground arith, ground arith)
  dispatch-stops listen net c h q r = (listen_client net c, refl, ground arith, ground arith)
  dispatch-stops ready net c h q r = (connect_ready_state net c, refl, ground arith, ground arith)
  dispatch-stops parse_response net c h q r = absurd (omega arith)
  dispatch-stops close_soc net c h q r = (close_soc_state c, refl, h, omega arith)
  dispatch-stops check_errors net c h q r = (check_errors_state c, refl, h, omega arith)

  rounds-stop :
      (nets : List Net) (c : Ctx)
      → c.start ≡ false
      → rank c.state ≤ 4
      → (c' : Ctx) × (run project (rounds nets) c ≡ some c')
        × (c'.start ≡ false)
        × (rank c'.state ≤ rank c.state - length nets)
  unfolding run step
  rounds-stop [] c h r = (c, refl, h, omega arith)
  rounds-stop (net ∷ nets) c h r =
      let (c', e, h', n) = dispatch-stops c.state net c h refl r in
      let (c'', e', h'', n') = rounds-stop nets c' h' (omega arith) in
      (c'', rw e e', h'', omega arith)

  rounds-AllNets : (nets : List Net) → AllNet nets → AllNets (rounds nets)
  rounds-AllNets [] n = tt
  rounds-AllNets (net ∷ nets) n = (n.0, rounds-AllNets nets n.1)

  at_rank_zero : (st : State) → rank st ≤ 0 → st ≡ idle
  at_rank_zero st h = ground arith

  -- A server that is told to stop does stop: from every sound state but the one that parses, four
  -- rounds of the task or more, with any answers that run-IsSound allows of the network, end in the
  -- idle state with both sockets closed.
  pub stop-IsStopped :
      (nets : List Net) (c : Ctx)
      → AllNet nets
      → 4 ≤ length nets
      → IsSound c
      → c.start ≡ false
      → c.state ≢ parse_response
      → (c' : Ctx) × (run project (rounds nets) c ≡ some c') × IsStopped c'
  stop-IsStopped nets c n l s h p =
      let (c', e, h', r) = rounds-stop nets c h (ground arith) in
      let sound : IsSound c' = run-IsSound project (rounds nets) c (rounds-AllNets nets n) s e in
      let here : c'.state ≡ idle = at_rank_zero c'.state (ground (arith, r)) in
      (
        c',
        e,
        record {
          at_idle = here;
          not_started = h';
          no_socket = sound.socket_closed (rw here);
          no_client = sound.client_closed (rw here);
        },
      )

  -- When the client of a started server that is not asked to disconnect ends its connection, the
  -- server closes both sockets and is idle after three rounds, but still says that it has a client:
  -- cmdServerIsWorking stays true.
  pub left_client :
      (gone b d : Net) (c : Ctx)
      → c.state ≡ ready
      → c.start ≡ true
      → c.disconnect_req ≡ false
      → c.is_connected ≡ true
      → gone.select ≡ select_ready
      → gone.is_set ≡ true
      → gone.read ≡ end_of_stream
      → (c' : Ctx) × (run project (round gone ∷ round b ∷ round d ∷ []) c ≡ some c')
        × (c'.state ≡ idle)
        × (c'.client_socket ≡ none)
        × (is_working c' ≡ true)
  unfolding run step is_working
  left_client gone b d c s h q w x y z = (
    record c {
      client_socket = none;
      socket = none;
      error = false;
      disconnect_req = false;
      state = idle;
    },
    ground arith,
    refl,
    refl,
    w,
  )
