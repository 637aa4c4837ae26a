-- ===== src/Backend/CmdServer/Sockets.antt =====
-- Which descriptors the server task holds in which state, and that it leaks none.
use hq_components.Prelude.{
  Bool, List, Option, Option-cases, [], arith, false, inl, inr, length, length-write_at, none, refl,
  some, sym, true, ◌<◌, ◌∷◌, ◌≡◌, ◌≤◌, ◌⊎◌,
}
use hq_components.Backend.Parameters.{Parameter}
use hq_components.Backend.ParseCmd.{parse_server_buffer}
use hq_components.Backend.CmdServer.{
  State, idle, create_soc, listen, ready, parse_response, close_soc, check_errors, Ctx, Read, bytes,
  end_of_stream, read_error, Net, Signal, Event, round, other, ctx_init, signal,
  parse_response_state, step, run, connect_ready_state, listen_client, dispatch, create_soc_state,
  read_client,
}

abbrev pub is_some {ℓ} : {A : Type ℓ} → Option A → Bool
is_some none = false
is_some (some a) = true

-- The states with a listening socket, with a client, and with neither.
abbrev pub listens_in : State → Bool
listens_in listen = true
listens_in ready = true
listens_in parse_response = true
listens_in _ = false

abbrev pub serves_in : State → Bool
serves_in ready = true
serves_in parse_response = true
serves_in _ = false

abbrev pub closed_in : State → Bool
closed_in idle = true
closed_in create_soc = true
closed_in check_errors = true
closed_in _ = false

pub record IsSound (c : Ctx) : Type 0 where
  pub listening : listens_in c.state ≡ true → is_some c.socket ≡ true
  pub serving : serves_in c.state ≡ true → is_some c.client_socket ≡ true
  pub socket_closed : closed_in c.state ≡ true → c.socket ≡ none
  pub client_closed : closed_in c.state ≡ true → c.client_socket ≡ none
  pub no_client : c.state ≡ listen → c.client_socket ≡ none
  pub payload_sized : length c.payload ≡ 256
  pub payload_fits : c.payload_size ≤ 256
  pub payload_some : c.state ≡ parse_response → 0 < c.payload_size

-- What the code relies on of the sockets: bind() refuses the descriptor -1, and read() delivers at
-- least one byte and at most as many as are asked for.
abbrev pub ReadFits : Read → Type 0
ReadFits (bytes bs) = (0 < length bs) × (length bs ≤ 256)
ReadFits end_of_stream = Unit {0}
ReadFits read_error = Unit {0}

pub record IsNet (net : Net) : Type 0 where
  pub bind_refuses : net.socket ≡ none → net.binds ≡ false
  pub read_fits : ReadFits net.read

abbrev pub AllNets : List Event → Type 0
AllNets [] = Unit {0}
AllNets (round net ∷ es) = IsNet net × AllNets es
AllNets (other sig ∷ es) = AllNets es

pub ctx_init-IsSound : (c : Ctx) → length c.payload ≡ 256 → IsSound (ctx_init c)
unfolding ctx_init
ctx_init-IsSound c h = ground arith

signal-IsSound : (sig : Signal) (c : Ctx) → IsSound c → IsSound (signal sig c)
unfolding signal
signal-IsSound Signal.server_start c s = ground arith
signal-IsSound Signal.server_stop c s = ground arith
signal-IsSound Signal.keep_alive_error c s = ground arith
signal-IsSound Signal.keep_alive_refused c s = ground arith

read_client-IsSound :
    (r : Read) (c : Ctx) → ReadFits r → c.state ≡ ready → IsSound c → IsSound (read_client r c)
unfolding read_client
read_client-IsSound (bytes bs) c f e s = ground (arith, length-write_at c.payload 0 bs)
read_client-IsSound end_of_stream c f e s = ground arith
read_client-IsSound read_error c f e s = ground arith

connect_ready_state-IsSound :
    (net : Net) (c : Ctx)
    → IsNet net
    → c.state ≡ ready
    → IsSound c
    → IsSound (connect_ready_state net c)
unfolding connect_ready_state
connect_ready_state-IsSound net c n e s =
    ground (arith, read_client-IsSound net.read c n.read_fits e s)

create_soc_state-IsSound :
    (net : Net) (c : Ctx)
    → IsNet net
    → c.state ≡ create_soc
    → IsSound c
    → IsSound (create_soc_state net c)
unfolding create_soc_state
create_soc_state-IsSound net c n e s = ground (arith, n.bind_refuses)

listen_client-IsSound :
    (net : Net) (c : Ctx) → c.state ≡ listen → IsSound c → IsSound (listen_client net c)
unfolding listen_client
listen_client-IsSound net c e s = ground arith

module _ (project : List Parameter) where
  parse_response_state-IsSound :
      (net : Net) (c : Ctx) {c' : Ctx}
      → IsSound c
      → c.state ≡ parse_response
      → parse_response_state project net c ≡ some c'
      → IsSound c'
  unfolding parse_response_state
  parse_response_state-IsSound net c s p e =
      elim (Option-cases (parse_server_buffer project c.payload c.payload_size c.server)) [
        | inl q ↦ ground arith
        | inr (v, q) ↦ ground arith
      ]

  dispatch-IsSound :
      (st : State) (net : Net) (c : Ctx) {c' : Ctx}
      → st ≡ c.state
      → IsNet net
      → IsSound c
      → dispatch project st net c ≡ some c'
      → IsSound c'
  unfolding dispatch
  dispatch-IsSound idle net c q n s e = ground arith
  dispatch-IsSound create_soc net c q n s e =
      ground (arith, create_soc_state-IsSound net c n (sym q) s)
  dispatch-IsSound listen net c q n s e = ground (arith, listen_client-IsSound net c (sym q) s)
  dispatch-IsSound ready net c q n s e =
      ground (arith, connect_ready_state-IsSound net c n (sym q) s)
  dispatch-IsSound parse_response net c q n s e = parse_response_state-IsSound net c s (sym q) e
  dispatch-IsSound close_soc net c q n s e = ground arith
  dispatch-IsSound check_errors net c q n s e = ground arith

  -- One round of the task keeps the invariant, in each of its states.
  step-IsSound :
      (net : Net) (c : Ctx) {c' : Ctx}
      → IsNet net
      → IsSound c
      → step project net c ≡ some c'
      → IsSound c'
  unfolding step
  step-IsSound net c n s e = dispatch-IsSound c.state net c refl n s e

  -- From a sound context the task and the tasks around it, in any order and number, only reach
  -- sound contexts, with any answers of a network where bind() refuses the descriptor -1 and a
  -- read() gives between 1 and 256 bytes. So the task listens only on an open socket, serves only
  -- an open client, has closed both before it starts again, and never holds more than 256 bytes of
  -- a packet.
  pub run-IsSound :
      (es : List Event) (c : Ctx) {c' : Ctx}
      → AllNets es
      → IsSound c
      → run project es c ≡ some c'
      → IsSound c'
  unfolding run
  run-IsSound [] c n s e = ground arith
  run-IsSound (other sig ∷ es) c n s e = run-IsSound es (signal sig c) n (signal-IsSound sig c s) e
  run-IsSound (round net ∷ es) c n s e = elim (Option-cases (step project net c)) [
    | inl q ↦ let e' : none ≡ some _ = rw q at e in cc
    | inr (v, q) ↦ run-IsSound es v n.1 (step-IsSound net c n.0 s q) (rw q at e)
  ]

  dispatch-keeps_sockets :
      (st : State) (net : Net) (c : Ctx) {c' : Ctx}
      → st ≡ c.state
      → IsSound c
      → dispatch project st net c ≡ some c'
      → ((c'.socket ≡ c.socket) ⊎ ((c.socket ≡ none) ⊎ (c.state ≡ close_soc)))
        × ((c'.client_socket ≡ c.client_socket)
            ⊎ ((c.client_socket ≡ none) ⊎ (c.state ≡ close_soc)))
  unfolding dispatch parse_response_state
  dispatch-keeps_sockets parse_response net c q s e =
      elim (Option-cases (parse_server_buffer project c.payload c.payload_size c.server)) [
        | inl p ↦ ground arith
        | inr (v, p) ↦ ground arith
      ]
  dispatch-keeps_sockets _ net c q s e = ground arith

  -- No descriptor is lost: a round leaves the listening socket as it is, opens it where there was
  -- none, or closes it in the state that closes; and so for the client's.
  pub step-keeps_sockets :
      (net : Net) (c : Ctx) {c' : Ctx}
      → IsSound c
      → step project net c ≡ some c'
      → ((c'.socket ≡ c.socket) ⊎ ((c.socket ≡ none) ⊎ (c.state ≡ close_soc)))
        × ((c'.client_socket ≡ c.client_socket)
            ⊎ ((c.client_socket ≡ none) ⊎ (c.state ≡ close_soc)))
  unfolding step
  step-keeps_sockets net c s e = dispatch-keeps_sockets c.state net c refl s e
