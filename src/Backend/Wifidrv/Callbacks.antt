-- ===== src/Backend/Wifidrv/Callbacks.antt =====
-- The connect and disconnect callbacks are called in turn.
use hq_components.Prelude.{Bool, List, [], ap, arith, false, refl, sym, true, ◌∙◌, ◌∷◌, ◌≡◌, ◌≢◌}
use hq_components.Backend.Wifidrv.{
  State, stop, ready, deinit, Ctx, Radio, Called, nothing, on_connect, on_disconnect, Signal, Event,
  round, other, dispatch, step, signal, run,
}

-- The callbacks of a connection have been called and those of its end have not.
abbrev pub is_up : State → Bool
is_up ready = true
is_up stop = true
is_up _ = false

-- Starting up or down, the two kinds of calls take turns, and the state says whose turn is next.
abbrev pub alternates : Bool → List Called → Bool
alternates up [] = true
alternates up (nothing ∷ cs) = alternates up cs
alternates true (on_connect f ∷ cs) = false
alternates false (on_connect f ∷ cs) = alternates true cs
alternates true (on_disconnect f ∷ cs) = alternates false cs
alternates false (on_disconnect f ∷ cs) = false

signal-state : (sig : Signal) (c : Ctx) → (signal sig c).state ≡ c.state
unfolding signal
signal-state _ c = ground arith

dispatch-turn :
    (st : State) (r : Radio) (c : Ctx) (cs : List Called)
    → st ≡ c.state
    → c.state ≢ deinit
    → let (called, c') = dispatch st r c in
      (c'.state ≢ deinit)
      × (alternates (is_up c'.state) cs ≡ true → alternates (is_up c.state) (called ∷ cs) ≡ true)
unfolding dispatch
dispatch-turn _ r c cs q n = ground arith

-- In every run of the driver from a state other than WIFI_APP_DEINIT, which it never enters,
-- whatever the radio answers and the other tasks and the radio's events do in between, the connect
-- and the disconnect callbacks are called in turn: the connect callbacks first where the run starts
-- in a state without a connection, the disconnect callbacks first else.
pub run-alternates :
    (es : List Event) (c : Ctx) → c.state ≢ deinit → alternates (is_up c.state) (run es c).0 ≡ true
unfolding run step
run-alternates [] c n = ground arith
run-alternates (round r ∷ es) c n =
    let c' = (dispatch c.state r c).1 in
    let turn = dispatch-turn c.state r c (run es c').0 refl n in
    turn.1 (run-alternates es c' turn.0)
run-alternates (other sig ∷ es) c n =
    let same = signal-state sig c in
    let rest : alternates (is_up (signal sig c).state) (run es (signal sig c)).0 ≡ true =
      run-alternates es (signal sig c) (λ e. n (sym same ∙ e)) in
    ap (λ st. alternates (is_up st) (run es (signal sig c)).0) (sym same) ∙ rest
