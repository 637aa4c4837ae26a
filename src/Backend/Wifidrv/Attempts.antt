-- ===== src/Backend/Wifidrv/Attempts.antt =====
-- A request to connect ends, and its attempts are bounded.
use hq_components.Prelude.{
  Bool, List, [], arith, false, inr, length, refl, true, ℕ, ◌*◌, ◌+◌, ◌-◌, ◌∷◌, ◌≡◌, ◌≤◌, ◌⊎◌,
}
use hq_components.Backend.Wifidrv.{
  State, idle, connect, wait_connect, ready, Ctx, Radio, Event, round, other, ask_connect, got_ip,
  dispatch, step, signal, run, on_connect, nothing,
}

abbrev pub rounds : List Radio → List Event
rounds [] = []
rounds (r ∷ rs) = round r ∷ rounds rs

-- How many rounds the request can last.
abbrev rank : State → ℕ → ℕ
rank idle a = 42 + 2 * (4 - a)
rank connect a = 41 + 2 * (4 - a)
rank wait_connect a = 32 - a
rank _ a = 0

abbrev pub is_trying : State → Bool
is_trying idle = true
is_trying connect = true
is_trying wait_connect = true
is_trying _ = false

abbrev pub GivenUp : Ctx → Type 0
GivenUp c = (c.state ≡ idle) × (c.connect_req ≡ false)

-- A client that has no connection and tries to get one.
pub record IsTrying (c : Ctx) : Type 0 where
  pub client : c.is_server ≡ false
  pub unconnected : c.connected ≡ false
  pub trying : is_trying c.state ≡ true
  pub attempts : c.connect_attemps ≤ 31

dispatch-tries :
    (st : State) (r : Radio) (c : Ctx) (n : ℕ)
    → st ≡ c.state
    → IsTrying c
    → GivenUp c ⊎ (rank st c.connect_attemps ≤ n)
    → let c' = (dispatch st r c).1 in
      IsTrying c' × (GivenUp c' ⊎ (rank c'.state c'.connect_attemps ≤ n - 1))
unfolding dispatch
dispatch-tries _ r c n q t g = ground arith

rounds-try :
    (rs : List Radio) (c : Ctx) (n : ℕ)
    → IsTrying c
    → GivenUp c ⊎ (rank c.state c.connect_attemps ≤ n)
    → n ≤ length rs
    → GivenUp (run (rounds rs) c).1
unfolding run step
rounds-try [] c n t g l = ground (arith, t.attempts, t.trying)
rounds-try (r ∷ rs) c n t g l =
    let next = dispatch-tries c.state r c n refl t g in
    rounds-try rs (dispatch c.state r c).1 (n - 1) next.0 next.1 (omega arith)

-- A client that never gets a connection gives its request up: after fifty rounds of the task or
-- more it is idle and asks no longer, whether or not the radio accepts its attempts.
pub run-GivenUp :
    (rs : List Radio) (c : Ctx) → IsTrying c → 50 ≤ length rs → GivenUp (run (rounds rs) c).1
run-GivenUp rs c t l =
    rounds-try rs c 50 t (inr (rank-bound c.state c.connect_attemps t.attempts)) l
  where
    rank-bound : (st : State) (a : ℕ) → a ≤ 31 → rank st a ≤ 50
    rank-bound _ a h = ground arith

-- A client that is idle, asks for a connection and gets one runs its connect callbacks once, in the
-- order of registration, and is ready, with no request left and no attempts counted.
pub run-ask_connect :
    (a b d e : Radio) (c : Ctx)
    → c.is_server ≡ false
    → c.state ≡ idle
    → b.connects ≡ true
    → let (called, c') =
        run (other ask_connect ∷ round a ∷ round b ∷ other got_ip ∷ round d ∷ round e ∷ []) c in
      (called ≡ nothing ∷ nothing ∷ nothing ∷ on_connect c.on_connect_cb ∷ [])
      × (c'.state ≡ ready)
      × (c'.connected ≡ true)
      × (c'.connect_req ≡ false)
      × (c'.connect_attemps ≡ 0)
unfolding run step dispatch signal
run-ask_connect a b d e c s h p = ground arith
