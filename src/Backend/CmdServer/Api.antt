-- ===== src/Backend/CmdServer/Api.antt =====
-- backend/cmd_server.c: what the other tasks call to send through the server's client socket.
-- Beside its result each function gives the packets that it hands to send(). What send() answers,
-- and whether the semaphores are obtained in time, are arguments.
use hq_components.Backend.Frame.{cmd_request, cmd_data, pc_set_uint32}
use hq_components.Backend.Parameters.{set_value}
use hq_components.Prelude.{
  Bool, List, Option, [], false, get_or, if◌then◌else◌, le_bytes, none, not, some, true, u8, ℕ,
  ◌==◌, ◌∷◌,
}
use hq_components.Backend.CmdServer.{State, ready, parse_response, Ctx, Parameter}

-- cmdServerSendData: `none` is a negative result.
unfoldable pub send_data : Option ℕ → List ℕ → Ctx → Option ℕ × List (List ℕ)
send_data answer buff c = elim c.socket [
  | none ↦ (none, [])
  | some fd ↦ elim c.state [
    | ready ↦ (answer, buff ∷ [])
    | parse_response ↦ (answer, buff ∷ [])
    | _ ↦ (none, [])
  ]
]

-- What happens around a request that waits for its response.
pub record Wait : Type 0 where
  pub mutex_taken : Bool
  pub send_answer : Option ℕ
  pub response_taken : Bool
  pub responce_buff : List ℕ

-- cmdServerSendDataWaitResp, called without a receive buffer, as keepAliveSend does.
unfoldable pub send_data_wait_resp : Wait → List ℕ → Ctx → Bool × List (List ℕ)
unfolding send_data
send_data_wait_resp w buff c =
    if not (get_or buff 1 0 == cmd_request)
    then (false, [])
    else if not w.mutex_taken
    then (false, [])
    else (let (ret, out) = send_data w.send_answer buff c in
        elim ret [
          | none ↦ (false, out)
          | some n ↦
              if not w.response_taken
              then (false, out)
              else (get_or buff 2 0 == get_or w.responce_buff 2 0, out)
        ])

abbrev pub can_send : State → Bool
can_send ready = true
can_send parse_response = true
can_send _ = false

-- keepAliveSend
unfoldable pub keep_alive_send : Wait → List ℕ → Ctx → Bool × List (List ℕ) × Ctx
unfolding send_data_wait_resp
keep_alive_send w buff c =
    if can_send c.state
    then (let (done, out) = send_data_wait_resp w buff c in
        if done then (true, out, c) else (false, out, record c { disconnect_req = true }))
    else (false, [], c)

module _ (project : List Parameter) where
  -- cmdServerSetValueWithoutResp: a packet of 8 bytes goes out where the value is accepted.
  unfoldable pub set_value_without_resp : Option ℕ → ℕ → ℕ → Ctx → Bool × List (List ℕ) × Ctx
  unfolding send_data
  set_value_without_resp answer val value c =
      let (done, store) = set_value project val value c.server.store in
      if not done
      then (false, [], c)
      else (let frame : List ℕ = 8 ∷ cmd_data ∷ pc_set_uint32 ∷ u8 val ∷ le_bytes value in
          let c' = record c { server = record (c.server) { store = store } } in
          (true, (send_data answer frame c').1, c'))

  -- cmdServerSetValueWithoutRespI, which leaves the critical section of its caller for the send.
  unfoldable pub set_value_without_resp_i : Option ℕ → ℕ → ℕ → Ctx → Bool × List (List ℕ) × Ctx
  unfolding set_value_without_resp
  set_value_without_resp_i answer val value c = set_value_without_resp answer val value c
