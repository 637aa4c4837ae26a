-- ===== src/Backend/CmdClientReq/Answer.antt =====
-- What the client makes of an answer, and a whole request from the client to the server and back.
use hq_components.Backend.Frame.{packet}
use hq_components.Prelude.{
  ==_iff, Bool, List, arith, le_bytes, le_word-le_bytes, lt→leb, refl, some, true, ℕ, ◌++◌, ◌<◌,
  ◌≡◌, ◌≤◌, ◌⊎◌,
}
use hq_components.Backend.Parameters.{
  Parameter, Store, get_value, set_value, get_max_value, last_value,
}
use hq_components.Backend.Parameters.Values.{IsStore, get_value-set_value}
use hq_components.Backend.ParseCmd.{Server, send_data, parse_server}
use hq_components.Backend.ParseCmd.Serve.{ask, read_value, parse_server-encode}
use hq_components.Backend.CmdClientReq.{
  Got, packet_read, prepare_u32_msg, get_value_answer, get_value_request, set_value_request, ok,
  pc_get_uint32, cmd_answer,
}
use hq_components.Backend.CmdClientReq.Encode.{mode_of, prepare_u32_msg-read}

module _ (project : List Parameter) where
  -- The answer to a read request gives the client the server's value, which it also stores as its
  -- own, if the value is one that the parameter can have.
  get_value_answer-packet :
      (number val value : ℕ) (s : Store)
      → number < 4294967296
      → value < 4294967296
      → (set_value project val value s).0 ≡ true
      → get_value_answer project val number
          (packet number cmd_answer pc_get_uint32 val (le_bytes value))
          s
        ≡ record { result = ok; value = some value; store = (set_value project val value s).1 }
  unfolding get_value_answer
  get_value_answer-packet number val value s n v h =
      rw
        (
          le_word-le_bytes number n,
          le_word-le_bytes value v,
          (==_iff number number).1 refl,
          (==_iff val val).1 refl,
          h,
        )
        refl

  -- A read request, end to end, for a client that waits, a known parameter, and a server's value
  -- that is a word and at most the parameter's maximum: the packet that cmdClientGetValue prepares
  -- makes the server answer with one packet; given that packet, the client returns ERROR_CODE_OK
  -- with the server's value, and the client's own copy of the parameter is then the server's.
  pub get_value_roundtrip :
      (number val wait : ℕ) (post : List ℕ) (server : Server) (client : Store)
      → number < 4294967296
      → val < 256
      → val < last_value project
      → get_value project val server.store < 4294967296
      → get_value project val server.store ≤ get_max_value project val
      → 0 < wait
      → IsStore project client
      → let msg = prepare_u32_msg number val 0 pc_get_uint32 wait in
        let value = get_value project val server.store in
        (answer : List ℕ) × (parse_server project (msg.send_data ++ post) server
          ≡ some (send_data answer server))
        × ((got : Got ℕ) × (get_value_request project true true
                (some (packet_read answer))
                val
                number
                client
              ≡ some got)
            × (got.result ≡ ok)
            × (got.value ≡ some value)
            × (get_value project val got.store ≡ value))
  unfolding get_value_request
  get_value_roundtrip number val wait post server client n v known word limit waits sized =
      let value = get_value project val server.store in
      let answer = packet number cmd_answer pc_get_uint32 val (le_bytes value) in
      let accepted : (set_value project val value client).0 ≡ true =
        unfold set_value get_max_value in ground arith in
      let ask' : mode_of wait ≡ ask = ground arith in
      (
        answer,
        rw ((prepare_u32_msg-read number val 0 wait v).0, ask')
            (parse_server-encode project
              (record { number = number; mode = ask; call = read_value val }) post server (n, tt)),
        (
          record {
            result = ok;
            value = some value;
            store = (set_value project val value client).1;
          },
          rw (
            lt→leb (last_value project) val known,
            get_value_answer-packet number val value client n word accepted,
          ),
          refl,
          refl,
          (get_value-set_value project val value client sized accepted).0,
        ),
      )

  -- A write of a value that is above the parameter's maximum, or of a parameter that does not
  -- exist, is reported to the caller as ERROR_CODE_OK, though nothing is stored.
  pub set_value_request-refused :
      (queued taken : Bool) (rx : List ℕ) (val value number : ℕ) (s : Store)
      → (last_value project ≤ val) ⊎ (get_max_value project val < value)
      → set_value_request project queued taken rx val value number s ≡ (ok, s)
  unfolding set_value_request set_value get_max_value
  set_value_request-refused queued taken rx val value number s h = ground arith
