-- ===== src/Backend/CmdClientReq.antt =====
-- backend/cmd_client_req.c: the client's requests.
-- A request's packet is prepared, handed to the request task through a queue, sent, and its answer
-- is read back piece by piece. Whether the queue and the semaphore are obtained, what the reads
-- deliver and when the time has run out are arguments. Memory is always obtained; the release of a
-- request's memory is left out. `char` is unsigned on the ESP32.
pub mod Encode
pub mod Receive
pub mod Answer
pub mod Queue
pub mod Memory
mod Tests
use hq_components.Backend.Parameters.{Store, Parameter, set_value, last_value, set_string, c_string}
use hq_components.Backend.Frame.{
  fail, pc_set_string, pc_set_uint32, packet_size, req_number_pos, ErrorCode, timed_out, cmd_answer,
  value_pos, len_pos, parse_type_pos, negative_resp, cmd_pos, value_type_pos, ok, pc_get_string,
  pc_get_uint32, positive_resp, cmd_request, cmd_data,
}
use hq_components.Prelude.{
  ==_iff, Bool, Bool-cases, List, Option, Option-cases, [], ap, append_assoc, arith, drop,
  drop_append, false, get_elem?, get_elem?-append, get_elem?-eq-get_or, get_or, get_or-set_ne,
  get_or-set_self, get_or_append_left, if◌then◌else◌, inl, inr, le_bytes, le_word, le_word-le_bytes,
  leb, length, length-append, length-drop, length-replicate, length-set, length-take,
  length-write_at, le→leb, le→ltb, ltb, ltb→le, ltb→lt, lt→leb, lt→ltb, map, min, none, not, refl,
  replicate, replicate-add, set, set-append, some, sub32, suc, sym, take, take-append-drop,
  take_append, true, u32, u8, write_at, write_at-append, write_at-replicate, write_at_behind,
  write_at_front, zero, ℕ, ◌%◌, ◌&&◌, ◌*◌, ◌++◌, ◌+◌, ◌-◌, ◌/◌, ◌<◌, ◌==◌, ◌>>=◌, ◌^◌, ◌||◌, ◌↔◌,
  ◌∙◌, ◌∷◌, ◌≡◌, ◌≢◌, ◌≤◌, ◌⊎◌,
}

-- request_command_data_t: `has_rx` tells whether there is a buffer for the answer.
pub record Msg : Type 0 where
  pub send_data : List ℕ
  pub has_rx : Bool
  pub request_number : ℕ
  pub timeout_ms : ℕ

-- `ctx.request_number++`
unfoldable pub next_number : ℕ → ℕ
next_number n = u32 (n + 1)

-- _prepare_msg, with the request number that it takes.
unfoldable pub prepare_msg : ℕ → ℕ → ℕ → ℕ → Msg
prepare_msg number val kind timeout =
    let buff : List ℕ = set (replicate packet_size 0) len_pos packet_size in
    let buff : List ℕ = write_at buff req_number_pos (le_bytes number) in
    let buff : List ℕ = set buff parse_type_pos kind in
    let buff : List ℕ = set buff value_type_pos (u8 val) in
    let buff : List ℕ = set buff cmd_pos cmd_request in
    if timeout == 0
    then record {
      send_data = set buff cmd_pos cmd_data;
      has_rx = false;
      request_number = number;
      timeout_ms = timeout;
    }
    else record { send_data = buff; has_rx = true; request_number = number; timeout_ms = timeout }

-- _prepare_u32_msg
unfoldable pub prepare_u32_msg : ℕ → ℕ → ℕ → ℕ → ℕ → Msg
unfolding prepare_msg
prepare_u32_msg number val value kind timeout =
    let msg = prepare_msg number val kind timeout in
    if kind == pc_set_uint32
    then record msg { send_data = write_at msg.send_data value_pos (le_bytes value) }
    else msg

-- _prepare_string_msg, over the text that strcpy copies.
unfoldable pub prepare_string_msg : ℕ → ℕ → List ℕ → ℕ → ℕ → Msg
unfolding prepare_msg
prepare_string_msg number val text kind timeout =
    let msg = prepare_msg number val kind timeout in
    if kind == pc_set_string
    then record msg { send_data = write_at msg.send_data value_pos (text ++ (0 ∷ [])) }
    else msg

-- One call of cmdClientRead: the bytes that it delivers, `none` for a negative result; and whether
-- the time has run out when _receive_packet and when _request_msg_process look at the clock next.
pub record ReadEvent : Type 0 where
  pub ret : Option (List ℕ)
  pub expired : Bool
  pub expired_after : Bool

-- How the reading of an answer ends: with an error, with the packet that is copied to the
-- request, or not yet, where no more reads are given.
pub data Received : Type 0 where
  failed : ErrorCode → Received
  packet_read : List ℕ → Received
  waiting : Received

abbrev pub word_at : List ℕ → ℕ → ℕ
word_at buff pos =
    le_word (get_or buff pos 0) (get_or buff (pos + 1) 0) (get_or buff (pos + 2) 0)
      (get_or buff (pos + 3) 0)

-- The loops of _receive_packet and _request_msg_process, over the reads, with the bytes that
-- stand in the buffer.
unfoldable pub receive : ℕ → List ReadEvent → ℕ → List ℕ → Received
receive number [] bytes_read buffer = waiting
receive number (e ∷ es) bytes_read buffer = elim e.ret [
  | none ↦ failed fail
  | some bs ↦
      let buffer' = write_at buffer bytes_read bs in
      let n = bytes_read + length bs in
      let more = receive number es n buffer' in
      let again = receive number es 0 buffer' in
      if e.expired
      then failed timed_out
      else if ltb n packet_size
      then more
      else if word_at buffer' req_number_pos == number
      then packet_read (take packet_size buffer')
      else if e.expired_after
      then failed fail
      else again
]

-- _request_msg_process. `sent` tells whether cmdClientSend has sent the whole packet; a request
-- without a buffer ends at once with no packet.
unfoldable pub request_msg_process : Bool → Msg → List ReadEvent → List ℕ → Option Received
unfolding receive
request_msg_process sent msg es buffer =
    if not sent
    then some (failed fail)
    else if not msg.has_rx
    then none
    else some (receive msg.request_number es 0 buffer)

-- The checks of an answer that all requests share: number, command, type and parameter.
unfoldable pub matches : ℕ → ℕ → ℕ → List ℕ → Bool
matches number kind val rx =
    (word_at rx req_number_pos == number)
    && ((cmd_answer == get_or rx cmd_pos 0)
        && ((kind == get_or rx parse_type_pos 0) && (get_or rx value_type_pos 0 == val)))

-- What cmdClientGetValue gives: its result, the value stored through the pointer, and the client's
-- own parameters.
pub record Got (A : Type 0) : Type 0 where
  pub result : ErrorCode
  pub value : Option A
  pub store : Store

-- cmdClientGetString behind a result of ERROR_CODE_OK; `str_len` is the size of the buffer `str`.
unfoldable pub get_string_answer : ℕ → ℕ → ℕ → List ℕ → Store → Got (List ℕ)
unfolding matches
get_string_answer val str_len number rx s =
    let refused : Got (List ℕ) = record { result = fail; value = none; store = s } in
    let resp_str = drop value_pos rx in
    let (done, store) = set_string val resp_str s in
    if not (matches number pc_get_string val rx)
    then refused
    else if not done
    then refused
    else record {
      result = ok;
      value = if ltb (length (c_string resp_str)) str_len then some (c_string resp_str) else none;
      store = store;
    }

-- cmdClientSetValue behind its queue and semaphore. `msg->result < 0` holds of no error code, so
-- the answer is looked at in every case.
unfoldable pub set_value_answer : ℕ → ℕ → List ℕ → ErrorCode
unfolding matches
set_value_answer val number rx =
    if not (matches number pc_set_uint32 val rx)
    then fail
    else if get_or rx value_pos 0 == negative_resp
    then fail
    else if get_or rx value_pos 0 == positive_resp
    then ok
    else fail

module _ (project : List Parameter) where
  -- cmdClientGetValue behind a result of ERROR_CODE_OK.
  unfoldable pub get_value_answer : ℕ → ℕ → List ℕ → Store → Got ℕ
  unfolding matches
  get_value_answer val number rx s =
      let refused : Got ℕ = record { result = fail; value = none; store = s } in
      let return_value = word_at rx value_pos in
      let (done, store) = set_value project val return_value s in
      if not (matches number pc_get_uint32 val rx)
      then refused
      else if not done
      then refused
      else record { result = ok; value = some return_value; store = store }

  -- cmdClientGetValue: whether the queue and the semaphore are obtained, and how the request task
  -- ends. `none` is the access to the missing buffer of a request with no timeout, and a request
  -- whose answer is still awaited.
  unfoldable pub get_value_request : Bool → Bool → Option Received → ℕ → ℕ → Store → Option (Got ℕ)
  unfolding get_value_answer
  get_value_request queued taken ended val number s =
      let refused =
        λ (e : ErrorCode). let r : Got ℕ = record { result = e; value = none; store = s } in r in
      if leb (last_value project) val
      then some (refused fail)
      else if not queued
      then some (refused fail)
      else if not taken
      then some (refused fail)
      else elim ended [
        | none ↦ none
        | some (failed e) ↦ some (refused e)
        | some (packet_read rx) ↦ some (get_value_answer val number rx s)
        | some waiting ↦ none
      ]

  -- cmdClientSetValue. A refused argument gives `false`, which is the number of ERROR_CODE_OK.
  unfoldable pub set_value_request : Bool → Bool → List ℕ → ℕ → ℕ → ℕ → Store → ErrorCode × Store
  unfolding set_value_answer
  set_value_request queued taken rx val value number s =
      let (done, store) = set_value project val value s in
      if leb (last_value project) val
      then (ok, s)
      else if not done
      then (ok, s)
      else if not queued
      then (fail, store)
      else if not taken
      then (fail, store)
      else (set_value_answer val number rx, store)
