-- ===== src/Backend/ParseCmd.antt =====
-- backend/parse_cmd.c: the server's side of the command protocol.
-- A pointer into the receive buffer is the list of the bytes from there to the end of the array.
-- `none` is a read behind the end of that array, which C leaves undefined. What a packet does is
-- the new parameter store and the packets that it hands to cmdServerSendData, in order.
pub mod Serve
pub mod Stream
mod Tests
use hq_components.Prelude.{
  ℕ, zero, suc, ◌+◌, ◌-◌, Bool, true, false, ◌||◌, not, List, [], ◌∷◌, ◌++◌, Option, none, some,
  get_elem?, set, drop, replicate, write_at, ltb, leb, ◌==◌, if◌then◌else◌, ◌>>=◌, le_bytes,
  le_word,
}
use hq_components.Backend.Frame.{
  cmd_request, cmd_answer, cmd_data, positive_resp, negative_resp, len_pos, req_number_pos, cmd_pos,
  parse_type_pos, value_type_pos, value_pos, packet_size, pc_set_uint32, pc_get_uint32,
  pc_set_string, pc_get_string,
}
use hq_components.Backend.Parameters.{
  Parameter, Store, get_value, set_value, get_string, set_string, str_last_value,
}

pub record Server : Type 0 where
  pub store : Store
  pub sent : List (List ℕ)

-- `memcpy( &word, &buff[pos], 4 )`
abbrev pub read_word : List ℕ → ℕ → Option ℕ
read_word buff pos = do
  a ← get_elem? buff pos
  b ← get_elem? buff (pos + 1)
  c ← get_elem? buff (pos + 2)
  d ← get_elem? buff (pos + 3)
  some (le_word a b c d)

-- The text at a pointer has its closing 0 inside the array.
unfoldable pub is_closed : List ℕ → Bool
is_closed [] = false
is_closed (c ∷ cs) = c == 0 || is_closed cs

-- _prepare_answer, on the sendBuff that memset has cleared.
unfoldable pub prepare_answer : ℕ → ℕ → ℕ → List ℕ
prepare_answer request_number kind val =
    let buff : List ℕ = set (replicate packet_size 0) len_pos packet_size in
    let buff : List ℕ = write_at buff req_number_pos (le_bytes request_number) in
    let buff : List ℕ = set buff cmd_pos cmd_answer in
    let buff : List ℕ = set buff parse_type_pos kind in set buff value_type_pos val

abbrev pub resp : Bool → ℕ
resp true = positive_resp
resp false = negative_resp

-- cmdServerSendData, as far as the parser sees it.
abbrev pub send_data : List ℕ → Server → Server
send_data frame s = record s { sent = s.sent ++ (frame ∷ []) }

-- The answer to a write is sent unless the packet was CMD_DATA.
abbrev pub send_unless_data : ℕ → List ℕ → Server → Server
send_unless_data cmd frame s = if cmd == cmd_data then s else send_data frame s

-- case PC_SET_STRING. strlen runs only for a known parameter.
unfoldable pub serve_set_string : List ℕ → ℕ → ℕ → Server → Option Server
serve_set_string buff cmd request_number s = do
  val ← get_elem? buff value_type_pos
  let text = drop value_pos buff
  let (done, store) = set_string val text s.store
  let answer = prepare_answer request_number pc_set_string val
  if leb str_last_value val || is_closed text
      then some
          (send_unless_data cmd (set answer value_pos (resp done)) (record s { store = store }))
      else none

-- case PC_GET_STRING
unfoldable pub serve_get_string : List ℕ → ℕ → Server → Option Server
serve_get_string buff request_number s = do
  val ← get_elem? buff value_type_pos
  let answer = prepare_answer request_number pc_get_string val
  let filled : List ℕ = elim (get_string val (packet_size - value_pos) s.store) [
    | none ↦ answer
    | some text ↦ write_at answer value_pos (text ++ (0 ∷ []))
  ]
  some (send_data filled s)

module _ (project : List Parameter) where
  -- case PC_GET_UINT32
  unfoldable pub serve_get_uint32 : List ℕ → ℕ → Server → Option Server
  serve_get_uint32 buff request_number s = do
    val ← get_elem? buff value_type_pos
    let value : ℕ = get_value project val s.store
    let answer = prepare_answer request_number pc_get_uint32 val
    some (send_data (write_at answer value_pos (le_bytes value)) s)

  -- case PC_SET_UINT32
  unfoldable pub serve_set_uint32 : List ℕ → ℕ → ℕ → Server → Option Server
  serve_set_uint32 buff cmd request_number s = do
    val ← get_elem? buff value_type_pos
    value ← read_word buff value_pos
    let (done, store) = set_value project val value s.store
    let answer = prepare_answer request_number pc_set_uint32 val
    some (send_unless_data cmd (set answer value_pos (resp done)) (record s { store = store }))

  -- The switch over the request's type: a keep-alive and an unknown type do nothing.
  unfoldable pub dispatch : List ℕ → ℕ → ℕ → ℕ → Server → Option Server
  dispatch buff kind cmd request_number s =
      if kind == pc_get_uint32
      then serve_get_uint32 buff request_number s
      else if kind == pc_set_uint32
      then serve_set_uint32 buff cmd request_number s
      else if kind == pc_set_string
      then serve_set_string buff cmd request_number s
      else if kind == pc_get_string
      then serve_get_string buff request_number s
      else some s

  -- _parse_server. CMD_ANSWER, CMD_COMMAND and anything else are only logged.
  unfoldable pub parse_server : List ℕ → Server → Option Server
  unfolding dispatch
  parse_server buff s = do
    request_number ← read_word buff req_number_pos
    cmd ← get_elem? buff cmd_pos
    kind ← get_elem? buff parse_type_pos
    if cmd == cmd_request || cmd == cmd_data
        then dispatch buff kind cmd request_number s
        else some s

  -- The loop of parse_server_buffer. Each round that goes on takes at least one byte, so the fuel
  -- `len + 1` is never used up.
  unfoldable pub parse_loop : ℕ → List ℕ → ℕ → ℕ → Server → Option Server
  parse_loop zero buff parsed_len len s = none
  parse_loop (suc fuel) buff parsed_len len s = do
    frame_len ← get_elem? buff parsed_len
    if ltb len frame_len || frame_len == 0
        then some s
        else parse_server (drop parsed_len buff) s >>= λ s'.
            let rest = parse_loop fuel buff (parsed_len + frame_len) (len - frame_len) s' in
            if ltb 0 (len - frame_len) then rest else some s'

  unfoldable pub parse_server_buffer : List ℕ → ℕ → Server → Option Server
  unfolding parse_loop
  parse_server_buffer buff len s = parse_loop (len + 1) buff 0 len s
