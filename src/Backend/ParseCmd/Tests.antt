-- ===== src/Backend/ParseCmd/Tests.antt =====
-- Runs of the server's parser, and its theorems at concrete inputs.
use hq_components.Backend.Frame.{packet, cmd_answer, pc_get_uint32}
use hq_components.Prelude.{
  List, Option, [], arith, le_bytes, none, refl, replicate, some, ℕ, ◌++◌, ◌∷◌, ◌≡◌,
}
use hq_components.Backend.Parameters.{get_value, set_value}
use hq_components.Backend.ParseCmd.{
  Server, parse_server, parse_server_buffer, serve_get_uint32, serve_set_uint32, prepare_answer,
}
use hq_components.Backend.ParseCmd.Serve.{
  Request, ask, tell, read_value, write_value, encode, serve, parse_server-encode,
}
use hq_components.Backend.ParseCmd.Stream.{
  stream, serve_all, parse_server_buffer-stream, parse_server_buffer-ones,
}

abbrev server : Server
server = record {
  store = record { values = 1 ∷ 0 ∷ 30 ∷ 1 ∷ 10 ∷ []; strings = replicate 1 (replicate 49 0) };
  sent = [];
}

abbrev set_minutes : Request
set_minutes = record { number = 7; mode = tell; call = write_value 2 45 }

abbrev get_minutes : Request
get_minutes = record { number = 8; mode = ask; call = read_value 2 }

abbrev sent_by : Option Server → Option (List (List ℕ))
sent_by none = none
sent_by (some s) = some s.sent

-- A write that is told, then a read: one packet is answered, with the new value.
set_then_get :
    sent_by
      (parse_server_buffer [] (stream (set_minutes ∷ get_minutes ∷ []) (9 ∷ 9 ∷ [])) 128 server)
    ≡ some (packet 8 cmd_answer pc_get_uint32 2 (le_bytes 45) ∷ [])
unfolding parse_server_buffer parse_server serve_get_uint32 serve_set_uint32 prepare_answer
    get_value set_value
set_then_get = refl

parse_server-encode_example :
    parse_server [] (encode get_minutes ++ (5 ∷ [])) server ≡ some (serve [] get_minutes server)
parse_server-encode_example = parse_server-encode [] get_minutes (5 ∷ []) server (omega arith, tt)

parse_server_buffer-stream_example :
    parse_server_buffer [] (stream (set_minutes ∷ get_minutes ∷ []) (9 ∷ 9 ∷ [])) 128 server
    ≡ some (serve_all [] (set_minutes ∷ get_minutes ∷ []) server)
parse_server_buffer-stream_example =
    parse_server_buffer-stream [] set_minutes (get_minutes ∷ []) (9 ∷ 9 ∷ []) server
      ((omega arith, omega arith), ((omega arith, tt), tt))

parse_server_buffer-ones_test : parse_server_buffer [] (replicate 256 1) 256 server ≡ none
parse_server_buffer-ones_test = parse_server_buffer-ones [] 255 server
