-- ===== src/MongooseDrv/ParametersApi.antt =====
-- mongoose_drv/parameters_api.c: the parameters and their texts over HTTP.
-- `print` is what sprintf writes for "%ld" and "%d". The answers are the bytes written to
-- response_buffer, the closing 0 left out; a body is never absent in what http_server.c passes on.
pub mod Numbers
pub mod Strings
mod Tests
use hq_components.Prelude.{
  Bool, List, Option, if◌then◌else◌, length, ltb, none, not, set, some, suc, take, zero, ℕ, ◌++◌,
  ◌+◌, ◌>>=◌,
}
use hq_components.Backend.Parameters.{
  Parameter, Store, last_value, str_last_value, parse_cmd_max_string_len, get_name, get_string_name,
  get_value, set_value, get_string, set_string, c_string,
}
use hq_components.MongooseDrv.Text.{bytes, str2int}
use hq_components.MongooseDrv.HttpServer.{
  Method, put, get, post, delete, patch, unhallowed, Response, ApiToken, Server, add_api_token,
}
use Prim.Native.String.{String}

-- sizeof( response_buffer )
abbrev pub response_size : ℕ
response_size = 128

abbrev pub answer : ℕ → List ℕ → Response
answer code msg = record { code = code; msg = msg }

-- What snprintf keeps of an URI and a name in `buffer`: the bound is one less than its size.
abbrev pub uri_of : List ℕ → Option String → List ℕ
uri_of api none = take 126 api
uri_of api (some name) = take 126 (api ++ bytes name)

-- What strncpy leaves in the zeroed `str`, up to its 0: the body, cut at its first 0.
abbrev pub post_text : List ℕ → List ℕ
post_text body = c_string body

-- _ping_parse_cb
unfoldable pub ping_parse_cb : List ℕ → List ℕ → Method → Store → Option (Response × Store)
ping_parse_cb uri body method s = some (answer 200 (bytes "PONG"), s)

-- The URI of a text.
unfoldable pub str_uri : ℕ → List ℕ
str_uri i = uri_of (bytes "/api/parameter_str/") (get_string_name i)

-- The body of the loop of _parameters_str_parse_cb at the text `i`.
unfoldable pub str_request : ℕ → List ℕ → Method → Store → Option (Response × Store)
str_request i body get s = do text ← get_string i response_size s; some (answer 200 text, s)
str_request i body post s =
    if ltb (length body) parse_cmd_max_string_len
    then (let (done, t) = set_string i body s in
        if done
        then some (answer 200 (bytes "OK"), t)
        else some (answer 400 (bytes "Fail set value (" ++ (post_text body ++ bytes ")")), t))
    else none
str_request i body _ s = some (answer 405 (bytes "Method not allowed"), s)

-- What sprintf writes for "Parameter not exist %.*s": the URI up to its first 0.
unfoldable pub not_exist_text : List ℕ → List ℕ
not_exist_text uri = bytes "Parameter not exist " ++ c_string uri

-- The answer of _parameters_str_parse_cb behind its loop; a text that does not fit into
-- response_buffer with its closing 0 goes over its end.
unfoldable pub not_exist : List ℕ → Store → Option (Response × Store)
unfolding not_exist_text
not_exist uri s =
    if ltb (length (not_exist_text uri)) response_size
    then some (answer 400 (not_exist_text uri), s)
    else none

-- The URI of a parameter.
unfoldable pub u32_uri : List Parameter → ℕ → List ℕ
u32_uri project i = uri_of (bytes "/api/parameter_u32/") (get_name project i)

module _ (project : List Parameter) (print : ℕ → List ℕ) where
  -- The body of the loop of _parameters_parse_cb at the parameter `i`.
  unfoldable pub u32_request : ℕ → List ℕ → Method → Store → Option (Response × Store)
  u32_request i body get s = some (answer 200 (print (get_value project i s)), s)
  u32_request i body post s =
      let value = str2int body in
      let (done, t) = set_value project i value s in
      if done
      then some (answer 200 (bytes "OK"), t)
      else some (answer 400 (bytes "Fail set value " ++ print value), t)
  u32_request i body _ s = some (answer 405 (bytes "Method not allowed"), s)

module _ (mg_match : List ℕ → List ℕ → Bool) where
  -- The first of `n` indices from `i` on whose URI matches.
  unfoldable pub find_uri : (ℕ → List ℕ) → List ℕ → ℕ → ℕ → Option ℕ
  find_uri uris uri zero i = none
  find_uri uris uri (suc n) i =
      let rest = find_uri uris uri n (i + 1) in if mg_match uri (uris i) then some i else rest

  -- _parameters_str_parse_cb
  unfoldable pub str_parse_cb : List ℕ → List ℕ → Method → Store → Option (Response × Store)
  unfolding find_uri str_uri str_request not_exist
  str_parse_cb uri body method s = elim (find_uri str_uri uri str_last_value 0) [
    | none ↦ not_exist uri s
    | some i ↦ str_request i body method s
  ]

  module _ (project : List Parameter) (print : ℕ → List ℕ) where
    -- _parameters_parse_cb
    unfoldable pub parse_cb : List ℕ → List ℕ → Method → Store → Option (Response × Store)
    unfolding find_uri u32_uri u32_request
    parse_cb uri body method s = elim (find_uri (u32_uri project) uri (last_value project) 0) [
      | none ↦ some (answer 400 (bytes "Parameter not exist"), s)
      | some i ↦ u32_request project print i body method s
    ]

    -- ParametersAPI_Init
    unfoldable pub init : Server Store → Option (Server Store)
    unfolding add_api_token
    init srv = do
      srv₁ ← add_api_token (record { api_name = bytes "parameter_u32"; cb = parse_cb }) srv
      srv₂ ← add_api_token (record { api_name = bytes "parameter_str"; cb = str_parse_cb }) srv₁
      add_api_token (record { api_name = bytes "ping"; cb = ping_parse_cb }) srv₂
