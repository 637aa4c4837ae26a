-- ===== src/MongooseDrv/HttpServer.antt =====
-- mongoose_drv/http_server.c: the HTTP server and the parts of the interface that register with it.
-- `mg_match` and `mg_vcasecmp` are those of mongoose: mg_http_match_uri matches the URI of a message,
-- and a comparison of two equal texts gives 0. `S` is what the callbacks work on; `none` is an
-- assertion that fails. No callback sets the headers of its answer.
pub mod Routing
mod Tests
use hq_components.Prelude.{
  Bool, List, Option, [], if◌then◌else◌, length, ltb, none, not, some, sub32, take, ℕ, ◌&&◌, ◌++◌,
  ◌==◌, ◌∷◌, ◌>>=◌,
}
use hq_components.MongooseDrv.Text.{bytes}

-- HTTPServerMethod_t
pub data Method : Type 0 where
  put get post delete patch unhallowed : Method

-- HTTPServerResponse_t
pub record Response : Type 0 where
  pub code : ℕ
  pub msg : List ℕ

-- HTTPServerCb_t, given the URI and the body.
abbrev pub Callback : Type 0 → Type 0
Callback S = List ℕ → List ℕ → Method → S → Option (Response × S)

-- HTTPServerApiToken_t
pub record ApiToken (S : Type 0) : Type 0 where
  pub api_name : List ℕ
  pub cb : Callback S

-- What the server reads of struct mg_http_message.
pub record Message : Type 0 where
  pub method : List ℕ
  pub uri : List ℕ
  pub body : List ℕ

-- ARRAY_SIZE( tokens )
abbrev pub tokens_capacity : ℕ
tokens_capacity = 16

-- `tokens`, as far as it is filled, and `last_msg_time`.
pub record Server (S : Type 0) : Type 0 where
  pub tokens : List (ApiToken S)
  pub last_msg_time : ℕ

-- HTTPServer_AddApiToken
unfoldable pub add_api_token : {S : Type 0} → ApiToken S → Server S → Option (Server S)
add_api_token token srv =
    if ltb (length srv.tokens) tokens_capacity
    then some (record srv { tokens = srv.tokens ++ (token ∷ []) })
    else none

-- HTTPServer_IsClientConnected
unfoldable pub is_client_connected : {S : Type 0} → (ℕ → ℕ) → ℕ → Server S → Bool
is_client_connected st2ms now srv =
    not (srv.last_msg_time == 0) && ltb (st2ms (sub32 now srv.last_msg_time)) 5000

-- method_names
unfoldable pub method_name : Method → List ℕ
method_name put = bytes "PUT"
method_name get = bytes "GET"
method_name post = bytes "POST"
method_name delete = bytes "DELETE"
method_name patch = bytes "PATCH"
method_name unhallowed = bytes "UNHALLOWED"

-- The answer of `mg_http_reply( c, 400, "", "FAIL" )`.
abbrev pub fail : Response
fail = record { code = 400; msg = bytes "FAIL" }

-- The pattern of a token, as mg_snprintf leaves it in a buffer of 128 bytes.
unfoldable pub token_pattern : List ℕ → List ℕ
token_pattern api_name = take 127 (bytes "/api/" ++ (api_name ++ bytes "#"))

module _ (mg_vcasecmp : List ℕ → List ℕ → ℕ) where
  -- The loop of _get_method.
  unfoldable pub get_method_from : List Method → List ℕ → Method
  unfolding method_name
  get_method_from [] name = unhallowed
  get_method_from (m ∷ ms) name =
      let rest = get_method_from ms name in
      if mg_vcasecmp name (method_name m) == 0 then m else rest

  -- _get_method
  unfoldable pub get_method : List ℕ → Method
  unfolding get_method_from
  get_method name = get_method_from (put ∷ get ∷ post ∷ delete ∷ patch ∷ unhallowed ∷ []) name

  module _ (mg_match : List ℕ → List ℕ → Bool) where
    -- The loop of fn over the tokens.
    unfoldable pub dispatch : {S : Type 0} → List (ApiToken S) → Message → S → Option (Response × S)
    dispatch [] hm s = some (fail, s)
    dispatch (token ∷ tokens) hm s =
        let rest = dispatch tokens hm s in
        if mg_match hm.uri (token_pattern token.api_name)
        then token.cb hm.uri hm.body (get_method hm.method) s
        else rest

    -- fn at MG_EV_HTTP_MSG: the answer, with the server and what the callback leaves.
    unfoldable pub on_http_msg :
        {S : Type 0} → ℕ → Message → Server S → S → Option (Response × (Server S × S))
    unfolding dispatch
    on_http_msg now hm srv s = do
      (response, s') ←
          if mg_match hm.uri (bytes "/api/#") then dispatch srv.tokens hm s else some (fail, s)
      some (response, (record srv { last_msg_time = now }, s'))
