-- ===== src/MongooseDrv/HttpParametersClient/Exchange.antt =====
-- A value that the client sends reaches the server.
use hq_components.Prelude.{
  Bool, List, Option, [], ap, length, refl, some, sym, true, ℕ, ◌++◌, ◌<◌, ◌>>=◌, ◌∙◌, ◌∷◌, ◌≡◌,
  ◌≤◌,
}
use hq_components.Backend.Parameters.{
  Parameter, Store, last_value, get_value, get_max_value, set_value,
}
use hq_components.Backend.Parameters.Values.{IsStore, get_value-set_value}
use hq_components.MongooseDrv.Text.{bytes, PrintsLong}
use hq_components.MongooseDrv.HttpServer.{
  post, method_name, get_method, Response, Callback, add_api_token, ApiToken, Server, Message,
  token_pattern, dispatch, on_http_msg,
}
use hq_components.MongooseDrv.HttpServer.Routing.{Globs, Compares, get_method_lem}
use hq_components.MongooseDrv.ParametersApi.{answer, parse_cb, str_parse_cb, ping_parse_cb, init}
use hq_components.MongooseDrv.ParametersApi.Numbers.{IsNamed, post-get, set_value-done}
use hq_components.Backend.Frame.{ok}
use hq_components.MongooseDrv.HttpParametersClient.{
  http_msg, u32_param, request, no_text, hostname, post_message, post_body, set_u32_value,
}
use hq_components.MongooseDrv.HttpParametersClient.Urls.{param_name, u32_uri_lem, request_url_lem}
use hq_components.MongooseDrv.HttpParametersClient.Results.{set_u32_value_lem}

module _ (mg_match : List ℕ → List ℕ → Bool) (mg_vcasecmp : List ℕ → List ℕ → ℕ) where
  dispatch-first :
      (token : ApiToken Store) (tokens : List (ApiToken Store)) (hm : Message) (s : Store)
      → mg_match hm.uri (token_pattern token.api_name) ≡ true
      → dispatch mg_vcasecmp mg_match (token ∷ tokens) hm s
        ≡ token.cb hm.uri hm.body (get_method mg_vcasecmp hm.method) s
  unfolding dispatch
  dispatch-first token tokens hm s h = rw h refl

  on_http_msg-api :
      (now : ℕ) (hm : Message) (srv : Server Store) (s t : Store) (a : Response)
      → mg_match hm.uri (bytes "/api/#") ≡ true
      → dispatch mg_vcasecmp mg_match srv.tokens hm s ≡ some (a, t)
      → on_http_msg mg_vcasecmp mg_match now hm srv s
        ≡ some (a, (record srv { last_msg_time = now }, t))
  unfolding on_http_msg
  on_http_msg-api now hm srv s t a m d = rw (m, d) refl

  -- A message whose URI begins with that of the numbers, at a server where their token is first.
  on_http_msg-u32 :
      (now : ℕ) (name body : List ℕ) (cb : Callback Store) (tokens : List (ApiToken Store))
      (last : ℕ) (s t : Store) (a : Response)
      → Globs mg_match
      → Compares mg_vcasecmp
      → cb (bytes "/api/parameter_u32/" ++ name) body post s ≡ some (a, t)
      → let token : ApiToken Store = record { api_name = bytes "parameter_u32"; cb = cb } in
        let srv : Server Store = record { tokens = token ∷ tokens; last_msg_time = last } in
        on_http_msg mg_vcasecmp mg_match now
          (record { method = bytes "POST"; uri = bytes "/api/parameter_u32/" ++ name; body = body })
          srv
          s
        ≡ some (a, (record srv { last_msg_time = now }, t))
  unfolding token_pattern method_name
  on_http_msg-u32 now name body cb tokens last s t a g c h =
      let token : ApiToken Store = record { api_name = bytes "parameter_u32"; cb = cb } in
      let uri = bytes "/api/parameter_u32/" ++ name in
      let hm : Message = record { method = bytes "POST"; uri = uri; body = body } in
      let srv : Server Store = record { tokens = token ∷ tokens; last_msg_time = last } in
      on_http_msg-api now hm srv s t a
        (g.prefix (bytes "/api/") (bytes "parameter_u32/" ++ name) refl)
        (dispatch-first token tokens hm s (g.prefix (bytes "/api/parameter_u32") (47 ∷ name) refl)
          ∙ ap (λ m. cb uri body m s) (get_method_lem mg_vcasecmp c).0
          ∙ h)

  module _ (mg_url_uri : List ℕ → List ℕ) (print : ℕ → List ℕ) (project : List Parameter) where
    -- What the client's POST of a value is answered by a server on which ParametersAPI_Init ran.
    abbrev pub served : ℕ → ℕ → ℕ → Store → Option (Response × Store)
    served now i value s = do
      srv ← init mg_match project print (record { tokens = []; last_msg_time = 0 })
      (a, (srv', t)) ←
          on_http_msg mg_vcasecmp mg_match now
            (post_message project print mg_url_uri (request u32_param post i value no_text)) srv s
      some (a, t)

    -- What ParametersAPI_Init registers.
    abbrev other_tokens : List (ApiToken Store)
    other_tokens =
        record { api_name = bytes "parameter_str"; cb = str_parse_cb mg_match }
        ∷ record { api_name = bytes "ping"; cb = ping_parse_cb }
        ∷ []

    abbrev registered : Server Store
    registered = record {
      tokens =
          record { api_name = bytes "parameter_u32"; cb = parse_cb mg_match project print }
          ∷ record { api_name = bytes "parameter_str"; cb = str_parse_cb mg_match }
          ∷ record { api_name = bytes "ping"; cb = ping_parse_cb }
          ∷ [];
      last_msg_time = 0;
    }

    init-registered :
        init mg_match project print (record { tokens = []; last_msg_time = 0 }) ≡ some registered
    unfolding init add_api_token
    init-registered = refl

    message-of_post :
        (i value : ℕ)
        → i < last_value project
        → length (param_name project i) ≤ 107
        → ((path : List ℕ) → mg_url_uri (hostname ++ (47 ∷ path)) ≡ 47 ∷ path)
        → post_message project print mg_url_uri (request u32_param post i value no_text) ≡ record {
          method = bytes "POST";
          uri = bytes "/api/parameter_u32/" ++ param_name project i;
          body = print value;
        }
    unfolding post_message post_body
    message-of_post i value k l u =
        let name = param_name project i in
        let uri =
          ap mg_url_uri (request_url_lem project i value k l)
          ∙ u (bytes "api/parameter_u32/" ++ name) in
        ap (λ p. record { method = bytes "POST"; uri = p; body = print value }) uri

    -- The client sets a parameter to a value below 2^31 and within its range, whose name has at most
    -- 107 bytes: the server it is sent to stores the value and answers 200, and with that answer the
    -- client's call gives ok, with the value in its own store.
    pub served-set_u32_value :
        (now i value : ℕ) (client server : Store)
        → Globs mg_match
        → Compares mg_vcasecmp
        → PrintsLong print
        → ((path : List ℕ) → mg_url_uri (hostname ++ (47 ∷ path)) ≡ 47 ∷ path)
        → IsNamed project i
        → length (param_name project i) ≤ 107
        → IsStore project client
        → IsStore project server
        → value < 2147483648
        → value ≤ get_max_value project i
        → let a = answer 200 (bytes "OK") in
          let client' = (set_value project i value client).1 in
          let server' = (set_value project i value server).1 in
          (served now i value server ≡ some (a, server'))
          × (set_u32_value project i value true (http_msg a ∷ []) client ≡ some (ok, client'))
          × (get_value project i server' ≡ value)
          × (get_value project i client' ≡ value)
    served-set_u32_value now i value client server g c p u n l vc vs small most =
        let a = answer 200 (bytes "OK") in
        let server' = (set_value project i value server).1 in
        let stored = (post-get mg_match g project print p i value [] server n vs small most).0 in
        let named = u32_uri_lem project i n.known l in
        let reply =
          on_http_msg-u32 now (param_name project i) (print value) (parse_cb mg_match project print)
            (other_tokens) 0 server server' a g c (rw (sym named) stored) in
        (
          rw (init-registered, message-of_post i value n.known l u, reply) refl,
          set_u32_value_lem project i value (http_msg a ∷ []) client
              (set_value-done project i value client n.known vc most),
          (get_value-set_value project i value server vs
              (set_value-done project i value server n.known vs most)).0,
          (get_value-set_value project i value client vc
              (set_value-done project i value client n.known vc most)).0,
        )
