-- ===== src/MongooseDrv/HttpServer/Tests.antt =====
-- Registering, and who is connected.
use hq_components.Prelude.{[], none, refl, replicate, some, true, ℕ, ◌*◌, ◌∷◌, ◌≡◌}
use hq_components.MongooseDrv.HttpServer.{ApiToken, Server, add_api_token, is_client_connected}

abbrev token : ApiToken ℕ
token = record {
  api_name = 120 ∷ [];
  cb = λ uri body m s. some (record { code = 200; msg = body }, s);
}

abbrev full : Server ℕ
full = record { tokens = replicate 16 token; last_msg_time = 5 }

-- The seventeenth token fails an assertion.
no_room : add_api_token token full ≡ none
unfolding add_api_token
no_room = refl

-- A client counts as connected for five seconds, also over the end of the clock.
still_connected :
    is_client_connected (λ t. t * 10) 4 (record full { last_msg_time = 4294967290 }) ≡ true
unfolding is_client_connected
still_connected = refl
