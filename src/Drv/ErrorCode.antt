-- ===== src/Drv/ErrorCode.antt =====
-- drv/error_code.c: the names of the error codes, by their numbers in error_code_t.
use hq_components.Prelude.{
  List, Option, [], get_or, if◌then◌else◌, ltb, none, refl, some, ℕ, ◌∷◌, ◌≡◌,
}
use hq_components.MongooseDrv.Text.{bytes}

-- error_codes; an entry that is not written is NULL.
abbrev pub error_codes : List (Option (List ℕ))
error_codes =
    some (bytes "OK")
    ∷ some (bytes "NO ACK")
    ∷ some (bytes "FAIL")
    ∷ none
    ∷ some (bytes "ERROR PARSING")
    ∷ some (bytes "UNKNOWN_MQTT_TOPIC_TYPE")
    ∷ some (bytes "QUEUE_IS_FULL")
    ∷ []

-- ErrorCode_GetStr
unfoldable pub get_str : ℕ → Option (List ℕ)
get_str code = if ltb code 7 then get_or error_codes code none else some (bytes "UNKNOWN")

-- ERROR_CODE_TIMEOUT has no name.
timeout_has_no_name : get_str 3 ≡ none
unfolding get_str
timeout_has_no_name = refl
