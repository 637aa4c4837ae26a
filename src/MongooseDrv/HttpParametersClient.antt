-- ===== src/MongooseDrv/HttpParametersClient.antt =====
-- mongoose_drv/http_parameters_client.c: the client of the parameters over HTTP.
-- An exchange is the events that mongoose reports for a request until it closes the connection; one
-- that is left out, and a poll before the connection's time is up, changes nothing. `store` is the
-- parameters of the client's device; `none` is an assertion that fails. `accepted` is whether
-- xQueueSend takes the request.
pub mod Results
pub mod Urls
pub mod Exchange
pub mod Task
pub mod Turns
mod Tests
use hq_components.Prelude.{
  Bool, List, Option, [], if◌then◌else◌, length, ltb, none, replicate, some, take, write_at, ℕ,
  ◌&&◌, ◌++◌, ◌==◌, ◌∷◌, ◌>>=◌,
}
use hq_components.Backend.Parameters.{
  Parameter, Store, parse_cmd_max_string_len, get_name, get_string_name, set_value, set_string,
  c_string,
}
use hq_components.Backend.Frame.{ErrorCode, ok, fail, timed_out, queue_is_full}
use hq_components.MongooseDrv.Text.{bytes, str2int}
use hq_components.MongooseDrv.HttpServer.{Method, get, post, method_name, Response, Message}
use Prim.Native.String.{String}

-- param_type_t
pub data ParamType : Type 0 where
  u32_param string_param ping : ParamType

-- http_request_t: of the union, `value` and `text` are the two fields.
pub record Request : Type 0 where
  pub type : ParamType
  pub method : Method
  pub parameter : ℕ
  pub value : ℕ
  pub text : List ℕ
  pub code : ℕ

-- What fn is called with.
pub data Event : Type 0 where
  expired : Event  -- MG_EV_POLL after the time to connect
  http_msg : Response → Event
  error : Event

-- The name that follows the path in an URL.
abbrev pub name_bytes : Option String → List ℕ
name_bytes none = []
name_bytes (some name) = bytes name

-- HOSTNAME
abbrev pub hostname : List ℕ
hostname = bytes "http://192.168.4.1:80"

abbrev pub no_text : List ℕ
no_text = replicate parse_cmd_max_string_len 0

-- A request that starts with the fields that its initialiser does not name at 0.
abbrev pub request : ParamType → Method → ℕ → ℕ → List ℕ → Request
request type method parameter value text = record {
  type = type;
  method = method;
  parameter = parameter;
  value = value;
  text = text;
  code = 0;
}

module _ (project : List Parameter) where
  -- _set_request_url, in a buffer of 256 bytes less one.
  unfoldable pub request_url : Request → List ℕ
  request_url r = take 254 (
      hostname ++ (elim r.type [
        | u32_param ↦ bytes "/api/parameter_u32/" ++ name_bytes (get_name project r.parameter)
        | string_param ↦ bytes "/api/parameter_str/" ++ name_bytes (get_string_name r.parameter)
        | ping ↦ bytes "/api/ping"
      ]))

  -- fn, where mongoose tells of a failure or of the answer.
  unfoldable pub on_event : Event → Request × Store → Option (Request × Store)
  on_event expired (r, s) = some (record r { code = 504 }, s)
  on_event error (r, s) = some (record r { code = 500 }, s)
  on_event (http_msg answer) (r, s) =
      if answer.code == 200
      then elim r.method [
        | get ↦ elim r.type [
          | u32_param ↦
              (let value = str2int answer.msg in
                let (done, t) = set_value project r.parameter value s in
                if done then some (record r { value = value; code = 200 }, t) else none)
          | string_param ↦
              (let text = write_at r.text 0 answer.msg in
                let (done, t) = set_string r.parameter text s in
                if ltb (length answer.msg) parse_cmd_max_string_len && done
                then some (record r { text = text; code = 200 }, t)
                else none)
          | ping ↦ some (record r { code = 200 }, s)
        ]
        | _ ↦ some (record r { code = 200 }, s)
      ]
      else some (record r { code = answer.code }, s)

  unfoldable pub run : List Event → Request × Store → Option (Request × Store)
  unfolding on_event
  run [] c = some c
  run (e ∷ es) c = do c' ← on_event e c; run es c'

  -- The result of _send_request.
  unfoldable pub result_of : Request → ErrorCode
  result_of r = if r.code == 200 then ok else fail

  -- _send_request that waits for the answer: the request is the one that fn works on.
  unfoldable pub send_request :
      Bool → List Event → Request → Store → Option (ErrorCode × (Request × Store))
  unfolding run result_of
  send_request accepted es r s =
      if accepted
      then (do (r', s') ← run es (r, s); some (result_of r', (r', s')))
      else some (queue_is_full, (r, s))

  -- _send_request that does not wait: fn works on a copy, and the caller looks at its own.
  unfoldable pub send_copy : Bool → Request → ErrorCode
  unfolding result_of
  send_copy accepted r = if accepted then result_of r else queue_is_full

  -- HTTPParamClient_SetU32Value
  unfoldable pub set_u32_value : ℕ → ℕ → Bool → List Event → Store → Option (ErrorCode × Store)
  unfolding send_request
  set_u32_value parameter value accepted es s =
      let (done, t) = set_value project parameter value s in
      if done
      then (do
        (result, (r', s')) ←
            send_request accepted es (request u32_param post parameter value no_text) t
        some (result, s'))
      else none

  -- What HTTPParamClient_GetU32Value makes of the result: it writes the variable only when the
  -- result is not 0, that is not ERROR_CODE_OK.
  abbrev pub got_value : ℕ → ErrorCode × (Request × Store) → ErrorCode × (ℕ × Store)
  got_value variable (ok, (r, s)) = (ok, (variable, s))
  got_value variable (fail, (r, s)) = (fail, (r.value, s))
  got_value variable (timed_out, (r, s)) = (timed_out, (r.value, s))
  got_value variable (queue_is_full, (r, s)) = (queue_is_full, (r.value, s))

  -- HTTPParamClient_GetU32Value: the result, and what the caller's variable holds then.
  unfoldable pub get_u32_value :
      ℕ → ℕ → Bool → List Event → Store → Option (ErrorCode × (ℕ × Store))
  unfolding send_request
  get_u32_value parameter variable accepted es s = do
    sent ← send_request accepted es (request u32_param get parameter 0 no_text) s
    some (got_value variable sent)

  -- HTTPParamClient_SetU32ValueDontWait, up to the return.
  unfoldable pub set_u32_value_dont_wait : ℕ → ℕ → Bool → Store → Option (ErrorCode × Store)
  unfolding send_copy
  set_u32_value_dont_wait parameter value accepted s =
      let (done, t) = set_value project parameter value s in
      if done
      then some (send_copy accepted (request u32_param post parameter value no_text), t)
      else none

  -- HTTPParamClient_SetStrValue
  unfoldable pub set_str_value : ℕ → List ℕ → Bool → List Event → Store → Option (ErrorCode × Store)
  unfolding send_request
  set_str_value parameter value accepted es s = do
    (result, (r', s')) ←
        send_request accepted es
          (request string_param post parameter 0
            (write_at no_text 0 (take parse_cmd_max_string_len (c_string value))))
          s
    some (result, s')

  -- What strncpy of `len` bytes leaves in the caller's buffer.
  abbrev pub copied : ℕ → List ℕ → List ℕ → List ℕ
  copied len text buffer = write_at buffer 0 (take len (c_string text ++ replicate len 0))

  -- What HTTPParamClient_GetStrValue makes of the result.
  abbrev pub got_text : ℕ → List ℕ → ErrorCode × (Request × Store) → ErrorCode × (List ℕ × Store)
  got_text len buffer (ok, (r, s)) = (ok, (buffer, s))
  got_text len buffer (fail, (r, s)) = (fail, (copied len r.text buffer, s))
  got_text len buffer (timed_out, (r, s)) = (timed_out, (copied len r.text buffer, s))
  got_text len buffer (queue_is_full, (r, s)) = (queue_is_full, (copied len r.text buffer, s))

  -- HTTPParamClient_GetStrValue: the result, and the caller's buffer of at least `len` bytes.
  unfoldable pub get_str_value :
      ℕ → ℕ → List ℕ → Bool → List Event → Store → Option (ErrorCode × (List ℕ × Store))
  unfolding send_request
  get_str_value parameter len buffer accepted es s = do
    sent ← send_request accepted es (request string_param get parameter 0 no_text) s
    some (got_text len buffer sent)

  -- HTTPParamClient_Ping, up to the return.
  unfoldable pub ping_server : Bool → ErrorCode
  unfolding send_copy
  ping_server accepted = send_copy accepted (request ping post 0 0 no_text)

  module _ (print : ℕ → List ℕ) where
    -- The body that _post_message sends: strncpy may have left no 0 in the text.
    unfoldable pub post_body : Request → List ℕ
    post_body r = elim r.method [
      | post ↦ (elim r.type [
        | u32_param ↦ print r.value
        | string_param ↦ c_string r.text
        | ping ↦ []
      ])
      | _ ↦ []
    ]

    -- What _post_message sends; mg_url_uri is mongoose's.
    unfoldable pub post_message : (List ℕ → List ℕ) → Request → Message
    unfolding post_body request_url
    post_message mg_url_uri r = record {
      method = (elim r.method [ post ↦ bytes "POST" | _ ↦ bytes "GET" ]);
      uri = mg_url_uri (request_url r);
      body = post_body r;
    }
