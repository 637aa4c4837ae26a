-- ===== src/Drv/OtaDrv/Http.antt =====
-- drv/ota_drv.c: the handler of HTTP events, which the code does not register.
-- The buffer of the caller is a list of bytes, and so is the one that the handler takes from the
-- heap. The functions of esp_http_client are arguments: whether the response is chunked and the
-- length of its content; `allocates` says whether malloc gives memory.
use hq_components.Prelude.{
  Bool, List, Option, if◌then◌else◌, length, min, none, replicate, some, take, write_at, ℕ, ◌+◌,
  ◌-◌,
}
use hq_components.Drv.OtaDrv.{Err, esp_ok, esp_fail}

-- sizeof( localResponseBuffer )
abbrev pub response_size : ℕ
response_size = 2048

-- The static variables of _http_event_handler, and the buffer in evt->user_data.
pub record Handler : Type 0 where
  pub output_buffer : Option (List ℕ)
  pub output_len : ℕ
  pub user_data : Option (List ℕ)

-- esp_http_client_event_t
pub data Event : Type 0 where
  on_header on_finish disconnected redirect other : Event
  on_data : List ℕ → Event

-- A copy of the bytes that still fit: `size - output_len` of them at most.
abbrev pub copy_len : ℕ → ℕ → List ℕ → ℕ
copy_len size output_len bytes = min (length bytes) (size - output_len)

unfoldable pub copied : ℕ → ℕ → List ℕ → List ℕ → List ℕ
copied size output_len bytes buffer =
    write_at buffer output_len (take (copy_len size output_len bytes) bytes)

abbrev pub grown : ℕ → List ℕ → Handler → ℕ
grown size bytes h = h.output_len + copy_len size h.output_len bytes

abbrev fresh_buffer : ℕ → List ℕ
fresh_buffer content_length = replicate content_length 0

-- The case HTTP_EVENT_ON_DATA of a response that is not chunked.
unfoldable pub on_data_event :
    Bool → ℕ → List ℕ → Option (List ℕ) → Option (List ℕ) → Handler → Err × Handler
unfolding copied
on_data_event allocates content bytes (some user) output h = (
  esp_ok,
  record h {
    user_data = some (copied response_size h.output_len bytes user);
    output_len = grown response_size bytes h;
  },
)
on_data_event allocates content bytes none (some buffer) h = (
  esp_ok,
  record h {
    output_buffer = some (copied content h.output_len bytes buffer);
    output_len = grown content bytes h;
  },
)
on_data_event allocates content bytes none none h =
    let empty = record h { output_len = 0 } in
    if allocates
    then (
      esp_ok,
      record h {
        output_buffer = some (copied content 0 bytes (fresh_buffer content));
        output_len = grown content bytes empty;
      },
    )
    else (esp_fail, empty)

-- _http_event_handler
unfoldable pub http_event_handler : Bool → Bool → ℕ → Event → Handler → Err × Handler
unfolding on_data_event
http_event_handler chunked allocates content on_header h = (esp_ok, h)
http_event_handler chunked allocates content redirect h = (esp_ok, h)
http_event_handler chunked allocates content other h = (esp_ok, h)
http_event_handler chunked allocates content on_finish h =
    (esp_ok, record h { output_buffer = none; output_len = 0 })
http_event_handler chunked allocates content disconnected h =
    (esp_ok, record h { output_buffer = none; output_len = 0 })
http_event_handler chunked allocates content (on_data bytes) h =
    if chunked
    then (esp_ok, h)
    else on_data_event allocates content bytes h.user_data h.output_buffer h
