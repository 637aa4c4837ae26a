-- ===== src/Drv/Keepalive.antt =====
-- drv/keepalive.c: the supervision of a connection by keep-alive frames.
-- `now` is ST2MS( xTaskGetTickCount() ), a uint32_t. A pass of keepAliveProcess reads the clock
-- twice for an entry, so it takes two times. What the send callback does to the entry itself is
-- the parameter `send`: the client's callback accepts the connection when a frame goes out.
pub mod Silence
mod Tests
use hq_components.Backend.Frame.{cmd_request, pc_keep_alive}
use hq_components.Prelude.{
  ==_iff, Bool, Bool-cases, List, Option, Option-cases, [], ap, append_assoc, arith, drop,
  drop_append, false, get_elem?, get_elem?-append, get_elem?-eq-get_or, get_or, get_or-set_ne,
  get_or-set_self, get_or_append_left, if◌then◌else◌, inl, inr, le_bytes, le_word, le_word-le_bytes,
  leb, length, length-append, length-drop, length-replicate, length-set, length-take,
  length-write_at, le→leb, le→ltb, ltb, ltb→le, ltb→lt, lt→leb, lt→ltb, map, min, none, not, refl,
  replicate, replicate-add, set, set-append, some, sub32, suc, sym, take, take-append-drop,
  take_append, true, u32, u8, write_at, write_at-append, write_at-replicate, write_at_front, zero,
  ℕ, ◌%◌, ◌&&◌, ◌*◌, ◌++◌, ◌+◌, ◌-◌, ◌/◌, ◌<◌, ◌==◌, ◌>>=◌, ◌^◌, ◌||◌, ◌↔◌, ◌∙◌, ◌∷◌, ◌≡◌, ◌≢◌, ◌≤◌,
  ◌⊎◌,
}

abbrev pub keep_alive_try : ℕ
keep_alive_try = 2

abbrev pub keep_alive_time_to_next : ℕ
keep_alive_time_to_next = 100

-- keepAlive_t. `deadline` is the member keepAlive, `tries` is keepAliveTry; of the two callbacks
-- the record tells whether they are set.
pub record KeepAlive : Type 0 where
  pub deadline : ℕ
  pub timeout : ℕ
  pub tries : ℕ
  pub error_flag : Bool
  pub active_flag : Bool
  pub has_send : Bool
  pub has_error_cb : Bool

-- keepAliveAccept
unfoldable pub accept : ℕ → KeepAlive → KeepAlive
accept now k = record k { deadline = u32 (now + k.timeout); tries = 0; error_flag = false }

-- keepAliveInit of one entry.
unfoldable pub init : ℕ → ℕ → Bool → Bool → KeepAlive → KeepAlive
unfolding accept
init now timeout send error_cb k =
    let t = if ltb timeout keep_alive_time_to_next then keep_alive_time_to_next else timeout in
    let k' = record k { has_send = send; has_error_cb = error_cb; timeout = t } in
    record (accept now k') { error_flag = false }

-- `keepAliveTab[tabSize++] = keep`: the table has 8 places, and `none` is a write behind it.
unfoldable pub register : KeepAlive → List KeepAlive → Option (List KeepAlive)
register k tab = if ltb (length tab) 8 then some (tab ++ (k ∷ [])) else none

-- keepAliveStart
unfoldable pub start : ℕ → KeepAlive → KeepAlive
unfolding accept
start now k = accept now (record k { active_flag = true; error_flag = false })

-- keepAliveStop
unfoldable pub stop : KeepAlive → KeepAlive
stop k = record k { active_flag = false }

-- keepAliveCheckError
unfoldable pub check_error : KeepAlive → Bool
check_error k = k.error_flag

-- What a pass does to the outside for one entry.
pub data Effect : Type 0 where
  quiet sent failed : Effect

module _ (send : KeepAlive → KeepAlive) where
  -- One round of the loop of keepAliveProcess, for one entry.
  unfoldable pub process : ℕ → ℕ → KeepAlive → KeepAlive × Effect
  process now later k =
      if k.error_flag || not k.active_flag
      then (k, quiet)
      else if ltb k.deadline now
      then (if ltb k.tries keep_alive_try
          then (let k' = if k.has_send then send k else k in
              (
                record k' { tries = u8 (k'.tries + 1); deadline = u32 (later + k'.timeout) },
                if k.has_send then sent else quiet,
              ))
          else (record k { error_flag = true }, if k.has_error_cb then failed else quiet))
      else (k, quiet)

  -- The passes at the given times, with the effects in order.
  unfoldable pub run : List (ℕ × ℕ) → KeepAlive → KeepAlive × List Effect
  run [] k = (k, [])
  run ((now, later) ∷ ts) k =
      let (k', e) = process now later k in let (k'', es) = run ts k' in (k'', e ∷ es)

-- keep_alive_frame: the length, the request number 0xffffffff, CMD_REQUEST, PC_KEEP_ALIVE and zeros.
abbrev pub keep_alive_frame : List ℕ
keep_alive_frame = 64 ∷ 255 ∷ 255 ∷ 255 ∷ 255 ∷ cmd_request ∷ pc_keep_alive ∷ replicate 57 0
