-- ===== src/Drv/OtaDrv/Fitting.antt =====
-- The handler of HTTP events keeps within its buffers.
use hq_components.Prelude.{
  Bool, Bool-cases, List, Option, arith, inl, inr, length, length-replicate, length-write_at, none,
  refl, replicate, some, take, ℕ, ◌∙◌, ◌≡◌, ◌≤◌,
}
use hq_components.Drv.OtaDrv.Http.{
  response_size, Handler, Event, on_header, on_finish, disconnected, redirect, other, on_data,
  copied, on_data_event, http_event_handler, copy_len,
}

-- A buffer of the size, filled up to a length within it.
abbrev pub Filled : ℕ → ℕ → List ℕ → Type 0
Filled size len buffer = (length buffer ≡ size) × (len ≤ size)

abbrev pub Fitting : ℕ → Option (List ℕ) → Option (List ℕ) → ℕ → Type 0
Fitting content (some user) output len = Filled response_size len user
Fitting content none (some buffer) len = Filled content len buffer
Fitting content none none len = Unit {0}

abbrev pub IsFitting : ℕ → Handler → Type 0
IsFitting content h = Fitting content h.user_data h.output_buffer h.output_len

length-copied :
    (size len : ℕ) (bytes buffer : List ℕ) → length (copied size len bytes buffer) ≡ length buffer
unfolding copied
length-copied size len bytes buffer =
    length-write_at buffer len (take (copy_len size len bytes) bytes)

reset-Fitting :
    (content : ℕ) (user output : Option (List ℕ)) (len : ℕ)
    → Fitting content user output len
    → Fitting content user none 0
reset-Fitting content (some user) output len (l, b) = (l, omega arith)
reset-Fitting content none output len f = tt

data-Fitting :
    (allocates : Bool) (content : ℕ) (bytes : List ℕ) (h : Handler)
    → (user output : Option (List ℕ)) → h.user_data ≡ user
    → h.output_buffer ≡ output
    → Fitting content user output h.output_len
    → IsFitting content (on_data_event allocates content bytes user output h).1
unfolding on_data_event
data-Fitting allocates content bytes h (some user) output e d (l, b) =
    (length-copied 2048 h.output_len bytes user ∙ l, ground arith)
data-Fitting allocates content bytes h none (some buffer) e d (l, b) =
    rw e (length-copied content h.output_len bytes buffer ∙ l, ground arith)
data-Fitting allocates content bytes h none none e d f = elim (Bool-cases allocates) [
  | inl t ↦
      rw (t, e)
        (
          length-copied content 0 bytes (replicate content 0) ∙ length-replicate content 0,
          ground arith,
        )
  | inr t ↦ rw (t, e, d) tt
]

-- Whatever event comes, the handler keeps within the buffer of the caller, or within the one that it
-- has taken for the content, whose length stays: what is copied ends inside of the buffer.
pub http_event_handler-IsFitting :
    (chunked allocates : Bool) (content : ℕ) (e : Event) (h : Handler)
    → IsFitting content h
    → IsFitting content (http_event_handler chunked allocates content e h).1
unfolding http_event_handler
http_event_handler-IsFitting chunked allocates content on_header h f = f
http_event_handler-IsFitting chunked allocates content redirect h f = f
http_event_handler-IsFitting chunked allocates content other h f = f
http_event_handler-IsFitting chunked allocates content on_finish h f =
    reset-Fitting content h.user_data h.output_buffer h.output_len f
http_event_handler-IsFitting chunked allocates content disconnected h f =
    reset-Fitting content h.user_data h.output_buffer h.output_len f
http_event_handler-IsFitting chunked allocates content (on_data bytes) h f =
    elim (Bool-cases chunked) [
      | inl t ↦ rw t f
      | inr t ↦
          rw t (data-Fitting allocates content bytes h h.user_data h.output_buffer refl refl f)
    ]
