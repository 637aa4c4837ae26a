-- ===== src/Backend/ParseCmd/Serve.antt =====
-- What one packet does at the server, against a description of the requests.
use hq_components.Prelude.{
  ℕ, suc, ◌-◌, ◌<◌, ◌≡◌, refl, sym, ap, ◌∙◌, inl, inr, Bool, true, false, ◌||◌, List, [], ◌∷◌, ◌++◌,
  Option, none, some, length, set, replicate, write_at, ◌==◌, le_bytes, le_word-le_bytes,
  Bool-cases, Option-cases, append_assoc, write_at-replicate, length-append, arith,
}
use hq_components.Backend.Frame.{
  cmd_request, cmd_answer, cmd_data, packet, pc_keep_alive, pc_set_uint32, pc_get_uint32,
  pc_set_string, pc_get_string,
}
use hq_components.Backend.Parameters.{
  Parameter, Store, get_value, set_value, get_string, set_string, c_string,
}
use hq_components.Backend.Parameters.Strings.{c_string-closed}
use hq_components.Backend.ParseCmd.{
  Server, is_closed, prepare_answer, resp, send_data, send_unless_data, serve_get_uint32,
  serve_set_uint32, serve_set_string, serve_get_string, dispatch, parse_server,
}

-- A client that asks waits for the answer to a write; one that tells does not.
pub data Mode : Type 0 where
  ask tell : Mode

pub data Call : Type 0 where
  keep_alive : Call
  read_value : ℕ → Call
  write_value : ℕ → ℕ → Call
  read_text : ℕ → Call
  write_text : ℕ → List ℕ → Call

pub record Request : Type 0 where
  pub number : ℕ
  pub mode : Mode
  pub call : Call

abbrev pub mode_cmd : Mode → ℕ
mode_cmd ask = cmd_request
mode_cmd tell = cmd_data

-- The packet that stands for a request.
abbrev pub encode_call : ℕ → ℕ → Call → List ℕ
encode_call number cmd keep_alive = packet number cmd pc_keep_alive 0 []
encode_call number cmd (read_value val) = packet number cmd pc_get_uint32 val []
encode_call number cmd (write_value val value) =
    packet number cmd pc_set_uint32 val (le_bytes value)
encode_call number cmd (read_text val) = packet number cmd pc_get_string val []
encode_call number cmd (write_text val text) = packet number cmd pc_set_string val text

abbrev pub encode : Request → List ℕ
encode r = encode_call r.number (mode_cmd r.mode) r.call

-- Words fit 32 bits, and a text is closed inside its packet.
abbrev pub CallFits : Call → Type 0
CallFits keep_alive = Unit {0}
CallFits (read_value val) = Unit {0}
CallFits (write_value val value) = value < 4294967296
CallFits (read_text val) = Unit {0}
CallFits (write_text val text) = (length text < 56) × (c_string text ≡ text)

abbrev pub Fits : Request → Type 0
Fits r = (r.number < 4294967296) × CallFits r.call

abbrev pub reply : Mode → List ℕ → Server → Server
reply ask frame s = send_data frame s
reply tell frame s = s

abbrev pub text_or_empty : Option (List ℕ) → List ℕ
text_or_empty none = []
text_or_empty (some text) = text

module _ (project : List Parameter) where
  -- What a request means: a read answers with what is stored, a write stores and answers whether
  -- it was accepted, unless the client only tells.
  abbrev pub serve_call : ℕ → Mode → Call → Server → Server
  serve_call n mode keep_alive s = s
  serve_call n mode (read_value val) s =
      send_data (packet n cmd_answer pc_get_uint32 val (le_bytes (get_value project val s.store))) s
  serve_call n mode (write_value val value) s =
      let (done, store) = set_value project val value s.store in
      reply mode (packet n cmd_answer pc_set_uint32 val (resp done ∷ []))
        (record s { store = store })
  serve_call n mode (read_text val) s =
      send_data (packet n cmd_answer pc_get_string val (text_or_empty (get_string val 56 s.store)))
        s
  serve_call n mode (write_text val text) s =
      let (done, store) = set_string val text s.store in
      reply mode (packet n cmd_answer pc_set_string val (resp done ∷ []))
        (record s { store = store })

  abbrev pub serve : Request → Server → Server
  serve r s = serve_call r.number r.mode r.call s

-- strlen of a text that parameters_getString delivered fits the buffer.
get_string-fits :
    (val n : ℕ) (s : Store) (text : List ℕ) → get_string val n s ≡ some text → length text < n
unfolding get_string
get_string-fits val n s text h = ground arith

closed_tail :
    (text : List ℕ)
    → length text < 56
    → (text ++ (0 ∷ [])) ++ replicate (56 - length (text ++ (0 ∷ []))) 0
      ≡ text ++ replicate (56 - length text) 0
closed_tail text h =
    let e : 56 - length text ≡ suc (56 - length (text ++ (0 ∷ []))) =
      omega (arith, length-append text (0 ∷ [])) in
    append_assoc text (0 ∷ []) (replicate (56 - length (text ++ (0 ∷ []))) 0)
    ∙ ap (λ k. text ++ replicate k 0) (sym e)

answer_text :
    (n kind val : ℕ) (text : List ℕ)
    → length text < 56
    → write_at (prepare_answer n kind val) 8 (text ++ (0 ∷ [])) ≡ packet n cmd_answer kind val text
unfolding prepare_answer
answer_text n kind val text h =
    write_at-replicate (64 ∷ (le_bytes n ++ (cmd_answer ∷ kind ∷ val ∷ []))) (text ++ (0 ∷ [])) 56 8
      0 refl (omega (arith, length-append text (0 ∷ [])))
    ∙ ap (λ t. 64 ∷ (le_bytes n ++ (cmd_answer ∷ kind ∷ val ∷ t))) (closed_tail text h)

-- A text that fits its packet is closed by the packet's padding.
is_closed_padded :
    (text post : List ℕ) (k : ℕ) → is_closed ((text ++ replicate (suc k) 0) ++ post) ≡ true
unfolding is_closed
is_closed_padded [] post k = refl
is_closed_padded (c ∷ text) post k = elim (Bool-cases (c == 0)) [
  | inl e ↦ rw e
  | inr e ↦ rw e (is_closed_padded text post k)
]

padded :
    (text post : List ℕ)
    → length text < 56
    → (k : ℕ) × ((text ++ replicate (56 - length text) 0) ++ post
        ≡ (text ++ replicate (suc k) 0) ++ post)
padded text post h =
    let e : 56 - length text ≡ suc (55 - length text) = omega arith in
    (55 - length text, ap (λ j. (text ++ replicate j 0) ++ post) e)

c_string_padded :
    (text post : List ℕ) (k : ℕ)
    → c_string text ≡ text
    → c_string ((text ++ replicate (suc k) 0) ++ post) ≡ text
c_string_padded text post k h =
    ap c_string (append_assoc text (replicate (suc k) 0) post)
    ∙ ap (λ t. c_string (t ++ (0 ∷ (replicate k 0 ++ post)))) (sym h)
    ∙ c_string-closed text (replicate k 0 ++ post)
    ∙ h

-- Only the text before the closing 0 counts.
set_string-c_string :
    (val : ℕ) (str str' : List ℕ) (s : Store)
    → c_string str ≡ c_string str'
    → set_string val str s ≡ set_string val str' s
unfolding set_string
set_string-c_string val str str' s e = rw e

or-true : (b : Bool) → (b || true) ≡ true
or-true true = refl
or-true false = refl

text_answered :
    (n val : ℕ) (mode : Mode) (r : Bool × Store) (s : Server)
    → some (
        send_unless_data
          (mode_cmd mode)
          (set (prepare_answer n pc_set_string val) 8 (resp r.0))
          (record s { store = r.1 }))
      ≡ some (
          reply mode
            (packet n cmd_answer pc_set_string val (resp r.0 ∷ []))
            (record s { store = r.1 }))
unfolding prepare_answer
text_answered n val ask r s = refl
text_answered n val tell r s = refl

module _ (project : List Parameter) where
  parse_server-packet :
      (n cmd kind val : ℕ) (payload post : List ℕ) (s : Server)
      → n < 4294967296
      → (cmd == cmd_request || cmd == cmd_data) ≡ true
      → parse_server project (packet n cmd kind val payload ++ post) s
        ≡ dispatch project (packet n cmd kind val payload ++ post) kind cmd n s
  unfolding parse_server
  parse_server-packet n cmd kind val payload post s h c = rw (c, le_word-le_bytes n h)

  read_value-packet :
      (n cmd val : ℕ) (post : List ℕ) (s : Server)
      → serve_get_uint32 project (packet n cmd pc_get_uint32 val [] ++ post) n s
        ≡ some (serve_call project n ask (read_value val) s)
  unfolding serve_get_uint32 prepare_answer
  read_value-packet n cmd val post s = refl

  write_value-packet :
      (n val value : ℕ) (mode : Mode) (post : List ℕ) (s : Server)
      → value < 4294967296
      → serve_set_uint32 project
          (packet n (mode_cmd mode) pc_set_uint32 val (le_bytes value) ++ post)
          (mode_cmd mode)
          n
          s
        ≡ some (serve_call project n mode (write_value val value) s)
  unfolding serve_set_uint32 prepare_answer
  write_value-packet n val value ask post s h = rw (le_word-le_bytes value h)
  write_value-packet n val value tell post s h = rw (le_word-le_bytes value h)

  read_text-packet :
      (n cmd val : ℕ) (post : List ℕ) (s : Server)
      → serve_get_string (packet n cmd pc_get_string val [] ++ post) n s
        ≡ some (serve_call project n ask (read_text val) s)
  unfolding serve_get_string
  read_text-packet n cmd val post s = elim (Option-cases (get_string val 56 s.store)) [
    | inl e ↦ rw e (unfold prepare_answer in refl)
    | inr (text, e) ↦ rw e (
        ap (λ f. some (send_data f s))
          (answer_text n pc_get_string val text (get_string-fits val 56 s.store text e)))
  ]

  write_text-packet :
      (n val : ℕ) (text : List ℕ) (mode : Mode) (post : List ℕ) (s : Server)
      → length text < 56
      → c_string text ≡ text
      → serve_set_string
          (packet n (mode_cmd mode) pc_set_string val text ++ post)
          (mode_cmd mode)
          n
          s
        ≡ some (serve_call project n mode (write_text val text) s)
  unfolding serve_set_string
  write_text-packet n val text mode post s h c =
      let (k, e) = padded text post h in
      let text' = (text ++ replicate (56 - length text) 0) ++ post in
      let closed : is_closed text' ≡ true = rw e (is_closed_padded text post k) in
      let same : set_string val text' s.store ≡ set_string val text s.store =
        set_string-c_string val text' text s.store (rw e (c_string_padded text post k c ∙ sym c)) in
      rw (same, closed, or-true) (text_answered n val mode (set_string val text s.store) s)

  -- A packet that fits does at the server what its request means, whatever stands behind it in the
  -- receive buffer, and no read leaves the buffer.
  pub parse_server-encode :
      (r : Request) (post : List ℕ) (s : Server)
      → Fits r
      → parse_server project (encode r ++ post) s ≡ some (serve project r s)
  unfolding parse_server
  parse_server-encode r post s h = served r.mode r.call h.1
    where
      served :
          (mode : Mode) (call : Call)
          → CallFits call
          → parse_server project (encode_call r.number (mode_cmd mode) call ++ post) s
            ≡ some (serve_call project r.number mode call s)
      served ask keep_alive f = refl
      served tell keep_alive f = refl
      served ask (read_value val) f =
          rw (le_word-le_bytes r.number h.0) (read_value-packet r.number cmd_request val post s)
      served tell (read_value val) f =
          rw (le_word-le_bytes r.number h.0) (read_value-packet r.number cmd_data val post s)
      served ask (write_value val value) f =
          rw (le_word-le_bytes r.number h.0) (write_value-packet r.number val value ask post s f)
      served tell (write_value val value) f =
          rw (le_word-le_bytes r.number h.0) (write_value-packet r.number val value tell post s f)
      served ask (read_text val) f =
          rw (le_word-le_bytes r.number h.0) (read_text-packet r.number cmd_request val post s)
      served tell (read_text val) f =
          rw (le_word-le_bytes r.number h.0) (read_text-packet r.number cmd_data val post s)
      served ask (write_text val text) f =
          rw (le_word-le_bytes r.number h.0)
            (write_text-packet r.number val text ask post s f.0 f.1)
      served tell (write_text val text) f =
          rw (le_word-le_bytes r.number h.0)
            (write_text-packet r.number val text tell post s f.0 f.1)
