-- ===== src/Backend/ParseCmd/Stream.antt =====
-- The receive loop parse_server_buffer over a buffer of many packets.
use hq_components.Prelude.{
  ℕ, zero, suc, ◌+◌, ◌*◌, ◌-◌, ◌≤◌, ◌<◌, ◌≡◌, refl, sym, ◌∙◌, inl, inr, List, [], ◌∷◌, ◌++◌, none,
  some, length, get_elem?, replicate, ltb, if◌then◌else◌, Bool-cases, append_assoc, drop_append,
  get_elem?-append, length-append, length-replicate, le→ltb, lt→ltb, arith,
}
use hq_components.Backend.Parameters.{Parameter}
use hq_components.Backend.ParseCmd.{Server, parse_server, parse_loop, parse_server_buffer}
use hq_components.Backend.ParseCmd.Serve.{
  Request, Call, keep_alive, read_value, write_value, read_text, write_text, encode, encode_call,
  mode_cmd, Fits, CallFits, serve, parse_server-encode,
}

-- The packets of some requests, one behind the other, and the bytes behind them.
abbrev pub stream : List Request → List ℕ → List ℕ
stream [] rest = rest
stream (r ∷ rs) rest = encode r ++ stream rs rest

abbrev pub AllFit : List Request → Type 0
AllFit [] = Unit {0}
AllFit (r ∷ rs) = Fits r × AllFit rs

length-payload :
    (payload : List ℕ)
    → length payload ≤ 56
    → length (payload ++ replicate (56 - length payload) 0) ≡ 56
length-payload payload h = omega (
  arith,
  length-append payload (replicate (56 - length payload) 0),
  length-replicate {A = ℕ} (56 - length payload) 0,
)

length-encode_call :
    (n cmd : ℕ) (call : Call) → CallFits call → length (encode_call n cmd call) ≡ 64
length-encode_call n cmd keep_alive f = refl
length-encode_call n cmd (read_value val) f = refl
length-encode_call n cmd (write_value val value) f = refl
length-encode_call n cmd (read_text val) f = refl
length-encode_call n cmd (write_text val text) f = omega (arith, length-payload text (omega arith))

-- Every packet is 64 bytes.
pub length-encode : (r : Request) → Fits r → length (encode r) ≡ 64
length-encode r f = length-encode_call r.number (mode_cmd r.mode) r.call f.1

first_byte :
    (n cmd : ℕ) (call : Call) (post : List ℕ)
    → get_elem? (encode_call n cmd call ++ post) 0 ≡ some 64
first_byte n cmd keep_alive post = refl
first_byte n cmd (read_value val) post = refl
first_byte n cmd (write_value val value) post = refl
first_byte n cmd (read_text val) post = refl
first_byte n cmd (write_text val text) post = refl

module _ (project : List Parameter) where
  -- Serving requests one after the other.
  abbrev pub serve_all : List Request → Server → Server
  serve_all [] s = s
  serve_all (r ∷ rs) s = serve_all rs (serve project r s)

  parse_loop-step :
      (fuel : ℕ) (pre xs : List ℕ) (frame_len pos len : ℕ) (s s' : Server)
      → pos ≡ length pre
      → get_elem? xs 0 ≡ some frame_len
      → frame_len ≤ len
      → 0 < frame_len
      → parse_server project xs s ≡ some s'
      → parse_loop project (suc fuel) (pre ++ xs) pos len s ≡ (
          if ltb 0 (len - frame_len)
          then parse_loop project fuel (pre ++ xs) (pos + frame_len) (len - frame_len) s'
          else some s')
  unfolding parse_loop
  parse_loop-step fuel pre xs frame_len pos len s s' e first fits positive parsed =
      rw
        (
          get_elem?-append pre xs pos e,
          first,
          drop_append pos pre xs (sym e),
          parsed,
          le→ltb len frame_len fits,
        )
        (ground arith)

  parse_loop-stream :
      (fuel : ℕ) (pre : List ℕ) (r : Request) (rs : List Request) (rest : List ℕ) (pos len : ℕ)
      (s : Server)
      → pos ≡ length pre
      → len ≡ 64 * length (r ∷ rs)
      → length rs < fuel
      → AllFit (r ∷ rs)
      → parse_loop project fuel (pre ++ stream (r ∷ rs) rest) pos len s
        ≡ some (serve_all (r ∷ rs) s)
  parse_loop-stream zero pre r rs rest pos len s e l h f = absurd (omega arith)
  parse_loop-stream (suc fuel) pre r [] rest pos len s e l h f =
      parse_loop-step fuel pre (encode r ++ rest) 64 pos len s (serve project r s) e
        (first_byte r.number (mode_cmd r.mode) r.call rest) (omega arith) (omega arith)
        (parse_server-encode project r rest s f.0)
      ∙ rw (le→ltb 0 (len - 64) (omega arith))
  parse_loop-stream (suc fuel) pre r (q ∷ rs) rest pos len s e l h f =
      parse_loop-step fuel pre (encode r ++ stream (q ∷ rs) rest) 64 pos len s (serve project r s) e
        (first_byte r.number (mode_cmd r.mode) r.call (stream (q ∷ rs) rest)) (omega arith)
        (omega arith) (parse_server-encode project r (stream (q ∷ rs) rest) s f.0)
      ∙ rw (lt→ltb 0 (len - 64) (omega arith), ← append_assoc pre (encode r) (stream (q ∷ rs) rest))
          (parse_loop-stream fuel (pre ++ encode r) q rs rest (pos + 64) (len - 64)
            (serve project r s) (omega (arith, length-append pre (encode r), length-encode r f.0))
            (omega arith) (omega arith) f.1)

  -- When the numbers and values of some requests fit 32 bits and their texts are closed inside
  -- their packets, a receive buffer that holds these packets has exactly the effect on the server of
  -- serving the requests one after the other, in their order: the parser takes each packet once,
  -- and what stands in the buffer behind them changes nothing. Of these requests, a keep-alive and
  -- a write that is only told are served without an answer.
  pub parse_server_buffer-stream :
      (r : Request) (rs : List Request) (rest : List ℕ) (s : Server)
      → AllFit (r ∷ rs)
      → parse_server_buffer project (stream (r ∷ rs) rest) (64 * length (r ∷ rs)) s
        ≡ some (serve_all (r ∷ rs) s)
  unfolding parse_server_buffer
  parse_server_buffer-stream r rs rest s f =
      parse_loop-stream (64 * length (r ∷ rs) + 1) [] r rs rest 0 (64 * length (r ∷ rs)) s
        (omega arith) (omega arith) (omega arith) f

  parse_server-ones :
      (k : ℕ) (s : Server)
      → parse_server project (replicate (suc k) 1) s ≡ (if ltb k 6 then none else some s)
  unfolding parse_server
  parse_server-ones zero s = refl
  parse_server-ones (suc zero) s = refl
  parse_server-ones (suc (suc zero)) s = refl
  parse_server-ones (suc (suc (suc zero))) s = refl
  parse_server-ones (suc (suc (suc (suc zero)))) s = refl
  parse_server-ones (suc (suc (suc (suc (suc zero))))) s = refl
  parse_server-ones (suc (suc (suc (suc (suc (suc k)))))) s =
      rw (le→ltb (suc (suc (suc (suc (suc (suc k)))))) 6 (omega arith))

  parse_loop-fault :
      (fuel : ℕ) (pre xs : List ℕ) (pos len : ℕ) (s : Server)
      → pos ≡ length pre
      → get_elem? xs 0 ≡ some 1
      → 0 < len
      → parse_server project xs s ≡ none
      → parse_loop project (suc fuel) (pre ++ xs) pos len s ≡ none
  unfolding parse_loop
  parse_loop-fault fuel pre xs pos len s e first fits parsed =
      rw (get_elem?-append pre xs pos e, first, drop_append pos pre xs (sym e), parsed)
        (ground arith)

  parse_loop-ones :
      (fuel : ℕ) (pre : List ℕ) (k pos : ℕ) (s : Server)
      → pos ≡ length pre
      → k < fuel
      → parse_loop project fuel (pre ++ replicate (suc k) 1) pos (suc k) s ≡ none
  parse_loop-ones zero pre k pos s e h = absurd (omega arith)
  parse_loop-ones (suc fuel) pre zero pos s e h =
      parse_loop-fault fuel pre (1 ∷ []) pos 1 s e refl (omega arith) (parse_server-ones 0 s)
  parse_loop-ones (suc fuel) pre (suc k) pos s e h = elim (Bool-cases (ltb (suc k) 6)) [
    | inl short ↦
        parse_loop-fault fuel pre (replicate (suc (suc k)) 1) pos (suc (suc k)) s e refl
          (omega arith) (parse_server-ones (suc k) s ∙ rw short)
    | inr long ↦
        parse_loop-step fuel pre (replicate (suc (suc k)) 1) 1 pos (suc (suc k)) s s e refl
          (omega arith) (omega arith) (parse_server-ones (suc k) s ∙ rw long)
        ∙ rw
            (
              lt→ltb 0 (suc (suc k) - 1) (omega arith),
              ← append_assoc pre (1 ∷ []) (replicate (suc k) 1),
            )
            (let e' : suc (suc k) - 1 ≡ suc k = omega arith in
              rw e' (
                parse_loop-ones fuel (pre ++ (1 ∷ [])) k (pos + 1) s
                  (omega (arith, length-append pre (1 ∷ []))) (omega arith)))
  ]

  -- A receive buffer that is filled to its end with bytes 1, which announce packets of one byte,
  -- makes the parser read behind the end of the buffer, however long it is.
  pub parse_server_buffer-ones :
      (k : ℕ) (s : Server) → parse_server_buffer project (replicate (suc k) 1) (suc k) s ≡ none
  unfolding parse_server_buffer
  parse_server_buffer-ones k s = parse_loop-ones (suc k + 1) [] k 0 s refl (omega arith)
