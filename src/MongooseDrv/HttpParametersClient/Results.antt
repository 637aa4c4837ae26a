-- ===== src/MongooseDrv/HttpParametersClient/Results.antt =====
-- The results of the client's calls.
use hq_components.Prelude.{
  Bool, List, [], ap, arith, false, if◌then◌else◌, lt→ltb, refl, some, true, ℕ, ◌<◌, ◌==◌, ◌∙◌, ◌∷◌,
  ◌≡◌, ◌≢◌, ◌≤◌,
}
use hq_components.Backend.Parameters.{
  last_value, get_max_value, Parameter, Store, set_value, get_value,
}
use hq_components.Backend.Parameters.Values.{IsStore, get_value-set_value}
use hq_components.MongooseDrv.Text.{str2int, PrintsLong}
use hq_components.MongooseDrv.Text.Numbers.{str2int-print}
use hq_components.MongooseDrv.ParametersApi.{answer}
use hq_components.MongooseDrv.ParametersApi.Numbers.{set_value-done}
use hq_components.MongooseDrv.HttpServer.{get, post, Response}
use hq_components.Backend.Frame.{ok, fail, queue_is_full}
use hq_components.MongooseDrv.HttpParametersClient.{
  Request, u32_param, request, no_text, Event, expired, http_msg, error, on_event, run, result_of,
  send_request, send_copy, set_u32_value, get_u32_value, set_u32_value_dont_wait, ping_server,
}

-- The code that the last event leaves.
abbrev pub last_code : List Event → ℕ → ℕ
last_code [] code = code
last_code (expired ∷ es) code = last_code es 504
last_code (error ∷ es) code = last_code es 500
last_code (http_msg answer ∷ es) code = last_code es answer.code

module _ (project : List Parameter) where
  run-none : (c : Request × Store) → run project [] c ≡ some c
  unfolding run
  run-none c = refl

  run-cons :
      (e : Event) (es : List Event) (c c' : Request × Store)
      → on_event project e c ≡ some c'
      → run project (e ∷ es) c ≡ run project es c'
  unfolding run
  run-cons e es c c' h = rw h refl

  answer-post :
      (a : Response) (r : Request) (s : Store)
      → r.method ≡ post
      → on_event project (http_msg a) (r, s) ≡ some (record r { code = a.code }, s)
  unfolding on_event
  answer-post a r s h = ground arith

  answer-failed :
      (r : Request) (s : Store)
      → (on_event project expired (r, s) ≡ some (record r { code = 504 }, s))
        × (on_event project error (r, s) ≡ some (record r { code = 500 }, s))
  unfolding on_event
  answer-failed r s = (refl, refl)

  run-post :
      (es : List Event) (r : Request) (s : Store)
      → r.method ≡ post
      → run project es (r, s) ≡ some (record r { code = last_code es r.code }, s)
  run-post [] r s h = run-none (r, s)
  run-post (expired ∷ es) r s h =
      let r' = record r { code = 504 } in
      run-cons expired es (r, s) (r', s) (answer-failed r s).0 ∙ run-post es r' s h
  run-post (error ∷ es) r s h =
      let r' = record r { code = 500 } in
      run-cons error es (r, s) (r', s) (answer-failed r s).1 ∙ run-post es r' s h
  run-post (http_msg a ∷ es) r s h =
      let r' = record r { code = a.code } in
      run-cons (http_msg a) es (r, s) (r', s) (answer-post a r s h) ∙ run-post es r' s h

  send_request-run :
      (es : List Event) (r r' : Request) (s s' : Store)
      → run project es (r, s) ≡ some (r', s')
      → send_request project true es r s ≡ some (if r'.code == 200 then ok else fail, (r', s'))
  unfolding send_request result_of
  send_request-run es r r' s s' h = rw h refl

  -- The client stores a value that it is to send, within the parameter's range, before the server
  -- knows of it, and keeps it whatever happens; the result is ok exactly when the server answered
  -- with 200 and no failure came after it.
  pub set_u32_value_lem :
      (parameter value : ℕ) (es : List Event) (s : Store)
      → (set_value project parameter value s).0 ≡ true
      → set_u32_value project parameter value true es s
        ≡ some (if last_code es 0 == 200 then ok else fail, (set_value project parameter value s).1)
  unfolding set_u32_value
  set_u32_value_lem parameter value es s d =
      let t = (set_value project parameter value s).1 in
      let r = request u32_param post parameter value no_text in
      let sent =
        send_request-run es r (record r { code = last_code es 0 }) t t (run-post es r t refl) in
      rw (d, sent) refl

  -- A call that does not wait never gives ok, not even when the server will store the value: it
  -- looks at the code of its own request, while the answer goes to a copy.
  pub dont_wait-never_ok :
      (parameter value : ℕ) (accepted : Bool) (s : Store)
      → ((set_value project parameter value s).0 ≡ true
          → set_u32_value_dont_wait project parameter value accepted s
            ≡ some
                (if accepted then fail else queue_is_full, (set_value project parameter value s).1))
        × (ping_server project accepted ≢ ok)
  unfolding set_u32_value_dont_wait send_copy result_of ping_server
  dont_wait-never_ok parameter value true s = (λ d. rw d refl, ground arith)
  dont_wait-never_ok parameter value false s = (λ d. rw d refl, ground arith)

  answer-get :
      (i v value : ℕ) (body : List ℕ) (s : Store)
      → str2int body ≡ v
      → (set_value project i v s).0 ≡ true
      → on_event project (http_msg (answer 200 body)) (request u32_param get i value no_text, s)
        ≡ some
            (record (request u32_param get i v no_text) { code = 200 }, (set_value project i v s).1)
  unfolding on_event
  answer-get i v value body s e d = rw (e, d) refl

  get-sent :
      (i variable : ℕ) (es : List Event) (s t : Store) (r : Request)
      → send_request project true es (request u32_param get i 0 no_text) s ≡ some (ok, (r, t))
      → get_u32_value project i variable true es s ≡ some (ok, (variable, t))
  unfolding get_u32_value
  get-sent i variable es s t r h = rw h refl

  -- When the server answers the digits of a value below 2^31 and within the parameter's range, the
  -- call of HTTPParamClient_GetU32Value gives ok and the value is in the client's own store; the
  -- caller's variable, though, keeps what it held.
  pub get_u32_value_lem :
      (print : ℕ → List ℕ) (i value variable : ℕ) (s : Store)
      → PrintsLong print
      → i < last_value project
      → IsStore project s
      → value < 2147483648
      → value ≤ get_max_value project i
      → let t = (set_value project i value s).1 in
        (get_u32_value project i variable true (http_msg (answer 200 (print value)) ∷ []) s
          ≡ some (ok, (variable, t)))
        × (get_value project i t ≡ value)
  get_u32_value_lem print i value variable s p k v small most =
      let done = set_value-done project i value s k v most in
      let t = (set_value project i value s).1 in
      let read : str2int (print value) ≡ value =
        str2int-print print p value (omega arith)
        ∙ ap (λ b. if b then value else 0) (lt→ltb value 2147483648 small) in
      let r = record (request u32_param get i value no_text) { code = 200 } in
      let es = http_msg (answer 200 (print value)) ∷ [] in
      let ran =
        run-cons (http_msg (answer 200 (print value))) [] (request u32_param get i 0 no_text, s)
          (r, t) (answer-get i value 0 (print value) s read done)
        ∙ run-none (r, t) in
      (
        get-sent i variable es s t r
            (send_request-run es (request u32_param get i 0 no_text) r s t ran),
        (get_value-set_value project i value s v done).0,
      )
