-- ===== src/MongooseDrv/ParametersApi/Strings.antt =====
-- Reading and writing a text over HTTP, and where the server gives up.
use hq_components.Prelude.{
  Bool, Bool-cases, List, [], arith, false, inl, inr, length, length-append, le→ltb, lt→ltb, none,
  refl, some, true, ℕ, ◌<◌, ◌↔◌, ◌∙◌, ◌∷◌, ◌≡◌, ◌≢◌, ◌≤◌, ◌⊎◌,
}
use hq_components.Backend.Parameters.{Store, c_string, get_string, get_string_name, set_string}
use hq_components.Backend.Parameters.Strings.{set_string_lem}
use hq_components.MongooseDrv.Text.{bytes}
use hq_components.MongooseDrv.HttpServer.{Method, delete, get, patch, post, put, unhallowed}
use hq_components.MongooseDrv.HttpServer.Routing.{is_plain, Globs}
use hq_components.MongooseDrv.ParametersApi.{
  answer, find_uri, not_exist, not_exist_text, str_uri, str_request, str_parse_cb,
}

text-length : (cs : List ℕ) → length (c_string cs) ≤ length cs
unfolding c_string
text-length [] = omega arith
text-length (c ∷ cs) = ground (arith, text-length cs)

request-post :
    (body : List ℕ) (s : Store)
    → length body < 48
    → (set_string 0 body s).0 ≡ true
    → str_request 0 body post s ≡ some (answer 200 (bytes "OK"), (set_string 0 body s).1)
unfolding str_request
request-post body s h d = rw (lt→ltb (length body) 48 h, d) refl

request-get :
    (body text : List ℕ) (s : Store)
    → get_string 0 128 s ≡ some text
    → str_request 0 body get s ≡ some (answer 200 text, s)
unfolding str_request
request-get body text s e = rw e refl

request-long : (body : List ℕ) (s : Store) → 48 ≤ length body → str_request 0 body post s ≡ none
unfolding str_request
request-long body s h = rw (le→ltb (length body) 48 h) refl

uri-plain : is_plain (str_uri 0) ≡ true
unfolding str_uri get_string_name
uri-plain = refl

-- At a text of the parser, only a POST of a body that is too long gives no answer.
request-none :
    (body : List ℕ) (m : Method) (s : Store)
    → get_string 0 128 s ≢ none
    → (str_request 0 body m s ≡ none) ↔ ((m ≡ post) × (48 ≤ length body))
unfolding str_request
request-none body get s reads = ground (arith, reads)
request-none body post s reads = ground arith
request-none body put s reads = ground arith
request-none body delete s reads = ground arith
request-none body patch s reads = ground arith
request-none body unhallowed s reads = ground arith

not_exist-none :
    (uri : List ℕ) (s : Store) → (not_exist uri s ≡ none) ↔ (107 < length (c_string uri))
unfolding not_exist not_exist_text
not_exist-none uri s = ground (arith, length-append (bytes "Parameter not exist ") (c_string uri))

module _ (mg_match : List ℕ → List ℕ → Bool) where
  parse-matched :
      (uri body : List ℕ) (m : Method) (s : Store)
      → mg_match uri (str_uri 0) ≡ true
      → str_parse_cb mg_match uri body m s ≡ str_request 0 body m s
  unfolding str_parse_cb find_uri
  parse-matched uri body m s e = rw (e, str_parse_cb) refl

  parse-unknown :
      (uri body : List ℕ) (m : Method) (s : Store)
      → mg_match uri (str_uri 0) ≡ false
      → str_parse_cb mg_match uri body m s ≡ not_exist uri s
  unfolding str_parse_cb find_uri
  parse-unknown uri body m s e = rw (e, str_parse_cb) refl

  -- Where the serial number can be read into 128 bytes, a request for a text stays without an answer
  -- exactly when its URI does not match that of the serial number and has more than 107 bytes before
  -- its first 0, so that the answer goes over the end of response_buffer, or when its URI matches
  -- and it is a POST of 48 bytes or more, which an assertion stops.
  pub str_parse_cb-none :
      (uri body : List ℕ) (m : Method) (s : Store)
      → get_string 0 128 s ≢ none
      → let known = mg_match uri (str_uri 0) in
        (str_parse_cb mg_match uri body m s ≡ none) ↔ (
          ((known ≡ false) × (107 < length (c_string uri)))
          ⊎ ((known ≡ true) × ((m ≡ post) × (48 ≤ length body))))
  str_parse_cb-none uri body m s reads = elim (Bool-cases (mg_match uri (str_uri 0))) [
    | inl hit ↦
        let law = request-none body m s reads in
        rw (parse-matched uri body m s hit, hit)
          (λ e. inr (refl, law.0 e), λ h. elim h [ inl far ↦ cc | inr long ↦ law.1 (long.1) ])
    | inr miss ↦
        let law = not_exist-none uri s in
        rw (parse-unknown uri body m s miss, miss)
          (λ e. inl (refl, law.0 e), λ h. elim h [ inl far ↦ law.1 (far.1) | inr long ↦ cc ])
  ]

module _ (mg_match : List ℕ → List ℕ → Bool) (g : Globs mg_match) where
  parse-known :
      (body : List ℕ) (m : Method) (s : Store)
      → str_parse_cb mg_match (str_uri 0) body m s ≡ str_request 0 body m s
  parse-known body m s =
      parse-matched mg_match (str_uri 0) body m s (g.plain_self (str_uri 0) uri-plain)

  -- A body of less than 48 bytes, sent in a POST to the URI of the serial number, is stored up to
  -- its first 0 and answered with 200; a GET then answers that text.
  pub str_post-get :
      (body any : List ℕ) (s : Store)
      → length s.strings ≡ 1
      → length body < 48
      → let t = (set_string 0 body s).1 in
        (str_parse_cb mg_match (str_uri 0) body post s ≡ some (answer 200 (bytes "OK"), t))
        × (str_parse_cb mg_match (str_uri 0) any get t ≡ some (answer 200 (c_string body), t))
  str_post-get body any s v h =
      let t = (set_string 0 body s).1 in
      let short = lt→ltb (length (c_string body)) 48 (omega (arith, text-length body, h)) in
      let fits = lt→ltb (length (c_string body)) 128 (omega (arith, text-length body, h)) in
      let law = set_string_lem 0 128 body s v in
      let done : (set_string 0 body s).0 ≡ true = law.0 ∙ rw short refl in
      (
        parse-known body post s ∙ request-post body s h done,
        parse-known any get t ∙ request-get any (c_string body) t (law.1 ∙ rw (done, fits) refl),
      )

  -- A POST of 48 bytes or more to the URI of the serial number stops the firmware at an assertion.
  pub str_post_long :
      (body : List ℕ) (s : Store)
      → 48 ≤ length body
      → str_parse_cb mg_match (str_uri 0) body post s ≡ none
  str_post_long body s h = parse-known body post s ∙ request-long body s h
