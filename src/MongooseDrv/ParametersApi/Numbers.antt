-- ===== src/MongooseDrv/ParametersApi/Numbers.antt =====
-- Reading and writing a parameter over HTTP.
use hq_components.Prelude.{
  Bool, Bool-cases, List, ap, arith, false, if◌then◌else◌, inl, inr, le→leb, le→ltb, ltb, ltb→le,
  ltb→lt, lt→ltb, refl, some, suc, sym, true, zero, ℕ, ◌++◌, ◌+◌, ◌<◌, ◌∙◌, ◌≡◌, ◌≢◌, ◌≤◌,
}
use hq_components.Backend.Parameters.{
  Parameter, Store, last_value, get_value, set_value, get_max_value,
}
use hq_components.Backend.Parameters.Values.{IsStore, get_value-set_value, set_value_lem}
use hq_components.MongooseDrv.Text.{bytes, str2int, PrintsLong}
use hq_components.MongooseDrv.Text.Numbers.{str2int-print}
use hq_components.MongooseDrv.HttpServer.{Method, get, post}
use hq_components.MongooseDrv.HttpServer.Routing.{is_plain, Globs}
use hq_components.MongooseDrv.ParametersApi.{answer, find_uri, u32_uri, u32_request, parse_cb}

-- The URI of the parameter `i` has no wildcards and is that of no earlier parameter.
pub record IsNamed (project : List Parameter) (i : ℕ) : Type 0 where
  pub known : i < last_value project
  pub plain : (j : ℕ) → j ≤ i → is_plain (u32_uri project j) ≡ true
  pub first : (j : ℕ) → j < i → u32_uri project j ≢ u32_uri project i

pub set_value-done :
    (project : List Parameter) (i value : ℕ) (s : Store)
    → i < last_value project
    → IsStore project s
    → value ≤ get_max_value project i
    → (set_value project i value s).0 ≡ true
set_value-done project i value s k v most =
    (set_value_lem project i value s v).0
    ∙ rw (lt→ltb i (last_value project) k, le→leb value (get_max_value project i) most) refl

module _ (mg_match : List ℕ → List ℕ → Bool) (g : Globs mg_match) where
  find_uri_lem :
      (uris : ℕ → List ℕ) (i n k : ℕ)
      → ((j : ℕ) → j ≤ i → is_plain (uris j) ≡ true)
      → ((j : ℕ) → j < i → uris j ≢ uris i)
      → k ≤ i
      → i < k + n
      → find_uri mg_match uris (uris i) n k ≡ some i
  unfolding find_uri
  find_uri_lem uris i zero k p f a b = absurd (omega arith)
  find_uri_lem uris i (suc n) k p f a b = elim (Bool-cases (ltb k i)) [
    | inl e ↦
        let less = ltb→lt k i e in
        rw (g.plain_other (uris i) (uris k) (p k a) (λ q. f k less (sym q)))
          (find_uri_lem uris i n (k + 1) p f (omega arith) (omega arith))
    | inr e ↦
        let same : k ≡ i = omega (arith, ltb→le k i e) in
        rw (same, g.plain_self (uris i) (p i (omega arith))) refl
  ]

  module _ (project : List Parameter) (print : ℕ → List ℕ) where
    parse_cb-found :
        (uri body : List ℕ) (i : ℕ) (m : Method) (s : Store)
        → find_uri mg_match (u32_uri project) uri (last_value project) 0 ≡ some i
        → parse_cb mg_match project print uri body m s ≡ u32_request project print i body m s
    unfolding parse_cb
    parse_cb-found uri body i m s e = rw (e, parse_cb) refl

    pub parse_cb-known :
        (i : ℕ) (body : List ℕ) (m : Method) (s : Store)
        → IsNamed project i
        → parse_cb mg_match project print (u32_uri project i) body m s
          ≡ u32_request project print i body m s
    parse_cb-known i body m s n = parse_cb-found (u32_uri project i) body i m s (
        find_uri_lem (u32_uri project) i (last_value project) 0 n.plain n.first (omega arith)
          (omega (arith, n.known)))

    request-post :
        (i value : ℕ) (body : List ℕ) (s : Store)
        → str2int body ≡ value
        → (set_value project i value s).0 ≡ true
        → u32_request project print i body post s
          ≡ some (answer 200 (bytes "OK"), (set_value project i value s).1)
    unfolding u32_request
    request-post i value body s e d = rw (e, d) refl

    request-refused :
        (i value : ℕ) (body : List ℕ) (s : Store)
        → str2int body ≡ value
        → (set_value project i value s).0 ≡ false
        → u32_request project print i body post s
          ≡ some
              (answer 400 (bytes "Fail set value " ++ print value), (set_value project i value s).1)
    unfolding u32_request
    request-refused i value body s e d = rw (e, d) refl

    request-get :
        (i : ℕ) (body : List ℕ) (s : Store)
        → u32_request project print i body get s
          ≡ some (answer 200 (print (get_value project i s)), s)
    unfolding u32_request
    request-get i body s = refl

    set_value-refused :
        (i value : ℕ) (s : Store)
        → get_max_value project i < value
        → (set_value project i value s ≡ (false, s))
    unfolding set_value get_max_value
    set_value-refused i value s h = ground arith

    module _ (p : PrintsLong print) where
      -- A value below 2^31 and at most the parameter's maximum, sent in a POST to the parameter's
      -- URI, is stored and answered with 200; a GET then answers its digits.
      pub post-get :
          (i value : ℕ) (any : List ℕ) (s : Store)
          → IsNamed project i
          → IsStore project s
          → value < 2147483648
          → value ≤ get_max_value project i
          → let uri = u32_uri project i in
            let t = (set_value project i value s).1 in
            (parse_cb mg_match project print uri (print value) post s
              ≡ some (answer 200 (bytes "OK"), t))
            × (parse_cb mg_match project print uri any get t ≡ some (answer 200 (print value), t))
      post-get i value any s n v small most =
          let t = (set_value project i value s).1 in
          let read : str2int (print value) ≡ value =
            str2int-print print p value (omega arith)
            ∙ ap (λ b. if b then value else 0) (lt→ltb value 2147483648 small) in
          let done = set_value-done project i value s n.known v most in
          (
            parse_cb-known i (print value) post s n
                ∙ request-post i value (print value) s read done,
            parse_cb-known i any get t n
                ∙ request-get i any t
                ∙ ap (λ w. some (answer 200 (print w), t))
                    (get_value-set_value project i value s v done).0,
          )

      -- A value above the parameter's maximum that is sent in a POST is refused with 400 and its
      -- own digits, and nothing changes.
      pub post-refused :
          (i value : ℕ) (s : Store)
          → IsNamed project i
          → value < 2147483648
          → get_max_value project i < value
          → parse_cb mg_match project print (u32_uri project i) (print value) post s
            ≡ some (answer 400 (bytes "Fail set value " ++ print value), s)
      post-refused i value s n small big =
          let read : str2int (print value) ≡ value =
            str2int-print print p value (omega arith)
            ∙ ap (λ b. if b then value else 0) (lt→ltb value 2147483648 small) in
          let refused = set_value-refused i value s big in
          parse_cb-known i (print value) post s n
          ∙ request-refused i value (print value) s read (ap (λ r. r.0) refused)
          ∙ ap (λ r. some (answer 400 (bytes "Fail set value " ++ print value), r.1)) refused

      -- A value of 2^31 or more that is sent in a POST sets the parameter to 0, and is answered as
      -- if it had been stored.
      pub post-large :
          (i value : ℕ) (s : Store)
          → IsNamed project i
          → IsStore project s
          → 2147483648 ≤ value
          → value < 4294967296
          → parse_cb mg_match project print (u32_uri project i) (print value) post s
            ≡ some (answer 200 (bytes "OK"), (set_value project i 0 s).1)
      post-large i value s n v large w =
          let read : str2int (print value) ≡ 0 =
            str2int-print print p value w
            ∙ ap (λ b. if b then value else 0) (le→ltb value 2147483648 large) in
          let done = set_value-done project i 0 s n.known v (omega arith) in
          parse_cb-known i (print value) post s n ∙ request-post i 0 (print value) s read done
