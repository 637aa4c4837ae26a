-- ===== src/MongooseDrv/HttpServer/Routing.antt =====
-- What mongoose's patterns mean, and which callback answers a message.
use hq_components.Prelude.{
  Bool, List, [], arith, false, not, refl, true, ℕ, ◌&&◌, ◌++◌, ◌==◌, ◌||◌, ◌∙◌, ◌∷◌, ◌≡◌, ◌≢◌,
}
use hq_components.MongooseDrv.HttpServer.{
  Method, put, get, post, delete, patch, unhallowed, method_name, get_method, get_method_from,
}

-- Whether a pattern has none of the characters ?, * and #.
abbrev pub is_plain : List ℕ → Bool
is_plain [] = true
is_plain (c ∷ cs) = not (c == 63 || (c == 42 || c == 35)) && is_plain cs

-- mg_match: a pattern without wildcards matches the text that it is, and a # behind it matches
-- whatever follows.
pub record Globs (mg_match : List ℕ → List ℕ → Bool) : Type 0 where
  pub plain_self : (p : List ℕ) → is_plain p ≡ true → mg_match p p ≡ true
  pub plain_other : (s p : List ℕ) → is_plain p ≡ true → s ≢ p → mg_match s p ≡ false
  pub prefix : (p rest : List ℕ) → is_plain p ≡ true → mg_match (p ++ rest) (p ++ (35 ∷ [])) ≡ true

-- mg_vcasecmp: equal texts compare as 0, the names of two methods do not.
pub record Compares (mg_vcasecmp : List ℕ → List ℕ → ℕ) : Type 0 where
  pub same : (a : List ℕ) → mg_vcasecmp a a ≡ 0
  pub other : (m n : Method) → m ≢ n → mg_vcasecmp (method_name m) (method_name n) ≢ 0

module _ (mg_vcasecmp : List ℕ → List ℕ → ℕ) (c : Compares mg_vcasecmp) where
  is_same : (m : Method) → (mg_vcasecmp (method_name m) (method_name m) == 0) ≡ true
  is_same m = let e = c.same (method_name m) in rw e refl

  is_other : (m n : Method) → m ≢ n → (mg_vcasecmp (method_name m) (method_name n) == 0) ≡ false
  is_other m n h = let e = c.other m n h in ground (arith, e)

  skip :
      (m n : Method) (ns : List Method)
      → m ≢ n
      → get_method_from mg_vcasecmp (n ∷ ns) (method_name m)
        ≡ get_method_from mg_vcasecmp ns (method_name m)
  unfolding get_method_from
  skip m n ns h = rw (is_other m n h) refl

  found : (m : Method) (ns : List Method) → get_method_from mg_vcasecmp (m ∷ ns) (method_name m) ≡ m
  unfolding get_method_from
  found m ns = rw (is_same m) refl

  -- _get_method recognises the names of POST and GET, which the client sends.
  pub get_method_lem :
      (get_method mg_vcasecmp (method_name post) ≡ post)
      × (get_method mg_vcasecmp (method_name get) ≡ get)
  unfolding get_method
  get_method_lem =
      let end = delete ∷ patch ∷ unhallowed ∷ [] in
      (
        skip post put (get ∷ post ∷ end) (ground arith)
            ∙ skip post get (post ∷ end) (ground arith)
            ∙ found post end,
        skip get put (get ∷ post ∷ end) (ground arith) ∙ found get (post ∷ end),
      )
