-- ===== src/Backend/Wifidrv/Credentials.antt =====
-- backend/wifidrv.c: the name and the password of the network, as the other tasks set them.
use hq_components.Prelude.{
  Bool, Bool-cases, List, [], ap, arith, false, if◌then◌else◌, inl, inr, length, length-take,
  le→ltb, ltb, ltb→le, ltb→lt, lt→ltb, refl, replicate, suc, take, true, write_at,
  write_at-replicate, ℕ, ◌++◌, ◌-◌, ◌<◌, ◌==◌, ◌∙◌, ◌∷◌, ◌≡◌, ◌≢◌, ◌≤◌,
}
use hq_components.Backend.Parameters.{c_string}

-- The two arrays of ctx.wifi_config.sta: 32 and 64 bytes.
pub record Config : Type 0 where
  pub ssid : List ℕ
  pub password : List ℕ

-- wifiDrvSetAPName, of `len` bytes.
unfoldable pub set_ap_name : List ℕ → ℕ → Config → Bool × Config
set_ap_name name len c =
    let empty = replicate 32 0 in
    if ltb 32 len
    then (false, record c { ssid = empty })
    else (true, record c { ssid = write_at empty 0 (take len name) })

-- wifiDrvGetAPName: what strcpy writes, its closing 0 left out.
unfoldable pub get_ap_name : Config → List ℕ
unfolding c_string
get_ap_name c = c_string c.ssid

-- wifiDrvSetPassword: strncpy fills the array up with zeros.
unfoldable pub set_password : List ℕ → Config → Bool × Config
unfolding c_string
set_password passwd c = (true, record c { password = take 64 (c_string passwd ++ replicate 64 0) })

text-zeros : (text rest : List ℕ) → c_string (text ++ (0 ∷ rest)) ≡ c_string text
unfolding c_string
text-zeros [] rest = refl
text-zeros (c ∷ text) rest = ap (λ t. if c == 0 then [] else c ∷ t) (text-zeros text rest)

stored :
    (name : List ℕ) (len : ℕ)
    → len ≤ length name
    → len < 32
    → c_string (write_at (replicate 32 0) 0 (take len name)) ≡ c_string (take len name)
stored name len h l =
    let text = take len name in
    let size : length text ≡ len = omega (arith, length-take len name, h) in
    let left : 32 - length text ≡ suc (31 - length text) = omega (arith, size, l) in
    ap c_string (write_at-replicate [] text 32 0 0 refl (omega (arith, size, l)))
    ∙ ap (λ k. c_string (text ++ replicate k 0)) left
    ∙ text-zeros text (replicate (31 - length text) 0)

no_name : c_string (replicate 32 0) ≡ []
unfolding c_string
no_name = refl

-- A name of less than 32 bytes is read back up to its first 0. One of more than 32 bytes is refused,
-- but the name that was set before is lost. The password stays in
-- both cases. A name of exactly 32 bytes has no closing 0 in its array.
pub set_ap_name_lem :
    (name : List ℕ) (len : ℕ) (c : Config)
    → len ≤ length name
    → len ≢ 32
    → let (done, c') = set_ap_name name len c in
      (done ≡ ltb len 32)
      × (get_ap_name c' ≡ (if done then c_string (take len name) else []))
      × (c'.password ≡ c.password)
unfolding set_ap_name get_ap_name
set_ap_name_lem name len c h n = elim (Bool-cases (ltb len 32)) [
  | inl e ↦
      let less = ltb→lt len 32 e in
      rw (le→ltb 32 len (omega arith), e) (refl, stored name len h less, refl)
  | inr e ↦ let more = ltb→le len 32 e in rw (lt→ltb 32 len (omega arith), e) (refl, no_name, refl)
]
