-- ===== src/Backend/Wifidrv/Restart.antt =====
-- The network over a power cycle.
use hq_components.Prelude.{
  Bool, Bool-cases, List, [], ap, arith, false, inl, inr, length, refl, replicate, suc, take, true,
  zero, ℕ, ◌++◌, ◌<◌, ◌==◌, ◌||◌, ◌∙◌, ◌∷◌, ◌≡◌,
}
use hq_components.Backend.Parameters.{c_string}
use hq_components.Backend.Wifidrv.Credentials.{Config}
use hq_components.Backend.Wifidrv.Flash.{
  ConData, Blobs, con_data_size, Keeper, copy_text, same_bytes, is_changed, data_save,
  keep_credentials, read_credentials,
}

zeros-text : (n m : ℕ) → c_string (take n (replicate m 0)) ≡ []
unfolding c_string
zeros-text zero m = refl
zeros-text (suc n) zero = refl
zeros-text (suc n) (suc m) = refl

first_byte : (c : ℕ) (a : List ℕ) → (c == 0) ≡ false → c_string (c ∷ a) ≡ c ∷ c_string a
unfolding c_string
first_byte c a f = rw f refl

no_byte : (c : ℕ) (a : List ℕ) → (c == 0) ≡ true → c_string (c ∷ a) ≡ []
unfolding c_string
no_byte c a t = rw t refl

nothing : c_string [] ≡ []
unfolding c_string
nothing = refl

c_string-copy_text :
    (a : List ℕ) (n m : ℕ)
    → length (c_string a) < n
    → c_string (take n (c_string a ++ replicate m 0)) ≡ c_string a
c_string-copy_text [] n m l = rw nothing (zeros-text n m)
c_string-copy_text (c ∷ a) zero m l = absurd (omega arith)
c_string-copy_text (c ∷ a) (suc n) m l = elim (Bool-cases (c == 0)) [
  | inl t ↦ rw (no_byte c a t) (zeros-text (suc n) m)
  | inr f ↦
      let fits : length (c_string a) < n = omega (arith, ap length (first_byte c a f), l) in
      rw (first_byte c a f) (
        first_byte c (take n (c_string a ++ replicate m 0)) f
        ∙ ap (λ t. c ∷ t) (c_string-copy_text a n m fits))
]

same_bytes-eq : (a b : List ℕ) → same_bytes a b ≡ true → a ≡ b
unfolding same_bytes
same_bytes-eq [] [] e = refl
same_bytes-eq [] (b ∷ ys) e = absurd (ground (arith, e))
same_bytes-eq (a ∷ xs) [] e = absurd (ground (arith, e))
same_bytes-eq (a ∷ xs) (b ∷ ys) e =
    let head : a ≡ b = ground (arith, e) in
    let tail : same_bytes xs ys ≡ true = ground (arith, e) in
    rw (head, same_bytes-eq xs ys tail) refl

unchanged : (a b : List ℕ) → is_changed a b ≡ false → c_string a ≡ c_string b
unfolding is_changed
unchanged a b e = same_bytes-eq (c_string a) (c_string b) (ground (arith, e))

-- A text that is copied into arrays twice is the same text.
copied_twice :
    (a : List ℕ) (n m : ℕ)
    → length (c_string a) < n
    → length (c_string a) < m
    → c_string (copy_text n (copy_text m a)) ≡ c_string a
copied_twice a n m k l =
    let once = c_string-copy_text a m m l in
    c_string-copy_text (copy_text m a) n n (rw once k) ∙ once

module _ {N : Type 0} (lib : Blobs N) where
  -- The flash has a blob of the right size with the data.
  abbrev pub Holds : N → ConData → Type 0
  Holds n con_data = (lib.get_size n ≡ (true, con_data_size)) × (lib.get_blob n ≡ (true, con_data))

  -- What the NVS library says of itself: a blob that is set and committed is there.
  pub record IsStore : Type 0 where
    pub is_open : (n : N) → lib.opens n ≡ true
    pub sets : (n : N) (con_data : ConData) → (lib.set_blob n con_data).0 ≡ true
    pub commits :
        (n : N) (con_data : ConData) → Holds (lib.commit (lib.set_blob n con_data).1).1 con_data

  abbrev is_new : Keeper N → Bool
  is_new s =
      is_changed s.wifi_con_data.ssid s.wifi_config.ssid
      || is_changed s.wifi_con_data.password s.wifi_config.password

  -- Data that is not new is in the flash.
  abbrev pub IsKept : Keeper N → Type 0
  IsKept s = is_new s ≡ false → Holds s.nvs s.wifi_con_data

  read-held :
      (s : Keeper N) (con_data : ConData)
      → lib.opens s.nvs ≡ true
      → Holds s.nvs con_data
      → read_credentials lib s ≡ (
        true,
        record s {
          wifi_config = record {
            ssid = copy_text 32 con_data.ssid;
            password = copy_text 64 con_data.password;
          };
          wifi_con_data = con_data;
        },
      )
  unfolding read_credentials
  read-held s con_data o (z, b) = rw (o, z, b) refl

  data_save-Holds :
      IsStore → (con_data : ConData) (n : N) → Holds (data_save lib con_data n).1 con_data
  unfolding data_save
  data_save-Holds store con_data n =
      rw (store.is_open n, store.sets n con_data) (store.commits n con_data)

  abbrev HasTexts : Config → ConData → Type 0
  HasTexts c con_data =
      (c_string (copy_text 32 con_data.ssid) ≡ c_string c.ssid)
      × (c_string (copy_text 64 con_data.password) ≡ c_string c.password)

  keep-Holds :
      IsStore
      → (s : Keeper N) → IsKept s
      → length (c_string s.wifi_config.ssid) < 32
      → length (c_string s.wifi_config.password) < 64
      → (con_data : ConData) × Holds (keep_credentials lib s).nvs con_data
        × HasTexts s.wifi_config con_data
  unfolding keep_credentials
  keep-Holds store s kept l m = elim (Bool-cases (is_new s)) [
    | inl t ↦ (
      record {
        ssid = copy_text 33 s.wifi_config.ssid;
        password = copy_text 64 s.wifi_config.password;
      },
      rw t (data_save-Holds store _ s.nvs),
      (
        copied_twice s.wifi_config.ssid 32 33 l (omega arith),
        copied_twice s.wifi_config.password 64 64 m m,
      ),
    )
    | inr f ↦
        let same_ssid = unchanged s.wifi_con_data.ssid s.wifi_config.ssid (ground (arith, f)) in
        let same_password =
          unchanged s.wifi_con_data.password s.wifi_config.password (ground (arith, f)) in
        (
          s.wifi_con_data,
          rw f (kept f),
          (
            c_string-copy_text s.wifi_con_data.ssid 32 32 (rw same_ssid l) ∙ same_ssid,
            c_string-copy_text s.wifi_con_data.password 64 64 (rw same_password m) ∙ same_password,
          ),
        )
  ]

  -- Once the network has given the device an address, the next start finds its name and password in
  -- the flash, whatever the driver holds then: both texts are the ones that were used, whether they
  -- were new and have been saved, or were those in the flash before. The texts have their closing 0
  -- in the arrays, and the flash takes what it is given.
  pub keep-read :
      IsStore
      → (s : Keeper N) (c : Config) (con_data : ConData) → IsKept s
      → length (c_string s.wifi_config.ssid) < 32
      → length (c_string s.wifi_config.password) < 64
      → let (found, t) = read_credentials lib (record {
        wifi_config = c;
        wifi_con_data = con_data;
        nvs = (keep_credentials lib s).nvs;
      }) in
        (found ≡ true)
        × (c_string t.wifi_config.ssid ≡ c_string s.wifi_config.ssid)
        × (c_string t.wifi_config.password ≡ c_string s.wifi_config.password)
  keep-read store s c con_data kept l m =
      let (held, holds, (ssid, password)) = keep-Holds store s kept l m in
      let again : Keeper N = record {
        wifi_config = c;
        wifi_con_data = con_data;
        nvs = (keep_credentials lib s).nvs;
      } in
      rw (read-held again held (store.is_open again.nvs) holds) (refl, ssid, password)
