-- ===== src/Drv/DevConfig/Tests.antt =====
-- The serial number on a small partition.
use hq_components.Prelude.{
  Bool-cases, List, [], arith, false, if◌then◌else◌, inl, inr, length, ltb, lt→ltb, refl, replicate,
  some, true, ℕ, ◌<◌, ◌∷◌, ◌≡◌,
}
use hq_components.Drv.DevConfig.{
  Nvs, DevConfig, save_data, set_serial_number, config_init, get_serial_number,
}
use hq_components.Drv.DevConfig.Serial.{IsStore, set-init}

-- A partition that keeps one string of at most eight bytes: a longer one is not set. A read of fewer
-- bytes than the string and its closing 0 fails.
abbrev library : Nvs (List ℕ)
library = record {
  open_readonly = λ n. true;
  open_readwrite = λ n. true;
  get_str = λ n len. if ltb (length n) len then (true, n) else (false, []);
  set_str = λ n v. if ltb 8 (length v) then (false, n) else (true, v);
  commit = λ n. (true, n);
}

get_str-set_str :
    (n v : List ℕ) (len : ℕ)
    → (library.set_str n v).0 ≡ true
    → length v < len
    → library.get_str (library.set_str n v).1 len ≡ (true, v)
get_str-set_str n v len e l = elim (Bool-cases (ltb 8 (length v))) [
  | inl t ↦ absurd (ground (arith, e, t))
  | inr f ↦ rw (f, lt→ltb (length v) len l) refl
]

library-IsStore : IsStore library
library-IsStore = record { reads = λ n v len e c o l. get_str-set_str n v len e l }

abbrev fresh : DevConfig (List ℕ)
fresh = record { serial_number = []; nvs = [] }

saves : (save_data library (record fresh { serial_number = 65 ∷ 66 ∷ [] })).0 ≡ true
unfolding save_data
saves = refl

set-init_example :
    (after : DevConfig (List ℕ)) × (set_serial_number library (65 ∷ 66 ∷ []) fresh
      ≡ some (true, after))
    × (get_serial_number after ≡ 65 ∷ 66 ∷ [])
    × (get_serial_number (config_init library 32 after.nvs) ≡ 65 ∷ 66 ∷ [])
set-init_example =
    set-init library library-IsStore (65 ∷ 66 ∷ []) fresh 32 (omega arith) saves refl (omega arith)

-- A save that fails is reported as a success.
failed_save :
    set_serial_number library (replicate 9 65) fresh
    ≡ some (true, record { serial_number = replicate 9 65; nvs = [] })
unfolding set_serial_number
failed_save = refl

-- A length that happens to be 0 loses the serial number.
length_of_zero : get_serial_number (config_init library 0 (65 ∷ 66 ∷ [])) ≡ []
unfolding config_init
length_of_zero = refl
