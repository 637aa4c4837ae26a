-- ===== src/Drv/DevConfig/Serial.antt =====
-- The serial number over a power cycle.
use hq_components.Prelude.{
  Bool-cases, List, [], ap, arith, inl, inr, length, ltb, refl, set, some, true, ℕ, ◌<◌, ◌≡◌,
}
use hq_components.Drv.DevConfig.{
  Nvs, DevConfig, sn_size, read_data, set_serial_number, config_init, get_serial_number, save_data,
}

module _ {N : Type 0} (lib : Nvs N) where
  -- The partition after a string was set and committed.
  abbrev pub kept : N → List ℕ → N
  kept n v = (lib.commit (lib.set_str n v).1).1

  -- What the NVS library says of itself: when a string could be set and committed, a read that may
  -- write it with its closing 0 gives it back, if the partition can be opened.
  pub record IsStore : Type 0 where
    pub reads :
        (n : N) (v : List ℕ) (len : ℕ)
        → (lib.set_str n v).0 ≡ true
        → (lib.commit (lib.set_str n v).1).0 ≡ true
        → lib.open_readonly (kept n v) ≡ true
        → length v < len
        → lib.get_str (kept n v) len ≡ (true, v)

  read_data-stored :
      (len : ℕ) (s : DevConfig N) (v : List ℕ)
      → lib.open_readonly s.nvs ≡ true
      → lib.get_str s.nvs len ≡ (true, v)
      → read_data lib len s ≡ (true, record s { serial_number = v })
  unfolding read_data
  read_data-stored len s v o r = rw (o, r) refl

  init-read :
      (len : ℕ) (n : N) (v : List ℕ)
      → lib.open_readonly n ≡ true
      → lib.get_str n len ≡ (true, v)
      → get_serial_number (config_init lib len n) ≡ v
  unfolding config_init
  init-read len n v o r =
      ap (λ t. t.1.serial_number)
        (read_data-stored len (record { serial_number = []; nvs = n }) v o r)

  -- A save that gives true has opened, set and committed.
  save_data-calls :
      (s : DevConfig N)
      → (save_data lib s).0 ≡ true
      → ((lib.set_str s.nvs s.serial_number).0 ≡ true)
        × ((lib.commit (lib.set_str s.nvs s.serial_number).1).0 ≡ true)
        × ((save_data lib s).1 ≡ record s { nvs = kept s.nvs s.serial_number })
  unfolding save_data
  save_data-calls s e = elim (Bool-cases (lib.open_readwrite s.nvs)) [
    | inr o ↦ absurd (ground (arith, e, o))
    | inl o ↦ elim (Bool-cases (lib.set_str s.nvs s.serial_number).0) [
      | inr t ↦ absurd (ground (arith, e, o, t))
      | inl t ↦ (t, ground (arith, e, o, t), rw (o, t) refl)
    ]
  ]

  -- A serial number of less than 32 bytes whose save succeeds is given by the driver at once, and
  -- after the next start as well, when that start can open the partition and the uninitialised
  -- length of its read is larger than the text. Of a save that fails nothing is said here.
  pub set-init :
      IsStore
      → (sn : List ℕ) (s : DevConfig N) (len : ℕ) → length sn < sn_size
      → (save_data lib (record s { serial_number = sn })).0 ≡ true
      → lib.open_readonly (kept s.nvs sn) ≡ true
      → length sn < len
      → (after : DevConfig N) × (set_serial_number lib sn s ≡ some (true, after))
        × (get_serial_number after ≡ sn)
        × (get_serial_number (config_init lib len after.nvs) ≡ sn)
  unfolding set_serial_number
  set-init store sn s len short saved opens long =
      let fits : ltb (length sn) 32 ≡ true = ground arith in
      let (set, committed, after) = save_data-calls (record s { serial_number = sn }) saved in
      (
        record { serial_number = sn; nvs = kept s.nvs sn },
        rw (fits, after) refl,
        refl,
        init-read len (kept s.nvs sn) sn opens (store.reads s.nvs sn len set committed opens long),
      )
