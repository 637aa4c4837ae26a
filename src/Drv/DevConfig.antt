-- ===== src/Drv/DevConfig.antt =====
-- drv/dev_config.c: the serial number in flash.
-- The functions of the NVS library are a parameter, with the state of the partition. A string is
-- its bytes before the closing 0. The log and its lock are left out.
pub mod Serial
mod Tests
use hq_components.Prelude.{
  Bool, List, Option, [], false, if◌then◌else◌, length, ltb, none, not, set, some, true, ℕ,
}

-- The functions of the library on the partition dev_config, each with whether it gives ESP_OK.
-- get_str is given the bytes that it may write, the closing 0 counted.
pub record Nvs (N : Type 0) : Type 0 where
  pub open_readonly : N → Bool
  pub open_readwrite : N → Bool
  pub get_str : N → ℕ → Bool × List ℕ
  pub set_str : N → List ℕ → Bool × N
  pub commit : N → Bool × N

abbrev pub sn_size : ℕ
sn_size = 32

-- The static variables, with the partition.
pub record DevConfig (N : Type 0) : Type 0 where
  pub serial_number : List ℕ
  pub nvs : N

module _ {N : Type 0} (lib : Nvs N) where
  -- _read_data, with the result in front; `len` is what the uninitialised variable holds. When
  -- get_str fails, the buffer stays cleared.
  unfoldable pub read_data : ℕ → DevConfig N → Bool × DevConfig N
  read_data len s =
      let (ok, read) = lib.get_str s.nvs len in
      if not (lib.open_readonly s.nvs)
      then (false, s)
      else if not ok
      then (false, record s { serial_number = [] })
      else (true, record s { serial_number = read })

  -- _save_data, with the result in front.
  unfoldable pub save_data : DevConfig N → Bool × DevConfig N
  save_data s =
      let (set, stored) = lib.set_str s.nvs s.serial_number in
      let (committed, kept) = lib.commit stored in
      if not (lib.open_readwrite s.nvs)
      then (false, s)
      else if not set
      then (false, record s { nvs = stored })
      else (committed, record s { nvs = kept })

  -- DevConfig_SetSerialNumber; `none` is the failed assert.
  unfoldable pub set_serial_number : List ℕ → DevConfig N → Option (Bool × DevConfig N)
  unfolding save_data
  set_serial_number sn s =
      if ltb (length sn) sn_size
      then some (true, (save_data (record s { serial_number = sn })).1)
      else none

  -- DevConfig_Init
  unfoldable pub config_init : ℕ → N → DevConfig N
  unfolding read_data
  config_init len nvs = (read_data len (record { serial_number = []; nvs = nvs })).1

-- DevConfig_GetSerialNumber
abbrev pub get_serial_number : {N : Type 0} → DevConfig N → List ℕ
get_serial_number s = s.serial_number
