-- ===== src/Backend/Wifidrv/Flash.antt =====
-- backend/wifidrv.c: the copy of the name and the password in the flash.
-- The functions of the NVS library are a parameter, with the state of the flash. An array without a
-- closing 0, behind which strncpy and memcmp would read on, is not modelled: the theorem asks for
-- shorter texts.
use hq_components.Prelude.{
  Bool, List, [], false, if◌then◌else◌, not, replicate, set, take, true, ℕ, ◌&&◌, ◌++◌, ◌==◌, ◌||◌,
  ◌∷◌,
}
use hq_components.Backend.Parameters.{c_string}
use hq_components.Backend.Wifidrv.Credentials.{Config}

-- wifiConData_t
pub record ConData : Type 0 where
  pub ssid : List ℕ
  pub password : List ℕ

-- The calls of the NVS library for the blob "wifi", each with whether it gives ESP_OK. get_size
-- gives a size of 0 and no failure when there is no blob.
pub record Blobs (N : Type 0) : Type 0 where
  pub opens : N → Bool
  pub set_blob : N → ConData → Bool × N
  pub commit : N → Bool × N
  pub get_size : N → Bool × ℕ
  pub get_blob : N → Bool × ConData

-- sizeof( wifiConData_t )
abbrev pub con_data_size : ℕ
con_data_size = 97

-- The part of ctx with the name and the password, and the flash.
pub record Keeper (N : Type 0) : Type 0 where
  pub wifi_config : Config
  pub wifi_con_data : ConData
  pub nvs : N

-- strncpy into an array of `n` bytes
abbrev pub copy_text : ℕ → List ℕ → List ℕ
copy_text n text = take n (c_string text ++ replicate n 0)

unfoldable pub same_bytes : List ℕ → List ℕ → Bool
same_bytes [] [] = true
same_bytes [] (b ∷ ys) = false
same_bytes (a ∷ xs) [] = false
same_bytes (a ∷ xs) (b ∷ ys) = a == b && same_bytes xs ys

-- memcmp of two arrays over the longer of their texts: 0 when the texts are the same.
unfoldable pub is_changed : List ℕ → List ℕ → Bool
unfolding same_bytes c_string
is_changed a b = not (same_bytes (c_string a) (c_string b))

module _ {N : Type 0} (lib : Blobs N) where
  -- _wifi_data_save, with whether it gives ESP_OK.
  unfoldable pub data_save : ConData → N → Bool × N
  data_save con_data n =
      let (set, stored) = lib.set_blob n con_data in
      let (committed, kept) = lib.commit stored in
      if not (lib.opens n)
      then (false, n)
      else if not set
      then (false, stored)
      else (committed, kept)

  -- _wifi_data_read: whether it gives ESP_OK, and what the data becomes.
  unfoldable pub data_read : ConData → N → Bool × ConData
  data_read con_data n =
      let (sized, required_size) = lib.get_size n in
      let (ok, read) = lib.get_blob n in
      if not (lib.opens n)
      then (false, con_data)
      else if not sized
      then (false, con_data)
      else if required_size == con_data_size
      then (ok, read)
      else (false, con_data)

  -- The name and the password in _got_ip_event_handler.
  unfoldable pub keep_credentials : Keeper N → Keeper N
  unfolding is_changed data_save
  keep_credentials s =
      let con_data : ConData = record {
        ssid = copy_text 33 s.wifi_config.ssid;
        password = copy_text 64 s.wifi_config.password;
      } in
      if is_changed s.wifi_con_data.ssid s.wifi_config.ssid
        || is_changed s.wifi_con_data.password s.wifi_config.password
      then record s { wifi_con_data = con_data; nvs = (data_save con_data s.nvs).1 }
      else s

  -- The name and the password in _state_init, with whether read_wifi_data is set.
  unfoldable pub read_credentials : Keeper N → Bool × Keeper N
  unfolding data_read
  read_credentials s =
      let (ok, con_data) = data_read s.wifi_con_data s.nvs in
      if ok
      then (
        true,
        record s {
          wifi_config = record {
            ssid = copy_text 32 con_data.ssid;
            password = copy_text 64 con_data.password;
          };
          wifi_con_data = con_data;
        },
      )
      else (false, record s { wifi_con_data = con_data })
