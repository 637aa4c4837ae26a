-- ===== src/Drv/OtaDrv.antt =====
-- drv/ota_drv.c: the update of the firmware over HTTPS.
-- The functions of esp_https_ota are a parameter, with a state that holds what they and the server
-- keep. Words of 32 bits are two's complement where the source has an int. The log, the event
-- handler that only writes to it, and the task that runs the download once are left out.
pub mod Session
pub mod Progress
pub mod Http
pub mod Fitting
mod Tests
use hq_components.Prelude.{
  Bool, Option, false, if◌then◌else◌, leb, ltb, none, not, some, suc, true, u32, zero, ℕ, ◌&&◌, ◌*◌,
  ◌-◌, ◌/◌, ◌==◌,
}

-- esp_err_t
pub data Err : Type 0 where
  esp_ok esp_fail esp_err_invalid_arg esp_err_https_ota_in_progress : Err
  esp_err : ℕ → Err

-- `err == ESP_OK`
abbrev pub is_ok : Err → Bool
is_ok esp_ok = true
is_ok esp_fail = false
is_ok esp_err_invalid_arg = false
is_ok esp_err_https_ota_in_progress = false
is_ok (esp_err code) = false

-- `err == ESP_ERR_HTTPS_OTA_IN_PROGRESS`
abbrev pub is_in_progress : Err → Bool
is_in_progress esp_ok = false
is_in_progress esp_fail = false
is_in_progress esp_err_invalid_arg = false
is_in_progress esp_err_https_ota_in_progress = true
is_in_progress (esp_err code) = false

-- ota_driver_state_t
pub data DriverState : Type 0 where
  state_idle state_download state_error state_download_finished : DriverState

-- The static variables of the driver.
pub record Ota : Type 0 where
  pub percentage_download : ℕ
  pub state : DriverState

-- The functions of the library; get_img_desc gives the secure version of the image.
pub record HttpsOta (H : Type 0) : Type 0 where
  pub begin : H → Err × H
  pub get_img_desc : H → Err × ℕ × H
  pub read_secure_version : H → ℕ
  pub get_image_size : H → ℕ
  pub perform : H → Err × H
  pub get_image_len_read : H → ℕ
  pub is_complete_data_received : H → Bool
  pub finish : H → Err × H
  pub abort : H → H

-- A result, or no more fuel, or the trap on a division by 0.
pub data Run (A : Type 0) : Type 0 where
  done : A → Run A
  no_fuel trap : Run A

-- The quotient of two ints.
abbrev pub size_of_int : ℕ → ℕ
size_of_int a = if leb 2147483648 a then 4294967296 - a else a

unfoldable pub divide_int : ℕ → ℕ → ℕ
divide_int a b =
    let q = size_of_int a / size_of_int b in
    let minus = u32 (4294967296 - q) in
    if leb 2147483648 a
    then (if leb 2147483648 b then q else minus)
    else (if leb 2147483648 b then minus else q)

-- `download * 100 / file_size`
unfoldable pub percentage : ℕ → ℕ → ℕ
unfolding divide_int
percentage download file_size = divide_int (u32 (download * 100)) file_size

-- _validate_image_header; `none` is NULL.
unfoldable pub validate_image_header : Option ℕ → ℕ → Err
validate_image_header none hw_sec_version = esp_err_invalid_arg
validate_image_header (some secure_version) hw_sec_version =
    if ltb secure_version hw_sec_version then esp_fail else esp_ok

module _ {H : Type 0} (lib : HttpsOta H) where
  -- From the label ota_end on.
  abbrev pub ota_end : H → Ota → Bool × H × Ota
  ota_end h o = (false, lib.abort h, record o { state = state_error })

  -- The loop of _download_and_update_firmware.
  unfoldable pub perform_all : ℕ → ℕ → H → Ota → Run (Err × H × Ota)
  unfolding percentage
  perform_all zero file_size h o = no_fuel
  perform_all (suc fuel) file_size h o =
      let (err, next) = lib.perform h in
      let read = record o {
        percentage_download = percentage (lib.get_image_len_read next) file_size;
      } in
      let rest = perform_all fuel file_size next read in
      if is_in_progress err then if file_size == 0 then trap else rest else done (err, next, o)

  -- What follows the loop.
  unfoldable pub conclude : Err → H → Ota → Bool × H × Ota
  conclude err h o =
      let (ota_finish_err, closed) = lib.finish h in
      if lib.is_complete_data_received h
      then if is_ok err && is_ok ota_finish_err
        then (true, closed, record o { state = state_download_finished })
        else ota_end closed o
      else ota_end h o

  unfoldable pub concluded : Run (Err × H × Ota) → Run (Bool × H × Ota)
  unfolding conclude
  concluded no_fuel = no_fuel
  concluded trap = trap
  concluded (done (err, h, o)) = done (conclude err h o)

  -- _download_and_update_firmware
  unfoldable pub download_and_update_firmware : ℕ → H → Ota → Run (Bool × H × Ota)
  unfolding perform_all concluded validate_image_header
  download_and_update_firmware fuel h o =
      let started = record o { state = state_download } in
      let (begun, opened) = lib.begin h in
      let (err, secure_version, described) = lib.get_img_desc opened in
      let valid = validate_image_header (some secure_version) (lib.read_secure_version described) in
      let downloaded = perform_all fuel (lib.get_image_size described) described started in
      if not (is_ok begun)
      then done (ota_end opened started)
      else if not (is_ok err)
      then done (ota_end described started)
      else if not (is_ok valid)
      then done (ota_end described started)
      else concluded downloaded

-- OTA_Download; `created` says whether xTaskCreate gives pdPASS.
abbrev pub ota_download : Bool → Bool
ota_download created = created

-- _init: `pending` says whether the state of the running image is read and is
-- ESP_OTA_IMG_PENDING_VERIFY; the image is then marked as valid.
unfoldable pub init : Bool → Ota → Ota × Bool
init pending o = (record o { state = state_idle }, pending)
