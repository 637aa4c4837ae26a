-- ===== src/Drv/OtaDrv/Tests.antt =====
-- Downloads of an image of 1000 bytes in three calls.
use hq_components.Prelude.{
  Bool, List, [], arith, false, if◌then◌else◌, leb, length, ltb, min, refl, ℕ, ◌*◌, ◌∷◌, ◌≡◌,
}
use hq_components.Drv.OtaDrv.{
  Err, esp_ok, esp_fail, esp_err_https_ota_in_progress, state_idle, state_error,
  state_download_finished, Ota, HttpsOta, done, trap, perform_all, download_and_update_firmware,
}
use hq_components.Drv.OtaDrv.Session.{last, more, is_updated, download-refused, download-ends}
use hq_components.Drv.OtaDrv.Progress.{IsPercentage, perform_all-IsPercentage}

data Call : Type 0 where
  performed finished aborted : Call

-- The library keeps the calls, the last one first; its answers are the version of the image, the
-- size and the result of the finish.
abbrev library : ℕ → ℕ → Err → HttpsOta (List Call)
library version size finishes = record {
  begin = λ h. (esp_ok, h);
  get_img_desc = λ h. (esp_ok, version, h);
  read_secure_version = λ h. 2;
  get_image_size = λ h. size;
  perform =
      λ h. (if ltb (length h) 2 then esp_err_https_ota_in_progress else esp_ok, performed ∷ h);
  get_image_len_read = λ h. min 1000 (length h * 400);
  is_complete_data_received = λ h. leb 3 (length h);
  finish = λ h. (finishes, finished ∷ h);
  abort = λ h. aborted ∷ h;
}

abbrev idle : Ota
idle = record { percentage_download = 0; state = state_idle }

abbrev good : HttpsOta (List Call)
good = library 3 1000 esp_ok

download-ends_example :
    (r : Bool × List Call × Ota) × (download_and_update_firmware good 5 [] idle ≡ done r)
    × (r.0 ≡ is_updated good esp_ok (performed ∷ performed ∷ performed ∷ []))
    × (r.2.state ≡ (
        if is_updated good esp_ok (performed ∷ performed ∷ performed ∷ [])
        then state_download_finished
        else state_error))
download-ends_example =
    download-ends good 5 2 [] esp_ok (performed ∷ performed ∷ performed ∷ []) idle refl
      (omega arith)
      (more 1 [] esp_ok _ refl
        (more 0 (performed ∷ []) esp_ok _ refl (last (performed ∷ performed ∷ []) refl)))
      (omega arith)

download-refused_test :
    download_and_update_firmware (library 1 1000 esp_ok) 5 [] idle
    ≡ done (false, aborted ∷ [], record idle { state = state_error })
download-refused_test = download-refused (library 1 1000 esp_ok) 5 [] idle refl

perform_all-IsPercentage_test : IsPercentage (perform_all good 5 1000 [] idle)
perform_all-IsPercentage_test =
    perform_all-IsPercentage good 5 1000 [] idle (λ k. omega arith) (omega arith) (omega arith)
      (omega arith)

-- When the finish fails, the handle is aborted although the finish has released it.
finish_fails :
    download_and_update_firmware (library 3 1000 esp_fail) 5 [] idle
    ≡ done (
      false,
      aborted ∷ finished ∷ performed ∷ performed ∷ performed ∷ [],
      record { percentage_download = 80; state = state_error },
    )
unfolding download_and_update_firmware
finish_fails = refl

-- A size of 0 is divided by.
empty_image : download_and_update_firmware (library 3 0 esp_ok) 5 [] idle ≡ trap
unfolding download_and_update_firmware
empty_image = refl
