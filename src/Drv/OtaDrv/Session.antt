-- ===== src/Drv/OtaDrv/Session.antt =====
-- How a download ends.
use hq_components.Prelude.{
  Bool, Bool-cases, ap, arith, false, if◌then◌else◌, inl, inr, leb, refl, some, suc, true, zero, ℕ,
  ◌&&◌, ◌<◌, ◌==◌, ◌∙◌, ◌≡◌,
}
use hq_components.Drv.OtaDrv.{
  Err, is_ok, is_in_progress, state_download, state_error, state_download_finished, Ota, HttpsOta,
  done, percentage, validate_image_header, perform_all, conclude, concluded,
  download_and_update_firmware,
}

and3 : (a b c : Bool) → (a && (b && c)) ≡ true → (a ≡ true) × (b ≡ true) × (c ≡ true)
and3 a b c h = (ground (arith, h), ground (arith, h), ground (arith, h))

module _ {H : Type 0} (lib : HttpsOta H) where
  -- From one state on, esp_https_ota_perform is in progress for a number of calls, and then gives
  -- a result and a last state.
  pub data Performs : ℕ → H → Err → H → Type 0 where
    last :
        (h : H)
        → is_in_progress (lib.perform h).0 ≡ false
        → Performs 0 h (lib.perform h).0 (lib.perform h).1
    more :
        (n : ℕ) (h : H) (err : Err) (end : H)
        → is_in_progress (lib.perform h).0 ≡ true
        → Performs n (lib.perform h).1 err end
        → Performs (suc n) h err end

  perform_all-last :
      (fuel size : ℕ) (h : H) (o : Ota)
      → is_in_progress (lib.perform h).0 ≡ false
      → perform_all lib (suc fuel) size h o ≡ done ((lib.perform h).0, (lib.perform h).1, o)
  unfolding perform_all
  perform_all-last fuel size h o e = rw e refl

  perform_all-more :
      (fuel size : ℕ) (h : H) (o : Ota)
      → is_in_progress (lib.perform h).0 ≡ true
      → (size == 0) ≡ false
      → perform_all lib (suc fuel) size h o
        ≡ perform_all lib fuel size (lib.perform h).1 (record o {
          percentage_download = percentage (lib.get_image_len_read (lib.perform h).1) size;
        })
  unfolding perform_all
  perform_all-more fuel size h o e ne = rw (e, ne) refl

  -- The loop ends with enough fuel, and changes the percentage only.
  perform_all-done :
      (fuel size n : ℕ) (h : H) (err : Err) (end : H) (o : Ota)
      → Performs n h err end
      → n < fuel
      → 0 < size
      → (p : ℕ) × (perform_all lib fuel size h o
          ≡ done (err, end, record o { percentage_download = p }))
  perform_all-done zero size n h err end o ps l z = absurd (omega arith)
  perform_all-done (suc fuel) size _ h _ _ o (last _ e) l z =
      (o.percentage_download, perform_all-last fuel size h o e)
  perform_all-done (suc fuel) size _ h err end o (more n _ _ _ e ps) l z =
      let (p, eq) = perform_all-done fuel size n (lib.perform h).1 err end _ ps (omega arith) z in
      (p, perform_all-more fuel size h o e (ground arith) ∙ eq)

  -- Whether the update is in place after the last call of esp_https_ota_perform.
  abbrev pub is_updated : Err → H → Bool
  is_updated err end = lib.is_complete_data_received end && (is_ok err && is_ok (lib.finish end).0)

  conclude_lem :
      (err : Err) (h : H) (o : Ota)
      → ((conclude lib err h o).0 ≡ is_updated err h)
        × ((conclude lib err h o).2 ≡ record o {
          state = if is_updated err h then state_download_finished else state_error;
        })
  unfolding conclude
  conclude_lem err h o = elim (Bool-cases (lib.is_complete_data_received h)) [
    | inl t ↦ elim (Bool-cases (is_ok err && is_ok (lib.finish h).0)) [
      | inl u ↦ rw (t, u) (refl, refl)
      | inr u ↦ rw (t, u) (refl, refl)
    ]
    | inr f ↦ rw f (refl, refl)
  ]

  abbrev pub opened : H → H
  opened h = (lib.begin h).1

  abbrev pub described : H → H
  described h = (lib.get_img_desc (opened h)).2

  -- The server is reached, the image has a description, and its version is not too low.
  abbrev pub is_accepted : H → Bool
  is_accepted h =
      is_ok (lib.begin h).0
      && (is_ok (lib.get_img_desc (opened h)).0
          && leb (lib.read_secure_version (described h)) (lib.get_img_desc (opened h)).1)

  valid_lem : (v w : ℕ) → is_ok (validate_image_header (some v) w) ≡ leb w v
  unfolding validate_image_header
  valid_lem v w = ground arith

  download-accepted :
      (fuel : ℕ) (h : H) (o : Ota)
      → is_accepted h ≡ true
      → download_and_update_firmware lib fuel h o
        ≡ concluded lib (
            perform_all lib fuel
              (lib.get_image_size (described h))
              (described h)
              (record o { state = state_download }))
  unfolding download_and_update_firmware
  download-accepted fuel h o e =
      let (b, d, v) =
        and3 (is_ok (lib.begin h).0) (is_ok (lib.get_img_desc (opened h)).0)
          (leb (lib.read_secure_version (described h)) (lib.get_img_desc (opened h)).1) e in
      rw
        (
          b,
          d,
          valid_lem (lib.get_img_desc (opened h)).1 (lib.read_secure_version (described h)) ∙ v,
        )
        refl

  -- When the server is not reached, the image has no description, or its secure version is lower
  -- than that of the chip, nothing is performed: the handle is aborted, the result is false, the
  -- state is the error state and the percentage stays, whatever fuel is given.
  pub download-refused :
      (fuel : ℕ) (h : H) (o : Ota)
      → is_accepted h ≡ false
      → download_and_update_firmware lib fuel h o
        ≡ done (
          false,
          lib.abort (if is_ok (lib.begin h).0 then described h else opened h),
          record o { state = state_error },
        )
  unfolding download_and_update_firmware
  download-refused fuel h o e = elim (Bool-cases (is_ok (lib.begin h).0)) [
    | inr b ↦ rw b refl
    | inl b ↦ elim (Bool-cases (is_ok (lib.get_img_desc (opened h)).0)) [
      | inr d ↦ rw (b, d) refl
      | inl d ↦
          let v : leb (lib.read_secure_version (described h)) (lib.get_img_desc (opened h)).1
              ≡ false =
            ground (arith, e, b, d) in
          rw
            (
              b,
              d,
              valid_lem (lib.get_img_desc (opened h)).1 (lib.read_secure_version (described h)) ∙ v,
            )
            refl
    ]
  ]

  concluded-done :
      (err : Err) (h : H) (o : Ota) → concluded lib (done (err, h, o)) ≡ done (conclude lib err h o)
  unfolding concluded
  concluded-done err h o = refl

  -- A download of an accepted image whose size is not 0 ends once esp_https_ota_perform is no more
  -- in progress. It is true, with the state of a finished download, exactly when the last call gave
  -- ESP_OK, all data was received and the finish gave ESP_OK; else it is false, with the error state.
  pub download-ends :
      (fuel n : ℕ) (h : H) (err : Err) (end : H) (o : Ota)
      → is_accepted h ≡ true
      → 0 < lib.get_image_size (described h)
      → Performs n (described h) err end
      → n < fuel
      → (r : Bool × H × Ota) × (download_and_update_firmware lib fuel h o ≡ done r)
        × (r.0 ≡ is_updated err end)
        × (r.2.state ≡ (if is_updated err end then state_download_finished else state_error))
  download-ends fuel n h err end o e z ps l =
      let started = record o { state = state_download } in
      let (p, eq) =
        perform_all-done fuel (lib.get_image_size (described h)) n (described h) err end started ps
          l z in
      let read = record started { percentage_download = p } in
      let (answer, ota) = conclude_lem err end read in
      (
        conclude lib err end read,
        rw (download-accepted fuel h o e, eq) (concluded-done err end read),
        answer,
        ap (λ o. o.state) ota,
      )
