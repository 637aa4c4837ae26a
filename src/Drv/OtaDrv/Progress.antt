-- ===== src/Drv/OtaDrv/Progress.antt =====
-- The percentage of a download.
use hq_components.Prelude.{
  Bool-cases, arith, false, inl, inr, leb, suc, u32, zero, ℕ, ◌*◌, ◌<◌, ◌==◌, ◌≡◌, ◌≤◌,
}
use native.Mathlib.Nat.{div-le_of_le-mul}
use hq_components.Drv.OtaDrv.{
  is_in_progress, Ota, HttpsOta, Run, done, no_fuel, trap, divide_int, percentage, perform_all,
}

percentage-bound :
    (download file_size : ℕ)
    → download ≤ file_size
    → 0 < file_size
    → file_size < 21474836
    → percentage download file_size ≤ 100
unfolding percentage divide_int
percentage-bound download file_size h z l =
    let whole : u32 (download * 100) ≡ download * 100 = omega arith in
    let positive : leb 2147483648 (download * 100) ≡ false = ground arith in
    let small : leb 2147483648 file_size ≡ false = ground arith in
    rw (whole, positive, small) (div-le_of_le-mul file_size (grind arith))

-- A percentage as it should be.
abbrev pub IsPercentage : {A H : Type 0} → Run (A × H × Ota) → Type 0
IsPercentage (done (a, h, o)) = o.percentage_download ≤ 100
IsPercentage no_fuel = Unit {0}
IsPercentage trap = ⊥

module _ {H : Type 0} (lib : HttpsOta H) where
  -- While the library reads no more than an image of 1 to 21474835 bytes has, the loop never traps,
  -- and the percentage that it leaves is at most 100.
  pub perform_all-IsPercentage :
      (fuel file_size : ℕ) (h : H) (o : Ota)
      → ((k : H) → lib.get_image_len_read k ≤ file_size)
      → 0 < file_size
      → file_size < 21474836
      → o.percentage_download ≤ 100
      → IsPercentage (perform_all lib fuel file_size h o)
  unfolding perform_all
  perform_all-IsPercentage zero file_size h o r z l p = tt
  perform_all-IsPercentage (suc fuel) file_size h o r z l p =
      elim (Bool-cases (is_in_progress (lib.perform h).0)) [
        | inr e ↦ rw e p
        | inl e ↦
            let some_size : (file_size == 0) ≡ false = ground arith in
            let read = percentage-bound _ file_size (r (lib.perform h).1) z l in
            rw (e, some_size)
              (perform_all-IsPercentage fuel file_size (lib.perform h).1 _ r z l read)
      ]
