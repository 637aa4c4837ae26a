-- ===== src/Backend/Wifidrv/Scan.antt =====
-- The name that is chosen from the scanned networks.
use hq_components.Prelude.{
  Bool-cases, List, [], arith, get_elem?, get_elem?-eq-get_or, inl, inr, length, ltb, ltb→lt, none,
  refl, suc, zero, ℕ, ◌↔◌, ◌∷◌, ◌≡◌, ◌≤◌,
}
use hq_components.Backend.Wifidrv.{set_from_ap_list}

pub get_elem?-past : (xs : List (List ℕ)) (i : ℕ) → length xs ≤ i → get_elem? xs i ≡ none
get_elem?-past [] i h = refl
get_elem?-past (x ∷ xs) zero h = absurd (omega arith)
get_elem?-past (x ∷ xs) (suc i) h = get_elem?-past xs i (omega arith)

-- wifiDrvSetFromAPList reads behind its list of 32 networks at the number 32, and only there: the
-- guard lets one number too many through.
pub set_from_ap_list-none :
    (num : ℕ) (scan_list : List (List ℕ)) (ssid : List ℕ)
    → length scan_list ≡ 32
    → (set_from_ap_list num scan_list ssid ≡ none) ↔ (num ≡ 32)
unfolding set_from_ap_list
set_from_ap_list-none num scan_list ssid l = (
  λ e. elim (Bool-cases (ltb num 32)) [
    | inl q ↦
        let found = get_elem?-eq-get_or scan_list num [] (omega (arith, ltb→lt num 32 q)) in
        ground arith
    | inr q ↦ ground arith
  ],
  λ e. let missing = get_elem?-past scan_list num (omega arith) in ground arith,
)
