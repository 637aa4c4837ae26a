-- ===== src/Backend/Parameters/Values.antt =====
-- Reading and writing one value of the table (parameters_setValue, parameters_getValue).
use hq_components.Prelude.{
  ℕ, ◌≤◌, ◌≡◌, refl, true, ◌&&◌, List, length, ltb, leb, ◌==◌, if◌then◌else◌, ==_iff, length-set,
  get_or-set_self, get_or-set_ne, arith,
}
use hq_components.Backend.Parameters.{
  Parameter, Store, last_value, get_value, get_max_value, set_value,
}

module _ (project : List Parameter) where
  -- The arrays have the sizes that C declares them with.
  pub record IsStore (s : Store) : Type 0 where
    pub values_sized : length s.values ≡ last_value project
    pub strings_sized : length s.strings ≡ 1

  pub set_value-get_value :
      (val value i : ℕ) (s : Store)
      → length s.values ≡ last_value project
      → get_value project i (set_value project val value s).1
        ≡ (if (set_value project val value s).0 && i == val then value else get_value project i s)
  unfolding set_value get_value
  set_value-get_value val value i s h =
      ground (arith, get_or-set_self s.values val value 0, get_or-set_ne s.values val i value 0)

  -- parameters_setValue succeeds exactly on a known parameter and a value that is at most its
  -- maximum; then that parameter reads as the value, and in every case each other parameter reads
  -- as before, the strings are untouched and the arrays keep their sizes.
  pub set_value_lem :
      (val value : ℕ) (s : Store)
      → IsStore s
      → let (done, t) = set_value project val value s in
        (done ≡ (ltb val (last_value project) && leb value (get_max_value project val)))
        × ((i : ℕ)
            → get_value project i t ≡ (if done && i == val then value else get_value project i s))
        × (t.strings ≡ s.strings)
        × IsStore t
  unfolding set_value get_max_value
  set_value_lem val value s v = (
    ground arith,
    λ i. set_value-get_value val value i s v.values_sized,
    ground arith,
    ground (arith, length-set s.values val value),
  )

  -- A parameter that is set is read back, and is then at most its maximum.
  pub get_value-set_value :
      (val value : ℕ) (s : Store)
      → IsStore s
      → (set_value project val value s).0 ≡ true
      → (get_value project val (set_value project val value s).1 ≡ value)
        × (value ≤ get_max_value project val)
  unfolding get_max_value
  get_value-set_value val value s v h = (
    rw (set_value-get_value val value val s v.values_sized, h, (==_iff val val).1 refl),
    unfold set_value in ground arith,
  )
