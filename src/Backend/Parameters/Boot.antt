-- ===== src/Backend/Parameters/Boot.antt =====
-- parameters_init: what the values are after a start, whatever the flash held.
use hq_components.Prelude.{
  ℕ, zero, suc, ◌+◌, ◌*◌, ◌≤◌, ◌<◌, ◌≡◌, refl, inl, inr, true, false, List, [], ◌∷◌, map, none,
  some, length, get_or, Bool-cases, arith,
}
use hq_components.Backend.Parameters.{
  Parameter, Store, NvsRead, NvsWrite, Query, no_parameter, table, last_value, get_value,
  get_max_value, get_min_value, set_value, set_default_values, check_from, check_values,
  read_parameters, init, save,
}
use hq_components.Backend.Parameters.Values.{IsStore, set_value_lem, get_value-set_value}

-- In each entry of the table the default lies between the limits.
abbrev pub IsTable : List Parameter → Type 0
IsTable [] = Unit
IsTable (p ∷ ps) = (p.min_value ≤ p.default_value) × (p.default_value ≤ p.max_value) × IsTable ps

IsTable-get_or :
    (t : List Parameter) (i : ℕ)
    → IsTable t
    → i < length t
    → let p = get_or t i no_parameter in
      (p.min_value ≤ p.default_value) × (p.default_value ≤ p.max_value)
IsTable-get_or [] i h lt = absurd (omega arith)
IsTable-get_or (p ∷ ps) zero h lt = (h.0, h.1)
IsTable-get_or (p ∷ ps) (suc i) h lt = IsTable-get_or ps i h.2 (omega arith)

get_or-map :
    (t : List Parameter) (i : ℕ)
    → i < length t
    → get_or (map (λ p. p.default_value) t) i 0 ≡ (get_or t i no_parameter).default_value
get_or-map [] i lt = absurd (omega arith)
get_or-map (p ∷ ps) zero lt = refl
get_or-map (p ∷ ps) (suc i) lt = get_or-map ps i (omega arith)

length-map : (t : List Parameter) → length (map (λ p. p.default_value) t) ≡ length t
length-map [] = refl
length-map (p ∷ ps) = omega (arith, length-map ps)

module _ (project : List Parameter) where
  -- Every value lies between the limits of its parameter.
  abbrev pub InRange : Store → Type 0
  InRange s =
      (i : ℕ)
      → i < last_value project
      → (get_min_value project i ≤ get_value project i s)
        × (get_value project i s ≤ get_max_value project i)

  -- _check_values decides the range.
  check_from_sound :
      (k : ℕ) (vs : List ℕ)
      → check_from project k vs ≡ true
      → (i : ℕ) → i < length vs
      → (get_min_value project (k + i) ≤ get_or vs i 0)
        × (get_or vs i 0 ≤ get_max_value project (k + i))
  unfolding check_from
  check_from_sound k [] h i lt = absurd (omega arith)
  check_from_sound k (v ∷ vs) h zero lt = let e : k + 0 ≡ k = omega arith in rw e (ground arith)
  check_from_sound k (v ∷ vs) h (suc i) lt =
      let e : k + suc i ≡ k + 1 + i = omega arith in
      rw e (check_from_sound (k + 1) vs (ground arith) i (omega arith))

  check_from_complete :
      (k : ℕ) (vs : List ℕ)
      → ((i : ℕ)
          → i < length vs
          → (get_min_value project (k + i) ≤ get_or vs i 0)
            × (get_or vs i 0 ≤ get_max_value project (k + i)))
      → check_from project k vs ≡ true
  unfolding check_from
  check_from_complete k [] h = refl
  check_from_complete k (v ∷ vs) h =
      let e : k + 0 ≡ k = omega arith in
      let here = rw e at (h 0 (omega arith)) in
      ground (
        arith,
        here,
        check_from_complete (k + 1) vs
            λ i lt. let e' : k + 1 + i ≡ k + suc i = omega arith in rw e' (h (suc i) (omega arith)),
      )

  InRange-set_default_values :
      (s : Store) → IsTable (table project) → InRange (set_default_values project s)
  unfolding get_value get_min_value get_max_value set_default_values
  InRange-set_default_values s t i lt =
      ground (arith, IsTable-get_or (table project) i t lt, get_or-map (table project) i lt)

  InRange-check_values :
      (s : Store) → length s.values ≡ last_value project → check_values project s ≡ true → InRange s
  unfolding check_values get_value
  InRange-check_values s sized h i lt =
      ground (arith, check_from_sound 0 s.values h i (omega arith))

  check_values-InRange :
      (s : Store) → length s.values ≡ last_value project → InRange s → check_values project s ≡ true
  unfolding check_values get_value
  check_values-InRange s sized h =
      check_from_complete 0 s.values λ i lt. ground (arith, h i (omega arith))

  -- The flash driver fills the array that it is given, and does not resize it.
  abbrev pub KeepsSize : NvsRead → Type 0
  KeepsSize r = (vs : List ℕ) → length (r.blob vs) ≡ length vs

  read_parameters-sized :
      (r : NvsRead) (s : Store)
      → KeepsSize r
      → length s.values ≡ last_value project
      → length (read_parameters project r s).1.values ≡ last_value project
  unfolding read_parameters
  read_parameters-sized r s k sized = ground (arith, k s.values)

  -- After parameters_init every value lies between the limits of its parameter, whatever the
  -- flash answers, provided that the table's own defaults lie between its limits.
  pub init-InRange :
      (r : NvsRead) (w : NvsWrite) (s : Store)
      → IsTable (table project)
      → KeepsSize r
      → length s.values ≡ last_value project
      → InRange (init project r w s).0
  unfolding init
  init-InRange r w s t k sized =
      let (ret_val, read) = read_parameters project r s in
      elim (Bool-cases ret_val) [
        | inl e ↦ elim (Bool-cases (check_values project read)) [
          | inl c ↦ rw (e, c) (InRange-check_values read (read_parameters-sized r s k sized) c)
          | inr c ↦ rw (e, c) (InRange-set_default_values read t)
        ]
        | inr e ↦ rw e (InRange-set_default_values read t)
      ]

  -- The flash holds the values `b`, and its driver delivers them.
  pub record Holds (r : NvsRead) (b : List ℕ) : Type 0 where
    pub opened : r.opens ≡ true
    pub known : r.query ≡ Query.found
    pub sized : r.required_size ≡ 4 * length b
    pub delivers : (vs : List ℕ) → r.blob vs ≡ b

  read_parameters-Holds :
      (r : NvsRead) (s : Store) (b : List ℕ)
      → Holds r b
      → length b ≡ last_value project
      → read_parameters project r s ≡ (true, record s { values = b })
  unfolding read_parameters
  read_parameters-Holds r s b h sized =
      ground (arith, h.opened, h.known, h.sized, h.delivers s.values)

  -- What parameters_save reports as saved comes back at the next start, if the values lie between
  -- their limits: the values are those saved, and nothing is written to the flash.
  pub init-save :
      (w v : NvsWrite) (r : NvsRead) (s t : Store) (b : List ℕ)
      → length s.values ≡ last_value project
      → InRange s
      → save w s ≡ (true, some b)
      → Holds r b
      → init project r v t ≡ (record t { values = s.values }, none)
  unfolding save init get_value
  init-save w v r s t b sized h saved holds =
      let e : s.values ≡ b = ground arith in
      let reads : read_parameters project r t ≡ (true, record t { values = s.values }) =
        rw e (read_parameters-Holds r t b holds (rw e at sized)) in
      rw (reads, check_values-InRange (record t { values = s.values }) sized h)

  check_from-low :
      (k : ℕ) (vs : List ℕ) (i j : ℕ)
      → i < length vs
      → j ≡ k + i
      → get_or vs i 0 < get_min_value project j
      → check_from project k vs ≡ false
  unfolding check_from
  check_from-low k [] i j lt e low = absurd (omega arith)
  check_from-low k (v ∷ vs) zero j lt e low =
      let e' : j ≡ k = omega arith in let low' = rw e' at low in ground arith
  check_from-low k (v ∷ vs) (suc i) j lt e low =
      ground (arith, check_from-low (k + 1) vs i j (omega arith) (omega arith) low)

  -- A value below the minimum of its parameter, but not above its maximum, is accepted by
  -- parameters_setValue; once it is saved, the next start throws every value away for the defaults.
  pub init-set_value_low :
      (val value : ℕ) (w v : NvsWrite) (r : NvsRead) (s t : Store) (b : List ℕ)
      → IsStore project s
      → val < last_value project
      → value < get_min_value project val
      → value ≤ get_max_value project val
      → save w (set_value project val value s).1 ≡ (true, some b)
      → Holds r b
      → ((set_value project val value s).0 ≡ true)
        × ((init project r v t).0.values ≡ map (λ p. p.default_value) (table project))
  unfolding save init set_default_values check_values
  init-set_value_low val value w v r s t b store known low high saved holds =
      let u = (set_value project val value s).1 in
      let done : (set_value project val value s).0 ≡ true =
        unfold set_value get_max_value in ground arith in
      let e : u.values ≡ b = ground arith in
      let sized : length b ≡ last_value project =
        rw e at ((set_value_lem project val value s store).3.values_sized) in
      let got : get_or u.values val 0 ≡ value =
        unfold get_value in
        ground (arith, (get_value-set_value project val value s store done).0) in
      let low' : get_or b val 0 < get_min_value project val = rw (← e, got) low in
      (
        done,
        rw
            (
              read_parameters-Holds r t b holds sized,
              check_from-low 0 b val val (omega arith) (omega arith) low',
            )
            refl,
      )
