-- ===== src/Backend/Parameters/Tests.antt =====
-- Runs of the parameter store, and its theorems at concrete inputs.
use hq_components.Prelude.{
  List, [], arith, if◌then◌else◌, leb, length, ltb, none, refl, replicate, some, suc, true, zero, ℕ,
  ◌&&◌, ◌*◌, ◌==◌, ◌∷◌, ◌≡◌,
}
use hq_components.Backend.Parameters.{
  Store, NvsRead, NvsWrite, Query, c_string, set_string, get_string, set_value, get_value, save,
  init, read_parameters, set_default_values, get_min_value, get_max_value,
}
use hq_components.Backend.Parameters.Values.{IsStore, set_value_lem}
use hq_components.Backend.Parameters.Boot.{InRange, init-InRange, init-save, init-set_value_low}
use hq_components.Backend.Parameters.Strings.{set_string_lem}

abbrev defaults : Store
defaults = record { values = 1 ∷ 0 ∷ 30 ∷ 1 ∷ 10 ∷ []; strings = replicate 1 (replicate 49 0) }

abbrev works : NvsWrite
works = record { opens = true; sets = true; commits = true }

abbrev holding : List ℕ → NvsRead
holding b = record {
  opens = true;
  query = Query.found;
  required_size = 4 * length b;
  blob = λ vs. b;
}

-- A flash that holds nothing.
abbrev blank : NvsRead
blank = record { opens = true; query = Query.not_found; required_size = 0; blob = λ vs. vs }

first_start :
    (init [] blank works (record defaults { values = 0 ∷ 0 ∷ 0 ∷ 0 ∷ 0 ∷ [] })).0 ≡ defaults
unfolding init read_parameters set_default_values
first_start = refl

abbrev abc : List ℕ
abc = 97 ∷ 98 ∷ 99 ∷ 0 ∷ 120 ∷ []

text_comes_back : get_string 0 4 (set_string 0 abc defaults).1 ≡ some (97 ∷ 98 ∷ 99 ∷ [])
unfolding set_string get_string c_string
text_comes_back = refl

defaults-IsStore : IsStore [] defaults
defaults-IsStore = omega arith

defaults-InRange : InRange [] defaults
unfolding get_value get_min_value get_max_value
defaults-InRange zero h = omega arith
defaults-InRange (suc zero) h = omega arith
defaults-InRange (suc (suc zero)) h = omega arith
defaults-InRange (suc (suc (suc zero))) h = omega arith
defaults-InRange (suc (suc (suc (suc zero)))) h = omega arith
defaults-InRange (suc (suc (suc (suc (suc i))))) h = absurd (omega arith)

set_value_lem_test :
    let (done, t) = set_value [] 2 60 defaults in
    (done ≡ (ltb 2 5 && leb 60 (get_max_value [] 2)))
    × ((i : ℕ) → get_value [] i t ≡ (if done && i == 2 then 60 else get_value [] i defaults))
    × (t.strings ≡ defaults.strings)
    × IsStore [] t
set_value_lem_test = set_value_lem [] 2 60 defaults defaults-IsStore

init-InRange_example : InRange [] (init [] blank works defaults).0
init-InRange_example = init-InRange [] blank works defaults (omega arith) (λ vs. refl) refl

init-save_example :
    init [] (holding (1 ∷ 0 ∷ 30 ∷ 1 ∷ 10 ∷ [])) works (record defaults { values = 7 ∷ [] })
    ≡ (defaults, none)
unfolding save
init-save_example =
    init-save [] works works (holding (1 ∷ 0 ∷ 30 ∷ 1 ∷ 10 ∷ [])) defaults
      (record defaults { values = 7 ∷ [] }) (1 ∷ 0 ∷ 30 ∷ 1 ∷ 10 ∷ []) refl defaults-InRange refl
      (record { opened = refl; known = refl; sized = refl; delivers = λ vs. refl })

init-set_value_low_test :
    ((set_value [] 2 3 defaults).0 ≡ true)
    × ((init [] (holding (1 ∷ 0 ∷ 3 ∷ 1 ∷ 10 ∷ [])) works defaults).0.values
        ≡ 1 ∷ 0 ∷ 30 ∷ 1 ∷ 10 ∷ [])
unfolding save set_value get_min_value get_max_value
init-set_value_low_test =
    init-set_value_low [] 2 3 works works (holding (1 ∷ 0 ∷ 3 ∷ 1 ∷ 10 ∷ [])) defaults defaults
      (1 ∷ 0 ∷ 3 ∷ 1 ∷ 10 ∷ []) defaults-IsStore (omega arith) (omega arith) (omega arith) refl
      (record { opened = refl; known = refl; sized = refl; delivers = λ vs. refl })

set_string_lem_test :
    let (done, t) = set_string 0 abc defaults in
    (done ≡ (ltb 0 1 && ltb (length (c_string abc)) 48))
    × (get_string 0 4 t ≡ (
        if done
        then (if ltb (length (c_string abc)) 4 then some (c_string abc) else none)
        else get_string 0 4 defaults))
    × (t.values ≡ defaults.values)
    × (length t.strings ≡ 1)
set_string_lem_test = set_string_lem 0 4 abc defaults refl
