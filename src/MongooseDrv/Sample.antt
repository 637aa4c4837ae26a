-- ===== src/MongooseDrv/Sample.antt =====
-- What stands for mongoose, for sprintf and for the project's parameters in the tests.
use hq_components.Prelude.{
  ==_iff, Bool, Bool-cases, List, [], ap, arith, false, get_or, if◌then◌else◌, inl, inr, le→ltb,
  ltb, lt→ltb, refl, replicate, suc, sym, true, zero, ℕ, ◌%◌, ◌&&◌, ◌*◌, ◌++◌, ◌+◌, ◌-◌, ◌/◌, ◌<◌,
  ◌==◌, ◌∷◌, ◌≡◌, ◌≢◌, ◌≤◌,
}
use hq_components.MongooseDrv.HttpServer.{Method, method_name}
use hq_components.MongooseDrv.HttpServer.Routing.{is_plain, Globs, Compares}
use hq_components.MongooseDrv.Text.{PrintsLong}
use hq_components.Backend.Parameters.{Parameter, Store, get_name}
use hq_components.Backend.Parameters.Values.{IsStore}
use hq_components.MongooseDrv.ParametersApi.{u32_uri}
use hq_components.MongooseDrv.ParametersApi.Numbers.{IsNamed}

-- A pattern whose # stands for the rest.
abbrev pub glob : List ℕ → List ℕ → Bool
glob [] [] = true
glob (x ∷ xs) [] = false
glob [] (c ∷ cs) = c == 35
glob (x ∷ xs) (c ∷ cs) = if c == 35 then true else x == c && glob xs cs

plain_tail : (c : ℕ) (cs : List ℕ) → is_plain (c ∷ cs) ≡ true → is_plain cs ≡ true
plain_tail c cs h = ground arith

glob_self : (p : List ℕ) → is_plain p ≡ true → glob p p ≡ true
glob_self [] h = refl
glob_self (c ∷ cs) h = ground (arith, glob_self cs)

glob_other : (s p : List ℕ) → is_plain p ≡ true → s ≢ p → glob s p ≡ false
glob_other [] [] h n = absurd (n refl)
glob_other (x ∷ xs) [] h n = refl
glob_other [] (c ∷ cs) h n = ground arith
glob_other (x ∷ xs) (c ∷ cs) h n = elim (Bool-cases (x == c)) [
  | inl e ↦
      let same = (==_iff x c).0 e in
      let rest = glob_other xs cs (plain_tail c cs h) (λ r. n (rw (same, r) refl)) in
      ground (arith, rest)
  | inr e ↦ ground arith
]

glob_prefix : (p rest : List ℕ) → is_plain p ≡ true → glob (p ++ rest) (p ++ (35 ∷ [])) ≡ true
glob_prefix [] [] h = refl
glob_prefix [] (x ∷ xs) h = refl
glob_prefix (c ∷ cs) rest h = ground (arith, glob_prefix cs rest)

pub glob-Globs : Globs glob
glob-Globs = record { plain_self = glob_self; plain_other = glob_other; prefix = glob_prefix }

abbrev pub differ : List ℕ → List ℕ → ℕ
differ [] [] = 0
differ (x ∷ xs) [] = 1
differ [] (y ∷ ys) = 1
differ (x ∷ xs) (y ∷ ys) = if x == y then differ xs ys else 1

differ_self : (a : List ℕ) → differ a a ≡ 0
differ_self [] = refl
differ_self (x ∷ xs) = ground (arith, differ_self xs)

differ_other : (m n : Method) → m ≢ n → differ (method_name m) (method_name n) ≢ 0
unfolding method_name
differ_other m n h = ground arith

pub differ-Compares : Compares differ
differ-Compares = record { same = differ_self; other = differ_other }

-- The digits of a number below 10 ^ fuel.
abbrev pub decimal : ℕ → ℕ → List ℕ
decimal zero n = []
decimal (suc fuel) n =
    let rest = decimal fuel (n / 10) in
    if ltb n 10 then (48 + n) ∷ [] else rest ++ ((48 + n % 10) ∷ [])

abbrev pub print : ℕ → List ℕ
print n = if ltb n 2147483648 then decimal 10 n else 45 ∷ decimal 10 (4294967296 - n)

abbrev limit : ℕ → ℕ
limit zero = 1
limit (suc fuel) = 10 * limit fuel

decimal_enough : (fuel n : ℕ) → 0 < fuel → n < limit fuel → decimal (suc fuel) n ≡ decimal fuel n
decimal_enough zero n f h = absurd (omega arith)
decimal_enough (suc zero) n f h = rw (lt→ltb n 10 (omega arith)) refl
decimal_enough (suc (suc fuel)) n f h =
    let rest = decimal_enough (suc fuel) (n / 10) (omega arith) (omega arith) in
    ap (λ r. if ltb n 10 then (48 + n) ∷ [] else r ++ ((48 + n % 10) ∷ [])) rest

decimal-small : (n : ℕ) → n < 10 → print n ≡ (48 + n) ∷ []
decimal-small n h = rw (lt→ltb n 2147483648 (omega arith), lt→ltb n 10 h) refl

decimal-more : (n : ℕ) → 10 ≤ n → n < 2147483648 → print n ≡ print (n / 10) ++ ((48 + n % 10) ∷ [])
decimal-more n h l =
    rw (lt→ltb n 2147483648 l, lt→ltb (n / 10) 2147483648 (omega arith), le→ltb n 10 h)
      (ap (λ r. r ++ ((48 + n % 10) ∷ []))
        (sym (decimal_enough 9 (n / 10) (omega arith) (omega arith))))

pub print-PrintsLong : PrintsLong print
print-PrintsLong = record {
  one_digit = decimal-small;
  more_digits = decimal-more;
  negative = λ n h l. (decimal 10 (4294967296 - n), rw (le→ltb n 2147483648 h) refl);
}

-- A parameter of the project with the whole range of a word.
abbrev pub project : List Parameter
project = record { min_value = 0; max_value = 4294967295; default_value = 7; name = "limit" } ∷ []

abbrev pub store : Store
store = record { values = 7 ∷ 1 ∷ 0 ∷ 30 ∷ 1 ∷ 10 ∷ []; strings = replicate 49 0 ∷ [] }

pub store-IsStore : IsStore project store
store-IsStore = record { values_sized = refl; strings_sized = refl }

limit_plain : (j : ℕ) → j ≤ 0 → is_plain (u32_uri project j) ≡ true
unfolding u32_uri get_name
limit_plain zero h = refl
limit_plain (suc j) h = absurd (omega arith)

boot_up_plain : (j : ℕ) → j ≤ 1 → is_plain (u32_uri project j) ≡ true
unfolding u32_uri get_name
boot_up_plain zero h = refl
boot_up_plain (suc zero) h = refl
boot_up_plain (suc (suc j)) h = absurd (omega arith)

boot_up_first : (j : ℕ) → j < 1 → u32_uri project j ≢ u32_uri project 1
unfolding u32_uri get_name
boot_up_first zero h = λ e. let other = ap (λ l. get_or l 19 0) e in omega (arith, other)
boot_up_first (suc j) h = absurd (omega arith)

pub limit-IsNamed : IsNamed project 0
limit-IsNamed = record {
  known = omega arith;
  plain = limit_plain;
  first = λ j h. absurd (omega arith);
}

pub boot_up-IsNamed : IsNamed project 1
boot_up-IsNamed = record { known = omega arith; plain = boot_up_plain; first = boot_up_first }
