-- ===== src/MongooseDrv/Text/Numbers.antt =====
-- A number that is printed is read back.
use hq_components.Prelude.{
  Bool-cases, List, [], arith, if◌then◌else◌, inl, inr, ltb, ltb→le, ltb→lt, refl, suc, true, u32,
  zero, ℕ, ◌%◌, ◌*◌, ◌++◌, ◌+◌, ◌-◌, ◌/◌, ◌<◌, ◌∙◌, ◌∷◌, ◌≡◌,
}
use hq_components.MongooseDrv.Text.{is_digit, str2int_from, str2int, PrintsLong}

abbrev pub AllDigits : List ℕ → Type 0
AllDigits [] = Unit {0}
AllDigits (c ∷ cs) = (is_digit c ≡ true) × AllDigits cs

digits-append :
    (xs : List ℕ) (c : ℕ) → AllDigits xs → is_digit c ≡ true → AllDigits (xs ++ (c ∷ []))
digits-append [] c a d = (d, tt)
digits-append (x ∷ xs) c a d = (a.0, digits-append xs c a.1 d)

str2int_from-snoc :
    (xs : List ℕ) (c ret : ℕ)
    → AllDigits xs
    → is_digit c ≡ true
    → str2int_from (xs ++ (c ∷ [])) ret ≡ u32 (str2int_from xs ret * 10 + (c - 48))
unfolding str2int_from
str2int_from-snoc [] c ret a d = rw d refl
str2int_from-snoc (x ∷ xs) c ret a d =
    rw a.0 (str2int_from-snoc xs c (u32 (ret * 10 + (x - 48))) a.1 d)

is_digit_lem : (d : ℕ) → d < 10 → is_digit (48 + d) ≡ true
is_digit_lem d h = ground arith

module _ (print : ℕ → List ℕ) (p : PrintsLong print) where
  -- The digits of the numbers below `k`, and what they read as.
  reads : (k n : ℕ) → n < k → n < 2147483648 → AllDigits (print n) × (str2int_from (print n) 0 ≡ n)
  unfolding str2int_from
  reads zero n h m = absurd (omega arith)
  reads (suc k) n h m = elim (Bool-cases (ltb n 10)) [
    | inl e ↦
        let less = ltb→lt n 10 e in
        rw (p.one_digit n less) ((is_digit_lem n less, tt), rw (is_digit_lem n less) (omega arith))
    | inr e ↦
        let more = ltb→le n 10 e in
        let (a, r) = reads k (n / 10) (omega arith) (omega arith) in
        let d = is_digit_lem (n % 10) (omega arith) in
        rw (p.more_digits n more m) (
          digits-append (print (n / 10)) (48 + n % 10) a d,
          str2int_from-snoc (print (n / 10)) (48 + n % 10) 0 a d ∙ omega (arith, r),
        )
  ]

  -- A word that is printed with "%ld" reads back as itself when it is below 2^31; a word from
  -- there on is printed with a sign, and reads back as 0.
  pub str2int-print :
      (n : ℕ) → n < 4294967296 → str2int (print n) ≡ (if ltb n 2147483648 then n else 0)
  unfolding str2int str2int_from
  str2int-print n h = elim (Bool-cases (ltb n 2147483648)) [
    | inl e ↦ rw e ((reads (n + 1) n (omega arith) (ltb→lt n 2147483648 e)).1)
    | inr e ↦ let signed = p.negative n (ltb→le n 2147483648 e) h in rw (e, signed.1) refl
  ]
