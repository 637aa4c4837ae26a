-- ===== src/Prelude/Lists.antt =====
-- C arrays as lists, measured and indexed by native numbers, under the library's names.
use Prim.Native.Nat.{ℕ, zero, suc, ◌+◌, ◌-◌, ◌≤◌, ◌<◌, min}
use mathlib.Core.Path.{◌≡◌, refl, sym, ap, ◌∙◌}
use mathlib.Core.Logic.{◌≢◌}
use mathlib.Core.List.{List, [], ◌∷◌, ◌++◌}
use mathlib.Core.Option.{Option, none, some}
use native.Mathlib.Omega.{arith}

module _ {ℓ} {A : Type ℓ} where
  abbrev pub length : List A → ℕ
  length [] = 0
  length (x ∷ xs) = suc (length xs)

  abbrev pub get_elem? : List A → ℕ → Option A
  get_elem? [] i = none
  get_elem? (x ∷ xs) zero = some x
  get_elem? (x ∷ xs) (suc i) = get_elem? xs i

  abbrev pub get_or : List A → ℕ → A → A
  get_or [] i d = d
  get_or (x ∷ xs) zero d = x
  get_or (x ∷ xs) (suc i) d = get_or xs i d

  -- A write out of bounds changes nothing.
  abbrev pub set : List A → ℕ → A → List A
  set [] i v = []
  set (x ∷ xs) zero v = v ∷ xs
  set (x ∷ xs) (suc i) v = x ∷ set xs i v

  abbrev pub take : ℕ → List A → List A
  take zero xs = []
  take (suc n) [] = []
  take (suc n) (x ∷ xs) = x ∷ take n xs

  abbrev pub drop : ℕ → List A → List A
  drop zero xs = xs
  drop (suc n) [] = []
  drop (suc n) (x ∷ xs) = drop n xs

  abbrev pub replicate : ℕ → A → List A
  replicate zero a = []
  replicate (suc n) a = a ∷ replicate n a

  pub length-append : (xs ys : List A) → length (xs ++ ys) ≡ length xs + length ys
  length-append [] ys = omega arith
  length-append (x ∷ xs) ys = omega (arith, length-append xs ys)

  pub length-set : (xs : List A) (i : ℕ) (v : A) → length (set xs i v) ≡ length xs
  length-set [] i v = refl
  length-set (x ∷ xs) zero v = refl
  length-set (x ∷ xs) (suc i) v = ap suc (length-set xs i v)

  pub length-replicate : (n : ℕ) (a : A) → length (replicate n a) ≡ n
  length-replicate zero a = refl
  length-replicate (suc n) a = ap suc (length-replicate n a)

  pub length-take : (n : ℕ) (xs : List A) → length (take n xs) ≡ min n (length xs)
  length-take zero xs = omega arith
  length-take (suc n) [] = omega arith
  length-take (suc n) (x ∷ xs) = omega (arith, length-take n xs)

  pub length-drop : (n : ℕ) (xs : List A) → length (drop n xs) ≡ length xs - n
  length-drop zero xs = omega arith
  length-drop (suc n) [] = omega arith
  length-drop (suc n) (x ∷ xs) = omega (arith, length-drop n xs)

  pub get_or-set_self :
      (xs : List A) (i : ℕ) (v d : A) → i < length xs → get_or (set xs i v) i d ≡ v
  get_or-set_self [] i v d h = absurd (omega arith)
  get_or-set_self (x ∷ xs) zero v d h = refl
  get_or-set_self (x ∷ xs) (suc i) v d h = get_or-set_self xs i v d (omega arith)

  pub get_or-set_ne :
      (xs : List A) (i j : ℕ) (v d : A) → i ≢ j → get_or (set xs i v) j d ≡ get_or xs j d
  get_or-set_ne [] i j v d h = refl
  get_or-set_ne (x ∷ xs) zero zero v d h = absurd (h refl)
  get_or-set_ne (x ∷ xs) zero (suc j) v d h = refl
  get_or-set_ne (x ∷ xs) (suc i) zero v d h = refl
  get_or-set_ne (x ∷ xs) (suc i) (suc j) v d h = get_or-set_ne xs i j v d (λ e. h (ap suc e))

  pub take_append : (n : ℕ) (xs ys : List A) → length xs ≡ n → take n (xs ++ ys) ≡ xs
  take_append zero [] ys h = refl
  take_append zero (x ∷ xs) ys h = absurd (omega arith)
  take_append (suc n) [] ys h = absurd (omega arith)
  take_append (suc n) (x ∷ xs) ys h = ap (◌∷◌ x) (take_append n xs ys (omega arith))

  pub drop_append : (n : ℕ) (xs ys : List A) → length xs ≡ n → drop n (xs ++ ys) ≡ ys
  drop_append zero [] ys h = refl
  drop_append zero (x ∷ xs) ys h = absurd (omega arith)
  drop_append (suc n) [] ys h = absurd (omega arith)
  drop_append (suc n) (x ∷ xs) ys h = drop_append n xs ys (omega arith)

  pub get_elem?-eq-get_or :
      (xs : List A) (i : ℕ) (d : A) → i < length xs → get_elem? xs i ≡ some (get_or xs i d)
  get_elem?-eq-get_or [] i d h = absurd (omega arith)
  get_elem?-eq-get_or (x ∷ xs) zero d h = refl
  get_elem?-eq-get_or (x ∷ xs) (suc i) d h = get_elem?-eq-get_or xs i d (omega arith)

  -- C's `memcpy( &buf[pos], src, length src )`; what would fall outside the array is dropped.
  abbrev pub write_at : List A → ℕ → List A → List A
  write_at buf pos [] = buf
  write_at buf pos (x ∷ xs) = write_at (set buf pos x) (pos + 1) xs

  pub length-write_at :
      (buf : List A) (pos : ℕ) (src : List A) → length (write_at buf pos src) ≡ length buf
  length-write_at buf pos [] = refl
  length-write_at buf pos (x ∷ xs) =
      omega (arith, length-write_at (set buf pos x) (pos + 1) xs, length-set buf pos x)

  pub append_assoc : (xs ys zs : List A) → (xs ++ ys) ++ zs ≡ xs ++ (ys ++ zs)
  append_assoc [] ys zs = refl
  append_assoc (x ∷ xs) ys zs = ap (◌∷◌ x) (append_assoc xs ys zs)

  pub set-append :
      (pre : List A) (y : A) (ys : List A) (i : ℕ) (x : A)
      → i ≡ length pre
      → set (pre ++ (y ∷ ys)) i x ≡ pre ++ (x ∷ ys)
  set-append [] y ys zero x e = refl
  set-append [] y ys (suc i) x e = absurd (omega arith)
  set-append (p ∷ pre) y ys zero x e = absurd (omega arith)
  set-append (p ∷ pre) y ys (suc i) x e = ap (◌∷◌ p) (set-append pre y ys i x (omega arith))

  -- Writing over the middle part of an array.
  pub write_at-append :
      (pre mid post src : List A) (pos : ℕ)
      → pos ≡ length pre
      → length mid ≡ length src
      → write_at (pre ++ (mid ++ post)) pos src ≡ pre ++ (src ++ post)
  write_at-append pre [] post [] pos e h = refl
  write_at-append pre [] post (x ∷ src) pos e h = absurd (omega arith)
  write_at-append pre (m ∷ mid) post [] pos e h = absurd (omega arith)
  write_at-append pre (m ∷ mid) post (x ∷ src) pos e h =
      rw (set-append pre m (mid ++ post) pos x e) (
        rw (← append_assoc pre (x ∷ []) (mid ++ post), ← append_assoc pre (x ∷ []) (src ++ post))
          (write_at-append (pre ++ (x ∷ [])) mid post src (pos + 1)
            (omega (arith, length-append pre (x ∷ []))) (omega arith)))

  pub take-append-drop : (n : ℕ) (xs : List A) → take n xs ++ drop n xs ≡ xs
  take-append-drop zero xs = refl
  take-append-drop (suc n) [] = refl
  take-append-drop (suc n) (x ∷ xs) = ap (◌∷◌ x) (take-append-drop n xs)

  -- Writing at the front of an array that is long enough.
  pub write_at_front :
      (buf src : List A)
      → length src ≤ length buf
      → write_at buf 0 src ≡ src ++ drop (length src) buf
  write_at_front buf src h =
      ap (λ b. write_at b 0 src) (sym (take-append-drop (length src) buf))
      ∙ write_at-append [] (take (length src) buf) (drop (length src) buf) src 0 (omega arith)
          (omega (arith, length-take (length src) buf))

  pub get_or_append_left :
      (xs ys : List A) (i : ℕ) (d : A) → i < length xs → get_or (xs ++ ys) i d ≡ get_or xs i d
  get_or_append_left [] ys i d h = absurd (omega arith)
  get_or_append_left (x ∷ xs) ys zero d h = refl
  get_or_append_left (x ∷ xs) ys (suc i) d h = get_or_append_left xs ys i d (omega arith)

  pub replicate-add : (m n : ℕ) (a : A) → replicate (m + n) a ≡ replicate m a ++ replicate n a
  replicate-add zero n a = let e : zero + n ≡ n = omega arith in rw e
  replicate-add (suc m) n a =
      let e : suc m + n ≡ suc (m + n) = omega arith in rw e (ap (◌∷◌ a) (replicate-add m n a))

  -- Overwriting the front of a uniform tail.
  pub write_at-replicate :
      (pre src : List A) (n pos : ℕ) (a : A)
      → pos ≡ length pre
      → length src ≤ n
      → write_at (pre ++ replicate n a) pos src ≡ pre ++ (src ++ replicate (n - length src) a)
  write_at-replicate pre src n pos a e h =
      let split : n ≡ length src + (n - length src) = omega arith in
      ap (λ k. write_at (pre ++ replicate k a) pos src) split
      ∙ ap (λ t. write_at (pre ++ t) pos src) (replicate-add (length src) (n - length src) a)
      ∙ write_at-append pre (replicate (length src) a) (replicate (n - length src) a) src pos e
          (length-replicate (length src) a)

  pub get_elem?-append :
      (pre xs : List A) (i : ℕ) → i ≡ length pre → get_elem? (pre ++ xs) i ≡ get_elem? xs 0
  get_elem?-append [] xs zero e = refl
  get_elem?-append [] xs (suc i) e = absurd (omega arith)
  get_elem?-append (p ∷ pre) xs zero e = absurd (omega arith)
  get_elem?-append (p ∷ pre) xs (suc i) e = get_elem?-append pre xs i (omega arith)

  -- Writing behind the part of an array that is filled already.
  pub write_at_behind :
      (pre rest src : List A) (pos : ℕ)
      → pos ≡ length pre
      → length src ≤ length rest
      → write_at (pre ++ rest) pos src ≡ (pre ++ src) ++ drop (length src) rest
  write_at_behind pre rest src pos e h =
      ap (λ t. write_at (pre ++ t) pos src) (sym (take-append-drop (length src) rest))
      ∙ write_at-append pre (take (length src) rest) (drop (length src) rest) src pos e
          (omega (arith, length-take (length src) rest))
      ∙ sym (append_assoc pre src (drop (length src) rest))

  pub drop-drop : (n m : ℕ) (xs : List A) → drop m (drop n xs) ≡ drop (n + m) xs
  drop-drop zero m xs = let e : zero + m ≡ m = omega arith in rw e
  drop-drop (suc n) zero [] = let e : suc n + zero ≡ suc n = omega arith in rw e
  drop-drop (suc n) (suc m) [] = let e : suc n + suc m ≡ suc (n + suc m) = omega arith in rw e
  drop-drop (suc n) m (x ∷ xs) =
      let e : suc n + m ≡ suc (n + m) = omega arith in rw e (drop-drop n m xs)

  pub append-nil : (xs : List A) → xs ++ [] ≡ xs
  append-nil [] = refl
  append-nil (x ∷ xs) = ap (◌∷◌ x) (append-nil xs)

  pub take_all : (n : ℕ) (xs : List A) → length xs ≤ n → take n xs ≡ xs
  take_all zero [] h = refl
  take_all zero (x ∷ xs) h = absurd (omega arith)
  take_all (suc n) [] h = refl
  take_all (suc n) (x ∷ xs) h = ap (◌∷◌ x) (take_all n xs (omega arith))
