-- ===== src/Common/Lists.antt =====
-- Lists measured and indexed by native numbers, under the library's names, and `All`.
use Prim.Native.Nat.{ℕ, zero, suc, ◌+◌, ◌-◌, ◌≤◌, min}
use mathlib.Core.Path.{◌≡◌, refl, ap, sym, ◌∙◌}
use mathlib.Core.List.{List, [], ◌∷◌, ◌++◌}
use mathlib.Core.Option.{Option, none, some}
use native.Mathlib.Omega.{arith}

module _ {ℓ} {A : Type ℓ} where
  abbrev pub length : List A → ℕ
  length [] = 0
  length (x ∷ xs) = suc (length xs)

  abbrev pub get_elem? : List A → ℕ → Option A
  get_elem? [] i = none
  get_elem? (x ∷ xs) zero = some x
  get_elem? (x ∷ xs) (suc i) = get_elem? xs i

  abbrev pub get_or : List A → ℕ → A → A
  get_or [] i d = d
  get_or (x ∷ xs) zero d = x
  get_or (x ∷ xs) (suc i) d = get_or xs i d

  -- A write out of bounds changes nothing.
  abbrev pub set : List A → ℕ → A → List A
  set [] i v = []
  set (x ∷ xs) zero v = v ∷ xs
  set (x ∷ xs) (suc i) v = x ∷ set xs i v

  abbrev pub take : ℕ → List A → List A
  take zero xs = []
  take (suc n) [] = []
  take (suc n) (x ∷ xs) = x ∷ take n xs

  abbrev pub drop : ℕ → List A → List A
  drop zero xs = xs
  drop (suc n) [] = []
  drop (suc n) (x ∷ xs) = drop n xs

  abbrev pub replicate : ℕ → A → List A
  replicate zero a = []
  replicate (suc n) a = a ∷ replicate n a

  abbrev pub All {κ} : (A → Type κ) → List A → Type κ
  All P [] = Unit {κ}
  All P (x ∷ xs) = P x × All P xs

module _ {ℓ} {A : Type ℓ} where
  pub length-append : (xs ys : List A) → length (xs ++ ys) ≡ length xs + length ys
  length-append [] ys = omega arith
  length-append (x ∷ xs) ys = omega (arith, length-append xs ys)

  pub length-set : (xs : List A) (i : ℕ) (v : A) → length (set xs i v) ≡ length xs
  length-set [] i v = refl
  length-set (x ∷ xs) zero v = refl
  length-set (x ∷ xs) (suc i) v = ap suc (length-set xs i v)

  pub take-append-drop : (n : ℕ) (xs : List A) → take n xs ++ drop n xs ≡ xs
  take-append-drop zero xs = refl
  take-append-drop (suc n) [] = refl
  take-append-drop (suc n) (x ∷ xs) = rw (take-append-drop n xs)

  pub length-take : (n : ℕ) (xs : List A) → length (take n xs) ≡ min n (length xs)
  length-take zero xs = omega arith
  length-take (suc n) [] = omega arith
  length-take (suc n) (x ∷ xs) = omega (arith, length-take n xs)

  pub length-drop : (n : ℕ) (xs : List A) → length (drop n xs) ≡ length xs - n
  length-drop zero xs = omega arith
  length-drop (suc n) [] = omega arith
  length-drop (suc n) (x ∷ xs) = omega (arith, length-drop n xs)

  pub length-replicate : (n : ℕ) (a : A) → length (replicate n a) ≡ n
  length-replicate zero a = refl
  length-replicate (suc n) a = ap suc (length-replicate n a)

  pub take-append_self : (n : ℕ) (xs ys : List A) → n ≡ length xs → take n (xs ++ ys) ≡ xs
  take-append_self zero [] ys h = refl
  take-append_self zero (x ∷ xs) ys h = absurd (omega arith)
  take-append_self (suc n) [] ys h = absurd (omega arith)
  take-append_self (suc n) (x ∷ xs) ys h = ap (◌∷◌ x) (take-append_self n xs ys (omega arith))

  pub drop-append_self : (n : ℕ) (xs ys : List A) → n ≡ length xs → drop n (xs ++ ys) ≡ ys
  drop-append_self zero [] ys h = refl
  drop-append_self zero (x ∷ xs) ys h = absurd (omega arith)
  drop-append_self (suc n) [] ys h = absurd (omega arith)
  drop-append_self (suc n) (x ∷ xs) ys h = drop-append_self n xs ys (omega arith)

  pub take-all : (n : ℕ) (xs : List A) → length xs ≤ n → take n xs ≡ xs
  take-all zero [] h = refl
  take-all zero (x ∷ xs) h = absurd (omega arith)
  take-all (suc n) [] h = refl
  take-all (suc n) (x ∷ xs) h = ap (◌∷◌ x) (take-all n xs (omega arith))

  pub drop-all : (n : ℕ) (xs : List A) → length xs ≤ n → drop n xs ≡ []
  drop-all zero [] h = refl
  drop-all zero (x ∷ xs) h = absurd (omega arith)
  drop-all (suc n) [] h = refl
  drop-all (suc n) (x ∷ xs) h = drop-all n xs (omega arith)

  -- Dropping within the first of two lists leaves the second.
  pub drop-append : (n : ℕ) (xs ys : List A) → n ≤ length xs → drop n (xs ++ ys) ≡ drop n xs ++ ys
  drop-append zero xs ys h = refl
  drop-append (suc n) [] ys h = absurd (omega arith)
  drop-append (suc n) (x ∷ xs) ys h = drop-append n xs ys (omega arith)

  pub drop-nil : (n : ℕ) → drop {A = A} n [] ≡ []
  drop-nil zero = refl
  drop-nil (suc n) = refl

  pub take-append : (n : ℕ) (xs ys : List A) → n ≤ length xs → take n (xs ++ ys) ≡ take n xs
  take-append zero xs ys h = refl
  take-append (suc n) [] ys h = absurd (omega arith)
  take-append (suc n) (x ∷ xs) ys h = ap (◌∷◌ x) (take-append n xs ys (omega arith))

  pub drop-drop : (m n : ℕ) (xs : List A) → drop m (drop n xs) ≡ drop (n + m) xs
  drop-drop m zero xs = ap (λ k. drop k xs) (omega arith)
  drop-drop m (suc n) [] = drop-nil m ∙ sym (drop-nil (suc n + m))
  drop-drop m (suc n) (x ∷ xs) =
      drop-drop m n xs ∙ ap (λ k. drop k (x ∷ xs)) {x = suc (n + m)} {y = suc n + m} (omega arith)

  -- Past the first of two lists it is the second that is taken from, or dropped from.
  pub take-past :
      (k : ℕ) (xs ys : List A) → length xs ≤ k → take k (xs ++ ys) ≡ xs ++ take (k - length xs) ys
  take-past k [] ys h = ap (λ n. take n ys) (omega arith)
  take-past zero (x ∷ xs) ys h = absurd (omega arith)
  take-past (suc k) (x ∷ xs) ys h = ap (◌∷◌ x) (
      take-past k xs ys (omega arith)
      ∙ ap (λ n. xs ++ take n ys) {x = k - length xs} {y = suc k - suc (length xs)} (omega arith))

  pub drop-past :
      (k : ℕ) (xs ys : List A) → length xs ≤ k → drop k (xs ++ ys) ≡ drop (k - length xs) ys
  drop-past k [] ys h = ap (λ n. drop n ys) (omega arith)
  drop-past zero (x ∷ xs) ys h = absurd (omega arith)
  drop-past (suc k) (x ∷ xs) ys h =
      drop-past k xs ys (omega arith)
      ∙ ap (λ n. drop n ys) {x = k - length xs} {y = suc k - suc (length xs)} (omega arith)

  pub length-zero : (xs : List A) → length xs ≡ 0 → xs ≡ []
  length-zero [] h = refl
  length-zero (x ∷ xs) h = absurd (omega arith)

  take-none : (k : ℕ) → take {A = A} k [] ≡ []
  take-none zero = refl
  take-none (suc k) = refl

  pub take-both :
      (k : ℕ) (xs ys : List A) → take k (xs ++ ys) ≡ take k xs ++ take (k - length xs) ys
  take-both k [] ys =
      ap (λ n. take n ys) {x = k} {y = k - 0} (omega arith)
      ∙ ap (λ l. l ++ take (k - 0) ys) (sym (take-none k))
  take-both zero (x ∷ xs) ys = ap (λ n. take n ys) {x = 0} {y = 0 - suc (length xs)} (omega arith)
  take-both (suc k) (x ∷ xs) ys = ap (◌∷◌ x) (
      take-both k xs ys
      ∙ ap (λ n. take k xs ++ take n ys) {x = k - length xs} {y = suc k - suc (length xs)}
          (omega arith))
