-- ===== src/Common/Bytes.antt =====
-- Byte strings compared, and tables with byte strings as keys: what a `std::map` with such keys holds.
-- The order of the entries is the order of insertion; nothing here depends on it.
use Prim.Native.Nat.{ℕ}
use mathlib.Core.Path.{◌≡◌, refl, sym, ap, subst, ◌∙◌}
use mathlib.Core.Logic.{inl, inr}
use mathlib.Core.Bool.{Bool, true, false, ◌&&◌, ◌||◌, true≢false}
use mathlib.Core.Option.{Option, none, some, some-injective, none-ne-some}
use mathlib.Core.List.{List, [], ◌∷◌}
use ta_engine.Common.Lists.{All}
use ta_engine.Common.Tests.{◌==◌, if◌then◌else◌, ==_iff, ==_refl, Bool-cases}

pub and_true : (a b : Bool) → (a && b) ≡ true → (a ≡ true) × (b ≡ true)
and_true true b h = (refl, h)
and_true false b h = absurd (true≢false (sym h))

unfoldable pub same_bytes : List ℕ → List ℕ → Bool
same_bytes [] [] = true
same_bytes [] (y ∷ ys) = false
same_bytes (x ∷ xs) [] = false
same_bytes (x ∷ xs) (y ∷ ys) = let rest = same_bytes xs ys in (x == y) && rest

pub same_bytes_refl : (xs : List ℕ) → same_bytes xs xs ≡ true
unfolding same_bytes
same_bytes_refl [] = refl
same_bytes_refl (x ∷ xs) = rw (==_refl x, same_bytes_refl xs) refl

pub same_bytes_eq : (xs ys : List ℕ) → same_bytes xs ys ≡ true → xs ≡ ys
unfolding same_bytes
same_bytes_eq [] [] h = refl
same_bytes_eq [] (y ∷ ys) h = absurd (true≢false (sym h))
same_bytes_eq (x ∷ xs) [] h = absurd (true≢false (sym h))
same_bytes_eq (x ∷ xs) (y ∷ ys) h =
    let (here, behind) = and_true (x == y) (same_bytes xs ys) h in
    cc ((==_iff x y).0 here, same_bytes_eq xs ys behind)

pub or_false : (a b : Bool) → (a || b) ≡ false → (a ≡ false) × (b ≡ false)
or_false true b h = (h, absurd (true≢false h))
or_false false b h = (refl, h)

abbrev pub Table : Type 0 → Type 0
Table A = List (List ℕ × A)

pub if-true : {A : Type 0} {b : Bool} (x y : A) → b ≡ true → (if b then x else y) ≡ x
if-true x y e = rw e refl

pub if-false : {A : Type 0} {b : Bool} (x y : A) → b ≡ false → (if b then x else y) ≡ y
if-false x y e = rw e refl

module _ {A : Type 0} where
  unfoldable pub lookup : List ℕ → Table A → Option A
  lookup k [] = none
  lookup k (e ∷ t) = let rest = lookup k t in if same_bytes k e.0 then some e.1 else rest

  unfoldable pub insert : List ℕ → A → Table A → Table A
  insert k a [] = (k, a) ∷ []
  insert k a (e ∷ t) = let rest = insert k a t in if same_bytes k e.0 then (k, a) ∷ t else e ∷ rest

  unfoldable pub erase : List ℕ → Table A → Table A
  erase k [] = []
  erase k (e ∷ t) = let rest = erase k t in if same_bytes k e.0 then rest else e ∷ rest

  unfoldable pub has : List ℕ → Table A → Bool
  has k [] = false
  has k (e ∷ t) = let rest = has k t in same_bytes k e.0 || rest

  pub lookup-insert : (k : List ℕ) (a : A) (t : Table A) → lookup k (insert k a t) ≡ some a
  unfolding lookup insert
  lookup-insert k a [] = rw (same_bytes_refl k) refl
  lookup-insert k a (e ∷ t) = elim (Bool-cases (same_bytes k e.0)) [
    | inl h ↦ rw (h, same_bytes_refl k) refl
    | inr h ↦ rw (h, lookup, h) (lookup-insert k a t)
  ]

  -- What was not there is gone again.
  pub erase-insert :
      (k : List ℕ) (a : A) (t : Table A) → has k t ≡ false → erase k (insert k a t) ≡ t
  unfolding has insert erase
  erase-insert k a [] h = rw (same_bytes_refl k) refl
  erase-insert k a (e ∷ t) h =
      let (s, behind) = or_false (same_bytes k e.0) (has k t) h in
      rw (s, erase, s) (ap (◌∷◌ e) (erase-insert k a t behind))

  pub All-insert :
      (P : List ℕ × A → Type 0) (k : List ℕ) (a : A) (t : Table A)
      → P (k, a)
      → All P t
      → All P (insert k a t)
  unfolding insert
  All-insert P k a [] p h = (p, tt)
  All-insert P k a (e ∷ t) p (q, h) = elim (Bool-cases (same_bytes k e.0)) [
    | inl s ↦ rw s (p, h)
    | inr s ↦ rw s (q, All-insert P k a t p h)
  ]

  pub lookup-All :
      (P : List ℕ × A → Type 0) (k : List ℕ) (a : A) (t : Table A)
      → All P t
      → lookup k t ≡ some a
      → P (k, a)
  unfolding lookup
  lookup-All P k a [] h e = absurd (none-ne-some a e)
  lookup-All P k a (x ∷ t) (p, h) e = elim (Bool-cases (same_bytes k x.0)) [
    | inl s ↦
        let at : some x.1 ≡ some a = sym (if-true _ _ s) ∙ e in
        subst P
          (ap (λ j. (j, x.1)) (sym (same_bytes_eq k x.0 s))
            ∙ ap (λ b. (k, b)) (some-injective x.1 a at))
          p
    | inr s ↦ lookup-All P k a t h (sym (if-false _ _ s) ∙ e)
  ]
