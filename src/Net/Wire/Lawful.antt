-- ===== src/Net/Wire/Lawful.antt =====
-- What every method of `Reader` in src/net/protocol.h keeps, on any bytes at all. `IsLawful`
-- composes over `◌>>=◌`, so a parser built of such methods has it too.
use ta_engine.Common.{
  ℕ, zero, suc, ◌+◌, ◌≤◌, ◌≡◌, refl, sym, ap, ◌∙◌, inl, inr, Bool, true, List, [], ◌∷◌, ◌++◌,
  append_assoc, arith, leb, if◌then◌else◌, leb→le, le→leb, Bool-cases, length, length-append,
}
use ta_engine.Net.Wire.{
  Reader, Get, ◌>>=◌, pure, avail, fail_with, get_u8, get_le, get_word, get_u32, get_u64, get_f32,
}

abbrev pub extended : Reader → List ℕ → Reader
extended r more = record r { p = r.p ++ more }

pub record IsLawful {A : Type 0} (m : Get A) : Type 0 where
  -- The reader moves forward within its bytes.
  pub suffix : (r : Reader) → (used : List ℕ) × (r.p ≡ used ++ (m r).1.p)
  -- The flag never comes back.
  pub sticky : (r : Reader) → (m r).1.ok ≡ true → r.ok ≡ true
  -- A read that succeeded does not depend on what follows.
  pub extends :
      (r : Reader) (more : List ℕ)
      → (m r).1.ok ≡ true
      → m (extended r more) ≡ ((m r).0, extended (m r).1 more)

pub pure-IsLawful : {A : Type 0} (a : A) → IsLawful (pure a)
unfolding pure
pure-IsLawful a = record { suffix = λ r. ([], refl); sticky = λ r h. h; extends = λ r more h. refl }

pub >>=-IsLawful :
    {A B : Type 0} {m : Get A} (f : A → Get B)
    → IsLawful m
    → ((a : A) → IsLawful (f a))
    → IsLawful (m >>= f)
unfolding ◌>>=◌
>>=-IsLawful {m = m} f l k = record {
  suffix = λ r.
      let (xs, e) = l.suffix r in
      let (ys, d) = (k (m r).0).suffix (m r).1 in
      (xs ++ ys, e ∙ ap (◌++◌ xs) d ∙ sym (append_assoc xs ys _));
  sticky = λ r h. l.sticky r ((k (m r).0).sticky (m r).1 h);
  extends = λ r more h.
      rw (l.extends r more ((k (m r).0).sticky (m r).1 h)) ((k (m r).0).extends (m r).1 more h);
}

u8_suffix :
    (xs : List ℕ) (b : Bool)
    → (used : List ℕ) × (xs ≡ used ++ (get_u8 (record { p = xs; ok = b })).1.p)
unfolding get_u8
u8_suffix [] b = ([], refl)
u8_suffix (x ∷ xs) b = (x ∷ [], refl)

u8_sticky : (xs : List ℕ) (b : Bool) → (get_u8 (record { p = xs; ok = b })).1.ok ≡ true → b ≡ true
unfolding get_u8
u8_sticky [] b h = cc
u8_sticky (x ∷ xs) b h = h

u8_extends :
    (xs more : List ℕ) (b : Bool)
    → (get_u8 (record { p = xs; ok = b })).1.ok ≡ true
    → get_u8 (record { p = xs ++ more; ok = b }) ≡ (
      (get_u8 (record { p = xs; ok = b })).0,
      extended (get_u8 (record { p = xs; ok = b })).1 more,
    )
unfolding get_u8
u8_extends [] more b h = cc
u8_extends (x ∷ xs) more b h = refl

pub get_u8-IsLawful : IsLawful get_u8
get_u8-IsLawful = record {
  suffix = λ r. u8_suffix r.p r.ok;
  sticky = λ r. u8_sticky r.p r.ok;
  extends = λ r more. u8_extends r.p more r.ok;
}

-- A test for `n` bytes, then a function on the bytes that takes a front of them and does not look
-- further: the shape of the reads of words and of lengths.
unfoldable pub guarded : {A : Type 0} → ℕ → (List ℕ → A × List ℕ) → A → Get A
guarded n f d r =
    if avail n r then (let (v, rest) = f r.p in (v, record r { p = rest })) else fail_with d r

module _ {A : Type 0} (n : ℕ) (f : List ℕ → A × List ℕ) (d : A) where
  pub guarded-IsLawful :
      ((xs : List ℕ) → (used : List ℕ) × (xs ≡ used ++ (f xs).1))
      → ((xs more : List ℕ) → n ≤ length xs → f (xs ++ more) ≡ ((f xs).0, (f xs).1 ++ more))
      → IsLawful (guarded n f d)
  unfolding guarded avail fail_with
  guarded-IsLawful front further = record {
    suffix = λ r. elim (Bool-cases (leb n (length r.p))) [
      | inl e ↦ rw e (front r.p)
      | inr e ↦ rw e ([], refl)
    ];
    sticky = λ r h. ground arith;
    extends = λ r more h. elim (Bool-cases (leb n (length r.p))) [
      | inl e ↦ rw (
        e,
        le→leb n (length (r.p ++ more))
            (omega (arith, leb→le n (length r.p) e, length-append r.p more)),
        further r.p more (leb→le n (length r.p) e),
      )
      | inr e ↦ absurd (ground arith)
    ];
  }

get_le_front : (n i v : ℕ) (xs : List ℕ) → (used : List ℕ) × (xs ≡ used ++ (get_le n i v xs).1)
unfolding get_le
get_le_front zero i v xs = ([], refl)
get_le_front (suc n) i v [] = ([], refl)
get_le_front (suc n) i v (x ∷ xs) =
    let (used, e) = get_le_front n (i + 1) _ xs in (x ∷ used, ap (◌∷◌ x) e)

get_le_further :
    (n i v : ℕ) (xs more : List ℕ)
    → n ≤ length xs
    → get_le n i v (xs ++ more) ≡ ((get_le n i v xs).0, (get_le n i v xs).1 ++ more)
unfolding get_le
get_le_further zero i v xs more h = refl
get_le_further (suc n) i v [] more h = absurd (omega arith)
get_le_further (suc n) i v (x ∷ xs) more h = get_le_further n (i + 1) _ xs more (omega arith)

get_word-IsLawful : (n : ℕ) → IsLawful (get_word n)
unfolding get_word guarded
get_word-IsLawful n =
    guarded-IsLawful n (get_le n 0 0) 0 (get_le_front n 0 0) (get_le_further n 0 0)

pub get_u32-IsLawful : IsLawful get_u32
unfolding get_u32
get_u32-IsLawful = get_word-IsLawful 4

pub get_u64-IsLawful : IsLawful get_u64
unfolding get_u64
get_u64-IsLawful = get_word-IsLawful 8

pub get_f32-IsLawful : IsLawful get_f32
unfolding get_f32
get_f32-IsLawful = get_u32-IsLawful
