-- ===== src/Net/Wire/Lengths.antt =====
-- The reads behind a length are lawful, and so is a loop of lawful reads; what is cut short is refused.
use mathlib.Core.Path.{fun_ext}
use ta_engine.Common.{
  ℕ, zero, suc, ◌≤◌, ◌≡◌, refl, sym, ap, ◌∙◌, inl, inr, Bool, true, false, not, ◌&&◌, ◌||◌, List,
  [], ◌∷◌, ◌++◌, append-nil, arith, ltb, leb, ◌==◌, if◌then◌else◌, leb→le, le→leb, Bool-cases,
  length, take, drop, length-append, take-append-drop, drop-append, take-append,
}
use ta_engine.Net.Wire.RoundTrip.{RoundTrip}
use ta_engine.Net.Wire.{
  get_list, Put, Reader, Get, ◌>>=◌, pure, avail, failed, fail_with, get_run, get_length, get_str,
  get_bytes,
}
use ta_engine.Net.Wire.Lawful.{
  guarded-IsLawful, extended, IsLawful, pure-IsLawful, >>=-IsLawful, guarded,
}

-- A run of a fixed length, with a default where it is cut short.
pub fixed_run-IsLawful :
    (n : ℕ) (d : List ℕ) → IsLawful (λ r. if avail n r then get_run n r else fail_with d r)
unfolding guarded get_run
fixed_run-IsLawful n d =
    guarded-IsLawful n (λ xs. (take n xs, drop n xs)) d
      (λ xs. (take n xs, sym (take-append-drop n xs)))
      (λ xs more h. rw (take-append n xs more h, drop-append n xs more h))

get_length_front : (xs : List ℕ) → (used : List ℕ) × (xs ≡ used ++ (get_length xs).1)
unfolding get_length
get_length_front [] = ([], refl)
get_length_front (a ∷ []) = ([], refl)
get_length_front (a ∷ b ∷ xs) = (a ∷ b ∷ [], refl)

get_length_further :
    (xs more : List ℕ)
    → 2 ≤ length xs
    → get_length (xs ++ more) ≡ ((get_length xs).0, (get_length xs).1 ++ more)
unfolding get_length
get_length_further [] more h = absurd (omega arith)
get_length_further (a ∷ []) more h = absurd (omega arith)
get_length_further (a ∷ b ∷ xs) more h = refl

-- The part of `str` and `bytes` behind the length: `bad` is what refuses it beside a short buffer.
run_or_fail : Bool → ℕ → Get (List ℕ)
run_or_fail bad n r = if bad || not (avail n r) then fail_with [] r else get_run n r

run_or_fail-IsLawful : (bad : Bool) (n : ℕ) → IsLawful (run_or_fail bad n)
unfolding run_or_fail avail fail_with get_run
run_or_fail-IsLawful true n = record {
  suffix = λ r. ([], refl);
  sticky = λ r h. cc;
  extends = λ r more h. cc;
}
run_or_fail-IsLawful false n = record {
  suffix = λ r. elim (Bool-cases (leb n (length r.p))) [
    | inl e ↦ rw e (take n r.p, sym (take-append-drop n r.p))
    | inr e ↦ rw e ([], refl)
  ];
  sticky = λ r h. ground arith;
  extends = λ r more h. elim (Bool-cases (leb n (length r.p))) [
    | inl e ↦ rw (
      e,
      le→leb n (length (r.p ++ more))
          (omega (arith, leb→le n (length r.p) e, length-append r.p more)),
      take-append n r.p more (leb→le n (length r.p) e),
      drop-append n r.p more (leb→le n (length r.p) e),
    )
    | inr e ↦ absurd (ground arith)
  ];
}

-- After a short buffer the length is 0, and an empty run is read from what is left.
get_str-run :
    (r : Reader) → get_str r ≡ (guarded 2 get_length 0 >>= (λ n. run_or_fail (ltb 4096 n) n)) r
unfolding get_str guarded run_or_fail get_run ◌>>=◌
get_str-run r = elim (Bool-cases (leb 2 (length r.p))) [
  | inl e ↦ rw e
  | inr e ↦ rw (e, le→leb 0 (length r.p) (omega arith))
]

or_swap : (a b c : Bool) → (a || b || c) ≡ ((a || c) || b)
or_swap a b c = ground arith

run_of_none : (bad : Bool) (r : Reader) → run_or_fail bad 0 (failed r) ≡ ([], failed r)
unfolding run_or_fail avail fail_with get_run
run_of_none true r = refl
run_of_none false r = rw (le→leb 0 (length r.p) (omega arith))

get_bytes-run :
    (want : ℕ) (r : Reader)
    → get_bytes want r
      ≡ (guarded 2 get_length 0
            >>= (λ n. run_or_fail (ltb 4096 n || (not (want == 0) && not (n == want))) n))
          r
unfolding get_bytes guarded run_or_fail get_run ◌>>=◌
get_bytes-run want r = elim (Bool-cases (leb 2 (length r.p))) [
  | inl e ↦ rw (e, or_swap)
  | inr e ↦ rw e (sym (run_of_none (not (want == 0) && not (0 == want)) r))
]

IsLawful-run : {A : Type 0} (m m' : Get A) → ((r : Reader) → m r ≡ m' r) → IsLawful m' → IsLawful m
IsLawful-run m m' e l = rw (fun_ext e) l

pub get_str-IsLawful : IsLawful get_str
get_str-IsLawful = IsLawful-run get_str _ get_str-run (
    >>=-IsLawful _ (guarded-IsLawful 2 get_length 0 get_length_front get_length_further)
      (λ n. run_or_fail-IsLawful (ltb 4096 n) n))

pub get_bytes-IsLawful : (want : ℕ) → IsLawful (get_bytes want)
get_bytes-IsLawful want = IsLawful-run (get_bytes want) _ (get_bytes-run want) (
    >>=-IsLawful _ (guarded-IsLawful 2 get_length 0 get_length_front get_length_further)
      (λ n. run_or_fail-IsLawful _ n))

-- Of bytes that a writer produced, a reader refuses every proper front.
pub RoundTrip-truncated :
    {A : Type 0} {put : Put} {get : Get A} {v : A} (t : RoundTrip put get v)
    → IsLawful get
    → (front : List ℕ) (x : ℕ) (back : List ℕ) → t.written ≡ front ++ (x ∷ back)
    → (get (record { p = front; ok = true })).1.ok ≡ false
RoundTrip-truncated {A} {get = get} {v} t l front x back e =
    elim (Bool-cases (get (record { p = front; ok = true })).1.ok) [
      | inl h ↦ absurd (none_left h)
      | inr h ↦ h
    ]
  where
    none_left : (get (record { p = front; ok = true })).1.ok ≡ true → ⊥
    none_left h = omega (
      arith,
      ap (λ (q : A × Reader). length q.1.p)
          (sym (
              t.reads [] (record { p = front ++ (x ∷ back); ok = true })
                (sym e ∙ sym (append-nil _)) refl)
            ∙ l.extends (record { p = front; ok = true }) (x ∷ back) h),
      length-append (get (record { p = front; ok = true })).1.p (x ∷ back),
    )

module _ {A : Type 0} (a : A) (m : Get A) (l : IsLawful m) where
  -- `m` where the flag is up; else nothing.
  while_ok : Get A
  while_ok r = elim r.ok [ true ↦ m r | false ↦ (a, r) ]

  while_ok_suffix :
      (xs : List ℕ) (b : Bool)
      → (used : List ℕ) × (xs ≡ used ++ (while_ok (record { p = xs; ok = b })).1.p)
  unfolding while_ok
  while_ok_suffix xs true = l.suffix (record { p = xs; ok = true })
  while_ok_suffix xs false = ([], refl)

  while_ok_sticky :
      (xs : List ℕ) (b : Bool) → (while_ok (record { p = xs; ok = b })).1.ok ≡ true → b ≡ true
  unfolding while_ok
  while_ok_sticky xs true h = refl
  while_ok_sticky xs false h = h

  while_ok_extends :
      (xs more : List ℕ) (b : Bool)
      → (while_ok (record { p = xs; ok = b })).1.ok ≡ true
      → while_ok (record { p = xs ++ more; ok = b }) ≡ (
        (while_ok (record { p = xs; ok = b })).0,
        extended (while_ok (record { p = xs; ok = b })).1 more,
      )
  unfolding while_ok
  while_ok_extends xs more true h = l.extends (record { p = xs; ok = true }) more h
  while_ok_extends xs more false h = cc

  while_ok-IsLawful : IsLawful while_ok
  while_ok-IsLawful = record {
    suffix = λ r. while_ok_suffix r.p r.ok;
    sticky = λ r. while_ok_sticky r.p r.ok;
    extends = λ r more. while_ok_extends r.p more r.ok;
  }

pub get_list-IsLawful :
    {A : Type 0} (n : ℕ) (get : Get A) (acc : List A) → IsLawful get → IsLawful (get_list n get acc)
unfolding get_list pure while_ok ◌>>=◌
get_list-IsLawful zero get acc l = pure-IsLawful acc
get_list-IsLawful (suc n) get acc l =
    while_ok-IsLawful acc (get >>= (λ x. get_list n get (acc ++ x ∷ [])))
      (>>=-IsLawful _ l (λ x. get_list-IsLawful n get (acc ++ x ∷ []) l))
