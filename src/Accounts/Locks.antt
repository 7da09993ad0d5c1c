-- ===== src/Accounts/Locks.antt =====
-- How long a login is refused, `LoginThrottle` of src/server/accounts.cpp.
use ta_engine.Common.{
  ℕ, zero, suc, ◌+◌, ◌-◌, ◌*◌, ◌%◌, ◌^◌, ◌≤◌, ◌<◌, min, ◌≡◌, refl, sym, ap, ◌∙◌, subst, inl, inr,
  true, false, none, List, [], ◌∷◌, arith, ltb, leb, if◌then◌else◌, ltb→lt, lt→ltb, ge→ltb, ltb→ge,
  leb→le, Bool-cases,
}
use native.Mathlib.Nat.{pow-suc, pow-zero, mul-one, mul_assoc, le-mul_of_pos_right}
use ta_engine.Common.Bytes.{
  lookup, insert, has, same_bytes, lookup-insert, or_false, same_bytes_eq, and_true,
}
use ta_engine.Accounts.{
  Policy, Failures, LoginThrottle, locked_left, locked_for, doubled, lock_time, failures_now,
  failed_once, entry_of, fail_login, is_forgotten, expire, forget_ms,
}

pow-pos : (n : ℕ) → 1 ≤ 2 ^ n
pow-pos zero = omega (arith, pow-zero 2)
pow-pos (suc n) = omega (arith, pow-suc 2 n, pow-pos n)

grown : (lock n : ℕ) → lock ≤ lock * 2 ^ n
grown lock n = le-mul_of_pos_right lock (pow-pos n)

twice_over : (lock n : ℕ) → lock * 2 * 2 ^ n ≡ lock * 2 ^ suc n
twice_over lock n =
    ap (λ t. t) (mul_assoc lock 2 (2 ^ n)) ∙ ap (λ t. lock * t) (omega (arith, pow-suc 2 n))

-- Doubling stops only where the limit is met.
min-doubled :
    (n lock max_lock : ℕ)
    → max_lock < 2 ^ 63
    → min max_lock (doubled n lock max_lock) ≡ min max_lock (lock * 2 ^ n)
unfolding doubled
min-doubled zero lock max_lock h = omega (arith, mul-one lock, pow-zero 2)
min-doubled (suc n) lock max_lock h = elim (Bool-cases (ltb lock max_lock)) [
  | inl e ↦
      let lt : lock < max_lock = ltb→lt lock max_lock e in
      let whole : lock * 2 % 2 ^ 64 ≡ lock * 2 = omega arith in
      rw (doubled, e, whole)
        (min-doubled n (lock * 2) max_lock h ∙ ap (min max_lock) (twice_over lock n))
  | inr e ↦ rw (doubled, e) (omega (arith, ltb→ge lock max_lock e, grown lock (suc n)))
]

least : (m lock : ℕ) → (if ltb m lock then m else lock) ≡ min m lock
least m lock = ground arith

lock_time-min :
    (p : Policy) (over : ℕ)
    → p.max_lock_ms < 2 ^ 63
    → lock_time p over ≡ min p.max_lock_ms (p.base_lock_ms * 2 ^ over)
unfolding lock_time
lock_time-min p over h =
    let lock = doubled over p.base_lock_ms p.max_lock_ms in
    least p.max_lock_ms lock ∙ min-doubled over p.base_lock_ms p.max_lock_ms h

table_lookup :
    (key : List ℕ) (f : Failures) (now : ℕ) (t : LoginThrottle)
    → locked_for key now (insert key f t) ≡ locked_left now f
unfolding locked_for
table_lookup key f now t = rw (locked_for, lookup-insert key f t) refl

failed_once-lock :
    (p : Policy) (now : ℕ) (e : Failures)
    → p.free_attempts < failures_now now e
    → (failed_once p now e).locked_until_ms
      ≡ (now + lock_time p (failures_now now e - p.free_attempts - 1)) % 2 ^ 64
unfolding failed_once
failed_once-lock p now e h = rw (failed_once, lt→ltb p.free_attempts (failures_now now e) h) refl

failed_once-free :
    (p : Policy) (now : ℕ) (e : Failures)
    → failures_now now e ≤ p.free_attempts
    → locked_left now (failed_once p now e) ≡ locked_left now e
unfolding failed_once locked_left
failed_once-free p now e h = rw (failed_once, ge→ltb p.free_attempts (failures_now now e) h) refl

left_until :
    (now : ℕ) (e : Failures) (time : ℕ) → e.locked_until_ms ≡ now + time → locked_left now e ≡ time
unfolding locked_left
left_until now e time h = ground arith

-- Where a key has failed more often than its policy lets pass, and neither the lock's limit nor the
-- clock is near the end of its word, the key is refused for the base time doubled once for each further
-- failure, at most for the limit; and where the failures are within what the policy lets pass, the lock
-- that the key had stays as it was.
pub fail_login-locked_for :
    (p : Policy) (now : ℕ) (key : List ℕ) (t : LoginThrottle)
    → now + p.max_lock_ms < 2 ^ 63
    → (p.free_attempts < failures_now now (entry_of key t)
        → locked_for key now (fail_login key now p t)
          ≡ min p.max_lock_ms
              (p.base_lock_ms * 2 ^ (failures_now now (entry_of key t) - p.free_attempts - 1)))
      × (failures_now now (entry_of key t) ≤ p.free_attempts
          → locked_for key now (fail_login key now p t) ≡ locked_left now (entry_of key t))
unfolding fail_login
fail_login-locked_for p now key t hm =
    let e = entry_of key t in
    let n = failures_now now e in
    (
      λ h.
          let over = n - p.free_attempts - 1 in
          let time = lock_time p over in
          let time_is = lock_time-min p over (omega arith) in
          let until : (failed_once p now e).locked_until_ms ≡ now + time =
            failed_once-lock p now e h ∙ omega arith in
          table_lookup key (failed_once p now e) now t
          ∙ left_until now (failed_once p now e) time until
          ∙ time_is,
      λ h. table_lookup key (failed_once p now e) now t ∙ failed_once-free p now e h,
    )

-- Every key stands in a table once, as in a `std::map`.
unfoldable pub IsTable : LoginThrottle → Type 0
IsTable [] = Unit
IsTable (e ∷ t) = (has e.0 t ≡ false) × IsTable t

lookup-expire_absent :
    (key : List ℕ) (now : ℕ) (t : LoginThrottle)
    → has key t ≡ false
    → lookup key (expire now t) ≡ none
unfolding has lookup expire
lookup-expire_absent key now [] h = refl
lookup-expire_absent key now (e ∷ t) h =
    let (s, behind) = or_false (same_bytes key e.0) (has key t) h in
    elim (Bool-cases (is_forgotten now e.1)) [
      | inl f ↦ rw f (lookup-expire_absent key now t behind)
      | inr f ↦ rw (f, lookup, s) (lookup-expire_absent key now t behind)
    ]

-- A lock that has run out stays so.
forgotten_left :
    (now later : ℕ) (e : Failures)
    → is_forgotten now e ≡ true
    → now ≤ later
    → locked_left later e ≡ 0
unfolding is_forgotten locked_left
forgotten_left now later e f h =
    let (quiet, unlocked) =
      and_true (ltb ((e.last_ms + forget_ms) % 2 ^ 64) now) (leb e.locked_until_ms now) f in
    rw (ge→ltb later e.locked_until_ms (omega (arith, leb→le e.locked_until_ms now unlocked))) refl

module _ (key : List ℕ) (later : ℕ) where
  locked_for-none : (t : LoginThrottle) → lookup key t ≡ none → locked_for key later t ≡ 0
  unfolding locked_for
  locked_for-none t e = rw (locked_for, e) refl

  locked_for-same :
      (e : List ℕ × Failures) (t : LoginThrottle)
      → same_bytes key e.0 ≡ true
      → locked_for key later (e ∷ t) ≡ locked_left later e.1
  unfolding locked_for lookup
  locked_for-same e t s = rw (locked_for, lookup, s) refl

  locked_for-other :
      (e : List ℕ × Failures) (t : LoginThrottle)
      → same_bytes key e.0 ≡ false
      → locked_for key later (e ∷ t) ≡ locked_for key later t
  unfolding locked_for lookup
  locked_for-other e t s = rw (locked_for, lookup, s) refl

-- Forgetting the keys that were quiet frees no key: from then on each key is refused for as long as it
-- would have been.
pub locked_for-expire :
    (key : List ℕ) (now later : ℕ) (t : LoginThrottle)
    → IsTable t
    → now ≤ later
    → locked_for key later (expire now t) ≡ locked_for key later t
unfolding IsTable expire
locked_for-expire key now later [] h hl = refl
locked_for-expire key now later (e ∷ t) (once, h) hl =
    let rest = locked_for-expire key now later t h hl in
    elim (Bool-cases (is_forgotten now e.1)) [
      | inl f ↦ rw f (elim (Bool-cases (same_bytes key e.0)) [
        | inl s ↦
            let absent : has key t ≡ false =
              subst (λ k. has k t ≡ false) (sym (same_bytes_eq key e.0 s)) once in
            locked_for-none key later (expire now t) (lookup-expire_absent key now t absent)
            ∙ sym (locked_for-same key later e t s ∙ forgotten_left now later e.1 f hl)
        | inr s ↦ rest ∙ sym (locked_for-other key later e t s)
      ])
      | inr f ↦ rw f (elim (Bool-cases (same_bytes key e.0)) [
        | inl s ↦
            locked_for-same key later e (expire now t) s ∙ sym (locked_for-same key later e t s)
        | inr s ↦
            locked_for-other key later e (expire now t) s
            ∙ rest
            ∙ sym (locked_for-other key later e t s)
      ])
    ]
