-- ===== src/Accounts/Streaks.antt =====
-- How the failures of a key add up, `LoginThrottle::fail` of src/server/accounts.cpp.
use ta_engine.Common.{
  ℕ, ◌+◌, ◌-◌, ◌*◌, ◌^◌, ◌≤◌, ◌<◌, min, ◌≡◌, refl, ap, ◌∙◌, inl, inr, none, List, [], ◌∷◌, arith,
  ltb, if◌then◌else◌, ge→ltb, Option-cases,
}
use ta_engine.Common.Bytes.{lookup, lookup-insert, if-false}
use ta_engine.Common.Cases.{by_test}
use ta_engine.Accounts.{
  Policy, Failures, LoginThrottle, no_failures, locked_left, locked_for, failures_now, failed_once,
  entry_of, fail_login, forget_ms,
}
use ta_engine.Accounts.Locks.{fail_login-locked_for}

-- A key fails at each of these times, which stand with the latest first.
unfoldable pub fail_times : Policy → List ℕ → List ℕ → LoginThrottle → LoginThrottle
fail_times p key [] t = t
fail_times p key (now ∷ earlier) t = fail_login key now p (fail_times p key earlier t)

-- The number of the latest failures of which none is more than an hour behind the one before it.
unfoldable pub streak : List ℕ → ℕ
streak [] = 0
streak (now ∷ []) = 1
streak (now ∷ last ∷ earlier) =
    let rest = streak (last ∷ earlier) in if ltb (last + forget_ms) now then 1 else rest + 1

-- Times of a clock that does not go back, none of them 0, all in 63 bits.
unfoldable pub IsHistory : List ℕ → Type 0
IsHistory [] = Unit
IsHistory (now ∷ []) = 1 ≤ now × now < 2 ^ 63
IsHistory (now ∷ last ∷ earlier) = last ≤ now × now < 2 ^ 63 × IsHistory (last ∷ earlier)

IsHistory-positive : (now : ℕ) (earlier : List ℕ) → IsHistory (now ∷ earlier) → 1 ≤ now
unfolding IsHistory
IsHistory-positive now [] h = h.0
IsHistory-positive now (last ∷ earlier) (h, _, k) =
    omega (arith, h, IsHistory-positive last earlier k)

-- What is stored of a failure.
failed_once-stored :
    (p : Policy) (now : ℕ) (e : Failures)
    → ((failed_once p now e).fails ≡ failures_now now e) × ((failed_once p now e).last_ms ≡ now)
unfolding failed_once
failed_once-stored p now e =
    by_test (λ (f : Failures). (f.fails ≡ failures_now now e) × (f.last_ms ≡ now))
      (ltb p.free_attempts (failures_now now e)) _ _ (λ t. (refl, refl)) (λ t. (refl, refl))

entry_of-fail_login :
    (key : List ℕ) (now : ℕ) (p : Policy) (t : LoginThrottle)
    → entry_of key (fail_login key now p t) ≡ failed_once p now (entry_of key t)
unfolding fail_login entry_of failed_once
entry_of-fail_login key now p t =
    rw (entry_of, lookup-insert key (failed_once p now (entry_of key t)) t) refl

next_failure :
    (now : ℕ) (e : Failures)
    → 1 ≤ e.last_ms
    → e.last_ms ≤ now
    → now < 2 ^ 63
    → failures_now now e ≡ (if ltb (e.last_ms + forget_ms) now then 1 else e.fails + 1)
unfolding failures_now
next_failure now e h k b = ground arith

locked_left-entry_of :
    (key : List ℕ) (now : ℕ) (t : LoginThrottle)
    → locked_left now (entry_of key t) ≡ locked_for key now t
unfolding locked_for entry_of locked_left
locked_left-entry_of key now t = elim (Option-cases (lookup key t)) [
  | inl e ↦ rw (e, entry_of, locked_for) (if-false _ _ (ge→ltb now 0 (omega arith)))
  | inr (f, e) ↦ rw (e, entry_of, locked_for) refl
]

-- The entry of a key that had none, once it has failed at these times.
record Counted (key : List ℕ) (now : ℕ) (earlier : List ℕ) (t : LoginThrottle) : Type 0 where
  fails : (entry_of key t).fails ≡ streak (now ∷ earlier)
  last : (entry_of key t).last_ms ≡ now

module _ (p : Policy) (key : List ℕ) (t : LoginThrottle) (absent : lookup key t ≡ none) where
  first_entry : entry_of key t ≡ no_failures
  unfolding entry_of
  first_entry = rw (entry_of, absent) refl

  fail_times-Counted :
      (now : ℕ) (earlier : List ℕ)
      → IsHistory (now ∷ earlier)
      → (failures_now now (entry_of key (fail_times p key earlier t)) ≡ streak (now ∷ earlier))
        × Counted key now earlier (fail_times p key (now ∷ earlier) t)
  unfolding fail_times streak IsHistory failures_now
  fail_times-Counted now [] h =
      let before = entry_of key t in
      let n : failures_now now before ≡ 1 = ap (failures_now now) first_entry in
      let (a, b) = failed_once-stored p now before in
      let e = entry_of-fail_login key now p t in
      (n, record { fails = ap (λ f. f.fails) e ∙ a ∙ n; last = ap (λ f. f.last_ms) e ∙ b })
  fail_times-Counted now (last ∷ earlier) (le, fits, h) =
      let seen = fail_times p key (last ∷ earlier) t in
      let before = entry_of key seen in
      let c = (fail_times-Counted last earlier h).1 in
      let n : failures_now now before ≡ streak (now ∷ last ∷ earlier) =
        next_failure now before (omega (arith, c.last, IsHistory-positive last earlier h))
          (omega (arith, c.last)) fits
        ∙ ap (λ l. if ltb (l + forget_ms) now then 1 else before.fails + 1) c.last
        ∙ ap (λ f. if ltb (last + forget_ms) now then 1 else f + 1) c.fails in
      let (a, b) = failed_once-stored p now before in
      let e = entry_of-fail_login key now p seen in
      (n, record { fails = ap (λ f. f.fails) e ∙ a ∙ n; last = ap (λ f. f.last_ms) e ∙ b })

  -- A key that the table does not hold fails at the times of a clock that does not go back, far from the
  -- end of its word. Where more of its latest failures than the policy lets pass stand within an hour of
  -- the one before, the key is refused from the last of them on for the base time doubled once for each
  -- further failure, at most for the limit; else the last failure leaves the lock that was there.
  pub fail_times-locked_for :
      (now : ℕ) (earlier : List ℕ)
      → IsHistory (now ∷ earlier)
      → now + p.max_lock_ms < 2 ^ 63
      → (p.free_attempts < streak (now ∷ earlier)
          → locked_for key now (fail_times p key (now ∷ earlier) t)
            ≡ min p.max_lock_ms
                (p.base_lock_ms * 2 ^ (streak (now ∷ earlier) - p.free_attempts - 1)))
        × (streak (now ∷ earlier) ≤ p.free_attempts
            → locked_for key now (fail_times p key (now ∷ earlier) t)
              ≡ locked_for key now (fail_times p key earlier t))
  unfolding fail_times
  fail_times-locked_for now earlier h hm =
      let seen = fail_times p key earlier t in
      let n = (fail_times-Counted now earlier h).0 in
      let (over, free) = fail_login-locked_for p now key seen hm in
      (
        λ k.
            over (omega (arith, n, k))
            ∙ ap (λ f. min p.max_lock_ms (p.base_lock_ms * 2 ^ (f - p.free_attempts - 1))) n,
        λ k. free (omega (arith, n, k)) ∙ locked_left-entry_of key now seen,
      )
