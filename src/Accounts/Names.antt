-- ===== src/Accounts/Names.antt =====
-- Who may have a name, `AccountStore` of src/server/accounts.cpp.
use ta_engine.Common.{
  ℕ, ◌≡◌, refl, sym, ap, ◌∙◌, subst, ◌≢◌, ◌⊎◌, inl, inr, Bool, true, false, some, List, [], ◌∷◌,
  arith, ◌==◌, ==_refl, Bool-cases, Option-cases, length, All,
}
use mathlib.Core.Bool.{true≢false}
use ta_engine.Common.Bytes.{
  lookup, insert, has, lookup-insert, erase-insert, All-insert, lookup-All,
}
use ta_engine.Auth.{Credential, valid_username, fold_username}
use ta_engine.Accounts.{
  Account, AccountStore, find_account, new_account, create_account, logged_in, note_login,
}

-- An account stands under its folded name, and the name is valid.
pub record IsFiled (e : List ℕ × Account) : Type 0 where
  pub folded : fold_username e.1.name ≡ e.0
  pub valid : valid_username e.1.name ≡ true

abbrev pub IsStore : AccountStore → Type 0
IsStore st = All IsFiled st

module _ (save : AccountStore → Bool) (now : ℕ) (user : List ℕ) (cred : Credential)
    (st : AccountStore) where
  -- Why a registration is refused: the name is not valid, an account has it in some spelling, the
  -- credential has no salt, or the file with the new account was not written.
  pub data Reason : Type 0 where
    bad_name : valid_username user ≡ false → Reason
    taken_name : has (fold_username user) st ≡ true → Reason
    no_salt : cred.salt ≡ [] → Reason
    not_saved : save (insert (fold_username user) (new_account user cred now) st) ≡ false → Reason

  pub record Refused (r : Bool × AccountStore) : Type 0 where
    pub answer : r.0 ≡ false
    pub unchanged : r.1 ≡ st
    pub reason : Reason

  pub record Registered (r : Bool × AccountStore) : Type 0 where
    pub answer : r.0 ≡ true
    pub valid : valid_username user ≡ true
    pub free : has (fold_username user) st ≡ false
    pub salted : cred.salt ≢ []
    pub added : r.1 ≡ insert (fold_username user) (new_account user cred now) st
    pub saved : save r.1 ≡ true
    pub found :
        (name : List ℕ)
        → fold_username name ≡ fold_username user
        → find_account name r.1 ≡ some (new_account user cred now)

find_added :
    (name fold : List ℕ) (a : Account) (st : AccountStore)
    → fold_username name ≡ fold
    → find_account name (insert fold a st) ≡ some a
unfolding find_account
find_added name fold a st e = ap (λ k. lookup k (insert fold a st)) e ∙ lookup-insert fold a st

salt_empty : (salt : List ℕ) → (length salt == 0) ≡ true → salt ≡ []
salt_empty [] e = refl
salt_empty (x ∷ salt) e = absurd (ground arith)

salt_there : (salt : List ℕ) → (length salt == 0) ≡ false → salt ≢ []
salt_there [] e none_there = absurd (true≢false (sym (==_refl 0) ∙ e))
salt_there (x ∷ salt) e none_there = absurd (ground (arith, ap length none_there))

module _ (save : AccountStore → Bool) (now : ℕ) (user : List ℕ) where
  -- A registration is refused and leaves the accounts as they were, where the name is not valid, an
  -- account has it in some spelling, the credential has no salt, or the file with the new account was
  -- not written; or none of these is so, and then the accounts are those that were written, with the new
  -- one found under every spelling of its name.
  pub create_account-cases :
      (cred : Credential) (st : AccountStore)
      → Refused save now user cred st (create_account save now user cred st)
        ⊎ Registered save now user cred st (create_account save now user cred st)
  unfolding create_account
  create_account-cases cred st =
      let fold = fold_username user in
      let a = new_account user cred now in
      elim (Bool-cases (valid_username user)) [
        | inr e ↦ inl (rw e (record { answer = refl; unchanged = refl; reason = bad_name e }))
        | inl v ↦ elim (Bool-cases (has fold st)) [
          | inl e ↦
              inl (rw (v, e) (record { answer = refl; unchanged = refl; reason = taken_name e }))
          | inr free ↦ elim (Bool-cases (length cred.salt == 0)) [
            | inl e ↦ inl (
                rw (v, free, e)
                  (record {
                    answer = refl;
                    unchanged = refl;
                    reason = no_salt (salt_empty cred.salt e);
                  }))
            | inr salted ↦ elim (Bool-cases (save (insert fold a st))) [
              | inr e ↦ inl (
                  rw (v, free, salted, e)
                    (record {
                      answer = refl;
                      unchanged = erase-insert fold a st free;
                      reason = not_saved e;
                    }))
              | inl e ↦ inr (
                  rw (v, free, salted, e)
                    (record {
                      answer = refl;
                      valid = v;
                      free = free;
                      salted = salt_there cred.salt salted;
                      added = refl;
                      saved = e;
                      found = λ name same. find_added name fold a st same;
                    }))
            ]
          ]
        ]
      ]

  new-IsFiled :
      (cred : Credential)
      → valid_username user ≡ true
      → IsFiled (fold_username user, new_account user cred now)
  unfolding new_account
  new-IsFiled cred v = record { folded = refl; valid = v }

  kept-IsFiled :
      (a : Account)
      → IsFiled (fold_username user, a)
      → IsFiled (fold_username user, logged_in now a)
  unfolding logged_in
  kept-IsFiled a f = record { folded = f.folded; valid = f.valid }

  create_account-IsStore :
      (cred : Credential) (st : AccountStore)
      → IsStore st
      → IsStore (create_account save now user cred st).1
  create_account-IsStore cred st h = elim (create_account-cases cred st) [
    | inl r ↦ subst IsStore (sym r.unchanged) h
    | inr r ↦ subst IsStore (sym r.added) (
        All-insert IsFiled (fold_username user) (new_account user cred now) st
          (new-IsFiled cred r.valid) h)
  ]

  note_login-IsStore : (st : AccountStore) → IsStore st → IsStore (note_login save now user st).1
  unfolding note_login
  note_login-IsStore st h = elim (Option-cases (lookup (fold_username user) st)) [
    | inl e ↦ rw (note_login, e) h
    | inr (a, e) ↦
        let f : IsFiled (fold_username user, a) =
          lookup-All IsFiled (fold_username user) a st h e in
        rw (note_login, e)
          (All-insert IsFiled (fold_username user) (logged_in now a) st (kept-IsFiled a f) h)
  ]

  -- Registrations and logins keep every account under its folded name, and every name valid, whatever
  -- the file system answers.
  pub IsStore-kept :
      (cred : Credential) (st : AccountStore)
      → IsStore st
      → IsStore (create_account save now user cred st).1 × IsStore (note_login save now user st).1
  IsStore-kept cred st h = (create_account-IsStore cred st h, note_login-IsStore st h)
