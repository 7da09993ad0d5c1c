-- ===== src/Accounts/Loading.antt =====
-- What an accounts file can give, `AccountStore::load` of src/server/accounts.cpp.
use ta_engine.Common.{
  ℕ, zero, suc, ◌*◌, ◌/◌, ◌%◌, ◌^◌, ◌≤◌, ◌<◌, ◌≡◌, refl, sym, ap, ◌∙◌, subst, Bool, false, not,
  ◌||◌, Option, none, some, List, [], ◌∷◌, map, arith, ◌==◌, ==_refl, length, drop, All,
}
use mathlib.Core.Bool.{true≢false}
use mathlib.Core.Option.{none-ne-some, some-injective}
use ta_engine.Common.Bytes.{same_bytes, All-insert}
use ta_engine.Common.Cases.{by_test, by_option}
use ta_engine.Crypto.{hash_len}
use ta_engine.Crypto.Hex.{from_hex, hex_bytes, prepend}
use ta_engine.Auth.{fold_username, to_lower}
use ta_engine.Auth.Session.{pbkdf2_iters}
use ta_engine.Accounts.{Account, AccountStore}
use ta_engine.Accounts.File.{
  Load, AccountFile, absent, denied, opened, empty, trim, lines, split_eq, to_unsigned, no_account,
  flush, set_iters, set_salt, set_stored_key, set_server_key, set_key, name_key, iters_key,
  salt_key, stored_key_key, server_key_key, created_key, last_login_key, logins_key, account_header,
  load_section, load_pair, load_line, load_lines, load,
}

-- The numbers of a credential that the login relies on.
pub record IsDraft (a : Account) : Type 0 where
  pub some_iters : 1 ≤ a.cred.iters
  pub iters_fit : a.cred.iters < 2 ^ 32
  pub stored_size : length a.cred.stored_key ≡ 32
  pub server_size : length a.cred.server_key ≡ 32

-- What a login asks of an account.
pub record IsUsable (e : List ℕ × Account) : Type 0 where
  pub folded : e.0 ≡ fold_username e.1.name
  pub named : empty e.1.name ≡ false
  pub salted : empty e.1.cred.salt ≡ false
  pub draft : IsDraft e.1

record IsLoad (l : Load) : Type 0 where
  usable : All IsUsable l.accounts
  current : IsDraft l.cur

abbrev Good : Bool × Load → Type 0
Good r = IsLoad r.1

-- A line of a block that is refused, or leaves an account as good as it was.
abbrev Sets : Option Account → Type 0
Sets o = (b : Account) → o ≡ some b → IsDraft b

Sets-none : Sets none
Sets-none b e = absurd (none-ne-some b e)

Sets-some : (a : Account) → IsDraft a → Sets (some a)
Sets-some a h b e = subst IsDraft (some-injective a b e) h

no_account-IsDraft : IsDraft no_account
no_account-IsDraft = record {
  some_iters = omega arith;
  iters_fit = omega arith;
  stored_size = refl;
  server_size = refl;
}

length-prepend :
    (n : ℕ) (x : Option ℕ) (xs : Option (List ℕ))
    → ((k : List ℕ) → xs ≡ some k → length k ≡ n)
    → (k : List ℕ) → prepend x xs ≡ some k
    → length k ≡ suc n
unfolding prepend
length-prepend n none none h k e = absurd (none-ne-some k e)
length-prepend n none (some xs) h k e = absurd (none-ne-some k e)
length-prepend n (some x) none h k e = absurd (none-ne-some k e)
length-prepend n (some x) (some xs) h k e =
    ap length (sym (some-injective (x ∷ xs) k e)) ∙ ap suc (h xs refl)

length-hex_bytes : (n : ℕ) (hex k : List ℕ) → hex_bytes n hex ≡ some k → length k ≡ n
unfolding hex_bytes
length-hex_bytes zero hex k e = ap length (sym (some-injective [] k e))
length-hex_bytes (suc n) hex k e =
    length-prepend n _ (hex_bytes n (drop 2 hex)) (length-hex_bytes n (drop 2 hex)) k e

length-from_hex : (hex : List ℕ) (n : ℕ) (k : List ℕ) → from_hex hex n ≡ some k → length k ≡ n
unfolding from_hex
length-from_hex hex n k =
    by_test (λ o. o ≡ some k → length k ≡ n) (length hex == n * 2) _ _
      (λ t. length-hex_bytes n hex k) (λ t e. absurd (none-ne-some k e))

positive : (n : ℕ) → (n == 0) ≡ false → 1 ≤ n
positive zero h = absurd (true≢false (sym (==_refl 0) ∙ h))
positive (suc n) h = omega arith

module _ (val : List ℕ) (a : Account) (h : IsDraft a) where
  set_iters-Sets : Sets (set_iters val a)
  unfolding set_iters
  set_iters-Sets = Sets-some _ (record {
    some_iters =
        by_test (λ n. 1 ≤ n) (to_unsigned val % 2 ^ 32 == 0) pbkdf2_iters (to_unsigned val % 2 ^ 32)
          (λ t. omega arith) (positive (to_unsigned val % 2 ^ 32));
    iters_fit =
        by_test (λ n. n < 2 ^ 32) (to_unsigned val % 2 ^ 32 == 0) pbkdf2_iters
          (to_unsigned val % 2 ^ 32) (λ t. omega arith) (λ t. omega arith);
    stored_size = h.stored_size;
    server_size = h.server_size;
  })

  set_salt-Sets : Sets (set_salt val a)
  unfolding set_salt
  set_salt-Sets =
      by_test Sets (not (length val % 2 == 0) || empty val) _ _ (λ t. Sets-none)
        (λ t.
          by_option Sets (from_hex val (length val / 2)) _ _ (λ e. Sets-none)
            (λ k e. Sets-some _ (record {
              some_iters = h.some_iters;
              iters_fit = h.iters_fit;
              stored_size = h.stored_size;
              server_size = h.server_size;
            })))

  set_stored_key-Sets : Sets (set_stored_key val a)
  unfolding set_stored_key
  set_stored_key-Sets =
      by_option Sets (from_hex val hash_len) _ _ (λ e. Sets-none)
        (λ k e. Sets-some _ (record {
          some_iters = h.some_iters;
          iters_fit = h.iters_fit;
          stored_size = length-from_hex val hash_len k e;
          server_size = h.server_size;
        }))

  set_server_key-Sets : Sets (set_server_key val a)
  unfolding set_server_key
  set_server_key-Sets =
      by_option Sets (from_hex val hash_len) _ _ (λ e. Sets-none)
        (λ k e. Sets-some _ (record {
          some_iters = h.some_iters;
          iters_fit = h.iters_fit;
          stored_size = h.stored_size;
          server_size = length-from_hex val hash_len k e;
        }))

  -- A change outside the credential.
  same_cred : (b : Account) → b.cred ≡ a.cred → Sets (some b)
  same_cred b e = Sets-some b (record {
    some_iters = subst (λ c. 1 ≤ c.iters) (sym e) h.some_iters;
    iters_fit = subst (λ c. c.iters < 2 ^ 32) (sym e) h.iters_fit;
    stored_size = ap (λ c. length c.stored_key) e ∙ h.stored_size;
    server_size = ap (λ c. length c.server_key) e ∙ h.server_size;
  })

  set_key-Sets : (key : List ℕ) → Sets (set_key key val a)
  unfolding set_key
  set_key-Sets key =
      by_test Sets (same_bytes key name_key) _ _ (λ t. same_cred _ refl)
        (λ t.
          by_test Sets (same_bytes key iters_key) _ _ (λ t. set_iters-Sets)
            (λ t.
              by_test Sets (same_bytes key salt_key) _ _ (λ t. set_salt-Sets)
                (λ t.
                  by_test Sets (same_bytes key stored_key_key) _ _ (λ t. set_stored_key-Sets)
                    (λ t.
                      by_test Sets (same_bytes key server_key_key) _ _ (λ t. set_server_key-Sets)
                        (λ t.
                          by_test Sets (same_bytes key created_key) _ _ (λ t. same_cred _ refl)
                            (λ t.
                              by_test Sets (same_bytes key last_login_key) _ _
                                (λ t. same_cred _ refl)
                                (λ t.
                                  by_test Sets (same_bytes key logins_key) _ _
                                    (λ t. same_cred _ refl) (λ t. same_cred a refl))))))))

flush-Good : (l : Load) → IsLoad l → Good (flush l)
unfolding flush
flush-Good l h =
    by_test Good (not l.in_block) _ _ (λ t. h)
      (λ t.
        by_test Good (empty l.cur.name) _ _ (λ t. record { usable = h.usable; current = h.current })
          (λ named.
            by_test Good (empty l.cur.cred.salt) _ _
              (λ t. record { usable = h.usable; current = h.current })
              (λ salted. record {
                usable =
                    All-insert IsUsable (fold_username l.cur.name) l.cur l.accounts
                      (record { folded = refl; named = named; salted = salted; draft = h.current })
                      h.usable;
                current = no_account-IsDraft;
              })))

load_section-Good : (s : List ℕ) (l : Load) → IsLoad l → Good (load_section s l)
unfolding load_section
load_section-Good s l h =
    let g = flush-Good l h in
    by_test Good (not (flush l).0) _ _ (λ t. g)
      (λ t.
        by_test Good (same_bytes s account_header) _ (flush l)
          (λ t. record { usable = g.usable; current = no_account-IsDraft }) (λ t. g))

load_pair-Good : (left right : List ℕ) (l : Load) → IsLoad l → Good (load_pair left right l)
unfolding load_pair
load_pair-Good left right l h =
    let key = map to_lower (trim left) in
    by_test Good (not l.in_block) _ _ (λ t. h)
      (λ t.
        by_option Good (set_key key (trim right) l.cur) _ _ (λ e. h)
          (λ a e. record {
            usable = h.usable;
            current = set_key-Sets (trim right) l.cur h.current key a e;
          }))

load_line-Good : (s : List ℕ) (l : Load) → IsLoad l → Good (load_line s l)
unfolding load_line
load_line-Good [] l h = h
load_line-Good (c ∷ s) l h =
    by_test Good (c == b'#' || c == b';') _ _ (λ t. h)
      (λ t.
        by_test Good (c == b'[') _ _ (λ t. load_section-Good (c ∷ s) l h)
          (λ t. by_option Good (split_eq (c ∷ s)) _ _ (λ e. h) (λ p e. load_pair-Good p.0 p.1 l h)))

load_lines-Good : (ls : List (List ℕ)) (l : Load) → IsLoad l → Good (load_lines ls l)
unfolding load_lines
load_lines-Good [] l h = h
load_lines-Good (s ∷ ls) l h =
    let g = load_line-Good (trim s) l h in
    by_test Good (load_line (trim s) l).0 _ _ (λ t. load_lines-Good ls (load_line (trim s) l).1 g)
      (λ t. g)

-- Whatever is found in the place of the accounts file, also where it is refused, every account that
-- `load` leaves stands under its folded name, has a name, a salt, a number of iterations between 1 and
-- 2^32 - 1, and two keys of 32 bytes.
pub load-IsUsable : (f : AccountFile) → All IsUsable (load f).1
unfolding load
load-IsUsable absent = tt
load-IsUsable denied = tt
load-IsUsable (opened text bad) =
    let start : Load = record { accounts = []; cur = no_account; in_block = false } in
    let r = load_lines (lines text) start in
    let g =
      load_lines-Good (lines text) start (record { usable = tt; current = no_account-IsDraft }) in
    let Kept : Bool × AccountStore → Type 0 = λ o. All IsUsable o.1 in
    by_test Kept (not r.0) _ _ (λ t. g.usable)
      (λ t. by_test Kept bad _ _ (λ t. tt) (λ t. (flush-Good r.1 g).usable))
