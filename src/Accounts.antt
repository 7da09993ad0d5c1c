-- ===== src/Accounts.antt =====
-- The accounts of a server and the throttle of its logins, src/server/accounts.h and accounts.cpp. The
-- clock is an argument, and so is what the file system answers: `save` says whether the file with these
-- accounts was written.
pub mod File
pub mod Loading
pub mod Locks
pub mod Streaks
pub mod Names
use ta_engine.Common.{
  ℕ, zero, suc, ◌+◌, ◌-◌, ◌*◌, ◌/◌, ◌%◌, ◌^◌, ◌≤◌, ◌<◌, min, max, ◌≡◌, refl, sym, ap, ◌∙◌, subst,
  ◌≢◌, ◌↔◌, ◌⊎◌, inl, inr, Bool, true, false, not, ◌&&◌, ◌||◌, Option, none, some, List, [], ◌∷◌,
  ◌++◌, map, append-nil, append_assoc, arith, ltb, leb, ◌==◌, if◌then◌else◌, ltb→lt, lt→ltb, ge→ltb,
  ltb→ge, leb→le, le→leb, gt→leb, ==_iff, ==_refl, ne→==, tests, Bool-cases, Option-cases, length,
  get_elem?, get_or, set, take, drop, replicate, All, length-append, length-set, take-append-drop,
  length-take, length-drop, length-replicate, take-append_self, drop-append_self, take-all,
  drop-all, drop-append, drop-nil, take-append, drop-drop, take-past, drop-past, length-zero,
  take-both,
}
use ta_engine.Common.Bytes.{Table, lookup, insert, erase, has}
use ta_engine.Auth.{Credential, valid_username, fold_username}

pub record Account : Type 0 where
  pub name : List ℕ
  pub cred : Credential
  pub created : ℕ
  pub last_login : ℕ
  pub logins : ℕ

-- `byFold_`
abbrev pub AccountStore : Type 0
AccountStore = Table Account

unfoldable pub find_account : List ℕ → AccountStore → Option Account
find_account user st = lookup (fold_username user) st

unfoldable pub new_account : List ℕ → Credential → ℕ → Account
new_account user cred now = record {
  name = user;
  cred = cred;
  created = now;
  last_login = now;
  logins = 1;
}

-- `create`, with what it returns.
unfoldable pub create_account :
    (AccountStore → Bool) → ℕ → List ℕ → Credential → AccountStore → Bool × AccountStore
create_account save now user cred st =
    let fold = fold_username user in
    if not (valid_username user)
    then (false, st)
    else if has fold st
    then (false, st)
    else if length cred.salt == 0
    then (false, st)
    else (let st' = insert fold (new_account user cred now) st in
        if save st' then (true, st') else (false, erase fold st'))

unfoldable pub logged_in : ℕ → Account → Account
logged_in now a = record a { last_login = now; logins = (a.logins + 1) % 2 ^ 64 }

-- `noteLogin`, with what it returns.
unfoldable pub note_login : (AccountStore → Bool) → ℕ → List ℕ → AccountStore → Bool × AccountStore
note_login save now user st =
    let fold = fold_username user in
    elim (lookup fold st) [
      | none ↦ (false, st)
      | some a ↦ (let st' = insert fold (logged_in now a) st in (save st', st'))
    ]

pub record Policy : Type 0 where
  pub free_attempts : ℕ
  pub base_lock_ms : ℕ
  pub max_lock_ms : ℕ

abbrev pub for_address : Policy
for_address = record { free_attempts = 5; base_lock_ms = 30 * 1000; max_lock_ms = 15 * 60 * 1000 }

abbrev pub for_account : Policy
for_account = record { free_attempts = 50; base_lock_ms = 60 * 1000; max_lock_ms = 5 * 60 * 1000 }

abbrev pub forget_ms : ℕ
forget_ms = 60 * 60 * 1000

-- `LoginThrottle::Entry`
pub record Failures : Type 0 where
  pub fails : ℕ
  pub last_ms : ℕ
  pub locked_until_ms : ℕ

abbrev pub no_failures : Failures
no_failures = record { fails = 0; last_ms = 0; locked_until_ms = 0 }

abbrev pub LoginThrottle : Type 0
LoginThrottle = Table Failures

unfoldable pub locked_left : ℕ → Failures → ℕ
locked_left now e = if ltb now e.locked_until_ms then e.locked_until_ms - now else 0

unfoldable pub locked_for : List ℕ → ℕ → LoginThrottle → ℕ
locked_for key now t = elim (lookup key t) [ none ↦ 0 | some e ↦ locked_left now e ]

-- `for (int i = 0; i < over && lock < p.maxLockMs; ++i) lock *= 2`, by the rounds that are left.
unfoldable pub doubled : ℕ → ℕ → ℕ → ℕ
doubled zero lock max_lock = lock
doubled (suc n) lock max_lock = elim (ltb lock max_lock) [
  | true ↦ doubled n (lock * 2 % 2 ^ 64) max_lock
  | false ↦ lock
]

unfoldable pub lock_time : Policy → ℕ → ℕ
lock_time p over =
    let lock = doubled over p.base_lock_ms p.max_lock_ms in
    if ltb p.max_lock_ms lock then p.max_lock_ms else lock

-- `e.fails` once one more is counted; it stays far below the limit of an `int`.
unfoldable pub failures_now : ℕ → Failures → ℕ
failures_now now e =
    let quiet = not (e.last_ms == 0) && ltb forget_ms ((now + 2 ^ 64 - e.last_ms) % 2 ^ 64) in
    (if quiet then 0 else e.fails) + 1

-- `fail` on the entry.
unfoldable pub failed_once : Policy → ℕ → Failures → Failures
failed_once p now e =
    let fails = failures_now now e in
    let e = record e { fails = fails; last_ms = now } in
    if ltb p.free_attempts fails
    then record e { locked_until_ms = (now + lock_time p (fails - p.free_attempts - 1)) % 2 ^ 64 }
    else e

-- `keys_[key]` is a new entry where there is none.
unfoldable pub entry_of : List ℕ → LoginThrottle → Failures
entry_of key t = elim (lookup key t) [ none ↦ no_failures | some e ↦ e ]

unfoldable pub fail_login : List ℕ → ℕ → Policy → LoginThrottle → LoginThrottle
fail_login key now p t = insert key (failed_once p now (entry_of key t)) t

unfoldable pub succeed_login : List ℕ → LoginThrottle → LoginThrottle
succeed_login key t = erase key t

unfoldable pub is_forgotten : ℕ → Failures → Bool
is_forgotten now e = ltb ((e.last_ms + forget_ms) % 2 ^ 64) now && leb e.locked_until_ms now

unfoldable pub expire : ℕ → LoginThrottle → LoginThrottle
expire now [] = []
expire now (e ∷ t) = let rest = expire now t in if is_forgotten now e.1 then rest else e ∷ rest
