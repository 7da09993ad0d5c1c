-- ===== src/Accounts/File.antt =====
-- The text of the accounts file, `AccountStore::load` of src/server/accounts.cpp: the lines, the numbers
-- as the C library reads them with a `long` of 64 bits, and what each line does to the account that is
-- being read. The messages are left out.
use ta_engine.Common.{
  ℕ, ◌+◌, ◌-◌, ◌*◌, ◌/◌, ◌%◌, ◌^◌, min, Bool, true, false, not, ◌&&◌, ◌||◌, Option, none, some,
  List, [], ◌∷◌, map, leb, ◌==◌, if◌then◌else◌, length, replicate,
}
use ta_engine.Common.Bytes.{same_bytes, insert}
use ta_engine.Crypto.{hash_len}
use ta_engine.Crypto.Hex.{from_hex}
use ta_engine.Auth.{fold_username, to_lower, is_between}
use ta_engine.Auth.Session.{pbkdf2_iters}
use ta_engine.Accounts.{Account, AccountStore}

unfoldable pub is_blank : ℕ → Bool
is_blank c = c == b' ' || c == 9 || c == 13

unfoldable pub trim_left : List ℕ → List ℕ
trim_left [] = []
trim_left (c ∷ s) = let rest = trim_left s in if is_blank c then rest else c ∷ s

unfoldable pub empty : List ℕ → Bool
empty [] = true
empty (c ∷ s) = false

unfoldable pub trim_right : List ℕ → List ℕ
trim_right [] = []
trim_right (c ∷ s) = let rest = trim_right s in if empty rest && is_blank c then [] else c ∷ rest

unfoldable pub trim : List ℕ → List ℕ
trim s = trim_right (trim_left s)

-- `std::getline` until the text is spent.
unfoldable pub join_line : ℕ → List (List ℕ) → List (List ℕ)
join_line c [] = (c ∷ []) ∷ []
join_line c (l ∷ ls) = (c ∷ l) ∷ ls

unfoldable pub lines : List ℕ → List (List ℕ)
lines [] = []
lines (c ∷ s) = let rest = lines s in if c == 10 then [] ∷ rest else join_line c rest

-- What stands before the first `=` and what stands behind it.
unfoldable pub split_eq : List ℕ → Option (List ℕ × List ℕ)
split_eq [] = none
split_eq (c ∷ s) =
    let rest = split_eq s in
    if c == b'=' then some ([], s) else elim rest [ none ↦ none | some r ↦ some (c ∷ r.0, r.1) ]

-- `isspace` of the C locale.
unfoldable pub is_space : ℕ → Bool
is_space c = c == b' ' || is_between 9 13 c

unfoldable pub skip_space : List ℕ → List ℕ
skip_space [] = []
skip_space (c ∷ s) = let rest = skip_space s in if is_space c then rest else c ∷ s

-- The digits in front, added to what was read.
unfoldable pub digits : ℕ → List ℕ → ℕ
digits n [] = n
digits n (c ∷ s) =
    let rest = digits (n * 10 + (c - b'0')) s in if is_between b'0' b'9' c then rest else n

-- The sign and the digits, `true` where the sign is a minus.
unfoldable pub signed_digits : List ℕ → Bool × ℕ
signed_digits [] = (false, 0)
signed_digits (c ∷ s) =
    if c == b'-'
    then (true, digits 0 s)
    else if c == b'+'
    then (false, digits 0 s)
    else (false, digits 0 (c ∷ s))

-- `std::strtoul` and `std::strtoull`.
unfoldable pub to_unsigned : List ℕ → ℕ
to_unsigned s =
    let (minus, n) = signed_digits (skip_space s) in
    if leb (2 ^ 64) n then 2 ^ 64 - 1 else if minus then (2 ^ 64 - n) % 2 ^ 64 else n

-- `std::strtoll`, in two's complement.
unfoldable pub to_signed : List ℕ → ℕ
to_signed s =
    let (minus, n) = signed_digits (skip_space s) in
    if minus then (2 ^ 64 - min n (2 ^ 63)) % 2 ^ 64 else min n (2 ^ 63 - 1)

abbrev pub no_account : Account
no_account = record {
  name = [];
  cred = record {
    iters = pbkdf2_iters;
    salt = [];
    stored_key = replicate hash_len 0;
    server_key = replicate hash_len 0;
  };
  created = 0;
  last_login = 0;
  logins = 0;
}

-- `path_` aside, what `load` keeps: the accounts, the block that is read, and whether one is open.
pub record Load : Type 0 where
  pub accounts : AccountStore
  pub cur : Account
  pub in_block : Bool

unfoldable pub flush : Load → Bool × Load
flush s =
    if not s.in_block
    then (true, s)
    else if empty s.cur.name
    then (false, record s { in_block = false })
    else if empty s.cur.cred.salt
    then (false, record s { in_block = false })
    else (
      true,
      record s {
        accounts = insert (fold_username s.cur.name) s.cur s.accounts;
        cur = no_account;
        in_block = false;
      },
    )

unfoldable pub set_iters : List ℕ → Account → Option Account
set_iters val a =
    let n = to_unsigned val % 2 ^ 32 in
    some (record a { cred = record a.cred { iters = if n == 0 then pbkdf2_iters else n } })

unfoldable pub set_salt : List ℕ → Account → Option Account
set_salt val a =
    if not (length val % 2 == 0) || empty val then none else elim (from_hex val (length val / 2)) [
      | none ↦ none
      | some k ↦ some (record a { cred = record a.cred { salt = k } })
    ]

unfoldable pub set_stored_key : List ℕ → Account → Option Account
set_stored_key val a = elim (from_hex val hash_len) [
  | none ↦ none
  | some k ↦ some (record a { cred = record a.cred { stored_key = k } })
]

unfoldable pub set_server_key : List ℕ → Account → Option Account
set_server_key val a = elim (from_hex val hash_len) [
  | none ↦ none
  | some k ↦ some (record a { cred = record a.cred { server_key = k } })
]

abbrev pub name_key : List ℕ
name_key = b'n' ∷ b'a' ∷ b'm' ∷ b'e' ∷ []

abbrev pub iters_key : List ℕ
iters_key = b'i' ∷ b't' ∷ b'e' ∷ b'r' ∷ b's' ∷ []

abbrev pub salt_key : List ℕ
salt_key = b's' ∷ b'a' ∷ b'l' ∷ b't' ∷ []

abbrev pub stored_key_key : List ℕ
stored_key_key = b's' ∷ b't' ∷ b'o' ∷ b'r' ∷ b'e' ∷ b'd' ∷ b'k' ∷ b'e' ∷ b'y' ∷ []

abbrev pub server_key_key : List ℕ
server_key_key = b's' ∷ b'e' ∷ b'r' ∷ b'v' ∷ b'e' ∷ b'r' ∷ b'k' ∷ b'e' ∷ b'y' ∷ []

abbrev pub created_key : List ℕ
created_key = b'c' ∷ b'r' ∷ b'e' ∷ b'a' ∷ b't' ∷ b'e' ∷ b'd' ∷ []

abbrev pub last_login_key : List ℕ
last_login_key = b'l' ∷ b'a' ∷ b's' ∷ b't' ∷ b'l' ∷ b'o' ∷ b'g' ∷ b'i' ∷ b'n' ∷ []

abbrev pub logins_key : List ℕ
logins_key = b'l' ∷ b'o' ∷ b'g' ∷ b'i' ∷ b'n' ∷ b's' ∷ []

-- A `key = value` line of a block; `none` is a refusal of the file.
unfoldable pub set_key : List ℕ → List ℕ → Account → Option Account
set_key key val a =
    if same_bytes key name_key
    then some (record a { name = val })
    else if same_bytes key iters_key
    then set_iters val a
    else if same_bytes key salt_key
    then set_salt val a
    else if same_bytes key stored_key_key
    then set_stored_key val a
    else if same_bytes key server_key_key
    then set_server_key val a
    else if same_bytes key created_key
    then some (record a { created = to_signed val })
    else if same_bytes key last_login_key
    then some (record a { last_login = to_signed val })
    else if same_bytes key logins_key
    then some (record a { logins = to_unsigned val })
    else some a

abbrev pub account_header : List ℕ
account_header = b'[' ∷ b'a' ∷ b'c' ∷ b'c' ∷ b'o' ∷ b'u' ∷ b'n' ∷ b't' ∷ b']' ∷ []

unfoldable pub load_section : List ℕ → Load → Bool × Load
load_section s l =
    let r = flush l in
    if not r.0
    then r
    else if same_bytes s account_header
    then (true, record r.1 { in_block = true; cur = no_account })
    else r

unfoldable pub load_pair : List ℕ → List ℕ → Load → Bool × Load
load_pair left right l =
    if not l.in_block
    then (true, l)
    else elim (set_key (map to_lower (trim left)) (trim right) l.cur) [
      | none ↦ (false, l)
      | some a ↦ (true, record l { cur = a })
    ]

-- A line that is trimmed.
unfoldable pub load_line : List ℕ → Load → Bool × Load
load_line [] l = (true, l)
load_line (c ∷ s) l =
    if c == b'#' || c == b';'
    then (true, l)
    else if c == b'['
    then load_section (c ∷ s) l
    else elim (split_eq (c ∷ s)) [ none ↦ (true, l) | some p ↦ load_pair p.0 p.1 l ]

unfoldable pub load_lines : List (List ℕ) → Load → Bool × Load
load_lines [] l = (true, l)
load_lines (s ∷ ls) l =
    let r = load_line (trim s) l in let rest = load_lines ls r.1 in if r.0 then rest else r

-- What is found at the path: no file, a file that cannot be opened, or bytes, with whether reading them
-- ended in an error.
pub data AccountFile : Type 0 where
  absent : AccountFile
  denied : AccountFile
  opened : List ℕ → Bool → AccountFile

unfoldable pub load : AccountFile → Bool × AccountStore
load absent = (true, [])
load denied = (false, [])
load (opened text bad) =
    let r =
      load_lines (lines text) (record { accounts = []; cur = no_account; in_block = false }) in
    if not r.0
    then (false, r.1.accounts)
    else if bad
    then (false, [])
    else (let e = flush r.1 in (e.0, e.1.accounts))
