-- ===== src/Examples/AccountFiles.antt =====
-- An accounts file with one account that has no keys.
use ta_engine.Common.{◌≡◌, refl, true, false, ℕ, List, [], ◌∷◌, All}
use ta_engine.Common.Bytes.{insert, same_bytes}
use ta_engine.Crypto.Hex.{from_hex, hex_bytes, nib, join_nibs, prepend}
use ta_engine.Auth.{fold_username, is_between, to_lower}
use ta_engine.Accounts.{Account}
use ta_engine.Accounts.File.{
  opened, no_account, load, load_lines, load_line, load_section, load_pair, set_key, set_salt,
  flush, lines, join_line, split_eq, trim, trim_left, trim_right, is_blank, empty,
}
use ta_engine.Accounts.Loading.{IsUsable, load-IsUsable}

abbrev text : List ℕ
text =
    b'[' ∷ b'a' ∷ b'c' ∷ b'c' ∷ b'o' ∷ b'u' ∷ b'n' ∷ b't' ∷ b']' ∷ 10 ∷ b'n' ∷ b'a' ∷ b'm' ∷ b'e'
    ∷ b'=' ∷ b'B' ∷ b'o' ∷ b'b' ∷ 10 ∷ b's' ∷ b'a' ∷ b'l' ∷ b't' ∷ b'=' ∷ b'0' ∷ b'1' ∷ b'0' ∷ b'2'
    ∷ 10 ∷ []

abbrev loaded : Account
loaded = record no_account {
  name = b'B' ∷ b'o' ∷ b'b' ∷ [];
  cred = record no_account.cred { salt = 1 ∷ 2 ∷ [] };
}

load-text : load (opened text false) ≡ (true, (b'b' ∷ b'o' ∷ b'b' ∷ [], loaded) ∷ [])
unfolding load load_lines load_line load_section load_pair set_key set_salt flush lines join_line
    split_eq trim trim_left trim_right is_blank empty insert same_bytes from_hex hex_bytes nib
    join_nibs prepend fold_username is_between to_lower
load-text = refl

load-IsUsable_example : All IsUsable (load (opened text false)).1
load-IsUsable_example = load-IsUsable (opened text false)
