-- ===== src/Auth.antt =====
-- The login of src/net/auth.h and auth.cpp: the keys of an account, the transcript of an exchange, the
-- proof of the client and its check, and the rules for names.
pub mod Session
pub mod Handshake
pub mod Entry
pub mod Nonces
pub mod SignIn
pub mod Exchange
pub mod Admission
pub mod Login
pub mod Transcript
use Prim.Native.Nat.{bit_xor}
use ta_engine.Common.{
  ℕ, zero, suc, ◌+◌, ◌-◌, ◌*◌, ◌/◌, ◌%◌, ◌^◌, ◌≤◌, ◌<◌, min, max, ◌≡◌, refl, sym, ap, ◌∙◌, subst,
  ◌≢◌, ◌↔◌, ◌⊎◌, inl, inr, Bool, true, false, not, ◌&&◌, ◌||◌, Option, none, some, List, [], ◌∷◌,
  ◌++◌, map, append-nil, append_assoc, arith, ltb, leb, ◌==◌, if◌then◌else◌, ltb→lt, lt→ltb, ge→ltb,
  ltb→ge, leb→le, le→leb, gt→leb, ==_iff, ==_refl, ne→==, tests, Bool-cases, Option-cases, length,
  get_elem?, get_or, set, take, drop, replicate, All, length-append, length-set, take-append-drop,
  length-take, length-drop, length-replicate, take-append_self, drop-append_self, take-all,
  drop-all, drop-append, drop-nil, take-append, drop-drop, take-past, drop-past, length-zero,
  take-both,
}
use ta_engine.Crypto.{hash_len, put_be32, sha256}
use ta_engine.Crypto.Mac.{hmac_sha256, pbkdf2_sha256}
use ta_engine.Crypto.Hex.{equal_ct}

abbrev pub min_password : ℕ
min_password = 8

abbrev pub max_password : ℕ
max_password = 128

abbrev pub min_username : ℕ
min_username = 3

abbrev pub max_username : ℕ
max_username = 20

pub record Keys : Type 0 where
  pub client_key : List ℕ
  pub stored_key : List ℕ
  pub server_key : List ℕ

pub record Credential : Type 0 where
  pub iters : ℕ
  pub salt : List ℕ
  pub stored_key : List ℕ
  pub server_key : List ℕ

abbrev pub client_key_label : List ℕ
client_key_label = b'C' ∷ b'l' ∷ b'i' ∷ b'e' ∷ b'n' ∷ b't' ∷ b' ' ∷ b'K' ∷ b'e' ∷ b'y' ∷ []

abbrev pub server_key_label : List ℕ
server_key_label = b'S' ∷ b'e' ∷ b'r' ∷ b'v' ∷ b'e' ∷ b'r' ∷ b' ' ∷ b'K' ∷ b'e' ∷ b'y' ∷ []

abbrev pub transcript_tag : List ℕ
transcript_tag =
    b'T' ∷ b'A' ∷ b'-' ∷ b'S' ∷ b'C' ∷ b'R' ∷ b'A' ∷ b'M' ∷ b'-' ∷ b'S' ∷ b'H' ∷ b'A' ∷ b'-' ∷ b'2'
    ∷ b'5' ∷ b'6' ∷ b'-' ∷ b'v' ∷ b'1' ∷ []

unfoldable pub put_field : List ℕ → List ℕ → List ℕ
put_field v p = (v ++ put_be32 (length p % 2 ^ 32)) ++ p

unfoldable pub derive_keys : List ℕ → List ℕ → ℕ → Keys
derive_keys password salt iters =
    let salted = pbkdf2_sha256 password salt iters hash_len in
    let client = hmac_sha256 salted client_key_label in
    record {
      client_key = client;
      stored_key = sha256 client;
      server_key = hmac_sha256 salted server_key_label;
    }

unfoldable pub make_credential : Keys → List ℕ → ℕ → Credential
make_credential k salt iters = record {
  iters = iters;
  salt = salt;
  stored_key = k.stored_key;
  server_key = k.server_key;
}

unfoldable pub auth_message : List ℕ → List ℕ → List ℕ → List ℕ → ℕ → List ℕ
auth_message user client_nonce server_nonce salt iters =
    let m = put_field (put_field [] transcript_tag) user in
    let m = put_field (put_field m client_nonce) server_nonce in put_field m salt ++ put_be32 iters

-- `for (size_t i = 0; i < kHashLen; ++i) out[i] = uint8_t(a[i] ^ b[i])`, by the rounds that are left.
unfoldable pub xor_digest : ℕ → List ℕ → List ℕ → List ℕ
xor_digest zero a b = []
xor_digest (suc n) a b =
    bit_xor (get_or a 0 0) (get_or b 0 0) % 256 ∷ xor_digest n (drop 1 a) (drop 1 b)

unfoldable pub client_proof : Keys → List ℕ → List ℕ
client_proof k am = xor_digest hash_len k.client_key (hmac_sha256 k.stored_key am)

unfoldable pub verify_client_proof : Credential → List ℕ → List ℕ → Bool
verify_client_proof c am proof =
    let client_key = xor_digest hash_len proof (hmac_sha256 c.stored_key am) in
    equal_ct (sha256 client_key) c.stored_key hash_len

unfoldable pub server_signature : List ℕ → List ℕ → List ℕ
server_signature server_key am = hmac_sha256 server_key am

unfoldable pub is_between : ℕ → ℕ → ℕ → Bool
is_between low high c = leb low c && leb c high

-- `std::isalnum` and `std::tolower` of the C locale.
unfoldable pub is_alnum : ℕ → Bool
is_alnum c = is_between b'0' b'9' c || is_between b'A' b'Z' c || is_between b'a' b'z' c

unfoldable pub to_lower : ℕ → ℕ
to_lower c = if is_between b'A' b'Z' c then c + 32 else c

unfoldable pub is_name_byte : ℕ → Bool
is_name_byte c = is_alnum c || c == b'_' || c == b'-' || c == b'.'

-- The loop of `validUsername`.
unfoldable pub name_bytes : List ℕ → Bool
name_bytes [] = true
name_bytes (c ∷ u) = let rest = name_bytes u in is_name_byte c && rest

unfoldable pub valid_username : List ℕ → Bool
valid_username u =
    if ltb (length u) min_username
    then false
    else if ltb max_username (length u)
    then false
    else if not (is_alnum (get_or u 0 0))
    then false
    else name_bytes u

-- The loop of `validPassword`.
unfoldable pub password_bytes : List ℕ → Bool
password_bytes [] = true
password_bytes (c ∷ p) =
    let rest = password_bytes p in if ltb c 0x20 || c == 0x7f then false else rest

unfoldable pub valid_password : List ℕ → Bool
valid_password p =
    if ltb (length p) min_password
    then false
    else if ltb max_password (length p)
    then false
    else password_bytes p

unfoldable pub fold_username : List ℕ → List ℕ
fold_username u = map to_lower u
