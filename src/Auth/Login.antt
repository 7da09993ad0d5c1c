-- ===== src/Auth/Login.antt =====
-- A login of src/net/auth.cpp: who is accepted, and what a transcript stands for.
use Prim.Native.Nat.{bit_xor}
use ta_engine.Common.{
  ℕ, zero, suc, ◌%◌, ◌^◌, ◌<◌, ◌≡◌, refl, sym, ap, subst, ◌↔◌, true, List, [], ◌∷◌, arith, length,
  All,
}
use ta_engine.Common.Bits.{bit_xor-lt, bit_xor_cancel}
use ta_engine.Common.Word.{IsByte}
use ta_engine.Crypto.{hash_len, put_be32, put_words, sha256}
use ta_engine.Crypto.Mac.{hmac_sha256, pbkdf2_sha256}
use ta_engine.Crypto.Hex.{equal_ct-same}
use ta_engine.Crypto.Reference.{sha_reference, sha256-reference}
use ta_engine.Crypto.Keys.{hmac_reference, hmac_sha256-hmac_reference, length-sha_reference}
use ta_engine.Auth.{
  Credential, client_key_label, derive_keys, make_credential, xor_digest, client_proof,
  verify_client_proof,
}

-- A digest: 32 bytes.
pub record IsDigest (d : List ℕ) : Type 0 where
  pub size : length d ≡ 32
  pub bytes : All IsByte d

All-put_words : (ws : List ℕ) → All IsByte (put_words ws)
unfolding put_words put_be32
All-put_words [] = tt
All-put_words (w ∷ ws) =
    (omega arith, (omega arith, (omega arith, (omega arith, All-put_words ws))))

sha_reference-IsDigest : (m : List ℕ) → IsDigest (sha_reference m)
unfolding sha_reference
sha_reference-IsDigest m = record { size = length-sha_reference m; bytes = All-put_words _ }

sha256-IsDigest : (m : List ℕ) → IsDigest (sha256 m)
sha256-IsDigest m = subst IsDigest (sym (sha256-reference m)) (sha_reference-IsDigest m)

hmac_sha256-IsDigest : (key msg : List ℕ) → IsDigest (hmac_sha256 key msg)
unfolding hmac_reference
hmac_sha256-IsDigest key msg =
    subst IsDigest (sym (hmac_sha256-hmac_reference key msg)) (sha_reference-IsDigest _)

xor_cancel :
    (n : ℕ) (a b : List ℕ)
    → length a ≡ n
    → length b ≡ n
    → All IsByte a
    → All IsByte b
    → xor_digest n (xor_digest n a b) b ≡ a
unfolding xor_digest
xor_cancel zero [] b ha hb ba bb = refl
xor_cancel zero (x ∷ a) b ha hb ba bb = absurd (omega arith)
xor_cancel (suc n) [] b ha hb ba bb = absurd (omega arith)
xor_cancel (suc n) (x ∷ a) [] ha hb ba bb = absurd (omega arith)
xor_cancel (suc n) (x ∷ a) (y ∷ b) ha hb (hx, ba) (hy, bb) =
    let small : bit_xor x y < 2 ^ 8 = bit_xor-lt 8 x y hx hy in
    let once : bit_xor x y % 256 ≡ bit_xor x y = omega arith in
    let twice : bit_xor (bit_xor x y) y ≡ x = bit_xor_cancel 8 x y hx hy in
    let whole : x % 256 ≡ x = omega arith in
    rw (once, twice, whole) (ap (◌∷◌ x) (xor_cancel n a b (omega arith) (omega arith) ba bb))

-- Whatever the password, the salt and the work factor are, the proof that a client makes with the keys
-- derived from them is accepted for the credential that was made of them, whatever was exchanged.
pub verify_client_proof-client_proof :
    (password salt am : List ℕ) (iters : ℕ)
    → verify_client_proof
        (make_credential (derive_keys password salt iters) salt iters)
        am
        (client_proof (derive_keys password salt iters) am)
      ≡ true
unfolding verify_client_proof make_credential client_proof derive_keys
verify_client_proof-client_proof password salt am iters =
    let client = hmac_sha256 (pbkdf2_sha256 password salt iters hash_len) client_key_label in
    let stored = sha256 client in
    let sig = hmac_sha256 stored am in
    let c : IsDigest client = hmac_sha256-IsDigest _ client_key_label in
    let s : IsDigest stored = sha256-IsDigest client in
    let g : IsDigest sig = hmac_sha256-IsDigest stored am in
    rw (xor_cancel 32 client sig c.size g.size c.bytes g.bytes)
      ((equal_ct-same stored stored 32 s.size s.size s.bytes s.bytes).1 refl)

-- A proof is accepted exactly where the key that it yields with the server's MAC of the transcript
-- hashes to the stored key, which is a digest.
pub verify_client_proof_iff :
    (c : Credential) (am proof : List ℕ)
    → IsDigest c.stored_key
    → (verify_client_proof c am proof ≡ true)
      ↔ (sha256 (xor_digest hash_len proof (hmac_sha256 c.stored_key am)) ≡ c.stored_key)
unfolding verify_client_proof
verify_client_proof_iff c am proof s =
    let k = sha256 (xor_digest hash_len proof (hmac_sha256 c.stored_key am)) in
    let d : IsDigest k = sha256-IsDigest _ in
    equal_ct-same k c.stored_key 32 d.size s.size d.bytes s.bytes
