-- ===== src/Auth/SignIn.antt =====
-- A whole login: the proof that a client sends, by src/net/auth.cpp, and what the server makes of it, by
-- `Server::authMsg` of src/server/server.cpp.
use ta_engine.Common.{
  ℕ, zero, suc, ◌≡◌, refl, sym, ap, ◌∙◌, inr, true, false, not, ◌||◌, Option, none, some, List, [],
  ◌∷◌, append-nil, arith, ◌==◌, length, drop,
}
use mathlib.Core.Option.{none-ne-some, some-injective}
use ta_engine.Common.Bytes.{if-true, if-false}
use ta_engine.Net.Wire.{put_bytes, get_bytes}
use ta_engine.Net.Wire.RoundTrip.{RoundTrip-read}
use ta_engine.Net.Wire.Texts.{RoundTrip-bytes}
use ta_engine.Crypto.{hash_len}
use ta_engine.Auth.{
  Credential, Keys, auth_message, derive_keys, make_credential, xor_digest, client_proof,
  verify_client_proof, server_signature,
}
use ta_engine.Auth.Login.{verify_client_proof-client_proof}
use ta_engine.Accounts.{Account, find_account}
use ta_engine.Auth.Session.{
  Session, World, welcome, signed_in, proof_frame, login_locked, transcript, send_welcome,
  accept_proof, check_proof, auth_proof, auth_msg,
}

length-xor_digest : (n : ℕ) (a b : List ℕ) → length (xor_digest n a b) ≡ n
unfolding xor_digest
length-xor_digest zero a b = refl
length-xor_digest (suc n) a b = ap suc (length-xor_digest n (drop 1 a) (drop 1 b))

length-client_proof : (k : Keys) (am : List ℕ) → length (client_proof k am) ≡ 32
unfolding client_proof
length-client_proof k am = length-xor_digest 32 _ _

-- The 32 bytes of a proof as the server reads them.
proof_read :
    (proof : List ℕ)
    → length proof ≡ 32
    → get_bytes hash_len (record { p = put_bytes proof []; ok = true })
      ≡ (proof, record { p = []; ok = true })
proof_read proof h =
    ap (λ b. get_bytes 32 (record { p = b; ok = true })) (sym (append-nil (put_bytes proof [])))
    ∙ RoundTrip-read (RoundTrip-bytes 32 proof (omega arith) (inr (sym h))) []

pub pick_some :
    {A B : Type 0} (o : Option B) (x : A) (f : B → A) (b : B)
    → o ≡ some b
    → elim o [ none ↦ x | some k ↦ f k ] ≡ f b
pick_some none x f b h = absurd (none-ne-some b h)
pick_some (some k) x f b h = ap f (some-injective k b h)

-- The account's credential is the one of this password.
abbrev pub IsPassword : List ℕ → Credential → Type 0
IsPassword password cred =
    cred ≡ make_credential (derive_keys password cred.salt cred.iters) cred.salt cred.iters

-- The payload of the `AuthProof` that `MpClient::pumpDerive` of src/net/client.cpp sends: the proof of the
-- password over the name and the nonce that the client has sent, and the nonce, the salt and the
-- iterations of the challenge.
unfoldable pub proof_payload :
    (password user client_nonce server_nonce salt : List ℕ) (iters : ℕ) → List ℕ
proof_payload password user client_nonce server_nonce salt iters =
    let am = auth_message user client_nonce server_nonce salt iters in
    put_bytes (client_proof (derive_keys password salt iters) am) []

module _ (w : World) (c : Session) (a : Account) (password : List ℕ) where
  abbrev from_client : List ℕ
  from_client =
      proof_payload password c.pend.user c.pend.client_nonce c.pend.server_nonce a.cred.salt
        a.cred.iters

  verified :
      IsPassword password a.cred
      → verify_client_proof a.cred
          (transcript c a.cred)
          (client_proof (derive_keys password a.cred.salt a.cred.iters) (transcript c a.cred))
        ≡ true
  verified h =
      let am = transcript c a.cred in
      let proof = client_proof (derive_keys password a.cred.salt a.cred.iters) am in
      ap (λ k. verify_client_proof k am proof) h
      ∙ verify_client_proof-client_proof password a.cred.salt am a.cred.iters

  check_proof-accept_proof :
      login_locked c c.pend.user w.now ≡ 0
      → find_account c.pend.user c.accounts ≡ some a
      → IsPassword password a.cred
      → check_proof w
          (client_proof (derive_keys password a.cred.salt a.cred.iters) (transcript c a.cred))
          c
        ≡ accept_proof w a c
  unfolding check_proof
  check_proof-accept_proof hl hf hp =
      if-false _ _ (ap (λ n. not (n == 0)) hl)
      ∙ pick_some (find_account c.pend.user c.accounts) _ _ a hf
      ∙ if-true _ _ (verified hp)

  proof_accepted :
      c.pend.challenged ≡ true
      → c.pend.new_account ≡ false
      → login_locked c c.pend.user w.now ≡ 0
      → find_account c.pend.user c.accounts ≡ some a
      → IsPassword password a.cred
      → auth_proof w from_client c ≡ accept_proof w a c
  unfolding auth_proof proof_payload transcript
  proof_accepted hc hn hl hf hp =
      let am = transcript c a.cred in
      let proof = client_proof (derive_keys password a.cred.salt a.cred.iters) am in
      let read = proof_read proof (length-client_proof _ am) in
      if-false _ _ (ap (λ b. not b || c.pend.new_account) hc ∙ hn)
      ∙ if-false _ _ (ap (λ r. not r.1.ok) read)
      ∙ ap (λ r. check_proof w r.0 c) read
      ∙ check_proof-accept_proof hl hf hp

  -- Where the exchange was challenged for an account that is there, neither the address nor the account
  -- is locked, and the account's credential was made of the password, the proof that the client makes of
  -- the password, the name, both nonces and the salt and iterations of the account takes it to the lobby
  -- as that account, and the server answers with its signature of the same message.
  pub auth_msg-proof_frame :
      c.pend.challenged ≡ true
      → c.pend.new_account ≡ false
      → login_locked c c.pend.user w.now ≡ 0
      → find_account c.pend.user c.accounts ≡ some a
      → IsPassword password a.cred
      → let payload =
          proof_payload password c.pend.user c.pend.client_nonce c.pend.server_nonce a.cred.salt
            a.cred.iters in
        let am =
          auth_message c.pend.user c.pend.client_nonce c.pend.server_nonce a.cred.salt
            a.cred.iters in
        let o = auth_msg w (proof_frame payload) c in
        (o.0.in_lobby ≡ true)
        × (o.0.account ≡ a.name)
        × (o.1 ≡ signed_in (server_signature a.cred.server_key am) ∷ welcome a.name ∷ [])
  unfolding auth_msg accept_proof send_welcome transcript
  auth_msg-proof_frame hc hn hl hf hp = rw (proof_accepted hc hn hl hf hp) (refl, refl, refl)
