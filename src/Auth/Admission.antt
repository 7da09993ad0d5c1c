-- ===== src/Auth/Admission.antt =====
-- Who reaches the lobby, by `Server::authMsg` of src/server/server.cpp.
use ta_engine.Common.{
  ℕ, ◌≡◌, refl, sym, ◌∙◌, ◌⊎◌, inl, inr, Bool, true, false, not, ◌||◌, some, List, ◌==◌,
}
use mathlib.Core.Bool.{true≢false}
use ta_engine.Common.Bytes.{or_false}
use ta_engine.Common.Cases.{by_test, by_option}
use ta_engine.Net.Wire.{Reader, get_str, get_bytes}
use ta_engine.Crypto.{hash_len}
use ta_engine.Auth.{verify_client_proof, valid_username}
use ta_engine.Accounts.{Account, find_account, create_account, locked_for}
use ta_engine.Auth.Session.{
  Session, World, Reply, LoginFrame, begin_frame, proof_frame, register_frame, other_frame,
  nonce_len, ip_key, login_locked, reject, unchallenged, transcript, send_welcome, send_challenge,
  challenge_for, begin_login, auth_begin, fail_proof, accept_proof, check_proof, auth_proof,
  registration, accept_registration, register_account, auth_register, auth_msg,
}

-- What the server reads of the payload of an `AuthProof`, and of an `AuthRegister`.
abbrev pub read_proof : List ℕ → List ℕ × Reader
read_proof payload = get_bytes hash_len (record { p = payload; ok = true })

abbrev pub read_server_key : List ℕ → List ℕ × Reader
read_server_key payload = get_bytes hash_len (read_proof payload).1

-- The frame was a proof that was checked: the exchange was challenged, the account is there, and the
-- proof in the frame is the one its credential asks for over the transcript of this very exchange.
pub record ByProof (fr : LoginFrame) (c c' : Session) : Type 0 where
  pub was_challenged : c.pend.challenged ≡ true
  pub is_known : c.pend.new_account ≡ false
  pub account : Account
  pub found : find_account c.pend.user c.accounts ≡ some account
  pub payload : List ℕ
  pub sent : fr ≡ proof_frame payload
  pub readable : (read_proof payload).1.ok ≡ true
  pub verified :
      verify_client_proof account.cred (transcript c account.cred) (read_proof payload).0 ≡ true
  pub as_account : c'.account ≡ account.name

-- The frame was a registration, with the two keys of the account, that was saved for a name that was
-- free.
pub record ByRegistration (w : World) (fr : LoginFrame) (c c' : Session) : Type 0 where
  pub was_challenged : c.pend.challenged ≡ true
  pub is_new : c.pend.new_account ≡ true
  pub payload : List ℕ
  pub sent : fr ≡ register_frame payload
  pub readable : (read_server_key payload).1.ok ≡ true
  pub created :
      (create_account w.save w.now c.pend.user
        (registration c (read_proof payload).0 (read_server_key payload).0)
        c.accounts).0
      ≡ true
  pub as_account : c'.account ≡ c.pend.user

abbrev FairTo : World → LoginFrame → Session → Session → Type 0
FairTo w fr c d = d.in_lobby ≡ true → ByProof fr c d ⊎ ByRegistration w fr c d

abbrev Fair : World → LoginFrame → Session → Session × List Reply → Type 0
Fair w fr c o = FairTo w fr c o.0

by_not : (b : Bool) → not b ≡ false → b ≡ true
by_not true h = refl
by_not false h = sym h

-- What leaves the client out of the lobby is fair.
outside : (w : World) (fr : LoginFrame) (c d : Session) → d.in_lobby ≡ false → FairTo w fr c d
outside w fr c d h e = absurd (true≢false (sym e ∙ h))

module _ (w : World) (fr : LoginFrame) (c : Session) (out : c.in_lobby ≡ false) where
  challenge_for-Fair :
      (user : List ℕ) (d : Session) → d.in_lobby ≡ false → Fair w fr c (challenge_for w user d)
  unfolding challenge_for send_challenge
  challenge_for-Fair user d h =
      by_option (Fair w fr c) (find_account user d.accounts) _ _
        (λ e.
          by_option (Fair w fr c) w.new_salt _ _ (λ n. outside w fr c _ h)
            (λ s n. outside w fr c _ h))
        (λ a e. outside w fr c _ h)

  begin_login-Fair : (user cnonce : List ℕ) → Fair w fr c (begin_login w user cnonce c)
  unfolding begin_login
  begin_login-Fair user cnonce =
      by_test (Fair w fr c) (not (login_locked c user w.now == 0)) _ _ (λ e. outside w fr c _ out)
        (λ e.
          by_test (Fair w fr c) (not (valid_username user)) _ _ (λ v. outside w fr c _ out)
            (λ v.
              by_option (Fair w fr c) w.nonce _ _ (λ n. outside w fr c _ out)
                (λ n m. challenge_for-Fair user _ out)))

  check_proof-Fair :
      (payload : List ℕ)
      → fr ≡ proof_frame payload
      → (read_proof payload).1.ok ≡ true
      → c.pend.challenged ≡ true
      → c.pend.new_account ≡ false
      → Fair w fr c (check_proof w (read_proof payload).0 c)
  unfolding check_proof accept_proof fail_proof send_welcome unchallenged
  check_proof-Fair payload sent ok hc hn =
      by_test (Fair w fr c) (not (login_locked c c.pend.user w.now == 0)) _ _
        (λ e. outside w fr c _ out)
        (λ e.
          by_option (Fair w fr c) (find_account c.pend.user c.accounts) _ _
            (λ f. outside w fr c _ out)
            (λ a f.
              by_test (Fair w fr c)
                (verify_client_proof a.cred (transcript c a.cred) (read_proof payload).0) _ _
                (λ v x. inl (record {
                  was_challenged = hc;
                  is_known = hn;
                  account = a;
                  found = f;
                  payload = payload;
                  sent = sent;
                  readable = ok;
                  verified = v;
                  as_account = refl;
                }))
                (λ v. outside w fr c _ out)))

  register_account-Fair :
      (payload : List ℕ)
      → fr ≡ register_frame payload
      → (read_server_key payload).1.ok ≡ true
      → c.pend.challenged ≡ true
      → c.pend.new_account ≡ true
      → Fair w fr c (register_account w (read_proof payload).0 (read_server_key payload).0 c)
  unfolding register_account accept_registration send_welcome unchallenged
  register_account-Fair payload sent ok hc hn =
      let cred = registration c (read_proof payload).0 (read_server_key payload).0 in
      let made = create_account w.save w.now c.pend.user cred c.accounts in
      by_test (Fair w fr c) (not (locked_for (ip_key c) w.now c.throttle == 0)) _ _
        (λ e. outside w fr c _ out)
        (λ e.
          by_test (Fair w fr c) made.0 _ _
            (λ m x. inr (record {
              was_challenged = hc;
              is_new = hn;
              payload = payload;
              sent = sent;
              readable = ok;
              created = m;
              as_account = refl;
            }))
            (λ m.
              by_option (Fair w fr c) (find_account c.pend.user made.1) _ _
                (λ f. outside w fr c _ out) (λ a f. outside w fr c _ out)))

  auth_begin-Fair : (payload : List ℕ) → Fair w fr c (auth_begin w payload c)
  unfolding auth_begin reject
  auth_begin-Fair payload =
      by_test (Fair w fr c) c.pend.challenged _ _ (λ e. outside w fr c _ out)
        (λ e.
          let user = get_str (record { p = payload; ok = true }) in
          let cnonce = get_bytes nonce_len user.1 in
          by_test (Fair w fr c) (not cnonce.1.ok) (reject c) (begin_login w user.0 cnonce.0 c)
            (λ r. outside w fr c _ out) (λ r. begin_login-Fair user.0 cnonce.0))

  auth_proof-Fair :
      (payload : List ℕ) → fr ≡ proof_frame payload → Fair w fr c (auth_proof w payload c)
  unfolding auth_proof reject
  auth_proof-Fair payload sent =
      by_test (Fair w fr c) (not c.pend.challenged || c.pend.new_account) _ _
        (λ e. outside w fr c _ out)
        (λ e.
          let (hc, hn) = or_false (not c.pend.challenged) c.pend.new_account e in
          let proof = read_proof payload in
          by_test (Fair w fr c) (not proof.1.ok) (reject c) (check_proof w proof.0 c)
            (λ r. outside w fr c _ out)
            (λ r.
              check_proof-Fair payload sent (by_not proof.1.ok r) (by_not c.pend.challenged hc) hn))

  auth_register-Fair :
      (payload : List ℕ) → fr ≡ register_frame payload → Fair w fr c (auth_register w payload c)
  unfolding auth_register reject
  auth_register-Fair payload sent =
      by_test (Fair w fr c) (not c.pend.challenged || not c.pend.new_account) _ _
        (λ e. outside w fr c _ out)
        (λ e.
          let (hc, hn) = or_false (not c.pend.challenged) (not c.pend.new_account) e in
          let stored = read_proof payload in
          let server_key = read_server_key payload in
          by_test (Fair w fr c) (not server_key.1.ok) (reject c)
            (register_account w stored.0 server_key.0 c) (λ r. outside w fr c _ out)
            (λ r.
              register_account-Fair payload sent (by_not server_key.1.ok r)
                (by_not c.pend.challenged hc) (by_not c.pend.new_account hn)))

-- Whatever frame comes, whatever the world answers, a client that was not in the lobby is in it only
-- where the frame was a proof that was checked against the credential of the account and the transcript
-- of this exchange, or a registration that was saved; and its account is that one.
pub auth_msg-Fair :
    (w : World) (c : Session) (f : LoginFrame)
    → c.in_lobby ≡ false
    → (auth_msg w f c).0.in_lobby ≡ true
    → ByProof f c (auth_msg w f c).0 ⊎ ByRegistration w f c (auth_msg w f c).0
unfolding auth_msg reject
auth_msg-Fair w c (begin_frame p) out = auth_begin-Fair w (begin_frame p) c out p
auth_msg-Fair w c (proof_frame p) out = auth_proof-Fair w (proof_frame p) c out p refl
auth_msg-Fair w c (register_frame p) out = auth_register-Fair w (register_frame p) c out p refl
auth_msg-Fair w c other_frame out = outside w other_frame c _ out
