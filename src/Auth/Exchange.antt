-- ===== src/Auth/Exchange.antt =====
-- A whole login of a client that has an account, from its `AuthBegin` by src/net/client.cpp on, as
-- `Server::authMsg` of src/server/server.cpp answers it.
use ta_engine.Common.{
  ℕ, ◌≤◌, ◌≡◌, refl, sym, ap, ◌∙◌, inr, true, false, not, some, List, [], ◌∷◌, ◌++◌, append-nil,
  arith, ◌==◌, if◌then◌else◌, length,
}
use ta_engine.Common.Bytes.{if-false}
use ta_engine.Net.Wire.{Reader, put_str, put_bytes, get_str, get_bytes}
use ta_engine.Net.Wire.RoundTrip.{RoundTrip-read}
use ta_engine.Net.Wire.Texts.{RoundTrip-str, RoundTrip-bytes}
use ta_engine.Auth.{valid_username}
use ta_engine.Accounts.{Account, find_account}
use ta_engine.Auth.Session.{
  Session, World, Reply, challenge, begin_frame, proof_frame, nonce_len, ip_key, login_locked,
  reject, begin_login, auth_begin, challenge_for, send_challenge, auth_msg,
}
use ta_engine.Auth.SignIn.{IsPassword, proof_payload, pick_some, auth_msg-proof_frame}

-- The payload of the `AuthBegin` that `MpClient` sends.
unfoldable pub begin_payload : List ℕ → List ℕ → List ℕ
begin_payload user client_nonce = put_bytes client_nonce (put_str user [])

module _ (c : Session) (user client_nonce nonce : List ℕ) (a : Account) where
  -- The client once it is challenged for an account that is there.
  abbrev pub asked : Session
  asked = record c {
    pend = record {
      user = user;
      client_nonce = client_nonce;
      server_nonce = nonce;
      salt = a.cred.salt;
      iters = a.cred.iters;
      new_account = false;
      challenged = true;
    };
  }

  module _ (w : World) where
    begin_login-challenge :
        login_locked c user w.now ≡ 0
        → valid_username user ≡ true
        → w.nonce ≡ some nonce
        → find_account user c.accounts ≡ some a
        → begin_login w user client_nonce c
          ≡ (asked, challenge false a.cred.salt a.cred.iters nonce ∷ [])
    unfolding begin_login challenge_for send_challenge
    begin_login-challenge hl hv hn hf =
        if-false _ _ (ap (λ n. not (n == 0)) hl)
        ∙ if-false _ _ (ap not hv)
        ∙ pick_some w.nonce _ _ nonce hn
        ∙ pick_some (find_account user c.accounts) _ _ a hf

    auth_begin-challenge :
        c.pend.challenged ≡ false
        → length user ≤ 4096
        → length client_nonce ≡ 32
        → login_locked c user w.now ≡ 0
        → valid_username user ≡ true
        → w.nonce ≡ some nonce
        → find_account user c.accounts ≡ some a
        → auth_begin w (begin_payload user client_nonce) c
          ≡ (asked, challenge false a.cred.salt a.cred.iters nonce ∷ [])
    unfolding auth_begin begin_payload
    auth_begin-challenge hc hu hs hl hv hn hf =
        let behind = put_bytes client_nonce [] in
        let t = RoundTrip-bytes 32 client_nonce (omega arith) (inr (sym hs)) in
        let cut : put_bytes client_nonce (put_str user []) ≡ put_str user [] ++ behind =
          t.writes (put_str user []) ∙ ap (λ b. put_str user [] ++ b) (sym (t.writes [])) in
        let answer : List ℕ × Reader → Session × List Reply = λ u.
          let r = get_bytes nonce_len u.1 in
          if not r.1.ok then reject c else begin_login w u.0 r.0 c in
        let named : get_str (record { p = put_bytes client_nonce (put_str user []); ok = true })
            ≡ (user, record { p = behind; ok = true }) =
          ap (λ b. get_str (record { p = b; ok = true })) cut
          ∙ RoundTrip-read (RoundTrip-str user hu) behind in
        let nonce_read : get_bytes nonce_len (record { p = behind; ok = true })
            ≡ (client_nonce, record { p = []; ok = true }) =
          ap (λ b. get_bytes 32 (record { p = b; ok = true })) (sym (append-nil behind))
          ∙ RoundTrip-read t [] in
        if-false _ _ hc
        ∙ ap answer named
        ∙ if-false _ _ (ap (λ r. not r.1.ok) nonce_read)
        ∙ ap (λ r. begin_login w user r.0 c) nonce_read
        ∙ begin_login-challenge hl hv hn hf

  -- A client that was not challenged sends the name of an account and its nonce, and then the proof of
  -- the password over these and what the challenge says. Where neither the address nor the account is
  -- locked at either frame, the server has random bytes, the name is valid and the credential of the
  -- account was made of the password, the challenge has the salt and the iterations of the account and
  -- the nonce that was drawn, and the client is in the lobby as that account.
  pub auth_msg-whole_login :
      (w later : World) (password : List ℕ)
      → c.pend.challenged ≡ false
      → length user ≤ 4096
      → length client_nonce ≡ 32
      → login_locked c user w.now ≡ 0
      → login_locked c user later.now ≡ 0
      → valid_username user ≡ true
      → w.nonce ≡ some nonce
      → find_account user c.accounts ≡ some a
      → IsPassword password a.cred
      → let first = auth_msg w (begin_frame (begin_payload user client_nonce)) c in
        let payload = proof_payload password user client_nonce nonce a.cred.salt a.cred.iters in
        let second = auth_msg later (proof_frame payload) first.0 in
        (first.1 ≡ challenge false a.cred.salt a.cred.iters nonce ∷ [])
        × (second.0.in_lobby ≡ true)
        × (second.0.account ≡ a.name)
  unfolding auth_msg login_locked ip_key
  auth_msg-whole_login w later password hc hu hs hl hl' hv hn hf hp =
      let payload = proof_payload password user client_nonce nonce a.cred.salt a.cred.iters in
      let e = auth_begin-challenge w hc hu hs hl hv hn hf in
      let (there, as_account, _) =
        auth_msg-proof_frame later asked a password refl refl hl' hf hp in
      (
        ap (λ o. o.1) e,
        ap (λ o. (auth_msg later (proof_frame payload) o.0).0.in_lobby) e ∙ there,
        ap (λ o. (auth_msg later (proof_frame payload) o.0).0.account) e ∙ as_account,
      )
