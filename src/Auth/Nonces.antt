-- ===== src/Auth/Nonces.antt =====
-- Where the nonce of a challenge comes from, `Server::onFrame` of src/server/server.cpp before the lobby.
use ta_engine.Common.{
  ℕ, ◌≡◌, refl, sym, ap, ◌∙◌, ◌⊎◌, inl, inr, true, false, not, ◌||◌, some, List, [], ◌∷◌, ◌==◌,
  if◌then◌else◌,
}
use mathlib.Core.Bool.{true≢false}
use ta_engine.Common.Cases.{by_test, by_option}
use ta_engine.Net.Wire.{get_u32, get_u64, get_str, get_bytes}
use ta_engine.Net.Replay.{net_version}
use ta_engine.Crypto.{hash_len}
use ta_engine.Auth.{verify_client_proof, valid_username}
use ta_engine.Accounts.{find_account, create_account, locked_for}
use ta_engine.Auth.Session.{
  Session, World, Reply, LoginFrame, begin_frame, proof_frame, register_frame, other_frame,
  nonce_len, ip_key, login_locked, reject, send_welcome, send_challenge, challenge_for, begin_login,
  auth_begin, unchallenged, transcript, fail_proof, accept_proof, check_proof, auth_proof,
  registration, accept_registration, register_account, auth_register, auth_msg,
}
use ta_engine.Auth.Handshake.{
  Door, Arrival, Answer, ClientFrame, ping_frame, pong_frame, bye_frame, hello_frame, login_frame,
  move_on, handshake, dispatch,
}

-- A challenge that stands stood already, or is over the nonce that was drawn for this frame.
abbrev pub FreshTo : World → Session → Session → Type 0
FreshTo w c d =
    d.pend.challenged ≡ true
    → ((c.pend.challenged ≡ true) × (d.pend.server_nonce ≡ c.pend.server_nonce))
      ⊎ (w.nonce ≡ some d.pend.server_nonce)

abbrev Fresh : World → Session → Session × List Reply → Type 0
Fresh w c o = FreshTo w c o.0

module _ (w : World) (c : Session) where
  challenge_for-Fresh :
      (user : List ℕ) (d : Session)
      → d.pend.challenged ≡ false
      → w.nonce ≡ some d.pend.server_nonce
      → Fresh w c (challenge_for w user d)
  unfolding challenge_for send_challenge
  challenge_for-Fresh user d h n =
      by_option (Fresh w c) (find_account user d.accounts) _ _
        (λ f.
          by_option (Fresh w c) w.new_salt _ _ (λ t e. absurd (true≢false (sym e ∙ h)))
            (λ s t e. inr n))
        (λ a e t. inr n)

  begin_login-Fresh : (user cnonce : List ℕ) → Fresh w c (begin_login w user cnonce c)
  unfolding begin_login
  begin_login-Fresh user cnonce =
      by_test (Fresh w c) (not (login_locked c user w.now == 0)) _ _ (λ e h. inl (h, refl))
        (λ e.
          by_test (Fresh w c) (not (valid_username user)) _ _ (λ v h. inl (h, refl))
            (λ v.
              by_option (Fresh w c) w.nonce _ _ (λ n h. absurd (true≢false (sym h)))
                (λ m n. challenge_for-Fresh user _ refl n)))

  check_proof-Fresh : (proof : List ℕ) → Fresh w c (check_proof w proof c)
  unfolding check_proof accept_proof fail_proof send_welcome unchallenged
  check_proof-Fresh proof =
      by_test (Fresh w c) (not (login_locked c c.pend.user w.now == 0)) _ _
        (λ e h. absurd (true≢false (sym h)))
        (λ e.
          by_option (Fresh w c) (find_account c.pend.user c.accounts) _ _ (λ f h. inl (h, refl))
            (λ a f.
              by_test (Fresh w c) (verify_client_proof a.cred (transcript c a.cred) proof) _ _
                (λ v h. inl (h, refl)) (λ v h. absurd (true≢false (sym h)))))

  register_account-Fresh :
      (stored server_key : List ℕ) → Fresh w c (register_account w stored server_key c)
  unfolding register_account accept_registration send_welcome unchallenged
  register_account-Fresh stored server_key =
      let cred = registration c stored server_key in
      let made = create_account w.save w.now c.pend.user cred c.accounts in
      by_test (Fresh w c) (not (locked_for (ip_key c) w.now c.throttle == 0)) _ _
        (λ e h. inl (h, refl))
        (λ e.
          by_test (Fresh w c) made.0 _ _ (λ m h. inl (h, refl))
            (λ m.
              by_option (Fresh w c) (find_account c.pend.user made.1) _ _
                (λ f h. absurd (true≢false (sym h))) (λ a f h. absurd (true≢false (sym h)))))

  auth_begin-Fresh : (payload : List ℕ) → Fresh w c (auth_begin w payload c)
  unfolding auth_begin reject
  auth_begin-Fresh payload =
      by_test (Fresh w c) c.pend.challenged _ _ (λ e h. inl (h, refl))
        (λ e.
          let user = get_str (record { p = payload; ok = true }) in
          let cnonce = get_bytes nonce_len user.1 in
          by_test (Fresh w c) (not cnonce.1.ok) (reject c) (begin_login w user.0 cnonce.0 c)
            (λ r h. inl (h, refl)) (λ r. begin_login-Fresh user.0 cnonce.0))

  auth_proof-Fresh : (payload : List ℕ) → Fresh w c (auth_proof w payload c)
  unfolding auth_proof reject
  auth_proof-Fresh payload =
      by_test (Fresh w c) (not c.pend.challenged || c.pend.new_account) _ _ (λ e h. inl (h, refl))
        (λ e.
          let proof = get_bytes hash_len (record { p = payload; ok = true }) in
          by_test (Fresh w c) (not proof.1.ok) (reject c) (check_proof w proof.0 c)
            (λ r h. inl (h, refl)) (λ r. check_proof-Fresh proof.0))

  auth_register-Fresh : (payload : List ℕ) → Fresh w c (auth_register w payload c)
  unfolding auth_register reject
  auth_register-Fresh payload =
      by_test (Fresh w c) (not c.pend.challenged || not c.pend.new_account) _ _
        (λ e h. inl (h, refl))
        (λ e.
          let stored = get_bytes hash_len (record { p = payload; ok = true }) in
          let server_key = get_bytes hash_len stored.1 in
          by_test (Fresh w c) (not server_key.1.ok) (reject c)
            (register_account w stored.0 server_key.0 c) (λ r h. inl (h, refl))
            (λ r. register_account-Fresh stored.0 server_key.0))

  auth_msg-Fresh : (f : LoginFrame) → Fresh w c (auth_msg w f c)
  unfolding auth_msg reject
  auth_msg-Fresh (begin_frame p) = auth_begin-Fresh p
  auth_msg-Fresh (proof_frame p) = auth_proof-Fresh p
  auth_msg-Fresh (register_frame p) = auth_register-Fresh p
  auth_msg-Fresh other_frame = (λ h. inl (h, refl))

abbrev Drawn : World → Arrival → Arrival × List Answer → Type 0
Drawn w c o = FreshTo w c.session o.0.session

module _ (d : Door) (w : World) (c : Arrival) where
  handshake-Drawn : (payload : List ℕ) → Drawn w c (handshake d payload c)
  unfolding handshake move_on reject send_welcome
  handshake-Drawn payload =
      let ver = get_u32 (record { p = payload; ok = true }) in
      let build = get_str ver.1 in
      let data_hash = get_u64 build.1 in
      let name = get_str data_hash.1 in
      by_test (Drawn w c) (not name.1.ok) _ _ (λ t h. inl (h, refl))
        (λ t.
          by_test (Drawn w c) (not (ver.0 == net_version)) _ _ (λ t h. inl (h, refl))
            (λ t.
              by_test (Drawn w c) (not (data_hash.0 == d.retail_hash)) _ _ (λ t h. inl (h, refl))
                (λ t.
                  by_test (Drawn w c) d.require_auth _ _ (λ t h. inl (h, refl))
                    (λ t h. inl (h, refl)))))

  dispatch-Drawn : (f : ClientFrame) → Drawn w c (dispatch d w f c)
  unfolding dispatch move_on reject
  dispatch-Drawn ping_frame = (λ h. inl (h, refl))
  dispatch-Drawn pong_frame = (λ h. inl (h, refl))
  dispatch-Drawn bye_frame = (λ h. inl (h, refl))
  dispatch-Drawn (hello_frame p) =
      by_test (Drawn w c) c.in_auth _ _ (λ t. auth_msg-Fresh w c.session other_frame)
        (λ t. handshake-Drawn p)
  dispatch-Drawn (login_frame f) =
      by_test (Drawn w c) c.in_auth _ _ (λ t. auth_msg-Fresh w c.session f) (λ t h. inl (h, refl))

-- The frames of a client one after the other, each with what the world answers meanwhile, up to the
-- lobby, whose frames go elsewhere, or to the failure of the connection, whose frames are not read.
unfoldable pub run_frames : Door → List (World × ClientFrame) → Arrival → Arrival
run_frames d [] c = c
run_frames d (e ∷ es) c =
    let rest = run_frames d es (dispatch d e.0 e.1 c).0 in
    if c.session.in_lobby || c.session.dropped then c else rest

-- One of the frames drew this nonce.
unfoldable pub Drew : List ℕ → List (World × ClientFrame) → Type 0
Drew n [] = ⊥
Drew n (e ∷ es) = (e.0.nonce ≡ some n) ⊎ Drew n es

-- The challenge that stands in `o` stood in `c`, or its nonce was drawn.
Comes : List (World × ClientFrame) → Arrival → Arrival → Type 0
Comes es c o =
    o.session.pend.challenged ≡ true
    → ((c.session.pend.challenged ≡ true)
        × (o.session.pend.server_nonce ≡ c.session.pend.server_nonce))
      ⊎ Drew o.session.pend.server_nonce es

run_frames-Comes :
    (d : Door) (es : List (World × ClientFrame)) (c : Arrival) → Comes es c (run_frames d es c)
unfolding run_frames Drew Comes
run_frames-Comes d [] c = (λ h. inl (h, refl))
run_frames-Comes d (e ∷ es) c =
    let next = (dispatch d e.0 e.1 c).0 in
    by_test (Comes (e ∷ es) c) (c.session.in_lobby || c.session.dropped) c (run_frames d es next)
      (λ t h. inl (h, refl))
      (λ t h. elim (run_frames-Comes d es next h) [
        | inr found ↦ inr (inr found)
        | inl stood ↦ elim (dispatch-Drawn d e.0 c e.1 stood.0) [
          | inl before ↦ inl (before.0, stood.1 ∙ before.1)
          | inr drawn ↦ inr (inl (drawn ∙ ap some (sym stood.1)))
        ]
      ])

-- Whatever frames a client sends that comes without a challenge, a challenge that stands behind them is
-- over a nonce that the server drew for one of them.
pub run_frames-challenged :
    (d : Door) (es : List (World × ClientFrame)) (c : Arrival)
    → c.session.pend.challenged ≡ false
    → (run_frames d es c).session.pend.challenged ≡ true
    → Drew (run_frames d es c).session.pend.server_nonce es
unfolding Comes
run_frames-challenged d es c new h = elim (run_frames-Comes d es c h) [
  | inl stood ↦ absurd (true≢false (sym stood.0 ∙ new))
  | inr found ↦ found
]
