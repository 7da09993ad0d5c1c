-- ===== src/Auth/Entry.antt =====
-- Who comes into the lobby of a server that requires accounts, `Server::onFrame` of
-- src/server/server.cpp.
use ta_engine.Common.{ℕ, ◌≡◌, refl, sym, ◌∙◌, ◌⊎◌, true, false, not, List, ◌==◌}
use mathlib.Core.Bool.{true≢false}
use ta_engine.Common.Cases.{by_test}
use ta_engine.Net.Wire.{get_u32, get_u64, get_str}
use ta_engine.Net.Replay.{net_version}
use ta_engine.Auth.Session.{World, LoginFrame, reject, auth_msg}
use ta_engine.Auth.Admission.{ByProof, ByRegistration, auth_msg-Fair}
use ta_engine.Auth.Handshake.{
  Door, Arrival, Answer, ClientFrame, ping_frame, pong_frame, bye_frame, hello_frame, login_frame,
  move_on, handshake, dispatch,
}

-- The client was in the exchange, and came in by the proof or the registration of this frame.
pub record IsAdmitted (w : World) (f : ClientFrame) (c d : Arrival) : Type 0 where
  pub was_asked : c.in_auth ≡ true
  pub login : LoginFrame
  pub sent : f ≡ login_frame login
  pub way : ByProof login c.session d.session ⊎ ByRegistration w login c.session d.session

abbrev EntersTo : World → ClientFrame → Arrival → Arrival → Type 0
EntersTo w f c d = d.session.in_lobby ≡ true → IsAdmitted w f c d

abbrev Enters : World → ClientFrame → Arrival → Arrival × List Answer → Type 0
Enters w f c o = EntersTo w f c o.0

stays_out :
    (w : World) (f : ClientFrame) (c d : Arrival) → d.session.in_lobby ≡ false → EntersTo w f c d
stays_out w f c d h e = absurd (true≢false (sym e ∙ h))

module _ (d : Door) (w : World) (c : Arrival) (out : c.session.in_lobby ≡ false) where
  handshake-Enters :
      (f : ClientFrame) (payload : List ℕ)
      → d.require_auth ≡ true
      → Enters w f c (handshake d payload c)
  unfolding handshake move_on reject
  handshake-Enters f payload guarded =
      let ver = get_u32 (record { p = payload; ok = true }) in
      let build = get_str ver.1 in
      let data_hash = get_u64 build.1 in
      let name = get_str data_hash.1 in
      by_test (Enters w f c) (not name.1.ok) _ _ (λ t. stays_out w f c _ out)
        (λ t.
          by_test (Enters w f c) (not (ver.0 == net_version)) _ _ (λ t. stays_out w f c _ out)
            (λ t.
              by_test (Enters w f c) (not (data_hash.0 == d.retail_hash)) _ _
                (λ t. stays_out w f c _ out)
                (λ t.
                  by_test (Enters w f c) d.require_auth _ _ (λ t. stays_out w f c _ out)
                    (λ t. absurd (true≢false (sym guarded ∙ t))))))

  -- On a server that requires accounts, a frame of whatever kind and content takes a client into the
  -- lobby only where the client was in the login exchange, and the frame was a proof that was checked
  -- against the account over the transcript of this exchange, or a registration that was saved.
  pub dispatch-IsAdmitted :
      (f : ClientFrame)
      → d.require_auth ≡ true
      → (dispatch d w f c).0.session.in_lobby ≡ true
      → IsAdmitted w f c (dispatch d w f c).0
  unfolding dispatch move_on reject auth_msg
  dispatch-IsAdmitted ping_frame guarded = stays_out w ping_frame c c out
  dispatch-IsAdmitted pong_frame guarded = stays_out w pong_frame c c out
  dispatch-IsAdmitted bye_frame guarded = stays_out w bye_frame c _ out
  dispatch-IsAdmitted (hello_frame p) guarded =
      by_test (Enters w (hello_frame p) c) c.in_auth _ _ (λ t. stays_out w (hello_frame p) c _ out)
        (λ t. handshake-Enters (hello_frame p) p guarded)
  dispatch-IsAdmitted (login_frame f) guarded =
      by_test (Enters w (login_frame f) c) c.in_auth _ _
        (λ t e. record {
          was_asked = t;
          login = f;
          sent = refl;
          way = auth_msg-Fair w c.session f out e;
        })
        (λ t. stays_out w (login_frame f) c _ out)
