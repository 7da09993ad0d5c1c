-- ===== src/Auth/Handshake.antt =====
-- The frames before the lobby, `Server::onFrame` and `Server::handshake` of src/server/server.cpp. The
-- time stamp of the last frame and what is only logged are left out.
use ta_engine.Common.{
  ℕ, zero, suc, ◌+◌, ◌/◌, ◌%◌, Bool, true, not, List, [], ◌∷◌, ◌++◌, map, ltb, ◌==◌, if◌then◌else◌,
}
use ta_engine.Net.Wire.{get_u32, get_u64, get_str}
use ta_engine.Net.Replay.{net_version}
use ta_engine.Auth.Session.{
  Session, World, Reply, LoginFrame, other_frame, reject, send_welcome, auth_msg,
}

-- What the server is set up with.
pub record Door : Type 0 where
  pub retail_hash : ℕ
  pub require_auth : Bool

-- A client by the time it is in the lobby: `in_auth` is `state == Auth`, and neither that nor
-- `in_lobby` is `state == Handshake`.
pub record Arrival : Type 0 where
  pub id : ℕ
  pub session : Session
  pub in_auth : Bool

pub data ClientFrame : Type 0 where
  ping_frame : ClientFrame
  pong_frame : ClientFrame
  bye_frame : ClientFrame
  hello_frame : List ℕ → ClientFrame
  login_frame : LoginFrame → ClientFrame

pub data Answer : Type 0 where
  pong : Answer
  auth_required : Answer
  reply : Reply → Answer

-- `std::to_string` of at most as many digits as the fuel and one.
unfoldable pub to_decimal : ℕ → ℕ → List ℕ
to_decimal zero n = (b'0' + n % 10) ∷ []
to_decimal (suc fuel) n =
    let rest = to_decimal fuel (n / 10) in
    if ltb n 10 then (b'0' + n) ∷ [] else rest ++ ((b'0' + n % 10) ∷ [])

-- The name in the `Hello`, or one made of the id, which has ten digits at most.
unfoldable pub given_name : ℕ → List ℕ → List ℕ
given_name id [] = (b'p' ∷ b'l' ∷ b'a' ∷ b'y' ∷ b'e' ∷ b'r' ∷ []) ++ to_decimal 9 id
given_name id (x ∷ xs) = x ∷ xs

-- What the exchange does to the client, with what is sent.
unfoldable pub move_on : Arrival → Session × List Reply → Arrival × List Answer
move_on c o = (record c { session = o.0 }, map reply o.1)

unfoldable pub handshake : Door → List ℕ → Arrival → Arrival × List Answer
handshake d payload c =
    let ver = get_u32 (record { p = payload; ok = true }) in
    let build = get_str ver.1 in
    let data_hash = get_u64 build.1 in
    let name = get_str data_hash.1 in
    if not name.1.ok
    then move_on c (reject c.session)
    else if not (ver.0 == net_version)
    then move_on c (reject c.session)
    else if not (data_hash.0 == d.retail_hash)
    then move_on c (reject c.session)
    else if d.require_auth
    then (record c { in_auth = true }, auth_required ∷ [])
    else move_on c (send_welcome (record c.session { name = given_name c.id name.0 }))

-- The switch of `onFrame` for a client that is not in the lobby.
unfoldable pub dispatch : Door → World → ClientFrame → Arrival → Arrival × List Answer
dispatch d w (hello_frame p) c =
    if c.in_auth then move_on c (auth_msg w other_frame c.session) else handshake d p c
dispatch d w (login_frame f) c =
    if c.in_auth then move_on c (auth_msg w f c.session) else move_on c (reject c.session)
dispatch d w ping_frame c = (c, pong ∷ [])
dispatch d w pong_frame c = (c, [])
dispatch d w bye_frame c = (record c { session = record c.session { dropped = true } }, [])
