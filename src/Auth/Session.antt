-- ===== src/Auth/Session.antt =====
-- The login exchange of src/server/server.cpp, `Server::authMsg`: what each frame does to the
-- connection, the throttle and the accounts, and what is sent. The clock, the random bytes and the
-- answer of the file system are arguments; what is only logged is left out.
use ta_engine.Common.{
  ℕ, max, Bool, true, false, not, ◌||◌, Option, none, some, List, [], ◌∷◌, ◌++◌, ◌==◌,
  if◌then◌else◌,
}
use ta_engine.Net.Wire.{get_str, get_bytes}
use ta_engine.Crypto.{hash_len}
use ta_engine.Auth.{
  Credential, auth_message, verify_client_proof, server_signature, valid_username, fold_username,
}
use ta_engine.Accounts.{
  Account, AccountStore, find_account, create_account, note_login, LoginThrottle, locked_for,
  fail_login, succeed_login, for_address, for_account,
}

abbrev pub nonce_len : ℕ
nonce_len = 32

abbrev pub pbkdf2_iters : ℕ
pbkdf2_iters = 600000

-- `Client::PendingAuth`
pub record PendingAuth : Type 0 where
  pub user : List ℕ
  pub client_nonce : List ℕ
  pub server_nonce : List ℕ
  pub salt : List ℕ
  pub iters : ℕ
  pub new_account : Bool
  pub challenged : Bool

-- What is sent: `sendReject` (and the connection fails), `sendThrottled`, `AuthResult` with its status,
-- `AuthChallenge`, `Welcome`.
pub data Reply : Type 0 where
  rejected : Reply
  throttled : ℕ → Reply
  bad_username : Reply
  bad_password : Reply
  server_error : Reply
  name_taken : Reply
  signed_in : List ℕ → Reply
  created_account : List ℕ → Reply
  challenge : Bool → List ℕ → ℕ → List ℕ → Reply
  welcome : List ℕ → Reply

-- What the exchange uses of a `Client`, and of the server: `in_lobby` is `state == Lobby`, `dropped`
-- that the connection has failed.
pub record Session : Type 0 where
  pub pend : PendingAuth
  pub account : List ℕ
  pub name : List ℕ
  pub peer : List ℕ
  pub in_lobby : Bool
  pub dropped : Bool
  pub throttle : LoginThrottle
  pub accounts : AccountStore

-- What the world answers while a frame is handled.
pub record World : Type 0 where
  pub now : ℕ
  pub nonce : Option (List ℕ)
  pub new_salt : Option (List ℕ)
  pub save : AccountStore → Bool

unfoldable pub ip_key : Session → List ℕ
ip_key c = (b'i' ∷ b'p' ∷ b':' ∷ []) ++ c.peer

unfoldable pub user_key : List ℕ → List ℕ
user_key user = (b'u' ∷ b's' ∷ b'e' ∷ b'r' ∷ b':' ∷ []) ++ fold_username user

unfoldable pub login_locked : Session → List ℕ → ℕ → ℕ
login_locked c user now =
    max (locked_for (ip_key c) now c.throttle) (locked_for (user_key user) now c.throttle)

unfoldable pub reject : Session → Session × List Reply
reject c = (record c { dropped = true }, rejected ∷ [])

unfoldable pub send_welcome : Session → Session × List Reply
send_welcome c = (record c { in_lobby = true }, welcome c.name ∷ [])

-- The challenge of an account that is there, or of a name that is free.
unfoldable pub send_challenge : Session → Session × List Reply
send_challenge c =
    let p = record c.pend { challenged = true } in
    (record c { pend = p }, challenge p.new_account p.salt p.iters p.server_nonce ∷ [])

unfoldable pub challenge_for : World → List ℕ → Session → Session × List Reply
challenge_for w user c = elim (find_account user c.accounts) [
  | some a ↦ send_challenge (record c {
    pend = record c.pend { new_account = false; salt = a.cred.salt; iters = a.cred.iters };
  })
  | none ↦
      let c = record c { pend = record c.pend { new_account = true; iters = pbkdf2_iters } } in
      elim w.new_salt [
        | none ↦ (c, server_error ∷ [])
        | some s ↦ send_challenge (record c { pend = record c.pend { salt = s } })
      ]
]

abbrev pub fresh_pend : List ℕ → List ℕ → PendingAuth
fresh_pend user cnonce = record {
  user = user;
  client_nonce = cnonce;
  server_nonce = [];
  salt = [];
  iters = 0;
  new_account = false;
  challenged = false;
}

-- `AuthBegin` behind the reading of its payload.
unfoldable pub begin_login : World → List ℕ → List ℕ → Session → Session × List Reply
begin_login w user cnonce c =
    let wait = login_locked c user w.now in
    if not (wait == 0)
    then (c, throttled wait ∷ [])
    else if not (valid_username user)
    then (
      record c { throttle = fail_login (ip_key c) w.now for_address c.throttle },
      bad_username ∷ [],
    )
    else (let c = record c { pend = fresh_pend user cnonce } in
        elim w.nonce [
          | none ↦ (c, server_error ∷ [])
          | some n ↦ challenge_for w user (record c { pend = record c.pend { server_nonce = n } })
        ])

unfoldable pub auth_begin : World → List ℕ → Session → Session × List Reply
auth_begin w payload c =
    if c.pend.challenged
    then reject c
    else (let (user, r) = get_str (record { p = payload; ok = true }) in
        let (cnonce, r) = get_bytes nonce_len r in
        if not r.ok then reject c else begin_login w user cnonce c)

unfoldable pub unchallenged : Session → Session
unchallenged c = record c { pend = record c.pend { challenged = false } }

-- The transcript of the exchange with the account `cred`.
unfoldable pub transcript : Session → Credential → List ℕ
transcript c cred =
    auth_message c.pend.user c.pend.client_nonce c.pend.server_nonce cred.salt cred.iters

unfoldable pub fail_proof : World → Session → Session × List Reply
fail_proof w c =
    let t = fail_login (ip_key c) w.now for_address c.throttle in
    let t = fail_login (user_key c.pend.user) w.now for_account t in
    (unchallenged (record c { throttle = t }), bad_password ∷ [])

unfoldable pub accept_proof : World → Account → Session → Session × List Reply
accept_proof w a c =
    let sig = server_signature a.cred.server_key (transcript c a.cred) in
    let (c, out) = send_welcome (record c {
      throttle = succeed_login (user_key c.pend.user) c.throttle;
      account = a.name;
      name = a.name;
      accounts = (note_login w.save w.now a.name c.accounts).1;
    }) in
    (c, signed_in sig ∷ out)

-- `AuthProof` behind the reading of its payload.
unfoldable pub check_proof : World → List ℕ → Session → Session × List Reply
check_proof w proof c =
    let wait = login_locked c c.pend.user w.now in
    if not (wait == 0)
    then (unchallenged c, throttled wait ∷ [])
    else elim (find_account c.pend.user c.accounts) [
      | none ↦ (c, bad_password ∷ [])
      | some a ↦
          if verify_client_proof a.cred (transcript c a.cred) proof
          then accept_proof w a c
          else fail_proof w c
    ]

unfoldable pub auth_proof : World → List ℕ → Session → Session × List Reply
auth_proof w payload c =
    if not c.pend.challenged || c.pend.new_account
    then reject c
    else (let (proof, r) = get_bytes hash_len (record { p = payload; ok = true }) in
        if not r.ok then reject c else check_proof w proof c)

unfoldable pub registration : Session → List ℕ → List ℕ → Credential
registration c stored server_key = record {
  iters = c.pend.iters;
  salt = c.pend.salt;
  stored_key = stored;
  server_key = server_key;
}

unfoldable pub accept_registration : Credential → Session → Session × List Reply
accept_registration cred c =
    let sig = server_signature cred.server_key (transcript c cred) in
    let (c, out) = send_welcome (record c {
      account = c.pend.user;
      name = c.pend.user;
      throttle = succeed_login (user_key c.pend.user) c.throttle;
    }) in
    (c, created_account sig ∷ out)

-- `AuthRegister` behind the reading of its payload.
unfoldable pub register_account : World → List ℕ → List ℕ → Session → Session × List Reply
register_account w stored server_key c =
    let wait = locked_for (ip_key c) w.now c.throttle in
    if not (wait == 0)
    then (c, throttled wait ∷ [])
    else (let t = fail_login (ip_key c) w.now for_address c.throttle in
        let cred = registration c stored server_key in
        let (ok, st) = create_account w.save w.now c.pend.user cred c.accounts in
        let c = record c { throttle = t; accounts = st } in
        if ok then accept_registration cred c else elim (find_account c.pend.user st) [
          | some a ↦ (unchallenged c, name_taken ∷ [])
          | none ↦ (unchallenged c, server_error ∷ [])
        ])

unfoldable pub auth_register : World → List ℕ → Session → Session × List Reply
auth_register w payload c =
    if not c.pend.challenged || not c.pend.new_account
    then reject c
    else (let (stored, r) = get_bytes hash_len (record { p = payload; ok = true }) in
        let (server_key, r) = get_bytes hash_len r in
        if not r.ok then reject c else register_account w stored server_key c)

-- The frames of the exchange; any other is refused.
pub data LoginFrame : Type 0 where
  begin_frame : List ℕ → LoginFrame
  proof_frame : List ℕ → LoginFrame
  register_frame : List ℕ → LoginFrame
  other_frame : LoginFrame

unfoldable pub auth_msg : World → LoginFrame → Session → Session × List Reply
auth_msg w (begin_frame p) c = auth_begin w p c
auth_msg w (proof_frame p) c = auth_proof w p c
auth_msg w (register_frame p) c = auth_register w p c
auth_msg w other_frame c = reject c
