-- ===== src/Examples/Logins.antt =====
-- A registration and a login.
use ta_engine.Common.{
  ℕ, ◌≡◌, refl, ◌⊎◌, Bool, true, false, none, some, List, [], ◌∷◌, arith, replicate,
}
use ta_engine.Common.Bytes.{lookup, same_bytes}
use ta_engine.Auth.{
  Credential, auth_message, derive_keys, make_credential, server_signature, valid_username,
  fold_username, is_between, is_alnum, to_lower, is_name_byte, name_bytes,
}
use ta_engine.Auth.Transcript.{Exchange, IsExchange, auth_message-injective}
use ta_engine.Accounts.{Account, AccountStore, find_account, create_account, note_login, locked_for}
use ta_engine.Auth.Session.{
  Session, World, welcome, signed_in, challenge, fresh_pend, begin_frame, proof_frame, login_locked,
  auth_msg,
}
use ta_engine.Auth.Handshake.{Door, Arrival, login_frame, dispatch, move_on}
use ta_engine.Auth.Entry.{IsAdmitted, dispatch-IsAdmitted}
use ta_engine.Auth.Exchange.{begin_payload, auth_msg-whole_login}
use ta_engine.Auth.SignIn.{proof_payload, auth_msg-proof_frame}
use ta_engine.Accounts.Names.{IsStore, Refused, Registered, create_account-cases, IsStore-kept}

abbrev password : List ℕ
password = b's' ∷ b'e' ∷ b'c' ∷ b'r' ∷ b'e' ∷ b't' ∷ b'!' ∷ b'!' ∷ []

abbrev salt : List ℕ
salt = 1 ∷ 2 ∷ 3 ∷ 4 ∷ []

abbrev zeros : List ℕ
zeros = replicate 32 0

abbrev credential : Credential
credential = record { iters = 1000; salt = salt; stored_key = zeros; server_key = zeros }

abbrev bob : List ℕ
bob = b'B' ∷ b'o' ∷ b'b' ∷ []

abbrev exchange : Exchange
exchange = record {
  user = bob;
  client_nonce = 9 ∷ [];
  server_nonce = 8 ∷ [];
  salt = salt;
  iters = 1000;
}

exchange-IsExchange : IsExchange exchange
exchange-IsExchange = record {
  user_fits = omega arith;
  client_fits = omega arith;
  server_fits = omega arith;
  salt_fits = omega arith;
  iters_fit = omega arith;
}

auth_message-injective_example : exchange ≡ exchange
auth_message-injective_example =
    auth_message-injective exchange exchange exchange-IsExchange exchange-IsExchange refl

-- A file system that writes nothing.
abbrev broken : AccountStore → Bool
broken st = false

create_account-cases_example :
    Refused broken 5 bob credential [] (create_account broken 5 bob credential [])
    ⊎ Registered broken 5 bob credential [] (create_account broken 5 bob credential [])
create_account-cases_example = create_account-cases broken 5 bob credential []

abbrev filed : AccountStore
filed =
    (
      b'b' ∷ b'o' ∷ b'b' ∷ [],
      record { name = bob; cred = credential; created = 5; last_login = 5; logins = 1 },
    )
    ∷ []

filed-IsStore : IsStore filed
unfolding valid_username fold_username is_between is_alnum to_lower is_name_byte name_bytes
filed-IsStore = (record { folded = refl; valid = refl }, tt)

IsStore-kept_example :
    IsStore (create_account broken 5 bob credential filed).1
    × IsStore (note_login broken 5 bob filed).1
IsStore-kept_example = IsStore-kept broken 5 bob credential filed filed-IsStore

abbrev host : List ℕ
host = 10 ∷ 0 ∷ 0 ∷ 1 ∷ []

-- Bob, registered with his password.
abbrev made : Credential
made = make_credential (derive_keys password salt 1000) salt 1000

abbrev account : Account
account = record { name = bob; cred = made; created = 5; last_login = 5; logins = 1 }

abbrev session : Session
session = record {
  pend = record {
    user = bob;
    client_nonce = 9 ∷ [];
    server_nonce = 8 ∷ [];
    salt = salt;
    iters = 1000;
    new_account = false;
    challenged = true;
  };
  account = [];
  name = [];
  peer = host;
  in_lobby = false;
  dropped = false;
  throttle = [];
  accounts = (b'b' ∷ b'o' ∷ b'b' ∷ [], account) ∷ [];
}

abbrev world : World
world = record { now = 970000; nonce = none; new_salt = none; save = broken }

abbrev signing_in : List ℕ
signing_in = proof_payload password bob (9 ∷ []) (8 ∷ []) salt 1000

session-open : login_locked session bob 970000 ≡ 0
unfolding login_locked locked_for lookup
session-open = refl

session-bob : find_account bob session.accounts ≡ some account
unfolding find_account fold_username is_between to_lower lookup same_bytes
session-bob = refl

auth_msg-proof_frame_example :
    let o = auth_msg world (proof_frame signing_in) session in
    (o.0.in_lobby ≡ true)
    × (o.0.account ≡ bob)
    × (o.1
        ≡ signed_in
            (server_signature made.server_key (auth_message bob (9 ∷ []) (8 ∷ []) salt 1000))
          ∷ welcome bob
          ∷ [])
unfolding make_credential
auth_msg-proof_frame_example =
    auth_msg-proof_frame world session account password refl refl session-open session-bob refl

auth_msg-in_lobby : (auth_msg world (proof_frame signing_in) session).0.in_lobby ≡ true
unfolding make_credential
auth_msg-in_lobby =
    (auth_msg-proof_frame world session account password refl refl session-open session-bob refl).0

abbrev door : Door
door = record { retail_hash = 77; require_auth = true }

abbrev arrival : Arrival
arrival = record { id = 3; session = session; in_auth = true }

dispatch-in_lobby :
    (dispatch door world (login_frame (proof_frame signing_in)) arrival).0.session.in_lobby ≡ true
unfolding dispatch move_on
dispatch-in_lobby = auth_msg-in_lobby

dispatch-IsAdmitted_example :
    IsAdmitted world
      (login_frame (proof_frame signing_in))
      arrival
      (dispatch door world (login_frame (proof_frame signing_in)) arrival).0
dispatch-IsAdmitted_example =
    dispatch-IsAdmitted door world arrival refl (login_frame (proof_frame signing_in)) refl
      dispatch-in_lobby

-- The same player before the first frame of a login, and the server with random bytes.
abbrev beginner : Session
beginner = record session { pend = fresh_pend [] [] }

abbrev drawing : World
drawing = record world { nonce = some (8 ∷ []) }

beginner-open : login_locked beginner bob 970000 ≡ 0
unfolding login_locked locked_for lookup
beginner-open = refl

bob-valid : valid_username bob ≡ true
unfolding valid_username is_between is_alnum is_name_byte name_bytes
bob-valid = refl

auth_msg-whole_login_example :
    let first = auth_msg drawing (begin_frame (begin_payload bob zeros)) beginner in
    let payload = proof_payload password bob zeros (8 ∷ []) salt 1000 in
    let second = auth_msg world (proof_frame payload) first.0 in
    (first.1 ≡ challenge false salt 1000 (8 ∷ []) ∷ [])
    × (second.0.in_lobby ≡ true)
    × (second.0.account ≡ bob)
unfolding make_credential
auth_msg-whole_login_example =
    auth_msg-whole_login beginner bob zeros (8 ∷ []) account drawing world password refl
      (omega arith) refl beginner-open beginner-open bob-valid refl session-bob refl
