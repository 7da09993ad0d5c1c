-- ===== src/Examples/Challenges.antt =====
-- A client that asks for a login and gets its challenge.
use ta_engine.Common.{◌≡◌, refl, Bool, true, false, some, ℕ, List, [], ◌∷◌, replicate}
use ta_engine.Common.Bytes.{lookup}
use ta_engine.Net.Wire.{get_bytes, get_str}
use ta_engine.Auth.{
  valid_username, fold_username, is_between, is_alnum, to_lower, is_name_byte, name_bytes,
}
use ta_engine.Accounts.{AccountStore, locked_for, find_account}
use ta_engine.Auth.Session.{
  login_locked, World, fresh_pend, begin_frame, auth_msg, auth_begin, begin_login, challenge_for,
  send_challenge,
}
use ta_engine.Auth.Handshake.{Door, Arrival, ClientFrame, login_frame, dispatch, move_on}
use ta_engine.Auth.Nonces.{Drew, run_frames, run_frames-challenged}

abbrev unread : AccountStore → Bool
unread st = true

abbrev newcomer : Arrival
newcomer = record {
  id = 3;
  session = record {
    pend = fresh_pend [] [];
    account = [];
    name = [];
    peer = [];
    in_lobby = false;
    dropped = false;
    throttle = [];
    accounts = [];
  };
  in_auth = true;
}

-- The name `Bob` and a nonce of zeros.
abbrev asking : List ℕ
asking = 3 ∷ 0 ∷ b'B' ∷ b'o' ∷ b'b' ∷ 32 ∷ 0 ∷ replicate 32 0

abbrev drawing : World
drawing = record { now = 5; nonce = some (8 ∷ []); new_salt = some (1 ∷ []); save = unread }

abbrev entrance : Door
entrance = record { retail_hash = 77; require_auth = true }

abbrev frames : List (World × ClientFrame)
frames = (drawing, login_frame (begin_frame asking)) ∷ []

newcomer-challenged : (run_frames entrance frames newcomer).session.pend.challenged ≡ true
unfolding run_frames dispatch move_on auth_msg auth_begin begin_login challenge_for send_challenge
    get_bytes get_str login_locked locked_for lookup valid_username fold_username is_between
    is_alnum to_lower is_name_byte name_bytes find_account
newcomer-challenged = refl

run_frames-challenged_example :
    Drew (run_frames entrance frames newcomer).session.pend.server_nonce frames
run_frames-challenged_example =
    run_frames-challenged entrance frames newcomer refl newcomer-challenged
