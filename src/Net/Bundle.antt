-- ===== src/Net/Bundle.antt =====
-- The tick bundle: `Event` of src/net/protocol.h, `Bundle` of src/net/client.h, what
-- `Server::closeTick` writes and what `MpClient::onFrame` reads; and the message of
-- `MpClient::sendCommands`.
pub mod RoundTrip
use ta_engine.Common.{
  ℕ, zero, suc, ◌+◌, ◌-◌, ◌*◌, ◌/◌, ◌%◌, ◌^◌, ◌≤◌, ◌<◌, min, max, ◌≡◌, refl, sym, ap, ◌∙◌, subst,
  ◌≢◌, ◌↔◌, ◌⊎◌, inl, inr, Bool, true, false, not, ◌&&◌, ◌||◌, Option, none, some, List, [], ◌∷◌,
  ◌++◌, map, append-nil, append_assoc, arith, ltb, leb, ◌==◌, if◌then◌else◌, ltb→lt, lt→ltb, ge→ltb,
  ltb→ge, leb→le, le→leb, gt→leb, ==_iff, ==_refl, tests, Bool-cases, Option-cases, length,
  get_elem?, get_or, set, take, drop, replicate, All, length-append, length-set, take-append-drop,
  length-take, length-drop, length-replicate, take-append_self, drop-append_self, take-all,
  drop-all, drop-append, drop-nil, take-append, drop-drop,
}
use ta_engine.Net.Wire.{
  Put, ◌>>◌, put_u8, put_u32, put_u64, put_list, Reader, Get, ◌>>=◌, pure, get_u8, get_u32, get_u64,
  get_list,
}
use ta_engine.Net.Command.{Command, put_cmd, get_cmd}

-- `kind` is the number under `Event::Kind`.
pub record Event : Type 0 where
  pub kind : ℕ
  pub player : ℕ

pub record Bundle : Type 0 where
  pub cmds : List Command
  pub events : List Event

unfoldable pub put_event : Event → Put
put_event e = do put_u8 e.kind; put_u8 e.player

unfoldable pub get_event : Get Event
get_event = do kind ← get_u8; player ← get_u8; pure (record { kind = kind; player = player })

-- The payload of `Msg::TickBundle`.
unfoldable pub put_bundle : ℕ → Bundle → Put
put_bundle tick b = do
  put_u32 tick
  put_u32 (length b.cmds)
  put_list put_cmd b.cmds
  put_u32 (length b.events)
  put_list put_event b.events

unfoldable pub get_bundle : Get (ℕ × Bundle)
get_bundle = do
  tick ← get_u32
  nc ← get_u32
  cmds ← get_list nc get_cmd []
  ne ← get_u32
  events ← get_list ne get_event []
  pure (tick, record { cmds = cmds; events = events })

-- `case Msg::TickBundle`: a bundle is kept only if every read succeeded.
unfoldable pub receive_bundle : List ℕ → Option (ℕ × Bundle)
receive_bundle payload =
    let (b, r) = get_bundle (record { p = payload; ok = true }) in if r.ok then some b else none

-- The payload of `Msg::PlayerCommands`.
unfoldable pub put_commands : List Command → Put
put_commands cmds = do put_u32 (length cmds); put_list put_cmd cmds

-- `sendCommands`: the payload that is sent, if any is.
unfoldable pub send_commands : List Command → Option (List ℕ)
send_commands [] = none
send_commands (c ∷ cmds) = some (put_commands (c ∷ cmds) [])

-- The payload of `Msg::StateHash`, and its reader.
unfoldable pub put_hash : ℕ → ℕ → Put
put_hash tick hash = do put_u32 tick; put_u64 hash

unfoldable pub get_hash : Get (ℕ × ℕ)
get_hash = do tick ← get_u32; hash ← get_u64; pure (tick, hash)
