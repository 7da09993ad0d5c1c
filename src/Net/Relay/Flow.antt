-- ===== src/Net/Relay/Flow.antt =====
-- The relay as a step relation: a player's commands from the outbox over the uplink, the server's
-- queue and the bundles back to every peer, with anything that the other players and the AI send.
use ta_engine.Common.{ℕ, ◌≡◌, false, none, some, List, [], ◌∷◌, ◌++◌}
use ta_engine.Net.Command.{Command}
use ta_engine.Net.Relay.{
  Sender, Seat, cmd_cap_per_tick, mp_send, take_in, close_seat, sort_by_player, apply_bundle,
}
use ta_engine.Net.Relay.Sorting.{mine}

-- `uplink` holds the messages on their way to the server, `downlink` the bundles on their way back.
-- `ordered` is every command given to the outbox, `applied` what has come back of this player.
pub record Relay : Type 0 where
  pub sender : Sender
  pub uplink : List (List Command)
  pub seat : Seat
  pub downlink : List (List Command)
  pub ordered : List Command
  pub applied : List Command

module _ (slot : ℕ) where
  pub data Step : Relay → Relay → Type 0 where
    order :
        (s : Relay) (c : Command)
        → Step s (record s {
          sender = record s.sender { outbox = s.sender.outbox ++ c ∷ [] };
          ordered = s.ordered ++ c ∷ [];
        })
    send :
        (s : Relay) (m : List Command) (c : Sender)
        → mp_send s.sender ≡ (some m, c)
        → Step s (record s { sender = c; uplink = s.uplink ++ m ∷ [] })
    hold :
        (s : Relay) (c : Sender) → mp_send s.sender ≡ (none, c) → Step s (record s { sender = c })
    arrive :
        (s : Relay) (m : List Command) (rest : List (List Command))
        → s.uplink ≡ m ∷ rest
        → Step s (record s { uplink = rest; seat = take_in slot m s.seat })
    close :
        (s : Relay) (before after : List Command)
        → mine slot before ≡ []
        → mine slot after ≡ []
        → Step s (record s {
          seat = (close_seat s.seat).1;
          downlink = s.downlink ++ sort_by_player (before ++ ((close_seat s.seat).0 ++ after)) ∷ [];
        })
    apply :
        (s : Relay) (b : List Command) (rest : List (List Command))
        → s.downlink ≡ b ∷ rest
        → Step s (record s {
          sender = apply_bundle slot b s.sender;
          downlink = rest;
          applied = s.applied ++ mine slot b;
        })

  pub data Steps : Relay → Relay → Type 0 where
    done : (s : Relay) → Steps s s
    more : {a b c : Relay} → Step a b → Steps b c → Steps a c

  -- The lists of a list, one behind the other.
  unfoldable pub flat : List (List Command) → List Command
  flat [] = []
  flat (x ∷ xs) = x ++ flat xs

  -- A sender that has sent nothing, a server that holds nothing of it, and nothing on its way.
  abbrev pub fresh : Relay
  fresh = record {
    sender = record {
      outbox = [];
      outbox_head = 0;
      credit = cmd_cap_per_tick;
      in_flight = 0;
      net_tick = 0;
      last_send_tick = 0;
      catch_up = false;
    };
    uplink = [];
    seat = record { queue = []; dropped = 0 };
    downlink = [];
    ordered = [];
    applied = [];
  }
