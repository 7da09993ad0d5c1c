-- ===== src/Net/Relay/Messages.antt =====
-- The message that carries a player's commands to the server.
use ta_engine.Common.{ℕ, ◌+◌, ◌-◌, ◌≡◌, List, [], ◌∷◌, ◌++◌, map, length, take}
use ta_engine.Net.Command.{Command, put_cmd}
use ta_engine.Net.Relay.{Seat, stamp, cmd_queue_cap}

cmd_bytes : List Command → List ℕ
cmd_bytes [] = []
cmd_bytes (c ∷ cs) = put_cmd c [] ++ cmd_bytes cs

-- How many more commands the queue of a seat takes.
abbrev pub room_in : Seat → ℕ
room_in s = cmd_queue_cap - length s.queue

-- What a seat becomes that is sent these commands: they are queued in their order, under the number of
-- the slot, up to the limit of the queue, and those behind it are counted as dropped.
pub record Queued (slot : ℕ) (cs : List Command) (s t : Seat) : Type 0 where
  pub queued : t.queue ≡ s.queue ++ map (stamp slot) (take (room_in s) cs)
  pub counted : t.dropped ≡ s.dropped + (length cs - room_in s)
