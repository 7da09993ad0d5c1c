-- ===== src/Net/Relay.antt =====
-- The path of one player's commands: the outbox and the send limits of `GameView::mpStep` in
-- src/client/gameview_net.cpp, `cmdSendCredit` and `cmdSendWindow` of src/net/protocol.h, and the queue
-- and the bundle of `PlayerCommands` and `closeTick` in src/server/server.cpp, without the input delay
-- that the environment can ask for.
pub mod Sorting
pub mod Sending
pub mod Flow
pub mod Own
pub mod Delivery
pub mod Messages
use ta_engine.Common.{
  ℕ, zero, suc, ◌+◌, ◌-◌, ◌*◌, ◌/◌, ◌%◌, ◌^◌, ◌≤◌, ◌<◌, min, max, ◌≡◌, refl, sym, ap, ◌∙◌, subst,
  ◌≢◌, ◌↔◌, ◌⊎◌, inl, inr, Bool, true, false, not, ◌&&◌, ◌||◌, Option, none, some, List, [], ◌∷◌,
  ◌++◌, map, append-nil, append_assoc, arith, ltb, leb, ◌==◌, if◌then◌else◌, ltb→lt, lt→ltb, ge→ltb,
  ltb→ge, leb→le, le→leb, gt→leb, ==_iff, ==_refl, tests, Bool-cases, Option-cases, length,
  get_elem?, get_or, set, take, drop, replicate, All, length-append, length-set, take-append-drop,
  length-take, length-drop, length-replicate, take-append_self, drop-append_self, take-all,
  drop-all, drop-append, drop-nil, take-append, drop-drop,
}
use ta_engine.Net.Wire.{Reader, get_u32}
use ta_engine.Net.Command.{Command, get_cmd}

abbrev pub cmd_cap_per_tick : ℕ
cmd_cap_per_tick = 64

abbrev pub cmd_queue_cap : ℕ
cmd_queue_cap = 8 * cmd_cap_per_tick

-- The credit of a client is never negative.
unfoldable pub cmd_send_credit : ℕ → ℕ → ℕ
cmd_send_credit have ticks =
    let c = have + ticks * cmd_cap_per_tick in if ltb cmd_queue_cap c then cmd_queue_cap else c

-- `room` is negative where this is 0 for it, and the answer is 0 in both.
unfoldable pub cmd_send_window : ℕ → ℕ → ℕ
cmd_send_window credit in_flight =
    let room = cmd_queue_cap - in_flight in if ltb credit room then credit else room

-- What `mpStep` keeps. `outbox_head` counts the commands of `outbox` that are sent.
pub record Sender : Type 0 where
  pub outbox : List Command
  pub outbox_head : ℕ
  pub credit : ℕ
  pub in_flight : ℕ
  pub net_tick : ℕ
  pub last_send_tick : ℕ
  pub catch_up : Bool

unfoldable pub accrue : Sender → Sender
accrue c = if c.net_tick == c.last_send_tick then c else record c {
  credit = cmd_send_credit c.credit ((c.net_tick + 2 ^ 32 - c.last_send_tick) % 2 ^ 32);
  last_send_tick = c.net_tick;
}

-- The outbox with `n` more commands sent.
unfoldable pub advance_outbox : ℕ → Sender → Sender
advance_outbox n c =
    let head = c.outbox_head + n in
    if head == length c.outbox
    then record c { outbox = []; outbox_head = 0 }
    else (if ltb (length c.outbox / 2) head && ltb 64 head
        then record c { outbox = drop head c.outbox; outbox_head = 0 }
        else record c { outbox_head = head })

unfoldable pub send_batch : ℕ → Sender → Option (List Command) × Sender
send_batch n c = (
  some (take n (drop c.outbox_head c.outbox)),
  advance_outbox n (record c { credit = c.credit - n; in_flight = c.in_flight + n }),
)

-- The sending part of `mpStep`: what it gives to `sendCommands`.
unfoldable pub mp_send : Sender → Option (List Command) × Sender
mp_send c0 =
    let c = accrue c0 in
    let sendable = cmd_send_window c.credit c.in_flight in
    let pending = length c.outbox - c.outbox_head in
    if ltb 0 pending && (ltb 0 sendable && not c.catch_up)
    then send_batch (min pending sendable) c
    else (none, c)

-- What the server keeps for a client.
pub record Seat : Type 0 where
  pub queue : List Command
  pub dropped : ℕ

unfoldable pub stamp : ℕ → Command → Command
stamp slot c = record c { player = slot % 256 }

-- The loop of `PlayerCommands` over the commands that are read.
unfoldable pub take_in : ℕ → List Command → Seat → Seat
take_in slot [] s = s
take_in slot (c ∷ cs) s = take_in slot cs (
    if leb cmd_queue_cap (length s.queue)
    then record s { dropped = s.dropped + 1 }
    else record s { queue = s.queue ++ stamp slot c ∷ [] })

-- Its reads: up to the first that fails.
unfoldable pub get_commands : ℕ → Reader → List Command
get_commands zero r = []
get_commands (suc n) r = elim r.ok [
  | false ↦ []
  | true ↦ elim (get_cmd r).1.ok [
    | false ↦ []
    | true ↦ (get_cmd r).0 ∷ get_commands n (get_cmd r).1
  ]
]

unfoldable pub receive_commands : ℕ → List ℕ → Seat → Seat
receive_commands slot payload s =
    let (n, r) = get_u32 (record { p = payload; ok = true }) in take_in slot (get_commands n r) s

-- At most `kCmdCapPerTick` commands leave the queue for the bundle.
unfoldable pub close_seat : Seat → List Command × Seat
close_seat s = (take cmd_cap_per_tick s.queue, record s { queue = drop cmd_cap_per_tick s.queue })

-- `std::stable_sort` by player.
unfoldable pub insert_by_player : Command → List Command → List Command
insert_by_player c [] = c ∷ []
insert_by_player c (d ∷ ds) =
    let rest = insert_by_player c ds in if ltb d.player c.player then d ∷ rest else c ∷ d ∷ ds

unfoldable pub sort_by_player : List Command → List Command
sort_by_player [] = []
sort_by_player (c ∷ cs) = insert_by_player c (sort_by_player cs)

-- The commands of a bundle as `mpStep` counts them: one of its own acknowledges one in flight.
unfoldable pub acknowledge : ℕ → List Command → ℕ → ℕ
acknowledge slot [] in_flight = in_flight
acknowledge slot (c ∷ cs) in_flight =
    acknowledge slot cs (if c.player == slot && ltb 0 in_flight then in_flight - 1 else in_flight)

unfoldable pub apply_bundle : ℕ → List Command → Sender → Sender
apply_bundle slot cmds c = record c {
  in_flight = if c.catch_up then c.in_flight else acknowledge slot cmds c.in_flight;
  net_tick = (c.net_tick + 1) % 2 ^ 32;
}
