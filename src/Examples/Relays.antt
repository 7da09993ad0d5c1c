-- ===== src/Examples/Relays.antt =====
-- Player 2 orders twice, the server closes a tick with another player's command, and the bundle comes back.
use ta_engine.Common.{ℕ, ◌≤◌, ◌≡◌, refl, List, [], ◌∷◌, ◌++◌, map, arith, length, replicate}
use ta_engine.Net.Relay.{Seat}
use ta_engine.Net.Command.{Command}
use ta_engine.Net.Relay.{
  cmd_queue_cap, mp_send, accrue, send_batch, advance_outbox, cmd_send_window, stamp, take_in,
  close_seat, sort_by_player, insert_by_player, apply_bundle, acknowledge,
}
use ta_engine.Net.Relay.Sorting.{mine}
use ta_engine.Net.Relay.Flow.{Relay, Steps, done, more, order, send, arrive, close, apply, fresh}
use ta_engine.Net.Relay.Delivery.{Steps-in_order, Steps-all_applied}

abbrev move_to : ℕ → ℕ → Command
move_to player unit = record {
  kind = 0;
  player = player;
  unit_id = unit;
  target_id = 0;
  x = 0;
  z = 0;
  queue = 0;
  type = replicate 16 0;
}

played : (t : Relay) × Steps 2 (fresh 2) t
unfolding mp_send accrue send_batch advance_outbox cmd_send_window mine close_seat take_in
played = (
  _,
  more (order _ (move_to 0 7)) (
      more (order _ (move_to 0 8)) (
        more (send _ _ _ refl) (
          more (arrive _ _ _ refl) (
            more (close _ (move_to 5 1 ∷ []) (move_to 1 2 ∷ []) refl refl)
              (more (apply _ _ _ refl) (done _)))))),
)

Steps-in_order_example :
    (played.0.seat.dropped ≡ 0)
    × (length played.0.seat.queue ≤ cmd_queue_cap)
    × ((waiting : List Command) × (played.0.applied ++ waiting
          ≡ map (stamp 2) (move_to 0 7 ∷ move_to 0 8 ∷ [])))
unfolding played
Steps-in_order_example = Steps-in_order 2 (omega arith) played.1

Steps-all_applied_example : played.0.applied ≡ map (stamp 2) (move_to 0 7 ∷ move_to 0 8 ∷ [])
unfolding mp_send accrue send_batch advance_outbox cmd_send_window mine close_seat take_in
    sort_by_player insert_by_player apply_bundle acknowledge stamp played
Steps-all_applied_example = Steps-all_applied 2 (omega arith) played.1 refl refl

-- A queue with two places left, for three commands.
abbrev crowded : Seat
crowded = record { queue = replicate 510 (move_to 2 1); dropped = 0 }

abbrev three : List Command
three = move_to 0 7 ∷ move_to 0 8 ∷ move_to 0 9 ∷ []
