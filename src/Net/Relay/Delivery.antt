-- ===== src/Net/Relay/Delivery.antt =====
-- No command of a player is lost, doubled or reordered on its way through the relay.
use ta_engine.Common.{
  ℕ, suc, ◌+◌, ◌-◌, ◌≤◌, ◌<◌, ◌≡◌, refl, sym, ap, ◌∙◌, subst, Option, none, some, List, [], ◌∷◌,
  ◌++◌, map, append-nil, append_assoc, arith, length, take, drop, All, length-append,
  take-append-drop, length-take, length-drop, drop-append,
}
use ta_engine.Net.Command.{Command}
use ta_engine.Net.Relay.{
  Sender, cmd_queue_cap, cmd_cap_per_tick, stamp, take_in, close_seat, sort_by_player, apply_bundle,
}
use ta_engine.Net.Relay.Sorting.{mine, mine-sort_by_player, mine-append}
use ta_engine.Net.Relay.Sending.{
  queued, payload, IsSender, Sends, mp_send-Sends, take_in-queue, acknowledge-mine,
}
use ta_engine.Net.Relay.Flow.{
  Relay, Step, order, send, hold, arrive, close, apply, Steps, done, more, flat, fresh,
}
use ta_engine.Net.Relay.Own.{
  IsOwn, flat-snoc, map-append, mine-own, All-append, All-take, All-drop, sent, back,
}

module _ (slot : ℕ) where
  pub record Flows (s : Relay) : Type 0 where
    pub sender : IsSender s.sender
    pub own : All (IsOwn slot) s.seat.queue
    pub in_flight :
        s.sender.in_flight ≡ length (sent slot s) + (length s.seat.queue + length (back slot s))
    pub none_dropped : s.seat.dropped ≡ 0
    pub in_order :
        s.applied
          ++ (back slot s ++ (s.seat.queue ++ map (stamp slot) (sent slot s ++ queued s.sender)))
        ≡ map (stamp slot) s.ordered

  snoc_order :
      (a b q u k : List Command) (c : Command)
      → a ++ (b ++ (q ++ map (stamp slot) (u ++ (k ++ c ∷ []))))
        ≡ (a ++ (b ++ (q ++ map (stamp slot) (u ++ k)))) ++ map (stamp slot) (c ∷ [])
  snoc_order a b q u k c = simp (map-append slot, append_assoc)

  order-Flows :
      (s : Relay) (c : Command)
      → Flows s
      → Flows (record s {
        sender = record s.sender { outbox = s.sender.outbox ++ c ∷ [] };
        ordered = s.ordered ++ c ∷ [];
      })
  order-Flows s c v = record {
    sender = record {
      caught_up = v.sender.caught_up;
      head = omega (arith, v.sender.head, length-append s.sender.outbox (c ∷ []));
      window = v.sender.window;
    };
    own = v.own;
    in_flight = v.in_flight;
    none_dropped = v.none_dropped;
    in_order =
        ap
          (λ k. s.applied ++ (back slot s ++ (s.seat.queue ++ map (stamp slot) (sent slot s ++ k))))
          (drop-append s.sender.outbox_head s.sender.outbox (c ∷ []) v.sender.head)
        ∙ snoc_order s.applied (back slot s) s.seat.queue (sent slot s) (queued s.sender) c
        ∙ ap (λ z. z ++ map (stamp slot) (c ∷ [])) v.in_order
        ∙ sym (map-append slot (stamp slot) s.ordered (c ∷ []));
  }

  send-Flows :
      (s : Relay) (r : Option (List Command) × Sender)
      → Sends s.sender r
      → (up : List (List Command)) → flat slot up ≡ sent slot s ++ payload r.0
      → Flows s
      → Flows (record s { sender = r.1; uplink = up })
  send-Flows s r k up e v = record {
    sender = k.valid;
    own = v.own;
    in_flight =
        omega
          (arith, k.flight, v.in_flight, ap length e, length-append (sent slot s) (payload r.0));
    none_dropped = v.none_dropped;
    in_order =
        ap (λ w. s.applied ++ (back slot s ++ (s.seat.queue ++ map (stamp slot) w)))
          (ap (λ u. u ++ queued r.1) e
            ∙ append_assoc (sent slot s) (payload r.0) (queued r.1)
            ∙ ap (◌++◌ (sent slot s)) (sym k.split))
        ∙ v.in_order;
  }

  arrive_order :
      (a b q m u k : List Command)
      → a ++ (b ++ ((q ++ map (stamp slot) m) ++ map (stamp slot) (u ++ k)))
        ≡ a ++ (b ++ (q ++ map (stamp slot) ((m ++ u) ++ k)))
  arrive_order a b q m u k = simp (map-append slot, append_assoc)

  close_order :
      (a b q w : List Command)
      → a ++ ((b ++ take cmd_cap_per_tick q) ++ (drop cmd_cap_per_tick q ++ w))
        ≡ a ++ (b ++ (q ++ w))
  close_order a b q w =
      ap (λ x. a ++ x)
        (append_assoc b (take cmd_cap_per_tick q) _
          ∙ ap (λ x. b ++ x)
              (sym (append_assoc (take cmd_cap_per_tick q) (drop cmd_cap_per_tick q) w)
                ∙ ap (λ x. x ++ w) (take-append-drop cmd_cap_per_tick q)))

  length-map : (f : Command → Command) (xs : List Command) → length (map f xs) ≡ length xs
  length-map f [] = refl
  length-map f (x ∷ xs) = ap suc (length-map f xs)

  module _ (fits : slot < 256) where
    All-stamp : (cs : List Command) → All (IsOwn slot) (map (stamp slot) cs)
    unfolding stamp
    All-stamp [] = tt
    All-stamp (c ∷ cs) = (record { player = omega arith }, All-stamp cs)

    arrive-Flows :
        (s : Relay) (m : List Command) (up : List (List Command))
        → sent slot s ≡ m ++ flat slot up
        → Flows s
        → Flows (record s { uplink = up; seat = take_in slot m s.seat })
    arrive-Flows s m up e v =
        let (q, d) = take_in-queue slot m s.seat (
          omega
            (arith, v.in_flight, v.sender.window, ap length e, length-append m (flat slot up))) in
        record {
          sender = v.sender;
          own = rw q (All-append slot s.seat.queue (map (stamp slot) m) v.own (All-stamp m));
          in_flight = rw q (
              omega (
                arith,
                v.in_flight,
                ap length e,
                length-append m (flat slot up),
                length-append s.seat.queue (map (stamp slot) m),
                length-map (stamp slot) m,
              ));
          none_dropped = d ∙ v.none_dropped;
          in_order = rw q (
              arrive_order s.applied (back slot s) s.seat.queue m (flat slot up) (queued s.sender)
              ∙ ap
                  (λ u.
                    s.applied
                    ++ (back slot s ++ (s.seat.queue ++ map (stamp slot) (u ++ queued s.sender))))
                  (sym e)
              ∙ v.in_order);
        }

    bundle-mine :
        (q before after : List Command)
        → All (IsOwn slot) q
        → mine slot before ≡ []
        → mine slot after ≡ []
        → mine slot (sort_by_player (before ++ (q ++ after))) ≡ q
    bundle-mine q before after h b a =
        mine-sort_by_player slot _
        ∙ mine-append slot before (q ++ after)
        ∙ rw b (mine-append slot q after ∙ rw a (append-nil _ ∙ mine-own slot q h))

    close-Flows :
        (s : Relay) (b : List Command) (down : List (List Command))
        → mine slot b ≡ take cmd_cap_per_tick s.seat.queue
        → flat slot down ≡ flat slot s.downlink ++ b
        → Flows s
        → Flows (record s { seat = (close_seat s.seat).1; downlink = down })
    unfolding close_seat
    close-Flows s b down e f v =
        let g : mine slot (flat slot down) ≡ back slot s ++ take cmd_cap_per_tick s.seat.queue =
          ap (mine slot) f
          ∙ mine-append slot (flat slot s.downlink) b
          ∙ ap (◌++◌ (back slot s)) e in
        record {
          sender = v.sender;
          own = All-drop slot cmd_cap_per_tick s.seat.queue v.own;
          in_flight = rw g (
              omega (
                arith,
                v.in_flight,
                length-append (back slot s) (take cmd_cap_per_tick s.seat.queue),
                length-take cmd_cap_per_tick s.seat.queue,
                length-drop cmd_cap_per_tick s.seat.queue,
              ));
          none_dropped = v.none_dropped;
          in_order = rw g (
              close_order s.applied (back slot s) s.seat.queue
                (map (stamp slot) (sent slot s ++ queued s.sender))
              ∙ v.in_order);
        }

    apply-Flows :
        (s : Relay) (b : List Command) (down : List (List Command))
        → flat slot s.downlink ≡ b ++ flat slot down
        → Flows s
        → Flows (record s {
          sender = apply_bundle slot b s.sender;
          downlink = down;
          applied = s.applied ++ mine slot b;
        })
    unfolding apply_bundle
    apply-Flows s b down e v =
        let g : back slot s ≡ mine slot b ++ mine slot (flat slot down) =
          ap (mine slot) e ∙ mine-append slot b (flat slot down) in
        let n : (apply_bundle slot b s.sender).in_flight
            ≡ s.sender.in_flight - length (mine slot b) =
          rw (v.sender.caught_up) (acknowledge-mine slot b s.sender.in_flight) in
        record {
          sender = record {
            caught_up = v.sender.caught_up;
            head = v.sender.head;
            window = omega (arith, n, v.sender.window);
          };
          own = v.own;
          in_flight =
              n
              ∙ omega (
                arith,
                v.in_flight,
                ap length g,
                length-append (mine slot b) (mine slot (flat slot down)),
              );
          none_dropped = v.none_dropped;
          in_order = simp append_assoc (
              ap (λ w. s.applied ++ w)
                (sym (append_assoc (mine slot b) (mine slot (flat slot down)) _)
                  ∙ ap
                      (λ w.
                        w ++ (s.seat.queue ++ map (stamp slot) (sent slot s ++ queued s.sender)))
                      (sym g))
              ∙ v.in_order);
        }

    step-Flows : {s t : Relay} → Step slot s t → Flows s → Flows t
    unfolding close_seat flat
    step-Flows (order s c) v = order-Flows s c v
    step-Flows (send s m c e) v =
        send-Flows s (some m, c) (subst (Sends s.sender) e (mp_send-Sends s.sender v.sender)) _
          (flat-snoc slot s.uplink m) v
    step-Flows (hold s c e) v =
        send-Flows s (none, c) (subst (Sends s.sender) e (mp_send-Sends s.sender v.sender)) s.uplink
          (sym (append-nil _)) v
    step-Flows (arrive s m rest e) v = arrive-Flows s m rest (ap (flat slot) e) v
    step-Flows (close s before after b a) v =
        close-Flows s _ _
          (bundle-mine (take cmd_cap_per_tick s.seat.queue) before after
            (All-take slot cmd_cap_per_tick s.seat.queue v.own) b a)
          (flat-snoc slot s.downlink _) v
    step-Flows (apply s b rest e) v = apply-Flows s b rest (ap (flat slot) e) v

    steps-Flows : {s t : Relay} → Steps slot s t → Flows s → Flows t
    steps-Flows (done s) v = v
    steps-Flows (more step steps) v = steps-Flows steps (step-Flows step v)

    fresh-Flows : Flows (fresh slot)
    unfolding flat mine
    fresh-Flows = record {
      sender = record { caught_up = refl; head = omega arith; window = omega arith };
      own = tt;
      in_flight = refl;
      none_dropped = refl;
      in_order = refl;
    }

    -- With a slot below 256, after any steps from the fresh state, whatever the other players and the AI send and however the
    -- messages are delayed, the server has dropped no command and its queue is within its limit, and
    -- what has come back of this player is a front of what was ordered, in order, each stamped with
    -- its slot.
    pub Steps-in_order :
        {t : Relay}
        → Steps slot (fresh slot) t
        → (t.seat.dropped ≡ 0)
          × (length t.seat.queue ≤ cmd_queue_cap)
          × ((waiting : List Command) × (t.applied ++ waiting ≡ map (stamp slot) t.ordered))
    Steps-in_order steps =
        let v = steps-Flows steps fresh-Flows in
        (v.none_dropped, omega (arith, v.in_flight, v.sender.window), (_, v.in_order))

    no_bytes : (xs : List Command) → length xs ≡ 0 → xs ≡ []
    no_bytes [] h = refl
    no_bytes (x ∷ xs) h = absurd (omega arith)

    -- With a slot below 256, after any steps from the fresh state to one where the outbox is sent and
    -- nothing is in flight, exactly what was ordered has come back.
    pub Steps-all_applied :
        {t : Relay}
        → Steps slot (fresh slot) t
        → queued t.sender ≡ []
        → t.sender.in_flight ≡ 0
        → t.applied ≡ map (stamp slot) t.ordered
    Steps-all_applied {t} steps q f =
        let v = steps-Flows steps fresh-Flows in
        let u = no_bytes (sent slot t) (omega (arith, v.in_flight)) in
        let w = no_bytes t.seat.queue (omega (arith, v.in_flight)) in
        let b = no_bytes (back slot t) (omega (arith, v.in_flight)) in
        sym (append-nil t.applied)
        ∙ ap (λ x. t.applied ++ x)
            (sym (
              ap (λ x. x ++ (t.seat.queue ++ map (stamp slot) (sent slot t ++ queued t.sender))) b
              ∙ ap (λ x. x ++ map (stamp slot) (sent slot t ++ queued t.sender)) w
              ∙ ap (λ x. map (stamp slot) (x ++ queued t.sender)) u
              ∙ ap (map (stamp slot)) q))
        ∙ v.in_order
