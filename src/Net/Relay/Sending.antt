-- ===== src/Net/Relay/Sending.antt =====
-- What `mp_send` sends and keeps, and what the server's queue does with it.
use ta_engine.Common.{
  ℕ, ◌+◌, ◌-◌, ◌/◌, ◌≤◌, min, ◌≡◌, refl, sym, ap, ◌∙◌, inl, inr, Bool, true, false, not, ◌&&◌,
  Option, none, some, List, [], ◌∷◌, ◌++◌, map, append-nil, append_assoc, arith, ltb, ◌==◌,
  if◌then◌else◌, ltb→ge, gt→leb, ==_iff, Bool-cases, length, take, drop, length-append,
  take-append-drop, length-take, length-drop, drop-all, drop-drop,
}
use native.Mathlib.Nat.{min-le_left, min-le_right}
use ta_engine.Net.Command.{Command}
use ta_engine.Net.Relay.{
  Sender, Seat, cmd_queue_cap, cmd_send_window, accrue, advance_outbox, send_batch, mp_send, stamp,
  take_in, acknowledge,
}
use ta_engine.Net.Relay.Sorting.{mine}

abbrev pub queued : Sender → List Command
queued c = drop c.outbox_head c.outbox

abbrev pub payload : Option (List Command) → List Command
payload none = []
payload (some cs) = cs

-- A sender that is not catching up, with its head in the outbox and no more in flight than the
-- server's queue holds.
pub record IsSender (c : Sender) : Type 0 where
  pub caught_up : c.catch_up ≡ false
  pub head : c.outbox_head ≤ length c.outbox
  pub window : c.in_flight ≤ cmd_queue_cap

pub record Sends (c : Sender) (r : Option (List Command) × Sender) : Type 0 where
  pub split : queued c ≡ payload r.0 ++ queued r.1
  pub flight : r.1.in_flight ≡ c.in_flight + length (payload r.0)
  pub valid : IsSender r.1

accrue-queued :
    (c : Sender)
    → IsSender c
    → IsSender (accrue c) × (queued (accrue c) ≡ queued c) × ((accrue c).in_flight ≡ c.in_flight)
unfolding accrue
accrue-queued c v = elim (Bool-cases (c.net_tick == c.last_send_tick)) [
  | inl e ↦ simp e (v, refl, refl)
  | inr e ↦
      simp e (record { caught_up = v.caught_up; head = v.head; window = v.window }, refl, refl)
]

record Advanced (n : ℕ) (c d : Sender) : Type 0 where
  same_queue : queued d ≡ drop n (queued c)
  same_flight : d.in_flight ≡ c.in_flight
  same_phase : d.catch_up ≡ c.catch_up
  head : d.outbox_head ≤ length d.outbox

Advanced-if :
    (b : Bool) (n : ℕ) (c : Sender) {d e : Sender}
    → (b ≡ true → Advanced n c d)
    → (b ≡ false → Advanced n c e)
    → Advanced n c (if b then d else e)
Advanced-if true n c p q = p refl
Advanced-if false n c p q = q refl

advance_outbox-Advanced :
    (n : ℕ) (c : Sender) → c.outbox_head + n ≤ length c.outbox → Advanced n c (advance_outbox n c)
unfolding advance_outbox
advance_outbox-Advanced n c h =
    Advanced-if (c.outbox_head + n == length c.outbox) n c
      (λ e. record {
        same_queue = sym (
            drop-all n (queued c) (
              omega (
                arith,
                length-drop c.outbox_head c.outbox,
                (==_iff (c.outbox_head + n) (length c.outbox)).0 e,
              )));
        same_flight = refl;
        same_phase = refl;
        head = omega arith;
      })
      (λ _.
        Advanced-if (ltb (length c.outbox / 2) (c.outbox_head + n) && ltb 64 (c.outbox_head + n)) n
          c
          (λ _. record {
            same_queue = sym (drop-drop n c.outbox_head c.outbox);
            same_flight = refl;
            same_phase = refl;
            head = omega arith;
          })
          (λ _. record {
            same_queue = sym (drop-drop n c.outbox_head c.outbox);
            same_flight = refl;
            same_phase = refl;
            head = h;
          }))

cmd_send_window-le :
    (credit in_flight : ℕ) → cmd_send_window credit in_flight ≤ cmd_queue_cap - in_flight
unfolding cmd_send_window
cmd_send_window-le credit in_flight = ground arith

send_batch-Sends :
    (n : ℕ) (c : Sender)
    → IsSender c
    → n ≤ length (queued c)
    → n ≤ cmd_queue_cap - c.in_flight
    → Sends c (send_batch n c)
unfolding send_batch
send_batch-Sends n c v p w =
    let c1 = record c { credit = c.credit - n; in_flight = c.in_flight + n } in
    let a =
      advance_outbox-Advanced n c1 (omega (arith, v.head, length-drop c.outbox_head c.outbox)) in
    record {
      split =
          sym (take-append-drop n (queued c)) ∙ ap (◌++◌ (take n (queued c))) (sym a.same_queue);
      flight = a.same_flight ∙ ap (λ k. c.in_flight + k) (omega (arith, length-take n (queued c)));
      valid = record {
        caught_up = a.same_phase ∙ v.caught_up;
        head = a.head;
        window = omega (arith, a.same_flight, v.window);
      };
    }

Sends-if :
    (b : Bool) (c : Sender) {r r' : Option (List Command) × Sender}
    → (b ≡ true → Sends c r)
    → Sends c r'
    → Sends c (if b then r else r')
Sends-if true c p q = p refl
Sends-if false c p q = q

Sends-accrued :
    (c : Sender) (r : Option (List Command) × Sender) → IsSender c → Sends (accrue c) r → Sends c r
Sends-accrued c r v s =
    let (w, q, f) = accrue-queued c v in
    record {
      split = sym q ∙ s.split;
      flight = s.flight ∙ ap (λ k. k + length (payload r.0)) f;
      valid = s.valid;
    }

held-Sends : (c : Sender) → IsSender c → Sends c (none, c)
held-Sends c v = record { split = refl; flight = omega arith; valid = v }

pub mp_send-Sends : (c : Sender) → IsSender c → Sends c (mp_send c)
unfolding mp_send
mp_send-Sends c v =
    let d = accrue c in
    let (w, q, f) = accrue-queued c v in
    Sends-accrued c _ v (
      Sends-if
        (ltb 0 (length d.outbox - d.outbox_head)
          && (ltb 0 (cmd_send_window d.credit d.in_flight) && not d.catch_up))
        d
        (λ _.
          send_batch-Sends
            (min (length d.outbox - d.outbox_head) (cmd_send_window d.credit d.in_flight)) d w
            (omega (
              arith,
              length-drop d.outbox_head d.outbox,
              min-le_left (length d.outbox - d.outbox_head) (cmd_send_window d.credit d.in_flight),
            ))
            (omega (
              arith,
              min-le_right (length d.outbox - d.outbox_head) (cmd_send_window d.credit d.in_flight),
              cmd_send_window-le d.credit d.in_flight,
            )))
        (held-Sends d w))

-- A queue with room takes every command, stamped, in order, and drops none.
pub take_in-queue :
    (slot : ℕ) (cs : List Command) (s : Seat)
    → length s.queue + length cs ≤ cmd_queue_cap
    → (take_in slot cs s).queue ≡ s.queue ++ map (stamp slot) cs
      × ((take_in slot cs s).dropped ≡ s.dropped)
unfolding take_in
take_in-queue slot [] s h = (sym (append-nil _), refl)
take_in-queue slot (c ∷ cs) s h =
    let s' = record s { queue = s.queue ++ stamp slot c ∷ [] } in
    let (a, b) =
      take_in-queue slot cs s' (omega (arith, length-append s.queue (stamp slot c ∷ []))) in
    simp (gt→leb cmd_queue_cap (length s.queue) (omega arith))
      (a ∙ append_assoc s.queue (stamp slot c ∷ []) (map (stamp slot) cs), b)

-- Each own command of a bundle retires one in flight.
pub acknowledge-mine :
    (slot : ℕ) (cs : List Command) (n : ℕ) → acknowledge slot cs n ≡ n - length (mine slot cs)
unfolding acknowledge mine
acknowledge-mine slot [] n = omega arith
acknowledge-mine slot (c ∷ cs) n = elim (Bool-cases (c.player == slot)) [
  | inl e ↦ elim (Bool-cases (ltb 0 n)) [
    | inl f ↦ simp (e, f) (acknowledge-mine slot cs (n - 1) ∙ omega arith)
    | inr f ↦ simp (e, f) (acknowledge-mine slot cs n ∙ omega (arith, ltb→ge _ _ f))
  ]
  | inr e ↦ simp e (acknowledge-mine slot cs n)
]
