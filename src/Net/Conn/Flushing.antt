-- ===== src/Net/Conn/Flushing.antt =====
-- `flushWrite` of src/net/conn.cpp.
use ta_engine.Common.{
  ℕ, zero, suc, ◌+◌, ◌≤◌, ◌≡◌, refl, sym, ap, ◌∙◌, inl, inr, Bool, true, false, Option, List, [],
  ◌∷◌, ◌++◌, append-nil, append_assoc, arith, if◌then◌else◌, ltb→lt, ltb→ge, Bool-cases, length,
  take, drop, All, take-append-drop, length-drop, drop-all, drop-drop,
}
use ta_engine.Net.Conn.{
  Conn, Reason, compact_tx, taken, refused, flush_loop, clear_tx, flush_write, want_write,
  SendAnswer, took, send_blocked, send_refused, Flushed,
}
use ta_engine.Net.Conn.Buffers.{IsConn, unsent}

unsent-compact_tx : (c : Conn) → unsent (compact_tx c) ≡ unsent c
unfolding compact_tx
unsent-compact_tx c = ground arith

compact_tx-IsConn : {c : Conn} → IsConn c → IsConn (compact_tx c)
unfolding compact_tx
compact_tx-IsConn v = ground arith

unsent-clear_tx : (c : Conn) → unsent (clear_tx c) ≡ unsent c
unfolding clear_tx
unsent-clear_tx c = ground (arith, drop-all c.tx_off c.tx_buf)

clear_tx-IsConn : {c : Conn} → IsConn c → IsConn (clear_tx c)
unfolding clear_tx
clear_tx-IsConn v = ground arith

-- What has gone out with what is left is what there was.
record Kept (c : Conn) (f : Flushed) : Type 0 where
  bytes_kept : f.sent ++ unsent f.conn ≡ unsent c
  valid : IsConn f.conn

flush_round :
    (c : Conn) (k : ℕ) (f : Flushed)
    → Kept (record c { tx_off = c.tx_off + k }) f
    → Kept c (record f { sent = take k (drop c.tx_off c.tx_buf) ++ f.sent })
flush_round c k f s = record {
  bytes_kept =
      append_assoc _ f.sent (unsent f.conn)
      ∙ ap (◌++◌ (take k (unsent c))) (s.bytes_kept ∙ sym (drop-drop k c.tx_off c.tx_buf))
      ∙ take-append-drop k (unsent c);
  valid = s.valid;
}

Kept-if : (c : Conn) (b : Bool) {f g : Flushed} → Kept c f → Kept c g → Kept c (if b then f else g)
Kept-if c true p q = p
Kept-if c false p q = q

Kept-same :
    (c : Conn) {why : Option Reason} {d : Bool}
    → IsConn c
    → Kept c (record { done = d; sent = []; conn = record c { err = why } })
Kept-same c v = record { bytes_kept = refl; valid = record { rx = v.rx; tx = v.tx } }

taken-le : (n : ℕ) (c : Conn) → IsConn c → c.tx_off + taken n c ≤ length c.tx_buf
unfolding taken
taken-le n c v = omega arith

flush_loop-Kept : (answers : List SendAnswer) (c : Conn) → IsConn c → Kept c (flush_loop answers c)
unfolding flush_loop refused
flush_loop-Kept [] c v = Kept-same c v
flush_loop-Kept (send_blocked ∷ more) c v = Kept-same c v
flush_loop-Kept (send_refused ∷ more) c v = Kept-if c (want_write c) (Kept-same c v) (Kept-same c v)
flush_loop-Kept (took zero ∷ more) c v = Kept-if c (want_write c) (Kept-same c v) (Kept-same c v)
flush_loop-Kept (took (suc n) ∷ more) c v =
    Kept-if c (want_write c)
      (flush_round c (taken (suc n) c) _
        (flush_loop-Kept more _ (record { rx = v.rx; tx = taken-le (suc n) c v })))
      (Kept-same c v)

flush_end :
    (c : Conn) (f : Flushed)
    → Kept c f
    → Kept c (if f.done then record f { conn = clear_tx f.conn } else f)
flush_end c f s =
    Kept-if c f.done
      (record { bytes_kept = rw unsent-clear_tx s.bytes_kept; valid = clear_tx-IsConn s.valid }) s

-- If the offsets lie in their buffers they do so after `flush_write`, and, whatever the socket
-- answers, the bytes that go out followed by those that are still queued are the bytes that were
-- queued.
pub flush_write-unsent :
    (answers : List SendAnswer) (c : Conn)
    → IsConn c
    → ((flush_write answers c).sent ++ unsent (flush_write answers c).conn ≡ unsent c)
      × IsConn (flush_write answers c).conn
unfolding flush_write
flush_write-unsent answers c v =
    let k = flush_end _ _ (flush_loop-Kept answers (compact_tx c) (compact_tx-IsConn v)) in
    (k.bytes_kept ∙ unsent-compact_tx c, k.valid)

-- A socket that takes at least a byte at each call.
abbrev Takes : SendAnswer → Type 0
Takes (took (suc n)) = Unit {0}
Takes (took zero) = ⊥
Takes send_blocked = ⊥
Takes send_refused = ⊥

record Drained (f : Flushed) : Type 0 where
  finished : f.done ≡ true
  empty : f.conn.tx_off ≡ length f.conn.tx_buf

same_end : {f : Flushed} {out : List ℕ} → Drained f → Drained (record f { sent = out })
same_end d = record { finished = d.finished; empty = d.empty }

taken_pos :
    (n : ℕ) (c : Conn) (more : List SendAnswer)
    → length c.tx_buf ≤ c.tx_off + suc (length more)
    → want_write c ≡ true
    → length c.tx_buf ≤ c.tx_off + taken (suc n) c + length more
unfolding taken want_write
taken_pos n c more h e = omega (arith, ltb→lt _ _ e)

want_write_lem : (c : Conn) → IsConn c → want_write c ≡ false → c.tx_off ≡ length c.tx_buf
unfolding want_write
want_write_lem c v e = omega (arith, v.tx, ltb→ge _ _ e)

flush_loop-Drained :
    (answers : List SendAnswer) (c : Conn)
    → IsConn c
    → All Takes answers
    → length c.tx_buf ≤ c.tx_off + length answers
    → Drained (flush_loop answers c)
unfolding flush_loop
flush_loop-Drained [] c v t h = record { finished = refl; empty = omega (arith, v.tx) }
flush_loop-Drained (send_blocked ∷ more) c v t h = absurd t.0
flush_loop-Drained (send_refused ∷ more) c v t h = absurd t.0
flush_loop-Drained (took zero ∷ more) c v t h = absurd t.0
flush_loop-Drained (took (suc n) ∷ more) c v (t, ts) h = elim (Bool-cases (want_write c)) [
  | inl e ↦ rw e (
      same_end (
        flush_loop-Drained more _ (record { rx = v.rx; tx = taken-le (suc n) c v }) ts
          (taken_pos n c more h e)))
  | inr e ↦ rw e (record { finished = refl; empty = want_write_lem c v e })
]

-- If the offsets lie in their buffers, the socket takes at least a byte at each call, and there are
-- at least as many calls as bytes queued, all that was queued goes out, in order, and nothing stays
-- queued.
pub flush_write-sends :
    (answers : List SendAnswer) (c : Conn)
    → IsConn c
    → All Takes answers
    → length (unsent c) ≤ length answers
    → ((flush_write answers c).sent ≡ unsent c) × (unsent (flush_write answers c).conn ≡ [])
unfolding flush_write
flush_write-sends answers c v t h =
    let d = flush_loop-Drained answers (compact_tx c) (compact_tx-IsConn v) t (
      omega (
        arith,
        ap length (unsent-compact_tx c),
        length-drop (compact_tx c).tx_off (compact_tx c).tx_buf,
      )) in
    let k = flush_loop-Kept answers (compact_tx c) (compact_tx-IsConn v) in
    let gone : unsent (flush_loop answers (compact_tx c)).conn ≡ [] =
      drop-all (flush_loop answers (compact_tx c)).conn.tx_off
        (flush_loop answers (compact_tx c)).conn.tx_buf (omega (arith, d.empty)) in
    rw d.finished (
      sym (append-nil _)
          ∙ ap (◌++◌ (flush_loop answers (compact_tx c)).sent) (sym gone)
          ∙ k.bytes_kept
          ∙ unsent-compact_tx c,
      unsent-clear_tx _ ∙ gone,
    )
