-- ===== src/Net/Conn/Sending.antt =====
-- `send` of src/net/conn.cpp.
use ta_engine.Common.{
  ◌-◌, ◌≤◌, ◌<◌, ◌≡◌, ◌⊎◌, inl, inr, some, ◌++◌, arith, ltb, ltb→lt, ltb→ge, Bool-cases, length,
  length-append, length-drop, drop-append,
}
use ta_engine.Net.Conn.{send_backlog, Frame, Conn, send, max_tx_backlog}
use ta_engine.Net.Conn.Buffers.{IsConn, unsent, frame_bytes, put_frame-frame_bytes}

-- If the offsets lie in their buffers: with room in the backlog `send` queues the frame's bytes
-- behind the others and leaves the error; else it queues nothing and records the reason.
pub send-unsent :
    (f : Frame) (c : Conn)
    → IsConn c
    → ((length (unsent c) ≤ max_tx_backlog)
        × (unsent (send f c) ≡ unsent c ++ frame_bytes f)
        × ((send f c).err ≡ c.err))
      ⊎ ((max_tx_backlog < length (unsent c))
          × (unsent (send f c) ≡ unsent c)
          × ((send f c).err ≡ some send_backlog))
unfolding send
send-unsent f c v = elim (Bool-cases (ltb max_tx_backlog (length c.tx_buf - c.tx_off))) [
  | inl e ↦ inr (omega (arith, ltb→lt _ _ e, length-drop c.tx_off c.tx_buf), rw e, rw e)
  | inr e ↦ inl (
    omega (arith, ltb→ge _ _ e, length-drop c.tx_off c.tx_buf),
    rw (e, put_frame-frame_bytes f c.tx_buf) (drop-append c.tx_off c.tx_buf (frame_bytes f) v.tx),
    rw e,
  )
]

-- If the offsets lie in their buffers they do so after `send`.
pub send-IsConn : (f : Frame) {c : Conn} → IsConn c → IsConn (send f c)
unfolding send
send-IsConn f {c} v = elim (Bool-cases (ltb max_tx_backlog (length c.tx_buf - c.tx_off))) [
  | inl e ↦ rw e (record { rx = v.rx; tx = v.tx })
  | inr e ↦
      rw (e, put_frame-frame_bytes f c.tx_buf)
        (record { rx = v.rx; tx = omega (arith, v.tx, length-append c.tx_buf (frame_bytes f)) })
]
