-- ===== src/Examples/Connections.antt =====
-- Two frames and a connection in the middle of its work.
use ta_engine.Common.{
  ℕ, ◌+◌, ◌≤◌, ◌<◌, ◌≡◌, refl, subst, ◌⊎◌, false, none, some, List, [], ◌∷◌, ◌++◌, arith, length,
  take, drop,
}
use ta_engine.Net.Wire.RoundTrip.{le_bytes}
use ta_engine.Net.Conn.{
  Frame, Conn, took, send_blocked, RecvAnswer, bytes, recv_blocked, interrupted, send_backlog,
  max_tx_backlog, max_rx_backlog, send, flush_write, recv, recv_loop, recv_round, take_frame,
  compact_rx, frame_length, poll, drain,
}
use ta_engine.Net.Conn.Buffers.{IsConn, unread, unsent, frame_bytes}
use ta_engine.Net.Conn.Flushing.{flush_write-unsent, flush_write-sends}
use ta_engine.Net.Conn.Sending.{send-unsent}
use ta_engine.Net.Conn.Receiving.{given_by, Arrived, recv-Arrived, recv_bounded}
use ta_engine.Net.Conn.Frames.{IsFrame, Polled, poll-frame}
use ta_engine.Net.Conn.Stream.{encode, Session, idle, pass, Session-encode}

abbrev hello : Frame
hello = record { kind = 1; payload = 7 ∷ 8 ∷ [] }

abbrev ping : Frame
ping = record { kind = 25; payload = [] }

hello-IsFrame : IsFrame hello
hello-IsFrame = record { kind = omega arith; size = omega arith }

ping-IsFrame : IsFrame ping
ping-IsFrame = record { kind = omega arith; size = omega arith }

-- A connection that has `rx` unread and `tx` unsent, each behind one byte that is done with.
abbrev busy_conn : List ℕ → List ℕ → Conn
busy_conn rx tx = record {
  fd = some 3;
  err = none;
  peer_closed = false;
  rx_buf = 99 ∷ rx;
  rx_off = 1;
  tx_buf = 98 ∷ tx;
  tx_off = 1;
}

busy_conn-IsConn : (rx tx : List ℕ) → IsConn (busy_conn rx tx)
busy_conn-IsConn rx tx = record { rx = omega arith; tx = omega arith }

abbrev both_frames : List ℕ
both_frames = 3 ∷ 0 ∷ 0 ∷ 0 ∷ 1 ∷ 7 ∷ 8 ∷ 1 ∷ 0 ∷ 0 ∷ 0 ∷ 25 ∷ []

poll-frame_example :
    Polled (busy_conn both_frames []) hello (drop 7 both_frames) (poll (busy_conn both_frames []))
unfolding frame_bytes le_bytes
poll-frame_example =
    poll-frame (busy_conn both_frames []) hello (drop 7 both_frames)
      (busy_conn-IsConn both_frames []) hello-IsFrame refl

flush_write-unsent_example :
    ((flush_write (took 1 ∷ send_blocked ∷ []) (busy_conn [] (4 ∷ 5 ∷ []))).sent
        ++ unsent (flush_write (took 1 ∷ send_blocked ∷ []) (busy_conn [] (4 ∷ 5 ∷ []))).conn
      ≡ 4 ∷ 5 ∷ [])
    × IsConn (flush_write (took 1 ∷ send_blocked ∷ []) (busy_conn [] (4 ∷ 5 ∷ []))).conn
flush_write-unsent_example =
    flush_write-unsent (took 1 ∷ send_blocked ∷ []) (busy_conn [] (4 ∷ 5 ∷ []))
      (busy_conn-IsConn [] (4 ∷ 5 ∷ []))

flush_write-sends_example :
    ((flush_write (took 1 ∷ took 9 ∷ []) (busy_conn [] (4 ∷ 5 ∷ []))).sent ≡ 4 ∷ 5 ∷ [])
    × (unsent (flush_write (took 1 ∷ took 9 ∷ []) (busy_conn [] (4 ∷ 5 ∷ []))).conn ≡ [])
flush_write-sends_example =
    flush_write-sends (took 1 ∷ took 9 ∷ []) (busy_conn [] (4 ∷ 5 ∷ []))
      (busy_conn-IsConn [] (4 ∷ 5 ∷ [])) (tt, (tt, tt)) (omega arith)

send-unsent_example :
    ((2 ≤ max_tx_backlog)
      × (unsent (send hello (busy_conn [] (4 ∷ 5 ∷ []))) ≡ (4 ∷ 5 ∷ []) ++ frame_bytes hello)
      × ((send hello (busy_conn [] (4 ∷ 5 ∷ []))).err ≡ none))
    ⊎ ((max_tx_backlog < 2)
        × (unsent (send hello (busy_conn [] (4 ∷ 5 ∷ []))) ≡ 4 ∷ 5 ∷ [])
        × ((send hello (busy_conn [] (4 ∷ 5 ∷ []))).err ≡ some send_backlog))
send-unsent_example =
    send-unsent hello (busy_conn [] (4 ∷ 5 ∷ [])) (busy_conn-IsConn [] (4 ∷ 5 ∷ []))

abbrev two_reads : List RecvAnswer
two_reads = bytes 3 (0 ∷ 0 ∷ []) ∷ interrupted ∷ bytes 0 (1 ∷ []) ∷ recv_blocked ∷ []

recv-Arrived_example :
    Arrived 0 (busy_conn (6 ∷ []) []) two_reads (recv two_reads (busy_conn (6 ∷ []) []))
recv-Arrived_example = recv-Arrived two_reads (busy_conn (6 ∷ []) []) (busy_conn-IsConn (6 ∷ []) [])

recv_bounded_example :
    length (unread (recv two_reads (busy_conn (6 ∷ []) [])).1) ≤ max_rx_backlog + 16384
recv_bounded_example =
    recv_bounded two_reads (busy_conn (6 ∷ []) []) (busy_conn-IsConn (6 ∷ []) [])
      (omega arith, (tt, (omega arith, (tt, tt)))) (omega arith)

-- A pass that ends as `r` says.
pass_to :
    (c : Conn) (answers asked : List RecvAnswer) (r : List Frame × Conn) {more : List ℕ}
    {fs : List Frame} {d : Conn}
    → drain (length (unread (recv answers c).1)) (recv answers c).1 ≡ r
    → answers ≡ asked ++ (recv answers c).2
    → Session r.1 more fs d
    → Session c (given_by asked ++ more) (r.0 ++ fs) d
pass_to c answers asked r {more} {fs} {d} e a run =
    subst (λ r. Session r.1 more fs d → Session c (given_by asked ++ more) (r.0 ++ fs) d) e
      (pass c answers asked a) run

abbrev received : List ℕ → ℕ → Conn
received rx off = record {
  fd = some 3;
  err = none;
  peer_closed = false;
  rx_buf = rx;
  rx_off = off;
  tx_buf = [];
  tx_off = 0;
}

abbrev first_read : List RecvAnswer
first_read = bytes 3 (0 ∷ 0 ∷ 0 ∷ 1 ∷ 7 ∷ 8 ∷ 1 ∷ 0 ∷ []) ∷ recv_blocked ∷ []

abbrev second_read : List RecvAnswer
second_read = bytes 0 (0 ∷ 25 ∷ []) ∷ recv_blocked ∷ []

first_pass :
    drain (length (unread (recv first_read (received [] 0)).1)) (recv first_read (received [] 0)).1
    ≡ (hello ∷ [], received (take 9 both_frames) 7)
unfolding recv recv_loop recv_round drain poll take_frame compact_rx frame_length
first_pass = refl

second_pass :
    drain
      (length (unread (recv second_read (received (take 9 both_frames) 7)).1))
      (recv second_read (received (take 9 both_frames) 7)).1
    ≡ (ping ∷ [], received both_frames 12)
unfolding recv recv_loop recv_round drain poll take_frame compact_rx frame_length
second_pass = refl

-- The two frames in two passes, the first of which ends inside the second frame.
two_passes :
    Session
      (received [] 0)
      (encode (hello ∷ ping ∷ []))
      (hello ∷ ping ∷ [])
      (received both_frames 12)
unfolding recv recv_loop recv_round frame_bytes le_bytes given_by
two_passes =
    pass_to (received [] 0) first_read first_read (hello ∷ [], received (take 9 both_frames) 7)
      first_pass refl
      (pass_to (received (take 9 both_frames) 7) second_read second_read
        (ping ∷ [], received both_frames 12) second_pass refl (idle (received both_frames 12)))

Session-encode_example :
    ((hello ∷ ping ∷ []) ≡ (hello ∷ ping ∷ [])) × (unread (received both_frames 12) ≡ [])
Session-encode_example =
    Session-encode (received [] 0) (hello ∷ ping ∷ [])
      (record { rx = omega arith; tx = omega arith }) refl (hello-IsFrame, (ping-IsFrame, tt))
      two_passes
