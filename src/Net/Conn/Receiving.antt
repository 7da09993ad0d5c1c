-- ===== src/Net/Conn/Receiving.antt =====
-- `recv` of src/net/conn.cpp.
use ta_engine.Common.{
  ℕ, suc, ◌+◌, ◌-◌, ◌≤◌, ◌<◌, ◌≡◌, refl, sym, ap, ◌∙◌, inl, inr, Bool, true, false, Option, none,
  some, List, [], ◌∷◌, ◌++◌, append-nil, append_assoc, arith, ltb, leb, ltb→lt, ltb→ge, leb→le,
  Bool-cases, length, All, length-append, length-drop, drop-append,
}
use mathlib.Core.Option.{none-ne-some}
use ta_engine.Net.Conn.{
  Conn, Reason, receive_backlog, recv_failed, RecvAnswer, Received, bytes, end_of_file,
  recv_blocked, interrupted, recv_refused, recv_round, recv_loop, recv, max_rx_backlog,
  recv_pass_bytes,
}
use ta_engine.Net.Conn.Buffers.{IsConn, unread}

-- The bytes of some answers.
unfoldable pub given_by : List RecvAnswer → List ℕ
given_by [] = []
given_by (bytes b bs ∷ more) = (b ∷ bs) ++ given_by more
given_by (interrupted ∷ more) = given_by more
given_by (end_of_file ∷ more) = given_by more
given_by (recv_blocked ∷ more) = given_by more
given_by (recv_refused ∷ more) = given_by more

unfoldable pub last_of : List RecvAnswer → Option RecvAnswer
last_of [] = none
last_of (a ∷ []) = some a
last_of (a ∷ b ∷ more) = last_of (b ∷ more)

-- Why `recv` asks no more, where it had `got` bytes before these answers.
pub data Stop (got : ℕ) (asked : List RecvAnswer) (r : Received) : Type 0 where
  spent : r.2 ≡ [] → r.0 ≡ true → Stop got asked r
  yielded : recv_pass_bytes ≤ got + length (given_by asked) → r.0 ≡ true → Stop got asked r
  overfull :
      max_rx_backlog < length (unread r.1)
      → r.0 ≡ false
      → r.1.err ≡ some receive_backlog
      → Stop got asked r
  blocked : last_of asked ≡ some recv_blocked → r.0 ≡ true → Stop got asked r
  closed : last_of asked ≡ some end_of_file → r.0 ≡ true → r.1.peer_closed ≡ true → Stop got asked r
  failed :
      last_of asked ≡ some recv_refused
      → r.0 ≡ false
      → r.1.err ≡ some recv_failed
      → Stop got asked r

-- What `recv` has done where it had `got` bytes: the answers that it asked for are a front of those that
-- there were, all their bytes have come behind what was unread, and it had a reason to stop.
pub record Arrived (got : ℕ) (c : Conn) (answers : List RecvAnswer) (r : Received) : Type 0 where
  pub asked : List RecvAnswer
  pub split : answers ≡ asked ++ r.2
  pub appended : unread r.1 ≡ unread c ++ given_by asked
  pub stop : Stop got asked r
  pub valid : IsConn r.1

last_of-cons :
    (x y : RecvAnswer) (asked : List RecvAnswer)
    → last_of asked ≡ some y
    → last_of (x ∷ asked) ≡ some y
unfolding last_of
last_of-cons x y [] e = absurd (none-ne-some y e)
last_of-cons x y (a ∷ asked) e = e

-- One more answer in front.
Stop-cons :
    (x : RecvAnswer) (got got' : ℕ) (asked : List RecvAnswer) (r : Received)
    → got + length (given_by (x ∷ asked)) ≡ got' + length (given_by asked)
    → Stop got' asked r
    → Stop got (x ∷ asked) r
Stop-cons x got got' asked r e (spent h k) = spent h k
Stop-cons x got got' asked r e (yielded h k) = yielded (omega (arith, e, h)) k
Stop-cons x got got' asked r e (overfull h k l) = overfull h k l
Stop-cons x got got' asked r e (blocked h k) = blocked (last_of-cons x recv_blocked asked h) k
Stop-cons x got got' asked r e (closed h k l) = closed (last_of-cons x end_of_file asked h) k l
Stop-cons x got got' asked r e (failed h k l) = failed (last_of-cons x recv_refused asked h) k l

module _ (got : ℕ) (c : Conn) (v : IsConn c) where
  -- Nothing was asked for, or an answer without bytes.
  nothing_new :
      (answers asked left : List RecvAnswer) (d : Bool) {why : Option Reason} {closing : Bool}
      → answers ≡ asked ++ left
      → given_by asked ≡ []
      → Stop got asked (d, record c { err = why; peer_closed = closing }, left)
      → Arrived got c answers (d, record c { err = why; peer_closed = closing }, left)
  nothing_new answers asked left d e none_given s = record {
    asked = asked;
    split = e;
    appended = sym (ap (λ g. unread c ++ g) none_given ∙ append-nil _);
    stop = s;
    valid = record { rx = v.rx; tx = v.tx };
  }

  recv_round-Arrived :
      (answers : List RecvAnswer) (r : Received)
      → Arrived got c answers r
      → Arrived got c answers (recv_round got answers c r)
  unfolding recv_round given_by
  recv_round-Arrived answers r a = elim (Bool-cases (leb recv_pass_bytes got)) [
    | inl e ↦ rw e (
        nothing_new answers [] answers true refl refl
          (yielded (omega (arith, leb→le recv_pass_bytes got e)) refl))
    | inr e ↦ elim (Bool-cases (ltb max_rx_backlog (length c.rx_buf - c.rx_off))) [
      | inl d ↦
          rw (e, d)
            (nothing_new answers [] answers false refl refl
              (overfull (omega (arith, ltb→lt _ _ d, length-drop c.rx_off c.rx_buf)) refl refl))
      | inr d ↦ rw (e, d) a
    ]
  ]

  more_bytes :
      (b : ℕ) (bs : List ℕ) (answers : List RecvAnswer) (r : Received)
      → Arrived (got + suc (length bs)) (record c { rx_buf = c.rx_buf ++ b ∷ bs }) answers r
      → Arrived got c (bytes b bs ∷ answers) r
  unfolding given_by
  more_bytes b bs answers r a = record {
    asked = bytes b bs ∷ a.asked;
    split = ap (◌∷◌ (bytes b bs)) a.split;
    appended =
        a.appended
        ∙ ap (λ x. x ++ given_by a.asked) (drop-append c.rx_off c.rx_buf (b ∷ bs) v.rx)
        ∙ append_assoc (unread c) (b ∷ bs) (given_by a.asked);
    stop =
        Stop-cons (bytes b bs) got (got + suc (length bs)) a.asked r
          (omega (arith, length-append bs (given_by a.asked))) a.stop;
    valid = a.valid;
  }

  no_bytes :
      (answers : List RecvAnswer) (r : Received)
      → Arrived got c answers r
      → Arrived got c (interrupted ∷ answers) r
  unfolding given_by
  no_bytes answers r a = record {
    asked = interrupted ∷ a.asked;
    split = ap (◌∷◌ interrupted) a.split;
    appended = a.appended;
    stop = Stop-cons interrupted got got a.asked r refl a.stop;
    valid = a.valid;
  }

longer : (c : Conn) (bs : List ℕ) → IsConn c → IsConn (record c { rx_buf = c.rx_buf ++ bs })
longer c bs v = record { rx = omega (arith, v.rx, length-append c.rx_buf bs); tx = v.tx }

recv_loop-Arrived :
    (got : ℕ) (answers : List RecvAnswer) (c : Conn)
    → IsConn c
    → Arrived got c answers (recv_loop got answers c)
unfolding recv_loop given_by last_of
recv_loop-Arrived got [] c v =
    recv_round-Arrived got c v [] _ (nothing_new got c v [] [] [] true refl refl (spent refl refl))
recv_loop-Arrived got (bytes b bs ∷ more) c v = recv_round-Arrived got c v _ _ (
    more_bytes got c v b bs more _
      (recv_loop-Arrived (got + suc (length bs)) more _ (longer c (b ∷ bs) v)))
recv_loop-Arrived got (interrupted ∷ more) c v =
    recv_round-Arrived got c v _ _ (no_bytes got c v more _ (recv_loop-Arrived got more c v))
recv_loop-Arrived got (end_of_file ∷ more) c v =
    recv_round-Arrived got c v _ _
      (nothing_new got c v _ (end_of_file ∷ []) more true refl refl (closed refl refl refl))
recv_loop-Arrived got (recv_blocked ∷ more) c v =
    recv_round-Arrived got c v _ _
      (nothing_new got c v _ (recv_blocked ∷ []) more true refl refl (blocked refl refl))
recv_loop-Arrived got (recv_refused ∷ more) c v =
    recv_round-Arrived got c v _ _
      (nothing_new got c v _ (recv_refused ∷ []) more false refl refl (failed refl refl refl))

-- If the offsets lie in their buffers: the answers that `recv` asks for are a front of those the socket
-- has, every byte of them comes behind what was unread, in order, and `recv` stops only where there is
-- no further answer, a pass has its bytes, the backlog is over its limit, or the last answer says that
-- the socket would block, has ended or has failed, each with its result.
pub recv-Arrived :
    (answers : List RecvAnswer) (c : Conn) → IsConn c → Arrived 0 c answers (recv answers c)
unfolding recv
recv-Arrived answers c v = recv_loop-Arrived 0 answers c v

-- If the offsets lie in their buffers they do so after `recv`, whatever the socket answers.
pub recv-IsConn : (answers : List RecvAnswer) (c : Conn) → IsConn c → IsConn (recv answers c).1
recv-IsConn answers c v = (recv-Arrived answers c v).valid

-- A call of `::recv` fills at most the 16384 bytes of its buffer.
abbrev pub Fits : RecvAnswer → Type 0
Fits (bytes b bs) = suc (length bs) ≤ 16384
Fits end_of_file = Unit
Fits recv_blocked = Unit
Fits interrupted = Unit
Fits recv_refused = Unit

abbrev Backed : Received → Type 0
Backed r = length (unread r.1) ≤ max_rx_backlog + 16384

recv_round-Backed :
    (got : ℕ) (answers : List RecvAnswer) (c : Conn) (r : Received)
    → length (unread c) ≤ max_rx_backlog + 16384
    → (length (unread c) ≤ max_rx_backlog → Backed r)
    → Backed (recv_round got answers c r)
unfolding recv_round
recv_round-Backed got answers c r h k = elim (Bool-cases (leb recv_pass_bytes got)) [
  | inl e ↦ rw e h
  | inr e ↦ elim (Bool-cases (ltb max_rx_backlog (length c.rx_buf - c.rx_off))) [
    | inl d ↦ rw (e, d) h
    | inr d ↦ rw (e, d) (k (omega (arith, ltb→ge _ _ d, length-drop c.rx_off c.rx_buf)))
  ]
]

recv_loop-Backed :
    (got : ℕ) (answers : List RecvAnswer) (c : Conn)
    → IsConn c
    → All Fits answers
    → length (unread c) ≤ max_rx_backlog + 16384
    → Backed (recv_loop got answers c)
unfolding recv_loop
recv_loop-Backed got [] c v w h = recv_round-Backed got _ c _ h (λ k. h)
recv_loop-Backed got (bytes b bs ∷ more) c v (w, ws) h = recv_round-Backed got _ c _ h λ k.
    recv_loop-Backed (got + suc (length bs)) more _ (longer c (b ∷ bs) v) ws (
      omega (
        arith,
        ap length (drop-append c.rx_off c.rx_buf (b ∷ bs) v.rx),
        length-append (unread c) (b ∷ bs),
      ))
recv_loop-Backed got (interrupted ∷ more) c v (w, ws) h =
    recv_round-Backed got _ c _ h (λ k. recv_loop-Backed got more c v ws h)
recv_loop-Backed got (end_of_file ∷ more) c v w h = recv_round-Backed got _ c _ h (λ k. h)
recv_loop-Backed got (recv_blocked ∷ more) c v w h = recv_round-Backed got _ c _ h (λ k. h)
recv_loop-Backed got (recv_refused ∷ more) c v w h = recv_round-Backed got _ c _ h (λ k. h)

-- If the offsets lie in their buffers, each read gives at most the 16384 bytes of its buffer, and
-- what is unread is within the backlog limit and one more read, then after `recv` it is within that
-- bound too.
pub recv_bounded :
    (answers : List RecvAnswer) (c : Conn)
    → IsConn c
    → All Fits answers
    → length (unread c) ≤ max_rx_backlog + 16384
    → length (unread (recv answers c).1) ≤ max_rx_backlog + 16384
unfolding recv
recv_bounded answers c v w h = recv_loop-Backed 0 answers c v w h
