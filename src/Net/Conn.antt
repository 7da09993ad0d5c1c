-- ===== src/Net/Conn.antt =====
-- src/net/conn.h and conn.cpp: a buffered connection with length-prefixed frames. The socket is not
-- the program's code: what `::send` and `::recv` answer is an argument, one answer for each call,
-- and a list that is used up answers that the call would block. A file descriptor is a number.
pub mod Buffers
pub mod Flushing
pub mod Sending
pub mod Receiving
pub mod Frames
pub mod Stream
use Prim.Native.Nat.{bit_or}
use ta_engine.Common.{
  ℕ, zero, suc, ◌+◌, ◌-◌, ◌*◌, ◌/◌, ◌%◌, ◌^◌, ◌≤◌, ◌<◌, min, max, ◌≡◌, refl, sym, ap, ◌∙◌, subst,
  ◌≢◌, ◌↔◌, ◌⊎◌, inl, inr, Bool, true, false, not, ◌&&◌, ◌||◌, Option, none, some, List, [], ◌∷◌,
  ◌++◌, map, append-nil, append_assoc, arith, ltb, leb, ◌==◌, if◌then◌else◌, ltb→lt, lt→ltb, ge→ltb,
  ltb→ge, leb→le, le→leb, gt→leb, ==_iff, ==_refl, tests, Bool-cases, Option-cases, length,
  get_elem?, get_or, set, take, drop, replicate, All, length-append, length-set, take-append-drop,
  length-take, length-drop, length-replicate, take-append_self, drop-append_self, take-all,
  drop-all, drop-append, drop-nil, take-append, drop-drop,
}
use ta_engine.Net.Wire.{Put, ◌>>◌, put_u8, put_u32, put_raw}

-- A message's kind is the number under `Msg`.
pub record Frame : Type 0 where
  pub kind : ℕ
  pub payload : List ℕ

-- The texts of `err_`.
pub data Reason : Type 0 where
  send_backlog receive_backlog bad_frame send_failed recv_failed given : Reason

-- `fd_ < 0` and an empty `err_` are `none`.
pub record Conn : Type 0 where
  pub fd : Option ℕ
  pub err : Option Reason
  pub peer_closed : Bool
  pub rx_buf : List ℕ
  pub rx_off : ℕ
  pub tx_buf : List ℕ
  pub tx_off : ℕ

unfoldable pub connected : ℕ → Conn
connected fd = record {
  fd = some fd;
  err = none;
  peer_closed = false;
  rx_buf = [];
  rx_off = 0;
  tx_buf = [];
  tx_off = 0;
}

abbrev pub max_frame : ℕ
max_frame = 2 ^ 18

abbrev pub max_tx_backlog : ℕ
max_tx_backlog = 32 * 2 ^ 20

abbrev pub recv_pass_bytes : ℕ
recv_pass_bytes = 2 ^ 20

abbrev pub max_rx_backlog : ℕ
max_rx_backlog = 2 ^ 22

abbrev pub compact_at : ℕ
compact_at = 2 ^ 20

unfoldable pub ok : Conn → Bool
ok c = elim c.fd [ none ↦ false | some fd ↦ elim c.err [ none ↦ true | some why ↦ false ] ]

-- `Conn::fail` keeps the first reason.
unfoldable pub fail : Reason → Conn → Conn
fail why c = elim c.err [ none ↦ record c { err = some why } | some first ↦ c ]

unfoldable pub close_now : Conn → Conn
close_now c = record c { fd = none }

unfoldable pub tx_pending : Conn → ℕ
tx_pending c = length c.tx_buf - c.tx_off

unfoldable pub want_write : Conn → Bool
want_write c = ltb c.tx_off (length c.tx_buf)

-- u32 length of the kind and the payload, u8 kind, payload.
unfoldable pub put_frame : Frame → Put
put_frame f = do put_u32 (length f.payload + 1); put_u8 f.kind; put_raw f.payload

unfoldable pub send : Frame → Conn → Conn
send f c =
    if ltb max_tx_backlog (length c.tx_buf - c.tx_off)
    then record c { err = some send_backlog }
    else record c { tx_buf = put_frame f c.tx_buf }

-- `::send` took some bytes (never more than it was offered), would block, or failed.
pub data SendAnswer : Type 0 where
  took : ℕ → SendAnswer
  send_blocked send_refused : SendAnswer

-- Whether the loop of `flushWrite` ended well, the bytes that went out, and the connection.
pub record Flushed : Type 0 where
  pub done : Bool
  pub sent : List ℕ
  pub conn : Conn

unfoldable pub compact_tx : Conn → Conn
compact_tx c =
    if leb compact_at c.tx_off && leb (length c.tx_buf) (c.tx_off * 2)
    then record c { tx_buf = drop c.tx_off c.tx_buf; tx_off = 0 }
    else c

-- The bytes that one `::send` takes: `n` of them, or all that are left.
unfoldable pub taken : ℕ → Conn → ℕ
taken n c = min n (length c.tx_buf - c.tx_off)

unfoldable pub refused : Conn → Flushed
refused c = record { done = false; sent = []; conn = record c { err = some send_failed } }

-- `while (txOff_ < txBuf_.size())`. An answer of no bytes is a failure like any other.
unfoldable pub flush_loop : List SendAnswer → Conn → Flushed
flush_loop [] c = record { done = true; sent = []; conn = c }
flush_loop (send_blocked ∷ more) c = record { done = true; sent = []; conn = c }
flush_loop (send_refused ∷ more) c =
    if want_write c then refused c else record { done = true; sent = []; conn = c }
flush_loop (took zero ∷ more) c =
    if want_write c then refused c else record { done = true; sent = []; conn = c }
flush_loop (took (suc n) ∷ more) c =
    let k = taken (suc n) c in
    let rest = flush_loop more (record c { tx_off = c.tx_off + k }) in
    if want_write c
    then record rest { sent = take k (drop c.tx_off c.tx_buf) ++ rest.sent }
    else record { done = true; sent = []; conn = c }

unfoldable pub clear_tx : Conn → Conn
clear_tx c = if c.tx_off == length c.tx_buf then record c { tx_buf = []; tx_off = 0 } else c

unfoldable pub flush_write : List SendAnswer → Conn → Flushed
flush_write answers c =
    let f = flush_loop answers (compact_tx c) in
    if f.done then record f { conn = clear_tx f.conn } else f

-- `::recv` gave bytes (at least one), met the end, would block, was interrupted, or failed.
pub data RecvAnswer : Type 0 where
  bytes : ℕ → List ℕ → RecvAnswer
  end_of_file recv_blocked interrupted recv_refused : RecvAnswer

-- Whether `recv` ended well, the connection, and the answers that were not asked for.
abbrev pub Received : Type 0
Received = Bool × Conn × List RecvAnswer

-- The tests at the head of a round of `recv`, and what it does when they pass.
unfoldable pub recv_round : ℕ → List RecvAnswer → Conn → Received → Received
recv_round got answers c next =
    if leb recv_pass_bytes got
    then (true, c, answers)
    else (if ltb max_rx_backlog (length c.rx_buf - c.rx_off)
        then (false, record c { err = some receive_backlog }, answers)
        else next)

unfoldable pub recv_loop : ℕ → List RecvAnswer → Conn → Received
recv_loop got [] c = recv_round got [] c (true, c, [])
recv_loop got (bytes b bs ∷ more) c =
    let next = recv_loop (got + suc (length bs)) more (record c { rx_buf = c.rx_buf ++ b ∷ bs }) in
    recv_round got (bytes b bs ∷ more) c next
recv_loop got (end_of_file ∷ more) c =
    recv_round got (end_of_file ∷ more) c (true, record c { peer_closed = true }, more)
recv_loop got (recv_blocked ∷ more) c = recv_round got (recv_blocked ∷ more) c (true, c, more)
recv_loop got (interrupted ∷ more) c =
    let next = recv_loop got more c in recv_round got (interrupted ∷ more) c next
recv_loop got (recv_refused ∷ more) c =
    recv_round got (recv_refused ∷ more) c (false, record c { err = some recv_failed }, more)

unfoldable pub recv : List RecvAnswer → Conn → Received
recv answers c = recv_loop 0 answers c

unfoldable pub compact_rx : Conn → Conn
compact_rx c =
    if ltb 0 c.rx_off then record c { rx_buf = drop c.rx_off c.rx_buf; rx_off = 0 } else c

-- The four length bytes.
unfoldable pub frame_length : List ℕ → ℕ
frame_length (a ∷ b ∷ c ∷ d ∷ p) = bit_or (bit_or (bit_or a (b * 2 ^ 8)) (c * 2 ^ 16)) (d * 2 ^ 24)
frame_length p = 0

-- A complete frame at `p` whose length field says `len`.
unfoldable pub take_frame : List ℕ → ℕ → Conn → Option Frame × Conn
take_frame p len c =
    let c' = record c { rx_off = c.rx_off + (4 + len) } in
    (
      some (record { kind = get_or p 4 0; payload = take (len - 1) (drop 5 p) }),
      if ltb 65536 c'.rx_off then compact_rx c' else c',
    )

unfoldable pub poll : Conn → Option Frame × Conn
poll c =
    let p = drop c.rx_off c.rx_buf in
    let len = frame_length p in
    if ltb (length c.rx_buf - c.rx_off) 4
    then (none, c)
    else (if ltb len 1 || ltb max_frame len
        then (none, record c { err = some bad_frame })
        else (if ltb (length c.rx_buf - c.rx_off - 4) len then (none, c) else take_frame p len c))

-- The callers' `while (conn.poll(f)) …`: the frames in order, for at most `n` rounds.
unfoldable pub drain : ℕ → Conn → List Frame × Conn
drain zero c = ([], c)
drain (suc n) c =
    let (next, c') = poll c in
    elim next [ none ↦ ([], c') | some f ↦ (f ∷ (drain n c').0, (drain n c').1) ]
