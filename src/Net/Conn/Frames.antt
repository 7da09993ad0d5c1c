-- ===== src/Net/Conn/Frames.antt =====
-- One `poll`: a complete frame comes out whole, and an incomplete one waits.
use ta_engine.Common.{
  ℕ, ◌+◌, ◌-◌, ◌*◌, ◌/◌, ◌%◌, ◌^◌, ◌≤◌, ◌<◌, ◌≡◌, refl, sym, ap, ◌∙◌, ◌⊎◌, inl, inr, Bool, true,
  false, ◌||◌, Option, none, some, List, [], ◌∷◌, ◌++◌, append-nil, append_assoc, arith, ltb,
  if◌then◌else◌, lt→ltb, ge→ltb, ltb→ge, Bool-cases, length, take, drop, length-append, length-drop,
  take-append_self, drop-append_self, drop-drop,
}
use ta_engine.Common.Bits.{bit_or-disjoint}
use ta_engine.Net.Wire.RoundTrip.{le_bytes, length-le_bytes}
use ta_engine.Net.Conn.{
  Frame, Conn, bad_frame, max_frame, frame_length, take_frame, compact_rx, poll,
}
use ta_engine.Net.Conn.Buffers.{IsConn, unread, frame_bytes}

frame_length-le_bytes :
    (n : ℕ) (rest : List ℕ) → n < 2 ^ 32 → frame_length (le_bytes 4 n ++ rest) ≡ n
unfolding frame_length le_bytes
frame_length-le_bytes n rest h =
    rw
      (
        bit_or-disjoint 8 (n % 256) (n / 256 % 256) (omega arith),
        bit_or-disjoint 16 (n % 256 + n / 256 % 256 * 2 ^ 8) (n / 256 / 256 % 256) (omega arith),
        bit_or-disjoint 24 (n % 256 + n / 256 % 256 * 2 ^ 8 + n / 256 / 256 % 256 * 2 ^ 16)
            (n / 256 / 256 / 256 % 256) (omega arith),
      )
      (omega arith)

-- A frame that the wire format can carry and `poll` accepts.
pub record IsFrame (f : Frame) : Type 0 where
  pub kind : f.kind < 256
  pub size : length f.payload < max_frame

pub length-frame_bytes : (f : Frame) → length (frame_bytes f) ≡ 5 + length f.payload
unfolding frame_bytes
length-frame_bytes f = omega (
  arith,
  length-append (le_bytes 4 (length f.payload + 1)) (f.kind % 256 ∷ f.payload),
  length-le_bytes 4 (length f.payload + 1),
)

unread-compact_rx : (c : Conn) → unread (compact_rx c) ≡ unread c
unfolding compact_rx
unread-compact_rx c = ground arith

compact_rx-IsConn : {c : Conn} → IsConn c → IsConn (compact_rx c)
unfolding compact_rx
compact_rx-IsConn v = ground arith

-- `poll`, on what is unread.
poll_on : List ℕ → Conn → Option Frame × Conn
poll_on p c =
    if ltb (length p) 4
    then (none, c)
    else (if ltb (frame_length p) 1 || ltb max_frame (frame_length p)
        then (none, record c { err = some bad_frame })
        else (if ltb (length p - 4) (frame_length p)
            then (none, c)
            else take_frame p (frame_length p) c))

poll_lem : (c : Conn) → poll c ≡ poll_on (unread c) c
unfolding poll poll_on
poll_lem c = rw length-drop

-- What a round of `poll` leaves when it returns a frame.
pub record Polled (c : Conn) (f : Frame) (rest : List ℕ) (r : Option Frame × Conn) : Type 0 where
  pub frame : r.0 ≡ some f
  pub left : unread r.1 ≡ rest
  pub same_err : r.1.err ≡ c.err
  pub valid : IsConn r.1

compact_rx-err : (c : Conn) → (compact_rx c).err ≡ c.err
unfolding compact_rx
compact_rx-err c = ground arith

Polled-if :
    (c : Conn) (f : Frame) (rest : List ℕ) (b : Bool) {o : Option Frame} {d : Conn}
    → Polled c f rest (o, d)
    → Polled c f rest (o, if b then compact_rx d else d)
Polled-if c f rest true {d = d} s = record {
  frame = s.frame;
  left = unread-compact_rx d ∙ s.left;
  same_err = compact_rx-err d ∙ s.same_err;
  valid = compact_rx-IsConn s.valid;
}
Polled-if c f rest false s = s

module _ (f : Frame) (rest : List ℕ) (w : IsFrame f) where
  announced : frame_length (frame_bytes f ++ rest) ≡ length f.payload + 1
  unfolding frame_bytes
  announced =
      ap frame_length (append_assoc (le_bytes 4 (length f.payload + 1)) _ rest)
      ∙ frame_length-le_bytes (length f.payload + 1) _ (omega (arith, w.size))

  complete : length (frame_bytes f ++ rest) ≡ 5 + length f.payload + length rest
  complete = omega (arith, length-append (frame_bytes f) rest, length-frame_bytes f)

  poll_on-frame :
      (c : Conn)
      → poll_on (frame_bytes f ++ rest) c
        ≡ take_frame (frame_bytes f ++ rest) (length f.payload + 1) c
  unfolding poll_on
  poll_on-frame c = rw (
    announced,
    complete,
    ge→ltb (5 + length f.payload + length rest) 4 (omega arith),
    ge→ltb (length f.payload + 1) 1 (omega arith),
    ge→ltb max_frame (length f.payload + 1) (omega (arith, w.size)),
    ge→ltb (5 + length f.payload + length rest - 4) (length f.payload + 1) (omega arith),
  )

  first_frame :
      some (record {
        kind = f.kind % 256;
        payload = take (length f.payload + 1 - 1) (f.payload ++ rest);
      })
      ≡ some f
  first_frame =
      rw (take-append_self (length f.payload + 1 - 1) f.payload rest (omega arith))
        (ap (λ k. some (record f { kind = k })) (omega (arith, w.kind)))

  take_frame-Polled :
      (c : Conn)
      → IsConn c
      → unread c ≡ frame_bytes f ++ rest
      → Polled c f rest (take_frame (frame_bytes f ++ rest) (length f.payload + 1) c)
  unfolding take_frame frame_bytes le_bytes
  take_frame-Polled c v e =
      Polled-if c f rest (ltb 65536 (c.rx_off + (4 + (length f.payload + 1)))) (record {
        frame = first_frame;
        left =
            sym (drop-drop (4 + (length f.payload + 1)) c.rx_off c.rx_buf)
            ∙ ap (drop (4 + (length f.payload + 1))) e
            ∙ drop-append_self (4 + (length f.payload + 1)) (frame_bytes f) rest
                (omega (arith, length-frame_bytes f));
        same_err = refl;
        valid = record {
          rx = omega (arith, length-drop c.rx_off c.rx_buf, ap length e, complete);
          tx = v.tx;
        };
      })

-- If the offsets lie in their buffers, a complete frame of a valid size at the head of what is
-- unread is returned whole, the bytes behind it stay, and the error and the offsets stay as sound
-- as they were.
pub poll-frame :
    (c : Conn) (f : Frame) (rest : List ℕ)
    → IsConn c
    → IsFrame f
    → unread c ≡ frame_bytes f ++ rest
    → Polled c f rest (poll c)
poll-frame c f rest v w e =
    rw (poll_lem, e, poll_on-frame f rest w c) (take_frame-Polled f rest w c v e)

-- Four bytes decide the length.
frame_length-append : (u more : List ℕ) → 4 ≤ length u → frame_length (u ++ more) ≡ frame_length u
unfolding frame_length
frame_length-append [] more h = absurd (omega arith)
frame_length-append (a ∷ []) more h = absurd (omega arith)
frame_length-append (a ∷ b ∷ []) more h = absurd (omega arith)
frame_length-append (a ∷ b ∷ c ∷ []) more h = absurd (omega arith)
frame_length-append (a ∷ b ∷ c ∷ d ∷ u) more h = refl

poll_on_short :
    (c : Conn) (f : Frame) (u : List ℕ) (x : ℕ) (back : List ℕ)
    → IsFrame f
    → frame_bytes f ≡ u ++ (x ∷ back)
    → poll_on u c ≡ (none, c)
unfolding poll_on
poll_on_short c f u x back w e = elim (Bool-cases (ltb (length u) 4)) [
  | inl d ↦ rw d
  | inr d ↦ rw (
    d,
    known (ltb→ge (length u) 4 d),
    ge→ltb (length f.payload + 1) 1 (omega arith),
    ge→ltb max_frame (length f.payload + 1) (omega (arith, w.size)),
    lt→ltb (length u - 4) (length f.payload + 1)
        (omega (arith, ap length e, length-append u (x ∷ back), length-frame_bytes f)),
  )
]
  where
    known : 4 ≤ length u → frame_length u ≡ length f.payload + 1
    known h =
        sym (frame_length-append u (x ∷ back) h)
        ∙ ap frame_length (sym e ∙ sym (append-nil (frame_bytes f)))
        ∙ announced f [] w

-- While only a proper front of a frame of a valid size is unread, `poll` returns nothing and
-- changes nothing.
pub poll_short :
    (c : Conn) (f : Frame) (x : ℕ) (back : List ℕ)
    → IsFrame f
    → frame_bytes f ≡ unread c ++ (x ∷ back)
    → poll c ≡ (none, c)
poll_short c f x back w e = rw poll_lem (poll_on_short c f (unread c) x back w e)

pub poll_empty : (c : Conn) → unread c ≡ [] → poll c ≡ (none, c)
unfolding poll_on
poll_empty c e = rw (poll_lem, e)

-- A header that announces no byte, or more than a frame may hold, is refused: `poll` records the
-- reason, returns nothing and consumes nothing.
pub poll_refused :
    (c : Conn) (len : ℕ) (rest : List ℕ)
    → unread c ≡ le_bytes 4 len ++ rest
    → len < 2 ^ 32
    → (len ≡ 0) ⊎ (max_frame < len)
    → poll c ≡ (none, record c { err = some bad_frame })
unfolding poll_on
poll_refused c len rest e h b = rw (
  poll_lem,
  e,
  frame_length-le_bytes len rest h,
  ge→ltb (length (le_bytes 4 len ++ rest)) 4
      (omega (arith, length-append (le_bytes 4 len) rest, length-le_bytes 4 len)),
  out_of_range len b,
)
  where
    out_of_range : (n : ℕ) → (n ≡ 0) ⊎ (max_frame < n) → (ltb n 1 || ltb max_frame n) ≡ true
    out_of_range n (inl d) = rw d
    out_of_range n (inr d) = rw (lt→ltb max_frame n d) (ground arith)
