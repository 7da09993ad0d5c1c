-- ===== src/Net/Conn/Stream.antt =====
-- Frames come out of the byte stream as they went in, however the stream is cut.
use ta_engine.Common.{
  ℕ, zero, suc, ◌≤◌, ◌<◌, ◌≡◌, refl, sym, ap, ◌∙◌, inl, inr, none, List, [], ◌∷◌, ◌++◌, append-nil,
  append_assoc, arith, ltb, ltb→lt, ltb→ge, Bool-cases, length, All, length-append, take,
  take-append_self,
}
use ta_engine.Net.Conn.{Frame, Conn, RecvAnswer, recv, poll, drain}
use ta_engine.Net.Conn.Receiving.{given_by, recv-Arrived, recv-IsConn}
use ta_engine.Net.Conn.Buffers.{IsConn, unread, frame_bytes}
use ta_engine.Net.Conn.Frames.{
  IsFrame, Polled, length-frame_bytes, poll-frame, poll_short, poll_empty,
}

abbrev pub encode : List Frame → List ℕ
encode [] = []
encode (f ∷ fs) = frame_bytes f ++ encode fs

-- Of two ways to cut one list, the one that cuts later begins with the other's front.
record Overlap {A : Type 0} (a b c d : List A) : Type 0 where
  middle : List A
  front : a ≡ c ++ middle
  back : middle ++ b ≡ d

same_head : {A : Type 0} {x y : A} {s t a b : List A} → y ∷ s ≡ x ∷ t → a ≡ b → y ∷ a ≡ x ∷ b
same_head e d = cc

overlap : {A : Type 0} (c a b d : List A) → a ++ b ≡ c ++ d → length c ≤ length a → Overlap a b c d
overlap [] a b d e h = record { middle = a; front = refl; back = e }
overlap (x ∷ c) [] b d e h = absurd (omega arith)
overlap (x ∷ c) (y ∷ a) b d e h =
    let o = overlap c a b d (cc) (omega arith) in
    record { middle = o.middle; front = same_head e o.front; back = o.back }

-- What is unread holds no complete frame.
abbrev Short : List Frame → List ℕ → Type 0
Short [] u = Unit {0}
Short (f ∷ fs) u = length u < length (frame_bytes f)

-- The frames of a drained front of `encode gs`, and what is left for the rest `y` of the stream.
record Prefixed (gs : List Frame) (y : List ℕ) (r : List Frame × Conn) : Type 0 where
  later : List Frame
  frames : gs ≡ r.0 ++ later
  rest : unread r.1 ++ y ≡ encode later
  short : Short later (unread r.1)
  sound : All IsFrame later
  valid : IsConn r.1

drain_next :
    (n : ℕ) (c : Conn) (f : Frame) (rest : List ℕ)
    → Polled c f rest (poll c)
    → drain (suc n) c ≡ (f ∷ (drain n (poll c).1).0, (drain n (poll c).1).1)
unfolding drain
drain_next n c f rest s = rw (s.frame, drain)

drain_stop : (n : ℕ) (c : Conn) → poll c ≡ (none, c) → drain n c ≡ ([], c)
unfolding drain
drain_stop zero c e = refl
drain_stop (suc n) c e = rw (e, drain) (ap {B = List Frame × Conn} (λ q. ([], q.1)) e)

Prefixed-cons :
    {f : Frame} {gs : List Frame} {y : List ℕ} {r : List Frame × Conn}
    → Prefixed gs y r
    → Prefixed (f ∷ gs) y (f ∷ r.0, r.1)
Prefixed-cons {f} s = record {
  later = s.later;
  frames = ap (◌∷◌ f) s.frames;
  rest = s.rest;
  short = s.short;
  sound = s.sound;
  valid = s.valid;
}

stopped :
    (gs : List Frame) (y : List ℕ) (n : ℕ) (c : Conn)
    → All IsFrame gs
    → IsConn c
    → unread c ++ y ≡ encode gs
    → Short gs (unread c)
    → poll c ≡ (none, c)
    → Prefixed gs y (drain n c)
stopped gs y n c w v e s p =
    rw (drain_stop n c p)
      (record { later = gs; frames = refl; rest = e; short = s; sound = w; valid = v })

front_nil : (u y : List ℕ) → u ++ y ≡ [] → u ≡ []
front_nil [] y e = refl
front_nil (x ∷ u) y e = cc

-- A proper front goes on.
longer_front :
    (u m : List ℕ) → length u < length (u ++ m) → (x : ℕ) × (back : List ℕ) × (m ≡ x ∷ back)
longer_front u [] h = absurd (omega (arith, length-append u []))
longer_front u (x ∷ back) h = (x, back, refl)

waits :
    (c : Conn) (g : Frame) (gs : List Frame) (y : List ℕ)
    → IsFrame g
    → unread c ++ y ≡ encode (g ∷ gs)
    → length (unread c) < length (frame_bytes g)
    → poll c ≡ (none, c)
waits c g gs y w e d =
    let o = overlap (unread c) (frame_bytes g) (encode gs) y (sym e) (omega arith) in
    let (x, back, m) = longer_front (unread c) o.middle (omega (arith, ap length o.front)) in
    poll_short c g x back w (o.front ∙ ap (◌++◌ (unread c)) m)

drain-Prefixed :
    (gs : List Frame) (y : List ℕ) (n : ℕ) (c : Conn)
    → All IsFrame gs
    → IsConn c
    → length (unread c) ≤ n
    → unread c ++ y ≡ encode gs
    → Prefixed gs y (drain n c)
drain-Prefixed [] y n c w v h e =
    stopped [] y n c w v e tt (poll_empty c (front_nil (unread c) y e))
drain-Prefixed (g ∷ gs) y zero c (w, ws) v h e =
    stopped (g ∷ gs) y zero c (w, ws) v e (omega (arith, length-frame_bytes g))
      (waits c g gs y w e (omega (arith, length-frame_bytes g)))
drain-Prefixed (g ∷ gs) y (suc n) c (w, ws) v h e =
    elim (Bool-cases (ltb (length (unread c)) (length (frame_bytes g)))) [
      | inl d ↦
          stopped (g ∷ gs) y (suc n) c (w, ws) v e (ltb→lt _ _ d)
            (waits c g gs y w e (ltb→lt _ _ d))
      | inr d ↦
          let o = overlap (frame_bytes g) (unread c) y (encode gs) e (ltb→ge _ _ d) in
          let s = poll-frame c g o.middle v w o.front in
          rw (drain_next n c g o.middle s) (
            Prefixed-cons (
              drain-Prefixed gs y n (poll c).1 ws s.valid
                (omega (
                  arith,
                  ap length s.left,
                  ap length o.front,
                  length-append (frame_bytes g) o.middle,
                  length-frame_bytes g,
                ))
                (ap (λ u. u ++ y) s.left ∙ o.back)))
    ]

-- Two fronts of one list before the same rest are the same.
same_front : {A : Type 0} (xs ys rest : List A) → xs ++ rest ≡ ys ++ rest → xs ≡ ys
same_front xs ys rest e =
    sym (take-append_self (length xs) xs rest refl)
    ∙ ap (take (length xs)) e
    ∙ take-append_self (length xs) ys rest
        (omega (arith, ap length e, length-append xs rest, length-append ys rest))

-- What `recv` adds to what is unread is what the answers it asked for have given.
recv-given_by :
    (c : Conn) (answers asked : List RecvAnswer)
    → IsConn c
    → answers ≡ asked ++ (recv answers c).2
    → unread (recv answers c).1 ≡ unread c ++ given_by asked
recv-given_by c answers asked v e =
    let a = recv-Arrived answers c v in
    a.appended
    ∙ ap (λ xs. unread c ++ given_by xs)
        (same_front a.asked asked (recv answers c).2 (sym a.split ∙ e))

-- A run of service passes on a receiving connection: each pass asks the socket for some of its answers,
-- and then polls until nothing comes. The second index is what those answers have given, the third the
-- frames.
pub data Session : Conn → List ℕ → List Frame → Conn → Type 0 where
  idle : (c : Conn) → Session c [] [] c
  pass :
      (c : Conn) (answers asked : List RecvAnswer) {more : List ℕ} {fs : List Frame} {d : Conn}
      → answers ≡ asked ++ (recv answers c).2
      → Session (drain (length (unread (recv answers c).1)) (recv answers c).1).1 more fs d
      → Session c
          (given_by asked ++ more)
          ((drain (length (unread (recv answers c).1)) (recv answers c).1).0 ++ fs)
          d

nothing_left : (gs : List Frame) (u : List ℕ) → Short gs u → u ≡ encode gs → ([] ≡ gs) × (u ≡ [])
nothing_left [] u s e = (refl, e)
nothing_left (g ∷ gs) u s e =
    absurd (omega (arith, ap length e, length-append (frame_bytes g) (encode gs)))

Short-nil : (gs : List Frame) (u : List ℕ) → u ≡ [] → Short gs u
Short-nil [] u e = tt
Short-nil (g ∷ gs) u e = omega (arith, ap length e, length-frame_bytes g)

Session-frames :
    {c d : Conn} {bs : List ℕ} {fs : List Frame} (gs : List Frame)
    → Session c bs fs d
    → IsConn c
    → All IsFrame gs
    → Short gs (unread c)
    → unread c ++ bs ≡ encode gs
    → (fs ≡ gs) × (unread d ≡ [])
Session-frames gs (idle c) v w s e = nothing_left gs (unread c) s (sym (append-nil _) ∙ e)
Session-frames {d = d} gs (pass c answers asked {more} split run) v w s e =
    let a = recv-given_by c answers asked v split in
    let bs = given_by asked in
    let k =
      drain-Prefixed gs more _ (recv answers c).1 w (recv-IsConn answers c v) (omega arith)
        (rw a (append_assoc (unread c) bs more ∙ e)) in
    let (f, u) = Session-frames k.later run k.valid k.sound k.short k.rest in
    (
      ap (◌++◌ (drain (length (unread (recv answers c).1)) (recv answers c).1).0) f ∙ sym k.frames,
      u,
    )

-- For a connection whose offsets lie in their buffers and that has nothing unread: however the
-- socket cuts the bytes of frames of a valid size into answers and these into passes, once it has given
-- all of them the frames polled are those frames, in order, and nothing is left unread.
pub Session-encode :
    (c : Conn) {d : Conn} {fs : List Frame} (gs : List Frame)
    → IsConn c
    → unread c ≡ []
    → All IsFrame gs
    → Session c (encode gs) fs d
    → (fs ≡ gs) × (unread d ≡ [])
Session-encode c gs v e w run =
    Session-frames gs run v w (Short-nil gs (unread c) e) (ap (λ u. u ++ encode gs) e)
