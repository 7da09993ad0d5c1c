-- ===== src/Net/Wire/RoundTrip.antt =====
-- The codecs of src/net/protocol.h read back what they write. `RoundTrip` composes: a message is
-- proved field by field.
use ta_engine.Common.{
  ℕ, zero, suc, ◌+◌, ◌*◌, ◌/◌, ◌%◌, ◌^◌, ◌<◌, ◌≡◌, refl, sym, ap, ◌∙◌, true, List, [], ◌∷◌, ◌++◌,
  append-nil, append_assoc, arith, le→leb, length, All, length-append,
}
use ta_engine.Common.Bits.{bit_or-disjoint}
use native.Mathlib.Nat.{pow-zero, pow-suc, div-div-eq-div-mul}
use native.Mathlib.Numerals.{towards_suc}
use ta_engine.Common.Word.{IsByte, IsU32, IsU64}
use ta_engine.Net.Wire.{
  Put, ◌>>◌, put_nothing, put_u8, put_le, put_u32, put_u64, put_f32, Reader, Get, ◌>>=◌, pure,
  get_u8, get_le, get_word, get_u32, get_u64, get_f32,
}

-- `m` appends `bs`, whatever is in the buffer.
abbrev pub Writes : Put → List ℕ → Type 0
Writes m bs = (b : List ℕ) → m b ≡ b ++ bs

-- With the flag up `m` reads `v` from `bs`, leaves what follows, and leaves the flag.
abbrev pub Reads : {A : Type 0} → Get A → A → List ℕ → Type 0
Reads {A} m v bs =
    (rest : List ℕ) (r : Reader) → r.p ≡ bs ++ rest → r.ok ≡ true → m r ≡ (v, record r { p = rest })

pub record RoundTrip {A : Type 0} (put : Put) (get : Get A) (v : A) : Type 0 where
  pub written : List ℕ
  pub writes : Writes put written
  pub reads : Reads get v written

pub RoundTrip-pure : {A : Type 0} (a : A) → RoundTrip put_nothing (pure a) a
unfolding put_nothing pure
RoundTrip-pure a = record {
  written = [];
  writes = λ b. sym (append-nil b);
  reads = λ rest r h k. ap (λ q. (a, record r { p = q })) h;
}

pub RoundTrip-seq :
    {A B : Type 0} {m k : Put} {g : Get A} (f : A → Get B) (a : A) {v : B}
    → RoundTrip m g a
    → RoundTrip k (f a) v
    → RoundTrip (m >> k) (g >>= f) v
unfolding ◌>>◌ ◌>>=◌
RoundTrip-seq f a s t = record {
  written = s.written ++ t.written;
  writes = λ b. rw (s.writes b, t.writes (b ++ s.written)) (append_assoc b s.written t.written);
  reads = λ rest r h k.
      rw (s.reads (t.written ++ rest) r (h ∙ append_assoc s.written t.written rest) k)
        (t.reads rest (record r { p = t.written ++ rest }) refl k);
}

-- The last field, and the value that is built of the fields.
pub RoundTrip-last :
    {A B : Type 0} {m : Put} {g : Get A} (build : A → B) (a : A)
    → RoundTrip m g a
    → RoundTrip m (g >>= (λ x. pure (build x))) (build a)
unfolding ◌>>=◌ pure
RoundTrip-last build a s = record {
  written = s.written;
  writes = s.writes;
  reads = λ rest r h k. rw (s.reads rest r h k);
}

-- What a round trip says of buffers.
pub RoundTrip-read :
    {A : Type 0} {m : Put} {g : Get A} {v : A}
    → RoundTrip m g v
    → (rest : List ℕ)
    → g (record { p = m [] ++ rest; ok = true }) ≡ (v, record { p = rest; ok = true })
RoundTrip-read s rest = s.reads rest _ (ap (λ b. b ++ rest) (s.writes [])) refl

-- The little-endian bytes of a number, and the number that bytes stand for.
unfoldable pub le_bytes : ℕ → ℕ → List ℕ
le_bytes zero v = []
le_bytes (suc n) v = v % 256 ∷ le_bytes n (v / 256)

unfoldable pub le_value : List ℕ → ℕ
le_value [] = 0
le_value (b ∷ bs) = b + 256 * le_value bs

pub length-le_bytes : (n v : ℕ) → length (le_bytes n v) ≡ n
unfolding le_bytes
length-le_bytes zero v = refl
length-le_bytes (suc n) v = ap suc (length-le_bytes n (v / 256))

pub All-le_bytes : (n v : ℕ) → All IsByte (le_bytes n v)
unfolding le_bytes
All-le_bytes zero v = tt
All-le_bytes (suc n) v = (omega arith, All-le_bytes n (v / 256))

le_value-le_bytes : (n v : ℕ) → v < 256 ^ n → le_value (le_bytes n v) ≡ v
unfolding le_bytes le_value
le_value-le_bytes zero v h = omega (arith, pow-zero 256)
le_value-le_bytes (suc n) v h =
    omega (arith, le_value-le_bytes n (v / 256) (omega (arith, pow-suc 256 n)))

-- A round moves on by one byte.
shift_byte : (i : ℕ) → 2 ^ (8 * (i + 1)) ≡ 2 ^ (8 * i) * 256
shift_byte i =
    ap (◌^◌ 2) {x = 8 * (i + 1)} {y = 8 * i + 8} (omega arith) ∙ simp towards_suc (omega arith)

pub put_le-le_bytes : (n i v : ℕ) (b : List ℕ) → put_le n i v b ≡ b ++ le_bytes n (v / 2 ^ (8 * i))
unfolding put_le le_bytes
put_le-le_bytes zero i v b = sym (append-nil b)
put_le-le_bytes (suc n) i v b =
    rw (put_le-le_bytes n (i + 1) v, shift_byte i, ← div-div-eq-div-mul v (2 ^ (8 * i)) 256)
      (append_assoc b _ _)

pub put_u32-le_bytes : (v : ℕ) (b : List ℕ) → put_u32 v b ≡ b ++ le_bytes 4 v
unfolding put_u32
put_u32-le_bytes v b = put_le-le_bytes 4 0 v b ∙ ap (λ x. b ++ le_bytes 4 x) (omega arith)

pub get_le-le_value :
    (n i v : ℕ) (bs rest : List ℕ)
    → length bs ≡ n
    → All IsByte bs
    → v < 2 ^ (8 * i)
    → get_le n i v (bs ++ rest) ≡ (v + le_value bs * 2 ^ (8 * i), rest)
unfolding get_le le_value
get_le-le_value zero i v [] rest hl hb hv = ap (λ x. (x, rest)) (omega arith)
get_le-le_value zero i v (b ∷ bs) rest hl hb hv = absurd (omega arith)
get_le-le_value (suc n) i v [] rest hl hb hv = absurd (omega arith)
get_le-le_value (suc n) i v (b ∷ bs) rest hl (hb, hbs) hv = rw (bit_or-disjoint (8 * i) v b hv) (
    get_le-le_value n (i + 1) (v + b * 2 ^ (8 * i)) bs rest (omega arith) hbs
      (grind (arith, shift_byte i))
    ∙ ap (λ x. (x, rest)) (omega (arith, ap (λ (t : ℕ). le_value bs * t) (shift_byte i))))

pub RoundTrip-u8 : (v : ℕ) → v < 256 → RoundTrip (put_u8 v) get_u8 v
unfolding put_u8 get_u8
RoundTrip-u8 v h = record {
  written = v ∷ [];
  writes = λ b. ap (λ x. b ++ x ∷ []) (omega arith);
  reads = λ rest r e k. rw (e, get_u8);
}

le_read_back :
    (n v : ℕ) (rest : List ℕ) → v < 256 ^ n → get_le n 0 0 (le_bytes n v ++ rest) ≡ (v, rest)
le_read_back n v rest h =
    get_le-le_value n 0 0 (le_bytes n v) rest (length-le_bytes n v) (All-le_bytes n v) (omega arith)
    ∙ ap (λ x. (x, rest)) (omega (arith, le_value-le_bytes n v h))

word_reads :
    (n v : ℕ) (rest : List ℕ) (r : Reader)
    → v < 256 ^ n
    → r.p ≡ le_bytes n v ++ rest
    → get_word n r ≡ (v, record r { p = rest })
unfolding get_word
word_reads n v rest r h e =
    rw (e, get_word)
      (rw (
        le→leb n (length (le_bytes n v ++ rest))
            (omega (arith, length-append (le_bytes n v) rest, length-le_bytes n v)),
        le_read_back n v rest h,
      ))

-- A word of `n` bytes.
RoundTrip-word : (n v : ℕ) → v < 256 ^ n → RoundTrip (put_le n 0 v) (get_word n) v
RoundTrip-word n v h = record {
  written = le_bytes n v;
  writes = λ b. put_le-le_bytes n 0 v b ∙ ap (λ x. b ++ le_bytes n x) (omega arith);
  reads = λ rest r e k. word_reads n v rest r h e;
}

pub RoundTrip-u32 : (v : ℕ) → IsU32 v → RoundTrip (put_u32 v) get_u32 v
unfolding put_u32 get_u32
RoundTrip-u32 v h = RoundTrip-word 4 v h

pub RoundTrip-u64 : (v : ℕ) → IsU64 v → RoundTrip (put_u64 v) get_u64 v
unfolding put_u64 get_u64
RoundTrip-u64 v h = RoundTrip-word 8 v h

pub RoundTrip-f32 : (v : ℕ) → IsU32 v → RoundTrip (put_f32 v) get_f32 v
unfolding put_f32 get_f32
RoundTrip-f32 v h = RoundTrip-u32 v h

pub get_u32-le_bytes :
    (v : ℕ) (rest : List ℕ) (r : Reader)
    → IsU32 v
    → r.p ≡ le_bytes 4 v ++ rest
    → get_u32 r ≡ (v, record r { p = rest })
unfolding get_u32
get_u32-le_bytes v rest r h e = word_reads 4 v rest r h e
