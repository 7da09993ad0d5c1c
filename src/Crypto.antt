-- ===== src/Crypto.antt =====
-- The hashes of src/net/crypto.h and crypto.cpp: SHA-256, HMAC, PBKDF2, and the helpers beside them.
-- A `uint32_t` is a number below 2 ^ 32 and a byte a number below 256; a sum wraps once at its end.
pub mod Streaming
pub mod Reference
pub mod Mac
pub mod Keys
pub mod Hex
use Prim.Native.Nat.{bit_and, bit_or, bit_xor}
use ta_engine.Common.{
  ℕ, zero, suc, ◌+◌, ◌-◌, ◌*◌, ◌/◌, ◌%◌, ◌^◌, ◌≤◌, ◌<◌, min, max, ◌≡◌, refl, sym, ap, ◌∙◌, subst,
  ◌≢◌, ◌↔◌, ◌⊎◌, inl, inr, Bool, true, false, not, ◌&&◌, ◌||◌, Option, none, some, List, [], ◌∷◌,
  ◌++◌, map, append-nil, append_assoc, arith, ltb, leb, ◌==◌, if◌then◌else◌, ltb→lt, lt→ltb, ge→ltb,
  ltb→ge, leb→le, le→leb, gt→leb, ==_iff, ==_refl, tests, Bool-cases, Option-cases, length,
  get_elem?, get_or, set, take, drop, replicate, All, length-append, length-set, take-append-drop,
  length-take, length-drop, length-replicate, take-append_self, drop-append_self, take-all,
  drop-all, drop-append, drop-nil, take-append, drop-drop,
}
use ta_engine.Common.Int32.{word, not32}

abbrev pub block_len : ℕ
block_len = 64

abbrev pub hash_len : ℕ
hash_len = 32

unfoldable pub rotr : ℕ → ℕ → ℕ
rotr x n = bit_or (x / 2 ^ n) (x * 2 ^ (32 - n) % word)

-- `K`
abbrev pub round_constants : List ℕ
round_constants =
    0x428a2f98 ∷ 0x71374491 ∷ 0xb5c0fbcf ∷ 0xe9b5dba5 ∷ 0x3956c25b ∷ 0x59f111f1 ∷ 0x923f82a4
    ∷ 0xab1c5ed5 ∷ 0xd807aa98 ∷ 0x12835b01 ∷ 0x243185be ∷ 0x550c7dc3 ∷ 0x72be5d74 ∷ 0x80deb1fe
    ∷ 0x9bdc06a7 ∷ 0xc19bf174 ∷ 0xe49b69c1 ∷ 0xefbe4786 ∷ 0x0fc19dc6 ∷ 0x240ca1cc ∷ 0x2de92c6f
    ∷ 0x4a7484aa ∷ 0x5cb0a9dc ∷ 0x76f988da ∷ 0x983e5152 ∷ 0xa831c66d ∷ 0xb00327c8 ∷ 0xbf597fc7
    ∷ 0xc6e00bf3 ∷ 0xd5a79147 ∷ 0x06ca6351 ∷ 0x14292967 ∷ 0x27b70a85 ∷ 0x2e1b2138 ∷ 0x4d2c6dfc
    ∷ 0x53380d13 ∷ 0x650a7354 ∷ 0x766a0abb ∷ 0x81c2c92e ∷ 0x92722c85 ∷ 0xa2bfe8a1 ∷ 0xa81a664b
    ∷ 0xc24b8b70 ∷ 0xc76c51a3 ∷ 0xd192e819 ∷ 0xd6990624 ∷ 0xf40e3585 ∷ 0x106aa070 ∷ 0x19a4c116
    ∷ 0x1e376c08 ∷ 0x2748774c ∷ 0x34b0bcb5 ∷ 0x391c0cb3 ∷ 0x4ed8aa4a ∷ 0x5b9cca4f ∷ 0x682e6ff3
    ∷ 0x748f82ee ∷ 0x78a5636f ∷ 0x84c87814 ∷ 0x8cc70208 ∷ 0x90befffa ∷ 0xa4506ceb ∷ 0xbef9a3f7
    ∷ 0xc67178f2 ∷ []

unfoldable pub be32 : List ℕ → ℕ → ℕ
be32 p i =
    bit_or
      (bit_or (bit_or (get_or p i 0 * 2 ^ 24) (get_or p (i + 1) 0 * 2 ^ 16))
        (get_or p (i + 2) 0 * 2 ^ 8))
      (get_or p (i + 3) 0)

unfoldable pub put_be32 : ℕ → List ℕ
put_be32 v = v / 2 ^ 24 % 256 ∷ v / 2 ^ 16 % 256 ∷ v / 2 ^ 8 % 256 ∷ v % 256 ∷ []

-- `Sha256`: `buf` holds the first `n_` bytes of `buf_`, the only ones that are read.
pub record Sha256 : Type 0 where
  pub h : List ℕ
  pub bits : ℕ
  pub buf : List ℕ

-- `reset`
abbrev pub initial : List ℕ
initial =
    0x6a09e667 ∷ 0xbb67ae85 ∷ 0x3c6ef372 ∷ 0xa54ff53a ∷ 0x510e527f ∷ 0x9b05688c ∷ 0x1f83d9ab
    ∷ 0x5be0cd19 ∷ []

abbrev pub fresh : Sha256
fresh = record { h = initial; bits = 0; buf = [] }

-- `for (int i = …; i < 16; ++i) w[i] = be32(p + i * 4)`, by the rounds that are left.
unfoldable pub load_words : List ℕ → ℕ → ℕ → List ℕ
load_words p i zero = []
load_words p i (suc n) = be32 p (i * 4) ∷ load_words p (i + 1) n

unfoldable pub small0 : ℕ → ℕ
small0 x = bit_xor (bit_xor (rotr x 7) (rotr x 18)) (x / 2 ^ 3)

unfoldable pub small1 : ℕ → ℕ
small1 x = bit_xor (bit_xor (rotr x 17) (rotr x 19)) (x / 2 ^ 10)

-- `w[i]`, from the 16 words before it.
unfoldable pub next_word : List ℕ → ℕ → ℕ
next_word w i =
    (get_or w (i - 16) 0
      + small0 (get_or w (i - 15) 0)
      + get_or w (i - 7) 0
      + small1 (get_or w (i - 2) 0))
    % word

unfoldable pub extend : ℕ → ℕ → List ℕ → List ℕ
extend zero i w = w
extend (suc n) i w = extend n (i + 1) (w ++ next_word w i ∷ [])

unfoldable pub schedule : List ℕ → List ℕ
schedule p = extend 48 16 (load_words p 0 16)

pub record Vars : Type 0 where
  pub a : ℕ
  pub b : ℕ
  pub c : ℕ
  pub d : ℕ
  pub e : ℕ
  pub f : ℕ
  pub g : ℕ
  pub hh : ℕ

unfoldable pub round : ℕ → ℕ → Vars → Vars
round k w v =
    let s1 = bit_xor (bit_xor (rotr v.e 6) (rotr v.e 11)) (rotr v.e 25) in
    let ch = bit_xor (bit_and v.e v.f) (bit_and (not32 v.e) v.g) in
    let t1 = (v.hh + s1 + ch + k + w) % word in
    let s0 = bit_xor (bit_xor (rotr v.a 2) (rotr v.a 13)) (rotr v.a 22) in
    let maj = bit_xor (bit_xor (bit_and v.a v.b) (bit_and v.a v.c)) (bit_and v.b v.c) in
    let t2 = (s0 + maj) % word in
    record {
      a = (t1 + t2) % word;
      b = v.a;
      c = v.b;
      d = v.c;
      e = (v.d + t1) % word;
      f = v.e;
      g = v.f;
      hh = v.g;
    }

unfoldable pub rounds : List ℕ → List ℕ → Vars → Vars
rounds (k ∷ ks) (w ∷ ws) v = rounds ks ws (round k w v)
rounds ks ws v = v

unfoldable pub load_vars : List ℕ → Vars
load_vars h = record {
  a = get_or h 0 0;
  b = get_or h 1 0;
  c = get_or h 2 0;
  d = get_or h 3 0;
  e = get_or h 4 0;
  f = get_or h 5 0;
  g = get_or h 6 0;
  hh = get_or h 7 0;
}

-- `Sha256::block` on `h_`.
unfoldable pub block : List ℕ → List ℕ → List ℕ
block h p =
    let v = rounds round_constants (schedule p) (load_vars h) in
    (get_or h 0 0 + v.a) % word
    ∷ (get_or h 1 0 + v.b) % word
    ∷ (get_or h 2 0 + v.c) % word
    ∷ (get_or h 3 0 + v.d) % word
    ∷ (get_or h 4 0 + v.e) % word
    ∷ (get_or h 5 0 + v.f) % word
    ∷ (get_or h 6 0 + v.g) % word
    ∷ (get_or h 7 0 + v.hh) % word
    ∷ []

-- `if (n_) { … }`, with the data that is left.
unfoldable pub top_up : List ℕ → Sha256 → Sha256 × List ℕ
top_up p s =
    if length s.buf == 0
    then (s, p)
    else (let n = min (block_len - length s.buf) (length p) in
        let buf = s.buf ++ take n p in
        if length buf == block_len
        then (record s { h = block s.h buf; buf = [] }, drop n p)
        else (record s { buf = buf }, drop n p))

-- `while (len >= kBlockLen) …`; a round takes 64 bytes, so the length is fuel enough.
unfoldable pub whole_blocks : ℕ → List ℕ → List ℕ → List ℕ × List ℕ
whole_blocks zero h p = (h, p)
whole_blocks (suc n) h p = elim (leb block_len (length p)) [
  | true ↦ whole_blocks n (block h (take block_len p)) (drop block_len p)
  | false ↦ (h, p)
]

unfoldable pub update : List ℕ → Sha256 → Sha256
update input s =
    let (s, p) = top_up input (record s { bits = (s.bits + length input * 8) % 2 ^ 64 }) in
    let (h, p) = whole_blocks (length p) s.h p in
    if length p == 0 then record s { h = h } else record s { h = h; buf = p }

-- `for (int i = 0; i < 8; ++i) lenBe[i] = uint8_t(bits >> (56 - i * 8))`
unfoldable pub length_bytes : ℕ → List ℕ
length_bytes v =
    v / 2 ^ 56 % 256
    ∷ v / 2 ^ 48 % 256
    ∷ v / 2 ^ 40 % 256
    ∷ v / 2 ^ 32 % 256
    ∷ v / 2 ^ 24 % 256
    ∷ v / 2 ^ 16 % 256
    ∷ v / 2 ^ 8 % 256
    ∷ v % 256
    ∷ []

unfoldable pub put_words : List ℕ → List ℕ
put_words [] = []
put_words (w ∷ ws) = put_be32 w ++ put_words ws

-- `Sha256::final`, the digest.
unfoldable pub final : Sha256 → List ℕ
final s =
    let s1 = record (update (0x80 ∷ []) s) { bits = s.bits } in
    let n = length s1.buf in
    let need = if leb n 56 then 56 - n else 56 + block_len - n in
    let s2 = if need == 0 then s1 else record (update (replicate need 0) s1) { bits = s.bits } in
    put_words (update (length_bytes s.bits) s2).h

unfoldable pub sha256 : List ℕ → List ℕ
sha256 input = final (update input fresh)
