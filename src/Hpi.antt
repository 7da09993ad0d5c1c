-- ===== src/Hpi.antt =====
-- Reading HPI archives, src/hpi/hpi.h and hpi.cpp: the mask of version 1, the LZ77 decompressor, a
-- chunk, and a file. The bytes of an archive are a list; a call that throws has the outcome `thrown`,
-- and a loop or a recursion whose fuel is spent `unfinished`.
pub mod Tree
pub mod Cycles
pub mod Endings
pub mod Files
use Prim.Native.Nat.{bit_and, bit_or, bit_xor}
use ta_engine.Common.{
  ℕ, zero, suc, ◌+◌, ◌-◌, ◌*◌, ◌/◌, ◌%◌, ◌^◌, ◌≤◌, ◌<◌, min, max, ◌≡◌, refl, sym, ap, ◌∙◌, subst,
  ◌≢◌, ◌↔◌, ◌⊎◌, inl, inr, Bool, true, false, not, ◌&&◌, ◌||◌, Option, none, some, List, [], ◌∷◌,
  ◌++◌, map, append-nil, append_assoc, arith, ltb, leb, ◌==◌, if◌then◌else◌, ltb→lt, lt→ltb, ge→ltb,
  ltb→ge, leb→le, le→leb, gt→leb, ==_iff, ==_refl, ne→==, tests, Bool-cases, Option-cases, length,
  get_elem?, get_or, set, take, drop, replicate, All, length-append, length-set, take-append-drop,
  length-take, length-drop, length-replicate, take-append_self, drop-append_self, take-all,
  drop-all, drop-append, drop-nil, take-append, drop-drop, take-past, drop-past, length-zero,
  take-both,
}
use ta_engine.Common.Bytes.{same_bytes}
use ta_engine.Crt.{u32_at}

pub data Outcome (A : Type 0) : Type 0 where
  returned : A → Outcome A
  thrown : Outcome A
  unfinished : Outcome A

infixl 4 ◌>>=◌
unfoldable pub ◌>>=◌ : {A B : Type 0} → Outcome A → (A → Outcome B) → Outcome B
returned a >>= f = f a
thrown >>= f = thrown
unfinished >>= f = unfinished

abbrev pub chunk_header_size : ℕ
chunk_header_size = 19

abbrev pub v1_chunk_size : ℕ
v1_chunk_size = 65536

unfoldable pub v1_key : ℕ → ℕ
v1_key header_key =
    if header_key == 0 then 0 else 255 - bit_or (header_key * 4 % 2 ^ 32) (header_key / 2 ^ 6) % 256

-- `uint8_t(uint8_t((off + i) ^ key) ^ uint8_t(~out[i]))`
unfoldable pub unmask_byte : ℕ → ℕ → ℕ → ℕ
unmask_byte key at b = bit_xor (bit_xor at key % 256) (255 - b)

unfoldable pub unmask : ℕ → ℕ → List ℕ → List ℕ
unmask key at [] = []
unmask key at (b ∷ bs) = unmask_byte key at b ∷ unmask key (at + 1) bs

unfoldable pub deobfuscate : List ℕ → ℕ → ℕ → ℕ → Outcome (List ℕ)
deobfuscate d off len key =
    if ltb (length d) (off + len)
    then thrown
    else (let out = take len (drop off d) in
        if key == 0 then returned out else returned (unmask key off out))

-- The decompressor's state: `input` is what stands from `inPos` on, and `ended` is the `break`.
pub record Lz : Type 0 where
  pub out : List ℕ
  pub window : List ℕ
  pub window_pos : ℕ
  pub input : List ℕ
  pub tag : ℕ
  pub tag_bit : ℕ
  pub ended : Bool

unfoldable pub lz_push : ℕ → Lz → Lz
lz_push b s = record s {
  out = s.out ++ b ∷ [];
  window = set s.window s.window_pos b;
  window_pos = (s.window_pos + 1) % 4096;
}

-- `for (uint32_t i = 0; i < count && out.size() < outSize; ++i) …`, by the rounds that are left.
unfoldable pub lz_copy : ℕ → ℕ → ℕ → Lz → Lz
lz_copy zero from size s = s
lz_copy (suc n) from size s = elim (ltb (length s.out) size) [
  | true ↦ lz_copy n ((from + 1) % 4096) size (lz_push (get_or s.window from 0) s)
  | false ↦ s
]

-- `take(1)` and `in[inPos++]`; `take(2)` is two of them.
unfoldable pub take_from : List ℕ → Lz → Outcome (ℕ × Lz)
take_from [] s = thrown
take_from (b ∷ rest) s = returned (b, record s { input = rest })

unfoldable pub take_byte : Lz → Outcome (ℕ × Lz)
take_byte s = take_from s.input s

-- `if (tagBit == 0x100) …`
unfoldable pub lz_refill : Lz → Outcome Lz
lz_refill s =
    if s.tag_bit == 0x100
    then take_byte s >>= (λ x. returned (record x.1 { tag = x.0; tag_bit = 1 }))
    else returned s

-- A back reference, or the end of the stream.
unfoldable pub lz_refer : ℕ → ℕ → Lz → Lz
lz_refer ref size s =
    let from = ref / 2 ^ 4 in
    if from == 0 then record s { ended = true } else lz_copy (bit_and ref 0x0f + 2) from size s

unfoldable pub lz_reference : ℕ → Lz → Outcome Lz
lz_reference size s =
    take_byte s
    >>= (λ x. take_byte x.1 >>= (λ y. returned (lz_refer (bit_or x.0 (y.0 * 2 ^ 8)) size y.1)))

unfoldable pub lz_literal : Lz → Outcome Lz
lz_literal s = take_byte s >>= (λ x. returned (lz_push x.0 x.1))

-- The tag bit does not move once the loop is left.
unfoldable pub lz_shift : Lz → Lz
lz_shift s = if s.ended then s else record s { tag_bit = s.tag_bit * 2 }

unfoldable pub lz_round : ℕ → Lz → Outcome Lz
lz_round size s = lz_refill s >>= (λ s.
    (if bit_and s.tag s.tag_bit == 0 then lz_literal s else lz_reference size s)
    >>= (λ s. returned (lz_shift s)))

-- `while (out.size() < outSize) …`
unfoldable pub lz_loop : ℕ → ℕ → Lz → Outcome Lz
lz_loop zero size s = unfinished
lz_loop (suc n) size s = elim (ltb (length s.out) size && not s.ended) [
  | true ↦ lz_round size s >>= lz_loop n size
  | false ↦ returned s
]

-- A round takes a byte at the least, so there are fewer rounds than bytes and one.
unfoldable pub lz77_decompress : List ℕ → ℕ → Outcome (List ℕ)
lz77_decompress input size =
    lz_loop (length input + 1) size (record {
      out = [];
      window = replicate 4096 0;
      window_pos = 1;
      input = input;
      tag = 0;
      tag_bit = 0x100;
      ended = false;
    })
    >>= (λ s. if length s.out == size then returned s.out else thrown)

-- `payload[i] = uint8_t((payload[i] - i) ^ i)`
unfoldable pub decrypt : ℕ → List ℕ → List ℕ
decrypt i [] = []
decrypt i (b ∷ bs) = bit_xor ((b + 2 ^ 32 - i) % 2 ^ 32) i % 256 ∷ decrypt (i + 1) bs

abbrev pub sqsh : List ℕ
sqsh = b'S' ∷ b'Q' ∷ b'S' ∷ b'H' ∷ []

-- `uncompress payload n` is what zlib's `uncompress` puts into a buffer of `n` bytes, or `none` where
-- it does not return Z_OK.
module _ (uncompress : List ℕ → ℕ → Option (List ℕ)) where
  unfoldable pub inflate : List ℕ → ℕ → Outcome (List ℕ)
  inflate payload size = elim (uncompress payload size) [
    | none ↦ thrown
    | some out ↦ if length out == size then returned out else thrown
  ]

  unfoldable pub expand : ℕ → List ℕ → ℕ → Outcome (List ℕ)
  expand method payload size =
      if method == 0
      then returned payload
      else if method == 1
      then lz77_decompress payload size
      else if method == 2
      then inflate payload size
      else thrown

  -- What stands behind the header, at `at`, with the offset behind the chunk.
  unfoldable pub read_payload : List ℕ → ℕ → ℕ → ℕ → ℕ → ℕ → Outcome (List ℕ × ℕ)
  read_payload d at method encrypted comp_size decomp_size =
      if ltb (length d) (at + comp_size)
      then thrown
      else (let payload = take comp_size (drop at d) in
          expand method (if encrypted == 0 then payload else decrypt 0 payload) decomp_size
          >>= (λ out. returned (out, at + comp_size)))

  unfoldable pub read_chunk : List ℕ → ℕ → Outcome (List ℕ × ℕ)
  read_chunk d off =
      if ltb (length d) (off + chunk_header_size) || not (same_bytes (take 4 (drop off d)) sqsh)
      then thrown
      else read_payload d (off + chunk_header_size) (get_or d (off + 5) 0) (get_or d (off + 6) 0)
          (u32_at d (off + 7)) (u32_at d (off + 11))

  -- A version 1 file's chunks, by the rounds that are left; `table` is what stands from `&table[i * 4]`.
  unfoldable pub read_packed : ℕ → List ℕ → List ℕ → ℕ → ℕ → List ℕ → Outcome (List ℕ)
  read_packed zero d table pos key out = returned out
  read_packed (suc n) d table pos key out =
      let packed = u32_at table 0 in
      deobfuscate d pos packed key >>= (λ plain.
        read_chunk plain 0
        >>= (λ part. read_packed n d (drop 4 table) (pos + packed) key (out ++ part.0)))

  -- `while (out.size() < entry.decompressedSize) …`
  unfoldable pub read_chunks : ℕ → List ℕ → ℕ → ℕ → List ℕ → Outcome (List ℕ)
  read_chunks zero d size pos out = unfinished
  read_chunks (suc n) d size pos out = elim (ltb (length out) size) [
    | true ↦ read_chunk d pos >>= (λ chunk. read_chunks n d size chunk.1 (out ++ chunk.0))
    | false ↦ returned out
  ]

unfoldable pub sized : ℕ → List ℕ → Outcome (List ℕ)
sized size out = if length out == size then returned out else thrown

pub record Entry : Type 0 where
  pub path : List ℕ
  pub is_directory : Bool
  pub start : ℕ
  pub decompressed_size : ℕ
  pub compressed_size : ℕ
  pub date : ℕ
  pub compression : ℕ

-- What `read` uses of an archive: the version and the key of its header, and its bytes.
pub record Archive : Type 0 where
  pub version : ℕ
  pub key : ℕ
  pub bytes : List ℕ

module _ (uncompress : List ℕ → ℕ → Option (List ℕ)) where
  unfoldable pub read_v1 : Archive → Entry → Outcome (List ℕ)
  read_v1 a e =
      if e.compression == 0
      then deobfuscate a.bytes e.start e.decompressed_size a.key
      else (let chunks = (e.decompressed_size + v1_chunk_size - 1) % 2 ^ 32 / v1_chunk_size in
          deobfuscate a.bytes e.start (chunks * 4) a.key >>= (λ table.
            read_packed uncompress chunks a.bytes table (e.start + chunks * 4) a.key []
            >>= sized e.decompressed_size))

  -- A chunk takes its header at the least, so there are fewer rounds than bytes and one.
  unfoldable pub read_v2 : Archive → Entry → Outcome (List ℕ)
  read_v2 a e =
      if e.compressed_size == 0
      then (if ltb (length a.bytes) (e.start + e.decompressed_size)
          then thrown
          else returned (take e.decompressed_size (drop e.start a.bytes)))
      else (read_chunks uncompress (length a.bytes + 1) a.bytes e.decompressed_size e.start []
          >>= sized e.decompressed_size)

  unfoldable pub read_entry : Archive → Entry → Outcome (List ℕ)
  read_entry a e =
      if e.is_directory
      then thrown
      else if a.version == 0x00010000
      then read_v1 a e
      else read_v2 a e
