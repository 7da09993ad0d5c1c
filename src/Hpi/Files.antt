-- ===== src/Hpi/Files.antt =====
-- Reading a file of an archive, `Archive::read` of src/hpi/hpi.cpp, comes to an end.
use ta_engine.Common.{
  ℕ, zero, suc, ◌+◌, ◌-◌, ◌≤◌, ◌<◌, ◌≡◌, refl, ap, ◌∙◌, inl, inr, not, ◌||◌, Option, List, [], ◌∷◌,
  ◌++◌, arith, ltb, ◌==◌, if◌then◌else◌, ltb→ge, Bool-cases, Option-cases, length, get_or, take,
  drop, length-take, length-drop,
}
use ta_engine.Common.Bytes.{same_bytes}
use ta_engine.Crt.{u32_at}
use ta_engine.Hpi.{
  Outcome, returned, thrown, unfinished, chunk_header_size, unmask, deobfuscate, lz77_decompress,
  decrypt, sqsh, inflate, expand, read_payload, read_chunk, read_packed, read_chunks, sized, Entry,
  Archive, read_v1, read_v2, read_entry,
}
use ta_engine.Hpi.Endings.{
  Ends, Ends-bind, Ends-if, Ends-unless, HasSize, checked, lz77_decompress-Ends,
}

abbrev Any : {A : Type 0} → A → Type 0
Any a = Unit

Ends-Any : {A : Type 0} (P : A → Type 0) (o : Outcome A) → Ends P o → Ends Any o
Ends-Any P (returned a) h = tt
Ends-Any P thrown h = tt
Ends-Any P unfinished h = absurd h

length-unmask : (key at : ℕ) (bs : List ℕ) → length (unmask key at bs) ≡ length bs
unfolding unmask
length-unmask key at [] = refl
length-unmask key at (b ∷ bs) = ap suc (length-unmask key (at + 1) bs)

deobfuscate-Ends : (d : List ℕ) (off len key : ℕ) → Ends (HasSize len) (deobfuscate d off len key)
unfolding deobfuscate
deobfuscate-Ends d off len key = Ends-unless (HasSize len) (ltb (length d) (off + len)) _ (λ e.
    let size : length (take len (drop off d)) ≡ len =
      omega
        (arith, length-take len (drop off d), length-drop off d, ltb→ge (length d) (off + len) e) in
    Ends-if (HasSize len) (key == 0) (returned (take len (drop off d)))
      (returned (unmask key off (take len (drop off d)))) size
      (length-unmask key off (take len (drop off d)) ∙ size))

raw-Ends :
    (d : List ℕ) (off len : ℕ)
    → Ends
        (HasSize len)
        (if ltb (length d) (off + len) then thrown else returned (take len (drop off d)))
raw-Ends d off len = Ends-unless (HasSize len) (ltb (length d) (off + len)) _ (λ e.
    omega (arith, length-take len (drop off d), length-drop off d, ltb→ge (length d) (off + len) e))

module _ (uncompress : List ℕ → ℕ → Option (List ℕ)) where
  inflate-Ends : (p : List ℕ) (n : ℕ) → Ends Any (inflate uncompress p n)
  unfolding inflate
  inflate-Ends p n = elim (Option-cases (uncompress p n)) [
    | inl e ↦ rw (inflate, e) tt
    | inr (out, e) ↦ rw (inflate, e) (Ends-if Any (length out == n) (returned out) thrown tt tt)
  ]

  expand-Ends : (m : ℕ) (p : List ℕ) (n : ℕ) → Ends Any (expand uncompress m p n)
  unfolding expand
  expand-Ends m p n = Ends-if Any (m == 0) (returned p) _ tt (
      Ends-if Any (m == 1) (lz77_decompress p n) _
        (Ends-Any (HasSize n) (lz77_decompress p n) (lz77_decompress-Ends p n))
        (Ends-if Any (m == 2) (inflate uncompress p n) thrown (inflate-Ends p n) tt))

  -- A chunk takes its header at the least, and lies within the bytes.
  abbrev Past : List ℕ → ℕ → List ℕ × ℕ → Type 0
  Past d off x = (off + 19 ≤ x.1) × (x.1 ≤ length d)

  read_payload-Past :
      (d : List ℕ) (off method encrypted comp_size decomp_size : ℕ)
      → Ends
          (Past d off)
          (read_payload uncompress d (off + 19) method encrypted comp_size decomp_size)
  unfolding read_payload
  read_payload-Past d off method encrypted comp_size decomp_size =
      let payload = take comp_size (drop (off + 19) d) in
      let plain = if encrypted == 0 then payload else decrypt 0 payload in
      Ends-unless (Past d off) (ltb (length d) (off + 19 + comp_size)) _ (λ e.
        Ends-bind Any (Past d off) (expand uncompress method plain decomp_size)
          (λ out. returned (out, off + 19 + comp_size)) (expand-Ends method plain decomp_size)
          (λ out h. (omega arith, ltb→ge (length d) (off + 19 + comp_size) e)))

  read_chunk-Past : (d : List ℕ) (off : ℕ) → Ends (Past d off) (read_chunk uncompress d off)
  unfolding read_chunk
  read_chunk-Past d off =
      let refused =
        ltb (length d) (off + chunk_header_size) || not (same_bytes (take 4 (drop off d)) sqsh) in
      Ends-unless (Past d off) refused _ (λ e.
        read_payload-Past d off (get_or d (off + 5) 0) (get_or d (off + 6) 0) (u32_at d (off + 7))
          (u32_at d (off + 11)))

  read_chunks-Ends :
      (n : ℕ) (d : List ℕ) (size pos : ℕ) (out : List ℕ)
      → length d - pos < n
      → Ends Any (read_chunks uncompress n d size pos out)
  unfolding read_chunks
  read_chunks-Ends zero d size pos out h = absurd (omega arith)
  read_chunks-Ends (suc n) d size pos out h = elim (Bool-cases (ltb (length out) size)) [
    | inl e ↦
        rw (read_chunks, e)
          (Ends-bind (Past d pos) Any (read_chunk uncompress d pos) _ (read_chunk-Past d pos)
            (λ x k. read_chunks-Ends n d size x.1 (out ++ x.0) (omega (arith, k.0, k.1))))
    | inr e ↦ rw (read_chunks, e) tt
  ]

  read_packed-Ends :
      (n : ℕ) (d table : List ℕ) (pos key : ℕ) (out : List ℕ)
      → Ends Any (read_packed uncompress n d table pos key out)
  unfolding read_packed
  read_packed-Ends zero d table pos key out = tt
  read_packed-Ends (suc n) d table pos key out =
      let packed = u32_at table 0 in
      Ends-bind (HasSize packed) Any (deobfuscate d pos packed key) _
        (deobfuscate-Ends d pos packed key)
        (λ plain h.
          Ends-bind (Past plain 0) Any (read_chunk uncompress plain 0) _ (read_chunk-Past plain 0)
            (λ part k. read_packed-Ends n d (drop 4 table) (pos + packed) key (out ++ part.0)))

  sized-Ends : (n : ℕ) (out : List ℕ) → Ends (HasSize n) (sized n out)
  unfolding sized
  sized-Ends n out = checked n out

  read_v1-Ends :
      (a : Archive) (e : Entry) → Ends (HasSize e.decompressed_size) (read_v1 uncompress a e)
  unfolding read_v1
  read_v1-Ends a e =
      Ends-if (HasSize e.decompressed_size) (e.compression == 0) _ _
        (deobfuscate-Ends a.bytes e.start e.decompressed_size a.key)
        (Ends-bind Any (HasSize e.decompressed_size) _ _
          (Ends-Any _ _ (deobfuscate-Ends a.bytes e.start _ a.key))
          (λ table h.
            Ends-bind Any (HasSize e.decompressed_size) _ (sized e.decompressed_size)
              (read_packed-Ends _ a.bytes table _ a.key [])
              (λ out k. sized-Ends e.decompressed_size out)))

  read_v2-Ends :
      (a : Archive) (e : Entry) → Ends (HasSize e.decompressed_size) (read_v2 uncompress a e)
  unfolding read_v2
  read_v2-Ends a e =
      Ends-if (HasSize e.decompressed_size) (e.compressed_size == 0) _ _
        (raw-Ends a.bytes e.start e.decompressed_size)
        (Ends-bind Any (HasSize e.decompressed_size) _ (sized e.decompressed_size)
          (read_chunks-Ends (length a.bytes + 1) a.bytes e.decompressed_size e.start []
            (omega arith))
          (λ out k. sized-Ends e.decompressed_size out))

  -- Whatever the bytes of an archive and the entry are, and whatever zlib answers, reading a file comes
  -- to an end: it throws, or it returns exactly as many bytes as the entry says.
  pub read_entry-Ends :
      (a : Archive) (e : Entry) → Ends (HasSize e.decompressed_size) (read_entry uncompress a e)
  unfolding read_entry
  read_entry-Ends a e = Ends-if (HasSize e.decompressed_size) e.is_directory thrown _ tt (
      Ends-if (HasSize e.decompressed_size) (a.version == 0x00010000) (read_v1 uncompress a e)
        (read_v2 uncompress a e) (read_v1-Ends a e) (read_v2-Ends a e))
