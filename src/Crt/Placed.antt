-- ===== src/Crt/Placed.antt =====
-- The records of src/crt/crt.cpp for a placed unit and for a region.
use ta_engine.Common.{
  ℕ, ◌+◌, ◌-◌, ◌*◌, ◌<◌, ◌≡◌, refl, sym, ap, ◌∙◌, List, [], ◌++◌, append_assoc, arith, length,
  get_or, replicate, length-append, length-replicate,
}
use ta_engine.Crt.{
  u32_at, c_str, str_at, field, zero_fill, write_i32s, ScenarioUnit, Region, parse_unit, write_unit,
  parse_region, write_region, unit_rec, region_rec,
}
use ta_engine.Crt.Fields.{
  words, field_bytes, length-words, u32_at-words, length-field_bytes, str_at-field_bytes,
}
use ta_engine.Crt.Records.{
  Recorded, keep_unit, keep_region, unit_words, IsUnit, region_words, IsRegion, field_writes,
  write_i32s-words,
}

zeros : ℕ → List ℕ
zeros n = replicate n 0

length-zeros : (n : ℕ) → length (zeros n) ≡ n
unfolding zeros
length-zeros n = length-replicate {A = ℕ} n 0

-- What is left to fill of a record of `n` bytes, with `xs` written.
filled :
    (b xs : List ℕ) (n k : ℕ)
    → n ≡ length xs + k
    → zero_fill (n - (length (b ++ xs) - length b)) (b ++ xs) ≡ b ++ (xs ++ zeros k)
unfolding zero_fill zeros
filled b xs n k h =
    ap (λ m. (b ++ xs) ++ replicate m 0) {x = n - (length (b ++ xs) - length b)} {y = k}
      (omega (arith, length-append b xs))
    ∙ append_assoc b xs (replicate k 0)

module _ (u : ScenarioUnit) (h : IsUnit u) where
  unit_names : List ℕ
  unit_names = field_bytes u.object_name 256 ++ field_bytes u.unique_name 256

  unit_fields : List ℕ
  unit_fields = unit_names ++ words (unit_words u)

  unit_bytes : List ℕ
  unit_bytes = unit_fields ++ zeros 20

  length-unit_names : length unit_names ≡ 512
  unfolding unit_names
  length-unit_names = omega (
    arith,
    length-append (field_bytes u.object_name 256) (field_bytes u.unique_name 256),
    length-field_bytes u.object_name 256,
    length-field_bytes u.unique_name 256,
  )

  length-unit_fields : length unit_fields ≡ 548
  unfolding unit_fields
  length-unit_fields = omega (
    arith,
    length-append unit_names (words (unit_words u)),
    length-unit_names,
    length-words (unit_words u),
  )

  unit_word :
      (rest : List ℕ) (i : ℕ)
      → i < 9
      → u32_at (unit_bytes ++ rest) (512 + 4 * i) ≡ get_or (unit_words u) i 0
  unfolding unit_bytes unit_fields
  unit_word rest i hi =
      ap (λ l. u32_at l (512 + 4 * i))
        (append_assoc unit_fields (zeros 20) rest
          ∙ append_assoc unit_names (words (unit_words u)) (zeros 20 ++ rest))
      ∙ u32_at-words unit_names (unit_words u) (zeros 20 ++ rest) (512 + 4 * i) i
          (omega (arith, length-unit_names)) hi h

  unit_split :
      (rest : List ℕ)
      → unit_bytes ++ rest
        ≡ field_bytes u.object_name 256
          ++ (field_bytes u.unique_name 256 ++ (words (unit_words u) ++ (zeros 20 ++ rest)))
  unfolding unit_bytes unit_fields unit_names
  unit_split rest = simp append_assoc

  unit_name : (rest : List ℕ) → str_at (unit_bytes ++ rest) 0 256 ≡ c_str 255 u.object_name
  unit_name rest =
      ap (λ l. str_at l 0 256) (unit_split rest)
      ∙ str_at-field_bytes [] u.object_name
          (field_bytes u.unique_name 256 ++ (words (unit_words u) ++ (zeros 20 ++ rest))) 0 255 refl

  unit_unique : (rest : List ℕ) → str_at (unit_bytes ++ rest) 256 256 ≡ c_str 255 u.unique_name
  unit_unique rest =
      ap (λ l. str_at l 256 256) (unit_split rest)
      ∙ str_at-field_bytes (field_bytes u.object_name 256) u.unique_name
          (words (unit_words u) ++ (zeros 20 ++ rest)) 256 255
          (sym (length-field_bytes u.object_name 256))

  parse_unit-unit_bytes : (rest : List ℕ) → parse_unit (unit_bytes ++ rest) ≡ keep_unit u
  unfolding parse_unit keep_unit
  parse_unit-unit_bytes rest = rw (
    unit_name rest,
    unit_unique rest,
    unit_word rest 0 (omega arith),
    unit_word rest 1 (omega arith),
    unit_word rest 2 (omega arith),
    unit_word rest 3 (omega arith),
    unit_word rest 4 (omega arith),
    unit_word rest 5 (omega arith),
    unit_word rest 6 (omega arith),
    unit_word rest 7 (omega arith),
    unit_word rest 8 (omega arith),
  )

  fields_written :
      (b : List ℕ)
      → write_i32s (unit_words u) (field u.unique_name 256 (field u.object_name 256 b))
        ≡ b ++ unit_fields
  unfolding unit_fields unit_names
  fields_written b =
      rw
        (
          field_writes u.object_name 256 b,
          field_writes u.unique_name 256 (b ++ field_bytes u.object_name 256),
          write_i32s-words (unit_words u)
              ((b ++ field_bytes u.object_name 256) ++ field_bytes u.unique_name 256),
        )
        (simp append_assoc)

  pub Recorded-unit : Recorded (write_unit u) unit_rec parse_unit (keep_unit u)
  unfolding write_unit unit_bytes write_i32s
  Recorded-unit = record {
    bytes = unit_bytes;
    writes = λ b.
        ap (λ w. zero_fill (unit_rec - (length w - length b)) w) (fields_written b)
        ∙ filled b unit_fields unit_rec 20 (omega (arith, length-unit_fields));
    sized =
        omega (arith, length-append unit_fields (zeros 20), length-unit_fields, length-zeros 20);
    reads = parse_unit-unit_bytes;
  }

module _ (r : Region) (h : IsRegion r) where
  region_head : List ℕ
  region_head = field_bytes r.name 64 ++ zeros 192

  region_bytes : List ℕ
  region_bytes = region_head ++ words (region_words r)

  length-region_head : length region_head ≡ 256
  unfolding region_head
  length-region_head = omega (
    arith,
    length-append (field_bytes r.name 64) (zeros 192),
    length-field_bytes r.name 64,
    length-zeros 192,
  )

  region_word :
      (rest : List ℕ) (i : ℕ)
      → i < 4
      → u32_at (region_bytes ++ rest) (256 + 4 * i) ≡ get_or (region_words r) i 0
  unfolding region_bytes
  region_word rest i hi =
      ap (λ l. u32_at l (256 + 4 * i)) (append_assoc region_head (words (region_words r)) rest)
      ∙ u32_at-words region_head (region_words r) rest (256 + 4 * i) i
          (omega (arith, length-region_head)) hi h

  region_name : (rest : List ℕ) → str_at (region_bytes ++ rest) 0 64 ≡ c_str 63 r.name
  unfolding region_bytes region_head
  region_name rest =
      ap (λ l. str_at l 0 64)
        {y = field_bytes r.name 64 ++ (zeros 192 ++ (words (region_words r) ++ rest))}
        (simp append_assoc)
      ∙ str_at-field_bytes [] r.name (zeros 192 ++ (words (region_words r) ++ rest)) 0 63 refl

  parse_region-region_bytes : (rest : List ℕ) → parse_region (region_bytes ++ rest) ≡ keep_region r
  unfolding parse_region keep_region
  parse_region-region_bytes rest = rw (
    region_name rest,
    region_word rest 0 (omega arith),
    region_word rest 1 (omega arith),
    region_word rest 2 (omega arith),
    region_word rest 3 (omega arith),
  )

  pub Recorded-region : Recorded (write_region r) region_rec parse_region (keep_region r)
  unfolding write_region region_bytes region_head write_i32s
  Recorded-region = record {
    bytes = region_bytes;
    writes = λ b.
        ap (λ w. write_i32s (region_words r) (zero_fill (0x100 - (length w - length b)) w))
          (field_writes r.name 64 b)
        ∙ ap (write_i32s (region_words r)) (
            filled b (field_bytes r.name 64) 0x100 192
              (omega (arith, length-field_bytes r.name 64)))
        ∙ write_i32s-words (region_words r) (b ++ region_head)
        ∙ append_assoc b region_head (words (region_words r));
    sized = omega (
      arith,
      length-append region_head (words (region_words r)),
      length-region_head,
      length-words (region_words r),
    );
    reads = parse_region-region_bytes;
  }
