-- ===== src/Crt/Records.antt =====
-- The records of fixed size of src/crt/crt.cpp: what each is read back as.
use ta_engine.Common.{
  ℕ, suc, ◌+◌, ◌*◌, ◌≡◌, refl, sym, ap, ◌∙◌, List, [], ◌∷◌, ◌++◌, map, append-nil, append_assoc,
  arith, length, All, length-append,
}
use ta_engine.Common.Word.{IsU32}
use ta_engine.Crt.{
  c_str, u32v, field, slots_at, write_slots, write_i32s, Rule, CustomType, ScenarioUnit, Region,
  parse_rule, write_rule, parse_type, write_type, strip_right, rule_rec, type_rec,
}
use ta_engine.Crt.Fields.{
  le4, words, field_bytes, length-le4, length-words, u32_at-le4, i32s_at-words, length-field_bytes,
  str_at-field_bytes,
}

-- `put` appends `size` bytes, and `read` finds `v` in them, whatever follows.
pub record Recorded {A : Type 0} (put : List ℕ → List ℕ) (size : ℕ) (read : List ℕ → A) (v : A)
    : Type 0 where
  pub bytes : List ℕ
  pub writes : (b : List ℕ) → put b ≡ b ++ bytes
  pub sized : length bytes ≡ size
  pub reads : (rest : List ℕ) → read (bytes ++ rest) ≡ v

-- What a file keeps of a name: at most `cap - 1` bytes, up to the first NUL.
unfoldable pub keep_type : CustomType → CustomType
keep_type c = record c { name = c_str 255 c.name }

unfoldable pub keep_unit : ScenarioUnit → ScenarioUnit
keep_unit u = record u {
  object_name = c_str 255 u.object_name;
  unique_name = c_str 255 u.unique_name;
}

unfoldable pub keep_rule : Rule → Rule
keep_rule r = record r { slot = map (c_str 63) r.slot }

unfoldable pub keep_region : Region → Region
keep_region r = record r { name = strip_right (c_str 63 r.name) }

-- The fields are machine words, and the arrays have their lengths.
pub record IsType (c : CustomType) : Type 0 where
  pub four : length c.stat ≡ 4
  pub words : All IsU32 c.stat

pub record IsRule (r : Rule) : Type 0 where
  pub five : length r.slot ≡ 5
  pub word : IsU32 r.opcode

abbrev pub unit_words : ScenarioUnit → List ℕ
unit_words u = u.x ∷ u.y ∷ u.z ∷ u.player ∷ u.health ∷ u.armor ∷ u.weapon ∷ u.angle ∷ u.veteran ∷ []

abbrev pub IsUnit : ScenarioUnit → Type 0
IsUnit u = All IsU32 (unit_words u)

abbrev pub region_words : Region → List ℕ
region_words r = r.x1 ∷ r.z1 ∷ r.x2 ∷ r.z2 ∷ []

abbrev pub IsRegion : Region → Type 0
IsRegion r = All IsU32 (region_words r)

pub field_writes : (s : List ℕ) (n : ℕ) (b : List ℕ) → field s n b ≡ b ++ field_bytes s n
unfolding field field_bytes
field_writes s n b = append_assoc b _ _

pub write_i32s-words : (vs b : List ℕ) → write_i32s vs b ≡ b ++ words vs
unfolding write_i32s words u32v le4
write_i32s-words [] b = sym (append-nil b)
write_i32s-words (v ∷ vs) b = write_i32s-words vs (b ++ le4 v) ∙ append_assoc b (le4 v) (words vs)

slots_bytes : List (List ℕ) → List ℕ
slots_bytes [] = []
slots_bytes (s ∷ ss) = field_bytes s 64 ++ slots_bytes ss

write_slots-slots_bytes : (ss : List (List ℕ)) (b : List ℕ) → write_slots ss b ≡ b ++ slots_bytes ss
unfolding write_slots slots_bytes
write_slots-slots_bytes [] b = sym (append-nil b)
write_slots-slots_bytes (s ∷ ss) b =
    ap (write_slots ss) (field_writes s 64 b)
    ∙ write_slots-slots_bytes ss (b ++ field_bytes s 64)
    ∙ append_assoc b (field_bytes s 64) (slots_bytes ss)

length-slots_bytes : (ss : List (List ℕ)) → length (slots_bytes ss) ≡ 64 * length ss
unfolding slots_bytes
length-slots_bytes [] = refl
length-slots_bytes (s ∷ ss) = omega (
  arith,
  length-append (field_bytes s 64) (slots_bytes ss),
  length-field_bytes s 64,
  length-slots_bytes ss,
)

slots_at-slots_bytes :
    (pre : List ℕ) (ss : List (List ℕ)) (rest : List ℕ) (off : ℕ)
    → off ≡ length pre
    → slots_at (pre ++ (slots_bytes ss ++ rest)) off (length ss) ≡ map (c_str 63) ss
unfolding slots_bytes slots_at
slots_at-slots_bytes pre [] rest off h = refl
slots_at-slots_bytes pre (s ∷ ss) rest off h =
    let front : pre ++ (field_bytes s 64 ++ slots_bytes ss ++ rest)
        ≡ pre ++ (field_bytes s 64 ++ (slots_bytes ss ++ rest)) =
      ap (λ l. pre ++ l) (append_assoc (field_bytes s 64) (slots_bytes ss) rest) in
    ap (λ l. slots_at l off (suc (length ss))) front
    ∙ rw (str_at-field_bytes pre s (slots_bytes ss ++ rest) off 63 h) (
        ap (◌∷◌ (c_str 63 s)) (
          ap (λ l. slots_at l (off + 64) (length ss))
            (sym (append_assoc pre (field_bytes s 64) (slots_bytes ss ++ rest)))
          ∙ slots_at-slots_bytes (pre ++ field_bytes s 64) ss rest (off + 64)
              (omega (arith, length-append pre (field_bytes s 64), length-field_bytes s 64))))

module _ (c : CustomType) (h : IsType c) where
  type_bytes : List ℕ
  type_bytes = field_bytes c.name 256 ++ words c.stat

  parse_type-type_bytes : (rest : List ℕ) → parse_type (type_bytes ++ rest) ≡ keep_type c
  unfolding parse_type keep_type type_bytes
  parse_type-type_bytes rest =
      let split : type_bytes ++ rest ≡ field_bytes c.name 256 ++ (words c.stat ++ rest) =
        append_assoc (field_bytes c.name 256) (words c.stat) rest in
      rw (
        split,
        str_at-field_bytes [] c.name (words c.stat ++ rest) 0 255 refl,
        ← h.four,
        i32s_at-words (field_bytes c.name 256) c.stat rest 256 (sym (length-field_bytes c.name 256))
            h.words,
      )

  pub Recorded-type : Recorded (write_type c) type_rec parse_type (keep_type c)
  unfolding write_type type_bytes
  Recorded-type = record {
    bytes = type_bytes;
    writes = λ b.
        rw (field_writes c.name 256 b, write_i32s-words c.stat (b ++ field_bytes c.name 256))
          (append_assoc b (field_bytes c.name 256) (words c.stat));
    sized = omega (
      arith,
      length-append (field_bytes c.name 256) (words c.stat),
      length-field_bytes c.name 256,
      length-words c.stat,
      h.four,
    );
    reads = parse_type-type_bytes;
  }

module _ (r : Rule) (h : IsRule r) where
  rule_bytes : List ℕ
  rule_bytes = le4 r.opcode ++ slots_bytes r.slot

  parse_rule-rule_bytes : (rest : List ℕ) → parse_rule (rule_bytes ++ rest) ≡ keep_rule r
  unfolding parse_rule keep_rule rule_bytes
  parse_rule-rule_bytes rest =
      let split : rule_bytes ++ rest ≡ le4 r.opcode ++ (slots_bytes r.slot ++ rest) =
        append_assoc (le4 r.opcode) (slots_bytes r.slot) rest in
      rw (
        split,
        u32_at-le4 r.opcode (slots_bytes r.slot ++ rest) h.word,
        ← h.five,
        slots_at-slots_bytes (le4 r.opcode) r.slot rest 4 (sym (length-le4 r.opcode)),
      )

  pub Recorded-rule : Recorded (write_rule r) rule_rec parse_rule (keep_rule r)
  unfolding write_rule rule_bytes u32v le4
  Recorded-rule = record {
    bytes = rule_bytes;
    writes = λ b.
        write_slots-slots_bytes r.slot (b ++ le4 r.opcode)
        ∙ append_assoc b (le4 r.opcode) (slots_bytes r.slot);
    sized = omega (
      arith,
      length-append (le4 r.opcode) (slots_bytes r.slot),
      length-le4 r.opcode,
      length-slots_bytes r.slot,
      h.five,
    );
    reads = parse_rule-rule_bytes;
  }
