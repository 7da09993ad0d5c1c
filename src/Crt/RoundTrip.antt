-- ===== src/Crt/RoundTrip.antt =====
-- A scenario file of src/crt/crt.cpp is read back as it was written, up to what its fields can hold,
-- and no proper front of one is read as a scenario.
use ta_engine.Common.{
  ℕ, ◌+◌, ◌-◌, ◌^◌, ◌≤◌, ◌<◌, ◌≡◌, sym, ap, ◌∙◌, inl, inr, Bool, false, ◌||◌, none, some, List, [],
  ◌∷◌, ◌++◌, map, append-nil, arith, ltb, ◌==◌, ltb→lt, lt→ltb, ge→ltb, ltb→ge, Bool-cases, length,
  take, All, length-append, length-take, take-past,
}
use ta_engine.Common.Word.{IsU32}
use ta_engine.Crt.{
  Scenario, RuleGroup, no_scenario, u32v, parse_rule, write_rule, parse_type, write_type,
  parse_unit, write_unit, parse_region, write_region, unit_rec, rule_rec, type_rec, region_rec,
  parse_group, parse_player, parse_players, parse_body, parse, write_group, write_counted,
  write_version, write,
}
use ta_engine.Crt.Fields.{le4, u32_at-le4, length-le4}
use ta_engine.Crt.Placed.{Recorded-unit, Recorded-region}
use ta_engine.Crt.Records.{
  keep_type, keep_unit, keep_rule, keep_region, IsType, IsRule, IsUnit, IsRegion, Recorded-type,
  Recorded-rule,
}
use ta_engine.Crt.Stored.{Stored, Stored-done, Stored-seq, Stored-records, Stored-many}

unfoldable pub keep_group : RuleGroup → RuleGroup
keep_group g = record { conditions = map keep_rule g.conditions; actions = map keep_rule g.actions }

-- What a file keeps of a scenario.
unfoldable pub keep_scenario : Scenario → Scenario
keep_scenario s = record s {
  custom_types = map keep_type s.custom_types;
  units = map keep_unit s.units;
  players = map (map keep_group) s.players;
  regions = map keep_region s.regions;
}

-- Words are words, arrays have their lengths, and the lists are within what the parser takes.
pub record IsGroup (g : RuleGroup) : Type 0 where
  pub conditions_fit : length g.conditions ≤ 100000
  pub conditions_are : All IsRule g.conditions
  pub actions_fit : length g.actions ≤ 100000
  pub actions_are : All IsRule g.actions

pub record IsPlayer (gs : List RuleGroup) : Type 0 where
  pub groups_fit : length gs ≤ 100000
  pub groups_are : All IsGroup gs

pub record IsScenario (s : Scenario) : Type 0 where
  pub version_is : IsU32 s.version
  pub types_fit : length s.custom_types ≤ 100000
  pub types_are : All IsType s.custom_types
  pub units_fit : length s.units ≤ 100000
  pub units_are : All IsUnit s.units
  pub players_fit : length s.players ≤ 64
  pub players_are : All IsPlayer s.players
  pub regions_fit : length s.regions ≤ 100000
  pub regions_are : All IsRegion s.regions

All-map :
    {A : Type 0} {P Q : A → Type 0} → ((x : A) → P x → Q x) → (xs : List A) → All P xs → All Q xs
All-map f [] h = tt
All-map f (x ∷ xs) (p, ps) = (f x p, All-map f xs ps)

Stored-group : (g : RuleGroup) → IsGroup g → Stored 8 (write_group g) parse_group (keep_group g)
unfolding write_group parse_group keep_group
Stored-group g h =
    Stored-seq _ (map keep_rule g.conditions)
      (Stored-records write_rule rule_rec parse_rule keep_rule g.conditions h.conditions_fit
        (All-map Recorded-rule g.conditions h.conditions_are))
      (Stored-seq _ (map keep_rule g.actions)
        (Stored-records write_rule rule_rec parse_rule keep_rule g.actions h.actions_fit
          (All-map Recorded-rule g.actions h.actions_are))
        (Stored-done _))

Stored-player :
    (gs : List RuleGroup)
    → IsPlayer gs
    → Stored 4 (write_counted write_group gs) parse_player (map keep_group gs)
unfolding parse_player
Stored-player gs h =
    Stored-many 8 write_group parse_group keep_group 100000 gs h.groups_fit (omega arith)
      (All-map Stored-group gs h.groups_are)

write_body : Scenario → List ℕ → List ℕ
write_body s b = write_counted write_region s.regions (
    write_counted (write_counted write_group) s.players
      (write_counted write_unit s.units (write_counted write_type s.custom_types b)))

Stored-body :
    (s : Scenario)
    → IsScenario s
    → Stored 16 (write_body s) (parse_body s.version) (keep_scenario s)
unfolding write_body parse_body parse_players keep_scenario
Stored-body s h =
    Stored-seq _ (map keep_type s.custom_types)
      (Stored-records write_type type_rec parse_type keep_type s.custom_types h.types_fit
        (All-map Recorded-type s.custom_types h.types_are))
      (Stored-seq _ (map keep_unit s.units)
        (Stored-records write_unit unit_rec parse_unit keep_unit s.units h.units_fit
          (All-map Recorded-unit s.units h.units_are))
        (Stored-seq _ (map (map keep_group) s.players)
          (Stored-many 4 (write_counted write_group) parse_player (map keep_group) 64 s.players
            h.players_fit (omega arith) (All-map Stored-player s.players h.players_are))
          (Stored-seq _ (map keep_region s.regions)
            (Stored-records write_region region_rec parse_region keep_region s.regions h.regions_fit
              (All-map Recorded-region s.regions h.regions_are))
            (Stored-done _))))

-- The scenario with the version that is written.
abbrev versioned : Scenario → Scenario
versioned s = record s { version = write_version s.version }

IsU32-write_version : (v : ℕ) → IsU32 v → IsU32 (write_version v)
unfolding write_version
IsU32-write_version v h = elim (Bool-cases (v == 0 || v == 2 ^ 31)) [
  | inl e ↦ rw e (omega arith)
  | inr e ↦ rw e h
]

Stored-versioned :
    (s : Scenario)
    → IsScenario s
    → Stored 16 (write_body s) (parse_body (write_version s.version)) (keep_scenario (versioned s))
unfolding write_body
Stored-versioned s h = Stored-body (versioned s) (record {
  version_is = IsU32-write_version s.version h.version_is;
  types_fit = h.types_fit;
  types_are = h.types_are;
  units_fit = h.units_fit;
  units_are = h.units_are;
  players_fit = h.players_fit;
  players_are = h.players_are;
  regions_fit = h.regions_fit;
  regions_are = h.regions_are;
})

write-bytes :
    (s : Scenario) (h : IsScenario s)
    → write s ≡ le4 (write_version s.version) ++ (Stored-versioned s h).bytes
unfolding write write_body u32v le4
write-bytes s h = (Stored-versioned s h).writes (u32v (write_version s.version) [])

-- A file whose first word is `v`.
parse_headed :
    (far : ℕ → Bool) (v : ℕ) (body : List ℕ)
    → IsU32 v
    → far v ≡ false
    → 8 ≤ length body
    → parse far (le4 v ++ body) ≡ elim (parse_body v body) [ none ↦ no_scenario | some x ↦ x.0 ]
unfolding parse le4
parse_headed far v body hv hf hb = rw (
  ge→ltb (length (le4 v ++ body)) 12 (omega (arith, length-append (le4 v) body)),
  u32_at-le4 v body hv,
  hf,
)

parse_small : (far : ℕ → Bool) (d : List ℕ) → length d < 12 → parse far d ≡ no_scenario
unfolding parse
parse_small far d h = rw (lt→ltb (length d) 12 h)

parse_refused :
    (far : ℕ → Bool) (v : ℕ) (body : List ℕ)
    → IsU32 v
    → 8 ≤ length body
    → parse_body v body ≡ none
    → parse far (le4 v ++ body) ≡ no_scenario
unfolding parse le4
parse_refused far v body hv hb e = elim (Bool-cases (far v)) [
  | inl f ↦ rw (
    ge→ltb (length (le4 v ++ body)) 12 (omega (arith, length-append (le4 v) body)),
    u32_at-le4 v body hv,
    f,
  )
  | inr f ↦ parse_headed far v body hv f hb ∙ rw e
]

-- Where a scenario is well formed (its fields are 32-bit words, its arrays have their lengths, its
-- lists are within the limits of the parser) and the version that is written is not far from 1.0, the
-- file that `write` gives is parsed as the scenario, with each name cut at its first NUL and at the
-- size of its field less one, the names of the regions without trailing spaces, and 1.0 for a version
-- of zero.
pub parse-write :
    (far : ℕ → Bool) (s : Scenario)
    → IsScenario s
    → far (write_version s.version) ≡ false
    → parse far (write s) ≡ keep_scenario (record s { version = write_version s.version })
parse-write far s h hf =
    let t = Stored-versioned s h in
    let v = write_version s.version in
    ap (parse far) (write-bytes s h)
    ∙ parse_headed far v t.bytes (IsU32-write_version s.version h.version_is) hf
        (omega (arith, t.least))
    ∙ ap (λ o. elim o [ none ↦ no_scenario | some x ↦ x.0 ])
        (ap (parse_body v) (sym (append-nil t.bytes)) ∙ t.reads [])

-- Whatever counts as far from 1.0, every proper front of the file of a well-formed scenario is parsed
-- as the empty scenario.
pub parse_truncated :
    (far : ℕ → Bool) (s : Scenario) (k : ℕ)
    → IsScenario s
    → k < length (write s)
    → parse far (take k (write s)) ≡ no_scenario
parse_truncated far s k h hk =
    let t = Stored-versioned s h in
    let v = write_version s.version in
    let hv : IsU32 v = IsU32-write_version s.version h.version_is in
    let size : length (write s) ≡ 4 + length t.bytes =
      ap length (write-bytes s h)
      ∙ length-append (le4 v) t.bytes
      ∙ ap (λ n. n + length t.bytes) (length-le4 v) in
    elim (Bool-cases (ltb k 12)) [
      | inl e ↦
          parse_small far (take k (write s)) (omega (arith, length-take k (write s), ltb→lt k 12 e))
      | inr e ↦
          ap (λ l. parse far (take k l)) (write-bytes s h)
          ∙ ap (parse far)
              (take-past k (le4 v) t.bytes (omega (arith, length-le4 v, ltb→ge k 12 e)))
          ∙ parse_refused far v (take (k - length (le4 v)) t.bytes) hv
              (omega (
                arith,
                length-le4 v,
                ltb→ge k 12 e,
                length-take (k - length (le4 v)) t.bytes,
                size,
              ))
              (t.short (k - length (le4 v)) (omega (arith, length-le4 v, ltb→ge k 12 e, size)))
    ]
