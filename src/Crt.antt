-- ===== src/Crt.antt =====
-- The parser and the writer of scenario files, src/crt/crt.h and src/crt/crt.cpp. The bytes of a
-- file are a list of numbers below 256; a reader takes the bytes from its offset `p` on. An `int32_t`
-- and the float of the version are their bit patterns.
pub mod Fields
pub mod Records
pub mod Placed
pub mod Stored
pub mod RoundTrip
use Prim.Native.Nat.{bit_or}
use ta_engine.Common.{
  ℕ, zero, suc, ◌+◌, ◌-◌, ◌*◌, ◌/◌, ◌%◌, ◌^◌, ◌≤◌, ◌<◌, min, max, ◌≡◌, refl, sym, ap, ◌∙◌, subst,
  ◌≢◌, ◌↔◌, ◌⊎◌, inl, inr, Bool, true, false, not, ◌&&◌, ◌||◌, Option, none, some, List, [], ◌∷◌,
  ◌++◌, map, append-nil, append_assoc, arith, ltb, leb, ◌==◌, if◌then◌else◌, ltb→lt, lt→ltb, ge→ltb,
  ltb→ge, leb→le, le→leb, gt→leb, ==_iff, ==_refl, tests, Bool-cases, Option-cases, length,
  get_elem?, get_or, set, take, drop, replicate, All, length-append, length-set, take-append-drop,
  length-take, length-drop, length-replicate, take-append_self, drop-append_self, take-all,
  drop-all, drop-append, drop-nil, take-append, drop-drop,
}
use ta_engine.Common.Int32.{word, is_neg}

-- `u32(d, off)`, where the four bytes are there.
unfoldable pub u32_at : List ℕ → ℕ → ℕ
u32_at d off =
    bit_or
      (bit_or (bit_or (get_or d off 0) (get_or d (off + 1) 0 * 2 ^ 8))
        (get_or d (off + 2) 0 * 2 ^ 16))
      (get_or d (off + 3) 0 * 2 ^ 24)

-- `while (n < cap && off + n < d.size() && d[off + n]) ++n`, on the bytes from `off` on.
unfoldable pub c_str : ℕ → List ℕ → List ℕ
c_str zero d = []
c_str (suc cap) [] = []
c_str (suc cap) (c ∷ d) = let rest = c_str cap d in if c == 0 then [] else c ∷ rest

unfoldable pub str_at : List ℕ → ℕ → ℕ → List ℕ
unfolding c_str
str_at d off cap = c_str cap (drop off d)

-- `Writer`: the buffer is the state.
unfoldable pub u32v : ℕ → List ℕ → List ℕ
u32v v b = b ++ v % 256 ∷ v / 2 ^ 8 % 256 ∷ v / 2 ^ 16 % 256 ∷ v / 2 ^ 24 % 256 ∷ []

unfoldable pub field : List ℕ → ℕ → List ℕ → List ℕ
field s cap b = let n = min (length s) (cap - 1) in (b ++ take n s) ++ replicate (cap - n) 0

unfoldable pub zero_fill : ℕ → List ℕ → List ℕ
zero_fill n b = b ++ replicate n 0

abbrev pub unit_rec : ℕ
unit_rec = 568

abbrev pub rule_rec : ℕ
rule_rec = 324

abbrev pub type_rec : ℕ
type_rec = 272

abbrev pub region_rec : ℕ
region_rec = 272

pub record ScenarioUnit : Type 0 where
  pub object_name : List ℕ
  pub unique_name : List ℕ
  pub x : ℕ
  pub y : ℕ
  pub z : ℕ
  pub player : ℕ
  pub health : ℕ
  pub armor : ℕ
  pub weapon : ℕ
  pub angle : ℕ
  pub veteran : ℕ

-- The arrays `stat[4]` and `slot[5]` are lists.
pub record CustomType : Type 0 where
  pub name : List ℕ
  pub stat : List ℕ

pub record Rule : Type 0 where
  pub opcode : ℕ
  pub slot : List (List ℕ)

pub record RuleGroup : Type 0 where
  pub conditions : List Rule
  pub actions : List Rule

pub record Region : Type 0 where
  pub name : List ℕ
  pub x1 : ℕ
  pub z1 : ℕ
  pub x2 : ℕ
  pub z2 : ℕ

pub record Scenario : Type 0 where
  pub version : ℕ
  pub custom_types : List CustomType
  pub units : List ScenarioUnit
  pub players : List (List RuleGroup)
  pub regions : List Region

-- 1.0f
abbrev pub one_f : ℕ
one_f = 0x3f800000

-- `Scenario{}`
abbrev pub no_scenario : Scenario
no_scenario = record { version = one_f; custom_types = []; units = []; players = []; regions = [] }

-- `for (int k = 0; k < n; ++k) a[k] = i32(d, off + k * 4)`
unfoldable pub i32s_at : List ℕ → ℕ → ℕ → List ℕ
i32s_at d off zero = []
i32s_at d off (suc n) = u32_at d off ∷ i32s_at d (off + 4) n

-- `for (int i = 0; i < n; ++i) slot[i] = str(d, off + i * 64, 64)`
unfoldable pub slots_at : List ℕ → ℕ → ℕ → List (List ℕ)
slots_at d off zero = []
slots_at d off (suc n) = str_at d off 64 ∷ slots_at d (off + 64) n

unfoldable pub parse_rule : List ℕ → Rule
parse_rule d = record { opcode = u32_at d 0; slot = slots_at d 4 5 }

unfoldable pub write_slots : List (List ℕ) → List ℕ → List ℕ
write_slots [] b = b
write_slots (s ∷ ss) b = write_slots ss (field s 64 b)

unfoldable pub write_rule : Rule → List ℕ → List ℕ
write_rule r b = write_slots r.slot (u32v r.opcode b)

unfoldable pub parse_type : List ℕ → CustomType
parse_type d = record { name = str_at d 0 256; stat = i32s_at d 0x100 4 }

unfoldable pub write_i32s : List ℕ → List ℕ → List ℕ
write_i32s [] b = b
write_i32s (v ∷ vs) b = write_i32s vs (u32v v b)

unfoldable pub write_type : CustomType → List ℕ → List ℕ
write_type c b = write_i32s c.stat (field c.name 256 b)

unfoldable pub parse_unit : List ℕ → ScenarioUnit
parse_unit d = record {
  object_name = str_at d 0 256;
  unique_name = str_at d 0x100 256;
  x = u32_at d 0x200;
  y = u32_at d 0x204;
  z = u32_at d 0x208;
  player = u32_at d 0x20c;
  health = u32_at d 0x210;
  armor = u32_at d 0x214;
  weapon = u32_at d 0x218;
  angle = u32_at d 0x21c;
  veteran = u32_at d 0x220;
}

unfoldable pub write_unit : ScenarioUnit → List ℕ → List ℕ
write_unit u b =
    let start = length b in
    let b = field u.unique_name 256 (field u.object_name 256 b) in
    let b = u32v u.player (u32v u.z (u32v u.y (u32v u.x b))) in
    let b = u32v u.weapon (u32v u.armor (u32v u.health b)) in
    let b = u32v u.veteran (u32v u.angle b) in zero_fill (unit_rec - (length b - start)) b

-- `while (!name.empty() && name.back() == ' ') name.pop_back()`
unfoldable pub strip_right : List ℕ → List ℕ
strip_right [] = []
strip_right (c ∷ s) = elim (strip_right s) [
  | [] ↦ if c == 32 then [] else c ∷ []
  | d ∷ t ↦ c ∷ d ∷ t
]

unfoldable pub parse_region : List ℕ → Region
parse_region d = record {
  name = strip_right (str_at d 0 64);
  x1 = u32_at d 0x100;
  z1 = u32_at d 0x104;
  x2 = u32_at d 0x108;
  z2 = u32_at d 0x10c;
}

unfoldable pub write_region : Region → List ℕ → List ℕ
write_region r b =
    let start = length b in
    let b = field r.name 64 b in
    let b = zero_fill (0x100 - (length b - start)) b in
    u32v r.z2 (u32v r.x2 (u32v r.z1 (u32v r.x1 b)))

-- What is read at `p`, with the bytes from the new `p` on; `none` is `return {}`.
abbrev pub Parse : Type 0 → Type 0
Parse A = List ℕ → Option (A × List ℕ)

unfoldable pub done : {A : Type 0} → A → Parse A
done a d = some (a, d)

infixl 4 ◌>>=◌
unfoldable pub ◌>>=◌ : {A B : Type 0} → Parse A → (A → Parse B) → Parse B
(m >>= f) d = elim (m d) [ none ↦ none | some x ↦ f x.0 x.1 ]

-- `if (!need(4)) return {}; int32_t n = i32(d, p); p += 4; if (n < 0 || n > limit) return {};`
unfoldable pub counted : ℕ → Parse ℕ
counted limit d =
    if leb 4 (length d)
    then (let n = u32_at d 0 in if is_neg n || ltb limit n then none else some (n, drop 4 d))
    else none

-- `for (int i = 0; i < n; ++i) { push_back(parse(d, p)); p += size; }`
unfoldable pub read_records : {A : Type 0} → ℕ → (List ℕ → A) → ℕ → List ℕ → List A × List ℕ
read_records size parse zero d = ([], d)
read_records size parse (suc n) d =
    let (xs, rest) = read_records size parse n (drop size d) in (parse d ∷ xs, rest)

-- `if (!need(n * size)) return {};` and the loop.
unfoldable pub needed : {A : Type 0} → ℕ → (List ℕ → A) → ℕ → Parse (List A)
needed size parse n d =
    if leb (n * size) (length d) then some (read_records size parse n d) else none

unfoldable pub records : {A : Type 0} → ℕ → (List ℕ → A) → Parse (List A)
records size parse = counted 100000 >>= needed size parse

-- `for (int i = 0; i < n; ++i) …` with a body that may return.
unfoldable pub times : {A : Type 0} → Parse A → ℕ → Parse (List A)
times m zero = done []
times m (suc n) = m >>= (λ x. times m n >>= (λ xs. done (x ∷ xs)))

unfoldable pub parse_group : Parse RuleGroup
parse_group = records rule_rec parse_rule >>= (λ cs.
    records rule_rec parse_rule >>= (λ xs. done (record { conditions = cs; actions = xs })))

unfoldable pub parse_player : Parse (List RuleGroup)
parse_player = counted 100000 >>= times parse_group

unfoldable pub parse_players : Parse (List (List RuleGroup))
parse_players = counted 64 >>= times parse_player

unfoldable pub parse_body : ℕ → Parse Scenario
parse_body version = records type_rec parse_type >>= (λ ts. records unit_rec parse_unit >>= (λ us.
    parse_players >>= (λ ps. records region_rec parse_region >>= (λ rs.
      done (record {
        version = version;
        custom_types = ts;
        units = us;
        players = ps;
        regions = rs;
      })))))

-- `far v` is `std::abs(v - 1.0f) > 0.01f`, float arithmetic on the pattern `v`.
unfoldable pub parse : (ℕ → Bool) → List ℕ → Scenario
unfolding parse_body
parse far d =
    if ltb (length d) 12
    then no_scenario
    else (let version = u32_at d 0 in
        if far version
        then no_scenario
        else elim (parse_body version (drop 4 d)) [ none ↦ no_scenario | some x ↦ x.0 ])

-- `for (const auto& x : xs) …`
unfoldable pub write_all : {A : Type 0} → (A → List ℕ → List ℕ) → List A → List ℕ → List ℕ
write_all put [] b = b
write_all put (x ∷ xs) b = write_all put xs (put x b)

-- `w.i32v(int32_t(xs.size()));` and the loop.
unfoldable pub write_counted : {A : Type 0} → (A → List ℕ → List ℕ) → List A → List ℕ → List ℕ
write_counted put xs b = write_all put xs (u32v (length xs % word) b)

unfoldable pub write_group : RuleGroup → List ℕ → List ℕ
write_group g b = write_counted write_rule g.actions (write_counted write_rule g.conditions b)

-- The patterns 0 and 2 ^ 31 are the two zeros of a float.
unfoldable pub write_version : ℕ → ℕ
write_version v = if v == 0 || v == 2 ^ 31 then one_f else v

unfoldable pub write : Scenario → List ℕ
write s =
    let b = u32v (write_version s.version) [] in
    let b = write_counted write_type s.custom_types b in
    let b = write_counted write_unit s.units b in
    let b = write_counted (write_counted write_group) s.players b in
    write_counted write_region s.regions b
