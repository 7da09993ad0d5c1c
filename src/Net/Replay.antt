-- ===== src/Net/Replay.antt =====
-- src/net/replayhdr.h, and the head of `loadReplayFile` in src/client/replayfile.cpp. The five arrays
-- by slot are one list of eight records; hashes and seeds are their unsigned values.
pub mod RoundTrip
use ta_engine.Common.{
  ℕ, zero, suc, ◌+◌, ◌-◌, ◌*◌, ◌/◌, ◌%◌, ◌^◌, ◌≤◌, ◌<◌, min, max, ◌≡◌, refl, sym, ap, ◌∙◌, subst,
  ◌≢◌, ◌↔◌, ◌⊎◌, inl, inr, Bool, true, false, not, ◌&&◌, ◌||◌, Option, none, some, List, [], ◌∷◌,
  ◌++◌, map, append-nil, append_assoc, arith, ltb, leb, ◌==◌, if◌then◌else◌, ltb→lt, lt→ltb, ge→ltb,
  ltb→ge, leb→le, le→leb, gt→leb, ==_iff, ==_refl, tests, Bool-cases, Option-cases, length,
  get_elem?, get_or, set, take, drop, replicate, All, length-append, length-set, take-append-drop,
  length-take, length-drop, length-replicate, take-append_self, drop-append_self, take-all,
  drop-all, drop-append, drop-nil, take-append, drop-drop,
}
use ta_engine.Net.Wire.{
  Put, ◌>>◌, put_nothing, put_u8, put_u32, put_u64, put_str, put_list, Reader, Get, ◌>>=◌, pure,
  get_u8, get_u32, get_u64, get_str,
}

abbrev pub net_version : ℕ
net_version = 82

abbrev pub replay_format : ℕ
replay_format = 6

abbrev pub max_slots : ℕ
max_slots = 8

pub record ReplaySlot : Type 0 where
  pub type : ℕ
  pub faction : ℕ
  pub color : ℕ
  pub team : ℕ
  pub ai_level : ℕ

pub record ReplayHeader : Type 0 where
  pub map_id : List ℕ
  pub mission : List ℕ
  pub engine_version : List ℕ
  pub forfeit_self_destruct : ℕ
  pub override_policy : ℕ
  pub unit_cap : ℕ
  pub commander_expendable : ℕ
  pub stress_test : ℕ
  pub random_starts : ℕ
  pub benchmark : ℕ
  pub seed : ℕ
  pub data_hash : ℕ
  pub slots : List ReplaySlot

-- A slot of a `ReplayHeader h;`.
abbrev pub no_slot : ReplaySlot
no_slot = record { type = 0; faction = 0; color = 0; team = 0; ai_level = 0 }

unfoldable pub put_slot : ReplaySlot → Put
put_slot s = do put_u8 s.type; put_u8 s.faction; put_u8 s.color; put_u8 s.team; put_u8 s.ai_level

unfoldable pub put_magic : Put
put_magic = do put_u8 b'T'; put_u8 b'A'; put_u8 b'K'; put_u8 b'R'

-- `writeReplayHeader` behind the magic. The source writes kMaxSlots entries of each array, which are
-- all of `slots`.
unfoldable pub put_fields : ReplayHeader → Put
put_fields h = do
  put_u32 replay_format
  put_u32 net_version
  put_str h.map_id
  put_u8 h.forfeit_self_destruct
  put_u8 h.override_policy
  put_u32 h.unit_cap
  put_u8 h.commander_expendable
  put_u8 h.stress_test
  put_u32 h.seed
  put_u8 h.random_starts
  put_u8 h.benchmark
  put_str h.mission
  put_str h.engine_version
  put_u64 h.data_hash
  put_u8 max_slots
  put_list put_slot h.slots

unfoldable pub put_header : ReplayHeader → Put
put_header h = do put_magic; put_fields h

-- `r.ok`
unfoldable pub get_ok : Get Bool
get_ok r = (r.ok, r)

-- A field that formats from `since` on have, and what it is in an older one.
unfoldable pub get_since : {A : Type 0} → ℕ → ℕ → A → Get A → Get A
get_since since fmt old get = if leb since fmt then get else pure old

unfoldable pub get_slot : ℕ → Get ReplaySlot
get_slot fmt = do
  type ← get_u8
  faction ← get_u8
  color ← get_u8
  team ← get_u8
  ai_level ← get_since 6 fmt 0 get_u8
  pure (record { type = type; faction = faction; color = color; team = team; ai_level = ai_level })

-- `for (int i = 0; i < nslots; ++i)`
unfoldable pub get_slots : ℕ → ℕ → Get (List ReplaySlot)
get_slots fmt zero = pure []
get_slots fmt (suc n) = do s ← get_slot fmt; ss ← get_slots fmt n; pure (s ∷ ss)

-- What was read, or `none` for `return false`.
pub record Loaded : Type 0 where
  pub header : ReplayHeader
  pub fmt : ℕ
  pub proto : ℕ

-- From the seed on; `h` holds the fields before it.
unfoldable pub get_tail : ReplayHeader → ℕ → ℕ → Get (Option Loaded)
get_tail h fmt proto = do
  seed ← get_u32
  random_starts ← get_since 6 fmt 0 get_u8
  benchmark ← get_since 6 fmt 0 get_u8
  mission ← get_since 6 fmt [] get_str
  engine_version ← get_since 6 fmt [] get_str
  data_hash ← get_since 6 fmt 0 get_u64
  nslots ← get_u8
  ok ← get_ok
  if not ok || ltb max_slots nslots then pure none else (do
    slots ← get_slots fmt nslots
    fine ← get_ok
    pure (
        if fine
        then some (record {
          header = record h {
            seed = seed;
            random_starts = random_starts;
            benchmark = benchmark;
            mission = mission;
            engine_version = engine_version;
            data_hash = data_hash;
            slots = slots ++ replicate (max_slots - nslots) no_slot;
          };
          fmt = fmt;
          proto = proto;
        })
        else none))

-- Behind the two numbers; what an older format lacks is what `h` starts with or is set to.
unfoldable pub get_body : ℕ → ℕ → Get (Option Loaded)
get_body fmt proto = do
  map_id ← get_str
  forfeit_self_destruct ← get_u8
  override_policy ← get_since 2 fmt 1 get_u8
  unit_cap ← get_since 3 fmt 0 get_u32
  commander_expendable ← get_since 4 fmt 1 get_u8
  stress_test ← get_since 5 fmt 0 get_u8
  get_tail
      (record {
        map_id = map_id;
        mission = [];
        engine_version = [];
        forfeit_self_destruct = forfeit_self_destruct;
        override_policy = override_policy;
        unit_cap = unit_cap;
        commander_expendable = commander_expendable;
        stress_test = stress_test;
        random_starts = 0;
        benchmark = 0;
        seed = 0;
        data_hash = 0;
        slots = [];
      })
      fmt proto

-- `readReplayHeader`
unfoldable pub get_header : Get (Option Loaded)
get_header = do
  fmt ← get_u32
  proto ← get_u32
  ok ← get_ok
  if not ok || fmt == 0 || ltb replay_format fmt then pure none else get_body fmt proto

-- The head of `loadReplayFile`: the magic, the header, and the protocol it was recorded under. What
-- is returned is the header with the reader behind it.
unfoldable pub load_header : List ℕ → Option (ReplayHeader × Reader)
load_header (m0 ∷ m1 ∷ m2 ∷ m3 ∷ rest) =
    let (l, r) = get_header (record { p = rest; ok = true }) in
    if m0 == b'T' && m1 == b'A' && m2 == b'K' && m3 == b'R'
    then elim l [
      | none ↦ none
      | some h ↦ (if h.proto == net_version then some (h.header, r) else none)
    ]
    else none
load_header d = none
