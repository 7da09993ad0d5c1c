-- ===== src/Net/Replay/RoundTrip.antt =====
-- A replay header survives the file; a header of another format or protocol is refused.
use ta_engine.Common.{
  ℕ, ◌≤◌, ◌<◌, ◌≡◌, refl, sym, ap, ◌∙◌, subst, ◌≢◌, ◌⊎◌, inl, inr, Bool, true, not, ◌||◌, Option,
  none, some, List, [], ◌∷◌, ◌++◌, append-nil, arith, ltb, ◌==◌, if◌then◌else◌, Bool-cases,
  Option-cases, length, All,
}
use ta_engine.Common.Word.{IsU32, IsU64}
use ta_engine.Net.Wire.{Put, ◌>>◌, put_u8, put_list, Reader, Get, ◌>>=◌, pure, get_u32}
use ta_engine.Net.Wire.RoundTrip.{
  le_bytes, get_u32-le_bytes, RoundTrip, RoundTrip-seq, RoundTrip-last, RoundTrip-u8, RoundTrip-u32,
  RoundTrip-u64,
}
use ta_engine.Net.Wire.Texts.{RoundTrip-str}
use ta_engine.Net.Replay.{
  ReplaySlot, ReplayHeader, put_slot, put_magic, put_fields, put_header, get_ok, get_since,
  get_slot, get_slots, Loaded, get_tail, get_body, get_header, load_header,
}

pub record IsSlot (s : ReplaySlot) : Type 0 where
  pub type : s.type < 256
  pub faction : s.faction < 256
  pub color : s.color < 256
  pub team : s.team < 256
  pub ai_level : s.ai_level < 256

pub record IsHeader (h : ReplayHeader) : Type 0 where
  pub map_id : length h.map_id ≤ 4096
  pub mission : length h.mission ≤ 4096
  pub engine_version : length h.engine_version ≤ 4096
  pub forfeit_self_destruct : h.forfeit_self_destruct < 256
  pub override_policy : h.override_policy < 256
  pub unit_cap : IsU32 h.unit_cap
  pub commander_expendable : h.commander_expendable < 256
  pub stress_test : h.stress_test < 256
  pub random_starts : h.random_starts < 256
  pub benchmark : h.benchmark < 256
  pub seed : IsU32 h.seed
  pub data_hash : IsU64 h.data_hash
  pub slots : All IsSlot h.slots
  pub eight : length h.slots ≡ 8

-- A look at the flag takes no bytes.
RoundTrip-ok :
    {B : Type 0} {k : Put} (f : Bool → Get B) {v : B}
    → RoundTrip k (f true) v
    → RoundTrip k (get_ok >>= f) v
unfolding get_ok ◌>>=◌
RoundTrip-ok f s = record {
  written = s.written;
  writes = s.writes;
  reads = λ rest r e k. ap (λ b. f b r) k ∙ s.reads rest r e k;
}

RoundTrip-slot : (s : ReplaySlot) → IsSlot s → RoundTrip (put_slot s) (get_slot 6) s
unfolding put_slot get_slot get_since
RoundTrip-slot s v = RoundTrip-seq _ _ (RoundTrip-u8 s.type v.type) (
    RoundTrip-seq _ _ (RoundTrip-u8 s.faction v.faction) (
      RoundTrip-seq _ _ (RoundTrip-u8 s.color v.color) (
        RoundTrip-seq _ _ (RoundTrip-u8 s.team v.team)
          (RoundTrip-last _ _ (RoundTrip-u8 s.ai_level v.ai_level)))))

RoundTrip-slots_cons :
    (s : ReplaySlot) (ss : List ReplaySlot)
    → RoundTrip (put_slot s) (get_slot 6) s
    → RoundTrip (put_list put_slot ss) (get_slots 6 (length ss)) ss
    → RoundTrip (put_list put_slot (s ∷ ss)) (get_slots 6 (length (s ∷ ss))) (s ∷ ss)
unfolding put_list get_slots ◌>>◌
RoundTrip-slots_cons s ss t ts =
    let whole : RoundTrip (put_slot s >> put_list put_slot ss)
        (get_slot 6 >>= (λ x. get_slots 6 (length ss) >>= (λ xs. pure (x ∷ xs)))) (s ∷ ss) =
      RoundTrip-seq _ _ t (RoundTrip-last _ _ ts) in
    record { written = whole.written; writes = whole.writes; reads = whole.reads }

no_slots : RoundTrip (put_list put_slot []) (get_slots 6 0) []
unfolding put_list get_slots pure
no_slots = record {
  written = [];
  writes = λ b. sym (append-nil b);
  reads = λ rest r e k. ap {B = List ReplaySlot × Reader} (λ q. ([], record r { p = q })) e;
}

RoundTrip-slots :
    (ss : List ReplaySlot)
    → All IsSlot ss
    → RoundTrip (put_list put_slot ss) (get_slots 6 (length ss)) ss
RoundTrip-slots [] h = no_slots
RoundTrip-slots (s ∷ ss) (h, hs) =
    RoundTrip-slots_cons s ss (RoundTrip-slot s h) (RoundTrip-slots ss hs)

-- A value with the flag behind it.
RoundTrip-check :
    {A B : Type 0} {m : Put} {g : Get A} (build : A → Bool → B) (a : A)
    → RoundTrip m g a
    → RoundTrip m (g >>= (λ x. get_ok >>= (λ fine. pure (build x fine)))) (build a true)
unfolding get_ok ◌>>=◌ pure
RoundTrip-check build a s = record {
  written = s.written;
  writes = s.writes;
  reads = λ rest r e k. rw (s.reads rest r e k) (ap (λ b. (build a b, record r { p = rest })) k);
}

-- The slots with the verdict behind them.
RoundTrip-last_slots :
    {B : Type 0} (ss : List ReplaySlot) (build : List ReplaySlot → Bool → B)
    → All IsSlot ss
    → length ss ≡ 8
    → RoundTrip
        (put_list put_slot ss)
        (get_slots 6 8 >>= (λ xs. get_ok >>= (λ fine. pure (build xs fine))))
        (build ss true)
RoundTrip-last_slots ss build v e =
    subst
      (λ n.
        RoundTrip (put_list put_slot ss)
          (get_slots 6 n >>= (λ xs. get_ok >>= (λ fine. pure (build xs fine)))) (build ss true))
      e (RoundTrip-check build ss (RoundTrip-slots ss v))

RoundTrip-header :
    (h : ReplayHeader)
    → IsHeader h
    → RoundTrip
        (put_fields h)
        get_header
        (some (record { header = record h { slots = h.slots ++ [] }; fmt = 6; proto = 82 }))
unfolding put_fields get_header get_body get_since get_tail
RoundTrip-header h v = RoundTrip-seq _ _ (RoundTrip-u32 6 (omega arith)) (
    RoundTrip-seq _ _ (RoundTrip-u32 82 (omega arith)) (
      RoundTrip-ok _ (
        RoundTrip-seq _ _ (RoundTrip-str h.map_id v.map_id) (
          RoundTrip-seq _ _ (RoundTrip-u8 h.forfeit_self_destruct v.forfeit_self_destruct) (
            RoundTrip-seq _ _ (RoundTrip-u8 h.override_policy v.override_policy) (
              RoundTrip-seq _ _ (RoundTrip-u32 h.unit_cap v.unit_cap) (
                RoundTrip-seq _ _ (RoundTrip-u8 h.commander_expendable v.commander_expendable) (
                  RoundTrip-seq _ _ (RoundTrip-u8 h.stress_test v.stress_test) (
                    RoundTrip-seq _ _ (RoundTrip-u32 h.seed v.seed) (
                      RoundTrip-seq _ _ (RoundTrip-u8 h.random_starts v.random_starts) (
                        RoundTrip-seq _ _ (RoundTrip-u8 h.benchmark v.benchmark) (
                          RoundTrip-seq _ _ (RoundTrip-str h.mission v.mission) (
                            RoundTrip-seq _ _ (RoundTrip-str h.engine_version v.engine_version) (
                              RoundTrip-seq _ _ (RoundTrip-u64 h.data_hash v.data_hash) (
                                RoundTrip-seq _ _ (RoundTrip-u8 8 (omega arith)) (
                                  RoundTrip-ok _
                                    (RoundTrip-last_slots h.slots _ v.slots v.eight)))))))))))))))))

abbrev magic : List ℕ
magic = b'T' ∷ b'A' ∷ b'K' ∷ b'R' ∷ []

load_magic :
    (bytes : List ℕ) (h : ReplayHeader) (fmt : ℕ) (r : Reader)
    → get_header (record { p = bytes; ok = true })
      ≡ (some (record { header = h; fmt = fmt; proto = 82 }), r)
    → load_header (magic ++ bytes) ≡ some (h, r)
unfolding load_header
load_magic bytes h fmt r e = rw e (ap {B = Option (ReplayHeader × Reader)} (λ q. some (h, q.1)) e)

put_header-magic : (h : ReplayHeader) → put_header h [] ≡ put_fields h magic
unfolding put_header put_magic put_u8 ◌>>◌
put_header-magic h = refl

-- `loadReplayFile` finds in a file that begins with a written header that header, with the reader at
-- the bytes behind it, if each field is a value of its type and there are eight slots.
pub load_header-put_header :
    (h : ReplayHeader) (rest : List ℕ)
    → IsHeader h
    → load_header (put_header h [] ++ rest) ≡ some (h, record { p = rest; ok = true })
load_header-put_header h rest v =
    let t = RoundTrip-header h v in
    rw (put_header-magic, t.writes magic)
      (load_magic (t.written ++ rest) (record h { slots = h.slots ++ [] }) 6
          (record { p = rest; ok = true })
          (t.reads rest (record { p = t.written ++ rest; ok = true }) refl refl)
        ∙ rw append-nil)

tail_proto :
    (h : ReplayHeader) (fmt proto : ℕ) (r : Reader) (l : Loaded)
    → (get_tail h fmt proto r).0 ≡ some l
    → l.proto ≡ proto
unfolding get_tail get_ok ◌>>=◌ pure
tail_proto h fmt proto r l e = ground arith

body_proto :
    (fmt proto : ℕ) (r : Reader) (l : Loaded) → (get_body fmt proto r).0 ≡ some l → l.proto ≡ proto
unfolding get_body ◌>>=◌
body_proto fmt proto r l e = tail_proto _ fmt proto _ l e

header_split :
    (r r1 r2 : Reader) (fmt proto : ℕ)
    → get_u32 r ≡ (fmt, r1)
    → get_u32 r1 ≡ (proto, r2)
    → get_header r
      ≡ (if not r2.ok || fmt == 0 || ltb 6 fmt then pure none else get_body fmt proto) r2
unfolding get_header get_ok ◌>>=◌
header_split r r1 r2 fmt proto e f = rw (e, f)

header_proto :
    (r r1 r2 : Reader) (fmt proto : ℕ) (l : Loaded)
    → get_u32 r ≡ (fmt, r1)
    → get_u32 r1 ≡ (proto, r2)
    → (get_header r).0 ≡ some l
    → (l.proto ≡ proto) × (fmt ≢ 0) × (fmt ≤ 6)
unfolding pure
header_proto r r1 r2 fmt proto l e f g = elim (Bool-cases (not r2.ok || fmt == 0 || ltb 6 fmt)) [
  | inl b ↦ absurd (cc (rw (header_split r r1 r2 fmt proto e f, b) at g))
  | inr b ↦ (
    body_proto fmt proto r2 l (rw (header_split r r1 r2 fmt proto e f, b) at g),
    ground arith,
    ground arith,
  )
]

refuse :
    (bytes : List ℕ) (proto : ℕ)
    → ((l : Loaded) → (get_header (record { p = bytes; ok = true })).0 ≡ some l → l.proto ≢ 82)
    → load_header (magic ++ bytes) ≡ none
unfolding load_header
refuse bytes proto bad = elim (Option-cases (get_header (record { p = bytes; ok = true })).0) [
  | inl e ↦ rw (e, load_header)
  | inr (l, e) ↦ rw (e, load_header) (ground (arith, bad l e))
]

-- A file that begins with the magic and two 32-bit numbers, of which the first is 0 or a later
-- format than this one, or the second another protocol, is refused, whatever follows.
pub load_header_refused :
    (fmt proto : ℕ) (rest : List ℕ)
    → IsU32 fmt
    → IsU32 proto
    → (fmt ≡ 0) ⊎ (6 < fmt) ⊎ (proto ≢ 82)
    → load_header (magic ++ (le_bytes 4 fmt ++ (le_bytes 4 proto ++ rest))) ≡ none
load_header_refused fmt proto rest h k bad = refuse _ proto λ l e d.
    contradiction
      (header_proto _ _ _ fmt proto l (get_u32-le_bytes fmt _ _ h refl)
        (get_u32-le_bytes proto rest _ k refl) e)
      d bad
  where
    contradiction :
        {p : ℕ}
        → (p ≡ proto) × (fmt ≢ 0) × (fmt ≤ 6)
        → p ≡ 82
        → (fmt ≡ 0) ⊎ (6 < fmt) ⊎ (proto ≢ 82)
        → ⊥
    contradiction (a, b, c) d (inl x) = b x
    contradiction (a, b, c) d (inr (inl x)) = omega arith
    contradiction (a, b, c) d (inr (inr x)) = x (sym a ∙ d)
