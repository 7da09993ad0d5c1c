-- ===== src/Net/Command.antt =====
-- src/net/lockstep.h and src/net/protocol.cpp: a player command and its 35-byte wire format. The
-- `int32_t` ids and the floats are their 32-bit patterns, and `kind` is the number under `Cmd`.
pub mod RoundTrip
use ta_engine.Common.{
  ℕ, zero, suc, ◌+◌, ◌-◌, ◌*◌, ◌/◌, ◌%◌, ◌^◌, ◌≤◌, ◌<◌, min, max, ◌≡◌, refl, sym, ap, ◌∙◌, subst,
  ◌≢◌, ◌↔◌, ◌⊎◌, inl, inr, Bool, true, false, not, ◌&&◌, ◌||◌, Option, none, some, List, [], ◌∷◌,
  ◌++◌, map, append-nil, append_assoc, arith, ltb, leb, ◌==◌, if◌then◌else◌, ltb→lt, lt→ltb, ge→ltb,
  ltb→ge, leb→le, le→leb, gt→leb, ==_iff, ==_refl, tests, Bool-cases, Option-cases, length,
  get_elem?, get_or, set, take, drop, replicate, All, length-append, length-set, take-append-drop,
  length-take, length-drop, length-replicate, take-append_self, drop-append_self, take-all,
  drop-all, drop-append, drop-nil, take-append, drop-drop,
}
use ta_engine.Net.Wire.{
  Put, ◌>>◌, put_u8, put_u32, put_f32, put_raw, Reader, Get, ◌>>=◌, pure, avail, failed, get_u8,
  get_u32, get_f32, get_run, fail_with,
}

pub record Command : Type 0 where
  pub kind : ℕ
  pub player : ℕ
  pub unit_id : ℕ
  pub target_id : ℕ
  pub x : ℕ
  pub z : ℕ
  pub queue : ℕ
  pub type : List ℕ

-- `Writer::cmd`
unfoldable pub put_cmd : Command → Put
put_cmd c = do
  put_u8 c.kind
  put_u8 c.player
  put_u32 c.unit_id
  put_u32 c.target_id
  put_f32 c.x
  put_f32 c.z
  put_u8 c.queue
  put_raw c.type

-- `char type[16]`: sixteen bytes if they are there, else the zeros of `Command c;`. The last byte
-- is then set to 0.
unfoldable pub get_type : Get (List ℕ)
get_type = do
  t ← λ r. if avail 16 r then get_run 16 r else fail_with (replicate 16 0) r
  pure (set t 15 0)

-- `Reader::cmd`
unfoldable pub get_cmd : Get Command
get_cmd = do
  kind ← get_u8
  player ← get_u8
  unit_id ← get_u32
  target_id ← get_u32
  x ← get_f32
  z ← get_f32
  queue ← get_u8
  type ← get_type
  pure (record {
    kind = kind;
    player = player;
    unit_id = unit_id;
    target_id = target_id;
    x = x;
    z = z;
    queue = queue;
    type = type;
  })
