-- ===== src/Net/Command/RoundTrip.antt =====
-- A command survives the wire, takes 35 bytes, and a cut one is refused.
use ta_engine.Common.{
  ℕ, ◌+◌, ◌<◌, ◌≡◌, refl, sym, ◌∙◌, true, false, List, [], ◌∷◌, ◌++◌, arith, le→leb, length, set,
  replicate, length-append, take-append_self, drop-append_self,
}
use ta_engine.Common.Word.{IsU32}
use ta_engine.Net.Wire.{
  put_le, ◌>>◌, put_u8, put_u32, put_f32, put_raw, Reader, ◌>>=◌, pure, avail, get_run, fail_with,
}
use ta_engine.Net.Wire.RoundTrip.{
  RoundTrip, RoundTrip-seq, RoundTrip-last, RoundTrip-read, RoundTrip-u8, RoundTrip-u32,
  RoundTrip-f32,
}
use ta_engine.Net.Wire.Lawful.{
  IsLawful, >>=-IsLawful, pure-IsLawful, get_u8-IsLawful, get_u32-IsLawful, get_f32-IsLawful,
}
use ta_engine.Net.Wire.Lengths.{RoundTrip-truncated, fixed_run-IsLawful}
use ta_engine.Net.Command.{Command, put_cmd, get_type, get_cmd}

-- The values that the fields' types hold; the type id ends in a NUL.
pub record IsCommand (c : Command) : Type 0 where
  pub kind : c.kind < 256
  pub player : c.player < 256
  pub unit_id : IsU32 c.unit_id
  pub target_id : IsU32 c.target_id
  pub x : IsU32 c.x
  pub z : IsU32 c.z
  pub queue : c.queue < 256
  pub size : length c.type ≡ 16
  pub ends : set c.type 15 0 ≡ c.type

type_reads :
    (t rest : List ℕ) (r : Reader)
    → length t ≡ 16
    → set t 15 0 ≡ t
    → r.p ≡ t ++ rest
    → get_type r ≡ (t, record r { p = rest })
unfolding get_type ◌>>=◌ pure avail get_run fail_with
type_reads t rest r l e h = rw (
  h,
  get_type,
  le→leb 16 (length (t ++ rest)) (omega (arith, length-append t rest)),
  take-append_self 16 t rest (sym l),
  drop-append_self 16 t rest (sym l),
  e,
)

RoundTrip-type : (t : List ℕ) → length t ≡ 16 → set t 15 0 ≡ t → RoundTrip (put_raw t) get_type t
unfolding put_raw
RoundTrip-type t l e = record {
  written = t;
  writes = λ b. refl;
  reads = λ rest r h k. type_reads t rest r l e h;
}

pub RoundTrip-cmd : (c : Command) → IsCommand c → RoundTrip (put_cmd c) get_cmd c
unfolding put_cmd get_cmd
RoundTrip-cmd c v = RoundTrip-seq _ _ (RoundTrip-u8 c.kind v.kind) (
    RoundTrip-seq _ _ (RoundTrip-u8 c.player v.player) (
      RoundTrip-seq _ _ (RoundTrip-u32 c.unit_id v.unit_id) (
        RoundTrip-seq _ _ (RoundTrip-u32 c.target_id v.target_id) (
          RoundTrip-seq _ _ (RoundTrip-f32 c.x v.x) (
            RoundTrip-seq _ _ (RoundTrip-f32 c.z v.z) (
              RoundTrip-seq _ _ (RoundTrip-u8 c.queue v.queue)
                (RoundTrip-last _ _ (RoundTrip-type c.type v.size v.ends))))))))

get_type-IsLawful : IsLawful get_type
unfolding get_type
get_type-IsLawful = >>=-IsLawful _ (fixed_run-IsLawful 16 (replicate 16 0)) (λ t. pure-IsLawful _)

pub get_cmd-IsLawful : IsLawful get_cmd
unfolding get_cmd
get_cmd-IsLawful = >>=-IsLawful _ get_u8-IsLawful λ kind. >>=-IsLawful _ get_u8-IsLawful λ player.
    >>=-IsLawful _ get_u32-IsLawful λ unit_id. >>=-IsLawful _ get_u32-IsLawful λ target_id.
      >>=-IsLawful _ get_f32-IsLawful λ x. >>=-IsLawful _ get_f32-IsLawful λ z.
        >>=-IsLawful _ get_u8-IsLawful
          λ queue. >>=-IsLawful _ get_type-IsLawful λ type. pure-IsLawful _

-- A command whose fields hold values of their types is read back as it was written, and the bytes
-- behind it are left.
pub get_cmd-put_cmd :
    (c : Command) (rest : List ℕ)
    → IsCommand c
    → get_cmd (record { p = put_cmd c [] ++ rest; ok = true }) ≡ (c, record { p = rest; ok = true })
get_cmd-put_cmd c rest v = RoundTrip-read (RoundTrip-cmd c v) rest

-- A command whose fields hold values of their types adds 35 bytes to a buffer.
pub length-put_cmd : (c : Command) (b : List ℕ) → IsCommand c → length (put_cmd c b) ≡ length b + 35
unfolding put_cmd put_u8 put_u32 put_f32 put_le put_raw ◌>>◌
length-put_cmd c b v = omega (arith, length-append {0}, v.size)

-- Of the bytes of a command whose fields hold values of their types every proper front is refused:
-- the flag goes down.
pub get_cmd_truncated :
    (c : Command) (front : List ℕ) (x : ℕ) (back : List ℕ)
    → IsCommand c
    → put_cmd c [] ≡ front ++ (x ∷ back)
    → (get_cmd (record { p = front; ok = true })).1.ok ≡ false
get_cmd_truncated c front x back v e =
    RoundTrip-truncated (RoundTrip-cmd c v) get_cmd-IsLawful front x back
      (sym ((RoundTrip-cmd c v).writes []) ∙ e)
