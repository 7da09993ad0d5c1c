-- ===== src/Net/Bundle/RoundTrip.antt =====
-- A tick bundle survives the wire; one that is cut short is dropped whole.
use ta_engine.Common.{
  ℕ, ◌<◌, ◌≡◌, refl, sym, ◌∙◌, true, none, some, List, [], ◌∷◌, ◌++◌, append-nil, length, All,
}
use ta_engine.Common.Word.{IsU32, IsU64}
use ta_engine.Net.Wire.RoundTrip.{
  RoundTrip-u64, RoundTrip, RoundTrip-seq, RoundTrip-last, RoundTrip-read, RoundTrip-u8,
  RoundTrip-u32,
}
use ta_engine.Net.Wire.Texts.{RoundTrip-list}
use ta_engine.Net.Wire.Lawful.{
  IsLawful, >>=-IsLawful, pure-IsLawful, get_u8-IsLawful, get_u32-IsLawful,
}
use ta_engine.Net.Wire.Lengths.{RoundTrip-truncated, get_list-IsLawful}
use ta_engine.Net.Command.{put_cmd, get_cmd}
use ta_engine.Net.Command.RoundTrip.{IsCommand, RoundTrip-cmd, get_cmd-IsLawful}
use ta_engine.Net.Bundle.{
  put_hash, get_hash, Event, Bundle, put_event, get_event, put_bundle, get_bundle, receive_bundle,
}

pub record IsEvent (e : Event) : Type 0 where
  pub kind : e.kind < 256
  pub player : e.player < 256

pub record IsBundle (b : Bundle) : Type 0 where
  pub cmds : All IsCommand b.cmds
  pub events : All IsEvent b.events
  pub few_cmds : IsU32 (length b.cmds)
  pub few_events : IsU32 (length b.events)

All-map :
    {A : Type 0} {P Q : A → Type 0} → ((a : A) → P a → Q a) → (xs : List A) → All P xs → All Q xs
All-map f [] h = tt
All-map f (x ∷ xs) (h, hs) = (f x h, All-map f xs hs)

RoundTrip-event : (e : Event) → IsEvent e → RoundTrip (put_event e) get_event e
unfolding put_event get_event
RoundTrip-event e v =
    RoundTrip-seq _ _ (RoundTrip-u8 e.kind v.kind)
      (RoundTrip-last _ _ (RoundTrip-u8 e.player v.player))

RoundTrip-bundle :
    (tick : ℕ) (b : Bundle)
    → IsU32 tick
    → IsBundle b
    → RoundTrip (put_bundle tick b) get_bundle (tick, b)
unfolding put_bundle get_bundle
RoundTrip-bundle tick b h v = RoundTrip-seq _ _ (RoundTrip-u32 tick h) (
    RoundTrip-seq _ _ (RoundTrip-u32 (length b.cmds) v.few_cmds) (
      RoundTrip-seq _ _
        (RoundTrip-list put_cmd get_cmd b.cmds [] (All-map RoundTrip-cmd b.cmds v.cmds))
        (RoundTrip-seq _ _ (RoundTrip-u32 (length b.events) v.few_events) (
          RoundTrip-last _ _ (
            RoundTrip-list put_event get_event b.events []
              (All-map RoundTrip-event b.events v.events))))))

get_event-IsLawful : IsLawful get_event
unfolding get_event
get_event-IsLawful =
    >>=-IsLawful _ get_u8-IsLawful λ kind. >>=-IsLawful _ get_u8-IsLawful λ player. pure-IsLawful _

pub get_bundle-IsLawful : IsLawful get_bundle
unfolding get_bundle
get_bundle-IsLawful = >>=-IsLawful _ get_u32-IsLawful λ tick. >>=-IsLawful _ get_u32-IsLawful λ nc.
    >>=-IsLawful _ (get_list-IsLawful nc get_cmd [] get_cmd-IsLawful) λ cmds.
      >>=-IsLawful _ get_u32-IsLawful λ ne.
        >>=-IsLawful _ (get_list-IsLawful ne get_event [] get_event-IsLawful)
          λ events. pure-IsLawful _

-- A peer that receives the payload the server wrote for a tick has that tick, its commands and its
-- events, in the order in which they were written, if each field is a value of its type.
pub receive_bundle-put_bundle :
    (tick : ℕ) (b : Bundle)
    → IsU32 tick
    → IsBundle b
    → receive_bundle (put_bundle tick b []) ≡ some (tick, b)
unfolding receive_bundle
receive_bundle-put_bundle tick b h v =
    let t = RoundTrip-bundle tick b h v in
    rw (
      t.reads [] (record { p = put_bundle tick b []; ok = true }) (t.writes [] ∙ sym (append-nil _))
        refl)

-- Of the payload of a tick and a bundle whose fields are values of their types, every proper front is
-- dropped whole.
pub receive_bundle_truncated :
    (tick : ℕ) (b : Bundle) (front : List ℕ) (x : ℕ) (back : List ℕ)
    → IsU32 tick
    → IsBundle b
    → put_bundle tick b [] ≡ front ++ (x ∷ back)
    → receive_bundle front ≡ none
unfolding receive_bundle
receive_bundle_truncated tick b front x back h v e =
    let t = RoundTrip-bundle tick b h v in
    rw (RoundTrip-truncated t get_bundle-IsLawful front x back (sym (t.writes []) ∙ e))

RoundTrip-hash :
    (tick hash : ℕ) → IsU32 tick → IsU64 hash → RoundTrip (put_hash tick hash) get_hash (tick, hash)
unfolding put_hash get_hash
RoundTrip-hash tick hash h k =
    RoundTrip-seq _ _ (RoundTrip-u32 tick h) (RoundTrip-last _ _ (RoundTrip-u64 hash k))

-- A report of a state hash is read back as it was written, where the tick has 32 bits and the hash 64,
-- and the bytes behind it are left.
pub get_hash-put_hash :
    (tick hash : ℕ) (rest : List ℕ)
    → IsU32 tick
    → IsU64 hash
    → get_hash (record { p = put_hash tick hash [] ++ rest; ok = true })
      ≡ ((tick, hash), record { p = rest; ok = true })
get_hash-put_hash tick hash rest h k = RoundTrip-read (RoundTrip-hash tick hash h k) rest
