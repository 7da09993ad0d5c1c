-- ===== src/Examples/Messages.antt =====
-- A command, a bundle and a replay header of eight slots.
use ta_engine.Common.{◌≡◌, refl, true, none, some, [], ◌∷◌, ◌++◌, arith, take, drop, replicate}
use ta_engine.Net.Wire.{◌>>◌, put_nothing, put_u8, put_u32, put_f32, put_le, put_raw, put_list}
use ta_engine.Net.Command.{Command, put_cmd}
use ta_engine.Net.Command.RoundTrip.{IsCommand}
use ta_engine.Net.Bundle.{Bundle, put_event, put_bundle, receive_bundle}
use ta_engine.Net.Bundle.RoundTrip.{IsBundle, receive_bundle-put_bundle, receive_bundle_truncated}
use ta_engine.Net.Replay.{ReplaySlot, ReplayHeader, put_header, load_header}
use ta_engine.Net.Replay.RoundTrip.{IsSlot, IsHeader, load_header-put_header}

abbrev build : Command
build = record {
  kind = 3;
  player = 1;
  unit_id = 4294967295;
  target_id = 70000;
  x = 1065353216;
  z = 3212836864;
  queue = 1;
  type = 65 ∷ 82 ∷ 65 ∷ replicate 13 0;
}

build-IsCommand : IsCommand build
build-IsCommand = record {
  kind = omega arith;
  player = omega arith;
  unit_id = omega arith;
  target_id = omega arith;
  x = omega arith;
  z = omega arith;
  queue = omega arith;
  size = refl;
  ends = refl;
}

abbrev turn_bundle : Bundle
turn_bundle = record { cmds = build ∷ build ∷ []; events = record { kind = 1; player = 2 } ∷ [] }

turn_bundle-IsBundle : IsBundle turn_bundle
turn_bundle-IsBundle = record {
  cmds = (build-IsCommand, (build-IsCommand, tt));
  events = (record { kind = omega arith; player = omega arith }, tt);
  few_cmds = omega arith;
  few_events = omega arith;
}

receive_bundle-put_bundle_example :
    receive_bundle (put_bundle 600 turn_bundle []) ≡ some (600, turn_bundle)
receive_bundle-put_bundle_example =
    receive_bundle-put_bundle 600 turn_bundle (omega arith) turn_bundle-IsBundle

receive_bundle_truncated_example : receive_bundle (take 40 (put_bundle 600 turn_bundle [])) ≡ none
unfolding put_bundle put_event put_cmd put_list ◌>>◌ put_nothing put_u8 put_u32 put_f32 put_le
    put_raw
receive_bundle_truncated_example =
    receive_bundle_truncated 600 turn_bundle (take 40 (put_bundle 600 turn_bundle [])) 0
      (drop 41 (put_bundle 600 turn_bundle [])) (omega arith) turn_bundle-IsBundle refl

abbrev slot : ReplaySlot
slot = record { type = 1; faction = 2; color = 3; team = 255; ai_level = 1 }

slot-IsSlot : IsSlot slot
slot-IsSlot = record {
  type = omega arith;
  faction = omega arith;
  color = omega arith;
  team = omega arith;
  ai_level = omega arith;
}

abbrev game : ReplayHeader
game = record {
  map_id = 65 ∷ 66 ∷ [];
  mission = [];
  engine_version = 49 ∷ [];
  forfeit_self_destruct = 1;
  override_policy = 0;
  unit_cap = 500;
  commander_expendable = 1;
  stress_test = 0;
  random_starts = 1;
  benchmark = 0;
  seed = 4294967295;
  data_hash = 18446744073709551615;
  slots = replicate 8 slot;
}

game-IsHeader : IsHeader game
game-IsHeader = record {
  map_id = omega arith;
  mission = omega arith;
  engine_version = omega arith;
  forfeit_self_destruct = omega arith;
  override_policy = omega arith;
  unit_cap = omega arith;
  commander_expendable = omega arith;
  stress_test = omega arith;
  random_starts = omega arith;
  benchmark = omega arith;
  seed = omega arith;
  data_hash = omega arith;
  slots = (
    slot-IsSlot,
    (
      slot-IsSlot,
      (slot-IsSlot, (slot-IsSlot, (slot-IsSlot, (slot-IsSlot, (slot-IsSlot, (slot-IsSlot, tt)))))),
    ),
  );
  eight = refl;
}

load_header-put_header_example :
    load_header (put_header game [] ++ 5 ∷ []) ≡ some (game, record { p = 5 ∷ []; ok = true })
load_header-put_header_example = load_header-put_header game (5 ∷ []) game-IsHeader
