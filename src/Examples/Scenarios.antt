-- ===== src/Examples/Scenarios.antt =====
-- A scenario with a unit, a rule group and a region, whose version is still zero.
use ta_engine.Common.{ℕ, ◌≡◌, refl, Bool, ◌||◌, [], ◌∷◌, arith, ltb, length, take}
use ta_engine.Crt.{
  Scenario, ScenarioUnit, CustomType, Rule, Region, c_str, strip_right, write_version, write, parse,
  no_scenario, one_f, write_type, write_unit, write_region, write_counted, write_all, write_group,
  write_rule, write_slots, write_i32s, field, zero_fill, u32v,
}
use ta_engine.Crt.Records.{IsRule, keep_type, keep_unit, keep_rule, keep_region}
use ta_engine.Crt.RoundTrip.{IsScenario, keep_scenario, keep_group, parse-write, parse_truncated}

abbrev knight : ScenarioUnit
knight = record {
  object_name = (b'a' ∷ b'r' ∷ b'a' ∷ b'k' ∷ b'n' ∷ b'i' ∷ b'g' ∷ b'h' ∷ []);
  unique_name = [];
  x = 12;
  y = 200;
  z = 30;
  player = 0;
  health = 100;
  armor = 100;
  weapon = 100;
  angle = 90;
  veteran = 0;
}

abbrev stronger : CustomType
stronger = record {
  name = (b'a' ∷ b'r' ∷ b'a' ∷ b'k' ∷ b'n' ∷ b'i' ∷ b'g' ∷ b'h' ∷ []);
  stat = 150 ∷ 100 ∷ 100 ∷ 0 ∷ [];
}

abbrev always : Rule
always = record { opcode = 3; slot = (b'f' ∷ b'l' ∷ b'a' ∷ b'g' ∷ []) ∷ [] ∷ [] ∷ [] ∷ [] ∷ [] }

abbrev gate : Region
gate = record {
  name = (b'g' ∷ b'a' ∷ b't' ∷ b'e' ∷ b' ' ∷ b' ' ∷ []);
  x1 = 1;
  z1 = 2;
  x2 = 5;
  z2 = 6;
}

abbrev small : Scenario
small = record {
  version = 0;
  custom_types = stronger ∷ [];
  units = knight ∷ [];
  players = (record { conditions = always ∷ []; actions = [] } ∷ []) ∷ [];
  regions = gate ∷ [];
}

-- Far from 1.0, with the patterns next to 1.0 - 0.01 and 1.0 + 0.01 as the ends.
abbrev far : ℕ → Bool
far v = ltb v 0x3f7d70a4 || ltb 0x3f8147ae v

always-IsRule : IsRule always
always-IsRule = record { five = refl; word = omega arith }

small-IsScenario : IsScenario small
small-IsScenario = record {
  version_is = omega arith;
  types_fit = omega arith;
  types_are = (
    record { four = refl; words = (omega arith, (omega arith, (omega arith, (omega arith, tt)))) },
    tt,
  );
  units_fit = omega arith;
  units_are = (
    (
      omega arith,
      (
        omega arith,
        (
          omega arith,
          (
            omega arith,
            (omega arith, (omega arith, (omega arith, (omega arith, (omega arith, tt))))),
          ),
        ),
      ),
    ),
    tt,
  );
  players_fit = omega arith;
  players_are = (
    record {
      groups_fit = omega arith;
      groups_are = (
        record {
          conditions_fit = omega arith;
          conditions_are = (always-IsRule, tt);
          actions_fit = omega arith;
          actions_are = tt;
        },
        tt,
      );
    },
    tt,
  );
  regions_fit = omega arith;
  regions_are = ((omega arith, (omega arith, (omega arith, (omega arith, tt)))), tt);
}

parse-write_example : parse far (write small) ≡ record small {
  version = one_f;
  regions = record gate { name = (b'g' ∷ b'a' ∷ b't' ∷ b'e' ∷ []) } ∷ [];
}
unfolding keep_scenario keep_type keep_unit keep_group keep_rule keep_region c_str strip_right
    write_version
parse-write_example = parse-write far small small-IsScenario refl

length-small : length (write small) ≡ 1468
unfolding write write_version write_type write_unit write_region write_counted write_all write_group
    write_rule write_slots write_i32s field zero_fill u32v
length-small = refl

parse_truncated_example : parse far (take 100 (write small)) ≡ no_scenario
parse_truncated_example =
    parse_truncated far small 100 small-IsScenario (omega (arith, length-small))
