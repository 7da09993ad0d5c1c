-- ===== src/Cob/Vm/Env.antt =====
-- What vm.cpp takes from outside: `float` arithmetic, the Mersenne Twister, and the engine's hooks
-- that answer. A hook that is not set is `none`.
use ta_engine.Common.{ℕ, Bool, Option, List, if◌then◌else◌}

pub record Env : Type 1 where
  pub F : Type 0
  pub zero_f : F
  pub of_int : ℕ → F
  pub add : F → F → F
  pub sub : F → F → F
  pub mul : F → F → F
  pub div : F → F → F
  pub neg : F → F
  pub lt : F → F → Bool
  pub le : F → F → Bool
  pub eq : F → F → Bool
  pub abs : F → F
  pub remainder : F → F → F
  pub k_angle : F
  pub k_linear : F
  pub two_pi : F
  pub thousand : F
  -- The n-th number of std::mt19937 seeded with 12345, from 0.
  pub mersenne : ℕ → ℕ
  pub on_get : Option (ℕ → List ℕ → ℕ)
  pub on_map_command : Option (ℕ → List ℕ → ℕ)

module _ (E : Env) where
  open E use {F, add, sub, neg, lt, le, abs, remainder, two_pi, zero_f}

  -- `std::min` and `std::max`
  unfoldable pub min_f : F → F → F
  min_f a b = if lt b a then b else a

  unfoldable pub max_f : F → F → F
  max_f a b = if lt a b then b else a

  unfoldable pub towards : F → F → F → F
  towards cur target step =
      if lt cur target then min_f (add cur step) target else max_f (sub cur step) target

  unfoldable pub ang_towards : F → F → F → F
  ang_towards cur target step =
      let d = remainder (sub target cur) two_pi in
      if le (abs d) step then target else add cur (if lt zero_f d then step else neg step)
