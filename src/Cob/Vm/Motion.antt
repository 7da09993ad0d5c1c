-- ===== src/Cob/Vm/Motion.antt =====
-- The opcodes of `Vm::run` in src/cob/vm.cpp that move, turn, spin, show or hide a piece, and the
-- animation sweep of `Vm::tick`. A COB angle is scaled by `kAngle`, a length by `kLinear`.
use Prim.Native.Nat.{bit_and}
use ta_engine.Common.{
  ℕ, Bool, true, false, not, ◌&&◌, ◌||◌, List, [], ◌∷◌, map, ◌==◌, if◌then◌else◌,
}
use ta_engine.Cob.Vm.Env.{Env, towards, ang_towards}
use ta_engine.Cob.Vm.State.{on_explode, Axis, Piece, Thread, Machine, pop, tell}
use ta_engine.Cob.Vm.Exec.{
  Running, Step, on_axis, set_visible, is_piece, is_axis, animate, go, with_arg,
}

module _ (E : Env) where
  open E use {F, zero_f, of_int, add, mul, lt, le, eq, abs, k_angle, k_linear}

  -- `float(pop(t)) * scale`
  unfoldable pub pop_scaled : F → Thread E → F × Thread E
  pop_scaled scale t = let (v, t') = pop E t in (mul (of_int v) scale, t')

  -- The `_NOW` forms pop no speed.
  unfoldable pub pop_speed : Bool → F → Thread E → F × Thread E
  pop_speed true scale t = (zero_f, t)
  pop_speed false scale t = pop_scaled scale t

  unfoldable pub move_axis : Bool → F → F → ℕ → ℕ → Machine E → Machine E
  move_axis now target speed piece axis m =
      if now || le speed zero_f
      then on_axis E piece axis (λ (a : Axis E). record a { move = target; moving = false }) m
      else animate E piece axis
          (λ (a : Axis E). record a { move_target = target; move_speed = speed; moving = true }) m

  unfoldable pub turn_axis : Bool → F → F → ℕ → ℕ → Machine E → Machine E
  turn_axis now target speed piece axis m =
      if now || le speed zero_f
      then on_axis E piece axis (λ (a : Axis E). record a { rot = target; turning = false }) m
      else animate E piece axis
          (λ (a : Axis E). record a { rot_target = target; rot_speed = abs speed; turning = true })
          m

  unfoldable pub spin_axis : F → F → ℕ → ℕ → Machine E → Machine E
  spin_axis target accel piece axis m =
      animate E piece axis
        (λ (a : Axis E). record a {
          spin_target = target;
          spin_accel = abs accel;
          spin = if eq accel zero_f then target else a.spin;
        })
        m

  unfoldable pub exec_move : Bool → Running E → Step E
  exec_move now r = with_arg E 0 r (λ piece. with_arg E 1 r (λ axis.
      let (target, t1) = pop_scaled k_linear r.t in
      let (speed, t2) = pop_speed now k_linear t1 in
      go E 3 (if is_axis E piece axis r.m then move_axis now target speed piece axis r.m else r.m)
        t2 r.me))

  unfoldable pub exec_turn : Bool → Running E → Step E
  exec_turn now r = with_arg E 0 r (λ piece. with_arg E 1 r (λ axis.
      let (target, t1) = pop_scaled k_angle r.t in
      let (speed, t2) = pop_speed now k_angle t1 in
      go E 3 (if is_axis E piece axis r.m then turn_axis now target speed piece axis r.m else r.m)
        t2 r.me))

  unfoldable pub exec_spin : Running E → Step E
  exec_spin r = with_arg E 0 r (λ piece. with_arg E 1 r (λ axis.
      let (target, t1) = pop_scaled k_angle r.t in
      let (accel, t2) = pop_scaled k_angle t1 in
      go E 3 (if is_axis E piece axis r.m then spin_axis target accel piece axis r.m else r.m) t2
        r.me))

  unfoldable pub exec_stop_spin : Running E → Step E
  exec_stop_spin r = with_arg E 0 r (λ piece. with_arg E 1 r (λ axis.
      let (decel, t1) = pop_scaled k_angle r.t in
      go E 3 (if is_axis E piece axis r.m then spin_axis zero_f decel piece axis r.m else r.m) t1
        r.me))

  -- SHOW and HIDE
  unfoldable pub exec_show : Bool → Running E → Step E
  exec_show b r =
      with_arg E 0 r
        (λ piece. go E 2 (if is_piece E piece r.m then set_visible E piece b r.m else r.m) r.t r.me)

  unfoldable pub exec_explode : Running E → Step E
  exec_explode r = with_arg E 0 r (λ piece.
      let (flags, t1) = pop E r.t in
      go E 2
        (tell E (on_explode piece flags) (
          if bit_and flags 0x20 == 0 && is_piece E piece r.m
          then set_visible E piece false r.m
          else r.m))
        t1 r.me)

  -- The body of the sweep's inner loop, and whether it leaves the axis in motion.
  unfoldable pub sweep_move : F → Axis E → Axis E
  sweep_move dt a =
      if a.moving
      then (let at = towards E a.move a.move_target (mul a.move_speed dt) in
          record a { move = at; moving = not (eq at a.move_target) })
      else a

  unfoldable pub sweep_turn : F → Axis E → Axis E
  sweep_turn dt a =
      if a.turning
      then (let at = ang_towards E a.rot a.rot_target (mul a.rot_speed dt) in
          record a { rot = at; turning = not (eq at a.rot_target) })
      else a

  unfoldable pub ramping : Axis E → Bool
  ramping a = lt zero_f a.spin_accel && not (eq a.spin a.spin_target)

  unfoldable pub sweep_spin : F → Axis E → Axis E
  sweep_spin dt a =
      let s = if ramping a then towards E a.spin a.spin_target (mul a.spin_accel dt) else a.spin in
      record a { spin = s; rot = add a.rot (mul s dt) }

  unfoldable pub sweep_axis : F → Axis E → Axis E
  sweep_axis dt a = sweep_spin dt (sweep_turn dt (sweep_move dt a))

  unfoldable pub in_motion : Axis E → Bool
  in_motion a = a.moving || (a.turning || (not (eq a.spin zero_f) || ramping a))

  unfoldable pub sweep_piece : F → Piece E → Piece E
  sweep_piece dt p = record p { axes = map (sweep_axis dt) p.axes }

  unfoldable pub any : {A : Type 0} → (A → Bool) → List A → Bool
  any test [] = false
  any test (x ∷ xs) = test x || any test xs

  unfoldable pub sweep : F → Machine E → Machine E
  sweep dt m =
      if m.any_motion
      then (let ps = map (sweep_piece dt) m.pieces in
          record m { pieces = ps; any_motion = any (λ (p : Piece E). any in_motion p.axes) ps })
      else m
