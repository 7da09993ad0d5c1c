-- ===== src/Cob/Vm/Kept.antt =====
-- Every opcode of `Vm::run` in src/cob/vm.cpp keeps what `Later` says, and so do a slice, a tick and
-- a call.
use ta_engine.Common.{ℕ, refl, Bool, true, false, Option, none, some, List, [], ◌∷◌, if◌then◌else◌}
use ta_engine.Common.Int32.{is_neg}
use ta_engine.Common.{◌≡◌, ◌||◌}
use ta_engine.Cob.Vm.Env.{Env}
use ta_engine.Cob.Vm.State.{Axis, Thread, Machine, pop}
use ta_engine.Cob.Vm.Op.{
  Bin, Op, push_const, push_local, push_static, create_local, pop_local, pop_static, pop_stack,
  binary, bnot, lnot, rand, get_unit_value, get, query_one, query_none, start_script, call_script,
  skip_call, jump, ret, jump_if_false, signal, set_mask, move, turn, spin, stop_spin, show, hide,
  cosmetic, emit_sfx, explode, play_sound, engine_cmd, map_command, set_unit_value, attach,
  drop_unit, wait, sleep,
}
use ta_engine.Cob.Vm.Exec.{
  Running, Step, next, stop, fault, with_arg, go, exec_binary, exec_rand, exec_query, exec_get,
  exec_start, exec_call, exec_return, exec_signal,
}
use ta_engine.Cob.Vm.Motion.{
  in_motion, ramping, move_axis, turn_axis, spin_axis, exec_move, exec_turn, exec_spin,
  exec_stop_spin, exec_show, exec_explode,
}
use ta_engine.Cob.Vm.Run.{
  exec, exec_unary, exec_pop_local, exec_pop_static, exec_jump_if_false, exec_map_command,
  exec_set_unit_value, exec_sleep, exec_wait, exec_drop,
}
use ta_engine.Cob.Vm.Later.{
  Settles, Later, Later-refl, Later-trans, StepLater, on_axis-Later, set_visible-Later,
  animate-Later, if-Later, add_thread-Later, tell-Later, kill-Later, go-Later, with_arg-Later,
}

module _ (E : Env) where
  pub option-Later :
      {A : Type 0}
      → (o : Option A) → (m : Machine E) → (s : Step E) → (k : A → Step E) → StepLater E m s
      → ((a : A) → StepLater E m (k a))
      → StepLater E m (elim o [ none ↦ s | some a ↦ k a ])
  option-Later none m s k hs hk = hs
  option-Later (some a) m s k hs hk = hk a

  fault-Later : (m : Machine E) → StepLater E m fault
  unfolding StepLater
  fault-Later m = tt

  pub stays-Later :
      (m : Machine E)
      → (r : Running E) → Later E m r.m
      → StepLater E m (next r) × StepLater E m (stop r)
  unfolding StepLater
  stays-Later m r l = (l, l)

  -- Only the numbers, the hooks' notes or the random state differ.
  same_shape :
      (m : Machine E)
      → (statics : List ℕ) → (last : ℕ) → (g : _)
      → Later E m (record m { statics = statics; last_return = last; rng = g })
  same_shape m statics last g = record {
    file = refl;
    now = refl;
    ticking = refl;
    pieces = refl;
    axes = λ h. h;
    gated = λ h. record { still = h.still };
    threads = λ _. refl;
  }

  pub exec_binary-Later : (b : Bin) → (r : Running E) → StepLater E r.m (exec_binary E b r)
  unfolding exec_binary
  exec_binary-Later b r =
      option-Later _ r.m _ _ (fault-Later r.m) (λ v. go-Later E 1 _ _ _ (Later-refl E))

  pub exec_rand-Later : (r : Running E) → StepLater E r.m (exec_rand E r)
  unfolding exec_rand
  exec_rand-Later r =
      option-Later _ r.m _ _ (fault-Later r.m) (λ v. go-Later E 1 _ _ _ (same_shape r.m _ _ _))

  pub exec_start-Later :
      (script n : ℕ) → (r : Running E) → StepLater E r.m (exec_start E script n r)
  unfolding exec_start
  exec_start-Later script n r =
      option-Later _ r.m _ _ (go-Later E 3 _ _ _ (Later-refl E))
        (λ entry. go-Later E 3 _ _ _ (add_thread-Later E _ r.m))

  pub exec_call-Later : (script n : ℕ) → (r : Running E) → StepLater E r.m (exec_call E script n r)
  unfolding exec_call
  exec_call-Later script n r =
      option-Later _ r.m _ _ ((stays-Later r.m _ (Later-refl E)).1)
        (λ entry. (stays-Later r.m _ (Later-refl E)).0)

  pub exec_return-Later : (r : Running E) → StepLater E r.m (exec_return E r)
  unfolding exec_return StepLater
  exec_return-Later r =
      elim (pop E r.t).1.call_stack
        as (λ s. StepLater E r.m (elim s [
          | [] ↦ stop (record r {
            m = record r.m { last_return = (pop E r.t).0 };
            t = record (pop E r.t).1 { dead = true };
          })
          | pc ∷ more ↦ next (record r { t = record (pop E r.t).1 { pc = pc; call_stack = more } })
        ])) [ [] ↦ same_shape r.m _ _ _ | _ ∷ _ ↦ Later-refl E ]

  pub exec_signal-Later : (r : Running E) → StepLater E r.m (exec_signal E r)
  unfolding exec_signal
  exec_signal-Later r = go-Later E 1 _ _ _ (kill-Later E _ r.me r.m)

  args-Later :
      (r : Running E)
      → (k : ℕ → ℕ → Step E) → ((a b : ℕ) → StepLater E r.m (k a b))
      → StepLater E r.m (with_arg E 0 r (λ a. with_arg E 1 r (k a)))
  args-Later r k h = with_arg-Later E 0 r _ r.m (λ a. with_arg-Later E 1 r _ r.m (h a))

  or-drop : (a b : Bool) → a || b ≡ false → b ≡ false
  or-drop true b h = absurd (cc)
  or-drop false b h = h

  or-mid : (a b c : Bool) → a || (b || c) ≡ false → a || c ≡ false
  or-mid true b c h = absurd (cc)
  or-mid false b c h = or-drop b c h

  move-Settles :
      (target : _) → Settles E (λ (a : Axis E). record a { move = target; moving = false })
  unfolding in_motion ramping
  move-Settles target a h = or-drop a.moving _ h

  turn-Settles :
      (target : _) → Settles E (λ (a : Axis E). record a { rot = target; turning = false })
  unfolding in_motion ramping
  turn-Settles target a h = or-mid a.moving a.turning _ h

  pub exec_move-Later : (now : Bool) → (r : Running E) → StepLater E r.m (exec_move E now r)
  unfolding exec_move move_axis
  exec_move-Later now r = args-Later r _ (λ piece axis. go-Later E 3 _ _ _ (
      if-Later E _
        (if-Later E _ (on_axis-Later E piece axis _ r.m (move-Settles _))
          (animate-Later E piece axis _ r.m))
        (Later-refl E)))

  pub exec_turn-Later : (now : Bool) → (r : Running E) → StepLater E r.m (exec_turn E now r)
  unfolding exec_turn turn_axis
  exec_turn-Later now r = args-Later r _ (λ piece axis. go-Later E 3 _ _ _ (
      if-Later E _
        (if-Later E _ (on_axis-Later E piece axis _ r.m (turn-Settles _))
          (animate-Later E piece axis _ r.m))
        (Later-refl E)))

  pub exec_spin-Later : (r : Running E) → StepLater E r.m (exec_spin E r)
  unfolding exec_spin spin_axis
  exec_spin-Later r = args-Later r _ (λ piece axis.
      go-Later E 3 _ _ _ (if-Later E _ (animate-Later E piece axis _ r.m) (Later-refl E)))

  pub exec_stop_spin-Later : (r : Running E) → StepLater E r.m (exec_stop_spin E r)
  unfolding exec_stop_spin spin_axis
  exec_stop_spin-Later r = args-Later r _ (λ piece axis.
      go-Later E 3 _ _ _ (if-Later E _ (animate-Later E piece axis _ r.m) (Later-refl E)))

  pub exec_show-Later : (b : Bool) → (r : Running E) → StepLater E r.m (exec_show E b r)
  unfolding exec_show
  exec_show-Later b r =
      with_arg-Later E 0 r _ r.m (λ piece.
        go-Later E 2 _ _ _ (if-Later E _ (set_visible-Later E piece b r.m) (Later-refl E)))

  pub exec_explode-Later : (r : Running E) → StepLater E r.m (exec_explode E r)
  unfolding exec_explode
  exec_explode-Later r = with_arg-Later E 0 r _ r.m (λ piece. go-Later E 2 _ _ _ (
      Later-trans E (if-Later E _ (set_visible-Later E piece false r.m) (Later-refl E))
        (tell-Later E _ _)))

  pub keep : (n : ℕ) → (t : Thread E) → (r : Running E) → StepLater E r.m (go E n r.m t r.me)
  keep n t r = go-Later E n _ _ _ (Later-refl E)

  pub drop-Later : (words n : ℕ) → (r : Running E) → StepLater E r.m (exec_drop E words n r)
  unfolding exec_drop
  drop-Later words n r = keep words _ r

  if-StepLater :
      (b : Bool)
      → (s s' : Step E) → (m : Machine E) → StepLater E m s
      → StepLater E m s'
      → StepLater E m (if b then s else s')
  if-StepLater true s s' m h h' = h
  if-StepLater false s s' m h h' = h'

  unary-Later : (f : ℕ → ℕ) → (r : Running E) → StepLater E r.m (exec_unary E f r)
  unfolding exec_unary
  unary-Later f r = keep 1 _ r

  query-Later : (r : Running E) → StepLater E r.m (exec_query E r)
  unfolding exec_query
  query-Later r = keep 1 _ r

  get-Later : (r : Running E) → StepLater E r.m (exec_get E r)
  unfolding exec_get
  get-Later r = keep 1 _ r

  map_command-Later : (sub n : ℕ) → (r : Running E) → StepLater E r.m (exec_map_command E sub n r)
  unfolding exec_map_command
  map_command-Later sub n r = keep 3 _ r

  set_unit_value-Later : (r : Running E) → StepLater E r.m (exec_set_unit_value E r)
  unfolding exec_set_unit_value
  set_unit_value-Later r = go-Later E 1 _ _ _ (tell-Later E _ r.m)

  wait-Later : (is_turn : Bool) → (r : Running E) → StepLater E r.m (exec_wait E is_turn r)
  unfolding exec_wait
  wait-Later is_turn r = args-Later r _ (λ a b. (stays-Later r.m _ (Later-refl E)).1)

  sleep-Later : (r : Running E) → StepLater E r.m (exec_sleep E r)
  unfolding exec_sleep
  sleep-Later r = (stays-Later r.m _ (Later-refl E)).1

  pub pop_local-Later : (r : Running E) → StepLater E r.m (exec_pop_local E r)
  unfolding exec_pop_local
  pop_local-Later r =
      with_arg-Later E 0 r _ r.m (λ i. if-StepLater (is_neg i) _ _ _ (fault-Later r.m) (keep 2 _ r))

  pub pop_static-Later : (r : Running E) → StepLater E r.m (exec_pop_static E r)
  unfolding exec_pop_static
  pop_static-Later r = with_arg-Later E 0 r _ r.m (λ i.
      if-StepLater (is_neg i) _ _ _ (fault-Later r.m) (go-Later E 2 _ _ _ (same_shape r.m _ _ _)))

  pub jump_if_false-Later : (r : Running E) → StepLater E r.m (exec_jump_if_false E r)
  unfolding exec_jump_if_false
  jump_if_false-Later r =
      if-StepLater _ _ _ _ (with_arg-Later E 0 r _ r.m (λ a. (stays-Later r.m _ (Later-refl E)).0))
        (keep 2 _ r)

  pub exec-Later : (op : Op) → (r : Running E) → StepLater E r.m (exec E op r)
  unfolding exec
  exec-Later push_const r = with_arg-Later E 0 r _ r.m (λ v. keep 2 _ r)
  exec-Later push_local r = with_arg-Later E 0 r _ r.m (λ v. keep 2 _ r)
  exec-Later push_static r = with_arg-Later E 0 r _ r.m (λ v. keep 2 _ r)
  exec-Later create_local r = keep 1 _ r
  exec-Later pop_local r = pop_local-Later r
  exec-Later pop_static r = pop_static-Later r
  exec-Later pop_stack r = drop-Later 1 1 r
  exec-Later (binary b) r = exec_binary-Later b r
  exec-Later bnot r = unary-Later _ r
  exec-Later lnot r = unary-Later _ r
  exec-Later rand r = exec_rand-Later r
  exec-Later get_unit_value r = query-Later r
  exec-Later get r = get-Later r
  exec-Later query_one r = query-Later r
  exec-Later query_none r = keep 1 _ r
  exec-Later start_script r = args-Later r _ (λ script n. exec_start-Later script n r)
  exec-Later call_script r = args-Later r _ (λ script n. exec_call-Later script n r)
  exec-Later skip_call r = with_arg-Later E 1 r _ r.m (λ n. drop-Later 3 _ r)
  exec-Later jump r = with_arg-Later E 0 r _ r.m (λ a. (stays-Later r.m _ (Later-refl E)).0)
  exec-Later ret r = exec_return-Later r
  exec-Later jump_if_false r = jump_if_false-Later r
  exec-Later signal r = exec_signal-Later r
  exec-Later set_mask r = keep 1 _ r
  exec-Later (move now) r = exec_move-Later now r
  exec-Later (turn now) r = exec_turn-Later now r
  exec-Later spin r = exec_spin-Later r
  exec-Later stop_spin r = exec_stop_spin-Later r
  exec-Later show r = exec_show-Later true r
  exec-Later hide r = exec_show-Later false r
  exec-Later cosmetic r = keep 2 _ r
  exec-Later emit_sfx r = with_arg-Later E 0 r _ r.m (λ a. go-Later E 2 _ _ _ (tell-Later E _ r.m))
  exec-Later explode r = exec_explode-Later r
  exec-Later play_sound r =
      with_arg-Later E 0 r _ r.m (λ a. go-Later E 2 _ _ _ (tell-Later E _ r.m))
  exec-Later engine_cmd r = keep 3 _ r
  exec-Later map_command r = args-Later r _ (λ sub n. map_command-Later sub n r)
  exec-Later set_unit_value r = set_unit_value-Later r
  exec-Later attach r = drop-Later 1 3 r
  exec-Later drop_unit r = drop-Later 1 1 r
  exec-Later (wait t) r = wait-Later t r
  exec-Later sleep r = sleep-Later r
