-- ===== src/Cob/Vm/Run.antt =====
-- `Vm::run`, `start`, `call` and `tick` of src/cob/vm.cpp. `same` is the comparison of names that
-- `File::scriptIndex` of cob.cpp makes. A result `none` is a run that C++ leaves undefined.
use ta_engine.Common.{
  ℕ, zero, suc, Bool, true, false, not, ◌&&◌, Option, none, some, List, [], ◌∷◌, ◌++◌, ◌==◌,
  if◌then◌else◌, length, get_elem?, get_or, set,
}
use mathlib.Core.Option
use ta_engine.Common.Int32.{minus_one, is_neg, not32, bool32}
use ta_engine.Cob.Vm.Env.{Env}
use ta_engine.Cob.Vm.State.{
  on_emit_sfx, on_play_sound, on_set_unit_value, Axis, Thread, Machine, new_thread, room_for, push,
  pop, pop_params, add_thread, tell,
}
use ta_engine.Cob.Vm.Op.{
  Op, push_const, push_local, push_static, create_local, pop_local, pop_static, pop_stack, binary,
  bnot, lnot, rand, get_unit_value, get, query_one, query_none, start_script, call_script,
  skip_call, jump, ret, jump_if_false, signal, set_mask, move, turn, spin, stop_spin, show, hide,
  cosmetic, emit_sfx, explode, play_sound, engine_cmd, map_command, set_unit_value, attach,
  drop_unit, wait, sleep, decode,
}
use ta_engine.Cob.Vm.Exec.{
  Running, Step, next, stop, fault, advance, with_arg, go, ask, count, exec_binary, exec_rand,
  exec_query, exec_get, exec_start, exec_call, exec_return, exec_signal,
}
use ta_engine.Cob.Vm.Motion.{
  exec_move, exec_turn, exec_spin, exec_stop_spin, exec_show, exec_explode, sweep,
}

module _ (E : Env) where
  open E use {F, add, div, lt, of_int, thousand}

  -- Replace the top by a function of it.
  unfoldable pub exec_unary : (ℕ → ℕ) → Running E → Step E
  exec_unary f r = let (v, t1) = pop E r.t in go E 1 r.m (push E (f v) t1) r.me

  -- A negative index asks for more memory than a vector can have, or is -1 and leaves none.
  unfoldable pub exec_pop_local : Running E → Step E
  exec_pop_local r = with_arg E 0 r (λ i.
      let (v, t1) = pop E r.t in
      if is_neg i
      then fault
      else go E 2 r.m (record t1 { locals = set (room_for E i t1.locals) i v }) r.me)

  unfoldable pub exec_pop_static : Running E → Step E
  exec_pop_static r = with_arg E 0 r (λ i.
      let (v, t1) = pop E r.t in
      if is_neg i
      then fault
      else go E 2 (record r.m { statics = set (room_for E i r.m.statics) i v }) t1 r.me)

  unfoldable pub exec_jump_if_false : Running E → Step E
  exec_jump_if_false r =
      let (v, t1) = pop E r.t in
      if v == 0
      then with_arg E 0 r (λ a. next (record r { t = record t1 { pc = a } }))
      else go E 2 r.m t1 r.me

  unfoldable pub exec_map_command : ℕ → ℕ → Running E → Step E
  exec_map_command sub argc r =
      let (ps, t1) = pop_params E (count E argc) r.t [] in
      go E 3 r.m (push E (ask E E.on_map_command sub ps) t1) r.me

  unfoldable pub exec_set_unit_value : Running E → Step E
  exec_set_unit_value r =
      let (value, t1) = pop E r.t in
      let (id, t2) = pop E t1 in go E 1 (tell E (on_set_unit_value id value) r.m) t2 r.me

  unfoldable pub exec_sleep : Running E → Step E
  exec_sleep r =
      let (ms, t1) = pop E r.t in
      stop (record r {
        t = record (advance E 1 t1) { sleep_until = add r.m.now (div (of_int ms) thousand) };
      })

  unfoldable pub exec_wait : Bool → Running E → Step E
  exec_wait is_turn r = with_arg E 0 r (λ piece. with_arg E 1 r (λ axis. stop (record r {
    t = record (advance E 3 r.t) { wait_piece = piece; wait_axis = axis; wait_turn = is_turn };
  })))

  -- Drop `n` numbers and go on behind `words` words.
  unfoldable pub exec_drop : ℕ → ℕ → Running E → Step E
  exec_drop words n r = let (ps, t1) = pop_params E n r.t [] in go E words r.m t1 r.me

  unfoldable pub exec : Op → Running E → Step E
  exec push_const r = with_arg E 0 r (λ v. go E 2 r.m (push E v r.t) r.me)
  exec push_local r = with_arg E 0 r (λ i. go E 2 r.m (push E (get_or r.t.locals i 0) r.t) r.me)
  exec push_static r = with_arg E 0 r (λ i. go E 2 r.m (push E (get_or r.m.statics i 0) r.t) r.me)
  exec create_local r = go E 1 r.m (record r.t { locals = r.t.locals ++ 0 ∷ [] }) r.me
  exec pop_local r = exec_pop_local r
  exec pop_static r = exec_pop_static r
  exec pop_stack r = exec_drop 1 1 r
  exec (binary b) r = exec_binary E b r
  exec bnot r = exec_unary not32 r
  exec lnot r = exec_unary (λ v. bool32 (v == 0)) r
  exec rand r = exec_rand E r
  exec get_unit_value r = exec_query E r
  exec get r = exec_get E r
  exec query_one r = exec_query E r
  exec query_none r = go E 1 r.m (push E 0 r.t) r.me
  exec start_script r = with_arg E 0 r (λ script. with_arg E 1 r (λ n. exec_start E script n r))
  exec call_script r = with_arg E 0 r (λ script. with_arg E 1 r (λ n. exec_call E script n r))
  exec skip_call r = with_arg E 1 r (λ n. exec_drop 3 (count E n) r)
  exec jump r = with_arg E 0 r (λ a. next (record r { t = record r.t { pc = a } }))
  exec ret r = exec_return E r
  exec jump_if_false r = exec_jump_if_false r
  exec signal r = exec_signal E r
  exec set_mask r = let (v, t1) = pop E r.t in go E 1 r.m (record t1 { signal_mask = v }) r.me
  exec (move now) r = exec_move E now r
  exec (turn now) r = exec_turn E now r
  exec spin r = exec_spin E r
  exec stop_spin r = exec_stop_spin E r
  exec show r = exec_show E true r
  exec hide r = exec_show E false r
  exec cosmetic r = go E 2 r.m r.t r.me
  exec emit_sfx r =
      with_arg E 0 r
        (λ piece. let (sfx, t1) = pop E r.t in go E 2 (tell E (on_emit_sfx piece sfx) r.m) t1 r.me)
  exec explode r = exec_explode E r
  exec play_sound r = with_arg E 0 r (λ name.
      let (priority, t1) = pop E r.t in go E 2 (tell E (on_play_sound name) r.m) (push E 0 t1) r.me)
  exec engine_cmd r = go E 3 r.m r.t r.me
  exec map_command r = with_arg E 0 r (λ sub. with_arg E 1 r (λ n. exec_map_command sub n r))
  exec set_unit_value r = exec_set_unit_value r
  exec attach r = exec_drop 1 3 r
  exec drop_unit r = exec_drop 1 1 r
  exec (wait is_turn) r = exec_wait is_turn r
  exec sleep r = exec_sleep r

  unfoldable pub die : Running E → Step E
  die r = stop (record r { t = record r.t { dead = true } })

  unfoldable pub exec_word : ℕ → Running E → Step E
  exec_word w r = elim (decode w) [ none ↦ die r | some op ↦ exec op r ]

  unfoldable pub step : Running E → Step E
  step r = elim (get_elem? r.m.file.code r.t.pc) [ none ↦ die r | some w ↦ exec_word w r ]

  -- The rounds left of 5000; a thread that uses them up goes on in its next slice.
  unfoldable pub run_loop : ℕ → Running E → Option (Running E)
  run_loop zero r = some r
  run_loop (suc n) r = elim (step r) [ next r' ↦ run_loop n r' | stop r' ↦ some r' | fault ↦ none ]

  -- Is the axis that the thread waits for still at it; `none` is a read outside the pieces.
  unfoldable pub busy : Running E → Option Bool
  busy r = elim (get_elem? r.m.pieces r.t.wait_piece) [
    | none ↦ none
    | some p ↦
        Option.map (λ (a : Axis E). if r.t.wait_turn then a.turning else a.moving)
          (get_elem? p.axes r.t.wait_axis)
  ]

  unfoldable pub run_awake : Running E → Option (Running E)
  run_awake r = if is_neg r.t.wait_piece then run_loop 5000 r else elim (busy r) [
    | none ↦ none
    | some b ↦
        (if b
          then some r
          else run_loop 5000 (record r { t = record r.t { wait_piece = minus_one } }))
  ]

  -- `Vm::run`
  unfoldable pub run : Running E → Option (Running E)
  run r = if lt r.m.now r.t.sleep_until then some r else run_awake r

  -- The loop of `tick` over the threads from index `i`, `n` of them.
  unfoldable pub store : Running E → ℕ → Machine E
  store r i = record r.m { threads = set r.m.threads i r.t }

  unfoldable pub run_thread : ℕ → Machine E → Option (Machine E)
  run_thread i m = elim (get_elem? m.threads i) [
    | none ↦ some m
    | some t ↦
        (if t.dead
          then some m
          else Option.map (λ r. store r i) (run (record { m = m; t = t; me = some i })))
  ]

  unfoldable pub run_threads : ℕ → ℕ → Machine E → Option (Machine E)
  run_threads zero i m = some m
  run_threads (suc n) i m = elim (run_thread i m) [
    | none ↦ none
    | some m' ↦ run_threads n (suc i) m'
  ]

  unfoldable pub alive : List (Thread E) → List (Thread E)
  alive [] = []
  alive (t ∷ ts) = let rest = alive ts in if t.dead then rest else t ∷ rest

  -- What `tick` does behind the loop.
  unfoldable pub settle : Machine E → Machine E
  settle m = record m { ticking = false; threads = alive (m.threads ++ m.pending); pending = [] }

  -- `Vm::tick`
  unfoldable pub tick : F → Machine E → Option (Machine E)
  tick dt m =
      let m1 = record (sweep E dt (record m { now = add m.now dt })) { ticking = true } in
      Option.map settle (run_threads (length m1.threads) 0 m1)

  unfoldable pub script_entry : (List ℕ → List ℕ → Bool) → List ℕ → List (List ℕ × ℕ) → Option ℕ
  script_entry same name [] = none
  script_entry same name ((n, entry) ∷ more) =
      if same n name then some entry else script_entry same name more

  -- `Vm::start`
  unfoldable pub start : (List ℕ → List ℕ → Bool) → List ℕ → List ℕ → Machine E → Bool × Machine E
  start same name args m = elim (script_entry same name m.file.scripts) [
    | none ↦ (false, m)
    | some entry ↦ (true, add_thread E (new_thread E entry args 0) m)
  ]

  -- The loop of `Vm::call`, over the slices left of 64.
  unfoldable pub call_loop : ℕ → Running E → Option (Running E)
  call_loop zero r = some r
  call_loop (suc n) r = if r.t.dead then some r else elim (run r) [
    | none ↦ none
    | some r' ↦ elim (not r'.t.dead && r'.t.pc == r.t.pc) [
      | true ↦ some r'
      | false ↦ call_loop n r'
    ]
  ]

  -- `Vm::call`
  unfoldable pub call :
      (List ℕ → List ℕ → Bool) → List ℕ → List ℕ → Machine E → Option (ℕ × Machine E)
  call same name args m =
      let m0 = record m { last_locals = []; last_return = 0 } in
      elim (script_entry same name m.file.scripts) [
        | none ↦ some (0, m0)
        | some entry ↦
            Option.map (λ r. (r.m.last_return, record r.m { last_locals = r.t.locals }))
              (call_loop 64 (record { m = m0; t = new_thread E entry args 0; me = none }))
      ]
