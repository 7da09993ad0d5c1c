-- ===== src/Examples/Machines.antt =====
-- A script that signals, starts another one, turns a piece and rests, over whole numbers for floats.
use ta_engine.Common.{
  ℕ, ◌+◌, ◌-◌, ◌*◌, ◌/◌, ◌%◌, ◌≡◌, refl, inl, true, false, none, some, List, [], ◌∷◌, arith, ltb,
  leb, ◌==◌,
}
use ta_engine.Common.Int32.{lt32, is_neg, wrap, add32}
use ta_engine.Cob.Vm.Env.{Env}
use ta_engine.Cob.Vm.State.{
  File, Rng, xorshift, Thread, Machine, new_machine, new_thread, add_thread, rest_piece, rest_axis,
  pop, top, rest, push, pop_params,
}
use ta_engine.Cob.Vm.Op.{decode, find_op}
use ta_engine.Cob.Vm.Motion.{sweep, exec_turn, pop_scaled, pop_speed, turn_axis}
use ta_engine.Cob.Vm.Exec.{
  with_arg, go, advance, is_axis, is_piece, animate, on_axis, modify, exec_start, count, entry_of,
  Running, draw, next_rand, shifted, next, exec_signal,
}
use ta_engine.Cob.Vm.Run.{
  run, tick, run_threads, run_thread, run_awake, run_loop, step, exec_word, exec, exec_sleep,
  settle, store, alive,
}
use ta_engine.Cob.Vm.Later.{Later}
use ta_engine.Cob.Vm.Slices.{run-Later}
use ta_engine.Cob.Vm.Ticks.{Settled, tick-Settled}
use ta_engine.Cob.Vm.Signals.{AllSignalled, exec_signal-Signalled, draw-between}

abbrev whole : Env
whole = record {
  F = ℕ;
  zero_f = 0;
  of_int = λ n. n;
  add = λ a b. a + b;
  sub = λ a b. a - b;
  mul = λ a b. a * b;
  div = λ a b. a / b;
  neg = λ a. a;
  lt = ltb;
  le = leb;
  eq = λ a b. a == b;
  abs = λ a. a;
  remainder = λ a b. a % b;
  k_angle = 1;
  k_linear = 1;
  two_pi = 65536;
  thousand = 1000;
  mersenne = λ n. 3499211612;
  on_get = none;
  on_map_command = none;
}

-- PUSH_CONST 9; PUSH_CONST 5; TURN piece 0 axis 1; START_SCRIPT 0 with 0; PUSH_CONST 2000; SLEEP
abbrev script : File
script = record {
  scripts = (65 ∷ [], 0) ∷ [];
  num_pieces = 1;
  code =
      0x10021001 ∷ 9 ∷ 0x10021001 ∷ 5 ∷ 0x10002000 ∷ 0 ∷ 1 ∷ 0x10061000 ∷ 0 ∷ 0 ∷ 0x10021001 ∷ 2000
      ∷ 0x10013000 ∷ [];
  num_statics = 0;
}

abbrev machine : Machine whole
machine = record (new_machine whole script false) { threads = new_thread whole 0 [] 4 ∷ [] }

abbrev slice : Running whole
slice = record { m = record machine { ticking = true }; t = new_thread whole 0 [] 4; me = some 0 }

abbrev two_threads : List (Thread whole)
two_threads = new_thread whole 0 (1 ∷ []) 4 ∷ new_thread whole 7 [] 6 ∷ []

ticked : (m' : Machine whole) × (tick whole 1 machine ≡ some m')
unfolding tick sweep run_threads run_thread run run_awake is_neg run_loop step exec_word decode
    find_op exec with_arg wrap go advance push exec_turn pop_scaled pop_speed pop top rest is_axis
    is_piece turn_axis animate on_axis modify exec_start pop_params count entry_of add_thread
    new_thread exec_sleep settle store alive new_machine rest_piece rest_axis
ticked = (_, refl)

ran : (r' : Running whole) × (run whole slice ≡ some r')
unfolding tick sweep run_threads run_thread run run_awake is_neg run_loop step exec_word decode
    find_op exec with_arg wrap go advance push exec_turn pop_scaled pop_speed pop top rest is_axis
    is_piece turn_axis animate on_axis modify exec_start pop_params count entry_of add_thread
    new_thread exec_sleep settle store alive new_machine rest_piece rest_axis
ran = (_, refl)

tick-Settled_example : Settled whole 1 machine ticked.0
tick-Settled_example = tick-Settled whole 1 machine ticked.0 ticked.1

run-Later_example : Later whole slice.m ran.0.m
run-Later_example = run-Later whole slice ran.0 ran.1

abbrev signaller : Thread whole
signaller = record (new_thread whole 0 [] 4) { stack = 6 ∷ 5 ∷ [] }

exec_signal-Signalled_example :
    (ts : List (Thread whole)) × (exec_signal whole
        (record { m = record machine { threads = two_threads }; t = signaller; me = some 0 })
      ≡ next (record {
        m = record machine { threads = ts };
        t = record signaller { stack = 5 ∷ []; pc = signaller.pc + 1 };
        me = some 0;
      }))
    × AllSignalled whole 6 (some 0) 0 two_threads ts
unfolding new_thread
exec_signal-Signalled_example =
    exec_signal-Signalled whole (record machine { threads = two_threads }) signaller (some 0) 6
      (5 ∷ []) (inl refl) (omega arith)

-- Between -3 and 4.
drawn : (v : ℕ) × (g : Rng) × (draw whole 4294967293 4 (xorshift 12345) ≡ some (v, g))
unfolding draw next_rand shifted add32
drawn = (_, _, refl)

draw-between_example : (lt32 drawn.0 4294967293 ≡ false) × (lt32 4 drawn.0 ≡ false)
unfolding lt32
draw-between_example =
    draw-between whole 4294967293 4 drawn.0 (xorshift 12345) drawn.1 (omega arith) (omega arith)
      refl drawn.2
