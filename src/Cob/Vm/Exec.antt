-- ===== src/Cob/Vm/Exec.antt =====
-- One round of the loop of `Vm::run` in src/cob/vm.cpp: the instruction at `pc`. A hook may not call
-- back into the machine. `fault` is what C++ leaves undefined: a read past the code, the pieces or
-- the axes, a number that has no value.
use Prim.Native.Nat.{bit_and, bit_xor}
use mathlib.Core.Option
use ta_engine.Common.{
  ℕ, zero, suc, ◌+◌, ◌-◌, ◌*◌, ◌/◌, ◌%◌, ◌^◌, Bool, true, false, not, ◌&&◌, Option, none, some,
  List, [], ◌∷◌, ltb, ◌==◌, if◌then◌else◌, length, get_elem?,
}
use ta_engine.Common.Int32.{word, wrap, is_neg, add32, lt32}
use ta_engine.Cob.Vm.Env.{Env}
use ta_engine.Cob.Vm.State.{
  Rng, xorshift, mersenne_at, Axis, Piece, Thread, Machine, new_thread, push, pop, pop_params,
  add_thread,
}
use ta_engine.Cob.Vm.Op.{Bin, eval_bin}

-- xorshift64
unfoldable pub shifted : ℕ → ℕ
shifted r =
    let a = bit_xor r (r * 2 ^ 13 % 2 ^ 64) in
    let b = bit_xor a (a / 2 ^ 7) in bit_xor b (b * 2 ^ 17 % 2 ^ 64)

module _ (E : Env) where
  open E use {F, zero_f, of_int, mul, lt, eq, abs, add, div, thousand, k_angle, k_linear}

  -- `me` is the index of the running thread in `threads`, where it is one of them.
  pub record Running : Type 0 where
    pub m : Machine E
    pub t : Thread E
    pub me : Option ℕ

  pub data Step : Type 0 where
    next stop : Running → Step
    fault : Step

  -- `nextRand`
  unfoldable pub next_rand : Rng → ℕ × Rng
  next_rand (xorshift r) = (shifted r % word, xorshift (shifted r))
  next_rand (mersenne_at n) = (E.mersenne n % word, mersenne_at (suc n))

  -- `lo + int32_t(nextRand() % uint32_t(hi - lo + 1))`, the bounds in order.
  unfoldable pub draw : ℕ → ℕ → Rng → Option (ℕ × Rng)
  draw lo hi g =
      let n = (hi + word - lo + 1) % word in
      let (r, g') = next_rand g in if n == 0 then none else some (add32 lo (r % n), g')

  unfoldable pub advance : ℕ → Thread E → Thread E
  advance n t = record t { pc = wrap (t.pc + n) }

  -- `arg(i)`
  unfoldable pub with_arg : ℕ → Running → (ℕ → Step) → Step
  with_arg i r k = elim (get_elem? r.m.file.code (wrap (r.t.pc + 1) + i)) [
    | none ↦ fault
    | some a ↦ k a
  ]

  -- The thread goes on behind an instruction of `n` words.
  unfoldable pub go : ℕ → Machine E → Thread E → Option ℕ → Step
  go n m t me = next (record { m = m; t = advance n t; me = me })

  -- A vector's entry changed in place.
  unfoldable pub modify : {A : Type 0} → ℕ → (A → A) → List A → List A
  modify i f [] = []
  modify zero f (x ∷ xs) = f x ∷ xs
  modify (suc i) f (x ∷ xs) = x ∷ modify i f xs

  unfoldable pub on_axis : ℕ → ℕ → (Axis E → Axis E) → Machine E → Machine E
  on_axis piece axis f m = record m {
    pieces = modify piece (λ (p : Piece E). record p { axes = modify axis f p.axes }) m.pieces;
  }

  unfoldable pub set_visible : ℕ → Bool → Machine E → Machine E
  set_visible piece b m = record m {
    pieces = modify piece (λ (p : Piece E). record p { visible = b }) m.pieces;
  }

  unfoldable pub is_piece : ℕ → Machine E → Bool
  is_piece piece m = not (is_neg piece) && ltb piece (length m.pieces)

  -- The guard of MOVE, TURN, SPIN and STOP_SPIN.
  unfoldable pub is_axis : ℕ → ℕ → Machine E → Bool
  is_axis piece axis m = is_piece piece m && (not (is_neg axis) && ltb axis 3)

  unfoldable pub animate : ℕ → ℕ → (Axis E → Axis E) → Machine E → Machine E
  animate piece axis f m = record (on_axis piece axis f m) { any_motion = true }

  -- Push what a hook answers, or 0.
  unfoldable pub ask : Option (ℕ → List ℕ → ℕ) → ℕ → List ℕ → ℕ
  ask none id args = 0
  ask (some f) id args = f id args % word

  unfoldable pub exec_binary : Bin → Running → Step
  exec_binary b r =
      let (y, t1) = pop E r.t in
      let (x, t2) = pop E t1 in
      elim (eval_bin b x y) [ none ↦ fault | some v ↦ go 1 r.m (push E v t2) r.me ]

  unfoldable pub exec_rand : Running → Step
  exec_rand r =
      let (a, t1) = pop E r.t in
      let (b, t2) = pop E t1 in
      elim (if lt32 a b then draw a b r.m.rng else draw b a r.m.rng) [
        | none ↦ fault
        | some (v, g) ↦ go 1 (record r.m { rng = g }) (push E v t2) r.me
      ]

  unfoldable pub exec_query : Running → Step
  exec_query r = let (id, t1) = pop E r.t in go 1 r.m (push E (ask E.on_get id []) t1) r.me

  unfoldable pub exec_get : Running → Step
  exec_get r =
      let (ps, t1) = pop_params E 4 r.t [] in
      let (id, t2) = pop E t1 in go 1 r.m (push E (ask E.on_get id ps) t2) r.me

  -- `std::max(n, 0)` as a count.
  unfoldable pub count : ℕ → ℕ
  count n = if is_neg n then 0 else n

  unfoldable pub entry_of : ℕ → Machine E → Option ℕ
  entry_of script m =
      if is_neg script
      then none
      else Option.map (λ (s : List ℕ × ℕ). s.1) (get_elem? m.file.scripts script)

  unfoldable pub exec_start : ℕ → ℕ → Running → Step
  exec_start script nparams r =
      let (ps, t1) = pop_params E (count nparams) r.t [] in
      elim (entry_of script r.m) [
        | none ↦ go 3 r.m t1 r.me
        | some entry ↦ go 3 (add_thread E (new_thread E entry ps t1.signal_mask) r.m) t1 r.me
      ]

  unfoldable pub exec_call : ℕ → ℕ → Running → Step
  exec_call script nparams r =
      let (ps, t1) = pop_params E (count nparams) r.t [] in
      let t2 = record t1 { call_stack = wrap (t1.pc + 3) ∷ t1.call_stack } in
      elim (entry_of script r.m) [
        | none ↦ stop (record r { t = record t2 { dead = true } })
        | some entry ↦ next (record r { t = record t2 { pc = entry } })
      ]

  unfoldable pub exec_return : Running → Step
  exec_return r =
      let (rv, t1) = pop E r.t in
      elim t1.call_stack [
        | [] ↦
            stop (record r { m = record r.m { last_return = rv }; t = record t1 { dead = true } })
        | pc ∷ more ↦ next (record r { t = record t1 { pc = pc; call_stack = more } })
      ]

  -- Every thread but the running one that the mask meets.
  unfoldable pub kill : ℕ → ℕ → Option ℕ → List (Thread E) → List (Thread E)
  kill mask i me [] = []
  kill mask i me (t ∷ ts) =
      (if not (elim me [ none ↦ false | some j ↦ i == j ]) && not (bit_and t.signal_mask mask == 0)
        then record t { dead = true }
        else t)
      ∷ kill mask (suc i) me ts

  unfoldable pub exec_signal : Running → Step
  exec_signal r =
      let (mask, t1) = pop E r.t in
      go 1 (record r.m { threads = kill mask 0 r.me r.m.threads }) t1 r.me
