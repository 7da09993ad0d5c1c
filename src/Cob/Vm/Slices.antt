-- ===== src/Cob/Vm/Slices.antt =====
-- `Vm::run`, `tick` and `call` of src/cob/vm.cpp as wholes.
use ta_engine.Common.{
  ℕ, zero, suc, ◌≡◌, refl, subst, Bool, true, false, Option, none, some, if◌then◌else◌, get_elem?,
  length-set,
}
use mathlib.Core.Option
use ta_engine.Cob.Vm.Env.{Env}
use ta_engine.Cob.Vm.State.{Machine}
use ta_engine.Cob.Vm.Exec.{Running, Step, next, stop, fault}
use ta_engine.Cob.Vm.Op.{decode}
use ta_engine.Cob.Vm.Run.{
  die, exec_word, step, run_loop, busy, run_awake, run, store, run_thread, run_threads,
}
use ta_engine.Cob.Vm.Later.{Later, Later-refl, Later-trans, StepLater}
use ta_engine.Cob.Vm.Kept.{option-Later, stays-Later, exec-Later}

module _ (E : Env) where
  open E use {F, add}

  die-Later : (r : Running E) → StepLater E r.m (die E r)
  unfolding die
  die-Later r = (stays-Later E r.m _ (Later-refl E)).1

  exec_word-Later : (w : ℕ) → (r : Running E) → StepLater E r.m (exec_word E w r)
  unfolding exec_word
  exec_word-Later w r = option-Later E (decode w) r.m _ _ (die-Later r) (λ op. exec-Later E op r)

  step-Later : (r : Running E) → StepLater E r.m (step E r)
  unfolding step
  step-Later r = option-Later E _ r.m _ _ (die-Later r) (λ w. exec_word-Later w r)

  -- Where the run has an end, it is later.
  unfoldable Ends : Machine E → Option (Running E) → Type 0
  Ends m none = Unit {0}
  Ends m (some r) = Later E m r.m

  Ends-now : (r : Running E) → Ends r.m (some r)
  unfolding Ends
  Ends-now r = Later-refl E

  Ends-trans : {a b : Machine E} → (o : Option (Running E)) → Later E a b → Ends b o → Ends a o
  unfolding Ends
  Ends-trans none l h = tt
  Ends-trans (some r) l h = Later-trans E l h

  Ends-step :
      (n : ℕ)
      → (r : Running E) → ((r' : Running E) → Ends r'.m (run_loop E n r'))
      → (s : Step E) → StepLater E r.m s
      → Ends r.m (elim s [ next r' ↦ run_loop E n r' | stop r' ↦ some r' | fault ↦ none ])
  unfolding Ends StepLater
  Ends-step n r h (next r') l = Ends-trans (run_loop E n r') l (h r')
  Ends-step n r h (stop r') l = l
  Ends-step n r h fault l = tt

  run_loop-Ends : (n : ℕ) → (r : Running E) → Ends r.m (run_loop E n r)
  unfolding run_loop
  run_loop-Ends zero r = Ends-now r
  run_loop-Ends (suc n) r = Ends-step n r (run_loop-Ends n) (step E r) (step-Later r)

  Ends-if :
      (b : Bool)
      → (m : Machine E) → (o o' : Option (Running E)) → Ends m o
      → Ends m o'
      → Ends m (if b then o else o')
  Ends-if true m o o' h h' = h
  Ends-if false m o o' h h' = h'

  Ends-option :
      {A : Type 0}
      → (o : Option A) → (m : Machine E) → (k : A → Option (Running E)) → ((a : A) → Ends m (k a))
      → Ends m (elim o [ none ↦ none | some a ↦ k a ])
  unfolding Ends
  Ends-option none m k h = tt
  Ends-option (some a) m k h = h a

  run_awake-Ends : (r : Running E) → Ends r.m (run_awake E r)
  unfolding run_awake
  run_awake-Ends r =
      Ends-if _ r.m _ _ (run_loop-Ends 5000 r)
        (Ends-option (busy E r) r.m _ (λ b. Ends-if b r.m _ _ (Ends-now r) (run_loop-Ends 5000 _)))

  run-Ends : (r : Running E) → Ends r.m (run E r)
  unfolding run
  run-Ends r = Ends-if _ r.m _ _ (Ends-now r) (run_awake-Ends r)

  Ends-some :
      {m : Machine E}
      → {r : Running E} → {o : Option (Running E)} → o ≡ some r
      → Ends m o
      → Later E m r.m
  unfolding Ends
  Ends-some {m} e h = subst (Ends m) e h

  -- A slice of a thread that has a result leaves the code, the clock and the phase as they were, the
  -- pieces as many, and, inside `tick`, the vector of threads as long, so that the reference to the
  -- running thread stays valid. If each piece had three axes it has them still, and if the sweep was
  -- off only where no axis is in motion, that is still so.
  pub run-Later : (r r' : Running E) → run E r ≡ some r' → Later E r.m r'.m
  run-Later r r' e = Ends-some e (run-Ends r)

  store-Later : (r : Running E) → (i : ℕ) → Later E r.m (store E r i)
  unfolding store
  store-Later r i = record {
    file = refl;
    now = refl;
    ticking = refl;
    pieces = refl;
    axes = λ h. h;
    gated = λ h. record { still = h.still };
    threads = λ _. length-set r.m.threads i _;
  }

  unfoldable Goes : Machine E → Option (Machine E) → Type 0
  Goes m none = Unit {0}
  Goes m (some m') = Later E m m'

  Goes-stored :
      (m : Machine E)
      → (i : ℕ) → (o : Option (Running E)) → Ends m o
      → Goes m (Option.map (λ r. store E r i) o)
  unfolding Goes Ends
  Goes-stored m i none h = tt
  Goes-stored m i (some r) h = Later-trans E h (store-Later r i)

  Goes-refl : (m : Machine E) → Goes m (some m)
  unfolding Goes
  Goes-refl m = Later-refl E

  Goes-if :
      (b : Bool)
      → (m : Machine E) → (o o' : Option (Machine E)) → Goes m o
      → Goes m o'
      → Goes m (if b then o else o')
  Goes-if true m o o' h h' = h
  Goes-if false m o o' h h' = h'

  Goes-option :
      {A : Type 0}
      → (o : Option A) → (m : Machine E) → (k : A → Option (Machine E)) → ((a : A) → Goes m (k a))
      → Goes m (elim o [ none ↦ some m | some a ↦ k a ])
  Goes-option none m k h = Goes-refl m
  Goes-option (some a) m k h = h a

  run_thread-Goes : (i : ℕ) → (m : Machine E) → Goes m (run_thread E i m)
  unfolding run_thread
  run_thread-Goes i m =
      Goes-option (get_elem? m.threads i) m _
        (λ t. Goes-if _ m _ _ (Goes-refl m) (Goes-stored m i _ (run-Ends _)))

  Goes-trans : {a b : Machine E} → (o : Option (Machine E)) → Later E a b → Goes b o → Goes a o
  unfolding Goes
  Goes-trans none l h = tt
  Goes-trans (some r) l h = Later-trans E l h

  Goes-then :
      (m : Machine E)
      → (o : Option (Machine E)) → (k : Machine E → Option (Machine E)) → Goes m o
      → ((m' : Machine E) → Goes m' (k m'))
      → Goes m (elim o [ none ↦ none | some m' ↦ k m' ])
  unfolding Goes
  Goes-then m none k h hk = tt
  Goes-then m (some m') k h hk = Goes-trans (k m') h (hk m')

  run_threads-Goes : (n i : ℕ) → (m : Machine E) → Goes m (run_threads E n i m)
  unfolding run_threads
  run_threads-Goes zero i m = Goes-refl m
  run_threads-Goes (suc n) i m =
      Goes-then m (run_thread E i m) _ (run_thread-Goes i m) (λ m'. run_threads-Goes n (suc i) m')

  pub run_threads-Later :
      (n i : ℕ) → (m m' : Machine E) → run_threads E n i m ≡ some m' → Later E m m'
  unfolding Goes
  run_threads-Later n i m m' e = subst (Goes m) e (run_threads-Goes n i m)
