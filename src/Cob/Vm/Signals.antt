-- ===== src/Cob/Vm/Signals.antt =====
-- SIGNAL and RAND of src/cob/vm.cpp.
use Prim.Native.Nat.{bit_and}
use ta_engine.Common.{
  ℕ, suc, ◌+◌, ◌-◌, ◌%◌, ◌^◌, ◌≤◌, ◌<◌, ◌≡◌, refl, sym, ap, ◌∙◌, subst, ◌≢◌, ◌⊎◌, inl, inr, Bool,
  true, false, not, ◌&&◌, Option, none, some, List, [], ◌∷◌, arith, ◌==◌, if◌then◌else◌, ge→ltb,
  ltb→ge, ==_iff, Bool-cases,
}
use mathlib.Core.Bool.{true≢false}
use mathlib.Core.Option.{none-ne-some}
use mathlib.Core.Option
use native.Mathlib.Nat.{mod-lt}
use ta_engine.Common.Int32.{word, wrap, add32, lt32}
use ta_engine.Cob.Vm.Env.{Env}
use ta_engine.Cob.Vm.State.{Machine, Thread, Rng, pop, top, rest}
use ta_engine.Cob.Vm.Exec.{Step, next, kill, draw, next_rand, exec_signal, go, advance}

module _ (E : Env) where
  -- The thread at `i` behind a SIGNAL with this mask: it is as it was but for its death, and it is dead
  -- if it was before, or if another thread runs and the mask has a bit of its own mask.
  pub record Signalled (mask i : ℕ) (me : Option ℕ) (t u : Thread E) : Type 0 where
    pub same : u ≡ record t { dead = u.dead }
    pub dies : me ≢ some i → bit_and t.signal_mask mask ≢ 0 → u.dead ≡ true
    pub lives : (me ≡ some i) ⊎ (bit_and t.signal_mask mask ≡ 0) → u.dead ≡ t.dead

  -- Two vectors with as many threads, each of the second as SIGNAL leaves that of the first.
  pub data AllSignalled (mask : ℕ) (me : Option ℕ)
      : ℕ → List (Thread E) → List (Thread E) → Type 0 where
    no_thread : {i : ℕ} → AllSignalled mask me i [] []
    a_thread :
        {i : ℕ} (t u : Thread E) {ts us : List (Thread E)}
        → Signalled mask i me t u
        → AllSignalled mask me (suc i) ts us
        → AllSignalled mask me i (t ∷ ts) (u ∷ us)

  is_me : ℕ → Option ℕ → Bool
  is_me i me = elim me [ none ↦ false | some j ↦ i == j ]

  is_me-true : (i : ℕ) (me : Option ℕ) → is_me i me ≡ true → me ≡ some i
  unfolding is_me
  is_me-true i none e = absurd (true≢false (sym e))
  is_me-true i (some j) e = ap some (sym ((==_iff i j).0 e))

  is_me-false : (i : ℕ) (me : Option ℕ) → is_me i me ≡ false → me ≢ some i
  unfolding is_me
  is_me-false i none e same = none-ne-some i same
  is_me-false i (some j) e same =
      let there : (i == j) ≡ true = (==_iff i j).1 (sym (Option.some-injective j i same)) in
      true≢false (sym there ∙ e)

  kept_alive :
      (mask i : ℕ) (me : Option ℕ) (t : Thread E)
      → (me ≡ some i) ⊎ (bit_and t.signal_mask mask ≡ 0)
      → Signalled mask i me t t
  kept_alive mask i me t (inl mine) = record {
    same = refl;
    dies = λ other. absurd (other mine);
    lives = λ h. refl;
  }
  kept_alive mask i me t (inr unmet) = record {
    same = refl;
    dies = λ other met. absurd (met unmet);
    lives = λ h. refl;
  }

  killed :
      (mask i : ℕ) (me : Option ℕ) (t : Thread E)
      → me ≢ some i
      → bit_and t.signal_mask mask ≢ 0
      → Signalled mask i me t (record t { dead = true })
  killed mask i me t other met = record {
    same = refl;
    dies = λ o m. refl;
    lives = λ (h : (me ≡ some i) ⊎ (bit_and t.signal_mask mask ≡ 0)). elim h [
      | inl mine ↦ absurd (other mine)
      | inr unmet ↦ absurd (met unmet)
    ];
  }

  kill_one :
      (mask i : ℕ) (me : Option ℕ) (t : Thread E)
      → Signalled mask i me t (
          if not (is_me i me) && not (bit_and t.signal_mask mask == 0)
          then record t { dead = true }
          else t)
  kill_one mask i me t = elim (Bool-cases (is_me i me)) [
    | inl e ↦ rw e (kept_alive mask i me t (inl (is_me-true i me e)))
    | inr e ↦ elim (Bool-cases (bit_and t.signal_mask mask == 0)) [
      | inl f ↦ rw (e, f) (kept_alive mask i me t (inr ((==_iff _ 0).0 f)))
      | inr f ↦
          rw (e, f)
            (killed mask i me t (is_me-false i me e) (λ z. true≢false (sym ((==_iff _ 0).1 z) ∙ f)))
    ]
  ]

  kill-AllSignalled :
      (mask i : ℕ) (me : Option ℕ) (ts : List (Thread E))
      → AllSignalled mask me i ts (kill E mask i me ts)
  unfolding kill is_me
  kill-AllSignalled mask i me [] = no_thread
  kill-AllSignalled mask i me (t ∷ ts) =
      a_thread t _ (kill_one mask i me t) (kill-AllSignalled mask (suc i) me ts)

  -- What `pop` takes off a stack and what it leaves; an empty one gives 0.
  abbrev pub Pops : List ℕ → ℕ → List ℕ → Type 0
  Pops stack mask below = (stack ≡ mask ∷ below) ⊎ ((stack ≡ []) × (mask ≡ 0) × (below ≡ []))

  top-Pops :
      (stack : List ℕ) (mask : ℕ) (below : List ℕ) → Pops stack mask below → top E stack ≡ mask
  unfolding top
  top-Pops stack mask below (inl h) = ap (top E) h
  top-Pops stack mask below (inr (h, z, _)) = ap (top E) h ∙ sym z

  rest-Pops :
      (stack : List ℕ) (mask : ℕ) (below : List ℕ) → Pops stack mask below → rest E stack ≡ below
  unfolding rest
  rest-Pops stack mask below (inl h) = ap (rest E) h
  rest-Pops stack mask below (inr (h, _, z)) = ap (rest E) h ∙ sym z

  -- SIGNAL takes its mask off the stack, 0 where that is empty, and goes on with the running thread at
  -- the next word, if its number has 32 bits, as it was but for that. The other threads of the vector
  -- whose mask has a bit of the signal's are dead, and all else of the threads and of the machine is as
  -- it was.
  pub exec_signal-Signalled :
      (m : Machine E) (t : Thread E) (me : Option ℕ) (mask : ℕ) (below : List ℕ)
      → Pops t.stack mask below
      → t.pc + 1 < word
      → (ts : List (Thread E)) × (exec_signal E (record { m = m; t = t; me = me })
          ≡ next (record {
            m = record m { threads = ts };
            t = record t { stack = below; pc = t.pc + 1 };
            me = me;
          }))
        × AllSignalled mask me 0 m.threads ts
  unfolding exec_signal go advance pop wrap
  exec_signal-Signalled m t me mask below h b =
      let ts = kill E (top E t.stack) 0 me m.threads in
      let after : ℕ → List ℕ → Step E = λ pc s.
        next (record {
          m = record m { threads = ts };
          t = record t { stack = s; pc = pc };
          me = me;
        }) in
      (
        ts,
        ap (after ((t.pc + 1) % word)) (rest-Pops t.stack mask below h)
            ∙ ap (λ pc. after pc below) (omega arith),
        subst (λ k. AllSignalled k me 0 m.threads ts) (top-Pops t.stack mask below h)
            (kill-AllSignalled (top E t.stack) 0 me m.threads),
      )

  if-some :
      {A : Type 0}
      → (b : Bool) → (x y : A) → (if b then none else some x) ≡ some y
      → (b ≡ false) × (x ≡ y)
  if-some true x y e = absurd (cc)
  if-some false x y e = (refl, Option.some-injective x y e)

  offset_between :
      (lo hi x : ℕ)
      → lo < word
      → hi < word
      → (lo + 2 ^ 31) % word ≤ (hi + 2 ^ 31) % word
      → x < (hi + word - lo + 1) % word
      → ((lo + 2 ^ 31) % word ≤ ((lo + x) % word + 2 ^ 31) % word)
        × (((lo + x) % word + 2 ^ 31) % word ≤ (hi + 2 ^ 31) % word)
  offset_between lo hi x l h o b = (omega arith, omega arith)

  nonzero_lt : (r n : ℕ) → (n == 0) ≡ false → r % n < n
  nonzero_lt r n h = mod-lt r (ground arith)

  -- A draw between two 32-bit bounds in order that has a value gives one between them, as signed
  -- numbers, from any state of either generator.
  pub draw-between :
      (lo hi v : ℕ)
      → (g g' : Rng) → lo < word
      → hi < word
      → lt32 hi lo ≡ false
      → draw E lo hi g ≡ some (v, g')
      → (lt32 v lo ≡ false) × (lt32 hi v ≡ false)
  unfolding draw lt32 add32
  draw-between lo hi v g g' l h o e =
      let n = (hi + word - lo + 1) % word in
      let x = (next_rand E g).0 % n in
      let (nonzero, drawn) = if-some (n == 0) _ _ e in
      let (a, b) = offset_between lo hi x l h (ltb→ge _ _ o) (nonzero_lt _ _ nonzero) in
      let v_is : (lo + x) % word ≡ v = ap (λ (p : ℕ × Rng). p.0) drawn in
      subst (λ v. (lt32 v lo ≡ false) × (lt32 hi v ≡ false)) v_is (ge→ltb _ _ a, ge→ltb _ _ b)
