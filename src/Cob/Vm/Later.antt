-- ===== src/Cob/Vm/Later.antt =====
-- What a round of `Vm::run` in src/cob/vm.cpp leaves as it was.
use ta_engine.Common.{
  ℕ, zero, suc, ◌+◌, ◌≡◌, refl, ap, ◌∙◌, inl, inr, Bool, true, false, Option, List, [], ◌∷◌,
  if◌then◌else◌, Bool-cases, Option-cases, length, get_elem?, All,
}
use ta_engine.Common.Int32.{wrap}
use ta_engine.Cob.Vm.Env.{Env}
use ta_engine.Cob.Vm.State.{Axis, Piece, Thread, Machine, add_thread, tell}
use ta_engine.Cob.Vm.Motion.{in_motion}
use ta_engine.Cob.Vm.Exec.{
  Running, Step, next, stop, fault, modify, on_axis, set_visible, animate, with_arg, go, kill,
}

module _ (E : Env) where
  pub record HasAxes (p : Piece E) : Type 0 where
    pub axes : length p.axes ≡ 3

  pub record IsStill (p : Piece E) : Type 0 where
    pub axes : All (λ (a : Axis E). in_motion E a ≡ false) p.axes

  -- The sweep is off only where no axis is in motion.
  pub record Gated (m : Machine E) : Type 0 where
    pub still : m.any_motion ≡ false → All IsStill m.pieces

  -- `m'` may come after `m` within a slice: the code, the clock and the phase are the same, the
  -- pieces are as many and keep their axes, and inside `tick` the vector of threads has not grown.
  pub record Later (m m' : Machine E) : Type 0 where
    pub file : m'.file ≡ m.file
    pub now : m'.now ≡ m.now
    pub ticking : m'.ticking ≡ m.ticking
    pub pieces : length m'.pieces ≡ length m.pieces
    pub axes : All HasAxes m.pieces → All HasAxes m'.pieces
    pub gated : Gated m → Gated m'
    pub threads : m.ticking ≡ true → length m'.threads ≡ length m.threads

  pub Later-refl : {m : Machine E} → Later m m
  Later-refl = record {
    file = refl;
    now = refl;
    ticking = refl;
    pieces = refl;
    axes = λ h. h;
    gated = λ h. record { still = h.still };
    threads = λ _. refl;
  }

  pub Later-trans : {a b c : Machine E} → Later a b → Later b c → Later a c
  Later-trans p q = record {
    file = q.file ∙ p.file;
    now = q.now ∙ p.now;
    ticking = q.ticking ∙ p.ticking;
    pieces = q.pieces ∙ p.pieces;
    axes = λ h. q.axes (p.axes h);
    gated = λ h. q.gated (p.gated h);
    threads = λ h. q.threads (p.ticking ∙ h) ∙ p.threads h;
  }

  -- A step that does not stop at undefined behaviour ends later.
  unfoldable pub StepLater : Machine E → Step E → Type 0
  StepLater m (next r) = Later m r.m
  StepLater m (stop r) = Later m r.m
  StepLater m fault = Unit {0}

  pub length-modify :
      {A : Type 0} → (i : ℕ) → (f : A → A) → (xs : List A) → length (modify E i f xs) ≡ length xs
  unfolding modify
  length-modify i f [] = refl
  length-modify zero f (x ∷ xs) = refl
  length-modify (suc i) f (x ∷ xs) = ap suc (length-modify i f xs)

  pub modify-All :
      {A : Type 0}
      → {P : A → Type 0} → (i : ℕ) → (f : A → A) → ((x : A) → P x → P (f x))
      → (xs : List A) → All P xs
      → All P (modify E i f xs)
  unfolding modify
  modify-All i f k [] h = h
  modify-All zero f k (x ∷ xs) (p, h) = (k x p, h)
  modify-All (suc i) f k (x ∷ xs) (p, h) = (p, modify-All i f k xs h)

  -- A change of an axis that starts no motion.
  abbrev pub Settles : (Axis E → Axis E) → Type 0
  Settles f = (a : Axis E) → in_motion E a ≡ false → in_motion E (f a) ≡ false

  on_axis-HasAxes :
      (piece axis : ℕ)
      → (f : Axis E → Axis E) → (m : Machine E) → All HasAxes m.pieces
      → All HasAxes (on_axis E piece axis f m).pieces
  unfolding on_axis
  on_axis-HasAxes piece axis f m =
      modify-All piece _ (λ p h. record { axes = length-modify axis f p.axes ∙ h.axes }) m.pieces

  pub on_axis-Later :
      (piece axis : ℕ)
      → (f : Axis E → Axis E) → (m : Machine E) → Settles f
      → Later m (on_axis E piece axis f m)
  unfolding on_axis
  on_axis-Later piece axis f m s = record {
    file = refl;
    now = refl;
    ticking = refl;
    pieces = length-modify piece _ m.pieces;
    axes = on_axis-HasAxes piece axis f m;
    gated = λ g. record {
      still = λ e.
          modify-All piece _ (λ p h. record { axes = modify-All axis f s p.axes h.axes }) m.pieces
            (g.still e);
    };
    threads = λ _. refl;
  }

  pub set_visible-Later :
      (piece : ℕ) → (b : Bool) → (m : Machine E) → Later m (set_visible E piece b m)
  unfolding set_visible
  set_visible-Later piece b m = record {
    file = refl;
    now = refl;
    ticking = refl;
    pieces = length-modify piece _ m.pieces;
    axes = modify-All piece _ (λ p h. record { axes = h.axes }) m.pieces;
    gated = λ g. record {
      still = λ e. modify-All piece _ (λ p h. record { axes = h.axes }) m.pieces (g.still e);
    };
    threads = λ _. refl;
  }

  -- A motion that starts turns the sweep on.
  pub animate-Later :
      (piece axis : ℕ)
      → (f : Axis E → Axis E) → (m : Machine E) → Later m (animate E piece axis f m)
  unfolding animate on_axis
  animate-Later piece axis f m = record {
    file = refl;
    now = refl;
    ticking = refl;
    pieces = length-modify piece _ m.pieces;
    axes = on_axis-HasAxes piece axis f m;
    gated = λ _. record { still = λ e. absurd (cc) };
    threads = λ _. refl;
  }

  pub if-Later :
      (b : Bool) → {m a c : Machine E} → Later m a → Later m c → Later m (if b then a else c)
  if-Later true p q = p
  if-Later false p q = q

  pub add_thread-Later : (t : Thread E) → (m : Machine E) → Later m (add_thread E t m)
  unfolding add_thread
  add_thread-Later t m = elim (Bool-cases m.ticking) [
    | inl e ↦ rw e (record {
      file = refl;
      now = refl;
      ticking = refl;
      pieces = refl;
      axes = λ h. h;
      gated = λ h. record { still = h.still };
      threads = λ _. refl;
    })
    | inr e ↦ rw e (record {
      file = refl;
      now = refl;
      ticking = refl;
      pieces = refl;
      axes = λ h. h;
      gated = λ h. record { still = h.still };
      threads = λ h. absurd (cc);
    })
  ]

  pub tell-Later : (n : _) → (m : Machine E) → Later m (tell E n m)
  unfolding tell
  tell-Later n m = record {
    file = refl;
    now = refl;
    ticking = refl;
    pieces = refl;
    axes = λ h. h;
    gated = λ h. record { still = h.still };
    threads = λ _. refl;
  }

  pub length-kill :
      (mask i : ℕ)
      → (me : Option ℕ) → (ts : List (Thread E)) → length (kill E mask i me ts) ≡ length ts
  unfolding kill
  length-kill mask i me [] = refl
  length-kill mask i me (t ∷ ts) = ap suc (length-kill mask (suc i) me ts)

  pub kill-Later :
      (mask : ℕ)
      → (me : Option ℕ) → (m : Machine E)
      → Later m (record m { threads = kill E mask 0 me m.threads })
  kill-Later mask me m = record {
    file = refl;
    now = refl;
    ticking = refl;
    pieces = refl;
    axes = λ h. h;
    gated = λ h. record { still = h.still };
    threads = λ _. length-kill mask 0 me m.threads;
  }

  pub go-Later :
      (n : ℕ)
      → {m : Machine E} → (m' : Machine E) → (t : Thread E) → (me : Option ℕ) → Later m m'
      → StepLater m (go E n m' t me)
  unfolding go StepLater
  go-Later n m' t me l = l

  pub with_arg-Later :
      (i : ℕ)
      → (r : Running E) → (k : ℕ → Step E) → (m : Machine E) → ((a : ℕ) → StepLater m (k a))
      → StepLater m (with_arg E i r k)
  unfolding with_arg StepLater
  with_arg-Later i r k m h = elim (Option-cases (get_elem? r.m.file.code (wrap (r.t.pc + 1) + i))) [
    | inl e ↦ rw (e, StepLater) tt
    | inr (a, e) ↦ rw (e, StepLater) (h a)
  ]
