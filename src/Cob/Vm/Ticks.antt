-- ===== src/Cob/Vm/Ticks.antt =====
-- `Vm::tick` of src/cob/vm.cpp: the animation sweep, the slices of the threads, the new and the dead.
use ta_engine.Common.{
  suc, ◌≡◌, refl, ap, ◌∙◌, subst, inl, inr, Bool, true, false, ◌||◌, Option, none, some, List, [],
  ◌∷◌, map, if◌then◌else◌, Bool-cases, length, All,
}
use mathlib.Core.Option
use ta_engine.Cob.Vm.Env.{Env}
use ta_engine.Cob.Vm.State.{Piece, Thread, Machine}
use ta_engine.Cob.Vm.Motion.{sweep_piece, sweep, in_motion, any}
use ta_engine.Cob.Vm.Run.{alive, settle, tick}
use ta_engine.Cob.Vm.Later.{HasAxes, IsStill, Gated, Later, Later-refl}
use ta_engine.Cob.Vm.Slices.{run_threads-Later}

module _ (E : Env) where
  open E use {F, add}

  length-map : {A : Type 0} → (f : A → A) → (xs : List A) → length (map f xs) ≡ length xs
  length-map f [] = refl
  length-map f (x ∷ xs) = ap suc (length-map f xs)

  sweep-axes :
      (dt : F)
      → (ps : List (Piece E)) → All (HasAxes E) ps
      → All (HasAxes E) (map (sweep_piece E dt) ps)
  unfolding sweep_piece
  sweep-axes dt [] h = h
  sweep-axes dt (p ∷ ps) (h, hs) =
      (record { axes = length-map _ p.axes ∙ h.axes }, sweep-axes dt ps hs)

  or-false : (a b : Bool) → a || b ≡ false → (a ≡ false) × (b ≡ false)
  or-false true b h = absurd (cc)
  or-false false b h = (refl, h)

  any-none :
      {A : Type 0}
      → (test : A → Bool) → (xs : List A) → any E test xs ≡ false
      → All (λ x. test x ≡ false) xs
  unfolding any
  any-none test [] h = tt
  any-none test (x ∷ xs) h =
      let (e, f) = or-false (test x) (any E test xs) h in (e, any-none test xs f)

  pieces-IsStill :
      (ps : List (Piece E))
      → any E (λ (p : Piece E). any E (in_motion E) p.axes) ps ≡ false
      → All (IsStill E) ps
  unfolding any
  pieces-IsStill [] h = tt
  pieces-IsStill (p ∷ ps) h =
      let (e, f) = or-false (any E (in_motion E) p.axes) _ h in
      (record { axes = any-none (in_motion E) p.axes e }, pieces-IsStill ps f)

  pub sweep-Later : (dt : F) → (m : Machine E) → Later E m (sweep E dt m)
  unfolding sweep
  sweep-Later dt m = elim (Bool-cases m.any_motion) [
    | inl e ↦ rw e (record {
      file = refl;
      now = refl;
      ticking = refl;
      pieces = length-map _ m.pieces;
      axes = sweep-axes dt m.pieces;
      gated = λ _. record { still = λ h. pieces-IsStill _ h };
      threads = λ _. refl;
    })
    | inr e ↦ rw e (Later-refl E)
  ]

  pub record Alive (t : Thread E) : Type 0 where
    pub alive : t.dead ≡ false

  if-Alive :
      (b : Bool)
      → (t : Thread E) → (ts : List (Thread E)) → t.dead ≡ b
      → All Alive ts
      → All Alive (if b then ts else t ∷ ts)
  if-Alive true t ts e h = h
  if-Alive false t ts e h = (record { alive = e }, h)

  alive-Alive : (ts : List (Thread E)) → All Alive (alive E ts)
  unfolding alive
  alive-Alive [] = tt
  alive-Alive (t ∷ ts) = if-Alive t.dead t (alive E ts) refl (alive-Alive ts)

  -- What `m'` is, `dt` after `m`.
  pub record Settled (dt : F) (m m' : Machine E) : Type 0 where
    pub alive : All Alive m'.threads
    pub pending : m'.pending ≡ []
    pub ticking : m'.ticking ≡ false
    pub file : m'.file ≡ m.file
    pub now : m'.now ≡ add m.now dt
    pub pieces : length m'.pieces ≡ length m.pieces
    pub axes : All (HasAxes E) m.pieces → All (HasAxes E) m'.pieces
    pub gated : Gated E m → Gated E m'

  settle-Settled :
      (dt : F)
      → (m m1 m2 : Machine E) → m1.file ≡ m.file
      → m1.now ≡ add m.now dt
      → length m1.pieces ≡ length m.pieces
      → (All (HasAxes E) m.pieces → All (HasAxes E) m1.pieces)
      → (Gated E m → Gated E m1)
      → Later E m1 m2
      → Settled dt m (settle E m2)
  unfolding settle
  settle-Settled dt m m1 m2 f n p a g l = record {
    alive = alive-Alive _;
    pending = refl;
    ticking = refl;
    file = l.file ∙ f;
    now = l.now ∙ n;
    pieces = l.pieces ∙ p;
    axes = λ h. l.axes (a h);
    gated = λ h. record { still = (l.gated (g h)).still };
  }

  map-settle :
      (dt : F)
      → (m : Machine E) → (m1 : Machine E) → (o : Option (Machine E)) → (m' : Machine E)
      → ((m2 : Machine E) → o ≡ some m2 → Settled dt m (settle E m2))
      → Option.map (settle E) o ≡ some m'
      → Settled dt m m'
  map-settle dt m m1 none m' h e = absurd (cc)
  map-settle dt m m1 (some m2) m' h e =
      subst (Settled dt m) (Option.some-injective _ _ e) (h m2 refl)

  -- A tick that has a result leaves only live threads and none waiting to be added, the phase over,
  -- the code as it was, the clock `dt` later, and the pieces as many. If each piece had three axes it
  -- has them still, and if the sweep was off only where no axis is in motion, that is still so.
  pub tick-Settled : (dt : F) → (m m' : Machine E) → tick E dt m ≡ some m' → Settled dt m m'
  unfolding tick
  tick-Settled dt m m' e =
      let m0 = record m { now = add m.now dt } in
      let m1 = record (sweep E dt m0) { ticking = true } in
      let l = sweep-Later dt m0 in
      map-settle dt m m1 _ m'
        (λ m2 e2.
          settle-Settled dt m m1 m2 l.file l.now l.pieces l.axes
            (λ h. record { still = (l.gated (record { still = h.still })).still })
            (run_threads-Later E _ 0 m1 m2 e2))
        e
