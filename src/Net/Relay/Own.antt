-- ===== src/Net/Relay/Own.antt =====
-- The commands of one player among those on their way.
use ta_engine.Common.{
  ℕ, zero, suc, ◌≡◌, refl, sym, ap, ◌∙◌, true, List, [], ◌∷◌, ◌++◌, map, append-nil, append_assoc,
  ◌==◌, ==_iff, take, drop, All,
}
use ta_engine.Net.Command.{Command}
use ta_engine.Net.Relay.Sorting.{mine}
use ta_engine.Net.Relay.Flow.{Relay, flat}

module _ (slot : ℕ) where
  pub flat-snoc :
      (xs : List (List Command)) (x : List Command) → flat slot (xs ++ x ∷ []) ≡ flat slot xs ++ x
  unfolding flat
  flat-snoc [] x = append-nil x
  flat-snoc (y ∷ ys) x = ap (◌++◌ y) (flat-snoc ys x) ∙ sym (append_assoc y (flat slot ys) x)

  pub map-append :
      (f : Command → Command) (xs ys : List Command) → map f (xs ++ ys) ≡ map f xs ++ map f ys
  map-append f [] ys = refl
  map-append f (x ∷ xs) ys = ap (◌∷◌ (f x)) (map-append f xs ys)

  pub record IsOwn (c : Command) : Type 0 where
    pub player : c.player ≡ slot

  pub mine-own : (cs : List Command) → All IsOwn cs → mine slot cs ≡ cs
  unfolding mine
  mine-own [] h = refl
  mine-own (c ∷ cs) (h, hs) =
      let e : (c.player == slot) ≡ true = (==_iff c.player slot).1 h.player in
      simp e (ap (◌∷◌ c) (mine-own cs hs))

  pub All-append : (xs ys : List Command) → All IsOwn xs → All IsOwn ys → All IsOwn (xs ++ ys)
  All-append [] ys h k = k
  All-append (x ∷ xs) ys (h, hs) k = (h, All-append xs ys hs k)

  pub All-take : (n : ℕ) (xs : List Command) → All IsOwn xs → All IsOwn (take n xs)
  All-take zero xs h = tt
  All-take (suc n) [] h = tt
  All-take (suc n) (x ∷ xs) (h, hs) = (h, All-take n xs hs)

  pub All-drop : (n : ℕ) (xs : List Command) → All IsOwn xs → All IsOwn (drop n xs)
  All-drop zero xs h = h
  All-drop (suc n) [] h = tt
  All-drop (suc n) (x ∷ xs) (h, hs) = All-drop n xs hs

  -- What is on its way to the server, and what of this player is on its way back.
  abbrev pub sent : Relay → List Command
  sent s = flat slot s.uplink

  abbrev pub back : Relay → List Command
  back s = mine slot (flat slot s.downlink)
