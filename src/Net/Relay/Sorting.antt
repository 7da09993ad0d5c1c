-- ===== src/Net/Relay/Sorting.antt =====
-- The stable sort of a bundle: it is sorted by player, and each player's commands keep their order.
use ta_engine.Common.{
  ℕ, ◌<◌, ◌≡◌, refl, ap, ◌∙◌, inl, inr, List, [], ◌∷◌, ◌++◌, arith, ltb, ◌==◌, if◌then◌else◌,
  ltb→lt, Bool-cases,
}
use ta_engine.Common.{◌≤◌, ltb→ge}
use ta_engine.Net.Command.{Command}
use ta_engine.Net.Relay.{insert_by_player, sort_by_player}

-- The commands of one player, in order.
unfoldable pub mine : ℕ → List Command → List Command
mine slot [] = []
mine slot (c ∷ cs) = let rest = mine slot cs in if c.player == slot then c ∷ rest else rest

swap :
    (slot : ℕ) (c d : Command) (rest : List Command)
    → d.player < c.player
    → (if d.player == slot
        then d ∷ (if c.player == slot then c ∷ rest else rest)
        else (if c.player == slot then c ∷ rest else rest))
      ≡ (if c.player == slot
          then c ∷ (if d.player == slot then d ∷ rest else rest)
          else (if d.player == slot then d ∷ rest else rest))
swap slot c d rest h = elim (Bool-cases (c.player == slot)) [
  | inl e ↦ elim (Bool-cases (d.player == slot)) [
    | inl f ↦ absurd (ground arith)
    | inr f ↦ simp (e, f) refl
  ]
  | inr e ↦ simp e refl
]

mine-insert_by_player :
    (slot : ℕ) (c : Command) (ds : List Command)
    → mine slot (insert_by_player c ds) ≡ mine slot (c ∷ ds)
unfolding mine insert_by_player
mine-insert_by_player slot c [] = refl
mine-insert_by_player slot c (d ∷ ds) = elim (Bool-cases (ltb d.player c.player)) [
  | inl e ↦ simp e (
      ap (λ xs. if d.player == slot then d ∷ xs else xs) (mine-insert_by_player slot c ds)
      ∙ swap slot c d (mine slot ds) (ltb→lt _ _ e))
  | inr e ↦ simp e refl
]

-- The sort keeps the commands of each player in their order.
pub mine-sort_by_player :
    (slot : ℕ) (cs : List Command) → mine slot (sort_by_player cs) ≡ mine slot cs
unfolding mine sort_by_player
mine-sort_by_player slot [] = refl
mine-sort_by_player slot (c ∷ cs) =
    mine-insert_by_player slot c (sort_by_player cs)
    ∙ ap (λ xs. if c.player == slot then c ∷ xs else xs) (mine-sort_by_player slot cs)

pub mine-append :
    (slot : ℕ) (xs ys : List Command) → mine slot (xs ++ ys) ≡ mine slot xs ++ mine slot ys
unfolding mine
mine-append slot [] ys = refl
mine-append slot (c ∷ cs) ys = elim (Bool-cases (c.player == slot)) [
  | inl e ↦ simp e (ap (◌∷◌ c) (mine-append slot cs ys))
  | inr e ↦ simp e (mine-append slot cs ys)
]

-- The players of a list do not decrease, from `least` on.
pub data IsSorted : ℕ → List Command → Type 0 where
  sorted_nil : {least : ℕ} → IsSorted least []
  sorted_cons :
      {least : ℕ} (c : Command) (cs : List Command)
      → least ≤ c.player
      → IsSorted c.player cs
      → IsSorted least (c ∷ cs)

insert_by_player-IsSorted :
    (c : Command) (ds : List Command) (least : ℕ)
    → least ≤ c.player
    → IsSorted least ds
    → IsSorted least (insert_by_player c ds)
unfolding insert_by_player
insert_by_player-IsSorted c [] least h s = sorted_cons c [] h sorted_nil
insert_by_player-IsSorted c (d ∷ ds) least h (sorted_cons _ _ k s) =
    elim (Bool-cases (ltb d.player c.player)) [
      | inl e ↦ simp e (
          sorted_cons d (insert_by_player c ds) k
            (insert_by_player-IsSorted c ds d.player (omega (arith, ltb→lt _ _ e)) s))
      | inr e ↦ simp e (sorted_cons c (d ∷ ds) h (sorted_cons d ds (ltb→ge _ _ e) s))
    ]

-- The players of the sorted commands do not decrease.
pub sort_by_player-IsSorted : (cs : List Command) → IsSorted 0 (sort_by_player cs)
unfolding sort_by_player
sort_by_player-IsSorted [] = sorted_nil
sort_by_player-IsSorted (c ∷ cs) =
    insert_by_player-IsSorted c (sort_by_player cs) 0 (omega arith) (sort_by_player-IsSorted cs)
