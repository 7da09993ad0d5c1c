-- ===== src/Hpi/Cycles.antt =====
-- A directory that is its own first subdirectory, in both walks of src/hpi/hpi.cpp.
use ta_engine.Common.{
  ℕ, zero, suc, ◌+◌, ◌≤◌, ◌<◌, ◌≡◌, refl, ap, ◌∙◌, List, [], ◌∷◌, ◌++◌, arith, ◌==◌, if◌then◌else◌,
  ge→ltb, ne→==, length, get_or,
}
use ta_engine.Crt.{u32_at}
use ta_engine.Hpi.{Outcome, returned, thrown, unfinished, ◌>>=◌, Entry}
use ta_engine.Hpi.Tree.{
  name_at, joined_path, directory, walk_entries, walk_v1, list_v1, sub_path, walk_subs, walk,
}

returned-bind :
    {A B : Type 0} (o : Outcome A) (f : A → Outcome B) {a : A} → o ≡ returned a → (o >>= f) ≡ f a
unfolding ◌>>=◌
returned-bind o f e = ap (λ x. x >>= f) e

thrown-bind : {A B : Type 0} (o : Outcome A) (f : A → Outcome B) → o ≡ thrown → (o >>= f) ≡ thrown
unfolding ◌>>=◌
thrown-bind o f e = ap (λ x. x >>= f) e

unfinished-bind :
    {A B : Type 0} (o : Outcome A) (f : A → Outcome B) → o ≡ unfinished → (o >>= f) ≡ unfinished
unfolding ◌>>=◌
unfinished-bind o f e = ap (λ x. x >>= f) e

-- The record at `off` has itself as the first of its subdirectories.
pub record IsLoop (dir names : List ℕ) (off : ℕ) : Type 0 where
  pub inside : off + 20 ≤ length dir
  pub name : List ℕ
  pub named : name_at names (u32_at dir off) ≡ returned name
  pub more : ℕ
  pub subs : u32_at dir (off + 8) ≡ suc more
  pub self : u32_at dir (off + 4) ≡ off

-- Where a directory record of version 2 names itself as its first subdirectory, `walk` does not come
-- to an end: however deep the calls nest, they nest deeper.
pub walk_endless :
    (fuel : ℕ) (dir names : List ℕ) (off : ℕ) (prefix' : List ℕ) (out : List Entry)
    → IsLoop dir names off
    → walk fuel dir names off prefix' out ≡ unfinished
unfolding walk walk_subs
walk_endless zero dir names off prefix' out h = refl
walk_endless (suc fuel) dir names off prefix' out h =
    let path = sub_path prefix' h.name in
    let out' = if length path == 0 then out else out ++ directory path ∷ [] in
    rw (walk, ge→ltb (length dir) (off + 20) h.inside, h.subs, h.self)
      (returned-bind (name_at names (u32_at dir off)) _ h.named
        ∙ unfinished-bind _ _ (
            unfinished-bind (walk fuel dir names off path out') _
              (walk_endless fuel dir names off path out' h)))

-- The first entry of the record at `off` is a directory at `off`.
pub record IsLoopV1 (dir : List ℕ) (off : ℕ) : Type 0 where
  pub inside : off + 8 ≤ length dir
  pub more : ℕ
  pub entries : u32_at dir off ≡ suc more
  pub first_inside : u32_at dir (off + 4) + 9 ≤ length dir
  pub name : List ℕ
  pub named : name_at dir (u32_at dir (u32_at dir (off + 4))) ≡ returned name
  pub flagged : 0 < get_or dir (u32_at dir (off + 4) + 8) 0
  pub self : u32_at dir (u32_at dir (off + 4) + 4) ≡ off

walk_v1_thrown :
    (left : ℕ) (dir : List ℕ) (off : ℕ) (prefix' : List ℕ) (out : List Entry)
    → IsLoopV1 dir off
    → walk_v1 left dir off prefix' out ≡ thrown
unfolding walk_v1 walk_entries
walk_v1_thrown zero dir off prefix' out h = refl
walk_v1_thrown (suc left) dir off prefix' out h =
    let e = u32_at dir (off + 4) in
    let path = joined_path prefix' h.name in
    rw
      (
        walk_v1,
        ge→ltb (length dir) (off + 8) h.inside,
        h.entries,
        ge→ltb (length dir) (e + 9) h.first_inside,
      )
      (returned-bind (name_at dir (u32_at dir e)) _ h.named
        ∙ thrown-bind _ _ (
            rw (ne→== (get_or dir (e + 8) 0) 0 (λ z. absurd (omega (arith, h.flagged))), h.self)
              (walk_v1_thrown left dir off path (out ++ directory path ∷ []) h)))

-- Where a directory record of version 1 has itself as its first entry, the archive is refused.
pub list_v1-IsLoopV1 : (dir : List ℕ) (off : ℕ) → IsLoopV1 dir off → list_v1 dir off ≡ thrown
unfolding list_v1
list_v1-IsLoopV1 dir off h = walk_v1_thrown 65 dir off [] [] h
