-- ===== src/Net/Referee.antt =====
-- `checkHashes` of src/server/server.cpp: what the state hashes that the clients reported for a tick do
-- to them. Maps are lists in the order of their keys; `live` is the count of seated clients.
pub mod Verdicts
use ta_engine.Common.{
  ℕ, zero, suc, ◌+◌, ◌-◌, ◌*◌, ◌/◌, ◌%◌, ◌^◌, ◌≤◌, ◌<◌, min, max, ◌≡◌, refl, sym, ap, ◌∙◌, subst,
  ◌≢◌, ◌↔◌, ◌⊎◌, inl, inr, Bool, true, false, not, ◌&&◌, ◌||◌, Option, none, some, List, [], ◌∷◌,
  ◌++◌, map, append-nil, append_assoc, arith, ltb, leb, ◌==◌, if◌then◌else◌, ltb→lt, lt→ltb, ge→ltb,
  ltb→ge, leb→le, le→leb, gt→leb, ==_iff, ==_refl, tests, Bool-cases, Option-cases, length,
  get_elem?, get_or, set, take, drop, replicate, All, length-append, length-set, take-append-drop,
  length-take, length-drop, length-replicate, take-append_self, drop-append_self, take-all,
  drop-all, drop-append, drop-nil, take-append, drop-drop,
}

-- The hashes that were reported, by tick and then by client; the referee's, by tick; `refSuspect`;
-- the clients in `desyncFlagged`.
pub record Room : Type 0 where
  pub hashes : List (ℕ × List (ℕ × ℕ))
  pub ref_hash : List (ℕ × ℕ)
  pub ref_suspect : Bool
  pub flagged : List ℕ
  pub live : ℕ

unfoldable pub find : {A : Type 0} → ℕ → List (ℕ × A) → Option A
find key [] = none
find key ((k, v) ∷ more) = if k == key then some v else find key more

-- `erase(begin, next(it))`, where `it` is at the key.
unfoldable pub forget : {A : Type 0} → ℕ → List (ℕ × A) → List (ℕ × A)
forget key [] = []
forget key ((k, v) ∷ more) = if k == key then more else forget key more

unfoldable pub has_flag : ℕ → List ℕ → Bool
has_flag id [] = false
has_flag id (x ∷ xs) = x == id || has_flag id xs

unfoldable pub all_report : ℕ → List (ℕ × ℕ) → Bool
all_report h [] = true
all_report h ((id, k) ∷ more) = k == h && all_report h more

-- The tally has one entry, and it is not the referee's.
unfoldable pub outvoted : ℕ → List (ℕ × ℕ) → Bool
outvoted canon [] = false
outvoted canon ((id, h) ∷ more) = all_report h more && not (h == canon)

-- The clients flagged, and those told of it, which are those still connected.
unfoldable pub convict : (ℕ → Bool) → ℕ → List (ℕ × ℕ) → List ℕ → List ℕ × List ℕ
convict connected canon [] flags = ([], flags)
convict connected canon ((id, h) ∷ more) flags =
    elim (not (h == canon) && not (has_flag id flags)) [
      | true ↦
          let (told, flags') = convict connected canon more (id ∷ flags) in
          (if connected id then id ∷ told else told, flags')
      | false ↦ convict connected canon more flags
    ]

unfoldable pub judge : (ℕ → Bool) → ℕ → ℕ → List (ℕ × ℕ) → Room → List ℕ × Room
judge connected tick canon reports r =
    let suspect = r.ref_suspect || (leb 2 r.live && outvoted canon reports) in
    let left = record r { ref_suspect = suspect; hashes = forget tick r.hashes } in
    let (told, flags) = convict connected canon reports r.flagged in
    if suspect then ([], left) else (told, record left { flagged = flags })

unfoldable pub check_hashes : (ℕ → Bool) → ℕ → Room → List ℕ × Room
check_hashes connected tick r = elim (find tick r.hashes) [
  | none ↦ ([], r)
  | some reports ↦ elim (ltb (length reports) r.live || r.live == 0) [
    | true ↦ ([], r)
    | false ↦ elim (find tick r.ref_hash) [
      | none ↦ ([], r)
      | some canon ↦ judge connected tick canon reports r
    ]
  ]
]
