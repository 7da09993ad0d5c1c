-- ===== src/Net/Referee/Verdicts.antt =====
-- Who is flagged, and who is not.
use ta_engine.Common.{
  ℕ, ◌≤◌, ◌≡◌, refl, sym, ◌∙◌, subst, ◌≢◌, ◌↔◌, ◌⊎◌, inl, inr, Bool, true, false, not, ◌&&◌, ◌||◌,
  some, List, [], ◌∷◌, arith, ltb, leb, ◌==◌, le→leb, ==_iff, ne→==, Bool-cases, length, All,
}
use mathlib.Core.Bool.{true≢false}
use ta_engine.Common.Bytes.{and_true}
use ta_engine.Net.Referee.{Room, find, has_flag, all_report, outvoted, convict, judge, check_hashes}

-- What a report says, and that a report of the client `id` is another hash than the referee's.
abbrev pub Says : ℕ → ℕ × ℕ → Type 0
Says h report = report.1 ≡ h

abbrev pub Differs : ℕ → ℕ → ℕ × ℕ → Type 0
Differs id canon report = (report.0 ≡ id) × (report.1 ≢ canon)

abbrev pub Any : (ℕ × ℕ → Type 0) → List (ℕ × ℕ) → Type 0
Any P [] = ⊥
Any P (x ∷ xs) = P x ⊎ Any P xs

-- The reports agree on a hash that is not the referee's.
abbrev pub Consensus : ℕ → List (ℕ × ℕ) → Type 0
Consensus canon reports = (h : ℕ) × All (Says h) reports × (h ≢ canon)

differs : (h canon : ℕ) → not (h == canon) ≡ true → h ≢ canon
differs h canon e same = absurd (cc (simp ((==_iff h canon).1 same) at e))

-- A report of the client `id` is the referee's hash.
pub record IsHonest (id canon : ℕ) (report : ℕ × ℕ) : Type 0 where
  pub honest : report.0 ≡ id → report.1 ≡ canon

other_flag :
    (id canon k h : ℕ) (flags : List ℕ)
    → IsHonest id canon (k, h)
    → (k == id ≡ true) ⊎ (k == id ≡ false)
    → (not (h == canon) && not (has_flag k flags)) ≡ true
    → has_flag id (k ∷ flags) ≡ has_flag id flags
unfolding has_flag
other_flag id canon k h flags v (inr f) e = simp f refl
other_flag id canon k h flags v (inl f) e =
    let g : h ≡ canon = v.honest ((==_iff k id).0 f) in
    let z : (h == canon) ≡ true = (==_iff h canon).1 g in absurd (cc (simp z at e))

convict-flags :
    (connected : ℕ → Bool) (id canon : ℕ) (reports : List (ℕ × ℕ)) (flags : List ℕ)
    → All (IsHonest id canon) reports
    → has_flag id (convict connected canon reports flags).1 ≡ has_flag id flags
unfolding convict
convict-flags connected id canon [] flags v = refl
convict-flags connected id canon ((k, h) ∷ more) flags (v, vs) =
    elim (Bool-cases (not (h == canon) && not (has_flag k flags))) [
      | inl e ↦
          rw (e, convict)
            (convict-flags connected id canon more (k ∷ flags) vs
              ∙ other_flag id canon k h flags v (Bool-cases (k == id)) e)
      | inr e ↦ rw (e, convict) (convict-flags connected id canon more flags vs)
    ]

judge-flags :
    (connected : ℕ → Bool) (tick id canon : ℕ) (reports : List (ℕ × ℕ)) (r : Room)
    → All (IsHonest id canon) reports
    → has_flag id (judge connected tick canon reports r).1.flagged ≡ has_flag id r.flagged
unfolding judge
judge-flags connected tick id canon reports r v =
    elim (Bool-cases (r.ref_suspect || (leb 2 r.live && outvoted canon reports))) [
      | inl e ↦ rw e refl
      | inr e ↦ rw e (convict-flags connected id canon reports r.flagged v)
    ]

Bool-or-true : (b : Bool) → (b || true) ≡ true
Bool-or-true true = refl
Bool-or-true false = refl

-- Where there are reports for the tick and the referee has a hash for it: a client whose reports
-- all are that hash is flagged after the check exactly if it was before.
pub check_hashes-honest :
    (connected : ℕ → Bool) (tick id canon : ℕ) (reports : List (ℕ × ℕ)) (r : Room)
    → find tick r.hashes ≡ some reports
    → find tick r.ref_hash ≡ some canon
    → All (IsHonest id canon) reports
    → has_flag id (check_hashes connected tick r).1.flagged ≡ has_flag id r.flagged
unfolding check_hashes
check_hashes-honest connected tick id canon reports r e f v =
    elim (Bool-cases (ltb (length reports) r.live || r.live == 0)) [
      | inl g ↦ rw (e, g, check_hashes) refl
      | inr g ↦ rw (e, g, f, check_hashes) (judge-flags connected tick id canon reports r v)
    ]

all_report-agree :
    (h : ℕ) (reports : List (ℕ × ℕ)) → all_report h reports ≡ true → All (Says h) reports
unfolding all_report
all_report-agree h [] e = tt
all_report-agree h ((id, k) ∷ more) e =
    let (here, behind) = and_true (k == h) (all_report h more) e in
    ((==_iff k h).0 here, all_report-agree h more behind)

agree-all_report :
    (h : ℕ) (reports : List (ℕ × ℕ)) → All (Says h) reports → all_report h reports ≡ true
unfolding all_report
agree-all_report h [] a = refl
agree-all_report h ((id, k) ∷ more) (e, a) = rw ((==_iff k h).1 e, agree-all_report h more a) refl

outvoted-Consensus :
    (canon : ℕ) (reports : List (ℕ × ℕ)) → outvoted canon reports ≡ true → Consensus canon reports
unfolding outvoted
outvoted-Consensus canon [] e = absurd (true≢false (sym e))
outvoted-Consensus canon ((id, h) ∷ more) e =
    let (agree, other) = and_true (all_report h more) (not (h == canon)) e in
    (h, (refl, all_report-agree h more agree), differs h canon other)

Consensus-outvoted :
    (canon : ℕ) (reports : List (ℕ × ℕ))
    → 1 ≤ length reports
    → Consensus canon reports
    → outvoted canon reports ≡ true
unfolding outvoted
Consensus-outvoted canon [] h c = absurd (omega arith)
Consensus-outvoted canon ((id, k) ∷ more) n (h, (e, a), other) =
    rw (e, agree-all_report h more a, ne→== h canon other) refl

or_true : (a b : Bool) → (a || b) ≡ true → (a ≡ true) ⊎ (b ≡ true)
or_true true b e = inl refl
or_true false b e = inr e

-- A client is flagged that was, or that has a report that differs.
Marked : ℕ → ℕ → List ℕ → List (ℕ × ℕ) → Type 0
Marked id canon flags reports = (has_flag id flags ≡ true) ⊎ Any (Differs id canon) reports

one_more :
    (id canon k h : ℕ) (flags : List ℕ) (more : List (ℕ × ℕ))
    → h ≢ canon
    → Marked id canon (k ∷ flags) more ↔ Marked id canon flags ((k, h) ∷ more)
unfolding Marked has_flag
one_more id canon k h flags more other = (
  λ (m : ((k == id || has_flag id flags) ≡ true) ⊎ Any (Differs id canon) more). elim m [
    | inr a ↦ inr (inr a)
    | inl e ↦ elim (or_true (k == id) (has_flag id flags) e) [
      | inl s ↦ inr (inl ((==_iff k id).0 s, other))
      | inr g ↦ inl g
    ]
  ],
  λ (m : (has_flag id flags ≡ true) ⊎ (Differs id canon (k, h) ⊎ Any (Differs id canon) more)).
      elim m [
        | inl g ↦ inl (rw g (Bool-or-true (k == id)))
        | inr d ↦ elim d [ inl (s, o) ↦ inl (rw ((==_iff k id).1 s) refl) | inr a ↦ inr a ]
      ],
)

flagged_already :
    (k h canon : ℕ) (flags : List ℕ)
    → (not (h == canon) && not (has_flag k flags)) ≡ false
    → h ≢ canon
    → has_flag k flags ≡ true
flagged_already k h canon flags e other = elim (Bool-cases (has_flag k flags)) [
  | inl g ↦ g
  | inr g ↦ absurd (true≢false (sym (rw (ne→== h canon other, g) refl) ∙ e))
]

none_more :
    (id canon k h : ℕ) (flags : List ℕ) (more : List (ℕ × ℕ))
    → (not (h == canon) && not (has_flag k flags)) ≡ false
    → Marked id canon flags more ↔ Marked id canon flags ((k, h) ∷ more)
unfolding Marked
none_more id canon k h flags more e = (
  λ (m : (has_flag id flags ≡ true) ⊎ Any (Differs id canon) more). elim m [
    | inl g ↦ inl g
    | inr a ↦ inr (inr a)
  ],
  λ (m : (has_flag id flags ≡ true) ⊎ (Differs id canon (k, h) ⊎ Any (Differs id canon) more)).
      elim m [
        | inl g ↦ inl g
        | inr d ↦ elim d [
          | inl (s, o) ↦
              inl (subst (λ i. has_flag i flags ≡ true) s (flagged_already k h canon flags e o))
          | inr a ↦ inr a
        ]
      ],
)

convict-Marked :
    (connected : ℕ → Bool) (id canon : ℕ) (reports : List (ℕ × ℕ)) (flags : List ℕ)
    → has_flag id (convict connected canon reports flags).1 ≡ true ↔ Marked id canon flags reports
unfolding convict Marked
convict-Marked connected id canon [] flags =
    (λ g. inl g, λ (m : (has_flag id flags ≡ true) ⊎ ⊥). elim m [ inl g ↦ g | inr x ↦ absurd x ])
convict-Marked connected id canon ((k, h) ∷ more) flags =
    elim (Bool-cases (not (h == canon) && not (has_flag k flags))) [
      | inl e ↦
          let (to, fro) = convict-Marked connected id canon more (k ∷ flags) in
          let (there, back) =
            one_more id canon k h flags more (differs h canon (and_true _ _ e).0) in
          rw (e, convict) (λ g. there (to g), λ m. fro (back m))
      | inr e ↦
          let (to, fro) = convict-Marked connected id canon more flags in
          let (there, back) = none_more id canon k h flags more e in
          rw (e, convict) (λ g. there (to g), λ m. fro (back m))
    ]

-- What comes of the reports of a tick: who is told, and the room.
pub record Verdict (canon : ℕ) (reports : List (ℕ × ℕ)) (r : Room) (o : List ℕ × Room)
    : Type 0 where
  pub suspect : o.1.ref_suspect ≡ true ↔ (r.ref_suspect ≡ true) ⊎ Consensus canon reports
  pub quiet : o.1.ref_suspect ≡ true → (o.0 ≡ []) × (o.1.flagged ≡ r.flagged)
  pub convicted :
      o.1.ref_suspect ≡ false
      → (id : ℕ)
      → has_flag id o.1.flagged ≡ true
        ↔ (has_flag id r.flagged ≡ true) ⊎ Any (Differs id canon) reports

judge-Verdict :
    (connected : ℕ → Bool) (tick canon : ℕ) (reports : List (ℕ × ℕ)) (r : Room)
    → 2 ≤ r.live
    → r.live ≤ length reports
    → Verdict canon reports r (judge connected tick canon reports r)
unfolding judge Marked
judge-Verdict connected tick canon reports r two all =
    let enough : leb 2 r.live ≡ true = le→leb 2 r.live two in
    let why = r.ref_suspect || (leb 2 r.live && outvoted canon reports) in
    let to : why ≡ true → (r.ref_suspect ≡ true) ⊎ Consensus canon reports = λ e.
      elim (or_true r.ref_suspect (leb 2 r.live && outvoted canon reports) e) [
        | inl s ↦ inl s
        | inr v ↦ inr (outvoted-Consensus canon reports (and_true _ _ v).1)
      ] in
    let fro : (r.ref_suspect ≡ true) ⊎ Consensus canon reports → why ≡ true = λ m. elim m [
      | inl s ↦ rw s refl
      | inr c ↦
          rw (enough, Consensus-outvoted canon reports (omega arith) c) (Bool-or-true r.ref_suspect)
    ] in
    elim (Bool-cases why) [
      | inl e ↦ rw e (record {
        suspect = (λ g. to e, λ m. refl);
        quiet = λ g. (refl, refl);
        convicted = λ g. absurd (true≢false g);
      })
      | inr e ↦ rw e (record {
        suspect = (λ g. absurd (true≢false (sym g)), λ m. absurd (true≢false (sym (fro m) ∙ e)));
        quiet = λ g. absurd (true≢false (sym g));
        convicted = λ g id. convict-Marked connected id canon reports r.flagged;
      })
    ]

-- Where at least two clients are seated, each of them has reported for the tick, and the referee has a
-- hash for it: the referee is the suspect afterwards exactly if it was before or the reports all agree
-- on a hash that is not its own. Where it is, nobody is told or newly flagged; else exactly the clients
-- are flagged that were before or have reported another hash than the referee's.
pub check_hashes-Verdict :
    (connected : ℕ → Bool) (tick canon : ℕ) (reports : List (ℕ × ℕ)) (r : Room)
    → find tick r.hashes ≡ some reports
    → find tick r.ref_hash ≡ some canon
    → r.live ≤ length reports
    → 2 ≤ r.live
    → Verdict canon reports r (check_hashes connected tick r)
unfolding check_hashes
check_hashes-Verdict connected tick canon reports r e f h two =
    let g : (ltb (length reports) r.live || r.live == 0) ≡ false = ground arith in
    rw (e, g, f, check_hashes) (judge-Verdict connected tick canon reports r two h)
