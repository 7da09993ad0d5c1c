-- ===== src/Examples/Reports.antt =====
-- Two clients report for tick 30; in one room one of them is wrong, in the other they agree against the referee.
use ta_engine.Common.{ℕ, ◌≡◌, refl, true, false, List, [], ◌∷◌, arith}
use ta_engine.Net.Referee.{Room, find, has_flag, check_hashes}
use ta_engine.Net.Referee.Verdicts.{Verdict, check_hashes-honest, check_hashes-Verdict}

abbrev room : List (ℕ × ℕ) → Room
room reports = record {
  hashes = (0, (4, 1) ∷ []) ∷ (30, reports) ∷ [];
  ref_hash = (30, 77) ∷ [];
  ref_suspect = false;
  flagged = [];
  live = 2;
}

check_hashes-honest_example :
    has_flag 4 (check_hashes (λ id. true) 30 (room ((4, 77) ∷ (9, 78) ∷ []))).1.flagged
    ≡ has_flag 4 []
unfolding find
check_hashes-honest_example =
    check_hashes-honest (λ id. true) 30 4 77 ((4, 77) ∷ (9, 78) ∷ [])
      (room ((4, 77) ∷ (9, 78) ∷ [])) refl refl
      (record { honest = λ e. refl }, (record { honest = λ e. absurd (omega arith) }, tt))

check_hashes-Verdict_example :
    Verdict 77
      ((4, 78) ∷ (9, 78) ∷ [])
      (room ((4, 78) ∷ (9, 78) ∷ []))
      (check_hashes (λ id. true) 30 (room ((4, 78) ∷ (9, 78) ∷ [])))
unfolding find
check_hashes-Verdict_example =
    check_hashes-Verdict (λ id. true) 30 77 ((4, 78) ∷ (9, 78) ∷ []) (room ((4, 78) ∷ (9, 78) ∷ []))
      refl refl (omega arith) (omega arith)
