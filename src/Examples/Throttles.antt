-- ===== src/Examples/Throttles.antt =====
-- Failed logins from one host.
use ta_engine.Common.{ℕ, ◌-◌, ◌*◌, ◌^◌, ◌≤◌, ◌<◌, min, ◌≡◌, refl, List, [], ◌∷◌, arith, drop}
use ta_engine.Common.Bytes.{has, lookup}
use ta_engine.Accounts.{LoginThrottle, for_address, locked_for, expire}
use ta_engine.Accounts.Locks.{IsTable, locked_for-expire}
use ta_engine.Accounts.Streaks.{fail_times, streak, IsHistory, fail_times-locked_for}

abbrev host : List ℕ
host = 10 ∷ 0 ∷ 0 ∷ 1 ∷ []

-- Seven failures from one host.
abbrev throttle : LoginThrottle
throttle = (host, record { fails = 7; last_ms = 900000; locked_until_ms = 960000 }) ∷ []

-- Eight failures, the latest first; the oldest is more than an hour before the others.
abbrev failures : List ℕ
failures = 8000007 ∷ 8000006 ∷ 8000005 ∷ 8000004 ∷ 8000003 ∷ 8000002 ∷ 8000001 ∷ 8000000 ∷ 1000 ∷ []

failures-IsHistory : IsHistory failures
unfolding IsHistory
failures-IsHistory = (
  omega arith,
  omega arith,
  (
    omega arith,
    omega arith,
    (
      omega arith,
      omega arith,
      (
        omega arith,
        omega arith,
        (
          omega arith,
          omega arith,
          (
            omega arith,
            omega arith,
            (omega arith, omega arith, (omega arith, omega arith, (omega arith, omega arith))),
          ),
        ),
      ),
    ),
  ),
)

fail_times-locked_for_example :
    (5 < streak failures
      → locked_for host 8000007 (fail_times for_address host failures [])
        ≡ min 900000 (30000 * 2 ^ (streak failures - 5 - 1)))
    × (streak failures ≤ 5
        → locked_for host 8000007 (fail_times for_address host failures [])
          ≡ locked_for host 8000007 (fail_times for_address host (drop 1 failures) []))
unfolding lookup
fail_times-locked_for_example =
    fail_times-locked_for for_address host [] refl 8000007 (drop 1 failures) failures-IsHistory
      (omega arith)

throttle-IsTable : IsTable throttle
unfolding IsTable has
throttle-IsTable = (refl, tt)

locked_for-expire_example :
    locked_for host 950000 (expire 940000 throttle) ≡ locked_for host 950000 throttle
locked_for-expire_example =
    locked_for-expire host 940000 950000 throttle throttle-IsTable (omega arith)
