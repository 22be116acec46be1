-- ===== src/Faucet/RateLimiter/Tests.antt =====
-- Runs of the limiter, and the theorems at concrete histories.
use scalar_commons_v.Base.{
  ℕ, ◌≡◌, refl, true, some, String, List, [], ◌∷◌, ◌+◌, ◌<◌, ◌≤◌, ◌↔◌, arith, length, lookup,
  insert, delete, string_keys,
}
use scalar_commons_v.Faucet.RateLimiter.{
  RateLimiter, RateLimitRule, address, ip, allowed, refused, fresh, try_acquire, release, prune,
  create, key_of, window_of_key, drop_newest, size,
}
use scalar_commons_v.Faucet.RateLimiter.History.{
  Operation, acquires, releases, prunes, run, step, no_grants,
}
use scalar_commons_v.Faucet.RateLimiter.Bound.{
  window_bound, ledger_decision, decision-eq-ledger_decision,
}
use scalar_commons_v.Faucet.RateLimiter.Retry.{refused_by, retry_after_exact}
use scalar_commons_v.Faucet.RateLimiter.Undo.{try_acquire-release}

abbrev two_per_minute : RateLimitRule
two_per_minute = record { max_requests = 2; window_ms = 60_000 }

abbrev three_per_minute : RateLimitRule
three_per_minute = record { max_requests = 3; window_ms = 60_000 }

abbrev start : RateLimiter
start = record { per_address = two_per_minute; per_ip = three_per_minute; log = [] }

abbrev history : List (ℕ × Operation)
history =
    (10, acquires "ann" "::1")
    ∷ (20, acquires "ann" "::1")
    ∷ (30, releases "ann" "::1")
    ∷ (40, acquires "ann" "::2")
    ∷ (50, prunes)
    ∷ []

start_lem : create two_per_minute three_per_minute ≡ some start
unfolding create
start_lem = refl

refused_at_60 :
    (try_acquire (run (start, no_grants) history).0 "ann" "::1" 60).1 ≡ refused address 59_950
unfolding run step try_acquire release drop_newest prune window_of_key key_of lookup insert delete
refused_at_60 = refl

granted_once : try_acquire start "ann" "::1" 10 ≡ (
  record start { log = (key_of address "ann", 10 ∷ []) ∷ (key_of ip "::1", 10 ∷ []) ∷ [] },
  allowed,
)
unfolding try_acquire key_of lookup insert
granted_once = refl

size_after : size (prune (run (start, no_grants) history).0 60_020) ≡ 2
unfolding size run step try_acquire release drop_newest prune window_of_key key_of lookup insert
    delete
size_after = refl

window_bound_example :
    let g = (run (start, no_grants) history).1 in
    ((a : String) → length (fresh 60 60_000 (g.by_address a)) ≤ 2)
    × ((i : String) → length (fresh 60 60_000 (g.by_ip i)) ≤ 3)
window_bound_example =
    window_bound two_per_minute three_per_minute start history 60 start_lem (omega arith)

decision-eq-ledger_decision_example :
    (try_acquire (run (start, no_grants) history).0 "ann" "::1" 60).1
    ≡ ledger_decision two_per_minute three_per_minute
        (run (start, no_grants) history).1
        "ann"
        "::1"
        60
decision-eq-ledger_decision_example =
    decision-eq-ledger_decision two_per_minute three_per_minute start history 60 "ann" "::1"
      start_lem (omega arith)

retry_after_exact_example :
    (refused_by address (try_acquire (run (start, no_grants) history).0 "ann" "::1" 60_010).1
      ≡ true)
    ↔ (60_010 < 60 + 59_950)
retry_after_exact_example =
    retry_after_exact two_per_minute three_per_minute start history 60 60_010 "ann" "::1" address
      59_950 start_lem (omega arith) (omega arith) refused_at_60

try_acquire-release_example :
    (try_acquire
      (release
        (record start { log = (key_of address "ann", 10 ∷ []) ∷ (key_of ip "::1", 10 ∷ []) ∷ [] })
        "ann"
        "::1")
      "ann"
      "::1"
      11).1
    ≡ (try_acquire start "ann" "::1" 11).1
try_acquire-release_example =
    try_acquire-release start _ "ann" "::1" 10 granted_once "ann" "::1" 11 (omega arith)
