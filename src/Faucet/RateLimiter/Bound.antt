-- ===== src/Faucet/RateLimiter/Bound.antt =====
-- What the history of a limiter guarantees: the window bound, and decisions that do not depend on
-- what was pruned.
use scalar_commons_v.Base.{ℕ, ◌≤◌, ◌≡◌, ◌∙◌, some, String, List, arith, length, string_keys}
use scalar_commons_v.Faucet.RateLimiter.{
  RateLimiter, RateLimitRule, RateLimitDecision, fresh, try_acquire, create,
}
use scalar_commons_v.Faucet.RateLimiter.Log.{decide, decide_lem}
use scalar_commons_v.Faucet.RateLimiter.History.{
  Operation, Ledger, run, no_grants, IsOrdered, history-Agrees,
}

-- No sliding window is overspent: after any history of acquisitions, releases and prunings under a
-- clock that does not step back, the unreleased grants of each address, and of each IP, that are
-- younger than the rule's window are at most the rule's `maxRequests`.
pub window_bound :
    (ra ri : RateLimitRule) (l : RateLimiter) (ops : List (ℕ × Operation)) (now : ℕ)
    → create ra ri ≡ some l
    → IsOrdered 0 ops now
    → let g = (run (l, no_grants) ops).1 in
      ((a : String) → length (fresh now ra.window_ms (g.by_address a)) ≤ ra.max_requests)
      × ((i : String) → length (fresh now ri.window_ms (g.by_ip i)) ≤ ri.max_requests)
window_bound ra ri l ops now made order =
    let k = history-Agrees l ops now made order in (k.addresses.bounded, k.ips.bounded)

-- The decision of a limiter that never forgets a grant.
abbrev pub ledger_decision :
    RateLimitRule → RateLimitRule → Ledger → String → String → ℕ → RateLimitDecision
ledger_decision ra ri g addr from now =
    decide ra ri (fresh now ra.window_ms (g.by_address addr))
      (fresh now ri.window_ms (g.by_ip from)) now

-- After any history, whatever was pruned and filtered meanwhile, `tryAcquire` decides, and reports
-- the same scope and waiting time, as the limiter that keeps every unreleased grant for ever.
pub decision-eq-ledger_decision :
    (ra ri : RateLimitRule) (l : RateLimiter) (ops : List (ℕ × Operation)) (now : ℕ)
    (addr from : String)
    → create ra ri ≡ some l
    → IsOrdered 0 ops now
    → (try_acquire (run (l, no_grants) ops).0 addr from now).1
      ≡ ledger_decision ra ri (run (l, no_grants) ops).1 addr from now
decision-eq-ledger_decision ra ri l ops now addr from made order =
    let k = history-Agrees l ops now made order in
    decide_lem (run (l, no_grants) ops).0 addr from now
    ∙ simp (
      k.address_rule,
      k.ip_rule,
      k.addresses.same addr now (omega arith),
      k.ips.same from now (omega arith),
    )
