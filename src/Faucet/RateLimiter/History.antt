-- ===== src/Faucet/RateLimiter/History.antt =====
-- A history of calls to the limiter, with the ledger of what it granted.
use mathlib.Core.List.{tail}
use mathlib.Core.Path.{subst}
use scalar_commons_v.Base.{
  lookup, ℕ, ◌≤◌, ◌≡◌, refl, ◌∙◌, some, String, List, [], ◌∷◌, arith, string_keys,
}
use scalar_commons_v.Faucet.RateLimiter.{
  key_of, drop_newest, RateLimiter, RateLimitRule, RateLimitScope, address, ip, RateLimitDecision,
  allowed, refused, entries, try_acquire, release, prune, create,
}
use scalar_commons_v.Faucet.RateLimiter.Log.{
  update, entries_of, entries_of-release, entries_of-prune, entries_of-grant, drop_newest-rules,
  try_acquire_cases, live_addresses, live_ips,
}
use scalar_commons_v.Faucet.RateLimiter.Simulation.{
  Tracks, advance-Tracks, refresh-Tracks, pop-Tracks, push-Tracks,
}

pub data Operation : Type 0 where
  acquires releases : (addr from : String) → Operation
  prunes : Operation

-- The grants of each identifier that were not released, newest first, however old.
pub record Ledger : Type 0 where
  pub by_address : String → List ℕ
  pub by_ip : String → List ℕ

abbrev pub granted : Ledger → RateLimitScope → String → List ℕ
granted g address = g.by_address
granted g ip = g.by_ip

abbrev pub enter : Ledger → String → String → ℕ → Ledger
enter g addr from now = record {
  by_address = update g.by_address addr (now ∷ g.by_address addr);
  by_ip = update g.by_ip from (now ∷ g.by_ip from);
}

abbrev pub strike : Ledger → String → String → Ledger
strike g addr from = record {
  by_address = update g.by_address addr (tail (g.by_address addr));
  by_ip = update g.by_ip from (tail (g.by_ip from));
}

-- The ledger follows the decision that the limiter returned.
abbrev pub settle : RateLimitDecision → Ledger → String → String → ℕ → Ledger
settle allowed g addr from now = enter g addr from now
settle (refused s ms) g addr from now = g

unfoldable pub step : RateLimiter × Ledger → ℕ → Operation → RateLimiter × Ledger
step (l, g) now (acquires addr from) =
    let (l', decision) = try_acquire l addr from now in (l', settle decision g addr from now)
step (l, g) now (releases addr from) = (release l addr from, strike g addr from)
step (l, g) now prunes = (prune l now, g)

unfoldable pub run : RateLimiter × Ledger → List (ℕ × Operation) → RateLimiter × Ledger
run s [] = s
run s ((now, op) ∷ ops) = run (step s now op) ops

-- The clock does not step back, and ends at `last`.
abbrev pub IsOrdered : ℕ → List (ℕ × Operation) → ℕ → Type 0
IsOrdered from [] last = from ≤ last
IsOrdered from ((now, op) ∷ ops) last = (from ≤ now) × IsOrdered now ops last

abbrev pub no_grants : Ledger
no_grants = record { by_address = λ _. []; by_ip = λ _. [] }

-- The limiter has the given rules, and the ledger tracks both scopes.
pub record Agrees (ra ri : RateLimitRule) (now : ℕ) (l : RateLimiter) (g : Ledger) : Type 0 where
  pub address_rule : l.per_address ≡ ra
  pub ip_rule : l.per_ip ≡ ri
  pub addresses : Tracks ra.window_ms ra.max_requests now (entries_of l address) g.by_address
  pub ips : Tracks ri.window_ms ri.max_requests now (entries_of l ip) g.by_ip

module _ {ra ri : RateLimitRule} where
  release-Agrees :
      {now : ℕ} {l : RateLimiter} {g : Ledger} (addr from : String)
      → Agrees ra ri now l g
      → Agrees ra ri now (release l addr from) (strike g addr from)
  unfolding release
  release-Agrees {l} addr from k =
      let mid = drop_newest (key_of address addr) l in
      let (outer_a, outer_i) = drop_newest-rules (key_of ip from) mid in
      let (inner_a, inner_i) = drop_newest-rules (key_of address addr) l in
      let (at_address, at_ip) = entries_of-release l addr from in
      record {
        address_rule = outer_a ∙ inner_a ∙ k.address_rule;
        ip_rule = outer_i ∙ inner_i ∙ k.ip_rule;
        addresses = rw at_address (pop-Tracks k.addresses addr);
        ips = rw at_ip (pop-Tracks k.ips from);
      }

  prune-Agrees :
      {now : ℕ} {l : RateLimiter} {g : Ledger}
      → Agrees ra ri now l g
      → Agrees ra ri now (prune l now) g
  unfolding prune entries
  prune-Agrees {now} {l} k =
      let (at_address, at_ip) = entries_of-prune l now in
      record {
        address_rule = k.address_rule;
        ip_rule = k.ip_rule;
        addresses = rw (at_address, k.address_rule) (refresh-Tracks k.addresses);
        ips = rw (at_ip, k.ip_rule) (refresh-Tracks k.ips);
      }

  acquire-Agrees :
      {now : ℕ} {l : RateLimiter} {g : Ledger} (addr from : String)
      → Agrees ra ri now l g
      → Agrees ra ri now
          (try_acquire l addr from now).0
          (settle (try_acquire l addr from now).1 g addr from now)
  acquire-Agrees {now} {l} {g} addr from k =
      try_acquire_cases l addr from now (λ r. Agrees ra ri now r.0 (settle r.1 g addr from now))
        (λ _. k) (λ _ _. k)
        λ room_a room_i.
          let (at_address, at_ip) =
            entries_of-grant l addr from (now ∷ live_addresses l addr from now)
              (now ∷ live_ips l addr from now) in
          record {
            address_rule = k.address_rule;
            ip_rule = k.ip_rule;
            addresses = rw at_address (
                simp k.address_rule
                  (push-Tracks k.addresses addr (simp (← k.address_rule) room_a)));
            ips = rw at_ip (simp k.ip_rule (push-Tracks k.ips from (simp (← k.ip_rule) room_i)));
          }

  advance-Agrees :
      {now : ℕ} {l : RateLimiter} {g : Ledger} (later : ℕ)
      → now ≤ later
      → Agrees ra ri now l g
      → Agrees ra ri later l g
  advance-Agrees later h k = record {
    address_rule = k.address_rule;
    ip_rule = k.ip_rule;
    addresses = advance-Tracks k.addresses later h;
    ips = advance-Tracks k.ips later h;
  }

  step-Agrees :
      {now : ℕ} {l : RateLimiter} {g : Ledger} (op : Operation)
      → Agrees ra ri now l g
      → Agrees ra ri now (step (l, g) now op).0 (step (l, g) now op).1
  unfolding step
  step-Agrees (acquires addr from) k = acquire-Agrees addr from k
  step-Agrees (releases addr from) k = release-Agrees addr from k
  step-Agrees prunes k = prune-Agrees k

  pub run-Agrees :
      (from last : ℕ) (ops : List (ℕ × Operation)) (l : RateLimiter) (g : Ledger)
      → IsOrdered from ops last
      → Agrees ra ri from l g
      → Agrees ra ri last (run (l, g) ops).0 (run (l, g) ops).1
  unfolding run
  run-Agrees from last [] l g h k = advance-Agrees last h k
  run-Agrees from last ((now, op) ∷ ops) l g (h, hs) k =
      run-Agrees now last ops (step (l, g) now op).0 (step (l, g) now op).1 hs
        (step-Agrees op (advance-Agrees now h k))

  create_eq :
      (l : RateLimiter)
      → create ra ri ≡ some l
      → record { per_address = ra; per_ip = ri; log = [] } ≡ l
  unfolding create
  create_eq l e = ground arith

  create-Agrees :
      (now : ℕ) → Agrees ra ri now (record { per_address = ra; per_ip = ri; log = [] }) no_grants
  unfolding entries lookup
  create-Agrees now = record {
    address_rule = refl;
    ip_rule = refl;
    addresses = record {
      same = λ id t p. refl;
      log_sorted = λ id. tt;
      granted_sorted = λ id. tt;
      bounded = λ id. omega arith;
    };
    ips = record {
      same = λ id t p. refl;
      log_sorted = λ id. tt;
      granted_sorted = λ id. tt;
      bounded = λ id. omega arith;
    };
  }

  -- A limiter fresh from its constructor agrees with its ledger after any history.
  pub history-Agrees :
      (l : RateLimiter) (ops : List (ℕ × Operation)) (now : ℕ)
      → create ra ri ≡ some l
      → IsOrdered 0 ops now
      → Agrees ra ri now (run (l, no_grants) ops).0 (run (l, no_grants) ops).1
  history-Agrees l ops now made order =
      run-Agrees 0 now ops l no_grants order
        (subst (λ l. Agrees ra ri 0 l no_grants) (create_eq l made) (create-Agrees 0))
