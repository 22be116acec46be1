-- ===== src/Faucet/RateLimiter/Retry.antt =====
-- What the waiting time of a refusal promises, and what pruning frees.
use scalar_commons_v.Base.{
  suc, ap, ltb, ltb→lt, ◌↔◌, some, ℕ, ◌+◌, ◌≤◌, ◌<◌, ◌≡◌, Bool, true, false, String, List, [], ◌∷◌,
  arith, length, string_keys, Bool-cases, inl, inr,
}
use scalar_commons_v.Faucet.RateLimiter.Entries.{
  IsSortedBelow, fresh_later, fresh-IsSortedBelow, length-fresh_later,
}
use scalar_commons_v.Faucet.RateLimiter.Log.{entries_of, live_addresses, live_ips}
use scalar_commons_v.Faucet.RateLimiter.History.{
  Operation, Ledger, Agrees, run, no_grants, IsOrdered, history-Agrees,
}
use scalar_commons_v.Faucet.RateLimiter.Simulation.{Tracks}
use scalar_commons_v.Faucet.RateLimiter.{
  RateLimiter, RateLimitRule, RateLimitScope, address, ip, RateLimitDecision, refused, fresh,
  last_or, retry_after_ms, try_acquire, create,
}

-- The newest entry that is filtered in, and so also the oldest one, is inside the window.
abbrev IsLastFresh : ℕ → ℕ → List ℕ → Type 0
IsLastFresh now w [] = Unit {0}
IsLastFresh now w (t ∷ ts) = now < last_or t ts + w

module _ (w now : ℕ) where
  cons-IsLastFresh :
      (x : ℕ) (es : List ℕ) → now < x + w → IsLastFresh now w es → IsLastFresh now w (x ∷ es)
  cons-IsLastFresh x [] h k = h
  cons-IsLastFresh x (t ∷ ts) h k = k

  fresh-IsLastFresh : (es : List ℕ) → IsLastFresh now w (fresh now w es)
  fresh-IsLastFresh [] = tt
  fresh-IsLastFresh (x ∷ es) = elim (Bool-cases (ltb now (x + w))) [
    | inl e ↦ rw e (cons-IsLastFresh x (fresh now w es) (ltb→lt _ _ e) (fresh-IsLastFresh es))
    | inr e ↦ rw e (fresh-IsLastFresh es)
  ]

  last_or-le : (t : ℕ) (es : List ℕ) → IsSortedBelow t es → last_or t es ≤ t
  last_or-le t [] s = omega arith
  last_or-le t (u ∷ es) s = omega (arith, last_or-le u es s.1)

  -- Before the waiting time is over nothing ages out.
  length-fresh_before :
      (t : ℕ) (es : List ℕ)
      → IsSortedBelow t es
      → now < last_or t es + w
      → length (fresh now w (t ∷ es)) ≡ suc (length es)
  length-fresh_before t [] s h = ground arith
  length-fresh_before t (u ∷ es) s h =
      ground (arith, length-fresh_before u es s.1, last_or-le u es s.1)

  -- After it one entry at least has aged out.
  length-fresh_after :
      (t : ℕ) (es : List ℕ)
      → last_or t es + w ≤ now
      → length (fresh now w (t ∷ es)) < suc (length es)
  length-fresh_after t [] h = ground arith
  length-fresh_after t (u ∷ es) h = ground (arith, length-fresh_after u es h)

-- A budget that is full at `now` is full at a later time exactly until the waiting time is over.
full_until :
    (w most now later n : ℕ) (es : List ℕ)
    → IsSortedBelow n es
    → 0 < most
    → length es ≡ most
    → IsLastFresh now w es
    → now ≤ later
    → (most ≤ length (fresh later w es)) ↔ (later < now + retry_after_ms es now w)
full_until w most now later n [] s p e k h = absurd (omega arith)
full_until w most now later n (t ∷ es) s p e k h = (
  λ full. ground (arith, length-fresh_after w later t es),
  λ early. ground (arith, length-fresh_before w later t es s.1),
)

abbrev pub refused_by : RateLimitScope → RateLimitDecision → Bool
refused_by address (refused address ms) = true
refused_by ip (refused ip ms) = true
refused_by _ _ = false

module _ (l : RateLimiter) (addr from : String) (now : ℕ) where
  refused_by-address_iff :
      (refused_by address (try_acquire l addr from now).1 ≡ true)
      ↔ (l.per_address.max_requests ≤ length (live_addresses l addr from now))
  unfolding try_acquire
  refused_by-address_iff = ground arith

  refused_by-ip_iff :
      (refused_by ip (try_acquire l addr from now).1 ≡ true)
      ↔ (length (live_addresses l addr from now) < l.per_address.max_requests)
        × (l.per_ip.max_requests ≤ length (live_ips l addr from now))
  unfolding try_acquire
  refused_by-ip_iff = ground arith

  -- The waiting time of a refusal, by its scope.
  abbrev waiting : RateLimitScope → ℕ
  waiting address = retry_after_ms (live_addresses l addr from now) now l.per_address.window_ms
  waiting ip = retry_after_ms (live_ips l addr from now) now l.per_ip.window_ms

  refused-waiting :
      (s : RateLimitScope) (ms : ℕ)
      → (try_acquire l addr from now).1 ≡ refused s ms
      → (refused_by s (try_acquire l addr from now).1 ≡ true) × (ms ≡ waiting s)
  unfolding try_acquire
  refused-waiting address ms e = ground arith
  refused-waiting ip ms e = ground arith

-- A budget that is full at `now` is full at a later time exactly until the waiting time is over.
Tracks-full_until :
    {w most now : ℕ} {log granted : String → List ℕ}
    → Tracks w most now log granted
    → 0 < most
    → (id : String) (later : ℕ) → most ≤ length (fresh now w (log id))
    → now ≤ later
    → (most ≤ length (fresh later w (log id)))
      ↔ (later < now + retry_after_ms (fresh now w (log id)) now w)
Tracks-full_until {w} {most} {now} {log} {granted} k pos id later full h =
    rw (← fresh_later w now later (log id) h) (
      full_until w most now later now (fresh now w (log id))
        (fresh-IsSortedBelow w now now (log id) (k.log_sorted id)) pos
        (omega (arith, ap length (k.same id now (omega arith)), k.bounded id))
        (fresh-IsLastFresh w now (log id)) h)

module _ {ra ri : RateLimitRule} {now : ℕ} {l : RateLimiter} {g : Ledger} (k : Agrees ra ri now l g)
    (addr from : String) (later : ℕ) (h : now ≤ later) where
  address_until :
      0 < l.per_address.max_requests
      → refused_by address (try_acquire l addr from now).1 ≡ true
      → (refused_by address (try_acquire l addr from later).1 ≡ true)
        ↔ (later < now + waiting l addr from now address)
  address_until pos r =
      let (to, from') = refused_by-address_iff l addr from later in
      let t : Tracks l.per_address.window_ms l.per_address.max_requests now (entries_of l address)
          g.by_address =
        simp k.address_rule k.addresses in
      let (until, back) =
        Tracks-full_until t pos addr later ((refused_by-address_iff l addr from now).0 r) h in
      (λ e. until (to e), λ e. from' (back e))

  ip_until :
      0 < l.per_ip.max_requests
      → refused_by ip (try_acquire l addr from now).1 ≡ true
      → (refused_by ip (try_acquire l addr from later).1 ≡ true)
        ↔ (later < now + waiting l addr from now ip)
  ip_until pos r =
      let (to, from') = refused_by-ip_iff l addr from later in
      let (room, full) = (refused_by-ip_iff l addr from now).0 r in
      let t : Tracks l.per_ip.window_ms l.per_ip.max_requests now (entries_of l ip) g.by_ip =
        simp k.ip_rule k.ips in
      let (until, back) = Tracks-full_until t pos from later full h in
      let room' =
        length-fresh_later l.per_address.window_ms now later (entries_of l address addr) h in
      (λ e. until (to e).1, λ e. from' (omega arith, back e))

create_pos :
    (ra ri : RateLimitRule) (l : RateLimiter)
    → create ra ri ≡ some l
    → (0 < ra.max_requests) × (0 < ri.max_requests)
unfolding create
create_pos ra ri l e = ground arith

-- `retryAfterMs` is exact: if, after any history, a request is refused by a scope with the waiting
-- time `ms`, then the same request, tried again at a later time with no call in between, is refused
-- by that scope if the waiting time is not over, and not refused by it if it is.
pub retry_after_exact :
    (ra ri : RateLimitRule) (l : RateLimiter) (ops : List (ℕ × Operation)) (now later : ℕ)
    (addr from : String) (s : RateLimitScope) (ms : ℕ)
    → create ra ri ≡ some l
    → IsOrdered 0 ops now
    → now ≤ later
    → let after = (run (l, no_grants) ops).0 in
      (try_acquire after addr from now).1 ≡ refused s ms
      → (refused_by s (try_acquire after addr from later).1 ≡ true) ↔ (later < now + ms)
retry_after_exact ra ri l ops now later addr from s ms made order h e =
    let k = history-Agrees l ops now made order in
    let (hit, same) = refused-waiting (run (l, no_grants) ops).0 addr from now s ms e in
    let (pos_a, pos_i) = create_pos ra ri l made in rw same (by_scope s k hit pos_a pos_i)
  where
    by_scope :
        (s : RateLimitScope)
        → Agrees ra ri now (run (l, no_grants) ops).0 (run (l, no_grants) ops).1
        → refused_by s (try_acquire (run (l, no_grants) ops).0 addr from now).1 ≡ true
        → 0 < ra.max_requests
        → 0 < ri.max_requests
        → (refused_by s (try_acquire (run (l, no_grants) ops).0 addr from later).1 ≡ true)
          ↔ (later < now + waiting (run (l, no_grants) ops).0 addr from now s)
    by_scope address k hit p q = address_until k addr from later h (simp k.address_rule p) hit
    by_scope ip k hit p q = ip_until k addr from later h (simp k.ip_rule q) hit
