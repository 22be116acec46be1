-- ===== src/Faucet/RateLimiter/Log.antt =====
-- How the operations of rateLimiter.ts change the entries of every key of the log.
use mathlib.Core.List.{tail}
use mathlib.Core.Path.{fun_ext}
use scalar_commons_v.Base.{
  ◌≤◌, ◌<◌, length, leb, leb→le, Bool-cases, ℕ, ◌≡◌, refl, true, some, String, List, [], ◌∷◌, arith,
  if◌then◌else◌, Dict, lookup, insert, lookup-insert, lookup-delete, ◌==◌, string_keys,
  Option-cases, inl, inr,
}
use scalar_commons_v.Faucet.RateLimiter.{
  RateLimitRule, RateLimitDecision, allowed, refused, retry_after_ms, try_acquire, RateLimiter,
  RateLimitScope, address, ip, key_of, fresh, entries, is_nil, or_empty, drop_newest, release,
  prune, prune_log, window_of_key,
}
use scalar_commons_v.Faucet.RateLimiter.Keys.{
  key_of-address_eq, key_of-ip_eq, key_of-address_ip, key_of-ip_address, window_of_key-address,
  window_of_key-ip,
}

-- The entries of every identifier of a scope.
abbrev pub entries_of : RateLimiter → RateLimitScope → String → List ℕ
entries_of l s id = entries l (key_of s id)

-- A map of identifiers to entries, changed at one identifier.
abbrev pub update : (String → List ℕ) → String → List ℕ → String → List ℕ
update f id es j = if id == j then es else f j

entries-drop_newest :
    (l : RateLimiter) (k j : String)
    → entries (drop_newest k l) j ≡ (if k == j then tail (entries l k) else entries l j)
unfolding entries drop_newest
entries-drop_newest l k j = elim (Option-cases (lookup k l.log)) [
  | inl e ↦ ground (arith, e, string_keys.same_iff k j)
  | inr (es, e) ↦ by_entries es e
]
  where
    by_entries :
        (es : List ℕ)
        → lookup k l.log ≡ some es
        → entries (drop_newest k l) j ≡ (if k == j then tail (entries l k) else entries l j)
    by_entries [] e = ground (arith, e, string_keys.same_iff k j)
    by_entries (t ∷ []) e = ground (arith, e, string_keys.same_iff k j, lookup-delete j k l.log)
    by_entries (t ∷ u ∷ es) e =
        ground (arith, e, string_keys.same_iff k j, lookup-insert j k (u ∷ es) l.log)

pub drop_newest-rules :
    (k : String) (l : RateLimiter)
    → ((drop_newest k l).per_address ≡ l.per_address) × ((drop_newest k l).per_ip ≡ l.per_ip)
unfolding drop_newest
drop_newest-rules k l = ground arith

-- `release` drops the newest grant of the address and that of the IP, and no other.
pub entries_of-release :
    (l : RateLimiter) (a i : String)
    → (entries_of (release l a i) address
        ≡ update (entries_of l address) a (tail (entries_of l address a)))
      × (entries_of (release l a i) ip ≡ update (entries_of l ip) i (tail (entries_of l ip i)))
unfolding release
entries_of-release l a i = (
  fun_ext λ j. simp (entries-drop_newest, key_of-ip_address, key_of-address_eq),
  fun_ext λ j. simp (entries-drop_newest, key_of-address_ip, key_of-ip_eq),
)

is_nil-eq : (es : List ℕ) → is_nil es ≡ true → es ≡ []
is_nil-eq [] h = refl
is_nil-eq (t ∷ ts) h = cc

lookup-prune_log :
    (l : RateLimiter) (now : ℕ) (j : String) (m : Dict String (List ℕ))
    → or_empty (lookup j (prune_log l now m))
      ≡ fresh now (window_of_key l j) (or_empty (lookup j m))
unfolding prune_log lookup
lookup-prune_log l now j [] = refl
lookup-prune_log l now j ((k, es) ∷ m) =
    let left = fresh now (window_of_key l k) es in
    ground (
      arith,
      string_keys.same_iff k j,
      lookup-delete j k (prune_log l now m),
      lookup-prune_log l now j m,
      is_nil-eq left,
    )

entries-prune :
    (l : RateLimiter) (now : ℕ) (j : String)
    → entries (prune l now) j ≡ fresh now (window_of_key l j) (entries l j)
unfolding entries prune
entries-prune l now j = lookup-prune_log l now j l.log

-- `prune` ages every key by the window of its scope.
pub entries_of-prune :
    (l : RateLimiter) (now : ℕ)
    → (entries_of (prune l now) address
        ≡ (λ a. fresh now l.per_address.window_ms (entries_of l address a)))
      × (entries_of (prune l now) ip ≡ (λ i. fresh now l.per_ip.window_ms (entries_of l ip i)))
entries_of-prune l now = (
  fun_ext λ j. rw (entries-prune l now (key_of address j), window_of_key-address l j),
  fun_ext λ j. rw (entries-prune l now (key_of ip j), window_of_key-ip l j),
)

-- A grant adds the present time to both keys.
pub entries_of-grant :
    (l : RateLimiter) (a i : String) (es fs : List ℕ)
    → (entries_of
          (record l { log = insert (key_of ip i) fs (insert (key_of address a) es l.log) })
          address
        ≡ update (entries_of l address) a es)
      × (entries_of
            (record l { log = insert (key_of ip i) fs (insert (key_of address a) es l.log) })
            ip
          ≡ update (entries_of l ip) i fs)
unfolding entries
entries_of-grant l a i es fs = (
  fun_ext λ j. simp (lookup-insert, key_of-ip_address, key_of-address_eq) (ground arith),
  fun_ext λ j. simp (lookup-insert, key_of-address_ip, key_of-ip_eq) (ground arith),
)

module _ (l : RateLimiter) (addr from : String) (now : ℕ) where
  -- The grants of the address, and of the IP, that are inside their windows.
  abbrev pub live_addresses : List ℕ
  live_addresses = fresh now l.per_address.window_ms (entries_of l address addr)

  abbrev pub live_ips : List ℕ
  live_ips = fresh now l.per_ip.window_ms (entries_of l ip from)

  -- The limiter after a grant.
  abbrev pub granted_limiter : RateLimiter
  granted_limiter = record l {
    log =
        insert (key_of ip from) (now ∷ live_ips)
          (insert (key_of address addr) (now ∷ live_addresses) l.log);
  }

  -- The three outcomes of `tryAcquire`.
  pub try_acquire_cases {ℓ} :
      (P : RateLimiter × RateLimitDecision → Type ℓ)
      → (l.per_address.max_requests ≤ length live_addresses
          → P (l, refused address (retry_after_ms live_addresses now l.per_address.window_ms)))
      → (length live_addresses < l.per_address.max_requests
          → l.per_ip.max_requests ≤ length live_ips
          → P (l, refused ip (retry_after_ms live_ips now l.per_ip.window_ms)))
      → (length live_addresses < l.per_address.max_requests
          → length live_ips < l.per_ip.max_requests
          → P (granted_limiter, allowed))
      → P (try_acquire l addr from now)
  unfolding try_acquire
  try_acquire_cases P full_address full_ip room =
      elim (Bool-cases (leb l.per_address.max_requests (length live_addresses))) [
        | inl e ↦ rw e (full_address (leb→le _ _ e))
        | inr e ↦ elim (Bool-cases (leb l.per_ip.max_requests (length live_ips))) [
          | inl e' ↦ rw (e, e') (full_ip (ground arith) (leb→le _ _ e'))
          | inr e' ↦ rw (e, e') (room (ground arith) (ground arith))
        ]
      ]

  -- A grant leaves just that limiter.
  pub granted_eq :
      {l' : RateLimiter} → try_acquire l addr from now ≡ (l', allowed) → granted_limiter ≡ l'
  granted_eq {l'} =
      try_acquire_cases (λ r. r ≡ (l', allowed) → granted_limiter ≡ l') (λ _ e. cc) (λ _ _ e. cc)
        (λ _ _ e. cc)

-- The decision, from the rules and the live grants alone.
abbrev pub decide : RateLimitRule → RateLimitRule → List ℕ → List ℕ → ℕ → RateLimitDecision
decide ra ri by_address by_ip now =
    if leb ra.max_requests (length by_address)
    then refused address (retry_after_ms by_address now ra.window_ms)
    else if leb ri.max_requests (length by_ip)
    then refused ip (retry_after_ms by_ip now ri.window_ms)
    else allowed

pub decide_lem :
    (l : RateLimiter) (addr from : String) (now : ℕ)
    → (try_acquire l addr from now).1
      ≡ decide l.per_address l.per_ip
          (live_addresses l addr from now)
          (live_ips l addr from now)
          now
unfolding try_acquire
decide_lem l addr from now = ground arith
