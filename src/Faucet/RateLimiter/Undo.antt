-- ===== src/Faucet/RateLimiter/Undo.antt =====
-- What `release` gives back, and what `prune` frees.
use mathlib.Core.List.{tail}
use scalar_commons_v.Base.{
  ap, some, none, Option, sym, ℕ, ◌≤◌, ◌≡◌, refl, String, List, [], ◌∷◌, arith, Dict, string_keys,
  lookup, lookup-delete, if◌then◌else◌, ◌∙◌,
}
use scalar_commons_v.Faucet.RateLimiter.{
  RateLimiter, address, ip, allowed, fresh, try_acquire, release, drop_newest, prune, prune_log,
  is_nil, or_empty, window_of_key, key_of, entries,
}
use scalar_commons_v.Faucet.RateLimiter.Entries.{fresh_later}
use scalar_commons_v.Faucet.RateLimiter.Log.{
  update, entries_of, entries_of-release, entries_of-grant, decide_lem, granted_eq, live_addresses,
  live_ips, granted_limiter, drop_newest-rules,
}

-- A key is in the pruned log with its live entries, if it has any.
abbrev pub pruned_entry : List ℕ → Option (List ℕ)
pruned_entry [] = none
pruned_entry (t ∷ ts) = some (t ∷ ts)

pruned_entry_lem : (es : List ℕ) → pruned_entry es ≡ (if is_nil es then none else some es)
pruned_entry_lem [] = refl
pruned_entry_lem (t ∷ ts) = refl

lookup-prune_log_exact :
    (l : RateLimiter) (now : ℕ) (j : String) (m : Dict String (List ℕ))
    → lookup j (prune_log l now m)
      ≡ pruned_entry (fresh now (window_of_key l j) (or_empty (lookup j m)))
unfolding prune_log lookup
lookup-prune_log_exact l now j [] = refl
lookup-prune_log_exact l now j ((k, es) ∷ m) =
    let left = fresh now (window_of_key l k) es in
    ground (
      arith,
      string_keys.same_iff k j,
      lookup-delete j k (prune_log l now m),
      lookup-prune_log_exact l now j m,
      pruned_entry_lem left,
    )

-- `prune` leaves a key in the map exactly if one of its grants is inside the window of the key's
-- scope, and then with just those grants: memory is reclaimed, and no live grant is lost.
pub lookup-prune :
    (l : RateLimiter) (now : ℕ) (key : String)
    → lookup key (prune l now).log ≡ pruned_entry (fresh now (window_of_key l key) (entries l key))
unfolding prune entries
lookup-prune l now key = lookup-prune_log_exact l now key l.log

release-rules :
    (l : RateLimiter) (addr from : String)
    → ((release l addr from).per_address ≡ l.per_address)
      × ((release l addr from).per_ip ≡ l.per_ip)
unfolding release
release-rules l addr from =
    let (a, i) = drop_newest-rules (key_of address addr) l in
    let (a', i') = drop_newest-rules (key_of ip from) (drop_newest (key_of address addr) l) in
    (a' ∙ a, i' ∙ i)

-- The entries that a later request sees after a grant and its release are those before.
fresh-undo :
    (w now t : ℕ) (f : String → List ℕ) (id j : String)
    → now ≤ t
    → fresh t w (
        update
          (update f id (now ∷ fresh now w (f id)))
          id
          (tail (update f id (now ∷ fresh now w (f id)) id))
          j)
      ≡ fresh t w (f j)
fresh-undo w now t f id j h =
    ground
      (arith, string_keys.same_iff id j, string_keys.same_iff id id, fresh_later w now t (f id) h)

same_decision :
    (l m : RateLimiter) (a i : String) (now : ℕ)
    → l.per_address ≡ m.per_address
    → l.per_ip ≡ m.per_ip
    → fresh now m.per_address.window_ms (entries_of l address a) ≡ live_addresses m a i now
    → fresh now m.per_ip.window_ms (entries_of l ip i) ≡ live_ips m a i now
    → (try_acquire l a i now).1 ≡ (try_acquire m a i now).1
same_decision l m a i now ea ei fa fi =
    decide_lem l a i now ∙ simp (ea, ei, fa, fi) (sym (decide_lem m a i now))

-- A grant that is released is not billed: if `tryAcquire` allows a request and the slot is handed
-- back, every later request, of whatever address and IP, is decided as if neither had happened.
pub try_acquire-release :
    (l l' : RateLimiter) (addr from : String) (now : ℕ)
    → try_acquire l addr from now ≡ (l', allowed)
    → (a i : String) (later : ℕ) → now ≤ later
    → (try_acquire (release l' addr from) a i later).1 ≡ (try_acquire l a i later).1
try_acquire-release l l' addr from now e a i later h = rw (← granted_eq l addr from now e) (
    same_decision (release g addr from) l a i later rules.0 rules.1
      (ap (λ (f : String → List ℕ). fresh later l.per_address.window_ms (f a))
          (released.0 ∙ ap (λ f. update f addr (tail (f addr))) granted.0)
        ∙ fresh-undo l.per_address.window_ms now later (entries_of l address) addr a h)
      (ap (λ (f : String → List ℕ). fresh later l.per_ip.window_ms (f i))
          (released.1 ∙ ap (λ f. update f from (tail (f from))) granted.1)
        ∙ fresh-undo l.per_ip.window_ms now later (entries_of l ip) from i h))
  where
    g : RateLimiter
    g = granted_limiter l addr from now

    rules :
        ((release g addr from).per_address ≡ l.per_address)
        × ((release g addr from).per_ip ≡ l.per_ip)
    rules = release-rules g addr from

    released :
        (entries_of (release g addr from) address
          ≡ update (entries_of g address) addr (tail (entries_of g address addr)))
        × (entries_of (release g addr from) ip
            ≡ update (entries_of g ip) from (tail (entries_of g ip from)))
    released = entries_of-release g addr from

    granted :
        (entries_of g address
          ≡ update (entries_of l address) addr (now ∷ live_addresses l addr from now))
        × (entries_of g ip ≡ update (entries_of l ip) from (now ∷ live_ips l addr from now))
    granted =
        entries_of-grant l addr from (now ∷ live_addresses l addr from now)
          (now ∷ live_ips l addr from now)
