-- ===== src/Faucet/RateLimiter.antt =====
-- faucet/src/rateLimiter.ts: the sliding-window limiter. The clock's value is an argument of each
-- operation. Times and windows are whole milliseconds, so `now - t < windowMs` reads `now < t +
-- windowMs`. An entry list is kept newest first, where the source keeps it newest last: `push` is
-- `∷`, `pop` is `tail`, and `entries[0]` is the last element.
pub mod Keys
pub mod Entries
pub mod Log
pub mod Simulation
pub mod History
pub mod Bound
pub mod Retry
pub mod Undo
mod Tests
use Prim.Native.String
use mathlib.Core.List.{tail}
use text.Mathlib.Text.{starts_with}
use scalar_commons_v.Base.{
  ℕ, ◌+◌, ◌-◌, Bool, true, false, ◌&&◌, Option, none, some, String, List, [], ◌∷◌, leb, ltb,
  if◌then◌else◌, length, keep, Dict, lookup, insert, delete, string_keys,
}

pub record RateLimitRule : Type 0 where
  pub max_requests : ℕ
  pub window_ms : ℕ

pub data RateLimitScope : Type 0 where
  address ip : RateLimitScope

pub data RateLimitDecision : Type 0 where
  allowed : RateLimitDecision
  refused : (scope : RateLimitScope) (retry_after_ms : ℕ) → RateLimitDecision

pub record RateLimiter : Type 0 where
  pub per_address : RateLimitRule
  pub per_ip : RateLimitRule
  pub log : Dict String (List ℕ)

-- `assertRule` passes.
is_valid_rule : RateLimitRule → Bool
is_valid_rule rule = ltb 0 rule.max_requests && ltb 0 rule.window_ms

-- The constructor; `none` is its throw.
pub create : RateLimitRule → RateLimitRule → Option RateLimiter
unfolding is_valid_rule
create a i =
    if is_valid_rule a
    then if is_valid_rule i then some (record { per_address = a; per_ip = i; log = [] }) else none
    else none

-- The scope-prefixed key of an address or of an IP.
pub key_of : RateLimitScope → String → String
key_of address id = String.◌++◌ "address:" id
key_of ip id = String.◌++◌ "ip:" id

abbrev pub rule_of : RateLimiter → RateLimitScope → RateLimitRule
rule_of l address = l.per_address
rule_of l ip = l.per_ip

-- The filter that `freshEntries` and `prune` apply.
abbrev pub fresh : ℕ → ℕ → List ℕ → List ℕ
fresh now window = keep (λ t. ltb now (t + window))

abbrev or_empty : Option (List ℕ) → List ℕ
or_empty none = []
or_empty (some es) = es

unfoldable pub entries : RateLimiter → String → List ℕ
entries l key = or_empty (lookup key l.log)

unfoldable pub fresh_entries : RateLimiter → String → ℕ → ℕ → List ℕ
unfolding entries
fresh_entries l key now window = fresh now window (entries l key)

abbrev pub last_or : ℕ → List ℕ → ℕ
last_or d [] = d
last_or d (t ∷ ts) = last_or t ts

-- `entries[0]` is undefined for the empty list only.
abbrev pub retry_after_ms : List ℕ → ℕ → ℕ → ℕ
retry_after_ms [] now window = 0
retry_after_ms (t ∷ ts) now window = last_or t ts + window - now

unfoldable pub try_acquire : RateLimiter → String → String → ℕ → RateLimiter × RateLimitDecision
unfolding fresh_entries
try_acquire l addr from now =
    let address_entries = fresh_entries l (key_of address addr) now l.per_address.window_ms in
    let ip_entries = fresh_entries l (key_of ip from) now l.per_ip.window_ms in
    if leb l.per_address.max_requests (length address_entries)
    then (l, refused address (retry_after_ms address_entries now l.per_address.window_ms))
    else if leb l.per_ip.max_requests (length ip_entries)
    then (l, refused ip (retry_after_ms ip_entries now l.per_ip.window_ms))
    else (
      record l {
        log =
            insert (key_of ip from) (now ∷ ip_entries)
              (insert (key_of address addr) (now ∷ address_entries) l.log);
      },
      allowed,
    )

abbrev is_nil : List ℕ → Bool
is_nil [] = true
is_nil (t ∷ ts) = false

-- `dropNewest`: a key left with no grant is deleted.
pub drop_newest : String → RateLimiter → RateLimiter
drop_newest key l = elim (lookup key l.log) [
  | none ↦ l
  | some es ↦
      if is_nil es
      then l
      else if is_nil (tail es)
      then record l { log = delete key l.log }
      else record l { log = insert key (tail es) l.log }
]

unfoldable pub release : RateLimiter → String → String → RateLimiter
release l addr from = drop_newest (key_of ip from) (drop_newest (key_of address addr) l)

-- `prune` recovers the scope of a key from its prefix.
pub window_of_key : RateLimiter → String → ℕ
window_of_key l key =
    if starts_with key "address:" then l.per_address.window_ms else l.per_ip.window_ms

pub prune_log : RateLimiter → ℕ → Dict String (List ℕ) → Dict String (List ℕ)
unfolding window_of_key
prune_log l now [] = []
prune_log l now ((key, es) ∷ m) =
    let rest = prune_log l now m in
    let left = fresh now (window_of_key l key) es in
    if is_nil left then delete key rest else (key, left) ∷ rest

unfoldable pub prune : RateLimiter → ℕ → RateLimiter
unfolding prune_log
prune l now = record l { log = prune_log l now l.log }

pub size : RateLimiter → ℕ
size l = length l.log
