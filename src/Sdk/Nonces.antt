-- ===== src/Sdk/Nonces.antt =====
-- The nonces of sdk/src/messaging/envelope.ts: `NonceTracker` on the receiving side, and
-- `OutboundNonces` on the sending side. The tracker's key, two accounts in hex with a colon
-- between them, is the pair of the accounts.
pub mod Increasing
mod Tests
use scalar_commons_v.Base.{
  ℕ, ◌+◌, ◌*◌, Bool, true, false, Option, none, some, List, [], ◌∷◌, ltb, if◌then◌else◌, Dict,
  lookup, insert, bytes_keys, pair_keys,
}
use scalar_commons_v.Sdk.Bytes.{Bytes}

-- The highest nonce accepted from a sender to a recipient.
abbrev pub NonceTracker : Type 0
NonceTracker = Dict (Bytes × Bytes) ℕ

abbrev pub is_above : Option ℕ → ℕ → Bool
is_above none nonce = true
is_above (some last) nonce = ltb last nonce

unfoldable pub is_fresh : NonceTracker → Bytes → Bytes → ℕ → Bool
is_fresh seen from to nonce = is_above (lookup (from, to) seen) nonce

unfoldable pub commit : NonceTracker → Bytes → Bytes → ℕ → NonceTracker
commit seen from to nonce = insert (from, to) nonce seen

-- The last nonce issued to each recipient.
abbrev pub OutboundNonces : Type 0
OutboundNonces = Dict Bytes ℕ

-- `max(last + 1, now_ms * 1000)`, or the clock's part for a new recipient.
abbrev pub next_after : Option ℕ → ℕ → ℕ
next_after none floor = floor
next_after (some prev) floor = if ltb floor (prev + 1) then prev + 1 else floor

-- `next`, at the clock's value `now_ms`.
unfoldable pub next : OutboundNonces → Bytes → ℕ → OutboundNonces × ℕ
next issued to now_ms =
    let n = next_after (lookup to issued) (now_ms * 1000) in (insert to n issued, n)
