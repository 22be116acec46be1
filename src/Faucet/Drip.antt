-- ===== src/Faucet/Drip.antt =====
-- faucet/src/faucet.ts: the drip decision and its guards. The chain client (faucet/src/chain.ts, over
-- polkadot-js) and `normalizeAddress` are parameters, on a state `W` of the chain. `drip` awaits twice;
-- what other requests do meanwhile is a function of the limiter and the chain that each wait takes.
pub mod Guards
pub mod Unbilled
mod Tests
use scalar_commons_v.Base.{
  ℕ, ◌+◌, ◌-◌, Bool, true, false, ◌||◌, Option, none, some, String, ltb, leb, if◌then◌else◌,
}
use scalar_commons_v.Base.Results.{Result, ok, err}
use scalar_commons_v.Faucet.RateLimiter.{
  RateLimiter, RateLimitScope, RateLimitDecision, allowed, refused, try_acquire, release,
}

pub record TransferReceipt : Type 0 where
  pub block_hash : String
  pub tx_hash : String

-- `none`, and an `err` of a transfer, is a throw.
pub record ChainClient (W : Type 0) : Type 0 where
  pub faucet_address : String
  pub existential_deposit : ℕ
  -- `normalizeAddress` at the chain's SS58 format.
  pub normalize_address : String → Option String
  pub free_balance : W → String → Option ℕ
  pub transfer : W → String → ℕ → W × Result String TransferReceipt

pub data DripResult : Type 0 where
  dripped : (address : String) (amount : ℕ) → TransferReceipt → DripResult
  invalid_address : DripResult
  rate_limited : (scope : RateLimitScope) (retry_after_ms : ℕ) → DripResult
  insufficient_faucet_funds : DripResult
  transfer_failed : DripResult

pub record FaucetService (W : Type 0) : Type 0 where
  pub chain : ChainClient W
  pub drip_amount : ℕ
  pub reserve : ℕ

abbrev or_zero : Option ℕ → ℕ
or_zero none = 0
or_zero (some n) = n

-- The constructor, for a reserve that is not negative; `none` is its throw.
unfoldable pub create : {W : Type 0} → ChainClient W → ℕ → Option ℕ → Option (FaucetService W)
create chain amount reserve =
    if leb amount 0
    then none
    else if ltb amount chain.existential_deposit
    then none
    else some (record { chain = chain; drip_amount = amount; reserve = or_zero reserve })

-- What a request shares with the others.
abbrev pub Shared : Type 0 → Type 0
Shared W = RateLimiter × W

module _ {W : Type 0} (s : FaucetService W) where
  abbrev pub floor : ℕ
  floor = s.reserve + s.chain.existential_deposit

  -- Guard 3 refuses.
  unfoldable pub is_insolvent : ℕ → Bool
  is_insolvent free = ltb free s.drip_amount || ltb (free - s.drip_amount) floor

  abbrev pub hand_back : String → String → Shared W → Shared W
  hand_back address from (limiter, w) = (release limiter address from, w)

  abbrev pub settle :
      String → String → RateLimiter → W × Result String TransferReceipt → Shared W × DripResult
  settle address from limiter (w, ok receipt) =
      ((limiter, w), dripped address s.drip_amount receipt)
  settle address from limiter (w, err reason) =
      (hand_back address from (limiter, w), transfer_failed)

  -- Every guard has passed: the transfer, after what others do while it waits in the queue.
  unfoldable pub pay : String → String → (Shared W → Shared W) → Shared W → Shared W × DripResult
  pay address from meanwhile shared =
      let (limiter, w) = meanwhile shared in
      settle address from limiter (s.chain.transfer w address s.drip_amount)

  -- From the balance on, with the slot held.
  unfoldable pub fund :
      String → String → (Shared W → Shared W) → Shared W → Option ℕ → Shared W × DripResult
  fund address from meanwhile shared none = (hand_back address from shared, transfer_failed)
  fund address from meanwhile shared (some free) =
      if is_insolvent free
      then (hand_back address from shared, insufficient_faucet_funds)
      else pay address from meanwhile shared

  abbrev pub admit :
      String
      → String
      → (first second : Shared W → Shared W) → W
      → RateLimiter × RateLimitDecision
      → Shared W × DripResult
  admit address from first second w (limiter, refused scope retry) =
      ((limiter, w), rate_limited scope retry)
  admit address from first second w (limiter, allowed) =
      let (limiter', w') = first (limiter, w) in
      fund address from second (limiter', w') (s.chain.free_balance w' s.chain.faucet_address)

  abbrev pub on_address :
      String
      → ℕ
      → (first second : Shared W → Shared W) → Shared W
      → Option String
      → Shared W × DripResult
  on_address from now first second shared none = (shared, invalid_address)
  on_address from now first second (limiter, w) (some address) =
      admit address from first second w (try_acquire limiter address from now)

  unfoldable pub drip :
      String → String → ℕ → (first second : Shared W → Shared W) → Shared W → Shared W × DripResult
  drip raw from now first second shared =
      on_address from now first second shared (s.chain.normalize_address raw)
