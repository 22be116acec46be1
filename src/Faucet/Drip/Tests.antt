-- ===== src/Faucet/Drip/Tests.antt =====
-- A faucet on a one-number chain: the first drip is paid, a failed one is not billed, and two requests
-- that both read the balance first are both paid.
use scalar_commons_v.Base.{
  ℕ, ◌-◌, ◌≡◌, refl, false, some, String, [], leb, if◌then◌else◌, lookup, string_keys,
}
use scalar_commons_v.Base.Results.{Result, ok, err}
use scalar_commons_v.Faucet.RateLimiter.{
  RateLimiter, RateLimitRule, try_acquire, fresh_entries, entries,
}
use scalar_commons_v.Faucet.Drip.{
  ChainClient, FaucetService, TransferReceipt, Shared, dripped, drip, pay, fund, is_insolvent,
}
use scalar_commons_v.Faucet.Drip.Guards.{IsEntitled, drip-IsEntitled}
use scalar_commons_v.Faucet.Drip.Unbilled.{is_dripped, alone, DecidesAlike, drip-DecidesAlike}

abbrev two_per_minute : RateLimitRule
two_per_minute = record { max_requests = 2; window_ms = 60_000 }

abbrev limiter : RateLimiter
limiter = record { per_address = two_per_minute; per_ip = two_per_minute; log = [] }

abbrev receipt : TransferReceipt
receipt = record { block_hash = "0x1"; tx_hash = "0x2" }

abbrev transferred : ℕ → ℕ → ℕ × Result String TransferReceipt
transferred balance amount =
    if leb amount balance then (balance - amount, ok receipt) else (balance, err "balances")

-- The state of the chain is the faucet's balance.
abbrev chain : ChainClient ℕ
chain = record {
  faucet_address = "faucet";
  existential_deposit = 1;
  normalize_address = λ raw. some raw;
  free_balance = λ balance account. some balance;
  transfer = λ balance dest amount. transferred balance amount;
}

abbrev service : FaucetService ℕ
service = record { chain = chain; drip_amount = 10; reserve = 20 }

-- Another request, admitted before, pays its drip while this one waits.
abbrev paid_meanwhile : Shared ℕ → Shared ℕ
paid_meanwhile (l, balance) = (l, balance - 10)

paid_once : (drip service "ann" "::1" 5 alone alone (limiter, 31)).1 ≡ dripped "ann" 10 receipt
unfolding drip fund pay is_insolvent try_acquire fresh_entries entries lookup
paid_once = refl

drip-IsEntitled_example :
    IsEntitled service "ann" "::1" 5 alone alone (limiter, 31) "ann" 10 receipt
drip-IsEntitled_example =
    drip-IsEntitled service "ann" "::1" 5 alone alone limiter 31 "ann" 10 receipt paid_once

-- The reserve of 20 is spent down to 11: the balance was read before the other transfer.
reserve_spent : (drip service "ann" "::1" 5 alone paid_meanwhile (limiter, 31)).0.1 ≡ 11
unfolding drip fund pay is_insolvent try_acquire fresh_entries entries lookup
reserve_spent = refl

too_poor : is_dripped (drip service "ann" "::1" 5 alone alone (limiter, 30)).1 ≡ false
unfolding drip fund pay is_insolvent try_acquire fresh_entries entries lookup
too_poor = refl

drip-DecidesAlike_example :
    DecidesAlike 5 (drip service "ann" "::1" 5 alone alone (limiter, 30)).0.0 limiter
drip-DecidesAlike_example = drip-DecidesAlike service "ann" "::1" 5 limiter 30 too_poor
