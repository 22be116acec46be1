-- ===== src/Faucet/Server/Tests.antt =====
-- Requests with a forged header.
use scalar_commons_v.Base.{
  ℕ, ◌≡◌, refl, Option, none, some, true, false, List, [], ◌∷◌, ◌-◌, lookup, string_keys,
}
use scalar_commons_v.Base.Results.{ok}
use scalar_commons_v.Faucet.RateLimiter.{
  RateLimiter, RateLimitRule, try_acquire, fresh_entries, entries,
}
use scalar_commons_v.Faucet.Drip.{FaucetService, Shared, drip, pay, fund, is_insolvent}
use scalar_commons_v.Faucet.Server.{
  one, Request, client_ip, RequestBody, object, read_chunks, handle_drip,
}
use scalar_commons_v.Faucet.Server.Forged.{client_ip_appended}
use scalar_commons_v.Faucet.Server.Paid.{IsPaid, handle_drip-IsPaid}

direct :
    client_ip (record { forwarded_for = one "1.2.3.4"; remote_address = none }) false ≡ "unknown"
unfolding client_ip
direct = refl

client_ip_appended_example :
    client_ip
      (record { forwarded_for = one "1.2.3.4,, 5.6, ::1"; remote_address = some "::2" })
      true
    ≡ "::1"
client_ip_appended_example =
    client_ip_appended "1.2.3.4,, 5.6" ":" ":1" (some "::2")
      (refl, refl, (refl, refl, (refl, refl, tt)))

abbrev rule : RateLimitRule
rule = record { max_requests = 1; window_ms = 1000 }

abbrev limiter : RateLimiter
limiter = record { per_address = rule; per_ip = rule; log = [] }

-- The state of the chain is the faucet's balance, and every transfer succeeds.
abbrev service : FaucetService ℕ
service = record {
  chain = record {
    faucet_address = "faucet";
    existential_deposit = 1;
    normalize_address = λ raw. some raw;
    free_balance = λ balance account. some balance;
    transfer = λ balance dest amount.
        (balance - amount, ok (record { block_hash = "0x1"; tx_hash = "0x2" }));
  };
  drip_amount = 5;
  reserve = 10;
}

abbrev from_bob : Request
from_bob = record { forwarded_for = one "::1"; remote_address = none }

abbrev to_ann : List ℕ → Option RequestBody
to_ann bytes = some (object "ann")

abbrev quiet : Shared ℕ → Shared ℕ
quiet shared = shared

answered :
    (handle_drip service true 7 8 to_ann from_bob
      ((1 ∷ 2 ∷ []) ∷ [])
      quiet
      quiet
      (limiter, 50)).1.status
    ≡ 200
unfolding handle_drip read_chunks client_ip drip fund pay is_insolvent try_acquire fresh_entries
    entries lookup
answered = refl

handle_drip-IsPaid_example :
    IsPaid service
      (client_ip from_bob true)
      7
      quiet
      quiet
      (limiter, 50)
      8
      to_ann
      ((1 ∷ 2 ∷ []) ∷ [])
handle_drip-IsPaid_example =
    handle_drip-IsPaid service true 7 8 to_ann from_bob ((1 ∷ 2 ∷ []) ∷ []) quiet quiet limiter 50
      answered
