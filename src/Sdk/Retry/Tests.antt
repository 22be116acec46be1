-- ===== src/Sdk/Retry/Tests.antt =====
-- An operation that fails twice, one that meets a deterministic error, and one that never succeeds.
use scalar_commons_v.Base.{ℕ, ◌≡◌, refl, ltb, if◌then◌else◌, none, String, [], ◌∷◌, string_keys}
use scalar_commons_v.Base.Results.{Result, ok, err}
use scalar_commons_v.Sdk.Retry.{
  Failure, dispatch_failure, other_failure, RetryOptions, warn_retrying, error_deterministic, sleep,
  with_retry, attempts_from, is_deterministic_failure,
}
use scalar_commons_v.Sdk.Retry.Decided.{IsDecided, with_retry-IsDecided}

abbrev third_time : ℕ → Result Failure String
third_time attempt = if ltb attempt 3 then err (other_failure "Dropped") else ok "0x1"

abbrev unaffordable : ℕ → Result Failure String
unaffordable attempt = err (dispatch_failure "balances" "InsufficientBalance" "")

abbrev defaults : RetryOptions
defaults = record { max_retries = none; retry_delay_ms = none }

third_time_lucky : with_retry third_time defaults ≡ record {
  result = ok "0x1";
  attempts = 3;
  steps = warn_retrying 1 4 ∷ (sleep 1000 ∷ (warn_retrying 2 4 ∷ (sleep 2000 ∷ [])));
}
unfolding with_retry attempts_from is_deterministic_failure
third_time_lucky = refl

no_second_fee : with_retry unaffordable defaults ≡ record {
  result = err (dispatch_failure "balances" "InsufficientBalance" "");
  attempts = 1;
  steps = error_deterministic 1 4 ∷ [];
}
unfolding with_retry attempts_from is_deterministic_failure
no_second_fee = refl

with_retry-IsDecided_example : IsDecided third_time 4 1000 1 3 (with_retry third_time defaults)
with_retry-IsDecided_example = with_retry-IsDecided third_time defaults
