-- ===== src/Sdk/Retry.antt =====
-- sdk/src/retry.ts and sdk/src/errors.ts: `withRetry` and `isDeterministicFailure`. The operation is
-- a function of the attempt's number; log lines and sleeps are recorded in order. `maxRetries` is a natural number.
pub mod Decided
mod Tests
use text.Mathlib.Text.{starts_with}
use scalar_commons_v.Base.{
  ℕ, zero, suc, ◌+◌, ◌*◌, Bool, true, false, ◌||◌, Option, none, some, String, List, [], ◌∷◌, ◌++◌,
  if◌then◌else◌, any, ◌==◌, string_keys,
}
use scalar_commons_v.Base.Results.{Result, ok, err}

-- What an operation throws: a `DispatchFailure`, or anything else.
pub data Failure : Type 0 where
  dispatch_failure : (section error_name docs : String) → Failure
  other_failure : String → Failure

abbrev pub deterministic_names : List String
deterministic_names =
    "MinDeliveryBlocksNotElapsed" ∷ "BadOrigin" ∷ "SpanTooLong" ∷ "DeadlineTooEarly" ∷ "SelfDeal"
    ∷ "AmountTooLow" ∷ []

unfoldable pub is_deterministic_failure : Failure → Bool
is_deterministic_failure (other_failure message) = false
is_deterministic_failure (dispatch_failure section error_name docs) =
    any (λ name. name == error_name) deterministic_names || starts_with error_name "Insufficient"

pub record RetryOptions : Type 0 where
  pub max_retries : Option ℕ
  pub retry_delay_ms : Option ℕ

abbrev pub option_or {ℓ} : {A : Type ℓ} → Option A → A → A
option_or none default = default
option_or (some a) default = a

abbrev pub max_retries_of : RetryOptions → ℕ
max_retries_of options = option_or options.max_retries 3

abbrev pub delay_of : RetryOptions → ℕ
delay_of options = option_or options.retry_delay_ms 1000

-- A line of the log, with `attempt/totalAttempts`, or a sleep.
pub data Step : Type 0 where
  warn_retrying error_deterministic error_giving_up : (attempt total : ℕ) → Step
  sleep : (ms : ℕ) → Step

pub record Outcome (T : Type 0) : Type 0 where
  pub result : Result Failure T
  pub attempts : ℕ
  pub steps : List Step

module _ {T : Type 0} (fn : ℕ → Result Failure T) (total delay : ℕ) where
  abbrev pub after_warning : ℕ → Outcome T → Outcome T
  after_warning attempt later = record later {
    steps = warn_retrying attempt total ∷ (sleep (delay * attempt) ∷ later.steps);
  }

  abbrev pub gives_up : ℕ → Failure → Step → Outcome T
  gives_up attempt e line = record { result = err e; attempts = attempt; steps = line ∷ [] }

  abbrev pub after_failure : ℕ → Failure → Outcome T → Bool → Outcome T
  after_failure attempt e later true = gives_up attempt e (error_deterministic attempt total)
  after_failure attempt e later false = later

  abbrev pub after_attempt : ℕ → Outcome T → Result Failure T → Outcome T
  after_attempt attempt later (ok value) = record {
    result = ok value;
    attempts = attempt;
    steps = [];
  }
  after_attempt attempt later (err e) = after_failure attempt e later (is_deterministic_failure e)

  abbrev pub last_attempt : ℕ → Result Failure T → Outcome T
  last_attempt attempt (ok value) = record { result = ok value; attempts = attempt; steps = [] }
  last_attempt attempt (err e) =
      after_failure attempt e (gives_up attempt e (error_giving_up attempt total))
        (is_deterministic_failure e)

  -- The loop from `attempt` on, with `left` attempts after it.
  unfoldable pub attempts_from : (attempt left : ℕ) → Outcome T
  attempts_from attempt zero = last_attempt attempt (fn attempt)
  attempts_from attempt (suc left) =
      let later = after_warning attempt (attempts_from (attempt + 1) left) in
      after_attempt attempt later (fn attempt)

unfoldable pub with_retry : {T : Type 0} → (ℕ → Result Failure T) → RetryOptions → Outcome T
with_retry fn options =
    attempts_from fn (max_retries_of options + 1) (delay_of options) 1 (max_retries_of options)
