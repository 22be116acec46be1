-- ===== src/Sdk/Retry/Decided.antt =====
-- No silent retry: how often `withRetry` runs the operation, when it stops, and what it logs.
use scalar_commons_v.Base.{
  ℕ, zero, suc, ◌+◌, ◌*◌, ◌≤◌, ◌≡◌, refl, sym, ap, arith, Bool, true, false, List, [], ◌∷◌, ◌++◌,
  ◌⊎◌, inl, inr,
}
use mathlib.Core.Path.{subst}
use scalar_commons_v.Base.Results.{Result, ok, err}
use scalar_commons_v.Sdk.Retry.{
  Failure, is_deterministic_failure, RetryOptions, max_retries_of, delay_of, Step, warn_retrying,
  error_deterministic, error_giving_up, sleep, Outcome, after_warning, gives_up, after_failure,
  after_attempt, last_attempt, attempts_from, with_retry,
}

-- The warnings and sleeps of attempts `attempt`, … , `attempt + count - 1`.
abbrev pub warnings : (total delay attempt count : ℕ) → List Step
warnings total delay attempt zero = []
warnings total delay attempt (suc count) =
    warn_retrying attempt total
    ∷ (sleep (delay * attempt) ∷ warnings total delay (attempt + 1) count)

-- Why the last attempt ended the loop, with the line it logs.
abbrev pub Ends : {T : Type 0} → (total attempt : ℕ) → Result Failure T → List Step → Type 0
Ends total attempt (ok value) line = line ≡ []
Ends total attempt (err e) line =
    ((is_deterministic_failure e ≡ true) × (line ≡ (error_deterministic attempt total ∷ [])))
    ⊎ ((is_deterministic_failure e ≡ false)
        × (attempt ≡ total)
        × (line ≡ (error_giving_up attempt total ∷ [])))

-- The attempt failed in a way that may clear.
abbrev pub IsTransient : {T : Type 0} → Result Failure T → Type 0
IsTransient (ok value) = ⊥
IsTransient (err e) = is_deterministic_failure e ≡ false

-- The first `count` attempts from `attempt` on were transient failures.
abbrev pub AllTransient : {T : Type 0} → (ℕ → Result Failure T) → (attempt count : ℕ) → Type 0
AllTransient fn attempt zero = Unit {0}
AllTransient fn attempt (suc count) = IsTransient (fn attempt) × AllTransient fn (attempt + 1) count

-- An outcome from `attempt` on, reached after `retries` retries.
pub record IsDecided {T : Type 0} (fn : ℕ → Result Failure T) (total delay attempt left : ℕ)
    (o : Outcome T) : Type 0 where
  pub retries : ℕ
  pub bounded : retries ≤ left
  pub last : o.attempts ≡ attempt + retries
  pub result : fn o.attempts ≡ o.result
  pub transient : AllTransient fn attempt retries
  pub line : List Step
  pub ends : Ends total o.attempts o.result line
  pub logged : o.steps ≡ (warnings total delay attempt retries ++ line)

module _ {T : Type 0} (fn : ℕ → Result Failure T) (total delay : ℕ) where
  success-IsDecided :
      (attempt left : ℕ) (value : T)
      → fn attempt ≡ ok value
      → IsDecided fn total delay attempt left
          (record { result = ok value; attempts = attempt; steps = [] })
  success-IsDecided attempt left value e = record {
    retries = 0;
    bounded = omega arith;
    last = omega arith;
    result = e;
    transient = tt;
    line = [];
    ends = refl;
    logged = refl;
  }

  gives_up-IsDecided :
      (attempt left : ℕ) (x : Failure) (line : Step)
      → fn attempt ≡ err x
      → Ends {T = T} total attempt (err x) (line ∷ [])
      → IsDecided fn total delay attempt left (gives_up fn total delay attempt x line)
  gives_up-IsDecided attempt left x line e ends = record {
    retries = 0;
    bounded = omega arith;
    last = omega arith;
    result = e;
    transient = tt;
    line = line ∷ [];
    ends = ends;
    logged = refl;
  }

  after_warning-IsDecided :
      (attempt left : ℕ) (x : Failure) (later : Outcome T)
      → fn attempt ≡ err x
      → is_deterministic_failure x ≡ false
      → IsDecided fn total delay (attempt + 1) left later
      → IsDecided fn total delay attempt (suc left) (after_warning fn total delay attempt later)
  after_warning-IsDecided attempt left x later e clear d = record {
    retries = suc d.retries;
    bounded = omega (arith, d.bounded);
    last = omega (arith, d.last);
    result = d.result;
    transient = (subst IsTransient (sym e) clear, d.transient);
    line = d.line;
    ends = d.ends;
    logged = ap (λ z. warn_retrying attempt total ∷ (sleep (delay * attempt) ∷ z)) d.logged;
  }

  last_failure-IsDecided :
      (attempt : ℕ) (x : Failure) (b : Bool)
      → is_deterministic_failure x ≡ b
      → attempt ≡ total
      → fn attempt ≡ err x
      → IsDecided fn total delay attempt 0 (
          after_failure fn total delay attempt x
            (gives_up fn total delay attempt x (error_giving_up attempt total))
            b)
  last_failure-IsDecided attempt x true f at_end e =
      gives_up-IsDecided attempt 0 x (error_deterministic attempt total) e (inl (f, refl))
  last_failure-IsDecided attempt x false f at_end e =
      gives_up-IsDecided attempt 0 x (error_giving_up attempt total) e (inr (f, at_end, refl))

  last_attempt-IsDecided :
      (attempt : ℕ) (r : Result Failure T)
      → fn attempt ≡ r
      → attempt ≡ total
      → IsDecided fn total delay attempt 0 (last_attempt fn total delay attempt r)
  last_attempt-IsDecided attempt (ok value) e at_end = success-IsDecided attempt 0 value e
  last_attempt-IsDecided attempt (err x) e at_end =
      last_failure-IsDecided attempt x (is_deterministic_failure x) refl at_end e

  failure-IsDecided :
      (attempt left : ℕ) (x : Failure) (later : Outcome T) (b : Bool)
      → is_deterministic_failure x ≡ b
      → fn attempt ≡ err x
      → IsDecided fn total delay (attempt + 1) left later
      → IsDecided fn total delay attempt
          (suc left)
          (after_failure fn total delay attempt x (after_warning fn total delay attempt later) b)
  failure-IsDecided attempt left x later true f e d =
      gives_up-IsDecided attempt (suc left) x (error_deterministic attempt total) e (inl (f, refl))
  failure-IsDecided attempt left x later false f e d =
      after_warning-IsDecided attempt left x later e f d

  after_attempt-IsDecided :
      (attempt left : ℕ) (later : Outcome T) (r : Result Failure T)
      → fn attempt ≡ r
      → IsDecided fn total delay (attempt + 1) left later
      → IsDecided fn total delay attempt
          (suc left)
          (after_attempt fn total delay attempt (after_warning fn total delay attempt later) r)
  after_attempt-IsDecided attempt left later (ok value) e d =
      success-IsDecided attempt (suc left) value e
  after_attempt-IsDecided attempt left later (err x) e d =
      failure-IsDecided attempt left x later (is_deterministic_failure x) refl e d

  attempts_from-IsDecided :
      (attempt left : ℕ)
      → attempt + left ≡ total
      → IsDecided fn total delay attempt left (attempts_from fn total delay attempt left)
  unfolding attempts_from
  attempts_from-IsDecided attempt zero h =
      last_attempt-IsDecided attempt (fn attempt) refl (omega (arith, h))
  attempts_from-IsDecided attempt (suc left) h =
      after_attempt-IsDecided attempt left (attempts_from fn total delay (attempt + 1) left)
        (fn attempt) refl (attempts_from-IsDecided (attempt + 1) left (omega (arith, h)))

-- `withRetry` runs the operation at least once and at most `maxRetries + 1` times and answers with the
-- last run's result: each run before it failed with an error that is not deterministic; the last one
-- succeeded, or failed with a deterministic error, or was the last allowed. The log has one warning with a
-- sleep of the delay times the attempt for each retry, and ends with one error line exactly if it fails.
pub with_retry-IsDecided :
    {T : Type 0} (fn : ℕ → Result Failure T) (options : RetryOptions)
    → IsDecided fn
        (max_retries_of options + 1)
        (delay_of options)
        1
        (max_retries_of options)
        (with_retry fn options)
unfolding with_retry
with_retry-IsDecided fn options =
    attempts_from-IsDecided fn (max_retries_of options + 1) (delay_of options) 1
      (max_retries_of options) (omega arith)
