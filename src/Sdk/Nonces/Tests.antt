-- ===== src/Sdk/Nonces/Tests.antt =====
-- A run of the outbound nonces with a clock that steps back.
use scalar_commons_v.Base.{ℕ, ◌≡◌, refl, List, [], ◌∷◌, lookup, insert, bytes_keys}
use scalar_commons_v.Sdk.Bytes.{Bytes}
use scalar_commons_v.Sdk.Nonces.{next}
use scalar_commons_v.Sdk.Nonces.Increasing.{issue, IsIncreasing, issue-IsIncreasing}

abbrev calls : List (Bytes × ℕ)
calls = (1 ∷ [], 5) ∷ (1 ∷ [], 4) ∷ (2 ∷ [], 4) ∷ (1 ∷ [], 6) ∷ []

calls_issued :
    issue [] calls ≡ ((1 ∷ [], 5000) ∷ (1 ∷ [], 5001) ∷ (2 ∷ [], 4000) ∷ (1 ∷ [], 6000) ∷ [])
unfolding issue next lookup insert
calls_issued = refl

issue-IsIncreasing_example : IsIncreasing (issue [] calls)
issue-IsIncreasing_example = issue-IsIncreasing [] calls
