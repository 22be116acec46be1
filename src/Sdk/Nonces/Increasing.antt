-- ===== src/Sdk/Nonces/Increasing.antt =====
-- Outbound nonces increase per recipient, whatever the clock does.
use scalar_commons_v.Base.{
  ℕ, ◌<◌, ◌≤◌, ◌≡◌, refl, some, List, [], ◌∷◌, lookup, bytes_keys, lookup-insert, same_bytes,
  same_bytes_iff, All, arith, Bool-cases, inl, inr, ◌∙◌,
}
use scalar_commons_v.Sdk.Bytes.{Bytes}
use scalar_commons_v.Sdk.Nonces.{OutboundNonces, next}

-- The nonces issued by a process for a sequence of recipients and clock readings.
unfoldable pub issue : OutboundNonces → List (Bytes × ℕ) → List (Bytes × ℕ)
issue issued [] = []
issue issued ((to, now_ms) ∷ calls) =
    let (issued', n) = next issued to now_ms in (to, n) ∷ issue issued' calls

-- Of two nonces for one recipient the later is greater.
abbrev pub IsIncreasing : List (Bytes × ℕ) → Type 0
IsIncreasing [] = Unit {0}
IsIncreasing ((to, n) ∷ later) = All (λ m. m.0 ≡ to → n < m.1) later × IsIncreasing later

-- All that is issued after `n` went to a recipient is above `n`.
issue_above :
    (issued : OutboundNonces) (calls : List (Bytes × ℕ)) (to : Bytes) (n p : ℕ)
    → lookup to issued ≡ some p
    → n ≤ p
    → All (λ m. m.0 ≡ to → n < m.1) (issue issued calls)
unfolding issue next
issue_above issued [] to n p e h = tt
issue_above issued ((to', now_ms) ∷ calls) to n p e h = elim (Bool-cases (same_bytes to' to)) [
  | inl hit ↦
      let same = (same_bytes_iff to' to).0 hit in
      let found : lookup to' issued ≡ some p = rw same e in
      (
        λ _. rw found (ground arith),
        issue_above (next issued to' now_ms).0 calls to n (next issued to' now_ms).1
            (lookup-insert to to' (next issued to' now_ms).1 issued ∙ rw hit)
            (rw found (ground arith)),
      )
  | inr miss ↦ (
    λ same. absurd (ground (arith, (same_bytes_iff to' to).1 same)),
    issue_above (next issued to' now_ms).0 calls to n p
        (lookup-insert to to' (next issued to' now_ms).1 issued ∙ rw miss e) h,
  )
]

-- The nonces that one process issues strictly increase for each recipient, for any readings of the
-- clock, also one that stands still or steps back.
pub issue-IsIncreasing :
    (issued : OutboundNonces) (calls : List (Bytes × ℕ)) → IsIncreasing (issue issued calls)
unfolding issue next
issue-IsIncreasing issued [] = tt
issue-IsIncreasing issued ((to, now_ms) ∷ calls) =
    let (issued', n) = next issued to now_ms in
    (
      issue_above issued' calls to n n
          (lookup-insert to to n issued ∙ rw ((same_bytes_iff to to).1 refl)) (omega arith),
      issue-IsIncreasing issued' calls,
    )
