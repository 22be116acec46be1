-- ===== src/Sdk/Inbox/Replay.antt =====
-- Replay protection over a run of deliveries to one `MessageInbox` of sdk/src/messaging/envelope.ts.
use scalar_commons_v.Base.{
  Option, none, ℕ, ◌<◌, ◌≤◌, ◌≡◌, refl, ◌∙◌, some, List, [], ◌∷◌, Bool-cases, lookup, lookup-insert,
  pair_keys, bytes_keys, All, arith, inl, inr, ◌==◌, same_pair_iff,
}
use scalar_commons_v.Base.Results.{Result, ok, err}
use scalar_commons_v.Sdk.Bytes.{Bytes}
use scalar_commons_v.Sdk.Nonces.{NonceTracker, commit}
use scalar_commons_v.Sdk.Inbox.{
  Platform, Inbox, Refusal, ReceiveOptions, ReceivedMessage, check, receive, settle,
}
use scalar_commons_v.Sdk.Inbox.Genuine.{IsAbove}
use scalar_commons_v.Sdk.Inbox.Sound.{receive-IsGenuine}

abbrev pub Delivery : Type 0
Delivery = Bytes × ℕ × ReceiveOptions

abbrev accepted_then : Result Refusal ReceivedMessage → List ReceivedMessage → List ReceivedMessage
accepted_then (err x) later = later
accepted_then (ok r) later = r ∷ later

-- The messages that an inbox accepts of a sequence of deliveries, in order.
unfoldable pub accepted : Platform → Inbox → NonceTracker → List Delivery → List ReceivedMessage
accepted p inbox seen [] = []
accepted p inbox seen ((bytes, block, opts) ∷ later) =
    let (seen', result) = receive p inbox seen bytes block opts in
    accepted_then result (accepted p inbox seen' later)

abbrev pub channel : ReceivedMessage → Bytes × Bytes
channel r = (r.envelope.from, r.envelope.to)

-- Every nonce of the channel in the list is above `n`.
abbrev AllAbove : Bytes × Bytes → ℕ → List ReceivedMessage → Type 0
AllAbove k n messages = All (λ r. channel r ≡ k → n < r.envelope.nonce) messages

-- Of two messages of one channel the later has the greater nonce.
abbrev pub IsOrdered : List ReceivedMessage → Type 0
IsOrdered [] = Unit {0}
IsOrdered (r ∷ later) = AllAbove (channel r) r.envelope.nonce later × IsOrdered later

above_last : (o : Option ℕ) (n last : ℕ) → IsAbove o n → o ≡ some last → last < n
above_last none n last h e = cc
above_last (some m) n last h e = ground (arith, h)

commit_above :
    (seen : NonceTracker) (r : ReceivedMessage) (k : Bytes × Bytes) (last : ℕ)
    → lookup k seen ≡ some last
    → (channel r ≡ k → last < r.envelope.nonce)
    → (last' : ℕ) × (last ≤ last') × (lookup k (settle seen (ok r)) ≡ some last')
unfolding commit
commit_above seen r k last found above = elim (Bool-cases (channel r == k)) [
  | inl hit ↦ (
    r.envelope.nonce,
    ground (arith, above ((same_pair_iff (channel r) k).0 hit)),
    lookup-insert k (channel r) r.envelope.nonce seen ∙ rw hit refl,
  )
  | inr miss ↦
      (last, ground arith, lookup-insert k (channel r) r.envelope.nonce seen ∙ rw miss found)
]

module _ (p : Platform) (inbox : Inbox) where
  accepted_then-AllAbove :
      (o : Result Refusal ReceivedMessage) (seen : NonceTracker) (ds : List Delivery)
      (k : Bytes × Bytes) (n last : ℕ)
      → ((r : ReceivedMessage) → o ≡ ok r → channel r ≡ k → last < r.envelope.nonce)
      → ((seen' : NonceTracker) (last' : ℕ)
          → lookup k seen' ≡ some last'
          → n ≤ last'
          → AllAbove k n (accepted p inbox seen' ds))
      → lookup k seen ≡ some last
      → n ≤ last
      → AllAbove k n (accepted_then o (accepted p inbox (settle seen o) ds))
  accepted_then-AllAbove (err x) seen ds k n last above later found le = later seen last found le
  accepted_then-AllAbove (ok r) seen ds k n last above later found le =
      let (last', le', found') = commit_above seen r k last found (above r refl) in
      (
        λ same. ground (arith, above r refl same, le),
        later (settle seen (ok r)) last' found' (omega arith),
      )

  accepted_above :
      (ds : List Delivery) (seen : NonceTracker) (k : Bytes × Bytes) (n last : ℕ)
      → lookup k seen ≡ some last
      → n ≤ last
      → AllAbove k n (accepted p inbox seen ds)
  unfolding accepted receive
  accepted_above [] seen k n last found le = tt
  accepted_above ((bytes, block, opts) ∷ ds) seen k n last found le =
      accepted_then-AllAbove (check p inbox seen bytes block opts) seen ds k n last
        (λ r e same.
          above_last (lookup (channel r) seen) r.envelope.nonce last
            (receive-IsGenuine p inbox seen bytes block opts r e).above (rw same found))
        (λ seen' last' found' le'. accepted_above ds seen' k n last' found' le') found le

  accepted_then-IsOrdered :
      (o : Result Refusal ReceivedMessage) (seen : NonceTracker) (ds : List Delivery)
      → ((seen' : NonceTracker) → IsOrdered (accepted p inbox seen' ds))
      → IsOrdered (accepted_then o (accepted p inbox (settle seen o) ds))
  unfolding commit
  accepted_then-IsOrdered (err x) seen ds later = later seen
  accepted_then-IsOrdered (ok r) seen ds later =
      let n = r.envelope.nonce in
      (
        accepted_above ds (settle seen (ok r)) (channel r) n n
            (lookup-insert (channel r) (channel r) n seen
              ∙ rw ((same_pair_iff (channel r) (channel r)).1 refl) refl)
            (omega arith),
        later (settle seen (ok r)),
      )

  -- Over any sequence of deliveries to one inbox, from any tracker and at any blocks, the messages
  -- accepted from a sender to a recipient have strictly increasing nonces. So no envelope is
  -- accepted twice.
  pub accepted-IsOrdered :
      (ds : List Delivery) (seen : NonceTracker) → IsOrdered (accepted p inbox seen ds)
  unfolding accepted receive
  accepted-IsOrdered [] seen = tt
  accepted-IsOrdered ((bytes, block, opts) ∷ ds) seen =
      accepted_then-IsOrdered (check p inbox seen bytes block opts) seen ds (accepted-IsOrdered ds)
