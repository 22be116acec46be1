-- ===== src/Sdk/Subscription/Complete.antt =====
-- Each message of a finalized block is handed over once, in order, and none is missed.
use scalar_commons_v.Base.{
  ℕ, zero, suc, ◌+◌, ◌≡◌, Bool, true, Option, none, some, List, [], ◌++◌, ◌⊎◌,
}
use scalar_commons_v.Sdk.Bytes.{Bytes}
use scalar_commons_v.Sdk.Inbox.{Platform}
use scalar_commons_v.Sdk.Subscription.Messages.{frames, Carries}
use scalar_commons_v.Sdk.Subscription.{Block, InboundFrame, Output, Head, scan_read}

-- A finalized block does not change: the node fails, or answers with the block of the chain.
abbrev pub IsFinal : (ℕ → Block) → Head → Type 0
IsFinal chain head = (n : ℕ) → (head.read n ≡ none) ⊎ (head.read n ≡ some (chain n))

module _ (p : Platform) (me : Bytes) (ss58 : ℕ) (throws : InboundFrame → Bool)
    (chain : ℕ → Block) where
  -- The messages of one block, by its scan.
  abbrev messages_of : ℕ → List InboundFrame
  messages_of n = frames (scan_read p me ss58 throws n (some (chain n))).0

  abbrev messages_from : (number count : ℕ) → List InboundFrame
  messages_from number zero = []
  messages_from number (suc count) = messages_of number ++ messages_from (number + 1) count

  -- `fs` are the messages that the `count` blocks from `first` on carry, block by block.
  pub CarriesFrom : (first count : ℕ) → List InboundFrame → Type 0
  CarriesFrom first zero fs = fs ≡ []
  CarriesFrom first (suc count) fs =
      (here : List InboundFrame) × (later : List InboundFrame) × (fs ≡ here ++ later)
      × Carries p me ss58 throws first (chain first) (chain first).events here
      × CarriesFrom (first + 1) count later

  -- Every address in the blocks decodes, so no scan is cut off.
  abbrev pub IsWellFormed : Type 0
  IsWellFormed = (n : ℕ) → (scan_read p me ss58 throws n (some (chain n))).1 ≡ true

  -- The node answers every request while this head is handled.
  abbrev pub IsServed : Head → Type 0
  IsServed head = (n : ℕ) → head.read n ≡ some (chain n)

  -- From block `first` on, the messages of the next `count` blocks were handed over, and no other.
  record Hands (first count : ℕ) (out : Option ℕ × List Output) : Type 0 where
    next : out.0 ≡ some (first + count)
    messages : frames out.1 ≡ messages_from first count
