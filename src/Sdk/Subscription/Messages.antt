-- ===== src/Sdk/Subscription/Messages.antt =====
-- The messages to an account that a block carries, told from the chain's records.
use scalar_commons_v.Base.{
  ℕ, ◌≡◌, refl, ap, Bool, some, String, List, [], ◌∷◌, ◌++◌, ◌⊎◌, get_elem?, string_keys,
}
use scalar_commons_v.Base.Results.{ok}
use scalar_commons_v.Sdk.Bytes.{Bytes}
use scalar_commons_v.Sdk.Inbox.{Platform}
use scalar_commons_v.Sdk.Outbox.{decode_send_call}
use scalar_commons_v.Sdk.Subscription.{
  Extrinsic, EventRecord, Block, InboundFrame, Output, handled, no_matching_send, bad_arguments,
  handler_threw, unreadable,
}

-- The calls of the handler.
abbrev pub frames : List Output → List InboundFrame
frames [] = []
frames (handled f ∷ outputs) = f ∷ frames outputs
frames (no_matching_send block index ∷ outputs) = frames outputs
frames (bad_arguments block index ∷ outputs) = frames outputs
frames (handler_threw f ∷ outputs) = frames outputs
frames (unreadable block ∷ outputs) = frames outputs

pub frames-append : (xs ys : List Output) → frames (xs ++ ys) ≡ frames xs ++ frames ys
frames-append [] ys = refl
frames-append (handled f ∷ xs) ys = ap (◌∷◌ f) (frames-append xs ys)
frames-append (no_matching_send block index ∷ xs) ys = frames-append xs ys
frames-append (bad_arguments block index ∷ xs) ys = frames-append xs ys
frames-append (handler_threw f ∷ xs) ys = frames-append xs ys
frames-append (unreadable block ∷ xs) ys = frames-append xs ys

module _ (p : Platform) (me : Bytes) (ss58 : ℕ) (throws : InboundFrame → Bool) where
  -- The event reports a message to this account, sent by the extrinsic that it was emitted for, and the frame
  -- is that of the call, with its place.
  pub record IsMessage (number : ℕ) (block : Block) (e : EventRecord) (f : InboundFrame)
      : Type 0 where
    pub section : e.section ≡ "messages"
    pub method : e.method ≡ "MessageSent"
    pub applied_to : e.applied_to ≡ some f.extrinsic_index
    pub from : String
    pub to : String
    pub sender : Bytes
    pub signer : Bytes
    pub extrinsic : Extrinsic
    pub reported : (e.from ≡ some from) × (e.to ≡ some to)
    pub to_me : p.decode_address to ≡ some me
    pub by : p.decode_address from ≡ some sender
    pub origin : f.origin ≡ p.encode_address sender ss58
    pub at : get_elem? block.extrinsics f.extrinsic_index ≡ some extrinsic
    pub sends : (extrinsic.section ≡ "messages") × (extrinsic.method ≡ "send")
    pub signed : p.decode_address extrinsic.signer ≡ some signer
    pub same_signer : p.decode_address f.origin ≡ some signer
    pub decodes : decode_send_call p extrinsic.arguments f.origin ≡ ok (f.call, f.frame)
    pub block_number : f.block_number ≡ number
    pub block_hash : f.block_hash ≡ block.hash

  -- `fs` are the messages that these events of the block report, one for each such event, in their order.
  unfoldable pub Carries : ℕ → Block → List EventRecord → List InboundFrame → Type 0
  Carries number block [] fs = fs ≡ []
  Carries number block (e ∷ events) fs =
      ((f : InboundFrame) × (rest : List InboundFrame) × IsMessage number block e f
        × (fs ≡ f ∷ rest)
        × Carries number block events rest)
      ⊎ (((f : InboundFrame) → ¬ (IsMessage number block e f)) × Carries number block events fs)
