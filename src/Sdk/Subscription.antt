-- ===== src/Sdk/Subscription.antt =====
-- `subscribeMessages` of sdk/src/messaging/transport.ts: the scan of a finalized block for messages to this
-- account, and the queue of finalized heads. The queue runs one head at a time, so a run is a list of
-- heads, each with what the node answers to block requests while it is handled.
pub mod Carried
pub mod Complete
pub mod Messages
mod Tests
use scalar_commons_v.Base.{
  ℕ, zero, suc, ◌+◌, ◌-◌, ◌≡◌, Bool, true, false, not, ◌&&◌, ◌||◌, Option, none, some, String, List,
  [], ◌∷◌, ◌++◌, get_elem?, if◌then◌else◌, same_bytes, ◌==◌, string_keys,
}
use scalar_commons_v.Base.Results.{Result, ok, err}
use scalar_commons_v.Sdk.Bytes.{Bytes}
use scalar_commons_v.Sdk.Inbox.{Platform, Refusal, OnChainCall}
use scalar_commons_v.Sdk.Outbox.{SendExtrinsic, decode_send_call}

-- One extrinsic of a block; the arguments are read only of `messages.send`.
pub record Extrinsic : Type 0 where
  pub section : String
  pub method : String
  pub arguments : SendExtrinsic
  pub signer : String

-- One event record: `applied_to` is the extrinsic of an ApplyExtrinsic phase, `from` and `to` the first
-- two values of its data.
pub record EventRecord : Type 0 where
  pub section : String
  pub method : String
  pub applied_to : Option ℕ
  pub from : Option String
  pub to : Option String

pub record Block : Type 0 where
  pub hash : String
  pub extrinsics : List Extrinsic
  pub events : List EventRecord

pub record InboundFrame : Type 0 where
  pub frame : Bytes
  pub origin : String
  pub call : OnChainCall
  pub block_number : ℕ
  pub block_hash : String
  pub extrinsic_index : ℕ

-- What the subscription does: a call of the handler, or of `onError`.
pub data Output : Type 0 where
  handled : InboundFrame → Output
  no_matching_send : (block index : ℕ) → Output
  bad_arguments : (block index : ℕ) → Output
  handler_threw : InboundFrame → Output
  unreadable : (block : ℕ) → Output

-- One finalized head, and the node's answers while it is handled; `none` is a failed request.
pub record Head : Type 0 where
  pub number : ℕ
  pub read : ℕ → Option Block

module _ (p : Platform) (me : Bytes) (ss58 : ℕ) (throws : InboundFrame → Bool) where
  abbrev pub is_message_sent : EventRecord → Bool
  is_message_sent e = e.section == "messages" && e.method == "MessageSent"

  -- `await handler(frame)` in its try.
  abbrev pub deliver : InboundFrame → List Output
  deliver f = if throws f then handled f ∷ (handler_threw f ∷ []) else handled f ∷ []

  abbrev pub decoded :
      (number : ℕ)
      → Block
      → (index : ℕ) → String
      → Result Refusal (OnChainCall × Bytes)
      → List Output
  decoded number block index origin (err refusal) = bad_arguments number index ∷ []
  decoded number block index origin (ok (call, frame)) = deliver (record {
    frame = frame;
    origin = origin;
    call = call;
    block_number = number;
    block_hash = block.hash;
    extrinsic_index = index;
  })

  -- `none` is a throw out of the scan, from an address that does not decode.
  abbrev pub signed_by :
      (number : ℕ)
      → Block
      → (index : ℕ) → String
      → Extrinsic
      → (signer sender : Option Bytes) → Option (List Output)
  signed_by number block index origin x (some signer) (some sender) = some (
      if same_bytes signer sender
      then decoded number block index origin (decode_send_call p x.arguments origin)
      else no_matching_send number index ∷ [])
  signed_by number block index origin x none sender = none
  signed_by number block index origin x (some signer) none = none

  abbrev pub matched :
      (number : ℕ) → Block → (index : ℕ) → String → Option Extrinsic → Option (List Output)
  matched number block index origin none = some (no_matching_send number index ∷ [])
  matched number block index origin (some x) =
      if x.section == "messages" && x.method == "send"
      then signed_by number block index origin x (p.decode_address x.signer)
          (p.decode_address origin)
      else some (no_matching_send number index ∷ [])

  abbrev pub from_sender : (number : ℕ) → Block → (index : ℕ) → Option Bytes → Option (List Output)
  from_sender number block index none = none
  from_sender number block index (some sender) =
      matched number block index (p.encode_address sender ss58) (get_elem? block.extrinsics index)

  abbrev pub to_recipient :
      (number : ℕ) → Block → (index : ℕ) → String → Option Bytes → Option (List Output)
  to_recipient number block index from none = none
  to_recipient number block index from (some recipient) =
      if same_bytes recipient me
      then from_sender number block index (p.decode_address from)
      else some []

  abbrev pub sent :
      (number : ℕ) → Block → Option ℕ → (from to : Option String) → Option (List Output)
  sent number block (some index) (some from) (some to) =
      to_recipient number block index from (p.decode_address to)
  sent number block none from to = some []
  sent number block (some index) none to = some []
  sent number block (some index) (some from) none = some []

  unfoldable pub scan_event : ℕ → Block → EventRecord → Option (List Output)
  scan_event number block e =
      if is_message_sent e then sent number block e.applied_to e.from e.to else some []

  -- What a throw leaves: the outputs before it.
  abbrev pub then_events : Option (List Output) → List Output × Bool → List Output × Bool
  then_events none rest = ([], false)
  then_events (some here) (later, finished) = (here ++ later, finished)

  unfoldable pub scan_events : ℕ → Block → List EventRecord → List Output × Bool
  scan_events number block [] = ([], true)
  scan_events number block (e ∷ events) =
      then_events (scan_event number block e) (scan_events number block events)

  abbrev pub scan_read : ℕ → Option Block → List Output × Bool
  scan_read number none = ([], false)
  scan_read number (some block) = scan_events number block block.events

  -- A block that could not be read ends the loop, with `next` as it was.
  abbrev pub after_scan :
      ℕ → Option ℕ → List Output × Bool → Option ℕ × List Output → Option ℕ × List Output
  after_scan number next (here, true) (next', later) = (next', here ++ later)
  after_scan number next (here, false) rest = (next, here ++ (unreadable number ∷ []))

  -- The loop from `number` on, for the number of blocks that are left.
  unfoldable pub scan_from :
      (ℕ → Option Block) → (number left : ℕ) → Option ℕ → Option ℕ × List Output
  scan_from read number zero next = (next, [])
  scan_from read number (suc left) next =
      after_scan number next (scan_read number (read number))
        (scan_from read (number + 1) left (some (number + 1)))

  abbrev pub or_head : Option ℕ → ℕ → ℕ
  or_head none head = head
  or_head (some next) head = next

  unfoldable pub on_head : Head → Option ℕ → Option ℕ × List Output
  on_head head next =
      let first = or_head next head.number in
      scan_from head.read first (head.number + 1 - first) next

  abbrev pub then_heads :
      Option ℕ × List Output → (Option ℕ → Option ℕ × List Output) → Option ℕ × List Output
  then_heads (next, here) rest = ((rest next).0, here ++ (rest next).1)

  -- The subscription over a list of heads.
  unfoldable pub subscribe : List Head → Option ℕ → Option ℕ × List Output
  subscribe [] next = (next, [])
  subscribe (head ∷ heads) next = then_heads (on_head head next) (subscribe heads)
