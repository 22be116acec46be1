-- ===== src/Sdk/Subscription/Tests.antt =====
-- Heads that skip blocks, and blocks that fail once.
use scalar_commons_v.Base.{
  ℕ, ◌≡◌, refl, Bool, false, none, some, List, [], ◌∷◌, map, eqb, if◌then◌else◌,
}
use scalar_commons_v.Sdk.Bytes.{Bytes}
use scalar_commons_v.Sdk.Outbox.{decode_send_call, kind_of_name}
use scalar_commons_v.Sdk.Sample.{sample_platform}
use scalar_commons_v.Sdk.Subscription.{
  Extrinsic, EventRecord, Block, InboundFrame, Head, scan_event, scan_events, scan_from, on_head,
  subscribe,
}
use scalar_commons_v.Sdk.Subscription.Messages.{frames}

-- Every block carries one message from account 1 to account 2.
abbrev extrinsic : Extrinsic
extrinsic = record {
  section = "messages";
  method = "send";
  arguments = record {
    to = "11|";
    kind = "Offer";
    agreement = none;
    payload_hash = none;
    payload = 5 ∷ [];
  };
  signer = "1|";
}

abbrev event : EventRecord
event = record {
  section = "messages";
  method = "MessageSent";
  applied_to = some 0;
  from = some "1|";
  to = some "11|";
}

abbrev chain : ℕ → Block
chain n = record { hash = "0x1"; extrinsics = extrinsic ∷ []; events = event ∷ [] }

abbrev me : Bytes
me = 2 ∷ []

abbrev patient : InboundFrame → Bool
patient f = false

abbrev served : ℕ → Head
served n = record { number = n; read = λ m. some (chain m) }

-- The node does not answer for one block.
abbrev failing : ℕ → ℕ → Head
failing n bad = record { number = n; read = λ m. if eqb m bad then none else some (chain m) }

numbers : List InboundFrame → List ℕ
numbers = map (λ (f : InboundFrame). f.block_number)

retried :
    numbers
      (frames (subscribe sample_platform me 42 patient (failing 5 4 ∷ (served 7 ∷ [])) (some 3)).1)
    ≡ (3 ∷ 4 ∷ 5 ∷ 6 ∷ 7 ∷ [])
unfolding numbers subscribe on_head scan_from scan_events scan_event decode_send_call kind_of_name
retried = refl

-- Without a first block to start from, a failure at the first head is not retried: block 5 is lost.
first_head_lost :
    numbers
      (frames (subscribe sample_platform me 42 patient (failing 5 5 ∷ (served 6 ∷ [])) none).1)
    ≡ (6 ∷ [])
unfolding numbers subscribe on_head scan_from scan_events scan_event decode_send_call kind_of_name
first_head_lost = refl
