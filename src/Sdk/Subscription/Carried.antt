-- ===== src/Sdk/Subscription/Carried.antt =====
-- The scan of a block finds the messages that the block carries.
use mathlib.Core.Option.{some_inj}
use scalar_commons_v.Base.{
  ℕ, ◌≡◌, refl, sym, ap, ◌∙◌, Bool, true, false, Option, none, some, String, List, [], ◌∷◌, ◌++◌,
  ◌⊎◌, inl, inr, ◌&&◌, Bool-cases, get_elem?, same_bytes, same_bytes_iff, ◌==◌, string_keys,
}
use scalar_commons_v.Base.Results.{Result, ok, err}
use scalar_commons_v.Sdk.Bytes.{Bytes}
use scalar_commons_v.Sdk.Inbox.{Platform, Refusal, OnChainCall}
use scalar_commons_v.Sdk.Outbox.{decode_send_call}
use scalar_commons_v.Sdk.Subscription.{
  Extrinsic, EventRecord, Block, InboundFrame, Output, is_message_sent, deliver, decoded, signed_by,
  matched, to_recipient, sent, scan_event, then_events, scan_events,
}
use scalar_commons_v.Sdk.Subscription.Messages.{frames, frames-append, IsMessage, Carries}

module _ (p : Platform) (me : Bytes) (ss58 : ℕ) (throws : InboundFrame → Bool) where
  equal_true : (a b : String) → a ≡ b → (a == b) ≡ true
  equal_true a b h = (string_keys.same_iff a b).1 h

  same_true : (a b : Bytes) → a ≡ b → same_bytes a b ≡ true
  same_true a b h = (same_bytes_iff a b).1 h

  -- The scan of such an event hands the frame over.
  scan_event-IsMessage :
      (number : ℕ) (block : Block) (e : EventRecord) (f : InboundFrame)
      → IsMessage p me ss58 throws number block e f
      → scan_event p me ss58 throws number block e ≡ some (deliver p me ss58 throws f)
  unfolding scan_event
  scan_event-IsMessage number block e f h =
      rw
        (
          equal_true e.section "messages" h.section,
          equal_true e.method "MessageSent" h.method,
          h.applied_to,
          h.reported.0,
          h.reported.1,
          h.to_me,
          same_true me me refl,
          h.by,
          sym h.origin,
          h.at,
          equal_true h.extrinsic.section "messages" h.sends.0,
          equal_true h.extrinsic.method "send" h.sends.1,
          h.signed,
          h.same_signer,
          same_true h.signer h.signer refl,
          h.decodes,
        )
        (rw (sym h.block_number, sym h.block_hash) refl)

  -- The handler is called for no message, or for the one that the event reports.
  abbrev Found : ℕ → Block → EventRecord → List Output → Type 0
  Found number block e outs =
      (frames outs ≡ [])
      ⊎ ((f : InboundFrame) × IsMessage p me ss58 throws number block e f × (frames outs ≡ f ∷ []))

  quiet :
      {number : ℕ} {block : Block} {e : EventRecord} {outs here : List Output}
      → ◌≡◌ {A = Option (List Output)} (some here) (some outs)
      → frames here ≡ []
      → Found number block e outs
  quiet same none_here = inl (ap frames (sym (some_inj.0 same)) ∙ none_here)

  frames-deliver : (f : InboundFrame) → frames (deliver p me ss58 throws f) ≡ f ∷ []
  frames-deliver f = elim (Bool-cases (throws f)) [ inl t ↦ rw t refl | inr n ↦ rw n refl ]

  both_true : (a b : Bool) → (a && b) ≡ true → (a ≡ true) × (b ≡ true)
  both_true true b h = (refl, h)
  both_true false b h = cc

  equal_names : (a b c d : String) → (a == b && c == d) ≡ true → (a ≡ b) × (c ≡ d)
  equal_names a b c d h =
      let (ab, cd) = both_true (a == b) (c == d) h in
      ((string_keys.same_iff a b).0 ab, (string_keys.same_iff c d).0 cd)

  module _ (number : ℕ) (block : Block) (e : EventRecord) (outs : List Output)
      (is_sent : (e.section ≡ "messages") × (e.method ≡ "MessageSent")) where
    matched-Found :
        (index : ℕ) (from to : String) (sender : Bytes) (x : Option Extrinsic)
        → e.applied_to ≡ some index
        → (e.from ≡ some from) × (e.to ≡ some to)
        → p.decode_address to ≡ some me
        → p.decode_address from ≡ some sender
        → get_elem? block.extrinsics index ≡ x
        → matched p me ss58 throws number block index (p.encode_address sender ss58) x ≡ some outs
        → Found number block e outs
    matched-Found index from to sender none applied reported to_me by at h = quiet h refl
    matched-Found index from to sender (some x) applied reported to_me by at h =
        elim (Bool-cases (x.section == "messages" && x.method == "send")) [
          | inr other ↦ quiet (rw other at h) refl
          | inl sends ↦
              signed_by_cases (p.decode_address x.signer)
                (p.decode_address (p.encode_address sender ss58)) refl refl (rw sends at h)
                (equal_names x.section "messages" x.method "send" sends)
        ]
      where
        origin : String
        origin = p.encode_address sender ss58

        decoded_cases :
            (signer : Bytes) (r : Result Refusal (OnChainCall × Bytes))
            → (x.section ≡ "messages") × (x.method ≡ "send")
            → p.decode_address x.signer ≡ some signer
            → p.decode_address origin ≡ some signer
            → decode_send_call p x.arguments origin ≡ r
            → ◌≡◌ {A = Option (List Output)}
                (some (decoded p me ss58 throws number block index origin r))
                (some outs)
            → Found number block e outs
        decoded_cases signer (err refusal) sends a b d h = quiet h refl
        decoded_cases signer (ok (call, frame)) sends a b d h =
            let f : InboundFrame = record {
              frame = frame;
              origin = origin;
              call = call;
              block_number = number;
              block_hash = block.hash;
              extrinsic_index = index;
            } in
            inr (
              f,
              record {
                section = is_sent.0;
                method = is_sent.1;
                applied_to = applied;
                from = from;
                to = to;
                sender = sender;
                signer = signer;
                extrinsic = x;
                reported = reported;
                to_me = to_me;
                by = by;
                origin = refl;
                at = at;
                sends = sends;
                signed = a;
                same_signer = b;
                decodes = d;
                block_number = refl;
                block_hash = refl;
              },
              ap frames (sym (some_inj.0 h)) ∙ frames-deliver f,
            )

        signed_by_cases :
            (a b : Option Bytes)
            → p.decode_address x.signer ≡ a
            → p.decode_address origin ≡ b
            → signed_by p me ss58 throws number block index origin x a b ≡ some outs
            → (x.section ≡ "messages") × (x.method ≡ "send")
            → Found number block e outs
        signed_by_cases none b ea eb h sends = cc
        signed_by_cases (some signer) none ea eb h sends = cc
        signed_by_cases (some signer) (some other) ea eb h sends =
            elim (Bool-cases (same_bytes signer other)) [
              | inr differ ↦ quiet (rw differ at h) refl
              | inl same ↦
                  decoded_cases signer (decode_send_call p x.arguments origin) sends ea
                    (eb ∙ ap some (sym ((same_bytes_iff signer other).0 same))) refl (rw same at h)
            ]

    to_recipient-Found :
        (index : ℕ) (from to : String) (recipient sender : Option Bytes)
        → e.applied_to ≡ some index
        → (e.from ≡ some from) × (e.to ≡ some to)
        → p.decode_address to ≡ recipient
        → p.decode_address from ≡ sender
        → to_recipient p me ss58 throws number block index from recipient ≡ some outs
        → Found number block e outs
    to_recipient-Found index from to none sender applied reported to_me by h = cc
    to_recipient-Found index from to (some recipient) none applied reported to_me by h =
        elim (Bool-cases (same_bytes recipient me)) [
          | inr other ↦ quiet (rw other at h) refl
          | inl mine ↦ cc (rw (mine, by) at h)
        ]
    to_recipient-Found index from to (some recipient) (some sender) applied reported to_me by h =
        elim (Bool-cases (same_bytes recipient me)) [
          | inr other ↦ quiet (rw other at h) refl
          | inl mine ↦
              matched-Found index from to sender (get_elem? block.extrinsics index) applied reported
                (to_me ∙ ap some ((same_bytes_iff recipient me).0 mine)) by refl
                (rw (mine, by) at h)
        ]

    sent-Found :
        (index : Option ℕ) (from to : Option String)
        → e.applied_to ≡ index
        → e.from ≡ from
        → e.to ≡ to
        → sent p me ss58 throws number block index from to ≡ some outs
        → Found number block e outs
    sent-Found (some index) (some from) (some to) applied ef et h =
        to_recipient-Found index from to (p.decode_address to) (p.decode_address from) applied
          (ef, et) refl refl h
    sent-Found none from to applied ef et h = quiet h refl
    sent-Found (some index) none to applied ef et h = quiet h refl
    sent-Found (some index) (some from) none applied ef et h = quiet h refl

  scan_event-Found :
      (number : ℕ) (block : Block) (e : EventRecord) (outs : List Output)
      → scan_event p me ss58 throws number block e ≡ some outs
      → Found number block e outs
  unfolding scan_event
  scan_event-Found number block e outs h = elim (Bool-cases (is_message_sent p me ss58 throws e)) [
    | inr other ↦ quiet (rw other at h) refl
    | inl is_sent ↦
        sent-Found number block e outs
          (equal_names e.section "messages" e.method "MessageSent" is_sent) e.applied_to e.from e.to
          refl refl refl (rw is_sent at h)
  ]

  pub scan_events-Carries :
      (number : ℕ) (block : Block) (events : List EventRecord)
      → (scan_events p me ss58 throws number block events).1 ≡ true
      → Carries p me ss58 throws number block events
          (frames (scan_events p me ss58 throws number block events).0)
  unfolding scan_events Carries
  scan_events-Carries number block [] h = refl
  scan_events-Carries number block (e ∷ events) h =
      cases (scan_event p me ss58 throws number block e)
        (scan_events p me ss58 throws number block events) refl h
        (scan_events-Carries number block events)
    where
      cases :
          (here : Option (List Output)) (later : List Output × Bool)
          → scan_event p me ss58 throws number block e ≡ here
          → (then_events p me ss58 throws here later).1 ≡ true
          → (later.1 ≡ true → Carries p me ss58 throws number block events (frames later.0))
          → Carries p me ss58 throws number block
              (e ∷ events)
              (frames (then_events p me ss58 throws here later).0)
      cases none later same h rest = cc
      cases (some outs) (later, finished) same h rest =
          rw (frames-append outs later) (elim (scan_event-Found number block e outs same) [
            | inl none_here ↦ inr (
              λ f message.
                  let handed =
                    some_inj.0 (sym same ∙ scan_event-IsMessage number block e f message) in
                  cc (sym none_here ∙ ap frames handed ∙ frames-deliver f),
              rw none_here (rest h),
            )
            | inr (f, message, handed) ↦
                inl (f, frames later, message, ap (λ z. z ++ frames later) handed, rest h)
          ])
