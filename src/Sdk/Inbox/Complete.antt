-- ===== src/Sdk/Inbox/Complete.antt =====
-- `MessageInbox.receive` accepts every message that is genuine.
use scalar_commons_v.Base.{
  ℕ, ◌≡◌, refl, ap, ◌∙◌, true, Option, none, some, ltb, eqb, eqb_iff, not, same_bytes,
  same_bytes_iff, lookup, pair_keys, bytes_keys, arith, ◌↔◌,
}
use scalar_commons_v.Base.Results.{ok}
use scalar_commons_v.Sdk.Bytes.{Bytes}
use scalar_commons_v.Sdk.Envelope.{
  kind_index, AgreementRef, Envelope, Body, none_body, plain, sealed, SignedMessage,
  envelope_version,
}
use scalar_commons_v.Sdk.Nonces.{NonceTracker, is_fresh, is_above}
use scalar_commons_v.Sdk.Inbox.{
  Platform, Inbox, AccountLike, OnChainCall, ReceiveOptions, ReceivedMessage, envelope_signing_hash,
  signature_holds, verified, same_agreement, check_call, read_plaintext, check, check_message,
  received, receive, verdict,
}
use scalar_commons_v.Sdk.Inbox.Sound.{receive-IsGenuine}
use scalar_commons_v.Sdk.Inbox.Genuine.{
  IsAbove, IsAsCalled, AgreementAgrees, CallAgrees, Yields, IsGenuine,
}

is_above_of : (o : Option ℕ) (n : ℕ) → IsAbove o n → is_above o n ≡ true
is_above_of none n h = refl
is_above_of (some last) n h = ground (arith, h)

module _ (p : Platform) where
  same_agreement_of :
      (a : Option AgreementRef) (b : Option (AccountLike × ℕ))
      → AgreementAgrees p a b
      → same_agreement p a b ≡ ok true
  unfolding same_agreement
  same_agreement_of none none h = refl
  same_agreement_of none (some b) h = absurd h
  same_agreement_of (some a) none h = absurd h
  same_agreement_of (some a) (some (account, seq)) (h1, h2) =
      rw ((eqb_iff a.seq seq).1 h1, h2, (same_bytes_iff a.account a.account).1 refl) refl

  check_call_of :
      (c : OnChainCall) (e : Envelope) → CallAgrees p c e → check_call p (some c) e ≡ ok tt
  unfolding check_call
  check_call_of c e g =
      rw
        (
          g.signer,
          g.recipient,
          (same_bytes_iff e.from e.from).1 refl,
          (same_bytes_iff e.to e.to).1 refl,
          g.kind,
          (eqb_iff (kind_index e.kind) (kind_index e.kind)).1 refl,
          same_agreement_of e.agreement c.agreement g.agreement,
          g.payload_hash,
          (same_bytes_iff e.payload_hash e.payload_hash).1 refl,
        )
        refl

  check_call_all :
      (o : Option OnChainCall) (e : Envelope) → IsAsCalled p o e → check_call p o e ≡ ok tt
  unfolding check_call
  check_call_all none e h = refl
  check_call_all (some c) e h = check_call_of c e h

  read_plaintext_of :
      (inbox : Inbox) (opts : ReceiveOptions) (b : Body) (text : Bytes)
      → Yields p inbox opts b text
      → read_plaintext p inbox opts b ≡ ok text
  unfolding read_plaintext
  read_plaintext_of inbox opts (plain bytes) text h = ap ok h
  read_plaintext_of inbox opts none_body text h = rw h refl
  read_plaintext_of inbox opts (sealed key nonce ciphertext) text (h1, h2, h3) =
      rw (h1, (same_bytes_iff key key).1 refl, h2, h3) refl

  signature_holds_of :
      (inbox : Inbox) (m : SignedMessage) (hash : Bytes)
      → envelope_signing_hash p m.envelope inbox.genesis ≡ ok hash
      → p.verify hash m.signature m.envelope.from ≡ some true
      → signature_holds p inbox m ≡ true
  signature_holds_of inbox m hash h1 h2 = ap (verified p m) h1 ∙ ap verdict h2

  check_message_of :
      (inbox : Inbox) (seen : NonceTracker) (best_block : ℕ) (opts : ReceiveOptions)
      (m : SignedMessage) (text : Bytes)
      → eqb m.envelope.version envelope_version ≡ true
      → same_bytes m.envelope.to inbox.self ≡ true
      → not (ltb m.envelope.expires_at_block best_block) ≡ true
      → is_fresh seen m.envelope.from m.envelope.to m.envelope.nonce ≡ true
      → signature_holds p inbox m ≡ true
      → check_call p opts.call m.envelope ≡ ok tt
      → read_plaintext p inbox opts m.body ≡ ok text
      → same_bytes (p.blake2 text) m.envelope.payload_hash ≡ true
      → check_message p inbox seen best_block opts m ≡ ok (received p inbox m text)
  unfolding check_message
  check_message_of inbox seen best_block opts m text h1 h2 h3 h4 h5 h6 h7 h8 =
      rw (h1, h2, h3, h4, h5, h6, h7, h8) refl

  received_of :
      (inbox : Inbox) (seen : NonceTracker) (bytes : Bytes) (best_block : ℕ) (opts : ReceiveOptions)
      (r : ReceivedMessage) (g : IsGenuine p inbox seen bytes best_block opts r)
      → received p inbox
          (record { envelope = r.envelope; signature = r.signature; body = g.body })
          r.plaintext
        ≡ r
  received_of inbox seen bytes best_block opts r g = rw (g.sender, g.kind, g.body_type) refl

  check_of :
      (inbox : Inbox) (seen : NonceTracker) (bytes : Bytes) (best_block : ℕ) (opts : ReceiveOptions)
      (r : ReceivedMessage)
      → IsGenuine p inbox seen bytes best_block opts r
      → check p inbox seen bytes best_block opts ≡ ok r
  unfolding check is_fresh
  check_of inbox seen bytes best_block opts r g =
      let e = r.envelope in
      let m : SignedMessage = record {
        envelope = r.envelope;
        signature = r.signature;
        body = g.body;
      } in
      rw g.decoded (
        check_message_of inbox seen best_block opts m r.plaintext
          ((eqb_iff e.version envelope_version).1 g.version)
          ((same_bytes_iff e.to inbox.self).1 g.addressed) (ground (arith, g.live))
          (is_above_of (lookup (e.from, e.to) seen) e.nonce g.above)
          (signature_holds_of inbox m g.hash g.hashed g.signed) (check_call_all opts.call e g.call)
          (read_plaintext_of inbox opts g.body r.plaintext g.content)
          ((same_bytes_iff (p.blake2 r.plaintext) e.payload_hash).1 g.digest)
        ∙ ap ok (received_of inbox seen bytes best_block opts r g))

  -- `receive` accepts a frame as the message `r` exactly if it is genuine: it decodes, has version 1, is
  -- addressed to this account, is not expired at the block, has a nonce above the last one accepted from
  -- its sender, is signed by its sender on this chain, agrees with the call it came in (if any) in every
  -- argument, and its body yields the plaintext that the envelope's payload hash commits to.
  pub receive_iff :
      (inbox : Inbox) (seen : NonceTracker) (bytes : Bytes) (best_block : ℕ) (opts : ReceiveOptions)
      (r : ReceivedMessage)
      → ((receive p inbox seen bytes best_block opts).1 ≡ ok r)
        ↔ IsGenuine p inbox seen bytes best_block opts r
  unfolding receive
  receive_iff inbox seen bytes best_block opts r = (
    receive-IsGenuine p inbox seen bytes best_block opts r,
    check_of inbox seen bytes best_block opts r,
  )
