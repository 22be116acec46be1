-- ===== src/Sdk/Outbox/Delivery.antt =====
-- From `createMessage` over `OnChainTransport.send` and `decodeSendCall` to `MessageInbox.receive`.
use scalar_commons_v.Base.{
  ℕ, ◌≤◌, ◌≡◌, refl, sym, ap, ◌∙◌, Bool, true, Option, some, lookup, bytes_keys, pair_keys,
}
use mathlib.Core.Path.{subst}
use scalar_commons_v.Base.Results.{ok, bind-eq-ok, require-eq-ok, ok_inj}
use scalar_commons_v.Sdk.Bytes.{Bytes}
use scalar_commons_v.Sdk.Envelope.{AgreementRef, Envelope, Body, SignedMessage}
use scalar_commons_v.Sdk.Envelope.Decode.{decode_signed_message}
use scalar_commons_v.Sdk.Nonces.{NonceTracker}
use scalar_commons_v.Sdk.Inbox.{
  Platform, Inbox, thrown, OnChainCall, ReceiveOptions, to_account_id, envelope_signing_hash,
  receive, received,
}
use scalar_commons_v.Sdk.Inbox.Genuine.{IsAbove, IsAsCalled, CallAgrees, Yields, IsGenuine}
use scalar_commons_v.Sdk.Inbox.Complete.{receive_iff}
use scalar_commons_v.Sdk.Outbox.{
  MessageSigner, MessageInput, SendMessageArgs, outgoing, SendExtrinsic, agreement_ref, created,
  create_message, send, decode_send_call, body_or_plain,
}
use scalar_commons_v.Sdk.Outbox.Carried.{Codecs, Carries, send-decode_send_call}

module _ (p : Platform) where
  -- What `createMessage` has signed.
  create_message-eq-ok :
      (signer : MessageSigner) (input : MessageInput) (m : SignedMessage)
      → create_message p signer input ≡ ok m
      → (recipient : Bytes) × (agreement : Option AgreementRef) × (hash : Bytes) × (to_account_id p
            input.to
          ≡ ok recipient)
        × (envelope_signing_hash p (created p signer input recipient agreement) input.genesis_hash
            ≡ ok hash)
        × (◌≡◌ {A = SignedMessage}
            (record {
              envelope = created p signer input recipient agreement;
              signature = signer.sign hash;
              body = body_or_plain input.body input.plaintext;
            })
            m)
  unfolding create_message
  create_message-eq-ok signer input m h =
      let (t1, h1) = require-eq-ok signer.sr25519 thrown _ h in
      let (recipient, e1, h2) = bind-eq-ok (to_account_id p input.to) _ h1 in
      let (agreement, e2, h3) = bind-eq-ok (agreement_ref p input.agreement) _ h2 in
      let (hash, e3, h4) =
        bind-eq-ok
          (envelope_signing_hash p (created p signer input recipient agreement) input.genesis_hash)
          _ h3 in
      (recipient, agreement, hash, e1, e3, ok_inj h4)

  created-IsGenuine :
      (signer : MessageSigner) (input : MessageInput) (e : Envelope) (hash sig : Bytes)
      (body : Body) (recipient : Bytes) (agreement : Option AgreementRef) (call : OnChainCall)
      (inbox : Inbox) (seen : NonceTracker) (frame : Bytes) (best_block : ℕ) (opts : ReceiveOptions)
      → created p signer input recipient agreement ≡ e
      → envelope_signing_hash p e inbox.genesis ≡ ok hash
      → p.verify hash sig signer.public_key ≡ some true
      → decode_signed_message p.compact frame
        ≡ ok (record { envelope = e; signature = sig; body = body })
      → CallAgrees p call e
      → opts.call ≡ some call
      → recipient ≡ inbox.self
      → best_block ≤ input.expires_at_block
      → IsAbove (lookup (signer.public_key, inbox.self) seen) input.nonce
      → Yields p inbox opts body input.plaintext
      → IsGenuine p inbox seen frame best_block opts
          (received p inbox (record { envelope = e; signature = sig; body = body }) input.plaintext)
  created-IsGenuine signer input e hash sig body recipient agreement call inbox seen frame
        best_block opts made hashed signs decoded agrees in_call self live above content =
      record {
        body = body;
        decoded = decoded;
        version = ap (λ x. x.version) (sym made);
        addressed = ap (λ x. x.to) (sym made) ∙ self;
        live = subst (λ x. best_block ≤ x.expires_at_block) made live;
        above =
            subst (λ x. IsAbove (lookup (x.from, x.to) seen) x.nonce) made
              (subst (λ s. IsAbove (lookup (signer.public_key, s) seen) input.nonce) (sym self)
                above);
        hash = hash;
        hashed = hashed;
        signed = subst (λ x. p.verify hash sig x.from ≡ some true) made signs;
        call = subst (λ o. IsAsCalled p o e) (sym in_call) agrees;
        content = content;
        digest = ap (λ x. x.payload_hash) made;
        sender = refl;
        kind = refl;
        body_type = refl;
      }

  -- A message made by `createMessage` and submitted by `OnChainTransport.send` from the signer's account
  -- is accepted by the recipient's inbox, with the plaintext that the sender gave. It is taken that
  -- the key pair's signatures verify, the address and hex codecs read back what they wrote, the block
  -- carries the submitted arguments and `decodeSendCall` reads them for the inbox, the inbox is the
  -- recipient's on the same chain, the message is not expired, its nonce is above the last one seen
  -- from the sender, and the body that was sent yields the plaintext (a hash-only one does when the
  -- plaintext is supplied apart).
  pub receive-send-create_message :
      (signer : MessageSigner) (input : MessageInput) (m : SignedMessage) (ss58 : ℕ)
      (hash_only : Bool) (args : SendMessageArgs) (x : SendExtrinsic) (call : OnChainCall)
      (frame : Bytes) (inbox : Inbox) (seen : NonceTracker) (best_block : ℕ) (opts : ReceiveOptions)
      → Codecs p
      → ((hash : Bytes) → p.verify hash (signer.sign hash) signer.public_key ≡ some true)
      → create_message p signer input ≡ ok m
      → send p signer.public_key ss58 m hash_only ≡ ok args
      → Carries p args x
      → decode_send_call p x (p.encode_address m.envelope.from ss58) ≡ ok (call, frame)
      → opts.call ≡ some call
      → to_account_id p input.to ≡ ok inbox.self
      → inbox.genesis ≡ input.genesis_hash
      → best_block ≤ input.expires_at_block
      → IsAbove (lookup (signer.public_key, inbox.self) seen) input.nonce
      → Yields p inbox opts (outgoing hash_only m).body input.plaintext
      → (receive p inbox seen frame best_block opts).1
        ≡ ok (received p inbox (outgoing hash_only m) input.plaintext)
  receive-send-create_message signer input m ss58 hash_only args x call frame inbox seen best_block
        opts c signs h1 h2 carried h3 in_call self chain live above content =
      let (recipient, agreement, hash, to_recipient, hashed, made) =
        create_message-eq-ok signer input m h1 in
      let e_made = ap (λ z. z.envelope) made in
      let sig_made = ap (λ z. z.signature) made in
      let (call', frame', read, agrees, decoded, small) =
        send-decode_send_call p signer.public_key ss58 m hash_only args x c h2 carried in
      let same = ok_inj (sym read ∙ h3) in
      (receive_iff p inbox seen frame best_block opts
          (received p inbox (outgoing hash_only m) input.plaintext)).1
        (created-IsGenuine signer input m.envelope hash m.signature (outgoing hash_only m).body
          recipient agreement call inbox seen frame best_block opts e_made
          (rw chain
            (subst (λ z. envelope_signing_hash p z input.genesis_hash ≡ ok hash) e_made hashed))
          (subst (λ z. p.verify hash z signer.public_key ≡ some true) sig_made (signs hash))
          (subst (λ z. decode_signed_message p.compact z ≡ ok (outgoing hash_only m))
            (ap (λ z. z.1) same) decoded)
          (subst (λ z. CallAgrees p z m.envelope) (ap (λ z. z.0) same) agrees) in_call
          (ok_inj (sym to_recipient ∙ self)) live above content)
