-- ===== src/Sdk/Inbox/Sound.antt =====
-- What a message that `MessageInbox.receive` accepts has passed.
use scalar_commons_v.Base.{
  ℕ, ◌≡◌, refl, sym, ap, ◌∙◌, Bool, true, false, Option, none, some, ltb, eqb, eqb_iff, not,
  same_bytes, same_bytes_iff, lookup, pair_keys, bytes_keys, arith, get_elem?, Bool-cases, inl, inr,
}
use mathlib.Core.Path.{subst}
use scalar_commons_v.Base.Results.{Result, ok, err, bind-eq-ok, require-eq-ok, require-ok, ok_inj}
use scalar_commons_v.Sdk.Reader.{Malformed}
use scalar_commons_v.Sdk.Bytes.{Bytes}
use scalar_commons_v.Sdk.Envelope.{
  MessageKind, offer, message_kinds, kind_index, AgreementRef, Envelope, Body, none_body, plain,
  sealed, SignedMessage, envelope_version,
}
use scalar_commons_v.Sdk.Envelope.Decode.{decode_signed_message}
use scalar_commons_v.Sdk.Nonces.{NonceTracker, is_fresh, is_above}
use scalar_commons_v.Sdk.Inbox.{
  Platform, Inbox, Refusal, rejected, call_mismatch, content_missing, sender_key_mismatch,
  decrypt_failed, unsupported_version, wrong_recipient, expired, replay, bad_signature,
  payload_hash_mismatch, AccountLike, OnChainCall, ReceiveOptions, ReceivedMessage, to_account_id,
  envelope_signing_hash, signature_holds, verified, same_kind, same_agreement, same_hash,
  check_call, read_plaintext, check, check_message, received, receive, or_malformed, option_or,
  verdict,
}
use scalar_commons_v.Sdk.Inbox.Genuine.{
  IsAbove, IsAsCalled, AgreementAgrees, CallAgrees, Yields, IsGenuine,
}

kind_index-get_elem? : (k : MessageKind) → get_elem? message_kinds (kind_index k) ≡ some k
kind_index-get_elem? offer = refl
kind_index-get_elem? _ = refl

same_kind-eq : (j k : MessageKind) → eqb (kind_index j) (kind_index k) ≡ true → j ≡ k
same_kind-eq j k e =
    let same = (eqb_iff (kind_index j) (kind_index k)).0 e in
    let found =
      sym (kind_index-get_elem? j) ∙ ap (get_elem? message_kinds) same ∙ kind_index-get_elem? k in
    cc

pub same_hash-eq : (o : Option Bytes) (hash : Bytes) → same_hash o hash ≡ true → o ≡ some hash
same_hash-eq none hash e = cc
same_hash-eq (some bytes) hash e = ap some ((same_bytes_iff bytes hash).0 e)

is_above-IsAbove : (o : Option ℕ) (n : ℕ) → is_above o n ≡ true → IsAbove o n
is_above-IsAbove none n h = tt
is_above-IsAbove (some last) n h = ground arith

ok_false : ◌≡◌ {A = Result Refusal Bool} (ok false) (ok true) → ⊥
ok_false h = cc

option_or-eq : {A : Type 0} (o : Option A) (e : Refusal) (a : A) → option_or o e ≡ ok a → o ≡ some a
option_or-eq none e a h = cc
option_or-eq (some b) e a h = ap some (ok_inj h)

or_malformed-eq :
    (d : Result Malformed SignedMessage) (m : SignedMessage) → or_malformed d ≡ ok m → d ≡ ok m
or_malformed-eq (err x) m h = cc
or_malformed-eq (ok n) m h = ap ok (ok_inj h)

verdict-eq : (o : Option Bool) → verdict o ≡ true → o ≡ some true
verdict-eq none h = cc
verdict-eq (some b) h = ap some h

module _ (p : Platform) where
  signed_by :
      (m : SignedMessage) (r hash_result : Result Refusal Bytes)
      → hash_result ≡ r
      → verified p m r ≡ true
      → (hash : Bytes) × (hash_result ≡ ok hash)
        × (p.verify hash m.signature m.envelope.from ≡ some true)
  signed_by m (err x) hash_result e h = cc
  signed_by m (ok hash) hash_result e h =
      (hash, e, verdict-eq (p.verify hash m.signature m.envelope.from) h)

  same_agreement-Agrees :
      (a : Option AgreementRef) (b : Option (AccountLike × ℕ))
      → same_agreement p a b ≡ ok true
      → AgreementAgrees p a b
  unfolding same_agreement
  same_agreement-Agrees none none h = tt
  same_agreement-Agrees none (some b) h = cc
  same_agreement-Agrees (some a) none h = cc
  same_agreement-Agrees (some a) (some (account, seq)) h = elim (Bool-cases (eqb a.seq seq)) [
    | inr miss ↦ absurd (ok_false (sym (rw miss refl) ∙ h))
    | inl hit ↦
        let (who, found, h1) =
          bind-eq-ok (to_account_id p account) (λ who. ok (same_bytes a.account who))
            (sym (rw hit refl) ∙ h) in
        (
          (eqb_iff a.seq seq).0 hit,
          found ∙ ap ok (sym ((same_bytes_iff a.account who).0 (ok_inj h1))),
        )
  ]

  check_call-Agrees :
      (c : OnChainCall) (e : Envelope) → check_call p (some c) e ≡ ok tt → CallAgrees p c e
  unfolding check_call
  check_call-Agrees c e h =
      let mismatch = rejected call_mismatch in
      let (signer, e1, h1) = bind-eq-ok (to_account_id p c.origin) _ h in
      let (t1, h2) = require-eq-ok (same_bytes signer e.from) mismatch _ h1 in
      let (recipient, e2, h3) = bind-eq-ok (to_account_id p c.to) _ h2 in
      let (t2, h4) = require-eq-ok (same_bytes recipient e.to) mismatch _ h3 in
      let (t3, h5) = require-eq-ok (same_kind c.kind e.kind) mismatch _ h4 in
      let (agreed, e3, h6) = bind-eq-ok (same_agreement p e.agreement c.agreement) _ h5 in
      let (t4, h7) = require-eq-ok agreed mismatch _ h6 in
      let t5 = require-ok (same_hash c.payload_hash e.payload_hash) mismatch h7 in
      record {
        signer = e1 ∙ ap ok ((same_bytes_iff signer e.from).0 t1);
        recipient = e2 ∙ ap ok ((same_bytes_iff recipient e.to).0 t2);
        kind = same_kind-eq c.kind e.kind t3;
        agreement = same_agreement-Agrees e.agreement c.agreement (e3 ∙ ap ok t4);
        payload_hash = same_hash-eq c.payload_hash e.payload_hash t5;
      }

  -- The tests of `check_message`, passed by `m`.
  record Passed (inbox : Inbox) (seen : NonceTracker) (best_block : ℕ) (opts : ReceiveOptions)
      (m : SignedMessage) (r : ReceivedMessage) : Type 0 where
    pub version : eqb m.envelope.version envelope_version ≡ true
    pub addressed : same_bytes m.envelope.to inbox.self ≡ true
    pub live : not (ltb m.envelope.expires_at_block best_block) ≡ true
    pub fresh : is_fresh seen m.envelope.from m.envelope.to m.envelope.nonce ≡ true
    pub signed : signature_holds p inbox m ≡ true
    pub called : check_call p opts.call m.envelope ≡ ok tt
    pub text : Bytes
    pub read : read_plaintext p inbox opts m.body ≡ ok text
    pub digest : same_bytes (p.blake2 text) m.envelope.payload_hash ≡ true
    pub result : received p inbox m text ≡ r

  signature_holds-Signed :
      (inbox : Inbox) (m : SignedMessage)
      → signature_holds p inbox m ≡ true
      → (hash : Bytes) × (envelope_signing_hash p m.envelope inbox.genesis ≡ ok hash)
        × (p.verify hash m.signature m.envelope.from ≡ some true)
  signature_holds-Signed inbox m h =
      signed_by m (envelope_signing_hash p m.envelope inbox.genesis)
        (envelope_signing_hash p m.envelope inbox.genesis) refl h

  check_call-IsAsCalled :
      (o : Option OnChainCall) (e : Envelope) → check_call p o e ≡ ok tt → IsAsCalled p o e
  check_call-IsAsCalled none e h = tt
  check_call-IsAsCalled (some c) e h = check_call-Agrees c e h

  read_plaintext-Yields :
      (inbox : Inbox) (opts : ReceiveOptions) (b : Body) (text : Bytes)
      → read_plaintext p inbox opts b ≡ ok text
      → Yields p inbox opts b text
  unfolding read_plaintext
  read_plaintext-Yields inbox opts (plain bytes) text h = ok_inj h
  read_plaintext-Yields inbox opts none_body text h =
      option_or-eq opts.detached_plaintext (rejected content_missing) text h
  read_plaintext-Yields inbox opts (sealed key nonce ciphertext) text h =
      let (t1, h1) =
        require-eq-ok (same_hash opts.sender_messaging_key key) (rejected sender_key_mismatch) _
          h in
      let (t2, h2) = require-eq-ok inbox.can_open (rejected decrypt_failed) _ h1 in
      (same_hash-eq opts.sender_messaging_key key t1, t2, h2)

  check_message-Passed :
      (inbox : Inbox) (seen : NonceTracker) (best_block : ℕ) (opts : ReceiveOptions)
      (m : SignedMessage) (r : ReceivedMessage)
      → check_message p inbox seen best_block opts m ≡ ok r
      → Passed inbox seen best_block opts m r
  unfolding check_message
  check_message-Passed inbox seen best_block opts m r h =
      let e = m.envelope in
      let (t1, h2) =
        require-eq-ok (eqb e.version envelope_version) (rejected unsupported_version) _ h in
      let (t2, h3) = require-eq-ok (same_bytes e.to inbox.self) (rejected wrong_recipient) _ h2 in
      let (t3, h4) =
        require-eq-ok (not (ltb e.expires_at_block best_block)) (rejected expired) _ h3 in
      let (t4, h5) = require-eq-ok (is_fresh seen e.from e.to e.nonce) (rejected replay) _ h4 in
      let (t5, h6) = require-eq-ok (signature_holds p inbox m) (rejected bad_signature) _ h5 in
      let (done, h7, h8) = bind-eq-ok (check_call p opts.call e) _ h6 in
      let (text, h9, h10) = bind-eq-ok (read_plaintext p inbox opts m.body) _ h8 in
      let (t6, h11) =
        require-eq-ok (same_bytes (p.blake2 text) e.payload_hash) (rejected payload_hash_mismatch) _
          h10 in
      record {
        version = t1;
        addressed = t2;
        live = t3;
        fresh = t4;
        signed = t5;
        called = h7;
        text = text;
        read = h9;
        digest = t6;
        result = ok_inj h11;
      }

  Passed-IsGenuine :
      (inbox : Inbox) (seen : NonceTracker) (bytes : Bytes) (best_block : ℕ) (opts : ReceiveOptions)
      (m : SignedMessage) (r : ReceivedMessage)
      → decode_signed_message p.compact bytes ≡ ok m
      → Passed inbox seen best_block opts m r
      → IsGenuine p inbox seen bytes best_block opts r
  unfolding is_fresh
  Passed-IsGenuine inbox seen bytes best_block opts m r found c =
      subst (IsGenuine p inbox seen bytes best_block opts) c.result (
        let e = m.envelope in
        let (hash, hashed, signed) = signature_holds-Signed inbox m c.signed in
        record {
          body = m.body;
          decoded = found;
          version = (eqb_iff e.version envelope_version).0 c.version;
          addressed = (same_bytes_iff e.to inbox.self).0 c.addressed;
          live = ground (arith, c.live);
          above = is_above-IsAbove (lookup (e.from, e.to) seen) e.nonce c.fresh;
          hash = hash;
          hashed = hashed;
          signed = signed;
          call = check_call-IsAsCalled opts.call e c.called;
          content = read_plaintext-Yields inbox opts m.body c.text c.read;
          digest = (same_bytes_iff (p.blake2 c.text) e.payload_hash).0 c.digest;
          sender = refl;
          kind = refl;
          body_type = refl;
        })

  check-IsGenuine :
      (inbox : Inbox) (seen : NonceTracker) (bytes : Bytes) (best_block : ℕ) (opts : ReceiveOptions)
      (r : ReceivedMessage)
      → check p inbox seen bytes best_block opts ≡ ok r
      → IsGenuine p inbox seen bytes best_block opts r
  unfolding check
  check-IsGenuine inbox seen bytes best_block opts r h =
      let (m, found, h1) = bind-eq-ok (or_malformed (decode_signed_message p.compact bytes)) _ h in
      Passed-IsGenuine inbox seen bytes best_block opts m r
        (or_malformed-eq (decode_signed_message p.compact bytes) m found)
        (check_message-Passed inbox seen best_block opts m r h1)

  -- A message that `receive` accepts decodes from the frame, has version 1, is for this account, is not
  -- expired at the block, has a nonce above the last one accepted from its sender to this account, is
  -- signed by its sender over the hash of envelope and genesis, agrees in each argument with the call
  -- it came in, if any, and yields a plaintext that has the envelope's payload hash; `from` is the
  -- sender's address.
  pub receive-IsGenuine :
      (inbox : Inbox) (seen : NonceTracker) (bytes : Bytes) (best_block : ℕ) (opts : ReceiveOptions)
      (r : ReceivedMessage)
      → (receive p inbox seen bytes best_block opts).1 ≡ ok r
      → IsGenuine p inbox seen bytes best_block opts r
  unfolding receive
  receive-IsGenuine = check-IsGenuine
