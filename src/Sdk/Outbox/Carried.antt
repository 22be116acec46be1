-- ===== src/Sdk/Outbox/Carried.antt =====
-- What `OnChainTransport.send` submits, read back with `decodeSendCall`.
use scalar_commons_v.Base.{
  ℕ, ◌^◌, ◌<◌, ◌≤◌, ◌≡◌, refl, sym, ap, ◌∙◌, Bool, Option, none, some, ◌++◌, leb, length,
  same_bytes, same_bytes_iff, arith, length-append, bytes_keys, pair_keys,
}
use mathlib.Core.Path.{subst}
use scalar_commons_v.Base.Results.{Result, ok, err, bind-eq-ok, require-eq-ok, ok_inj}
use scalar_commons_v.Sdk.Bytes.{Bytes}
use scalar_commons_v.Sdk.Envelope.{
  Field, MessageKind, offer, AgreementRef, Envelope, Body, none_body, plain, sealed, SignedMessage,
  encode_body, encode_signed_message, need_len,
}
use scalar_commons_v.Sdk.Envelope.Decode.{decode_signed_message}
use scalar_commons_v.Sdk.Envelope.RoundTrip.{Fits, AgreementFits, encode_envelope-Fits}
use scalar_commons_v.Sdk.Envelope.Message.{
  BodyFits, encode_signed-eq-ok, encode_sealed-eq-ok, decode-encode_signed_message,
}
use scalar_commons_v.Sdk.Inbox.{Platform, address, OnChainCall, to_account_id}
use scalar_commons_v.Sdk.Inbox.Genuine.{AgreementAgrees, CallAgrees}
use scalar_commons_v.Sdk.Outbox.{
  SendMessageArgs, signer_is_not_sender, payload_too_long, encoded, outgoing, SendExtrinsic,
  kind_name, kind_of_name, agreement_call, agreement_arg, send_args, send, decode_send_call,
  max_onchain_payload,
}

kind_of_name-kind_name : (k : MessageKind) → kind_of_name (kind_name k) ≡ some k
unfolding kind_of_name
kind_of_name-kind_name offer = refl
kind_of_name-kind_name _ = refl

-- What polkadot-js promises of its codecs for addresses and hex.
pub record Codecs (p : Platform) : Type 0 where
  pub address_codec :
      (account : Bytes) (ss58 : ℕ)
      → length account ≡ 32
      → p.decode_address (p.encode_address account ss58) ≡ some account
  pub hex_codec : (bytes : Bytes) → p.hex_bytes (p.to_hex bytes) ≡ some bytes

-- The extrinsic that a block holds has the arguments that were submitted.
pub record Carries (p : Platform) (args : SendMessageArgs) (x : SendExtrinsic) : Type 0 where
  pub to : x.to ≡ args.to
  pub kind : x.kind ≡ kind_name args.kind
  pub agreement : x.agreement ≡ args.agreement
  pub payload_hash : x.payload_hash ≡ some args.payload_hash
  pub payload : p.hex_bytes args.payload ≡ some x.payload

some_inj : {a b : Bytes} → ◌≡◌ {A = Option Bytes} (some a) (some b) → a ≡ b
some_inj e = cc

encoded-eq-ok : (r : Result Field Bytes) {frame : Bytes} → encoded r ≡ ok frame → r ≡ ok frame
encoded-eq-ok (err what) h = cc
encoded-eq-ok (ok frame) h = ap ok (ok_inj h)

module _ (p : Platform) where
  -- What `send` has checked when it submits.
  send-eq-ok :
      (key : Bytes) (ss58 : ℕ) (m : SignedMessage) (hash_only : Bool) (args : SendMessageArgs)
      → send p key ss58 m hash_only ≡ ok args
      → (frame : Bytes) × (encode_signed_message p.compact (outgoing hash_only m) ≡ ok frame)
        × (key ≡ m.envelope.from)
        × (length frame ≤ 2048)
        × (send_args p ss58 m.envelope frame ≡ args)
  unfolding send
  send-eq-ok key ss58 m hash_only args h =
      let (t1, h1) = require-eq-ok (same_bytes key m.envelope.from) signer_is_not_sender _ h in
      let (frame, e1, h2) =
        bind-eq-ok (encoded (encode_signed_message p.compact (outgoing hash_only m))) _ h1 in
      let (t2, h3) = require-eq-ok (leb (length frame) max_onchain_payload) payload_too_long _ h2 in
      (
        frame,
        encoded-eq-ok (encode_signed_message p.compact (outgoing hash_only m)) e1,
        (same_bytes_iff key m.envelope.from).0 t1,
        ground (arith, t2),
        ok_inj h3,
      )

  body_length :
      (b : Body) (bytes : Bytes)
      → encode_body p.compact b ≡ ok bytes
      → length bytes < 2 ^ 32
      → BodyFits b
  unfolding encode_body need_len
  body_length none_body bytes e h = tt
  body_length (plain text) bytes e h =
      ground (arith, ok_inj e, length-append (p.compact.encode (length text)) text)
  body_length (sealed key nonce text) bytes e h =
      let (k, n, same) = encode_sealed-eq-ok p.compact key nonce text e in
      let size : length bytes ≡ _ = ap length same in
      omega (
        arith,
        size,
        h,
        length-append key (nonce ++ (p.compact.encode (length text) ++ text)),
        length-append nonce (p.compact.encode (length text) ++ text),
        length-append (p.compact.encode (length text)) text,
      )

  address_id :
      (account : Bytes) (ss58 : ℕ)
      → Codecs p
      → length account ≡ 32
      → to_account_id p (address (p.encode_address account ss58)) ≡ ok account
  unfolding to_account_id
  address_id account ss58 c h = rw (c.address_codec account ss58 h, h) refl

  agreement_agrees :
      (a : Option AgreementRef) (ss58 : ℕ)
      → Codecs p
      → AgreementFits a
      → AgreementAgrees p a (agreement_call (agreement_arg p ss58 a))
  agreement_agrees none ss58 c h = tt
  agreement_agrees (some a) ss58 c h = (refl, address_id a.account ss58 c h.0)

  outgoing-Fits :
      (m : SignedMessage) (frame : Bytes)
      → encode_signed_message p.compact m ≡ ok frame
      → length frame ≤ 2048
      → Fits m.envelope × (decode_signed_message p.compact frame ≡ ok m)
  outgoing-Fits m frame e h =
      let (envelope, body, e1, e2, size, same) = encode_signed-eq-ok p.compact m e in
      let total = ap length (sym same) in
      let small : length body < 2 ^ 32 = omega (
        arith,
        h,
        total,
        length-append envelope (m.signature ++ body),
        length-append m.signature body,
      ) in
      (
        encode_envelope-Fits m.envelope e1,
        decode-encode_signed_message p.compact m frame (body_length m.body body e2 small) e,
      )

  -- The call that `decodeSendCall` reads.
  call_read : ℕ → Envelope → OnChainCall
  call_read ss58 e = record {
    origin = address (p.encode_address e.from ss58);
    to = address (p.encode_address e.to ss58);
    kind = e.kind;
    agreement = agreement_call (agreement_arg p ss58 e.agreement);
    payload_hash = some e.payload_hash;
  }

  decode_send_call_lem :
      (ss58 : ℕ) (e : Envelope) (frame : Bytes) (x : SendExtrinsic)
      → Codecs p
      → Carries p (send_args p ss58 e frame) x
      → decode_send_call p x (p.encode_address e.from ss58) ≡ ok (call_read ss58 e, frame)
  unfolding decode_send_call call_read
  decode_send_call_lem ss58 e frame x c h =
      let same : x.payload ≡ frame = some_inj (sym h.payload ∙ c.hex_codec frame) in
      rw
        (
          h.kind,
          kind_of_name-kind_name e.kind,
          h.payload_hash,
          c.hex_codec e.payload_hash,
          h.to,
          h.agreement,
          same,
        )
        refl

  call_read-Agrees :
      (ss58 : ℕ) (e : Envelope) → Codecs p → Fits e → CallAgrees p (call_read ss58 e) e
  unfolding call_read
  call_read-Agrees ss58 e c fits = record {
    signer = address_id e.from ss58 c fits.from;
    recipient = address_id e.to ss58 c fits.to;
    kind = refl;
    agreement = agreement_agrees e.agreement ss58 c fits.agreement;
    payload_hash = refl;
  }

  -- What `OnChainTransport.send` submits, the recipient reads back from the block that carries it:
  -- the frame decodes to the message that was sent (without its body, if hash-only), the call
  -- agrees with the envelope in signer, recipient, kind, agreement and payload hash, and the frame
  -- has at most 2048 bytes. The address and hex codecs are taken to read back what they wrote.
  pub send-decode_send_call :
      (key : Bytes) (ss58 : ℕ) (m : SignedMessage) (hash_only : Bool) (args : SendMessageArgs)
      (x : SendExtrinsic)
      → Codecs p
      → send p key ss58 m hash_only ≡ ok args
      → Carries p args x
      → (call : OnChainCall) × (frame : Bytes) × (decode_send_call p x
            (p.encode_address m.envelope.from ss58)
          ≡ ok (call, frame))
        × CallAgrees p call m.envelope
        × (decode_signed_message p.compact frame ≡ ok (outgoing hash_only m))
        × (length frame ≤ 2048)
  send-decode_send_call key ss58 m hash_only args x c h carried =
      let (frame, e1, same, small, e2) = send-eq-ok key ss58 m hash_only args h in
      let (fits, decoded) = outgoing-Fits (outgoing hash_only m) frame e1 small in
      (
        call_read ss58 m.envelope,
        frame,
        decode_send_call_lem ss58 m.envelope frame x c
            (subst (λ a. Carries p a x) (sym e2) carried),
        call_read-Agrees ss58 m.envelope c fits,
        decoded,
        small,
      )
