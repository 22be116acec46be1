-- ===== src/Sdk/Envelope/Decode.antt =====
-- Decoding of sdk/src/messaging/envelope.ts: `readEnvelope`, `readBody` and their callers.
use scalar_commons_v.Base.{
  ℕ, ◌+◌, ◌-◌, ◌^◌, Option, none, some, [], ◌∷◌, length, get_elem?, take, drop, ltb, leb, eqb,
  if◌then◌else◌,
}
use scalar_commons_v.Base.Results.{Result, ok, err}
use scalar_commons_v.Sdk.Bytes.{Bytes}
use scalar_commons_v.Sdk.Reader.{
  Reader, Malformed, too_short, unknown_kind, bad_option_tag, bad_length, bad_body_tag,
  trailing_bytes, done, refuse, take_bytes, u8, u32, u64, ◌>>=◌,
}
use scalar_commons_v.Sdk.Envelope.{
  MessageKind, message_kinds, AgreementRef, Envelope, Body, none_body, plain, sealed, SignedMessage,
  Compact, signature_length,
}

unfoldable pub read_kind : ℕ → Reader MessageKind
read_kind index = elim (get_elem? message_kinds index) [
  | none ↦ refuse unknown_kind
  | some kind ↦ done kind
]

unfoldable pub read_some_agreement : Reader (Option AgreementRef)
read_some_agreement = do
  account ← take_bytes 32
  seq ← u32
  done (some (record { account = account; seq = seq }))

unfoldable pub read_agreement : ℕ → Reader (Option AgreementRef)
read_agreement tag =
    if eqb tag 0
    then done none
    else if eqb tag 1
    then read_some_agreement
    else refuse bad_option_tag

unfoldable pub read_envelope : Reader Envelope
read_envelope = do
  version ← u8
  from ← take_bytes 32
  to ← take_bytes 32
  kind_index ← u8
  kind ← read_kind kind_index
  tag ← u8
  agreement ← read_agreement tag
  nonce ← u64
  expires ← u32
  payload_hash ← take_bytes 32
  done (record {
    version = version;
    from = from;
    to = to;
    kind = kind;
    agreement = agreement;
    nonce = nonce;
    expires_at_block = expires;
    payload_hash = payload_hash;
  })

-- `r.at`: what the reader took off the front.
abbrev pub with_length :
    Bytes → Result Malformed (Envelope × Bytes) → Result Malformed (Envelope × ℕ)
with_length bytes (err e) = err e
with_length bytes (ok (envelope, left)) = ok (envelope, length bytes - length left)

unfoldable pub decode_envelope : Bytes → Result Malformed (Envelope × ℕ)
decode_envelope bytes = with_length bytes (read_envelope bytes)

module _ (compact : Compact) where
  -- `r.vec()`: past the prefix, as many bytes as it says.
  unfoldable pub vec : Reader Bytes
  vec bytes =
      let (offset, len) = compact.decode bytes in
      if leb (2 ^ 32) len
      then err bad_length
      else if ltb (length bytes) (offset + len)
      then err too_short
      else ok (take len (drop offset bytes), drop len (drop offset bytes))

  unfoldable pub read_plain : Reader Body
  read_plain = do bytes ← vec; done (plain bytes)

  unfoldable pub read_sealed : Reader Body
  read_sealed = do
    key ← take_bytes 32
    nonce ← take_bytes 24
    ciphertext ← vec
    done (sealed key nonce ciphertext)

  unfoldable pub body_of_tag : ℕ → Reader Body
  body_of_tag tag =
      if eqb tag 0
      then done none_body
      else if eqb tag 1
      then read_plain
      else if eqb tag 2
      then read_sealed
      else refuse bad_body_tag

  unfoldable pub read_body : Reader Body
  read_body = do tag ← u8; body_of_tag tag

  unfoldable pub read_signed : Reader SignedMessage
  read_signed = do
    envelope ← read_envelope
    signature ← take_bytes signature_length
    body ← read_body
    done (record { envelope = envelope; signature = signature; body = body })

  -- Bytes left over are an error: there is one encoding, not a prefix of one.
  unfoldable pub no_trailing : SignedMessage × Bytes → Result Malformed SignedMessage
  no_trailing (m, []) = ok m
  no_trailing (m, b ∷ bytes) = err trailing_bytes

  unfoldable pub decode_signed_message : Bytes → Result Malformed SignedMessage
  decode_signed_message bytes = elim (read_signed bytes) [
    | err e ↦ err e
    | ok read ↦ no_trailing read
  ]
