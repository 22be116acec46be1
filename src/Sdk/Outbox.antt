-- ===== src/Sdk/Outbox.antt =====
-- The sending side: `createMessage` of sdk/src/messaging/envelope.ts, and of
-- sdk/src/messaging/transport.ts `OnChainTransport.send` and `decodeSendCall`, by which the
-- recipient reads the call back.
pub mod Carried
pub mod Delivery
mod Tests
use scalar_commons_v.Base.{
  ℕ, ◌+◌, ◌*◌, Bool, true, false, Option, none, some, List, [], ◌∷◌, ◌++◌, leb, if◌then◌else◌,
  length, String, same_bytes, ◌==◌, string_keys,
}
use scalar_commons_v.Base.Results.{Result, ok, err, require, ◌>>=◌, ◌>>◌}
use scalar_commons_v.Sdk.Bytes.{Bytes}
use scalar_commons_v.Sdk.Envelope.{
  Field, MessageKind, offer, bid, accept, reject, delivery_notice, dispute_note, announce, ping,
  AgreementRef, Envelope, Body, none_body, plain, message_kinds, SignedMessage,
  encode_signed_message, envelope_version,
}
use scalar_commons_v.Sdk.Inbox.{
  Platform, Refusal, thrown, AccountLike, address, OnChainCall, to_account_id,
  envelope_signing_hash, option_or,
}

-- A keyring pair: `sr25519` is `type === 'sr25519'`.
pub record MessageSigner : Type 0 where
  pub sr25519 : Bool
  pub public_key : Bytes
  pub sign : Bytes → Bytes

pub record MessageInput : Type 0 where
  pub to : AccountLike
  pub kind : MessageKind
  pub plaintext : Bytes
  pub body : Option Body
  pub nonce : ℕ
  pub expires_at_block : ℕ
  pub genesis_hash : AccountLike
  pub agreement : Option (AccountLike × ℕ)

abbrev pub body_or_plain : Option Body → Bytes → Body
body_or_plain none plaintext = plain plaintext
body_or_plain (some body) plaintext = body

-- The arguments of `messages.send`.
pub record SendMessageArgs : Type 0 where
  pub to : String
  pub kind : MessageKind
  pub agreement : Option (String × ℕ)
  pub payload_hash : String
  pub payload : String

pub data SendRefusal : Type 0 where
  signer_is_not_sender payload_too_long : SendRefusal
  not_encodable : Field → SendRefusal

abbrev pub max_onchain_payload : ℕ
max_onchain_payload = 2048

abbrev pub encoded : Result Field Bytes → Result SendRefusal Bytes
encoded (err what) = err (not_encodable what)
encoded (ok frame) = ok frame

-- With `hashOnly` the body stays behind.
abbrev pub outgoing : Bool → SignedMessage → SignedMessage
outgoing hash_only m = record {
  envelope = m.envelope;
  signature = m.signature;
  body = if hash_only then none_body else m.body;
}

-- The arguments of an extrinsic, in the codecs' JSON forms.
pub record SendExtrinsic : Type 0 where
  pub to : String
  pub kind : String
  pub agreement : Option (String × ℕ)
  pub payload_hash : Option String
  pub payload : Bytes

abbrev pub kind_name : MessageKind → String
kind_name offer = "Offer"
kind_name bid = "Bid"
kind_name accept = "Accept"
kind_name reject = "Reject"
kind_name delivery_notice = "DeliveryNotice"
kind_name dispute_note = "DisputeNote"
kind_name announce = "Announce"
kind_name ping = "Ping"

-- The kind of a name in `MESSAGE_KINDS`.
abbrev pub find_kind : String → List MessageKind → Option MessageKind
find_kind name [] = none
find_kind name (kind ∷ kinds) =
    let later = find_kind name kinds in if kind_name kind == name then some kind else later

unfoldable pub kind_of_name : String → Option MessageKind
kind_of_name name = find_kind name message_kinds

abbrev pub agreement_call : Option (String × ℕ) → Option (AccountLike × ℕ)
agreement_call none = none
agreement_call (some (account, seq)) = some (address account, seq)

module _ (p : Platform) where
  abbrev pub agreement_ref : Option (AccountLike × ℕ) → Result Refusal (Option AgreementRef)
  agreement_ref none = ok none
  agreement_ref (some (account, seq)) = do
    who ← to_account_id p account
    ok (some (record { account = who; seq = seq }))

  abbrev pub created : MessageSigner → MessageInput → Bytes → Option AgreementRef → Envelope
  created signer input recipient agreement = record {
    version = envelope_version;
    from = signer.public_key;
    to = recipient;
    kind = input.kind;
    agreement = agreement;
    nonce = input.nonce;
    expires_at_block = input.expires_at_block;
    payload_hash = p.blake2 input.plaintext;
  }

  unfoldable pub create_message : MessageSigner → MessageInput → Result Refusal SignedMessage
  create_message signer input = do
    require signer.sr25519 thrown
    recipient ← to_account_id p input.to
    agreement ← agreement_ref input.agreement
    let envelope = created signer input recipient agreement
    hash ← envelope_signing_hash p envelope input.genesis_hash
    ok (record {
      envelope = envelope;
      signature = signer.sign hash;
      body = body_or_plain input.body input.plaintext;
    })

  abbrev pub agreement_arg : ℕ → Option AgreementRef → Option (String × ℕ)
  agreement_arg ss58 none = none
  agreement_arg ss58 (some a) = some (p.encode_address a.account ss58, a.seq)

  abbrev pub send_args : ℕ → Envelope → Bytes → SendMessageArgs
  send_args ss58 e frame = record {
    to = p.encode_address e.to ss58;
    kind = e.kind;
    agreement = agreement_arg ss58 e.agreement;
    payload_hash = p.to_hex e.payload_hash;
    payload = p.to_hex frame;
  }

  -- `OnChainTransport.send`, to what it submits.
  unfoldable pub send :
      (signer_key : Bytes) (ss58 : ℕ)
      → SignedMessage
      → (hash_only : Bool) → Result SendRefusal SendMessageArgs
  send signer_key ss58 message hash_only = do
    require (same_bytes signer_key message.envelope.from) signer_is_not_sender
    frame ← encoded (encode_signed_message p.compact (outgoing hash_only message))
    require (leb (length frame) max_onchain_payload) payload_too_long
    ok (send_args ss58 message.envelope frame)

  abbrev pub hash_arg : Option String → Result Refusal (Option Bytes)
  hash_arg none = ok none
  hash_arg (some hex) = do bytes ← option_or (p.hex_bytes hex) thrown; ok (some bytes)

  -- `decodeSendCall`: the call for rule 6, and the frame.
  unfoldable pub decode_send_call :
      SendExtrinsic → (origin : String) → Result Refusal (OnChainCall × Bytes)
  decode_send_call x origin = do
    kind ← option_or (kind_of_name x.kind) thrown
    hash ← hash_arg x.payload_hash
    ok (
      record {
        origin = address origin;
        to = address x.to;
        kind = kind;
        agreement = agreement_call x.agreement;
        payload_hash = hash;
      },
      x.payload,
    )
