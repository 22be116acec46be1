-- ===== src/Sdk/Inbox.antt =====
-- `MessageInbox.receive` of sdk/src/messaging/envelope.ts. The cryptography, the
-- address codec and the hex reader of polkadot-js, and the opener of sealed bodies, are parameters.
pub mod Genuine
pub mod Sound
pub mod Complete
pub mod Replay
mod Tests
use Prim.Native.Char.{code}
use scalar_commons_v.Base.{
  ℕ, ◌+◌, ◌*◌, Bool, true, false, Option, none, some, List, [], ◌∷◌, ◌++◌, ltb, eqb, if◌then◌else◌,
  length, String, not, ◌&&◌, same_bytes,
}
use scalar_commons_v.Base.Results.{Result, ok, err, require, ◌>>=◌, ◌>>◌}
use scalar_commons_v.Sdk.Bytes.{Bytes}
use scalar_commons_v.Sdk.Reader.{Malformed}
use scalar_commons_v.Sdk.Envelope.{
  Field, MessageKind, kind_index, AgreementRef, Envelope, Body, none_body, plain, sealed,
  SignedMessage, Compact, encode_envelope, envelope_version,
}
use scalar_commons_v.Sdk.Envelope.Decode.{decode_signed_message}
use scalar_commons_v.Sdk.Nonces.{NonceTracker, is_fresh, commit}

pub data RejectReason : Type 0 where
  malformed unsupported_version wrong_recipient expired replay bad_signature : RejectReason
  call_mismatch content_missing sender_key_mismatch decrypt_failed : RejectReason
  payload_hash_mismatch : RejectReason

-- What `receive` throws: a `MessageRejected`, or another error from its arguments.
pub data Refusal : Type 0 where
  rejected : RejectReason → Refusal
  thrown : Refusal

pub data AccountLike : Type 0 where
  address : String → AccountLike
  account_id : Bytes → AccountLike

-- The functions of polkadot-js, and the opener. `none` is a throw; `verify` is `sr25519Verify`.
pub record Platform : Type 0 where
  pub compact : Compact
  pub blake2 : Bytes → Bytes
  pub verify : (hash signature public_key : Bytes) → Option Bool
  pub decode_address : String → Option Bytes
  pub encode_address : Bytes → ℕ → String
  -- `hexToU8a` on what `isHex` accepts.
  pub hex_bytes : String → Option Bytes
  -- `u8aToHex`.
  pub to_hex : Bytes → String
  pub open_body : (sender_key nonce ciphertext : Bytes) → Result Refusal Bytes

abbrev pub codes : String → Bytes
codes String.[] = []
codes (String.◌∷◌ c s) = code c ∷ codes s

abbrev pub signing_domain : Bytes
signing_domain = codes "ScalarMsg/v1|"

abbrev need_32 : Option Bytes → Result Refusal Bytes
need_32 none = err thrown
need_32 (some bytes) = if eqb (length bytes) 32 then ok bytes else err thrown

abbrev pub hash_of : Result Field Bytes → (Bytes → Bytes) → Result Refusal Bytes
hash_of (err what) hash = err thrown
hash_of (ok bytes) hash = ok (hash bytes)

abbrev pub verdict : Option Bool → Bool
verdict none = false
verdict (some signed) = signed

pub record OnChainCall : Type 0 where
  pub origin : AccountLike
  pub to : AccountLike
  pub kind : MessageKind
  pub agreement : Option (AccountLike × ℕ)
  pub payload_hash : Option Bytes

pub record ReceiveOptions : Type 0 where
  pub call : Option OnChainCall
  pub sender_messaging_key : Option Bytes
  pub detached_plaintext : Option Bytes

pub record Inbox : Type 0 where
  pub self : Bytes
  pub genesis : AccountLike
  pub can_open : Bool
  pub ss58 : ℕ

-- `body.type`.
pub data BodyType : Type 0 where
  none_type plain_type sealed_type : BodyType

abbrev pub body_type_of : Body → BodyType
body_type_of none_body = none_type
body_type_of (plain bytes) = plain_type
body_type_of (sealed key nonce ciphertext) = sealed_type

pub record ReceivedMessage : Type 0 where
  pub from : String
  pub kind : MessageKind
  pub envelope : Envelope
  pub body_type : BodyType
  pub plaintext : Bytes
  pub signature : Bytes

abbrev pub same_kind : MessageKind → MessageKind → Bool
same_kind a b = eqb (kind_index a) (kind_index b)

abbrev pub same_hash : Option Bytes → Bytes → Bool
same_hash none hash = false
same_hash (some bytes) hash = same_bytes bytes hash

abbrev pub option_or {ℓ} : {A : Type ℓ} → Option A → Refusal → Result Refusal A
option_or none e = err e
option_or (some a) e = ok a

abbrev pub or_malformed : Result Malformed SignedMessage → Result Refusal SignedMessage
or_malformed (err x) = err (rejected malformed)
or_malformed (ok m) = ok m

abbrev pub settle : NonceTracker → Result Refusal ReceivedMessage → NonceTracker
settle seen (err x) = seen
settle seen (ok r) = commit seen r.envelope.from r.envelope.to r.envelope.nonce

module _ (p : Platform) where
  unfoldable pub to_account_id : AccountLike → Result Refusal Bytes
  to_account_id (address s) = need_32 (p.decode_address s)
  to_account_id (account_id bytes) = need_32 (some bytes)

  -- A string must be hex; a genesis hash must have 32 bytes.
  unfoldable pub genesis_bytes : AccountLike → Result Refusal Bytes
  genesis_bytes (address s) = need_32 (p.hex_bytes s)
  genesis_bytes (account_id bytes) = need_32 (some bytes)

  unfoldable pub envelope_signing_hash : Envelope → AccountLike → Result Refusal Bytes
  envelope_signing_hash e genesis = do
    chain ← genesis_bytes genesis
    hash_of (encode_envelope e) (λ bytes. p.blake2 (signing_domain ++ (chain ++ bytes)))

  abbrev pub verified : SignedMessage → Result Refusal Bytes → Bool
  verified m (err x) = false
  verified m (ok hash) = verdict (p.verify hash m.signature m.envelope.from)

  -- Whatever is thrown on the way, the signature does not hold.
  abbrev pub signature_holds : Inbox → SignedMessage → Bool
  signature_holds inbox m = verified m (envelope_signing_hash m.envelope inbox.genesis)

  unfoldable pub same_agreement :
      Option AgreementRef → Option (AccountLike × ℕ) → Result Refusal Bool
  same_agreement none none = ok true
  same_agreement none (some b) = ok false
  same_agreement (some a) none = ok false
  same_agreement (some a) (some (account, seq)) =
      if eqb a.seq seq
      then (do who ← to_account_id account; ok (same_bytes a.account who))
      else ok false

  -- Rule 6, for a message that came in a `messages.send` call.
  unfoldable pub check_call : Option OnChainCall → Envelope → Result Refusal (Unit {0})
  check_call none e = ok tt
  check_call (some call) e = do
    signer ← to_account_id call.origin
    require (same_bytes signer e.from) (rejected call_mismatch)
    recipient ← to_account_id call.to
    require (same_bytes recipient e.to) (rejected call_mismatch)
    require (same_kind call.kind e.kind) (rejected call_mismatch)
    agreed ← same_agreement e.agreement call.agreement
    require agreed (rejected call_mismatch)
    require (same_hash call.payload_hash e.payload_hash) (rejected call_mismatch)

  -- Rule 7: the plaintext that the body yields.
  unfoldable pub read_plaintext : Inbox → ReceiveOptions → Body → Result Refusal Bytes
  read_plaintext inbox opts (plain bytes) = ok bytes
  read_plaintext inbox opts none_body = option_or opts.detached_plaintext (rejected content_missing)
  read_plaintext inbox opts (sealed key nonce ciphertext) = do
    require (same_hash opts.sender_messaging_key key) (rejected sender_key_mismatch)
    require inbox.can_open (rejected decrypt_failed)
    p.open_body key nonce ciphertext

  abbrev pub received : Inbox → SignedMessage → Bytes → ReceivedMessage
  received inbox m plaintext = record {
    from = p.encode_address m.envelope.from inbox.ss58;
    kind = m.envelope.kind;
    envelope = m.envelope;
    body_type = body_type_of m.body;
    plaintext = plaintext;
    signature = m.signature;
  }

  -- The checks of `receive` on a decoded message, in its order; `seen` is only read.
  unfoldable pub check_message :
      Inbox → NonceTracker → ℕ → ReceiveOptions → SignedMessage → Result Refusal ReceivedMessage
  check_message inbox seen best_block opts m = do
    let e = m.envelope
    require (eqb e.version envelope_version) (rejected unsupported_version)
    require (same_bytes e.to inbox.self) (rejected wrong_recipient)
    require (not (ltb e.expires_at_block best_block)) (rejected expired)
    require (is_fresh seen e.from e.to e.nonce) (rejected replay)
    require (signature_holds inbox m) (rejected bad_signature)
    check_call opts.call e
    plaintext ← read_plaintext inbox opts m.body
    require (same_bytes (p.blake2 plaintext) e.payload_hash) (rejected payload_hash_mismatch)
    ok (received inbox m plaintext)

  unfoldable pub check :
      Inbox → NonceTracker → Bytes → ℕ → ReceiveOptions → Result Refusal ReceivedMessage
  check inbox seen bytes best_block opts = do
    m ← or_malformed (decode_signed_message p.compact bytes)
    check_message inbox seen best_block opts m

  -- The nonce is committed after the last check.
  unfoldable pub receive :
      Inbox
      → NonceTracker
      → Bytes
      → ℕ
      → ReceiveOptions
      → NonceTracker × Result Refusal ReceivedMessage
  receive inbox seen bytes best_block opts =
      let result = check inbox seen bytes best_block opts in (settle seen result, result)
