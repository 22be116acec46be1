-- ===== src/Sdk/Inbox/Genuine.antt =====
-- What it means for a frame to carry a genuine message, by the rules of `MessageInbox.receive`.
use scalar_commons_v.Base.{
  ℕ, ◌<◌, ◌≤◌, ◌≡◌, true, Option, none, some, lookup, pair_keys, bytes_keys,
}
use scalar_commons_v.Base.Results.{ok}
use scalar_commons_v.Sdk.Bytes.{Bytes}
use scalar_commons_v.Sdk.Envelope.{AgreementRef, Envelope, Body, none_body, plain, sealed}
use scalar_commons_v.Sdk.Envelope.Decode.{decode_signed_message}
use scalar_commons_v.Sdk.Nonces.{NonceTracker}
use scalar_commons_v.Sdk.Inbox.{
  Platform, Inbox, AccountLike, OnChainCall, ReceiveOptions, ReceivedMessage, to_account_id,
  envelope_signing_hash, body_type_of,
}

-- The agreement of a call is that of an envelope.
abbrev pub AgreementAgrees : Platform → Option AgreementRef → Option (AccountLike × ℕ) → Type 0
AgreementAgrees p none none = Unit {0}
AgreementAgrees p none (some b) = ⊥
AgreementAgrees p (some a) none = ⊥
AgreementAgrees p (some a) (some (account, seq)) =
    (a.seq ≡ seq) × (to_account_id p account ≡ ok a.account)

-- Every argument of a `send` call is the envelope's.
pub record CallAgrees (p : Platform) (c : OnChainCall) (e : Envelope) : Type 0 where
  pub signer : to_account_id p c.origin ≡ ok e.from
  pub recipient : to_account_id p c.to ≡ ok e.to
  pub kind : c.kind ≡ e.kind
  pub agreement : AgreementAgrees p e.agreement c.agreement
  pub payload_hash : c.payload_hash ≡ some e.payload_hash

-- The call agrees, if there is one.
abbrev pub IsAsCalled : Platform → Option OnChainCall → Envelope → Type 0
IsAsCalled p none e = Unit {0}
IsAsCalled p (some c) e = CallAgrees p c e

-- The nonce is above the last one, if there is one.
abbrev pub IsAbove : Option ℕ → ℕ → Type 0
IsAbove none nonce = Unit {0}
IsAbove (some last) nonce = last < nonce

-- The plaintext is the body's: in clear, given apart, or sealed by the sender's published key.
abbrev pub Yields : Platform → Inbox → ReceiveOptions → Body → Bytes → Type 0
Yields p inbox opts (plain bytes) text = bytes ≡ text
Yields p inbox opts none_body text = opts.detached_plaintext ≡ some text
Yields p inbox opts (sealed key nonce ciphertext) text =
    (opts.sender_messaging_key ≡ some key)
    × (inbox.can_open ≡ true)
    × (p.open_body key nonce ciphertext ≡ ok text)

pub record IsGenuine (p : Platform) (inbox : Inbox) (seen : NonceTracker) (bytes : Bytes)
    (best_block : ℕ) (opts : ReceiveOptions) (r : ReceivedMessage) : Type 0 where
  pub body : Body
  pub decoded :
      decode_signed_message p.compact bytes
      ≡ ok (record { envelope = r.envelope; signature = r.signature; body = body })
  pub version : r.envelope.version ≡ 1
  pub addressed : r.envelope.to ≡ inbox.self
  pub live : best_block ≤ r.envelope.expires_at_block
  pub above : IsAbove (lookup (r.envelope.from, r.envelope.to) seen) r.envelope.nonce
  pub hash : Bytes
  pub hashed : envelope_signing_hash p r.envelope inbox.genesis ≡ ok hash
  pub signed : p.verify hash r.signature r.envelope.from ≡ some true
  pub call : IsAsCalled p opts.call r.envelope
  pub content : Yields p inbox opts body r.plaintext
  pub digest : p.blake2 r.plaintext ≡ r.envelope.payload_hash
  pub sender : p.encode_address r.envelope.from inbox.ss58 ≡ r.from
  pub kind : r.envelope.kind ≡ r.kind
  pub body_type : body_type_of body ≡ r.body_type
