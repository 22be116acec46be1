-- ===== src/Sdk/Envelope.antt =====
-- The signed message envelope of sdk/src/messaging/envelope.ts and its SCALE encoding. A thrown
-- `Error` is a value: the field that a check names when encoding, a `Malformed` when decoding.
pub mod Decode
pub mod RoundTrip
pub mod Canonical
pub mod Message
mod Tests
use scalar_commons_v.Base.{
  ℕ, ◌+◌, ◌-◌, ◌^◌, ◌<◌, ◌≡◌, Bool, Option, none, some, List, [], ◌∷◌, ◌++◌, length, get_elem?,
  take, drop, ltb, leb, eqb, if◌then◌else◌,
}
use scalar_commons_v.Base.Results.{Result, ok, err, require, ◌>>=◌, ◌>>◌}
use scalar_commons_v.Sdk.Bytes.{Bytes, le_bytes}

pub data MessageKind : Type 0 where
  offer bid accept reject delivery_notice dispute_note announce ping : MessageKind

-- The pallet's variant order: the index of a kind is its byte.
abbrev pub message_kinds : List MessageKind
message_kinds =
    offer ∷ bid ∷ accept ∷ reject ∷ delivery_notice ∷ dispute_note ∷ announce ∷ ping ∷ []

-- `MESSAGE_KINDS.indexOf(kind)`; the type has no other kind.
abbrev pub kind_index : MessageKind → ℕ
kind_index offer = 0
kind_index bid = 1
kind_index accept = 2
kind_index reject = 3
kind_index delivery_notice = 4
kind_index dispute_note = 5
kind_index announce = 6
kind_index ping = 7

pub record AgreementRef : Type 0 where
  pub account : Bytes
  pub seq : ℕ

pub record Envelope : Type 0 where
  pub version : ℕ
  pub from : Bytes
  pub to : Bytes
  pub kind : MessageKind
  pub agreement : Option AgreementRef
  pub nonce : ℕ
  pub expires_at_block : ℕ
  pub payload_hash : Bytes

pub data Body : Type 0 where
  none_body : Body
  plain : (bytes : Bytes) → Body
  sealed : (sender_key nonce ciphertext : Bytes) → Body

pub record SignedMessage : Type 0 where
  pub envelope : Envelope
  pub signature : Bytes
  pub body : Body

abbrev pub envelope_version : ℕ
envelope_version = 1

abbrev pub signature_length : ℕ
signature_length = 64

-- The field that an encoding check refuses.
pub data Field : Type 0 where
  version agreement_account agreement_seq from to nonce expires payload_hash : Field
  signature sender_key body_nonce : Field

unfoldable pub need_len : Bytes → ℕ → Field → Result Field Bytes
need_len bytes n what = if eqb (length bytes) n then ok bytes else err what

unfoldable pub u32le : ℕ → Field → Result Field Bytes
u32le n what = if leb n 0xffff_ffff then ok (le_bytes 4 n) else err what

unfoldable pub u64le : ℕ → Field → Result Field Bytes
u64le n what = if leb n (2 ^ 64 - 1) then ok (le_bytes 8 n) else err what

unfoldable pub encode_agreement : Option AgreementRef → Result Field Bytes
encode_agreement none = ok (0 ∷ [])
encode_agreement (some a) = do
  account ← need_len a.account 32 agreement_account
  seq ← u32le a.seq agreement_seq
  ok (1 ∷ (account ++ seq))

unfoldable pub encode_envelope : Envelope → Result Field Bytes
encode_envelope e = do
  require (leb e.version 0xff) version
  agreement ← encode_agreement e.agreement
  sender ← need_len e.from 32 from
  recipient ← need_len e.to 32 to
  counter ← u64le e.nonce nonce
  expiry ← u32le e.expires_at_block expires
  digest ← need_len e.payload_hash 32 payload_hash
  ok (
      e.version
      ∷ (sender
          ++ (recipient ++ (kind_index e.kind ∷ (agreement ++ (counter ++ (expiry ++ digest)))))))

-- SCALE's compact length prefix is polkadot-js's: `encode` is `compactToU8a`, and `decode` is
-- `compactFromU8a`, which returns the prefix's size and the length.
pub record Compact : Type 0 where
  pub encode : ℕ → Bytes
  pub decode : Bytes → ℕ × ℕ
  pub decode-encode :
      (n : ℕ) (rest : Bytes) → n < 2 ^ 32 → decode (encode n ++ rest) ≡ (length (encode n), n)

module _ (compact : Compact) where
  abbrev pub vec_u8 : Bytes → Bytes
  vec_u8 bytes = compact.encode (length bytes) ++ bytes

  unfoldable pub encode_body : Body → Result Field Bytes
  encode_body none_body = ok (0 ∷ [])
  encode_body (plain bytes) = ok (1 ∷ vec_u8 bytes)
  encode_body (sealed key counter ciphertext) = do
    key' ← need_len key 32 sender_key
    counter' ← need_len counter 24 body_nonce
    ok (2 ∷ (key' ++ (counter' ++ vec_u8 ciphertext)))

  unfoldable pub encode_signed_message : SignedMessage → Result Field Bytes
  encode_signed_message m = do
    envelope ← encode_envelope m.envelope
    sig ← need_len m.signature signature_length signature
    body ← encode_body m.body
    ok (envelope ++ (sig ++ body))
