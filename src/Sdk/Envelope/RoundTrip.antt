-- ===== src/Sdk/Envelope/RoundTrip.antt =====
-- Decoding an encoded envelope gives the envelope back, whatever bytes follow.
use mathlib.Core.List.{append_assoc}
use scalar_commons_v.Base.{
  ◌⊎◌, inl, inr, Bool-cases, eqb, leb, ℕ, ◌+◌, ◌^◌, ◌<◌, ◌≡◌, refl, sym, ◌∙◌, Option, none, some,
  [], ◌∷◌, ◌++◌, length, arith, length-append,
}
use scalar_commons_v.Base.Results.{ok, err, ok_inj}
use scalar_commons_v.Sdk.Bytes.{Bytes, le_bytes, length-le_bytes}
use scalar_commons_v.Sdk.Reader.{
  Reader, done, u8, ◌>>=◌, bind_ok, take_bytes-append, u32-append, u64-append,
}
use scalar_commons_v.Sdk.Envelope.{
  Field, MessageKind, offer, kind_index, AgreementRef, Envelope, need_len, u32le, u64le,
  encode_agreement, encode_envelope,
}
use scalar_commons_v.Sdk.Envelope.Decode.{
  read_kind, read_some_agreement, read_agreement, read_envelope, decode_envelope,
}

-- Every field fits its place in the encoding.
abbrev pub AgreementFits : Option AgreementRef → Type 0
AgreementFits none = Unit {0}
AgreementFits (some a) = (length a.account ≡ 32) × (a.seq < 2 ^ 32)

pub record Fits (e : Envelope) : Type 0 where
  pub version : e.version < 2 ^ 8
  pub from : length e.from ≡ 32
  pub to : length e.to ≡ 32
  pub agreement : AgreementFits e.agreement
  pub nonce : e.nonce < 2 ^ 64
  pub expires : e.expires_at_block < 2 ^ 32
  pub payload_hash : length e.payload_hash ≡ 32

abbrev pub agreement_bytes : Option AgreementRef → Bytes
agreement_bytes none = 0 ∷ []
agreement_bytes (some a) = 1 ∷ (a.account ++ le_bytes 4 a.seq)

abbrev pub envelope_bytes : Envelope → Bytes
envelope_bytes e =
    e.version
    ∷ (e.from
        ++ (e.to
            ++ (kind_index e.kind
                ∷ (agreement_bytes e.agreement
                    ++ (le_bytes 8 e.nonce ++ (le_bytes 4 e.expires_at_block ++ e.payload_hash))))))

encode_agreement_lem :
    (a : Option AgreementRef) → AgreementFits a → encode_agreement a ≡ ok (agreement_bytes a)
unfolding encode_agreement need_len u32le
encode_agreement_lem none h = refl
encode_agreement_lem (some a) h = ground arith

encode_agreement_cases :
    (a : Option AgreementRef) → AgreementFits a ⊎ ((f : Field) × (encode_agreement a ≡ err f))
unfolding encode_agreement need_len u32le
encode_agreement_cases none = inl tt
encode_agreement_cases (some a) = elim (Bool-cases (eqb (length a.account) 32)) [
  | inl e ↦ elim (Bool-cases (leb a.seq 0xffff_ffff)) [
    | inl e' ↦ inl (ground arith)
    | inr e' ↦ inr (Field.agreement_seq, ground arith)
  ]
  | inr e ↦ inr (Field.agreement_account, ground arith)
]

-- `encodeEnvelope` succeeds exactly on the envelopes whose fields fit.
pub encode_envelope-of_Fits : (e : Envelope) → Fits e → encode_envelope e ≡ ok (envelope_bytes e)
unfolding encode_envelope need_len u32le u64le
encode_envelope-of_Fits e h = ground (arith, encode_agreement_lem e.agreement)

pub encode_envelope-Fits : (e : Envelope) {bytes : Bytes} → encode_envelope e ≡ ok bytes → Fits e
unfolding encode_envelope need_len u32le u64le
encode_envelope-Fits e h = elim (encode_agreement_cases e.agreement) [
  | inl fits ↦
      let same = encode_agreement_lem e.agreement fits in
      record {
        version = ground arith;
        from = ground arith;
        to = ground arith;
        agreement = fits;
        nonce = ground arith;
        expires = ground arith;
        payload_hash = ground arith;
      }
  | inr (f, failed) ↦ absurd (ground arith)
]

read_kind_lem : (k : MessageKind) (left : Bytes) → read_kind (kind_index k) left ≡ ok (k, left)
unfolding read_kind done
read_kind_lem offer left = refl
read_kind_lem _ left = refl

read_some_agreement_lem :
    (a : AgreementRef) (left : Bytes)
    → AgreementFits (some a)
    → read_some_agreement (a.account ++ (le_bytes 4 a.seq ++ left)) ≡ ok (some a, left)
unfolding read_some_agreement done
read_some_agreement_lem a left (h, k) =
    bind_ok _ _ (take_bytes-append 32 a.account (le_bytes 4 a.seq ++ left) h)
    ∙ bind_ok _ _ (u32-append a.seq left k)

module _ {B : Type 0} (next : Option AgreementRef → Reader B) where
  read_agreement_lem :
      (a : Option AgreementRef) (left : Bytes)
      → AgreementFits a
      → (u8 >>= λ tag. read_agreement tag >>= next) (agreement_bytes a ++ left) ≡ next a left
  unfolding u8 read_agreement ◌>>=◌ done
  read_agreement_lem none left h = refl
  read_agreement_lem (some a) left h =
      rw (append_assoc a.account (le_bytes 4 a.seq) left)
        (bind_ok (read_agreement 1) next (read_some_agreement_lem a left h))

-- Reading back the bytes of an envelope, whatever follows them.
pub read-envelope_bytes :
    (e : Envelope) (left : Bytes) → Fits e → read_envelope (envelope_bytes e ++ left) ≡ ok (e, left)
unfolding read_envelope u8 done
read-envelope_bytes e left h = simp append_assoc (
    bind_ok u8 _ refl
    ∙ bind_ok _ _ (take_bytes-append 32 e.from _ h.from)
    ∙ bind_ok _ _ (take_bytes-append 32 e.to _ h.to)
    ∙ bind_ok u8 _ refl
    ∙ bind_ok _ _ (read_kind_lem e.kind _)
    ∙ read_agreement_lem _ e.agreement _ h.agreement
    ∙ bind_ok _ _ (u64-append e.nonce _ h.nonce)
    ∙ bind_ok _ _ (u32-append e.expires_at_block _ h.expires)
    ∙ bind_ok _ _ (take_bytes-append 32 e.payload_hash left h.payload_hash))

-- What `encodeEnvelope` accepts comes back from `decodeEnvelope`, with the number of bytes that the
-- encoding has, whatever bytes follow it.
pub decode-encode_envelope :
    (e : Envelope) (bytes left : Bytes)
    → encode_envelope e ≡ ok bytes
    → decode_envelope (bytes ++ left) ≡ ok (e, length bytes)
unfolding decode_envelope
decode-encode_envelope e bytes left h =
    let fits = encode_envelope-Fits e h in
    let same = ok_inj (sym (encode_envelope-of_Fits e fits) ∙ h) in
    rw (← same)
      (ground (arith, read-envelope_bytes e left fits, length-append (envelope_bytes e) left))

-- The size of an encoded envelope: 111 bytes, or 147 with an agreement.
abbrev pub envelope_size : Option AgreementRef → ℕ
envelope_size none = 111
envelope_size (some a) = 147

length-agreement_bytes :
    (a : Option AgreementRef) → AgreementFits a → length (agreement_bytes a) + 110 ≡ envelope_size a
length-agreement_bytes none h = refl
length-agreement_bytes (some a) (h, k) =
    omega (arith, length-append a.account (le_bytes 4 a.seq), length-le_bytes 4 a.seq)

-- An envelope encodes to 111 bytes without an agreement, and to 147 with one.
pub length-encode_envelope :
    (e : Envelope) (bytes : Bytes)
    → encode_envelope e ≡ ok bytes
    → length bytes ≡ envelope_size e.agreement
length-encode_envelope e bytes h =
    let fits = encode_envelope-Fits e h in
    let same = ok_inj (sym (encode_envelope-of_Fits e fits) ∙ h) in
    rw (← same) (
      omega (
        arith,
        length-append {0},
        length-le_bytes,
        length-agreement_bytes e.agreement fits.agreement,
        fits.from,
        fits.to,
        fits.payload_hash,
      ))
