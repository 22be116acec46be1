-- ===== src/Sdk/Envelope/Canonical.antt =====
-- One encoding only: what decodes to an envelope is the encoding of that envelope.
use mathlib.Core.List.{append_assoc}
use mathlib.Core.Path.{subst, subst₂, ap₂}
use scalar_commons_v.Base.{
  ℕ, ◌-◌, ◌^◌, ◌<◌, ◌≡◌, refl, sym, ap, ◌∙◌, Option, none, some, [], ◌∷◌, ◌++◌, length, take,
  take-append, arith, length-append, zero, suc,
}
use scalar_commons_v.Base.Results.{Result, ok, err}
use scalar_commons_v.Sdk.Bytes.{
  Bytes, IsBytes, le_bytes, le_value, le_bytes-le_value, le_value-lt, IsBytes-append_left,
  IsBytes-append_right,
}
use scalar_commons_v.Sdk.Reader.{
  Reader, Malformed, done, refuse, take_bytes, u8, u32, u64, ◌>>=◌, bind-eq-ok, take_bytes-eq-ok,
  u8-eq-ok,
}
use scalar_commons_v.Sdk.Envelope.{MessageKind, kind_index, AgreementRef, Envelope, encode_envelope}
use scalar_commons_v.Sdk.Envelope.Decode.{
  read_kind, read_some_agreement, read_agreement, read_envelope, with_length, decode_envelope,
}
use scalar_commons_v.Sdk.Envelope.RoundTrip.{
  AgreementFits, Fits, agreement_bytes, envelope_bytes, encode_envelope-of_Fits,
}

-- What a read took off the front, with what is left: the bytes of the value, under a bound on it.
abbrev Took : {A : Type 0} → Reader A → (A → Bytes) → (A → Type 0) → Type 0
Took {A} read bytes_of Good =
    (bytes left : Bytes) (a : A)
    → IsBytes bytes
    → read bytes ≡ ok (a, left)
    → (bytes ≡ bytes_of a ++ left) × Good a × IsBytes left

take_bytes-Took : (n : ℕ) → Took (take_bytes n) (λ xs. xs) (λ xs. (length xs ≡ n) × IsBytes xs)
take_bytes-Took n bytes left xs h e =
    let (same, size) = take_bytes-eq-ok n bytes e in
    let all : IsBytes (xs ++ left) = subst IsBytes same h in
    (same, (size, IsBytes-append_left xs left all), IsBytes-append_right xs left all)

u8-Took : Took u8 (λ b. b ∷ []) (λ b. b < 256)
u8-Took bytes left b h e =
    let same = u8-eq-ok bytes e in
    let all : IsBytes (b ∷ left) = subst IsBytes same h in (same, all.0, all.1)

le_fixed :
    (k : ℕ) (b : Bytes)
    → IsBytes b
    → length b ≡ k
    → (b ≡ le_bytes k (le_value b)) × (le_value b < 256 ^ k)
le_fixed k b h e = rw (← e) (sym (le_bytes-le_value b h), le_value-lt b h)

-- `u32` and `u64`.
le-Took :
    (k : ℕ) → Took (take_bytes k >>= λ b. done (le_value b)) (λ n. le_bytes k n) (λ n. n < 256 ^ k)
unfolding done
le-Took k bytes left n h e =
    let (b, mid, taken, rest) = bind-eq-ok _ _ e in
    let (same, (size, bs), ls) = take_bytes-Took k bytes mid b h taken in
    let (written, bound) = le_fixed k b bs size in
    let value : le_value b ≡ n = cc in
    let end : mid ≡ left = cc in rw (← value, ← end) (same ∙ ap (λ c. c ++ mid) written, bound, ls)

done-eq-ok :
    {A : Type 0} {a b : A} {bytes left : Bytes}
    → done a bytes ≡ ok (b, left)
    → (a ≡ b) × (bytes ≡ left)
unfolding done
done-eq-ok e = (cc, cc)

-- The bytes of an agreement after its tag.
abbrev agreement_rest : Option AgreementRef → Bytes
agreement_rest none = []
agreement_rest (some a) = a.account ++ le_bytes 4 a.seq

abbrev IsSome : Option AgreementRef → Type 0
IsSome none = ⊥
IsSome (some a) = Unit {0}

with_tag :
    (a : Option AgreementRef)
    → IsSome a
    → (bytes left : Bytes) → bytes ≡ agreement_rest a ++ left
    → 1 ∷ bytes ≡ agreement_bytes a ++ left
with_tag none h bytes left e = absurd h
with_tag (some a) h bytes left e = ap (◌∷◌ 1) e

u32-Took : Took u32 (λ n. le_bytes 4 n) (λ n. n < 2 ^ 32)
unfolding u32
u32-Took = le-Took 4

u64-Took : Took u64 (λ n. le_bytes 8 n) (λ n. n < 2 ^ 64)
unfolding u64
u64-Took = le-Took 8

read_kind-Took :
    (index : ℕ) (bytes left : Bytes) (kind : MessageKind)
    → read_kind index bytes ≡ ok (kind, left)
    → (index ≡ kind_index kind) × (bytes ≡ left)
unfolding read_kind done refuse
read_kind-Took (suc (suc (suc (suc (suc (suc (suc (suc n)))))))) bytes left kind e = cc
read_kind-Took zero bytes left kind e = ground arith
read_kind-Took _ bytes left kind e = ground arith

read_some_agreement-Took :
    Took read_some_agreement (λ a. agreement_rest a) (λ a. AgreementFits a × IsSome a)
unfolding read_some_agreement
read_some_agreement-Took bytes left a h e =
    let (account, mid, took, e') = bind-eq-ok _ _ e in
    let (same, (size, _), hm) = take_bytes-Took 32 bytes mid account h took in
    let (seq, rest, took', e'') = bind-eq-ok _ _ e' in
    let (same', bound, hl) = u32-Took mid rest seq hm took' in
    let v = done-eq-ok e'' in
    rw (← v.0, ← v.1)
      (
        same ∙ ap (◌++◌ account) same' ∙ sym (append_assoc account (le_bytes 4 seq) rest),
        ((size, bound), tt),
        hl,
      )

agreement-Took :
    (tag : ℕ) (bytes left : Bytes) (a : Option AgreementRef)
    → IsBytes bytes
    → read_agreement tag bytes ≡ ok (a, left)
    → (tag ∷ bytes ≡ agreement_bytes a ++ left) × AgreementFits a × IsBytes left
unfolding read_agreement refuse
agreement-Took zero bytes left a h e = let v = done-eq-ok e in rw (← v.0, ← v.1) (refl, tt, h)
agreement-Took (suc zero) bytes left a h e =
    let (same, (fits, is_some), hl) = read_some_agreement-Took bytes left a h e in
    (with_tag a is_some bytes left same, fits, hl)
agreement-Took (suc (suc n)) bytes left a h e = absurd (ground arith)

moved :
    {bytes left left' : Bytes} {e e' : Envelope}
    → (e ≡ e') × (left ≡ left')
    → (bytes ≡ envelope_bytes e ++ left) × Fits e × IsBytes left
    → (bytes ≡ envelope_bytes e' ++ left') × Fits e' × IsBytes left'
moved {bytes} v h =
    subst₂ (λ e left. (bytes ≡ envelope_bytes e ++ left) × Fits e × IsBytes left) v.0 v.1 h

-- The pieces of an envelope, put together.
assemble :
    (e : Envelope) (index tag : ℕ) (bytes b1 b2 b3 b4 b5 b6 b7 b8 b9 b10 : Bytes)
    → bytes ≡ e.version ∷ b1
    → b1 ≡ e.from ++ b2
    → b2 ≡ e.to ++ b3
    → b3 ≡ index ∷ b4
    → (index ≡ kind_index e.kind) × (b4 ≡ b5)
    → b5 ≡ tag ∷ b6
    → tag ∷ b6 ≡ agreement_bytes e.agreement ++ b7
    → b7 ≡ le_bytes 8 e.nonce ++ b8
    → b8 ≡ le_bytes 4 e.expires_at_block ++ b9
    → b9 ≡ e.payload_hash ++ b10
    → bytes ≡ envelope_bytes e ++ b10
assemble e index tag bytes b1 b2 b3 b4 b5 b6 b7 b8 b9 b10 s1 s2 s3 s4 s5 s6 s7 s8 s9 s10 =
    simp append_assoc (
      s1
      ∙ ap (◌∷◌ e.version) (
          s2
          ∙ ap (◌++◌ e.from) (
              s3
              ∙ ap (◌++◌ e.to) (
                  s4
                  ∙ ap₂ ◌∷◌ s5.0 (
                      s5.1
                      ∙ s6
                      ∙ s7
                      ∙ ap (◌++◌ (agreement_bytes e.agreement)) (
                          s8
                          ∙ ap (◌++◌ (le_bytes 8 e.nonce))
                              (s9 ∙ ap (◌++◌ (le_bytes 4 e.expires_at_block)) s10)))))))

-- What `readEnvelope` accepts is the encoding of an envelope whose fields fit, and what follows it.
pub read_envelope-Took : Took read_envelope envelope_bytes Fits
unfolding read_envelope
read_envelope-Took bytes left e h r =
    let (version, b1, t1, r1) = bind-eq-ok _ _ r in
    let (s1, v1, h1) = u8-Took bytes b1 version h t1 in
    let (from, b2, t2, r2) = bind-eq-ok _ _ r1 in
    let (s2, (v2, _), h2) = take_bytes-Took 32 b1 b2 from h1 t2 in
    let (to, b3, t3, r3) = bind-eq-ok _ _ r2 in
    let (s3, (v3, _), h3) = take_bytes-Took 32 b2 b3 to h2 t3 in
    let (index, b4, t4, r4) = bind-eq-ok _ _ r3 in
    let (s4, _, h4) = u8-Took b3 b4 index h3 t4 in
    let (kind, b5, t5, r5) = bind-eq-ok _ _ r4 in
    let s5 = read_kind-Took index b4 b5 kind t5 in
    let (tag, b6, t6, r6) = bind-eq-ok _ _ r5 in
    let (s6, _, h6) = u8-Took b5 b6 tag (subst IsBytes s5.1 h4) t6 in
    let (agreement, b7, t7, r7) = bind-eq-ok _ _ r6 in
    let (s7, v7, h7) = agreement-Took tag b6 b7 agreement h6 t7 in
    let (nonce, b8, t8, r8) = bind-eq-ok _ _ r7 in
    let (s8, v8, h8) = u64-Took b7 b8 nonce h7 t8 in
    let (expires, b9, t9, r9) = bind-eq-ok _ _ r8 in
    let (s9, v9, h9) = u32-Took b8 b9 expires h8 t9 in
    let (digest, b10, t10, r10) = bind-eq-ok _ _ r9 in
    let (s10, (v10, _), h10) = take_bytes-Took 32 b9 b10 digest h9 t10 in
    let e' : Envelope = record {
      version = version;
      from = from;
      to = to;
      kind = kind;
      agreement = agreement;
      nonce = nonce;
      expires_at_block = expires;
      payload_hash = digest;
    } in
    moved {bytes = bytes} {left = b10} {left' = left} {e = e'} {e' = e} (done-eq-ok r10) (
      assemble e' index tag bytes b1 b2 b3 b4 b5 b6 b7 b8 b9 b10 s1 s2 s3 s4 s5 s6 s7 s8 s9 s10,
      record {
        version = v1;
        from = v2;
        to = v3;
        agreement = v7;
        nonce = v8;
        expires = v9;
        payload_hash = v10;
      },
      h10,
    )

read_pair :
    {a b : Envelope} {m n : ℕ}
    → ◌≡◌ {A = Result Malformed (Envelope × ℕ)} (ok (a, m)) (ok (b, n))
    → (a ≡ b) × (m ≡ n)
read_pair e = (cc, cc)

taken : (bytes xs left : Bytes) → bytes ≡ xs ++ left → xs ≡ take (length bytes - length left) bytes
taken bytes xs left e =
    let size : length (xs ++ left) - length left ≡ length xs =
      omega (arith, length-append xs left) in
    rw (e, size) (sym (take-append xs left))

-- Decoding admits one spelling: bytes that `decodeEnvelope` accepts begin with the encoding of the
-- envelope that it returns, of just the length that it reports.
pub encode-decode_envelope :
    (bytes : Bytes) (e : Envelope) (n : ℕ)
    → IsBytes bytes
    → decode_envelope bytes ≡ ok (e, n)
    → encode_envelope e ≡ ok (take n bytes)
unfolding decode_envelope
encode-decode_envelope bytes e n h r = split (read_envelope bytes) refl r
  where
    split :
        (read : Result Malformed (Envelope × Bytes))
        → read_envelope bytes ≡ read
        → with_length bytes read ≡ ok (e, n)
        → encode_envelope e ≡ ok (take n bytes)
    split (err x) there r = cc
    split (ok (envelope, left)) there r =
        let (same, fits, _) = read_envelope-Took bytes left envelope h there in
        let v = read_pair r in
        rw (← v.0, ← v.1)
          (encode_envelope-of_Fits envelope fits
            ∙ ap ok (taken bytes (envelope_bytes envelope) left same))
