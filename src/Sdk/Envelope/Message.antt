-- ===== src/Sdk/Envelope/Message.antt =====
-- Round trip of a whole `SignedMessage`: envelope, signature and body, and nothing after them.
use mathlib.Core.List.{append_assoc, append-nil}
use scalar_commons_v.Base.{
  ℕ, ◌^◌, ◌<◌, ◌≡◌, sym, ap, ◌∙◌, [], ◌∷◌, ◌++◌, length, take-append, drop-append, arith,
  length-append,
}
use scalar_commons_v.Base.Results
use scalar_commons_v.Base.Results.{Result, ok, err, ok_inj}
use scalar_commons_v.Sdk.Bytes.{Bytes}
use scalar_commons_v.Sdk.Reader.{trailing_bytes, done, u8, ◌>>=◌, bind_ok, take_bytes-append}
use scalar_commons_v.Sdk.Envelope.{
  Field, Body, none_body, plain, sealed, SignedMessage, Compact, vec_u8, need_len, encode_body,
  encode_envelope, encode_signed_message, signature_length,
}
use scalar_commons_v.Sdk.Envelope.Decode.{
  read_envelope, vec, read_plain, read_sealed, body_of_tag, read_body, read_signed, no_trailing,
  decode_signed_message,
}
use scalar_commons_v.Sdk.Envelope.RoundTrip.{
  encode_envelope-Fits, encode_envelope-of_Fits, read-envelope_bytes,
}

-- A JavaScript byte string is shorter than 2 ^ 32.
abbrev pub BodyFits : Body → Type 0
BodyFits none_body = Unit {0}
BodyFits (plain bytes) = length bytes < 2 ^ 32
BodyFits (sealed key nonce ciphertext) = length ciphertext < 2 ^ 32

need_len-eq-ok :
    (bytes : Bytes) (n : ℕ) (what : Field) {out : Bytes}
    → need_len bytes n what ≡ ok out
    → (bytes ≡ out) × (length bytes ≡ n)
unfolding need_len
need_len-eq-ok bytes n what e = ground arith

module _ (compact : Compact) where
  vec-append :
      (bytes left : Bytes)
      → length bytes < 2 ^ 32
      → vec compact (vec_u8 compact bytes ++ left) ≡ ok (bytes, left)
  unfolding vec
  vec-append bytes left h =
      let prefix = compact.encode (length bytes) in
      rw
        (
          append_assoc prefix bytes left,
          compact.decode-encode (length bytes) (bytes ++ left) h,
          drop-append prefix (bytes ++ left),
          take-append bytes left,
          drop-append bytes left,
        )
        (ground (arith, length-append prefix (bytes ++ left), length-append bytes left))

  read_plain_lem :
      (bytes left : Bytes)
      → length bytes < 2 ^ 32
      → read_plain compact (vec_u8 compact bytes ++ left) ≡ ok (plain bytes, left)
  unfolding read_plain done
  read_plain_lem bytes left h = bind_ok _ _ (vec-append bytes left h)

  read_sealed_lem :
      (key nonce text left : Bytes)
      → length key ≡ 32
      → length nonce ≡ 24
      → length text < 2 ^ 32
      → read_sealed compact ((key ++ (nonce ++ vec_u8 compact text)) ++ left)
        ≡ ok (sealed key nonce text, left)
  unfolding read_sealed done
  read_sealed_lem key nonce text left k n h =
      rw
        (
          append_assoc key (nonce ++ vec_u8 compact text) left,
          append_assoc nonce (vec_u8 compact text) left,
        )
        (bind_ok _ _ (take_bytes-append 32 key _ k)
          ∙ bind_ok _ _ (take_bytes-append 24 nonce _ n)
          ∙ bind_ok _ _ (vec-append text left h))

  pub encode_sealed-eq-ok :
      (key nonce text : Bytes) {bytes : Bytes}
      → encode_body compact (sealed key nonce text) ≡ ok bytes
      → (length key ≡ 32)
        × (length nonce ≡ 24)
        × (bytes ≡ 2 ∷ (key ++ (nonce ++ vec_u8 compact text)))
  unfolding encode_body need_len
  encode_sealed-eq-ok key nonce text e = ground arith

  read_body-encode_body :
      (body : Body) {bytes : Bytes} (left : Bytes)
      → BodyFits body
      → encode_body compact body ≡ ok bytes
      → read_body compact (bytes ++ left) ≡ ok (body, left)
  unfolding read_body encode_body u8 ◌>>=◌ body_of_tag done
  read_body-encode_body none_body left h e = rw (← ok_inj e)
  read_body-encode_body (plain text) left h e = rw (← ok_inj e) (read_plain_lem text left h)
  read_body-encode_body (sealed key nonce text) left h e =
      let (k, n, same) = encode_sealed-eq-ok key nonce text e in
      rw same (read_sealed_lem key nonce text left k n h)

  pub encode_signed-eq-ok :
      (m : SignedMessage) {bytes : Bytes}
      → encode_signed_message compact m ≡ ok bytes
      → (envelope body : Bytes) × (encode_envelope m.envelope ≡ ok envelope)
        × (encode_body compact m.body ≡ ok body)
        × (length m.signature ≡ 64)
        × (envelope ++ (m.signature ++ body) ≡ bytes)
  unfolding encode_signed_message
  encode_signed-eq-ok m e =
      let (envelope, e1, r1) = Results.bind-eq-ok _ _ e in
      let (sig, e2, r2) = Results.bind-eq-ok _ _ r1 in
      let (body, e3, r3) = Results.bind-eq-ok _ _ r2 in
      let (same, size) = need_len-eq-ok m.signature signature_length _ e2 in
      (envelope, body, e1, e3, size, ap (λ s. envelope ++ (s ++ body)) same ∙ ok_inj r3)

  read_signed-encode :
      (m : SignedMessage) {bytes : Bytes} (left : Bytes)
      → BodyFits m.body
      → encode_signed_message compact m ≡ ok bytes
      → read_signed compact (bytes ++ left) ≡ ok (m, left)
  unfolding read_signed done
  read_signed-encode m left h e =
      let (envelope, body, e1, e2, size, same) = encode_signed-eq-ok m e in
      let fits = encode_envelope-Fits m.envelope e1 in
      let bytes_same = ok_inj (sym (encode_envelope-of_Fits m.envelope fits) ∙ e1) in
      rw
        (
          ← same,
          append_assoc envelope (m.signature ++ body) left,
          append_assoc m.signature body left,
        )
        (bind_ok _ _ (
            ap (λ x. read_envelope (x ++ (m.signature ++ (body ++ left)))) (sym bytes_same)
            ∙ read-envelope_bytes m.envelope _ fits)
          ∙ bind_ok _ _ (take_bytes-append 64 m.signature _ size)
          ∙ bind_ok _ _ (read_body-encode_body m.body left h e2))

  -- A signed message that encodes is decoded to itself: envelope, signature and body. The codec of
  -- the length prefix is taken to read back what it wrote, and the body to be shorter than 2 ^ 32.
  pub decode-encode_signed_message :
      (m : SignedMessage) (bytes : Bytes)
      → BodyFits m.body
      → encode_signed_message compact m ≡ ok bytes
      → decode_signed_message compact bytes ≡ ok m
  unfolding decode_signed_message no_trailing
  decode-encode_signed_message m bytes h e =
      rw ((rw (append-nil bytes) at (read_signed-encode m [] h e)), decode_signed_message)

  -- The encoding of one message is no proper prefix of what decodes: an encoded message with any
  -- bytes after it is refused for its trailing bytes.
  pub decode-trailing :
      (m : SignedMessage) (bytes left : Bytes) (b : ℕ)
      → BodyFits m.body
      → encode_signed_message compact m ≡ ok bytes
      → decode_signed_message compact (bytes ++ (b ∷ left)) ≡ err trailing_bytes
  unfolding decode_signed_message no_trailing
  decode-trailing m bytes left b h e =
      rw (read_signed-encode m (b ∷ left) h e, decode_signed_message)
