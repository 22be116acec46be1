-- ===== src/Sdk/Envelope/Tests.antt =====
-- Runs of the codec, and the theorems at
-- concrete messages.
use scalar_commons_v.Base.{◌≡◌, refl, some, [], ◌∷◌, ◌++◌, length, take, arith}
use scalar_commons_v.Base.Results.{ok}
use scalar_commons_v.Sdk.Sample.{scale_compact, compact_encode, zeros}
use scalar_commons_v.Sdk.Bytes.{Bytes, IsBytes, le_bytes, le_value}
use scalar_commons_v.Sdk.Reader.{u8, u32, u64, take_bytes, done, ◌>>=◌}
use scalar_commons_v.Sdk.Envelope.{
  Envelope, offer, plain, SignedMessage, need_len, u32le, u64le, encode_agreement, encode_envelope,
  encode_body, encode_signed_message,
}
use scalar_commons_v.Sdk.Envelope.Decode.{
  decode_envelope, read_envelope, read_kind, read_agreement, read_some_agreement,
  decode_signed_message,
}
use scalar_commons_v.Sdk.Envelope.RoundTrip.{decode-encode_envelope, envelope_bytes}
use scalar_commons_v.Sdk.Envelope.Canonical.{encode-decode_envelope}
use scalar_commons_v.Sdk.Envelope.Message.{decode-encode_signed_message}

abbrev sample : Envelope
sample = record {
  version = 1;
  from = 7 ∷ zeros 31;
  to = 9 ∷ zeros 31;
  kind = offer;
  agreement = some (record { account = 9 ∷ zeros 31; seq = 258 });
  nonce = 1_000_000;
  expires_at_block = 77;
  payload_hash = 5 ∷ zeros 31;
}

sample_encodes : encode_envelope sample ≡ ok (envelope_bytes sample)
unfolding encode_envelope encode_agreement need_len u32le u64le
sample_encodes = refl

sample_decodes : decode_envelope (envelope_bytes sample) ≡ ok (sample, 147)
unfolding decode_envelope read_envelope read_kind read_agreement read_some_agreement u8 u32 u64
    take_bytes done ◌>>=◌ le_bytes le_value
sample_decodes = refl

decode-encode_envelope_example :
    decode_envelope (envelope_bytes sample ++ (1 ∷ []))
    ≡ ok (sample, length (envelope_bytes sample))
decode-encode_envelope_example =
    decode-encode_envelope sample (envelope_bytes sample) (1 ∷ []) sample_encodes

sample-IsBytes : IsBytes (envelope_bytes sample)
unfolding le_bytes
sample-IsBytes = omega arith

encode-decode_envelope_example : encode_envelope sample ≡ ok (take 147 (envelope_bytes sample))
encode-decode_envelope_example =
    encode-decode_envelope (envelope_bytes sample) sample 147 sample-IsBytes sample_decodes

abbrev hello : SignedMessage
hello = record { envelope = sample; signature = zeros 64; body = plain (104 ∷ 105 ∷ []) }

abbrev hello_bytes : Bytes
hello_bytes = envelope_bytes sample ++ (zeros 64 ++ (1 ∷ 8 ∷ 104 ∷ 105 ∷ []))

hello_encodes : encode_signed_message scale_compact hello ≡ ok hello_bytes
unfolding encode_signed_message encode_envelope encode_agreement need_len u32le u64le encode_body
    compact_encode
hello_encodes = refl

decode-encode_signed_message_example : decode_signed_message scale_compact hello_bytes ≡ ok hello
decode-encode_signed_message_example =
    decode-encode_signed_message scale_compact hello hello_bytes (omega arith) hello_encodes
