-- ===== src/Sdk/Inbox/Tests.antt =====
-- Runs of the inbox, and its theorems at concrete deliveries.
use scalar_commons_v.Base.{ℕ, ◌≡◌, refl, none, List, [], ◌∷◌, ◌++◌, ◌↔◌, true, lookup, insert}
use scalar_commons_v.Base.Results.{ok}
use scalar_commons_v.Sdk.Bytes.{Bytes, le_value, le_bytes}
use scalar_commons_v.Sdk.Envelope.{
  Envelope, ping, plain, SignedMessage, encode_envelope, encode_agreement, need_len, u32le, u64le,
}
use scalar_commons_v.Sdk.Envelope.RoundTrip.{envelope_bytes}
use scalar_commons_v.Sdk.Nonces.{is_fresh, commit}
use scalar_commons_v.Sdk.Inbox.{
  Inbox, account_id, ReceiveOptions, received, receive, check, check_message, check_call,
  read_plaintext, envelope_signing_hash, genesis_bytes,
}
use scalar_commons_v.Sdk.Inbox.Genuine.{IsGenuine}
use scalar_commons_v.Sdk.Inbox.Complete.{receive_iff}
use scalar_commons_v.Sdk.Inbox.Replay.{Delivery, accepted, IsOrdered, accepted-IsOrdered}
use scalar_commons_v.Sdk.Sample.{sample_platform, pad, zeros, compact_decode}
use scalar_commons_v.Sdk.Reader.{u8, u32, u64, take_bytes, done, ◌>>=◌}
use scalar_commons_v.Sdk.Envelope.Decode.{
  decode_signed_message, read_signed, no_trailing, read_envelope, read_kind, read_agreement,
  read_body, body_of_tag, read_plain, vec,
}

abbrev bob : Inbox
bob = record { self = 9 ∷ zeros 31; genesis = account_id (zeros 32); can_open = true; ss58 = 42 }

abbrev no_options : ReceiveOptions
no_options = record { call = none; sender_messaging_key = none; detached_plaintext = none }

abbrev text : Bytes
text = 104 ∷ 105 ∷ []

abbrev envelope : ℕ → Envelope
envelope counter = record {
  version = 1;
  from = 7 ∷ zeros 31;
  to = 9 ∷ zeros 31;
  kind = ping;
  agreement = none;
  nonce = counter;
  expires_at_block = 77;
  payload_hash = pad 32 text;
}

-- The sample hash is the first bytes of the preimage, which the signing domain opens.
abbrev domain : Bytes
domain = 83 ∷ 99 ∷ 97 ∷ 108 ∷ 97 ∷ 114 ∷ 77 ∷ 115 ∷ 103 ∷ 47 ∷ 118 ∷ 49 ∷ 124 ∷ []

abbrev message : ℕ → SignedMessage
message counter = record {
  envelope = envelope counter;
  signature = pad 64 (domain ++ zeros 19);
  body = plain text;
}

abbrev frame : ℕ → Bytes
frame counter = envelope_bytes (envelope counter) ++ (pad 64 (domain ++ zeros 19) ++ (1 ∷ 8 ∷ text))

abbrev deliveries : List Delivery
deliveries = (frame 5, 70, no_options) ∷ (frame 5, 71, no_options) ∷ (frame 6, 72, no_options) ∷ []

receive_iff_example :
    ((receive sample_platform bob [] (frame 5) 77 no_options).1
      ≡ ok (received sample_platform bob (message 5) text))
    ↔ IsGenuine sample_platform bob []
        (frame 5)
        77
        no_options
        (received sample_platform bob (message 5) text)
receive_iff_example =
    receive_iff sample_platform bob [] (frame 5) 77 no_options
      (received sample_platform bob (message 5) text)

accepted-IsOrdered_example : IsOrdered (accepted sample_platform bob [] deliveries)
accepted-IsOrdered_example = accepted-IsOrdered sample_platform bob deliveries []

-- The first frame is accepted, its copy is a replay, and the next nonce is accepted.
deliveries-accepted : accepted sample_platform bob [] deliveries ≡ (
    received sample_platform bob (message 5) text
    ∷ received sample_platform bob (message 6) text
    ∷ [])
unfolding accepted receive check check_message check_call read_plaintext envelope_signing_hash
    genesis_bytes is_fresh commit lookup insert decode_signed_message read_signed no_trailing
    read_envelope read_kind read_agreement read_body body_of_tag read_plain vec compact_decode
    le_value le_bytes u8 u32 u64 take_bytes done ◌>>=◌ encode_envelope encode_agreement need_len
    u32le u64le
deliveries-accepted = refl
