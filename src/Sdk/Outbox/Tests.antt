-- ===== src/Sdk/Outbox/Tests.antt =====
-- A message made, sent hash-only, read back from the block and received.
use scalar_commons_v.Base.{
  ◌≡◌, ◌≤◌, refl, ap, lookup, bytes_keys, pair_keys, none, some, [], ◌∷◌, ◌++◌, true, arith,
  same_bytes_iff, length,
}
use scalar_commons_v.Base.Results.{ok}
use scalar_commons_v.Sdk.Bytes.{Bytes, le_bytes}
use scalar_commons_v.Sdk.Nonces.{NonceTracker}
use scalar_commons_v.Sdk.Envelope.{
  Envelope, offer, plain, SignedMessage, encode_envelope, encode_signed_message, encode_body,
  encode_agreement, need_len, u32le, u64le,
}
use scalar_commons_v.Sdk.Envelope.RoundTrip.{envelope_bytes}
use scalar_commons_v.Sdk.Envelope.Decode.{decode_signed_message}
use scalar_commons_v.Sdk.Inbox.{
  Inbox, account_id, address, ReceiveOptions, OnChainCall, received, receive, to_account_id,
  genesis_bytes, envelope_signing_hash,
}
use scalar_commons_v.Sdk.Inbox.Genuine.{IsAbove, CallAgrees}
use scalar_commons_v.Sdk.Outbox.{
  MessageInput, SendMessageArgs, SendExtrinsic, outgoing, create_message, send, decode_send_call,
  kind_of_name, created, send_args,
}
use scalar_commons_v.Sdk.Outbox.Delivery.{receive-send-create_message}
use scalar_commons_v.Sdk.Outbox.Carried.{Carries, send-decode_send_call}
use scalar_commons_v.Sdk.Sample.{
  sample_platform, sample_signer, sample-Codecs, pad, zeros, write, compact_encode,
}

abbrev text : Bytes
text = 104 ∷ 105 ∷ []

abbrev input : MessageInput
input = record {
  to = account_id (9 ∷ zeros 31);
  kind = offer;
  plaintext = text;
  body = none;
  nonce = 5;
  expires_at_block = 77;
  genesis_hash = account_id (zeros 32);
  agreement = some (account_id (9 ∷ zeros 31), 3);
}

abbrev envelope : Envelope
envelope =
    created sample_platform sample_signer input (9 ∷ zeros 31)
      (some (record { account = 9 ∷ zeros 31; seq = 3 }))

-- The sample hash is the first bytes of the preimage, which the signing domain opens.
abbrev domain : Bytes
domain = 83 ∷ 99 ∷ 97 ∷ 108 ∷ 97 ∷ 114 ∷ 77 ∷ 115 ∷ 103 ∷ 47 ∷ 118 ∷ 49 ∷ 124 ∷ []

abbrev message : SignedMessage
message = record { envelope = envelope; signature = pad 64 (domain ++ zeros 19); body = plain text }

abbrev frame : Bytes
frame = envelope_bytes envelope ++ (pad 64 (domain ++ zeros 19) ++ (0 ∷ []))

abbrev args : SendMessageArgs
args = send_args sample_platform 42 envelope frame

abbrev extrinsic : SendExtrinsic
extrinsic = record {
  to = args.to;
  kind = "Offer";
  agreement = args.agreement;
  payload_hash = some args.payload_hash;
  payload = frame;
}

extrinsic-Carries : Carries sample_platform args extrinsic
extrinsic-Carries = record {
  to = refl;
  kind = refl;
  agreement = refl;
  payload_hash = refl;
  payload = sample-Codecs.hex_codec frame;
}

message_created : create_message sample_platform sample_signer input ≡ ok message
unfolding create_message to_account_id envelope_signing_hash genesis_bytes encode_envelope
    encode_agreement need_len u32le u64le
message_created = refl

message_sent : send sample_platform (7 ∷ zeros 31) 42 message true ≡ ok args
unfolding send encode_signed_message encode_envelope encode_agreement need_len u32le u64le
    encode_body compact_encode le_bytes
message_sent = refl

abbrev call : OnChainCall
call = record {
  origin = address (write (7 ∷ zeros 31));
  to = address (write (9 ∷ zeros 31));
  kind = offer;
  agreement = some (address (write (9 ∷ zeros 31)), 3);
  payload_hash = some (pad 32 text);
}

message_read : decode_send_call sample_platform extrinsic (write (7 ∷ zeros 31)) ≡ ok (call, frame)
unfolding decode_send_call kind_of_name
message_read = refl

abbrev bob : Inbox
bob = record { self = 9 ∷ zeros 31; genesis = account_id (zeros 32); can_open = true; ss58 = 42 }

abbrev options : ReceiveOptions
options = record { call = some call; sender_messaging_key = none; detached_plaintext = some text }

recipient_known : to_account_id sample_platform (account_id (9 ∷ zeros 31)) ≡ ok (9 ∷ zeros 31)
unfolding to_account_id
recipient_known = refl

abbrev nothing_seen : NonceTracker
nothing_seen = []

none_before : IsAbove (lookup (7 ∷ zeros 31, 9 ∷ zeros 31) nothing_seen) 5
unfolding lookup
none_before = tt

send-decode_send_call_example :
    (read : OnChainCall) × (bytes : Bytes) × (decode_send_call sample_platform extrinsic
        (write (7 ∷ zeros 31))
      ≡ ok (read, bytes))
    × CallAgrees sample_platform read envelope
    × (decode_signed_message sample_platform.compact bytes ≡ ok (outgoing true message))
    × (length bytes ≤ 2048)
send-decode_send_call_example =
    send-decode_send_call sample_platform (7 ∷ zeros 31) 42 message true args extrinsic
      sample-Codecs message_sent extrinsic-Carries

receive-send-create_message_example :
    (receive sample_platform bob [] frame 70 options).1
    ≡ ok (received sample_platform bob (outgoing true message) text)
receive-send-create_message_example =
    receive-send-create_message sample_platform sample_signer input message 42 true args extrinsic
      call frame bob [] 70 options sample-Codecs
      (λ hash. ap some ((same_bytes_iff (pad 64 hash) (pad 64 hash)).1 refl)) message_created
      message_sent extrinsic-Carries message_read refl recipient_known refl (omega arith)
      none_before refl
