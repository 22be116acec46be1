-- ===== src/Sdk/Sample.antt =====
-- A concrete platform for runs and examples: SCALE's compact integers as length prefix, and stand-ins for the
-- hash, the signature and the text codecs, which keep the laws the theorems ask for.
use Prim.Native.Char.{code}
use scalar_commons_v.Base.{
  ℕ, ◌+◌, ◌*◌, ◌/◌, ◌%◌, ◌^◌, ◌<◌, ◌≡◌, refl, ap, ◌∙◌, true, some, [], ◌∷◌, ◌++◌, length, take,
  String, same_bytes, arith, zero, suc, ltb, eqb, if◌then◌else◌,
}
use scalar_commons_v.Base.Results.{ok}
use scalar_commons_v.Sdk.Bytes.{Bytes, le_bytes, le_value}
use scalar_commons_v.Sdk.Envelope.{Compact}
use scalar_commons_v.Sdk.Inbox.{Platform}
use scalar_commons_v.Sdk.Outbox.{MessageSigner}
use scalar_commons_v.Sdk.Outbox.Carried.{Codecs}

unfoldable pub compact_encode : ℕ → Bytes
compact_encode n =
    if ltb n 64
    then 4 * n ∷ []
    else if ltb n (2 ^ 14)
    then le_bytes 2 (4 * n + 1)
    else if ltb n (2 ^ 30)
    then le_bytes 4 (4 * n + 2)
    else 3 ∷ le_bytes 4 n

unfoldable pub compact_decode : Bytes → ℕ × ℕ
compact_decode [] = (1, 0)
compact_decode (b ∷ bytes) =
    if eqb (b % 4) 0
    then (1, b / 4)
    else if eqb (b % 4) 1
    then (2, le_value (take 2 (b ∷ bytes)) / 4)
    else if eqb (b % 4) 2
    then (4, le_value (take 4 (b ∷ bytes)) / 4)
    else (5, le_value (take 4 bytes))

pub compact_law :
    (n : ℕ) (rest : Bytes)
    → n < 2 ^ 32
    → compact_decode (compact_encode n ++ rest) ≡ (length (compact_encode n), n)
unfolding compact_encode compact_decode le_bytes le_value
compact_law n rest h = ground arith

abbrev pub scale_compact : Compact
scale_compact = record {
  encode = compact_encode;
  decode = compact_decode;
  decode-encode = compact_law;
}

abbrev pub zeros : ℕ → Bytes
zeros zero = []
zeros (suc n) = 0 ∷ zeros n

-- Bytes in unary, each closed by a bar.
abbrev write_byte : ℕ → String → String
write_byte zero s = String.◌∷◌ "|" s
write_byte (suc n) s = String.◌∷◌ "1" (write_byte n s)

abbrev pub write : Bytes → String
write [] = ""
write (b ∷ bytes) = write_byte b (write bytes)

abbrev bump : Bytes → Bytes
bump [] = []
bump (b ∷ bytes) = suc b ∷ bytes

abbrev parse : String → Bytes
parse String.[] = []
parse (String.◌∷◌ c s) = let later = parse s in if eqb (code c) 49 then bump later else 0 ∷ later

parse-write_byte : (n : ℕ) (s : String) → parse (write_byte n s) ≡ n ∷ parse s
parse-write_byte zero s = refl
parse-write_byte (suc n) s = rw (parse-write_byte n s) refl

pub parse-write : (bytes : Bytes) → parse (write bytes) ≡ bytes
parse-write [] = refl
parse-write (b ∷ bytes) = parse-write_byte b (write bytes) ∙ rw (parse-write bytes) refl

abbrev pub pad : ℕ → Bytes → Bytes
pad n bytes = take n (bytes ++ zeros n)

abbrev pub sample_platform : Platform
sample_platform = record {
  compact = scale_compact;
  blake2 = pad 32;
  verify = λ hash signature key. some (same_bytes signature (pad 64 hash));
  decode_address = λ s. some (parse s);
  encode_address = λ account ss58. write account;
  hex_bytes = λ s. some (parse s);
  to_hex = write;
  open_body = λ key nonce ciphertext. ok ciphertext;
}

pub sample-Codecs : Codecs sample_platform
sample-Codecs = record {
  address_codec = λ account ss58 h. ap some (parse-write account);
  hex_codec = λ bytes. ap some (parse-write bytes);
}

abbrev pub sample_signer : MessageSigner
sample_signer = record { sr25519 = true; public_key = 7 ∷ zeros 31; sign = pad 64 }
