-- ===== src/Indexer/Decode.antt =====
-- indexer/src/decode.ts, and `plain` of indexer/src/ingest.ts: identifiers, decoded values as JSON values, and
-- the accounts that an event names. `isAccountType` is a parameter where it is used.
use scalar_commons_v.Base.{
  ℕ, Bool, String, List, [], ◌∷◌, ◌++◌, ltb, any, if◌then◌else◌, ◌==◌, string_keys, decimal,
  digit_string,
}

-- `<block>-<index>`, of an extrinsic or of an event.
unfoldable pub row_id : ℕ → ℕ → String
row_id block index = digit_string (decimal block) (String.◌∷◌ "-" (digit_string (decimal index) ""))

-- What the SCALE decoder gives: an integer comes with its width in bits, an enum with its variant and payload.
mutual
  pub data Codec : Type 0 where
    absent : Codec
    present : Codec → Codec
    account_of : String → Codec
    hex_bytes : String → Codec
    integer : (bits value : ℕ) → Codec
    boolean : Bool → Codec
    sequence : Codecs → Codec
    struct : CodecFields → Codec
    variant : String → Codec → Codec

  pub data Codecs : Type 0 where
    end : Codecs
    item : Codec → Codecs → Codecs

  pub data CodecFields : Type 0 where
    last : CodecFields
    member : String → Codec → CodecFields → CodecFields

mutual
  pub data Json : Type 0 where
    null : Json
    truth : Bool → Json
    number : ℕ → Json
    text : String → Json
    array : Items → Json
    object : Members → Json

  pub data Items : Type 0 where
    no_items : Items
    one_item : Json → Items → Items

  pub data Members : Type 0 where
    no_members : Members
    one_member : String → Json → Members → Members

abbrev pub safe_integer_bits : ℕ
safe_integer_bits = 32

-- A variant without a payload, or with an empty one, is its name.
abbrev pub as_variant : String → Json → Json
as_variant name null = text name
as_variant name (object no_members) = text name
as_variant name (object (one_member key value members)) = object (
    one_member "type" (text name)
      (one_member "value" (object (one_member key value members)) no_members))
as_variant name (array no_items) = text name
as_variant name (array (one_item value items)) =
    object
      (one_member "type" (text name) (one_member "value" (array (one_item value items)) no_members))
as_variant name (truth b) =
    object (one_member "type" (text name) (one_member "value" (truth b) no_members))
as_variant name (number n) =
    object (one_member "type" (text name) (one_member "value" (number n) no_members))
as_variant name (text s) =
    object (one_member "type" (text name) (one_member "value" (text s) no_members))

abbrev pub as_integer : ℕ → ℕ → Json
as_integer bits value =
    if ltb safe_integer_bits bits then text (digit_string (decimal value) "") else number value

unfoldable mutual
  pub plain : Codec → Json
  plain absent = null
  plain (present value) = plain value
  plain (account_of address) = text address
  plain (hex_bytes hex) = text hex
  plain (integer bits value) = as_integer bits value
  plain (boolean b) = truth b
  plain (sequence values) = array (plain_items values)
  plain (struct fields) = object (plain_members fields)
  plain (variant name payload) = as_variant name (plain payload)

  pub plain_items : Codecs → Items
  plain_items end = no_items
  plain_items (item value values) = one_item (plain value) (plain_items values)

  pub plain_members : CodecFields → Members
  plain_members last = no_members
  plain_members (member name value fields) = one_member name (plain value) (plain_members fields)

-- `collectStrings`.
unfoldable mutual
  pub strings_in : Json → List String
  strings_in null = []
  strings_in (truth b) = []
  strings_in (number n) = []
  strings_in (text s) = s ∷ []
  strings_in (array items) = strings_in_items items
  strings_in (object members) = strings_in_members members

  pub strings_in_items : Items → List String
  strings_in_items no_items = []
  strings_in_items (one_item value items) = strings_in value ++ strings_in_items items

  pub strings_in_members : Members → List String
  strings_in_members no_members = []
  strings_in_members (one_member key value members) = strings_in value ++ strings_in_members members

pub record DecodedArg : Type 0 where
  pub name : String
  pub type : String
  pub value : Json

abbrev pub was_seen : String → List String → Bool
was_seen s strings = any (λ t. t == s) strings

-- `new Set`, in order of first insertion, on top of what was inserted before.
abbrev pub distinct_after : List String → List String → List String
distinct_after seen [] = seen
distinct_after seen (s ∷ strings) =
    distinct_after (if was_seen s seen then seen else seen ++ (s ∷ [])) strings

abbrev pub account_strings : (String → Bool) → List DecodedArg → List String
account_strings is_account [] = []
account_strings is_account (arg ∷ args) =
    let later = account_strings is_account args in
    if is_account arg.type then strings_in arg.value ++ later else later

unfoldable pub accounts_from_args : (String → Bool) → List DecodedArg → List String
accounts_from_args is_account args = distinct_after [] (account_strings is_account args)
