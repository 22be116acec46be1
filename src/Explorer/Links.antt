-- ===== src/Explorer/Links.antt =====
-- explorer/src/routes.ts, one half: references to blocks, the paths of links, and the segments of a path. A text is
-- the list of its character codes.
use scalar_commons_v.Base.{
  ℕ, ◌+◌, Bool, true, false, not, ◌&&◌, ◌||◌, Option, none, some, List, [], ◌∷◌, ◌++◌, leb, eqb,
  length, if◌then◌else◌, Text, char_codes, keep, is_digit, read_digits, decimal, bytes_keys,
}

pub data BlockRef : Type 0 where
  number : ℕ → BlockRef
  hash : Text → BlockRef

abbrev pub is_empty : Text → Bool
is_empty [] = true
is_empty (c ∷ s) = false

abbrev pub max_block_number : ℕ
max_block_number = 0xffffffff

abbrev pub max_safe_integer : ℕ
max_safe_integer = 0x1fffffffffffff

abbrev pub every : (ℕ → Bool) → Text → Bool
every p [] = true
every p (c ∷ s) = p c && every p s

-- `/^\d+$/`.
abbrev pub is_block_number : Text → Bool
is_block_number [] = false
is_block_number (c ∷ s) = every is_digit (c ∷ s)

abbrev pub is_hex_digit : ℕ → Bool
is_hex_digit c = is_digit c || ((leb 97 c && leb c 102) || (leb 65 c && leb c 70))

-- `/^0x[0-9a-f]{64}$/i`.
abbrev pub is_hash_64 : Text → Bool
is_hash_64 (c ∷ d ∷ s) =
    (eqb c 48 && (eqb d 120 || eqb d 88)) && (every is_hex_digit s && eqb (length s) 64)
is_hash_64 _ = false

abbrev pub low_hex : ℕ → ℕ
low_hex c = if leb 65 c && leb c 90 then c + 32 else c

abbrev pub low_hex_text : Text → Text
low_hex_text [] = []
low_hex_text (c ∷ s) = low_hex c ∷ low_hex_text s

-- `Number` of a text of digits is exact up to the safe integers, and above them no block number.
unfoldable pub parse_block_ref : Text → Option BlockRef
parse_block_ref raw =
    let value = read_digits 0 raw in
    if is_block_number raw
    then if leb value max_safe_integer && leb value max_block_number
      then some (number value)
      else none
    else if is_hash_64 raw
    then some (hash (low_hex_text raw))
    else none

abbrev pub block_ref_segment : BlockRef → Text
block_ref_segment (number n) = decimal n
block_ref_segment (hash h) = h

-- `split('/')`, as the first segment and the others.
abbrev pub split_slash : Text → Text × List Text
split_slash [] = ([], [])
split_slash (c ∷ s) =
    let (first, others) = split_slash s in
    if eqb c 47 then ([], first ∷ others) else (c ∷ first, others)

-- The segments of a path name that are not empty.
abbrev pub segments : Text → List Text
segments path =
    let (first, others) = split_slash path in keep (λ s. not (is_empty s)) (first ∷ others)

abbrev pub block_path : BlockRef → Text
block_path ref = char_codes "/block/" ++ block_ref_segment ref

abbrev pub extrinsic_path : BlockRef → ℕ → Text
extrinsic_path ref index =
    char_codes "/extrinsic/" ++ (block_ref_segment ref ++ (char_codes "/" ++ decimal index))

abbrev pub account_path : Text → Text
account_path address = char_codes "/account/" ++ address
