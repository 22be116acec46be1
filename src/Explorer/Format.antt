-- ===== src/Explorer/Format.antt =====
-- explorer/src/format.ts: amounts, hashes and escaped values as texts, which are lists of character codes.
-- A number of plancks is a sign and a magnitude. `formatTimestamp` has no counterpart.
pub mod Escape
mod Tests
use scalar_commons_v.Base.{
  ℕ, zero, suc, ◌+◌, ◌-◌, ◌*◌, ◌/◌, ◌%◌, ◌^◌, Bool, true, false, ◌&&◌, List, [], ◌∷◌, ◌++◌, ltb,
  leb, eqb, length, take, drop, if◌then◌else◌, Text, char_codes, decimal, pad_start, strip_zeros,
}

abbrev pub lt_entity : Text
lt_entity = char_codes "&lt;"

abbrev pub gt_entity : Text
gt_entity = char_codes "&gt;"

abbrev pub amp_entity : Text
amp_entity = char_codes "&amp;"

abbrev pub quot_entity : Text
quot_entity = char_codes "&quot;"

abbrev pub apos_entity : Text
apos_entity = char_codes "&#39;"

-- `replace` of every occurrence of a character.
abbrev pub replace_all : ℕ → Text → Text → Text
replace_all c new [] = []
replace_all c new (d ∷ s) = (if eqb d c then new else d ∷ []) ++ replace_all c new s

unfoldable pub escape_html : Text → Text
escape_html value = replace_all 39 apos_entity (
    replace_all 34 quot_entity
      (replace_all 62 gt_entity (replace_all 60 lt_entity (replace_all 38 amp_entity value))))

-- A comma before a digit that has a positive multiple of three digits from it on, and a digit before it.
abbrev pub group_after : Text → Text
group_after [] = []
group_after (c ∷ s) = (if eqb (length (c ∷ s) % 3) 0 then 44 ∷ c ∷ [] else c ∷ []) ++ group_after s

abbrev pub grouped : Text → Text
grouped [] = []
grouped (c ∷ s) = c ∷ group_after s

abbrev pub fraction_text : ℕ → ℕ → Text
fraction_text fraction decimals =
    if eqb fraction 0 then [] else 46 ∷ strip_zeros (pad_start decimals (decimal fraction))

unfoldable pub format_balance : (negative : Bool) (magnitude decimals : ℕ) (symbol : Text) → Text
format_balance negative magnitude decimals symbol =
    (if negative then 45 ∷ [] else [])
    ++ grouped (decimal (magnitude / 10 ^ decimals))
    ++ fraction_text (magnitude % 10 ^ decimals) decimals
    ++ (32 ∷ symbol)

abbrev pub has_0x : Text → Bool
has_0x (c ∷ d ∷ s) = eqb c 48 && eqb d 120
has_0x _ = false

-- `slice(-keep)`, which is the whole text for 0.
abbrev pub last_part : ℕ → Text → Text
last_part keep body = if eqb keep 0 then body else drop (length body - keep) body

unfoldable pub short_hash : Text → ℕ → Text
short_hash hash keep =
    let body = if has_0x hash then drop 2 hash else hash in
    let prefix = if has_0x hash then 48 ∷ 120 ∷ [] else [] in
    if leb (length body) (keep * 2)
    then hash
    else prefix ++ take keep body ++ (8230 ∷ []) ++ last_part keep body
