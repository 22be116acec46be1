-- ===== src/Faucet/Amount.antt =====
-- faucet/src/amount.ts: CMN amounts as texts, and plancks as whole numbers. A text is the list of its
-- character codes; a negative number of plancks, for which the formatter throws, has no counterpart.
mod RoundTrip
mod Tests
use scalar_commons_v.Base.{
  ℕ, ◌+◌, ◌-◌, ◌*◌, ◌/◌, ◌%◌, ◌^◌, Bool, true, false, not, ◌&&◌, ◌||◌, List, [], ◌∷◌, ◌++◌, ltb,
  leb, eqb, length, if◌then◌else◌, Text, is_digit, decimal, read_digits, pad_end, pad_start,
  strip_zeros,
}
use scalar_commons_v.Base.Results.{Result, ok, err, ◌>>=◌, ◌>>◌, require}

abbrev pub cmn_decimals : ℕ
cmn_decimals = 12

abbrev pub plancks_per_cmn : ℕ
plancks_per_cmn = 10 ^ cmn_decimals

pub data BadAmount : Type 0 where
  not_an_amount too_precise : BadAmount

-- The characters that `trim` removes.
abbrev pub is_blank : ℕ → Bool
is_blank n =
    (leb 9 n && leb n 13)
    || (eqb n 32
        || (eqb n 160
            || (eqb n 5760
                || ((leb 8192 n && leb n 8202)
                    || (eqb n 8232
                        || (eqb n 8233
                            || (eqb n 8239 || (eqb n 8287 || (eqb n 12288 || eqb n 65279)))))))))

abbrev pub skip_blanks : Text → Text
skip_blanks [] = []
skip_blanks (c ∷ s) = let rest = skip_blanks s in if is_blank c then rest else c ∷ s

abbrev pub unless_last_blank : ℕ → Text → Text
unless_last_blank c [] = if is_blank c then [] else c ∷ []
unless_last_blank c (d ∷ s) = c ∷ (d ∷ s)

abbrev pub drop_last_blanks : Text → Text
drop_last_blanks [] = []
drop_last_blanks (c ∷ s) = unless_last_blank c (drop_last_blanks s)

abbrev pub trim_text : Text → Text
trim_text s = drop_last_blanks (skip_blanks s)

-- `\d*`, greedy, and what follows.
abbrev pub take_digits : Text → Text × Text
take_digits [] = ([], [])
take_digits (c ∷ s) =
    let (digits, rest) = take_digits s in if is_digit c then (c ∷ digits, rest) else ([], c ∷ s)

-- `\+?`.
abbrev pub skip_plus : Text → Text
skip_plus [] = []
skip_plus (c ∷ s) = if eqb c b'+' then s else c ∷ s

-- The match of the amount: the digits before the point and after it.
pub record Decimals : Type 0 where
  pub whole : Text
  pub fraction : Text

-- `(?:\.(\d+))?$`, after the whole part.
abbrev pub fraction_match : Text → Text × Text → Result BadAmount Decimals
fraction_match whole (d ∷ digits, []) = ok (record { whole = whole; fraction = d ∷ digits })
fraction_match whole (d ∷ digits, c ∷ rest) = err not_an_amount
fraction_match whole ([], rest) = err not_an_amount

abbrev pub whole_match : Text × Text → Result BadAmount Decimals
whole_match ([], rest) = err not_an_amount
whole_match (d ∷ digits, []) = ok (record { whole = d ∷ digits; fraction = [] })
whole_match (d ∷ digits, c ∷ rest) =
    if eqb c b'.' then fraction_match (d ∷ digits) (take_digits rest) else err not_an_amount

unfoldable pub parse_cmn_to_plancks : Text → Result BadAmount ℕ
parse_cmn_to_plancks input = do
  amount ← whole_match (take_digits (skip_plus (trim_text input)))
  require (leb (length amount.fraction) cmn_decimals) too_precise
  ok (
      read_digits 0 amount.whole * plancks_per_cmn
      + read_digits 0 (pad_end cmn_decimals amount.fraction))

abbrev pub with_fraction : Text → ℕ → Text
with_fraction whole remainder =
    whole ++ (b'.' ∷ strip_zeros (pad_start cmn_decimals (decimal remainder)))

unfoldable pub format_plancks_as_cmn : ℕ → Text
format_plancks_as_cmn plancks =
    let whole = decimal (plancks / plancks_per_cmn) in
    let remainder = plancks % plancks_per_cmn in
    if eqb remainder 0 then whole else with_fraction whole remainder
