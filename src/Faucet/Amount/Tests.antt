-- ===== src/Faucet/Amount/Tests.antt =====
-- Amounts of a drip.
use scalar_commons_v.Base.{◌≡◌, refl, Text, [], ◌∷◌, decimal_from}
use scalar_commons_v.Base.Results.{ok, err}
use scalar_commons_v.Faucet.Amount.{
  too_precise, not_an_amount, parse_cmn_to_plancks, format_plancks_as_cmn,
}
use scalar_commons_v.Faucet.Amount.RoundTrip.{parse-format_plancks}

-- "+2.50 " with a blank.
abbrev two_and_a_half : Text
two_and_a_half = b'+' ∷ b'2' ∷ b'.' ∷ b'5' ∷ b'0' ∷ b' ' ∷ []

read_half : parse_cmn_to_plancks two_and_a_half ≡ ok 2_500_000_000_000
unfolding parse_cmn_to_plancks
read_half = refl

no_digits_after_point : parse_cmn_to_plancks (b'2' ∷ b'.' ∷ []) ≡ err not_an_amount
unfolding parse_cmn_to_plancks
no_digits_after_point = refl

sub_planck :
    parse_cmn_to_plancks (
      b'0' ∷ b'.' ∷ b'0' ∷ b'0' ∷ b'0' ∷ b'0' ∷ b'0' ∷ b'0' ∷ b'0' ∷ b'0' ∷ b'0' ∷ b'0' ∷ b'0'
      ∷ b'0' ∷ b'1' ∷ [])
    ≡ err too_precise
unfolding parse_cmn_to_plancks
sub_planck = refl

formatted : format_plancks_as_cmn 2_500_000_000_000 ≡ b'2' ∷ b'.' ∷ b'5' ∷ []
unfolding format_plancks_as_cmn decimal_from
formatted = refl

parse-format_plancks_example :
    parse_cmn_to_plancks (format_plancks_as_cmn 9_007_199_254_740_993) ≡ ok 9_007_199_254_740_993
parse-format_plancks_example = parse-format_plancks 9_007_199_254_740_993
