-- ===== src/Faucet/Amount/RoundTrip.antt =====
-- A formatted amount is read back.
use scalar_commons_v.Base.{
  ℕ, ◌+◌, ◌-◌, ◌/◌, ◌%◌, ◌<◌, ◌≡◌, refl, sym, ap, ◌∙◌, arith, true, false, [], ◌∷◌, ◌++◌, ltb, leb,
  eqb, length, Bool-cases, inl, inr, All, Text, is_digit, IsDigits, decimal, read_digits, pad_end,
  pad_start, strip_zeros, zeros_text, read-decimal, decimal_from-IsDigits, length-decimal_from,
  decimal_from-ne-nil, length-zeros_text, read-zeros_text, zeros_text-IsDigits, pad_end-strip_zeros,
  strip_zeros-IsDigits, length-strip_zeros, IsDigits-append, length-append, ltb→lt, eqb_iff,
}
use mathlib.Core.List.{append-nil}
use scalar_commons_v.Base.Results.{ok}
use scalar_commons_v.Faucet.Amount.{
  cmn_decimals, plancks_per_cmn, is_blank, unless_last_blank, drop_last_blanks, trim_text,
  take_digits, skip_plus, fraction_match, whole_match, parse_cmn_to_plancks, format_plancks_as_cmn,
}

-- No blanks, and so nothing to trim.
abbrev IsTight : Text → Type 0
IsTight = All (λ c. is_blank c ≡ false)

drop_last_blanks-IsTight : (s : Text) → IsTight s → drop_last_blanks s ≡ s
drop_last_blanks-IsTight [] h = refl
drop_last_blanks-IsTight (c ∷ s) (h, hs) = rw (drop_last_blanks-IsTight s hs) (unless_lem c s h)
  where
    unless_lem : (c : ℕ) (s : Text) → is_blank c ≡ false → unless_last_blank c s ≡ c ∷ s
    unless_lem c [] h = rw h refl
    unless_lem c (d ∷ s) h = refl

trim_text-IsTight : (s : Text) → IsTight s → trim_text s ≡ s
trim_text-IsTight [] h = refl
trim_text-IsTight (c ∷ s) (h, hs) = rw h (drop_last_blanks-IsTight (c ∷ s) (h, hs))

digit_tight : (c : ℕ) → is_digit c ≡ true → is_blank c ≡ false
digit_tight c h = ground arith

append-IsTight : (s t : Text) → IsDigits s → IsTight t → IsTight (s ++ t)
append-IsTight [] t h h' = h'
append-IsTight (c ∷ s) t (h, hs) h' = (digit_tight c h, append-IsTight s t hs h')

IsDigits-IsTight : (s : Text) → IsDigits s → IsTight s
IsDigits-IsTight [] h = tt
IsDigits-IsTight (c ∷ s) (h, hs) = (digit_tight c h, IsDigits-IsTight s hs)

take_digits-append :
    (s t : Text) → IsDigits s → take_digits t ≡ ([], t) → take_digits (s ++ t) ≡ (s, t)
take_digits-append [] t h stop = stop
take_digits-append (c ∷ s) t (h, hs) stop = rw (h, take_digits-append s t hs stop) refl

skip_plus_digit : (s t : Text) → IsDigits s → 0 < length s → skip_plus (s ++ t) ≡ s ++ t
skip_plus_digit [] t h pos = absurd (omega arith)
skip_plus_digit (c ∷ s) t (h, hs) pos =
    let other : eqb c 43 ≡ false = ground (arith, h) in rw other refl

-- The text of an amount splits into its whole part and the rest.
scan_amount :
    (s t : Text)
    → IsDigits s
    → 0 < length s
    → IsTight t
    → take_digits t ≡ ([], t)
    → take_digits (skip_plus (trim_text (s ++ t))) ≡ (s, t)
scan_amount s t h pos tight stop =
    rw (trim_text-IsTight (s ++ t) (append-IsTight s t h tight), skip_plus_digit s t h pos)
      (take_digits-append s t h stop)

whole_match_none :
    (s : Text) → 0 < length s → whole_match (s, []) ≡ ok (record { whole = s; fraction = [] })
whole_match_none [] pos = absurd (omega arith)
whole_match_none (c ∷ s) pos = refl

fraction_match_lem :
    (s t : Text) → 0 < length t → fraction_match s (t, []) ≡ ok (record { whole = s; fraction = t })
fraction_match_lem s [] pos = absurd (omega arith)
fraction_match_lem s (c ∷ t) pos = refl

whole_match_point :
    (s t : Text)
    → 0 < length s
    → 0 < length t
    → IsDigits t
    → whole_match (s, b'.' ∷ t) ≡ ok (record { whole = s; fraction = t })
whole_match_point [] t pos more h = absurd (omega arith)
whole_match_point (c ∷ s) t pos more h =
    let all : take_digits t ≡ (t, []) =
      ap take_digits (sym (append-nil t)) ∙ take_digits-append t [] h refl in
    rw all (fraction_match_lem (c ∷ s) t more)

decimal-IsDigits : (n : ℕ) → IsDigits (decimal n)
decimal-IsDigits n = decimal_from-IsDigits (n + 1) n

decimal-pos : (n : ℕ) → 0 < length (decimal n)
decimal-pos n = decimal_from-ne-nil (n + 1) n (omega arith)

-- The remainder, as twelve digits.
abbrev places : ℕ → Text
places r = pad_start cmn_decimals (decimal r)

length-places : (r : ℕ) → r < plancks_per_cmn → length (places r) ≡ 12
length-places r h = omega (
  arith,
  length-append {0} (zeros_text (12 - length (decimal r))) (decimal r),
  length-zeros_text (12 - length (decimal r)),
  length-decimal_from 12 (r + 1) r (omega arith) h,
)

read-places : (r : ℕ) → read_digits 0 (places r) ≡ r
read-places r = read-zeros_text (12 - length (decimal r)) (decimal r) ∙ read-decimal r

pad_end-places : (r : ℕ) → r < plancks_per_cmn → pad_end 12 (strip_zeros (places r)) ≡ places r
pad_end-places r h =
    ap (λ z. pad_end z (strip_zeros (places r))) (sym (length-places r h))
    ∙ pad_end-strip_zeros (places r)

no_length : (s : Text) → length s ≡ 0 → s ≡ []
no_length [] h = refl
no_length (c ∷ s) h = absurd (omega (arith, h))

strip_zeros-pos : (r : ℕ) → r < plancks_per_cmn → 0 < r → 0 < length (strip_zeros (places r))
strip_zeros-pos r h pos = elim (Bool-cases (ltb 0 (length (strip_zeros (places r))))) [
  | inl some_left ↦ ltb→lt 0 (length (strip_zeros (places r))) some_left
  | inr none_left ↦
      let empty = no_length (strip_zeros (places r)) (ground (arith, none_left)) in
      let zero_value : r ≡ 0 =
        sym (read-places r)
        ∙ ap (read_digits 0) (sym (pad_end-places r h) ∙ ap (pad_end 12) empty) in
      absurd (omega (arith, zero_value))
]

places-IsDigits : (r : ℕ) → IsDigits (places r)
places-IsDigits r =
    IsDigits-append (zeros_text (12 - length (decimal r))) (decimal r)
      (zeros_text-IsDigits (12 - length (decimal r))) (decimal-IsDigits r)

-- Any number of plancks, formatted as CMN, is read back as that number.
pub parse-format_plancks : (n : ℕ) → parse_cmn_to_plancks (format_plancks_as_cmn n) ≡ ok n
unfolding parse_cmn_to_plancks format_plancks_as_cmn
parse-format_plancks n =
    let w = decimal (n / plancks_per_cmn) in
    let r = n % plancks_per_cmn in
    let low : r < plancks_per_cmn = omega arith in
    let value = read-decimal (n / plancks_per_cmn) in
    let digits = decimal-IsDigits (n / plancks_per_cmn) in
    let pos = decimal-pos (n / plancks_per_cmn) in
    elim (Bool-cases (eqb r 0)) [
      | inl exact ↦
          let scanned : take_digits (skip_plus (trim_text w)) ≡ (w, []) =
            ap (λ z. take_digits (skip_plus (trim_text z))) (sym (append-nil w))
            ∙ scan_amount w [] digits pos tt refl in
          rw (exact, scanned, whole_match_none w pos)
            (ap ok (omega (arith, value, (eqb_iff r 0).0 exact)))
      | inr part ↦
          let f = strip_zeros (places r) in
          let some_part : 0 < r = ground (arith, part) in
          let more = strip_zeros-pos r low some_part in
          let f_digits = strip_zeros-IsDigits (places r) (places-IsDigits r) in
          let scanned =
            scan_amount w (b'.' ∷ f) digits pos (refl, IsDigits-IsTight f f_digits) refl in
          let short : leb (length f) 12 ≡ true =
            ground (arith, length-strip_zeros (places r), length-places r low) in
          rw (part, scanned, whole_match_point w f pos more f_digits, short, pad_end-places r low)
            (ap ok (omega (arith, value, read-places r)))
    ]
