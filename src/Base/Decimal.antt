-- ===== src/Base/Decimal.antt =====
-- Decimal numerals as texts, which are lists of character codes: `toString` of a whole number, its reading,
-- and the padding and stripping of zeros.
use Prim.Native.Char.{Char, code}
use Prim.Native.String.{String}
use Prim.Native.Nat.{ℕ, zero, suc, ◌+◌, ◌-◌, ◌*◌, ◌/◌, ◌%◌, ◌^◌, ◌≤◌, ◌<◌}
use mathlib.Core.Path.{◌≡◌, refl, sym, ap, ◌∙◌}
use mathlib.Core.Logic.{inl, inr}
use mathlib.Core.Bool.{Bool, true, false, ◌&&◌}
use mathlib.Core.List.{List, [], ◌∷◌, ◌++◌}
use native.Mathlib.Omega.{arith}
use native.Mathlib.Nat.{pow-succ'}
use scalar_commons_v.Base.Tests.{leb, ltb, eqb, if◌then◌else◌, Bool-cases, not_ltb→le}
use scalar_commons_v.Base.Lists.{length, All, length-append}

abbrev pub Text : Type 0
Text = List ℕ

-- The characters of a string by their codes.
abbrev pub char_codes : String → Text
char_codes String.[] = []
char_codes (String.◌∷◌ c s) = code c ∷ char_codes s

-- `startsWith`.
abbrev pub starts_with : Text → Text → Bool
starts_with s [] = true
starts_with [] (d ∷ t) = false
starts_with (c ∷ s) (d ∷ t) = eqb c d && starts_with s t

abbrev pub is_digit : ℕ → Bool
is_digit c = leb 48 c && leb c 57

-- `toString`, with fuel above the number.
unfoldable pub decimal_from : ℕ → ℕ → Text
decimal_from zero n = []
decimal_from (suc fuel) n =
    let before = decimal_from fuel (n / 10) ++ ((48 + n % 10) ∷ []) in
    if ltb n 10 then (48 + n) ∷ [] else before

abbrev pub decimal : ℕ → Text
decimal n = decimal_from (n + 1) n

-- `BigInt` of a text of digits, after a number whose digits came before.
abbrev pub read_digits : ℕ → Text → ℕ
read_digits n [] = n
read_digits n (c ∷ s) = read_digits (10 * n + (c - 48)) s

abbrev pub zeros_text : ℕ → Text
zeros_text zero = []
zeros_text (suc n) = 48 ∷ zeros_text n

-- `padEnd(n, '0')` and `padStart(n, '0')`.
abbrev pub pad_end : ℕ → Text → Text
pad_end n s = s ++ zeros_text (n - length s)

abbrev pub pad_start : ℕ → Text → Text
pad_start n s = zeros_text (n - length s) ++ s

abbrev pub unless_last_zero : ℕ → Text → Text
unless_last_zero c [] = if eqb c 48 then [] else c ∷ []
unless_last_zero c (d ∷ s) = c ∷ (d ∷ s)

-- `replace(/0+$/, '')`.
abbrev pub strip_zeros : Text → Text
strip_zeros [] = []
strip_zeros (c ∷ s) = unless_last_zero c (strip_zeros s)

abbrev pub IsDigits : Text → Type 0
IsDigits = All (λ c. is_digit c ≡ true)

pub read_digits-append :
    (n : ℕ) (s t : Text) → read_digits n (s ++ t) ≡ read_digits (read_digits n s) t
read_digits-append n [] t = refl
read_digits-append n (c ∷ s) t = read_digits-append (10 * n + (c - 48)) s t

read-decimal_from : (fuel n : ℕ) → n < fuel → read_digits 0 (decimal_from fuel n) ≡ n
unfolding decimal_from
read-decimal_from zero n h = absurd (omega arith)
read-decimal_from (suc fuel) n h = elim (Bool-cases (ltb n 10)) [
  | inl low ↦ rw low (omega arith)
  | inr high ↦
      let ih = read-decimal_from fuel (n / 10) (ground (arith, high)) in
      rw high (
        read_digits-append 0 (decimal_from fuel (n / 10)) ((48 + n % 10) ∷ [])
        ∙ rw ih (omega arith))
]

pub read-decimal : (n : ℕ) → read_digits 0 (decimal n) ≡ n
read-decimal n = read-decimal_from (n + 1) n (omega arith)

pub IsDigits-append : (s t : Text) → IsDigits s → IsDigits t → IsDigits (s ++ t)
IsDigits-append [] t h h' = h'
IsDigits-append (c ∷ s) t (h, hs) h' = (h, IsDigits-append s t hs h')

pub decimal_from-IsDigits : (fuel n : ℕ) → IsDigits (decimal_from fuel n)
unfolding decimal_from
decimal_from-IsDigits zero n = tt
decimal_from-IsDigits (suc fuel) n = elim (Bool-cases (ltb n 10)) [
  | inl low ↦ rw low (ground (arith, low), tt)
  | inr high ↦ rw high (
      IsDigits-append (decimal_from fuel (n / 10)) ((48 + n % 10) ∷ [])
        (decimal_from-IsDigits fuel (n / 10)) (ground arith, tt))
]

pow_ten : (k : ℕ) → 10 ^ suc k ≡ 10 * 10 ^ k
pow_ten k = pow-succ' 10 k

more_digits : (k n : ℕ) → n < 10 * 10 ^ k → 10 ≤ n → 0 < k
more_digits zero n h low = absurd (omega arith)
more_digits (suc k) n h low = omega arith

pub length-decimal_from : (k fuel n : ℕ) → 0 < k → n < 10 ^ k → length (decimal_from fuel n) ≤ k
unfolding decimal_from
length-decimal_from zero fuel n pos h = absurd (omega arith)
length-decimal_from (suc k) zero n pos h = omega arith
length-decimal_from (suc k) (suc fuel) n pos h = elim (Bool-cases (ltb n 10)) [
  | inl low ↦ rw low (omega arith)
  | inr high ↦
      let tens : n < 10 * 10 ^ k = omega (arith, h, pow_ten k) in
      let many : 0 < k = more_digits k n tens (not_ltb→le n 10 high) in
      rw high (
        omega (
          arith,
          length-append {0} (decimal_from fuel (n / 10)) ((48 + n % 10) ∷ []),
          length-decimal_from k fuel (n / 10) many (omega (arith, tens)),
        ))
]

pub decimal_from-ne-nil : (fuel n : ℕ) → n < fuel → 0 < length (decimal_from fuel n)
unfolding decimal_from
decimal_from-ne-nil zero n h = absurd (omega arith)
decimal_from-ne-nil (suc fuel) n h = elim (Bool-cases (ltb n 10)) [
  | inl low ↦ rw low (omega arith)
  | inr high ↦
      rw high (omega (arith, length-append {0} (decimal_from fuel (n / 10)) ((48 + n % 10) ∷ [])))
]

pub length-zeros_text : (n : ℕ) → length (zeros_text n) ≡ n
length-zeros_text zero = refl
length-zeros_text (suc n) = ap suc (length-zeros_text n)

pub read-zeros_text : (n : ℕ) (s : Text) → read_digits 0 (zeros_text n ++ s) ≡ read_digits 0 s
read-zeros_text zero s = refl
read-zeros_text (suc n) s = read-zeros_text n s

pub zeros_text-IsDigits : (n : ℕ) → IsDigits (zeros_text n)
zeros_text-IsDigits zero = tt
zeros_text-IsDigits (suc n) = (refl, zeros_text-IsDigits n)

pad_end-unless_last_zero :
    (c : ℕ) (t : Text) (n : ℕ) (s : Text)
    → pad_end n t ≡ s
    → pad_end (suc n) (unless_last_zero c t) ≡ c ∷ s
pad_end-unless_last_zero c [] n s h =
    let none_left : n - 0 ≡ n = omega arith in
    let whole : suc n - 0 ≡ suc n = omega arith in
    let rest : suc n - 1 ≡ n = omega arith in
    let filled : zeros_text n ≡ s = ap zeros_text (sym none_left) ∙ h in
    elim (Bool-cases (eqb c 48)) [
      | inl zero_digit ↦
          let same : c ≡ 48 = ground (arith, zero_digit) in
          rw zero_digit (ap zeros_text whole ∙ ap (◌∷◌ 48) filled ∙ ap (λ z. z ∷ s) (sym same))
      | inr other ↦ rw other (ap (λ z. c ∷ zeros_text z) rest ∙ ap (◌∷◌ c) filled)
    ]
pad_end-unless_last_zero c (d ∷ t) n s h =
    let same : suc n - suc (suc (length t)) ≡ n - suc (length t) = omega arith in
    ap (λ z. c ∷ (d ∷ (t ++ zeros_text z))) same ∙ ap (◌∷◌ c) h

-- What stripping took away, padding puts back.
pub pad_end-strip_zeros : (s : Text) → pad_end (length s) (strip_zeros s) ≡ s
pad_end-strip_zeros [] = refl
pad_end-strip_zeros (c ∷ s) =
    pad_end-unless_last_zero c (strip_zeros s) (length s) s (pad_end-strip_zeros s)

strip_zeros-cases :
    (c : ℕ) (t : Text) → is_digit c ≡ true → IsDigits t → IsDigits (unless_last_zero c t)
strip_zeros-cases c [] h hs = elim (Bool-cases (eqb c 48)) [
  | inl zero_digit ↦ rw zero_digit tt
  | inr other ↦ rw other (h, tt)
]
strip_zeros-cases c (d ∷ t) h hs = (h, hs)

pub strip_zeros-IsDigits : (s : Text) → IsDigits s → IsDigits (strip_zeros s)
strip_zeros-IsDigits [] h = tt
strip_zeros-IsDigits (c ∷ s) (h, hs) =
    strip_zeros-cases c (strip_zeros s) h (strip_zeros-IsDigits s hs)

length-unless_last_zero : (c : ℕ) (t : Text) → length (unless_last_zero c t) ≤ suc (length t)
length-unless_last_zero c [] = ground arith
length-unless_last_zero c (d ∷ t) = omega arith

pub length-strip_zeros : (s : Text) → length (strip_zeros s) ≤ length s
length-strip_zeros [] = omega arith
length-strip_zeros (c ∷ s) =
    omega (arith, length-unless_last_zero c (strip_zeros s), length-strip_zeros s)

-- A text of digits as a string, before another string.
abbrev pub digit_char : ℕ → Char
digit_char d =
    if eqb d 0
    then "0"
    else if eqb d 1
    then "1"
    else if eqb d 2
    then "2"
    else if eqb d 3
    then "3"
    else if eqb d 4
    then "4"
    else if eqb d 5
    then "5"
    else if eqb d 6
    then "6"
    else if eqb d 7
    then "7"
    else if eqb d 8
    then "8"
    else "9"

abbrev pub digit_string : Text → String → String
digit_string [] after = after
digit_string (c ∷ s) after = String.◌∷◌ (digit_char (c - 48)) (digit_string s after)
