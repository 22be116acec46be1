-- ===== src/Indexer/Pagination.antt =====
-- indexer/src/pagination.ts: `parsePage` and `parseOptionalInteger`. `URLSearchParams.get` is a
-- function from names. `Number` of a digit string is taken at its exact value, which it has below 2^53.
pub mod Bounds
mod Tests
use Prim.Native.Char.{code}
use scalar_commons_v.Base.{
  ℕ, ◌+◌, ◌-◌, ◌*◌, ◌<◌, ◌≤◌, Bool, true, false, not, ◌&&◌, Option, none, some, String, List, [],
  ◌∷◌, ltb, leb, eqb, if◌then◌else◌,
}
use scalar_commons_v.Base.Results.{Result, ok, err, ◌>>=◌, ◌>>◌, require}
use scalar_commons_v.Indexer.Queries.{Page}

pub data InvalidQuery : Type 0 where
  not_an_integer limit_too_small negative : InvalidQuery

abbrev pub default_limit : ℕ
default_limit = 25

abbrev pub max_limit : ℕ
max_limit = 200

-- A decimal integer as written: its sign and its digits' value.
pub record Decimal : Type 0 where
  pub is_negative : Bool
  pub magnitude : ℕ

abbrev pub digit : ℕ → Option ℕ
digit c = if leb 48 c && leb c 57 then some (c - 48) else none

abbrev pub next_digit : ℕ → Option ℕ → Option ℕ
next_digit value none = none
next_digit value (some d) = some (10 * value + d)

-- The digits to the end of the string, none of which may be another character.
abbrev pub digits_from : Option ℕ → String → Option ℕ
digits_from value String.[] = value
digits_from none (String.◌∷◌ c s) = none
digits_from (some value) (String.◌∷◌ c s) = digits_from (next_digit value (digit (code c))) s

-- `\d+`.
abbrev pub digits : String → Option ℕ
digits String.[] = none
digits (String.◌∷◌ c s) = digits_from (some 0) (String.◌∷◌ c s)

abbrev pub signed : Bool → Option ℕ → Result InvalidQuery Decimal
signed minus none = err not_an_integer
signed minus (some n) = ok (record { is_negative = minus; magnitude = n })

-- `/^-?\d+$/`.
unfoldable pub parse_integer : String → Result InvalidQuery Decimal
parse_integer String.[] = err not_an_integer
parse_integer (String.◌∷◌ c s) =
    if eqb (code c) 45 then signed true (digits s) else signed false (digits (String.◌∷◌ c s))

-- `value < n`, for a positive `n` or for 0.
abbrev pub is_below : Decimal → ℕ → Bool
is_below value n =
    if value.is_negative then not (eqb value.magnitude 0 && eqb n 0) else ltb value.magnitude n

abbrev pub limit_of : Option String → Result InvalidQuery ℕ
limit_of none = ok default_limit
limit_of (some raw) = do
  limit ← parse_integer raw
  require (not (is_below limit 1)) limit_too_small
  ok (if ltb max_limit limit.magnitude then max_limit else limit.magnitude)

abbrev pub offset_of : Option String → Result InvalidQuery ℕ
offset_of none = ok 0
offset_of (some raw) = do
  offset ← parse_integer raw
  require (not (is_below offset 0)) negative
  ok offset.magnitude

unfoldable pub parse_page : (String → Option String) → Result InvalidQuery Page
parse_page get = do
  limit ← limit_of (get "limit")
  offset ← offset_of (get "offset")
  ok (record { limit = limit; offset = offset })

abbrev pub optional_integer : Option String → Result InvalidQuery (Option ℕ)
optional_integer none = ok none
optional_integer (some raw) = do
  value ← parse_integer raw
  require (not (is_below value 0)) negative
  ok (some value.magnitude)

unfoldable pub parse_optional_integer :
    (String → Option String) → String → Result InvalidQuery (Option ℕ)
parse_optional_integer get name = optional_integer (get name)
