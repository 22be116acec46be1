-- ===== src/Explorer/Format/Tests.antt =====
-- Texts as a page shows them.
use scalar_commons_v.Base.{◌≡◌, refl, true, [], ◌∷◌, Text, decimal_from}
use scalar_commons_v.Explorer.Format.{escape_html, format_balance, short_hash}
use scalar_commons_v.Explorer.Format.Escape.{IsInert, unescape_from, unescape_from-escape_html}

-- `<b>&`.
abbrev markup : Text
markup = 60 ∷ 98 ∷ 62 ∷ 38 ∷ []

-- `-1,234.05 C`, of 12340500 units with four decimals.
thousands :
    format_balance true 12340500 4 (67 ∷ [])
    ≡ 45 ∷ 49 ∷ 44 ∷ 50 ∷ 51 ∷ 52 ∷ 46 ∷ 48 ∷ 53 ∷ 32 ∷ 67 ∷ []
unfolding format_balance decimal_from
thousands = refl

-- `0xabcd` with one character on each side.
elided : short_hash (48 ∷ 120 ∷ 97 ∷ 98 ∷ 99 ∷ 100 ∷ []) 1 ≡ 48 ∷ 120 ∷ 97 ∷ 8230 ∷ 100 ∷ []
unfolding short_hash
elided = refl

unescape_from-escape_html_example :
    IsInert (escape_html markup) × (unescape_from 0 (escape_html markup) ≡ markup)
unescape_from-escape_html_example = unescape_from-escape_html markup
