-- ===== src/Explorer/Format/Escape.antt =====
-- What escaping gives, and how a browser reads it back.
use mathlib.Core.List.{append_assoc}
use mathlib.Core.Path.{subst}
use scalar_commons_v.Base.{
  ℕ, ◌≡◌, refl, sym, ap, ◌∙◌, arith, Bool, false, ◌||◌, [], ◌∷◌, ◌++◌, eqb, eqb_iff, if◌then◌else◌,
  Text, any, zero, suc, starts_with, Bool-cases, inl, inr,
}
use scalar_commons_v.Explorer.Format.{
  lt_entity, gt_entity, amp_entity, quot_entity, apos_entity, replace_all, escape_html,
}

-- Each character on its own.
abbrev pub escaped_char : ℕ → Text
escaped_char c =
    if eqb c 38
    then amp_entity
    else if eqb c 60
    then lt_entity
    else if eqb c 62
    then gt_entity
    else if eqb c 34
    then quot_entity
    else if eqb c 39
    then apos_entity
    else c ∷ []

abbrev pub escaped : Text → Text
escaped [] = []
escaped (c ∷ s) = escaped_char c ++ escaped s

replace_all-append :
    (c : ℕ) (new s t : Text)
    → replace_all c new (s ++ t) ≡ replace_all c new s ++ replace_all c new t
replace_all-append c new [] t = refl
replace_all-append c new (d ∷ s) t =
    ap (λ z. (if eqb d c then new else d ∷ []) ++ z) (replace_all-append c new s t)
    ∙ sym
        (append_assoc (if eqb d c then new else d ∷ []) (replace_all c new s) (replace_all c new t))

escape_html-append : (s t : Text) → escape_html (s ++ t) ≡ escape_html s ++ escape_html t
unfolding escape_html
escape_html-append s t = simp (replace_all-append)

-- A character that has no reference.
abbrev IsPlain : ℕ → Type 0
IsPlain c =
    (eqb c 38 ≡ false)
    × ((eqb c 60 ≡ false) × ((eqb c 62 ≡ false) × ((eqb c 34 ≡ false) × (eqb c 39 ≡ false))))

abbrev Special : (ℕ → Type 0) → Type 0
Special P = P 38 × (P 60 × (P 62 × (P 34 × P 39)))

-- The five characters with a reference, and the others.
char_cases : (P : ℕ → Type 0) → Special P → ((c : ℕ) → IsPlain c → P c) → (c : ℕ) → P c
char_cases P (amp, (less, (greater, (quote, apos)))) other c = case 38 amp (λ e1.
    case 60 less (λ e2.
      case 62 greater
        (λ e3. case 34 quote (λ e4. case 39 apos (λ e5. other c (e1, (e2, (e3, (e4, e5)))))))))
  where
    case : (d : ℕ) → P d → (eqb c d ≡ false → P c) → P c
    case d here there = elim (Bool-cases (eqb c d)) [
      | inl same ↦ subst P (sym ((eqb_iff c d).0 same)) here
      | inr different ↦ there different
    ]

escape_html-single : (c : ℕ) → escape_html (c ∷ []) ≡ escaped_char c
unfolding escape_html
escape_html-single =
    char_cases (λ c. escape_html (c ∷ []) ≡ escaped_char c) (refl, (refl, (refl, (refl, refl))))
      (λ c (e1, (e2, (e3, (e4, e5)))). rw (e1, e2, e3, e4, e5) refl)

-- The five replacements are one pass, in which each character of the value is escaped once.
pub escape_html-eq-escaped : (value : Text) → escape_html value ≡ escaped value
unfolding escape_html
escape_html-eq-escaped [] = refl
escape_html-eq-escaped (c ∷ s) =
    escape_html-append (c ∷ []) s
    ∙ ap (λ z. z ++ escape_html s) (escape_html-single c)
    ∙ ap (◌++◌ (escaped_char c)) (escape_html-eq-escaped s)

-- How a browser reads the five references back; `skip` characters belong to a reference that was read.
abbrev pub unescape_from : ℕ → Text → Text
unescape_from skip [] = []
unescape_from (suc skip) (c ∷ s) = unescape_from skip s
unescape_from zero (c ∷ s) =
    let amp = 38 ∷ unescape_from 4 s in
    let less = 60 ∷ unescape_from 3 s in
    let greater = 62 ∷ unescape_from 3 s in
    let quote = 34 ∷ unescape_from 5 s in
    let apos = 39 ∷ unescape_from 4 s in
    let plain = c ∷ unescape_from 0 s in
    if starts_with (c ∷ s) amp_entity
    then amp
    else if starts_with (c ∷ s) lt_entity
    then less
    else if starts_with (c ∷ s) gt_entity
    then greater
    else if starts_with (c ∷ s) quot_entity
    then quote
    else if starts_with (c ∷ s) apos_entity
    then apos
    else plain

-- A character that can open a tag or close an attribute.
abbrev pub is_markup : ℕ → Bool
is_markup c = eqb c 60 || (eqb c 62 || (eqb c 34 || eqb c 39))

abbrev pub IsInert : Text → Type 0
IsInert s = any is_markup s ≡ false

IsInert-append : (s t : Text) → IsInert s → IsInert t → IsInert (s ++ t)
IsInert-append [] t h h' = h'
IsInert-append (c ∷ s) t h h' = ground (arith, h, IsInert-append s t (ground (arith, h)) h')

escaped_char-IsInert : (c : ℕ) → IsInert (escaped_char c)
escaped_char-IsInert =
    char_cases (λ c. IsInert (escaped_char c)) (refl, (refl, (refl, (refl, refl))))
      (λ c (e1, (e2, (e3, (e4, e5)))). rw (e1, e2, e3, e4, e5) (rw (e2, e3, e4, e5) refl))

unescape_from-escaped_char :
    (t : Text) (c : ℕ) → unescape_from 0 (escaped_char c ++ t) ≡ c ∷ unescape_from 0 t
unescape_from-escaped_char t =
    char_cases (λ c. unescape_from 0 (escaped_char c ++ t) ≡ c ∷ unescape_from 0 t)
      (refl, (refl, (refl, (refl, refl))))
      (λ c (e1, (e2, (e3, (e4, e5)))). rw (e1, e2, e3, e4, e5) (rw e1 refl))

escaped-IsInert : (s : Text) → IsInert (escaped s)
escaped-IsInert [] = refl
escaped-IsInert (c ∷ s) =
    IsInert-append (escaped_char c) (escaped s) (escaped_char-IsInert c) (escaped-IsInert s)

unescape_from-escaped : (s : Text) → unescape_from 0 (escaped s) ≡ s
unescape_from-escaped [] = refl
unescape_from-escaped (c ∷ s) =
    unescape_from-escaped_char (escaped s) c ∙ ap (◌∷◌ c) (unescape_from-escaped s)

-- An escaped value holds none of the four characters that open a tag or end an attribute, and reading its
-- references back, as a browser does, gives the value.
pub unescape_from-escape_html :
    (value : Text) → IsInert (escape_html value) × (unescape_from 0 (escape_html value) ≡ value)
unescape_from-escape_html value =
    let e = escape_html-eq-escaped value in
    (
      subst IsInert (sym e) (escaped-IsInert value),
      ap (unescape_from 0) e ∙ unescape_from-escaped value,
    )
