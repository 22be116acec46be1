-- ===== src/Experiments/Settlement/Order.antt =====
-- The order of the volunteers: by backoff, then by account.
use text.Mathlib.TextEquality.{Char-path}
use scalar_commons_v.Base.{
  ◌<◌, ◌⊎◌, ◌↔◌, inl, inr, Bool-cases, ltb, char_codes, ℕ, ◌≡◌, refl, arith, true, false, String,
  [], ◌∷◌, Text, some,
}
use scalar_commons_v.Experiments.Settlement.{text_lt, is_better}

-- A text that is not before the next, and so on.
pub text_le_trans : (r s t : Text) → text_lt s r ≡ false → text_lt t s ≡ false → text_lt t r ≡ false
text_le_trans [] s [] h h' = refl
text_le_trans [] s (c ∷ t) h h' = refl
text_le_trans (a ∷ r) [] t h h' = absurd (ground (arith, h))
text_le_trans (a ∷ r) (b ∷ s) [] h h' = absurd (ground (arith, h'))
text_le_trans (a ∷ r) (b ∷ s) (c ∷ t) h h' = ground (arith, h, h', text_le_trans r s t)

pub text_le_antisym : (s t : Text) → text_lt s t ≡ false → text_lt t s ≡ false → s ≡ t
text_le_antisym [] [] h h' = refl
text_le_antisym [] (d ∷ t) h h' = absurd (ground (arith, h))
text_le_antisym (c ∷ s) [] h h' = absurd (ground (arith, h'))
text_le_antisym (c ∷ s) (d ∷ t) h h' = ground (arith, h, h', text_le_antisym s t)

pub better_trans :
    (x y z : String × ℕ)
    → is_better y (some x) ≡ false
    → is_better z (some y) ≡ false
    → is_better z (some x) ≡ false
better_trans (a, n) (b, m) (c, k) h h' =
    ground (arith, h, h', text_le_trans (char_codes a) (char_codes b) (char_codes c))

text_lt_asym : (s t : Text) → text_lt s t ≡ true → text_lt t s ≡ false
text_lt_asym [] [] h = refl
text_lt_asym [] (d ∷ t) h = refl
text_lt_asym (c ∷ s) [] h = absurd (ground (arith, h))
text_lt_asym (c ∷ s) (d ∷ t) h = ground (arith, h, text_lt_asym s t)

-- A volunteer that comes before another does not come after it.
pub better_asym : (x y : String × ℕ) → is_better y (some x) ≡ true → is_better x (some y) ≡ false
better_asym (a, n) (b, m) h = ground (arith, h, text_lt_asym (char_codes b) (char_codes a))

pub char_codes_inj : (s t : String) → char_codes s ≡ char_codes t → s ≡ t
char_codes_inj String.[] String.[] h = refl
char_codes_inj String.[] (String.◌∷◌ d t) h = absurd (cons_not_nil h)
  where
    cons_not_nil : {n : ℕ} {u : Text} → [] ≡ n ∷ u → ⊥
    cons_not_nil h = cc
char_codes_inj (String.◌∷◌ c s) String.[] h = absurd (cons_not_nil h)
  where
    cons_not_nil : {n : ℕ} {u : Text} → n ∷ u ≡ [] → ⊥
    cons_not_nil h = cc
char_codes_inj (String.◌∷◌ c s) (String.◌∷◌ d t) h =
    let (e, e') = cons_inj h in λ i. String.◌∷◌ (Char-path c d e i) (char_codes_inj s t e' i)
  where
    cons_inj : {n m : ℕ} {u v : Text} → n ∷ u ≡ m ∷ v → (n ≡ m) × (u ≡ v)
    cons_inj h = (cc, cc)

-- A volunteer with a lower backoff, or with the same and an account that is not later.
abbrev pub IsFirst : String × ℕ → String × ℕ → Type 0
IsFirst (b, m) (a, n) = (m < n) ⊎ ((m ≡ n) × (text_lt (char_codes a) (char_codes b) ≡ false))

pub IsFirst-is_better : (x y : String × ℕ) → (is_better x (some y) ≡ false) ↔ IsFirst y x
IsFirst-is_better (a, n) (b, m) = (forward, back)
  where
    forward : is_better (a, n) (some (b, m)) ≡ false → IsFirst (b, m) (a, n)
    forward h = elim (Bool-cases (ltb m n)) [
      | inl lower ↦ inl (ground (arith, lower))
      | inr high ↦ inr (ground (arith, h, high), ground (arith, h, high))
    ]

    back : IsFirst (b, m) (a, n) → is_better (a, n) (some (b, m)) ≡ false
    back (inl lower) = ground (arith, lower)
    back (inr (same, later)) = ground (arith, same, later)
