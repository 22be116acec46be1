-- ===== src/Experiments/Settlement/Least.antt =====
-- Who settles an era.
use mathlib.Core.Path.{subst}
use scalar_commons_v.Base.{
  char_codes, ℕ, suc, ◌≡◌, refl, sym, ap, ◌∙◌, arith, Bool, true, false, none, some, String, List,
  [], ◌∷◌, All, any, length, ltb, lt→ltb, Bool-cases, inl, inr, Dict, insert, string_keys, ◌==◌,
}
use scalar_commons_v.Experiments.Settlement.{is_better, winner}
use scalar_commons_v.Experiments.Settlement.Order.{
  better_trans, better_asym, text_le_antisym, char_codes_inj, IsFirst, IsFirst-is_better,
}

abbrev pub is_in : String → List String → Bool
is_in a accounts = any (λ b. b == a) accounts

abbrev pub is_key : String → Dict String ℕ → Bool
is_key a dict = any (λ e. e.0 == a) dict

-- A volunteer with its backoff, which comes before all others.
pub record IsLeast (f : String → ℕ) (accounts : List String) (w : String × ℕ) : Type 0 where
  pub volunteer : is_in w.0 accounts ≡ true
  pub drawn : w.1 ≡ f w.0
  pub least : (a : String) → is_in a accounts ≡ true → IsFirst w (a, f a)

module _ (f : String → ℕ) where
  abbrev pub IsDrawn : Dict String ℕ → Type 0
  IsDrawn = All (λ e. e.1 ≡ f e.0)

  pub insert-IsDrawn :
      (a : String) (dict : Dict String ℕ) → IsDrawn dict → IsDrawn (insert a (f a) dict)
  unfolding insert
  insert-IsDrawn a [] h = (refl, tt)
  insert-IsDrawn a ((b, n) ∷ dict) (h, hs) = elim (Bool-cases (b == a)) [
    | inl same ↦ rw same (ap f (sym ((string_keys.same_iff b a).0 same)), hs)
    | inr other ↦ rw other (h, insert-IsDrawn a dict hs)
  ]

  -- What the best so far and the entries that are left give.
  record Won (best : String × ℕ) (dict : Dict String ℕ) : Type 0 where
    won : String × ℕ
    result : winner (some best) dict ≡ some won
    key : is_key won.0 (best ∷ dict) ≡ true
    drawn : won.1 ≡ f won.0
    before : is_better best (some won) ≡ false
    least : All (λ e. is_better e (some won) ≡ false) dict

  better_irrefl : (x : String × ℕ) → is_better x (some x) ≡ false
  better_irrefl x = elim (Bool-cases (is_better x (some x))) [
    | inl better ↦ better_asym x x better
    | inr worse ↦ worse
  ]

  is_key_self : (e : String × ℕ) (dict : Dict String ℕ) → is_key e.0 (e ∷ dict) ≡ true
  is_key_self (a, n) dict = rw ((string_keys.same_iff a a).1 refl) refl

  is_key-skip :
      (a : String) (x y : String × ℕ) (dict : Dict String ℕ)
      → is_key a (x ∷ dict) ≡ true
      → (is_key a (x ∷ y ∷ dict) ≡ true) × (is_key a (y ∷ x ∷ dict) ≡ true)
  is_key-skip a (b, n) (c, m) dict h = (ground (arith, h), ground (arith, h))

  winner-Won :
      (best : String × ℕ) (dict : Dict String ℕ) → best.1 ≡ f best.0 → IsDrawn dict → Won best dict
  winner-Won best [] h hs = record {
    won = best;
    result = refl;
    key = is_key_self best [];
    drawn = h;
    before = better_irrefl best;
    least = tt;
  }
  winner-Won best (e ∷ dict) h (h', hs) = elim (Bool-cases (is_better e (some best))) [
    | inl better ↦
        let r = winner-Won e dict h' hs in
        record {
          won = r.won;
          result = rw better r.result;
          key = (is_key-skip r.won.0 e best dict r.key).1;
          drawn = r.drawn;
          before = better_trans r.won e best r.before (better_asym best e better);
          least = (r.before, r.least);
        }
    | inr worse ↦
        let r = winner-Won best dict h hs in
        record {
          won = r.won;
          result = rw worse r.result;
          key = (is_key-skip r.won.0 best e dict r.key).0;
          drawn = r.drawn;
          before = r.before;
          least = (better_trans r.won best e r.before worse, r.least);
        }
  ]

  least_of_key :
      (w : String × ℕ) (a : String) (dict : Dict String ℕ)
      → IsDrawn dict
      → All (λ e. is_better e (some w) ≡ false) dict
      → is_key a dict ≡ true
      → is_better (a, f a) (some w) ≡ false
  least_of_key w a [] h least k = absurd (ground (arith, k))
  least_of_key w a ((b, n) ∷ dict) (h, hs) (l, ls) k = elim (Bool-cases (b == a)) [
    | inl same ↦
        let e = (string_keys.same_iff b a).0 same in
        subst (λ z. is_better z (some w) ≡ false) (λ i. (e i, (h ∙ ap f e) i)) l
    | inr other ↦ least_of_key w a dict hs ls (rw other at k)
  ]

  -- Two that are least over the same accounts are one.
  pub least_unique :
      (xs ys : List String) (v w : String × ℕ)
      → ((a : String) → is_in a xs ≡ is_in a ys)
      → IsLeast f xs v
      → IsLeast f ys w
      → v ≡ w
  least_unique xs ys (a, n) (b, m) same hv hw =
      let left = (IsFirst-is_better (a, f a) (b, m)).1 (hw.least a (sym (same a) ∙ hv.volunteer)) in
      let right = (IsFirst-is_better (b, f b) (a, n)).1 (hv.least b (same b ∙ hw.volunteer)) in
      let e =
        same_place (a, f a) (b, m) left
          (subst (λ k. is_better (b, k) (some (a, f a)) ≡ false) (sym hw.drawn)
            (subst (λ k. is_better (b, f b) (some (a, k)) ≡ false) hv.drawn right)) in
      λ i. (char_codes_inj a b e.0 i, (hv.drawn ∙ e.1) i)
    where
      same_place :
          (x y : String × ℕ)
          → is_better x (some y) ≡ false
          → is_better y (some x) ≡ false
          → (char_codes x.0 ≡ char_codes y.0) × (x.1 ≡ y.1)
      same_place (a, n) (b, m) h h' =
          ground (arith, h, h', text_le_antisym (char_codes a) (char_codes b))

-- The winner among the entries of a state is the least of its accounts.
pub entries-IsLeast :
    (f : String → ℕ) (accounts : List String) (a : String) (dict : Dict String ℕ)
    → IsDrawn f dict
    → ((b : String) → is_key b dict ≡ is_in b accounts)
    → is_in a accounts ≡ true
    → (w : String × ℕ) × ((winner none dict ≡ some w)
        × ((ltb 0 (length dict) ≡ true) × IsLeast f accounts w))
entries-IsLeast f accounts a [] h keys present = absurd (ground (arith, keys a, present))
entries-IsLeast f accounts a (e ∷ dict) (h, hs) keys present =
    let r = winner-Won f e dict h hs in
    (
      r.won,
      (
        r.result,
        (
          lt→ltb 0 (suc (length dict)) (omega arith),
          record {
            volunteer = sym (keys r.won.0) ∙ r.key;
            drawn = r.drawn;
            least = λ b known.
                (IsFirst-is_better (b, f b) r.won).0
                  (least_of_key f r.won b (e ∷ dict) (h, hs) (r.before, r.least) (keys b ∙ known));
          },
        ),
      ),
    )
