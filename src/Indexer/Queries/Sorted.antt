-- ===== src/Indexer/Queries/Sorted.antt =====
-- The insertion sort: its result is in order, and counts each kind of row as its input does.
use scalar_commons_v.Base.{
  suc, ◌≡◌, refl, ap, ◌∙◌, arith, Bool, true, false, List, [], ◌∷◌, Bool-cases, inl, inr, keep,
  length, All,
}
use scalar_commons_v.Indexer.Queries.{insert_sorted, sort}

module _ {A : Type 0} (before : A → A → Bool) where
  -- Every row is before each later one.
  abbrev pub IsSorted : List A → Type 0
  IsSorted [] = Unit {0}
  IsSorted (x ∷ xs) = All (λ y. before x y ≡ true) xs × IsSorted xs

  count-insert_sorted :
      (p : A → Bool) (x : A) (xs : List A)
      → length (keep p (insert_sorted before x xs)) ≡ length (keep p (x ∷ xs))
  count-insert_sorted p x [] = refl
  count-insert_sorted p x (y ∷ ys) = ground (arith, count-insert_sorted p x ys)

  pub count-sort :
      (p : A → Bool) (xs : List A) → length (keep p (sort before xs)) ≡ length (keep p xs)
  count-sort p [] = refl
  count-sort p (x ∷ xs) = count-insert_sorted p x (sort before xs) ∙ ground (arith, count-sort p xs)

  length-insert_sorted :
      (x : A) (xs : List A) → length (insert_sorted before x xs) ≡ suc (length xs)
  length-insert_sorted x [] = refl
  length-insert_sorted x (y ∷ ys) = ground (arith, length-insert_sorted x ys)

  pub length-sort : (xs : List A) → length (sort before xs) ≡ length xs
  length-sort [] = refl
  length-sort (x ∷ xs) = length-insert_sorted x (sort before xs) ∙ ap suc (length-sort xs)

  module _ (total : (x y : A) → before x y ≡ false → before y x ≡ true)
      (trans : (x y z : A) → before x y ≡ true → before y z ≡ true → before x z ≡ true) where
    All-insert_sorted :
        (a x : A) (xs : List A)
        → before a x ≡ true
        → All (λ y. before a y ≡ true) xs
        → All (λ y. before a y ≡ true) (insert_sorted before x xs)
    All-insert_sorted a x [] h hs = (h, tt)
    All-insert_sorted a x (y ∷ ys) h (h1, hs) = elim (Bool-cases (before x y)) [
      | inl first ↦ rw first (h, (h1, hs))
      | inr later ↦ rw later (h1, All-insert_sorted a x ys h hs)
    ]

    All-trans :
        (a x : A) (xs : List A)
        → before a x ≡ true
        → All (λ y. before x y ≡ true) xs
        → All (λ y. before a y ≡ true) xs
    All-trans a x [] h hs = tt
    All-trans a x (y ∷ ys) h (h1, hs) = (trans a x y h h1, All-trans a x ys h hs)

    insert_sorted-IsSorted :
        (x : A) (xs : List A) → IsSorted xs → IsSorted (insert_sorted before x xs)
    insert_sorted-IsSorted x [] s = (tt, tt)
    insert_sorted-IsSorted x (y ∷ ys) (hs, s) = elim (Bool-cases (before x y)) [
      | inl first ↦ rw first ((first, All-trans x y ys first hs), (hs, s))
      | inr later ↦
          rw later (All-insert_sorted y x ys (total x y later) hs, insert_sorted-IsSorted x ys s)
    ]

    pub sort-IsSorted : (xs : List A) → IsSorted (sort before xs)
    sort-IsSorted [] = tt
    sort-IsSorted (x ∷ xs) = insert_sorted-IsSorted x (sort before xs) (sort-IsSorted xs)
