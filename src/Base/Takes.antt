-- ===== src/Base/Takes.antt =====
-- How `take` and `drop` meet lengths, each other and `get_elem?`.
use Prim.Native.Nat.{ℕ, zero, suc, ◌+◌, ◌-◌, ◌≤◌, min}
use mathlib.Core.Path.{◌≡◌, refl, ap}
use mathlib.Core.List.{List, [], ◌∷◌, ◌++◌}
use mathlib.Core.Option.{some}
use native.Mathlib.Omega.{arith}
use scalar_commons_v.Base.Lists.{length, take, drop, get_elem?}

module _ {ℓ} {A : Type ℓ} where
  pub take_all : (n : ℕ) (xs : List A) → length xs ≤ n → take n xs ≡ xs
  take_all zero [] h = refl
  take_all zero (x ∷ xs) h = absurd (omega arith)
  take_all (suc n) [] h = refl
  take_all (suc n) (x ∷ xs) h = ap (◌∷◌ x) (take_all n xs (omega arith))

  pub length-drop : (n : ℕ) (xs : List A) → length (drop n xs) ≡ length xs - n
  length-drop zero xs = omega arith
  length-drop (suc n) [] = omega arith
  length-drop (suc n) (x ∷ xs) = omega (arith, length-drop n xs)

  pub length-take-min : (n : ℕ) (xs : List A) → length (take n xs) ≡ min n (length xs)
  length-take-min zero xs = omega arith
  length-take-min (suc n) [] = omega arith
  length-take-min (suc n) (x ∷ xs) = omega (arith, length-take-min n xs)

  pub take-add : (m p k : ℕ) (xs : List A) → k ≡ m + p → take m xs ++ take p (drop m xs) ≡ take k xs
  take-add zero p k xs h = let e : p ≡ k = omega arith in rw e refl
  take-add (suc m) p zero xs h = absurd (omega arith)
  take-add (suc m) zero (suc k) [] h = refl
  take-add (suc m) (suc p) (suc k) [] h = refl
  take-add (suc m) p (suc k) (x ∷ xs) h = ap (◌∷◌ x) (take-add m p k xs (omega arith))

  pub take-take : (m n : ℕ) (xs : List A) → m ≤ n → take m (take n xs) ≡ take m xs
  take-take zero n xs h = refl
  take-take (suc m) zero xs h = absurd (omega arith)
  take-take (suc m) (suc n) [] h = refl
  take-take (suc m) (suc n) (x ∷ xs) h = ap (◌∷◌ x) (take-take m n xs (omega arith))

  pub drop-drop : (m p k : ℕ) (xs : List A) → k ≡ m + p → drop p (drop m xs) ≡ drop k xs
  drop-drop zero p k xs h = let e : p ≡ k = omega arith in rw e refl
  drop-drop (suc m) p zero xs h = absurd (omega arith)
  drop-drop (suc m) zero (suc k) [] h = refl
  drop-drop (suc m) (suc p) (suc k) [] h = refl
  drop-drop (suc m) p (suc k) (x ∷ xs) h = drop-drop m p k xs (omega arith)

  pub get_elem?-drop :
      (m : ℕ) (xs : List A) {x : A} {rest : List A}
      → drop m xs ≡ x ∷ rest
      → (get_elem? xs m ≡ some x) × (drop (suc m) xs ≡ rest)
  get_elem?-drop zero [] h = cc
  get_elem?-drop zero (x ∷ xs) h = (cc, cc)
  get_elem?-drop (suc m) [] h = cc
  get_elem?-drop (suc m) (x ∷ xs) h = get_elem?-drop m xs h
