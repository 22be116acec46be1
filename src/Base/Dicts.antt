-- ===== src/Base/Dicts.antt =====
-- A `Map` as an association list in insertion order: `set` on a key that is present keeps its
-- place. The laws have no side condition.
use mathlib.Core.Path.{◌≡◌, refl}
use mathlib.Core.Option.{Option, none, some}
use mathlib.Core.List.{List, [], ◌∷◌}
use native.Mathlib.Omega.{arith}
use scalar_commons_v.Base.Tests.{if◌then◌else◌}
use scalar_commons_v.Base.Equality.{Comparable, ◌==◌}

abbrev pub Dict {ℓ κ} : Type ℓ → Type κ → Type (ℓ ⊔ κ)
Dict K V = List (K × V)

module _ {ℓ κ} {K : Type ℓ} {V : Type κ} ⦃c : Comparable K⦄ where
  unfoldable pub lookup : K → Dict K V → Option V
  lookup key [] = none
  lookup key ((here, value) ∷ dict) = if here == key then some value else lookup key dict

  unfoldable pub insert : K → V → Dict K V → Dict K V
  insert key new [] = (key, new) ∷ []
  insert key new ((here, value) ∷ dict) =
      let later = insert key new dict in
      if here == key then (here, new) ∷ dict else (here, value) ∷ later

  unfoldable pub delete : K → Dict K V → Dict K V
  delete key [] = []
  delete key ((here, value) ∷ dict) =
      let later = delete key dict in if here == key then later else (here, value) ∷ later

  pub lookup-insert :
      (asked key : K) (new : V) (dict : Dict K V)
      → lookup asked (insert key new dict) ≡ (if key == asked then some new else lookup asked dict)
  unfolding lookup insert
  lookup-insert asked key new [] = refl
  lookup-insert asked key new ((here, value) ∷ dict) = ground (
    arith,
    lookup-insert asked key new dict,
    c.same_iff here asked,
    c.same_iff here key,
    c.same_iff key asked,
  )

  pub lookup-delete :
      (asked key : K) (dict : Dict K V)
      → lookup asked (delete key dict) ≡ (if key == asked then none else lookup asked dict)
  unfolding lookup delete
  lookup-delete asked key [] = ground arith
  lookup-delete asked key ((here, value) ∷ dict) = ground (
    arith,
    lookup-delete asked key dict,
    c.same_iff here asked,
    c.same_iff here key,
    c.same_iff key asked,
  )
