-- ===== src/Base/Equality.antt =====
-- The interface of decidable equality by a Boolean test, with its instances.
use Prim.Native.Nat.{ℕ}
use Prim.Native.String.{String}
use mathlib.Core.Path.{◌≡◌, refl}
use mathlib.Core.Logic.{◌↔◌}
use mathlib.Core.Bool.{Bool, true, false, ◌&&◌}
use mathlib.Core.List.{List, [], ◌∷◌}
use native.Mathlib.Omega.{arith}
use text.Mathlib.Text.{◌==◌ as str_eq}
use text.Mathlib.TextEquality.{eq_iff}
use scalar_commons_v.Base.Tests.{eqb, eqb_iff}

pub record Comparable {ℓ} (K : Type ℓ) : Type ℓ where
  pub same : K → K → Bool
  pub same_iff : (x y : K) → (same x y ≡ true) ↔ (x ≡ y)

infix 50 ◌==◌
abbrev pub ◌==◌ {ℓ} : {K : Type ℓ} ⦃c : Comparable K⦄ → K → K → Bool
◌==◌ ⦃c⦄ x y = c.same x y

instance abbrev pub number_keys : Comparable ℕ
number_keys = record { same = eqb; same_iff = eqb_iff }

instance abbrev pub string_keys : Comparable String
string_keys = record { same = str_eq; same_iff = eq_iff }

-- `u8aEq`: the bytes and the lengths agree.
abbrev pub same_bytes : List ℕ → List ℕ → Bool
same_bytes [] [] = true
same_bytes (a ∷ s) (b ∷ t) = eqb a b && same_bytes s t
same_bytes _ _ = false

pub same_bytes_iff : (s t : List ℕ) → (same_bytes s t ≡ true) ↔ (s ≡ t)
same_bytes_iff [] [] = (λ _. refl, λ _. refl)
same_bytes_iff (a ∷ s) (b ∷ t) = ground (arith, same_bytes_iff s t)
same_bytes_iff [] (b ∷ t) = ground arith
same_bytes_iff (a ∷ s) [] = ground arith

instance abbrev pub bytes_keys : Comparable (List ℕ)
bytes_keys = record { same = same_bytes; same_iff = same_bytes_iff }

-- A key of two parts.
module _ {ℓ κ} {K : Type ℓ} {L : Type κ} ⦃c : Comparable K⦄ ⦃d : Comparable L⦄ where
  abbrev pub same_pair : K × L → K × L → Bool
  same_pair (x, y) (x', y') = c.same x x' && d.same y y'

  pub same_pair_iff : (p q : K × L) → (same_pair p q ≡ true) ↔ (p ≡ q)
  same_pair_iff (x, y) (x', y') = ground (arith, c.same_iff x x', d.same_iff y y')

instance abbrev pub pair_keys {ℓ κ} :
    {K : Type ℓ} {L : Type κ} ⦃c : Comparable K⦄ ⦃d : Comparable L⦄ → Comparable (K × L)
pair_keys = record { same = same_pair; same_iff = same_pair_iff }
