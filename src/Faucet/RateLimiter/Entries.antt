-- ===== src/Faucet/RateLimiter/Entries.antt =====
-- Entry lists of rateLimiter.ts, newest first: what the window filter keeps as time goes on.
use mathlib.Core.List.{tail}
use scalar_commons_v.Base.{ℕ, ◌+◌, ◌≤◌, ◌≡◌, refl, List, [], ◌∷◌, arith, length}
use scalar_commons_v.Faucet.RateLimiter.{fresh}

-- Newest first, and none later than `now`.
abbrev pub IsSortedBelow : ℕ → List ℕ → Type 0
IsSortedBelow now [] = Unit {0}
IsSortedBelow now (t ∷ ts) = (t ≤ now) × IsSortedBelow t ts

module _ (w : ℕ) where
  pub fresh_later : (now t : ℕ) (es : List ℕ) → now ≤ t → fresh t w (fresh now w es) ≡ fresh t w es
  fresh_later now t [] h = refl
  fresh_later now t (x ∷ es) h = ground (arith, fresh_later now t es h)

  pub length-fresh_later :
      (now t : ℕ) (es : List ℕ) → now ≤ t → length (fresh t w es) ≤ length (fresh now w es)
  length-fresh_later now t [] h = omega arith
  length-fresh_later now t (x ∷ es) h = ground (arith, length-fresh_later now t es h)

  fresh_stale : (n t : ℕ) (es : List ℕ) → IsSortedBelow n es → n + w ≤ t → fresh t w es ≡ []
  fresh_stale n t [] s h = refl
  fresh_stale n t (x ∷ es) s h = ground (arith, fresh_stale x t es s.1)

  pub fresh-tail :
      (n t : ℕ) (es : List ℕ) → IsSortedBelow n es → fresh t w (tail es) ≡ tail (fresh t w es)
  fresh-tail n t [] s = refl
  fresh-tail n t (x ∷ es) s = ground (arith, fresh_stale x t es s.1)

  pub IsSortedBelow-mono : (n m : ℕ) (es : List ℕ) → IsSortedBelow n es → n ≤ m → IsSortedBelow m es
  IsSortedBelow-mono n m [] s h = tt
  IsSortedBelow-mono n m (x ∷ es) s h = (omega arith, s.1)

  pub fresh-IsSortedBelow :
      (n t : ℕ) (es : List ℕ) → IsSortedBelow n es → IsSortedBelow n (fresh t w es)
  fresh-IsSortedBelow n t [] s = tt
  fresh-IsSortedBelow n t (x ∷ es) s = ground (
    arith,
    fresh-IsSortedBelow x t es s.1,
    IsSortedBelow-mono x n (fresh t w es) (fresh-IsSortedBelow x t es s.1),
  )

  pub tail-IsSortedBelow : (n : ℕ) (es : List ℕ) → IsSortedBelow n es → IsSortedBelow n (tail es)
  tail-IsSortedBelow n [] s = tt
  tail-IsSortedBelow n (x ∷ es) s = IsSortedBelow-mono x n es s.1 s.0
