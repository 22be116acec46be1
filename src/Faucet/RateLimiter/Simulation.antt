-- ===== src/Faucet/RateLimiter/Simulation.antt =====
-- The limiter beside a ledger that forgets nothing: the grants that it made and that were not
-- released, whatever their age. `Tracks` relates the log of one scope to the ledger.
use mathlib.Core.List.{tail}
use mathlib.Core.Path.{subst}
use scalar_commons_v.Base.{
  ℕ, ◌≤◌, ◌<◌, ◌≡◌, ap, sym, ◌∙◌, String, List, [], ◌∷◌, arith, length, ◌==◌, string_keys,
  Bool-cases, inl, inr,
}
use scalar_commons_v.Faucet.RateLimiter.{fresh}
use scalar_commons_v.Faucet.RateLimiter.Log.{update}
use scalar_commons_v.Faucet.RateLimiter.Entries.{
  IsSortedBelow, fresh_later, length-fresh_later, fresh-tail, IsSortedBelow-mono,
  fresh-IsSortedBelow, tail-IsSortedBelow,
}

-- At `now` and ever after, the log and the ledger have the same grants inside the window, and the
-- ledger has no more of them than the budget.
pub record Tracks (w most now : ℕ) (log granted : String → List ℕ) : Type 0 where
  pub same : (id : String) (t : ℕ) → now ≤ t → fresh t w (log id) ≡ fresh t w (granted id)
  pub log_sorted : (id : String) → IsSortedBelow now (log id)
  pub granted_sorted : (id : String) → IsSortedBelow now (granted id)
  pub bounded : (id : String) → length (fresh now w (granted id)) ≤ most

-- What holds at the changed identifier, and of the rest before, holds of two updated maps.
update_pair :
    (P : String → List ℕ → List ℕ → Type 0) (f g : String → List ℕ) (id : String) (es fs : List ℕ)
    → P id es fs
    → ((j : String) → P j (f j) (g j))
    → (j : String) → P j (update f id es j) (update g id fs j)
update_pair P f g id es fs here others j = elim (Bool-cases (id == j)) [
  | inl e ↦ rw e (subst (λ i. P i es fs) ((string_keys.same_iff id j).0 e) here)
  | inr e ↦ rw e (others j)
]

length-tail-le : (es : List ℕ) → length (tail es) ≤ length es
length-tail-le [] = omega arith
length-tail-le (t ∷ ts) = omega arith

module _ {w most now : ℕ} {log granted : String → List ℕ} (k : Tracks w most now log granted) where
  pub advance-Tracks : (later : ℕ) → now ≤ later → Tracks w most later log granted
  advance-Tracks later h = record {
    same = λ id t p. k.same id t (omega arith);
    log_sorted = λ id. IsSortedBelow-mono w now later (log id) (k.log_sorted id) h;
    granted_sorted = λ id. IsSortedBelow-mono w now later (granted id) (k.granted_sorted id) h;
    bounded = λ id. omega (arith, k.bounded id, length-fresh_later w now later (granted id) h);
  }

  pub refresh-Tracks : Tracks w most now (λ id. fresh now w (log id)) granted
  refresh-Tracks = record {
    same = λ id t p. fresh_later w now t (log id) p ∙ k.same id t p;
    log_sorted = λ id. fresh-IsSortedBelow w now now (log id) (k.log_sorted id);
    granted_sorted = k.granted_sorted;
    bounded = k.bounded;
  }

  pub pop-Tracks :
      (id : String)
      → Tracks w most now (update log id (tail (log id))) (update granted id (tail (granted id)))
  pop-Tracks id = record {
    same =
        update_pair (λ j es fs. (t : ℕ) → now ≤ t → fresh t w es ≡ fresh t w fs) log granted id
          (tail (log id)) (tail (granted id))
          (λ t p.
            fresh-tail w now t (log id) (k.log_sorted id)
            ∙ ap tail (k.same id t p)
            ∙ sym (fresh-tail w now t (granted id) (k.granted_sorted id)))
          k.same;
    log_sorted =
        update_pair (λ j es fs. IsSortedBelow now es) log granted id (tail (log id))
          (tail (granted id)) (tail-IsSortedBelow w now (log id) (k.log_sorted id)) k.log_sorted;
    granted_sorted =
        update_pair (λ j es fs. IsSortedBelow now fs) log granted id (tail (log id))
          (tail (granted id)) (tail-IsSortedBelow w now (granted id) (k.granted_sorted id))
          k.granted_sorted;
    bounded =
        update_pair (λ j es fs. length (fresh now w fs) ≤ most) log granted id (tail (log id))
          (tail (granted id))
          (rw (fresh-tail w now now (granted id) (k.granted_sorted id))
            (omega (arith, length-tail-le (fresh now w (granted id)), k.bounded id)))
          k.bounded;
  }

  pub push-Tracks :
      (id : String)
      → length (fresh now w (log id)) < most
      → Tracks w most now
          (update log id (now ∷ fresh now w (log id)))
          (update granted id (now ∷ granted id))
  push-Tracks id h = record {
    same =
        update_pair (λ j es fs. (t : ℕ) → now ≤ t → fresh t w es ≡ fresh t w fs) log granted id
          (now ∷ fresh now w (log id)) (now ∷ granted id)
          (λ t p. ground (arith, fresh_later w now t (log id) p, k.same id t p)) k.same;
    log_sorted =
        update_pair (λ j es fs. IsSortedBelow now es) log granted id (now ∷ fresh now w (log id))
          (now ∷ granted id) (omega arith, fresh-IsSortedBelow w now now (log id) (k.log_sorted id))
          k.log_sorted;
    granted_sorted =
        update_pair (λ j es fs. IsSortedBelow now fs) log granted id (now ∷ fresh now w (log id))
          (now ∷ granted id) (omega arith, k.granted_sorted id) k.granted_sorted;
    bounded =
        update_pair (λ j es fs. length (fresh now w fs) ≤ most) log granted id
          (now ∷ fresh now w (log id)) (now ∷ granted id) (ground (arith, k.same id now)) k.bounded;
  }
