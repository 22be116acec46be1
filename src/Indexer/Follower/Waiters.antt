-- ===== src/Indexer/Follower/Waiters.antt =====
-- `waitForBlock` resolves only when the index has reached the height.
use scalar_commons_v.Base.{
  ℕ, zero, suc, ◌+◌, ◌≤◌, ◌≡◌, refl, sym, ◌∙◌, arith, Bool, true, false, Option, none, some, List,
  [], ◌∷◌, ◌++◌, leb, if◌then◌else◌, Bool-cases, inl, inr, keep, All,
}
use mathlib.Core.Path.{subst}
use scalar_commons_v.Base.Results.{Result, ok, err}
use scalar_commons_v.Indexer.Store.{IndexedBlock, IndexerStore, Conflict, save_block, has_block}
use scalar_commons_v.Indexer.Follower.{
  ChainIndexer, release_waiters, saved, fetched, index_block, if_missing, index_from, catch_up_to,
}
use scalar_commons_v.Indexer.Follower.Coverage.{IsNode, Covers, Steps, index_block-Steps}

-- The index holds a block of that height or above.
abbrev pub IsReached : IndexerStore → ℕ → Type 0
IsReached s height = (n : ℕ) × (height ≤ n) × (has_block s n ≡ true)

abbrev pub IsTruthful : ChainIndexer → Type 0
IsTruthful c = All (IsReached c.store) c.resolved

All-weaken : {P Q : ℕ → Type 0} (xs : List ℕ) → ((x : ℕ) → P x → Q x) → All P xs → All Q xs
All-weaken [] f h = tt
All-weaken (x ∷ xs) f (h, hs) = (f x h, All-weaken xs f hs)

All-append : (P : ℕ → Type 0) (xs ys : List ℕ) → All P xs → All P ys → All P (xs ++ ys)
All-append P [] ys h h' = h'
All-append P (x ∷ xs) ys (h, hs) h' = (h, All-append P xs ys hs h')

keep-IsReached :
    (s : IndexerStore) (number : ℕ) (waiters : List ℕ)
    → has_block s number ≡ true
    → All (IsReached s) (keep (λ waiter. leb waiter number) waiters)
keep-IsReached s number [] h = tt
keep-IsReached s number (w ∷ ws) h = elim (Bool-cases (leb w number)) [
  | inl low ↦ rw low ((number, ground (arith, low), h), keep-IsReached s number ws h)
  | inr high ↦ rw high (keep-IsReached s number ws h)
]

Covers-IsReached :
    (s t : IndexerStore) (number height : ℕ)
    → Covers s t number 1
    → IsReached s height
    → IsReached t height
Covers-IsReached s t number height covers (n, le, held) = (n, le, covers n ∙ rw held refl)

saved-IsTruthful :
    (number : ℕ) (c : ChainIndexer) (r : IndexerStore × Result Conflict (Unit {0}))
    → Steps number c (saved number c r)
    → IsTruthful c
    → IsTruthful (saved number c r).0
unfolding release_waiters
saved-IsTruthful number c (store, err x) (inl (e, same)) h =
    subst (λ z. All (IsReached z) c.resolved) (sym same) h
saved-IsTruthful number c (store, err x) (inr (e, covers)) h = cc
saved-IsTruthful number c (store, ok done) (inl (e, same)) h = cc
saved-IsTruthful number c (store, ok done) (inr (e, covers)) h =
    All-append (IsReached store) c.resolved (keep (λ waiter. leb waiter number) c.waiters)
      (All-weaken c.resolved (λ x. Covers-IsReached c.store store number x covers) h)
      (keep-IsReached store number c.waiters (covers number ∙ ground arith))

fetched-IsTruthful :
    (number : ℕ) (c : ChainIndexer) (fetch : ℕ → Option IndexedBlock) (o : Option IndexedBlock)
    → Steps number c (fetched fetch number c o)
    → IsTruthful c
    → IsTruthful (fetched fetch number c o).0
fetched-IsTruthful number c fetch none steps h = h
fetched-IsTruthful number c fetch (some b) steps h =
    saved-IsTruthful number c (save_block b c.store) steps h

module _ (fetch : ℕ → Option IndexedBlock) (node : IsNode fetch) where
  index_block-IsTruthful :
      (number : ℕ) (c : ChainIndexer) → IsTruthful c → IsTruthful (index_block fetch number c).0
  unfolding index_block
  index_block-IsTruthful number c h =
      fetched-IsTruthful number c fetch (fetch number) (index_block-Steps fetch number c node) h

  if_missing-IsTruthful :
      (number : ℕ) (c : ChainIndexer) (held : Bool)
      → IsTruthful c
      → IsTruthful (if_missing fetch number c held).0
  if_missing-IsTruthful number c true h = h
  if_missing-IsTruthful number c false h = index_block-IsTruthful number c h

  step-IsTruthful :
      (number count : ℕ) (out : ChainIndexer × Bool)
      → IsTruthful out.0
      → IsTruthful (index_from fetch number count out.0).0
      → IsTruthful (if out.1 then index_from fetch number count out.0 else (out.0, false)).0
  step-IsTruthful number count (c, true) h later = later
  step-IsTruthful number count (c, false) h later = h

  index_from-IsTruthful :
      (number count : ℕ) (c : ChainIndexer)
      → IsTruthful c
      → IsTruthful (index_from fetch number count c).0
  unfolding index_from
  index_from-IsTruthful number zero c h = h
  index_from-IsTruthful number (suc count) c h =
      let out = if_missing fetch number c (has_block c.store number) in
      let here = if_missing-IsTruthful number c (has_block c.store number) h in
      step-IsTruthful (number + 1) count out here
        (index_from-IsTruthful (number + 1) count out.0 here)

  -- A waiter is resolved only for a height that the index has reached, by a block of that height or above; a
  -- catch-up keeps this so, also when it fails half way. The node answers for a height with that block.
  pub catch_up_to-IsTruthful :
      (height : ℕ) (c : ChainIndexer) → IsTruthful c → IsTruthful (catch_up_to fetch height c).0
  unfolding catch_up_to
  catch_up_to-IsTruthful height c h = index_from-IsTruthful _ _ c h
