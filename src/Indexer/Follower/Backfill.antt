-- ===== src/Indexer/Follower/Backfill.antt =====
-- The backfill of `start` leaves no block of its window out.
use scalar_commons_v.Base.{
  ℕ, zero, suc, ◌+◌, ◌-◌, ◌≤◌, ◌<◌, ◌≡◌, refl, arith, Bool, true, false, ◌||◌, Option, List, [],
  ◌∷◌, leb, eqb, eqb_iff, if◌then◌else◌, Bool-cases, inl, inr, any,
}
use scalar_commons_v.Indexer.Store.{
  IndexedBlock, IndexerStore, has_block, missing_from, missing_blocks,
}
use scalar_commons_v.Indexer.Follower.{ChainIndexer, index_block, index_all, backfill}
use scalar_commons_v.Indexer.Follower.Coverage.{IsNode, Steps, index_block-Steps}

-- A block of the range is held or missing.
missing_from-any :
    (s : IndexerStore) (start count n : ℕ)
    → start ≤ n
    → n < start + count
    → (has_block s n || any (eqb n) (missing_from s start count)) ≡ true
missing_from-any s start zero n h h' = absurd (omega arith)
missing_from-any s start (suc count) n h h' = elim (Bool-cases (eqb n start)) [
  | inl hit ↦ start_lem s n start (missing_from s (start + 1) count) ((eqb_iff n start).0 hit)
  | inr miss ↦
      later_lem s n start (missing_from s (start + 1) count)
        (missing_from-any s (start + 1) count n (ground arith) (omega arith))
]
  where
    start_lem :
        (s : IndexerStore) (n start : ℕ) (rest : List ℕ)
        → n ≡ start
        → (has_block s n || any (eqb n) (if has_block s start then rest else start ∷ rest)) ≡ true
    start_lem s n start rest same = rw same (elim (Bool-cases (has_block s start)) [
      | inl held ↦ rw held refl
      | inr gone ↦ rw gone (ground arith)
    ])

    later_lem :
        (s : IndexerStore) (n start : ℕ) (rest : List ℕ)
        → (has_block s n || any (eqb n) rest) ≡ true
        → (has_block s n || any (eqb n) (if has_block s start then rest else start ∷ rest)) ≡ true
    later_lem s n start rest h = ground (arith, h)

-- The loop ends with all it was given in the index, if nothing is thrown.
index_all-holds :
    (fetch : ℕ → Option IndexedBlock) (numbers : List ℕ) (c : ChainIndexer) (n : ℕ)
    → IsNode fetch
    → (index_all fetch numbers c).1 ≡ true
    → (has_block c.store n || any (eqb n) numbers) ≡ true
    → has_block (index_all fetch numbers c).0.store n ≡ true
unfolding index_all
index_all-holds fetch [] c n node done h = ground arith
index_all-holds fetch (number ∷ rest) c n node done h =
    step (index_block fetch number c) (index_block-Steps fetch number c node)
      (λ d. index_all-holds fetch rest d n node) done h
  where
    step :
        (out : ChainIndexer × Bool)
        → Steps number c out
        → ((d : ChainIndexer)
            → (index_all fetch rest d).1 ≡ true
            → (has_block d.store n || any (eqb n) rest) ≡ true
            → has_block (index_all fetch rest d).0.store n ≡ true)
        → (if out.1 then index_all fetch rest out.0 else (out.0, false)).1 ≡ true
        → (has_block c.store n || any (eqb n) (number ∷ rest)) ≡ true
        → has_block (if out.1 then index_all fetch rest out.0 else (out.0, false)).0.store n ≡ true
    step (d, false) steps ih done h = cc
    step (d, true) (inl (e, same)) ih done h = cc
    step (d, true) (inr (e, covers)) ih done h = ih d done (rw (covers n) (ground (arith, h)))

-- A backfill that throws nothing has the last `depth` blocks up to the finalized head in the index, those that
-- an earlier run left out included.
pub backfill_complete :
    (fetch : ℕ → Option IndexedBlock) (head depth n : ℕ) (c : ChainIndexer)
    → IsNode fetch
    → (backfill fetch head depth c).1 ≡ true
    → n ≤ head
    → head < n + depth
    → has_block (backfill fetch head depth c).0.store n ≡ true
unfolding backfill missing_blocks
backfill_complete fetch head depth n c node done h h' =
    let start = head + 1 - depth in
    let on : leb depth 0 ≡ false = ground arith in
    rw on (
      index_all-holds fetch (missing_from c.store start (head + 1 - start)) c n node (rw on at done)
        (missing_from-any c.store start (head + 1 - start) n (omega arith) (omega arith)))
