-- ===== src/Indexer/Follower.antt =====
-- indexer/src/indexer.ts: `ChainIndexer`, which backfills a window and then follows finalized heads.
-- `fetch` is `fetchIndexedBlock` over the node, and `none` its throw; the queue of catch-ups is a sequence
-- of them. A waiter is its height.
pub mod Coverage
pub mod Holes
pub mod Backfill
pub mod Waiters
mod Tests
use scalar_commons_v.Base.{
  ℕ, zero, suc, ◌+◌, ◌-◌, Bool, true, false, not, Option, none, some, List, [], ◌∷◌, ◌++◌, ltb, leb,
  if◌then◌else◌, keep,
}
use scalar_commons_v.Base.Results.{Result, ok, err}
use scalar_commons_v.Indexer.Store.{
  IndexedBlock, IndexerStore, Conflict, save_block, has_block, latest_block_number, missing_blocks,
}

pub record ChainIndexer : Type 0 where
  pub store : IndexerStore
  pub waiters : List ℕ
  pub resolved : List ℕ
  pub failed : List ℕ

-- `waitForBlock`, up to its timeout.
unfoldable pub wait_for_block : ℕ → ChainIndexer → ChainIndexer
wait_for_block height c = elim (latest_block_number c.store) [
  | none ↦ record c { waiters = c.waiters ++ (height ∷ []) }
  | some current ↦
      if leb height current
      then record c { resolved = c.resolved ++ (height ∷ []) }
      else record c { waiters = c.waiters ++ (height ∷ []) }
]

unfoldable pub release_waiters : ℕ → ChainIndexer → ChainIndexer
release_waiters height c = record c {
  waiters = keep (λ waiter. ltb height waiter) c.waiters;
  resolved = c.resolved ++ keep (λ waiter. leb waiter height) c.waiters;
}

-- `stop`: the waiters left are failed, not resolved.
unfoldable pub stop : ChainIndexer → ChainIndexer
stop c = record c { waiters = []; failed = c.failed ++ c.waiters }

abbrev pub first_to_index : Option ℕ → ℕ → ℕ
first_to_index none height = height
first_to_index (some latest) height = if leb (latest + 1) height then latest + 1 else height

abbrev pub saved :
    ℕ → ChainIndexer → IndexerStore × Result Conflict (Unit {0}) → ChainIndexer × Bool
saved number c (store, err conflict) = (record c { store = store }, false)
saved number c (store, ok done) = (release_waiters number (record c { store = store }), true)

module _ (fetch : ℕ → Option IndexedBlock) where
  abbrev pub fetched : ℕ → ChainIndexer → Option IndexedBlock → ChainIndexer × Bool
  fetched number c none = (c, false)
  fetched number c (some indexed) = saved number c (save_block indexed c.store)

  -- `false` is a throw.
  unfoldable pub index_block : ℕ → ChainIndexer → ChainIndexer × Bool
  index_block number c = fetched number c (fetch number)

  abbrev pub if_missing : ℕ → ChainIndexer → Bool → ChainIndexer × Bool
  if_missing number c true = (c, true)
  if_missing number c false = index_block number c

  -- The blocks from `number` on, `count` of them; a throw ends the loop.
  unfoldable pub index_from : ℕ → ℕ → ChainIndexer → ChainIndexer × Bool
  index_from number zero c = (c, true)
  index_from number (suc count) c =
      let (c', indexed) = if_missing number c (has_block c.store number) in
      let rest = index_from (number + 1) count c' in if indexed then rest else (c', false)

  unfoldable pub catch_up_to : ℕ → ChainIndexer → ChainIndexer × Bool
  catch_up_to height c =
      let from = first_to_index (latest_block_number c.store) height in
      index_from from (height + 1 - from) c

  unfoldable pub index_all : List ℕ → ChainIndexer → ChainIndexer × Bool
  index_all [] c = (c, true)
  index_all (number ∷ rest) c =
      let (c', indexed) = index_block number c in
      let later = index_all rest c' in if indexed then later else (c', false)

  -- The backfill of `start`, for a finalized head.
  unfoldable pub backfill : (head depth : ℕ) → ChainIndexer → ChainIndexer × Bool
  backfill head depth c =
      if leb depth 0
      then (c, true)
      else index_all (missing_blocks c.store (head + 1 - depth) head) c
