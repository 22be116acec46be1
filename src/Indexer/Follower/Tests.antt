-- ===== src/Indexer/Follower/Tests.antt =====
-- A follower over a node that serves empty blocks up to a height.
use scalar_commons_v.Base.{
  ℕ, zero, suc, ◌≡◌, refl, true, Option, some, String, [], ◌∷◌, arith, lookup, insert, number_keys,
  string_keys,
}
use mathlib.Core.Path.{subst}
use scalar_commons_v.Indexer.Store.{
  IndexedBlock, has_block, latest_block_number, save_block, save_rows, clear_block, upsert_block,
  insert_extrinsics, insert_events, missing_blocks,
}
use scalar_commons_v.Indexer.Store.Saved.{IsOneBlock}
use scalar_commons_v.Indexer.Follower.{
  ChainIndexer, catch_up_to, index_from, index_block, release_waiters, backfill, index_all,
}
use scalar_commons_v.Indexer.Follower.Coverage.{IsNode}
use scalar_commons_v.Indexer.Follower.Holes.{
  HasNoHoles, catch_up_to-HasNoHoles, catch_up_to_complete,
}
use scalar_commons_v.Indexer.Follower.Backfill.{backfill_complete}
use scalar_commons_v.Indexer.Follower.Waiters.{IsTruthful, catch_up_to-IsTruthful}

-- A hash in unary.
abbrev hash_of : ℕ → String
hash_of zero = "x"
hash_of (suc n) = String.◌∷◌ "1" (hash_of n)

abbrev empty_block : ℕ → IndexedBlock
empty_block n = record {
  block = record {
    number = n;
    hash = hash_of n;
    parent_hash = "0x0";
    state_root = "0x1";
    extrinsics_root = "0x2";
    timestamp_ms = some 1000;
    extrinsic_count = 0;
    event_count = 0;
  };
  extrinsics = [];
  events = [];
}

abbrev node : ℕ → Option IndexedBlock
node n = some (empty_block n)

node-IsNode : IsNode node
node-IsNode n b e = node_lem n b (some_inj e)
  where
    some_inj : {a b : IndexedBlock} → ◌≡◌ {A = Option IndexedBlock} (some a) (some b) → a ≡ b
    some_inj e = cc

    node_lem : (n : ℕ) (b : IndexedBlock) → empty_block n ≡ b → (b.block.number ≡ n) × IsOneBlock b
    node_lem n b e =
        subst (λ z. (z.block.number ≡ n) × IsOneBlock z) e
          (refl, record { extrinsics = tt; events = tt })

abbrev start : ChainIndexer
start = record {
  store = record {
    blocks = (3, (empty_block 3).block) ∷ [];
    extrinsics = [];
    events = [];
    event_accounts = [];
    accounts = [];
  };
  waiters = 4 ∷ 9 ∷ [];
  resolved = [];
  failed = [];
}

start-latest : latest_block_number start.store ≡ some 3
unfolding latest_block_number
start-latest = refl

start-HasNoHoles : HasNoHoles 3 start.store
unfolding has_block latest_block_number lookup
start-HasNoHoles m e n h h' = ground arith

caught_up : (catch_up_to node 5 start).1 ≡ true
unfolding catch_up_to index_from index_block release_waiters has_block latest_block_number lookup
    insert save_block save_rows clear_block upsert_block insert_extrinsics insert_events
caught_up = refl

waiters_released :
    ((catch_up_to node 5 start).0.waiters ≡ (9 ∷ []))
    × ((catch_up_to node 5 start).0.resolved ≡ (4 ∷ []))
unfolding catch_up_to index_from index_block release_waiters has_block latest_block_number lookup
    insert save_block save_rows clear_block upsert_block insert_extrinsics insert_events
waiters_released = (refl, refl)

catch_up_to-HasNoHoles_example : HasNoHoles 3 (catch_up_to node 5 start).0.store
catch_up_to-HasNoHoles_example =
    catch_up_to-HasNoHoles node 5 3 3 start node-IsNode start-latest start-HasNoHoles

catch_up_to_complete_example : has_block (catch_up_to node 5 start).0.store 4 ≡ true
catch_up_to_complete_example =
    catch_up_to_complete node 5 3 3 4 start node-IsNode start-latest start-HasNoHoles caught_up
      (omega arith) (omega arith)

backfilled : (backfill node 4 3 start).1 ≡ true
unfolding backfill index_all missing_blocks index_block release_waiters has_block lookup insert
    save_block save_rows clear_block upsert_block insert_extrinsics insert_events
backfilled = refl

backfill_complete_example : has_block (backfill node 4 3 start).0.store 2 ≡ true
backfill_complete_example =
    backfill_complete node 4 3 2 start node-IsNode backfilled (omega arith) (omega arith)

catch_up_to-IsTruthful_example : IsTruthful (catch_up_to node 5 start).0
catch_up_to-IsTruthful_example = catch_up_to-IsTruthful node node-IsNode 5 start tt
