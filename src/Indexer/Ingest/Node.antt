-- ===== src/Indexer/Ingest/Node.antt =====
-- Ingestion meets what the follower and the store assume of the node.
use scalar_commons_v.Base.{
  ℕ, ◌+◌, ◌≡◌, refl, Bool, Option, none, some, String, List, [], ◌∷◌, map, All,
}
use mathlib.Core.Path.{subst}
use scalar_commons_v.Indexer.Store.{ExtrinsicRow, IndexedBlock}
use scalar_commons_v.Indexer.Store.Saved.{IsOneBlock}
use scalar_commons_v.Indexer.Decode.{Json}
use scalar_commons_v.Indexer.Ingest.{
  NodeExtrinsic, NodeEvent, NodeBlock, event_rows, indexed_block, indexed, fetch_indexed_block,
}
use scalar_commons_v.Indexer.Ingest.Linked.{IsRows, reported, indexed_block-IsRows}
use scalar_commons_v.Indexer.Follower.Coverage.{IsNode}

module _ (stringify : Json → String) (is_account : String → Bool) where
  IsRows-All :
      (number i : ℕ) (f : ℕ → Option Bool) (xs : List NodeExtrinsic) (rows : List ExtrinsicRow)
      → IsRows stringify is_account number i f xs rows
      → All (λ x. x.block_number ≡ number) rows
  IsRows-All number i f [] [] h = tt
  IsRows-All number i f [] (row ∷ rows) h = absurd h
  IsRows-All number i f (x ∷ xs) [] h = absurd h
  IsRows-All number i f (x ∷ xs) (row ∷ rows) (h, hs) =
      (h.block_number, IsRows-All number (i + 1) f xs rows hs)

  event_rows-All :
      (number i : ℕ) (events : List NodeEvent)
      → All
          (λ e. e.block_number ≡ number)
          (map (λ e. e.0) (event_rows stringify is_account number i events))
  event_rows-All number i [] = tt
  event_rows-All number i (e ∷ events) = (refl, event_rows-All number (i + 1) events)

  indexed_block-IsOneBlock :
      (number : ℕ) (b : NodeBlock)
      → ((indexed_block stringify is_account number b).block.number ≡ number)
        × IsOneBlock (indexed_block stringify is_account number b)
  unfolding indexed_block
  indexed_block-IsOneBlock number b = (
    refl,
    record {
      extrinsics =
          IsRows-All number 0 (λ i. reported i b.events none) b.extrinsics
            (indexed_block stringify is_account number b).extrinsics
            (indexed_block-IsRows stringify is_account number b);
      events = event_rows-All number 0 b.events;
    },
  )

  indexed_lem :
      (number : ℕ) (o : Option NodeBlock) (b : IndexedBlock)
      → indexed stringify is_account number o ≡ some b
      → (b.block.number ≡ number) × IsOneBlock b
  indexed_lem number none b e = cc
  indexed_lem number (some node) b e =
      subst (λ z. (z.block.number ≡ number) × IsOneBlock z) (some_inj e)
        (indexed_block-IsOneBlock number node)
    where
      some_inj : {x y : IndexedBlock} → ◌≡◌ {A = Option IndexedBlock} (some x) (some y) → x ≡ y
      some_inj e = cc

  -- Whatever the node answers, ingestion is a source of blocks as the follower needs it.
  pub fetch_indexed_block-IsNode :
      (node : ℕ → Option NodeBlock) → IsNode (fetch_indexed_block stringify is_account node)
  unfolding fetch_indexed_block
  fetch_indexed_block-IsNode node number b e = indexed_lem number (node number) b e
