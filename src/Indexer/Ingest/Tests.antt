-- ===== src/Indexer/Ingest/Tests.antt =====
-- A block of two extrinsics, the second of which failed.
use scalar_commons_v.Base.{
  ◌≡◌, refl, Bool, true, false, none, some, String, List, [], ◌∷◌, map, decimal_from, ◌==◌,
  string_keys, insert,
}
use scalar_commons_v.Indexer.Store.{ExtrinsicRow}
use scalar_commons_v.Indexer.Decode.{row_id, integer, account_of, Json, plain, accounts_from_args}
use scalar_commons_v.Indexer.Ingest.{
  NodeArg, NodeExtrinsic, Phase, apply_extrinsic, finalization, NodeEvent, NodeBlock, indexed_block,
}
use scalar_commons_v.Indexer.Ingest.Linked.{reported, IsRows, indexed_block-IsRows}

abbrev no_text : Json → String
no_text value = "{}"

abbrev is_account : String → Bool
is_account type = type == "AccountId32"

abbrev call : String → String → List NodeArg → NodeExtrinsic
call section method args = record {
  hash = "0x1";
  section = section;
  method = method;
  signature = none;
  args = args;
}

abbrev event : String → Phase → List NodeArg → NodeEvent
event method phase args = record { section = "system"; method = method; phase = phase; args = args }

abbrev who : NodeArg
who = record { name = some "who"; type = "AccountId32"; value = account_of "ann" }

abbrev block : NodeBlock
block = record {
  hash = "0x2";
  parent_hash = "0x1";
  state_root = "0x3";
  extrinsics_root = "0x4";
  extrinsics =
      call "timestamp" "set"
        (record { name = none; type = "u64"; value = integer 64 1_700_000_000_000 } ∷ [])
      ∷ call "balances" "transfer" []
      ∷ [];
  events =
      event "ExtrinsicSuccess" (apply_extrinsic 0) []
      ∷ event "NewAccount" (apply_extrinsic 1) (who ∷ who ∷ [])
      ∷ event "ExtrinsicFailed" (apply_extrinsic 1) []
      ∷ event "Finalized" finalization []
      ∷ [];
}

outcomes :
    map (λ (x : ExtrinsicRow). x.success) (indexed_block no_text is_account 12 block).extrinsics
    ≡ (some true ∷ some false ∷ [])
unfolding indexed_block row_id decimal_from plain accounts_from_args insert
outcomes = refl

clock : (indexed_block no_text is_account 12 block).block.timestamp_ms ≡ some 1_700_000_000_000
unfolding indexed_block
clock = refl

tenth_of_twelve : row_id 12 10 ≡ "12-10"
unfolding row_id decimal_from
tenth_of_twelve = refl

indexed_block-IsRows_example :
    IsRows no_text is_account 12 0
      (λ i. reported i block.events none)
      block.extrinsics
      (indexed_block no_text is_account 12 block).extrinsics
indexed_block-IsRows_example = indexed_block-IsRows no_text is_account 12 block
