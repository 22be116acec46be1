-- ===== src/Indexer/Store/Tests.antt =====
-- One block saved twice, and once over another.
use scalar_commons_v.Base.{
  ℕ, ◌≡◌, refl, true, some, String, [], ◌∷◌, ◌⊎◌, lookup, insert, string_keys, number_keys,
}
use scalar_commons_v.Base.Results.{ok, err}
use scalar_commons_v.Indexer.Store.{
  BlockRow, ExtrinsicRow, EventRow, IndexedBlock, IndexerStore, Conflict, save_block, save_rows,
  clear_block, upsert_block, insert_extrinsics, insert_events, insert_event_accounts, touch_account,
}
use scalar_commons_v.Indexer.Store.Saved.{IsSaved, save_block-IsSaved}

abbrev row : ℕ → String → BlockRow
row number hash = record {
  number = number;
  hash = hash;
  parent_hash = "0x0";
  state_root = "0x1";
  extrinsics_root = "0x2";
  timestamp_ms = some 1000;
  extrinsic_count = 1;
  event_count = 1;
}

abbrev extrinsic : ExtrinsicRow
extrinsic = record {
  id = "7-0";
  block_number = 7;
  index = 0;
  hash = "0x9";
  section = "balances";
  method = "transfer";
  signer = some "ann";
  nonce = some 0;
  tip_plancks = some "0";
  success = some true;
  args = "{}";
}

abbrev event : EventRow
event = record {
  id = "7-0";
  block_number = 7;
  index = 0;
  section = "balances";
  method = "Transfer";
  phase = "ApplyExtrinsic";
  extrinsic_id = some "7-0";
  fields = "{}";
}

abbrev seven : IndexedBlock
seven = record {
  block = row 7 "0x7";
  extrinsics = extrinsic ∷ [];
  events = (event, "ann" ∷ "bob" ∷ []) ∷ [];
}

abbrev empty : IndexerStore
empty = record { blocks = []; extrinsics = []; events = []; event_accounts = []; accounts = [] }

abbrev held : IndexerStore
held = record {
  blocks = (7, row 7 "0x7") ∷ [];
  extrinsics = extrinsic ∷ [];
  events = event ∷ [];
  event_accounts = ("7-0", "ann") ∷ ("7-0", "bob") ∷ [];
  accounts = ("ann", (7, 7)) ∷ ("bob", (7, 7)) ∷ [];
}

seven_saved : save_block seven empty ≡ (held, ok tt)
unfolding save_block save_rows clear_block upsert_block insert_extrinsics insert_events
    insert_event_accounts touch_account lookup insert
seven_saved = refl

seven_twice : save_block seven held ≡ (held, ok tt)
unfolding save_block save_rows clear_block upsert_block insert_extrinsics insert_events
    insert_event_accounts touch_account lookup insert
seven_twice = refl

save_block-IsSaved_example :
    ((c : Conflict) × ((save_block seven held).1 ≡ err c) × ((save_block seven held).0 ≡ held))
    ⊎ (((save_block seven held).1 ≡ ok tt) × IsSaved seven held (save_block seven held).0 7)
save_block-IsSaved_example =
    save_block-IsSaved seven held 7 (record { extrinsics = (refl, tt); events = (refl, tt) })
