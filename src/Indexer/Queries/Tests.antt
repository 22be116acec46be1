-- ===== src/Indexer/Queries/Tests.antt =====
-- Three extrinsics and three events, paged through two at a time.
use scalar_commons_v.Base.{
  ℕ, ◌≡◌, refl, some, none, String, [], ◌∷◌, true, Bool, arith, string_keys, ◌==◌, eqb, ◌&&◌,
}
use scalar_commons_v.Indexer.Store.{ExtrinsicRow, EventRow, IndexerStore}
use scalar_commons_v.Indexer.Queries.{
  Page, EventQuery, ExtrinsicQuery, asc, desc, list_events, list_extrinsics, window,
}
use scalar_commons_v.Indexer.Queries.Asked.{IsAnswer, Lists}
use scalar_commons_v.Indexer.Queries.Pages.{walk, walk-list_events}

abbrev event : ℕ → ℕ → String → EventRow
event block index id = record {
  id = id;
  block_number = block;
  index = index;
  section = "balances";
  method = "Transfer";
  phase = "ApplyExtrinsic";
  extrinsic_id = none;
  fields = "{}";
}

abbrev extrinsic : ℕ → ℕ → String → ExtrinsicRow
extrinsic block index id = record {
  id = id;
  block_number = block;
  index = index;
  hash = "0x9";
  section = "balances";
  method = "transfer";
  signer = some "ann";
  nonce = some 0;
  tip_plancks = some "0";
  success = some true;
  args = "{}";
}

abbrev held : IndexerStore
held = record {
  blocks = [];
  extrinsics = extrinsic 1 0 "1-0" ∷ extrinsic 3 0 "3-0" ∷ extrinsic 2 1 "2-1" ∷ [];
  events = event 1 0 "1-0" ∷ event 3 0 "3-0" ∷ event 2 1 "2-1" ∷ [];
  event_accounts = [];
  accounts = [];
}

abbrev first_page : Page
first_page = record { limit = 2; offset = 0 }

abbrev newest_events : EventQuery
newest_events = record {
  page = first_page;
  block_number = none;
  extrinsic_id = none;
  section = some "balances";
  method = none;
  account = none;
  order = desc;
}

abbrev by_ann : ExtrinsicQuery
by_ann = record {
  page = first_page;
  block_number = none;
  signer = some "ann";
  section = none;
  method = none;
  order = asc;
}

newest_first : (list_events held newest_events).items ≡ (event 3 0 "3-0" ∷ event 2 1 "2-1" ∷ [])
unfolding list_events window
newest_first = refl

three_events : (list_events held newest_events).total ≡ 3
unfolding list_events window
three_events = refl

three_extrinsics : (list_extrinsics held by_ann).total ≡ 3
unfolding list_extrinsics window
three_extrinsics = refl

abbrev is_second : EventRow → Bool
is_second e = eqb e.block_number 2 && (e.section == "balances")

is_second-IsAnswer : (e : EventRow) → is_second e ≡ true → IsAnswer held newest_events e
is_second-IsAnswer e h = record {
  block_number = tt;
  extrinsic_id = tt;
  section = (string_keys.same_iff e.section "balances").0 (ground (arith, h));
  method = tt;
  account = tt;
}

walk-list_events_example :
    Lists held newest_events is_second
      (walk (λ page. list_events held (record newest_events { page = page })) 2 0 2)
walk-list_events_example =
    walk-list_events held newest_events 2 2 is_second (omega (arith, three_events))
      is_second-IsAnswer
