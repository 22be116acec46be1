-- ===== src/Indexer/Activity/Tests.antt =====
-- A message, a slash and a transfer in the feed.
use scalar_commons_v.Base.{
  ℕ, ◌≡◌, refl, none, some, String, [], ◌∷◌, map, ◌&&◌, number_keys, string_keys,
}
use scalar_commons_v.Base.Results.{ok, err}
use scalar_commons_v.Indexer.Store.{EventRow, IndexerStore}
use scalar_commons_v.Indexer.Queries.{Page, window, list_activity, names_account}
use scalar_commons_v.Indexer.Activity.{
  slash, dispute, unknown_kind, classify_activity, parse_activity_kind, sources_for, to_match,
}
use scalar_commons_v.Indexer.Activity.Feed.{is_reported, feed, list_activity-sources_for}

abbrev event : ℕ → String → String → EventRow
event index section method = record {
  id = "3-0";
  block_number = 3;
  index = index;
  section = section;
  method = method;
  phase = "ApplyExtrinsic";
  extrinsic_id = none;
  fields = "{}";
}

abbrev held : IndexerStore
held = record {
  blocks = [];
  extrinsics = [];
  events =
      event 0 "messages" "MessageSent"
      ∷ event 1 "agents" "SlashExecuted"
      ∷ event 2 "balances" "Transfer"
      ∷ [];
  event_accounts = [];
  accounts = [];
}

abbrev first_page : Page
first_page = record { limit = 10; offset = 0 }

one_slash : (list_activity held first_page (map to_match (sources_for (some slash))) none).total ≡ 1
unfolding list_activity window sources_for
one_slash = refl

dispute_parsed : parse_activity_kind (some "dispute") ≡ ok (some dispute)
unfolding parse_activity_kind
dispute_parsed = refl

typing_error : parse_activity_kind (some "slashes") ≡ err (unknown_kind "slashes")
unfolding parse_activity_kind
typing_error = refl

list_activity-sources_for_example :
    list_activity held first_page (map to_match (sources_for (some slash))) none
    ≡ feed held first_page (λ e.
      is_reported (some slash) (classify_activity e.section e.method) && names_account held none e)
list_activity-sources_for_example = list_activity-sources_for held first_page (some slash) none
