-- ===== src/Indexer/Pagination/Tests.antt =====
-- Query strings, and the page they give.
use scalar_commons_v.Base.{
  ◌≡◌, refl, Option, some, none, String, ◌==◌, string_keys, if◌then◌else◌, [],
}
use scalar_commons_v.Base.Results.{ok, err}
use scalar_commons_v.Indexer.Store.{IndexerStore}
use scalar_commons_v.Indexer.Queries.{EventQuery, desc}
use scalar_commons_v.Indexer.Pagination.{not_an_integer, limit_too_small, parse_page, parse_integer}

abbrev only : String → String → String → Option String
only name value asked = if asked == name then some value else none

clamped : parse_page (only "limit" "1000") ≡ ok (record { limit = 200; offset = 0 })
unfolding parse_page parse_integer
clamped = refl

no_limit : parse_page (only "offset" "30") ≡ ok (record { limit = 25; offset = 30 })
unfolding parse_page parse_integer
no_limit = refl

zero_limit : parse_page (only "limit" "0") ≡ err limit_too_small
unfolding parse_page parse_integer
zero_limit = refl

negative_limit : parse_page (only "limit" "-3") ≡ err limit_too_small
unfolding parse_page parse_integer
negative_limit = refl

decimal_point : parse_page (only "limit" "2.5") ≡ err not_an_integer
unfolding parse_page parse_integer
decimal_point = refl

abbrev empty : IndexerStore
empty = record { blocks = []; extrinsics = []; events = []; event_accounts = []; accounts = [] }

abbrev all_events : EventQuery
all_events = record {
  page = record { limit = 25; offset = 0 };
  block_number = none;
  extrinsic_id = none;
  section = none;
  method = none;
  account = none;
  order = desc;
}
