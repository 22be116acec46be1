-- ===== src/Indexer/Queries.antt =====
-- The list and get queries of `IndexerStore` (indexer/src/store.ts), and `parsePage`'s bounds
-- (indexer/src/pagination.ts). `ORDER BY` is an insertion sort by the same key, `LIMIT` and
-- `OFFSET` are `take` and `drop`.
pub mod Sorted
pub mod Asked
pub mod Pages
mod Tests
use scalar_commons_v.Base.{
  ℕ, ◌+◌, ◌*◌, Bool, true, false, not, ◌&&◌, ◌||◌, Option, none, some, String, List, [], ◌∷◌, ◌++◌,
  ltb, leb, eqb, if◌then◌else◌, keep, any, length, map, take, drop, Dict, lookup, ◌==◌, string_keys,
  number_keys,
}
use scalar_commons_v.Indexer.Store.{BlockRow, ExtrinsicRow, EventRow, IndexerStore}

pub record Page : Type 0 where
  pub limit : ℕ
  pub offset : ℕ

pub record PageResult {ℓ} (A : Type ℓ) : Type ℓ where
  pub total : ℕ
  pub items : List A

pub data Order : Type 0 where
  asc desc : Order

-- `LIMIT ? OFFSET ?`, and `COUNT(*)` without them.
unfoldable pub window {ℓ} : {A : Type ℓ} → Page → List A → PageResult A
window page rows = record { total = length rows; items = take page.limit (drop page.offset rows) }

module _ {ℓ} {A : Type ℓ} (before : A → A → Bool) where
  abbrev pub insert_sorted : A → List A → List A
  insert_sorted x [] = x ∷ []
  insert_sorted x (y ∷ ys) =
      let later = insert_sorted x ys in if before x y then x ∷ (y ∷ ys) else y ∷ later

  abbrev pub sort : List A → List A
  sort [] = []
  sort (x ∷ xs) = insert_sorted x (sort xs)

-- A row's place in the chain: its block, then its index in it.
abbrev pub place_le : ℕ × ℕ → ℕ × ℕ → Bool
place_le (block, index) (block', index') =
    ltb block block' || (eqb block block' && leb index index')

abbrev pub in_order : Order → ℕ × ℕ → ℕ × ℕ → Bool
in_order asc p q = place_le p q
in_order desc p q = place_le q p

abbrev pub extrinsic_place : ExtrinsicRow → ℕ × ℕ
extrinsic_place x = (x.block_number, x.index)

abbrev pub event_place : EventRow → ℕ × ℕ
event_place e = (e.block_number, e.index)

-- A filter that is not given lets every row pass.
abbrev pub is_number : Option ℕ → ℕ → Bool
is_number none n = true
is_number (some m) n = eqb n m

abbrev pub is_text : Option String → String → Bool
is_text none t = true
is_text (some s) t = t == s

-- A column that is NULL equals nothing.
abbrev pub is_nullable_text : Option String → Option String → Bool
is_nullable_text none t = true
is_nullable_text (some s) none = false
is_nullable_text (some s) (some t) = t == s

pub record ExtrinsicQuery : Type 0 where
  pub page : Page
  pub block_number : Option ℕ
  pub signer : Option String
  pub section : Option String
  pub method : Option String
  pub order : Order

abbrev pub matches_extrinsic : ExtrinsicQuery → ExtrinsicRow → Bool
matches_extrinsic q x =
    is_number q.block_number x.block_number
    && (is_nullable_text q.signer x.signer
        && (is_text q.section x.section && is_text q.method x.method))

pub record StoredExtrinsic : Type 0 where
  pub row : ExtrinsicRow
  pub is_signed : Bool

abbrev pub has_signer : Option String → Bool
has_signer none = false
has_signer (some s) = true

abbrev pub as_extrinsic : ExtrinsicRow → StoredExtrinsic
as_extrinsic x = record { row = x; is_signed = has_signer x.signer }

abbrev pub extrinsics_in_order : IndexerStore → ExtrinsicQuery → List ExtrinsicRow
extrinsics_in_order s q =
    sort (λ x y. in_order q.order (extrinsic_place x) (extrinsic_place y))
      (keep (matches_extrinsic q) s.extrinsics)

unfoldable pub list_extrinsics : IndexerStore → ExtrinsicQuery → PageResult StoredExtrinsic
list_extrinsics s q = window q.page (map as_extrinsic (extrinsics_in_order s q))

pub record EventQuery : Type 0 where
  pub page : Page
  pub block_number : Option ℕ
  pub extrinsic_id : Option String
  pub section : Option String
  pub method : Option String
  pub account : Option String
  pub order : Order

-- `EXISTS (SELECT 1 FROM event_accounts …)`.
abbrev pub names_account : IndexerStore → Option String → EventRow → Bool
names_account s none e = true
names_account s (some account) e =
    any (λ (row : String × String). row.0 == e.id && row.1 == account) s.event_accounts

abbrev pub matches_event : IndexerStore → EventQuery → EventRow → Bool
matches_event s q e =
    is_number q.block_number e.block_number
    && (is_nullable_text q.extrinsic_id e.extrinsic_id
        && (is_text q.section e.section
            && (is_text q.method e.method && names_account s q.account e)))

abbrev pub events_in_order : IndexerStore → EventQuery → List EventRow
events_in_order s q =
    sort (λ x y. in_order q.order (event_place x) (event_place y))
      (keep (matches_event s q) s.events)

unfoldable pub list_events : IndexerStore → EventQuery → PageResult EventRow
list_events s q = window q.page (events_in_order s q)

-- A source of the activity feed: an event of a pallet, or all of them.
pub record EventMatch : Type 0 where
  pub section : String
  pub method : Option String

abbrev pub matches_source : EventRow → EventMatch → Bool
matches_source e source = e.section == source.section && is_text source.method e.method

-- The time column of a LEFT JOIN: NULL without a row.
abbrev pub time_of : Option BlockRow → Option ℕ
time_of none = none
time_of (some b) = b.timestamp_ms

unfoldable pub list_activity :
    IndexerStore → Page → List EventMatch → Option String → PageResult (EventRow × Option ℕ)
list_activity s page [] account = record { total = 0; items = [] }
list_activity s page (first ∷ others) account =
    let sources = first ∷ others in
    let matching =
      keep (λ e. any (matches_source e) sources && names_account s account e) s.events in
    window page (
      map (λ (e : EventRow). (e, time_of (lookup e.block_number s.blocks)))
        (sort (λ x y. in_order desc (event_place x) (event_place y)) matching))

unfoldable pub list_blocks : IndexerStore → Page → PageResult BlockRow
list_blocks s page = window page (
    sort (λ (a : BlockRow) b. leb b.number a.number) (map (λ (row : ℕ × BlockRow). row.1) s.blocks))

abbrev pub find_row {ℓ} : {A : Type ℓ} → (A → Bool) → List A → Option A
find_row p [] = none
find_row p (x ∷ xs) = let later = find_row p xs in if p x then some x else later

unfoldable pub get_extrinsic : IndexerStore → String → Option ExtrinsicRow
get_extrinsic s id = find_row (λ x. x.id == id) s.extrinsics

unfoldable pub get_event : IndexerStore → String → Option EventRow
get_event s id = find_row (λ e. e.id == id) s.events

pub record AccountRow : Type 0 where
  pub address : String
  pub first_seen_block : ℕ
  pub last_seen_block : ℕ
  pub event_count : ℕ
  pub extrinsic_count : ℕ

-- The counters are counted on read.
unfoldable pub as_account : IndexerStore → String × (ℕ × ℕ) → AccountRow
as_account s (address, (first, last)) = record {
  address = address;
  first_seen_block = first;
  last_seen_block = last;
  event_count = length (keep (λ (row : String × String). row.1 == address) s.event_accounts);
  extrinsic_count =
      length (keep (λ (x : ExtrinsicRow). is_nullable_text (some address) x.signer) s.extrinsics);
}

abbrev pub found_account : IndexerStore → String → Option (ℕ × ℕ) → Option AccountRow
found_account s address none = none
found_account s address (some seen) = some (as_account s (address, seen))

unfoldable pub get_account : IndexerStore → String → Option AccountRow
get_account s address = found_account s address (lookup address s.accounts)
