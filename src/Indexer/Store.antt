-- ===== src/Indexer/Store.antt =====
-- indexer/src/store.ts: the index. Each SQL table is a list of its rows (`blocks` and `accounts` are
-- dictionaries by primary key), each statement the list operation it stands for, and a failed
-- statement rolls back to the store before. JSON columns hold their text; `data` is `fields`.
pub mod Added
pub mod Mentions
pub mod Saved
pub mod Sightings
mod Tests
use scalar_commons_v.Base.{
  ℕ, zero, suc, ◌+◌, ◌-◌, Bool, true, false, not, ◌&&◌, Option, none, some, String, List, [], ◌∷◌,
  ◌++◌, ltb, leb, eqb, if◌then◌else◌, keep, any, length, map, take, drop, Dict, lookup, insert,
  ◌==◌, number_keys, string_keys, pair_keys,
}
use scalar_commons_v.Base.Results.{Result, ok, err, ◌>>=◌, ◌>>◌, require}

pub record BlockRow : Type 0 where
  pub number : ℕ
  pub hash : String
  pub parent_hash : String
  pub state_root : String
  pub extrinsics_root : String
  pub timestamp_ms : Option ℕ
  pub extrinsic_count : ℕ
  pub event_count : ℕ

pub record ExtrinsicRow : Type 0 where
  pub id : String
  pub block_number : ℕ
  pub index : ℕ
  pub hash : String
  pub section : String
  pub method : String
  pub signer : Option String
  pub nonce : Option ℕ
  pub tip_plancks : Option String
  pub success : Option Bool
  pub args : String

-- A row of `events`; its accounts are rows of `event_accounts`.
pub record EventRow : Type 0 where
  pub id : String
  pub block_number : ℕ
  pub index : ℕ
  pub section : String
  pub method : String
  pub phase : String
  pub extrinsic_id : Option String
  pub fields : String

pub record IndexedBlock : Type 0 where
  pub block : BlockRow
  pub extrinsics : List ExtrinsicRow
  pub events : List (EventRow × List String)

pub record IndexerStore : Type 0 where
  pub blocks : Dict ℕ BlockRow
  pub extrinsics : List ExtrinsicRow
  pub events : List EventRow
  pub event_accounts : List (String × String)
  pub accounts : Dict String (ℕ × ℕ)

-- A constraint that a statement breaks.
pub data Conflict : Type 0 where
  block_hash extrinsic_id event_id : Conflict

abbrev pub widened : Option (ℕ × ℕ) → ℕ → ℕ × ℕ
widened none number = (number, number)
widened (some (first, last)) number =
    (if ltb number first then number else first, if ltb last number then number else last)

unfoldable pub touch_account : String → ℕ → Dict String (ℕ × ℕ) → Dict String (ℕ × ℕ)
touch_account address number accounts =
    insert address (widened (lookup address accounts) number) accounts

abbrev pub in_block : ℕ → EventRow → Bool
in_block number e = eqb e.block_number number

abbrev pub extrinsic_in_block : ℕ → ExtrinsicRow → Bool
extrinsic_in_block number x = eqb x.block_number number

-- The first statements of the transaction: no rows of the block are left.
unfoldable pub clear_block : ℕ → IndexerStore → IndexerStore
clear_block number s =
    let gone = keep (in_block number) s.events in
    record s {
      event_accounts =
          keep (λ row. not (any (λ (e : EventRow). e.id == row.0) gone)) s.event_accounts;
      events = keep (λ e. not (in_block number e)) s.events;
      extrinsics = keep (λ x. not (extrinsic_in_block number x)) s.extrinsics;
    }

-- The hash is unique among the blocks of other numbers.
abbrev pub hash_taken : BlockRow → Dict ℕ BlockRow → Bool
hash_taken b blocks =
    any (λ (row : ℕ × BlockRow). not (eqb row.0 b.number) && (row.1.hash == b.hash)) blocks

unfoldable pub upsert_block : BlockRow → IndexerStore → Result Conflict IndexerStore
upsert_block b s =
    if hash_taken b s.blocks
    then err block_hash
    else ok (record s { blocks = insert b.number b s.blocks })

abbrev pub touch_signer : ExtrinsicRow → Dict String (ℕ × ℕ) → Dict String (ℕ × ℕ)
touch_signer x accounts = elim x.signer [
  | none ↦ accounts
  | some address ↦ touch_account address x.block_number accounts
]

unfoldable pub insert_extrinsics : List ExtrinsicRow → IndexerStore → Result Conflict IndexerStore
insert_extrinsics [] s = ok s
insert_extrinsics (x ∷ xs) s = do
  require (not (any (λ (row : ExtrinsicRow). row.id == x.id) s.extrinsics)) extrinsic_id
  insert_extrinsics xs
      (record s { extrinsics = s.extrinsics ++ (x ∷ []); accounts = touch_signer x s.accounts })

-- `INSERT OR IGNORE`.
abbrev pub insert_or_ignore : String × String → List (String × String) → List (String × String)
insert_or_ignore pair rows = if any (λ row. row == pair) rows then rows else rows ++ (pair ∷ [])

unfoldable pub insert_event_accounts : EventRow → List String → IndexerStore → IndexerStore
insert_event_accounts e [] s = s
insert_event_accounts e (address ∷ rest) s = insert_event_accounts e rest (record s {
  event_accounts = insert_or_ignore (e.id, address) s.event_accounts;
  accounts = touch_account address e.block_number s.accounts;
})

unfoldable pub insert_events :
    List (EventRow × List String) → IndexerStore → Result Conflict IndexerStore
insert_events [] s = ok s
insert_events ((e, accounts) ∷ rest) s = do
  require (not (any (λ (row : EventRow). row.id == e.id) s.events)) event_id
  insert_events rest (insert_event_accounts e accounts (record s { events = s.events ++ (e ∷ []) }))

unfoldable pub save_rows : IndexedBlock → IndexerStore → Result Conflict IndexerStore
save_rows b s = do
  s1 ← upsert_block b.block (clear_block b.block.number s)
  s2 ← insert_extrinsics b.extrinsics s1
  insert_events b.events s2

-- COMMIT, or ROLLBACK and the error.
abbrev pub committed :
    IndexerStore → Result Conflict IndexerStore → IndexerStore × Result Conflict (Unit {0})
committed before (err c) = (before, err c)
committed before (ok after) = (after, ok tt)

unfoldable pub save_block : IndexedBlock → IndexerStore → IndexerStore × Result Conflict (Unit {0})
save_block b s = committed s (save_rows b s)

abbrev pub max_or : Option ℕ → ℕ → Option ℕ
max_or none n = some n
max_or (some m) n = some (if ltb m n then n else m)

abbrev pub min_or : Option ℕ → ℕ → Option ℕ
min_or none n = some n
min_or (some m) n = some (if ltb n m then n else m)

abbrev pub highest : Dict ℕ BlockRow → Option ℕ
highest [] = none
highest ((n, b) ∷ blocks) = max_or (highest blocks) n

abbrev pub lowest : Dict ℕ BlockRow → Option ℕ
lowest [] = none
lowest ((n, b) ∷ blocks) = min_or (lowest blocks) n

unfoldable pub latest_block_number : IndexerStore → Option ℕ
latest_block_number s = highest s.blocks

unfoldable pub earliest_block_number : IndexerStore → Option ℕ
earliest_block_number s = lowest s.blocks

unfoldable pub block_count : IndexerStore → ℕ
block_count s = length s.blocks

abbrev pub is_present : Option BlockRow → Bool
is_present none = false
is_present (some b) = true

unfoldable pub has_block : IndexerStore → ℕ → Bool
has_block s number = is_present (lookup number s.blocks)

-- The numbers `n`, `n + 1`, … , `count` of them, that are not indexed.
abbrev pub missing_from : IndexerStore → ℕ → ℕ → List ℕ
missing_from s n zero = []
missing_from s n (suc count) =
    let rest = missing_from s (n + 1) count in if has_block s n then rest else n ∷ rest

unfoldable pub missing_blocks : IndexerStore → (from to : ℕ) → List ℕ
missing_blocks s from to = missing_from s from (to + 1 - from)
