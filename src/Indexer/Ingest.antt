-- ===== src/Indexer/Ingest.antt =====
-- `fetchIndexedBlock` of indexer/src/ingest.ts. What the node answers for a height is a parameter, and so
-- are `isAccountType` and `JSON.stringify`, by which the store writes arguments and data.
pub mod Linked
pub mod Node
mod Tests
use scalar_commons_v.Base.{
  ℕ, zero, suc, ◌+◌, Bool, true, false, ◌&&◌, Option, none, some, String, List, [], ◌∷◌, length,
  Dict, insert, get_elem?, if◌then◌else◌, ◌==◌, string_keys, decimal, digit_string,
}
use scalar_commons_v.Indexer.Store.{BlockRow, ExtrinsicRow, EventRow, IndexedBlock}
use scalar_commons_v.Indexer.Decode.{
  row_id, Codec, integer, Json, object, Members, no_members, one_member, plain, DecodedArg,
  accounts_from_args,
}

-- An argument with its name in the metadata, if it has one, and its type.
pub record NodeArg : Type 0 where
  pub name : Option String
  pub type : String
  pub value : Codec

pub record Signature : Type 0 where
  pub signer : String
  pub nonce : ℕ
  pub tip : ℕ

pub record NodeExtrinsic : Type 0 where
  pub hash : String
  pub section : String
  pub method : String
  pub signature : Option Signature
  pub args : List NodeArg

pub data Phase : Type 0 where
  apply_extrinsic : ℕ → Phase
  finalization initialization : Phase

pub record NodeEvent : Type 0 where
  pub section : String
  pub method : String
  pub phase : Phase
  pub args : List NodeArg

pub record NodeBlock : Type 0 where
  pub hash : String
  pub parent_hash : String
  pub state_root : String
  pub extrinsics_root : String
  pub extrinsics : List NodeExtrinsic
  pub events : List NodeEvent

abbrev pub phase_name : Phase → String
phase_name (apply_extrinsic n) = "ApplyExtrinsic"
phase_name finalization = "Finalization"
phase_name initialization = "Initialization"

-- `arg<index>`, where the metadata has no name.
abbrev pub name_or : Option String → ℕ → String
name_or none index =
    String.◌∷◌ "a" (String.◌∷◌ "r" (String.◌∷◌ "g" (digit_string (decimal index) "")))
name_or (some name) index = name

abbrev pub decoded_args : ℕ → List NodeArg → List DecodedArg
decoded_args index [] = []
decoded_args index (arg ∷ args) =
    record { name = name_or arg.name index; type = arg.type; value = plain arg.value }
    ∷ decoded_args (index + 1) args

-- The object that the loop over the arguments fills.
abbrev pub fields_of : List DecodedArg → Dict String Json → Dict String Json
fields_of [] fields = fields
fields_of (arg ∷ args) fields = fields_of args (insert arg.name arg.value fields)

abbrev pub members_of : Dict String Json → Members
members_of [] = no_members
members_of ((key, value) ∷ fields) = one_member key value (members_of fields)

abbrev pub signer_of : Option Signature → Option String
signer_of none = none
signer_of (some s) = some s.signer

abbrev pub nonce_of : Option Signature → Option ℕ
nonce_of none = none
nonce_of (some s) = some s.nonce

abbrev pub tip_of : Option Signature → Option String
tip_of none = none
tip_of (some s) = some (digit_string (decimal s.tip) "")

-- What an event says of the extrinsic that it was emitted for.
abbrev pub outcome_of : NodeEvent → Option Bool
outcome_of e =
    if e.section == "system" && e.method == "ExtrinsicSuccess"
    then some true
    else if e.section == "system" && e.method == "ExtrinsicFailed"
    then some false
    else none

-- `target.success = …`, if the extrinsic is there.
abbrev pub set_success : ℕ → Bool → List ExtrinsicRow → List ExtrinsicRow
set_success i success [] = []
set_success zero success (x ∷ xs) = record x { success = some success } ∷ xs
set_success (suc i) success (x ∷ xs) = x ∷ set_success i success xs

abbrev pub mark : Phase → Option Bool → List ExtrinsicRow → List ExtrinsicRow
mark (apply_extrinsic i) (some success) rows = set_success i success rows
mark (apply_extrinsic i) none rows = rows
mark finalization outcome rows = rows
mark initialization outcome rows = rows

abbrev pub link : ℕ → Phase → Option String
link number (apply_extrinsic i) = some (row_id number i)
link number finalization = none
link number initialization = none

-- The block's clock: the first argument of its `timestamp.set`.
abbrev pub integer_value : Codec → Option ℕ
integer_value (integer bits value) = some value
integer_value _ = none

abbrev pub first_value : List NodeArg → Option ℕ
first_value [] = none
first_value (arg ∷ args) = integer_value arg.value

abbrev pub timestamp_of : List NodeExtrinsic → Option ℕ
timestamp_of [] = none
timestamp_of (x ∷ extrinsics) =
    let later = timestamp_of extrinsics in
    if x.section == "timestamp" && x.method == "set" then first_value x.args else later

module _ (stringify : Json → String) (is_account : String → Bool) where
  abbrev pub extrinsic_row : (number index : ℕ) → NodeExtrinsic → ExtrinsicRow
  extrinsic_row number index x = record {
    id = row_id number index;
    block_number = number;
    index = index;
    hash = x.hash;
    section = x.section;
    method = x.method;
    signer = signer_of x.signature;
    nonce = nonce_of x.signature;
    tip_plancks = tip_of x.signature;
    success = none;
    args = stringify (object (members_of (fields_of (decoded_args 0 x.args) [])));
  }

  abbrev pub extrinsic_rows : (number index : ℕ) → List NodeExtrinsic → List ExtrinsicRow
  extrinsic_rows number index [] = []
  extrinsic_rows number index (x ∷ extrinsics) =
      extrinsic_row number index x ∷ extrinsic_rows number (index + 1) extrinsics

  abbrev pub event_row : (number index : ℕ) → NodeEvent → EventRow × List String
  event_row number index e = (
    record {
      id = row_id number index;
      block_number = number;
      index = index;
      section = e.section;
      method = e.method;
      phase = phase_name e.phase;
      extrinsic_id = link number e.phase;
      fields = stringify (object (members_of (fields_of (decoded_args 0 e.args) [])));
    },
    accounts_from_args is_account (decoded_args 0 e.args),
  )

  -- The loop over the events, which writes the outcomes into the extrinsics.
  abbrev pub event_rows : (number index : ℕ) → List NodeEvent → List (EventRow × List String)
  event_rows number index [] = []
  event_rows number index (e ∷ events) =
      event_row number index e ∷ event_rows number (index + 1) events

  abbrev pub mark_all : List NodeEvent → List ExtrinsicRow → List ExtrinsicRow
  mark_all [] rows = rows
  mark_all (e ∷ events) rows = mark_all events (mark e.phase (outcome_of e) rows)

  unfoldable pub indexed_block : ℕ → NodeBlock → IndexedBlock
  indexed_block number b =
      let extrinsics = mark_all b.events (extrinsic_rows number 0 b.extrinsics) in
      let events = event_rows number 0 b.events in
      record {
        block = record {
          number = number;
          hash = b.hash;
          parent_hash = b.parent_hash;
          state_root = b.state_root;
          extrinsics_root = b.extrinsics_root;
          timestamp_ms = timestamp_of b.extrinsics;
          extrinsic_count = length extrinsics;
          event_count = length events;
        };
        extrinsics = extrinsics;
        events = events;
      }

  abbrev pub indexed : ℕ → Option NodeBlock → Option IndexedBlock
  indexed number none = none
  indexed number (some b) = some (indexed_block number b)

  unfoldable pub fetch_indexed_block : (ℕ → Option NodeBlock) → ℕ → Option IndexedBlock
  fetch_indexed_block node number = indexed number (node number)
