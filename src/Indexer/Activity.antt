-- ===== src/Indexer/Activity.antt =====
-- indexer/src/activity.ts: which events are agent activity, and the rows of the feed. The feed is read by
-- `list_activity` of the store.
pub mod Feed
mod Tests
use scalar_commons_v.Base.{
  ℕ, Bool, true, false, ◌&&◌, Option, none, some, String, List, [], ◌∷◌, map, keep, any,
  if◌then◌else◌, ◌==◌, string_keys,
}
use scalar_commons_v.Base.Results.{Result, ok, err}
use scalar_commons_v.Indexer.Store.{EventRow}
use scalar_commons_v.Indexer.Queries.{EventMatch, is_text}

pub data ActivityKind : Type 0 where
  message registration heartbeat agreement dispute oracle_vote slash : ActivityKind

abbrev pub kind_text : ActivityKind → String
kind_text message = "message"
kind_text registration = "registration"
kind_text heartbeat = "heartbeat"
kind_text agreement = "agreement"
kind_text dispute = "dispute"
kind_text oracle_vote = "oracle_vote"
kind_text slash = "slash"

abbrev pub activity_kinds : List ActivityKind
activity_kinds = message ∷ registration ∷ heartbeat ∷ agreement ∷ dispute ∷ oracle_vote ∷ slash ∷ []

pub record ActivitySource : Type 0 where
  pub kind : ActivityKind
  pub section : String
  pub method : Option String

abbrev pub source : ActivityKind → String → Option String → ActivitySource
source kind section method = record { kind = kind; section = section; method = method }

abbrev pub escrow_sources : List ActivitySource
escrow_sources =
    source agreement "escrow" (some "AgreementCreated")
    ∷ source agreement "escrow" (some "DeliveryRecorded")
    ∷ source agreement "escrow" (some "DeliveryConfirmed")
    ∷ source agreement "escrow" (some "RefundClaimed")
    ∷ source agreement "escrow" (some "DeadlineExtended")
    ∷ source agreement "escrow" (some "AgreementAccepted")
    ∷ source agreement "escrow" (some "AgreementRejected")
    ∷ source agreement "escrow" (some "PendingCancelled")
    ∷ source agreement "escrow" (some "AgreementExpired")
    ∷ source dispute "escrow" (some "DisputeOpened")
    ∷ source dispute "escrow" (some "DisputeResolved")
    ∷ source oracle_vote "oracle" (some "OracleResponseSubmitted")
    ∷ source oracle_vote "oracle" (some "BatchResponseSubmitted")
    ∷ source slash "agents" (some "SlashExecuted")
    ∷ source slash "agents" (some "SlashAppealed")
    ∷ source slash "agents" (some "SlashAppealWithdrawn")
    ∷ []

abbrev pub activity_sources : List ActivitySource
activity_sources =
    source message "messages" none
    ∷ source message "messaging" none
    ∷ source message "agentMessaging" none
    ∷ source registration "agents" (some "AgentRegistered")
    ∷ source heartbeat "agents" (some "HeartbeatSent")
    ∷ escrow_sources

abbrev pub source_matches : ActivitySource → String → String → Bool
source_matches s section method = s.section == section && is_text s.method method

-- The loop over the sources.
abbrev pub classify_by : List ActivitySource → String → String → Option ActivityKind
classify_by [] section method = none
classify_by (s ∷ sources) section method =
    let later = classify_by sources section method in
    if source_matches s section method then some s.kind else later

unfoldable pub classify_activity : String → String → Option ActivityKind
classify_activity section method = classify_by activity_sources section method

pub data UnknownActivityKind : Type 0 where
  unknown_kind : (raw : String) → UnknownActivityKind

abbrev pub kind_of : String → List ActivityKind → Result UnknownActivityKind (Option ActivityKind)
kind_of raw [] = err (unknown_kind raw)
kind_of raw (kind ∷ kinds) =
    let later = kind_of raw kinds in if kind_text kind == raw then ok (some kind) else later

unfoldable pub parse_activity_kind :
    Option String → Result UnknownActivityKind (Option ActivityKind)
parse_activity_kind none = ok none
parse_activity_kind (some raw) = kind_of raw activity_kinds

abbrev pub is_of_kind : ActivityKind → ActivitySource → Bool
is_of_kind kind s = kind_text s.kind == kind_text kind

unfoldable pub sources_for : Option ActivityKind → List ActivitySource
sources_for none = activity_sources
sources_for (some kind) = keep (is_of_kind kind) activity_sources

-- A source as the store's query takes it.
abbrev pub to_match : ActivitySource → EventMatch
to_match s = record { section = s.section; method = s.method }

pub record ActivityItem : Type 0 where
  pub id : String
  pub block_number : ℕ
  pub index : ℕ
  pub extrinsic_id : Option String
  pub timestamp_ms : Option ℕ
  pub kind : ActivityKind
  pub section : String
  pub method : String
  pub agents : List String
  pub fields : String

pub data NotActivity : Type 0 where
  not_activity : (section method : String) → NotActivity

abbrev pub shaped_item :
    EventRow → List String → Option ℕ → Option ActivityKind → Result NotActivity ActivityItem
shaped_item e accounts time none = err (not_activity e.section e.method)
shaped_item e accounts time (some kind) = ok (record {
  id = e.id;
  block_number = e.block_number;
  index = e.index;
  extrinsic_id = e.extrinsic_id;
  timestamp_ms = time;
  kind = kind;
  section = e.section;
  method = e.method;
  agents = accounts;
  fields = e.fields;
})

unfoldable pub activity_item : EventRow → List String → Option ℕ → Result NotActivity ActivityItem
activity_item e accounts time = shaped_item e accounts time (classify_activity e.section e.method)
