-- ===== src/Experiments/Runner.antt =====
-- runner.ts: one run of a manifest at one seed. The digest of the ledger and the reading of the manifest file have
-- no counterpart.
pub mod Flushed
pub mod Recorded
mod Tests
use scalar_commons_v.Base.{
  ℕ, zero, suc, ◌+◌, Option, none, some, String, List, [], ◌∷◌, Dict, string_keys,
}
use scalar_commons_v.Base.Results.{Result, ok, err, ◌>>=◌}
use scalar_commons_v.Experiments.Prng.{name, index, derive_seed}
use scalar_commons_v.Experiments.Recording.{
  ExtrinsicRecord, RecordingSdk, new_sdk, Forbidden, set_era,
}
use scalar_commons_v.Experiments.Settlement.{Settlement, SettlementOutcome, new_settlement, flush}
use scalar_commons_v.Experiments.Action.{
  RunState, Halt, forbidden, unknown_archetype, RunAction, no_action, ◌then◌, submit, for_each,
  CohortContext, Archetype, or_default,
}
use scalar_commons_v.Experiments.Archetypes.{get_archetype}

pub record CohortSpec : Type 0 where
  pub archetype : String
  pub count : ℕ
  pub params : Dict String ℕ

pub record RunSpec : Type 0 where
  pub id : String
  pub eras : ℕ
  pub max_backoff : Option ℕ
  pub cohorts : List CohortSpec

pub record RunResult : Type 0 where
  pub run_id : String
  pub seed : ℕ
  pub eras : ℕ
  pub records : List ExtrinsicRecord
  pub settlements : List SettlementOutcome

abbrev pub default_max_backoff : ℕ
default_max_backoff = 8

abbrev pub Cohort : Type 0
Cohort = Archetype × CohortContext

abbrev pub context : RunSpec → (seed cohort_index : ℕ) → CohortSpec → CohortContext
context run seed cohort_index spec = record {
  seed = derive_seed seed (name run.id ∷ name spec.archetype ∷ index cohort_index ∷ []);
  cohort_index = cohort_index;
  count = spec.count;
  params = spec.params;
  accounts = [];
}

abbrev pub known_archetype : String → Option Archetype → Result Halt Archetype
known_archetype id none = err (unknown_archetype id)
known_archetype id (some archetype) = ok archetype

-- The setup phase, from cohort `i` on.
unfoldable pub set_up_from :
    RunSpec → (seed i : ℕ) → List CohortSpec → RunState → Result Halt (List Cohort × RunState)
set_up_from run seed i [] s = ok ([], s)
set_up_from run seed i (spec ∷ specs) s = do
  archetype ← known_archetype spec.archetype (get_archetype spec.archetype)
  let cohort = context run seed i spec
  t ← (archetype.setup cohort).1 s
  rest ← set_up_from run seed (i + 1) specs t
  ok ((archetype, record cohort { accounts = (archetype.setup cohort).0 }) ∷ rest.0, rest.1)

unfoldable pub act_all : ℕ → List Cohort → RunAction
act_all era = for_each (λ cohort. cohort.0.per_era era cohort.1)

abbrev pub after_flush :
    Result Forbidden (Option SettlementOutcome × (Settlement × RecordingSdk))
    → Result Halt (Option SettlementOutcome × RunState)
after_flush (ok (outcome, (settlement, sdk))) =
    ok (outcome, record { sdk = sdk; settlement = settlement })
after_flush (err e) = err (forbidden e)

abbrev pub push_some : Option SettlementOutcome → List SettlementOutcome → List SettlementOutcome
push_some none settlements = settlements
push_some (some outcome) settlements = outcome ∷ settlements

-- The working eras from `era` on, and what settled them.
unfoldable pub run_eras :
    (left era : ℕ) → List Cohort → RunState → Result Halt (List SettlementOutcome × RunState)
run_eras zero era cohorts s = ok ([], s)
run_eras (suc left) era cohorts s = do
  t ← (submit (set_era era) then act_all era cohorts) s
  r ← after_flush (flush era t.settlement t.sdk)
  rest ← run_eras left (era + 1) cohorts r.1
  ok (push_some r.0 rest.0, rest.1)

abbrev pub first_state : RunSpec → ℕ → RunState
first_state run seed = record {
  sdk = new_sdk;
  settlement =
      new_settlement (derive_seed seed (name "settlement" ∷ name run.id ∷ []))
        (or_default default_max_backoff run.max_backoff);
}

unfoldable pub run_one : RunSpec → ℕ → Result Halt RunResult
run_one run seed = do
  start ← submit (set_era 0) (first_state run seed)
  ready ← set_up_from run seed 0 run.cohorts start
  end ← run_eras run.eras 1 ready.0 ready.1
  ok (record {
    run_id = run.id;
    seed = seed;
    eras = run.eras;
    records = end.1.sdk.ledger;
    settlements = end.0;
  })
