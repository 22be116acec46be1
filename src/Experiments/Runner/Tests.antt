-- ===== src/Experiments/Runner/Tests.antt =====
-- One run of a single staker for one era.
use scalar_commons_v.Base.{◌≡◌, none, refl, lookup, insert, decimal_from, [], ◌∷◌, ◌+◌, All}
use scalar_commons_v.Base.Results.{ok, err}
use scalar_commons_v.Experiments.Prng.{derive_seed, next_u64, member_id}
use scalar_commons_v.Experiments.Recording.{
  amount, perform, push, is_privileged_signer, is_privileged_method,
}
use scalar_commons_v.Experiments.Recording.Ledger.{IsNumbered, IsUnprivileged}
use scalar_commons_v.Experiments.Recording.Settlings.{settlings}
use scalar_commons_v.Experiments.Settlement.{attempt, flush, backoff_of}
use scalar_commons_v.Experiments.Action.{
  unknown_archetype, ◌then◌, submit, for_each_from, try_to_settle,
}
use scalar_commons_v.Experiments.Archetypes.{enlist, staker_era, get_archetype}
use scalar_commons_v.Experiments.Runner.{
  RunSpec, RunResult, set_up_from, act_all, run_eras, run_one,
}
use scalar_commons_v.Experiments.Runner.Flushed.{IsSettledWithin, settled_by}
use scalar_commons_v.Experiments.Runner.Recorded.{run_one-IsRecorded}

abbrev one_staker : RunSpec
one_staker = record {
  id = "T";
  eras = 1;
  max_backoff = none;
  cohorts = record { archetype = "A-2"; count = 1; params = [] } ∷ [];
}

abbrev run_result : RunResult
run_result = record {
  run_id = "T";
  seed = 7;
  eras = 1;
  records =
      record {
        seq = 0;
        era = 0;
        signer = "A-2:c0:staker0";
        method = "agents.register";
        args = amount 10000000000000000 ∷ [];
      }
      ∷ record {
        seq = 1;
        era = 0;
        signer = "A-2:c0:staker0";
        method = "agents.heartbeat";
        args = [];
      }
      ∷ record {
        seq = 2;
        era = 1;
        signer = "A-2:c0:staker0";
        method = "agents.heartbeat";
        args = [];
      }
      ∷ record {
        seq = 3;
        era = 1;
        signer = "A-2:c0:staker0";
        method = "emissions.claim";
        args = [];
      }
      ∷ record {
        seq = 4;
        era = 1;
        signer = "A-2:c0:staker0";
        method = "emissions.settleEra";
        args = [];
      }
      ∷ [];
  settlements = record { era = 1; settler = "A-2:c0:staker0"; backoff = 1; candidates = 1 } ∷ [];
}

one_staker_run : run_one one_staker 7 ≡ ok run_result
unfolding run_one set_up_from act_all run_eras submit for_each_from enlist staker_era ◌then◌
    try_to_settle perform push is_privileged_signer is_privileged_method attempt flush backoff_of
    derive_seed next_u64 member_id decimal_from insert lookup get_archetype
one_staker_run = refl

abbrev unknown_run : RunSpec
unknown_run = record {
  id = "T";
  eras = 1;
  max_backoff = none;
  cohorts = record { archetype = "A-9"; count = 1; params = [] } ∷ [];
}

unknown_refused : run_one unknown_run 7 ≡ err (unknown_archetype "A-9")
unfolding run_one set_up_from submit perform get_archetype
unknown_refused = refl

run_one-IsRecorded_example :
    IsNumbered 0 run_result.records
    × (All IsUnprivileged run_result.records
        × ((settlings run_result.records ≡ settled_by run_result.settlements)
            × IsSettledWithin 1 (1 + 1) run_result.settlements))
run_one-IsRecorded_example = run_one-IsRecorded one_staker 7 run_result one_staker_run
