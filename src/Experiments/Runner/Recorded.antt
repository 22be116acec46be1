-- ===== src/Experiments/Runner/Recorded.antt =====
-- What a run leaves.
use mathlib.Core.Path.{subst}
use scalar_commons_v.Base.{
  ℕ, zero, suc, ◌+◌, ◌≡◌, refl, ap, sym, ◌∙◌, ◌++◌, arith, String, List, [], ◌∷◌, Option, none,
  some, All, if◌then◌else◌, lookup,
}
use scalar_commons_v.Base.Results.{Result, ok, err, ok_inj, bind-eq-ok}
use scalar_commons_v.Experiments.Recording.{perform, set_era}
use scalar_commons_v.Experiments.Recording.Ledger.{IsLedger, IsNumbered, IsUnprivileged}
use scalar_commons_v.Experiments.Recording.Settlings.{settlings}
use scalar_commons_v.Experiments.Settlement.{SettlementOutcome, flush}
use scalar_commons_v.Experiments.Action.{RunState, Halt, ◌then◌, submit, for_each_from, Archetype}
use scalar_commons_v.Experiments.Archetypes.{get_archetype}
use scalar_commons_v.Experiments.Archetypes.Kept.{
  Keeps, no_action-Keeps, then-Keeps, submit-eq-ok, submit-kept, IsHonest, get_archetype-IsHonest,
}
use scalar_commons_v.Experiments.Runner.{
  CohortSpec, RunSpec, RunResult, Cohort, context, known_archetype, set_up_from, act_all,
  after_flush, push_some, run_eras, first_state, run_one,
}
use scalar_commons_v.Experiments.Runner.Flushed.{IsSettledWithin, settled_by, after_flush-Flushed}

abbrev AreHonest : List Cohort → Type 0
AreHonest = All (λ cohort. IsHonest cohort.0)

cohorts_from-Keeps :
    (era i : ℕ) (cohorts : List Cohort)
    → AreHonest cohorts
    → Keeps (for_each_from i (λ j cohort. cohort.0.per_era era cohort.1) cohorts)
unfolding for_each_from
cohorts_from-Keeps era i [] h = no_action-Keeps
cohorts_from-Keeps era i (c ∷ cohorts) (h, hs) =
    then-Keeps _ _ (h.per_era era c.1) (cohorts_from-Keeps era (i + 1) cohorts hs)

act_all-Keeps : (era : ℕ) (cohorts : List Cohort) → AreHonest cohorts → Keeps (act_all era cohorts)
unfolding act_all
act_all-Keeps era cohorts h = cohorts_from-Keeps era 0 cohorts h

begun_lem :
    (era : ℕ) (s s' : RunState)
    → submit (set_era era) s ≡ ok s'
    → (s'.sdk.era ≡ era) × (settlings s'.sdk.ledger ≡ settlings s.sdk.ledger)
unfolding perform
begun_lem era s s' e =
    let same = ok_inj (submit-eq-ok (set_era era) s s' e) in
    (ap (λ z. z.era) (sym same), ap (λ z. settlings z.ledger) (sym same))

-- A run from one state to another, with its settlements.
record Ran (first last : ℕ) (s : RunState) (r : List SettlementOutcome × RunState) : Type 0 where
  ledger : IsLedger r.1.sdk
  within : IsSettledWithin first last r.0
  recorded : settlings r.1.sdk.ledger ≡ settlings s.sdk.ledger ++ settled_by r.0

append_nil : (xs : List (ℕ × String)) → xs ++ [] ≡ xs
append_nil [] = refl
append_nil (x ∷ xs) = ap (◌∷◌ x) (append_nil xs)

run_eras-Ran :
    (left era : ℕ) (cohorts : List Cohort) (s : RunState) (r : List SettlementOutcome × RunState)
    → AreHonest cohorts
    → run_eras left era cohorts s ≡ ok r
    → IsLedger s.sdk
    → Ran era (era + left) s r
unfolding run_eras ◌then◌
run_eras-Ran zero era cohorts s r h e l =
    subst (Ran era (era + 0) s) (ok_inj e)
      (record { ledger = l; within = tt; recorded = sym (append_nil (settlings s.sdk.ledger)) })
run_eras-Ran (suc left) era cohorts s r h e l =
    let (t, acted, more) = bind-eq-ok ((submit (set_era era) then act_all era cohorts) s) _ e in
    let (begun, set, act) = bind-eq-ok (submit (set_era era) s) (act_all era cohorts) acted in
    let (f, flushed, rest) = bind-eq-ok (after_flush (flush era t.settlement t.sdk)) _ more in
    let (later, ran, last) = bind-eq-ok (run_eras left (era + 1) cohorts f.1) _ rest in
    let here = after_flush-Flushed era t f flushed in
    let acts = act_all-Keeps era cohorts h in
    let (of_era, unsettled) = begun_lem era s begun set in
    let steady = acts.steady begun t act in
    let worked = acts.kept begun t act (submit-kept (set_era era) s begun set l) in
    let after = run_eras-Ran left (era + 1) cohorts f.1 later h ran (here.kept worked) in
    subst (Ran era (era + suc left) s) (ok_inj last) (record {
      ledger = after.ledger;
      within =
          here.dated era (era + suc left) later.0 (omega arith) (omega arith)
            (subst (λ n. IsSettledWithin (era + 1) n later.0) (omega arith) after.within);
      recorded =
          after.recorded
          ∙ here.recorded later.0 (steady.era ∙ of_era)
          ∙ ap (λ z. z ++ settled_by (push_some f.0 later.0)) (steady.settled ∙ unsettled);
    })

known_archetype-eq-ok :
    (id : String) (candidate : Option Archetype) (archetype : Archetype)
    → known_archetype id candidate ≡ ok archetype
    → candidate ≡ some archetype
known_archetype-eq-ok id none archetype e = absurd (no_ok e)
  where
    no_ok : {h : Halt} → ◌≡◌ {A = Result Halt Archetype} (err h) (ok archetype) → ⊥
    no_ok e = cc
known_archetype-eq-ok id (some candidate) archetype e = ap some (ok_inj e)

-- What the setup leaves to the eras.
record Ready (s : RunState) (r : List Cohort × RunState) : Type 0 where
  ledger : IsLedger r.1.sdk
  honest : AreHonest r.0
  unsettled : settlings r.1.sdk.ledger ≡ settlings s.sdk.ledger

set_up_from-Ready :
    (run : RunSpec) (seed i : ℕ) (specs : List CohortSpec) (s : RunState)
    (r : List Cohort × RunState)
    → set_up_from run seed i specs s ≡ ok r
    → IsLedger s.sdk
    → Ready s r
unfolding set_up_from
set_up_from-Ready run seed i [] s r e l =
    subst (Ready s) (ok_inj e) (record { ledger = l; honest = tt; unsettled = refl })
set_up_from-Ready run seed i (spec ∷ specs) s r e l =
    let (archetype, known, more) =
      bind-eq-ok (known_archetype spec.archetype (get_archetype spec.archetype)) _ e in
    let cohort = context run seed i spec in
    let (t, acted, rest) = bind-eq-ok ((archetype.setup cohort).1 s) _ more in
    let (later, ran, last) = bind-eq-ok (set_up_from run seed (i + 1) specs t) _ rest in
    let good =
      get_archetype-IsHonest spec.archetype archetype
        (known_archetype-eq-ok spec.archetype (get_archetype spec.archetype) archetype known) in
    let setup = good.setup cohort in
    let others = set_up_from-Ready run seed (i + 1) specs t later ran (setup.kept s t acted l) in
    subst (Ready s) (ok_inj last) (record {
      ledger = others.ledger;
      honest = (good, others.honest);
      unsettled = others.unsettled ∙ (setup.steady s t acted).settled;
    })

-- A run that is not refused records extrinsics that are numbered from 0 by their order and have no privileged
-- signer or call, whatever archetypes, counts and parameters the manifest names. Its `emissions.settleEra` records
-- are, in order, one for each of its settlements, in the era and by the settler of that settlement;
-- and the settlements are of increasing eras from 1 to the last, so no era is settled twice.
pub run_one-IsRecorded :
    (run : RunSpec) (seed : ℕ) (r : RunResult)
    → run_one run seed ≡ ok r
    → IsNumbered 0 r.records
      × (All IsUnprivileged r.records
          × ((settlings r.records ≡ settled_by r.settlements)
              × IsSettledWithin 1 (1 + run.eras) r.settlements))
unfolding run_one lookup
run_one-IsRecorded run seed r e =
    let (start, first, more) = bind-eq-ok (submit (set_era 0) (first_state run seed)) _ e in
    let (set, set_up, rest) = bind-eq-ok (set_up_from run seed 0 run.cohorts start) _ more in
    let (end, run_to, last) = bind-eq-ok (run_eras run.eras 1 set.0 set.1) _ rest in
    let empty : IsLedger (first_state run seed).sdk = record {
      numbered = tt;
      unprivileged = tt;
      sequences = λ buyer. refl;
    } in
    let started = submit-kept (set_era 0) (first_state run seed) start first empty in
    let ready = set_up_from-Ready run seed 0 run.cohorts start set set_up started in
    let ran = run_eras-Ran run.eras 1 set.0 set.1 end ready.honest run_to ready.ledger in
    let unsettled = ready.unsettled ∙ (begun_lem 0 (first_state run seed) start first).1 in
    subst
      (λ z.
        IsNumbered 0 z.records
        × (All IsUnprivileged z.records
            × ((settlings z.records ≡ settled_by z.settlements)
                × IsSettledWithin 1 (1 + run.eras) z.settlements)))
      (ok_inj last)
      (
        ran.ledger.numbered,
        (
          ran.ledger.unprivileged,
          (ran.recorded ∙ ap (λ z. z ++ settled_by end.0) unsettled, ran.within),
        ),
      )
