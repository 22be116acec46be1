-- ===== src/Experiments/Archetypes.antt =====
-- a1_honest_worker.ts to a5_oracle_colluder.ts and registry.ts: the scripted loops of the five archetypes. A generator
-- is threaded as its state. An account that the source would read past the end of a list, which the
-- accounts of `setup` never need, is an empty name here.
pub mod Kept
use scalar_commons_v.Base.{
  ℕ, zero, suc, ◌+◌, ◌-◌, ◌*◌, ◌%◌, max, ltb, true, if◌then◌else◌, Option, none, some, String, List,
  [], ◌∷◌, length, get_elem?, ◌==◌, string_keys,
}
use scalar_commons_v.Experiments.Prng.{name, index, next_int, member_id}
use scalar_commons_v.Experiments.Recording.{
  register, heartbeat, accept_escrow, complete_escrow, submit_oracle, vote, claim,
}
use scalar_commons_v.Experiments.Action.{
  RunAction, no_action, ◌then◌, submit, try_to_settle, create_then, for_each, for_each_from,
  CohortContext, Archetype, param, cmn, cmn_plancks, min_qualifying_vol, max_stake, sybil_min_stake,
  nominal_blocks_per_era, hash32, era_prng,
}

abbrev pub or_empty : Option String → String
or_empty none = ""
or_empty (some account) = account

-- `size` members from number `i` on.
abbrev pub members_from : String → ℕ → String → (i size : ℕ) → List String
members_from arch_id cohort_index role i zero = []
members_from arch_id cohort_index role i (suc size) =
    member_id arch_id cohort_index role i ∷ members_from arch_id cohort_index role (i + 1) size

unfoldable pub enlist : (stake : ℕ) → List String → RunAction
enlist stake = for_each (λ id. submit (register id stake) then submit (heartbeat id))

abbrev pub recruit : String → String → (size stake : ℕ) → CohortContext → List String × RunAction
recruit arch_id role size stake cohort =
    let accounts = members_from arch_id cohort.cohort_index role 0 size in
    (accounts, enlist stake accounts)

-- One agreement from its opening to its confirmation.
unfoldable pub trade :
    (buyer provider : String) (price : ℕ) (deliverable delivery : String) (deliver_by : ℕ)
    → RunAction
trade buyer provider price deliverable delivery deliver_by =
    create_then buyer provider price deliverable deliver_by (λ seq.
      submit (accept_escrow provider buyer seq delivery)
      then submit (complete_escrow buyer provider seq))

abbrev pub deadline : ℕ → ℕ
deadline era = (era + 2) * nominal_blocks_per_era

-- The agreements of one worker, and the generator after them.
unfoldable pub worker_trades :
    CohortContext → (era : ℕ) → (buyer provider : String) → (i k left rng : ℕ) → RunAction × ℕ
worker_trades cohort era buyer provider i k zero rng = (no_action, rng)
worker_trades cohort era buyer provider i k (suc left) rng =
    let (rng', extra) = next_int rng 5 in
    let later = worker_trades cohort era buyer provider i (k + 1) left rng' in
    (
      trade buyer provider (cmn 30 + extra * cmn_plancks)
            (hash32 cohort.seed (name "deliverable" ∷ index era ∷ index i ∷ index k ∷ []))
            (hash32 cohort.seed (name "delivery" ∷ index era ∷ index i ∷ index k ∷ []))
            (deadline era)
          then later.0,
      later.1,
    )

abbrev pub worker_stake : CohortContext → ℕ
worker_stake cohort = cmn (param cohort "stakeCmn" 5000)

unfoldable pub worker_votes : CohortContext → (era : ℕ) → (buyer : String) → (i : ℕ) → RunAction
worker_votes cohort era buyer i =
    submit (
      submit_oracle buyer (hash32 cohort.seed (name "oracle-req" ∷ index era ∷ []))
        (hash32 cohort.seed (name "oracle-honest" ∷ index era ∷ index i ∷ []))
        (param cohort "capability" 1))
    then submit (vote buyer (param cohort "pollIndex" 0) true (worker_stake cohort))
    then submit (claim buyer)
    then try_to_settle buyer era

unfoldable pub worker_loop : CohortContext → (era i : ℕ) → List String → (rng : ℕ) → RunAction
worker_loop cohort era i [] rng = no_action
worker_loop cohort era i (buyer ∷ buyers) rng =
    let provider = or_empty (get_elem? cohort.accounts ((i + 1) % length cohort.accounts)) in
    let trades =
      worker_trades cohort era buyer provider i 0 (max 1 (param cohort "escrowsPerEra" 2)) rng in
    submit (heartbeat buyer)
    then trades.0
    then worker_votes cohort era buyer i
    then worker_loop cohort era (i + 1) buyers trades.1

abbrev pub honest_worker : Archetype
honest_worker = record {
  id = "A-1";
  setup = λ cohort. recruit "A-1" "worker" (max 2 cohort.count) (worker_stake cohort) cohort;
  per_era = λ era cohort. worker_loop cohort era 0 cohort.accounts (era_prng cohort.seed era);
}

abbrev pub staker_stake : CohortContext → ℕ
staker_stake cohort =
    let stake = cmn (param cohort "stakeCmn" 10000) in
    if ltb max_stake stake then max_stake else stake

unfoldable pub staker_era : ℕ → List String → RunAction
staker_era era =
    for_each
      (λ staker. submit (heartbeat staker) then submit (claim staker) then try_to_settle staker era)

abbrev pub passive_staker : Archetype
passive_staker = record {
  id = "A-2";
  setup = λ cohort. recruit "A-2" "staker" (max 1 cohort.count) (staker_stake cohort) cohort;
  per_era = λ era cohort. staker_era era cohort.accounts;
}

abbrev pub settlers_per_era : ℕ
settlers_per_era = 3

abbrev pub settle_if_early : ℕ → ℕ → String → RunAction
settle_if_early era i account =
    if ltb i settlers_per_era then try_to_settle account era else no_action

unfoldable pub sybil_era : ℕ → List String → RunAction
sybil_era era =
    for_each_from 0
      (λ i sub. submit (heartbeat sub) then submit (claim sub) then settle_if_early era i sub)

abbrev pub sybil_farm : Archetype
sybil_farm = record {
  id = "A-3";
  setup = λ cohort. recruit "A-3" "sybil" (max 1 cohort.count) sybil_min_stake cohort;
  per_era = λ era cohort. sybil_era era cohort.accounts;
}

abbrev pub leg_cmn : ℕ
leg_cmn = 50

abbrev pub leg_price : ℕ → ℕ
leg_price extra = min_qualifying_vol + extra * cmn_plancks + cmn (leg_cmn - 50)

abbrev pub leg : CohortContext → (era l : ℕ) → (buyer provider : String) → (extra : ℕ) → RunAction
leg cohort era l buyer provider extra =
    trade buyer provider (leg_price extra)
      (hash32 cohort.seed (name "wash-deliverable" ∷ index era ∷ index l ∷ []))
      (hash32 cohort.seed (name "wash-delivery" ∷ index era ∷ index l ∷ [])) (deadline era)

unfoldable pub wash_era : CohortContext → (era : ℕ) → (a b : String) → (rng : ℕ) → RunAction
wash_era cohort era a b rng =
    let (rng', first) = next_int rng 3 in
    let second = (next_int rng' 3).1 in
    submit (heartbeat a)
    then submit (heartbeat b)
    then leg cohort era 0 a b first
    then leg cohort era 1 b a second
    then submit (claim a)
    then submit (claim b)
    then try_to_settle a era
    then try_to_settle b era

abbrev pub wash_trader : Archetype
wash_trader = record {
  id = "A-4";
  setup = λ cohort. recruit "A-4" "wash" 2 (cmn (param cohort "stakeCmn" 200)) cohort;
  per_era = λ era cohort.
      wash_era cohort era (or_empty (get_elem? cohort.accounts 0))
        (or_empty (get_elem? cohort.accounts 1)) (era_prng cohort.seed era);
}

unfoldable pub colluder_era : CohortContext → ℕ → RunAction
colluder_era cohort era =
    for_each_from 0
      (λ i colluder.
        submit (heartbeat colluder)
        then submit (
            submit_oracle colluder (hash32 cohort.seed (name "oracle-req" ∷ index era ∷ []))
              (hash32 cohort.seed (name "oracle-collusive" ∷ index era ∷ []))
              (param cohort "capability" 1))
        then submit (claim colluder)
        then settle_if_early era i colluder)
      cohort.accounts

abbrev pub oracle_colluder : Archetype
oracle_colluder = record {
  id = "A-5";
  setup = λ cohort.
      recruit "A-5" "colluder" (max 1 cohort.count) (cmn (param cohort "stakeCmn" 100)) cohort;
  per_era = λ era cohort. colluder_era cohort era;
}

abbrev pub find_archetype : String → List Archetype → Option Archetype
find_archetype id [] = none
find_archetype id (a ∷ archetypes) =
    let later = find_archetype id archetypes in if a.id == id then some a else later

abbrev pub archetypes : List Archetype
archetypes = honest_worker ∷ passive_staker ∷ sybil_farm ∷ wash_trader ∷ oracle_colluder ∷ []

unfoldable pub get_archetype : String → Option Archetype
get_archetype id = find_archetype id archetypes
