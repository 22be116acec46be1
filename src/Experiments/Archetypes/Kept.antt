-- ===== src/Experiments/Archetypes/Kept.antt =====
-- What every archetype keeps of the ledger.
use mathlib.Core.Path.{subst}
use scalar_commons_v.Base.{
  ℕ, zero, suc, ◌+◌, ◌≡◌, refl, ap, ◌∙◌, true, All, String, List, [], ◌∷◌, Option, none, some, ltb,
  Bool-cases, inl, inr, if◌then◌else◌, ◌==◌, string_keys, lookup,
}
use scalar_commons_v.Base.Results.{Result, ok, err, ok_inj, bind-eq-ok}
use scalar_commons_v.Experiments.Recording.{
  RecordingSdk, Forbidden, SdkCall, perform, create_escrow, or_first,
}
use scalar_commons_v.Experiments.Recording.Ledger.{IsLedger, perform-IsLedger}
use scalar_commons_v.Experiments.Recording.Settlings.{is_steady, IsSteady, perform-IsSteady}
use scalar_commons_v.Experiments.Prng.{next_int}
use scalar_commons_v.Experiments.Action.{
  RunState, Halt, RunAction, with_sdk, no_action, ◌then◌, submit, try_to_settle, create_then,
  for_each_from, CohortContext, Archetype, era_prng,
}
use scalar_commons_v.Experiments.Archetypes.{
  enlist, trade, worker_trades, worker_votes, worker_loop, staker_era, settle_if_early,
  settlers_per_era, sybil_era, wash_era, colluder_era, find_archetype, archetypes, get_archetype,
}

-- When the action succeeds, a sound ledger stays sound, and no era is settled or begun.
pub record Keeps (action : RunAction) : Type 0 where
  pub kept : (s s' : RunState) → action s ≡ ok s' → IsLedger s.sdk → IsLedger s'.sdk
  pub steady : (s s' : RunState) → action s ≡ ok s' → IsSteady s.sdk s'.sdk

same-IsSteady : (sdk : RecordingSdk) → IsSteady sdk sdk
same-IsSteady sdk = record { settled = refl; era = refl }

pub no_action-Keeps : Keeps no_action
no_action-Keeps = record {
  kept = λ s s' e h. subst (λ z. IsLedger z.sdk) (ok_inj e) h;
  steady = λ s s' e. subst (λ z. IsSteady s.sdk z.sdk) (ok_inj e) (same-IsSteady s.sdk);
}

pub then-Keeps : (first second : RunAction) → Keeps first → Keeps second → Keeps (first then second)
unfolding ◌then◌
then-Keeps first second h h' = record {
  kept = λ s s' e l.
      let (t, here, rest) = bind-eq-ok (first s) second e in h'.kept t s' rest (h.kept s t here l);
  steady = λ s s' e.
      let (t, here, rest) = bind-eq-ok (first s) second e in
      let a = h.steady s t here in
      let b = h'.steady t s' rest in
      record { settled = b.settled ∙ a.settled; era = b.era ∙ a.era };
}

-- What a call that was submitted did.
pub submit-eq-ok :
    (c : SdkCall) (s s' : RunState) → submit c s ≡ ok s' → perform c s.sdk ≡ ok s'.sdk
unfolding submit
submit-eq-ok c s s' e = after (perform c s.sdk) refl e
  where
    after :
        (r : Result Forbidden RecordingSdk)
        → perform c s.sdk ≡ r
        → with_sdk s r ≡ ok s'
        → perform c s.sdk ≡ ok s'.sdk
    after (ok sdk) made e = made ∙ ap (λ z. ok z.sdk) (ok_inj e)
    after (err thrown) made e = absurd (no_ok e)
      where
        no_ok : {h : Halt} → ◌≡◌ {A = Result Halt RunState} (err h) (ok s') → ⊥
        no_ok e = cc

pub submit-kept :
    (c : SdkCall) (s s' : RunState) → submit c s ≡ ok s' → IsLedger s.sdk → IsLedger s'.sdk
submit-kept c s s' e l = perform-IsLedger c s.sdk s'.sdk (submit-eq-ok c s s' e) l

pub submit-Keeps : (c : SdkCall) → is_steady c ≡ true → Keeps (submit c)
submit-Keeps c h = record {
  kept = submit-kept c;
  steady = λ s s' e. perform-IsSteady c s.sdk s'.sdk h (submit-eq-ok c s s' e);
}

try_to_settle-Keeps : (account : String) (era : ℕ) → Keeps (try_to_settle account era)
unfolding try_to_settle
try_to_settle-Keeps account era = record {
  kept = λ s s' e l. subst (λ z. IsLedger z.sdk) (ok_inj e) l;
  steady = λ s s' e. subst (λ z. IsSteady s.sdk z.sdk) (ok_inj e) (same-IsSteady s.sdk);
}

create_then-Keeps :
    (account provider : String) (price : ℕ) (deliverable : String) (by : ℕ) (k : ℕ → RunAction)
    → ((seq : ℕ) → Keeps (k seq))
    → Keeps (create_then account provider price deliverable by k)
unfolding create_then ◌then◌
create_then-Keeps account provider price deliverable by k h =
    let opened = create_escrow account provider price deliverable by none in
    let both = λ (seq : ℕ). then-Keeps (submit opened) (k seq) (submit-Keeps opened refl) (h seq) in
    record {
      kept = λ s s' e l. (both (or_first (lookup account s.sdk.next_seq))).kept s s' e l;
      steady = λ s s' e. (both (or_first (lookup account s.sdk.next_seq))).steady s s' e;
    }

pub for_each_from-Keeps :
    {A : Type 0} (i : ℕ) (body : ℕ → A → RunAction) (xs : List A)
    → ((j : ℕ) (x : A) → Keeps (body j x))
    → Keeps (for_each_from i body xs)
unfolding for_each_from
for_each_from-Keeps i body [] h = no_action-Keeps
for_each_from-Keeps i body (x ∷ xs) h =
    then-Keeps (body i x) (for_each_from (i + 1) body xs) (h i x)
      (for_each_from-Keeps (i + 1) body xs h)

steady_call : true ≡ true
steady_call = refl

ruleset keeping = (then-Keeps, submit-Keeps, no_action-Keeps, try_to_settle-Keeps, steady_call)

enlist-Keeps : (stake : ℕ) (accounts : List String) → Keeps (enlist stake accounts)
unfolding enlist
enlist-Keeps stake accounts = for_each_from-Keeps 0 _ accounts (λ j id. search keeping)

trade-Keeps :
    (buyer provider : String) (price : ℕ) (deliverable delivery : String) (by : ℕ)
    → Keeps (trade buyer provider price deliverable delivery by)
unfolding trade
trade-Keeps buyer provider price deliverable delivery by =
    create_then-Keeps buyer provider price deliverable by _ (λ seq. search keeping)

worker_trades-Keeps :
    (cohort : CohortContext) (era : ℕ) (buyer provider : String) (i k left rng : ℕ)
    → Keeps (worker_trades cohort era buyer provider i k left rng).0
unfolding worker_trades
worker_trades-Keeps cohort era buyer provider i k zero rng = no_action-Keeps
worker_trades-Keeps cohort era buyer provider i k (suc left) rng =
    then-Keeps _ _ (trade-Keeps buyer provider _ _ _ _)
      (worker_trades-Keeps cohort era buyer provider i (k + 1) left (next_int rng 5).0)

worker_votes-Keeps :
    (cohort : CohortContext) (era : ℕ) (buyer : String) (i : ℕ)
    → Keeps (worker_votes cohort era buyer i)
unfolding worker_votes
worker_votes-Keeps cohort era buyer i = search keeping

worker_loop-Keeps :
    (cohort : CohortContext) (era i : ℕ) (buyers : List String) (rng : ℕ)
    → Keeps (worker_loop cohort era i buyers rng)
unfolding worker_loop
worker_loop-Keeps cohort era i [] rng = no_action-Keeps
worker_loop-Keeps cohort era i (buyer ∷ buyers) rng = then-Keeps _ _ (submit-Keeps _ refl) (
    then-Keeps _ _ (worker_trades-Keeps cohort era buyer _ i 0 _ rng) (
      then-Keeps _ _ (worker_votes-Keeps cohort era buyer i)
        (worker_loop-Keeps cohort era (i + 1) buyers _)))

staker_era-Keeps : (era : ℕ) (accounts : List String) → Keeps (staker_era era accounts)
unfolding staker_era
staker_era-Keeps era accounts = for_each_from-Keeps 0 _ accounts (λ j staker. search keeping)

settle_if_early-Keeps : (era i : ℕ) (account : String) → Keeps (settle_if_early era i account)
settle_if_early-Keeps era i account = elim (Bool-cases (ltb i settlers_per_era)) [
  | inl early ↦ rw early (try_to_settle-Keeps account era)
  | inr late ↦ rw late no_action-Keeps
]

sybil_era-Keeps : (era : ℕ) (accounts : List String) → Keeps (sybil_era era accounts)
unfolding sybil_era
sybil_era-Keeps era accounts = for_each_from-Keeps 0 _ accounts (λ j sub.
    then-Keeps _ _ (submit-Keeps _ refl)
      (then-Keeps _ _ (submit-Keeps _ refl) (settle_if_early-Keeps era j sub)))

wash_era-Keeps :
    (cohort : CohortContext) (era : ℕ) (a b : String) (rng : ℕ)
    → Keeps (wash_era cohort era a b rng)
unfolding wash_era
wash_era-Keeps cohort era a b rng = search (keeping, trade-Keeps) depth 12

colluder_era-Keeps : (cohort : CohortContext) (era : ℕ) → Keeps (colluder_era cohort era)
unfolding colluder_era
colluder_era-Keeps cohort era = for_each_from-Keeps 0 _ cohort.accounts (λ j colluder.
    then-Keeps _ _ (submit-Keeps _ refl) (
      then-Keeps _ _ (submit-Keeps _ refl)
        (then-Keeps _ _ (submit-Keeps _ refl) (settle_if_early-Keeps era j colluder))))

pub record IsHonest (archetype : Archetype) : Type 0 where
  pub setup : (cohort : CohortContext) → Keeps (archetype.setup cohort).1
  pub per_era : (era : ℕ) (cohort : CohortContext) → Keeps (archetype.per_era era cohort)

find_archetype-IsHonest :
    (id : String) (candidates : List Archetype) (archetype : Archetype)
    → All IsHonest candidates
    → find_archetype id candidates ≡ some archetype
    → IsHonest archetype
find_archetype-IsHonest id [] archetype h e = absurd (none_found e)
  where
    none_found : ◌≡◌ {A = Option Archetype} none (some archetype) → ⊥
    none_found e = cc
find_archetype-IsHonest id (a ∷ candidates) archetype (h, hs) e = elim (Bool-cases (a.id == id)) [
  | inl same ↦ subst IsHonest (known_archetype (rw same at e)) h
  | inr other ↦ find_archetype-IsHonest id candidates archetype hs (rw other at e)
]
  where
    known_archetype : {x y : Archetype} → ◌≡◌ {A = Option Archetype} (some x) (some y) → x ≡ y
    known_archetype e = cc

-- Every archetype of the registry keeps a sound ledger, in its setup and in each era.
pub get_archetype-IsHonest :
    (id : String) (archetype : Archetype) → get_archetype id ≡ some archetype → IsHonest archetype
unfolding get_archetype
get_archetype-IsHonest id archetype e =
    find_archetype-IsHonest id archetypes archetype
      (
        record {
          setup = λ cohort. enlist-Keeps _ _;
          per_era = λ era cohort.
              worker_loop-Keeps cohort era 0 cohort.accounts (era_prng cohort.seed era);
        },
        (
          record {
            setup = λ cohort. enlist-Keeps _ _;
            per_era = λ era cohort. staker_era-Keeps era cohort.accounts;
          },
          (
            record {
              setup = λ cohort. enlist-Keeps _ _;
              per_era = λ era cohort. sybil_era-Keeps era cohort.accounts;
            },
            (
              record {
                setup = λ cohort. enlist-Keeps _ _;
                per_era = λ era cohort. wash_era-Keeps cohort era _ _ _;
              },
              (
                record {
                  setup = λ cohort. enlist-Keeps _ _;
                  per_era = λ era cohort. colluder_era-Keeps cohort era;
                },
                tt,
              ),
            ),
          ),
        ),
      )
      e
