-- ===== src/Experiments/Action.antt =====
-- What the archetypes act on: the recording SDK and the settlement of the run, with a throw as an error. It also
-- has what all of them draw from identity.ts, constants.ts and types.ts.
use Prim.Native.Char.{Char}
use scalar_commons_v.Base.{
  ℕ, zero, suc, ◌+◌, ◌*◌, ◌/◌, ◌%◌, ltb, eqb, if◌then◌else◌, Option, none, some, String, List, [],
  ◌∷◌, Dict, lookup, string_keys, digit_char,
}
use scalar_commons_v.Base.Results.{Result, ok, err, ◌>>=◌}
use scalar_commons_v.Experiments.Prng.{Label, name, index, next_u64, derive_seed}
use scalar_commons_v.Experiments.Recording.{
  RecordingSdk, Forbidden, SdkCall, create_escrow, or_first, perform,
}
use scalar_commons_v.Experiments.Settlement.{Settlement, attempt}

pub record RunState : Type 0 where
  pub sdk : RecordingSdk
  pub settlement : Settlement

-- What ends a run: the guard of the SDK, or `getArchetype`.
pub data Halt : Type 0 where
  forbidden : Forbidden → Halt
  unknown_archetype : String → Halt

abbrev pub RunAction : Type 0
RunAction = RunState → Result Halt RunState

abbrev pub with_sdk : RunState → Result Forbidden RecordingSdk → Result Halt RunState
with_sdk s (ok sdk) = ok (record s { sdk = sdk })
with_sdk s (err e) = err (forbidden e)

abbrev pub no_action : RunAction
no_action s = ok s

infixr 40 ◌then◌
unfoldable pub ◌then◌ : RunAction → RunAction → RunAction
(first then second) s = first s >>= second

unfoldable pub submit : SdkCall → RunAction
submit c s = with_sdk s (perform c s.sdk)

unfoldable pub try_to_settle : String → ℕ → RunAction
try_to_settle account era s = ok (record s { settlement = attempt account era s.settlement })

-- `createEscrow` and what is done with the sequence number that it returns.
unfoldable pub create_then :
    (account provider : String) (price : ℕ) (deliverable : String) (deliver_by : ℕ)
    → (ℕ → RunAction)
    → RunAction
create_then account provider price deliverable deliver_by use_seq s =
    (submit (create_escrow account provider price deliverable deliver_by none)
        then use_seq (or_first (lookup account s.sdk.next_seq)))
      s

-- A loop over a list, with the place of each element.
unfoldable pub for_each_from : {A : Type 0} → ℕ → (ℕ → A → RunAction) → List A → RunAction
for_each_from i body [] = no_action
for_each_from i body (x ∷ xs) = body i x then for_each_from (i + 1) body xs

abbrev pub for_each : {A : Type 0} → (A → RunAction) → List A → RunAction
for_each body = for_each_from 0 (λ i x. body x)

pub record CohortContext : Type 0 where
  pub seed : ℕ
  pub cohort_index : ℕ
  pub count : ℕ
  pub params : Dict String ℕ
  pub accounts : List String

-- `setup` gives the accounts with what it does; `perEra` is for one era.
pub record Archetype : Type 0 where
  pub id : String
  pub setup : CohortContext → List String × RunAction
  pub per_era : ℕ → CohortContext → RunAction

abbrev pub or_default : ℕ → Option ℕ → ℕ
or_default n none = n
or_default n (some m) = m

abbrev pub param : CohortContext → String → ℕ → ℕ
param cohort key default = or_default default (lookup key cohort.params)

abbrev pub cmn_plancks : ℕ
cmn_plancks = 1000000000000

abbrev pub cmn : ℕ → ℕ
cmn n = n * cmn_plancks

abbrev pub min_qualifying_vol : ℕ
min_qualifying_vol = cmn 50

abbrev pub max_stake : ℕ
max_stake = cmn 1000000

abbrev pub sybil_min_stake : ℕ
sybil_min_stake = cmn 1

abbrev pub nominal_blocks_per_era : ℕ
nominal_blocks_per_era = 100

abbrev pub hex_char : ℕ → Char
hex_char d =
    if ltb d 10
    then digit_char d
    else if eqb d 10
    then "a"
    else if eqb d 11
    then "b"
    else if eqb d 12
    then "c"
    else if eqb d 13
    then "d"
    else if eqb d 14
    then "e"
    else "f"

abbrev pub byte_hex : ℕ → String → String
byte_hex b s = String.◌∷◌ (hex_char (b / 16)) (String.◌∷◌ (hex_char (b % 16)) s)

-- The bytes that are left, from a value with `have` bytes in it.
abbrev pub hex_bytes : (left have acc state : ℕ) → String
hex_bytes zero have acc state = String.[]
hex_bytes (suc left) zero acc state =
    let (state', value) = next_u64 state in
    byte_hex (value % 256) (hex_bytes left 7 (value / 256) state')
hex_bytes (suc left) (suc have) acc state =
    byte_hex (acc % 256) (hex_bytes left have (acc / 256) state)

-- `nextHex` of a fresh generator.
abbrev pub next_hex : (bytes state : ℕ) → String
next_hex bytes state = String.◌∷◌ "0" (String.◌∷◌ "x" (hex_bytes bytes 0 0 state))

unfoldable pub hash32 : ℕ → List Label → String
hash32 cohort_seed labels = next_hex 32 (derive_seed cohort_seed (name "hash" ∷ labels))

unfoldable pub era_prng : ℕ → ℕ → ℕ
era_prng cohort_seed era = derive_seed cohort_seed (name "era" ∷ index era ∷ [])
