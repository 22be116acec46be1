-- ===== src/Experiments/Settlement.antt =====
-- settlement.ts: the settlement of an era by the volunteer with the lowest backoff. An account is ordered by its
-- codes, which is the order of JavaScript's strings up to the surrogate pairs. No era, the -1 of
-- the source, is `none`; a chain's eras begin at 0.
pub mod Order
pub mod Least
pub mod Attempts
mod Tests
use scalar_commons_v.Base.{
  ℕ, ◌+◌, ◌%◌, Bool, true, false, ◌&&◌, ◌||◌, Option, none, some, String, List, [], ◌∷◌, ltb, eqb,
  length, if◌then◌else◌, Dict, insert, string_keys, number_keys, ◌==◌, Text, char_codes,
}
use scalar_commons_v.Base.Results.{Result, ok, err, ◌>>=◌}
use scalar_commons_v.Experiments.Prng.{derive_seed, name, index}
use scalar_commons_v.Experiments.Recording.{RecordingSdk, Forbidden, perform, settle_era}

-- `<` of two strings.
abbrev pub text_lt : Text → Text → Bool
text_lt [] [] = false
text_lt [] (d ∷ t) = true
text_lt (c ∷ s) [] = false
text_lt (c ∷ s) (d ∷ t) = ltb c d || (eqb c d && text_lt s t)

pub record Settlement : Type 0 where
  pub max_backoff : ℕ
  pub seed : ℕ
  pub current : Dict String ℕ
  pub current_era : Option ℕ

pub record SettlementOutcome : Type 0 where
  pub era : ℕ
  pub settler : String
  pub backoff : ℕ
  pub candidates : ℕ

abbrev pub new_settlement : (seed max_backoff : ℕ) → Settlement
new_settlement seed max_backoff = record {
  max_backoff = max_backoff;
  seed = seed;
  current = [];
  current_era = none;
}

unfoldable pub backoff_of : (seed max_backoff : ℕ) → ℕ → String → ℕ
backoff_of seed max_backoff era account =
    derive_seed seed (name "settle" ∷ name account ∷ index era ∷ []) % (max_backoff + 1)

abbrev pub is_era : ℕ → Option ℕ → Bool
is_era era none = false
is_era era (some now) = eqb era now

unfoldable pub attempt : String → ℕ → Settlement → Settlement
attempt account era s =
    let kept = if is_era era s.current_era then s.current else [] in
    record s {
      current = insert account (backoff_of s.seed s.max_backoff era account) kept;
      current_era = some era;
    }

-- Is this volunteer before the best so far? Before the first there is none, of infinite backoff.
abbrev pub is_better : String × ℕ → Option (String × ℕ) → Bool
is_better (account, backoff) none = true
is_better (account, backoff) (some (settler, best)) =
    ltb backoff best || (eqb backoff best && text_lt (char_codes account) (char_codes settler))

abbrev pub winner : Option (String × ℕ) → Dict String ℕ → Option (String × ℕ)
winner best [] = best
winner best (entry ∷ rest) = winner (if is_better entry best then some entry else best) rest

abbrev pub resolve :
    ℕ
    → Settlement
    → RecordingSdk
    → Option (String × ℕ)
    → Result Forbidden (Option SettlementOutcome × (Settlement × RecordingSdk))
resolve era s sdk none = ok (none, (s, sdk))
resolve era s sdk (some (settler, best)) = do
  sdk' ← perform (settle_era settler) sdk
  ok (
    some (record { era = era; settler = settler; backoff = best; candidates = length s.current }),
    (record s { current = []; current_era = none }, sdk'),
  )

unfoldable pub flush :
    ℕ
    → Settlement
    → RecordingSdk
    → Result Forbidden (Option SettlementOutcome × (Settlement × RecordingSdk))
flush era s sdk =
    if is_era era s.current_era && ltb 0 (length s.current)
    then resolve era s sdk (winner none s.current)
    else ok (none, (s, sdk))

-- The attempts of one era, one after another.
abbrev pub attempt_all : ℕ → List String → Settlement → Settlement
attempt_all era [] s = s
attempt_all era (account ∷ accounts) s = attempt_all era accounts (attempt account era s)
