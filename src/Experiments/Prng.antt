-- ===== src/Experiments/Prng.antt =====
-- prng.ts and identity.ts: the SplitMix64 generator and the seeds that are derived from labels. A generator
-- is its state, a number below 2^64; `nextFloat` and `nextHex` have no counterpart. The characters of a label
-- are taken by their codes, which `charCodeAt` gives for every character below 2^16.
use Prim.Native.Char.{code}
use Prim.Native.Nat.{bit_xor}
use Prim.Native.String.{◌++◌ as text_append}
use scalar_commons_v.Base.{ℕ, ◌+◌, ◌*◌, ◌/◌, ◌%◌, ◌^◌, String, List, [], ◌∷◌, decimal, digit_string}

-- `BigInt.asUintN(64, x)`.
abbrev pub as_uint_64 : ℕ → ℕ
as_uint_64 x = x % 2 ^ 64

abbrev pub golden_gamma : ℕ
golden_gamma = 0x9e3779b97f4a7c15

abbrev pub mix_a : ℕ
mix_a = 0xbf58476d1ce4e5b9

abbrev pub mix_b : ℕ
mix_b = 0x94d049bb133111eb

abbrev pub fnv_offset : ℕ
fnv_offset = 0xcbf29ce484222325

abbrev pub fnv_prime : ℕ
fnv_prime = 0x100000001b3

abbrev pub advance : ℕ → ℕ
advance state = as_uint_64 (state + golden_gamma)

abbrev pub mixed : ℕ → ℕ
mixed state =
    let a = as_uint_64 (bit_xor state (state / 2 ^ 30) * mix_a) in
    let b = as_uint_64 (bit_xor a (a / 2 ^ 27) * mix_b) in as_uint_64 (bit_xor b (b / 2 ^ 31))

-- `next`: the new state and the value drawn.
unfoldable pub next_u64 : ℕ → ℕ × ℕ
next_u64 state = (advance state, mixed (advance state))

-- `nextInt`, for a bound above 0, and `nextBackoff`.
unfoldable pub next_int : ℕ → ℕ → ℕ × ℕ
next_int state n = let (state', value) = next_u64 state in (state', value % n)

unfoldable pub next_backoff : ℕ → ℕ → ℕ × ℕ
next_backoff state max_inclusive = next_int state (max_inclusive + 1)

pub data Label : Type 0 where
  name : String → Label
  index : ℕ → Label

abbrev pub label_text : Label → String
label_text (name s) = s
label_text (index n) = digit_string (decimal n) ""

abbrev pub fold_text : ℕ → String → ℕ
fold_text h String.[] = h
fold_text h (String.◌∷◌ c s) = fold_text (as_uint_64 (bit_xor h (code c) * fnv_prime)) s

abbrev pub fold_labels : ℕ → List Label → ℕ
fold_labels h [] = h
fold_labels h (label ∷ labels) =
    fold_labels (as_uint_64 (fold_text h (label_text label) + golden_gamma)) labels

unfoldable pub derive_seed : ℕ → List Label → ℕ
derive_seed base labels = (next_u64 (fold_labels (as_uint_64 (bit_xor base fnv_offset)) labels)).1

-- `<archetype>:c<cohort>:<role><index>`.
unfoldable pub member_id : String → ℕ → String → ℕ → String
member_id arch_id cohort_index role i = text_append arch_id (
    text_append ":c" (
      digit_string (decimal cohort_index)
        (text_append ":" (text_append role (digit_string (decimal i) "")))))
