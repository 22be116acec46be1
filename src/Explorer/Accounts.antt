-- ===== src/Explorer/Accounts.antt =====
-- explorer/src/accounts.ts: the accounts that decoded values name. A value is a tree of the shapes that `walk` tells
-- apart; a shape that it passes over is a leaf. The address of an account id is a parameter, as the
-- library's `encodeAddress` for the chain's format.
pub mod Named
mod Tests
use scalar_commons_v.Base.{
  ℕ, ◌+◌, Bool, String, List, [], ◌∷◌, ◌++◌, ltb, any, if◌then◌else◌, ◌==◌, string_keys,
}

mutual
  pub data Value : Type 0 where
    leaf : Value
    account_id : List ℕ → Value
    array set_of : Values → Value
    map_of : Entries → Value
    nothing : Value
    just enum_of : Value → Value

  pub data Values : Type 0 where
    no_values : Values
    one_value : Value → Values → Values

  pub data Entries : Type 0 where
    no_entries : Entries
    one_entry : (key value : Value) → Entries → Entries

abbrev pub max_depth : ℕ
max_depth = 16

abbrev pub is_listed : String → List String → Bool
is_listed address found = any (λ a. a == address) found

-- `sink`: the set `seen` has the members of the list `found`.
abbrev pub sink : List String → String → List String
sink found address = if is_listed address found then found else found ++ (address ∷ [])

abbrev pub unless_deep : ℕ → List String → List String → List String
unless_deep depth found walked = if ltb max_depth depth then found else walked

module _ (encode_address : List ℕ → String) where
  unfoldable mutual
    pub walk_value : Value → (depth : ℕ) → List String → List String
    walk_value leaf depth found = found
    walk_value nothing depth found = found
    walk_value (account_id id) depth found =
        unless_deep depth found (sink found (encode_address id))
    walk_value (array values) depth found =
        unless_deep depth found (walk_values values (depth + 1) found)
    walk_value (set_of values) depth found =
        unless_deep depth found (walk_values values (depth + 1) found)
    walk_value (map_of entries) depth found =
        unless_deep depth found (walk_entries entries (depth + 1) found)
    walk_value (just value) depth found =
        unless_deep depth found (walk_value value (depth + 1) found)
    walk_value (enum_of value) depth found =
        unless_deep depth found (walk_value value (depth + 1) found)

    pub walk_values : Values → (depth : ℕ) → List String → List String
    walk_values no_values depth found = found
    walk_values (one_value value values) depth found =
        walk_values values depth (walk_value value depth found)

    pub walk_entries : Entries → (depth : ℕ) → List String → List String
    walk_entries no_entries depth found = found
    walk_entries (one_entry key value entries) depth found =
        walk_entries entries depth (walk_value value depth (walk_value key depth found))

  unfoldable pub collect_from : List Value → List String → List String
  collect_from [] found = found
  collect_from (value ∷ values) found = collect_from values (walk_value value 0 found)

  abbrev pub collect_accounts : List Value → List String
  collect_accounts values = collect_from values []
