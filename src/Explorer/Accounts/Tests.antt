-- ===== src/Explorer/Accounts/Tests.antt =====
-- The accounts of a transfer inside a batch.
use scalar_commons_v.Base.{
  ◌≡◌, refl, ℕ, ◌≤◌, arith, String, List, [], ◌∷◌, decimal_from, digit_string, decimal,
}
use scalar_commons_v.Explorer.Accounts.{
  Value, leaf, account_id, array, just, enum_of, no_values, one_value, is_listed, walk_value,
  collect_from, collect_accounts,
}
use scalar_commons_v.Explorer.Accounts.Named.{height, IsDistinct, all_named, collect_accounts-named}

-- An account id of one byte, shown as the byte.
abbrev shown : List ℕ → String
shown [] = ""
shown (n ∷ id) = digit_string (decimal n) ""

abbrev batch : List Value
batch =
    account_id (7 ∷ [])
    ∷ array (
        one_value (enum_of (account_id (8 ∷ [])))
          (one_value (just (account_id (7 ∷ []))) (one_value leaf no_values)))
    ∷ []

batch_accounts : collect_accounts shown batch ≡ "7" ∷ "8" ∷ []
unfolding collect_from walk_value decimal_from
batch_accounts = refl

batch_is_shallow :
    (height (account_id (7 ∷ [])) ≤ 16)
    × (height (
          array (
            one_value
              (enum_of (account_id (8 ∷ [])))
              (one_value (just (account_id (7 ∷ []))) (one_value leaf no_values))))
        ≤ 16)
unfolding height
batch_is_shallow = (omega arith, omega arith)

collect_accounts-named_example :
    IsDistinct (collect_accounts shown batch)
    × ((a : String)
        → is_listed a (collect_accounts shown batch) ≡ is_listed a (all_named shown batch))
collect_accounts-named_example =
    collect_accounts-named shown batch (batch_is_shallow.0, (batch_is_shallow.1, tt))
