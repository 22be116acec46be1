-- ===== src/Explorer/Accounts/Named.antt =====
-- Which accounts are collected.
use mathlib.Core.Path.{subst}
use scalar_commons_v.Base.{
  ℕ, suc, ◌+◌, ◌≤◌, ◌≡◌, refl, sym, ap, ◌∙◌, arith, Bool, true, false, ◌||◌, String, List, [], ◌∷◌,
  ◌++◌, max, All, ◌==◌, string_keys, Bool-cases, inl, inr, le→not_ltb,
}
use scalar_commons_v.Explorer.Accounts.{
  Value, Values, Entries, leaf, account_id, array, set_of, map_of, nothing, just, enum_of,
  no_values, one_value, no_entries, one_entry, max_depth, is_listed, sink, unless_deep, walk_value,
  walk_values, walk_entries, collect_from, collect_accounts,
}

unfoldable mutual
  -- Every account in a value, in order, as often as it is named.
  pub named : (List ℕ → String) → Value → List String
  named encode leaf = []
  named encode nothing = []
  named encode (account_id id) = encode id ∷ []
  named encode (array values) = named_values encode values
  named encode (set_of values) = named_values encode values
  named encode (map_of entries) = named_entries encode entries
  named encode (just value) = named encode value
  named encode (enum_of value) = named encode value

  pub named_values : (List ℕ → String) → Values → List String
  named_values encode no_values = []
  named_values encode (one_value value values) = named encode value ++ named_values encode values

  pub named_entries : (List ℕ → String) → Entries → List String
  named_entries encode no_entries = []
  named_entries encode (one_entry key value entries) =
      named encode key ++ (named encode value ++ named_entries encode entries)

unfoldable mutual
  -- How deep a value nests.
  pub height : Value → ℕ
  height leaf = 0
  height nothing = 0
  height (account_id id) = 0
  height (array values) = suc (height_values values)
  height (set_of values) = suc (height_values values)
  height (map_of entries) = suc (height_entries entries)
  height (just value) = suc (height value)
  height (enum_of value) = suc (height value)

  pub height_values : Values → ℕ
  height_values no_values = 0
  height_values (one_value value values) = max (height value) (height_values values)

  pub height_entries : Entries → ℕ
  height_entries no_entries = 0
  height_entries (one_entry key value entries) =
      max (height key) (max (height value) (height_entries entries))

abbrev pub sink_all : List String → List String → List String
sink_all found [] = found
sink_all found (a ∷ addresses) = sink_all (sink found a) addresses

sink_all-append :
    (found xs ys : List String) → sink_all found (xs ++ ys) ≡ sink_all (sink_all found xs) ys
sink_all-append found [] ys = refl
sink_all-append found (x ∷ xs) ys = sink_all-append (sink found x) xs ys

shallow :
    (depth : ℕ) (found walked : List String)
    → depth ≤ max_depth
    → unless_deep depth found walked ≡ walked
shallow depth found walked h = rw (le→not_ltb max_depth depth h) refl

-- Within the depth, the walk reaches every account.
mutual
  unfolding walk_value named height

  walk_value-eq-sink_all :
      (encode : List ℕ → String) (value : Value) (depth : ℕ) (found : List String)
      → depth + height value ≤ max_depth
      → walk_value encode value depth found ≡ sink_all found (named encode value)
  walk_value-eq-sink_all encode leaf depth found h = refl
  walk_value-eq-sink_all encode nothing depth found h = refl
  walk_value-eq-sink_all encode (account_id id) depth found h =
      shallow depth found _ (omega (arith, h))
  walk_value-eq-sink_all encode (array values) depth found h =
      shallow depth found _ (omega (arith, h))
      ∙ walk_values-eq-sink_all encode values (depth + 1) found (omega (arith, h))
  walk_value-eq-sink_all encode (set_of values) depth found h =
      shallow depth found _ (omega (arith, h))
      ∙ walk_values-eq-sink_all encode values (depth + 1) found (omega (arith, h))
  walk_value-eq-sink_all encode (map_of entries) depth found h =
      shallow depth found _ (omega (arith, h))
      ∙ walk_entries-eq-sink_all encode entries (depth + 1) found (omega (arith, h))
  walk_value-eq-sink_all encode (just value) depth found h =
      shallow depth found _ (omega (arith, h))
      ∙ walk_value-eq-sink_all encode value (depth + 1) found (omega (arith, h))
  walk_value-eq-sink_all encode (enum_of value) depth found h =
      shallow depth found _ (omega (arith, h))
      ∙ walk_value-eq-sink_all encode value (depth + 1) found (omega (arith, h))

  walk_values-eq-sink_all :
      (encode : List ℕ → String) (values : Values) (depth : ℕ) (found : List String)
      → depth + height_values values ≤ max_depth
      → walk_values encode values depth found ≡ sink_all found (named_values encode values)
  walk_values-eq-sink_all encode no_values depth found h = refl
  walk_values-eq-sink_all encode (one_value value values) depth found h =
      ap (walk_values encode values depth)
        (walk_value-eq-sink_all encode value depth found (omega (arith, h)))
      ∙ walk_values-eq-sink_all encode values depth _ (omega (arith, h))
      ∙ sym (sink_all-append found (named encode value) (named_values encode values))

  walk_entries-eq-sink_all :
      (encode : List ℕ → String) (entries : Entries) (depth : ℕ) (found : List String)
      → depth + height_entries entries ≤ max_depth
      → walk_entries encode entries depth found ≡ sink_all found (named_entries encode entries)
  walk_entries-eq-sink_all encode no_entries depth found h = refl
  walk_entries-eq-sink_all encode (one_entry key value entries) depth found h =
      ap (λ z. walk_entries encode entries depth (walk_value encode value depth z))
        (walk_value-eq-sink_all encode key depth found (omega (arith, h)))
      ∙ ap (walk_entries encode entries depth)
          (walk_value-eq-sink_all encode value depth _ (omega (arith, h)))
      ∙ walk_entries-eq-sink_all encode entries depth _ (omega (arith, h))
      ∙ sym (sink_all-append _ (named encode value) (named_entries encode entries))
      ∙ sym (
          sink_all-append found (named encode key)
            (named encode value ++ named_entries encode entries))

abbrev pub all_named : (List ℕ → String) → List Value → List String
all_named encode [] = []
all_named encode (value ∷ values) = named encode value ++ all_named encode values

collect_from-eq-sink_all :
    (encode : List ℕ → String) (values : List Value) (found : List String)
    → All (λ value. height value ≤ max_depth) values
    → collect_from encode values found ≡ sink_all found (all_named encode values)
unfolding collect_from
collect_from-eq-sink_all encode [] found h = refl
collect_from-eq-sink_all encode (value ∷ values) found (h, hs) =
    ap (collect_from encode values) (walk_value-eq-sink_all encode value 0 found (omega (arith, h)))
    ∙ collect_from-eq-sink_all encode values _ hs
    ∙ sym (sink_all-append found (named encode value) (all_named encode values))

abbrev pub IsDistinct : List String → Type 0
IsDistinct [] = Unit {0}
IsDistinct (a ∷ addresses) = (is_listed a addresses ≡ false) × IsDistinct addresses

is_listed-append :
    (a : String) (xs ys : List String) → is_listed a (xs ++ ys) ≡ (is_listed a xs || is_listed a ys)
is_listed-append a [] ys = refl
is_listed-append a (x ∷ xs) ys = ground (arith, is_listed-append a xs ys)

IsDistinct-append :
    (xs : List String) (a : String)
    → IsDistinct xs
    → is_listed a xs ≡ false
    → IsDistinct (xs ++ (a ∷ []))
IsDistinct-append [] a h fresh = (refl, tt)
IsDistinct-append (x ∷ xs) a (h, hs) fresh = (
  is_listed-append x xs (a ∷ [])
      ∙ ground (arith, h, fresh, string_keys.same_iff x a, string_keys.same_iff a x),
  IsDistinct-append xs a hs (ground (arith, fresh)),
)

or_same : (x y : Bool) → (y ≡ true → x ≡ true) → x ≡ (x || y)
or_same true y h = refl
or_same false true h = h refl
or_same false false h = refl

sink_lem :
    (found : List String) (address : String)
    → IsDistinct found
    → IsDistinct (sink found address)
      × ((a : String) → is_listed a (sink found address) ≡ (is_listed a found || address == a))
sink_lem found address h = elim (Bool-cases (is_listed address found)) [
  | inl known ↦ rw known (
    h,
    λ a. or_same (is_listed a found) (address == a) (λ same.
        ap (λ z. is_listed z found) (sym ((string_keys.same_iff address a).0 same)) ∙ known),
  )
  | inr fresh ↦ rw fresh (
    IsDistinct-append found address h fresh,
    λ a. is_listed-append a found (address ∷ []) ∙ ap (◌||◌ (is_listed a found)) (ground arith),
  )
]

sink_all_lem :
    (found xs : List String)
    → IsDistinct found
    → IsDistinct (sink_all found xs)
      × ((a : String) → is_listed a (sink_all found xs) ≡ (is_listed a found || is_listed a xs))
sink_all_lem found [] h =
    (h, λ a. or_same (is_listed a found) false (λ no. absurd (ground (arith, no))))
sink_all_lem found (x ∷ xs) h =
    let (distinct, listed) = sink_lem found x h in
    let (rest, members) = sink_all_lem (sink found x) xs distinct in
    (rest, λ a. members a ∙ ap (λ z. z || is_listed a xs) (listed a) ∙ ground arith)

-- From values that nest no deeper than 16, the accounts collected are exactly those that some value names, and
-- each is there once.
pub collect_accounts-named :
    (encode : List ℕ → String) (values : List Value)
    → All (λ value. height value ≤ max_depth) values
    → IsDistinct (collect_accounts encode values)
      × ((a : String)
          → is_listed a (collect_accounts encode values) ≡ is_listed a (all_named encode values))
collect_accounts-named encode values h =
    let (distinct, members) = sink_all_lem [] (all_named encode values) tt in
    let e = collect_from-eq-sink_all encode values [] h in
    (subst IsDistinct (sym e) distinct, λ a. ap (is_listed a) e ∙ members a)
