-- ===== src/Indexer/Queries/Asked.antt =====
-- What a list query over events asks for, and the order that it asks for.
use scalar_commons_v.Base.{
  ℕ, ◌<◌, ◌≤◌, ◌≡◌, ◌↔◌, ◌⊎◌, inl, inr, All, any, Option, none, some, String, ltb, eqb_iff,
  Bool-cases, ◌==◌, string_keys, number_keys, pair_keys, refl, ap, ◌∙◌, arith, Bool, true, false,
  List, [], ◌∷◌, keep, length,
}
use scalar_commons_v.Indexer.Store.{EventRow, IndexerStore}
use scalar_commons_v.Indexer.Queries.{
  insert_sorted, sort, place_le, is_number, is_text, is_nullable_text, names_account, Order, asc,
  desc, in_order, event_place, EventQuery, matches_event, events_in_order,
}
use scalar_commons_v.Indexer.Queries.Sorted.{IsSorted, sort-IsSorted, count-sort}

in_order_total : (o : Order) (p q : ℕ × ℕ) → in_order o p q ≡ false → in_order o q p ≡ true
in_order_total asc (a, i) (b, j) h = ground arith
in_order_total desc (a, i) (b, j) h = ground arith

in_order_trans :
    (o : Order) (p q r : ℕ × ℕ)
    → in_order o p q ≡ true
    → in_order o q r ≡ true
    → in_order o p r ≡ true
in_order_trans asc (a, i) (b, j) (c, k) h h' = ground arith
in_order_trans desc (a, i) (b, j) (c, k) h h' = ground arith

-- The event was emitted in an earlier block than the other, or in its block and not after it.
abbrev pub IsEarlier : EventRow → EventRow → Type 0
IsEarlier e e' =
    (e.block_number < e'.block_number) ⊎ ((e.block_number ≡ e'.block_number) × (e.index ≤ e'.index))

abbrev pub IsListedBefore : Order → EventRow → EventRow → Type 0
IsListedBefore asc e e' = IsEarlier e e'
IsListedBefore desc e e' = IsEarlier e' e

-- Every event stands before each later one as the order asks.
abbrev pub IsInChainOrder : Order → List EventRow → Type 0
IsInChainOrder order [] = Unit {0}
IsInChainOrder order (e ∷ events) =
    All (IsListedBefore order e) events × IsInChainOrder order events

IsEarlier-of_place :
    (e e' : EventRow) → place_le (event_place e) (event_place e') ≡ true → IsEarlier e e'
IsEarlier-of_place e e' h = elim (Bool-cases (ltb e.block_number e'.block_number)) [
  | inl lower ↦ inl (ground (arith, lower))
  | inr other ↦ inr (ground (arith, h, other), ground (arith, h, other))
]

IsListedBefore-of_order :
    (order : Order) (e e' : EventRow)
    → in_order order (event_place e) (event_place e') ≡ true
    → IsListedBefore order e e'
IsListedBefore-of_order asc e e' h = IsEarlier-of_place e e' h
IsListedBefore-of_order desc e e' h = IsEarlier-of_place e' e h

All-IsListedBefore :
    (order : Order) (e : EventRow) (events : List EventRow)
    → All (λ e'. in_order order (event_place e) (event_place e') ≡ true) events
    → All (IsListedBefore order e) events
All-IsListedBefore order e [] h = tt
All-IsListedBefore order e (e' ∷ events) (h, hs) =
    (IsListedBefore-of_order order e e' h, All-IsListedBefore order e events hs)

IsSorted-IsInChainOrder :
    (order : Order) (events : List EventRow)
    → IsSorted (λ e e'. in_order order (event_place e) (event_place e')) events
    → IsInChainOrder order events
IsSorted-IsInChainOrder order [] h = tt
IsSorted-IsInChainOrder order (e ∷ events) (h, hs) =
    (All-IsListedBefore order e events h, IsSorted-IsInChainOrder order events hs)

-- An asked column has the asked value; a column that is not asked for may have any.
abbrev pub IsAsked {ℓ} : {A : Type ℓ} → Option A → A → Type ℓ
IsAsked none value = Unit
IsAsked (some asked) value = value ≡ asked

-- The extrinsic column may be NULL, which is no asked value.
abbrev pub IsAskedOption : Option String → Option String → Type 0
IsAskedOption none column = Unit {0}
IsAskedOption (some asked) column = column ≡ some asked

abbrev pub IsNamed : IndexerStore → Option String → EventRow → Type 0
IsNamed s none e = Unit {0}
IsNamed s (some account) e = any (λ row. row == (e.id, account)) s.event_accounts ≡ true

-- The event is what the query asks for.
pub record IsAnswer (s : IndexerStore) (q : EventQuery) (e : EventRow) : Type 0 where
  pub block_number : IsAsked q.block_number e.block_number
  pub extrinsic_id : IsAskedOption q.extrinsic_id e.extrinsic_id
  pub section : IsAsked q.section e.section
  pub method : IsAsked q.method e.method
  pub account : IsNamed s q.account e

number_iff : (o : Option ℕ) (n : ℕ) → (is_number o n ≡ true) ↔ IsAsked o n
number_iff none n = (λ h. tt, λ h. refl)
number_iff (some m) n = eqb_iff n m

text_iff : (o : Option String) (t : String) → (is_text o t ≡ true) ↔ IsAsked o t
text_iff none t = (λ h. tt, λ h. refl)
text_iff (some m) t = string_keys.same_iff t m

nullable_iff : (o t : Option String) → (is_nullable_text o t ≡ true) ↔ IsAskedOption o t
nullable_iff none t = (λ h. tt, λ h. refl)
nullable_iff (some m) none = (λ h. absurd (ground (arith, h)), λ h. cc)
nullable_iff (some m) (some t) =
    (λ h. ap some ((string_keys.same_iff t m).0 h), λ h. (string_keys.same_iff t m).1 (some_inj h))
  where
    some_inj : {a b : String} → ◌≡◌ {A = Option String} (some a) (some b) → a ≡ b
    some_inj h = cc

IsNamed-iff :
    (s : IndexerStore) (o : Option String) (e : EventRow)
    → (names_account s o e ≡ true) ↔ IsNamed s o e
IsNamed-iff s none e = (λ h. tt, λ h. refl)
IsNamed-iff s (some account) e = (λ h. h, λ h. h)

matches_iff :
    (s : IndexerStore) (q : EventQuery) (e : EventRow)
    → (matches_event s q e ≡ true) ↔ IsAnswer s q e
matches_iff s q e = (forward, back)
  where
    forward : matches_event s q e ≡ true → IsAnswer s q e
    forward h = record {
      block_number = (number_iff q.block_number e.block_number).0 (ground (arith, h));
      extrinsic_id = (nullable_iff q.extrinsic_id e.extrinsic_id).0 (ground (arith, h));
      section = (text_iff q.section e.section).0 (ground (arith, h));
      method = (text_iff q.method e.method).0 (ground (arith, h));
      account = (IsNamed-iff s q.account e).0 (ground (arith, h));
    }

    back : IsAnswer s q e → matches_event s q e ≡ true
    back h =
        rw
          (
            (number_iff q.block_number e.block_number).1 h.block_number,
            (nullable_iff q.extrinsic_id e.extrinsic_id).1 h.extrinsic_id,
            (text_iff q.section e.section).1 h.section,
            (text_iff q.method e.method).1 h.method,
            (IsNamed-iff s q.account e).1 h.account,
          )
          refl

count-keep :
    (p m : EventRow → Bool) (events : List EventRow)
    → ((e : EventRow) → p e ≡ true → m e ≡ true)
    → length (keep p (keep m events)) ≡ length (keep p events)
count-keep p m [] h = refl
count-keep p m (e ∷ events) h = ground (arith, h e, count-keep p m events h)

keep-IsAnswer :
    (s : IndexerStore) (q : EventQuery) (events : List EventRow)
    → All (IsAnswer s q) (keep (matches_event s q) events)
keep-IsAnswer s q [] = tt
keep-IsAnswer s q (e ∷ events) = elim (Bool-cases (matches_event s q e)) [
  | inl asked ↦ rw asked ((matches_iff s q e).0 asked, keep-IsAnswer s q events)
  | inr other ↦ rw other (keep-IsAnswer s q events)
]

module _ (P : EventRow → Type 0) (before : EventRow → EventRow → Bool) where
  insert_sorted-All :
      (e : EventRow) (events : List EventRow)
      → P e
      → All P events
      → All P (insert_sorted before e events)
  insert_sorted-All e [] h hs = (h, tt)
  insert_sorted-All e (e' ∷ events) h (h', hs) = elim (Bool-cases (before e e')) [
    | inl first ↦ rw first (h, (h', hs))
    | inr later ↦ rw later (h', insert_sorted-All e events h hs)
  ]

  sort-All : (events : List EventRow) → All P events → All P (sort before events)
  sort-All [] h = tt
  sort-All (e ∷ events) (h, hs) = insert_sorted-All e (sort before events) h (sort-All events hs)

-- The rows of a query, before they are cut into pages.
pub record Lists (s : IndexerStore) (q : EventQuery) (p : EventRow → Bool) (events : List EventRow)
    : Type 0 where
  pub in_chain_order : IsInChainOrder q.order events
  pub asked : All (IsAnswer s q) events
  pub whole : length (keep p events) ≡ length (keep p s.events)

pub events_in_order-Lists :
    (s : IndexerStore) (q : EventQuery) (p : EventRow → Bool)
    → ((e : EventRow) → p e ≡ true → IsAnswer s q e)
    → Lists s q p (events_in_order s q)
events_in_order-Lists s q p asked =
    let before =
      λ (x : EventRow) (y : EventRow). in_order q.order (event_place x) (event_place y) in
    let rows = keep (matches_event s q) s.events in
    record {
      in_chain_order = IsSorted-IsInChainOrder q.order (sort before rows) (
          sort-IsSorted before (λ x y. in_order_total q.order (event_place x) (event_place y))
            (λ x y z. in_order_trans q.order (event_place x) (event_place y) (event_place z)) rows);
      asked = sort-All (IsAnswer s q) before rows (keep-IsAnswer s q s.events);
      whole =
          count-sort before p rows
          ∙ count-keep p (matches_event s q) s.events (λ e h. (matches_iff s q e).1 (asked e h));
    }
