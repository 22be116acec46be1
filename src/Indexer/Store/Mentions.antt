-- ===== src/Indexer/Store/Mentions.antt =====
-- The rows of `event_accounts`: which accounts the index names for an event, through each statement of `saveBlock`.
use scalar_commons_v.Base.{
  ℕ, ◌≡◌, refl, sym, ap, ◌∙◌, Bool, true, false, not, ◌&&◌, ◌||◌, String, List, [], ◌∷◌, ◌++◌, eqb,
  if◌then◌else◌, Bool-cases, inl, inr, keep, any, ◌==◌, number_keys, string_keys, pair_keys,
}
use scalar_commons_v.Base.Results.{ok, require-eq-ok, ok_inj}
use scalar_commons_v.Indexer.Store.{
  ExtrinsicRow, EventRow, IndexerStore, extrinsic_id, event_id, in_block, insert_extrinsics,
  insert_or_ignore, insert_event_accounts, insert_events, touch_signer,
}

-- A row says that the event names the account.
abbrev pub is_named : (id account : String) → List (String × String) → Bool
is_named id account rows = any (λ row. row == (id, account)) rows

-- An event of the block that is saved names the account.
abbrev pub names : (id account : String) → List (EventRow × List String) → Bool
names id account es = any (λ e. e.0.id == id && any (λ named. named == account) e.1) es

-- An event that the index held for the block has this id.
abbrev pub is_stale : (number : ℕ) (id : String) → List EventRow → Bool
is_stale number id events = any (λ e. eqb e.block_number number && e.id == id) events

or_assoc : (a b c : Bool) → ((a || b) || c) ≡ (a || (b || c))
or_assoc true b c = refl
or_assoc false b c = refl

and_or : (a b c : Bool) → ((a && b) || (a && c)) ≡ (a && (b || c))
and_or true b c = refl
and_or false b c = refl

or_false : (a : Bool) → (a || false) ≡ a
or_false true = refl
or_false false = refl

and_false : (a : Bool) → (a && false) ≡ false
and_false true = refl
and_false false = refl

-- A row that is dropped when `gone` holds, before rows of which `named` names the account.
kept_or :
    (gone named : Bool)
    → ((not gone && true) || (named && not gone)) ≡ ((true || named) && not gone)
kept_or true true = refl
kept_or true false = refl
kept_or false named = refl

any_if :
    {A : Type 0} (p : A → Bool) (b : Bool) (x : A) (xs : List A)
    → any p (if b then x ∷ xs else xs) ≡ ((b && p x) || any p xs)
any_if p true x xs = refl
any_if p false x xs = refl

any-append :
    {A : Type 0} (p : A → Bool) (xs ys : List A) → any p (xs ++ ys) ≡ (any p xs || any p ys)
any-append p [] ys = refl
any-append p (x ∷ xs) ys =
    ap (λ z. p x || z) (any-append p xs ys) ∙ sym (or_assoc (p x) (any p xs) (any p ys))

is_named-insert_or_ignore :
    (id account : String) (pair : String × String) (rows : List (String × String))
    → is_named id account (insert_or_ignore pair rows)
      ≡ (is_named id account rows || (pair == (id, account)))
is_named-insert_or_ignore id account pair rows = elim (Bool-cases (any (λ row. row == pair) rows)) [
  | inr fresh ↦ rw fresh (
      any-append (λ row. row == (id, account)) rows (pair ∷ [])
      ∙ ap (λ z. is_named id account rows || z) (or_false (pair == (id, account))))
  | inl known ↦ rw known (elim (Bool-cases (pair == (id, account))) [
    | inr other ↦ rw other (sym (or_false (is_named id account rows)))
    | inl same ↦
        let here : pair ≡ (id, account) = (pair_keys.same_iff pair (id, account)).0 same in
        let held : is_named id account rows ≡ true =
          sym (ap (λ z. any (λ row. row == z) rows) here) ∙ known in
        rw held refl
  ])
]

is_named-insert_event_accounts :
    (id account : String) (e : EventRow) (accounts : List String) (s : IndexerStore)
    → is_named id account (insert_event_accounts e accounts s).event_accounts ≡ (
        is_named id account s.event_accounts
        || (e.id == id && any (λ named. named == account) accounts))
unfolding insert_event_accounts
is_named-insert_event_accounts id account e [] s =
    sym (or_false (is_named id account s.event_accounts))
    ∙ ap (λ z. is_named id account s.event_accounts || z) (sym (and_false (e.id == id)))
is_named-insert_event_accounts id account e (address ∷ rest) s =
    is_named-insert_event_accounts id account e rest _
    ∙ ap (λ z. z || (e.id == id && any (λ named. named == account) rest))
        (is_named-insert_or_ignore id account (e.id, address) s.event_accounts)
    ∙ or_assoc (is_named id account s.event_accounts) (e.id == id && address == account)
        (e.id == id && any (λ named. named == account) rest)
    ∙ ap (λ z. is_named id account s.event_accounts || z)
        (and_or (e.id == id) (address == account) (any (λ named. named == account) rest))

pub is_named-insert_extrinsics :
    (id account : String) (xs : List ExtrinsicRow) (s t : IndexerStore)
    → insert_extrinsics xs s ≡ ok t
    → is_named id account t.event_accounts ≡ is_named id account s.event_accounts
unfolding insert_extrinsics
is_named-insert_extrinsics id account [] s t h =
    ap (λ z. is_named id account z.event_accounts) (sym (ok_inj h))
is_named-insert_extrinsics id account (x ∷ xs) s t h =
    let (fresh, h1) =
      require-eq-ok (not (any (λ (row : ExtrinsicRow). row.id == x.id) s.extrinsics)) extrinsic_id _
        h in
    is_named-insert_extrinsics id account xs
      (record s { extrinsics = s.extrinsics ++ (x ∷ []); accounts = touch_signer x s.accounts }) t
      h1

pub is_named-insert_events :
    (id account : String) (es : List (EventRow × List String)) (s t : IndexerStore)
    → insert_events es s ≡ ok t
    → is_named id account t.event_accounts
      ≡ (is_named id account s.event_accounts || names id account es)
unfolding insert_events
is_named-insert_events id account [] s t h =
    ap (λ z. is_named id account z.event_accounts) (sym (ok_inj h))
    ∙ sym (or_false (is_named id account s.event_accounts))
is_named-insert_events id account ((e, accounts) ∷ rest) s t h =
    let added : IndexerStore = record s { events = s.events ++ (e ∷ []) } in
    let (fresh, h1) =
      require-eq-ok (not (any (λ (row : EventRow). row.id == e.id) s.events)) event_id _ h in
    is_named-insert_events id account rest (insert_event_accounts e accounts added) t h1
    ∙ ap (λ z. z || names id account rest)
        (is_named-insert_event_accounts id account e accounts added)
    ∙ or_assoc (is_named id account s.event_accounts)
        (e.id == id && any (λ named. named == account) accounts) (names id account rest)

pub any-keep :
    (id : String) (number : ℕ) (events : List EventRow)
    → any (λ (e : EventRow). e.id == id) (keep (in_block number) events) ≡ is_stale number id events
any-keep id number [] = refl
any-keep id number (e ∷ events) =
    any_if (λ (e : EventRow). e.id == id) (in_block number e) e (keep (in_block number) events)
    ∙ ap (λ z. (in_block number e && e.id == id) || z) (any-keep id number events)

pub is_named-clear :
    (id account : String) (gone : List EventRow) (rows : List (String × String))
    → is_named id account (keep (λ row. not (any (λ (e : EventRow). e.id == row.0) gone)) rows)
      ≡ (is_named id account rows && not (any (λ (e : EventRow). e.id == id) gone))
is_named-clear id account gone [] = refl
is_named-clear id account gone (row ∷ rows) =
    let stale : String → Bool = λ i. any (λ (e : EventRow). e.id == i) gone in
    any_if (λ r. r == (id, account)) (not (stale row.0)) row (keep (λ r. not (stale r.0)) rows)
    ∙ ap (λ z. (not (stale row.0) && row == (id, account)) || z)
        (is_named-clear id account gone rows)
    ∙ elim (Bool-cases (row == (id, account))) [
      | inr other ↦ rw (other, and_false (not (stale row.0))) refl
      | inl same ↦
          let here : row ≡ (id, account) = (pair_keys.same_iff row (id, account)).0 same in
          let first : stale row.0 ≡ stale id = ap (λ r. stale r.0) here in
          rw (same, first) (kept_or (stale id) (is_named id account rows))
    ]
