-- ===== src/Indexer/Activity/Feed.antt =====
-- The feed holds exactly the events that are classified under the kind that was asked for.
use scalar_commons_v.Base.{
  ℕ, zero, suc, take, drop, ◌≡◌, refl, sym, ap, ◌∙◌, arith, Bool, true, false, not, ◌&&◌, ◌||◌,
  Option, none, some, String, List, [], ◌∷◌, map, keep, any, All, ◌==◌, string_keys, Bool-cases,
  inl, inr, lookup, number_keys,
}
use scalar_commons_v.Indexer.Store.{EventRow, IndexerStore}
use scalar_commons_v.Indexer.Queries.{
  Page, PageResult, desc, EventMatch, is_text, matches_source, names_account, time_of, in_order,
  event_place, sort, window, list_activity,
}
use scalar_commons_v.Indexer.Activity.{
  ActivityKind, kind_text, ActivitySource, activity_sources, source_matches, classify_by,
  classify_activity, is_of_kind, sources_for, to_match,
}

-- Some method fits both.
abbrev overlaps : Option String → Option String → Bool
overlaps none m = true
overlaps (some m) none = true
overlaps (some m) (some m') = m == m'

-- The sources are of different kinds, and some event fits both.
abbrev conflicts : ActivitySource → ActivitySource → Bool
conflicts s t = not (is_of_kind s.kind t) && (s.section == t.section && overlaps s.method t.method)

abbrev IsClear : List ActivitySource → Type 0
IsClear [] = Unit {0}
IsClear (s ∷ sources) = All (λ t. conflicts s t ≡ false) sources × IsClear sources

-- What a filter by kind lets through.
abbrev pub is_reported : Option ActivityKind → Option ActivityKind → Bool
is_reported asked none = false
is_reported none (some kind) = true
is_reported (some asked) (some kind) = kind_text kind == kind_text asked

text_eq_comm : (x y : String) → (x == y) ≡ (y == x)
text_eq_comm x y = ground (arith, string_keys.same_iff x y, string_keys.same_iff y x)

overlaps_lem :
    (a b : Option String) (method : String)
    → is_text a method ≡ true
    → is_text b method ≡ true
    → overlaps a b ≡ true
overlaps_lem none b method h h' = refl
overlaps_lem (some a) none method h h' = refl
overlaps_lem (some a) (some b) method h h' =
    ground (
      arith,
      string_keys.same_iff method a,
      string_keys.same_iff method b,
      string_keys.same_iff a b,
    )

and_parts : (x y : Bool) → (x && y) ≡ true → (x ≡ true) × (y ≡ true)
and_parts true y h = (refl, h)
and_parts false y h = cc

both_match :
    (s t : ActivitySource) (section method : String)
    → source_matches s section method ≡ true
    → source_matches t section method ≡ true
    → conflicts s t ≡ false
    → is_of_kind s.kind t ≡ true
both_match s t section method h h' clear =
    let (a, b) = and_parts (s.section == section) (is_text s.method method) h in
    let (a', b') = and_parts (t.section == section) (is_text t.method method) h' in
    let over = overlaps_lem s.method t.method method b b' in
    let same : (s.section == t.section) ≡ true = ground (
      arith,
      string_keys.same_iff s.section section,
      string_keys.same_iff t.section section,
      string_keys.same_iff s.section t.section,
    ) in
    ground (arith, over, same)

one_kind :
    (kind : ActivityKind) (s t : ActivitySource)
    → is_of_kind s.kind t ≡ true
    → is_of_kind kind t ≡ true
    → is_of_kind kind s ≡ false
    → ⊥
one_kind kind s t same kept other = ground (
  arith,
  string_keys.same_iff (kind_text t.kind) (kind_text s.kind),
  string_keys.same_iff (kind_text t.kind) (kind_text kind),
  string_keys.same_iff (kind_text s.kind) (kind_text kind),
)

-- After a source that fits, a source of another kind does not.
none_of_kind :
    (kind : ActivityKind) (s : ActivitySource) (sources : List ActivitySource)
    (section method : String)
    → source_matches s section method ≡ true
    → is_of_kind kind s ≡ false
    → All (λ t. conflicts s t ≡ false) sources
    → any (λ t. source_matches t section method) (keep (is_of_kind kind) sources) ≡ false
none_of_kind kind s [] section method h other clear = refl
none_of_kind kind s (t ∷ sources) section method h other (here, clear) =
    elim (Bool-cases (is_of_kind kind t)) [
      | inl kept ↦ elim (Bool-cases (source_matches t section method)) [
        | inl fits ↦
            absurd (one_kind kind s t (both_match s t section method h fits here) kept other)
        | inr misses ↦ rw (kept, misses) (none_of_kind kind s sources section method h other clear)
      ]
      | inr dropped ↦ rw dropped (none_of_kind kind s sources section method h other clear)
    ]

match-sources_for_kind :
    (kind : ActivityKind) (sources : List ActivitySource) (section method : String)
    → IsClear sources
    → any (λ s. source_matches s section method) (keep (is_of_kind kind) sources)
      ≡ is_reported (some kind) (classify_by sources section method)
match-sources_for_kind kind [] section method clear = refl
match-sources_for_kind kind (s ∷ sources) section method (here, clear) =
    elim (Bool-cases (is_of_kind kind s)) [
      | inl kept ↦ elim (Bool-cases (source_matches s section method)) [
        | inl fits ↦ rw (kept, fits, kept) refl
        | inr misses ↦ rw (kept, misses) (match-sources_for_kind kind sources section method clear)
      ]
      | inr dropped ↦ elim (Bool-cases (source_matches s section method)) [
        | inl fits ↦
            rw (dropped, fits, dropped)
              (none_of_kind kind s sources section method fits dropped here)
        | inr misses ↦
            rw (dropped, misses) (match-sources_for_kind kind sources section method clear)
      ]
    ]

match-all_sources :
    (sources : List ActivitySource) (section method : String)
    → any (λ s. source_matches s section method) sources
      ≡ is_reported none (classify_by sources section method)
match-all_sources [] section method = refl
match-all_sources (s ∷ sources) section method =
    elim (Bool-cases (source_matches s section method)) [
      | inl fits ↦ rw fits refl
      | inr misses ↦ rw misses (match-all_sources sources section method)
    ]

any-false :
    (s : ActivitySource) (sources : List ActivitySource)
    → any (conflicts s) sources ≡ false
    → All (λ t. conflicts s t ≡ false) sources
any-false s [] h = tt
any-false s (t ∷ sources) h = elim (Bool-cases (conflicts s t)) [
  | inl bad ↦ absurd (true_false (rw bad at h))
  | inr good ↦ (good, any-false s sources (rw good at h))
]
  where
    true_false : ◌≡◌ {A = Bool} true false → ⊥
    true_false e = cc

abbrev has_conflict : List ActivitySource → Bool
has_conflict [] = false
has_conflict (s ∷ sources) = any (conflicts s) sources || has_conflict sources

has_conflict-IsClear :
    (sources : List ActivitySource) → has_conflict sources ≡ false → IsClear sources
has_conflict-IsClear [] h = tt
has_conflict-IsClear (s ∷ sources) h = elim (Bool-cases (any (conflicts s) sources)) [
  | inl bad ↦ absurd (true_false (rw bad at h))
  | inr good ↦ (any-false s sources good, has_conflict-IsClear sources (rw good at h))
]
  where
    true_false : ◌≡◌ {A = Bool} true false → ⊥
    true_false e = cc

activity_sources-IsClear : IsClear activity_sources
activity_sources-IsClear = has_conflict-IsClear activity_sources refl

-- The sources of a filter fit an event exactly if the event is classified under it.
match-sources_for :
    (asked : Option ActivityKind) (section method : String)
    → any (λ s. source_matches s section method) (sources_for asked)
      ≡ is_reported asked (classify_activity section method)
unfolding sources_for classify_activity
match-sources_for none section method = match-all_sources activity_sources section method
match-sources_for (some kind) section method =
    match-sources_for_kind kind activity_sources section method activity_sources-IsClear

any-to_match :
    (e : EventRow) (sources : List ActivitySource)
    → any (matches_source e) (map to_match sources)
      ≡ any (λ s. source_matches s e.section e.method) sources
any-to_match e [] = refl
any-to_match e (s ∷ sources) = rw (text_eq_comm e.section s.section, any-to_match e sources) refl

keep-ext :
    (p q : EventRow → Bool) (rows : List EventRow)
    → ((e : EventRow) → p e ≡ q e)
    → keep p rows ≡ keep q rows
keep-ext p q [] same = refl
keep-ext p q (e ∷ rows) same = rw (same e, keep-ext p q rows same) refl

keep_none :
    (p : EventRow → Bool) (rows : List EventRow) → ((e : EventRow) → p e ≡ false) → keep p rows ≡ []
keep_none p [] none_pass = refl
keep_none p (e ∷ rows) none_pass = rw (none_pass e) (keep_none p rows none_pass)

-- Rows newest first, with their block's time, cut to the page.
abbrev pub feed_of : IndexerStore → Page → List EventRow → PageResult (EventRow × Option ℕ)
feed_of s page rows = window page (
    map (λ (e : EventRow). (e, time_of (lookup e.block_number s.blocks)))
      (sort (λ x y. in_order desc (event_place x) (event_place y)) rows))

-- The rows of the feed that a test lets through.
abbrev pub feed : IndexerStore → Page → (EventRow → Bool) → PageResult (EventRow × Option ℕ)
feed s page test = feed_of s page (keep test s.events)

take_nothing : {A : Type 0} (n m : ℕ) → ◌≡◌ {A = List A} (take n (drop m [])) []
take_nothing zero zero = refl
take_nothing zero (suc m) = refl
take_nothing (suc n) zero = refl
take_nothing (suc n) (suc m) = refl

list_activity-feed :
    (s : IndexerStore) (page : Page) (sources : List EventMatch) (account : Option String)
    → list_activity s page sources account
      ≡ feed s page (λ e. any (matches_source e) sources && names_account s account e)
unfolding list_activity window
list_activity-feed s page [] account =
    rw (keep_none (λ e. false) s.events (λ e. refl))
      (ap (λ z. record { total = 0; items = z }) (sym (take_nothing page.limit page.offset)))
list_activity-feed s page (first ∷ others) account = refl

-- `/v1/activity` with a kind, or without, holds exactly the indexed events that `classifyActivity` reports
-- under that kind, or under any, and that name the asked account, if there is one: newest first, with
-- their block's time, cut to the page, and counted without it.
pub list_activity-sources_for :
    (s : IndexerStore) (page : Page) (asked : Option ActivityKind) (account : Option String)
    → list_activity s page (map to_match (sources_for asked)) account
      ≡ feed s page (λ e.
        is_reported asked (classify_activity e.section e.method) && names_account s account e)
list_activity-sources_for s page asked account =
    list_activity-feed s page (map to_match (sources_for asked)) account
    ∙ ap (feed_of s page) (
        keep-ext
          (λ e.
            any (matches_source e) (map to_match (sources_for asked)) && names_account s account e)
          (λ e.
            is_reported asked (classify_activity e.section e.method) && names_account s account e)
          s.events
          (λ e.
            ap (λ z. z && names_account s account e)
              (any-to_match e (sources_for asked) ∙ match-sources_for asked e.section e.method)))
