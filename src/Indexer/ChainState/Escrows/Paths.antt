-- ===== src/Indexer/ChainState/Escrows/Paths.antt =====
-- The three ways to read the map give the same list.
use scalar_commons_v.Base.{
  ℕ, ◌≤◌, ◌≡◌, refl, sym, ap, ◌∙◌, arith, Bool, true, false, ◌&&◌, Option, none, some, String, List,
  [], ◌∷◌, ◌++◌, ◌⊎◌, inl, inr, ltb, length, keep, All, ◌==◌, string_keys, pair_keys, same_pair_iff,
  Bool-cases, lookup, take_all, length-keep-le,
}
use mathlib.Core.Path.{subst}
use mathlib.Core.List.{append-nil}
use scalar_commons_v.Base.Results.{Result, ok, err, ◌>>=◌}
use scalar_commons_v.Indexer.Queries.{is_text}
use scalar_commons_v.Indexer.ChainState.Scan.{max_live_scan, scan_entries}
use scalar_commons_v.Indexer.ChainState.Scan.Bounded.{IsPaged, scan_entries-eq-take}
use scalar_commons_v.Indexer.ChainState.Escrows.{
  RawAgreement, EscrowAgreement, UnknownStatus, to_agreements, EscrowFilter, Entry, is_included,
  collect, listed, EscrowStorage, on_scan, by_key, fetch_escrows,
}

-- A pair that the map does not hold has no agreements.
abbrev pub value_at : Option (List RawAgreement) → List RawAgreement
value_at none = []
value_at (some value) = value

abbrev pub has_buyer : String → Entry → Bool
has_buyer address entry = entry.0.0 == address

-- The map as a dictionary, each pair once, and a node that answers from it.
pub record IsEscrowMap (node : EscrowStorage) (all : List Entry) : Type 0 where
  pub at_pair :
      (buyer provider : String)
      → node.agreements buyer provider ≡ value_at (lookup (buyer, provider) all)
  pub of_buyer : (buyer : String) → IsPaged (node.paged (some buyer)) (keep (has_buyer buyer) all)
  pub whole : IsPaged (node.paged none) all

-- No later entry has the key of an earlier one.
abbrev pub HasDistinctKeys : List Entry → Type 0
HasDistinctKeys [] = Unit {0}
HasDistinctKeys (entry ∷ entries) =
    All (λ (later : Entry). (later.0 == entry.0) ≡ false) entries × HasDistinctKeys entries

-- What a filter asks for.
abbrev pub is_wanted : EscrowFilter → String × String → Bool
is_wanted filter key = is_text filter.buyer key.0 && is_included filter key

collect-keep :
    (wanted : String × String → Bool) (test : String × String → Bool) (entries : List Entry)
    → collect wanted (keep (λ (e : Entry). test e.0) entries)
      ≡ collect (λ key. test key && wanted key) entries
unfolding collect
collect-keep wanted test [] = refl
collect-keep wanted test (((buyer, provider), value) ∷ entries) =
    elim (Bool-cases (test (buyer, provider))) [
      | inl t ↦ rw (t, collect-keep wanted test entries) refl
      | inr f ↦ rw (f, collect-keep wanted test entries) refl
    ]

collect-ext :
    (wanted wanted' : String × String → Bool) (entries : List Entry)
    → ((key : String × String) → wanted key ≡ wanted' key)
    → collect wanted entries ≡ collect wanted' entries
unfolding collect
collect-ext wanted wanted' [] same = refl
collect-ext wanted wanted' (((buyer, provider), value) ∷ entries) same =
    rw (same (buyer, provider), collect-ext wanted wanted' entries same) refl

abbrev is_pair : String × String → String × String → Bool
is_pair pair key = key == pair

collect_absent :
    (pair : String × String) (entries : List Entry)
    → All (λ (later : Entry). (later.0 == pair) ≡ false) entries
    → collect (is_pair pair) entries ≡ ok []
unfolding collect
collect_absent pair [] absent = refl
collect_absent pair (((buyer, provider), value) ∷ entries) (here, absent) =
    rw here (collect_absent pair entries absent)

to_agreements-none : (buyer provider : String) → to_agreements buyer provider [] ≡ ok []
unfolding to_agreements
to_agreements-none buyer provider = refl

append_none :
    (r : Result UnknownStatus (List EscrowAgreement)) → (r >>= λ here. ok (here ++ [])) ≡ r
append_none (err e) = refl
append_none (ok here) = ap ok (append-nil here)

collect_pair :
    (b p : String) (value : List RawAgreement) (entries : List Entry)
    → All (λ (later : Entry). (later.0 == (b, p)) ≡ false) entries
    → (to_agreements b p value >>= λ here.
        (collect (is_pair (b, p)) entries >>= λ others. ok (here ++ others)))
      ≡ to_agreements b p value
collect_pair b p value entries unlike =
    rw (collect_absent (b, p) entries unlike) (append_none (to_agreements b p value))

collect_same :
    (b p : String) (value : List RawAgreement) (entries : List Entry) (pair : String × String)
    → (b, p) ≡ pair
    → All (λ (later : Entry). (later.0 == (b, p)) ≡ false) entries
    → (to_agreements b p value >>= λ here.
        (collect (is_pair pair) entries >>= λ others. ok (here ++ others)))
      ≡ to_agreements pair.0 pair.1 value
collect_same b p value entries pair e unlike =
    subst
      (λ z.
        (to_agreements b p value >>= λ here.
        (collect (is_pair z) entries >>= λ others. ok (here ++ others)))
        ≡ to_agreements z.0 z.1 value)
      e (collect_pair b p value entries unlike)

collect-is_pair :
    (buyer provider : String) (entries : List Entry)
    → HasDistinctKeys entries
    → collect (is_pair (buyer, provider)) entries
      ≡ to_agreements buyer provider (value_at (lookup (buyer, provider) entries))
unfolding collect lookup
collect-is_pair buyer provider [] distinct = sym (to_agreements-none buyer provider)
collect-is_pair buyer provider (((b, p), value) ∷ entries) (unlike, distinct) =
    elim (Bool-cases (is_pair (buyer, provider) (b, p))) [
      | inl same ↦
          let e = (same_pair_iff (b, p) (buyer, provider)).0 same in
          rw same (collect_same b p value entries (buyer, provider) e unlike)
      | inr other ↦ rw other (collect-is_pair buyer provider entries distinct)
    ]

-- A filter by a party does not also name both the buyer and the provider: the API asks for one or the other.
abbrev pub IsAsked : EscrowFilter → Type 0
IsAsked filter = (filter.party ≡ none) ⊎ ((filter.buyer ≡ none) ⊎ (filter.provider ≡ none))

asked_pair :
    (filter : EscrowFilter) (buyer provider : String)
    → filter.buyer ≡ some buyer
    → filter.provider ≡ some provider
    → IsAsked filter
    → filter.party ≡ none
asked_pair filter buyer provider b p (inl no_party) = no_party
asked_pair filter buyer provider b p (inr (inl no_buyer)) = cc
asked_pair filter buyer provider b p (inr (inr no_provider)) = cc

and_true : (x y : Bool) → (x && y) ≡ (x && (y && true))
and_true true true = refl
and_true true false = refl
and_true false y = refl

module _ (node : EscrowStorage) (all : List Entry) (map_of : IsEscrowMap node all)
    (distinct : HasDistinctKeys all) (small : length all ≤ max_live_scan) where
  on_scan_lem :
      (filter : EscrowFilter) (paged : ℕ → Option (String × String) → List Entry)
      (entries : List Entry)
      → IsPaged paged entries
      → length entries ≤ length all
      → on_scan filter (scan_entries paged max_live_scan)
        ≡ some (listed false (collect (is_included filter) entries))
  on_scan_lem filter paged entries pages le =
      let whole = take_all max_live_scan entries (omega (arith, le, small)) in
      let fits : ltb max_live_scan (length entries) ≡ false = ground (arith, le, small) in
      ap (on_scan filter) (scan_entries-eq-take paged entries pages max_live_scan)
      ∙ rw (whole, fits) refl

  by_key_lem :
      (filter : EscrowFilter) (buyer provider : Option String)
      → filter.buyer ≡ buyer
      → filter.provider ≡ provider
      → IsAsked filter
      → by_key node filter buyer provider ≡ some (listed false (collect (is_wanted filter) all))
  by_key_lem filter (some buyer) (some provider) b p asked =
      let no_party : filter.party ≡ none = asked_pair filter buyer provider b p asked in
      ap (λ z. some (listed false z))
        (ap (to_agreements buyer provider) (map_of.at_pair buyer provider)
          ∙ sym (collect-is_pair buyer provider all distinct)
          ∙ collect-ext (is_pair (buyer, provider)) (is_wanted filter) all
              (λ key. rw (b, p, no_party) (and_true (key.0 == buyer) (key.1 == provider))))
  by_key_lem filter (some buyer) none b p asked =
      on_scan_lem filter (node.paged (some buyer)) (keep (has_buyer buyer) all)
        (map_of.of_buyer buyer) (length-keep-le (has_buyer buyer) all)
      ∙ ap (λ z. some (listed false z))
          (collect-keep (is_included filter) (λ key. key.0 == buyer) all
            ∙ collect-ext (λ key. key.0 == buyer && is_included filter key) (is_wanted filter) all
                (λ key. rw b refl))
  by_key_lem filter none provider b p asked =
      on_scan_lem filter (node.paged none) all map_of.whole (omega arith)
      ∙ ap (λ z. some (listed false z))
          (collect-ext (is_included filter) (is_wanted filter) all (λ key. rw b refl))

  -- Whichever way the map is read, by the key of the pair, by the buyer's prefix or as a whole, the answer is the
  -- list of all agreements of the map that the filter asks for, newest first, or the error of an agreement
  -- among them whose status is unknown. The map has each pair once and at most as many pairs as the
  -- ceiling, and a filter by a party does not also name both the buyer and the provider.
  pub fetch_escrows_complete :
      (filter : EscrowFilter)
      → IsAsked filter
      → fetch_escrows node filter ≡ some (listed false (collect (is_wanted filter) all))
  unfolding fetch_escrows
  fetch_escrows_complete filter = by_key_lem filter filter.buyer filter.provider refl refl
