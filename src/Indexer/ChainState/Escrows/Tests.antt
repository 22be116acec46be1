-- ===== src/Indexer/ChainState/Escrows/Tests.antt =====
-- A map of three pairs, read by key, by buyer and whole.
use scalar_commons_v.Base.{
  ℕ, zero, suc, ◌≡◌, refl, sym, ap, arith, Bool, false, Option, none, some, String, List, [], ◌∷◌,
  take, drop, keep, get_elem?, All, inl, inr, Bool-cases, if◌then◌else◌, ◌==◌, string_keys,
  pair_keys, same_pair_iff, lookup,
}
use mathlib.Core.Path.{subst}
use scalar_commons_v.Indexer.ChainState.Scan.Bounded.{IsPaged}
use scalar_commons_v.Indexer.ChainState.Escrows.{
  RawAgreement, EscrowFilter, Entry, EscrowStorage, collect, listed, fetch_escrows,
}
use scalar_commons_v.Indexer.ChainState.Escrows.Paths.{
  value_at, has_buyer, IsEscrowMap, HasDistinctKeys, is_wanted, fetch_escrows_complete,
}

abbrev is_same : String × String → String × String → Bool
is_same p q = p == q

abbrev after : String × String → List Entry → List Entry
after key [] = []
after key (e ∷ entries) = let later = after key entries in if e.0 == key then entries else later

abbrev pages_of : List Entry → ℕ → Option (String × String) → List Entry
pages_of entries n none = take n entries
pages_of entries n (some key) = take n (after key entries)

unlike_at :
    (first : String × String) (entries : List Entry) (i : ℕ) (e : Entry)
    → All (λ (later : Entry). (later.0 == first) ≡ false) entries
    → get_elem? entries i ≡ some e
    → (e.0 == first) ≡ false
unlike_at first [] i e h at = cc
unlike_at first (x ∷ entries) zero e (h, hs) at =
    let same : x ≡ e = cc in subst (λ z. (z.0 == first) ≡ false) same h
unlike_at first (x ∷ entries) (suc i) e (h, hs) at = unlike_at first entries i e hs at

after_lem :
    (entries : List Entry) (i : ℕ) (e : Entry)
    → HasDistinctKeys entries
    → get_elem? entries i ≡ some e
    → after e.0 entries ≡ drop (suc i) entries
after_lem [] i e d at = cc
after_lem (x ∷ entries) zero e (unlike, d) at =
    let same : x ≡ e = cc in rw ((same_pair_iff x.0 e.0).1 (ap (λ z. z.0) same)) refl
after_lem (x ∷ entries) (suc i) e (unlike, d) at =
    let apart = unlike_at x.0 entries i e unlike at in
    elim (Bool-cases (is_same x.0 e.0)) [
      | inl same ↦ let back = (same_pair_iff e.0 x.0).1 (sym ((same_pair_iff x.0 e.0).0 same)) in cc
      | inr other ↦ rw other (after_lem entries i e d at)
    ]

pages_of-IsPaged :
    (entries : List Entry) → HasDistinctKeys entries → IsPaged (pages_of entries) entries
pages_of-IsPaged entries d = record {
  first_page = λ n. refl;
  next_page = λ n i key value at. ap (take n) (after_lem entries i (key, value) d at);
}

abbrev raw : ℕ → String → RawAgreement
raw n status = record {
  seq = n;
  amount = 100;
  deliverable_hash = "0x1";
  deliver_by = 50;
  created_at = n;
  status = status;
  delivery_proof = none;
  capability_id = none;
  dispute_opened_at = none;
  dispute_request_id = none;
}

abbrev map_entries : List Entry
map_entries =
    (("ann", "bob"), raw 1 "Created" ∷ raw 2 "Delivered" ∷ [])
    ∷ (("ann", "cid"), raw 3 "Created" ∷ [])
    ∷ (("dan", "bob"), raw 4 "Disputed" ∷ [])
    ∷ []

abbrev pages_for : Option String → List Entry
pages_for none = map_entries
pages_for (some buyer) = keep (has_buyer buyer) map_entries

abbrev node : EscrowStorage
node = record {
  agreements = λ buyer provider. value_at (lookup (buyer, provider) map_entries);
  paged = λ buyer. pages_of (pages_for buyer);
}

keep_unlike :
    (buyer : String) (first : String × String) (entries : List Entry)
    → All (λ (later : Entry). (later.0 == first) ≡ false) entries
    → All (λ (later : Entry). (later.0 == first) ≡ false) (keep (has_buyer buyer) entries)
keep_unlike buyer first [] h = tt
keep_unlike buyer first (e ∷ entries) (h, hs) = elim (Bool-cases (has_buyer buyer e)) [
  | inl kept ↦ rw kept (h, keep_unlike buyer first entries hs)
  | inr dropped ↦ rw dropped (keep_unlike buyer first entries hs)
]

keep-HasDistinctKeys :
    (buyer : String) (entries : List Entry)
    → HasDistinctKeys entries
    → HasDistinctKeys (keep (has_buyer buyer) entries)
keep-HasDistinctKeys buyer [] d = tt
keep-HasDistinctKeys buyer (e ∷ entries) (u, d) = elim (Bool-cases (has_buyer buyer e)) [
  | inl kept ↦ rw kept (keep_unlike buyer e.0 entries u, keep-HasDistinctKeys buyer entries d)
  | inr dropped ↦ rw dropped (keep-HasDistinctKeys buyer entries d)
]

map_entries-HasDistinctKeys : HasDistinctKeys map_entries
map_entries-HasDistinctKeys = ((refl, (refl, tt)), ((refl, tt), (tt, tt)))

node-IsEscrowMap : IsEscrowMap node map_entries
node-IsEscrowMap = record {
  at_pair = λ buyer provider. refl;
  of_buyer = λ buyer.
      pages_of-IsPaged (keep (has_buyer buyer) map_entries)
        (keep-HasDistinctKeys buyer map_entries map_entries-HasDistinctKeys);
  whole = pages_of-IsPaged map_entries map_entries-HasDistinctKeys;
}

abbrev of_ann : EscrowFilter
of_ann = record { buyer = some "ann"; provider = none; party = none }

fetch_escrows_complete_example :
    fetch_escrows node of_ann ≡ some (listed false (collect (is_wanted of_ann) map_entries))
fetch_escrows_complete_example =
    fetch_escrows_complete node map_entries node-IsEscrowMap map_entries-HasDistinctKeys
      (omega arith) of_ann (inl refl)
