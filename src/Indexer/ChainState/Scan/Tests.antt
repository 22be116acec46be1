-- ===== src/Indexer/ChainState/Scan/Tests.antt =====
-- A map of three entries, read whole and cut short.
use scalar_commons_v.Base.{
  ℕ, zero, suc, ◌≡◌, refl, true, Option, none, some, List, [], ◌∷◌, length, take, drop, get_elem?,
  ltb,
}
use scalar_commons_v.Indexer.ChainState.Scan.{scan_pages, scan_entries}
use scalar_commons_v.Indexer.ChainState.Scan.Bounded.{IsPaged, scan_entries-eq-take}

abbrev three : List (ℕ × ℕ)
three = (0, 10) ∷ (1, 11) ∷ (2, 12) ∷ []

abbrev paged : ℕ → Option ℕ → List (ℕ × ℕ)
paged n none = take n three
paged n (some key) = take n (drop (suc key) three)

paged_after :
    (n i key value : ℕ)
    → get_elem? three i ≡ some (key, value)
    → paged n (some key) ≡ take n (drop (suc i) three)
paged_after n zero key value h = let e : key ≡ 0 = cc in rw e refl
paged_after n (suc zero) key value h = let e : key ≡ 1 = cc in rw e refl
paged_after n (suc (suc zero)) key value h = let e : key ≡ 2 = cc in rw e refl
paged_after n (suc (suc (suc i))) key value h = cc

paged-IsPaged : IsPaged paged three
paged-IsPaged = record { first_page = λ n. refl; next_page = paged_after }

cut_short :
    scan_entries paged 2 ≡ some (record { entries = (0, 10) ∷ (1, 11) ∷ []; truncated = true })
unfolding scan_entries scan_pages
cut_short = refl

scan_entries-eq-take_example :
    scan_entries paged 3
    ≡ some (record { entries = take 3 three; truncated = ltb 3 (length three) })
scan_entries-eq-take_example = scan_entries-eq-take paged three paged-IsPaged 3
