-- ===== src/Indexer/ChainState/Scan/Bounded.antt =====
-- A scan ends, with the first entries of the map up to the ceiling.
use scalar_commons_v.Base.{
  ℕ, zero, suc, ◌+◌, ◌-◌, ◌<◌, ◌≤◌, ◌≡◌, refl, sym, ap, ◌∙◌, arith, true, false, Option, none, some,
  List, [], ◌∷◌, ◌++◌, ltb, leb, min, length, take, drop, get_elem?, take_all, take-add, take-take,
  length-drop, length-take-min, get_elem?-drop, Bool-cases, inl, inr,
}
use scalar_commons_v.Indexer.ChainState.Scan.{
  scan_page_size, last_key, after_page, scan_pages, cut, scan_entries,
}

-- The node answers a page request with the next entries of the map, in one order: from the start, or after
-- the entry with the given key.
pub record IsPaged {K V : Type 0} (paged : ℕ → Option K → List (K × V)) (all : List (K × V))
    : Type 0 where
  pub first_page : (n : ℕ) → paged n none ≡ take n all
  pub next_page :
      (n i : ℕ) (key : K) (value : V)
      → get_elem? all i ≡ some (key, value)
      → paged n (some key) ≡ take n (drop (suc i) all)

module _ {K V : Type 0} (paged : ℕ → Option K → List (K × V)) (all : List (K × V))
    (node : IsPaged paged all) where
  -- The cursor stands after the first `m` entries.
  abbrev IsAt : ℕ → Option K → Type 0
  IsAt m start = (n : ℕ) → paged n start ≡ take n (drop m all)

  -- After a page of `p` entries from `m` on, the cursor stands after `m + p`.
  last_key-IsAt :
      (rest : List (K × V)) (m p : ℕ) (start : Option K)
      → drop m all ≡ rest
      → p ≤ length rest
      → IsAt m start
      → IsAt (m + p) (last_key start (take p rest))
  last_key-IsAt rest m zero start e le h = let same : m ≡ m + 0 = omega arith in rw (← same) h
  last_key-IsAt [] m (suc p) start e le h = absurd (omega arith)
  last_key-IsAt ((key, value) ∷ rest) m (suc p) start e le h =
      let (here, later) = get_elem?-drop m all e in
      let same : suc m + p ≡ m + suc p = omega arith in
      rw (← same) (
        last_key-IsAt rest (suc m) p (some key) later (omega arith)
          (λ n. node.next_page n m key value here))

  module _ (limit : ℕ) where
    -- The loop stops with what it has when a page was short, and that is the whole map.
    after_page_lem :
        (page : List (K × V)) (m p : ℕ) (rest : Option (List (K × V)))
        → page ≡ take p (drop m all)
        → 0 < p
        → m + p ≤ limit + 1
        → (p ≤ length (drop m all) → rest ≡ some (take (limit + 1) all))
        → after_page p (take m all) page rest ≡ some (take (limit + 1) all)
    after_page_lem [] m p rest e pos le more =
        let whole : length all ≤ m =
          omega (arith, ap length e, length-take-min p (drop m all), length-drop m all) in
        ap some (take_all m all whole ∙ sym (take_all (limit + 1) all (omega arith)))
    after_page_lem (x ∷ page) m p rest e pos le more =
        let size : length (x ∷ page) ≡ min p (length all - m) =
          omega (arith, ap length e, length-take-min p (drop m all), length-drop m all) in
        elim (Bool-cases (ltb (length (x ∷ page)) p)) [
          | inl short ↦
              let whole : length all ≤ m + p = ground (arith, size, short) in
              rw short (
                ap some (
                  ap (λ z. take m all ++ z) e
                  ∙ take-add m p (m + p) all refl
                  ∙ take_all (m + p) all whole
                  ∙ sym (take_all (limit + 1) all (omega arith))))
          | inr full ↦ rw full (more (ground (arith, size, full, length-drop m all)))
        ]

    scan_pages_lem :
        (fuel m : ℕ) (start : Option K)
        → IsAt m start
        → m ≤ length all
        → m ≤ limit + 1
        → limit + 1 - m < fuel
        → scan_pages paged limit fuel (take m all) start ≡ some (take (limit + 1) all)
    unfolding scan_pages
    scan_pages_lem zero m start at le le' f = absurd (omega arith)
    scan_pages_lem (suc fuel) m start at le le' f =
        let size : length (take m all) ≡ m = omega (arith, length-take-min m all) in
        let p = min scan_page_size (limit + 1 - m) in
        let rest : List (K × V) = drop m all in
        elim (Bool-cases (leb m limit)) [
          | inl inside ↦
              let low : m ≤ limit = ground (arith, inside) in
              rw (size, inside, at p)
                (after_page_lem (take p rest) m p
                  (scan_pages paged limit fuel (take m all ++ take p rest)
                    (last_key start (take p rest)))
                  refl (omega arith) (omega arith)
                  (λ full. rw (take-add m p (m + p) all refl) (
                    scan_pages_lem fuel (m + p) (last_key start (take p rest))
                      (last_key-IsAt rest m p start refl full at) (omega (arith, length-drop m all))
                      (omega arith) (omega arith))))
          | inr done ↦
              let same : m ≡ limit + 1 = ground (arith, done) in
              rw (size, done) (ap (λ z. some (take z all)) same)
        ]

    cut_lem :
        cut limit (some (take (limit + 1) all))
        ≡ some (record { entries = take limit all; truncated = ltb limit (length all) })
    cut_lem =
        let size = length-take-min (limit + 1) all in
        elim (Bool-cases (ltb limit (length all))) [
          | inl more ↦
              let same : ltb limit (length (take (limit + 1) all)) ≡ true =
                ground (arith, size, more) in
              rw (same, more, take-take limit (limit + 1) all (omega arith)) refl
          | inr fits ↦
              let same : ltb limit (length (take (limit + 1) all)) ≡ false =
                ground (arith, size, fits) in
              rw
                (
                  same,
                  fits,
                  take_all (limit + 1) all (ground (arith, fits)),
                  take_all limit all (ground (arith, fits)),
                )
                refl
        ]

    -- A scan of a map ends, with the first entries of the map up to the ceiling, and reports that it was cut
    -- short exactly if the map has more. The node answers each page request with the entries that follow the
    -- given key.
    pub scan_entries-eq-take :
        scan_entries paged limit
        ≡ some (record { entries = take limit all; truncated = ltb limit (length all) })
    unfolding scan_entries
    scan_entries-eq-take =
        ap (cut limit) (
          scan_pages_lem (limit + 2) 0 none node.first_page (omega arith) (omega arith)
            (omega arith))
        ∙ cut_lem
