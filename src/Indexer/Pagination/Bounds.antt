-- ===== src/Indexer/Pagination/Bounds.antt =====
-- What `parsePage` lets through.
use scalar_commons_v.Base.{
  ℕ, zero, suc, ◌≤◌, ◌≡◌, ap, arith, not, Option, none, some, String, List, [], ◌∷◌, length, drop,
  take,
}
use scalar_commons_v.Base.Results.{ok, bind-eq-ok, require-eq-ok, ok_inj}
use scalar_commons_v.Indexer.Store.{IndexerStore}
use scalar_commons_v.Indexer.Queries.{Page, window, EventQuery, list_events, events_in_order}
use scalar_commons_v.Indexer.Pagination.{
  limit_too_small, parse_integer, is_below, limit_of, offset_of, parse_page,
}

limit_of_bounds :
    (o : Option String) (limit : ℕ) → limit_of o ≡ ok limit → (1 ≤ limit) × (limit ≤ 200)
limit_of_bounds none limit h = let same = ok_inj h in (omega (arith, same), omega (arith, same))
limit_of_bounds (some raw) limit h =
    let (value, e1, h1) = bind-eq-ok (parse_integer raw) _ h in
    let (t1, h2) = require-eq-ok (not (is_below value 1)) limit_too_small _ h1 in
    let same = ok_inj h2 in (ground (arith, t1, same), ground (arith, t1, same))

length-take-le : {A : Type 0} (n : ℕ) (xs : List A) → length (take n xs) ≤ n
length-take-le zero xs = omega arith
length-take-le (suc n) [] = omega arith
length-take-le (suc n) (x ∷ xs) = omega (arith, length-take-le n xs)

-- However a query string asks, a page that `parsePage` accepts has between 1 and 200 rows, so that an
-- event list never answers with more than 200.
pub list_events-parse_page :
    (get : String → Option String) (page : Page) (s : IndexerStore) (q : EventQuery)
    → parse_page get ≡ ok page
    → (1 ≤ page.limit)
      × (page.limit ≤ 200)
      × (length (list_events s (record q { page = page })).items ≤ 200)
unfolding parse_page list_events window
list_events-parse_page get page s q h =
    let (limit, e1, h1) = bind-eq-ok (limit_of (get "limit")) _ h in
    let (offset, e2, h2) = bind-eq-ok (offset_of (get "offset")) _ h1 in
    let same : limit ≡ page.limit = ap (λ (p : Page). p.limit) (ok_inj h2) in
    let (low, high) = limit_of_bounds (get "limit") limit e1 in
    (
      omega (arith, same, low),
      omega (arith, same, high),
      omega (arith, same, high, length-take-le page.limit (drop page.offset (events_in_order s q))),
    )
