-- ===== src/Indexer/Queries/Pages.antt =====
-- A client that pages through a list query sees every matching row once, in chain order.
use mathlib.Core.Path.{subst}
use scalar_commons_v.Base.{
  ℕ, zero, suc, ◌+◌, ◌*◌, ◌≤◌, ◌≡◌, string_keys, number_keys, pair_keys, refl, sym, ap, ◌∙◌, arith,
  Bool, true, List, [], ◌∷◌, ◌++◌, length, take, drop, map,
}
use scalar_commons_v.Indexer.Store.{EventRow, IndexerStore}
use scalar_commons_v.Indexer.Queries.{
  Page, PageResult, window, ExtrinsicQuery, as_extrinsic, extrinsics_in_order, list_extrinsics,
  EventQuery, events_in_order, list_events,
}
use scalar_commons_v.Indexer.Queries.Asked.{IsAnswer, Lists, events_in_order-Lists}

-- The rows of `count` pages of `limit` rows, asked for one after the other from `offset` on.
unfoldable pub walk : {A : Type 0} → (Page → PageResult A) → (limit offset count : ℕ) → List A
walk query limit offset zero = []
walk query limit offset (suc count) =
    (query (record { limit = limit; offset = offset })).items
    ++ walk query limit (offset + limit) count

suc_add : (m n : ℕ) → suc m + n ≡ suc (m + n)
suc_add m n = omega arith

zero_add : (n : ℕ) → zero + n ≡ n
zero_add n = omega arith

zero_mul : (n : ℕ) → zero * n ≡ 0
zero_mul n = omega arith

suc_mul : (m n : ℕ) → n + m * n ≡ suc m * n
suc_mul m n = ground arith

module _ {A : Type 0} where
  drop_nil : (n : ℕ) → drop {A = A} n [] ≡ []
  drop_nil zero = refl
  drop_nil (suc n) = refl

  take_nil : (n : ℕ) → take {A = A} n [] ≡ []
  take_nil zero = refl
  take_nil (suc n) = refl

  drop-drop : (m n : ℕ) (xs : List A) → drop n (drop m xs) ≡ drop (m + n) xs
  drop-drop zero n xs = rw (zero_add n) refl
  drop-drop (suc m) n [] = rw (drop_nil n, drop_nil (suc m + n)) refl
  drop-drop (suc m) n (x ∷ xs) = rw (suc_add m n) (drop-drop m n xs)

  take_all : (n : ℕ) (xs : List A) → length xs ≤ n → take n xs ≡ xs
  take_all zero [] h = refl
  take_all zero (x ∷ xs) h = absurd (omega arith)
  take_all (suc n) [] h = refl
  take_all (suc n) (x ∷ xs) h = ap (◌∷◌ x) (take_all n xs (omega arith))

  take-take-drop : (m n : ℕ) (xs : List A) → take m xs ++ take n (drop m xs) ≡ take (m + n) xs
  take-take-drop zero n xs = rw (zero_add n) refl
  take-take-drop (suc m) n [] = rw (take_nil n, take_nil (suc m + n)) refl
  take-take-drop (suc m) n (x ∷ xs) = rw (suc_add m n) (ap (◌∷◌ x) (take-take-drop m n xs))

  walk-window :
      (limit offset count : ℕ) (rows : List A)
      → walk (λ page. window page rows) limit offset count ≡ take (count * limit) (drop offset rows)
  unfolding walk window
  walk-window limit offset zero rows = rw (zero_mul limit) refl
  walk-window limit offset (suc count) rows =
      ap (λ z. take limit (drop offset rows) ++ z)
        (walk-window limit (offset + limit) count rows
          ∙ ap (take (count * limit)) (sym (drop-drop offset limit rows)))
      ∙ take-take-drop limit (count * limit) (drop offset rows)
      ∙ ap (λ z. take z (drop offset rows)) (suc_mul count limit)

  walk_all :
      (limit count : ℕ) (rows : List A)
      → length rows ≤ count * limit
      → walk (λ page. window page rows) limit 0 count ≡ rows
  walk_all limit count rows h = walk-window limit 0 count rows ∙ take_all (count * limit) rows h

-- Paging through `listExtrinsics` with one filter and order gives, page after page, every matching
-- extrinsic in that order, none twice and none left out, once the pages cover the total.
pub walk-list_extrinsics :
    (s : IndexerStore) (q : ExtrinsicQuery) (limit count : ℕ)
    → (list_extrinsics s q).total ≤ count * limit
    → walk (λ page. list_extrinsics s (record q { page = page })) limit 0 count
      ≡ map as_extrinsic (extrinsics_in_order s q)
unfolding list_extrinsics window
walk-list_extrinsics s q limit count h =
    walk_all limit count (map as_extrinsic (extrinsics_in_order s q)) h

-- Paging through `listEvents` with one filter and order, until the pages cover the total, gives the events of
-- the index that the query asks for and no others, in chain order: by block, then by index in the block, or by
-- that order reversed when it is descending. Each kind `p` of asked events is given as often as the
-- index holds it.
pub walk-list_events :
    (s : IndexerStore) (q : EventQuery) (limit count : ℕ) (p : EventRow → Bool)
    → (list_events s q).total ≤ count * limit
    → ((e : EventRow) → p e ≡ true → IsAnswer s q e)
    → Lists s q p (walk (λ page. list_events s (record q { page = page })) limit 0 count)
unfolding list_events window
walk-list_events s q limit count p h asked =
    subst (Lists s q p) (sym (walk_all limit count (events_in_order s q) h))
      (events_in_order-Lists s q p asked)
