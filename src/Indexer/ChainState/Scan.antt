-- ===== src/Indexer/ChainState/Scan.antt =====
-- `scanEntries`: a storage map read in pages, up to a ceiling. The node's `entriesPaged` is a parameter,
-- for the arguments of one request. The loop takes fuel; `none` means that it ran out.
pub mod Bounded
mod Tests
use scalar_commons_v.Base.{
  ℕ, zero, suc, ◌+◌, ◌-◌, ◌<◌, ◌≤◌, ◌≡◌, Bool, true, false, Option, none, some, List, [], ◌∷◌, ◌++◌,
  ltb, leb, min, length, take, if◌then◌else◌,
}

abbrev pub max_live_scan : ℕ
max_live_scan = 512

abbrev pub scan_page_size : ℕ
scan_page_size = 128

pub record EntryScan (E : Type 0) : Type 0 where
  pub entries : List E
  pub truncated : Bool

-- `page[page.length - 1]![0]`, the key to go on from.
abbrev pub last_key : {K V : Type 0} → Option K → List (K × V) → Option K
last_key start [] = start
last_key start ((key, value) ∷ page) = last_key (some key) page

-- What a page makes of the entries so far; `rest` is the rest of the loop, after a full page.
abbrev pub after_page :
    {K V : Type 0}
    → ℕ
    → (entries page : List (K × V)) → Option (List (K × V))
    → Option (List (K × V))
after_page page_size entries [] rest = some entries
after_page page_size entries (e ∷ page) rest =
    if ltb (length (e ∷ page)) page_size then some (entries ++ (e ∷ page)) else rest

abbrev pub cut : {K V : Type 0} → ℕ → Option (List (K × V)) → Option (EntryScan (K × V))
cut limit none = none
cut limit (some entries) = some (
    if ltb limit (length entries)
    then record { entries = take limit entries; truncated = true }
    else record { entries = entries; truncated = false })

module _ {K V : Type 0} (paged : ℕ → Option K → List (K × V)) (limit : ℕ) where
  unfoldable pub scan_pages : ℕ → List (K × V) → Option K → Option (List (K × V))
  scan_pages zero entries start = none
  scan_pages (suc fuel) entries start =
      let page_size = min scan_page_size (limit + 1 - length entries) in
      let page = paged page_size start in
      let rest = scan_pages fuel (entries ++ page) (last_key start page) in
      let answer = after_page page_size entries page rest in
      if leb (length entries) limit then answer else some entries

  -- Each page brings an entry or ends the loop, so the ceiling bounds the rounds.
  unfoldable pub scan_entries : Option (EntryScan (K × V))
  scan_entries = cut limit (scan_pages (limit + 2) [] none)
