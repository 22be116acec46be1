-- ===== src/Explorer/Routes.antt =====
-- explorer/src/routes.ts, the other half: `parseRoute`. What the library's URL class gives for a request is a
-- parameter, as a list of path segments and a lookup of query parameters; so are `decodeURIComponent` and
-- `isAddress`. The wording of a bad request is left out.
pub mod Resolved
mod Tests
use scalar_commons_v.Base.{
  ℕ, ◌+◌, Bool, true, false, not, ◌&&◌, ◌||◌, Option, none, some, List, [], ◌∷◌, ◌++◌, ltb, leb,
  eqb, any, length, if◌then◌else◌, Text, String, char_codes, keep, is_digit, read_digits, decimal,
  ◌==◌, bytes_keys,
}
use scalar_commons_v.Explorer.Links.{
  BlockRef, number, hash, is_empty, max_block_number, max_safe_integer, every, is_block_number,
  is_hex_digit, is_hash_64, low_hex, low_hex_text, parse_block_ref, block_ref_segment, split_slash,
  segments, block_path, extrinsic_path, account_path,
}

pub data BlockTab : Type 0 where
  extrinsics events : BlockTab

pub data AccountTab : Type 0 where
  signed agent_activity : AccountTab

-- What a bad request says, without its wording.
pub data Complaint : Type 0 where
  bad_page : Complaint
  undecodable not_block_ref not_index not_address not_kind : Text → Complaint

pub data Route : Type 0 where
  home chrome favicon not_found : Route
  blocks : (page : ℕ) → Route
  block : BlockRef → BlockTab → Route
  extrinsic : BlockRef → (index : ℕ) → Route
  account : (address : Text) → AccountTab → (page : ℕ) → Route
  activity : (agent kind : Option Text) → (page : ℕ) → Route
  search : (query : Text) → Route
  font : (name : Text) → Route
  bad_request : Complaint → Route

abbrev pub max_page : ℕ
max_page = 100000

-- `parsePage`, of the parameter `page`.
abbrev pub page_number : Option Text → Option ℕ
page_number none = some 1
page_number (some []) = some 1
page_number (some (c ∷ s)) =
    let n = read_digits 0 (c ∷ s) in
    if is_block_number (c ∷ s) && (leb 1 n && leb n max_page) then some n else none

abbrev pub is_space_code : ℕ → Bool
is_space_code c =
    (leb 9 c && leb c 13)
    || (leb 8192 c && leb c 8202)
    || any (λ d. eqb c d) (32 ∷ 160 ∷ 5760 ∷ 8232 ∷ 8233 ∷ 8239 ∷ 8287 ∷ 12288 ∷ 65279 ∷ [])

abbrev pub without_leading : Text → Text
without_leading [] = []
without_leading (c ∷ s) = let rest = without_leading s in if is_space_code c then rest else c ∷ s

abbrev unless_last_space : ℕ → Text → Text
unless_last_space c [] = if is_space_code c then [] else c ∷ []
unless_last_space c (d ∷ s) = c ∷ d ∷ s

abbrev pub without_trailing : Text → Text
without_trailing [] = []
without_trailing (c ∷ s) = unless_last_space c (without_trailing s)

-- The parameter, or an empty text, trimmed.
abbrev pub trimmed : Option Text → Text
trimmed none = []
trimmed (some s) = without_trailing (without_leading s)

abbrev pub font_files : List Text
font_files =
    char_codes "inter-latin-wght-normal.woff2"
    ∷ char_codes "jetbrains-mono-latin-400-normal.woff2"
    ∷ []

abbrev pub activity_filters : List Text
activity_filters =
    char_codes "agreement"
    ∷ char_codes "dispute"
    ∷ char_codes "message"
    ∷ char_codes "registration"
    ∷ char_codes "slash"
    ∷ []

abbrev pub one_of : Text → List Text → Bool
one_of s texts = any (λ t. t == s) texts

abbrev pub unless_empty : Text → Option Text
unless_empty [] = none
unless_empty (c ∷ s) = some (c ∷ s)

abbrev pub is_parameter : Option Text → String → Bool
is_parameter none value = false
is_parameter (some s) value = s == char_codes value

-- A page number, or the complaint that it is none.
abbrev pub with_page : Option ℕ → (ℕ → Route) → Route
with_page none route = bad_request bad_page
with_page (some page) route = route page

abbrev pub unless_undecodable : Text → (Text → Route) → Option Text → Route
unless_undecodable segment route none = bad_request (undecodable segment)
unless_undecodable segment route (some raw) = route raw

module _ (is_address : Text → Bool) (decode_segment : Text → Option Text)
    (parameter : String → Option Text) where
  abbrev pub parse_activity : Route
  parse_activity =
      let agent = trimmed (parameter "agent") in
      let kind = trimmed (parameter "kind") in
      if not (is_empty agent) && not (is_address agent)
      then bad_request (not_address agent)
      else if not (is_empty kind) && not (one_of kind activity_filters)
      then bad_request (not_kind kind)
      else with_page (page_number (parameter "page"))
          (activity (unless_empty agent) (unless_empty kind))

  abbrev pub with_decoded : Text → (Text → Route) → Route
  with_decoded segment route = unless_undecodable segment route (decode_segment segment)

  abbrev pub block_route : Text → Option BlockRef → Route
  block_route raw none = bad_request (not_block_ref raw)
  block_route raw (some ref) =
      block ref (if is_parameter (parameter "tab") "events" then events else extrinsics)

  abbrev pub extrinsic_route : Text → Text → Option BlockRef → Route
  extrinsic_route raw raw_index none = bad_request (not_block_ref raw)
  extrinsic_route raw raw_index (some ref) =
      if is_block_number raw_index
      then extrinsic ref (read_digits 0 raw_index)
      else bad_request (not_index raw_index)

  abbrev pub account_route : Text → ℕ → Route
  account_route address page =
      if is_address address
      then account address
          (if is_parameter (parameter "tab") "activity" then agent_activity else signed) page
      else bad_request (not_address address)

  abbrev pub route_of_one : Text → Route
  route_of_one head =
      if head == char_codes "activity"
      then parse_activity
      else if head == char_codes "search"
      then search (trimmed (parameter "q"))
      else if head == char_codes "chrome.css"
      then chrome
      else if head == char_codes "favicon.svg"
      then favicon
      else if head == char_codes "blocks"
      then with_page (page_number (parameter "page")) blocks
      else not_found

  abbrev pub route_of_two : Text → Text → Route
  route_of_two head first =
      if head == char_codes "fonts"
      then if one_of first font_files then font first else not_found
      else if head == char_codes "block"
      then with_decoded first (λ raw. block_route raw (parse_block_ref raw))
      else if head == char_codes "account"
      then with_decoded first
          (λ address. with_page (page_number (parameter "page")) (account_route address))
      else not_found

  abbrev pub route_of_three : Text → Text → Text → Route
  route_of_three head first second =
      if head == char_codes "extrinsic"
      then with_decoded first (λ raw.
        with_decoded second (λ raw_index. extrinsic_route raw raw_index (parse_block_ref raw)))
      else not_found

  -- `parseRoute`, by the number of segments that its guards ask for.
  unfoldable pub parse_route : List Text → Route
  parse_route [] = home
  parse_route (head ∷ []) = route_of_one head
  parse_route (head ∷ first ∷ []) = route_of_two head first
  parse_route (head ∷ first ∷ second ∷ []) = route_of_three head first second
  parse_route _ = not_found
