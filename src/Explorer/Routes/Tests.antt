-- ===== src/Explorer/Routes/Tests.antt =====
-- Requests and the pages they lead to.
use scalar_commons_v.Base.{
  ◌≡◌, refl, false, Option, none, some, String, [], ◌∷◌, Text, char_codes, arith, Bool,
  if◌then◌else◌, string_keys, ◌==◌,
}
use scalar_commons_v.Explorer.Links.{number, segments, block_path, extrinsic_path, parse_block_ref}
use scalar_commons_v.Explorer.Routes.{
  block, extrinsic, extrinsics, bad_request, not_block_ref, bad_page, home, parse_route,
}
use scalar_commons_v.Explorer.Routes.Resolved.{parse_route-path}

abbrev nobody : Text → Bool
nobody s = false

abbrev undecoded : Text → Option Text
undecoded s = some s

abbrev of_page : String → Option Text
of_page name = if name == "page" then some (char_codes "100001") else none

no_query : parse_route nobody undecoded (λ _. none) (segments (char_codes "/")) ≡ home
unfolding parse_route
no_query = refl

high_page : parse_route nobody undecoded of_page (char_codes "blocks" ∷ []) ≡ bad_request bad_page
unfolding parse_route
high_page = refl

too_high :
    parse_route nobody undecoded (λ _. none) (char_codes "block" ∷ char_codes "4294967296" ∷ [])
    ≡ bad_request (not_block_ref (char_codes "4294967296"))
unfolding parse_route parse_block_ref
too_high = refl

parse_route-path_example :
    (parse_route nobody undecoded (λ _. none) (segments (block_path (number 7)))
      ≡ block (number 7) extrinsics)
    × (parse_route nobody undecoded (λ _. none) (segments (extrinsic_path (number 7) 2))
        ≡ extrinsic (number 7) 2)
parse_route-path_example =
    parse_route-path nobody undecoded (λ s h. refl) (number 7) 2 (omega arith)
