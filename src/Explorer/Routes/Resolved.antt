-- ===== src/Explorer/Routes/Resolved.antt =====
-- The links that the explorer writes, read by its own router.
use scalar_commons_v.Base.{
  ℕ, ◌+◌, ◌≤◌, ◌≡◌, refl, ap, arith, Bool, true, false, not, ◌&&◌, Option, none, some, [], ◌∷◌,
  ◌++◌, leb, eqb, length, Text, IsDigits, is_digit, decimal, read-decimal, decimal_from-IsDigits,
  decimal_from-ne-nil, char_codes, bytes_keys, ◌<◌,
}
use scalar_commons_v.Explorer.Links.{
  BlockRef, number, hash, is_empty, max_block_number, max_safe_integer, every, is_block_number,
  is_hex_digit, is_hash_64, low_hex_text, parse_block_ref, block_ref_segment, split_slash, segments,
  block_path, extrinsic_path,
}
use scalar_commons_v.Explorer.Routes.{block, extrinsic, extrinsics, parse_route}

-- A reference that the chain can have: a 32-bit number, or a hash in lower case.
abbrev pub IsBlockRef : BlockRef → Type 0
IsBlockRef (number n) = n ≤ max_block_number
IsBlockRef (hash h) = (is_hash_64 h ≡ true) × (low_hex_text h ≡ h)

-- Neither a slash nor a percent sign.
abbrev pub is_unreserved : ℕ → Bool
is_unreserved c = not (eqb c 47) && not (eqb c 37)

every-IsDigits : (s : Text) → IsDigits s → every is_digit s ≡ true
every-IsDigits [] h = refl
every-IsDigits (c ∷ s) (h, hs) = rw (h, every-IsDigits s hs) refl

every_mono :
    (p q : ℕ → Bool) (s : Text)
    → ((c : ℕ) → p c ≡ true → q c ≡ true)
    → every p s ≡ true
    → every q s ≡ true
every_mono p q [] f h = refl
every_mono p q (c ∷ s) f h = ground (arith, h, f c, every_mono p q s f)

is_block_number-decimal : (n : ℕ) → is_block_number (decimal n) ≡ true
is_block_number-decimal n =
    number_of (decimal n) (decimal_from-ne-nil (n + 1) n (omega arith))
      (every-IsDigits (decimal n) (decimal_from-IsDigits (n + 1) n))
  where
    number_of : (s : Text) → 0 < length s → every is_digit s ≡ true → is_block_number s ≡ true
    number_of [] h h' = absurd (omega (arith, h))
    number_of (c ∷ s) h h' = h'

digit-is_unreserved : (c : ℕ) → is_digit c ≡ true → is_unreserved c ≡ true
digit-is_unreserved c h = ground (arith, h)

decimal-is_unreserved : (n : ℕ) → every is_unreserved (decimal n) ≡ true
decimal-is_unreserved n =
    every_mono is_digit is_unreserved (decimal n) digit-is_unreserved
      (every-IsDigits (decimal n) (decimal_from-IsDigits (n + 1) n))

hex-is_unreserved : (c : ℕ) → is_hex_digit c ≡ true → is_unreserved c ≡ true
hex-is_unreserved c h = ground (arith, h)

hash-is_unreserved : (h : Text) → is_hash_64 h ≡ true → every is_unreserved h ≡ true
hash-is_unreserved [] e = refl
hash-is_unreserved (c ∷ []) e = absurd (ground (arith, e))
hash-is_unreserved (c ∷ d ∷ s) e =
    let digits : every is_hex_digit s ≡ true = ground (arith, e) in
    ground (arith, e, every_mono is_hex_digit is_unreserved s hex-is_unreserved digits)

hash-not_number : (h : Text) → is_hash_64 h ≡ true → is_block_number h ≡ false
hash-not_number [] e = refl
hash-not_number (c ∷ []) e = absurd (ground (arith, e))
hash-not_number (c ∷ d ∷ s) e = ground (arith, e)

-- A reference that is written into a link is read back.
parse_block_ref-block_ref_segment :
    (ref : BlockRef) → IsBlockRef ref → parse_block_ref (block_ref_segment ref) ≡ some ref
unfolding parse_block_ref
parse_block_ref-block_ref_segment (number n) h =
    let safe : leb n max_safe_integer ≡ true = ground (arith, h) in
    let low : leb n max_block_number ≡ true = ground (arith, h) in
    rw (is_block_number-decimal n, read-decimal n, safe, low) refl
parse_block_ref-block_ref_segment (hash h) (shape, low) =
    rw (hash-not_number h shape, shape) (ap (λ z. some (hash z)) low)

split_slash-word :
    (s t : Text)
    → every is_unreserved s ≡ true
    → split_slash (s ++ (47 ∷ t)) ≡ (s, (split_slash t).0 ∷ (split_slash t).1)
split_slash-word [] t h = refl
split_slash-word (c ∷ s) t h =
    let other : eqb c 47 ≡ false = ground (arith, h) in
    let rest : every is_unreserved s ≡ true = ground (arith, h) in
    rw (split_slash-word s t rest, other) refl

split_slash-last : (s : Text) → every is_unreserved s ≡ true → split_slash s ≡ (s, [])
split_slash-last [] h = refl
split_slash-last (c ∷ s) h =
    let other : eqb c 47 ≡ false = ground (arith, h) in
    let rest : every is_unreserved s ≡ true = ground (arith, h) in
    rw (split_slash-last s rest, other) refl

-- A text that makes one segment.
abbrev IsSegment : Text → Type 0
IsSegment s = (every is_unreserved s ≡ true) × (is_empty s ≡ false)

decimal-IsSegment : (n : ℕ) → IsSegment (decimal n)
decimal-IsSegment n = (decimal-is_unreserved n, not_empty (decimal n) (is_block_number-decimal n))
  where
    not_empty : (s : Text) → is_block_number s ≡ true → is_empty s ≡ false
    not_empty [] h = absurd (ground (arith, h))
    not_empty (c ∷ s) h = refl

block_ref_segment-IsSegment : (ref : BlockRef) → IsBlockRef ref → IsSegment (block_ref_segment ref)
block_ref_segment-IsSegment (number n) h = decimal-IsSegment n
block_ref_segment-IsSegment (hash h) (shape, low) = (hash-is_unreserved h shape, not_empty h shape)
  where
    not_empty : (s : Text) → is_hash_64 s ≡ true → is_empty s ≡ false
    not_empty [] h = absurd (ground (arith, h))
    not_empty (c ∷ s) h = refl

segments-block_path :
    (ref : BlockRef)
    → IsSegment (block_ref_segment ref)
    → segments (block_path ref) ≡ char_codes "block" ∷ block_ref_segment ref ∷ []
segments-block_path ref (plain, filled) =
    rw (split_slash-last (block_ref_segment ref) plain, filled) refl

segments-extrinsic_path :
    (ref : BlockRef) (i : ℕ)
    → IsSegment (block_ref_segment ref)
    → segments (extrinsic_path ref i)
      ≡ char_codes "extrinsic" ∷ block_ref_segment ref ∷ decimal i ∷ []
segments-extrinsic_path ref i (plain, filled) =
    let (plain', filled') = decimal-IsSegment i in
    rw
      (
        split_slash-word (block_ref_segment ref) (decimal i) plain,
        split_slash-last (decimal i) plain',
        filled,
        filled',
      )
      refl

-- A link to a block or to an extrinsic, of a block that is named by a 32-bit number or by a hash in lower case,
-- leads to the page of that block, or of that extrinsic in it, when it is requested without a query and
-- decoding leaves a segment without percent signs as it is.
pub parse_route-path :
    (is_address : Text → Bool) (decode_segment : Text → Option Text)
    (keeps : (s : Text) → every (λ c. not (eqb c 37)) s ≡ true → decode_segment s ≡ some s)
    (ref : BlockRef) (i : ℕ)
    → IsBlockRef ref
    → (parse_route is_address decode_segment (λ _. none) (segments (block_path ref))
        ≡ block ref extrinsics)
      × (parse_route is_address decode_segment (λ _. none) (segments (extrinsic_path ref i))
          ≡ extrinsic ref i)
unfolding parse_route
parse_route-path is_address decode_segment keeps ref i h =
    let fits = block_ref_segment-IsSegment ref h in
    let unescaped : (s : Text) → every is_unreserved s ≡ true → decode_segment s ≡ some s = λ s e.
      keeps s (every_mono is_unreserved (λ c. not (eqb c 37)) s (λ c e'. ground (arith, e')) e) in
    (
      rw
          (
            segments-block_path ref fits,
            unescaped (block_ref_segment ref) fits.0,
            parse_block_ref-block_ref_segment ref h,
          )
          refl,
      rw
          (
            segments-extrinsic_path ref i fits,
            unescaped (block_ref_segment ref) fits.0,
            unescaped (decimal i) (decimal-is_unreserved i),
            parse_block_ref-block_ref_segment ref h,
            is_block_number-decimal i,
            read-decimal i,
          )
          refl,
    )
