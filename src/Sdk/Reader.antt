-- ===== src/Sdk/Reader.antt =====
-- The cursor `Reader` of sdk/src/messaging/envelope.ts. A reader is a function of the bytes after
-- the cursor, and returns those that are left.
use mathlib.Core.Path.{◌≡◌, refl, ap, ◌∙◌}
use scalar_commons_v.Base.{
  ℕ, ◌^◌, ◌<◌, [], ◌∷◌, ◌++◌, length, take, drop, ltb, if◌then◌else◌, arith, take-append,
  drop-append, length-append, take-append-drop, length-take,
}
use scalar_commons_v.Base.Results.{Result, ok, err}
use scalar_commons_v.Sdk.Bytes.{Bytes, le_value, le_bytes, length-le_bytes, le_value-le_bytes}

-- Why decoding threw.
pub data Malformed : Type 0 where
  too_short unknown_kind bad_option_tag bad_length bad_body_tag trailing_bytes : Malformed

abbrev pub Reader : Type 0 → Type 0
Reader A = Bytes → Result Malformed (A × Bytes)

-- Shut, so that the laws below find its parts.
infixl 5 ◌>>=◌
unfoldable pub ◌>>=◌ : {A B : Type 0} → Reader A → (A → Reader B) → Reader B
◌>>=◌ first next bytes = elim (first bytes) [ err e ↦ err e | ok (a, left) ↦ next a left ]

unfoldable pub done : {A : Type 0} → A → Reader A
done a bytes = ok (a, bytes)

unfoldable pub refuse : {A : Type 0} → Malformed → Reader A
refuse e bytes = err e

unfoldable pub take_bytes : ℕ → Reader Bytes
take_bytes n bytes = if ltb (length bytes) n then err too_short else ok (take n bytes, drop n bytes)

unfoldable pub u8 : Reader ℕ
u8 [] = err too_short
u8 (b ∷ bytes) = ok (b, bytes)

unfoldable pub u32 : Reader ℕ
u32 = do b ← take_bytes 4; done (le_value b)

unfoldable pub u64 : Reader ℕ
u64 = do b ← take_bytes 8; done (le_value b)

module _ {A B : Type 0} (first : Reader A) (next : A → Reader B) where
  -- One step of a reader that succeeds.
  pub bind_ok :
      {a : A} {bytes left : Bytes}
      → first bytes ≡ ok (a, left)
      → (first >>= next) bytes ≡ next a left
  unfolding ◌>>=◌
  bind_ok e = rw (e, ◌>>=◌)

  -- A reader that succeeds does so by its steps.
  pub bind-eq-ok :
      {b : B} {bytes left : Bytes}
      → (first >>= next) bytes ≡ ok (b, left)
      → (a : A) × (mid : Bytes) × (first bytes ≡ ok (a, mid)) × (next a mid ≡ ok (b, left))
  unfolding ◌>>=◌
  bind-eq-ok {b} {bytes} {left} e = split (first bytes) refl e
    where
      split :
          (r : Result Malformed (A × Bytes))
          → first bytes ≡ r
          → (elim r [ err e ↦ err e | ok (a, left) ↦ next a left ]) ≡ ok (b, left)
          → (a : A) × (mid : Bytes) × (first bytes ≡ ok (a, mid)) × (next a mid ≡ ok (b, left))
      split (err x) here there = cc
      split (ok (a, mid)) here there = (a, mid, here, there)

pub take_bytes-append :
    (n : ℕ) (xs left : Bytes) → length xs ≡ n → take_bytes n (xs ++ left) ≡ ok (xs, left)
unfolding take_bytes
take_bytes-append n xs left h =
    rw (← h) (ground (arith, length-append xs left, take-append xs left, drop-append xs left))

pub u32-append : (n : ℕ) (left : Bytes) → n < 2 ^ 32 → u32 (le_bytes 4 n ++ left) ≡ ok (n, left)
unfolding u32 done
u32-append n left h =
    bind_ok (take_bytes 4) _ (take_bytes-append 4 (le_bytes 4 n) left (length-le_bytes 4 n))
    ∙ ap (λ v. ok (v, left)) (le_value-le_bytes 4 n h)

pub u64-append : (n : ℕ) (left : Bytes) → n < 2 ^ 64 → u64 (le_bytes 8 n ++ left) ≡ ok (n, left)
unfolding u64 done
u64-append n left h =
    bind_ok (take_bytes 8) _ (take_bytes-append 8 (le_bytes 8 n) left (length-le_bytes 8 n))
    ∙ ap (λ v. ok (v, left)) (le_value-le_bytes 8 n h)

-- What a read that succeeds took off the front.
pub take_bytes-eq-ok :
    (n : ℕ) (bytes : Bytes) {xs left : Bytes}
    → take_bytes n bytes ≡ ok (xs, left)
    → (bytes ≡ xs ++ left) × (length xs ≡ n)
unfolding take_bytes
take_bytes-eq-ok n bytes e = ground (arith, take-append-drop n bytes, length-take n bytes)

pub u8-eq-ok : (bytes : Bytes) {b : ℕ} {left : Bytes} → u8 bytes ≡ ok (b, left) → bytes ≡ b ∷ left
unfolding u8
u8-eq-ok [] e = cc
u8-eq-ok (b ∷ bytes) e = cc
