-- ===== src/Sdk/Bytes.antt =====
-- Byte strings of sdk/src/messaging/envelope.ts: little-endian integers and the cursor `Reader`.
-- A `Uint8Array` is a list of numbers below 256. A reader is a function of the bytes after its
-- cursor, so `at` is what was taken off the front.
use mathlib.Core.Path.{◌≡◌, refl, ap, ap₂, ◌∙◌}
use native.Mathlib.Nat.{pow-suc}
use scalar_commons_v.Base.{
  ℕ, zero, suc, ◌+◌, ◌*◌, ◌/◌, ◌%◌, ◌^◌, ◌<◌, List, [], ◌∷◌, ◌++◌, length, All, arith,
}

abbrev pub Bytes : Type 0
Bytes = List ℕ

abbrev pub IsBytes : Bytes → Type 0
IsBytes = All (λ b. b < 256)

-- `DataView.setUint32(0, n, true)` and `setBigUint64`: the low byte first.
unfoldable pub le_bytes : ℕ → ℕ → Bytes
le_bytes zero n = []
le_bytes (suc k) n = (n % 256) ∷ le_bytes k (n / 256)

unfoldable pub le_value : Bytes → ℕ
le_value [] = 0
le_value (b ∷ bs) = b + 256 * le_value bs

pub length-le_bytes : (k n : ℕ) → length (le_bytes k n) ≡ k
unfolding le_bytes
length-le_bytes zero n = refl
length-le_bytes (suc k) n = ap suc (length-le_bytes k (n / 256))

pub le_value-le_bytes : (k n : ℕ) → n < 256 ^ k → le_value (le_bytes k n) ≡ n
unfolding le_value le_bytes
le_value-le_bytes zero n h = omega arith
le_value-le_bytes (suc k) n h =
    omega (arith, le_value-le_bytes k (n / 256) (omega (arith, pow-suc 256 k)))

pub le_bytes-le_value : (bs : Bytes) → IsBytes bs → le_bytes (length bs) (le_value bs) ≡ bs
unfolding le_value le_bytes
le_bytes-le_value [] h = refl
le_bytes-le_value (b ∷ bs) (h, hs) =
    let high : (b + 256 * le_value bs) / 256 ≡ le_value bs = omega arith in
    ap₂ ◌∷◌ (omega arith) (ap (le_bytes (length bs)) high ∙ le_bytes-le_value bs hs)

pub le_value-lt : (bs : Bytes) → IsBytes bs → le_value bs < 256 ^ length bs
unfolding le_value
le_value-lt [] h = omega arith
le_value-lt (b ∷ bs) (h, hs) = omega (arith, le_value-lt bs hs, pow-suc 256 (length bs))

pub IsBytes-append : (bs cs : Bytes) → IsBytes bs → IsBytes cs → IsBytes (bs ++ cs)
IsBytes-append [] cs h k = k
IsBytes-append (b ∷ bs) cs (h, hs) k = (h, IsBytes-append bs cs hs k)

pub IsBytes-append_left : (bs cs : Bytes) → IsBytes (bs ++ cs) → IsBytes bs
IsBytes-append_left [] cs h = tt
IsBytes-append_left (b ∷ bs) cs (h, hs) = (h, IsBytes-append_left bs cs hs)

pub IsBytes-append_right : (bs cs : Bytes) → IsBytes (bs ++ cs) → IsBytes cs
IsBytes-append_right [] cs h = h
IsBytes-append_right (b ∷ bs) cs (h, hs) = IsBytes-append_right bs cs hs
