-- ===== src/Faucet/RateLimiter/Keys.antt =====
-- The prefixes keep the two key spaces of the log apart.
use text.Mathlib.Text.{starts_with}
use text.Mathlib.TextEquality.{starts_with_iff}
use text.Mathlib.TextLemmas.{cons-append, append_cancel_left}
use text.Mathlib.TextPositions.{starts_with-append}
use Prim.Native.Char.{code}
use scalar_commons_v.Base.{
  ℕ, ◌≡◌, ◌≢◌, sym, ap, ◌∙◌, String, arith, Bool-cases, inl, inr, ◌==◌, string_keys, false,
}
use scalar_commons_v.Faucet.RateLimiter.{RateLimiter, address, ip, key_of, window_of_key}

pub key_of-address_inj : (a b : String) → key_of address a ≡ key_of address b → a ≡ b
unfolding key_of
key_of-address_inj a b e = append_cancel_left "address:" a b e

pub key_of-ip_inj : (a b : String) → key_of ip a ≡ key_of ip b → a ≡ b
unfolding key_of
key_of-ip_inj a b e = append_cancel_left "ip:" a b e

abbrev first_code : String → ℕ
first_code String.[] = 0
first_code (String.◌∷◌ c s) = code c

pub key_of-address-ne-ip : (a i : String) → key_of address a ≢ key_of ip i
unfolding key_of
key_of-address-ne-ip a i e =
    let p = sym (cons-append "a" "ddress:" a) ∙ e ∙ cons-append "i" "p:" i in
    absurd (omega (arith, ap first_code p))

-- So `prune` ages each key by the window of its own scope.
pub window_of_key-address :
    (l : RateLimiter) (a : String) → window_of_key l (key_of address a) ≡ l.per_address.window_ms
unfolding window_of_key key_of
window_of_key-address l a = rw (starts_with-append "address:" a)

pub window_of_key-ip :
    (l : RateLimiter) (i : String) → window_of_key l (key_of ip i) ≡ l.per_ip.window_ms
unfolding window_of_key key_of
window_of_key-ip l i = elim (Bool-cases (starts_with (key_of ip i) "address:")) [
  | inl p ↦ let (rest, e) = (starts_with_iff _ _).0 p in absurd (key_of-address-ne-ip rest i e)
  | inr n ↦ rw n
]

-- Two keys of one scope are equal when the identifiers are; two keys of different scopes never.
pub key_of-address_eq : (a b : String) → (key_of address a == key_of address b) ≡ (a == b)
key_of-address_eq a b = ground (
  arith,
  string_keys.same_iff (key_of address a) (key_of address b),
  string_keys.same_iff a b,
  key_of-address_inj a b,
)

pub key_of-ip_eq : (a b : String) → (key_of ip a == key_of ip b) ≡ (a == b)
key_of-ip_eq a b = ground (
  arith,
  string_keys.same_iff (key_of ip a) (key_of ip b),
  string_keys.same_iff a b,
  key_of-ip_inj a b,
)

pub key_of-address_ip : (a i : String) → (key_of address a == key_of ip i) ≡ false
key_of-address_ip a i =
    ground (arith, string_keys.same_iff (key_of address a) (key_of ip i), key_of-address-ne-ip a i)

pub key_of-ip_address : (i a : String) → (key_of ip i == key_of address a) ≡ false
key_of-ip_address i a = ground (
  arith,
  string_keys.same_iff (key_of ip i) (key_of address a),
  λ (e : key_of ip i ≡ key_of address a). key_of-address-ne-ip a i (sym e),
)
