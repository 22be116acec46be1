-- ===== src/Faucet/Server/Forged.antt =====
-- The client of a trusted proxy cannot choose the IP that it is billed to.
use Prim.Native.Char.{Char}
use scalar_commons_v.Base.{
  ◌≡◌, refl, ap, ◌∙◌, Bool, true, false, Option, none, some, String, List, [], ◌∷◌, ◌++◌, map, keep,
  Bool-cases, inl, inr,
}
use scalar_commons_v.Faucet.Server.{
  one, is_comma, is_space, split, trim_start, shut, trim_end, trim, is_given, last_or, last_entry,
  client_ip,
}

abbrev pub append : String → String → String
append String.[] t = t
append (String.◌∷◌ c s) t = String.◌∷◌ c (append s t)

-- No comma and no white space, as in an IP address.
abbrev pub IsPlain : String → Type 0
IsPlain String.[] = Unit
IsPlain (String.◌∷◌ c s) = (is_comma c ≡ false) × (is_space c ≡ false) × IsPlain s

split-IsPlain : (s : String) → IsPlain s → split s ≡ (s ∷ [])
split-IsPlain String.[] h = refl
split-IsPlain (String.◌∷◌ c s) (comma, space, h) = rw (comma, split-IsPlain s h) refl

trim_start-IsPlain : (s : String) → IsPlain s → trim_start s ≡ s
trim_start-IsPlain String.[] h = refl
trim_start-IsPlain (String.◌∷◌ c s) (comma, space, h) = rw space refl

shut_plain : (c : Char) (s : String) → shut c false s ≡ String.◌∷◌ c s
shut_plain c String.[] = refl
shut_plain c (String.◌∷◌ d s) = refl

trim_end-IsPlain : (s : String) → IsPlain s → trim_end s ≡ s
trim_end-IsPlain String.[] h = refl
trim_end-IsPlain (String.◌∷◌ c s) (comma, space, h) =
    rw (space, trim_end-IsPlain s h) (shut_plain c s)

trim-IsPlain : (s : String) → IsPlain s → trim s ≡ s
trim-IsPlain s h = ap trim_end (trim_start-IsPlain s h) ∙ trim_end-IsPlain s h

-- What is appended after a comma is the last piece.
Ends : String → String → Type 0
Ends s t = (x : String) × (xs : List String) × (split s ≡ (x ∷ (xs ++ (t ∷ []))))

Ends-cons :
    (c : Char) (s t : String) (comma : Bool)
    → is_comma c ≡ comma
    → Ends s t
    → Ends (String.◌∷◌ c s) t
unfolding Ends
Ends-cons c s t true h (x, xs, e) = (String.[], x ∷ xs, rw (h, e) refl)
Ends-cons c s t false h (x, xs, e) = (String.◌∷◌ c x, xs, rw (h, e) refl)

Ends-append : (s t : String) → split t ≡ (t ∷ []) → Ends (append s (append "," t)) t
unfolding Ends
Ends-append String.[] t e = (String.[], [], rw e refl)
Ends-append (String.◌∷◌ c s) t e =
    Ends-cons c (append s (append "," t)) t (is_comma c) refl (Ends-append s t e)

last_or-keep :
    (o : Option String) (xs : List String) (t : String)
    → is_given (trim t) ≡ true
    → last_or o (keep is_given (map trim (xs ++ (t ∷ [])))) ≡ some (trim t)
last_or-keep o [] t given = rw given refl
last_or-keep o (x ∷ xs) t given = elim (Bool-cases (is_given (trim x))) [
  | inl given_x ↦ rw given_x (last_or-keep (some (trim x)) xs t given)
  | inr empty_x ↦ rw empty_x (last_or-keep o xs t given)
]

last_entry-Ends :
    (s t : String) → is_given (trim t) ≡ true → Ends s t → last_entry s ≡ some (trim t)
unfolding last_entry Ends
last_entry-Ends s t given (x, xs, e) = rw e (last_or-keep none (x ∷ xs) t given)

-- Behind a trusted proxy, which appends a comma, a space and the peer that it saw to the header, the
-- request is billed to that peer, whatever header the client sent. The peer's name has no comma and no
-- white space and is not empty.
pub client_ip_appended :
    (forged : String) (c : Char) (s : String) (peer : Option String)
    → IsPlain (String.◌∷◌ c s)
    → client_ip
        (record {
          forwarded_for = one (append forged (append ", " (String.◌∷◌ c s)));
          remote_address = peer;
        })
        true
      ≡ String.◌∷◌ c s
unfolding client_ip
client_ip_appended forged c s peer plain =
    let ip = String.◌∷◌ c s in
    let trimmed = trim-IsPlain ip plain in
    rw
      (last_entry-Ends (append forged (append ", " ip)) (append " " ip) (ap is_given trimmed)
        (Ends-append forged (append " " ip) (rw (split-IsPlain ip plain) refl)))
      trimmed
