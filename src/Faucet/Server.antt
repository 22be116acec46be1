-- ===== src/Faucet/Server.antt =====
-- faucet/src/server.ts: the IP that a request is billed to (`clientIp`) and the answer to POST /drip.
-- Headers are strings, with JavaScript's `split`, `trim` and `filter` written out.
pub mod Forged
pub mod Paid
mod Tests
use Prim.Native.Char.{Char, code}
use scalar_commons_v.Base.{
  ℕ, ◌+◌, ◌/◌, Bool, true, false, not, ◌&&◌, ◌||◌, Option, none, some, String, List, [], ◌∷◌, map,
  leb, ltb, eqb, length, ◌++◌, if◌then◌else◌, keep,
}
use scalar_commons_v.Base.Results.{Result, ok, err}
use scalar_commons_v.Faucet.Drip.{
  FaucetService, Shared, drip, DripResult, dripped, invalid_address, rate_limited,
  insufficient_faucet_funds, transfer_failed,
}

-- `req.headers['x-forwarded-for']`: undefined, a string or an array.
pub data Header : Type 0 where
  missing : Header
  one : String → Header
  several : List String → Header

pub record Request : Type 0 where
  pub forwarded_for : Header
  pub remote_address : Option String

abbrev pub first_of : List String → Option String
first_of [] = none
first_of (x ∷ xs) = some x

abbrev pub raw_header : Header → Option String
raw_header missing = none
raw_header (one s) = some s
raw_header (several xs) = first_of xs

abbrev pub is_comma : Char → Bool
is_comma c = eqb (code c) 44

-- What `trim` removes: white space and line terminators.
abbrev pub is_space : Char → Bool
is_space c =
    let n = code c in
    (leb 9 n && leb n 13)
    || eqb n 32
    || eqb n 160
    || eqb n 5760
    || (leb 8192 n && leb n 8202)
    || eqb n 8232
    || eqb n 8233
    || eqb n 8239
    || eqb n 8287
    || eqb n 12288
    || eqb n 65279

abbrev pub on_first : Char → List String → List String
on_first c [] = String.◌∷◌ c String.[] ∷ []
on_first c (x ∷ xs) = String.◌∷◌ c x ∷ xs

-- `raw.split(',')`, which gives at least one piece.
abbrev pub split : String → List String
split String.[] = String.[] ∷ []
split (String.◌∷◌ c s) =
    let rest = split s in if is_comma c then String.[] ∷ rest else on_first c rest

abbrev pub trim_start : String → String
trim_start String.[] = String.[]
trim_start (String.◌∷◌ c s) = let rest = trim_start s in if is_space c then rest else String.◌∷◌ c s

abbrev pub shut : Char → Bool → String → String
shut c space (String.◌∷◌ d s) = String.◌∷◌ c (String.◌∷◌ d s)
shut c true String.[] = String.[]
shut c false String.[] = String.◌∷◌ c String.[]

abbrev pub trim_end : String → String
trim_end String.[] = String.[]
trim_end (String.◌∷◌ c s) = shut c (is_space c) (trim_end s)

abbrev pub trim : String → String
trim s = trim_end (trim_start s)

abbrev pub is_given : String → Bool
is_given String.[] = false
is_given (String.◌∷◌ c s) = true

abbrev pub last_or : Option String → List String → Option String
last_or o [] = o
last_or o (x ∷ xs) = last_or (some x) xs

-- `entries[entries.length - 1]`, of the entries that are not empty.
unfoldable pub last_entry : String → Option String
last_entry raw = last_or none (keep is_given (map trim (split raw)))

abbrev pub last_hop : Option String → Option String
last_hop none = none
last_hop (some raw) = last_entry raw

abbrev pub or_else : Option String → String → String
or_else none s = s
or_else (some t) s = t

unfoldable pub client_ip : Request → Bool → String
client_ip req trust_proxy =
    let socket = or_else req.remote_address "unknown" in
    if trust_proxy then or_else (last_hop (raw_header req.forwarded_for)) socket else socket

-- `STATUS_BY_CODE`, and 200 for a drip.
abbrev pub status_by_code : DripResult → ℕ
status_by_code (dripped address amount receipt) = 200
status_by_code invalid_address = 400
status_by_code (rate_limited scope retry) = 429
status_by_code insufficient_faucet_funds = 503
status_by_code transfer_failed = 502

-- Milliseconds in whole seconds, rounded up.
abbrev pub ceil_seconds : ℕ → ℕ
ceil_seconds ms = (ms + 999) / 1000

abbrev pub retry_after : DripResult → Option ℕ
retry_after (dripped address amount receipt) = none
retry_after invalid_address = none
retry_after (rate_limited scope retry) = some (ceil_seconds retry)
retry_after insufficient_faucet_funds = none
retry_after transfer_failed = none

-- What `sendJson` is given; without a result it is a BAD_REQUEST.
pub record Response : Type 0 where
  pub status : ℕ
  pub header : Option ℕ
  pub result : Option DripResult

abbrev pub bad_request : Response
bad_request = record { status = 400; header = none; result = none }

abbrev pub respond : DripResult → Response
respond r = record { status = status_by_code r; header = retry_after r; result = some r }

pub data BadRequest : Type 0 where
  too_large not_json : BadRequest

-- A body that is an object, by its address; an object whose address is missing (also the empty body) or
-- no string, which `normalizeAddress` refuses; or another JSON value.
pub data RequestBody : Type 0 where
  object : (address : String) → RequestBody
  anonymous : RequestBody
  other : RequestBody

abbrev pub joined : List ℕ → Result BadRequest (List ℕ) → Result BadRequest (List ℕ)
joined chunk (err e) = err e
joined chunk (ok bytes) = ok (chunk ++ bytes)

-- The chunks of a body, which may have `max` bytes in all, of which `size` were read.
unfoldable pub read_chunks : ℕ → ℕ → List (List ℕ) → Result BadRequest (List ℕ)
read_chunks max_bytes size [] = ok []
read_chunks max_bytes size (chunk ∷ chunks) =
    let rest = read_chunks max_bytes (size + length chunk) chunks in
    if ltb max_bytes (size + length chunk) then err too_large else joined chunk rest

abbrev pub or_not_json : Option RequestBody → Result BadRequest RequestBody
or_not_json none = err not_json
or_not_json (some body) = ok body

-- `readJsonBody`, for the JSON parser as a parameter.
abbrev pub parsed :
    (List ℕ → Option RequestBody) → Result BadRequest (List ℕ) → Result BadRequest RequestBody
parsed parse (err e) = err e
parsed parse (ok bytes) = or_not_json (parse bytes)

module _ {W : Type 0} (s : FaucetService W) (trust_proxy : Bool) (now : ℕ) where
  abbrev pub answer : Shared W × DripResult → Shared W × Response
  answer (shared, result) = (shared, respond result)

  abbrev pub on_body :
      Request
      → (first second : Shared W → Shared W) → Shared W
      → Result BadRequest RequestBody
      → Shared W × Response
  on_body req first second shared (err e) = (shared, bad_request)
  on_body req first second shared (ok other) = (shared, bad_request)
  on_body req first second shared (ok anonymous) = answer (shared, invalid_address)
  on_body req first second shared (ok (object raw)) =
      answer (drip s raw (client_ip req trust_proxy) now first second shared)

  unfoldable pub handle_drip :
      ℕ
      → (List ℕ → Option RequestBody)
      → Request
      → List (List ℕ)
      → (first second : Shared W → Shared W) → Shared W
      → Shared W × Response
  handle_drip max_bytes parse req chunks first second shared =
      on_body req first second shared (parsed parse (read_chunks max_bytes 0 chunks))
