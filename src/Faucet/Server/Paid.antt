-- ===== src/Faucet/Server/Paid.antt =====
-- An answer of 200 to POST /drip is a drip that passed every guard.
use scalar_commons_v.Base.{
  ℕ, ◌+◌, ◌≤◌, ◌≡◌, refl, sym, ap, ◌∙◌, arith, Bool, Option, none, some, String, List, [], ◌∷◌,
  length, length-append, ltb, Bool-cases, inl, inr,
}
use scalar_commons_v.Base.Results.{Result, ok, err, ok_inj}
use scalar_commons_v.Faucet.RateLimiter.{RateLimiter}
use scalar_commons_v.Faucet.Drip.{
  TransferReceipt, FaucetService, Shared, drip, DripResult, dripped, invalid_address, rate_limited,
  insufficient_faucet_funds, transfer_failed,
}
use scalar_commons_v.Faucet.Drip.Guards.{IsEntitled, drip-IsEntitled}
use scalar_commons_v.Faucet.Server.{
  Request, client_ip, status_by_code, BadRequest, too_large, RequestBody, object, anonymous, other,
  joined, read_chunks, or_not_json, parsed, on_body, handle_drip,
}

-- The body was an object with an address and not too large, and the drip of that address passed every guard.
pub record IsPaid {W : Type 0} (s : FaucetService W) (ip : String) (now : ℕ)
    (first second : Shared W → Shared W) (shared : Shared W) (max_bytes : ℕ)
    (parse : List ℕ → Option RequestBody) (chunks : List (List ℕ)) : Type 0 where
  pub bytes : List ℕ
  pub complete : read_chunks max_bytes 0 chunks ≡ ok bytes
  pub bounded : length bytes ≤ max_bytes
  pub raw : String
  pub asked : parse bytes ≡ some (object raw)
  pub address : String
  pub amount : ℕ
  pub receipt : TransferReceipt
  pub entitled : IsEntitled s raw ip now first second shared address amount receipt

joined_ok :
    (chunk bytes : List ℕ) (r : Result BadRequest (List ℕ))
    → joined chunk r ≡ ok bytes
    → (later : List ℕ) × (r ≡ ok later) × (length bytes ≡ length chunk + length later)
joined_ok chunk bytes (err e) h = cc
joined_ok chunk bytes (ok later) h =
    (later, refl, ap length (sym (ok_inj h)) ∙ length-append chunk later)

refused_ok :
    {C : Type 0} {e : BadRequest} {bytes : List ℕ}
    → ◌≡◌ {A = Result BadRequest (List ℕ)} (err e) (ok bytes)
    → C
refused_ok h = cc

length-read_chunks :
    (max_bytes size : ℕ) (chunks : List (List ℕ)) (bytes : List ℕ)
    → size ≤ max_bytes
    → read_chunks max_bytes size chunks ≡ ok bytes
    → size + length bytes ≤ max_bytes
unfolding read_chunks
length-read_chunks max_bytes size [] bytes le h =
    let same = ap length (ok_inj h) in omega (arith, le, same)
length-read_chunks max_bytes size (chunk ∷ chunks) bytes le h =
    elim (Bool-cases (ltb max_bytes (size + length chunk))) [
      | inl high ↦ refused_ok {e = too_large} (sym (rw high refl) ∙ h)
      | inr low ↦
          let (later, e, total) =
            joined_ok chunk bytes (read_chunks max_bytes (size + length chunk) chunks)
              (sym (rw low refl) ∙ h) in
          let fits =
            length-read_chunks max_bytes (size + length chunk) chunks later (ground (arith, low))
              e in
          omega (arith, fits, total)
    ]

dripped-status :
    (r : DripResult)
    → status_by_code r ≡ 200
    → (a : String) × (n : ℕ) × (t : TransferReceipt) × (r ≡ dripped a n t)
dripped-status (dripped a n t) h = (a, n, t, refl)
dripped-status invalid_address h = absurd (omega (arith, h))
dripped-status (rate_limited scope retry) h = absurd (omega (arith, h))
dripped-status insufficient_faucet_funds h = absurd (omega (arith, h))
dripped-status transfer_failed h = absurd (omega (arith, h))

module _ {W : Type 0} (s : FaucetService W) (trust_proxy : Bool) (now max_bytes : ℕ)
    (parse : List ℕ → Option RequestBody) (req : Request) (chunks : List (List ℕ))
    (first second : Shared W → Shared W) (l : RateLimiter) (w : W) where
  parsed-IsPaid :
      (bytes : List ℕ) (body : Option RequestBody)
      → read_chunks max_bytes 0 chunks ≡ ok bytes
      → parse bytes ≡ body
      → (on_body s trust_proxy now req first second (l, w) (or_not_json body)).1.status ≡ 200
      → IsPaid s (client_ip req trust_proxy) now first second (l, w) max_bytes parse chunks
  parsed-IsPaid bytes none r p h = absurd (omega (arith, h))
  parsed-IsPaid bytes (some anonymous) r p h = absurd (omega (arith, h))
  parsed-IsPaid bytes (some other) r p h = absurd (omega (arith, h))
  parsed-IsPaid bytes (some (object raw)) r p h =
      let ip = client_ip req trust_proxy in
      let (a, n, t, e) = dripped-status (drip s raw ip now first second (l, w)).1 h in
      record {
        bytes = bytes;
        complete = r;
        bounded = omega (arith, length-read_chunks max_bytes 0 chunks bytes (omega arith) r);
        raw = raw;
        asked = p;
        address = a;
        amount = n;
        receipt = t;
        entitled = drip-IsEntitled s raw ip now first second l w a n t e;
      }

  read-IsPaid :
      (read : Result BadRequest (List ℕ))
      → read_chunks max_bytes 0 chunks ≡ read
      → (on_body s trust_proxy now req first second (l, w) (parsed parse read)).1.status ≡ 200
      → IsPaid s (client_ip req trust_proxy) now first second (l, w) max_bytes parse chunks
  read-IsPaid (err e) r h = absurd (omega (arith, h))
  read-IsPaid (ok bytes) r h = parsed-IsPaid bytes (parse bytes) r refl h

  -- An answer of 200 means that the body was an object with an address, within the size limit, and that
  -- the drip to that address passed every guard, on the budget of the client's IP.
  pub handle_drip-IsPaid :
      (handle_drip s trust_proxy now max_bytes parse req chunks first second (l, w)).1.status ≡ 200
      → IsPaid s (client_ip req trust_proxy) now first second (l, w) max_bytes parse chunks
  unfolding handle_drip
  handle_drip-IsPaid h = read-IsPaid (read_chunks max_bytes 0 chunks) refl h
