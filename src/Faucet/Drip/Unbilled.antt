-- ===== src/Faucet/Drip/Unbilled.antt =====
-- A request that gets no drip keeps its allowance.
use scalar_commons_v.Base.{
  ℕ, ◌≤◌, arith, ◌≡◌, refl, ap, Bool, true, false, Option, none, some, String, Bool-cases, inl, inr,
}
use scalar_commons_v.Base.Results.{Result, ok, err}
use scalar_commons_v.Faucet.RateLimiter.{
  RateLimiter, RateLimitScope, RateLimitDecision, allowed, refused, try_acquire, release,
}
use scalar_commons_v.Faucet.RateLimiter.Undo.{try_acquire-release}
use scalar_commons_v.Faucet.Drip.{
  FaucetService, DripResult, dripped, TransferReceipt, Shared, is_insolvent, settle, pay, fund,
  admit, on_address, drip,
}

abbrev pub is_dripped : DripResult → Bool
is_dripped (dripped address amount receipt) = true
is_dripped _ = false

-- No other request runs meanwhile.
abbrev pub alone : {W : Type 0} → Shared W → Shared W
alone shared = shared

-- From `now` on the limiters decide alike.
abbrev pub DecidesAlike : ℕ → RateLimiter → RateLimiter → Type 0
DecidesAlike now l m =
    (a i : String) (later : ℕ)
    → now ≤ later
    → (try_acquire l a i later).1 ≡ (try_acquire m a i later).1

refused_unchanged :
    (l l' : RateLimiter) (address from : String) (now retry : ℕ) (scope : RateLimitScope)
    → try_acquire l address from now ≡ (l', refused scope retry)
    → l' ≡ l
unfolding try_acquire
refused_unchanged l l' address from now retry scope e = ground arith

module _ {W : Type 0} (s : FaucetService W) (now : ℕ) (before : RateLimiter) where
  settle_lem :
      (address from : String) (l : RateLimiter) (paid : W × Result String TransferReceipt)
      → DecidesAlike now (release l address from) before
      → is_dripped (settle s address from l paid).1 ≡ false
      → DecidesAlike now (settle s address from l paid).0.0 before
  settle_lem address from l (w, ok receipt) h e = cc
  settle_lem address from l (w, err reason) h e = h

  fund_lem :
      (address from : String) (l : RateLimiter) (w : W) (free : Option ℕ)
      → DecidesAlike now (release l address from) before
      → is_dripped (fund s address from alone (l, w) free).1 ≡ false
      → DecidesAlike now (fund s address from alone (l, w) free).0.0 before
  unfolding fund pay
  fund_lem address from l w none h e = h
  fund_lem address from l w (some free) h e = elim (Bool-cases (is_insolvent s free)) [
    | inl bad ↦ rw bad h
    | inr good ↦
        rw good
          (settle_lem address from l (s.chain.transfer w address s.drip_amount) h (rw good at e))
  ]

  admit_lem :
      (address from : String) (w : W) (d : RateLimiter × RateLimitDecision)
      → try_acquire before address from now ≡ d
      → is_dripped (admit s address from alone alone w d).1 ≡ false
      → DecidesAlike now (admit s address from alone alone w d).0.0 before
  admit_lem address from w (l, refused scope retry) e h = λ a i later le.
      ap (λ m. (try_acquire m a i later).1)
        (refused_unchanged before l address from now retry scope e)
  admit_lem address from w (l, allowed) e h =
      fund_lem address from l w (s.chain.free_balance w s.chain.faucet_address)
        (try_acquire-release before l address from now e) h

  on_address_lem :
      (from : String) (w : W) (o : Option String)
      → is_dripped (on_address s from now alone alone (before, w) o).1 ≡ false
      → DecidesAlike now (on_address s from now alone alone (before, w) o).0.0 before
  on_address_lem from w none h = λ a i later le. refl
  on_address_lem from w (some address) h =
      admit_lem address from w (try_acquire before address from now) refl h

-- A request that ends without a drip, for whatever reason, costs no allowance: run on its own, it leaves
-- limiters that decide every later request, of any address and IP, as if it had not come.
pub drip-DecidesAlike :
    {W : Type 0} (s : FaucetService W) (raw from : String) (now : ℕ) (l : RateLimiter) (w : W)
    → is_dripped (drip s raw from now alone alone (l, w)).1 ≡ false
    → DecidesAlike now (drip s raw from now alone alone (l, w)).0.0 l
unfolding drip
drip-DecidesAlike s raw from now l w = on_address_lem s now l from w (s.chain.normalize_address raw)
