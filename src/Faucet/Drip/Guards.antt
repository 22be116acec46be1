-- ===== src/Faucet/Drip/Guards.antt =====
-- No funds move before every guard has passed.
use scalar_commons_v.Base.{
  ℕ, ◌+◌, ◌≤◌, ◌≡◌, arith, refl, ap, false, Option, none, some, String, Bool-cases, inl, inr,
}
use mathlib.Core.Path.{subst}
use scalar_commons_v.Base.Results.{Result, ok, err}
use scalar_commons_v.Faucet.RateLimiter.{
  RateLimiter, RateLimitDecision, allowed, refused, try_acquire,
}
use scalar_commons_v.Faucet.Drip.{
  FaucetService, dripped, insufficient_faucet_funds, TransferReceipt, Shared, is_insolvent, settle,
  pay, fund, admit, on_address, drip,
}

-- What was true when a drip was paid.
pub record IsEntitled {W : Type 0} (s : FaucetService W) (raw from : String) (now : ℕ)
    (first second : Shared W → Shared W) (before : Shared W) (address : String) (amount : ℕ)
    (receipt : TransferReceipt) : Type 0 where
  pub normal : s.chain.normalize_address raw ≡ some address
  pub acquired : RateLimiter
  pub within_limits : try_acquire before.0 address from now ≡ (acquired, allowed)
  pub free : ℕ
  pub balance :
      s.chain.free_balance (first (acquired, before.1)).1 s.chain.faucet_address ≡ some free
  pub solvent : amount + (s.reserve + s.chain.existential_deposit) ≤ free
  pub configured : amount ≡ s.drip_amount
  pub paid :
      (s.chain.transfer (second (first (acquired, before.1))).1 address amount).1 ≡ ok receipt

paid_inj :
    (a b : String) (m n : ℕ) (q r : TransferReceipt)
    → dripped a m q ≡ dripped b n r
    → (a ≡ b) × (m ≡ n) × (q ≡ r)
paid_inj a b m n q r e = (cc, cc, cc)

not_dripped :
    {address : String} {amount : ℕ} {receipt : TransferReceipt}
    → insufficient_faucet_funds ≡ dripped address amount receipt
    → ⊥
not_dripped e = cc

module _ {W : Type 0} (s : FaucetService W) where
  solvent_lem :
      (free : ℕ)
      → is_insolvent s free ≡ false
      → s.drip_amount + (s.reserve + s.chain.existential_deposit) ≤ free
  unfolding is_insolvent
  solvent_lem free h = ground arith

  settle-dripped :
      (a from : String) (l : RateLimiter) (out : W × Result String TransferReceipt)
      (address : String) (amount : ℕ) (receipt : TransferReceipt)
      → (settle s a from l out).1 ≡ dripped address amount receipt
      → (a ≡ address) × (s.drip_amount ≡ amount) × (out.1 ≡ ok receipt)
  settle-dripped a from l (w, ok q) address amount receipt e =
      let (e1, e2, e3) = paid_inj a address s.drip_amount amount q receipt e in (e1, e2, ap ok e3)
  settle-dripped a from l (w, err x) address amount receipt e = cc

  fund-dripped :
      (a from : String) (second : Shared W → Shared W) (shared : Shared W) (o : Option ℕ)
      (address : String) (amount : ℕ) (receipt : TransferReceipt)
      → (fund s a from second shared o).1 ≡ dripped address amount receipt
      → (free : ℕ) × (o ≡ some free)
        × (is_insolvent s free ≡ false)
        × (a ≡ address)
        × (s.drip_amount ≡ amount)
        × ((s.chain.transfer (second shared).1 a s.drip_amount).1 ≡ ok receipt)
  unfolding fund pay
  fund-dripped a from second shared none address amount receipt e = cc
  fund-dripped a from second shared (some free) address amount receipt e =
      elim (Bool-cases (is_insolvent s free)) [
        | inl bad ↦ absurd (not_dripped (rw bad at e))
        | inr good ↦
            let (e1, e2, e3) =
              settle-dripped a from (second shared).0
                (s.chain.transfer (second shared).1 a s.drip_amount) address amount receipt
                (rw good at e) in
            (free, refl, good, e1, e2, e3)
      ]

  admit-IsEntitled :
      (raw a from : String) (now : ℕ) (first second : Shared W → Shared W) (l : RateLimiter) (w : W)
      (d : RateLimiter × RateLimitDecision) (address : String) (amount : ℕ)
      (receipt : TransferReceipt)
      → s.chain.normalize_address raw ≡ some a
      → try_acquire l a from now ≡ d
      → (admit s a from first second w d).1 ≡ dripped address amount receipt
      → IsEntitled s raw from now first second (l, w) address amount receipt
  admit-IsEntitled raw a from now first second l w (l', refused scope retry) address amount receipt
        n t e =
      cc
  admit-IsEntitled raw a from now first second l w (l', allowed) address amount receipt n t e =
      let shared = first (l', w) in
      let (free, e1, good, e2, e3, e4) =
        fund-dripped a from second shared (s.chain.free_balance shared.1 s.chain.faucet_address)
          address amount receipt e in
      subst (λ x. IsEntitled s raw from now first second (l, w) x amount receipt) e2
        (subst (λ x. IsEntitled s raw from now first second (l, w) a x receipt) e3
          (record {
            normal = n;
            acquired = l';
            within_limits = t;
            free = free;
            balance = e1;
            solvent = solvent_lem free good;
            configured = refl;
            paid = e4;
          }))

  on_address-IsEntitled :
      (raw from : String) (now : ℕ) (first second : Shared W → Shared W) (l : RateLimiter) (w : W)
      (o : Option String) (address : String) (amount : ℕ) (receipt : TransferReceipt)
      → s.chain.normalize_address raw ≡ o
      → (on_address s from now first second (l, w) o).1 ≡ dripped address amount receipt
      → IsEntitled s raw from now first second (l, w) address amount receipt
  on_address-IsEntitled raw from now first second l w none address amount receipt n e = cc
  on_address-IsEntitled raw from now first second l w (some a) address amount receipt n e =
      admit-IsEntitled raw a from now first second l w (try_acquire l a from now) address amount
        receipt n refl e

-- A drip is paid only to the normalised form of the address that was asked for, when both budgets had
-- room, and when the balance read after that covers the amount and leaves the reserve and the
-- existential deposit; the amount is the configured one, and the transfer is the chain's, whatever
-- other requests do while this one waits.
pub drip-IsEntitled :
    {W : Type 0} (s : FaucetService W) (raw from : String) (now : ℕ)
    (first second : Shared W → Shared W) (l : RateLimiter) (w : W) (address : String) (amount : ℕ)
    (receipt : TransferReceipt)
    → (drip s raw from now first second (l, w)).1 ≡ dripped address amount receipt
    → IsEntitled s raw from now first second (l, w) address amount receipt
unfolding drip
drip-IsEntitled s raw from now first second l w address amount receipt =
    on_address-IsEntitled s raw from now first second l w (s.chain.normalize_address raw) address
      amount receipt refl
