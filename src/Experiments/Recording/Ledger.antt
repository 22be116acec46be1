-- ===== src/Experiments/Recording/Ledger.antt =====
-- What every ledger satisfies.
use mathlib.Core.Path.{subst}
use scalar_commons_v.Base.{
  ℕ, ◌+◌, ◌≡◌, refl, sym, ap, ◌∙◌, arith, Bool, true, false, ◌&&◌, String, List, [], ◌∷◌, ◌++◌, All,
  length, keep, ◌==◌, string_keys, Bool-cases, inl, inr, lookup, insert, lookup-insert,
}
use scalar_commons_v.Base.Results.{Result, ok, err, ok_inj, bind-eq-ok}
use scalar_commons_v.Experiments.Recording.{
  is_privileged_signer, is_privileged_method, Argument, ExtrinsicRecord, RecordingSdk, new_sdk,
  Forbidden, push, SdkCall, set_era, register, add_stake, heartbeat, create_escrow, accept_escrow,
  complete_escrow, submit_oracle, vote, settle_era, claim, or_first, perform, perform_all,
}

-- Record `i` stands at place `i`.
abbrev pub IsNumbered : ℕ → List ExtrinsicRecord → Type 0
IsNumbered i [] = Unit {0}
IsNumbered i (r ∷ rows) = (r.seq ≡ i) × IsNumbered (i + 1) rows

abbrev pub IsUnprivileged : ExtrinsicRecord → Type 0
IsUnprivileged r = (is_privileged_signer r.signer ≡ false) × (is_privileged_method r.method ≡ false)

-- The record opens an agreement of this buyer.
abbrev pub is_creation : String → ExtrinsicRecord → Bool
is_creation buyer r = r.signer == buyer && r.method == "escrow.createAgreement"

abbrev pub creations : String → List ExtrinsicRecord → ℕ
creations buyer rows = length (keep (is_creation buyer) rows)

pub record IsLedger (sdk : RecordingSdk) : Type 0 where
  pub numbered : IsNumbered 0 sdk.ledger
  pub unprivileged : All IsUnprivileged sdk.ledger
  pub sequences :
      (buyer : String) → or_first (lookup buyer sdk.next_seq) ≡ creations buyer sdk.ledger

IsNumbered-append :
    (i : ℕ) (rows : List ExtrinsicRecord) (r : ExtrinsicRecord)
    → IsNumbered i rows
    → r.seq ≡ i + length rows
    → IsNumbered i (rows ++ (r ∷ []))
IsNumbered-append i [] r h e = (omega (arith, e), tt)
IsNumbered-append i (x ∷ rows) r (h, hs) e =
    (h, IsNumbered-append (i + 1) rows r hs (omega (arith, e)))

All-append :
    (rows : List ExtrinsicRecord) (r : ExtrinsicRecord)
    → All IsUnprivileged rows
    → IsUnprivileged r
    → All IsUnprivileged (rows ++ (r ∷ []))
All-append [] r h hr = (hr, tt)
All-append (x ∷ rows) r (h, hs) hr = (h, All-append rows r hs hr)

abbrev one_if : Bool → ℕ
one_if true = 1
one_if false = 0

creations-append :
    (buyer : String) (rows : List ExtrinsicRecord) (r : ExtrinsicRecord)
    → creations buyer (rows ++ (r ∷ [])) ≡ creations buyer rows + one_if (is_creation buyer r)
creations-append buyer [] r = elim (Bool-cases (is_creation buyer r)) [
  | inl made ↦ rw made (omega arith)
  | inr other ↦ rw other (omega arith)
]
creations-append buyer (x ∷ rows) r = elim (Bool-cases (is_creation buyer x)) [
  | inl made ↦ rw made (omega (arith, creations-append buyer rows r))
  | inr other ↦ rw other (creations-append buyer rows r)
]

-- What a push leaves.
pub record Pushed (signer method : String) (before after : RecordingSdk) : Type 0 where
  pub row : ExtrinsicRecord
  pub seq : row.seq ≡ length before.ledger
  pub row_signer : row.signer ≡ signer
  pub row_method : row.method ≡ method
  pub row_era : row.era ≡ before.era
  pub same_era : after.era ≡ before.era
  pub allowed : IsUnprivileged row
  pub ledger : after.ledger ≡ before.ledger ++ (row ∷ [])
  pub next_seq : after.next_seq ≡ before.next_seq

pub push-Pushed :
    (signer method : String) (args : List Argument) (before after : RecordingSdk)
    → push signer method args before ≡ ok after
    → Pushed signer method before after
unfolding push
push-Pushed signer method args before after h = elim (Bool-cases (is_privileged_signer signer)) [
  | inl bad ↦ absurd (no_ok (rw bad at h))
  | inr good ↦ elim (Bool-cases (is_privileged_method method)) [
    | inl bad ↦ absurd (no_ok (rw (good, bad) at h))
    | inr fine ↦
        let e = ok_inj (rw (good, fine) at h) in
        record {
          row = record {
            seq = length before.ledger;
            era = before.era;
            signer = signer;
            method = method;
            args = args;
          };
          seq = refl;
          row_signer = refl;
          row_method = refl;
          row_era = refl;
          same_era = ap (λ z. z.era) (sym e);
          allowed = (good, fine);
          ledger = ap (λ z. z.ledger) (sym e);
          next_seq = ap (λ z. z.next_seq) (sym e);
        }
  ]
]
  where
    no_ok : {e : Forbidden} → ◌≡◌ {A = Result Forbidden RecordingSdk} (err e) (ok after) → ⊥
    no_ok h = cc

Pushed-IsLedger :
    (signer method : String) (before after : RecordingSdk)
    → Pushed signer method before after
    → IsNumbered 0 before.ledger
    → All IsUnprivileged before.ledger
    → ((buyer : String)
        → or_first (lookup buyer before.next_seq)
          ≡ creations buyer before.ledger
            + one_if (signer == buyer && method == "escrow.createAgreement"))
    → IsLedger after
Pushed-IsLedger signer method before after p numbered clean counted = record {
  numbered =
      subst (IsNumbered 0) (sym p.ledger)
        (IsNumbered-append 0 before.ledger p.row numbered (omega (arith, p.seq)));
  unprivileged =
      subst (All IsUnprivileged) (sym p.ledger) (All-append before.ledger p.row clean p.allowed);
  sequences = λ buyer.
      ap (λ z. or_first (lookup buyer z)) p.next_seq
      ∙ counted buyer
      ∙ ap (λ z. creations buyer before.ledger + one_if z)
          (ap (λ z. z == buyer && method == "escrow.createAgreement") (sym p.row_signer)
            ∙ ap (λ z. p.row.signer == buyer && z == "escrow.createAgreement") (sym p.row_method))
      ∙ sym (creations-append buyer before.ledger p.row)
      ∙ ap (creations buyer) (sym p.ledger);
}

other_method : (x : Bool) (n m : ℕ) → n ≡ m → n ≡ m + one_if (x && false)
other_method true n m h = omega (arith, h)
other_method false n m h = omega (arith, h)

-- A push of another method.
other-IsLedger :
    (signer method : String) (args : List Argument) (before after : RecordingSdk)
    → (method == "escrow.createAgreement") ≡ false
    → push signer method args before ≡ ok after
    → IsLedger before
    → IsLedger after
other-IsLedger signer method args before after other e h =
    Pushed-IsLedger signer method before after (push-Pushed signer method args before after e)
      h.numbered h.unprivileged
      (λ buyer. rw other (
        other_method (signer == buyer) (or_first (lookup buyer before.next_seq))
          (creations buyer before.ledger) (h.sequences buyer)))

next_seq_lem :
    (account buyer : String) (sdk : RecordingSdk)
    → or_first (lookup buyer sdk.next_seq) ≡ creations buyer sdk.ledger
    → or_first
        (lookup buyer (insert account (or_first (lookup account sdk.next_seq) + 1) sdk.next_seq))
      ≡ creations buyer sdk.ledger + one_if (account == buyer && true)
next_seq_lem account buyer sdk h =
    let found =
      lookup-insert buyer account (or_first (lookup account sdk.next_seq) + 1) sdk.next_seq in
    elim (Bool-cases (account == buyer)) [
      | inl same ↦
          let e = (string_keys.same_iff account buyer).0 same in
          rw (found, same) (omega (arith, ap (λ z. or_first (lookup z sdk.next_seq)) e, h))
      | inr other ↦ rw (found, other) (omega (arith, h))
    ]

pub perform-IsLedger :
    (call : SdkCall) (before after : RecordingSdk)
    → perform call before ≡ ok after
    → IsLedger before
    → IsLedger after
unfolding perform
perform-IsLedger (set_era era) before after e h =
    subst IsLedger (ok_inj e)
      (record { numbered = h.numbered; unprivileged = h.unprivileged; sequences = h.sequences })
perform-IsLedger (register account stake) before after e h =
    other-IsLedger account "agents.register" _ before after refl e h
perform-IsLedger (add_stake account more) before after e h =
    other-IsLedger account "agents.addStake" _ before after refl e h
perform-IsLedger (heartbeat account) before after e h =
    other-IsLedger account "agents.heartbeat" _ before after refl e h
perform-IsLedger (create_escrow account provider price deliverable by capability) before after e h =
    Pushed-IsLedger account "escrow.createAgreement" _ after
      (push-Pushed account "escrow.createAgreement" _ _ after e) h.numbered h.unprivileged
      (λ buyer. next_seq_lem account buyer before (h.sequences buyer))
perform-IsLedger (accept_escrow account buyer seq delivery) before after e h =
    other-IsLedger account "escrow.recordDelivery" _ before after refl e h
perform-IsLedger (complete_escrow account provider seq) before after e h =
    other-IsLedger account "escrow.confirmDelivery" _ before after refl e h
perform-IsLedger (submit_oracle account request answer capability) before after e h =
    other-IsLedger account "oracle.submitResponse" _ before after refl e h
perform-IsLedger (vote account poll aye balance) before after e h =
    other-IsLedger account "convictionVoting.vote" _ before after refl e h
perform-IsLedger (settle_era account) before after e h =
    other-IsLedger account "emissions.settleEra" _ before after refl e h
perform-IsLedger (claim account) before after e h =
    other-IsLedger account "emissions.claim" _ before after refl e h

calls-IsLedger :
    (calls : List SdkCall) (before after : RecordingSdk)
    → perform_all calls before ≡ ok after
    → IsLedger before
    → IsLedger after
unfolding perform_all
calls-IsLedger [] before after e h = subst IsLedger (ok_inj e) h
calls-IsLedger (call ∷ calls) before after e h =
    let (sdk, first, rest) = bind-eq-ok (perform call before) (perform_all calls) e in
    calls-IsLedger calls sdk after rest (perform-IsLedger call before sdk first h)

-- After any calls that did not throw, each record of the ledger carries its place as its number, none has a
-- privileged signer or method, and the next sequence number of each buyer is the number of agreements
-- that it has created, so its agreements are numbered 0, 1, 2 and so on.
pub perform_all-IsLedger :
    (calls : List SdkCall) (after : RecordingSdk)
    → perform_all calls new_sdk ≡ ok after
    → IsLedger after
unfolding lookup
perform_all-IsLedger calls after e =
    calls-IsLedger calls new_sdk after e
      (record { numbered = tt; unprivileged = tt; sequences = λ buyer. refl })
