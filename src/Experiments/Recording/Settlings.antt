-- ===== src/Experiments/Recording/Settlings.antt =====
-- Which records of a ledger settle an era.
use scalar_commons_v.Base.{
  ℕ, ◌≡◌, refl, ap, ◌∙◌, Bool, true, false, String, List, [], ◌∷◌, ◌++◌, Bool-cases, inl, inr,
  if◌then◌else◌, ◌==◌, string_keys,
}
use scalar_commons_v.Base.Results.{ok}
use scalar_commons_v.Experiments.Recording.{
  Argument, ExtrinsicRecord, RecordingSdk, push, SdkCall, set_era, register, add_stake, heartbeat,
  create_escrow, accept_escrow, complete_escrow, submit_oracle, vote, settle_era, claim, perform,
}
use scalar_commons_v.Experiments.Recording.Ledger.{push-Pushed}

-- The era and the signer of each `emissions.settleEra`.
abbrev pub settlings : List ExtrinsicRecord → List (ℕ × String)
settlings [] = []
settlings (r ∷ rows) =
    let later = settlings rows in
    if r.method == "emissions.settleEra" then (r.era, r.signer) ∷ later else later

settlings-append :
    (rows : List ExtrinsicRecord) (r : ExtrinsicRecord)
    → settlings (rows ++ (r ∷ [])) ≡ settlings rows ++ settlings (r ∷ [])
settlings-append [] r = refl
settlings-append (x ∷ rows) r = elim (Bool-cases (x.method == "emissions.settleEra")) [
  | inl settles ↦ rw settles (ap (◌∷◌ (x.era, x.signer)) (settlings-append rows r))
  | inr other ↦ rw other (settlings-append rows r)
]

append_nil : (xs : List (ℕ × String)) → xs ++ [] ≡ xs
append_nil [] = refl
append_nil (x ∷ xs) = ap (◌∷◌ x) (append_nil xs)

-- A call that settles no era and does not move the era.
abbrev pub is_steady : SdkCall → Bool
is_steady (set_era era) = false
is_steady (settle_era account) = false
is_steady _ = true

pub record IsSteady (before after : RecordingSdk) : Type 0 where
  pub settled : settlings after.ledger ≡ settlings before.ledger
  pub era : after.era ≡ before.era

push-IsSteady :
    (signer method : String) (args : List Argument) (before after : RecordingSdk)
    → (method == "emissions.settleEra") ≡ false
    → push signer method args before ≡ ok after
    → IsSteady before after
push-IsSteady signer method args before after other e =
    let p = push-Pushed signer method args before after e in
    let row_other = ap (λ z. z == "emissions.settleEra") p.row_method ∙ other in
    let nothing_new : settlings (p.row ∷ []) ≡ [] = rw row_other refl in
    record {
      settled =
          ap settlings p.ledger
          ∙ settlings-append before.ledger p.row
          ∙ ap (λ z. settlings before.ledger ++ z) nothing_new
          ∙ append_nil (settlings before.ledger);
      era = p.same_era;
    }

pub perform-IsSteady :
    (call : SdkCall) (before after : RecordingSdk)
    → is_steady call ≡ true
    → perform call before ≡ ok after
    → IsSteady before after
unfolding perform
perform-IsSteady (set_era era) before after h e = absurd (cc)
perform-IsSteady (settle_era account) before after h e = absurd (cc)
perform-IsSteady (register account stake) before after h e =
    push-IsSteady account "agents.register" _ before after refl e
perform-IsSteady (add_stake account more) before after h e =
    push-IsSteady account "agents.addStake" _ before after refl e
perform-IsSteady (heartbeat account) before after h e =
    push-IsSteady account "agents.heartbeat" _ before after refl e
perform-IsSteady (create_escrow account provider price deliverable by capability) before after h e =
    let s = push-IsSteady account "escrow.createAgreement" _ _ after refl e in
    record { settled = s.settled; era = s.era }
perform-IsSteady (accept_escrow account buyer seq delivery) before after h e =
    push-IsSteady account "escrow.recordDelivery" _ before after refl e
perform-IsSteady (complete_escrow account provider seq) before after h e =
    push-IsSteady account "escrow.confirmDelivery" _ before after refl e
perform-IsSteady (submit_oracle account request answer capability) before after h e =
    push-IsSteady account "oracle.submitResponse" _ before after refl e
perform-IsSteady (vote account poll aye balance) before after h e =
    push-IsSteady account "convictionVoting.vote" _ before after refl e
perform-IsSteady (claim account) before after h e =
    push-IsSteady account "emissions.claim" _ before after refl e

-- The call that settles adds itself, in the era of the SDK.
pub perform-settlings :
    (account : String) (before after : RecordingSdk)
    → perform (settle_era account) before ≡ ok after
    → settlings after.ledger ≡ settlings before.ledger ++ ((before.era, account) ∷ [])
unfolding perform
perform-settlings account before after e =
    let p = push-Pushed account "emissions.settleEra" [] before after e in
    let settles = ap (λ z. z == "emissions.settleEra") p.row_method in
    let added : settlings (p.row ∷ []) ≡ ((before.era, account) ∷ []) =
      rw settles (λ i. (p.row_era i, p.row_signer i) ∷ []) in
    ap settlings p.ledger
    ∙ settlings-append before.ledger p.row
    ∙ ap (λ z. settlings before.ledger ++ z) added
