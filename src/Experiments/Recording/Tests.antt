-- ===== src/Experiments/Recording/Tests.antt =====
-- Runs of the recording SDK.
use scalar_commons_v.Base.{◌≡◌, refl, none, List, [], ◌∷◌, lookup, insert}
use scalar_commons_v.Base.Results.{ok, err}
use scalar_commons_v.Experiments.Recording.{
  is_privileged_signer, is_privileged_method, amount, nothing, text, RecordingSdk, new_sdk,
  privileged_signer, push, SdkCall, register, create_escrow, set_era, perform, perform_all,
}
use scalar_commons_v.Experiments.Recording.Ledger.{IsLedger, perform_all-IsLedger}

abbrev two_agreements : List SdkCall
two_agreements =
    set_era 3
    ∷ register "bee" 5
    ∷ create_escrow "bee" "ant" 7 "0x01" 9 none
    ∷ create_escrow "bee" "fly" 8 "0x02" 9 none
    ∷ []

abbrev recorded : RecordingSdk
recorded = record {
  ledger =
      record { seq = 0; era = 3; signer = "bee"; method = "agents.register"; args = amount 5 ∷ [] }
      ∷ record {
        seq = 1;
        era = 3;
        signer = "bee";
        method = "escrow.createAgreement";
        args = text "ant" ∷ amount 7 ∷ text "0x01" ∷ amount 9 ∷ nothing ∷ [];
      }
      ∷ record {
        seq = 2;
        era = 3;
        signer = "bee";
        method = "escrow.createAgreement";
        args = text "fly" ∷ amount 8 ∷ text "0x02" ∷ amount 9 ∷ nothing ∷ [];
      }
      ∷ [];
  next_seq = ("bee", 2) ∷ [];
  era = 3;
}

two_agreements_run : perform_all two_agreements new_sdk ≡ ok recorded
unfolding perform_all perform push is_privileged_signer is_privileged_method lookup insert
two_agreements_run = refl

admin_refused : perform_all (register "Ad-Admin" 5 ∷ []) new_sdk ≡ err privileged_signer
unfolding perform_all perform push is_privileged_signer
admin_refused = refl

perform_all-IsLedger_example : IsLedger recorded
perform_all-IsLedger_example = perform_all-IsLedger two_agreements recorded two_agreements_run
