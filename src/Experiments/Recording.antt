-- ===== src/Experiments/Recording.antt =====
-- recording-sdk.ts and privileged.ts: the ledger of extrinsics, and what may not enter it. A name in lower case
-- is the list of its codes, of which ASCII capitals are lowered.
pub mod Ledger
pub mod Settlings
mod Tests
use Prim.Native.Char.{code}
use scalar_commons_v.Base.{
  ℕ, ◌+◌, Bool, true, false, ◌&&◌, ◌||◌, Option, none, some, String, List, [], ◌∷◌, ◌++◌, leb, eqb,
  any, length, if◌then◌else◌, Dict, lookup, insert, string_keys, Text, starts_with,
}
use scalar_commons_v.Base.Results.{Result, ok, err, ◌>>=◌}

abbrev pub lower : ℕ → ℕ
lower c = if leb 65 c && leb c 90 then c + 32 else c

abbrev pub lower_text : String → Text
lower_text String.[] = []
lower_text (String.◌∷◌ c s) = lower (code c) ∷ lower_text s

abbrev pub contains : Text → Text → Bool
contains [] t = starts_with [] t
contains (c ∷ s) t = starts_with (c ∷ s) t || contains s t

abbrev pub privileged_signer_markers : List String
privileged_signer_markers = "sudo" ∷ "root" ∷ "privileged" ∷ "superuser" ∷ "admin" ∷ []

abbrev pub privileged_method_markers : List String
privileged_method_markers =
    "sudo." ∷ "sudoas" ∷ ".forceset" ∷ ".forcetransfer" ∷ ".forcebatch" ∷ "system.setcode"
    ∷ "system.killstorage" ∷ "system.killprefix" ∷ []

unfoldable pub is_privileged_signer : String → Bool
is_privileged_signer signer =
    any (λ m. contains (lower_text signer) (lower_text m)) privileged_signer_markers

unfoldable pub is_privileged_method : String → Bool
is_privileged_method method =
    any (λ m. contains (lower_text method) (lower_text m)) privileged_method_markers

pub data Argument : Type 0 where
  text : String → Argument
  amount : ℕ → Argument
  flag : Bool → Argument
  nothing : Argument

pub record ExtrinsicRecord : Type 0 where
  pub seq : ℕ
  pub era : ℕ
  pub signer : String
  pub method : String
  pub args : List Argument

pub record RecordingSdk : Type 0 where
  pub ledger : List ExtrinsicRecord
  pub next_seq : Dict String ℕ
  pub era : ℕ

abbrev pub new_sdk : RecordingSdk
new_sdk = record { ledger = []; next_seq = []; era = 0 }

-- What `assertNotPrivileged` throws.
pub data Forbidden : Type 0 where
  privileged_signer privileged_call : Forbidden

unfoldable pub push : String → String → List Argument → RecordingSdk → Result Forbidden RecordingSdk
push signer method args sdk =
    if is_privileged_signer signer
    then err privileged_signer
    else if is_privileged_method method
    then err privileged_call
    else ok (record sdk {
      ledger =
          sdk.ledger
          ++ (record {
            seq = length sdk.ledger;
            era = sdk.era;
            signer = signer;
            method = method;
            args = args;
          }
              ∷ []);
    })

-- The methods of the interface, and the era pointer.
pub data SdkCall : Type 0 where
  set_era : ℕ → SdkCall
  register : (account : String) (stake : ℕ) → SdkCall
  add_stake : (account : String) (more : ℕ) → SdkCall
  heartbeat : (account : String) → SdkCall
  create_escrow :
      (account provider : String) (price : ℕ) (deliverable : String) (deliver_by : ℕ)
      → Option ℕ
      → SdkCall
  accept_escrow : (account buyer : String) (seq : ℕ) (delivery : String) → SdkCall
  complete_escrow : (account provider : String) (seq : ℕ) → SdkCall
  submit_oracle : (account request answer : String) (capability : ℕ) → SdkCall
  vote : (account : String) (poll : ℕ) (aye : Bool) (balance : ℕ) → SdkCall
  settle_era : (account : String) → SdkCall
  claim : (account : String) → SdkCall

abbrev pub or_first : Option ℕ → ℕ
or_first none = 0
or_first (some seq) = seq

abbrev pub capability_arg : Option ℕ → Argument
capability_arg none = nothing
capability_arg (some id) = amount id

-- One method; the sequence number that `createEscrow` returns is the buyer's next one before it.
unfoldable pub perform : SdkCall → RecordingSdk → Result Forbidden RecordingSdk
perform (set_era era) sdk = ok (record sdk { era = era })
perform (register account stake) sdk = push account "agents.register" (amount stake ∷ []) sdk
perform (add_stake account more) sdk = push account "agents.addStake" (amount more ∷ []) sdk
perform (heartbeat account) sdk = push account "agents.heartbeat" [] sdk
perform (create_escrow account provider price deliverable deliver_by capability) sdk =
    push account "escrow.createAgreement"
      (text provider
        ∷ amount price
        ∷ text deliverable
        ∷ amount deliver_by
        ∷ capability_arg capability
        ∷ [])
      (record sdk {
        next_seq = insert account (or_first (lookup account sdk.next_seq) + 1) sdk.next_seq;
      })
perform (accept_escrow account buyer seq delivery) sdk =
    push account "escrow.recordDelivery" (text buyer ∷ amount seq ∷ text delivery ∷ []) sdk
perform (complete_escrow account provider seq) sdk =
    push account "escrow.confirmDelivery" (text provider ∷ amount seq ∷ []) sdk
perform (submit_oracle account request answer capability) sdk =
    push account "oracle.submitResponse" (text request ∷ text answer ∷ amount capability ∷ []) sdk
perform (vote account poll aye balance) sdk =
    push account "convictionVoting.vote" (amount poll ∷ flag aye ∷ amount balance ∷ []) sdk
perform (settle_era account) sdk = push account "emissions.settleEra" [] sdk
perform (claim account) sdk = push account "emissions.claim" [] sdk

-- A sequence of calls, to the first that throws.
unfoldable pub perform_all : List SdkCall → RecordingSdk → Result Forbidden RecordingSdk
perform_all [] sdk = ok sdk
perform_all (call ∷ calls) sdk = do sdk' ← perform call sdk; perform_all calls sdk'
