-- ===== src/Indexer/Store/Sightings.antt =====
-- The rows of `accounts`: the first and the last block that an account was seen in, through `saveBlock`.
use scalar_commons_v.Base.{
  ℕ, ◌≡◌, refl, sym, ap, ◌∙◌, arith, Bool, true, false, not, ◌||◌, Option, none, some, String, List,
  [], ◌∷◌, ◌++◌, leb, if◌then◌else◌, Bool-cases, inl, inr, any, map, Dict, lookup, lookup-insert,
  All, ◌==◌, number_keys, string_keys, pair_keys,
}
use scalar_commons_v.Base.Results.{ok, require-eq-ok, ok_inj}
use scalar_commons_v.Indexer.Store.{
  ExtrinsicRow, EventRow, IndexerStore, extrinsic_id, event_id, insert_extrinsics, insert_or_ignore,
  widened, insert_event_accounts, insert_events, touch_account, touch_signer,
}

abbrev seen_at : Option (ℕ × ℕ) → ℕ → ℕ × ℕ
seen_at none number = (number, number)
seen_at (some (first, last)) number =
    (if leb first number then first else number, if leb last number then number else last)

-- An account's row once a block was saved that has it, or has it not.
abbrev pub sighted : Bool → Option (ℕ × ℕ) → ℕ → Option (ℕ × ℕ)
sighted true row number = some (seen_at row number)
sighted false row number = row

abbrev is_signer : String → Option String → Bool
is_signer account none = false
is_signer account (some signer) = signer == account

abbrev pub signs : String → List ExtrinsicRow → Bool
signs account xs = any (λ x. is_signer account x.signer) xs

abbrev pub appears : String → List (EventRow × List String) → Bool
appears account es = any (λ e. any (λ named. named == account) e.1) es

seen_at_again : (row : Option (ℕ × ℕ)) (n : ℕ) → seen_at (some (seen_at row n)) n ≡ seen_at row n
seen_at_again none n = ground arith
seen_at_again (some (first, last)) n = ground arith

widened-eq-seen_at : (row : Option (ℕ × ℕ)) (n : ℕ) → widened row n ≡ seen_at row n
widened-eq-seen_at none n = refl
widened-eq-seen_at (some (first, last)) n = ground arith

pub sighted_twice :
    (a b : Bool) (row : Option (ℕ × ℕ)) (n : ℕ)
    → sighted b (sighted a row n) n ≡ sighted (a || b) row n
sighted_twice true true row n = ap some (seen_at_again row n)
sighted_twice true false row n = refl
sighted_twice false b row n = refl

lookup-touch_account :
    (account address : String) (n : ℕ) (accounts : Dict String (ℕ × ℕ))
    → lookup account (touch_account address n accounts)
      ≡ sighted (address == account) (lookup account accounts) n
unfolding touch_account
lookup-touch_account account address n accounts =
    lookup-insert account address (widened (lookup address accounts) n) accounts
    ∙ elim (Bool-cases (address == account)) [
      | inr other ↦ rw other refl
      | inl same ↦
          let here : address ≡ account = (string_keys.same_iff address account).0 same in
          rw same (
            ap some (
              ap (λ z. widened (lookup z accounts) n) here
              ∙ widened-eq-seen_at (lookup account accounts) n))
    ]

lookup-touch_signer :
    (account : String) (x : ExtrinsicRow) (n : ℕ) (accounts : Dict String (ℕ × ℕ))
    → x.block_number ≡ n
    → lookup account (touch_signer x accounts)
      ≡ sighted (is_signer account x.signer) (lookup account accounts) n
lookup-touch_signer account x n accounts at = signed x.signer refl
  where
    signed :
        (signer : Option String)
        → x.signer ≡ signer
        → lookup account (touch_signer x accounts)
          ≡ sighted (is_signer account signer) (lookup account accounts) n
    signed none same = rw same refl
    signed (some address) same = rw (same, at) (lookup-touch_account account address n accounts)

pub sighted-insert_extrinsics :
    (account : String) (n : ℕ) (xs : List ExtrinsicRow) (s t : IndexerStore)
    → All (λ x. x.block_number ≡ n) xs
    → insert_extrinsics xs s ≡ ok t
    → lookup account t.accounts ≡ sighted (signs account xs) (lookup account s.accounts) n
unfolding insert_extrinsics
sighted-insert_extrinsics account n [] s t at h =
    ap (λ z. lookup account z.accounts) (sym (ok_inj h))
sighted-insert_extrinsics account n (x ∷ xs) s t (at, ats) h =
    let (fresh, h1) =
      require-eq-ok (not (any (λ (row : ExtrinsicRow). row.id == x.id) s.extrinsics)) extrinsic_id _
        h in
    sighted-insert_extrinsics account n xs
      (record s { extrinsics = s.extrinsics ++ (x ∷ []); accounts = touch_signer x s.accounts }) t
      ats h1
    ∙ ap (λ z. sighted (signs account xs) z n) (lookup-touch_signer account x n s.accounts at)
    ∙ sighted_twice (is_signer account x.signer) (signs account xs) (lookup account s.accounts) n

sighted-insert_event_accounts :
    (account : String) (e : EventRow) (accounts : List String) (s : IndexerStore)
    → lookup account (insert_event_accounts e accounts s).accounts
      ≡ sighted
          (any (λ named. named == account) accounts)
          (lookup account s.accounts)
          e.block_number
unfolding insert_event_accounts
sighted-insert_event_accounts account e [] s = refl
sighted-insert_event_accounts account e (address ∷ rest) s =
    sighted-insert_event_accounts account e rest (record s {
      event_accounts = insert_or_ignore (e.id, address) s.event_accounts;
      accounts = touch_account address e.block_number s.accounts;
    })
    ∙ ap (λ z. sighted (any (λ named. named == account) rest) z e.block_number)
        (lookup-touch_account account address e.block_number s.accounts)
    ∙ sighted_twice (address == account) (any (λ named. named == account) rest)
        (lookup account s.accounts) e.block_number

pub sighted-insert_events :
    (account : String) (n : ℕ) (es : List (EventRow × List String)) (s t : IndexerStore)
    → All (λ e. e.block_number ≡ n) (map (λ e. e.0) es)
    → insert_events es s ≡ ok t
    → lookup account t.accounts ≡ sighted (appears account es) (lookup account s.accounts) n
unfolding insert_events
sighted-insert_events account n [] s t at h = ap (λ z. lookup account z.accounts) (sym (ok_inj h))
sighted-insert_events account n ((e, accounts) ∷ rest) s t (at, ats) h =
    let added : IndexerStore = record s { events = s.events ++ (e ∷ []) } in
    let (fresh, h1) =
      require-eq-ok (not (any (λ (row : EventRow). row.id == e.id) s.events)) event_id _ h in
    let here = any (λ named. named == account) accounts in
    sighted-insert_events account n rest (insert_event_accounts e accounts added) t ats h1
    ∙ ap (λ z. sighted (appears account rest) z n)
        (sighted-insert_event_accounts account e accounts added
          ∙ ap (sighted here (lookup account s.accounts)) at)
    ∙ sighted_twice here (appears account rest) (lookup account s.accounts) n
