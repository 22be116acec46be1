-- ===== src/Indexer/Ingest/Linked.antt =====
-- Every extrinsic has its row, with the outcome that its events report.
use mathlib.Core.Path.{subst}
use scalar_commons_v.Base.{
  ℕ, zero, suc, ◌+◌, ◌≤◌, ◌≡◌, refl, ap, sym, arith, Bool, true, false, Option, none, some, String,
  List, [], ◌∷◌, eqb, if◌then◌else◌, Bool-cases, inl, inr, string_keys, ◌==◌, decimal, digit_string,
}
use scalar_commons_v.Indexer.Store.{ExtrinsicRow}
use scalar_commons_v.Indexer.Decode.{row_id, Json, object}
use scalar_commons_v.Indexer.Ingest.{
  Signature, NodeExtrinsic, Phase, apply_extrinsic, finalization, initialization, NodeEvent,
  NodeBlock, outcome_of, set_success, mark, extrinsic_row, extrinsic_rows, mark_all, indexed_block,
  signer_of, nonce_of, tip_of, members_of, fields_of, decoded_args,
}

-- What the chain says of an extrinsic by an event of the system pallet.
abbrev verdict : String → Option Bool
verdict method =
    if method == "ExtrinsicFailed"
    then some false
    else if method == "ExtrinsicSuccess"
    then some true
    else none

abbrev pub verdict_of : NodeEvent → Option Bool
verdict_of e = if e.section == "system" then verdict e.method else none

verdict-eq-outcome_of : (e : NodeEvent) → outcome_of e ≡ verdict_of e
verdict-eq-outcome_of e = elim (Bool-cases (e.section == "system")) [
  | inr other ↦ rw other refl
  | inl system ↦ elim (Bool-cases (e.method == "ExtrinsicFailed")) [
    | inr other ↦ rw (system, other) refl
    | inl failed ↦
        let same = (string_keys.same_iff e.method "ExtrinsicFailed").0 failed in
        rw (system, same) refl
  ]
]

-- The outcome that is reported for the extrinsic `i` by the last event that reports one, after what was
-- reported before.
abbrev pub says : ℕ → Phase → Option Bool → Option Bool → Option Bool
says i (apply_extrinsic j) (some success) before = if eqb j i then some success else before
says i (apply_extrinsic j) none before = before
says i finalization outcome before = before
says i initialization outcome before = before

abbrev pub reported : ℕ → List NodeEvent → Option Bool → Option Bool
reported i [] before = before
reported i (e ∷ events) before = reported i events (says i e.phase (verdict_of e) before)

-- The three columns of a signature, which an unsigned extrinsic leaves empty.
abbrev pub IsSignedBy : Option Signature → ExtrinsicRow → Type 0
IsSignedBy none row = (row.signer ≡ none) × ((row.nonce ≡ none) × (row.tip_plancks ≡ none))
IsSignedBy (some s) row =
    (row.signer ≡ some s.signer)
    × ((row.nonce ≡ some s.nonce) × (row.tip_plancks ≡ some (digit_string (decimal s.tip) "")))

module _ (stringify : Json → String) (is_account : String → Bool) where
  -- The row of the extrinsic at place `i` of the block.
  pub record IsRowOf (number i : ℕ) (outcome : Option Bool) (x : NodeExtrinsic) (row : ExtrinsicRow)
      : Type 0 where
    pub id : row.id ≡ row_id number i
    pub block_number : row.block_number ≡ number
    pub index : row.index ≡ i
    pub hash : row.hash ≡ x.hash
    pub section : row.section ≡ x.section
    pub method : row.method ≡ x.method
    pub signed : IsSignedBy x.signature row
    pub args : row.args ≡ stringify (object (members_of (fields_of (decoded_args 0 x.args) [])))
    pub success : row.success ≡ outcome

  -- A row for each extrinsic, from the place `i` on.
  abbrev pub IsRows : ℕ → ℕ → (ℕ → Option Bool) → List NodeExtrinsic → List ExtrinsicRow → Type 0
  IsRows number i outcome [] [] = Unit {0}
  IsRows number i outcome [] (row ∷ rows) = ⊥
  IsRows number i outcome (x ∷ xs) [] = ⊥
  IsRows number i outcome (x ∷ xs) (row ∷ rows) =
      IsRowOf number i (outcome i) x row × IsRows number (i + 1) outcome xs rows

  with_outcome :
      (number i : ℕ) (o o' : Option Bool) (x : NodeExtrinsic) (row : ExtrinsicRow)
      → IsRowOf number i o x row
      → o' ≡ o
      → IsRowOf number i o' x row
  with_outcome number i o o' x row h e = subst (λ z. IsRowOf number i z x row) (sym e) h

  signed_still :
      (signature : Option Signature) (row : ExtrinsicRow) (o : Option Bool)
      → IsSignedBy signature row
      → IsSignedBy signature (record row { success = o })
  signed_still none row o h = h
  signed_still (some s) row o h = h

  IsRows-ext :
      (number i : ℕ) (f g : ℕ → Option Bool) (xs : List NodeExtrinsic) (rows : List ExtrinsicRow)
      → ((k : ℕ) → i ≤ k → g k ≡ f k)
      → IsRows number i f xs rows
      → IsRows number i g xs rows
  IsRows-ext number i f g [] [] same h = tt
  IsRows-ext number i f g [] (row ∷ rows) same h = h
  IsRows-ext number i f g (x ∷ xs) [] same h = h
  IsRows-ext number i f g (x ∷ xs) (row ∷ rows) same (h, hs) = (
    with_outcome number i (f i) (g i) x row h (same i (omega arith)),
    IsRows-ext number (i + 1) f g xs rows (λ k le. same k (omega (arith, le))) hs,
  )

  set_success-IsRows :
      (number i d j : ℕ) (success : Bool) (f : ℕ → Option Bool) (xs : List NodeExtrinsic)
      (rows : List ExtrinsicRow)
      → j ≡ i + d
      → IsRows number i f xs rows
      → IsRows number i (λ k. if eqb j k then some success else f k) xs (set_success d success rows)
  set_success-IsRows number i d j success f [] [] e h = tt
  set_success-IsRows number i d j success f [] (row ∷ rows) e h = absurd h
  set_success-IsRows number i d j success f (x ∷ xs) [] e h = h
  set_success-IsRows number i zero j success f (x ∷ xs) (row ∷ rows) e (h, hs) =
      let here : eqb j i ≡ true = ground (arith, e) in
      (
        record {
          id = h.id;
          block_number = h.block_number;
          index = h.index;
          hash = h.hash;
          section = h.section;
          method = h.method;
          signed = signed_still x.signature row (some success) h.signed;
          args = h.args;
          success = rw here refl;
        },
        IsRows-ext number (i + 1) f (λ k. if eqb j k then some success else f k) xs rows
            (λ k le. let later : eqb j k ≡ false = ground (arith, e, le) in rw later refl) hs,
      )
  set_success-IsRows number i (suc d) j success f (x ∷ xs) (row ∷ rows) e (h, hs) =
      let before : eqb j i ≡ false = ground (arith, e) in
      (
        with_outcome number i (f i) (if eqb j i then some success else f i) x row h
            (rw before refl),
        set_success-IsRows number (i + 1) d j success f xs rows (omega (arith, e)) hs,
      )

  mark-IsRows :
      (number : ℕ) (phase : Phase) (outcome : Option Bool) (f : ℕ → Option Bool)
      (xs : List NodeExtrinsic) (rows : List ExtrinsicRow)
      → IsRows number 0 f xs rows
      → IsRows number 0 (λ k. says k phase outcome (f k)) xs (mark phase outcome rows)
  mark-IsRows number (apply_extrinsic j) (some success) f xs rows h =
      set_success-IsRows number 0 j j success f xs rows (omega arith) h
  mark-IsRows number (apply_extrinsic j) none f xs rows h = h
  mark-IsRows number finalization outcome f xs rows h = h
  mark-IsRows number initialization outcome f xs rows h = h

  mark_all-IsRows :
      (number : ℕ) (events : List NodeEvent) (f : ℕ → Option Bool) (xs : List NodeExtrinsic)
      (rows : List ExtrinsicRow)
      → IsRows number 0 f xs rows
      → IsRows number 0
          (λ k. reported k events (f k))
          xs
          (mark_all stringify is_account events rows)
  mark_all-IsRows number [] f xs rows h = h
  mark_all-IsRows number (e ∷ events) f xs rows h =
      mark_all-IsRows number events (λ k. says k e.phase (verdict_of e) (f k)) xs
        (mark e.phase (outcome_of e) rows)
        (subst
          (λ z. IsRows number 0 (λ k. says k e.phase z (f k)) xs (mark e.phase (outcome_of e) rows))
          (verdict-eq-outcome_of e) (mark-IsRows number e.phase (outcome_of e) f xs rows h))

  row_signed :
      (number i : ℕ) (x : NodeExtrinsic) (signature : Option Signature)
      → x.signature ≡ signature
      → IsSignedBy signature (extrinsic_row stringify is_account number i x)
  row_signed number i x none e = (ap signer_of e, (ap nonce_of e, ap tip_of e))
  row_signed number i x (some s) e = (ap signer_of e, (ap nonce_of e, ap tip_of e))

  extrinsic_rows-IsRows :
      (number i : ℕ) (extrinsics : List NodeExtrinsic)
      → IsRows number i
          (λ k. none)
          extrinsics
          (extrinsic_rows stringify is_account number i extrinsics)
  extrinsic_rows-IsRows number i [] = tt
  extrinsic_rows-IsRows number i (x ∷ extrinsics) = (
    record {
      id = refl;
      block_number = refl;
      index = refl;
      hash = refl;
      section = refl;
      method = refl;
      signed = row_signed number i x x.signature refl;
      args = refl;
      success = refl;
    },
    extrinsic_rows-IsRows number (i + 1) extrinsics,
  )

  -- An ingested block has one row for each of its extrinsics, in their order: each with its identifier, its
  -- block and its index, with the hash, call, signature columns and arguments of that extrinsic, and with the
  -- outcome of the last event of the system pallet for it that is `ExtrinsicSuccess` or `ExtrinsicFailed`,
  -- which mean true and false, or none when there is no such event.
  pub indexed_block-IsRows :
      (number : ℕ) (b : NodeBlock)
      → IsRows number 0
          (λ i. reported i b.events none)
          b.extrinsics
          (indexed_block stringify is_account number b).extrinsics
  unfolding indexed_block
  indexed_block-IsRows number b =
      mark_all-IsRows number b.events (λ k. none) b.extrinsics
        (extrinsic_rows stringify is_account number 0 b.extrinsics)
        (extrinsic_rows-IsRows number 0 b.extrinsics)
