-- ===== src/Indexer/ChainState/Escrows.antt =====
-- The open agreements: `toAgreement`, `fetchEscrows`, `fetchEscrow` and `fetchEscrowStats`. The double map
-- escrow.agreements is a parameter: reads of one pair, and page requests for one buyer or for the
-- whole map. Its balances are numbers here, where the API writes them as decimal strings.
mod Paths
mod Tests
use scalar_commons_v.Base.{
  ℕ, ◌+◌, Bool, true, false, not, ◌&&◌, ◌||◌, Option, none, some, String, List, [], ◌∷◌, ◌++◌, map,
  leb, eqb, length, any, if◌then◌else◌, ◌==◌, string_keys, pair_keys,
}
use scalar_commons_v.Base.Results.{Result, ok, err, ◌>>=◌}
use scalar_commons_v.Indexer.Queries.{sort, is_text}
use scalar_commons_v.Indexer.ChainState.Scan.{EntryScan, max_live_scan, scan_entries}

pub data EscrowStatus : Type 0 where
  created delivered disputed : EscrowStatus

-- A decoded `Agreement` of the chain.
pub record RawAgreement : Type 0 where
  pub seq : ℕ
  pub amount : ℕ
  pub deliverable_hash : String
  pub deliver_by : ℕ
  pub created_at : ℕ
  pub status : String
  pub delivery_proof : Option String
  pub capability_id : Option ℕ
  pub dispute_opened_at : Option ℕ
  pub dispute_request_id : Option String

pub record EscrowAgreement : Type 0 where
  pub buyer : String
  pub provider : String
  pub seq : ℕ
  pub amount : ℕ
  pub deliverable_hash : String
  pub deliver_by : ℕ
  pub created_at : ℕ
  pub status : EscrowStatus
  pub delivery_proof : Option String
  pub capability_id : Option ℕ
  pub dispute_opened_at : Option ℕ
  pub dispute_request_id : Option String

-- The error of `toAgreement`.
pub data UnknownStatus : Type 0 where
  unknown_status : (name : String) → UnknownStatus

abbrev pub status_of : String → Result UnknownStatus EscrowStatus
status_of name =
    if name == "Created"
    then ok created
    else if name == "Delivered"
    then ok delivered
    else if name == "Disputed"
    then ok disputed
    else err (unknown_status name)

abbrev pub shaped : String → String → RawAgreement → EscrowStatus → EscrowAgreement
shaped buyer provider raw status = record {
  buyer = buyer;
  provider = provider;
  seq = raw.seq;
  amount = raw.amount;
  deliverable_hash = raw.deliverable_hash;
  deliver_by = raw.deliver_by;
  created_at = raw.created_at;
  status = status;
  delivery_proof = raw.delivery_proof;
  capability_id = raw.capability_id;
  dispute_opened_at = raw.dispute_opened_at;
  dispute_request_id = raw.dispute_request_id;
}

unfoldable pub to_agreement : String → String → RawAgreement → Result UnknownStatus EscrowAgreement
to_agreement buyer provider raw = do
  status ← status_of raw.status
  ok (shaped buyer provider raw status)

-- The loop over the agreements of one pair.
unfoldable pub to_agreements :
    String → String → List RawAgreement → Result UnknownStatus (List EscrowAgreement)
to_agreements buyer provider [] = ok []
to_agreements buyer provider (raw ∷ rest) = do
  agreement ← to_agreement buyer provider raw
  others ← to_agreements buyer provider rest
  ok (agreement ∷ others)

pub record EscrowFilter : Type 0 where
  pub buyer : Option String
  pub provider : Option String
  pub party : Option String

-- An entry of the map: its key, the buyer and the provider, and the agreements of that pair.
abbrev pub Entry : Type 0
Entry = (String × String) × List RawAgreement

abbrev pub is_party : Option String → String → String → Bool
is_party none buyer provider = true
is_party (some address) buyer provider = buyer == address || provider == address

-- Neither `continue` of the loop over a scan.
abbrev pub is_included : EscrowFilter → String × String → Bool
is_included filter (buyer, provider) =
    is_text filter.provider provider && is_party filter.party buyer provider

-- The loop over a scan, which takes up the entries that pass a test.
unfoldable pub collect :
    (String × String → Bool) → List Entry → Result UnknownStatus (List EscrowAgreement)
collect wanted [] = ok []
collect wanted (((buyer, provider), value) ∷ entries) =
    let later = collect wanted entries in
    let taken = (do
      here ← to_agreements buyer provider value
      others ← later
      ok (here ++ others)) in
    if wanted (buyer, provider) then taken else later

pub record LiveList (A : Type 0) : Type 0 where
  pub total : ℕ
  pub items : List A
  pub truncated : Bool

-- Newest first.
abbrev pub newest_first : EscrowAgreement → EscrowAgreement → Bool
newest_first a b = leb b.created_at a.created_at

abbrev pub listed :
    Bool
    → Result UnknownStatus (List EscrowAgreement)
    → Result UnknownStatus (LiveList EscrowAgreement)
listed truncated (err e) = err e
listed truncated (ok agreements) = ok (record {
  total = length agreements;
  items = sort newest_first agreements;
  truncated = truncated;
})

-- What the node answers: `escrow.agreements` of a pair, and pages of the entries of one buyer or of all.
pub record EscrowStorage : Type 0 where
  pub agreements : String → String → List RawAgreement
  pub paged : Option String → ℕ → Option (String × String) → List Entry

-- The result of a scan, which is `none` out of fuel.
abbrev pub on_scan :
    EscrowFilter
    → Option (EntryScan Entry)
    → Option (Result UnknownStatus (LiveList EscrowAgreement))
on_scan filter none = none
on_scan filter (some scan) =
    some (listed scan.truncated (collect (is_included filter) scan.entries))

abbrev pub by_key :
    EscrowStorage
    → EscrowFilter
    → Option String
    → Option String
    → Option (Result UnknownStatus (LiveList EscrowAgreement))
by_key node filter (some buyer) (some provider) =
    some (listed false (to_agreements buyer provider (node.agreements buyer provider)))
by_key node filter (some buyer) none =
    on_scan filter (scan_entries (node.paged (some buyer)) max_live_scan)
by_key node filter none provider = on_scan filter (scan_entries (node.paged none) max_live_scan)

unfoldable pub fetch_escrows :
    EscrowStorage → EscrowFilter → Option (Result UnknownStatus (LiveList EscrowAgreement))
fetch_escrows node filter = by_key node filter filter.buyer filter.provider

abbrev pub find_seq : ℕ → List RawAgreement → Option RawAgreement
find_seq seq [] = none
find_seq seq (raw ∷ rest) =
    let later = find_seq seq rest in if eqb raw.seq seq then some raw else later

abbrev pub found :
    String → String → Option RawAgreement → Result UnknownStatus (Option EscrowAgreement)
found buyer provider none = ok none
found buyer provider (some raw) = do
  agreement ← to_agreement buyer provider raw
  ok (some agreement)

unfoldable pub fetch_escrow :
    EscrowStorage → String → String → ℕ → Result UnknownStatus (Option EscrowAgreement)
fetch_escrow node buyer provider seq =
    found buyer provider (find_seq seq (node.agreements buyer provider))
