-- ===== src/Indexer/ChainState/Stats/Tests.antt =====
-- Three agreements of two pairs.
use scalar_commons_v.Base.{◌≡◌, refl, none, false, String, [], ◌∷◌}
use scalar_commons_v.Indexer.ChainState.Escrows.{
  EscrowStatus, created, delivered, disputed, EscrowAgreement, LiveList,
}
use scalar_commons_v.Indexer.ChainState.Stats.{fetch_escrow_stats, tally}
use scalar_commons_v.Indexer.ChainState.Stats.Counted.{IsCounted, fetch_escrow_stats-IsCounted}

abbrev between : String → String → EscrowStatus → EscrowAgreement
between buyer provider status = record {
  buyer = buyer;
  provider = provider;
  seq = 0;
  amount = 40;
  deliverable_hash = "0x1";
  deliver_by = 50;
  created_at = 3;
  status = status;
  delivery_proof = none;
  capability_id = none;
  dispute_opened_at = none;
  dispute_request_id = none;
}

abbrev open_ones : LiveList EscrowAgreement
open_ones = record {
  total = 3;
  items =
      between "ann" "bob" created
      ∷ between "ann" "bob" disputed
      ∷ between "bob" "ann" delivered
      ∷ [];
  truncated = false;
}

two_pairs : (fetch_escrow_stats 3 open_ones).distinct_pairs ≡ 2
unfolding fetch_escrow_stats tally
two_pairs = refl

fetch_escrow_stats-IsCounted_example : IsCounted open_ones.items (fetch_escrow_stats 3 open_ones)
fetch_escrow_stats-IsCounted_example = fetch_escrow_stats-IsCounted 3 open_ones
