-- ===== src/Indexer/ChainState/Stats.antt =====
-- `fetchEscrowStats`: the loop over the open agreements. Its set of texts `buyer/provider` is a list of pairs
-- without repetition, since an address has no slash.
pub mod Counted
mod Tests
use scalar_commons_v.Base.{
  ℕ, ◌+◌, ◌≡◌, refl, sym, ap, ◌∙◌, arith, Bool, true, false, ◌&&◌, ◌||◌, Option, none, some, String,
  List, [], ◌∷◌, ◌++◌, length, any, keep, All, if◌then◌else◌, ◌==◌, string_keys, pair_keys,
  same_pair_iff, Bool-cases, inl, inr,
}
use scalar_commons_v.Indexer.ChainState.Escrows.{
  EscrowStatus, created, delivered, disputed, EscrowAgreement, LiveList,
}

pub record ByStatus : Type 0 where
  pub created : ℕ
  pub delivered : ℕ
  pub disputed : ℕ

abbrev pub count_in : EscrowStatus → ByStatus → ByStatus
count_in EscrowStatus.created s = record s { created = s.created + 1 }
count_in EscrowStatus.delivered s = record s { delivered = s.delivered + 1 }
count_in EscrowStatus.disputed s = record s { disputed = s.disputed + 1 }

pub record Tally : Type 0 where
  pub by_status : ByStatus
  pub locked : ℕ
  pub pairs : List (String × String)

abbrev pub seeded : Tally
seeded = record {
  by_status = record { created = 0; delivered = 0; disputed = 0 };
  locked = 0;
  pairs = [];
}

-- `pairs.add`.
abbrev pub add_pair : String × String → List (String × String) → List (String × String)
add_pair pair pairs = if any (λ p. p == pair) pairs then pairs else pair ∷ pairs

abbrev pub count_agreement : EscrowAgreement → Tally → Tally
count_agreement a t = record {
  by_status = count_in a.status t.by_status;
  locked = t.locked + a.amount;
  pairs = add_pair (a.buyer, a.provider) t.pairs;
}

unfoldable pub tally : List EscrowAgreement → Tally → Tally
tally [] t = t
tally (a ∷ agreements) t = tally agreements (count_agreement a t)

pub record EscrowStats : Type 0 where
  pub active_agreement_count : ℕ
  pub enumerated_agreements : ℕ
  pub scan_truncated : Bool
  pub by_status : ByStatus
  pub total_locked : ℕ
  pub distinct_pairs : ℕ

unfoldable pub fetch_escrow_stats : ℕ → LiveList EscrowAgreement → EscrowStats
fetch_escrow_stats counter agreements =
    let t = tally agreements.items seeded in
    record {
      active_agreement_count = counter;
      enumerated_agreements = length agreements.items;
      scan_truncated = agreements.truncated;
      by_status = t.by_status;
      total_locked = t.locked;
      distinct_pairs = length t.pairs;
    }
