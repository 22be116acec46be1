-- ===== src/Indexer/ChainState/Stats/Counted.antt =====
-- The statistics describe the agreements that were enumerated.
use mathlib.Core.Path.{subst}
use scalar_commons_v.Base.{
  ℕ, ◌+◌, ◌≡◌, refl, ap, ◌∙◌, arith, Bool, true, false, ◌||◌, String, List, [], ◌∷◌, length, any,
  keep, if◌then◌else◌, ◌==◌, string_keys, pair_keys, same_pair_iff, Bool-cases, inl, inr,
}
use scalar_commons_v.Indexer.ChainState.Escrows.{EscrowStatus, EscrowAgreement, LiveList}
use scalar_commons_v.Indexer.ChainState.Stats.{
  ByStatus, count_in, Tally, seeded, add_pair, count_agreement, tally, EscrowStats,
  fetch_escrow_stats,
}

abbrev pub is_created : EscrowStatus → Bool
is_created EscrowStatus.created = true
is_created EscrowStatus.delivered = false
is_created EscrowStatus.disputed = false

abbrev pub is_delivered : EscrowStatus → Bool
is_delivered EscrowStatus.created = false
is_delivered EscrowStatus.delivered = true
is_delivered EscrowStatus.disputed = false

abbrev pub is_disputed : EscrowStatus → Bool
is_disputed EscrowStatus.created = false
is_disputed EscrowStatus.delivered = false
is_disputed EscrowStatus.disputed = true

abbrev pub number_with : (EscrowStatus → Bool) → List EscrowAgreement → ℕ
number_with test agreements = length (keep (λ (a : EscrowAgreement). test a.status) agreements)

abbrev pub amount_of : List EscrowAgreement → ℕ
amount_of [] = 0
amount_of (a ∷ agreements) = a.amount + amount_of agreements

abbrev pub has_pair : String × String → List (String × String) → Bool
has_pair pair pairs = any (λ p. p == pair) pairs

-- An agreement is between these two.
abbrev pub is_between : List EscrowAgreement → String × String → Bool
is_between agreements pair = any (λ (a : EscrowAgreement). (a.buyer, a.provider) == pair) agreements

abbrev pub HasNoRepeat : List (String × String) → Type 0
HasNoRepeat [] = Unit {0}
HasNoRepeat (p ∷ pairs) = (has_pair p pairs ≡ false) × HasNoRepeat pairs

-- Each status has its count, every agreement is counted under one, the locked amount is the sum, and
-- the number of pairs is that of a list which holds each pair with an agreement once and no other.
pub record IsCounted (agreements : List EscrowAgreement) (stats : EscrowStats) : Type 0 where
  pub number_created : stats.by_status.created ≡ number_with is_created agreements
  pub number_delivered : stats.by_status.delivered ≡ number_with is_delivered agreements
  pub number_disputed : stats.by_status.disputed ≡ number_with is_disputed agreements
  pub every_one :
      stats.by_status.created + stats.by_status.delivered + stats.by_status.disputed
      ≡ stats.enumerated_agreements
  pub locked : stats.total_locked ≡ amount_of agreements
  pub pairs : List (String × String)
  pub pair_count : stats.distinct_pairs ≡ length pairs
  pub no_repeat : HasNoRepeat pairs
  pub same_pairs : (pair : String × String) → has_pair pair pairs ≡ is_between agreements pair

abbrev is_same : String × String → String × String → Bool
is_same p q = p == q

-- What the loop adds to a tally.
record Adds (agreements : List EscrowAgreement) (t u : Tally) : Type 0 where
  number_created : u.by_status.created ≡ t.by_status.created + number_with is_created agreements
  number_delivered :
      u.by_status.delivered ≡ t.by_status.delivered + number_with is_delivered agreements
  number_disputed : u.by_status.disputed ≡ t.by_status.disputed + number_with is_disputed agreements
  every_one :
      u.by_status.created + u.by_status.delivered + u.by_status.disputed
      ≡ t.by_status.created + t.by_status.delivered + t.by_status.disputed + length agreements
  locked : u.locked ≡ t.locked + amount_of agreements
  same_pairs :
      (pair : String × String)
      → has_pair pair u.pairs ≡ (has_pair pair t.pairs || is_between agreements pair)

or_comm : (x y : Bool) → (x || y) ≡ (y || x)
or_comm true true = refl
or_comm true false = refl
or_comm false true = refl
or_comm false false = refl

or_assoc : (x y z : Bool) → ((x || y) || z) ≡ (x || (y || z))
or_assoc true y z = refl
or_assoc false y z = refl

held_lem :
    (pair new : String × String) (pairs : List (String × String))
    → has_pair new pairs ≡ true
    → has_pair pair pairs ≡ (has_pair pair pairs || new == pair)
held_lem pair new pairs h = elim (Bool-cases (is_same new pair)) [
  | inl same ↦
      let held : has_pair pair pairs ≡ true =
        subst (λ z. has_pair z pairs ≡ true) ((same_pair_iff new pair).0 same) h in
      rw (same, held) refl
  | inr other ↦ rw (or_comm (has_pair pair pairs) (is_same new pair), other) refl
]

has_pair-add_pair :
    (pair new : String × String) (pairs : List (String × String))
    → has_pair pair (add_pair new pairs) ≡ (has_pair pair pairs || new == pair)
has_pair-add_pair pair new pairs = elim (Bool-cases (has_pair new pairs)) [
  | inl held ↦ rw held (held_lem pair new pairs held)
  | inr unknown ↦ rw unknown (or_comm (is_same new pair) (has_pair pair pairs))
]

add_pair-HasNoRepeat :
    (new : String × String) (pairs : List (String × String))
    → HasNoRepeat pairs
    → HasNoRepeat (add_pair new pairs)
add_pair-HasNoRepeat new pairs h = elim (Bool-cases (has_pair new pairs)) [
  | inl held ↦ rw held h
  | inr unknown ↦ rw unknown (unknown, h)
]

tally-HasNoRepeat :
    (agreements : List EscrowAgreement) (t : Tally)
    → HasNoRepeat t.pairs
    → HasNoRepeat (tally agreements t).pairs
unfolding tally
tally-HasNoRepeat [] t h = h
tally-HasNoRepeat (a ∷ agreements) t h =
    tally-HasNoRepeat agreements (count_agreement a t)
      (add_pair-HasNoRepeat (a.buyer, a.provider) t.pairs h)

abbrev one_if : Bool → ℕ
one_if true = 1
one_if false = 0

length-if :
    (b : Bool) (a : EscrowAgreement) (agreements : List EscrowAgreement)
    → length (if b then a ∷ agreements else agreements) ≡ one_if b + length agreements
length-if true a agreements = omega arith
length-if false a agreements = omega arith

number_with-cons :
    (test : EscrowStatus → Bool) (a : EscrowAgreement) (agreements : List EscrowAgreement)
    → number_with test (a ∷ agreements) ≡ one_if (test a.status) + number_with test agreements
number_with-cons test a agreements =
    length-if (test a.status) a (keep (λ (b : EscrowAgreement). test b.status) agreements)

count_in_lem :
    (status : EscrowStatus) (s : ByStatus)
    → ((count_in status s).created ≡ s.created + one_if (is_created status))
      × ((count_in status s).delivered ≡ s.delivered + one_if (is_delivered status))
      × ((count_in status s).disputed ≡ s.disputed + one_if (is_disputed status))
      × ((count_in status s).created + (count_in status s).delivered + (count_in status s).disputed
          ≡ s.created + s.delivered + s.disputed + 1)
count_in_lem EscrowStatus.created s = omega arith
count_in_lem EscrowStatus.delivered s = omega arith
count_in_lem EscrowStatus.disputed s = omega arith

tally-Adds :
    (agreements : List EscrowAgreement) (t : Tally) → Adds agreements t (tally agreements t)
unfolding tally
tally-Adds [] t = record {
  number_created = omega arith;
  number_delivered = omega arith;
  number_disputed = omega arith;
  every_one = omega arith;
  locked = omega arith;
  same_pairs = λ pair. or_comm false (has_pair pair t.pairs);
}
tally-Adds (a ∷ agreements) t =
    let h = tally-Adds agreements (count_agreement a t) in
    let (one_created, one_delivered, one_disputed, one) = count_in_lem a.status t.by_status in
    record {
      number_created =
          omega (arith, h.number_created, one_created, number_with-cons is_created a agreements);
      number_delivered =
          omega
            (arith, h.number_delivered, one_delivered, number_with-cons is_delivered a agreements);
      number_disputed =
          omega (arith, h.number_disputed, one_disputed, number_with-cons is_disputed a agreements);
      every_one = omega (arith, h.every_one, one);
      locked = omega (arith, h.locked);
      same_pairs = λ pair.
          h.same_pairs pair
          ∙ ap (λ z. z || is_between agreements pair)
              (has_pair-add_pair pair (a.buyer, a.provider) t.pairs)
          ∙ or_assoc (has_pair pair t.pairs) (is_same (a.buyer, a.provider) pair)
              (is_between agreements pair);
    }

-- The statistics count every enumerated agreement under exactly one status, each status with the number of
-- the agreements that have it; the locked amount is the sum of their amounts, and the number of distinct
-- pairs is that of a list which holds each pair with an agreement once and no other pair.
pub fetch_escrow_stats-IsCounted :
    (counter : ℕ) (agreements : LiveList EscrowAgreement)
    → IsCounted agreements.items (fetch_escrow_stats counter agreements)
unfolding fetch_escrow_stats
fetch_escrow_stats-IsCounted counter agreements =
    let h = tally-Adds agreements.items seeded in
    record {
      number_created = omega (arith, h.number_created);
      number_delivered = omega (arith, h.number_delivered);
      number_disputed = omega (arith, h.number_disputed);
      every_one = omega (arith, h.every_one);
      locked = omega (arith, h.locked);
      pairs = (tally agreements.items seeded).pairs;
      pair_count = refl;
      no_repeat = tally-HasNoRepeat agreements.items seeded tt;
      same_pairs = h.same_pairs;
    }
