-- ===== src/Indexer/Store/Saved.antt =====
-- `saveBlock` replaces what the index holds of one block, and nothing else.
use scalar_commons_v.Base.{
  ℕ, ◌≡◌, refl, sym, ap, ◌∙◌, Bool, true, false, not, ◌&&◌, ◌||◌, some, String, ◌++◌, eqb,
  if◌then◌else◌, inl, inr, ◌⊎◌, keep, map, lookup, lookup-insert, All, number_keys, string_keys,
}
use scalar_commons_v.Base.Results.{Result, ok, err, bind-eq-ok}
use scalar_commons_v.Indexer.Store.Mentions.{
  is_named, names, is_stale, is_named-insert_extrinsics, is_named-insert_events, any-keep,
  is_named-clear,
}
use scalar_commons_v.Indexer.Store.Sightings.{
  sighted, signs, appears, sighted_twice, sighted-insert_extrinsics, sighted-insert_events,
}
use scalar_commons_v.Indexer.Store.{
  IndexedBlock, IndexerStore, Conflict, in_block, extrinsic_in_block, clear_block, upsert_block,
  insert_extrinsics, save_rows, save_block, committed,
}
use scalar_commons_v.Indexer.Store.Added.{
  keep_replaced, append_nil, insert_extrinsics-Added, insert_events-Added, upsert_block-eq-ok,
}

-- What the index holds after a block was saved over `s`.
pub record IsSaved (b : IndexedBlock) (s t : IndexerStore) (n : ℕ) : Type 0 where
  pub block : lookup n t.blocks ≡ (if eqb b.block.number n then some b.block else lookup n s.blocks)
  pub extrinsics :
      keep (extrinsic_in_block n) t.extrinsics
      ≡ (if eqb n b.block.number then b.extrinsics else keep (extrinsic_in_block n) s.extrinsics)
  pub events :
      keep (in_block n) t.events
      ≡ (if eqb n b.block.number then map (λ e. e.0) b.events else keep (in_block n) s.events)
  pub named :
      (id account : String)
      → is_named id account t.event_accounts ≡ (
          names id account b.events
          || (is_named id account s.event_accounts && not (is_stale b.block.number id s.events)))
  pub accounts :
      (account : String)
      → lookup account t.accounts
        ≡ sighted
            (signs account b.extrinsics || appears account b.events)
            (lookup account s.accounts)
            b.block.number

-- Every row carries the block's number.
pub record IsOneBlock (b : IndexedBlock) : Type 0 where
  pub extrinsics : All (λ x. x.block_number ≡ b.block.number) b.extrinsics
  pub events : All (λ e. e.block_number ≡ b.block.number) (map (λ e. e.0) b.events)

or_comm : (a b : Bool) → (a || b) ≡ (b || a)
or_comm true true = refl
or_comm true false = refl
or_comm false true = refl
or_comm false false = refl

save_rows_named :
    (b : IndexedBlock) (s t : IndexerStore) (id account : String)
    → save_rows b s ≡ ok t
    → is_named id account t.event_accounts ≡ (
        names id account b.events
        || (is_named id account s.event_accounts && not (is_stale b.block.number id s.events)))
unfolding save_rows clear_block
save_rows_named b s t id account h =
    let (s1, h1, r1) = bind-eq-ok (upsert_block b.block (clear_block b.block.number s)) _ h in
    let (s2, h2, h3) = bind-eq-ok (insert_extrinsics b.extrinsics s1) _ r1 in
    let upserted = upsert_block-eq-ok b.block (clear_block b.block.number s) s1 h1 in
    let gone = keep (in_block b.block.number) s.events in
    is_named-insert_events id account b.events s2 t h3
    ∙ or_comm (is_named id account s2.event_accounts) (names id account b.events)
    ∙ ap (λ z. names id account b.events || z)
        (is_named-insert_extrinsics id account b.extrinsics s1 s2 h2
          ∙ ap (λ z. is_named id account z.event_accounts) (sym upserted)
          ∙ is_named-clear id account gone s.event_accounts
          ∙ ap (λ z. is_named id account s.event_accounts && not z)
              (any-keep id b.block.number s.events))

save_rows-IsSaved :
    (b : IndexedBlock) (s t : IndexerStore) (n : ℕ)
    → IsOneBlock b
    → save_rows b s ≡ ok t
    → IsSaved b s t n
unfolding save_rows clear_block
save_rows-IsSaved b s t n one h =
    let (s1, h1, r1) = bind-eq-ok (upsert_block b.block (clear_block b.block.number s)) _ h in
    let (s2, h2, h3) = bind-eq-ok (insert_extrinsics b.extrinsics s1) _ r1 in
    let upserted = upsert_block-eq-ok b.block (clear_block b.block.number s) s1 h1 in
    let x = insert_extrinsics-Added b.extrinsics s1 s2 h2 in
    let e = insert_events-Added b.events s2 t h3 in
    let blocks = e.blocks ∙ x.blocks ∙ ap (λ z. z.blocks) (sym upserted) in
    let extrinsics =
      e.extrinsics_added
      ∙ append_nil s2.extrinsics
      ∙ x.extrinsics_added
      ∙ ap (λ z. z.extrinsics ++ b.extrinsics) (sym upserted) in
    let events =
      e.events_added
      ∙ ap (λ z. z ++ map (λ e. e.0) b.events)
          (x.events_added ∙ append_nil s1.events ∙ ap (λ z. z.events) (sym upserted)) in
    record {
      block = ap (lookup n) blocks ∙ lookup-insert n b.block.number b.block s.blocks;
      extrinsics =
          ap (keep (extrinsic_in_block n)) extrinsics
          ∙ keep_replaced (λ x. x.block_number) n b.block.number s.extrinsics b.extrinsics
              one.extrinsics;
      events =
          ap (keep (in_block n)) events
          ∙ keep_replaced (λ e. e.block_number) n b.block.number s.events (map (λ e. e.0) b.events)
              one.events;
      named = λ id account. save_rows_named b s t id account h;
      accounts = λ account.
          sighted-insert_events account b.block.number b.events s2 t one.events h3
          ∙ ap (λ z. sighted (appears account b.events) z b.block.number)
              (sighted-insert_extrinsics account b.block.number b.extrinsics s1 s2 one.extrinsics h2
                ∙ ap
                    (λ z.
                      sighted (signs account b.extrinsics) (lookup account z.accounts)
                        b.block.number)
                    (sym upserted))
          ∙ sighted_twice (signs account b.extrinsics) (appears account b.events)
              (lookup account s.accounts) b.block.number;
    }

-- `saveBlock` is atomic.
committed_cases :
    (b : IndexedBlock) (s : IndexerStore) (n : ℕ) (r : Result Conflict IndexerStore)
    → save_rows b s ≡ r
    → IsOneBlock b
    → ((c : Conflict) × ((committed s r).1 ≡ err c) × ((committed s r).0 ≡ s))
      ⊎ (((committed s r).1 ≡ ok tt) × IsSaved b s (committed s r).0 n)
committed_cases b s n (err c) e one = inl (c, refl, refl)
committed_cases b s n (ok t) e one = inr (refl, save_rows-IsSaved b s t n one e)

-- `saveBlock` either throws and leaves the index as it was, or the index then holds, for the block's
-- number, exactly the block's row, extrinsics and events in their order, and for each other number what it held
-- before: a repeated write replaces and never accumulates. An account is then named for an event id when an
-- event of the block with this id names it, or when it was named before and no event that the index held of
-- this block had the id; and the range of blocks that an account was seen in is widened to the block's
-- number for the accounts that sign or are named in the block, and is kept for all others. The
-- rows are taken to carry the block's number.
pub save_block-IsSaved :
    (b : IndexedBlock) (s : IndexerStore) (n : ℕ)
    → IsOneBlock b
    → ((c : Conflict) × ((save_block b s).1 ≡ err c) × ((save_block b s).0 ≡ s))
      ⊎ (((save_block b s).1 ≡ ok tt) × IsSaved b s (save_block b s).0 n)
unfolding save_block
save_block-IsSaved b s n one = committed_cases b s n (save_rows b s) refl one
