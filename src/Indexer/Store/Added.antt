-- ===== src/Indexer/Store/Added.antt =====
-- The rows that the statements of `saveBlock` add.
use scalar_commons_v.Base.{
  ℕ, ◌≡◌, refl, sym, ap, ◌∙◌, arith, Bool, true, false, not, String, List, [], ◌∷◌, ◌++◌, eqb,
  if◌then◌else◌, Bool-cases, inl, inr, keep, any, map, insert, All, ◌==◌, number_keys, string_keys,
}
use scalar_commons_v.Base.Results.{Result, ok, err, require-eq-ok, ok_inj}
use scalar_commons_v.Indexer.Store.{
  BlockRow, ExtrinsicRow, EventRow, IndexerStore, Conflict, extrinsic_id, event_id, hash_taken,
  upsert_block, insert_extrinsics, insert_event_accounts, insert_events, touch_signer,
}

module _ {A : Type 0} where
  keep-append : (p : A → Bool) (xs ys : List A) → keep p (xs ++ ys) ≡ keep p xs ++ keep p ys
  keep-append p [] ys = refl
  keep-append p (x ∷ xs) ys = ground (arith, keep-append p xs ys)

  keep-All : (p : A → Bool) (xs : List A) → All (λ x. p x ≡ true) xs → keep p xs ≡ xs
  keep-All p [] h = refl
  keep-All p (x ∷ xs) (h, hs) = rw (h, keep-All p xs hs) refl

  append_assoc : (xs ys zs : List A) → (xs ++ ys) ++ zs ≡ xs ++ (ys ++ zs)
  append_assoc [] ys zs = refl
  append_assoc (x ∷ xs) ys zs = ap (◌∷◌ x) (append_assoc xs ys zs)

  pub append_nil : (xs : List A) → xs ++ [] ≡ xs
  append_nil [] = refl
  append_nil (x ∷ xs) = ap (◌∷◌ x) (append_nil xs)

  -- Rows of a number after those of `number` were dropped.
  module _ (of : A → ℕ) where
    keep-drop :
        (n number : ℕ) (xs : List A)
        → keep (λ x. eqb (of x) n) (keep (λ x. not (eqb (of x) number)) xs)
          ≡ (if eqb n number then [] else keep (λ x. eqb (of x) n) xs)
    keep-drop n number [] = ground arith
    keep-drop n number (x ∷ xs) = ground (arith, keep-drop n number xs)

    keep_none :
        (n number : ℕ) (xs : List A)
        → All (λ x. of x ≡ number) xs
        → keep (λ x. eqb (of x) n) xs ≡ (if eqb n number then xs else [])
    keep_none n number [] h = ground arith
    keep_none n number (x ∷ xs) (h, hs) = ground (arith, h, keep_none n number xs hs)

    pub keep_replaced :
        (n number : ℕ) (old new : List A)
        → All (λ x. of x ≡ number) new
        → keep (λ x. eqb (of x) n) (keep (λ x. not (eqb (of x) number)) old ++ new)
          ≡ (if eqb n number then new else keep (λ x. eqb (of x) n) old)
    keep_replaced n number old new h =
        keep-append (λ x. eqb (of x) n) (keep (λ x. not (eqb (of x) number)) old) new
        ∙ rw (keep-drop n number old, keep_none n number new h)
            (replaced (eqb n number) new (keep (λ x. eqb (of x) n) old))
      where
        replaced :
            (b : Bool) (new old : List A)
            → (if b then [] else old) ++ (if b then new else []) ≡ (if b then new else old)
        replaced true new old = refl
        replaced false new old = append_nil old

-- `t` is `s` with the rows added, up to its accounts.
pub record Added (s t : IndexerStore) (extrinsics : List ExtrinsicRow) (events : List EventRow)
    : Type 0 where
  pub blocks : t.blocks ≡ s.blocks
  pub extrinsics_added : t.extrinsics ≡ s.extrinsics ++ extrinsics
  pub events_added : t.events ≡ s.events ++ events

pub insert_extrinsics-Added :
    (xs : List ExtrinsicRow) (s t : IndexerStore) → insert_extrinsics xs s ≡ ok t → Added s t xs []
unfolding insert_extrinsics
insert_extrinsics-Added [] s t h =
    let same = ok_inj h in
    record {
      blocks = ap (λ z. z.blocks) (sym same);
      extrinsics_added = ap (λ z. z.extrinsics) (sym same) ∙ sym (append_nil s.extrinsics);
      events_added = ap (λ z. z.events) (sym same) ∙ sym (append_nil s.events);
    }
insert_extrinsics-Added (x ∷ xs) s t h =
    let next : IndexerStore = record s {
      extrinsics = s.extrinsics ++ (x ∷ []);
      accounts = touch_signer x s.accounts;
    } in
    let (fresh, h1) =
      require-eq-ok (not (any (λ (row : ExtrinsicRow). row.id == x.id) s.extrinsics)) extrinsic_id _
        h in
    let rest = insert_extrinsics-Added xs next t h1 in
    record {
      blocks = rest.blocks;
      extrinsics_added = rest.extrinsics_added ∙ append_assoc s.extrinsics (x ∷ []) xs;
      events_added = rest.events_added;
    }

insert_event_accounts-Added :
    (e : EventRow) (accounts : List String) (s : IndexerStore)
    → Added s (insert_event_accounts e accounts s) [] []
unfolding insert_event_accounts
insert_event_accounts-Added e [] s = record {
  blocks = refl;
  extrinsics_added = sym (append_nil s.extrinsics);
  events_added = sym (append_nil s.events);
}
insert_event_accounts-Added e (address ∷ rest) s =
    let later = insert_event_accounts-Added e rest _ in
    record {
      blocks = later.blocks;
      extrinsics_added = later.extrinsics_added;
      events_added = later.events_added;
    }

pub insert_events-Added :
    (es : List (EventRow × List String)) (s t : IndexerStore)
    → insert_events es s ≡ ok t
    → Added s t [] (map (λ e. e.0) es)
unfolding insert_events
insert_events-Added [] s t h =
    let same = ok_inj h in
    record {
      blocks = ap (λ z. z.blocks) (sym same);
      extrinsics_added = ap (λ z. z.extrinsics) (sym same) ∙ sym (append_nil s.extrinsics);
      events_added = ap (λ z. z.events) (sym same) ∙ sym (append_nil s.events);
    }
insert_events-Added ((e, accounts) ∷ rest) s t h =
    let added : IndexerStore = record s { events = s.events ++ (e ∷ []) } in
    let (fresh, h1) =
      require-eq-ok (not (any (λ (row : EventRow). row.id == e.id) s.events)) event_id _ h in
    let here = insert_event_accounts-Added e accounts added in
    let later = insert_events-Added rest (insert_event_accounts e accounts added) t h1 in
    record {
      blocks = later.blocks ∙ here.blocks;
      extrinsics_added = later.extrinsics_added ∙ append_nil _ ∙ here.extrinsics_added;
      events_added =
          later.events_added
          ∙ ap (λ z. z ++ map (λ e. e.0) rest) (here.events_added ∙ append_nil _)
          ∙ append_assoc s.events (e ∷ []) (map (λ e. e.0) rest);
    }

no_store :
    {c : Conflict} {t : IndexerStore} → ◌≡◌ {A = Result Conflict IndexerStore} (err c) (ok t) → ⊥
no_store e = cc

pub upsert_block-eq-ok :
    (b : BlockRow) (s t : IndexerStore)
    → upsert_block b s ≡ ok t
    → record s { blocks = insert b.number b s.blocks } ≡ t
unfolding upsert_block
upsert_block-eq-ok b s t h = elim (Bool-cases (hash_taken b s.blocks)) [
  | inl taken ↦ absurd (no_store (rw taken at h))
  | inr free ↦ ok_inj (rw free at h)
]
