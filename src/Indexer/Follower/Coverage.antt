-- ===== src/Indexer/Follower/Coverage.antt =====
-- Which blocks one catch-up adds.
use scalar_commons_v.Base.{
  ℕ, zero, suc, ◌+◌, ◌≤◌, ◌≡◌, refl, sym, ap, ◌∙◌, arith, Bool, true, false, ◌||◌, ◌&&◌, Option,
  none, some, ltb, leb, eqb, eqb_iff, if◌then◌else◌, Bool-cases, inl, inr, ◌⊎◌, number_keys,
}
use scalar_commons_v.Base.Results.{Result, ok, err}
use scalar_commons_v.Indexer.Store.{IndexedBlock, IndexerStore, Conflict, save_block, has_block}
use scalar_commons_v.Indexer.Store.Saved.{IsOneBlock, IsSaved, save_block-IsSaved}
use scalar_commons_v.Indexer.Follower.{
  ChainIndexer, release_waiters, saved, fetched, index_block, if_missing, index_from,
}

-- The node answers for a height with that block.
abbrev pub IsNode : (ℕ → Option IndexedBlock) → Type 0
IsNode fetch = (n : ℕ) (b : IndexedBlock) → fetch n ≡ some b → (b.block.number ≡ n) × IsOneBlock b

-- `t` holds what `s` holds and the `k` blocks from `number` on.
abbrev pub Covers : IndexerStore → IndexerStore → (number k : ℕ) → Type 0
Covers s t number k =
    (n : ℕ) → has_block t n ≡ (has_block s n || (leb number n && ltb n (number + k)))

has_block-save_block :
    (b : IndexedBlock) (s t : IndexerStore) (n : ℕ)
    → IsSaved b s t n
    → has_block t n ≡ (has_block s n || eqb b.block.number n)
unfolding has_block
has_block-save_block b s t n h = rw h.block (ground arith)

no_conflict : {c : Conflict} → ◌≡◌ {A = Result Conflict (Unit {0})} (err c) (ok tt) → ⊥
no_conflict e = cc

-- One index step fails and leaves the store, or adds its block.
abbrev pub Steps : ℕ → ChainIndexer → ChainIndexer × Bool → Type 0
Steps number c out =
    ((out.1 ≡ false) × (out.0.store ≡ c.store))
    ⊎ ((out.1 ≡ true) × Covers c.store out.0.store number 1)

saved-Steps :
    (fetch : ℕ → Option IndexedBlock) (number : ℕ) (c : ChainIndexer) (b : IndexedBlock)
    (r : IndexerStore × Result Conflict (Unit {0}))
    → save_block b c.store ≡ r
    → b.block.number ≡ number
    → IsOneBlock b
    → Steps number c (saved number c r)
unfolding release_waiters
saved-Steps fetch number c b (store, err x) e same one =
    elim (save_block-IsSaved b c.store number one) [
      | inl (x', e1, e2) ↦ inl (refl, ap (λ z. z.0) (sym e) ∙ e2)
      | inr (e1, h) ↦ absurd (no_conflict (ap (λ z. z.1) (sym e) ∙ e1))
    ]
saved-Steps fetch number c b (store, ok done) e same one = inr (
  refl,
  λ n. elim (save_block-IsSaved b c.store n one) [
    | inl (x', e1, e2) ↦ absurd (no_conflict (sym e1 ∙ ap (λ z. z.1) e))
    | inr (e1, h) ↦
        ap (λ z. has_block z.0 n) (sym e)
        ∙ has_block-save_block b c.store (save_block b c.store).0 n h
        ∙ ap (λ z. has_block c.store n || z) (ground (arith, same))
  ],
)

fetched-Steps :
    (fetch : ℕ → Option IndexedBlock) (number : ℕ) (c : ChainIndexer) (o : Option IndexedBlock)
    → ((b : IndexedBlock) → o ≡ some b → (b.block.number ≡ number) × IsOneBlock b)
    → Steps number c (fetched fetch number c o)
fetched-Steps fetch number c none h = inl (refl, refl)
fetched-Steps fetch number c (some b) h =
    let (same, one) = h b refl in saved-Steps fetch number c b (save_block b c.store) refl same one

pub index_block-Steps :
    (fetch : ℕ → Option IndexedBlock) (number : ℕ) (c : ChainIndexer)
    → IsNode fetch
    → Steps number c (index_block fetch number c)
unfolding index_block
index_block-Steps fetch number c node = fetched-Steps fetch number c (fetch number) (node number)

if_missing-Steps :
    (fetch : ℕ → Option IndexedBlock) (number : ℕ) (c : ChainIndexer) (held : Bool)
    → IsNode fetch
    → has_block c.store number ≡ held
    → Steps number c (if_missing fetch number c held)
if_missing-Steps fetch number c true node e = inr (
  refl,
  λ n. elim (Bool-cases (eqb number n)) [
    | inl hit ↦ rw (← (eqb_iff number n).0 hit, e) refl
    | inr miss ↦ ground arith
  ],
)
if_missing-Steps fetch number c false node e = index_block-Steps fetch number c node

-- What a loop of `count` steps from `number` on has done.
abbrev pub Advanced : IndexerStore → ChainIndexer × Bool → (number count : ℕ) → Type 0
Advanced s out number count =
    (k : ℕ) × (k ≤ count) × Covers s out.0.store number k × (out.1 ≡ true → k ≡ count)

step-Advanced :
    (fetch : ℕ → Option IndexedBlock) (number count : ℕ) (c : ChainIndexer)
    (out : ChainIndexer × Bool)
    → Steps number c out
    → ((d : ChainIndexer)
        → Advanced d.store (index_from fetch (number + 1) count d) (number + 1) count)
    → Advanced c.store
        (if out.1 then index_from fetch (number + 1) count out.0 else (out.0, false))
        number
        (suc count)
step-Advanced fetch number count c (d, true) (inl (e, same)) ih = cc
step-Advanced fetch number count c (d, false) (inl (e, same)) ih =
    (0, omega arith, λ n. ap (λ z. has_block z n) same ∙ ground arith, λ e. cc)
step-Advanced fetch number count c (d, false) (inr (e, covers)) ih = cc
step-Advanced fetch number count c (d, true) (inr (e, covers)) ih =
    let (k, le, later, all) = ih d in
    (suc k, omega arith, λ n. later n ∙ rw (covers n) (ground arith), λ h. ap suc (all h))

-- The loop adds a first stretch of the blocks it is for, and all of them if nothing is thrown.
pub index_from-Advanced :
    (fetch : ℕ → Option IndexedBlock) (number count : ℕ) (c : ChainIndexer)
    → IsNode fetch
    → Advanced c.store (index_from fetch number count c) number count
unfolding index_from
index_from-Advanced fetch number zero c node = (0, omega arith, λ n. ground arith, λ e. refl)
index_from-Advanced fetch number (suc count) c node =
    step-Advanced fetch number count c (if_missing fetch number c (has_block c.store number))
      (if_missing-Steps fetch number c (has_block c.store number) node refl)
      (λ d. index_from-Advanced fetch (number + 1) count d node)
