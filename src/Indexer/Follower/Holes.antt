-- ===== src/Indexer/Follower/Holes.antt =====
-- Following finalized heads leaves no hole in the index.
use scalar_commons_v.Base.{
  ℕ, ◌+◌, ◌-◌, ◌≤◌, ◌≡◌, refl, ◌∙◌, arith, Bool, true, false, Option, none, some, [], ◌∷◌, ltb, eqb,
  eqb_iff, if◌then◌else◌, Bool-cases, Option-cases, inl, inr, ◌⊎◌, lookup, number_keys, Dict,
}
use scalar_commons_v.Indexer.Store.{
  IndexedBlock, BlockRow, IndexerStore, has_block, is_present, latest_block_number, highest, max_or,
}
use scalar_commons_v.Indexer.Follower.{ChainIndexer, index_from, catch_up_to, first_to_index}
use scalar_commons_v.Indexer.Follower.Coverage.{IsNode, Covers, Advanced, index_from-Advanced}

-- From `base` to the latest block every block is held.
abbrev pub HasNoHoles : ℕ → IndexerStore → Type 0
HasNoHoles base s =
    (m : ℕ) → latest_block_number s ≡ some m → (n : ℕ) → base ≤ n → n ≤ m → has_block s n ≡ true

max_or-le :
    (o : Option ℕ) (n m : ℕ) → max_or o n ≡ some m → (n ≤ m) × ((p : ℕ) → o ≡ some p → p ≤ m)
max_or-le none n m e = (ground arith, λ p h. cc)
max_or-le (some q) n m e = (ground arith, λ p h. ground arith)

highest-none :
    (blocks : Dict ℕ BlockRow) (n : ℕ)
    → highest blocks ≡ none
    → is_present (lookup n blocks) ≡ false
unfolding lookup
highest-none [] n e = refl
highest-none ((k, b) ∷ blocks) n e = absurd (some_max (highest blocks) k e)
  where
    some_max : (o : Option ℕ) (k : ℕ) → max_or o k ≡ none → ⊥
    some_max none k e = cc
    some_max (some p) k e = cc

-- The highest number bounds the numbers held.
highest_bound :
    (blocks : Dict ℕ BlockRow) (m n : ℕ)
    → highest blocks ≡ some m
    → is_present (lookup n blocks) ≡ true
    → n ≤ m
unfolding lookup
highest_bound [] m n e h = cc
highest_bound ((k, b) ∷ blocks) m n e h = elim (Bool-cases (eqb k n)) [
  | inl hit ↦ ground (arith, (max_or-le (highest blocks) k m e).0)
  | inr miss ↦ elim (Option-cases (highest blocks)) [
    | inl empty ↦ absurd (ground (arith, highest-none blocks n empty, (rw miss at h)))
    | inr (p, f) ↦
        ground (
          arith,
          highest_bound blocks p n f (rw miss at h),
          (max_or-le (highest blocks) k m e).1 p f,
        )
  ]
]

max_or-cases : (o : Option ℕ) (k m : ℕ) → max_or o k ≡ some m → (k ≡ m) ⊎ (o ≡ some m)
max_or-cases none k m e = inl (ground arith)
max_or-cases (some p) k m e = elim (Bool-cases (ltb p k)) [
  | inl less ↦ inl (ground arith)
  | inr more ↦ inr (ground arith)
]

present_if :
    (b : Bool) (x : BlockRow) (o : Option BlockRow)
    → is_present o ≡ true
    → is_present (if b then some x else o) ≡ true
present_if true x o h = refl
present_if false x o h = h

highest_held :
    (blocks : Dict ℕ BlockRow) (m : ℕ)
    → highest blocks ≡ some m
    → is_present (lookup m blocks) ≡ true
unfolding lookup
highest_held [] m e = cc
highest_held ((k, b) ∷ blocks) m e = elim (max_or-cases (highest blocks) k m e) [
  | inl same ↦ rw ((eqb_iff k m).1 same) refl
  | inr later ↦ present_if (eqb k m) b (lookup m blocks) (highest_held blocks m later)
]

Advanced-HasNoHoles :
    (s : IndexerStore) (out : ChainIndexer × Bool) (height base m : ℕ)
    → latest_block_number s ≡ some m
    → HasNoHoles base s
    → Advanced s out (first_to_index (some m) height) (height + 1 - first_to_index (some m) height)
    → HasNoHoles base out.0.store
unfolding latest_block_number has_block
Advanced-HasNoHoles s out height base m e holes (k, le, covers, all) m' e' n h h' =
    let top = highest_held out.0.store.blocks m' e' in
    ground (arith, covers n, covers m', top, holes m e n h, highest_bound s.blocks m m' e)

-- If the index holds every block from `base` to its latest, it still does after a catch-up to any
-- height, whether it completes or stops at a block that cannot be read or stored. The index is not empty, and
-- the node answers for a height with that block.
pub catch_up_to-HasNoHoles :
    (fetch : ℕ → Option IndexedBlock) (height base m : ℕ) (c : ChainIndexer)
    → IsNode fetch
    → latest_block_number c.store ≡ some m
    → HasNoHoles base c.store
    → HasNoHoles base (catch_up_to fetch height c).0.store
unfolding catch_up_to
catch_up_to-HasNoHoles fetch height base m c node e holes = rw e (
    Advanced-HasNoHoles c.store
      (index_from fetch (first_to_index (some m) height)
        (height + 1 - first_to_index (some m) height) c)
      height base m e holes
      (index_from-Advanced fetch (first_to_index (some m) height)
        (height + 1 - first_to_index (some m) height) c node))

complete :
    (s : IndexerStore) (out : ChainIndexer × Bool) (height base m n k : ℕ)
    → Covers s out.0.store (first_to_index (some m) height) k
    → k ≡ height + 1 - first_to_index (some m) height
    → (n ≤ m → has_block s n ≡ true)
    → n ≤ height
    → has_block out.0.store n ≡ true
complete s out height base m n k covers size old h = covers n ∙ ground (arith, old, size)

-- A catch-up that throws nothing has every block from `base` to the height in the index: none is
-- skipped, however far finality jumped. The index held every block from `base` to its latest before.
pub catch_up_to_complete :
    (fetch : ℕ → Option IndexedBlock) (height base m n : ℕ) (c : ChainIndexer)
    → IsNode fetch
    → latest_block_number c.store ≡ some m
    → HasNoHoles base c.store
    → (catch_up_to fetch height c).1 ≡ true
    → base ≤ n
    → n ≤ height
    → has_block (catch_up_to fetch height c).0.store n ≡ true
unfolding catch_up_to
catch_up_to_complete fetch height base m n c node e holes done h h' =
    let from = first_to_index (some m) height in
    let (k, le, covers, all) = index_from-Advanced fetch from (height + 1 - from) c node in
    rw e (
      complete c.store (index_from fetch from (height + 1 - from) c) height base m n k covers
        (all (rw e at done)) (holes m e n h) h')
