-- ===== src/Experiments/Settlement/Attempts.antt =====
-- What the attempts of an era leave to its settlement, which then records one call.
use mathlib.Core.Path.{subst}
use scalar_commons_v.Base.{
  ℕ, ◌≡◌, refl, sym, ap, ◌∙◌, arith, Bool, true, false, ◌&&◌, ◌||◌, none, some, String, List, [],
  ◌∷◌, ◌++◌, All, length, if◌then◌else◌, ltb, eqb_iff, Bool-cases, inl, inr, Dict, insert,
  string_keys, ◌==◌,
}
use scalar_commons_v.Base.Results.{ok}
use scalar_commons_v.Experiments.Recording.{
  RecordingSdk, is_privileged_signer, is_privileged_method, push, perform, settle_era,
}
use scalar_commons_v.Experiments.Settlement.{
  Settlement, new_settlement, backoff_of, is_era, attempt, attempt_all, winner, flush,
}
use scalar_commons_v.Experiments.Settlement.Least.{
  is_in, is_key, IsDrawn, insert-IsDrawn, IsLeast, least_unique, entries-IsLeast,
}

abbrev draw : ℕ → Settlement → String → ℕ
draw era s = backoff_of s.seed s.max_backoff era

-- The state in an era of which accounts have volunteered already.
record Attempted (now : ℕ) (s : Settlement) (done : List String) (s' : Settlement) : Type 0 where
  era : s'.current_era ≡ some now
  seed : s'.seed ≡ s.seed
  max_backoff : s'.max_backoff ≡ s.max_backoff
  drawn : IsDrawn (draw now s) s'.current
  keys : (a : String) → is_key a s'.current ≡ is_in a done

is_key-insert :
    (a b : String) (n : ℕ) (dict : Dict String ℕ)
    → is_key a (insert b n dict) ≡ (b == a || is_key a dict)
unfolding insert
is_key-insert a b n [] = refl
is_key-insert a b n ((c, m) ∷ dict) = ground (
  arith,
  is_key-insert a b n dict,
  string_keys.same_iff c b,
  string_keys.same_iff c a,
  string_keys.same_iff b a,
)

first-Attempted :
    (era : ℕ) (a : String) (s : Settlement)
    → is_era era s.current_era ≡ false
    → Attempted era s (a ∷ []) (attempt a era s)
unfolding attempt insert
first-Attempted era a s h =
    rw h
      (record { era = refl; seed = refl; max_backoff = refl; drawn = (refl, tt); keys = λ b. refl })

kept_lem :
    (now : ℕ) (s : Settlement)
    → s.current_era ≡ some now
    → (if is_era now s.current_era then s.current else []) ≡ s.current
kept_lem now s h = rw (h, (eqb_iff now now).1 refl) refl

next-Attempted :
    (now : ℕ) (a : String) (s s' : Settlement) (done : List String)
    → Attempted now s done s'
    → Attempted now s (a ∷ done) (attempt a now s')
unfolding attempt
next-Attempted now a s s' done h = record {
  era = refl;
  seed = h.seed;
  max_backoff = h.max_backoff;
  drawn =
      subst {A = ℕ × Dict String ℕ} (λ z. IsDrawn (draw now s) (insert a z.0 z.1))
        (λ i.
          (backoff_of (sym h.seed i) (sym h.max_backoff i) now a, sym (kept_lem now s' h.era) i))
        (insert-IsDrawn (draw now s) a s'.current h.drawn);
  keys = λ b.
      is_key-insert b a (draw now s' a) (if is_era now s'.current_era then s'.current else [])
      ∙ ap (λ z. a == b || is_key b z) (kept_lem now s' h.era)
      ∙ ap (◌||◌ (a == b)) (h.keys b);
}

-- All of them.
all-Attempted :
    (now : ℕ) (accounts done : List String) (s s' : Settlement)
    → Attempted now s done s'
    → (done' : List String) × (((b : String) → is_in b done' ≡ (is_in b accounts || is_in b done))
        × Attempted now s done' (attempt_all now accounts s'))
all-Attempted now [] done s s' h = (done, ((λ b. refl), h))
all-Attempted now (a ∷ accounts) done s s' h =
    let (done', (same, rest)) =
      all-Attempted now accounts (a ∷ done) s (attempt a now s')
        (next-Attempted now a s s' done h) in
    (
      done',
      ((λ b. swapped (a == b) (is_in b accounts) (is_in b done) (is_in b done') (same b)), rest),
    )
  where
    swapped : (x y z w : Bool) → w ≡ (y || (x || z)) → w ≡ ((x || y) || z)
    swapped x y z w h = ground (arith, h)

-- What the attempts of an era leave to its settlement.
record Decided (now : ℕ) (accounts : List String) (s s' : Settlement) : Type 0 where
  w : String × ℕ
  least : IsLeast (draw now s) accounts w
  result : winner none s'.current ≡ some w
  due : (is_era now s'.current_era && ltb 0 (length s'.current)) ≡ true
  seed : s'.seed ≡ s.seed
  max_backoff : s'.max_backoff ≡ s.max_backoff

attempts-Decided :
    (now : ℕ) (a : String) (accounts : List String) (s : Settlement)
    → is_era now s.current_era ≡ false
    → Decided now (a ∷ accounts) s (attempt_all now (a ∷ accounts) s)
attempts-Decided now a accounts s h =
    let (done, (same, t)) =
      all-Attempted now accounts (a ∷ []) s (attempt a now s) (first-Attempted now a s h) in
    let (w, (result, (some_left, least))) =
      entries-IsLeast (draw now s) (a ∷ accounts) a (attempt_all now (a ∷ accounts) s).current
        t.drawn (λ b. t.keys b ∙ same b ∙ reordered (a == b) (is_in b accounts))
        (ap (λ z. z || is_in a accounts) ((string_keys.same_iff a a).1 refl)) in
    record {
      w = w;
      least = least;
      result = result;
      due = rw (t.era, (eqb_iff now now).1 refl) some_left;
      seed = t.seed;
      max_backoff = t.max_backoff;
    }
  where
    reordered : (x y : Bool) → (y || (x || false)) ≡ (x || y)
    reordered x y = ground arith

-- Two orders of the attempts of an era, of the same accounts, settle it by the same account
-- with the same backoff.
pub winner_any_order :
    (now : ℕ) (a b : String) (xs ys : List String) (s : Settlement)
    → is_era now s.current_era ≡ false
    → ((c : String) → is_in c (a ∷ xs) ≡ is_in c (b ∷ ys))
    → winner none (attempt_all now (a ∷ xs) s).current
      ≡ winner none (attempt_all now (b ∷ ys) s).current
winner_any_order now a b xs ys s h same =
    let d = attempts-Decided now a xs s h in
    let d' = attempts-Decided now b ys s h in
    d.result
    ∙ ap some (least_unique (draw now s) (a ∷ xs) (b ∷ ys) d.w d'.w same d.least d'.least)
    ∙ sym d'.result

each_volunteer :
    (P : String → Bool) (a : String) (accounts : List String)
    → All (λ b. P b ≡ false) accounts
    → is_in a accounts ≡ true
    → P a ≡ false
each_volunteer P a [] h k = absurd (ground (arith, k))
each_volunteer P a (b ∷ accounts) (h, hs) k = elim (Bool-cases (b == a)) [
  | inl same ↦ ap P (sym ((string_keys.same_iff b a).0 same)) ∙ h
  | inr other ↦ each_volunteer P a accounts hs (rw other at k)
]

abbrev with_settlement : String → RecordingSdk → RecordingSdk
with_settlement signer sdk = record sdk {
  ledger =
      sdk.ledger
      ++ (record {
        seq = length sdk.ledger;
        era = sdk.era;
        signer = signer;
        method = "emissions.settleEra";
        args = [];
      }
          ∷ []);
}

perform-settle_era :
    (signer : String) (sdk : RecordingSdk)
    → is_privileged_signer signer ≡ false
    → perform (settle_era signer) sdk ≡ ok (with_settlement signer sdk)
unfolding perform push is_privileged_method
perform-settle_era signer sdk h = rw h refl

-- The era settled by the least of its volunteers: one call is recorded, and nobody is left over.
pub record Settled (now : ℕ) (accounts : List String) (s s' : Settlement) (sdk : RecordingSdk)
    : Type 0 where
  pub settler : String
  pub least : IsLeast (draw now s) accounts (settler, draw now s settler)
  pub flushed :
      flush now s' sdk
      ≡ ok (
        some (record {
          era = now;
          settler = settler;
          backoff = draw now s settler;
          candidates = length s'.current;
        }),
        (new_settlement s.seed s.max_backoff, with_settlement settler sdk),
      )

-- The volunteers of a new era, none of them a privileged signer, settle it: the flush succeeds, it records one
-- `emissions.settleEra` and nothing else, by a volunteer that no other precedes by backoff and account,
-- and it leaves a coordinator without volunteers.
pub attempts-Settled :
    (now : ℕ) (a : String) (accounts : List String) (s : Settlement) (sdk : RecordingSdk)
    → is_era now s.current_era ≡ false
    → All (λ b. is_privileged_signer b ≡ false) (a ∷ accounts)
    → Settled now (a ∷ accounts) s (attempt_all now (a ∷ accounts) s) sdk
unfolding flush
attempts-Settled now a accounts s sdk h allowed =
    let d = attempts-Decided now a accounts s h in
    record {
      settler = d.w.0;
      least = subst (λ n. IsLeast (draw now s) (a ∷ accounts) (d.w.0, n)) d.least.drawn d.least;
      flushed =
          rw
            (
              d.due,
              d.result,
              d.least.drawn,
              d.seed,
              d.max_backoff,
              perform-settle_era d.w.0 sdk (
                  each_volunteer is_privileged_signer d.w.0 (a ∷ accounts) allowed
                    d.least.volunteer),
            )
            refl;
    }
