-- ===== src/Agent/Worker/Peer.antt =====
-- Whom the agent may open an agreement with, told from the chain's answers and the operator's configuration.
use mathlib.Core.List.Memᴰ
use mathlib.Core.List.{Memᴰ}
use mathlib.Core.Option.{some_inj}
use mathlib.Core.Path.{subst}
use scalar_commons_v.Base.{
  ◌≡◌, refl, sym, ap, ◌∙◌, Bool, true, false, not, ◌&&◌, some, String, List, [], ◌∷◌, ◌++◌, map,
  any, keep, All, Bool-cases, inl, inr, ◌==◌, string_keys,
}
use scalar_commons_v.Agent.Worker.{choose_peer}
use scalar_commons_v.Agent.Action.{AgreementView}

-- It is not the agent, it is listed in BUYER_PEERS, and it provides in no open agreement that the agent buys in.
pub record MayOpen (me : String) (agreements : List AgreementView) (peers : List String)
    (p : String) : Type 0 where
  pub other : ¬ (p ≡ me)
  pub listed : Memᴰ p peers
  pub free : All (λ (a : AgreementView). a.buyer ≡ me → ¬ (a.provider ≡ p)) agreements

abbrev pub busy_providers : String → List AgreementView → List String
busy_providers me agreements =
    map (λ (a : AgreementView). a.provider) (keep (λ (a : AgreementView). a.buyer == me) agreements)

abbrev may_open : (me : String) (busy peers : List String) → String → Bool
may_open me busy peers p =
    not (p == me) && (not (any (λ b. b == p) busy) && any (λ b. b == p) peers)

not_same : (a b : String) → (a == b) ≡ false → ¬ (a ≡ b)
not_same a b h = λ same. cc (sym h ∙ (string_keys.same_iff a b).1 same)

same_false : (a b : String) → ¬ (a ≡ b) → (a == b) ≡ false
same_false a b h = elim (Bool-cases (a == b)) [
  | inl same ↦ absurd (h ((string_keys.same_iff a b).0 same))
  | inr other ↦ other
]

any-Mem : (p : String) (xs : List String) → any (λ b. b == p) xs ≡ true → Memᴰ p xs
any-Mem p [] h = cc
any-Mem p (x ∷ xs) h = elim (Bool-cases (x == p)) [
  | inl same ↦ Memᴰ.head (sym ((string_keys.same_iff x p).0 same))
  | inr other ↦ Memᴰ.tail (any-Mem p xs (rw other at h))
]

Mem-any : (p : String) (xs : List String) → Memᴰ p xs → any (λ b. b == p) xs ≡ true
Mem-any p [] m = absurd (Memᴰ.not-nil m)
Mem-any p (x ∷ xs) m = elim (Memᴰ.cases_cons m) [
  | inl same ↦ rw ((string_keys.same_iff x p).1 (sym same)) refl
  | inr later ↦ elim (Bool-cases (x == p)) [
    | inl same ↦ rw same refl
    | inr other ↦ rw (other, Mem-any p xs later) refl
  ]
]

busy_free :
    (me p : String) (agreements : List AgreementView)
    → any (λ b. b == p) (busy_providers me agreements) ≡ false
    → All (λ (a : AgreementView). a.buyer ≡ me → ¬ (a.provider ≡ p)) agreements
busy_free me p [] h = tt
busy_free me p (a ∷ agreements) h = elim (Bool-cases (a.buyer == me)) [
  | inr other ↦
      (λ same. absurd (not_same a.buyer me other same), busy_free me p agreements (rw other at h))
  | inl mine ↦ elim (Bool-cases (a.provider == p)) [
    | inl same ↦ cc (rw (mine, same) at h)
    | inr other ↦
        (λ _. not_same a.provider p other, busy_free me p agreements (rw (mine, other) at h))
  ]
]

free_busy :
    (me p : String) (agreements : List AgreementView)
    → All (λ (a : AgreementView). a.buyer ≡ me → ¬ (a.provider ≡ p)) agreements
    → any (λ b. b == p) (busy_providers me agreements) ≡ false
free_busy me p [] h = refl
free_busy me p (a ∷ agreements) (h, hs) = elim (Bool-cases (a.buyer == me)) [
  | inr other ↦ rw (other, free_busy me p agreements hs) refl
  | inl mine ↦
      rw
        (
          mine,
          same_false a.provider p (h ((string_keys.same_iff a.buyer me).0 mine)),
          free_busy me p agreements hs,
        )
        refl
]

module _ (me : String) (agreements : List AgreementView) (peers : List String) where
  may_open-MayOpen :
      (p : String)
      → may_open me (busy_providers me agreements) peers p ≡ true
      → MayOpen me agreements peers p
  may_open-MayOpen p h = elim (Bool-cases (p == me)) [
    | inl same ↦ cc (rw same at h)
    | inr other ↦ elim (Bool-cases (any (λ b. b == p) (busy_providers me agreements))) [
      | inl busy ↦ cc (rw (other, busy) at h)
      | inr free ↦ record {
        other = not_same p me other;
        listed = any-Mem p peers (rw (other, free) at h);
        free = busy_free me p agreements free;
      }
    ]
  ]

  MayOpen-may_open :
      (p : String)
      → MayOpen me agreements peers p
      → may_open me (busy_providers me agreements) peers p ≡ true
  MayOpen-may_open p h =
      rw (same_false p me h.other, free_busy me p agreements h.free, Mem-any p peers h.listed) refl

  -- The choice is the first registered agent that may be opened with.
  pub choose_peer-MayOpen :
      (agents : List String) (p : String)
      → choose_peer me (busy_providers me agreements) peers agents ≡ some p
      → (before after : List String) × (agents ≡ before ++ (p ∷ after))
        × MayOpen me agreements peers p
        × All (λ q. ¬ (MayOpen me agreements peers q)) before
  unfolding choose_peer
  choose_peer-MayOpen [] p e = cc
  choose_peer-MayOpen (q ∷ agents) p e =
      elim (Bool-cases (may_open me (busy_providers me agreements) peers q)) [
        | inl fits ↦
            let same : q ≡ p = some_inj.0 (rw fits at e) in
            let here = may_open-MayOpen q fits in
            (
              [],
              agents,
              ap (λ z. z ∷ agents) same,
              subst (MayOpen me agreements peers) same here,
              tt,
            )
        | inr unfit ↦
            let (before, after, split, allowed, others) =
              choose_peer-MayOpen agents p (rw unfit at e) in
            (
              q ∷ before,
              after,
              ap (◌∷◌ q) split,
              allowed,
              (λ open_. cc (sym unfit ∙ MayOpen-may_open q open_), others),
            )
      ]
