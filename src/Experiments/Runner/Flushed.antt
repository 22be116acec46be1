-- ===== src/Experiments/Runner/Flushed.antt =====
-- What the flush at the end of an era records, and of which era its settlement is.
use mathlib.Core.Path.{subst}
use mathlib.Core.List.{append_assoc}
use scalar_commons_v.Base.{
  ℕ, ◌+◌, ◌<◌, ◌≤◌, ◌≡◌, refl, ap, ◌∙◌, map, ◌++◌, arith, ◌&&◌, String, List, [], ◌∷◌, Option, none,
  some, ltb, Bool-cases, inl, inr, length,
}
use scalar_commons_v.Base.Results.{Result, ok, err, ok_inj, bind-eq-ok}
use scalar_commons_v.Experiments.Recording.{RecordingSdk, Forbidden, perform, settle_era}
use scalar_commons_v.Experiments.Recording.Ledger.{IsLedger, perform-IsLedger}
use scalar_commons_v.Experiments.Recording.Settlings.{settlings, perform-settlings}
use scalar_commons_v.Experiments.Settlement.{
  Settlement, SettlementOutcome, is_era, winner, resolve, flush,
}
use scalar_commons_v.Experiments.Action.{RunState, Halt}
use scalar_commons_v.Experiments.Runner.{after_flush, push_some}

-- The eras of the outcomes increase, from the first on and below the last.
abbrev pub IsSettledWithin : (first last : ℕ) → List SettlementOutcome → Type 0
IsSettledWithin first last [] = Unit {0}
IsSettledWithin first last (o ∷ outcomes) =
    (first ≤ o.era) × ((o.era < last) × IsSettledWithin (o.era + 1) last outcomes)

IsSettledWithin-mono :
    (early first last : ℕ) (outcomes : List SettlementOutcome)
    → early ≤ first
    → IsSettledWithin first last outcomes
    → IsSettledWithin early last outcomes
IsSettledWithin-mono early first last [] h l = tt
IsSettledWithin-mono early first last (o ∷ outcomes) h (l, ls) = (omega (arith, h, l), ls)

-- The era and the settler of each outcome.
abbrev pub settled_by : List SettlementOutcome → List (ℕ × String)
settled_by = map (λ (o : SettlementOutcome). (o.era, o.settler))

-- What a flush may do to the ledger, and of which era its outcome is.
pub record Flushed (era : ℕ) (sdk : RecordingSdk) (outcome : Option SettlementOutcome)
    (sdk' : RecordingSdk) : Type 0 where
  pub kept : IsLedger sdk → IsLedger sdk'
  pub dated :
      (first last : ℕ) (later : List SettlementOutcome)
      → first ≤ era
      → era < last
      → IsSettledWithin (era + 1) last later
      → IsSettledWithin first last (push_some outcome later)
  pub recorded :
      (later : List SettlementOutcome)
      → sdk.era ≡ era
      → settlings sdk'.ledger ++ settled_by later
        ≡ settlings sdk.ledger ++ settled_by (push_some outcome later)

idle-Flushed : (era : ℕ) (sdk : RecordingSdk) → Flushed era sdk none sdk
idle-Flushed era sdk = record {
  kept = λ l. l;
  dated = λ first last later h h' l.
      IsSettledWithin-mono first (era + 1) last later (omega (arith, h)) l;
  recorded = λ later h. refl;
}

flush-Flushed :
    (era : ℕ) (s s' : Settlement) (sdk sdk' : RecordingSdk) (outcome : Option SettlementOutcome)
    → flush era s sdk ≡ ok (outcome, (s', sdk'))
    → Flushed era sdk outcome sdk'
unfolding flush
flush-Flushed era s s' sdk sdk' outcome e =
    elim (Bool-cases (is_era era s.current_era && ltb 0 (length s.current))) [
      | inl due ↦ resolved (winner none s.current) (rw due at e)
      | inr not_due ↦ same (rw not_due at e)
    ]
  where
    same :
        ◌≡◌ {A = Result Forbidden (Option SettlementOutcome × (Settlement × RecordingSdk))}
          (ok (none, (s, sdk)))
          (ok (outcome, (s', sdk')))
        → Flushed era sdk outcome sdk'
    same e =
        subst {A = Option SettlementOutcome × (Settlement × RecordingSdk)}
          (λ z. Flushed era sdk z.0 z.1.1) (ok_inj e) (idle-Flushed era sdk)

    resolved :
        (w : Option (String × ℕ))
        → resolve era s sdk w ≡ ok (outcome, (s', sdk'))
        → Flushed era sdk outcome sdk'
    resolved none e = same e
    resolved (some (settler, best)) e =
        let (t, settled, rest) = bind-eq-ok (perform (settle_era settler) sdk) _ e in
        subst {A = Option SettlementOutcome × (Settlement × RecordingSdk)}
          (λ z. Flushed era sdk z.0 z.1.1) (ok_inj rest)
          (record {
            kept = λ l. perform-IsLedger (settle_era settler) sdk t settled l;
            dated = λ first last later h h' l. (h, (h', l));
            recorded = λ later h.
                ap (λ z. z ++ settled_by later) (perform-settlings settler sdk t settled)
                ∙ append_assoc (settlings sdk.ledger) ((sdk.era, settler) ∷ []) (settled_by later)
                ∙ ap (λ z. settlings sdk.ledger ++ ((z, settler) ∷ settled_by later)) h;
          })

pub after_flush-Flushed :
    (era : ℕ) (s : RunState) (r : Option SettlementOutcome × RunState)
    → after_flush (flush era s.settlement s.sdk) ≡ ok r
    → Flushed era s.sdk r.0 r.1.sdk
after_flush-Flushed era s r e = split (flush era s.settlement s.sdk) refl e
  where
    split :
        (f : Result Forbidden (Option SettlementOutcome × (Settlement × RecordingSdk)))
        → flush era s.settlement s.sdk ≡ f
        → after_flush f ≡ ok r
        → Flushed era s.sdk r.0 r.1.sdk
    split (ok (outcome, (settlement, sdk))) made e =
        subst (λ z. Flushed era s.sdk z.0 z.1.sdk) (ok_inj e)
          (flush-Flushed era s.settlement settlement s.sdk sdk outcome made)
    split (err thrown) made e = absurd (no_ok e)
      where
        no_ok :
            {h : Halt}
            → ◌≡◌ {A = Result Halt (Option SettlementOutcome × RunState)} (err h) (ok r)
            → ⊥
        no_ok e = cc
