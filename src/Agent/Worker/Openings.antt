-- ===== src/Agent/Worker/Openings.antt =====
-- What an action leaves of the openings that were reported, whether it throws or not.
use mathlib.Core.Option.{some_inj}
use scalar_commons_v.Base.{
  ℕ, ◌≡◌, refl, sym, ap, ◌∙◌, Bool, true, false, Option, some, none, String, List, [], ◌∷◌,
}
use scalar_commons_v.Base.Results.{Result, ok, err, ok_inj}
use scalar_commons_v.Agent.Action.{
  Event, created_event, Call, Memory, Action, next, ◌>>=◌, done, call, step, caught, on_chain,
  when_some, when, for_each,
}

-- The peer, the amount and the last block of each agreement that was reported as opened.
abbrev pub openings : List Event → List (String × ℕ × ℕ)
openings [] = []
openings (created_event p amount by ∷ es) = (p, amount, by) ∷ openings es
openings (_ ∷ es) = openings es

-- What holds of a memory after an action, whether the action throws or not.
module _ {W : Type 0} where
  pub record Quiet {A : Type 0} (action : Action W A) : Type 0 where
    pub same : (s : Memory W) → openings (action s).0.events ≡ openings s.events

  next_cases :
      {A B : Type 0} (Q : Memory W → Type 0) (k : A → Action W B) (r : Memory W × Result String A)
      → ((m : Memory W) (e : String) → r ≡ (m, err e) → Q m)
      → ((m : Memory W) (a : A) → r ≡ (m, ok a) → Q (k a m).0)
      → Q (next k r).0
  next_cases Q k (m, err e) failed went = failed m e refl
  next_cases Q k (m, ok a) failed went = went m a refl

  pub bind_cases :
      {A B : Type 0} (Q : Memory W → Type 0) (action : Action W A) (k : A → Action W B)
      (s : Memory W)
      → ((m : Memory W) (e : String) → action s ≡ (m, err e) → Q m)
      → ((m : Memory W) (a : A) → action s ≡ (m, ok a) → Q (k a m).0)
      → Q ((action >>= k) s).0
  unfolding ◌>>=◌
  bind_cases Q action k s failed went = next_cases Q k (action s) failed went

  pub when_cases :
      (Q : Memory W → Type 0) (b : Bool) (action : Action W (Unit {0})) (m : Memory W)
      → Q m
      → (b ≡ true → Q (action m).0)
      → Q (when b action m).0
  unfolding when done
  when_cases Q true action m skipped ran = ran refl
  when_cases Q false action m skipped ran = skipped

  pub call_events :
      {A : Type 0} (f : Call W A) (s m : Memory W) (r : Result String A)
      → call f s ≡ (m, r)
      → (openings m.events ≡ openings s.events) × ((f s.world).1 ≡ r) × (m.world ≡ (f s.world).0)
  unfolding call
  call_events f s m r h =
      (ap (λ z. openings z.0.events) (sym h), ap (λ z. z.1) h, ap (λ z. z.0.world) (sym h))

  pub bind-Quiet :
      {A B : Type 0} {action : Action W A} {k : A → Action W B}
      → Quiet action
      → ((a : A) → Quiet (k a))
      → Quiet (action >>= k)
  bind-Quiet {action} {k} quiet quiets = record {
    same = λ s.
        bind_cases (λ m. openings m.events ≡ openings s.events) action k s
          (λ m e h. ap (λ z. openings z.0.events) (sym h) ∙ quiet.same s)
          (λ m a h. (quiets a).same m ∙ ap (λ z. openings z.0.events) (sym h) ∙ quiet.same s);
  }

  pub done-Quiet : {A : Type 0} (a : A) → Quiet (done a)
  unfolding done
  done-Quiet a = record { same = λ s. refl }

  pub when-Quiet : (b : Bool) {action : Action W (Unit {0})} → Quiet action → Quiet (when b action)
  unfolding when
  when-Quiet true quiet = quiet
  when-Quiet false quiet = done-Quiet tt

  pub when_some-Quiet :
      {A : Type 0} (o : Option A) {action : Action W (Unit {0})}
      → Quiet action
      → Quiet (when_some o action)
  unfolding when_some
  when_some-Quiet (some a) quiet = quiet
  when_some-Quiet none quiet = done-Quiet tt

  pub for_each-Quiet :
      {A : Type 0} (xs : List A) {action : A → Action W (Unit {0})}
      → ((a : A) → Quiet (action a))
      → Quiet (for_each xs action)
  unfolding for_each
  for_each-Quiet [] quiet = done-Quiet tt
  for_each-Quiet (a ∷ rest) quiet = bind-Quiet (quiet a) (λ _. for_each-Quiet rest quiet)

  caught_call :
      {A : Type 0} (name : String) (out : Memory W × Result String A)
      → openings (caught name out).0.events ≡ openings out.0.events
  caught_call name (s, ok a) = refl
  caught_call name (s, err e) = refl

  pub step_call-Quiet : {A : Type 0} (name : String) (f : Call W A) → Quiet (step name (call f))
  unfolding step call
  step_call-Quiet name f = record { same = λ s. caught_call name (on_chain s (f s.world)) }

  -- A caught call that gives a value is a call that gave it.
  caught-some :
      {A : Type 0} (name : String) (a : A) (m : Memory W) (out : Memory W × Result String A)
      → caught name out ≡ (m, ok (some a))
      → out.1 ≡ ok a
  caught-some name a m (s, ok b) h = ap ok (some_inj.0 (ok_inj (ap (λ z. z.1) h)))
  caught-some name a m (s, err e) h = cc (ok_inj (ap (λ z. z.1) h))

  pub step-some :
      {A : Type 0} (name : String) (f : Call W A) (s m : Memory W) (a : A)
      → step name (call f) s ≡ (m, ok (some a))
      → (f s.world).1 ≡ ok a
  unfolding step call
  step-some name f s m a h = caught-some name a m (on_chain s (f s.world)) h
