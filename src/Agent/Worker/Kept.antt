-- ===== src/Agent/Worker/Kept.antt =====
-- The agent remembers each success it emits, once; and the actions that keep it so, as a calculus
-- over the agent's monad.
use scalar_commons_v.Base.{
  ◌≡◌, refl, arith, Bool, true, false, not, ◌&&◌, Option, none, some, String, List, [], ◌∷◌,
  string_keys, number_keys, pair_keys,
}
use scalar_commons_v.Base.Results.{Result, ok, err}
use scalar_commons_v.Agent.Worker.{includes}
use scalar_commons_v.Agent.Action.{
  Key, AgentState, Event, error, registered, metadata_set, messaging_key_set, heartbeat_sent,
  claimed, accepted_event, delivered_event, confirmed_event, created_event, Call, Memory, Action,
  next, ◌>>=◌, done, on_chain, call, emit, caught, step, set_pending, pending, memory, when_some,
  when, for_each,
}

abbrev pub accepted_keys : List Event → List Key
accepted_keys [] = []
accepted_keys (accepted_event k ∷ es) = k ∷ accepted_keys es
accepted_keys (_ ∷ es) = accepted_keys es

abbrev pub delivered_keys : List Event → List Key
delivered_keys [] = []
delivered_keys (delivered_event k ∷ es) = k ∷ delivered_keys es
delivered_keys (_ ∷ es) = delivered_keys es

abbrev pub confirmed_keys : List Event → List Key
confirmed_keys [] = []
confirmed_keys (confirmed_event k ∷ es) = k ∷ confirmed_keys es
confirmed_keys (_ ∷ es) = confirmed_keys es

abbrev pub HasNoRepeat : List Key → Type 0
HasNoRepeat [] = Unit {0}
HasNoRepeat (k ∷ keys) = (includes keys k ≡ false) × HasNoRepeat keys

-- The keys remembered are those of the successes emitted, each once.
abbrev pub IsLogged : List Key → List Key → Type 0
IsLogged remembered emitted = HasNoRepeat remembered × (emitted ≡ remembered)

abbrev pub IsOnceOf : AgentState → List Event → Type 0
IsOnceOf state events =
    IsLogged state.accepted (accepted_keys events)
    × IsLogged state.delivered (delivered_keys events)
    × IsLogged state.confirmed (confirmed_keys events)

abbrev pub IsOnce : {W : Type 0} → Memory W → Type 0
IsOnce s = IsOnceOf s.state s.events

-- An event that names no agreement.
abbrev pub IsUntracked : Event → Type 0
IsUntracked e =
    (accepted_keys (e ∷ []) ≡ []) × (delivered_keys (e ∷ []) ≡ []) × (confirmed_keys (e ∷ []) ≡ [])

pub record Preserves {W A : Type 0} (action : Action W A) : Type 0 where
  pub kept : (s : Memory W) → IsOnce s → IsOnce (action s).0

module _ {W : Type 0} where
  next-IsOnce :
      {A B : Type 0} (k : A → Action W B) (out : Memory W × Result String A)
      → IsOnce out.0
      → ((a : A) → Preserves (k a))
      → IsOnce (next k out).0
  next-IsOnce k (s, ok a) h p = (p a).kept s h
  next-IsOnce k (s, err message) h p = h

  pub bind-Preserves :
      {A B : Type 0} {action : Action W A} {k : A → Action W B}
      → Preserves action
      → ((a : A) → Preserves (k a))
      → Preserves (action >>= k)
  unfolding ◌>>=◌
  bind-Preserves {action = action} {k = k} p q = record {
    kept = λ s h. next-IsOnce k (action s) (p.kept s h) q;
  }

  pub done-Preserves : {A : Type 0} (a : A) → Preserves (done {W = W} a)
  unfolding done
  done-Preserves a = record { kept = λ s h. h }

  pub call-Preserves : {A : Type 0} (f : Call W A) → Preserves (call f)
  unfolding call
  call-Preserves f = record { kept = λ s h. h }

  caught-IsOnce :
      {A : Type 0} (name : String) (out : Memory W × Result String A)
      → IsOnce out.0
      → IsOnce (caught name out).0
  caught-IsOnce name (s, ok a) h = h
  caught-IsOnce name (s, err message) h = h

  pub step-Preserves :
      {A : Type 0} (name : String) {action : Action W A}
      → Preserves action
      → Preserves (step name action)
  unfolding step
  step-Preserves name {action = action} p = record {
    kept = λ s h. caught-IsOnce name (action s) (p.kept s h);
  }

  pub when-Preserves :
      (b : Bool) {action : Action W (Unit {0})} → Preserves action → Preserves (when b action)
  unfolding when done
  when-Preserves true p = p
  when-Preserves false p = record { kept = λ s h. h }

  pub when_some-Preserves :
      {A : Type 0} (o : Option A) {action : Action W (Unit {0})}
      → Preserves action
      → Preserves (when_some o action)
  unfolding when_some done
  when_some-Preserves none p = record { kept = λ s h. h }
  when_some-Preserves (some a) p = p

  pub for_each-Preserves :
      {A : Type 0} (xs : List A) {action : A → Action W (Unit {0})}
      → ((a : A) → Preserves (action a))
      → Preserves (for_each xs action)
  unfolding for_each done
  for_each-Preserves [] p = record { kept = λ s h. h }
  for_each-Preserves (x ∷ xs) p = bind-Preserves (p x) (λ _. for_each-Preserves xs p)

  pub set_pending-Preserves : (b : Bool) → Preserves (set_pending {W = W} b)
  unfolding set_pending
  set_pending-Preserves b = record { kept = λ s h. h }

  pub pending-Preserves : Preserves (pending {W = W})
  unfolding pending
  pending-Preserves = record { kept = λ s h. h }

  pub emit-Preserves : (e : Event) → IsUntracked e → Preserves (emit {W = W} e)
  unfolding emit
  emit-Preserves (error name message) u = record { kept = λ s h. h }
  emit-Preserves registered u = record { kept = λ s h. h }
  emit-Preserves metadata_set u = record { kept = λ s h. h }
  emit-Preserves messaging_key_set u = record { kept = λ s h. h }
  emit-Preserves heartbeat_sent u = record { kept = λ s h. h }
  emit-Preserves claimed u = record { kept = λ s h. h }
  emit-Preserves (created_event p amount by) u = record { kept = λ s h. h }
  emit-Preserves (accepted_event k) (u, v, w) = absurd (some_key u)
    where
      some_key : {k : Key} → (k ∷ []) ≡ [] → ⊥
      some_key e = cc
  emit-Preserves (delivered_event k) (u, v, w) = absurd (some_key v)
    where
      some_key : {k : Key} → (k ∷ []) ≡ [] → ⊥
      some_key e = cc
  emit-Preserves (confirmed_event k) (u, v, w) = absurd (some_key w)
    where
      some_key : {k : Key} → (k ∷ []) ≡ [] → ⊥
      some_key e = cc

-- An action that keeps `IsOnce` where the memory satisfies `P`.
pub record PreservesIf {W A : Type 0} (P : AgentState → Type 0) (action : Action W A) : Type 0 where
  pub kept_if : (s : Memory W) → P s.state → IsOnce s → IsOnce (action s).0

module _ {W : Type 0} (P : AgentState → Type 0) (push : Action W (Unit {0})) where
  pushed-IsOnce :
      (name : String) (s : Memory W) (out : W × Result String String)
      → PreservesIf P push
      → P s.state
      → IsOnce s
      → IsOnce (next (λ tx. when_some tx push) (caught name (on_chain s out))).0
  unfolding when_some done
  pushed-IsOnce name s (w, ok tx) p c h = p.kept_if (record s { world = w }) c h
  pushed-IsOnce name s (w, err message) p c h = h

  pub try_push-PreservesIf :
      (name : String) (f : Call W String)
      → PreservesIf P push
      → PreservesIf P (step name (call f) >>= λ tx. when_some tx push)
  unfolding step call ◌>>=◌
  try_push-PreservesIf name f p = record {
    kept_if = λ s c h. pushed-IsOnce name s (f s.world) p c h;
  }

  when-PreservesIf :
      (b : Bool) (s : Memory W) (action : Action W (Unit {0}))
      → (b ≡ true → P s.state)
      → PreservesIf P action
      → IsOnce s
      → IsOnce (when b action s).0
  unfolding when done
  when-PreservesIf true s action c p h = p.kept_if s (c refl) h
  when-PreservesIf false s action c p h = h

pub memory-Preserves :
    {W : Type 0} (P : AgentState → Type 0) (test : AgentState → Bool) (action : Action W (Unit {0}))
    → ((state : AgentState) → test state ≡ true → P state)
    → PreservesIf P action
    → Preserves (memory >>= λ state. when (test state) action)
unfolding memory ◌>>=◌
memory-Preserves P test action c p = record {
  kept = λ s h. when-PreservesIf P action (test s.state) s action (c s.state) p h;
}

abbrev pub IsNewAccept : Key → AgentState → Type 0
IsNewAccept k state = includes state.accepted k ≡ false

abbrev pub IsNewDelivery : Key → AgentState → Type 0
IsNewDelivery k state = includes state.delivered k ≡ false

abbrev pub IsNewConfirm : Key → AgentState → Type 0
IsNewConfirm k state = includes state.confirmed k ≡ false

pub and_not : (a b : Bool) → (a && not b) ≡ true → b ≡ false
and_not a b h = ground arith

pub not_and : (a b : Bool) → (not a && b) ≡ true → a ≡ false
not_and a b h = ground arith
