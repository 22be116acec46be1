-- ===== src/Agent/Action.antt =====
-- agent/src/types.ts, and the state of the class Agent of agent/src/agent.ts: an action reads and changes
-- the agent's memory and the chain, and may throw; `step` catches. The chain binding is a record of
-- calls on a state `W` of the chain. Keys and emitted events are kept newest first.
use scalar_commons_v.Base.{
  ℕ, Bool, true, false, Option, none, some, String, List, [], ◌∷◌, string_keys, number_keys,
  pair_keys,
}
use scalar_commons_v.Base.Results.{Result, ok, err}

pub data AgreementStatus : Type 0 where
  created delivered disputed : AgreementStatus

pub record AgreementView : Type 0 where
  pub buyer : String
  pub provider : String
  pub seq : ℕ
  pub amount : ℕ
  pub deliverable_hash : String
  pub deliver_by : ℕ
  pub created_at : ℕ
  pub status : AgreementStatus

abbrev pub Key : Type 0
Key = String × ℕ

pub record AgentState : Type 0 where
  pub accepted : List Key
  pub delivered : List Key
  pub confirmed : List Key

-- What is emitted; the fields that are only logged are left out.
pub data Event : Type 0 where
  error : (step message : String) → Event
  registered metadata_set messaging_key_set heartbeat_sent claimed : Event
  accepted_event delivered_event confirmed_event : Key → Event
  created_event : (provider : String) (amount deliver_by : ℕ) → Event

pub data AgentMode : Type 0 where
  provider buyer both : AgentMode

pub record AgentConfig : Type 0 where
  pub address : String
  pub mode : AgentMode
  pub stake : ℕ
  pub name : String
  pub heartbeat_every_blocks : ℕ
  pub min_delivery_blocks : ℕ
  pub buyer_peers : List String
  pub buyer_amount : ℕ
  pub buyer_max_open : ℕ
  pub buyer_deliver_within : ℕ
  pub messaging_key : Option String

-- A call of the chain; `err` is a throw.
abbrev pub Call : Type 0 → Type 0 → Type 0
Call W A = W → W × Result String A

pub record Chain (W : Type 0) : Type 0 where
  pub head : Call W ℕ
  pub is_registered : String → Call W Bool
  pub last_heartbeat : String → Call W (Option ℕ)
  pub supports_accept : Bool
  pub free_balance : String → Call W ℕ
  pub pending_emissions : String → Call W ℕ
  pub agreements_as_provider : String → Call W (List AgreementView)
  pub agreements_as_buyer : String → Call W (List AgreementView)
  pub registered_agents : Call W (List String)
  pub register : ℕ → Call W String
  pub set_metadata : String → Call W (Option String)
  pub heartbeat : Call W String
  pub accept_agreement : String → ℕ → Call W String
  pub record_delivery : String → ℕ → String → Call W String
  pub create_agreement : String → ℕ → String → ℕ → Call W String
  pub confirm_delivery : String → ℕ → Call W String
  pub claim : Call W String
  pub supports_messaging : Bool
  pub messaging_key_of : String → Call W (Option String)
  pub set_messaging_key : String → Call W String
  -- `createHash('sha256')` of an agreement, and of a buyer's order; and whether two hex keys agree.
  pub delivery_hash_for : AgreementView → String
  pub deliverable_for : (me peer : String) (head : ℕ) → String
  pub same_key : String → String → Bool

pub record Memory (W : Type 0) : Type 0 where
  pub world : W
  pub state : AgentState
  pub metadata_pending : Bool
  pub events : List Event

abbrev pub Action : Type 0 → Type 0 → Type 0
Action W A = Memory W → Memory W × Result String A

module _ {W : Type 0} where
  abbrev pub next :
      {A B : Type 0} → (A → Action W B) → Memory W × Result String A → Memory W × Result String B
  next then_do (s, err message) = (s, err message)
  next then_do (s, ok a) = then_do a s

  infixl 5 ◌>>=◌ ◌>>◌
  unfoldable pub ◌>>=◌ : {A B : Type 0} → Action W A → (A → Action W B) → Action W B
  (action >>= then_do) s = next then_do (action s)

  abbrev pub ◌>>◌ : {A B : Type 0} → Action W A → Action W B → Action W B
  action >> then_do = action >>= λ _. then_do

  unfoldable pub done : {A : Type 0} → A → Action W A
  done a s = (s, ok a)

  abbrev pub on_chain : {A : Type 0} → Memory W → W × Result String A → Memory W × Result String A
  on_chain s (w, r) = (record s { world = w }, r)

  unfoldable pub call : {A : Type 0} → Call W A → Action W A
  call f s = on_chain s (f s.world)

  unfoldable pub emit : Event → Action W (Unit {0})
  emit e s = (record s { events = e ∷ s.events }, ok tt)

  abbrev pub caught :
      {A : Type 0} → String → Memory W × Result String A → Memory W × Result String (Option A)
  caught name (s, ok a) = (s, ok (some a))
  caught name (s, err message) = (record s { events = error name message ∷ s.events }, ok none)

  unfoldable pub step : {A : Type 0} → String → Action W A → Action W (Option A)
  step name action s = caught name (action s)

  unfoldable pub set_pending : Bool → Action W (Unit {0})
  set_pending b s = (record s { metadata_pending = b }, ok tt)

  unfoldable pub pending : Action W Bool
  pending s = (s, ok s.metadata_pending)

  unfoldable pub memory : Action W AgentState
  memory s = (s, ok s.state)

  unfoldable pub when_some : {A : Type 0} → Option A → Action W (Unit {0}) → Action W (Unit {0})
  when_some none action = done tt
  when_some (some a) action = action

  unfoldable pub when : Bool → Action W (Unit {0}) → Action W (Unit {0})
  when true action = action
  when false action = done tt

  unfoldable pub for_each : {A : Type 0} → List A → (A → Action W (Unit {0})) → Action W (Unit {0})
  for_each [] action = done tt
  for_each (a ∷ rest) action = do action a; for_each rest action
