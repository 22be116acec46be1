-- ===== src/Agent/Worker.antt =====
-- agent/src/agent.ts: the reference worker, one `tick` after the other. A key `counterparty:seq` is the
-- pair, and keys and emitted events are kept newest first.
pub mod Allowed
pub mod Kept
pub mod Once
pub mod Opened
pub mod Openings
pub mod Peer
mod Tests
use scalar_commons_v.Base.{
  ℕ, ◌+◌, ◌-◌, Bool, true, false, not, ◌&&◌, ◌||◌, Option, none, some, String, List, [], ◌∷◌, ltb,
  leb, if◌then◌else◌, keep, any, map, length, ◌==◌, string_keys, number_keys, pair_keys,
}
use scalar_commons_v.Base.Results.{Result, ok, err}
use scalar_commons_v.Agent.Action.{
  Action, AgentConfig, AgentMode, buyer, provider, AgreementStatus, created, delivered, disputed,
  AgreementView, Chain, Key, Event, error, registered, metadata_set, messaging_key_set,
  heartbeat_sent, claimed, accepted_event, delivered_event, confirmed_event, created_event, Memory,
  call, done, emit, for_each, memory, pending, set_pending, step, when, when_some, ◌>>=◌, ◌>>◌,
}

abbrev pub includes : List Key → Key → Bool
includes keys k = any (λ other. other == k) keys

abbrev pub is_status : AgreementStatus → AgreementStatus → Bool
is_status created created = true
is_status delivered delivered = true
is_status disputed disputed = true
is_status _ _ = false

-- What `provide` works on.
unfoldable pub is_due : String → ℕ → AgreementView → Bool
is_due me head a = a.provider == me && (is_status a.status created && leb head a.deliver_by)

-- The first registered agent that `buy` may open an agreement with.
unfoldable pub choose_peer : (me : String) (busy peers agents : List String) → Option String
choose_peer me busy peers [] = none
choose_peer me busy peers (p ∷ agents) =
    let later = choose_peer me busy peers agents in
    if not (p == me) && (not (any (λ b. b == p) busy) && any (λ b. b == p) peers)
    then some p
    else later

-- `!force && last !== null && head - last < every`, with the difference of two bigints.
abbrev pub is_recent : Bool → ℕ → Option ℕ → ℕ → Bool
is_recent true head last every = false
is_recent false head none every = false
is_recent false head (some last) every = ltb head (last + every)

abbrev pub is_published : (String → String → Bool) → Option String → String → Bool
is_published same_key none key = false
is_published same_key (some previous) key = same_key previous key

abbrev pub provides : AgentMode → Bool
provides buyer = false
provides _ = true

abbrev pub buys : AgentMode → Bool
buys provider = false
buys _ = true

abbrev pub is_nil : List String → Bool
is_nil [] = true
is_nil (x ∷ xs) = false

module _ {W : Type 0} (chain : Chain W) (config : AgentConfig) where
  unfoldable pub push_accepted : Key → Action W (Unit {0})
  push_accepted k s = (
    record s {
      state = record s.state { accepted = k ∷ s.state.accepted };
      events = accepted_event k ∷ s.events;
    },
    ok tt,
  )

  unfoldable pub push_delivered : Key → Action W (Unit {0})
  push_delivered k s = (
    record s {
      state = record s.state { delivered = k ∷ s.state.delivered };
      events = delivered_event k ∷ s.events;
    },
    ok tt,
  )

  unfoldable pub push_confirmed : Key → Action W (Unit {0})
  push_confirmed k s = (
    record s {
      state = record s.state { confirmed = k ∷ s.state.confirmed };
      events = confirmed_event k ∷ s.events;
    },
    ok tt,
  )

  unfoldable pub update_metadata : Action W (Unit {0})
  update_metadata = do
    tx ← call (chain.set_metadata config.name)
    set_pending false
    when_some tx (emit metadata_set)

  abbrev pub after_register : Option String → Action W (Option Bool)
  after_register none = done none
  after_register (some tx) = do
    emit registered
    set_pending true
    step "metadata" update_metadata
    done (some true)

  abbrev pub after_check : Option Bool → Action W (Option Bool)
  after_check none = done none
  after_check (some true) = done (some false)
  after_check (some false) = do
    tx ← step "register" (call (chain.register config.stake))
    after_register tx

  -- `some false` is 'existing', `some true` is 'new'.
  unfoldable pub ensure_registered : Action W (Option Bool)
  ensure_registered = do
    already ← step "registered-check" (call (chain.is_registered config.address))
    after_check already

  unfoldable pub publish_key : String → Action W (Unit {0})
  publish_key key = do
    previous ← call (chain.messaging_key_of config.address)
    when (not (is_published chain.same_key previous key))
        (do call (chain.set_messaging_key key); emit messaging_key_set)

  abbrev pub publish_if : Option String → Action W (Unit {0})
  publish_if none = done tt
  publish_if (some key) = when chain.supports_messaging (publish_key key)

  unfoldable pub ensure_messaging_key : Action W (Unit {0})
  ensure_messaging_key = publish_if config.messaging_key

  unfoldable pub maybe_heartbeat : Bool → Action W (Unit {0})
  maybe_heartbeat force = do
    head ← call chain.head
    last ← call (chain.last_heartbeat config.address)
    when (not (is_recent force head last config.heartbeat_every_blocks))
        (do call chain.heartbeat; emit heartbeat_sent)

  unfoldable pub accept_one : AgreementView → Action W (Unit {0})
  accept_one a = do
    state ← memory
    when (chain.supports_accept && not (includes state.accepted (a.buyer, a.seq))) (do
      tx ← step "accept" (call (chain.accept_agreement a.buyer a.seq))
      when_some tx (push_accepted (a.buyer, a.seq)))

  unfoldable pub deliver_one : ℕ → AgreementView → Action W (Unit {0})
  deliver_one head a = do
    state ← memory
    when
        (not (includes state.delivered (a.buyer, a.seq))
          && leb (a.created_at + config.min_delivery_blocks) head)
        (do
          tx ←
              step "deliver"
                (call (chain.record_delivery a.buyer a.seq (chain.delivery_hash_for a)))
          when_some tx (push_delivered (a.buyer, a.seq)))

  unfoldable pub provide_one : ℕ → AgreementView → Action W (Unit {0})
  provide_one head a = do accept_one a; deliver_one head a

  unfoldable pub provide : Action W (Unit {0})
  provide = do
    head ← call chain.head
    agreements ← call (chain.agreements_as_provider config.address)
    for_each (keep (is_due config.address head) agreements) (provide_one head)

  unfoldable pub confirm_one : AgreementView → Action W (Unit {0})
  confirm_one a = do
    state ← memory
    when (is_status a.status delivered && not (includes state.confirmed (a.provider, a.seq))) (do
      tx ← step "confirm" (call (chain.confirm_delivery a.provider a.seq))
      when_some tx (push_confirmed (a.provider, a.seq)))

  unfoldable pub open_with : Option String → Action W (Unit {0})
  open_with none = done tt
  open_with (some peer) = do
    head ← call chain.head
    tx ← step "create" (
        call (
          chain.create_agreement peer config.buyer_amount
            (chain.deliverable_for config.address peer head) (head + config.buyer_deliver_within)))
    when_some tx
        (emit (created_event peer config.buyer_amount (head + config.buyer_deliver_within)))

  unfoldable pub buy_from_peers : Action W (Unit {0})
  buy_from_peers = do
    agreements ← call (chain.agreements_as_buyer config.address)
    let mine = keep (λ (a : AgreementView). a.buyer == config.address) agreements
    for_each mine confirm_one
    when (ltb (length mine) config.buyer_max_open) (do
      balance ← call (chain.free_balance config.address)
      when (leb config.buyer_amount balance) (do
        agents ← call chain.registered_agents
        open_with (
            choose_peer config.address (map (λ (a : AgreementView). a.provider) mine)
              config.buyer_peers agents)))

  unfoldable pub buy : Action W (Unit {0})
  buy =
      if is_nil config.buyer_peers
      then emit (error "buyer" "BUYER_PEERS is empty; buyer mode refuses to act")
      else buy_from_peers

  unfoldable pub maybe_claim : Action W (Unit {0})
  maybe_claim = do
    amount ← call (chain.pending_emissions config.address)
    when (ltb 0 amount) (do call chain.claim; emit claimed)

  abbrev pub tick_registered : Option Bool → Action W (Unit {0})
  tick_registered none = done tt
  tick_registered (some new) = do
    step "heartbeat" (maybe_heartbeat new)
    waiting ← pending
    when waiting (do step "metadata" update_metadata; done tt)
    step "messaging-key" ensure_messaging_key
    when (provides config.mode) (do step "provider" provide; done tt)
    when (buys config.mode) (do step "buyer" buy; done tt)
    step "claim" maybe_claim
    done tt

  unfoldable pub tick : Action W (Unit {0})
  tick = do new ← ensure_registered; tick_registered new
