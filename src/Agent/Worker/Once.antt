-- ===== src/Agent/Worker/Once.antt =====
-- No agreement is accepted, delivered or confirmed twice, over any number of ticks.
use scalar_commons_v.Base.{
  ℕ, zero, suc, ◌+◌, refl, ap, Bool, true, false, not, ◌&&◌, Option, none, some, String, ◌∷◌, leb,
  if◌then◌else◌, string_keys, number_keys, pair_keys,
}
use scalar_commons_v.Agent.Worker.{
  includes, is_status, is_nil, push_accepted, push_delivered, push_confirmed, update_metadata,
  after_register, after_check, ensure_registered, publish_key, publish_if, ensure_messaging_key,
  maybe_heartbeat, accept_one, deliver_one, provide_one, provide, confirm_one, open_with,
  buy_from_peers, buy, maybe_claim, tick_registered, tick,
}
use scalar_commons_v.Agent.Action.{
  AgreementView, Key, error, registered, metadata_set, messaging_key_set, heartbeat_sent, claimed,
  created_event, AgentConfig, Chain, Memory, emit, delivered,
}
use scalar_commons_v.Agent.Worker.Kept.{
  IsOnce, IsNewAccept, IsNewDelivery, IsNewConfirm, and_not, not_and, Preserves, PreservesIf,
  bind-Preserves, done-Preserves, call-Preserves, step-Preserves, when-Preserves,
  when_some-Preserves, for_each-Preserves, set_pending-Preserves, pending-Preserves, emit-Preserves,
  try_push-PreservesIf, memory-Preserves,
}

module _ {W : Type 0} (chain : Chain W) (config : AgentConfig) where
  update_metadata-Preserves : Preserves (update_metadata chain config)
  unfolding update_metadata
  update_metadata-Preserves = bind-Preserves (call-Preserves _) (λ tx.
      bind-Preserves (set_pending-Preserves false)
        (λ _. when_some-Preserves tx (emit-Preserves metadata_set (refl, refl, refl))))

  after_register-Preserves : (o : Option String) → Preserves (after_register chain config o)
  after_register-Preserves none = done-Preserves none
  after_register-Preserves (some tx) =
      bind-Preserves (emit-Preserves registered (refl, refl, refl)) (λ _.
        bind-Preserves (set_pending-Preserves true) (λ _.
          bind-Preserves (step-Preserves "metadata" update_metadata-Preserves)
            (λ _. done-Preserves (some true))))

  after_check-Preserves : (o : Option Bool) → Preserves (after_check chain config o)
  after_check-Preserves none = done-Preserves none
  after_check-Preserves (some true) = done-Preserves (some false)
  after_check-Preserves (some false) =
      bind-Preserves (step-Preserves "register" (call-Preserves _))
        (λ tx. after_register-Preserves tx)

  ensure_registered-Preserves : Preserves (ensure_registered chain config)
  unfolding ensure_registered
  ensure_registered-Preserves =
      bind-Preserves (step-Preserves "registered-check" (call-Preserves _))
        (λ o. after_check-Preserves o)

  publish_key-Preserves : (key : String) → Preserves (publish_key chain config key)
  unfolding publish_key
  publish_key-Preserves key = bind-Preserves (call-Preserves _) (λ previous. when-Preserves _ (
      bind-Preserves (call-Preserves _) (λ _. emit-Preserves messaging_key_set (refl, refl, refl))))

  publish_if-Preserves : (o : Option String) → Preserves (publish_if chain config o)
  publish_if-Preserves none = done-Preserves tt
  publish_if-Preserves (some key) =
      when-Preserves chain.supports_messaging (publish_key-Preserves key)

  ensure_messaging_key-Preserves : Preserves (ensure_messaging_key chain config)
  unfolding ensure_messaging_key
  ensure_messaging_key-Preserves = publish_if-Preserves config.messaging_key

  maybe_heartbeat-Preserves : (force : Bool) → Preserves (maybe_heartbeat chain config force)
  unfolding maybe_heartbeat
  maybe_heartbeat-Preserves force = bind-Preserves (call-Preserves _) (λ head.
      bind-Preserves (call-Preserves _) (λ last. when-Preserves _ (
        bind-Preserves (call-Preserves _) (λ _. emit-Preserves heartbeat_sent (refl, refl, refl)))))

  maybe_claim-Preserves : Preserves (maybe_claim chain config)
  unfolding maybe_claim
  maybe_claim-Preserves = bind-Preserves (call-Preserves _) (λ amount.
      when-Preserves _
        (bind-Preserves (call-Preserves _) (λ _. emit-Preserves claimed (refl, refl, refl))))

  push_accepted-PreservesIf : (k : Key) → PreservesIf (IsNewAccept k) (push_accepted chain config k)
  unfolding push_accepted
  push_accepted-PreservesIf k = record {
    kept_if = λ s new h. (((new, h.0.0), ap (◌∷◌ k) h.0.1), h.1, h.2);
  }

  push_delivered-PreservesIf :
      (k : Key) → PreservesIf (IsNewDelivery k) (push_delivered chain config k)
  unfolding push_delivered
  push_delivered-PreservesIf k = record {
    kept_if = λ s new h. (h.0, ((new, h.1.0), ap (◌∷◌ k) h.1.1), h.2);
  }

  push_confirmed-PreservesIf :
      (k : Key) → PreservesIf (IsNewConfirm k) (push_confirmed chain config k)
  unfolding push_confirmed
  push_confirmed-PreservesIf k = record {
    kept_if = λ s new h. (h.0, h.1, ((new, h.2.0), ap (◌∷◌ k) h.2.1));
  }

  accept_one-Preserves : (a : AgreementView) → Preserves (accept_one chain config a)
  unfolding accept_one
  accept_one-Preserves a =
      let k : Key = (a.buyer, a.seq) in
      memory-Preserves (IsNewAccept k)
        (λ state. chain.supports_accept && not (includes state.accepted k)) _
        (λ state h. and_not chain.supports_accept (includes state.accepted k) h)
        (try_push-PreservesIf (IsNewAccept k) (push_accepted chain config k) "accept" _
          (push_accepted-PreservesIf k))

  deliver_one-Preserves :
      (head : ℕ) (a : AgreementView) → Preserves (deliver_one chain config head a)
  unfolding deliver_one
  deliver_one-Preserves head a =
      let k : Key = (a.buyer, a.seq) in
      memory-Preserves (IsNewDelivery k)
        (λ state.
          not (includes state.delivered k) && leb (a.created_at + config.min_delivery_blocks) head)
        _
        (λ state h.
          not_and (includes state.delivered k)
            (leb (a.created_at + config.min_delivery_blocks) head) h)
        (try_push-PreservesIf (IsNewDelivery k) (push_delivered chain config k) "deliver" _
          (push_delivered-PreservesIf k))

  confirm_one-Preserves : (a : AgreementView) → Preserves (confirm_one chain config a)
  unfolding confirm_one
  confirm_one-Preserves a =
      let k : Key = (a.provider, a.seq) in
      memory-Preserves (IsNewConfirm k)
        (λ state. is_status a.status delivered && not (includes state.confirmed k)) _
        (λ state h. and_not (is_status a.status delivered) (includes state.confirmed k) h)
        (try_push-PreservesIf (IsNewConfirm k) (push_confirmed chain config k) "confirm" _
          (push_confirmed-PreservesIf k))

  provide-Preserves : Preserves (provide chain config)
  unfolding provide provide_one
  provide-Preserves = bind-Preserves (call-Preserves _) (λ head.
      bind-Preserves (call-Preserves _) (λ agreements.
        for_each-Preserves _
          (λ a. bind-Preserves (accept_one-Preserves a) (λ _. deliver_one-Preserves head a))))

  open_with-Preserves : (o : Option String) → Preserves (open_with chain config o)
  unfolding open_with
  open_with-Preserves none = done-Preserves tt
  open_with-Preserves (some peer) = bind-Preserves (call-Preserves _) (λ head.
      bind-Preserves (step-Preserves "create" (call-Preserves _))
        (λ tx. when_some-Preserves tx (emit-Preserves (created_event peer _ _) (refl, refl, refl))))

  buy_from_peers-Preserves : Preserves (buy_from_peers chain config)
  unfolding buy_from_peers
  buy_from_peers-Preserves = bind-Preserves (call-Preserves _) (λ agreements.
      bind-Preserves (for_each-Preserves _ confirm_one-Preserves) (λ _. when-Preserves _ (
        bind-Preserves (call-Preserves _) (λ balance.
          when-Preserves _ (bind-Preserves (call-Preserves _) (λ agents. open_with-Preserves _))))))

  buy_if-Preserves :
      (b : Bool)
      → Preserves (
          if b
          then emit {W = W} (error "buyer" "BUYER_PEERS is empty; buyer mode refuses to act")
          else buy_from_peers chain config)
  buy_if-Preserves true = emit-Preserves (error _ _) (refl, refl, refl)
  buy_if-Preserves false = buy_from_peers-Preserves

  buy-Preserves : Preserves (buy chain config)
  unfolding buy
  buy-Preserves = buy_if-Preserves (is_nil config.buyer_peers)

  tick_registered-Preserves : (o : Option Bool) → Preserves (tick_registered chain config o)
  tick_registered-Preserves none = done-Preserves tt
  tick_registered-Preserves (some new) =
      bind-Preserves (step-Preserves "heartbeat" (maybe_heartbeat-Preserves new)) (λ _.
        bind-Preserves pending-Preserves (λ waiting.
          bind-Preserves
            (when-Preserves waiting (
              bind-Preserves (step-Preserves "metadata" update_metadata-Preserves)
                (λ _. done-Preserves tt)))
            (λ _.
              bind-Preserves (step-Preserves "messaging-key" ensure_messaging_key-Preserves) (λ _.
                bind-Preserves
                  (when-Preserves _ (
                    bind-Preserves (step-Preserves "provider" provide-Preserves)
                      (λ _. done-Preserves tt)))
                  (λ _.
                    bind-Preserves
                      (when-Preserves _ (
                        bind-Preserves (step-Preserves "buyer" buy-Preserves)
                          (λ _. done-Preserves tt)))
                      (λ _.
                        bind-Preserves (step-Preserves "claim" maybe_claim-Preserves)
                          (λ _. done-Preserves tt)))))))

  tick-Preserves : Preserves (tick chain config)
  unfolding tick
  tick-Preserves = bind-Preserves ensure_registered-Preserves tick_registered-Preserves

  -- A number of ticks, one after the other.
  unfoldable pub ticks : ℕ → Memory W → Memory W
  ticks zero s = s
  ticks (suc n) s = ticks n (tick chain config s).0

  -- Over any number of ticks, whatever the chain answers and whichever calls fail, the agent emits no
  -- agreement as accepted twice, none as delivered twice and none as confirmed twice, and it remembers exactly
  -- those it emitted. It starts from a memory for which this holds, such as an empty one.
  pub ticks-IsOnce : (n : ℕ) (s : Memory W) → IsOnce s → IsOnce (ticks n s)
  unfolding ticks
  ticks-IsOnce zero s h = h
  ticks-IsOnce (suc n) s h = ticks-IsOnce n (tick chain config s).0 (tick-Preserves.kept s h)
