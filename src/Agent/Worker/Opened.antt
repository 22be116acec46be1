-- ===== src/Agent/Worker/Opened.antt =====
-- The agreements that one run of buyer mode opens.
use scalar_commons_v.Base.{
  ℕ, ◌+◌, ◌≤◌, ◌<◌, ◌≡◌, refl, sym, ap, ◌∙◌, arith, Bool, true, false, Option, some, none, String,
  List, ◌∷◌, ◌++◌, keep, length, ltb, leb, All, ◌⊎◌, inl, inr, if◌then◌else◌, ◌==◌, string_keys,
}
use scalar_commons_v.Base.Results.{Result, ok, err}
use scalar_commons_v.Agent.Worker.{
  choose_peer, is_nil, push_confirmed, confirm_one, open_with, buy_from_peers, buy,
}
use scalar_commons_v.Agent.Worker.Openings.{
  openings, Quiet, bind_cases, when_cases, call_events, bind-Quiet, when-Quiet, when_some-Quiet,
  for_each-Quiet, step_call-Quiet, step-some,
}
use scalar_commons_v.Agent.Worker.Peer.{MayOpen, busy_providers, choose_peer-MayOpen}
use scalar_commons_v.Agent.Action.{
  AgreementView, Event, error, created_event, AgentConfig, Chain, Memory, ◌>>=◌, done, call, emit,
  step, memory, when_some, when, for_each,
}
use scalar_commons_v.Agent.Worker.Allowed.{after_balance, after_agents, after_head, IsBought}

module _ {W : Type 0} (chain : Chain W) (config : AgentConfig) where
  push_confirmed-Quiet : (k : String × ℕ) → Quiet (push_confirmed chain config k)
  unfolding push_confirmed
  push_confirmed-Quiet k = record { same = λ s. refl }

  memory-Quiet : Quiet (memory {W = W})
  unfolding memory
  memory-Quiet = record { same = λ s. refl }

  confirm_one-Quiet : (a : AgreementView) → Quiet (confirm_one chain config a)
  unfolding confirm_one
  confirm_one-Quiet a = bind-Quiet memory-Quiet (λ state. when-Quiet _ (
      bind-Quiet (step_call-Quiet "confirm" _)
        (λ tx. when_some-Quiet tx (push_confirmed-Quiet (a.provider, a.seq)))))

  module _ (agreements : List AgreementView) (before : List Event) where
    -- No opening so far.
    abbrev IsStill : Memory W → Type 0
    IsStill m = openings m.events ≡ openings before

    abbrev Ends : Memory W → Type 0
    Ends m = IsBought chain config agreements before m.events

    module _ (peer : String) (first last : List String) (world : W) (balance : ℕ)
        (below : length (keep (λ (a : AgreementView). a.buyer == config.address) agreements)
          < config.buyer_max_open)
        (covered : ((chain.free_balance config.address world).1 ≡ ok balance)
          × (config.buyer_amount ≤ balance))
        (registered_so : (chain.registered_agents (after_balance chain config world)).1
          ≡ ok (first ++ (peer ∷ last)))
        (chosen : MayOpen config.address agreements config.buyer_peers peer)
        (others : All (λ q. ¬ (MayOpen config.address agreements config.buyer_peers q)) first) where
      reported-IsBought :
          (head : ℕ) (tx : Option String) (m : Memory W)
          → IsStill m
          → (chain.head (after_agents chain config world)).1 ≡ ok head
          → ((t : String)
              → tx ≡ some t
              → (chain.create_agreement peer config.buyer_amount
                  (chain.deliverable_for config.address peer head)
                  (head + config.buyer_deliver_within)
                  (after_head chain config world)).1
                ≡ ok t)
          → Ends
              (when_some tx
                (emit (created_event peer config.buyer_amount (head + config.buyer_deliver_within)))
                m).0
      unfolding when_some done emit
      reported-IsBought head none m still heads made = inl still
      reported-IsBought head (some tx) m still heads made = inr (
        (peer, config.buyer_amount, head + config.buyer_deliver_within),
        ap (λ z. (peer, config.buyer_amount, head + config.buyer_deliver_within) ∷ z) still,
        record {
          below_max = below;
          world = world;
          balance = balance;
          covered = covered;
          before = first;
          after = last;
          registered = registered_so;
          chosen = chosen;
          first = others;
          amount = refl;
          head = head;
          dated = (heads, refl);
          tx = tx;
          created = made tx refl;
        },
      )

      open_with-IsBought :
          (s : Memory W)
          → IsStill s
          → s.world ≡ after_agents chain config world
          → Ends (open_with chain config (some peer) s).0
      unfolding open_with
      open_with-IsBought s still at =
          bind_cases Ends (call chain.head) _ s
            (λ m e h. inl ((call_events chain.head s m (err e) h).0 ∙ still))
            (λ m head h.
              let (still1, heads, at1) = call_events chain.head s m (ok head) h in
              let create =
                chain.create_agreement peer config.buyer_amount
                  (chain.deliverable_for config.address peer head)
                  (head + config.buyer_deliver_within) in
              let still2 : (m2 : Memory W) (r : Result String (Option String))
                  → step "create" (call create) m ≡ (m2, r)
                  → IsStill m2 =
                λ m2 r h2.
                  ap (λ z. openings z.0.events) (sym h2)
                  ∙ (step_call-Quiet "create" create).same m
                  ∙ still1
                  ∙ still in
              bind_cases Ends (step "create" (call create)) _ m
                (λ m2 e h2. inl (still2 m2 (err e) h2))
                (λ m2 tx h2.
                  reported-IsBought head tx m2 (still2 m2 (ok tx) h2)
                    (ap (λ w. (chain.head w).1) (sym at) ∙ heads)
                    (λ t same.
                      ap (λ w. (create w).1) (sym (at1 ∙ ap (λ w. (chain.head w).0) at))
                      ∙ step-some "create" create m m2 t (rw same at h2))))

    choice-IsBought :
        (agents : List String) (o : Option String) (s : Memory W) (world : W) (balance : ℕ)
        → length (keep (λ (a : AgreementView). a.buyer == config.address) agreements)
          < config.buyer_max_open
        → ((chain.free_balance config.address world).1 ≡ ok balance)
          × (config.buyer_amount ≤ balance)
        → (chain.registered_agents (after_balance chain config world)).1 ≡ ok agents
        → choose_peer config.address
            (busy_providers config.address agreements)
            config.buyer_peers
            agents
          ≡ o
        → IsStill s
        → s.world ≡ after_agents chain config world
        → Ends (open_with chain config o s).0
    unfolding open_with done
    choice-IsBought agents none s world balance below covered answered choice still at = inl still
    choice-IsBought agents (some peer) s world balance below covered answered choice still at =
        let (first, last, split, chosen, others) =
          choose_peer-MayOpen config.address agreements config.buyer_peers agents peer choice in
        open_with-IsBought peer first last world balance below covered (answered ∙ ap ok split)
          chosen others s still at

    -- Once the deliveries were confirmed.
    rest-IsBought :
        (s : Memory W)
        → IsStill s
        → Ends
            (when
              (ltb
                (length (keep (λ (a : AgreementView). a.buyer == config.address) agreements))
                config.buyer_max_open)
              (call (chain.free_balance config.address) >>= λ balance.
                when (leb config.buyer_amount balance) (
                  call chain.registered_agents >>= λ agents. open_with chain config (
                    choose_peer config.address
                      (busy_providers config.address agreements)
                      config.buyer_peers
                      agents)))
              s).0
    rest-IsBought s still = when_cases Ends _ _ s (inl still) (λ below.
        bind_cases Ends (call (chain.free_balance config.address)) _ s
          (λ m e h. inl ((call_events (chain.free_balance config.address) s m (err e) h).0 ∙ still))
          (λ m balance h.
            let (still1, covered, at1) =
              call_events (chain.free_balance config.address) s m (ok balance) h in
            when_cases Ends _ _ m (inl (still1 ∙ still)) (λ enough.
              bind_cases Ends (call chain.registered_agents) _ m
                (λ m2 e h2.
                  inl ((call_events chain.registered_agents m m2 (err e) h2).0 ∙ still1 ∙ still))
                (λ m2 agents h2.
                  let (still2, answered, at2) =
                    call_events chain.registered_agents m m2 (ok agents) h2 in
                  choice-IsBought agents _ m2 s.world balance (ltb-lt below)
                    (covered, leb-le enough)
                    (ap (λ w. (chain.registered_agents w).1) (sym at1) ∙ answered) refl
                    (still2 ∙ still1 ∙ still)
                    (at2 ∙ ap (λ w. (chain.registered_agents w).0) at1)))))
      where
        ltb-lt : {a b : ℕ} → ltb a b ≡ true → a < b
        ltb-lt {a} {b} h = ground (arith, h)

        leb-le : {a b : ℕ} → leb a b ≡ true → a ≤ b
        leb-le {a} {b} h = ground (arith, h)

  abbrev pub IsBuying : Memory W → Memory W → Type 0
  IsBuying s t =
      (openings t.events ≡ openings s.events)
      ⊎ ((agreements : List AgreementView) × ((chain.agreements_as_buyer config.address s.world).1
            ≡ ok agreements)
          × IsBought chain config agreements s.events t.events)

  buy_from_peers-IsBuying : (s : Memory W) → IsBuying s (buy_from_peers chain config s).0
  unfolding buy_from_peers
  buy_from_peers-IsBuying s =
      bind_cases (IsBuying s) (call (chain.agreements_as_buyer config.address)) _ s
        (λ m e h. inl (call_events (chain.agreements_as_buyer config.address) s m (err e) h).0)
        (λ m agreements h.
          let (still, shown, at) =
            call_events (chain.agreements_as_buyer config.address) s m (ok agreements) h in
          let mine = keep (λ (a : AgreementView). a.buyer == config.address) agreements in
          let confirmed = for_each-Quiet mine confirm_one-Quiet in
          inr (
            agreements,
            shown,
            bind_cases (Ends agreements s.events) (for_each mine (confirm_one chain config)) _ m
                (λ m2 e h2. inl (ap (λ z. openings z.0.events) (sym h2) ∙ confirmed.same m ∙ still))
                (λ m2 a h2.
                  rest-IsBought agreements s.events m2
                    (ap (λ z. openings z.0.events) (sym h2) ∙ confirmed.same m ∙ still)),
          ))

  -- One run of buyer mode, whatever the chain answers and whichever calls fail, reports no opened agreement, or
  -- exactly one. For that one: the chain was asked for the agent's agreements first, and those that the agent
  -- buys in were fewer than BUYER_MAX_OPEN; the balance that the chain gave next covers the amount; the peer
  -- is in the list of registered agents that the chain gave after it, is not the agent itself, is listed in
  -- BUYER_PEERS and provides in none of those agreements, and no agent before it in the list is so; the
  -- amount is the configured one and the deadline the configured number of blocks after the
  -- head; and the chain accepted the call that creates this agreement.
  pub buy-IsBuying : (s : Memory W) → IsBuying s (buy chain config s).0
  unfolding buy emit
  buy-IsBuying s = chosen (is_nil config.buyer_peers)
    where
      chosen :
          (b : Bool)
          → IsBuying s
              ((if b
                  then emit (error "buyer" "BUYER_PEERS is empty; buyer mode refuses to act")
                  else buy_from_peers chain config)
                s).0
      chosen true = inl refl
      chosen false = buy_from_peers-IsBuying s
