-- ===== src/Agent/Worker/Allowed.antt =====
-- The agreements that one run of buyer mode may open, told from the chain's answers.
use scalar_commons_v.Base.{
  ℕ, ◌+◌, ◌≤◌, ◌<◌, ◌≡◌, String, List, ◌∷◌, ◌++◌, keep, length, All, ◌⊎◌, ◌==◌, string_keys,
}
use scalar_commons_v.Base.Results.{ok}
use scalar_commons_v.Agent.Worker.Openings.{openings}
use scalar_commons_v.Agent.Worker.Peer.{MayOpen}
use scalar_commons_v.Agent.Action.{AgreementView, Event, AgentConfig, Chain}

module _ {W : Type 0} (chain : Chain W) (config : AgentConfig) where
  -- The states of the chain as buyer mode reads it, from the state `w` on.
  abbrev pub after_balance : W → W
  after_balance w = (chain.free_balance config.address w).0

  abbrev pub after_agents : W → W
  after_agents w = (chain.registered_agents (after_balance w)).0

  abbrev pub after_head : W → W
  after_head w = (chain.head (after_agents w)).0

  -- An opening that the run may make, from the agreements that the chain showed; `world` is the chain's state once
  -- the deliveries were confirmed.
  pub record IsAllowed (agreements : List AgreementView) (opening : String × ℕ × ℕ) : Type 0 where
    pub below_max :
        length (keep (λ (a : AgreementView). a.buyer == config.address) agreements)
        < config.buyer_max_open
    pub world : W
    pub balance : ℕ
    pub covered :
        ((chain.free_balance config.address world).1 ≡ ok balance) × (config.buyer_amount ≤ balance)
    pub before : List String
    pub after : List String
    pub registered :
        (chain.registered_agents (after_balance world)).1 ≡ ok (before ++ (opening.0 ∷ after))
    pub chosen : MayOpen config.address agreements config.buyer_peers opening.0
    pub first : All (λ q. ¬ (MayOpen config.address agreements config.buyer_peers q)) before
    pub amount : opening.1 ≡ config.buyer_amount
    pub head : ℕ
    pub dated :
        ((chain.head (after_agents world)).1 ≡ ok head)
        × (opening.2 ≡ head + config.buyer_deliver_within)
    pub tx : String
    pub created :
        (chain.create_agreement opening.0 opening.1
          (chain.deliverable_for config.address opening.0 head)
          opening.2
          (after_head world)).1
        ≡ ok tx

  -- Nothing was opened since, or one agreement that was allowed.
  abbrev pub IsBought : (agreements : List AgreementView) → (before after : List Event) → Type 0
  IsBought agreements before after =
      (openings after ≡ openings before)
      ⊎ ((opening : String × ℕ × ℕ) × (openings after ≡ opening ∷ openings before)
          × IsAllowed agreements opening)
