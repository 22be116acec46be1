-- ===== src/Agent/Worker/Tests.antt =====
-- Two ticks of a provider whose agreement stays due, and a buyer that opens an agreement.
use scalar_commons_v.Base.{
  ℕ, ◌+◌, ◌≡◌, refl, true, false, some, none, [], ◌∷◌, ◌==◌, string_keys, number_keys, pair_keys,
}
use scalar_commons_v.Base.Results.{ok, err}
use scalar_commons_v.Agent.Worker.{
  tick, buy, buy_from_peers, open_with, confirm_one, choose_peer, is_due, push_accepted,
  push_delivered, update_metadata, ensure_registered, ensure_messaging_key, maybe_heartbeat,
  accept_one, deliver_one, provide_one, provide, maybe_claim,
}
use scalar_commons_v.Agent.Action.{
  AgreementView, created, provider, buyer, created_event, AgentConfig, Chain, Memory,
  accepted_event, delivered_event, error, ◌>>=◌, done, call, emit, step, set_pending, pending,
  memory, when_some, when, for_each,
}
use scalar_commons_v.Agent.Worker.Kept.{IsOnce}
use scalar_commons_v.Agent.Worker.Once.{ticks, ticks-IsOnce}
use scalar_commons_v.Agent.Worker.Opened.{IsBuying, buy-IsBuying}

abbrev config : AgentConfig
config = record {
  address = "me";
  mode = provider;
  stake = 100;
  name = "worker";
  heartbeat_every_blocks = 10;
  min_delivery_blocks = 5;
  buyer_peers = [];
  buyer_amount = 1;
  buyer_max_open = 1;
  buyer_deliver_within = 10;
  messaging_key = none;
}

abbrev agreement : AgreementView
agreement = record {
  buyer = "bob";
  provider = "me";
  seq = 3;
  amount = 7;
  deliverable_hash = "0x1";
  deliver_by = 99;
  created_at = 2;
  status = created;
}

-- A chain at a fixed height, on which claiming fails.
abbrev chain : Chain ℕ
chain = record {
  head = λ w. (w, ok w);
  is_registered = λ who w. (w, ok true);
  last_heartbeat = λ who w. (w, ok (some w));
  supports_accept = true;
  free_balance = λ who w. (w, ok 0);
  pending_emissions = λ who w. (w, ok 4);
  agreements_as_provider = λ who w. (w, ok (agreement ∷ []));
  agreements_as_buyer = λ who w. (w, ok []);
  registered_agents = λ w. (w, ok []);
  register = λ stake w. (w, ok "tx");
  set_metadata = λ name w. (w, ok none);
  heartbeat = λ w. (w, ok "tx");
  accept_agreement = λ buyer seq w. (w, ok "tx");
  record_delivery = λ buyer seq proof w. (w, ok "tx");
  create_agreement = λ provider amount deliverable by w. (w, ok "tx");
  confirm_delivery = λ provider seq w. (w, ok "tx");
  claim = λ w. (w, err "busy");
  supports_messaging = false;
  messaging_key_of = λ who w. (w, ok none);
  set_messaging_key = λ key w. (w, ok "tx");
  delivery_hash_for = λ a. "0x2";
  deliverable_for = λ me peer head. "0x3";
  same_key = λ a b. a == b;
}

abbrev start : Memory ℕ
start = record {
  world = 8;
  state = record { accepted = []; delivered = []; confirmed = [] };
  metadata_pending = false;
  events = [];
}

two_ticks : (ticks chain config 2 start).events ≡ (
    error "claim" "busy"
    ∷ error "claim" "busy"
    ∷ delivered_event ("bob", 3)
    ∷ accepted_event ("bob", 3)
    ∷ [])
unfolding ticks tick ◌>>=◌ done call emit step set_pending pending memory when_some when for_each
    is_due push_accepted push_delivered update_metadata ensure_registered ensure_messaging_key
    maybe_heartbeat accept_one deliver_one provide_one provide maybe_claim
two_ticks = refl

ticks-IsOnce_example : IsOnce (ticks chain config 2 start)
ticks-IsOnce_example = ticks-IsOnce chain config 2 start ((tt, refl), (tt, refl), (tt, refl))

-- A buyer that holds an agreement with bob, on a chain where bob and ann are registered.
abbrev buying : AgentConfig
buying = record config { mode = buyer; buyer_peers = "bob" ∷ ("ann" ∷ []); buyer_max_open = 2 }

abbrev market : Chain ℕ
market = record chain {
  free_balance = λ who w. (w + 1, ok 5);
  agreements_as_buyer = λ who w. (w, ok (record agreement { buyer = "me"; provider = "bob" } ∷ []));
  registered_agents = λ w. (w, ok ("me" ∷ ("eve" ∷ ("bob" ∷ ("ann" ∷ [])))));
}

opens_with_ann : (buy market buying start).0.events ≡ (created_event "ann" 1 19 ∷ [])
unfolding buy buy_from_peers open_with confirm_one choose_peer ◌>>=◌ done call emit step memory
    when_some when for_each
opens_with_ann = refl

buy-IsBuying_example : IsBuying market buying start (buy market buying start).0
buy-IsBuying_example = buy-IsBuying market buying start
