-- ===== src/Broker/Examples.antt =====
-- A concrete ticket, session and platform, and the theorems of the broker at them.
use dittobench_api.Base.{
  ◌+◌, ◌≤◌, ◌<◌, String, Bool, true, false, none, some, List, [], ◌∷◌, ◌≡◌, refl, arith, ◌==◌, ◌||◌,
  nat_eq, string_eq, length,
}
use dittobench_api.Broker.Session.{Session, Broker, Parsers}
use dittobench_api.Broker.Decline.{ErrorBody, budget_exhausted}
use dittobench_api.Broker.Control.{
  Activation, ticket_of, has_route_identity, transport_url, valid_slot, valid_ticket_identity,
  valid_route, valid_grant, accepts_activation, activated, activate_session, with_legacy_route,
  same_ticket, harness_model_for_version, claim_run, bind_source, has_route, is_active,
  v7_harness_model, maximum_session_ttl,
}
use dittobench_api.Broker.Lanes.{begin_embedding_phase, end_embedding_phase}
use dittobench_api.Broker.Table.{Fresh, prepared}
use dittobench_api.Broker.Table.{session_for_source}
use dittobench_api.Broker.Table.Source.{IsServed, session_for_source_exact}
use dittobench_api.Broker.Table.Capacity.{answer_all, prepares, cancels, sessions_bounded}
use dittobench_api.Broker.Lifecycle.{
  Op, activates, claims, binds, begins, ends, after, successes, apply, is_claim, is_activation,
  is_bind,
}
use dittobench_api.Broker.Access.{is_active_needs}
use dittobench_api.Broker.Tickets.{claimed_ticket, empty_secret_accepted}

abbrev parsers : Parsers
parsers = record {
  is_uuid = λ t. t == "grant-1" || t == "agent-1" || t == "run-1" || t == "run-2";
  is_ip = λ t. t == "172.18.0.2" || t == "172.18.0.3";
}

abbrev profile_ok : String → Bool
profile_ok profile = profile == "profile-7"

abbrev fresh : Fresh
fresh = record { id = "s1"; activation = "secret"; private = 1 ∷ 2 ∷ []; public = 3 ∷ [] }

abbrev broker : Broker
broker = record {
  sessions = [];
  max_sessions = 8;
  platform_proxy_url = "https://platform/v1/chat";
  platform_transport_url = "";
  embedding_url = "";
}

abbrev activation : Activation
activation = record {
  activation_secret = "secret";
  grant_id = "grant-1";
  agent_id = "agent-1";
  slot_id = "slot-3";
  ticket_deadline = 9000;
  bearer = "token";
  proxy_url = "https://platform/v1/chat";
  generation = 1;
  expires_at = 8000;
  provider = "openrouter";
  profile_revision = "profile-7";
  model = "openai/gpt-oss-20b";
}

abbrev fresh_session : Session
fresh_session = prepared fresh 1000

abbrev active_session : Session
unfolding activated transport_url
active_session = activated broker activation fresh_session

abbrev bound_session : Session
bound_session = record active_session { bound_run_id = "run-1" }

abbrev life : List Op
life =
    activates broker activation 5 1500
    ∷ claims "run-1" (ticket_of activation) 8 1600
    ∷ claims "run-2" (ticket_of activation) 8 1700
    ∷ binds "run-1" "172.18.0.2" 1800
    ∷ begins "run-1" 1900
    ∷ ends "run-1"
    ∷ begins "run-1" 2000
    ∷ []

abbrev spent_body : ErrorBody
spent_body = record { size = 40; error_code = some budget_exhausted }

is_active_needs_example :
    (1 ≤ successes parsers profile_ok 4 is_activation fresh_session life)
    × (1 ≤ successes parsers profile_ok 4 is_claim fresh_session life)
    × (1 ≤ successes parsers profile_ok 4 is_bind fresh_session life)
unfolding is_active after apply activate_session accepts_activation valid_grant valid_route
    has_route_identity transport_url valid_ticket_identity valid_slot activated claim_run
    with_legacy_route same_ticket harness_model_for_version bind_source has_route
    begin_embedding_phase end_embedding_phase
is_active_needs_example = is_active_needs parsers profile_ok 4 refl fresh life 1000 2100 refl

claimed_ticket_example :
    let r =
      (claim_run parsers profile_ok 4 "run-1" (ticket_of activation) 8 1600 active_session).0 in
    (ticket_of activation ≡ ticket_of activation)
    × (r.model ≡ v7_harness_model)
    × (r.request_model ≡ v7_harness_model)
    × (r.bound_run_id ≡ "run-1")
    × (1600 < r.expires_at)
    × (r.expires_at ≤ 9000)
    × (r.expires_at ≤ 1500 + maximum_session_ttl)
unfolding activate_session accepts_activation valid_grant valid_route has_route_identity
    transport_url valid_ticket_identity valid_slot activated claim_run with_legacy_route same_ticket
    harness_model_for_version
claimed_ticket_example =
    claimed_ticket parsers broker activation 5 1500 fresh_session active_session profile_ok 4
      "run-1" (ticket_of activation) 8 1600 refl (omega arith) refl

empty_secret_accepted_example :
    activate_session parsers broker
      (record activation { activation_secret = "" })
      5
      1500
      bound_session
    ≡ some (activated broker activation bound_session)
unfolding activate_session accepts_activation valid_grant valid_route has_route_identity
    transport_url valid_ticket_identity valid_slot activated
empty_secret_accepted_example =
    empty_secret_accepted parsers broker activation 5 1500 fresh_session active_session
      bound_session refl refl

sessions_bounded_example :
    length
      (answer_all parsers profile_ok profile_ok 4
        (prepares true (some fresh) 1000 ∷ prepares false none 1100 ∷ cancels true "s1" ∷ [])
        broker).sessions
    ≤ 8
sessions_bounded_example =
    sessions_bounded parsers profile_ok profile_ok 4
      (prepares true (some fresh) 1000 ∷ prepares false none 1100 ∷ cancels true "s1" ∷ []) broker
      refl

abbrev serving_session : Session
serving_session = record bound_session { expected_source_ip = "172.18.0.2" }

abbrev serving_broker : Broker
serving_broker = record broker { sessions = ("s0", fresh_session) ∷ ("s1", serving_session) ∷ [] }

session_for_source_exact_example :
    IsServed parsers "172.18.0.2" 2000 serving_broker
      (session_for_source parsers "172.18.0.2" 2000 serving_broker)
session_for_source_exact_example = session_for_source_exact parsers "172.18.0.2" 2000 serving_broker
