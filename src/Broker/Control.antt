-- ===== src/Broker/Control.antt =====
-- cmd/dittobench-api/inference_broker.go: the control plane of the broker. Each operation on a
-- session stands on its own; the broker reaches it through the session map. Random tokens and key
-- pairs are arguments. none or false is a refusal, and leaves the state as it was.
use dittobench_api.Base.{
  ℕ, ◌+◌, ◌-◌, String, Bool, true, false, not, Option, none, some, List, [], ◌∷◌, ◌==◌, ltb, leb,
  ◌&&◌, ◌||◌, nat_eq, string_eq, if◌then◌else◌, length, map,
}
use dittobench_api.Base.Assoc.{Assoc}
use dittobench_api.Base.Text.{bytes_of, cut_prefix}
use dittobench_api.Broker.Session.{TicketIdentity, Session, Broker, Parsers}

-- Two hours, and the two minutes that a prepared session waits, in nanoseconds.
abbrev pub maximum_session_ttl : ℕ
maximum_session_ttl = 7200000000000

abbrev pub activation_wait : ℕ
activation_wait = 120000000000

abbrev pub locked_harness_model : String
locked_harness_model = "qwen/qwen3-32b"

abbrev pub v7_harness_model : String
v7_harness_model = "openai/gpt-oss-20b"

abbrev pub open_router_relay_profile : String
open_router_relay_profile = "openrouter-nebius-qwen3-32b-no-think-v1"

unfoldable pub harness_model_for_version : ℕ → String
harness_model_for_version version = if leb 7 version then v7_harness_model else locked_harness_model

-- A text is not empty.
abbrev pub is_set : String → Bool
is_set s = not (s == "")

-- t.After(now)
abbrev pub is_after : ℕ → ℕ → Bool
is_after t now = ltb now t

abbrev last_code : List ℕ → ℕ
last_code [] = 0
last_code (c ∷ []) = c
last_code (c ∷ d ∷ s) = last_code (d ∷ s)

abbrev has_prefix : List ℕ → List ℕ → Bool
has_prefix s p = elim (cut_prefix s p) [ none ↦ false | some rest ↦ true ]

-- slot-0 to slot-7.
unfoldable pub valid_slot : String → Bool
unfolding cut_prefix
valid_slot slot =
    let s = bytes_of slot in
    length s == 6
    && has_prefix s (bytes_of "slot-")
    && leb b'0' (last_code s)
    && leb (last_code s) b'7'

unfoldable pub valid_ticket_identity : Parsers → TicketIdentity → ℕ → Bool
valid_ticket_identity parsers identity now =
    parsers.is_uuid identity.grant_id
    && parsers.is_uuid identity.agent_id
    && valid_slot identity.slot_id
    && is_after identity.ticket_deadline now

-- The body of an activation.
pub record Activation : Type 0 where
  pub activation_secret : String
  pub grant_id : String
  pub agent_id : String
  pub slot_id : String
  pub ticket_deadline : ℕ
  pub bearer : String
  pub proxy_url : String
  pub generation : ℕ
  pub expires_at : ℕ
  pub provider : String
  pub profile_revision : String
  pub model : String

abbrev pub ticket_of : Activation → TicketIdentity
ticket_of a = record {
  grant_id = a.grant_id;
  agent_id = a.agent_id;
  slot_id = a.slot_id;
  ticket_deadline = a.ticket_deadline;
}

unfoldable pub has_route_identity : Activation → Bool
has_route_identity a = is_set a.provider || is_set a.profile_revision || is_set a.model

unfoldable pub transport_url : Broker → String
transport_url b =
    if b.platform_transport_url == "" then b.platform_proxy_url else b.platform_transport_url

-- An activation that names any part of a route names all of it, with a ticket that outlives it.
unfoldable pub valid_route : Parsers → Activation → ℕ → Bool
unfolding has_route_identity
valid_route parsers a now = not (
    has_route_identity a
    && (not (valid_ticket_identity parsers (ticket_of a) now)
        || is_after a.expires_at a.ticket_deadline
        || a.provider == ""
        || a.profile_revision == ""
        || a.model == ""))

-- The conditions on an activation but for its secret. `bearer_size` is len(activation.Bearer).
unfoldable pub valid_grant : Parsers → Broker → Activation → ℕ → ℕ → Bool
unfolding transport_url
valid_grant parsers b a bearer_size now =
    is_set a.bearer
    && leb bearer_size 4096
    && parsers.is_uuid a.grant_id
    && leb 1 a.generation
    && is_after a.expires_at now
    && not (is_after a.expires_at (now + maximum_session_ttl))
    && is_set b.platform_proxy_url
    && is_set (transport_url b)
    && a.proxy_url == b.platform_proxy_url
    && valid_route parsers a now

-- Whether activate accepts the activation of a session.
unfoldable pub accepts_activation : Parsers → Broker → Session → Activation → ℕ → ℕ → Bool
accepts_activation parsers b s a bearer_size now =
    a.activation_secret == s.activation_secret && valid_grant parsers b a bearer_size now

unfoldable pub activated : Broker → Activation → Session → Session
unfolding transport_url
activated b a s = record s {
  activation_secret = "";
  grant_id = a.grant_id;
  bearer = a.bearer;
  proxy_url = transport_url b;
  generation = a.generation;
  expires_at = a.expires_at;
  provider = a.provider;
  profile_revision = a.profile_revision;
  model = a.model;
  request_model = a.model;
  ticket_agent_id = a.agent_id;
  ticket_slot_id = a.slot_id;
  ticket_deadline = a.ticket_deadline;
}

-- The session after activate, or none where it answers 401.
unfoldable pub activate_session : Parsers → Broker → Activation → ℕ → ℕ → Session → Option Session
activate_session parsers b a bearer_size now s =
    if accepts_activation parsers b s a bearer_size now then some (activated b a s) else none

-- The frozen route of the versions before 7.
unfoldable pub with_legacy_route : ℕ → Session → Session
with_legacy_route version s =
    if ltb version 7
    then record s {
      provider = "openrouter";
      profile_revision = open_router_relay_profile;
      model = locked_harness_model;
    }
    else s

unfoldable pub same_ticket : TicketIdentity → Session → Bool
same_ticket identity s =
    identity.grant_id == s.grant_id
    && identity.agent_id == s.ticket_agent_id
    && identity.slot_id == s.ticket_slot_id
    && identity.ticket_deadline == s.ticket_deadline

-- claimRun. Before version 7 the session has the frozen route also where the claim is refused
-- afterwards, so the session is returned with the answer. `profile_ok` stands for validV7RouteProfile
-- of relay_preflight.go; `width` is the configured concurrency of the hosted embedding lane.
unfoldable pub claim_run :
    Parsers → (String → Bool) → ℕ → String → TicketIdentity → ℕ → ℕ → Session → Session × Bool
claim_run parsers profile_ok width run_id identity version now s =
    if not (parsers.is_uuid run_id)
      || is_set s.bound_run_id
      || s.bearer == ""
      || not (is_after s.expires_at now)
    then (s, false)
    else let r = with_legacy_route version s in
      if leb 7 version
        && (not (profile_ok r.profile_revision)
            || not (valid_ticket_identity parsers identity now)
            || not (same_ticket identity r))
      then (r, false)
      else if not (r.model == harness_model_for_version version)
          || r.provider == ""
          || r.profile_revision == ""
      then (r, false)
      else (
        record r {
          request_model = r.model;
          bound_run_id = run_id;
          bench_version = version;
          lane = record r.lane {
            embedding_concurrency = if leb 7 version then width else r.lane.embedding_concurrency;
          };
        },
        true,
      )

-- A run's session that still has a credential or a legacy relay.
unfoldable pub has_route : Session → ℕ → Bool
has_route s now = not (s.bearer == "" && s.legacy_gateway == "") && is_after s.expires_at now

unfoldable pub bind_source : Parsers → String → String → ℕ → Session → Option Session
unfolding has_route
bind_source parsers run_id source_ip now s =
    if parsers.is_ip source_ip
      && s.bound_run_id == run_id
      && s.expected_source_ip == ""
      && has_route s now
    then some (record s { expected_source_ip = source_ip })
    else none

unfoldable pub replace_bound_source :
    Parsers → String → String → String → ℕ → Session → Option Session
unfolding has_route
replace_bound_source parsers run_id old_source_ip new_source_ip now s =
    if parsers.is_ip old_source_ip
      && parsers.is_ip new_source_ip
      && s.bound_run_id == run_id
      && s.expected_source_ip == old_source_ip
      && has_route s now
    then some (record s { expected_source_ip = new_source_ip })
    else none

unfoldable pub is_active : Session → ℕ → Bool
is_active s now =
    is_set s.bound_run_id
    && is_set s.expected_source_ip
    && is_after s.expires_at now
    && (is_set s.bearer || is_set s.legacy_gateway)

-- What destroyBrokerSession writes under the lock. It then waits for the embedding calls that it
-- revoked, and each call's own handler takes it off the lane.
unfoldable pub destroyed : Session → Session
destroyed s = record s {
  cancels = [];
  private_key = map (λ _. 0) s.private_key;
  activation_secret = "";
  bearer = "";
  legacy_gateway = "";
  request_model = "";
  lane = record s.lane { phase_active = false };
}

unfoldable pub has_expired : ℕ → Session → Bool
has_expired now s =
    (not (s.expires_at == 0) && not (is_after s.expires_at now))
    || (s.expires_at == 0 && ltb activation_wait (now - s.prepared_at))

-- The entries that pruneExpired leaves.
unfoldable pub live_sessions : ℕ → Assoc Session → Assoc Session
unfolding has_expired
live_sessions now [] = []
live_sessions now ((id, s) ∷ rest) =
    let kept = live_sessions now rest in if has_expired now s then kept else (id, s) ∷ kept

unfoldable pub prune_expired : ℕ → Broker → Broker
unfolding live_sessions
prune_expired now b = record b { sessions = live_sessions now b.sessions }
