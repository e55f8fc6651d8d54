-- ===== src/Broker/Session.antt =====
-- cmd/dittobench-api/inference_broker.go: the broker's state. Instants are nanoseconds since Go's
-- zero time, so 0 is the zero time. The counters are uint64 in the source and unbounded here; keys,
-- tokens and ids are only carried or compared. An in-flight call is known by a number.
use dittobench_api.Base.{ℕ, String, Bool, List, []}
use dittobench_api.Base.Assoc.{Assoc}

pub record TicketIdentity : Type 0 where
  pub grant_id : String
  pub agent_id : String
  pub slot_id : String
  pub ticket_deadline : ℕ

-- The accounting fields of brokerSession.
pub record Ledger : Type 0 where
  pub requests : ℕ
  pub successes : ℕ
  pub failures : ℕ
  pub grant_denials : ℕ
  pub grant_agent_declines : ℕ
  pub terminal_agent_failure_notified : Bool
  pub agent_request_rejections : ℕ
  pub capacity_exhaustions : ℕ
  pub recovery_waits : ℕ
  pub recovery_exhaustions : ℕ
  pub recovery_waiters : ℕ
  pub usage_available : ℕ
  pub usage_unavailable : ℕ
  pub prompt_tokens : ℕ
  pub prompt_bytes : ℕ
  pub completion_tokens : ℕ
  pub provider_latency : ℕ
  pub caller_cancels : ℕ
  pub upstream_attempts : ℕ
  pub embedding_retries : ℕ

-- The embedding fields of brokerSession.
pub record Lane : Type 0 where
  pub phase_started : Bool
  pub phase_active : Bool
  pub embedding_in_flight : ℕ
  pub embedding_concurrency : ℕ
  pub embedding_calls : List ℕ
  pub embedding_requests : ℕ
  pub embedding_inputs : ℕ
  pub embedding_input_bytes : ℕ

pub record Session : Type 0 where
  pub id : String
  pub activation_secret : String
  pub private_key : List ℕ
  pub public_key : List ℕ
  pub grant_id : String
  pub bearer : String
  pub proxy_url : String
  pub legacy_gateway : String
  pub generation : ℕ
  pub expires_at : ℕ
  pub expected_source_ip : String
  pub provider : String
  pub model : String
  pub request_model : String
  pub profile_revision : String
  pub prepared_at : ℕ
  pub ticket_agent_id : String
  pub ticket_slot_id : String
  pub ticket_deadline : ℕ
  pub bound_run_id : String
  pub bench_version : ℕ
  pub in_flight : ℕ
  pub lane : Lane
  pub ledger : Ledger
  pub cancels : List ℕ

pub record Broker : Type 0 where
  pub sessions : Assoc Session
  pub max_sessions : ℕ
  pub platform_proxy_url : String
  pub platform_transport_url : String
  pub embedding_url : String

-- What the broker takes from other packages: whether uuid.Parse and net.ParseIP accept a text.
pub record Parsers : Type 0 where
  pub is_uuid : String → Bool
  pub is_ip : String → Bool

abbrev pub empty_ledger : Ledger
empty_ledger = record {
  requests = 0;
  successes = 0;
  failures = 0;
  grant_denials = 0;
  grant_agent_declines = 0;
  terminal_agent_failure_notified = Bool.false;
  agent_request_rejections = 0;
  capacity_exhaustions = 0;
  recovery_waits = 0;
  recovery_exhaustions = 0;
  recovery_waiters = 0;
  usage_available = 0;
  usage_unavailable = 0;
  prompt_tokens = 0;
  prompt_bytes = 0;
  completion_tokens = 0;
  provider_latency = 0;
  caller_cancels = 0;
  upstream_attempts = 0;
  embedding_retries = 0;
}

abbrev pub empty_lane : Lane
empty_lane = record {
  phase_started = Bool.false;
  phase_active = Bool.false;
  embedding_in_flight = 0;
  embedding_concurrency = 0;
  embedding_calls = [];
  embedding_requests = 0;
  embedding_inputs = 0;
  embedding_input_bytes = 0;
}

-- &brokerSession{}: every field has its zero value.
abbrev pub empty_session : Session
empty_session = record {
  id = "";
  activation_secret = "";
  private_key = [];
  public_key = [];
  grant_id = "";
  bearer = "";
  proxy_url = "";
  legacy_gateway = "";
  generation = 0;
  expires_at = 0;
  expected_source_ip = "";
  provider = "";
  model = "";
  request_model = "";
  profile_revision = "";
  prepared_at = 0;
  ticket_agent_id = "";
  ticket_slot_id = "";
  ticket_deadline = 0;
  bound_run_id = "";
  bench_version = 0;
  in_flight = 0;
  lane = empty_lane;
  ledger = empty_ledger;
  cancels = [];
}
