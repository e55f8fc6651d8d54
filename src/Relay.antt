-- ===== src/Relay.antt =====
-- cmd/dittobench-api/relay_preflight.go: what a run concludes from two snapshots of its session's
-- ledger, and how it classifies a failure. A snapshot is the ledger with the session's route.
pub mod Finalize
pub mod Attribution
pub mod FailClosed
mod Examples
use dittobench_api.Base.{
  ℕ, ◌+◌, ◌-◌, ◌%◌, String, Bool, true, false, not, Option, none, some, ◌==◌, ltb, leb, ◌&&◌, ◌||◌,
  nat_eq, string_eq, if◌then◌else◌,
}
use dittobench_api.Broker.Session.{Ledger}

pub record Snapshot : Type 0 where
  pub accounting_version : ℕ
  pub provider : String
  pub profile_revision : String
  pub model : String
  pub ledger : Ledger

pub data RelayError : Type 0 where
  restarted agent_declined platform_declined lane_saturated recovery_exhausted : RelayError
  upstream_failures accounting_changed profile_changed model_use_missing usage_incomplete :
      RelayError

-- relayRestarted: a counter ran backwards, or the subset outran its total.
unfoldable pub relay_restarted : Ledger → Ledger → Bool
relay_restarted s e =
    ltb e.requests s.requests
    || ltb e.successes s.successes
    || ltb e.failures s.failures
    || ltb e.grant_denials s.grant_denials
    || ltb e.grant_agent_declines s.grant_agent_declines
    || ltb e.agent_request_rejections s.agent_request_rejections
    || ltb e.capacity_exhaustions s.capacity_exhaustions
    || ltb e.recovery_waits s.recovery_waits
    || ltb e.recovery_exhaustions s.recovery_exhaustions
    || ltb e.embedding_retries s.embedding_retries
    || ltb e.caller_cancels s.caller_cancels
    || ltb e.upstream_attempts s.upstream_attempts
    || ltb (e.grant_denials - s.grant_denials) (e.grant_agent_declines - s.grant_agent_declines)

-- relayDegradedSince: none is no error.
unfoldable pub relay_degraded_since : Ledger → Ledger → Option RelayError
relay_degraded_since s e =
    if relay_restarted s e
    then some restarted
    else if ltb s.grant_denials e.grant_denials
    then (if e.grant_agent_declines - s.grant_agent_declines == e.grant_denials - s.grant_denials
        then some agent_declined
        else some platform_declined)
    else if ltb s.capacity_exhaustions e.capacity_exhaustions
    then some lane_saturated
    else if ltb s.recovery_exhaustions e.recovery_exhaustions
    then some recovery_exhausted
    else if ltb s.failures e.failures
    then some upstream_failures
    else none

pub record Execution : Type 0 where
  pub requests : ℕ
  pub successes : ℕ
  pub infrastructure_failures : ℕ
  pub grant_denials : ℕ
  pub grant_agent_declines : ℕ
  pub agent_request_rejections : ℕ
  pub capacity_exhaustions : ℕ
  pub recovery_waits : ℕ
  pub recovery_exhaustions : ℕ
  pub embedding_retries : ℕ
  pub caller_cancellations : ℕ
  pub upstream_attempts : ℕ
  pub retries : ℕ

-- The deliveries of an interval. `-` stops at 0 in the last field, as the source does by its test.
unfoldable pub execution_between : Ledger → Ledger → Execution
execution_between s e = record {
  requests = e.requests - s.requests;
  successes = e.successes - s.successes;
  infrastructure_failures = e.failures - s.failures;
  grant_denials = e.grant_denials - s.grant_denials;
  grant_agent_declines = e.grant_agent_declines - s.grant_agent_declines;
  agent_request_rejections = e.agent_request_rejections - s.agent_request_rejections;
  capacity_exhaustions = e.capacity_exhaustions - s.capacity_exhaustions;
  recovery_waits = e.recovery_waits - s.recovery_waits;
  recovery_exhaustions = e.recovery_exhaustions - s.recovery_exhaustions;
  embedding_retries = e.embedding_retries - s.embedding_retries;
  caller_cancellations = e.caller_cancels - s.caller_cancels;
  upstream_attempts = e.upstream_attempts - s.upstream_attempts;
  retries = (e.upstream_attempts - s.upstream_attempts) - (e.requests - s.requests);
}

-- relayExecutionSince: none is the error of a restarted relay.
unfoldable pub relay_execution_since : Ledger → Ledger → Option Execution
relay_execution_since s e = if relay_restarted s e then none else some (execution_between s e)

pub record TokenUsage : Type 0 where
  pub complete : Bool
  pub requests : ℕ
  pub successes : ℕ
  pub usage_available : ℕ
  pub usage_unavailable : ℕ
  pub prompt_tokens : ℕ
  pub prompt_bytes : ℕ
  pub completion_tokens : ℕ
  pub total_tokens : ℕ
  pub provider_latency : ℕ

pub data UsageResult : Type 0 where
  usage : TokenUsage → UsageResult
  refused : RelayError → UsageResult

unfoldable pub usage_went_back : Ledger → Ledger → Bool
usage_went_back s e =
    ltb e.requests s.requests
    || ltb e.successes s.successes
    || ltb e.usage_available s.usage_available
    || ltb e.usage_unavailable s.usage_unavailable
    || ltb e.prompt_tokens s.prompt_tokens
    || ltb e.prompt_bytes s.prompt_bytes
    || ltb e.completion_tokens s.completion_tokens
    || ltb e.provider_latency s.provider_latency

abbrev pub u64_mod : ℕ
u64_mod = 18446744073709551616

-- The usage of an interval whose counters did not go back.
unfoldable pub usage_between : Ledger → Ledger → TokenUsage
usage_between s e = record {
  complete =
      e.successes - s.successes == e.usage_available - s.usage_available
      && e.usage_unavailable - s.usage_unavailable == 0;
  requests = e.requests - s.requests;
  successes = e.successes - s.successes;
  usage_available = e.usage_available - s.usage_available;
  usage_unavailable = e.usage_unavailable - s.usage_unavailable;
  prompt_tokens = e.prompt_tokens - s.prompt_tokens;
  prompt_bytes = e.prompt_bytes - s.prompt_bytes;
  completion_tokens = e.completion_tokens - s.completion_tokens;
  total_tokens =
      ((e.prompt_tokens - s.prompt_tokens) + (e.completion_tokens - s.completion_tokens)) % u64_mod;
  provider_latency = e.provider_latency - s.provider_latency;
}

unfoldable pub relay_usage_since : Snapshot → Snapshot → UsageResult
unfolding usage_went_back usage_between
relay_usage_since s e =
    if not (s.accounting_version == e.accounting_version)
    then refused accounting_changed
    else if not (s.provider == e.provider)
        || not (s.profile_revision == e.profile_revision)
        || not (s.model == e.model)
    then refused profile_changed
    else if usage_went_back s.ledger e.ledger
    then refused restarted
    else usage (usage_between s.ledger e.ledger)
