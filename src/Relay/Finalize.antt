-- ===== src/Relay/Finalize.antt =====
-- cmd/dittobench-api/relay_preflight.go and internal/efficiency/efficiency.go (ValidUsage): the
-- checks at the end of a run and the classification of their errors.
use dittobench_api.Base.{
  ℕ, ◌+◌, String, Bool, true, false, not, Option, none, some, ◌==◌, ltb, leb, ◌&&◌, ◌||◌, nat_eq,
  string_eq, if◌then◌else◌,
}
use dittobench_api.Store.Job.{Failure}
use dittobench_api.Relay.{
  Snapshot, RelayError, agent_declined, lane_saturated, recovery_exhausted, model_use_missing,
  usage_incomplete, Execution, TokenUsage, usage, refused, relay_degraded_since, relay_usage_since,
  relay_execution_since, restarted, u64_mod,
}

-- `u.prompt_tokens > ^uint64(0)-u.completion_tokens` is written as a bound on the sum.
unfoldable pub valid_usage : TokenUsage → Bool
valid_usage u =
    if not u.complete
      || u.successes == 0
      || not (u.usage_available == u.successes)
      || not (u.usage_unavailable == 0)
      || u.total_tokens == 0
      || u.prompt_tokens == 0
      || leb u64_mod (u.prompt_tokens + u.completion_tokens)
    then false
    else u.total_tokens == u.prompt_tokens + u.completion_tokens

unfoldable pub unused_v8_chat_lane : ℕ → TokenUsage → Execution → Bool
unused_v8_chat_lane version u x =
    leb 8 version
    && u.complete
    && u.requests == 0
    && u.successes == 0
    && u.usage_available == 0
    && u.usage_unavailable == 0
    && u.prompt_tokens == 0
    && u.completion_tokens == 0
    && u.total_tokens == 0
    && x.requests == 0
    && x.successes == 0
    && x.infrastructure_failures == 0
    && x.grant_denials == 0
    && x.agent_request_rejections == 0
    && x.capacity_exhaustions == 0
    && x.recovery_exhaustions == 0
    && x.caller_cancellations == 0

-- requireCompleteV7Usage: none is no error.
unfoldable pub require_complete_v7_usage : ℕ → TokenUsage → Execution → Option RelayError
require_complete_v7_usage version u x =
    if ltb version 7 || valid_usage u
    then none
    else if unused_v8_chat_lane version u x
    then some model_use_missing
    else if ltb 0 x.agent_request_rejections && leb u.usage_unavailable x.agent_request_rejections
    then some agent_declined
    else some usage_incomplete

-- The relay_cause entry of the diagnostics.
abbrev pub RelayFailure : Type 0
RelayFailure = Failure String

unfoldable pub relay_finalize_failure : RelayError → RelayFailure
relay_finalize_failure model_use_missing = record {
  kind = "sandbox_failure";
  code = "model_inference_required";
  retryable = false;
  diagnostics = none;
}
relay_finalize_failure agent_declined = record {
  kind = "sandbox_failure";
  code = "inference_allowance_exhausted";
  retryable = false;
  diagnostics = none;
}
relay_finalize_failure lane_saturated = record {
  kind = "validator_infrastructure";
  code = "model_relay_unavailable";
  retryable = true;
  diagnostics = some "inference_lane_saturated";
}
relay_finalize_failure recovery_exhausted = record {
  kind = "validator_infrastructure";
  code = "model_relay_unavailable";
  retryable = true;
  diagnostics = some "provider_recovery_exhausted";
}
relay_finalize_failure error = record {
  kind = "validator_infrastructure";
  code = "model_relay_unavailable";
  retryable = true;
  diagnostics = none;
}

-- relayRunResult after its two snapshots: the usage and deliveries of the run, or the error.
pub data RunResult : Type 0 where
  metered : TokenUsage → Execution → RunResult
  relay_failed : RelayError → RunResult

unfoldable pub relay_run_result : Snapshot → Snapshot → RunResult
relay_run_result s e = elim (relay_degraded_since s.ledger e.ledger) [
  | some error ↦ relay_failed error
  | none ↦ elim (relay_usage_since s e) [
    | refused error ↦ relay_failed error
    | usage u ↦ elim (relay_execution_since s.ledger e.ledger) [
      | none ↦ relay_failed restarted
      | some x ↦ metered u x
    ]
  ]
]
