-- ===== src/Broker/Accounting.antt =====
-- cmd/dittobench-api/inference_broker.go: how the calls of a session are booked in its ledger.
pub mod Balance
pub mod Stale
use dittobench_api.Base.{
  ℕ, ◌+◌, ◌-◌, String, Bool, true, false, not, Option, none, some, ◌==◌, ltb, leb, ◌&&◌, ◌||◌,
  nat_eq, string_eq, if◌then◌else◌,
}
use dittobench_api.Broker.Session.{Ledger}
use dittobench_api.Broker.Decline.{
  ErrorBody, decline_is_agent_fault, platform_decline_code, platform_denies_grant,
}
use dittobench_api.Broker.Delivery.{Body, Delivery}

abbrev pub one_if : Bool → ℕ
one_if true = 1
one_if false = 0

-- A chat call that passed the checks of proxy: it is counted with the bytes that it sends.
unfoldable pub open_chat : ℕ → Ledger → Ledger
open_chat bytes l = record l { requests = l.requests + 1; prompt_bytes = l.prompt_bytes + bytes }

-- beginRelayWait, and whether this call announces the wait; the function that it returns, and whether
-- that call announces the end.
unfoldable pub begin_relay_wait : Ledger → Ledger × Bool
begin_relay_wait l = (
  record l { recovery_waits = l.recovery_waits + 1; recovery_waiters = l.recovery_waiters + 1 },
  l.recovery_waiters + 1 == 1,
)

unfoldable pub end_relay_wait : Ledger → Ledger × Bool
end_relay_wait l =
    (record l { recovery_waiters = l.recovery_waiters - 1 }, l.recovery_waiters - 1 == 0)

-- What the delivery loop itself books: the deliveries, and the wait that it gave up.
unfoldable pub book_delivery : Delivery → Ledger → Ledger
book_delivery d l = record l {
  upstream_attempts = l.upstream_attempts + d.deliveries;
  capacity_exhaustions = l.capacity_exhaustions + one_if d.saturated;
}

-- The ways in which proxy ends after its loop.
pub data Outcome : Type 0 where
  caller_gone : Outcome
  rejected : ℕ → Outcome
  declined : (agent : Bool) → Outcome
  failed : Outcome
  served : Option (ℕ × ℕ) → Outcome

-- A missing body is one of no bytes.
abbrev is_empty : Option Body → Bool
is_empty none = true
is_empty (some b) = b.empty

abbrev decline_of : Option Body → ℕ
decline_of none = 0
decline_of (some b) = platform_decline_code b.error

abbrev usage_of : Option Body → Option (ℕ × ℕ)
usage_of none = none
usage_of (some b) = b.usage

-- `gone` is whether the call's context has ended.
unfoldable pub outcome : String → Bool → Delivery → Outcome
outcome legacy_gateway gone d =
    if gone
    then caller_gone
    else if leb 400 d.status && ltb d.status 500 && not (d.status == 429)
    then rejected d.status
    else if platform_denies_grant legacy_gateway d.status
    then declined (decline_is_agent_fault (decline_of d.body))
    else if ltb d.status 200 || leb 300 d.status || is_empty d.body
    then failed
    else served (usage_of d.body)

-- The ledger after the outcome; `waited` is whether the call had announced a wait.
unfoldable pub settle : Bool → ℕ → Outcome → Ledger → Ledger
settle waited latency caller_gone l = record l {
  caller_cancels = l.caller_cancels + 1;
  provider_latency = l.provider_latency + latency;
}
settle waited latency (rejected status) l = record l {
  usage_unavailable = l.usage_unavailable + 1;
  agent_request_rejections = l.agent_request_rejections + 1;
  provider_latency = l.provider_latency + latency;
}
settle waited latency (declined agent) l = record l {
  grant_denials = l.grant_denials + 1;
  grant_agent_declines = l.grant_agent_declines + one_if agent;
  provider_latency = l.provider_latency + latency;
}
settle waited latency failed l = record l {
  failures = l.failures + 1;
  recovery_exhaustions = l.recovery_exhaustions + one_if waited;
  provider_latency = l.provider_latency + latency;
}
settle waited latency (served none) l = record l {
  successes = l.successes + 1;
  usage_unavailable = l.usage_unavailable + 1;
  provider_latency = l.provider_latency + latency;
}
settle waited latency (served (some (prompt, completion))) l = record l {
  successes = l.successes + 1;
  usage_available = l.usage_available + 1;
  prompt_tokens = l.prompt_tokens + prompt;
  completion_tokens = l.completion_tokens + completion;
  provider_latency = l.provider_latency + latency;
}

-- The HTTP status that the harness sees.
unfoldable pub reply : Outcome → ℕ
reply caller_gone = 409
reply (rejected status) = status
reply (declined agent) = 502
reply failed = 502
reply (served usage) = 200

-- How the hosted embedding lane fails: a cancelled call, a denied grant with its code, a lane that
-- stayed full, or anything else.
pub data EmbeddingFault : Type 0 where
  call_gone : EmbeddingFault
  grant_denied : ℕ → EmbeddingFault
  lane_full : EmbeddingFault
  provider_fault : EmbeddingFault

unfoldable pub settle_embedding : EmbeddingFault → Ledger → Ledger
settle_embedding call_gone l = record l { caller_cancels = l.caller_cancels + 1 }
settle_embedding (grant_denied code) l = record l {
  grant_denials = l.grant_denials + 1;
  grant_agent_declines = l.grant_agent_declines + one_if (decline_is_agent_fault code);
}
settle_embedding lane_full l = record l {
  capacity_exhaustions = l.capacity_exhaustions + 1;
  failures = l.failures + 1;
}
settle_embedding provider_fault l = record l { failures = l.failures + 1 }

-- notifyTerminalAgentFailure: the run to end, the first time, if the session is bound to one.
unfoldable pub notify_terminal_agent_failure : String → Ledger → Ledger × Option String
notify_terminal_agent_failure run_id l = if l.terminal_agent_failure_notified then (l, none) else (
  record l { terminal_agent_failure_notified = true },
  if run_id == "" then none else some run_id,
)
