-- ===== src/Runner.antt =====
-- internal/runner/runner.go: how the harness is asked one case. An exchange over HTTP, with the state
-- of the case's context after it, is an argument; so are the durations that the clock measures.
pub mod Delivery
mod Examples
use dittobench_api.Base.{
  ℕ, zero, suc, ◌+◌, ◌-◌, String, Bool, true, false, not, Option, none, some, List, [], ◌∷◌, ◌++◌,
  ◌==◌, ltb, leb, ◌||◌, ◌&&◌, nat_eq, if◌then◌else◌,
}

-- ctx.Err(): nil, DeadlineExceeded or Canceled.
pub data Context : Type 0 where
  live expired cancelled : Context

-- The deadline of a case, in seconds; that of version 7 comes from the environment.
unfoldable pub per_case_timeout_for : ℕ → ℕ → ℕ
per_case_timeout_for v7_per_case_timeout bench_version =
    if leb 7 bench_version then v7_per_case_timeout else 120

unfoldable pub seed_timeout_for : ℕ → ℕ → ℕ → ℕ
seed_timeout_for v7_seed_timeout seed_timeout bench_version =
    if leb 7 bench_version && ltb seed_timeout v7_seed_timeout
    then v7_seed_timeout
    else seed_timeout

-- What comes of one POST: the request is not built, not sent, its response is not read, or it is
-- answered, with the response that the body decodes to, if it does.
pub data Exchange (Response : Type 0) : Type 0 where
  unbuilt : Exchange Response
  unsent : Context → Exchange Response
  unread : Context → ℕ → Exchange Response
  answered : ℕ → Option Response → Exchange Response

pub record AttemptTelemetry : Type 0 where
  pub attempt : ℕ
  pub duration_ms : ℕ
  pub outcome : String
  pub http_status : ℕ

-- runAttempt: the response, or whether a new attempt could succeed.
pub data Tried (Response : Type 0) : Type 0 where
  delivered : Response → Tried Response
  failed : Bool → Tried Response

-- The outcome of an error under a context.
unfoldable pub outcome_under : Context → String → String
outcome_under live outcome = outcome
outcome_under expired outcome = "timeout"
outcome_under cancelled outcome = "cancelled"

abbrev pub is_live : Context → Bool
is_live live = true
is_live expired = false
is_live cancelled = false

abbrev is_success : ℕ → Bool
is_success status = leb 200 status && ltb status 300

-- For a status that is no success.
unfoldable pub is_transient : ℕ → Bool
is_transient status = status == 429 || leb 500 status

unfoldable pub status_outcome : ℕ → String
status_outcome status =
    if status == 429
    then "rate_limited"
    else if leb 500 status
    then "server_error"
    else "client_error"

abbrev telemetry : ℕ → String → ℕ → AttemptTelemetry
telemetry duration outcome status = record {
  attempt = 0;
  duration_ms = duration;
  outcome = outcome;
  http_status = status;
}

module _ {Response : Type 0} where
  unfoldable pub run_attempt : ℕ → Exchange Response → Tried Response × AttemptTelemetry
  unfolding outcome_under is_transient status_outcome
  run_attempt duration unbuilt = (failed false, telemetry duration "request_build_error" 0)
  run_attempt duration (unsent c) =
      (failed (is_live c), telemetry duration (outcome_under c "connection_error") 0)
  run_attempt duration (unread c status) =
      (failed (is_live c), telemetry duration (outcome_under c "response_read_error") status)
  run_attempt duration (answered status body) =
      if not (is_success status)
      then (failed (is_transient status), telemetry duration (status_outcome status) status)
      else elim body [
        | none ↦ (failed false, telemetry duration "invalid_response" status)
        | some r ↦ (delivered r, telemetry duration "success" status)
      ]

pub record CaseExecution : Type 0 where
  pub attempts : List AttemptTelemetry
  pub total_duration_ms : ℕ
  pub timed_out : Bool
  pub cancelled : Bool
  pub terminal_outcome : String

-- What a case meets: whether its request is encoded, the exchange of each attempt, counted from 0, with
-- its duration, the context after the pause before an attempt, and the context at the end.
pub record World (Response : Type 0) : Type 0 where
  pub encoded : Bool
  pub exchange : ℕ → Exchange Response
  pub duration : ℕ → ℕ
  pub after_pause : ℕ → Context
  pub at_end : Context
  pub total : ℕ

-- The response of a case, none for an error, with its execution.
pub record Ran (Response : Type 0) : Type 0 where
  pub response : Option Response
  pub execution : CaseExecution

abbrev is_expired : Context → Bool
is_expired live = false
is_expired expired = true
is_expired cancelled = false

abbrev is_cancelled : Context → Bool
is_cancelled live = false
is_cancelled expired = false
is_cancelled cancelled = true

module _ {Response : Type 0} (world : World Response) where
  -- The function finish of runOneWithTelemetry.
  unfoldable pub finish_case : String → List AttemptTelemetry → Ran Response
  finish_case outcome attempts = record {
    response = none;
    execution = record {
      attempts = attempts;
      total_duration_ms = world.total;
      timed_out = is_expired world.at_end;
      cancelled = is_cancelled world.at_end;
      terminal_outcome = outcome;
    };
  }

  unfoldable pub succeed : Response → List AttemptTelemetry → Ran Response
  succeed r attempts = record {
    response = some r;
    execution = record {
      attempts = attempts;
      total_duration_ms = world.total;
      timed_out = false;
      cancelled = false;
      terminal_outcome = "success";
    };
  }

  -- The pause before an attempt, which the end of the context cuts short.
  unfoldable pub pause_before : ℕ → Context
  pause_before attempt = if attempt == 0 then live else world.after_pause attempt

  -- The loop, with the attempts that are left, the number of the next one, the telemetry so far and
  -- the outcome of the last attempt.
  unfoldable pub attempt_from : ℕ → ℕ → List AttemptTelemetry → String → Ran Response
  unfolding finish_case succeed pause_before run_attempt
  attempt_from zero attempt done last = finish_case last done
  attempt_from (suc left) attempt done last =
      let (tried, seen) = run_attempt (world.duration attempt) (world.exchange attempt) in
      let attempts = done ++ record seen { attempt = attempt + 1 } ∷ [] in
      let rest = attempt_from left (attempt + 1) attempts seen.outcome in
      elim (pause_before attempt) [
        | live ↦ elim tried [
          | delivered r ↦ succeed r attempts
          | failed retryable ↦ if retryable then rest else finish_case seen.outcome attempts
        ]
        | expired ↦ finish_case "timeout" done
        | cancelled ↦ finish_case "cancelled" done
      ]

  -- runOneWithTelemetry
  unfoldable pub run_one_with_telemetry : ℕ → Ran Response
  unfolding attempt_from
  run_one_with_telemetry run_attempts =
      if not world.encoded
      then finish_case "request_encode_error" []
      else attempt_from (if ltb run_attempts 1 then 1 else run_attempts) 0 [] "retry_exhausted"
