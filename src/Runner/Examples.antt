-- ===== src/Runner/Examples.antt =====
-- internal/runner/runner.go: runs of a case, and the theorems at them.
use dittobench_api.Base.{
  ◌==◌, nat_eq, String, true, none, some, [], ◌∷◌, ◌≡◌, ◌↔◌, refl, if◌then◌else◌, map,
}
use dittobench_api.Runner.{
  live, expired, answered, World, AttemptTelemetry, run_one_with_telemetry, seed_timeout_for,
}
use dittobench_api.Runner.Delivery.{Arrives, attempts_of, delivered_iff}

-- The harness is overloaded at first.
abbrev busy_first : World String
busy_first = record {
  encoded = true;
  exchange = λ n. if n == 0 then answered 429 none else answered 200 (some "hello");
  duration = λ n. 40;
  after_pause = λ n. live;
  at_end = live;
  total = 330;
}

outcomes :
    map AttemptTelemetry.outcome (run_one_with_telemetry busy_first 3).execution.attempts
    ≡ "rate_limited" ∷ "success" ∷ []
unfolding run_one_with_telemetry
outcomes = refl

-- Without a retry the overload is the case's outcome.
single : (run_one_with_telemetry busy_first 0).execution.terminal_outcome ≡ "rate_limited"
unfolding run_one_with_telemetry
single = refl

out_of_time :
    (run_one_with_telemetry
      (record busy_first { after_pause = λ n. expired })
      3).execution.terminal_outcome
    ≡ "timeout"
unfolding run_one_with_telemetry
out_of_time = refl

raised : seed_timeout_for 900 1200 8 ≡ 1200
unfolding seed_timeout_for
raised = refl

delivered_iff_example :
    ((run_one_with_telemetry busy_first 3).response ≡ some "hello")
    ↔ ((busy_first.encoded ≡ true) × Arrives busy_first "hello" (attempts_of 3) 0)
delivered_iff_example = delivered_iff busy_first 3 "hello"
