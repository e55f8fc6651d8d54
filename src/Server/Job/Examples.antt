-- ===== src/Server/Job/Examples.antt =====
-- cmd/dittobench-api/main.go, runSizeJob: a scored run, a practice run that fails, and the theorems
-- of the job at them.
use dittobench_api.Base.{
  String, true, false, Option, none, some, List, [], ◌∷◌, ◌++◌, ◌≡◌, refl, arith, map,
}
use mathlib.Core.List.{Perm}
use dittobench_api.Broker.Session.{empty_ledger}
use dittobench_api.Relay.{
  Snapshot, TokenUsage, relay_restarted, relay_degraded_since, relay_usage_since,
  relay_execution_since, usage_went_back, usage_between, execution_between,
}
use dittobench_api.Relay.Finalize.{relay_run_result, require_complete_v7_usage, valid_usage}
use dittobench_api.Base.Text.{cut_prefix}
use dittobench_api.Base.Assoc.{lookup, insert}
use dittobench_api.Server.Evidence.{
  tool_prerequisite_wave, append_pairs, append_cases, validate_v8_evidence_availability, add_pairs,
  add_tool_pairs, add_waves,
}
use dittobench_api.Server.Job.{Handle, image, goes_on, returns, failed_with}
use dittobench_api.Server.Job.Starting.{Request, World, Dataset, generated, got, lost}
use dittobench_api.Server.Job.Cases.{CaseWorld, Staged, Suite, Wave, wave_of, run_staged}
use dittobench_api.Server.Job.Scoring.{EndWorld, run_size_job}
use dittobench_api.Server.Job.Waves.{wave_at}
use dittobench_api.Server.Job.Scores.{every_case_scored}
use dittobench_api.Server.Job.Launched.{left_behind}

abbrev scored_request : Request
scored_request = record {
  run_id = "r1";
  bench_version = 8;
  run_size = "small";
  has_source = true;
  has_session = true;
  expected_sha256 = "d1";
}

abbrev before : Snapshot
before = record {
  accounting_version = 2;
  provider = "openrouter";
  profile_revision = "openrouter-route-0123456789abcdef-v1";
  model = "openai/gpt-oss-20b";
  ledger = empty_ledger;
}

abbrev probed : Snapshot
probed = record before {
  ledger = record empty_ledger {
    requests = 1;
    successes = 1;
    usage_available = 1;
    prompt_tokens = 5;
    completion_tokens = 1;
  };
}

abbrev after : Snapshot
after = record before {
  ledger = record empty_ledger {
    requests = 3;
    successes = 3;
    usage_available = 3;
    prompt_tokens = 30;
    completion_tokens = 9;
  };
}

abbrev dataset : Dataset
dataset = record {
  tool_pairs = ("p1" ∷ []) ∷ [];
  required_pairs = ("", "p1" ∷ []) ∷ ("ann", "p2" ∷ []) ∷ [];
  wave_pairs = ("ann", "p2" ∷ []) ∷ [];
  artifact = some (record { version = 8; hash = some "d1" });
}

abbrev box : Handle
box = record { source_ip = "172.18.0.5"; base_url = "http://127.0.0.1:9001" }

-- The harness answers the probe of its route only after a restart.
abbrev world : World
world = record {
  describe = λ e. "relay";
  cancelled_at_admission = false;
  cancelled_at_relay = false;
  build = got "image";
  build_leaves = false;
  generation = generated dataset;
  initial_total = 3;
  run_container = got box;
  bind_source = λ ip. true;
  loopback_source = none;
  healthy = none;
  begin_phase = true;
  relay_probe = none;
  relay_snapshot = some before;
  after_probe = some before;
  run_replacement = got (record box { source_ip = "172.18.0.6" });
  replace_source = λ old new. true;
  replacement_healthy = none;
  after_second_probe = some probed;
}

abbrev case_world : CaseWorld String String String
case_world = record {
  allow_private = false;
  register_tool = some "http://172.18.0.1/t";
  listen = true;
  endpoint_panics = false;
  self_check = true;
  local_endpoint = "";
  endpoint_fault = record { message = "no endpoint"; failure = none };
  seed_prerequisites = none;
  seed_secondary = none;
  seed_wave = λ w. none;
  run_tool = λ c. c;
  run_memory = λ user c. user;
  appended = λ batch cs. cs;
  cancelled_in = λ batch. false;
  begin_phase = true;
  cancelled_at_admission = false;
}

abbrev late : Staged String
late = record { memory_case = "m1"; user = ""; before_first = false; run_after_wave = 7 }

abbrev early : Staged String
early = record { memory_case = "m2"; user = "bob"; before_first = true; run_after_wave = 0 }

abbrev first : Wave
first = record { user = "ann"; pairs = 1 }

abbrev second : Wave
second = record { user = "eve"; pairs = 1 }

abbrev suite : Suite String String
suite = record {
  tool_cases = "t1" ∷ [];
  tool_pairs = ("p1" ∷ []) ∷ [];
  memory_cases = late ∷ early ∷ [];
  waves = first ∷ second ∷ [];
  seeding_waves = 2;
  secondary_pairs = 0;
  total = 3;
}

abbrev end : EndWorld String (List String)
end = record {
  describe = λ e. "relay";
  cancelled_at_relay = false;
  end_snapshot = some after;
  report_of = λ scored used. scored;
  report_panics = false;
  report_version = λ report. some 8;
  transcript = some ("sha", b'{' ∷ b'}' ∷ []);
  diagnose = λ fault. fault;
}

abbrev report : List String
report = "t1" ∷ "bob" ∷ "eve" ∷ []

reported : (run_size_job world case_world suite end scored_request).0 ≡ goes_on report
unfolding run_size_job relay_run_result require_complete_v7_usage valid_usage relay_restarted
    relay_degraded_since relay_usage_since relay_execution_since usage_went_back usage_between
    execution_between cut_prefix tool_prerequisite_wave append_pairs append_cases
    validate_v8_evidence_availability add_pairs add_tool_pairs add_waves lookup insert
reported = refl

every_case_scored_example :
    (scores : List String) × (used : Option TokenUsage) × (report
      ≡ end.report_of (map case_world.run_tool suite.tool_cases ++ scores) used)
    × Perm scores (
        map
          (λ c. run_staged case_world (wave_at first suite.waves (wave_of 2 c)) c)
          suite.memory_cases)
every_case_scored_example =
    every_case_scored world case_world suite end scored_request first report (omega arith) refl
      reported

-- The replacement of the container never becomes healthy: the failure is written twice, the second
-- time with the evidence of the container, before what the run holds is given back.
abbrev stuck : World
stuck = record world { replacement_healthy = some "timeout" }

failed :
    (run_size_job stuck case_world suite end scored_request).0
    ≡ returns (
        failed_with (record {
          message = "compatibility harness never became healthy: timeout";
          failure = none;
        }))
unfolding run_size_job relay_restarted relay_degraded_since cut_prefix
    validate_v8_evidence_availability add_pairs add_tool_pairs add_waves lookup insert
failed = refl

-- A build that fails behind the tag leaves its image.
unbuilt :
    (left_behind
      (record world {
        build = lost (record { message = "no identity"; failure = none });
        build_leaves = true;
      })
      scored_request)
    ≡ image ∷ []
unbuilt = refl

kept_image :
    (run_size_job
      (record world {
        build = lost (record { message = "no identity"; failure = none });
        build_leaves = true;
      })
      case_world
      suite
      end
      scored_request).1.held
    ≡ image ∷ []
unfolding run_size_job
kept_image = refl
