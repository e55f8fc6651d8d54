-- ===== src/Server/Examples.antt =====
-- Concrete runs of a server, and its theorems at them.
use dittobench_api.Server.Evidence.{graph_of, validate_v8_evidence_availability}
use dittobench_api.Server.Evidence.Seeded.{is_seeded, evidence_available_iff}
use dittobench_api.Base.{String, not, ◌==◌, ◌&&◌, string_eq, all}
use dittobench_api.Base.Text.{bytes_of, trim_space, trim_left, is_space, cut_prefix, lower}
use dittobench_api.Server.Submit.{
  Request, Config, is_set, canonical_sha256, requested_bench_version, validate_screened_image,
  validate_screened_image_access, validate_benchmark_image_contract, score_request_refusal,
}
use dittobench_api.Server.Submit.Intake.{IsScreened, score_request_pinned}
use dittobench_api.Base.{
  Bool, Option, ◌≢◌, ◌++◌, ℕ, true, false, none, some, List, [], ◌∷◌, ◌≡◌, refl,
}
use dittobench_api.Base.{◌⊎◌, if◌then◌else◌}
use dittobench_api.Base.Assoc.{Assoc, lookup}
use dittobench_api.Store.Job.{Store, Job, Failure, queued, failed}
use dittobench_api.Store.Methods.{get}
use dittobench_api.Server.Environment.{
  Getenv, harness_gateway, itoa, env_int_default, is_locked, harness_sandbox_env_for_provider, Text,
}
use dittobench_api.Server.Environment.Locked.{locked_values, sandbox_env_exact}
use dittobench_api.Server.Diagnosis.{
  Diagnostics, infrastructure_code, sandbox_start_infra_failure, finish_sandbox_run,
}
use dittobench_api.Server.Diagnosis.Verdicts.{IsPlatformFault, platform_fault_kept}
use dittobench_api.Server.Start
use dittobench_api.Server.Start.{Server, Submission, accepted, submit_run_size}
use dittobench_api.Server.Start.Admission.{IsStarted, submit_all_or_nothing}
use dittobench_api.Store.Methods.{new_job}
use dittobench_api.Server.Memory.{
  Phases, Event, begins, take_slot, release_slot, open_phase, begin_memory_phase, end_at,
  run_events,
}
use dittobench_api.Server.Memory.Slots.{count_open, is_open_at, waiting_phase_admitted}
use dittobench_api.Server.Cancel.{Cancels, handle_cancel_run}
use dittobench_api.Server.Cancel.Verdicts.{AllOrNothing, handle_cancel_run_exact}

abbrev one_slot : Phases
one_slot = record { capacity = some 1; slots = 0; sessions = none }

-- One run in its phase, a second one refused for want of a broker.
abbrev busy : List Event
busy = begins "" "r1" true 10 ∷ begins "s2" "r2" false 11 ∷ []

waiting_phase_admitted_example :
    (count_open (run_events busy ([], one_slot)).0 ≡ 1)
    × ((i : ℕ)
        → is_open_at i (run_events busy ([], one_slot)).0 ≡ true
        → (s : Phases) × (take_slot true
              (end_at i (run_events busy ([], one_slot)).0 (run_events busy ([], one_slot)).1).1
            ≡ some s))
unfolding take_slot begin_memory_phase open_phase release_slot
waiting_phase_admitted_example = waiting_phase_admitted 0 busy one_slot true refl refl refl

abbrev one_run : Store Unit Unit Unit
one_run = ("r1", new_job "r1" "run_size" queued 7 3 1) ∷ []

abbrev cancels : Cancels
cancels = record { registered = "r1" ∷ []; cancelled = [] }

handle_cancel_run_exact_example :
    AllOrNothing "r1" 20 one_run cancels (handle_cancel_run "r1" 20 one_run (one_run, cancels))
handle_cancel_run_exact_example = handle_cancel_run_exact "r1" 20 one_run one_run cancels

abbrev parse_any : List ℕ → Option (List ℕ)
parse_any s = some s

abbrev reachable : List ℕ → Bool → Option (List ℕ)
reachable url allow_private = none

abbrev validator : Config
validator = record {
  allow_private = false;
  allow_screened_images = true;
  require_ticket_inference = true;
  validate_url = reachable;
  parse_uuid = parse_any;
}

abbrev public_server : Config
public_server = record validator { allow_screened_images = false; require_ticket_inference = false }

abbrev digest : List ℕ
digest = bytes_of "0123456789abcdef0123456789abcdef0123456789abcdef0123456789abcdef"

abbrev ticket_request : Request
ticket_request = record {
  bench_version = 8;
  harness_url = [];
  git_url = [];
  tarball_url = bytes_of "https://t";
  screened_image_url = bytes_of "https://i";
  screened_image_sha256 = digest;
  screened_image_id = bytes_of "sha256:" ++ digest;
  screened_image_ref = bytes_of "ditto-screen/5:latest";
  screened_image_size = 100;
  negative_size = false;
  run_size = bytes_of "small";
  seed = 7;
  expected_dataset_sha256 = digest;
  inference_session_id = bytes_of "s";
}

abbrev practice_request : Request
practice_request = record ticket_request {
  harness_url = bytes_of "https://h";
  tarball_url = [];
  screened_image_url = [];
  screened_image_sha256 = [];
  screened_image_id = [];
  screened_image_ref = [];
  screened_image_size = 0;
}

score_request_pinned_example :
    (ticket_request.bench_version ≡ 8)
    × (is_set (bytes_of "s") ≡ true)
    × (ticket_request.seed ≢ 0)
    × (canonical_sha256 digest ≡ true)
    × (is_set (bytes_of "small") ≡ true)
    × IsScreened validator ticket_request
    × (reachable (bytes_of "https://t") false ≡ none)
    × (reachable (bytes_of "https://i") false ≡ none)
unfolding score_request_refusal requested_bench_version canonical_sha256 validate_screened_image
    validate_screened_image_access validate_benchmark_image_contract trim_space trim_left is_space
    cut_prefix lower
score_request_pinned_example = score_request_pinned validator ticket_request refl

abbrev needs : List (String × List String)
needs = ("", "p1" ∷ []) ∷ ("ann", "p2" ∷ "p3" ∷ []) ∷ []

abbrev seeded : List (String × List String)
seeded = ("ann", "p2" ∷ "p3" ∷ []) ∷ []

evidence_available_iff_example :
    validate_v8_evidence_availability (("p1" ∷ []) ∷ []) needs seeded
    ≡ all
        (λ staged.
          all
            (λ id. not (id == "") && is_seeded (("p1" ∷ []) ∷ []) seeded (graph_of staged.0) id)
            staged.1)
        needs
evidence_available_iff_example = evidence_available_iff (("p1" ∷ []) ∷ []) needs seeded

abbrev environment : Getenv
environment name = if name == "DITTOBENCH_BROKER_PORT" then bytes_of "+9100" else []

abbrev submitted_env : Assoc Text
submitted_env =
    ("LOG_LEVEL", bytes_of "debug")
    ∷ ("OPENAI_BASE_URL", bytes_of "https://evil.example")
    ∷ ("DITTOBENCH_DB", bytes_of "/data")
    ∷ []

broker_gateway :
    harness_gateway environment (bytes_of "s")
    ≡ bytes_of "http://host.docker.internal:9100/v1/inference"
unfolding harness_gateway itoa env_int_default
broker_gateway = refl

sandbox_env_exact_example :
    lookup "OPENAI_BASE_URL" (
      harness_sandbox_env_for_provider environment submitted_env 8
        (bytes_of "platform")
        (bytes_of "s"))
    ≡ (if is_locked "OPENAI_BASE_URL"
        then lookup "OPENAI_BASE_URL"
            (locked_values environment 8 (bytes_of "platform") (bytes_of "s"))
        else lookup "OPENAI_BASE_URL" submitted_env)
sandbox_env_exact_example =
    sandbox_env_exact environment submitted_env 8 (bytes_of "platform") (bytes_of "s")
      "OPENAI_BASE_URL"

abbrev relay_down : Failure String
relay_down = record {
  kind = "validator_infrastructure";
  code = "model_relay_unavailable";
  retryable = true;
  diagnostics = none;
}

abbrev failed_run : Job Unit Unit String
failed_run = record (new_job "r1" "run_size" queued 7 3 1) {
  status = failed;
  error = "locked model relay unavailable";
  failure = some relay_down;
}

-- A container that ran without trouble, and one that was killed for its memory.
abbrev quiet : Diagnostics
quiet = record { oom_killed = false; oom_kills = 0; tmpfs_used = some 3; tmpfs_capacity = some 9 }

killed : infrastructure_code (record quiet { oom_kills = 1 }) ≡ some "sandbox_oom"
unfolding infrastructure_code
killed = refl

full : infrastructure_code (record quiet { tmpfs_used = some 9 }) ≡ some "sandbox_tmpfs_exhausted"
unfolding infrastructure_code
full = refl

no_image :
    sandbox_start_infra_failure {Diag = Unit} (bytes_of "docker: No such image: dittobench-sub:r1")
    ≢ none
unfolding sandbox_start_infra_failure cut_prefix lower
no_image = cc

platform_fault_kept_example :
    (j : Job Unit Unit String) × (f : Failure String) × (get "r1"
        (finish_sandbox_run (λ a b. a) "r1" quiet "logs" 9 (("r1", failed_run) ∷ []))
      ≡ some j)
    × (j.status ≡ failed)
    × (j.failure ≡ some f)
    × IsPlatformFault f
unfolding get lookup
platform_fault_kept_example =
    platform_fault_kept (λ a b. a) "r1" quiet "logs" 9 (("r1", failed_run) ∷ []) failed_run
      relay_down refl refl refl (record { kind_eq = refl; may_retry = refl })

abbrev submission : Submission Unit
submission = record {
  has_build_source = true;
  has_harness_url = false;
  run_size = "small";
  bench_version = 8;
  pinned_seed = 0;
  has_session = true;
  profile = some 3;
  has_sandbox = true;
  sandbox_available = true;
  fresh_seed = 11;
  run_id = "r2";
  claim = λ broker. none;
}

abbrev server : Server Unit Unit Unit Unit
server = record { capacity = 2; run_slots = 1; store = one_run; cancels = cancels; broker = tt }

-- Its session cannot be claimed: its slot is given back.
unclaimed : submit_run_size 30 submission server ≡ (server, Start.refused 409)
unfolding submit_run_size
unclaimed = refl

abbrev claimable : Submission Unit
claimable = record submission { claim = λ broker. some broker }

submit_all_or_nothing_example :
    ((code : ℕ) × (submit_run_size 30 claimable server ≡ (server, Start.refused code)))
    ⊎ (((submit_run_size 30 claimable server).1 ≡ accepted "r2")
        × IsStarted 30 claimable server (submit_run_size 30 claimable server).0)
submit_all_or_nothing_example = submit_all_or_nothing 30 claimable server
