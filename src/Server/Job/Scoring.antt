-- ===== src/Server/Job/Scoring.antt =====
-- cmd/dittobench-api/main.go, runSizeJob: the stages after the last case, and the whole job.
use dittobench_api.Base.{
  ℕ, String, Bool, not, Option, none, some, List, [], ◌∷◌, ◌++◌, ◌==◌, nat_eq, if◌then◌else◌,
  length,
}
use dittobench_api.Store.Job.{scoring}
use dittobench_api.Store.Methods.{set_transcript, finish, fail_with}
use dittobench_api.Relay.{Snapshot, RelayError, TokenUsage}
use dittobench_api.Relay.Finalize.{
  RunResult, metered, relay_failed, relay_run_result, require_complete_v7_usage,
}
use dittobench_api.Server.Job.{
  Fault, failed_with, abandoned, panicked, Resource, run_slot, cancel_entry, session,
  embedding_phase, Deferred, gives_back, finishes_sandbox, recovers, without, give_back, Work, Step,
  goes_on, returns, Stage, ◌>>=◌, ◌>>◌, pure, done_with, stop, fail_stage, write, stage, panic_if,
}
use dittobench_api.Server.Job.Starting.{Request, World, known, other, relay_fault, relay_exit}
use dittobench_api.Server.Job.Launching.{start_run}
use dittobench_api.Server.Job.Cases.{CaseWorld, Suite, run_cases}

-- The world of a job's end: the snapshot of the relay, and what is made of the scored cases. The report
-- is built with the version of the artifact's contract; a transcript may fail to be encoded.
pub record EndWorld (Case Report : Type 0) : Type 0 where
  pub describe : RelayError → String
  pub cancelled_at_relay : Bool
  pub end_snapshot : Option Snapshot
  pub report_panics : Bool
  pub report_of : List Case → Option TokenUsage → Report
  pub report_version : Report → Option ℕ
  pub transcript : Option (String × List ℕ)
  -- What finishSandboxRun makes of a failure.
  pub diagnose : Fault → Fault

-- The message of an error, if any; the version of the report is none without details.
unfoldable pub validate_bench_version_result : ℕ → ℕ → Option ℕ → Option String
validate_bench_version_result requested artifact_version details =
    if not (requested == artifact_version)
    then some "bench_version contradiction: request and artifact"
    else elim details [
      | none ↦ some "bench_version contradiction: request and report"
      | some version ↦
          if version == requested
          then none
          else some "bench_version contradiction: request and report"
    ]

module _ {Case Report : Type 0} (world : EndWorld Case Report) (r : Request) where
  -- endEmbeddingPhase(), once-guarded: the deferred call finds no phase left.
  abbrev pub end_phase : Stage Case Report (Unit {0})
  end_phase w = (goes_on tt, record w { held = give_back embedding_phase w.held })

  -- What a scored run has used, if its relay delivered throughout and all usage was counted.
  unfoldable pub require_usage : TokenUsage → Option RelayError → Stage Case Report TokenUsage
  unfolding relay_fault
  require_usage u none = pure u
  require_usage u (some e) = stop (failed_with (relay_fault world.describe (known e)))

  unfoldable pub take_result : RunResult → Stage Case Report TokenUsage
  unfolding relay_exit require_usage
  take_result (relay_failed e) = stop (relay_exit world.cancelled_at_relay world.describe (known e))
  take_result (metered u x) = require_usage u (require_complete_v7_usage r.bench_version u x)

  unfoldable pub meter_between : Snapshot → Option Snapshot → Stage Case Report TokenUsage
  unfolding relay_exit take_result
  meter_between start none =
      stop (relay_exit world.cancelled_at_relay world.describe (other "relay health is unreadable"))
  meter_between start (some end) = take_result (relay_run_result start end)

  unfoldable pub meter : Snapshot → Stage Case Report TokenUsage
  unfolding meter_between
  meter start = meter_between start world.end_snapshot

  abbrev pub attach_transcript : Stage Case Report (Unit {0})
  attach_transcript = elim world.transcript [
    | none ↦ done_with
    | some (sha, body) ↦ write (set_transcript sha body)
  ]

  unfoldable pub refuse_version : Option String → Stage Case Report (Unit {0})
  refuse_version none = done_with
  refuse_version (some message) = fail_stage message none

  unfoldable pub write_report : ℕ → Report → Stage Case Report Report
  unfolding validate_bench_version_result refuse_version
  write_report artifact_version report =
      let version = world.report_version report in
      (do
        refuse_version (validate_bench_version_result r.bench_version artifact_version version)
        attach_transcript
        write (finish report)
        pure report)

  unfoldable pub finish_report : ℕ → ℕ → List Case → Option TokenUsage → Stage Case Report Report
  unfolding write_report
  finish_report artifact_version total scored used = do
    stage scoring (length scored) total
    panic_if world.report_panics
    write_report artifact_version (world.report_of scored used)

  unfoldable pub meter_run : Option Snapshot → Stage Case Report (Option TokenUsage)
  unfolding meter
  meter_run none = pure none
  meter_run (some start) = meter start >>= λ u. pure (some u)

  -- The stages after the last case.
  unfoldable pub finish_run : Option Snapshot → ℕ → ℕ → List Case → Stage Case Report Report
  unfolding meter_run finish_report
  finish_run start artifact_version total scored = do
    end_phase
    used ← meter_run start
    finish_report artifact_version total scored used

module _ {Case Report : Type 0} where
  -- The write of a failure, where the job returns with one.
  unfoldable pub conclude : Step Report → Work Case Report → Work Case Report
  conclude (goes_on report) w = w
  conclude (returns abandoned) w = w
  conclude (returns panicked) w = w
  conclude (returns (failed_with fault)) w = record w {
    writes = w.writes ++ fail_with fault.message fault.failure ∷ [];
  }

module _ (r : Request) where
  -- What the job holds when it begins, with the deferred calls of its first lines.
  abbrev pub first_resources : List Resource
  first_resources =
      if r.has_session then session ∷ cancel_entry ∷ run_slot ∷ [] else cancel_entry ∷ run_slot ∷ []

  abbrev pub first_deferred : List Deferred
  first_deferred =
      if r.has_session
      then recovers ∷ gives_back session ∷ gives_back cancel_entry ∷ gives_back run_slot ∷ []
      else recovers ∷ gives_back cancel_entry ∷ gives_back run_slot ∷ []

unfoldable pub first_work : {Case Report : Type 0} → Request → Work Case Report
first_work r = record {
  writes = [];
  held = first_resources r;
  handle = none;
  containers = [];
  deferred = first_deferred r;
}

module _ {Tool Memory Case Report : Type 0} (begin : World) (cases : CaseWorld Tool Memory Case)
    (suite : Suite Tool Memory) (end : EndWorld Case Report) (r : Request) where
  -- The stages of the job, up to its report.
  unfoldable pub run_stages : Stage Case Report Report
  unfolding start_run run_cases finish_run
  run_stages = do
    started ← start_run begin r
    scored ← run_cases cases r suite
    finish_run end r started.1 started.0.1.version suite.total scored

module _ {Case Report : Type 0} (diagnose : Fault → Fault) where
  -- finishSandboxRun: a failed run's failure is written once more, and the container stopped. The job of
  -- a cancelled run was failed for good, so that the write would change nothing; after a panic the job
  -- has not failed yet.
  unfoldable pub finish_container : Step Report → Work Case Report → Work Case Report
  finish_container result w =
      let stopped = record w { handle = none; containers = without w.handle w.containers } in
      elim result [
        | goes_on report ↦ stopped
        | returns e ↦ elim e [
          | abandoned ↦ stopped
          | panicked ↦ stopped
          | failed_with fault ↦ record stopped {
            writes = w.writes ++ fail_with (diagnose fault).message (diagnose fault).failure ∷ [];
          }
        ]
      ]

  -- The write of the deferred call that recovers.
  unfoldable pub recover_panic : Step Report → Work Case Report → Work Case Report
  recover_panic (goes_on report) w = w
  recover_panic (returns abandoned) w = w
  recover_panic (returns (failed_with fault)) w = w
  recover_panic (returns panicked) w = record w {
    writes = w.writes ++ fail_with "internal panic during run_size job" none ∷ [];
  }

  -- The deferred calls, the latest first.
  unfoldable pub run_deferred : Step Report → List Deferred → Work Case Report → Work Case Report
  unfolding finish_container recover_panic
  run_deferred result [] w = w
  run_deferred result (gives_back r ∷ ds) w =
      run_deferred result ds (record w { held = give_back r w.held })
  run_deferred result (recovers ∷ ds) w = run_deferred result ds (recover_panic result w)
  run_deferred result (finishes_sandbox ∷ ds) w = elim w.handle [
    | none ↦ run_deferred result ds w
    | some h ↦ run_deferred result ds (finish_container result w)
  ]

module _ {Tool Memory Case Report : Type 0} (begin : World) (cases : CaseWorld Tool Memory Case)
    (suite : Suite Tool Memory) (end : EndWorld Case Report) (r : Request) where
  -- The whole job: how its stages ended, and what it left behind.
  unfoldable pub run_size_job : Step Report × Work Case Report
  unfolding run_stages conclude first_work run_deferred
  run_size_job =
      let (result, w) = run_stages begin cases suite end r (first_work r) in
      let v = conclude result w in (result, run_deferred end.diagnose result v.deferred v)
