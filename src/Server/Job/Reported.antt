-- ===== src/Server/Job/Reported.antt =====
-- cmd/dittobench-api/main.go, runSizeJob: a run that ends with a report passed every check.
use dittobench_api.Base.{ℕ, Bool, Option, List, ◌≡◌, refl, subst, length}
use dittobench_api.Relay.{Snapshot, TokenUsage}
use dittobench_api.Store.Methods.{finish}
use dittobench_api.Store.Job.{scoring, generating}
use dittobench_api.Server.Job.{Work, Step, goes_on, ◌>>=◌, ◌>>◌, pure, stage, write, panic_if}
use dittobench_api.Server.Job.Starting.{
  Request, World, Artifact, Dataset, is_scored, build_image, take_generated, generate,
}
use dittobench_api.Server.Job.Launching.{launch, meter_start, start_run}
use dittobench_api.Server.Job.Cases.{CaseWorld, Suite, run_cases}
use dittobench_api.Server.Job.Scoring.{
  EndWorld, meter_run, finish_report, write_report, finish_run, refuse_version, run_stages,
  run_size_job, first_work, end_phase, validate_bench_version_result, attach_transcript,
}
use dittobench_api.Server.Job.Outcome.{IsCovered, run_cases-IsCovered}
use dittobench_api.Server.Job.Begun.{
  IsMade, IsBegun, build_image-eq, take_generated-IsMade, snapshot_if-IsBegun,
}
use dittobench_api.Server.Job.Sequence.{Holds, Holds->>=, Holds->>, Holds-imp}
use dittobench_api.Server.Job.Metered.{IsUsed, meter_run-IsUsed}

-- The generated dataset, and the snapshot with which the run begins.
abbrev pub IsStarted : World → Request → (Dataset × Artifact) × Option Snapshot → Type 0
IsStarted world r (d, o) =
    IsMade world r world.generation d × IsBegun world r (is_scored r) r.has_source o

module _ {Case Report : Type 0} (world : World) (r : Request) where
  launched-IsStarted :
      (built : Bool) (d : Dataset × Artifact) (w : Work Case Report)
      → built ≡ r.has_source
      → IsMade world r world.generation d
      → Holds
          (IsStarted world r)
          ((launch world r built >> (meter_start world r built >>= λ start. pure (d, start))) w).0
  unfolding meter_start
  launched-IsStarted built d w same made =
      let Begun = λ (b : Bool). IsBegun world r (is_scored r) b in
      let Started = IsStarted world r in
      Holds->> Started (meter_start world r built >>= λ start. pure (d, start))
        (launch world r built) w
        λ x.
          Holds->>= (Begun built) Started (λ start. pure (d, start)) (meter_start world r built) x
            (snapshot_if-IsBegun world r (is_scored r) built x)
            (λ start y begun. (made, subst (λ b. Begun b start) same begun))

  start_run-IsStarted : (w : Work Case Report) → Holds (IsStarted world r) (start_run world r w).0
  unfolding start_run generate
  start_run-IsStarted w =
      let Started = IsStarted world r in
      let Made = IsMade world r world.generation in
      let finish_start = λ (built : Bool) (d : Dataset × Artifact).
        launch world r built >> (meter_start world r built >>= λ start. pure (d, start)) in
      Holds->>= (λ built. built ≡ r.has_source) Started
        (λ built. generate world r >>= finish_start built) (build_image world r) w
        (build_image-eq world r w)
        λ built v same.
          Holds->>= Made Started (finish_start built) (generate world r) v
            (Holds->> Made (take_generated world r world.generation)
              (stage generating 0 world.initial_total) v
              (take_generated-IsMade world r world.generation))
            (λ d u made. launched-IsStarted built d u same made)

module _ {Case Report : Type 0} (world : EndWorld Case Report) (r : Request) where
  finish_report-eq :
      (version total : ℕ) (scored : List Case) (used : Option TokenUsage) (w : Work Case Report)
      → Holds
          (λ report. report ≡ world.report_of scored used)
          (finish_report world r version total scored used w).0
  unfolding finish_report write_report
  finish_report-eq version total scored used w =
      let report = world.report_of scored used in
      let verdict =
        validate_bench_version_result r.bench_version version (world.report_version report) in
      let Same = λ (made : Report). made ≡ report in
      let last = write (finish report) >> pure report in
      let checked = refuse_version world r verdict >> (attach_transcript world r >> last) in
      Holds->> Same (panic_if world.report_panics >> checked) (stage scoring (length scored) total)
        w
        λ x. Holds->> Same checked (panic_if world.report_panics) x λ u.
          Holds->> Same (attach_transcript world r >> last) (refuse_version world r verdict) u
            (λ v. Holds->> Same last (attach_transcript world r) v (λ x. refl))

module _ {Tool Memory Case Report : Type 0} (begin : World) (cases : CaseWorld Tool Memory Case)
    (suite : Suite Tool Memory) (end : EndWorld Case Report) (r : Request) where
  -- What stands behind a report.
  pub record IsJustified (report : Report) : Type 0 where
    pub dataset : Dataset
    pub artifact : Artifact
    pub start : Option Snapshot
    pub scored : List Case
    pub used : Option TokenUsage
    pub made : IsMade begin r begin.generation (dataset, artifact)
    pub begun : IsBegun begin r (is_scored r) r.has_source start
    pub covered : IsCovered cases suite scored
    pub metered_use : IsUsed end r start used
    pub report_eq : report ≡ end.report_of scored used

  finish_run-IsJustified :
      (d : Dataset) (a : Artifact) (start : Option Snapshot) (scored : List Case)
      (w : Work Case Report)
      → IsStarted begin r ((d, a), start)
      → IsCovered cases suite scored
      → Holds IsJustified (finish_run end r start a.version suite.total scored w).0
  unfolding finish_run
  finish_run-IsJustified d a start scored w started covered =
      let close =
        λ (used : Option TokenUsage). finish_report end r a.version suite.total scored used in
      Holds->> IsJustified (meter_run end r start >>= close) (end_phase end r) w λ u.
        Holds->>= (IsUsed end r start) IsJustified close (meter_run end r start) u
          (meter_run-IsUsed end r start u)
          λ used v metered_use.
            Holds-imp (λ report. report ≡ end.report_of scored used) IsJustified (close used v).0
              (finish_report-eq end r a.version suite.total scored used v)
              λ report same. record {
                dataset = d;
                artifact = a;
                start = start;
                scored = scored;
                used = used;
                made = started.0;
                begun = started.1;
                covered = covered;
                metered_use = metered_use;
                report_eq = same;
              }

  run_stages-IsJustified :
      (w : Work Case Report) → Holds IsJustified (run_stages begin cases suite end r w).0
  unfolding run_stages
  run_stages-IsJustified w =
      let close = λ (started : (Dataset × Artifact) × Option Snapshot) (scored : List Case).
        finish_run end r started.1 started.0.1.version suite.total scored in
      Holds->>= (IsStarted begin r) IsJustified
        (λ started. run_cases cases r suite >>= close started) (start_run begin r) w
        (start_run-IsStarted begin r w)
        λ started u is_started.
          Holds->>= (IsCovered cases suite) IsJustified (close started) (run_cases cases r suite) u
            (run_cases-IsCovered cases r suite u)
            (λ scored v covered.
              finish_run-IsJustified started.0.0 started.0.1 started.1 scored v is_started covered)

  holds_of :
      {report : Report} (s : Step Report)
      → s ≡ goes_on report
      → Holds IsJustified s
      → IsJustified report
  holds_of s e h = subst (Holds IsJustified) e h

  pub report-IsJustified :
      (report : Report)
      → (run_size_job begin cases suite end r).0 ≡ goes_on report
      → IsJustified report
  unfolding run_size_job
  report-IsJustified report h =
      holds_of (run_stages begin cases suite end r (first_work r)).0 h
        (run_stages-IsJustified (first_work r))
