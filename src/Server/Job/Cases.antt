-- ===== src/Server/Job/Cases.antt =====
-- cmd/dittobench-api/main.go, runSizeJob and startToolServer: the tool endpoint, the seeding of the
-- harness, and the cases. How one case is run and scored is an argument.
use dittobench_api.Base.{
  ℕ, zero, suc, ◌+◌, ◌-◌, String, Bool, not, Option, none, some, List, [], ◌∷◌, ◌++◌, map, ◌==◌,
  ltb, leb, ◌&&◌, string_eq, if◌then◌else◌, length,
}
use dittobench_api.Store.Job.{seeding, running}
use dittobench_api.Store.Methods.{append_partial}
use dittobench_api.Server.Evidence.{tool_prerequisite_wave}
use dittobench_api.Server.Job.{
  Fault, failed_with, abandoned, panicked, embedding_phase, tool_endpoint, goes_on, Stage, ◌>>=◌,
  ◌>>◌, pure, done_with, stop, fail_stage, fail_if, write, stage, take, when,
}
use dittobench_api.Server.Job.Starting.{Request, Outcome, got, lost, crashed, is_scored}
use dittobench_api.Server.Job.Launching.{source_of}

-- gen.StagedCase: RunAfterWave is below zero, or a number.
pub record Staged (Memory : Type 0) : Type 0 where
  pub memory_case : Memory
  pub user : String
  pub before_first : Bool
  pub run_after_wave : ℕ

-- A wave: its user and the number of its pairs.
pub record Wave : Type 0 where
  pub user : String
  pub pairs : ℕ

pub record Suite (Tool Memory : Type 0) : Type 0 where
  pub tool_cases : List Tool
  pub tool_pairs : List (List String)
  pub memory_cases : List (Staged Memory)
  pub waves : List Wave
  pub seeding_waves : ℕ
  pub secondary_pairs : ℕ
  -- prof.Tools and the number of memory cases.
  pub total : ℕ

-- The world of a job from its first case on. A seeding leaves the failure that is written, if it fails.
-- The cases of a batch are appended to the store in the order in which they end; batch 0 has the tool
-- cases, and batch w + 1 those of wave w.
pub record CaseWorld (Tool Memory Case : Type 0) : Type 0 where
  pub allow_private : Bool
  -- toolexec, and the listener of the endpoint.
  pub endpoint_panics : Bool
  pub register_tool : Option String
  pub listen : Bool
  pub self_check : Bool
  pub local_endpoint : String
  pub endpoint_fault : Fault
  pub seed_prerequisites : Option Fault
  pub seed_secondary : Option Fault
  pub seed_wave : ℕ → Option Fault
  pub run_tool : Tool → Case
  pub run_memory : String → Memory → Case
  pub appended : ℕ → List Case → List Case
  pub cancelled_in : ℕ → Bool
  pub begin_phase : Bool
  pub cancelled_at_admission : Bool

-- The list of a wave, one longer; none where the index is out of range, on which Go panics.
unfoldable pub push_at {ℓ} : {A : Type ℓ} → ℕ → A → List (List A) → Option (List (List A))
push_at i x [] = none
push_at zero x (xs ∷ table) = some ((xs ++ x ∷ []) ∷ table)
push_at (suc i) x (xs ∷ table) = elim (push_at i x table) [
  | none ↦ none
  | some rest ↦ some (xs ∷ rest)
]

-- The wave after which a case runs.
unfoldable pub wave_of : {Memory : Type 0} → ℕ → Staged Memory → ℕ
wave_of seeding_waves c =
    if c.before_first
    then 0
    else if leb seeding_waves c.run_after_wave
    then seeding_waves - 1
    else c.run_after_wave

abbrev pub empty_table {ℓ} : {A : Type ℓ} → ℕ → List (List A)
empty_table zero = []
empty_table (suc n) = [] ∷ empty_table n

unfoldable pub assign_cases :
    {Memory : Type 0}
    → ℕ
    → List (Staged Memory)
    → List (List (Staged Memory))
    → Option (List (List (Staged Memory)))
unfolding push_at wave_of
assign_cases seeding_waves [] table = some table
assign_cases seeding_waves (c ∷ cs) table = elim (push_at (wave_of seeding_waves c) c table) [
  | none ↦ none
  | some next ↦ assign_cases seeding_waves cs next
]

unfoldable pub cases_by_wave :
    {Memory : Type 0} → ℕ → List (Staged Memory) → Option (List (List (Staged Memory)))
unfolding assign_cases
cases_by_wave seeding_waves cs = assign_cases seeding_waves cs (empty_table seeding_waves)

abbrev pub panics : {Case Report A : Type 0} → Stage Case Report A
panics = stop panicked

module _ {Tool Memory Case : Type 0} (world : CaseWorld Tool Memory Case) where
  -- startToolServer, for the address of the container, if any; the endpoint is empty if a harness that
  -- runs elsewhere cannot reach it.
  unfoldable pub start_tool_server : String → Outcome String
  start_tool_server source_ip =
      if world.endpoint_panics
      then crashed
      else if not (source_ip == "")
      then elim world.register_tool [
        | none ↦ lost world.endpoint_fault
        | some endpoint ↦ if world.self_check then got endpoint else lost world.endpoint_fault
      ]
      else if not world.listen
      then lost world.endpoint_fault
      else if world.self_check
      then got (if world.allow_private then world.local_endpoint else "")
      else lost world.endpoint_fault

  unfoldable pub run_staged : Wave → Staged Memory → Case
  run_staged wave c = world.run_memory (if c.user == "" then wave.user else c.user) c.memory_case

module _ {Tool Memory Case Report : Type 0} (world : CaseWorld Tool Memory Case) (r : Request)
    (suite : Suite Tool Memory) where
  abbrev pub source_ip_of : Stage Case Report String
  source_ip_of w = (goes_on (source_of w.handle), w)

  -- The endpoint, which a scored run must be able to advertise.
  unfoldable pub open_endpoint : Stage Case Report String
  unfolding start_tool_server is_scored
  open_endpoint = do
    ip ← source_ip_of
    elim (start_tool_server world ip) [
      | lost fault ↦ stop (failed_with fault)
      | crashed ↦ stop panicked
      | got endpoint ↦ do
        take tool_endpoint
        fail_if (endpoint == "" && is_scored r)
            "scored run cannot observe tool execution: tool_endpoint unreachable from the harness"
        pure endpoint
    ]

  abbrev pub seed : Option Fault → Stage Case Report (Unit {0})
  seed none = done_with
  seed (some fault) = stop (failed_with fault)

  -- The pairs that tool cases need, before any case.
  unfoldable pub seed_tool_pairs : Stage Case Report (Unit {0})
  seed_tool_pairs =
      if leb 8 r.bench_version
      then elim (tool_prerequisite_wave (map (map (λ id. (id, tt))) suite.tool_pairs)) [
        | none ↦ fail_stage "invalid v8 tool prerequisite dataset" none
        | some pairs ↦
            when (ltb 0 (length pairs))
              (stage seeding 0 suite.total >> seed world.seed_prerequisites)
      ]
      else done_with

  abbrev pub append_all : List Case → Stage Case Report (Unit {0})
  append_all [] = done_with
  append_all (c ∷ cs) = write (append_partial c) >> append_all cs

  -- runBounded over a batch: the results stand in the order of the cases. After a cancellation some
  -- cases were not run, and the job returns.
  unfoldable pub run_batch : ℕ → List Case → Stage Case Report (List Case)
  run_batch batch results = do
    append_all (world.appended batch results)
    if world.cancelled_in batch then stop abandoned else pure results

  unfoldable pub run_tool_cases : Stage Case Report (List Case)
  unfolding run_batch
  run_tool_cases = do stage running 0 suite.total; run_batch 0 (map world.run_tool suite.tool_cases)

  -- Before version 7 the embedding phase begins after the tool cases.
  unfoldable pub admit_memory_phase : Stage Case Report (Unit {0})
  admit_memory_phase =
      if ltb r.bench_version 7
      then if world.begin_phase
        then take embedding_phase
        else if world.cancelled_at_admission
        then stop abandoned
        else fail_stage "embedding phase admission failed" none
      else done_with

  unfoldable pub seed_isolation : ℕ → Stage Case Report (Unit {0})
  seed_isolation finished =
      when (ltb 0 suite.secondary_pairs)
        (stage seeding finished suite.total >> seed world.seed_secondary)

  -- A wave is seeded, and the run goes on.
  unfoldable pub enter_wave : ℕ → Wave → List Case → Stage Case Report (Unit {0})
  enter_wave w wave scored = do
    when (ltb 0 wave.pairs) (stage seeding (length scored) suite.total >> seed (world.seed_wave w))
    stage running (length scored) suite.total

  -- The waves from number w on, with the cases still assigned and those scored so far.
  unfoldable pub run_waves :
      ℕ → List Wave → List (List (Staged Memory)) → List Case → Stage Case Report (List Case)
  unfolding enter_wave run_batch run_staged
  run_waves w [] table scored = pure scored
  run_waves w (wave ∷ waves) table scored = do
    enter_wave w wave scored
    elim table [
      | [] ↦ panics
      | cases ∷ rest ↦ do
        results ← run_batch (w + 1) (map (run_staged world wave) cases)
        run_waves (w + 1) waves rest (scored ++ results)
    ]

  -- The memory cases after the tool cases, once they are assigned to their waves.
  unfoldable pub run_assigned :
      List Case → Option (List (List (Staged Memory))) → Stage Case Report (List Case)
  unfolding seed_isolation run_waves
  run_assigned tools none = panics
  run_assigned tools (some table) =
      seed_isolation (length tools) >> run_waves 0 suite.waves table tools

  unfoldable pub run_memory_cases : List Case → Stage Case Report (List Case)
  unfolding cases_by_wave run_assigned
  run_memory_cases tools = run_assigned tools (cases_by_wave suite.seeding_waves suite.memory_cases)

  -- All stages with cases: the scored cases of the report.
  unfoldable pub run_cases : Stage Case Report (List Case)
  unfolding open_endpoint seed_tool_pairs run_tool_cases admit_memory_phase run_memory_cases
  run_cases = do
    endpoint ← open_endpoint
    seed_tool_pairs
    tools ← run_tool_cases
    admit_memory_phase
    run_memory_cases tools
