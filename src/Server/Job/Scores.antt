-- ===== src/Server/Job/Scores.antt =====
-- cmd/dittobench-api/main.go, runSizeJob: the scores in the report of a run.
use dittobench_api.Base.{◌<◌, Option, List, ◌++◌, map, ◌≡◌, sym, ap, ◌∙◌, length}
use mathlib.Core.Option.{some-injective}
use mathlib.Core.List.{Perm}
use dittobench_api.Relay.{TokenUsage}
use dittobench_api.Server.Job.{goes_on}
use dittobench_api.Server.Job.Starting.{Request, World}
use dittobench_api.Server.Job.Cases.{CaseWorld, Suite, Wave, wave_of, run_staged}
use dittobench_api.Server.Job.Scoring.{EndWorld, run_size_job}
use dittobench_api.Server.Job.Waves.{run_all, wave_at, cases_found}
use dittobench_api.Server.Job.Reported.{IsJustified, report-IsJustified}

module _ {Tool Memory Case Report : Type 0} (begin : World) (cases : CaseWorld Tool Memory Case)
    (suite : Suite Tool Memory) (end : EndWorld Case Report) (r : Request) where
  -- Every case has exactly one score in the report of a run, as long as there are as many waves as the
  -- dataset says, at least one: first the tool cases in their order, and then, in some order, each memory
  -- case, run for its own user or else for the user of the wave that it is assigned to. A case that
  -- names no wave is assigned to the first or the last one.
  pub every_case_scored :
      (first : Wave) (report : Report)
      → 0 < suite.seeding_waves
      → length suite.waves ≡ suite.seeding_waves
      → (run_size_job begin cases suite end r).0 ≡ goes_on report
      → (scores : List Case) × (used : Option TokenUsage) × (report
          ≡ end.report_of (map cases.run_tool suite.tool_cases ++ scores) used)
        × Perm scores (
            map
              (λ c. run_staged cases (wave_at first suite.waves (wave_of suite.seeding_waves c)) c)
              suite.memory_cases)
  every_case_scored first report some_wave count h =
      let j : IsJustified begin cases suite end r report =
        report-IsJustified begin cases suite end r report h in
      let (table, found, covers) = j.covered in
      let (same, assigned, perm) =
        cases_found (run_staged cases) first suite.waves suite.seeding_waves some_wave count
          suite.memory_cases in
      let e : same ≡ table = some-injective same table (sym assigned ∙ found) in
      let scores = run_all (run_staged cases) suite.waves same in
      let listed : j.scored ≡ map cases.run_tool suite.tool_cases ++ scores =
        covers
        ∙ ap (λ t. map cases.run_tool suite.tool_cases ++ run_all (run_staged cases) suite.waves t)
            (sym e) in
      (scores, j.used, j.report_eq ∙ ap (λ l. end.report_of l j.used) listed, perm)
