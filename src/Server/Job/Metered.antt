-- ===== src/Server/Job/Metered.antt =====
-- cmd/dittobench-api/main.go, runSizeJob: the usage of a scored run.
use dittobench_api.Base.{Option, none, some, ◌≡◌, refl, sym, subst}
use dittobench_api.Relay.{Snapshot, RelayError, TokenUsage, Execution}
use dittobench_api.Relay.Finalize.{
  RunResult, metered, relay_failed, relay_run_result, require_complete_v7_usage,
}
use dittobench_api.Server.Job.{Work, pure}
use dittobench_api.Server.Job.Starting.{Request}
use dittobench_api.Server.Job.Scoring.{
  EndWorld, require_usage, take_result, meter_between, meter, meter_run,
}
use dittobench_api.Server.Job.Sequence.{Holds, Holds->>=, Holds-imp}

-- The relay delivered from the start to the end of the run, and all usage was counted.
pub record IsMetered {Case Report : Type 0} (world : EndWorld Case Report) (r : Request)
    (start : Snapshot) (u : TokenUsage) : Type 0 where
  pub end : Snapshot
  pub execution : Execution
  pub end_eq : world.end_snapshot ≡ some end
  pub result_eq : relay_run_result start end ≡ metered u execution
  pub complete : require_complete_v7_usage r.bench_version u execution ≡ none

module _ {Case Report : Type 0} (world : EndWorld Case Report) (r : Request) where
  require_usage-eq :
      (u : TokenUsage) (o : Option RelayError) (w : Work Case Report)
      → Holds (λ v. (v ≡ u) × (o ≡ none)) (require_usage world r u o w).0
  unfolding require_usage
  require_usage-eq u none w = (refl, refl)
  require_usage-eq u (some e) w = tt

  abbrev IsTaken : RunResult → TokenUsage → Type 0
  IsTaken result u =
      (x : Execution) × (result ≡ metered u x)
      × (require_complete_v7_usage r.bench_version u x ≡ none)

  take_result-IsTaken :
      (result : RunResult) (w : Work Case Report)
      → Holds (IsTaken result) (take_result world r result w).0
  unfolding take_result
  take_result-IsTaken (relay_failed e) w = tt
  take_result-IsTaken (metered u x) w =
      let verdict = require_complete_v7_usage r.bench_version u x in
      Holds-imp (λ v. (v ≡ u) × (verdict ≡ none)) (IsTaken (metered u x))
        (require_usage world r u verdict w).0 (require_usage-eq u verdict w)
        λ v (same, complete). subst (IsTaken (metered u x)) (sym same) (x, refl, complete)

  meter_between-IsTaken :
      (start : Snapshot) (o : Option Snapshot) (w : Work Case Report)
      → Holds
          (λ u. (end : Snapshot) × (o ≡ some end) × IsTaken (relay_run_result start end) u)
          (meter_between world r start o w).0
  unfolding meter_between
  meter_between-IsTaken start none w = tt
  meter_between-IsTaken start (some end) w =
      let Result = λ (u : TokenUsage).
        (e : Snapshot) × (some end ≡ some e) × IsTaken (relay_run_result start e) u in
      Holds-imp (IsTaken (relay_run_result start end)) Result
        (take_result world r (relay_run_result start end) w).0
        (take_result-IsTaken (relay_run_result start end) w) (λ u taken. (end, refl, taken))

  meter-IsMetered :
      (start : Snapshot) (w : Work Case Report)
      → Holds (IsMetered world r start) (meter world r start w).0
  unfolding meter
  meter-IsMetered start w =
      Holds-imp _ (IsMetered world r start) (meter_between world r start world.end_snapshot w).0
        (meter_between-IsTaken start world.end_snapshot w)
        λ u (end, end_eq, (x, result_eq, complete)). record {
          end = end;
          execution = x;
          end_eq = end_eq;
          result_eq = result_eq;
          complete = complete;
        }

  -- The usage that the report of a run gets: none for one that started without a snapshot.
  pub data IsUsed : Option Snapshot → Option TokenUsage → Type 0 where
    unmetered : IsUsed none none
    counted :
        {start : Snapshot} {u : TokenUsage}
        → IsMetered world r start u
        → IsUsed (some start) (some u)

  pub meter_run-IsUsed :
      (o : Option Snapshot) (w : Work Case Report) → Holds (IsUsed o) (meter_run world r o w).0
  unfolding meter_run
  meter_run-IsUsed none w = unmetered
  meter_run-IsUsed (some start) w =
      Holds->>= (IsMetered world r start) (IsUsed (some start)) (λ u. pure (some u))
        (meter world r start) w (meter-IsMetered start w) (λ u v m. counted m)
