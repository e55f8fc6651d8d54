-- ===== src/Server/Job/Launching.antt =====
-- cmd/dittobench-api/main.go, runSizeJob, and cmd/dittobench-api/relay_preflight.go, relayRunStart: the
-- stages from the start of the container to the probe of the model's route.
use dittobench_api.Base.{
  String, Bool, true, false, not, Option, none, some, ◌∷◌, ◌==◌, ltb, leb, ◌&&◌, string_eq, nat_eq,
  if◌then◌else◌,
}
use Prim.Native.String.{◌++◌ as ◌<>◌}
use dittobench_api.Relay.{Snapshot, model_use_missing, relay_degraded_since}
use dittobench_api.Relay.Finalize.{relay_finalize_failure}
use dittobench_api.Server.Job.{
  failed_with, abandoned, panicked, relay_lock, embedding_phase, finishes_sandbox, Handle, without,
  goes_on, Stage, ◌>>=◌, ◌>>◌, pure, done_with, stop, fail_stage, fail_if, take, when,
}
use dittobench_api.Server.Job.Starting.{
  Request, World, Outcome, Artifact, Dataset, got, lost, crashed, known, other, is_scored,
  relay_exit, require_token_accounting, build_image, generate,
}

abbrev pub source_of : Option Handle → String
source_of none = ""
source_of (some h) = h.source_ip

module _ {Case Report : Type 0} (world : World) (r : Request) where
  -- A container is started, known to the job, and stopped by the deferred call.
  abbrev pub keep_container : Handle → Stage Case Report (Unit {0})
  keep_container h w = (
    goes_on tt,
    record w {
      handle = some h;
      containers = h ∷ w.containers;
      deferred = finishes_sandbox ∷ w.deferred;
    },
  )

  -- The container, or the harness that runs elsewhere, bound to the session.
  unfoldable pub start_harness : Bool → Stage Case Report (Unit {0})
  start_harness built =
      if built
      then elim world.run_container [
        | lost fault ↦ stop (failed_with fault)
        | crashed ↦ stop panicked
        | got h ↦
            keep_container h
            >> fail_if (r.has_session && not (world.bind_source h.source_ip))
                "inference session is unavailable"
      ]
      else if r.has_session
      then elim world.loopback_source [
        | none ↦ fail_stage "local ticket inference requires a loopback harness" none
        | some ip ↦
            fail_if (not (world.bind_source ip))
              "local ticket inference requires a loopback harness"
      ]
      else done_with

  unfoldable pub wait_harness : Stage Case Report (Unit {0})
  wait_harness = elim world.healthy [
    | none ↦ done_with
    | some problem ↦ fail_stage ("harness never became healthy: " <> problem) none
  ]

  -- beginMemoryPhase, with the deferred end of the phase.
  unfoldable pub admit_embedding_phase : Stage Case Report (Unit {0})
  admit_embedding_phase =
      if world.begin_phase
      then take embedding_phase
      else if world.cancelled_at_admission
      then stop abandoned
      else fail_stage "embedding phase admission failed" none

  -- relayRunStart
  unfoldable pub relay_run_start : Stage Case Report Snapshot
  unfolding relay_exit require_token_accounting
  relay_run_start = elim world.relay_probe [
    | some e ↦ stop (relay_exit world.cancelled_at_relay world.describe e)
    | none ↦ elim world.relay_snapshot [
      | none ↦
          stop (
            relay_exit world.cancelled_at_relay world.describe (other "relay health is unreadable"))
      | some s ↦
          if leb 5 r.bench_version
          then elim (require_token_accounting s r.bench_version) [
            | none ↦ pure s
            | some message ↦
                stop (relay_exit world.cancelled_at_relay world.describe (other message))
          ]
          else pure s
    ]
  ]

  -- probeHarnessModelRoute: the snapshot after it, and whether the harness reached the broker.
  unfoldable pub probe_model_route :
      Snapshot → Option Snapshot → Stage Case Report (Snapshot × Bool)
  unfolding relay_exit
  probe_model_route start after = elim after [
    | none ↦ stop (
        relay_exit world.cancelled_at_relay world.describe
          (other "model-route broker snapshot unavailable"))
    | some end ↦ elim (relay_degraded_since start.ledger end.ledger) [
      | some e ↦ stop (relay_exit world.cancelled_at_relay world.describe (known e))
      | none ↦ pure (end, ltb start.ledger.requests end.ledger.requests)
    ]
  ]

  -- stopSandboxForRestart, and handle = nil.
  abbrev pub stop_for_restart : Stage Case Report (Option Handle)
  stop_for_restart w =
      (goes_on w.handle, record w { handle = none; containers = without w.handle w.containers })

  abbrev pub keep_replacement : Handle → Stage Case Report (Unit {0})
  keep_replacement h w = (goes_on tt, record w { handle = some h; containers = h ∷ w.containers })

  -- The session moves to the new container, whose harness must reach the broker.
  unfoldable pub confirm_route : Snapshot × Bool → Stage Case Report Snapshot
  confirm_route (probed, routed) =
      if routed
      then pure probed
      else fail_stage "benchmark v8 requires the harness response path to use the locked model"
          (some (relay_finalize_failure model_use_missing))

  unfoldable pub confirm_healthy : Snapshot → Option String → Stage Case Report Snapshot
  unfolding probe_model_route confirm_route
  confirm_healthy start none = probe_model_route start world.after_second_probe >>= confirm_route
  confirm_healthy start (some problem) =
      fail_stage ("compatibility harness never became healthy: " <> problem) none

  unfoldable pub move_session : Snapshot → Option Handle → Handle → Stage Case Report Snapshot
  unfolding confirm_healthy
  move_session start old h = do
    fail_if (not (world.replace_source (source_of old) h.source_ip))
        "inference session could not move to compatibility sandbox"
    confirm_healthy start world.replacement_healthy

  unfoldable pub restart_with :
      Snapshot → Option Handle → Outcome Handle → Stage Case Report Snapshot
  unfolding move_session
  restart_with start old (lost fault) = stop (failed_with fault)
  restart_with start old crashed = stop panicked
  restart_with start old (got h) = keep_replacement h >> move_session start old h

  -- The same image with the compatibility adapter.
  unfoldable pub restart_harness : Snapshot → Stage Case Report Snapshot
  unfolding restart_with
  restart_harness start = do old ← stop_for_restart; restart_with start old world.run_replacement

  unfoldable pub keep_or_restart : Snapshot → Snapshot × Bool → Stage Case Report Snapshot
  unfolding restart_harness
  keep_or_restart start (probed, true) = pure probed
  keep_or_restart start (probed, false) = restart_harness start

  -- The snapshot from which the run is metered, once the harness was seen to use the locked model.
  unfoldable pub check_model_route : Bool → Snapshot → Stage Case Report Snapshot
  unfolding probe_model_route keep_or_restart is_scored
  check_model_route built start =
      if built && is_scored r && r.bench_version == 8
      then probe_model_route start world.after_probe >>= keep_or_restart start
      else pure start

  -- The snapshot from which a scored run is metered.
  unfoldable pub snapshot_if : Bool → Bool → Stage Case Report (Option Snapshot)
  unfolding relay_run_start check_model_route
  snapshot_if false built = pure none
  snapshot_if true built = do
    start ← relay_run_start
    metered ← check_model_route built start
    pure (some metered)

  unfoldable pub meter_start : Bool → Stage Case Report (Option Snapshot)
  unfolding snapshot_if is_scored
  meter_start built = snapshot_if (is_scored r) built

  -- The harness is started, and its embedding phase opened.
  unfoldable pub launch : Bool → Stage Case Report (Unit {0})
  unfolding start_harness wait_harness admit_embedding_phase is_scored
  launch built = do
    when (is_scored r && not r.has_session) (take relay_lock)
    start_harness built
    wait_harness
    when (leb 7 r.bench_version) admit_embedding_phase

  -- The stages up to the first case.
  unfoldable pub start_run : Stage Case Report ((Dataset × Artifact) × Option Snapshot)
  unfolding build_image generate launch meter_start
  start_run = do
    built ← build_image world r
    d ← generate world r
    launch built
    start ← meter_start built
    pure (d, start)
