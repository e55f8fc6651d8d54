-- ===== src/Server/Start.antt =====
-- cmd/dittobench-api/main.go, submitRunSize and acquireRunSlot: how a checked submission becomes a run.
-- The broker is any state with its claim, which changes nothing where it fails, as claimRun does not
-- for the versions that are accepted (Broker.Tickets.claim-refused).
pub mod Admission
use dittobench_api.Base.{
  ℕ, ◌+◌, ◌-◌, String, Bool, true, false, not, Option, none, some, ltb, ◌&&◌, if◌then◌else◌, nat_eq,
  ◌==◌,
}
use dittobench_api.Store.Job.{Store, queued}
use dittobench_api.Store.Methods.{create, update, mutate, set_run_size, set_bench_version}
use dittobench_api.Server.Cancel.{Cancels, register_run_cancel}

-- The channel runSlots with its capacity, the store, the contexts of the runs and the broker.
pub record Server (Case Report Diag Broker : Type 0) : Type 0 where
  pub capacity : ℕ
  pub run_slots : ℕ
  pub store : Store Case Report Diag
  pub cancels : Cancels
  pub broker : Broker

pub record Submission (Broker : Type 0) : Type 0 where
  pub has_build_source : Bool
  pub has_harness_url : Bool
  pub run_size : String
  pub bench_version : ℕ
  pub pinned_seed : ℕ
  pub has_session : Bool
  -- gen.ProfileForVersion: the number of cases.
  pub profile : Option ℕ
  pub has_sandbox : Bool
  pub sandbox_available : Bool
  -- gen.FreshSeed and uuid.NewString.
  pub fresh_seed : ℕ
  pub run_id : String
  pub claim : Broker → Option Broker

pub data Answer : Type 0 where
  refused : ℕ → Answer
  accepted : String → Answer

-- The slot is taken, unless all are.
unfoldable pub acquire_run_slot :
    {Case Report Diag Broker : Type 0}
    → Server Case Report Diag Broker
    → Option (Server Case Report Diag Broker)
acquire_run_slot s =
    if ltb s.run_slots s.capacity then some (record s { run_slots = s.run_slots + 1 }) else none

unfoldable pub pinned_or_fresh_seed : ℕ → ℕ → ℕ
pinned_or_fresh_seed pinned fresh = if pinned == 0 then fresh else pinned

module _ {Case Report Diag Broker : Type 0} (now : ℕ) (q : Submission Broker) where
  -- The run is created and started; its job goes on by itself.
  unfoldable pub start_job : ℕ → Server Case Report Diag Broker → Server Case Report Diag Broker
  unfolding pinned_or_fresh_seed
  start_job cases s =
      let seed = pinned_or_fresh_seed q.pinned_seed q.fresh_seed in
      let created = (create q.run_id "run_size" queued seed cases now s.store).0 in
      let sized = update q.run_id (mutate (set_run_size q.run_size)) now created in
      record s {
        store = update q.run_id (mutate (set_bench_version q.bench_version)) now sized;
        cancels = register_run_cancel q.run_id s.cancels;
      }

  -- claimRun, with the slot given back if it fails.
  unfoldable pub claim_and_start :
      ℕ → Server Case Report Diag Broker → Server Case Report Diag Broker × Answer
  unfolding start_job
  claim_and_start cases s =
      if q.has_session
      then elim (q.claim s.broker) [
        | none ↦ (record s { run_slots = s.run_slots - 1 }, refused 409)
        | some b ↦ (start_job cases (record s { broker = b }), accepted q.run_id)
      ]
      else (start_job cases s, accepted q.run_id)

  unfoldable pub submit_run_size :
      Server Case Report Diag Broker → Server Case Report Diag Broker × Answer
  unfolding acquire_run_slot claim_and_start
  submit_run_size s =
      if not q.has_build_source && not q.has_harness_url then (s, refused 400) else elim q.profile [
        | none ↦ (s, refused 400)
        | some cases ↦
            if q.has_build_source && not q.has_sandbox
            then (s, refused 501)
            else if q.has_build_source && not q.sandbox_available
            then (s, refused 503)
            else elim (acquire_run_slot s) [
              | none ↦ (s, refused 429)
              | some t ↦ claim_and_start cases t
            ]
      ]
