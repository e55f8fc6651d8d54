-- ===== src/Server/Cancel.antt =====
-- cmd/dittobench-api/main.go: the contexts of running jobs and how they are cancelled. A context is
-- known by the run it belongs to.
pub mod Verdicts
use dittobench_api.Base.{
  ℕ, String, Bool, true, false, Option, none, some, List, [], ◌∷◌, ◌==◌, ◌||◌, string_eq, any, keep,
  not, if◌then◌else◌,
}
use dittobench_api.Store.Job.{Failure, Job, Store, is_terminal}
use dittobench_api.Store.Methods.{get, fail_if_active, cancel_if_active}

-- The runs with an entry in runCancels, and the contexts that were cancelled.
pub record Cancels : Type 0 where
  pub registered : List String
  pub cancelled : List String

unfoldable pub register_run_cancel : String → Cancels → Cancels
register_run_cancel run_id k =
    if any (λ r. r == run_id) k.registered
    then k
    else record k { registered = run_id ∷ k.registered }

unfoldable pub unregister_run_cancel : String → Cancels → Cancels
unregister_run_cancel run_id k = record k {
  registered = keep (λ r. not (r == run_id)) k.registered;
}

abbrev pub is_registered : String → Cancels → Bool
is_registered run_id k = any (λ r. r == run_id) k.registered

abbrev pub cancel_context : String → Cancels → Cancels
cancel_context run_id k = record k { cancelled = run_id ∷ k.cancelled }

-- The answers of handleCancelRun: the status code, with the job that is written
-- (none stands for the zero Job).
pub data Answer (J : Type 0) : Type 0 where
  not_found : Answer J
  ok_job : Option J → Answer J
  conflict : Answer J
  accepted : Option J → Answer J

abbrev allowance_message : String
allowance_message =
    "harness exhausted its inference allowance: the platform refused an agent-attributable inference request"

abbrev pub cancel_message : String
cancel_message = "run cancelled by client"

module _ {Case Report Diag : Type 0} where
  abbrev pub is_over : Job Case Report Diag → Bool
  is_over j = is_terminal j.status

  -- With the failure that relayFinalizeFailure makes of errAgentInferenceDeclined.
  unfoldable pub fail_agent_inference_run :
      Option (Failure Diag)
      → String
      → ℕ
      → Store Case Report Diag × Cancels
      → Store Case Report Diag × Cancels
  fail_agent_inference_run failure run_id now (s, k) =
      let (t, job, found, transitioned) = fail_if_active run_id allowance_message failure now s in
      if not transitioned
      then (t, k)
      else if is_registered run_id k
      then (t, cancel_context run_id k)
      else (t, k)

  -- The store changes under other calls between the first read of the job and the rest: `s` is what
  -- the first read sees, `later` what the others see.
  unfoldable pub handle_cancel_run :
      String
      → ℕ
      → Store Case Report Diag
      → Store Case Report Diag × Cancels
      → Answer (Job Case Report Diag) × Store Case Report Diag × Cancels
  handle_cancel_run run_id now s (later, k) = elim (get run_id s) [
    | none ↦ (not_found, later, k)
    | some job ↦
        if is_over job
        then (ok_job (some job), later, k)
        else if not (is_registered run_id k)
        then elim (get run_id later) [
          | none ↦ (conflict, later, k)
          | some again ↦
              if is_over again then (ok_job (some again), later, k) else (conflict, later, k)
        ]
        else let (t, struck, found, transitioned) =
            cancel_if_active run_id cancel_message now later in
          if not transitioned
          then (ok_job struck, t, k)
          else (accepted struck, t, cancel_context run_id k)
  ]
