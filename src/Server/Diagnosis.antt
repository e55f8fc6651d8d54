-- ===== src/Server/Diagnosis.antt =====
-- cmd/dittobench-api/main.go, finishSandboxRun, sandboxStartInfraFailure and screenedImageInfraFailure,
-- and internal/sandbox/sandbox.go, InfrastructureCode: who is charged for a failed run. The evidence
-- of the container is any type; texts are ASCII.
pub mod Verdicts
use dittobench_api.Base.{
  ℕ, String, Bool, true, false, not, Option, none, some, List, [], ◌∷◌, map, ◌==◌, ltb, leb, ◌&&◌,
  ◌||◌, string_eq, if◌then◌else◌,
}
use dittobench_api.Base.Text.{bytes_of, cut_prefix, lower}
use dittobench_api.Store.Job.{Failure, Job, Store, failed}
use dittobench_api.Store.Methods.{fail_with, get, update, mutate}

-- Diagnostics of a container; a counter may be unknown. oom_kills is its memory event oom_kill.
pub record Diagnostics : Type 0 where
  pub oom_killed : Bool
  pub oom_kills : ℕ
  pub tmpfs_used : Option ℕ
  pub tmpfs_capacity : Option ℕ

abbrev is_full : ℕ → ℕ → Bool
is_full capacity used = ltb 0 capacity && leb capacity used

-- none stands for the empty code.
unfoldable pub infrastructure_code : Diagnostics → Option String
infrastructure_code d =
    let full : Bool = elim d.tmpfs_used [
      | none ↦ false
      | some used ↦ elim d.tmpfs_capacity [ none ↦ false | some capacity ↦ is_full capacity used ]
    ] in
    if d.oom_killed || ltb 0 d.oom_kills
    then some "sandbox_oom"
    else if full
    then some "sandbox_tmpfs_exhausted"
    else none

-- strings.Contains(s, part)
unfoldable pub contains : List ℕ → List ℕ → Bool
contains [] part = elim (cut_prefix [] part) [ none ↦ false | some r ↦ true ]
contains (c ∷ s) part =
    let later = contains s part in elim (cut_prefix (c ∷ s) part) [ none ↦ later | some r ↦ true ]

module _ {Diag : Type 0} where
  abbrev pub infrastructure : String → Option Diag → Failure Diag
  infrastructure code evidence = record {
    kind = "validator_infrastructure";
    code = code;
    retryable = true;
    diagnostics = evidence;
  }

  -- For the text of Docker's error.
  unfoldable pub sandbox_start_infra_failure : List ℕ → Option (Failure Diag)
  unfolding contains
  sandbox_start_infra_failure error =
      let msg = map lower error in
      if contains msg (bytes_of "dittobench-sub:")
        && (contains msg (bytes_of "unable to find image")
            || contains msg (bytes_of "no such image")
            || contains msg (bytes_of "pull access denied for dittobench-sub"))
      then some (infrastructure "sandbox_image_unavailable" none)
      else if not (contains msg (bytes_of "network")) || not (contains msg (bytes_of "not found"))
      then none
      else some (infrastructure "sandbox_network_unavailable" none)

  -- Whether the error of the build wraps ErrScreenedImageUnavailable; none for no error.
  unfoldable pub screened_image_infra_failure : Option Bool → Option (Failure Diag)
  screened_image_infra_failure none = none
  screened_image_infra_failure (some unavailable) =
      if unavailable then some (infrastructure "screened_image_unavailable" none) else none

  unfoldable pub tool_endpoint_infrastructure_failure : Failure Diag
  tool_endpoint_infrastructure_failure = infrastructure "sandbox_network_unavailable" none

  -- The evidence that was collected, with the entries of the failure before it.
  abbrev pub merged : (Diag → Diag → Diag) → Diag → Option Diag → Option Diag
  merged merge evidence none = some evidence
  merged merge evidence (some before) = some (merge evidence before)

  -- The message and failure that a failed run ends with.
  unfoldable pub finish_verdict :
      (Diag → Diag → Diag)
      → Diagnostics
      → Diag
      → String
      → Option (Failure Diag)
      → String × Failure Diag
  unfolding infrastructure_code
  finish_verdict merge d evidence message prior = elim (infrastructure_code d) [
    | some code ↦
        ("validator sandbox resource envelope exhausted", infrastructure code (some evidence))
    | none ↦
        let generic : Failure Diag = record {
          kind = "sandbox_failure";
          code = "sandbox_runtime";
          retryable = false;
          diagnostics = some evidence;
        } in
        elim prior [
          | none ↦ (message, generic)
          | some f ↦ if f.kind == "" then (message, generic) else (
            message,
            record {
              kind = f.kind;
              code = f.code;
              retryable = f.retryable;
              diagnostics = merged merge evidence f.diagnostics;
            },
          )
        ]
  ]

module _ {Case Report Diag : Type 0} (merge : Diag → Diag → Diag) where
  abbrev pub is_failed : Job Case Report Diag → Bool
  is_failed j = elim j.status [ failed ↦ true | _ ↦ false ]

  -- The store after finishSandboxRun, but for the stop of the container.
  unfoldable pub finish_sandbox_run :
      String → Diagnostics → Diag → ℕ → Store Case Report Diag → Store Case Report Diag
  unfolding finish_verdict
  finish_sandbox_run run_id d evidence now s = elim (get run_id s) [
    | none ↦ s
    | some j ↦
        if is_failed j
        then (let (message, failure) = finish_verdict merge d evidence j.error j.failure in
            update run_id (mutate (fail_with message (some failure))) now s)
        else s
  ]
