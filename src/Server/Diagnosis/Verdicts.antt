-- ===== src/Server/Diagnosis/Verdicts.antt =====
-- cmd/dittobench-api/main.go, finishSandboxRun: the verdict of the scored path is kept.
use dittobench_api.Base.{
  ℕ, String, true, false, Option, some, ◌≡◌, refl, sym, ap, subst, ◌∙◌, arith, ◌==◌, string_eq,
  text_beq_iff, Bool-cases, inl, inr,
}
use dittobench_api.Base.Assoc.{lookup-modify}
use dittobench_api.Store.Job.{Failure, Job, Store, failed}
use dittobench_api.Store.Methods.{fail_with, get, update, mutate}
use dittobench_api.Server.Diagnosis.{Diagnostics, finish_verdict, finish_sandbox_run}

-- A failure that is the validator's own, so that the run may be repeated at no cost to the miner.
pub record IsPlatformFault {Diag : Type 0} (f : Failure Diag) : Type 0 where
  pub kind_eq : f.kind ≡ "validator_infrastructure"
  pub may_retry : f.retryable ≡ true

module _ {Diag : Type 0} (merge : Diag → Diag → Diag) (d : Diagnostics) (evidence : Diag)
    (message : String) where
  finish_verdict-IsPlatformFault :
      (f : Failure Diag)
      → IsPlatformFault f
      → IsPlatformFault (finish_verdict merge d evidence message (some f)).1
  unfolding finish_verdict
  finish_verdict-IsPlatformFault f p =
      let named : (f.kind == "") ≡ false = ap (λ k. k == "") p.kind_eq in
      ground (arith, p.kind_eq, p.may_retry, named)

module _ {Case Report Diag : Type 0} where
  pub get-update_self :
      (run_id : String) (change : Job Case Report Diag → Job Case Report Diag) (now : ℕ)
      (s : Store Case Report Diag) (j : Job Case Report Diag)
      → get run_id s ≡ some j
      → get run_id (update run_id change now s) ≡ some (record (change j) { updated_at = now })
  unfolding get update
  get-update_self run_id change now s j found = ground (
    arith,
    found,
    text_beq_iff run_id run_id,
    lookup-modify run_id run_id (λ k. record (change k) { updated_at = now }) s,
  )

module _ {Case Report Diag : Type 0} (merge : Diag → Diag → Diag) where
  abbrev Faulted : Option (Job Case Report Diag) → Type 0
  Faulted o =
      (j : Job Case Report Diag) × (f : Failure Diag) × (o ≡ some j)
      × (j.status ≡ failed)
      × (j.failure ≡ some f)
      × IsPlatformFault f

  failed_again :
      (d : Diagnostics) (evidence : Diag) (now : ℕ) (j : Job Case Report Diag) (f : Failure Diag)
      (prior : Option (Failure Diag))
      → prior ≡ some f
      → j.status ≡ failed
      → j.failure ≡ some f
      → IsPlatformFault f
      → let (message, failure) = finish_verdict merge d evidence j.error prior in
        Faulted (some (record (mutate (fail_with message (some failure)) j) { updated_at = now }))
  unfolding mutate
  failed_again d evidence now j f prior same over charged p =
      let verdict = finish_verdict merge d evidence j.error (some f) in
      let kept = finish_verdict-IsPlatformFault merge d evidence j.error f p in
      rw same elim (Bool-cases j.cancelled) [
        | inl sealed ↦ (
          record (mutate (fail_with verdict.0 (some verdict.1)) j) { updated_at = now },
          f,
          refl,
          ground (arith, sealed, over),
          ground (arith, sealed, charged),
          p,
        )
        | inr unsealed ↦ (
          record (mutate (fail_with verdict.0 (some verdict.1)) j) { updated_at = now },
          verdict.1,
          refl,
          ground (arith, unsealed),
          ground (arith, unsealed),
          kept,
        )
      ]

  finish_sandbox_run-failed :
      (run_id : String) (d : Diagnostics) (evidence : Diag) (now : ℕ) (s : Store Case Report Diag)
      (j : Job Case Report Diag)
      → get run_id s ≡ some j
      → j.status ≡ failed
      → let (message, failure) = finish_verdict merge d evidence j.error j.failure in
        finish_sandbox_run merge run_id d evidence now s
        ≡ update run_id (mutate (fail_with message (some failure))) now s
  unfolding finish_sandbox_run
  finish_sandbox_run-failed run_id d evidence now s j found over = ground (arith, found, over)

  -- A failed run whose failure is the platform's stays one: whatever the evidence of its container, the
  -- last write of the worker finds its job failed, and leaves it failed for the platform's fault, to be
  -- repeated. It is never turned into a failure of the miner's.
  pub platform_fault_kept :
      (run_id : String) (d : Diagnostics) (evidence : Diag) (now : ℕ) (s : Store Case Report Diag)
      (j : Job Case Report Diag) (f : Failure Diag)
      → get run_id s ≡ some j
      → j.status ≡ failed
      → j.failure ≡ some f
      → IsPlatformFault f
      → Faulted (get run_id (finish_sandbox_run merge run_id d evidence now s))
  platform_fault_kept run_id d evidence now s j f found over charged p =
      let verdict = finish_verdict merge d evidence j.error j.failure in
      let change = mutate {Case = Case} {Report = Report} (fail_with verdict.0 (some verdict.1)) in
      let after : get run_id (finish_sandbox_run merge run_id d evidence now s)
          ≡ some (record (change j) { updated_at = now }) =
        ap (get run_id) (finish_sandbox_run-failed run_id d evidence now s j found over)
        ∙ get-update_self run_id change now s j found in
      subst Faulted (sym after) (failed_again d evidence now j f j.failure charged over charged p)
