-- ===== src/Server/Cancel/Verdicts.antt =====
-- cmd/dittobench-api/main.go, handleCancelRun and failAgentInferenceRun: a context is cancelled with the
-- verdict of its run, or not at all.
use dittobench_api.Base.{
  ℕ, String, true, false, none, some, ◌≡◌, ◌⊎◌, inl, inr, arith, string_eq, text_beq_iff,
  Bool-cases, Option-cases,
}
use dittobench_api.Base.Assoc.{lookup-modify}
use dittobench_api.Store.Job.{Job, Store}
use dittobench_api.Store.Methods.{strike, get, fail_if_active, cancel_if_active}
use dittobench_api.Server.Cancel.{
  Cancels, is_registered, cancel_context, Answer, accepted, is_over, cancel_message,
  handle_cancel_run,
}

module _ {Case Report Diag : Type 0} where
  cancel_if_active-active :
      (run_id msg : String) (now : ℕ) (s : Store Case Report Diag) (j : Job Case Report Diag)
      → get run_id s ≡ some j
      → is_over j ≡ false
      → let (t, struck, found, transitioned) = cancel_if_active run_id msg now s in
        (transitioned ≡ true) × (struck ≡ some (strike msg none now j)) × (get run_id t ≡ struck)
  unfolding cancel_if_active fail_if_active get
  cancel_if_active-active run_id msg now s j there active = ground (
    arith,
    there,
    active,
    lookup-modify run_id run_id (strike msg none now) s,
    text_beq_iff run_id run_id,
  )

  cancel_if_active-over :
      (run_id msg : String) (now : ℕ) (s : Store Case Report Diag)
      → (get run_id s ≡ none)
        ⊎ ((j : Job Case Report Diag) × (get run_id s ≡ some j) × (is_over j ≡ true))
      → let (t, struck, found, transitioned) = cancel_if_active run_id msg now s in
        (transitioned ≡ false) × (t ≡ s)
  unfolding cancel_if_active fail_if_active get
  cancel_if_active-over run_id msg now s (inl absent) = ground (arith, absent)
  cancel_if_active-over run_id msg now s (inr (j, there, over)) = ground (arith, there, over)

  -- Nothing changes, or the active job fails with the context cancelled.
  abbrev pub AllOrNothing :
      String
      → ℕ
      → Store Case Report Diag
      → Cancels
      → Answer (Job Case Report Diag) × Store Case Report Diag × Cancels
      → Type 0
  AllOrNothing run_id now later k (answer, t, l) =
      ((t ≡ later) × (l ≡ k))
      ⊎ ((j : Job Case Report Diag) × (get run_id later ≡ some j)
          × (is_over j ≡ false)
          × (is_registered run_id k ≡ true)
          × (get run_id t ≡ some (strike cancel_message none now j))
          × (l ≡ cancel_context run_id k)
          × (answer ≡ accepted (some (strike cancel_message none now j))))

-- A request to cancel a run cancels its context exactly when it makes the job of a registered run, still
-- active at that moment, a failed one, with the message of a cancellation; it answers 202 then. In all
-- other cases, however the store changed since the handler first read the job, it changes nothing.
pub handle_cancel_run_exact :
    {Case Report Diag : Type 0} (run_id : String) (now : ℕ) (s later : Store Case Report Diag)
    (k : Cancels)
    → AllOrNothing run_id now later k (handle_cancel_run run_id now s (later, k))
unfolding handle_cancel_run
handle_cancel_run_exact run_id now s later k = elim (Option-cases (get run_id s)) [
  | inl absent ↦ inl (ground (arith, absent))
  | inr (job, there) ↦ elim (Bool-cases (is_over job)) [
    | inl over ↦ inl (ground (arith, there, over))
    | inr active ↦ elim (Bool-cases (is_registered run_id k)) [
      | inr unknown ↦ inl (ground (arith, there, active, unknown))
      | inl known ↦ elim (Option-cases (get run_id later)) [
        | inl gone ↦
            let (still, same) = cancel_if_active-over run_id cancel_message now later (inl gone) in
            inl (ground (arith, there, active, known, still, same))
        | inr (j, here) ↦ elim (Bool-cases (is_over j)) [
          | inl ended ↦
              let (still, same) =
                cancel_if_active-over run_id cancel_message now later (inr (j, here, ended)) in
              inl (ground (arith, there, active, known, still, same))
          | inr running ↦
              let (moved, struck, kept) =
                cancel_if_active-active run_id cancel_message now later j here running in
              inr (
                j,
                here,
                running,
                known,
                ground (arith, there, active, known, moved, struck, kept),
                ground (arith, there, active, known, moved),
                ground (arith, there, active, known, moved, struck),
              )
        ]
      ]
    ]
  ]
]
