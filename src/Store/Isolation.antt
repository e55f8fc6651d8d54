-- ===== src/Store/Isolation.antt =====
-- internal/store/store.go: what the calls on the whole store do to the job at one run id.
use dittobench_api.Base.{string_eq}
use dittobench_api.Base.{
  ℕ, String, Option, some, List, [], ◌∷◌, ◌≡◌, refl, ◌∙◌, ap, arith, ◌==◌, if◌then◌else◌,
  text_beq_iff, Option-cases,
}
use dittobench_api.Base.Assoc.{lookup, lookup-insert, lookup-modify, option_map}
use dittobench_api.Store.Job.{is_terminal, Failure, Job, Store}
use dittobench_api.Store.Methods.{
  Call, creates, writes, strikes, new_job, strike, mutate, fail_if_active, get, step, run,
}

module _ {Case Report Diag : Type 0} where
  -- FailIfActive, seen by the job itself.
  unfoldable pub strike_active :
      String → Option (Failure Diag) → ℕ → Job Case Report Diag → Job Case Report Diag
  strike_active msg failure now j = if is_terminal j.status then j else strike msg failure now j

  -- The effect of one call on the job at an id.
  unfoldable pub step_at :
      String
      → ℕ × Call Case Report Diag
      → Option (Job Case Report Diag)
      → Option (Job Case Report Diag)
  unfolding strike_active
  step_at id (now, creates run_id mode status seed n) o =
      if run_id == id then some (new_job run_id mode status seed n now) else o
  step_at id (now, writes run_id w) o =
      if run_id == id then option_map (λ j. record (mutate w j) { updated_at = now }) o else o
  step_at id (now, strikes run_id msg failure) o =
      if run_id == id then option_map (strike_active msg failure now) o else o

  unfoldable pub run_at :
      String
      → List (ℕ × Call Case Report Diag)
      → Option (Job Case Report Diag)
      → Option (Job Case Report Diag)
  run_at id [] o = o
  run_at id (c ∷ cs) o = run_at id cs (step_at id c o)

  lookup-fail_if_active :
      (id run_id msg : String) (failure : Option (Failure Diag)) (now : ℕ)
      (s : Store Case Report Diag)
      → lookup id (fail_if_active run_id msg failure now s).0 ≡ (
          if run_id == id
          then option_map (strike_active msg failure now) (lookup id s)
          else lookup id s)
  unfolding fail_if_active strike_active
  lookup-fail_if_active id run_id msg failure now s = ground (
    arith,
    text_beq_iff run_id id,
    lookup-modify run_id id (strike msg failure now) s,
    Option-cases (lookup run_id s),
  )

  get-step :
      (id : String) (c : ℕ × Call Case Report Diag) (s : Store Case Report Diag)
      → get id (step c s) ≡ step_at id c (get id s)
  unfolding get step step_at
  get-step id (now, creates run_id mode status seed n) s = lookup-insert run_id id _ s
  get-step id (now, writes run_id w) s = lookup-modify run_id id _ s
  get-step id (now, strikes run_id msg failure) s =
      lookup-fail_if_active id run_id msg failure now s

  -- After any calls, interleaved over any runs, the job that Get returns for an id is what the calls
  -- that name this id alone make of the job that was there: no call reaches another run's job.
  pub get-run :
      (id : String) (cs : List (ℕ × Call Case Report Diag)) (s : Store Case Report Diag)
      → get id (run cs s) ≡ run_at id cs (get id s)
  unfolding run run_at
  get-run id [] s = refl
  get-run id (c ∷ cs) s = get-run id cs (step c s) ∙ ap (run_at id cs) (get-step id c s)
