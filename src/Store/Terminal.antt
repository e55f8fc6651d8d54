-- ===== src/Store/Terminal.antt =====
-- internal/store/store.go: a run that FailIfActive or CancelIfActive failed keeps its verdict.
use dittobench_api.Base.{string_eq}
use dittobench_api.Base.{
  ℕ, String, Bool, true, false, Option, some, List, [], ◌∷◌, ◌≡◌, refl, ◌∙◌, arith, ◌==◌,
  text_beq_iff, Bool-cases, All, inl, inr,
}
use dittobench_api.Base.Assoc.{lookup-modify}
use dittobench_api.Store.Job.{failed, is_terminal, Failure, Job, Store}
use dittobench_api.Store.Methods.{
  Write, set_status, set_run_size, set_bench_version, set_stage, set_relay_waiting, append_partial,
  fail_with, set_transcript, finish, Call, creates, writes, strikes, strike, mutate, fail_if_active,
  get, run,
}
use dittobench_api.Store.Isolation.{strike_active, step_at, run_at, get-run}

module _ {Case Report Diag : Type 0} where
  -- Two jobs with one verdict: they may differ in run size, benchmark version and update time.
  pub record SameVerdict (j k : Job Case Report Diag) : Type 0 where
    pub status_eq : k.status ≡ j.status
    pub error_eq : k.error ≡ j.error
    pub failure_eq : k.failure ≡ j.failure
    pub progress_eq : k.progress ≡ j.progress
    pub partial_eq : k.partial ≡ j.partial
    pub report_eq : k.report ≡ j.report
    pub sha_eq : k.transcript_sha256 ≡ j.transcript_sha256
    pub transcript_eq : k.transcript ≡ j.transcript
    pub cancelled_eq : k.cancelled ≡ j.cancelled

  -- No call of a history creates the job anew.
  abbrev pub creates_job : String → Call Case Report Diag → Bool
  creates_job id (creates run_id mode status seed n) = run_id == id
  creates_job id (writes run_id w) = false
  creates_job id (strikes run_id msg failure) = false

  abbrev pub NoCreate : String → List (ℕ × Call Case Report Diag) → Type 0
  NoCreate id cs = All (λ c. creates_job id c.1 ≡ false) cs

  mutate-SameVerdict :
      (w : Write Case Report Diag) (j : Job Case Report Diag)
      → j.cancelled ≡ true
      → SameVerdict j (mutate w j)
  unfolding mutate
  mutate-SameVerdict (set_status status) j h = ground arith
  mutate-SameVerdict (set_run_size size) j h = ground arith
  mutate-SameVerdict (set_bench_version version) j h = ground arith
  mutate-SameVerdict (set_stage status d t) j h = ground arith
  mutate-SameVerdict (set_relay_waiting waiting) j h = ground arith
  mutate-SameVerdict (append_partial cs) j h = ground arith
  mutate-SameVerdict (fail_with msg failure) j h = ground arith
  mutate-SameVerdict (set_transcript sha body) j h = ground arith
  mutate-SameVerdict (finish report) j h = ground arith

  -- An id holds a job with the verdict of `k`.
  abbrev Holds : Job Case Report Diag → Option (Job Case Report Diag) → Type 0
  Holds k o = (j : Job Case Report Diag) × (o ≡ some j) × SameVerdict k j

  module _ (k : Job Case Report Diag) (sealed : k.cancelled ≡ true) (over : k.status ≡ failed) where
    step_at-Holds :
        (id : String) (c : ℕ × Call Case Report Diag) (o : Option (Job Case Report Diag))
        → creates_job id c.1 ≡ false
        → Holds k o
        → Holds k (step_at id c o)
    unfolding step_at strike_active
    step_at-Holds id (now, creates run_id mode status seed n) o e (j, there, same) =
        (j, rw (e, step_at) there, same)
    step_at-Holds id (now, writes run_id w) o e (j, there, same) =
        elim (Bool-cases (run_id == id)) [
          | inl hit ↦ (
            record (mutate w j) { updated_at = now },
            rw (hit, there) refl,
            ground (arith, mutate-SameVerdict w j),
          )
          | inr miss ↦ (j, rw miss there, same)
        ]
    step_at-Holds id (now, strikes run_id msg failure) o e (j, there, same) =
        (j, ground arith, same)

    run_at-Holds :
        (id : String) (cs : List (ℕ × Call Case Report Diag)) (o : Option (Job Case Report Diag))
        → NoCreate id cs
        → Holds k o
        → Holds k (run_at id cs o)
    unfolding run_at
    run_at-Holds id [] o e h = h
    run_at-Holds id (c ∷ cs) o e h =
        run_at-Holds id cs (step_at id c o) e.1 (step_at-Holds id c o e.0 h)

  get-fail_if_active :
      (id msg : String) (failure : Option (Failure Diag)) (now : ℕ) (s : Store Case Report Diag)
      (j : Job Case Report Diag)
      → get id s ≡ some j
      → is_terminal j.status ≡ false
      → get id (fail_if_active id msg failure now s).0 ≡ some (strike msg failure now j)
  unfolding get fail_if_active
  get-fail_if_active id msg failure now s j there active =
      ground (arith, text_beq_iff id id, lookup-modify id id (strike msg failure now) s)

  -- FailIfActive on an active run is final. Whatever calls follow, on any runs, if none creates the
  -- run anew: Get finds a failed job with the message and classifier given and with the case scores,
  -- progress, report and transcript that the run had when it was failed.
  pub fail_if_active_final :
      (id msg : String) (failure : Option (Failure Diag)) (now : ℕ) (s : Store Case Report Diag)
      (j : Job Case Report Diag) (cs : List (ℕ × Call Case Report Diag))
      → get id s ≡ some j
      → is_terminal j.status ≡ false
      → NoCreate id cs
      → (k : Job Case Report Diag) × (get id (run cs (fail_if_active id msg failure now s).0)
          ≡ some k)
        × SameVerdict (strike msg failure now j) k
  unfolding strike
  fail_if_active_final id msg failure now s j cs there active fresh =
      let after = (fail_if_active id msg failure now s).0 in
      let struck = strike msg failure now j in
      let (k, found, same) =
        run_at-Holds struck refl refl id cs (get id after) fresh
          (struck, get-fail_if_active id msg failure now s j there active, ground arith) in
      (k, get-run id cs after ∙ found, same)

  -- The first verdict wins: once FailIfActive has failed a run, a later FailIfActive or
  -- CancelIfActive of that run, after any calls that do not create it anew, finds the run, reports
  -- that it did not fail it, and leaves the store as it was.
  fail_if_active_once :
      (id msg : String) (failure : Option (Failure Diag)) (now : ℕ) (s : Store Case Report Diag)
      (j : Job Case Report Diag) (cs : List (ℕ × Call Case Report Diag)) (msg' : String)
      (failure' : Option (Failure Diag)) (later : ℕ)
      → get id s ≡ some j
      → is_terminal j.status ≡ false
      → NoCreate id cs
      → let t = run cs (fail_if_active id msg failure now s).0 in
        (k : Job Case Report Diag) × (fail_if_active id msg' failure' later t
          ≡ (t, some k, true, false))
        × (k.error ≡ msg)
        × (k.failure ≡ failure)
  unfolding fail_if_active get strike
  fail_if_active_once id msg failure now s j cs msg' failure' later there active fresh =
      let (k, found, same) = fail_if_active_final id msg failure now s j cs there active fresh in
      (k, ground arith, ground arith, ground arith)
