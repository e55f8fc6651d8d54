-- ===== src/Store/Methods.antt =====
-- internal/store/store.go: the methods. Each takes the instant that time.Now() gives it. The
-- function that a method hands to Update stands on its own, over the job.
use dittobench_api.Base.{string_eq}
use dittobench_api.Base.{
  ℕ, String, Bool, true, false, Option, none, some, List, [], ◌∷◌, ◌++◌, ◌==◌, length,
  if◌then◌else◌,
}
use dittobench_api.Base.Assoc.{lookup, insert, modify}
use dittobench_api.Store.Job.{
  Status, unset, running, waiting_relay, done, failed, label, is_waiting, is_terminal, Failure, Job,
  Store,
}

-- The status that a paused run goes on with.
unfoldable pub resumed_status : Status → Status
resumed_status unset = running
resumed_status status = status

module _ {Case Report Diag : Type 0} where
  -- &Job{…}: the other fields have their zero values.
  unfoldable pub new_job : String → String → Status → ℕ → ℕ → ℕ → Job Case Report Diag
  new_job run_id mode status seed n now = record {
    run_id = run_id;
    status = status;
    mode = mode;
    run_size = "";
    bench_version = 0;
    seed = seed;
    n = n;
    error = "";
    failure = none;
    progress = record { stage = ""; finished = 0; total = 0 };
    partial = [];
    report = none;
    transcript_sha256 = "";
    transcript = [];
    created_at = now;
    updated_at = now;
    resume_status = unset;
    resume_stage = "";
    cancelled = false;
  }

  unfoldable pub create :
      String
      → String
      → Status
      → ℕ
      → ℕ
      → ℕ
      → Store Case Report Diag
      → Store Case Report Diag × Job Case Report Diag
  unfolding new_job
  create run_id mode status seed n now s =
      let j = new_job run_id mode status seed n now in (insert run_id j s, j)

  unfoldable pub update :
      String
      → (Job Case Report Diag → Job Case Report Diag)
      → ℕ
      → Store Case Report Diag
      → Store Case Report Diag
  update run_id mutate now = modify run_id (λ j. record (mutate j) { updated_at = now })

  unfoldable pub mark_status : Status → Job Case Report Diag → Job Case Report Diag
  mark_status status j = if j.cancelled then j else record j { status = status }

  unfoldable pub mark_run_size : String → Job Case Report Diag → Job Case Report Diag
  mark_run_size size j = record j { run_size = size }

  unfoldable pub mark_bench_version : ℕ → Job Case Report Diag → Job Case Report Diag
  mark_bench_version version j = record j { bench_version = version }

  -- A stage that is reached while the run waits for the relay is kept for its resumption.
  unfoldable pub mark_stage : Status → ℕ → ℕ → Job Case Report Diag → Job Case Report Diag
  mark_stage status finished total j =
      if j.cancelled
      then j
      else if is_waiting j.status
      then record j {
        resume_status = status;
        resume_stage = label status;
        progress = record { stage = j.progress.stage; finished = finished; total = total };
      }
      else record j {
        status = status;
        progress = record { stage = label status; finished = finished; total = total };
      }

  unfoldable pub pause : Job Case Report Diag → Job Case Report Diag
  pause j = if is_waiting j.status then j else if is_terminal j.status then j else record j {
    resume_status = j.status;
    resume_stage = j.progress.stage;
    status = waiting_relay;
    progress = record {
      stage = label waiting_relay;
      finished = j.progress.finished;
      total = j.progress.total;
    };
  }

  unfoldable pub resume : Job Case Report Diag → Job Case Report Diag
  unfolding resumed_status
  resume j =
      if is_waiting j.status
      then record j {
        status = resumed_status j.resume_status;
        progress = record {
          stage =
              if j.resume_stage == ""
              then label (resumed_status j.resume_status)
              else j.resume_stage;
          finished = j.progress.finished;
          total = j.progress.total;
        };
        resume_status = unset;
        resume_stage = "";
      }
      else j

  unfoldable pub mark_relay_waiting : Bool → Job Case Report Diag → Job Case Report Diag
  unfolding pause resume
  mark_relay_waiting waiting j = if j.cancelled then j else if waiting then pause j else resume j

  unfoldable pub mark_partial : Case → Job Case Report Diag → Job Case Report Diag
  mark_partial cs j = if j.cancelled then j else record j {
    partial = j.partial ++ cs ∷ [];
    progress = record {
      stage = j.progress.stage;
      finished = length (j.partial ++ cs ∷ []);
      total = j.progress.total;
    };
  }

  unfoldable pub mark_failed :
      String → Option (Failure Diag) → Job Case Report Diag → Job Case Report Diag
  mark_failed msg failure j =
      if j.cancelled then j else record j { status = failed; error = msg; failure = failure }

  unfoldable pub mark_transcript : String → List ℕ → Job Case Report Diag → Job Case Report Diag
  mark_transcript sha body j =
      if j.cancelled then j else record j { transcript_sha256 = sha; transcript = body }

  unfoldable pub mark_finished : Report → Job Case Report Diag → Job Case Report Diag
  mark_finished report j =
      if j.cancelled then j else record j { status = done; report = some report }

  -- The write of FailIfActive to an active job.
  unfoldable pub strike :
      String → Option (Failure Diag) → ℕ → Job Case Report Diag → Job Case Report Diag
  strike msg failure now j = record j {
    cancelled = true;
    status = failed;
    error = msg;
    failure = failure;
    updated_at = now;
  }

  -- The job (none stands for the zero Job), whether it was found, and whether this call failed it.
  unfoldable pub fail_if_active :
      String
      → String
      → Option (Failure Diag)
      → ℕ
      → Store Case Report Diag
      → Store Case Report Diag × Option (Job Case Report Diag) × Bool × Bool
  unfolding strike
  fail_if_active run_id msg failure now s = elim (lookup run_id s) [
    | none ↦ (s, none, false, false)
    | some j ↦
        if is_terminal j.status
        then (s, some j, true, false)
        else (modify run_id (strike msg failure now) s, some (strike msg failure now j), true, true)
  ]

  unfoldable pub cancel_if_active :
      String
      → String
      → ℕ
      → Store Case Report Diag
      → Store Case Report Diag × Option (Job Case Report Diag) × Bool × Bool
  unfolding fail_if_active
  cancel_if_active run_id msg now s = fail_if_active run_id msg none now s

  unfoldable pub get : String → Store Case Report Diag → Option (Job Case Report Diag)
  get run_id s = lookup run_id s

-- The calls of the writing methods other than Create and FailIfActive, which all go through Update.
pub data Write (Case Report Diag : Type 0) : Type 0 where
  set_status : Status → Write Case Report Diag
  set_run_size : String → Write Case Report Diag
  set_bench_version : ℕ → Write Case Report Diag
  set_stage : Status → ℕ → ℕ → Write Case Report Diag
  set_relay_waiting : Bool → Write Case Report Diag
  append_partial : Case → Write Case Report Diag
  fail_with : String → Option (Failure Diag) → Write Case Report Diag
  set_transcript : String → List ℕ → Write Case Report Diag
  finish : Report → Write Case Report Diag

module _ {Case Report Diag : Type 0} where
  unfoldable pub mutate : Write Case Report Diag → Job Case Report Diag → Job Case Report Diag
  unfolding mark_status mark_run_size mark_bench_version mark_stage mark_relay_waiting mark_partial
      mark_failed mark_transcript mark_finished
  mutate (set_status status) j = mark_status status j
  mutate (set_run_size size) j = mark_run_size size j
  mutate (set_bench_version version) j = mark_bench_version version j
  mutate (set_stage status finished total) j = mark_stage status finished total j
  mutate (set_relay_waiting waiting) j = mark_relay_waiting waiting j
  mutate (append_partial cs) j = mark_partial cs j
  mutate (fail_with msg failure) j = mark_failed msg failure j
  mutate (set_transcript sha body) j = mark_transcript sha body j
  mutate (finish report) j = mark_finished report j

  -- Fail is FailWith with no classifier.
  abbrev pub fail : String → Write Case Report Diag
  fail msg = fail_with msg none

-- A call on the store, with the instant at which it runs.
pub data Call (Case Report Diag : Type 0) : Type 0 where
  creates : String → String → Status → ℕ → ℕ → Call Case Report Diag
  writes : String → Write Case Report Diag → Call Case Report Diag
  strikes : String → String → Option (Failure Diag) → Call Case Report Diag

module _ {Case Report Diag : Type 0} where
  unfoldable pub step : ℕ × Call Case Report Diag → Store Case Report Diag → Store Case Report Diag
  unfolding create update
  step (now, creates run_id mode status seed n) s = (create run_id mode status seed n now s).0
  step (now, writes run_id w) s = update run_id (mutate w) now s
  step (now, strikes run_id msg failure) s = (fail_if_active run_id msg failure now s).0

  unfoldable pub run :
      List (ℕ × Call Case Report Diag) → Store Case Report Diag → Store Case Report Diag
  run [] s = s
  run (c ∷ cs) s = run cs (step c s)
