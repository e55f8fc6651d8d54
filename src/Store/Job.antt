-- ===== src/Store/Job.antt =====
-- internal/store/store.go: the types. A run id, a message and a stage label are texts; counters and
-- instants are numbers; `Case`, `Report` and `Diag` stand for protocol.CaseScore,
-- protocol.ScoreReport and the JSON diagnostics, which the store only carries.
use dittobench_api.Base.{ℕ, String, Bool, true, false, Option, List}
use dittobench_api.Base.Assoc.{Assoc}

-- `unset` is the empty string, the zero value of the type.
pub data Status : Type 0 where
  unset queued building generating seeding running waiting_relay scoring done failed : Status

-- string(status)
abbrev pub label : Status → String
label unset = ""
label queued = "queued"
label building = "building"
label generating = "generating"
label seeding = "seeding"
label running = "running"
label waiting_relay = "waiting_for_relay"
label scoring = "scoring"
label done = "done"
label failed = "failed"

abbrev pub is_waiting : Status → Bool
is_waiting waiting_relay = true
is_waiting _ = false

-- StatusDone or StatusFailed.
abbrev pub is_terminal : Status → Bool
is_terminal done = true
is_terminal failed = true
is_terminal _ = false

pub record Progress : Type 0 where
  pub stage : String
  pub finished : ℕ
  pub total : ℕ

pub record Failure (Diag : Type 0) : Type 0 where
  pub kind : String
  pub code : String
  pub retryable : Bool
  pub diagnostics : Option Diag

pub record Job (Case Report Diag : Type 0) : Type 0 where
  pub run_id : String
  pub status : Status
  pub mode : String
  pub run_size : String
  pub bench_version : ℕ
  pub seed : ℕ
  pub n : ℕ
  pub error : String
  pub failure : Option (Failure Diag)
  pub progress : Progress
  pub partial : List Case
  pub report : Option Report
  pub transcript_sha256 : String
  pub transcript : List ℕ
  pub created_at : ℕ
  pub updated_at : ℕ
  pub resume_status : Status
  pub resume_stage : String
  pub cancelled : Bool

abbrev pub Store : Type 0 → Type 0 → Type 0 → Type 0
Store Case Report Diag = Assoc (Job Case Report Diag)
