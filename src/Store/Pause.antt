-- ===== src/Store/Pause.antt =====
-- internal/store/store.go: a provider pause (SetRelayWaiting) does not show in the resumed run.
use dittobench_api.Base.{string_eq}
use dittobench_api.Base.{false, List, [], ◌∷◌, ◌≡◌, refl, ◌∙◌, ap, arith, ◌==◌, All}
use dittobench_api.Store.Job.{Status, unset, waiting_relay, label, is_terminal, is_waiting, Job}
use dittobench_api.Store.Methods.{
  Write, set_status, set_run_size, set_bench_version, set_stage, set_relay_waiting, append_partial,
  fail_with, set_transcript, finish, pause, resume, resumed_status, mutate,
}

resumed_named : (status : Status) → (label status == "") ≡ false → resumed_status status ≡ status
unfolding resumed_status
resumed_named unset h = cc
resumed_named _ h = refl

module _ {Case Report Diag : Type 0} where
  -- The writes of a working run: all but status jumps, terminal verdicts and further pauses. A stage
  -- is one of the named ones, and not that of a pause.
  abbrev pub IsWork : Write Case Report Diag → Type 0
  IsWork (set_run_size size) = Unit {0}
  IsWork (set_bench_version version) = Unit {0}
  IsWork (set_stage status d t) = (is_waiting status ≡ false) × ((label status == "") ≡ false)
  IsWork (append_partial cs) = Unit {0}
  IsWork (set_transcript sha body) = Unit {0}
  IsWork _ = ⊥

  unfoldable pub mutate_all :
      List (Write Case Report Diag) → Job Case Report Diag → Job Case Report Diag
  mutate_all [] j = j
  mutate_all (w ∷ ws) j = mutate_all ws (mutate w j)

  -- A job that works: it has a stage, and nothing is kept for a resumption.
  pub record IsWorking (j : Job Case Report Diag) : Type 0 where
    pub live : j.cancelled ≡ false
    pub awake : is_waiting j.status ≡ false
    pub named : (label j.status == "") ≡ false
    pub staged : (j.progress.stage == "") ≡ false
    pub no_status : j.resume_status ≡ unset
    pub no_stage : j.resume_stage ≡ ""

  -- The job under a pause.
  held : Job Case Report Diag → Job Case Report Diag
  held j = record j {
    resume_status = j.status;
    resume_stage = j.progress.stage;
    status = waiting_relay;
    progress = record {
      stage = label waiting_relay;
      finished = j.progress.finished;
      total = j.progress.total;
    };
  }

  mutate-IsWorking :
      (w : Write Case Report Diag) (j : Job Case Report Diag)
      → IsWork w
      → IsWorking j
      → IsWorking (mutate w j)
  unfolding mutate
  mutate-IsWorking (set_run_size size) j h v = ground arith
  mutate-IsWorking (set_bench_version version) j h v = ground arith
  mutate-IsWorking (set_stage status d t) j h v = ground arith
  mutate-IsWorking (append_partial cs) j h v = ground arith
  mutate-IsWorking (set_transcript sha body) j h v = ground arith
  mutate-IsWorking (set_status status) j h v = elim h [ ]
  mutate-IsWorking (set_relay_waiting waiting) j h v = elim h [ ]
  mutate-IsWorking (fail_with msg failure) j h v = elim h [ ]
  mutate-IsWorking (finish report) j h v = elim h [ ]

  mutate-held :
      (w : Write Case Report Diag) (j : Job Case Report Diag)
      → IsWork w
      → IsWorking j
      → mutate w (held j) ≡ held (mutate w j)
  unfolding mutate held
  mutate-held (set_run_size size) j h v = refl
  mutate-held (set_bench_version version) j h v = refl
  mutate-held (set_stage status d t) j h v = ground arith
  mutate-held (append_partial cs) j h v = ground arith
  mutate-held (set_transcript sha body) j h v = ground arith
  mutate-held (set_status status) j h v = elim h [ ]
  mutate-held (set_relay_waiting waiting) j h v = elim h [ ]
  mutate-held (fail_with msg failure) j h v = elim h [ ]
  mutate-held (finish report) j h v = elim h [ ]

  resume-held : (j : Job Case Report Diag) → IsWorking j → resume (held j) ≡ j
  unfolding resume held
  resume-held j v = rw (v.staged, resumed_named j.status v.named) (ground arith)

  resume-mutate_all-held :
      (ws : List (Write Case Report Diag)) (j : Job Case Report Diag)
      → All IsWork ws
      → IsWorking j
      → resume (mutate_all ws (held j)) ≡ mutate_all ws j
  unfolding mutate_all
  resume-mutate_all-held [] j hs v = resume-held j v
  resume-mutate_all-held (w ∷ ws) j (h, hs) v =
      ap (λ k. resume (mutate_all ws k)) (mutate-held w j h v)
      ∙ resume-mutate_all-held ws (mutate w j) hs (mutate-IsWorking w j h v)

  pause_lem :
      (j : Job Case Report Diag)
      → is_waiting j.status ≡ false
      → is_terminal j.status ≡ false
      → pause j ≡ held j
  unfolding pause held
  pause_lem j h k = ground arith

  -- A pause of a working, unfinished run, any stages, case scores, transcripts and settings written
  -- while it lasts, and the resumption leave exactly the job that the same writes leave without the
  -- pause: no progress is lost, and the status and stage are those reached meanwhile.
  pub pause_transparent :
      (ws : List (Write Case Report Diag)) (j : Job Case Report Diag)
      → All IsWork ws
      → IsWorking j
      → is_terminal j.status ≡ false
      → resume (mutate_all ws (pause j)) ≡ mutate_all ws j
  pause_transparent ws j hs v active =
      ap (λ k. resume (mutate_all ws k)) (pause_lem j v.awake active)
      ∙ resume-mutate_all-held ws j hs v
