-- ===== src/Store/Examples.antt =====
-- Concrete jobs, and the theorems of the store at them.
use dittobench_api.Base.{ℕ, some, none, List, [], ◌∷◌, ◌≡◌, refl}
use dittobench_api.Base.Assoc.{lookup}
use dittobench_api.Store.Job.{seeding, running, Job, Store}
use dittobench_api.Store.Methods.{
  Call, writes, set_status, set_stage, append_partial, finish, new_job, strike, pause, resume,
  fail_if_active, get, run,
}
use dittobench_api.Store.Isolation.{run_at, get-run}
use dittobench_api.Store.Terminal.{SameVerdict, fail_if_active_final}
use dittobench_api.Store.Pause.{mutate_all, pause_transparent}

abbrev active_job : Job ℕ ℕ ℕ
unfolding new_job
active_job = record (new_job "r1" "sandbox" running 7 10 100) {
  progress = record { stage = "running"; finished = 0; total = 10 };
}

abbrev two_runs : Store ℕ ℕ ℕ
unfolding new_job
two_runs = ("r1", active_job) ∷ ("r2", new_job "r2" "direct" seeding 8 5 90) ∷ []

-- Late writes of a worker that unwinds, and the other run's own.
abbrev late_calls : List (ℕ × Call ℕ ℕ ℕ)
late_calls =
    (201, writes "r1" (append_partial 5))
    ∷ (202, writes "r2" (set_status running))
    ∷ (203, writes "r1" (finish 1))
    ∷ []

get-run_example : get "r1" (run late_calls two_runs) ≡ run_at "r1" late_calls (get "r1" two_runs)
get-run_example = get-run "r1" late_calls two_runs

fail_if_active_final_example :
    (k : Job ℕ ℕ ℕ) × (get "r1"
        (run late_calls (fail_if_active "r1" "cancelled by client" none 200 two_runs).0)
      ≡ some k)
    × SameVerdict (strike "cancelled by client" none 200 active_job) k
unfolding get lookup new_job
fail_if_active_final_example =
    fail_if_active_final "r1" "cancelled by client" none 200 two_runs active_job late_calls refl
      refl (refl, (refl, (refl, tt)))

pause_transparent_example :
    resume (mutate_all (append_partial 3 ∷ set_stage seeding 1 9 ∷ []) (pause active_job))
    ≡ mutate_all (append_partial 3 ∷ set_stage seeding 1 9 ∷ []) active_job
unfolding new_job
pause_transparent_example =
    pause_transparent (append_partial 3 ∷ set_stage seeding 1 9 ∷ []) active_job
      (tt, ((refl, refl), tt))
      (record {
        live = refl;
        awake = refl;
        named = refl;
        staged = refl;
        no_status = refl;
        no_stage = refl;
      })
      refl
