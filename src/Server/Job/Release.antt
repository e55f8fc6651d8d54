-- ===== src/Server/Job/Release.antt =====
-- cmd/dittobench-api/main.go, runSizeJob: whatever a run takes it gives back, however it ends.
use dittobench_api.Base.{none, List, [], ◌≡◌, string_eq}
use dittobench_api.Server.Job.{Resource, Fault, without, Work, Step}

-- What is held once a job has ended, if no container runs.
pub record IsReleased {Case Report : Type 0} (left : List Resource) (w : Work Case Report)
    : Type 0 where
  pub held_eq : w.held ≡ left
  pub no_container : w.containers ≡ []

module _ {Case Report : Type 0} (diagnose : Fault → Fault) (result : Step Report) where
  -- The container is gone, and what is held stays.
  record IsFinished (w v : Work Case Report) : Type 0 where
    held_eq : v.held ≡ w.held
    handle_eq : v.handle ≡ none
    containers_eq : v.containers ≡ without w.handle w.containers

  -- Recovery writes only.
  record IsWritten (w v : Work Case Report) : Type 0 where
    same_held : v.held ≡ w.held
    same_handle : v.handle ≡ w.handle
    same_containers : v.containers ≡ w.containers
