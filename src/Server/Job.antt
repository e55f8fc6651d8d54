-- ===== src/Server/Job.antt =====
-- cmd/dittobench-api/main.go, runSizeJob: what a run leaves behind while it goes through its stages.
-- A stage goes on, or the job returns: with a failure that it writes to the store, with none, as the
-- run was cancelled, or by a panic. The deferred calls are kept with the job and run at its end.
mod Examples
mod Sequence
pub mod Starting
pub mod Launching
pub mod Cases
pub mod Scoring
pub mod Waves
pub mod Outcome
pub mod Metered
pub mod Begun
pub mod Reported
pub mod Scores
pub mod Accounted
pub mod Launched
pub mod Release
use dittobench_api.Base.{
  ℕ, String, Bool, true, false, not, Option, none, some, List, [], ◌∷◌, ◌++◌, ◌==◌, ◌&&◌, string_eq,
  if◌then◌else◌, keep,
}
use dittobench_api.Store.Job.{Status, Failure}
use dittobench_api.Store.Methods.{Write, set_stage, fail_with}

-- A failure that is written to the store: its message and classifier.
pub record Fault : Type 0 where
  pub message : String
  pub failure : Option (Failure String)

pub data Exit : Type 0 where
  failed_with : Fault → Exit
  abandoned panicked : Exit

-- What a run holds: its slot, its entry in the registry of contexts, its session, the image that was
-- built, the lock of runs with no session, the open embedding phase and the tool endpoint.
pub data Resource : Type 0 where
  run_slot cancel_entry session image relay_lock embedding_phase tool_endpoint : Resource

-- A deferred call: it gives a resource back, stops the container that the job has by then, or recovers
-- from a panic.
pub data Deferred : Type 0 where
  gives_back : Resource → Deferred
  finishes_sandbox recovers : Deferred

-- A container: its address and the URL of its harness.
pub record Handle : Type 0 where
  pub source_ip : String
  pub base_url : String

-- The containers that run once the one of a handle, if any, was removed.
abbrev pub without : Option Handle → List Handle → List Handle
without none containers = containers
without (some h) containers =
    keep (λ c. not (c.source_ip == h.source_ip && c.base_url == h.base_url)) containers

-- A resource is given back: its first holding goes.
abbrev pub same_resource : Resource → Resource → Bool
same_resource run_slot run_slot = true
same_resource cancel_entry cancel_entry = true
same_resource session session = true
same_resource image image = true
same_resource relay_lock relay_lock = true
same_resource embedding_phase embedding_phase = true
same_resource tool_endpoint tool_endpoint = true
same_resource _ _ = false

abbrev pub give_back : Resource → List Resource → List Resource
give_back r [] = []
give_back r (h ∷ held) = let rest = give_back r held in if same_resource r h then held else h ∷ rest

-- The variables of the job with the effects so far: what was written to the store in order, what is
-- held, the container that the job knows, those that run, and the deferred calls, the latest first.
pub record Work (Case Report : Type 0) : Type 0 where
  pub writes : List (Write Case Report String)
  pub held : List Resource
  pub handle : Option Handle
  pub containers : List Handle
  pub deferred : List Deferred

pub data Step (A : Type 0) : Type 0 where
  goes_on : A → Step A
  returns : Exit → Step A

abbrev pub Stage : Type 0 → Type 0 → Type 0 → Type 0
Stage Case Report A = Work Case Report → Step A × Work Case Report

module _ {Case Report : Type 0} where
  infixl 5 ◌>>=◌ ◌>>◌
  abbrev pub ◌>>=◌ :
      {A B : Type 0} → Stage Case Report A → (A → Stage Case Report B) → Stage Case Report B
  ◌>>=◌ m f w = let (r, v) = m w in elim r [ goes_on a ↦ f a v | returns e ↦ (returns e, v) ]

  abbrev pub ◌>>◌ :
      {B : Type 0} → Stage Case Report (Unit {0}) → Stage Case Report B → Stage Case Report B
  m >> k = m >>= λ _. k

  abbrev pub pure : {A : Type 0} → A → Stage Case Report A
  pure a w = (goes_on a, w)

  abbrev pub done_with : Stage Case Report (Unit {0})
  done_with w = (goes_on tt, w)

  abbrev pub stop : {A : Type 0} → Exit → Stage Case Report A
  stop e w = (returns e, w)

  abbrev pub fail_stage : {A : Type 0} → String → Option (Failure String) → Stage Case Report A
  fail_stage message failure w =
      (returns (failed_with (record { message = message; failure = failure })), w)

  -- if test { s.store.Fail(…); return }
  abbrev pub fail_if : Bool → String → Stage Case Report (Unit {0})
  fail_if test message w =
      if test
      then (returns (failed_with (record { message = message; failure = none })), w)
      else (goes_on tt, w)

  abbrev pub write : Write Case Report String → Stage Case Report (Unit {0})
  write op w = (goes_on tt, record w { writes = w.writes ++ op ∷ [] })

  abbrev pub stage : Status → ℕ → ℕ → Stage Case Report (Unit {0})
  stage status finished total = write (set_stage status finished total)

  abbrev pub panic_if : Bool → Stage Case Report (Unit {0})
  panic_if test w = if test then (returns panicked, w) else (goes_on tt, w)

  -- What is there from now on with no call that gives it back.
  abbrev pub leave : Resource → Stage Case Report (Unit {0})
  leave r w = (goes_on tt, record w { held = r ∷ w.held })

  -- A resource is taken, and the call that gives it back deferred.
  abbrev pub take : Resource → Stage Case Report (Unit {0})
  take r w = (goes_on tt, record w { held = r ∷ w.held; deferred = gives_back r ∷ w.deferred })

  -- What a stage does under a condition.
  abbrev pub when : Bool → Stage Case Report (Unit {0}) → Stage Case Report (Unit {0})
  when test m w = if test then m w else (goes_on tt, w)
