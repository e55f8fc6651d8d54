-- ===== src/Broker/Lanes.antt =====
-- cmd/dittobench-api/inference_broker.go: admission of the harness's calls to a session. Each
-- function is one critical section of the source, so that calls can be interleaved between them.
use dittobench_api.Base.{
  ℕ, ◌+◌, ◌-◌, String, Bool, true, false, not, Option, none, some, List, [], ◌∷◌, ◌==◌, ltb, leb,
  ◌||◌, nat_eq, string_eq, if◌then◌else◌,
}
use dittobench_api.Broker.Session.{Lane, Session}
use dittobench_api.Broker.Control.{is_active}

abbrev pub per_source_concurrency : ℕ
per_source_concurrency = 4

abbrev pub session_requests : ℕ
session_requests = 100000

abbrev pub session_inputs : ℕ
session_inputs = 1000000

abbrev pub session_input_bytes : ℕ
session_input_bytes = 1073741824

abbrev pub contains : ℕ → List ℕ → Bool
contains c [] = false
contains c (d ∷ ds) = c == d || contains c ds

abbrev pub without : ℕ → List ℕ → List ℕ
without c [] = []
without c (d ∷ ds) = let rest = without c ds in if c == d then rest else d ∷ rest

-- embeddingLaneLocked
unfoldable pub lane_width : Lane → ℕ
lane_width lane = if ltb lane.embedding_concurrency 1 then 1 else lane.embedding_concurrency

unfoldable pub begin_embedding_phase : String → ℕ → Session → Option Session
begin_embedding_phase run_id now s =
    if not (s.bound_run_id == run_id) || not (is_active s now) || s.lane.phase_started
    then none
    else some (record s { lane = record s.lane { phase_started = true; phase_active = true } })

-- The locked part; the calls of the lane are revoked with it, and then waited for.
unfoldable pub end_embedding_phase : String → Session → Session
end_embedding_phase run_id s =
    if s.bound_run_id == run_id
    then record s { lane = record s.lane { phase_active = false } }
    else s

-- Go's answer to an embedding call before it is served.
pub data Admission : Type 0 where
  conflict too_many granted : Admission

unfoldable pub admit_embedding : ℕ → Lane → Lane × Admission
unfolding lane_width
admit_embedding call lane =
    if not lane.phase_active
    then (lane, conflict)
    else if leb (lane_width lane) lane.embedding_in_flight
    then (lane, too_many)
    else (
      record lane {
        embedding_in_flight = lane.embedding_in_flight + 1;
        embedding_calls = call ∷ lane.embedding_calls;
      },
      granted,
    )

-- The budgets that a decoded request of some inputs and bytes takes from.
unfoldable pub charge_embedding : ℕ → ℕ → Lane → Lane × Admission
charge_embedding inputs bytes lane =
    if not lane.phase_active
    then (lane, conflict)
    else if ltb session_requests (lane.embedding_requests + 1)
        || ltb session_inputs (lane.embedding_inputs + inputs)
        || ltb session_input_bytes (lane.embedding_input_bytes + bytes)
    then (lane, too_many)
    else (
      record lane {
        embedding_requests = lane.embedding_requests + 1;
        embedding_inputs = lane.embedding_inputs + inputs;
        embedding_input_bytes = lane.embedding_input_bytes + bytes;
      },
      granted,
    )

-- The deferred clean-up of a call.
unfoldable pub release_embedding : ℕ → Lane → Lane
release_embedding call lane =
    if contains call lane.embedding_calls
    then record lane {
      embedding_calls = without call lane.embedding_calls;
      embedding_in_flight = lane.embedding_in_flight - 1;
    }
    else lane

unfoldable pub admit_chat : Session → Session × Admission
admit_chat s =
    if leb per_source_concurrency s.in_flight
    then (s, too_many)
    else (record s { in_flight = s.in_flight + 1 }, granted)

unfoldable pub release_chat : Session → Session
release_chat s = record s { in_flight = s.in_flight - 1 }
