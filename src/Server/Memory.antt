-- ===== src/Server/Memory.antt =====
-- cmd/dittobench-api/main.go, beginMemoryPhase: the slots for embedding-heavy phases, and the phase of
-- the run's broker session. A holder is the function that beginMemoryPhase returns, with its sync.Once.
pub mod Slots
use dittobench_api.Base.{
  ℕ, zero, suc, ◌+◌, ◌-◌, String, Bool, true, false, not, Option, none, some, List, [], ◌∷◌, ◌==◌,
  ltb, ◌&&◌, ◌||◌, string_eq, if◌then◌else◌,
}
use dittobench_api.Base.Assoc.{Assoc, lookup, insert, modify}
use dittobench_api.Broker.Session.{Session}
use dittobench_api.Broker.Lanes.{begin_embedding_phase, end_embedding_phase}

-- The channel memorySlots, its capacity (none for a nil channel) and what it holds; and the sessions
-- of the broker, if there is one.
pub record Phases : Type 0 where
  pub capacity : Option ℕ
  pub slots : ℕ
  pub sessions : Option (Assoc Session)

pub record Holder : Type 0 where
  pub session_id : String
  pub run_id : String
  pub local : Bool
  pub ended : Bool

-- A begin that finds no slot waits until there is one or the run's context ends.
pub data Begun : Type 0 where
  waits : Begun
  refused : Begun
  admitted : Holder → Begun

-- s.memorySlots <- struct{}{}, where the run needs a slot; none while it blocks.
unfoldable pub take_slot : Bool → Phases → Option Phases
take_slot local p = elim p.capacity [
  | none ↦ some p
  | some c ↦
      if not local
      then some p
      else if ltb p.slots c
      then some (record p { slots = p.slots + 1 })
      else none
]

-- <-s.memorySlots
unfoldable pub release_slot : Bool → Phases → Phases
release_slot local p = elim p.capacity [
  | none ↦ p
  | some c ↦ if local then record p { slots = p.slots - 1 } else p
]

-- beginEmbeddingPhase on the broker's session, for a run that has one.
unfoldable pub open_phase : String → String → ℕ → Phases → Option Phases
open_phase session_id run_id now p = if session_id == "" then some p else elim p.sessions [
  | none ↦ none
  | some sessions ↦ elim (lookup session_id sessions) [
    | none ↦ none
    | some s ↦ elim (begin_embedding_phase run_id now s) [
      | none ↦ none
      | some t ↦ some (record p { sessions = some (insert session_id t sessions) })
    ]
  ]
]

unfoldable pub close_phase : String → String → Phases → Phases
close_phase session_id run_id p = if session_id == "" then p else elim p.sessions [
  | none ↦ p
  | some sessions ↦ record p {
    sessions = some (modify session_id (end_embedding_phase run_id) sessions);
  }
]

unfoldable pub begin_memory_phase : String → String → Bool → ℕ → Phases → Phases × Begun
begin_memory_phase session_id run_id local now p = elim (take_slot local p) [
  | none ↦ (p, waits)
  | some q ↦ elim (open_phase session_id run_id now q) [
    | none ↦ (release_slot local q, refused)
    | some r ↦
        let holder : Holder = record {
          session_id = session_id;
          run_id = run_id;
          local = local;
          ended = false;
        } in
        (r, admitted holder)
  ]
]

-- The function that is returned; it may be called any number of times.
unfoldable pub end_memory_phase : Holder → Phases → Holder × Phases
end_memory_phase h p =
    if h.ended
    then (h, p)
    else (record h { ended = true }, release_slot h.local (close_phase h.session_id h.run_id p))

pub data Event : Type 0 where
  begins : String → String → Bool → ℕ → Event
  ends : ℕ → Event

abbrev pub end_at : ℕ → List Holder → Phases → List Holder × Phases
end_at i [] p = ([], p)
end_at zero (h ∷ hs) p = let (g, q) = end_memory_phase h p in (g ∷ hs, q)
end_at (suc i) (h ∷ hs) p = let (gs, q) = end_at i hs p in (h ∷ gs, q)

abbrev pub admit : List Holder → Phases × Begun → List Holder × Phases
admit hs (q, waits) = (hs, q)
admit hs (q, refused) = (hs, q)
admit hs (q, admitted h) = (h ∷ hs, q)

-- The holders of a server, the latest first, and its phases, after an event.
abbrev pub next : Event → List Holder × Phases → List Holder × Phases
next (begins session_id run_id local now) (hs, p) =
    admit hs (begin_memory_phase session_id run_id local now p)
next (ends i) (hs, p) = end_at i hs p

abbrev pub run_events : List Event → List Holder × Phases → List Holder × Phases
run_events [] w = w
run_events (e ∷ es) w = run_events es (next e w)
