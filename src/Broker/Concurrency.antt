-- ===== src/Broker/Concurrency.antt =====
-- cmd/dittobench-api/inference_broker.go: the embedding lane and the chat slots under every
-- interleaving of control operations and harness calls. A step is one critical section.
use dittobench_api.Base.{
  ℕ, ◌+◌, ◌≤◌, String, Bool, true, false, List, [], ◌∷◌, ◌≡◌, refl, arith, nat_eq, string_eq,
  nat_beq_iff, text_beq_iff, length,
}
use dittobench_api.Broker.Session.{Lane, Session, Parsers}
use dittobench_api.Broker.Control.{
  is_set, activated, activate_session, with_legacy_route, claim_run, bind_source,
  replace_bound_source, destroyed, is_active,
}
use dittobench_api.Broker.Lanes.{
  per_source_concurrency, session_requests, session_inputs, session_input_bytes, contains, without,
  lane_width, begin_embedding_phase, end_embedding_phase, Admission, conflict, granted,
  admit_embedding, charge_embedding, release_embedding, admit_chat, release_chat,
}
use dittobench_api.Broker.Table.{Fresh, prepared}
use dittobench_api.Broker.Lifecycle.{
  Op, activates, claims, binds, replaces, begins, ends, destroys, apply,
}

abbrev pub Distinct : List ℕ → Type 0
Distinct [] = Unit {0}
Distinct (c ∷ cs) = (contains c cs ≡ false) × Distinct cs

without_absent : (c : ℕ) (cs : List ℕ) → contains c cs ≡ false → without c cs ≡ cs
without_absent c [] h = refl
without_absent c (d ∷ cs) h = ground (arith, without_absent c cs)

contains-without :
    (c d : ℕ) (cs : List ℕ) → contains c cs ≡ false → contains c (without d cs) ≡ false
contains-without c d [] h = refl
contains-without c d (e ∷ cs) h = ground (arith, contains-without c d cs)

without-Distinct : (c : ℕ) (cs : List ℕ) → Distinct cs → Distinct (without c cs)
without-Distinct c [] h = tt
without-Distinct c (d ∷ cs) h = ground (arith, without-Distinct c cs h.1, contains-without d c cs)

length-without :
    (c : ℕ) (cs : List ℕ)
    → Distinct cs
    → contains c cs ≡ true
    → length (without c cs) + 1 ≡ length cs
length-without c [] d h = cc
length-without c (e ∷ cs) d h =
    ground (arith, without_absent c cs, nat_beq_iff c e, length-without c cs d.1)

-- What holds of a session between two critical sections.
pub record LaneInv (s : Session) : Type 0 where
  pub tracked : s.lane.embedding_in_flight ≡ length s.lane.embedding_calls
  pub distinct : Distinct s.lane.embedding_calls
  pub bounded : s.lane.embedding_in_flight ≤ lane_width s.lane
  pub idle : s.lane.phase_started ≡ false → s.lane.embedding_in_flight ≡ 0
  pub opened : s.lane.phase_active ≡ true → s.lane.phase_started ≡ true
  pub owned : s.lane.phase_started ≡ true → is_set s.bound_run_id ≡ true
  pub requests_capped : s.lane.embedding_requests ≤ session_requests
  pub inputs_capped : s.lane.embedding_inputs ≤ session_inputs
  pub bytes_capped : s.lane.embedding_input_bytes ≤ session_input_bytes

abbrev pub on_lane : Lane → Session → Session
on_lane lane s = record s { lane = lane }

module _ (parsers : Parsers) (profile_ok : String → Bool) (width : ℕ) where
  -- One critical section of a control operation or of an embedding call; a new call's channel is new.
  pub data Step (s : Session) : Session → Type 0 where
    control : (op : Op) → Step s (apply parsers profile_ok width op s).0
    admit :
        (call : ℕ)
        → contains call s.lane.embedding_calls ≡ false
        → Step s (on_lane (admit_embedding call s.lane).0 s)
    charge : (inputs bytes : ℕ) → Step s (on_lane (charge_embedding inputs bytes s.lane).0 s)
    release : (call : ℕ) → Step s (on_lane (release_embedding call s.lane) s)

  pub data Reach (s : Session) : Session → Type 0 where
    here : Reach s s
    next : {t u : Session} → Reach s t → Step t u → Reach s u

  control-LaneInv :
      (op : Op) (s : Session) → LaneInv s → LaneInv (apply parsers profile_ok width op s).0
  unfolding apply activate_session activated claim_run with_legacy_route bind_source
      replace_bound_source begin_embedding_phase end_embedding_phase destroyed lane_width is_active
  control-LaneInv (activates b a size now) s v = ground arith
  control-LaneInv (claims run_id identity version now) s v = ground arith
  control-LaneInv (binds run_id ip now) s v = ground arith
  control-LaneInv (replaces run_id old new now) s v = ground arith
  control-LaneInv (begins run_id now) s v = ground arith
  control-LaneInv (ends run_id) s v = ground arith
  control-LaneInv destroys s v = ground arith

  step-LaneInv : {s t : Session} → Step s t → LaneInv s → LaneInv t
  unfolding admit_embedding charge_embedding release_embedding lane_width
  step-LaneInv {s} (control op) v = control-LaneInv op s v
  step-LaneInv {s} (admit call fresh) v = ground arith
  step-LaneInv {s} (charge inputs bytes) v = ground arith
  step-LaneInv {s} (release call) v = ground (
    arith,
    without-Distinct call s.lane.embedding_calls v.distinct,
    length-without call s.lane.embedding_calls v.distinct,
  )

  reach-LaneInv : {s t : Session} → LaneInv s → Reach s t → LaneInv t
  reach-LaneInv v here = v
  reach-LaneInv v (next r step) = step-LaneInv step (reach-LaneInv v r)

  prepared-LaneInv : (f : Fresh) (now : ℕ) → LaneInv (prepared f now)
  unfolding lane_width
  prepared-LaneInv f now = ground arith

  -- However the harness's embedding calls and the control operations on a prepared session
  -- interleave: the lane counts exactly the calls that it tracks, never more than its width, none
  -- before its phase was opened and its session bound to a run, and the three budgets of the session
  -- are never overdrawn.
  pub lane_safe : (f : Fresh) (now : ℕ) {t : Session} → Reach (prepared f now) t → LaneInv t
  lane_safe f now = reach-LaneInv (prepared-LaneInv f now)

  -- A phase that has ended.
  abbrev pub IsClosed : Session → Type 0
  IsClosed s = (s.lane.phase_started ≡ true) × (s.lane.phase_active ≡ false)

  control-IsClosed :
      (op : Op) (s : Session) → IsClosed s → IsClosed (apply parsers profile_ok width op s).0
  unfolding apply activate_session activated claim_run with_legacy_route bind_source
      replace_bound_source begin_embedding_phase end_embedding_phase destroyed
  control-IsClosed (activates b a size now) s v = ground arith
  control-IsClosed (claims run_id identity version now) s v = ground arith
  control-IsClosed (binds run_id ip now) s v = ground arith
  control-IsClosed (replaces run_id old new now) s v = ground arith
  control-IsClosed (begins run_id now) s v = ground arith
  control-IsClosed (ends run_id) s v = ground arith
  control-IsClosed destroys s v = ground arith

  step-IsClosed : {s t : Session} → Step s t → IsClosed s → IsClosed t
  unfolding admit_embedding charge_embedding release_embedding
  step-IsClosed {s} (control op) v = control-IsClosed op s v
  step-IsClosed {s} (admit call fresh) v = ground arith
  step-IsClosed {s} (charge inputs bytes) v = ground arith
  step-IsClosed {s} (release call) v = ground arith

  reach-IsClosed : {s t : Session} → IsClosed s → Reach s t → IsClosed t
  reach-IsClosed v here = v
  reach-IsClosed v (next r step) = step-IsClosed step (reach-IsClosed v r)

  -- Once the owner of a session has ended its embedding phase, every later embedding call is refused
  -- as out of phase, and so is every call that was admitted before and has not been charged yet,
  -- whatever happens to the session in between.
  end_is_final :
      (run_id : String) (s : Session) {t : Session} (call inputs bytes : ℕ)
      → s.bound_run_id ≡ run_id
      → s.lane.phase_started ≡ true
      → Reach (end_embedding_phase run_id s) t
      → (admit_embedding call t.lane ≡ (t.lane, conflict))
        × (charge_embedding inputs bytes t.lane ≡ (t.lane, conflict))
  unfolding end_embedding_phase admit_embedding charge_embedding
  end_is_final run_id s {t} call inputs bytes owner started r =
      let closed = reach-IsClosed (ground (arith, text_beq_iff s.bound_run_id run_id)) r in
      (ground arith, ground arith)

-- The chat calls of a session that are being served, beside its count of them.
pub record Chats : Type 0 where
  pub session : Session
  pub running : List ℕ

abbrev pub served : Session × Admission → ℕ → List ℕ → List ℕ
served (s, granted) call running = call ∷ running
served (s, _) call running = running

pub data ChatStep (w : Chats) : Chats → Type 0 where
  arrive :
      (call : ℕ)
      → contains call w.running ≡ false
      → ChatStep w (record {
        session = (admit_chat w.session).0;
        running = served (admit_chat w.session) call w.running;
      })
  leave :
      (call : ℕ)
      → contains call w.running ≡ true
      → ChatStep w (record { session = release_chat w.session; running = without call w.running })

pub data ChatReach (w : Chats) : Chats → Type 0 where
  start : ChatReach w w
  then_ : {u v : Chats} → ChatReach w u → ChatStep u v → ChatReach w v

pub record ChatInv (w : Chats) : Type 0 where
  pub counted : w.session.in_flight ≡ length w.running
  pub distinct_calls : Distinct w.running
  pub capped : w.session.in_flight ≤ per_source_concurrency

ChatStep-ChatInv : {w u : Chats} → ChatStep w u → ChatInv w → ChatInv u
unfolding admit_chat release_chat
ChatStep-ChatInv {w} (arrive call fresh) v = ground arith
ChatStep-ChatInv {w} (leave call held) v = ground (
  arith,
  without-Distinct call w.running v.distinct_calls,
  length-without call w.running v.distinct_calls,
)

ChatReach-ChatInv : {w u : Chats} → ChatInv w → ChatReach w u → ChatInv u
ChatReach-ChatInv v start = v
ChatReach-ChatInv v (then_ r step) = ChatStep-ChatInv step (ChatReach-ChatInv v r)

-- In every interleaving of arriving and finishing chat calls on a session that serves none at first,
-- the session counts exactly the calls being served, and never more than four: a refused call takes
-- no slot, and each served one gives its slot back once.
pub chats_safe :
    (s : Session) {u : Chats}
    → s.in_flight ≡ 0
    → ChatReach (record { session = s; running = [] }) u
    → ChatInv u
chats_safe s none_yet = ChatReach-ChatInv (ground arith)
