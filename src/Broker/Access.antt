-- ===== src/Broker/Access.antt =====
-- cmd/dittobench-api/inference_broker.go: who may use a session, over every sequence of control
-- operations.
use dittobench_api.Base.{
  ℕ, ◌≤◌, String, Bool, true, false, List, [], ◌∷◌, ◌≡◌, refl, ◌∙◌, ap, ◌⊎◌, inl, inr, arith, ◌||◌,
  nat_eq, string_eq, text_beq_iff,
}
use dittobench_api.Broker.Session.{Session, Parsers}
use dittobench_api.Broker.Control.{
  is_set, activated, activate_session, with_legacy_route, claim_run, bind_source,
  replace_bound_source, is_active, destroyed,
}
use dittobench_api.Broker.Lanes.{begin_embedding_phase, end_embedding_phase}
use dittobench_api.Broker.Table.{Fresh, prepared}
use dittobench_api.Broker.Lifecycle.{
  Op, activates, claims, binds, replaces, begins, ends, destroys, apply, after, successes, is_claim,
  is_begin, is_activation, is_bind,
}

module _ (parsers : Parsers) (profile_ok : String → Bool) (width : ℕ) where
  abbrev next : Op → Session → Session × Bool
  next = apply parsers profile_ok width

  -- A flag that an operation of a kind needs down and raises, and that nothing lowers.
  record Latch (flag : Session → Bool) (kind : Op → Bool) : Type 0 where
    stays : (op : Op) (s : Session) → flag s ≡ true → flag (next op s).0 ≡ true
    falls : (op : Op) (s : Session) → kind op ≡ true → (next op s).1 ≡ true → flag s ≡ false
    rises :
        (op : Op) (s : Session) → kind op ≡ true → (next op s).1 ≡ true → flag (next op s).0 ≡ true

  module _ (flag : Session → Bool) (kind : Op → Bool) (latch : Latch flag kind) where
    no_more :
        (s : Session) (ops : List Op)
        → flag s ≡ true
        → successes parsers profile_ok width kind s ops ≡ 0
    unfolding successes
    no_more s [] h = refl
    no_more s (op ∷ ops) h =
        ground (arith, latch.falls op s, no_more (next op s).0 ops (latch.stays op s h))

    at_most_once : (s : Session) (ops : List Op) → successes parsers profile_ok width kind s ops ≤ 1
    unfolding successes
    at_most_once s [] = omega arith
    at_most_once s (op ∷ ops) =
        ground (arith, latch.rises op s, no_more (next op s).0 ops, at_most_once (next op s).0 ops)

  -- What only a success of a kind can bring about.
  needs :
      (goal : Session → Bool) (kind : Op → Bool)
      → ((op : Op) (s : Session)
          → goal s ≡ false
          → (goal (next op s).0 ≡ false) ⊎ ((kind op ≡ true) × ((next op s).1 ≡ true)))
      → (s : Session) (ops : List Op) → goal s ≡ false
      → goal (after parsers profile_ok width s ops) ≡ true
      → 1 ≤ successes parsers profile_ok width kind s ops
  unfolding after successes
  needs goal kind only s [] h g = cc
  needs goal kind only s (op ∷ ops) h g = elim (only op s h) [
    | inl still ↦ ground (arith, needs goal kind only (next op s).0 ops still g)
    | inr (right, ok) ↦ ground arith
  ]

  phase_stays :
      (op : Op) (s : Session)
      → s.lane.phase_started ≡ true
      → (next op s).0.lane.phase_started ≡ true
  unfolding apply activate_session activated claim_run with_legacy_route bind_source
      replace_bound_source begin_embedding_phase end_embedding_phase destroyed
  phase_stays (activates b a size now) s h = ground arith
  phase_stays (claims run_id identity version now) s h = ground arith
  phase_stays (binds run_id ip now) s h = ground arith
  phase_stays (replaces run_id old new now) s h = ground arith
  phase_stays (begins run_id now) s h = ground arith
  phase_stays (ends run_id) s h = ground arith
  phase_stays destroys s h = ground arith

  begin_effect :
      (op : Op) (s : Session)
      → is_begin op ≡ true
      → (next op s).1 ≡ true
      → (s.lane.phase_started ≡ false) × ((next op s).0.lane.phase_started ≡ true)
  unfolding apply begin_embedding_phase
  begin_effect (activates b a size now) s h k = cc
  begin_effect (claims run_id identity version now) s h k = cc
  begin_effect (binds run_id ip now) s h k = cc
  begin_effect (replaces run_id old new now) s h k = cc
  begin_effect (begins run_id now) s h k = ground arith
  begin_effect (ends run_id) s h k = cc
  begin_effect destroys s h k = cc

  phase-Latch : Latch (λ s. s.lane.phase_started) is_begin
  phase-Latch = record {
    stays = phase_stays;
    falls = λ op s h k. (begin_effect op s h k).0;
    rises = λ op s h k. (begin_effect op s h k).1;
  }

  -- A session opens its embedding phase at most once, whatever control operations it sees: ending it
  -- is final.
  begin_at_most_once :
      (s : Session) (ops : List Op) → successes parsers profile_ok width is_begin s ops ≤ 1
  begin_at_most_once = at_most_once (λ s. s.lane.phase_started) is_begin phase-Latch

  bound_stays :
      (op : Op) (s : Session)
      → is_set s.bound_run_id ≡ true
      → (next op s).0.bound_run_id ≡ s.bound_run_id
  unfolding apply activate_session activated claim_run with_legacy_route bind_source
      replace_bound_source begin_embedding_phase end_embedding_phase destroyed
  bound_stays (activates b a size now) s h = ground arith
  bound_stays (claims run_id identity version now) s h = ground arith
  bound_stays (binds run_id ip now) s h = ground arith
  bound_stays (replaces run_id old new now) s h = ground arith
  bound_stays (begins run_id now) s h = ground arith
  bound_stays (ends run_id) s h = ground arith
  bound_stays destroys s h = ground arith

  claim_effect :
      parsers.is_uuid "" ≡ false
      → (op : Op) (s : Session) → is_claim op ≡ true
      → (next op s).1 ≡ true
      → (is_set s.bound_run_id ≡ false) × (is_set (next op s).0.bound_run_id ≡ true)
  unfolding apply claim_run
  claim_effect e (activates b a size now) s h k = cc
  claim_effect e (claims run_id identity version now) s h k = ground (arith, text_beq_iff run_id "")
  claim_effect e (binds run_id ip now) s h k = cc
  claim_effect e (replaces run_id old new now) s h k = cc
  claim_effect e (begins run_id now) s h k = cc
  claim_effect e (ends run_id) s h k = cc
  claim_effect e destroys s h k = cc

  claim-Latch : parsers.is_uuid "" ≡ false → Latch (λ s. is_set s.bound_run_id) is_claim
  claim-Latch e = record {
    stays = λ op s h. ap is_set (bound_stays op s h) ∙ h;
    falls = λ op s h k. (claim_effect e op s h k).0;
    rises = λ op s h k. (claim_effect e op s h k).1;
  }

  -- Where the empty text is no UUID: at most one claim of a session succeeds, whatever control
  -- operations it sees.
  claim_at_most_once :
      parsers.is_uuid "" ≡ false
      → (s : Session) (ops : List Op) → successes parsers profile_ok width is_claim s ops ≤ 1
  claim_at_most_once e = at_most_once (λ s. is_set s.bound_run_id) is_claim (claim-Latch e)

  -- Once a session is bound to a run, no sequence of control operations binds it to another.
  bound_run_fixed :
      (s : Session) (ops : List Op)
      → is_set s.bound_run_id ≡ true
      → (after parsers profile_ok width s ops).bound_run_id ≡ s.bound_run_id
  unfolding after
  bound_run_fixed s [] h = refl
  bound_run_fixed s (op ∷ ops) h =
      let same = bound_stays op s h in bound_run_fixed (next op s).0 ops (ap is_set same ∙ h) ∙ same

  credential : Session → Bool
  credential s = is_set s.bearer || is_set s.legacy_gateway

  credential_only :
      (op : Op) (s : Session)
      → credential s ≡ false
      → (credential (next op s).0 ≡ false) ⊎ ((is_activation op ≡ true) × ((next op s).1 ≡ true))
  unfolding credential apply activate_session activated claim_run with_legacy_route bind_source
      replace_bound_source begin_embedding_phase end_embedding_phase destroyed
  credential_only (activates b a size now) s h = ground arith
  credential_only (claims run_id identity version now) s h = ground arith
  credential_only (binds run_id ip now) s h = ground arith
  credential_only (replaces run_id old new now) s h = ground arith
  credential_only (begins run_id now) s h = ground arith
  credential_only (ends run_id) s h = ground arith
  credential_only destroys s h = ground arith

  bound_only :
      (op : Op) (s : Session)
      → is_set s.bound_run_id ≡ false
      → (is_set (next op s).0.bound_run_id ≡ false)
        ⊎ ((is_claim op ≡ true) × ((next op s).1 ≡ true))
  unfolding apply activate_session activated claim_run with_legacy_route bind_source
      replace_bound_source begin_embedding_phase end_embedding_phase destroyed
  bound_only (activates b a size now) s h = ground arith
  bound_only (claims run_id identity version now) s h = ground arith
  bound_only (binds run_id ip now) s h = ground arith
  bound_only (replaces run_id old new now) s h = ground arith
  bound_only (begins run_id now) s h = ground arith
  bound_only (ends run_id) s h = ground arith
  bound_only destroys s h = ground arith

  -- An address is first set by a bind: a replacement needs the address that it replaces, and the
  -- empty text is no address.
  source_only :
      parsers.is_ip "" ≡ false
      → (op : Op) (s : Session) → is_set s.expected_source_ip ≡ false
      → (is_set (next op s).0.expected_source_ip ≡ false)
        ⊎ ((is_bind op ≡ true) × ((next op s).1 ≡ true))
  unfolding apply activate_session activated claim_run with_legacy_route bind_source
      replace_bound_source begin_embedding_phase end_embedding_phase destroyed
  source_only e (activates b a size now) s h = ground arith
  source_only e (claims run_id identity version now) s h = ground arith
  source_only e (binds run_id ip now) s h = ground arith
  source_only e (replaces run_id old new now) s h =
      ground (arith, text_beq_iff s.expected_source_ip "", text_beq_iff s.expected_source_ip old)
  source_only e (begins run_id now) s h = ground arith
  source_only e (ends run_id) s h = ground arith
  source_only e destroys s h = ground arith

  -- A prepared session serves no harness before an activation, a claim by a run and a
  -- bind to an address have each succeeded, in whatever order and with whatever failures between
  -- them. The empty text must not be an address.
  pub is_active_needs :
      parsers.is_ip "" ≡ false
      → (f : Fresh) (ops : List Op) (prepared_at now : ℕ)
      → is_active (after parsers profile_ok width (prepared f prepared_at) ops) now ≡ true
      → (1 ≤ successes parsers profile_ok width is_activation (prepared f prepared_at) ops)
        × (1 ≤ successes parsers profile_ok width is_claim (prepared f prepared_at) ops)
        × (1 ≤ successes parsers profile_ok width is_bind (prepared f prepared_at) ops)
  unfolding is_active credential
  is_active_needs e f ops start now h =
      let s = prepared f start in
      (
        needs credential is_activation credential_only s ops refl (ground arith),
        needs (λ s. is_set s.bound_run_id) is_claim bound_only s ops refl (ground arith),
        needs (λ s. is_set s.expected_source_ip) is_bind (source_only e) s ops refl (ground arith),
      )
