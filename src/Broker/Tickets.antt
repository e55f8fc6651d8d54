-- ===== src/Broker/Tickets.antt =====
-- cmd/dittobench-api/inference_broker.go: what an activation and a claim establish together.
use dittobench_api.Base.{
  ℕ, ◌+◌, ◌≤◌, ◌<◌, String, Bool, true, false, some, [], ◌∷◌, inl, inr, Option-cases, ◌≡◌, refl,
  sym, ◌∙◌, ap, arith, nat_eq, string_eq, text_beq_iff,
}
use dittobench_api.Broker.Session.{TicketIdentity, Session, Broker, Parsers}
use dittobench_api.Base.Assoc.{Assoc, lookup, modify}
use dittobench_api.Broker.Table.{claim}
use dittobench_api.Broker.Control.{
  Activation, is_set, ticket_of, valid_route, valid_grant, maximum_session_ttl, v7_harness_model,
  accepts_activation, activated, activate_session, with_legacy_route, same_ticket,
  harness_model_for_version, claim_run,
}

modify-same :
    (id : String) (s : Session) (m : Assoc Session)
    → lookup id m ≡ some s
    → modify id (λ _. s) m ≡ m
unfolding lookup modify
modify-same id s [] h = cc
modify-same id s ((here, t) ∷ m) h = ground (arith, h, modify-same id s m)

module _ (parsers : Parsers) where
  activate_session-some :
      (b : Broker) (a : Activation) (size now : ℕ) (s : Session) {t : Session}
      → activate_session parsers b a size now s ≡ some t
      → (accepts_activation parsers b s a size now ≡ true) × (t ≡ activated b a s)
  unfolding activate_session
  activate_session-some b a size now s h = ground arith

  -- From version 7 on a claim that is refused leaves the session as it was.
  claim_run-refused :
      (profile_ok : String → Bool) (width : ℕ) (run_id : String) (identity : TicketIdentity)
      (version now : ℕ) (s : Session)
      → 7 ≤ version
      → (claim_run parsers profile_ok width run_id identity version now s).1 ≡ false
      → (claim_run parsers profile_ok width run_id identity version now s).0 ≡ s
  unfolding claim_run with_legacy_route
  claim_run-refused profile_ok width run_id identity version now s h k = ground (arith, h, k)

  -- So does a claim by the identifier of a session leave the broker.
  claim-refused :
      (profile_ok : String → Bool) (width : ℕ) (id run_id : String) (identity : TicketIdentity)
      (version now : ℕ) (b : Broker)
      → 7 ≤ version
      → (claim parsers profile_ok width id run_id identity version now b).1 ≡ false
      → (claim parsers profile_ok width id run_id identity version now b).0 ≡ b
  unfolding claim
  claim-refused profile_ok width id run_id identity version now b h k =
      elim (Option-cases (lookup id b.sessions)) [
        | inl missing ↦ rw (claim, missing) refl
        | inr (s, found) ↦
            let refused : (claim_run parsers profile_ok width run_id identity version now s).1
                ≡ false =
              rw (claim, found) at k in
            let kept = claim_run-refused profile_ok width run_id identity version now s h refused in
            rw (claim, found)
              (ap (λ t. record b { sessions = modify id (λ _. t) b.sessions }) kept
                ∙ ap (λ m. record b { sessions = m }) (modify-same id s b.sessions found))
      ]

  claim_run-true :
      (profile_ok : String → Bool) (width : ℕ) (run_id : String) (identity : TicketIdentity)
      (version now : ℕ) (s : Session)
      → 7 ≤ version
      → (claim_run parsers profile_ok width run_id identity version now s).1 ≡ true
      → (same_ticket identity s ≡ true)
        × (s.model ≡ v7_harness_model)
        × (profile_ok s.profile_revision ≡ true)
        × (now < s.expires_at)
        × (claim_run parsers profile_ok width run_id identity version now s ≡ (
          record s {
            request_model = s.model;
            bound_run_id = run_id;
            bench_version = version;
            lane = record s.lane { embedding_concurrency = width };
          },
          true,
        ))
  unfolding claim_run with_legacy_route harness_model_for_version
  claim_run-true profile_ok width run_id identity version now s h k =
      ground (arith, text_beq_iff s.model v7_harness_model)

  same_ticket_lem :
      (identity : TicketIdentity) (s : Session)
      → same_ticket identity s ≡ true
      → (identity.grant_id ≡ s.grant_id)
        × (identity.agent_id ≡ s.ticket_agent_id)
        × (identity.slot_id ≡ s.ticket_slot_id)
        × (identity.ticket_deadline ≡ s.ticket_deadline)
  unfolding same_ticket
  same_ticket_lem identity s h = ground (
    arith,
    text_beq_iff identity.grant_id s.grant_id,
    text_beq_iff identity.agent_id s.ticket_agent_id,
    text_beq_iff identity.slot_id s.ticket_slot_id,
  )

  accepted_grant :
      (b : Broker) (s : Session) (a : Activation) (size now : ℕ)
      → accepts_activation parsers b s a size now ≡ true
      → valid_grant parsers b a size now ≡ true
  unfolding accepts_activation
  accepted_grant b s a size now h = ground arith

  valid_route_lem :
      (a : Activation) (now : ℕ)
      → valid_route parsers a now ≡ true
      → is_set a.model ≡ true
      → a.expires_at ≤ a.ticket_deadline
  unfolding valid_route
  valid_route_lem a now h k = ground arith

  valid_grant_lem :
      (b : Broker) (a : Activation) (size now : ℕ)
      → valid_grant parsers b a size now ≡ true
      → (a.expires_at ≤ now + maximum_session_ttl) × (valid_route parsers a now ≡ true)
  unfolding valid_grant
  valid_grant_lem b a size now h = ground arith

  accepts_route :
      (b : Broker) (s : Session) (a : Activation) (size now : ℕ)
      → accepts_activation parsers b s a size now ≡ true
      → is_set a.model ≡ true
      → (a.expires_at ≤ a.ticket_deadline) × (a.expires_at ≤ now + maximum_session_ttl)
  accepts_route b s a size now h k =
      let (timely, route) = valid_grant_lem b a size now (accepted_grant b s a size now h) in
      (valid_route_lem a now route k, timely)

  -- A run that claims an activated session for version 7 or later holds the ticket of the activation:
  -- the same grant, agent, slot and deadline. Its session serves the version's locked model alone, is
  -- bound to the run, is unexpired, and ends no later than the ticket does and no later than two
  -- hours after the activation.
  pub claimed_ticket :
      (b : Broker) (a : Activation) (size now : ℕ) (s t : Session) (profile_ok : String → Bool)
      (width : ℕ) (run_id : String) (identity : TicketIdentity) (version later : ℕ)
      → activate_session parsers b a size now s ≡ some t
      → 7 ≤ version
      → (claim_run parsers profile_ok width run_id identity version later t).1 ≡ true
      → let r = (claim_run parsers profile_ok width run_id identity version later t).0 in
        (identity ≡ ticket_of a)
        × (r.model ≡ v7_harness_model)
        × (r.request_model ≡ v7_harness_model)
        × (r.bound_run_id ≡ run_id)
        × (later < r.expires_at)
        × (r.expires_at ≤ a.ticket_deadline)
        × (r.expires_at ≤ now + maximum_session_ttl)
  unfolding activated
  claimed_ticket b a size now s t profile_ok width run_id identity version later e h k =
      let (accepted, same) = activate_session-some b a size now s e in
      let (ticket, model, profile, live, result) =
        claim_run-true profile_ok width run_id identity version later t h k in
      let fields = same_ticket_lem identity t ticket in
      let served : t.model ≡ a.model = ap (λ u. u.model) same in
      let bounds = accepts_route b s a size now accepted (ap is_set (sym served ∙ model)) in
      (
        ground (arith, same),
        rw result model,
        rw result model,
        rw result refl,
        rw result live,
        rw (result, same) bounds.0,
        rw (result, same) bounds.1,
      )

  valid_grant_secret :
      (b : Broker) (a : Activation) (size now : ℕ) (secret : String)
      → valid_grant parsers b (record a { activation_secret = secret }) size now
        ≡ valid_grant parsers b a size now
  unfolding valid_grant valid_route
  valid_grant_secret b a size now secret = refl

  activated_secret :
      (b : Broker) (a : Activation) (u : Session) (secret : String)
      → activated b (record a { activation_secret = secret }) u ≡ activated b a u
  unfolding activated
  activated_secret b a u secret = refl

  -- The secret of a session is not used up. Whatever activation a session accepts, every session with
  -- an empty secret, as activate and prepareLegacy leave it, accepts with an empty secret: bearer,
  -- ticket and route are replaced, also after a run has claimed the session.
  pub empty_secret_accepted :
      (b : Broker) (a : Activation) (size now : ℕ) (s t u : Session)
      → activate_session parsers b a size now s ≡ some t
      → u.activation_secret ≡ ""
      → activate_session parsers b (record a { activation_secret = "" }) size now u
        ≡ some (activated b a u)
  unfolding activate_session accepts_activation
  empty_secret_accepted b a size now s t u h e = ground (
    arith,
    text_beq_iff "" u.activation_secret,
    valid_grant_secret b a size now "",
    activated_secret b a u "",
  )
