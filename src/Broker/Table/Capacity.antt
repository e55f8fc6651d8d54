-- ===== src/Broker/Table/Capacity.antt =====
-- cmd/dittobench-api/inference_broker.go: the session map under every sequence of requests.
use dittobench_api.Base.{
  ℕ, ◌≤◌, String, Bool, true, false, Option, none, some, List, [], ◌∷◌, ◌≡◌, refl, ◌∙◌, subst,
  arith, inl, inr, nat_eq, string_eq, if◌then◌else◌, length, Option-cases,
}
use dittobench_api.Base.Assoc.{
  Assoc, lookup, insert, length-modify, length-delete-le, length-insert-le,
}
use dittobench_api.Broker.Session.{TicketIdentity, Session, Broker, Parsers}
use dittobench_api.Broker.Control.{
  Activation, activate_session, claim_run, bind_source, replace_bound_source, live_sessions,
  prune_expired,
}
use dittobench_api.Broker.Table.{
  Fresh, prepared, legacy_session, is_full, prepare, Relay, prepare_legacy, write_session, activate,
  claim, bind, replace, remove, remove_run, cancel,
}

-- A request to the broker, or a call of a worker.
pub data Request : Type 0 where
  prepares : Bool → Option Fresh → ℕ → Request
  prepares_legacy : String → ℕ → String → Relay → Option String → ℕ → Request
  activates : Bool → String → Option Activation → ℕ → ℕ → Request
  claims : String → String → TicketIdentity → ℕ → ℕ → Request
  binds : String → String → String → ℕ → Request
  replaces : String → String → String → String → ℕ → Request
  removes_run : String → String → Request
  removes : String → Request
  cancels : Bool → String → Request
  prunes : ℕ → Request

module _ (parsers : Parsers) (profile_ok gateway_ok : String → Bool) (width : ℕ) where
  unfoldable pub answer : Request → Broker → Broker
  unfolding prepare prepare_legacy activate claim bind replace remove remove_run cancel
      prune_expired
  answer (prepares authorized fresh now) b = (prepare authorized fresh now b).0
  answer (prepares_legacy run_id version gateway relay fresh now) b =
      (prepare_legacy parsers gateway_ok run_id version gateway relay fresh now b).0
  answer (activates authorized id body size now) b =
      (activate parsers authorized id body size now b).0
  answer (claims id run_id identity version now) b =
      (claim parsers profile_ok width id run_id identity version now b).0
  answer (binds id run_id ip now) b = (bind parsers id run_id ip now b).0
  answer (replaces id run_id old new now) b = (replace parsers id run_id old new now b).0
  answer (removes_run id run_id) b = (remove_run id run_id b).0
  answer (removes id) b = (remove id b).0
  answer (cancels authorized id) b = (cancel authorized id b).0
  answer (prunes now) b = prune_expired now b

  unfoldable pub answer_all : List Request → Broker → Broker
  answer_all [] b = b
  answer_all (r ∷ rs) b = answer_all rs (answer r b)

  length-live_sessions : (now : ℕ) (m : Assoc Session) → length (live_sessions now m) ≤ length m
  unfolding live_sessions
  length-live_sessions now [] = omega arith
  length-live_sessions now ((id, s) ∷ m) = ground (arith, length-live_sessions now m)

  -- The map keeps within its maximum, which is fixed.
  record Fits (b c : Broker) : Type 0 where
    same : c.max_sessions ≡ b.max_sessions
    fits : length b.sessions ≤ b.max_sessions → length c.sessions ≤ c.max_sessions

  kept-Fits : (b : Broker) → Fits b b
  kept-Fits b = record { same = refl; fits = λ h. h }

  Fits-trans : (b c d : Broker) → Fits b c → Fits c d → Fits b d
  Fits-trans b c d h k = record { same = k.same ∙ h.same; fits = λ l. k.fits (h.fits l) }

  prune-Fits : (now : ℕ) (b : Broker) → Fits b (prune_expired now b)
  unfolding prune_expired
  prune-Fits now b = record {
    same = refl;
    fits = λ h. omega (arith, h, length-live_sessions now b.sessions);
  }

  write-Fits : (id : String) (s : Session) (b : Broker) → Fits b (write_session id s b)
  write-Fits id s b = record {
    same = refl;
    fits = λ h. omega (arith, h, length-modify id (λ _. s) b.sessions);
  }

  remove-Fits : (id : String) (b : Broker) → Fits b (remove id b).0
  unfolding remove
  remove-Fits id b = record {
    same = refl;
    fits = λ h. omega (arith, h, length-delete-le id b.sessions);
  }

  insert-Fits :
      (id : String) (s : Session) (b : Broker)
      → is_full b ≡ false
      → Fits b (record b { sessions = insert id s b.sessions })
  insert-Fits id s b h = record {
    same = refl;
    fits = λ k. ground (arith, h, k, length-insert-le id s b.sessions);
  }

  branch-Fits :
      {R : Type 0} (c : Bool) (b : Broker) (x y : Broker × R)
      → (c ≡ true → Fits b x.0)
      → (c ≡ false → Fits b y.0)
      → Fits b (if c then x else y).0
  branch-Fits true b x y h k = h refl
  branch-Fits false b x y h k = k refl

  prepare-Fits :
      (authorized : Bool) (fresh : Option Fresh) (now : ℕ) (b : Broker)
      → Fits b (prepare authorized fresh now b).0
  unfolding prepare
  prepare-Fits false fresh now b = kept-Fits b
  prepare-Fits true none now b = prune-Fits now b
  prepare-Fits true (some f) now b =
      let p = prune_expired now b in
      branch-Fits (is_full p) b _ _ (λ _. prune-Fits now b)
        (λ room. Fits-trans b p _ (prune-Fits now b) (insert-Fits f.id (prepared f now) p room))

  prepare_legacy-Fits :
      (run_id : String) (version : ℕ) (gateway : String) (relay : Relay) (fresh : Option String)
      (now : ℕ) (b : Broker)
      → Fits b (prepare_legacy parsers gateway_ok run_id version gateway relay fresh now b).0
  unfolding prepare_legacy
  prepare_legacy-Fits run_id version gateway relay none now b = ground (arith, prune-Fits now b)
  prepare_legacy-Fits run_id version gateway relay (some id) now b =
      let p = prune_expired now b in
      let s = legacy_session id run_id version gateway relay now in
      ground (
        arith,
        prune-Fits now b,
        λ (room : is_full p ≡ false). Fits-trans b p _ (prune-Fits now b) (insert-Fits id s p room),
      )

  activate-Fits :
      (authorized : Bool) (id : String) (body : Option Activation) (size now : ℕ) (b : Broker)
      → Fits b (activate parsers authorized id body size now b).0
  unfolding activate
  activate-Fits authorized id body size now b = elim (Option-cases (lookup id b.sessions)) [
    | inl absent ↦ ground (arith, absent, kept-Fits b)
    | inr (s, found) ↦ elim (Option-cases body) [
      | inl broken ↦ ground (arith, found, broken, kept-Fits b)
      | inr (a, read) ↦ elim (Option-cases (activate_session parsers b a size now s)) [
        | inl refused ↦ ground (arith, found, read, refused, kept-Fits b)
        | inr (t, made) ↦ ground (arith, found, read, made, kept-Fits b, write-Fits id t b)
      ]
    ]
  ]

  claim-Fits :
      (id run_id : String) (identity : TicketIdentity) (version now : ℕ) (b : Broker)
      → Fits b (claim parsers profile_ok width id run_id identity version now b).0
  unfolding claim
  claim-Fits id run_id identity version now b = elim (Option-cases (lookup id b.sessions)) [
    | inl absent ↦ ground (arith, absent, kept-Fits b)
    | inr (s, found) ↦
        let t = (claim_run parsers profile_ok width run_id identity version now s).0 in
        ground (arith, found, write-Fits id t b)
  ]

  bind-Fits :
      (id run_id ip : String) (now : ℕ) (b : Broker) → Fits b (bind parsers id run_id ip now b).0
  unfolding bind
  bind-Fits id run_id ip now b = elim (Option-cases (lookup id b.sessions)) [
    | inl absent ↦ ground (arith, absent, kept-Fits b)
    | inr (s, found) ↦ elim (Option-cases (bind_source parsers run_id ip now s)) [
      | inl refused ↦ ground (arith, found, refused, kept-Fits b)
      | inr (t, made) ↦ ground (arith, found, made, write-Fits id t b)
    ]
  ]

  replace-Fits :
      (id run_id old new : String) (now : ℕ) (b : Broker)
      → Fits b (replace parsers id run_id old new now b).0
  unfolding replace
  replace-Fits id run_id old new now b = elim (Option-cases (lookup id b.sessions)) [
    | inl absent ↦ ground (arith, absent, kept-Fits b)
    | inr (s, found) ↦ elim (Option-cases (replace_bound_source parsers run_id old new now s)) [
      | inl refused ↦ ground (arith, found, refused, kept-Fits b)
      | inr (t, made) ↦ ground (arith, found, made, write-Fits id t b)
    ]
  ]

  remove_run-Fits : (id run_id : String) (b : Broker) → Fits b (remove_run id run_id b).0
  unfolding remove_run
  remove_run-Fits id run_id b = ground (arith, kept-Fits b, remove-Fits id b)

  cancel-Fits : (authorized : Bool) (id : String) (b : Broker) → Fits b (cancel authorized id b).0
  unfolding cancel
  cancel-Fits authorized id b = ground (arith, kept-Fits b, remove-Fits id b)

  answer-Fits : (r : Request) (b : Broker) → Fits b (answer r b)
  unfolding answer
  answer-Fits (prepares authorized fresh now) b = prepare-Fits authorized fresh now b
  answer-Fits (prepares_legacy run_id version gateway relay fresh now) b =
      prepare_legacy-Fits run_id version gateway relay fresh now b
  answer-Fits (activates authorized id body size now) b =
      activate-Fits authorized id body size now b
  answer-Fits (claims id run_id identity version now) b =
      claim-Fits id run_id identity version now b
  answer-Fits (binds id run_id ip now) b = bind-Fits id run_id ip now b
  answer-Fits (replaces id run_id old new now) b = replace-Fits id run_id old new now b
  answer-Fits (removes_run id run_id) b = remove_run-Fits id run_id b
  answer-Fits (removes id) b = remove-Fits id b
  answer-Fits (cancels authorized id) b = cancel-Fits authorized id b
  answer-Fits (prunes now) b = prune-Fits now b

  answer_all-Fits : (rs : List Request) (b : Broker) → Fits b (answer_all rs b)
  unfolding answer_all
  answer_all-Fits [] b = kept-Fits b
  answer_all-Fits (r ∷ rs) b =
      Fits-trans b (answer r b) _ (answer-Fits r b) (answer_all-Fits rs (answer r b))

  -- Whatever requests a broker with no sessions gets, in whatever order, it never holds more sessions
  -- than the maximum that it was made with.
  pub sessions_bounded :
      (rs : List Request) (b : Broker)
      → b.sessions ≡ []
      → length (answer_all rs b).sessions ≤ b.max_sessions
  sessions_bounded rs b empty =
      let f = answer_all-Fits rs b in
      subst (λ n. length (answer_all rs b).sessions ≤ n) f.same (f.fits (rw empty (omega arith)))
