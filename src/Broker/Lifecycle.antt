-- ===== src/Broker/Lifecycle.antt =====
-- cmd/dittobench-api/inference_broker.go: a session from its preparation on, under any sequence of
-- control operations.
use dittobench_api.Base.{
  ℕ, String, Bool, true, false, Option, none, some, List, [], ◌∷◌, suc, if◌then◌else◌,
}
use dittobench_api.Broker.Session.{TicketIdentity, Session, Broker, Parsers}
use dittobench_api.Broker.Control.{
  Activation, activate_session, claim_run, bind_source, replace_bound_source, destroyed,
}
use dittobench_api.Broker.Lanes.{begin_embedding_phase, end_embedding_phase}

-- A control operation on one session, with the instant at which it runs.
pub data Op : Type 0 where
  activates : Broker → Activation → ℕ → ℕ → Op
  claims : String → TicketIdentity → ℕ → ℕ → Op
  binds : String → String → ℕ → Op
  replaces : String → String → String → ℕ → Op
  begins : String → ℕ → Op
  ends : String → Op
  destroys : Op

-- The new session and whether the operation succeeded, from an operation that may refuse.
abbrev pub settle : Session → Option Session → Session × Bool
settle s none = (s, false)
settle s (some t) = (t, true)

module _ (parsers : Parsers) (profile_ok : String → Bool) (width : ℕ) where
  unfoldable pub apply : Op → Session → Session × Bool
  apply (activates b a size now) s = settle s (activate_session parsers b a size now s)
  apply (claims run_id identity version now) s =
      claim_run parsers profile_ok width run_id identity version now s
  apply (binds run_id ip now) s = settle s (bind_source parsers run_id ip now s)
  apply (replaces run_id old new now) s =
      settle s (replace_bound_source parsers run_id old new now s)
  apply (begins run_id now) s = settle s (begin_embedding_phase run_id now s)
  apply (ends run_id) s = (end_embedding_phase run_id s, true)
  apply destroys s = (destroyed s, true)

  unfoldable pub after : Session → List Op → Session
  after s [] = s
  after s (op ∷ ops) = after (apply op s).0 ops

  -- How many operations of a kind succeed.
  unfoldable pub successes : (Op → Bool) → Session → List Op → ℕ
  successes kind s [] = 0
  successes kind s (op ∷ ops) =
      let rest = successes kind (apply op s).0 ops in
      if kind op then (if (apply op s).1 then suc rest else rest) else rest

abbrev pub is_claim : Op → Bool
is_claim (claims run_id identity version now) = true
is_claim _ = false

abbrev pub is_begin : Op → Bool
is_begin (begins run_id now) = true
is_begin _ = false

abbrev pub is_activation : Op → Bool
is_activation (activates b a size now) = true
is_activation _ = false

abbrev pub is_bind : Op → Bool
is_bind (binds run_id ip now) = true
is_bind _ = false
