-- ===== src/Broker/Table.antt =====
-- cmd/dittobench-api/inference_broker.go: the broker's session map and its handlers. A handler
-- answers with its HTTP status; `authorized` is the verdict of requireControl.
pub mod Capacity
pub mod Source
use dittobench_api.Base.{
  ℕ, ◌+◌, String, Bool, true, false, not, Option, none, some, List, [], ◌∷◌, ◌==◌, ltb, leb, ◌&&◌,
  ◌||◌, nat_eq, string_eq, if◌then◌else◌, length,
}
use dittobench_api.Base.Assoc.{Assoc, lookup, insert, delete, modify}
use dittobench_api.Broker.Session.{TicketIdentity, Session, Broker, Parsers, empty_session}
use dittobench_api.Broker.Control.{
  Activation, maximum_session_ttl, locked_harness_model, open_router_relay_profile,
  harness_model_for_version, is_set, activate_session, claim_run, bind_source, replace_bound_source,
  is_active, destroyed, prune_expired,
}

-- The random values of a new session: none is a failing generator.
pub record Fresh : Type 0 where
  pub id : String
  pub activation : String
  pub private : List ℕ
  pub public : List ℕ

abbrev pub prepared : Fresh → ℕ → Session
prepared f now = record empty_session {
  id = f.id;
  activation_secret = f.activation;
  private_key = f.private;
  public_key = f.public;
  prepared_at = now;
}

abbrev pub is_full : Broker → Bool
is_full b = leb b.max_sessions (length b.sessions)

unfoldable pub prepare : Bool → Option Fresh → ℕ → Broker → Broker × ℕ
prepare authorized fresh now b =
    let pruned = prune_expired now b in
    if authorized
    then elim fresh [
      | none ↦ (pruned, 500)
      | some f ↦
          if is_full pruned
          then (pruned, 429)
          else (record pruned { sessions = insert f.id (prepared f now) pruned.sessions }, 201)
    ]
    else (b, 401)

-- The identity that a reviewed compatibility relay reports.
pub record Relay : Type 0 where
  pub provider : String
  pub profile_revision : String
  pub model : String

unfoldable pub valid_legacy_relay_identity : Relay → Bool
valid_legacy_relay_identity relay =
    (relay.provider == "chutes"
      && relay.profile_revision == "chutes-qwen3-32b-tee-no-think-v1"
      && relay.model == "Qwen/Qwen3-32B-TEE")
    || (relay.provider == "openrouter"
        && relay.profile_revision == open_router_relay_profile
        && relay.model == locked_harness_model)

abbrev pub legacy_session : String → String → ℕ → String → Relay → ℕ → Session
legacy_session id run_id version gateway relay now = record empty_session {
  id = id;
  legacy_gateway = gateway;
  provider = relay.provider;
  profile_revision = relay.profile_revision;
  model = relay.model;
  request_model = harness_model_for_version version;
  expires_at = now + maximum_session_ttl;
  prepared_at = now;
  bound_run_id = run_id;
}

-- `gateway_ok` stands for relayURL(gateway, …) without an error.
unfoldable pub prepare_legacy :
    Parsers
    → (String → Bool)
    → String
    → ℕ
    → String
    → Relay
    → Option String
    → ℕ
    → Broker
    → Broker × Option String
unfolding valid_legacy_relay_identity
prepare_legacy parsers gateway_ok run_id version gateway relay fresh now b =
    let pruned = prune_expired now b in
    if not (parsers.is_uuid run_id)
      || ltb version 2
      || ltb 6 version
      || not (gateway_ok gateway)
      || not (valid_legacy_relay_identity relay)
    then (pruned, none)
    else elim fresh [
      | none ↦ (pruned, none)
      | some id ↦ if is_full pruned then (pruned, none) else (
        record pruned {
          sessions = insert id (legacy_session id run_id version gateway relay now) pruned.sessions;
        },
        some id,
      )
    ]

abbrev pub write_session : String → Session → Broker → Broker
write_session id s b = record b { sessions = modify id (λ _. s) b.sessions }

-- none as the activation is a body that does not decode.
unfoldable pub activate : Parsers → Bool → String → Option Activation → ℕ → ℕ → Broker → Broker × ℕ
activate parsers authorized id body bearer_size now b =
    if authorized
    then elim (lookup id b.sessions) [
      | none ↦ (b, 404)
      | some s ↦ elim body [
        | none ↦ (b, 400)
        | some a ↦ elim (activate_session parsers b a bearer_size now s) [
          | none ↦ (b, 401)
          | some t ↦ (write_session id t b, 200)
        ]
      ]
    ]
    else (b, 401)

unfoldable pub claim :
    Parsers
    → (String → Bool)
    → ℕ
    → String
    → String
    → TicketIdentity
    → ℕ
    → ℕ
    → Broker
    → Broker × Bool
claim parsers profile_ok width id run_id identity version now b = elim (lookup id b.sessions) [
  | none ↦ (b, false)
  | some s ↦
      let (t, ok) = claim_run parsers profile_ok width run_id identity version now s in
      (write_session id t b, ok)
]

unfoldable pub bind : Parsers → String → String → String → ℕ → Broker → Broker × Bool
bind parsers id run_id source_ip now b = elim (lookup id b.sessions) [
  | none ↦ (b, false)
  | some s ↦ elim (bind_source parsers run_id source_ip now s) [
    | none ↦ (b, false)
    | some t ↦ (write_session id t b, true)
  ]
]

unfoldable pub replace : Parsers → String → String → String → String → ℕ → Broker → Broker × Bool
replace parsers id run_id old_source_ip new_source_ip now b = elim (lookup id b.sessions) [
  | none ↦ (b, false)
  | some s ↦ elim (replace_bound_source parsers run_id old_source_ip new_source_ip now s) [
    | none ↦ (b, false)
    | some t ↦ (write_session id t b, true)
  ]
]

-- The map without the session, and the session as destroyBrokerSession leaves it.
unfoldable pub remove : String → Broker → Broker × Option Session
unfolding destroyed
remove id b = (
  record b { sessions = delete id b.sessions },
  elim (lookup id b.sessions) [ none ↦ none | some s ↦ some (destroyed s) ],
)

unfoldable pub remove_run : String → String → Broker → Broker × Bool
remove_run id run_id b = elim (lookup id b.sessions) [
  | none ↦ (b, false)
  | some s ↦
      if is_set s.bound_run_id && s.bound_run_id == run_id
      then ((remove id b).0, true)
      else (b, false)
]

unfoldable pub cancel : Bool → String → Broker → Broker × ℕ
cancel authorized id b = if authorized then ((remove id b).0, 204) else (b, 401)

-- The first session of the address, in the order of the map, which Go leaves open.
unfoldable pub find_source : String → ℕ → Assoc Session → Option Session
find_source ip now [] = none
find_source ip now ((id, s) ∷ rest) =
    if s.expected_source_ip == ip && is_active s now then some s else find_source ip now rest

unfoldable pub session_for_source : Parsers → String → ℕ → Broker → Option Session
unfolding find_source
session_for_source parsers ip now b =
    if parsers.is_ip ip then find_source ip now b.sessions else none
