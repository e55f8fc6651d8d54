-- ===== src/ControlAuth.antt =====
-- cmd/dittobench-api/control_auth.go: who may call the control plane. A text is the list of its code
-- points. The environment and the pattern that the mux finds for a request are arguments.
pub mod Gate
mod Examples
use dittobench_api.Base.{
  ℕ, String, Bool, true, false, Option, none, some, List, [], ◌∷◌, map, if◌then◌else◌, ◌==◌,
  string_eq,
}
use dittobench_api.Base.Text.{bytes_of, cut_prefix, trim_space, same_text, lower}

pub data ControlAuthMode : Type 0 where
  shadow enforce : ControlAuthMode

pub record ControlAuth : Type 0 where
  pub mode : ControlAuthMode
  pub token : List ℕ

abbrev pub insecure_default_control_token : List ℕ
insecure_default_control_token = bytes_of "ditto-sn118-stack-broker-control"

-- strings.EqualFold with the ASCII text "enforce", whose letters fold with ASCII letters alone.
unfoldable pub control_auth_mode_from_env : List ℕ → ControlAuthMode
control_auth_mode_from_env value =
    if same_text (map lower (trim_space value)) (bytes_of "enforce") then enforce else shadow

-- The arguments are DITTOBENCH_CONTROL_TOKEN and DITTOBENCH_BROKER_CONTROL_TOKEN.
unfoldable pub control_token_from_env : List ℕ → List ℕ → List ℕ
control_token_from_env control broker =
    let own = trim_space control in
    let token = if same_text own [] then trim_space broker else own in
    if same_text token insecure_default_control_token then [] else token

unfoldable pub new_control_auth : List ℕ → List ℕ → List ℕ → ControlAuth
unfolding control_auth_mode_from_env control_token_from_env
new_control_auth mode control broker = record {
  mode = control_auth_mode_from_env mode;
  token = control_token_from_env control broker;
}

-- controlAuthVerdict, with its reason.
pub data ControlAuthVerdict : Type 0 where
  ok unconfigured absent not_bearer empty_bearer unrecognized : ControlAuthVerdict

abbrev pub is_ok : ControlAuthVerdict → Bool
is_ok ok = true
is_ok _ = false

abbrev pub bearer_scheme : List ℕ
bearer_scheme = bytes_of "Bearer "

unfoldable pub verify_control_credential : List ℕ → List ℕ → ControlAuthVerdict
verify_control_credential token authorization =
    let header = trim_space authorization in
    if same_text token []
    then unconfigured
    else if same_text header []
    then absent
    else elim (cut_prefix header bearer_scheme) [
      | none ↦ not_bearer
      | some rest ↦
          if same_text (trim_space rest) []
          then empty_bearer
          else if same_text (trim_space rest) token
          then ok
          else unrecognized
    ]

-- A request: the pattern of its route, empty without one, and its Authorization header.
pub record Request : Type 0 where
  pub pattern : String
  pub authorization : List ℕ

unfoldable pub route_is_public : Request → Bool
route_is_public r = r.pattern == "GET /health"

pub data Answer : Type 0 where
  served rejected : Answer

unfoldable pub wrap : ControlAuth → Request → Answer
unfolding route_is_public
wrap a r =
    if route_is_public r
    then served
    else if is_ok (verify_control_credential a.token r.authorization)
    then served
    else elim a.mode [ shadow ↦ served | enforce ↦ rejected ]

-- logStartup: whether the server starts.
unfoldable pub starts : ControlAuth → Bool
starts a = elim a.mode [ shadow ↦ true | enforce ↦ if same_text a.token [] then false else true ]
