-- ===== src/EgressProxy.antt =====
-- cmd/egress-proxy/main.go: the allowlist, and what the handler does with a request up to the tunnel.
-- net.SplitHostPort, the dial and the hijack are arguments; texts are ASCII.
pub mod Allowed
mod Examples
use dittobench_api.Base.{
  ℕ, Bool, true, false, not, Option, none, some, List, [], ◌∷◌, ◌++◌, map, ◌==◌, ◌||◌, nat_eq,
  if◌then◌else◌, any,
}
use mathlib.Core.List.{reverse}
use dittobench_api.Base.Text.{cut_prefix, trim_space, same_text, lower}

abbrev pub Text : Type 0
Text = List ℕ

-- strings.Split(s, ",")
unfoldable pub split_commas : Text → List Text
split_commas [] = [] ∷ []
split_commas (c ∷ s) = elim (split_commas s) [
  | [] ↦ (c ∷ []) ∷ []
  | part ∷ parts ↦ if c == b',' then [] ∷ part ∷ parts else (c ∷ part) ∷ parts
]

-- The loop of parseList.
unfoldable pub list_parts : List Text → List Text
list_parts [] = []
list_parts (part ∷ parts) =
    let rest = list_parts parts in
    let v = map lower (trim_space part) in if same_text v [] then rest else v ∷ rest

unfoldable pub parse_list : Text → List Text
unfolding split_commas list_parts
parse_list s = list_parts (split_commas s)

-- The keys of the map that parsePorts makes; each has the value true.
unfoldable pub port_parts : List Text → List Text
port_parts [] = []
port_parts (part ∷ parts) =
    let rest = port_parts parts in
    let v = trim_space part in if same_text v [] then rest else v ∷ rest

unfoldable pub parse_ports : Text → List Text
unfolding split_commas port_parts
parse_ports s = port_parts (split_commas s)

-- strings.HasSuffix(s, t)
unfoldable pub has_suffix : Text → Text → Bool
has_suffix s t = elim (cut_prefix (reverse s) (reverse t)) [ none ↦ false | some r ↦ true ]

-- strings.TrimSuffix(s, ".")
unfoldable pub trim_dot : Text → Text
trim_dot s = elim (reverse s) [ [] ↦ s | c ∷ r ↦ if c == b'.' then reverse r else s ]

unfoldable pub normal_host : Text → Text
unfolding trim_dot
normal_host host = map lower (trim_dot (trim_space host))

unfoldable pub matches_entry : Text → Text → Bool
unfolding has_suffix
matches_entry h a = same_text h a || has_suffix h (b'.' ∷ a)

unfoldable pub host_allowed : Text → List Text → Bool
unfolding normal_host matches_entry
host_allowed host allow = any (matches_entry (normal_host host)) allow

pub record Proxy : Type 0 where
  pub allow : List Text
  pub ports : List Text

-- Request.Host is the target of a CONNECT request.
pub record Request : Type 0 where
  pub is_connect : Bool
  pub target : Text

-- What the handler calls: net.SplitHostPort, net.DialTimeout, whether the connection can be taken
-- over, and whether the success line is written to it.
pub record Net : Type 0 where
  pub split_host_port : Text → Option (Text × Text)
  pub dial : Text → Text → Bool
  pub hijack : Bool
  pub write_established : Bool

-- The address that was dialled, if any; and the error status, or the tunnel (or its absence after a
-- client that went away).
pub data Answer : Type 0 where
  error : ℕ → Answer
  gone : Answer
  tunnel : Answer

pub record Served : Type 0 where
  pub dialled : Option (Text × Text)
  pub answer : Answer

-- After the dial.
unfoldable pub splice : Net → Text → Text → Served
splice net host port =
    let target : Option (Text × Text) = some (host, port) in
    if not (net.dial host port)
    then record { dialled = target; answer = error 502 }
    else if not net.hijack
    then record { dialled = target; answer = error 500 }
    else if not net.write_established
    then record { dialled = target; answer = gone }
    else record { dialled = target; answer = tunnel }

unfoldable pub serve : Net → Proxy → Request → Served
unfolding splice host_allowed
serve net p r =
    if not r.is_connect
    then record { dialled = none; answer = error 405 }
    else elim (net.split_host_port r.target) [
      | none ↦ record { dialled = none; answer = error 400 }
      | some (host, port) ↦
          if not (any (same_text port) p.ports) || not (host_allowed host p.allow)
          then record { dialled = none; answer = error 403 }
          else splice net host port
    ]

-- configFromEnv and newProxy, from the values of EGRESS_PROXY_ALLOW and EGRESS_PROXY_ALLOW_PORTS.
unfoldable pub env_or : Text → Text → Text
env_or value default = let v = trim_space value in if same_text v [] then default else v

unfoldable pub proxy_from_env : Text → Text → Proxy
unfolding parse_list parse_ports env_or
proxy_from_env allow ports = record {
  allow = parse_list allow;
  ports = parse_ports (env_or ports (b'4' ∷ b'4' ∷ b'3' ∷ []));
}
