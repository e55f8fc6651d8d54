-- ===== src/NetGuard/Guard.antt =====
-- internal/netguard/netguard.go, ValidateURL and Client: the check of a URL and that of a connection.
-- What packages url and net make of texts, and what the resolver answers, are arguments.
pub mod Resolution
use dittobench_api.Base.{
  ℕ, Bool, true, false, not, Option, none, some, List, [], ◌∷◌, ◌++◌, ◌==◌, ◌&&◌, ◌⊎◌, inl, inr,
  if◌then◌else◌, any, length, nat_eq,
}
use dittobench_api.Base.Text.{bytes_of, same_text}
use dittobench_api.NetGuard.{is_disallowed_ip}

-- What is used of url.URL.
pub record Url : Type 0 where
  pub scheme : List ℕ
  pub hostname : List ℕ

-- url.Parse and net.LookupIP fail with the text of an error; net.SplitHostPort gives the host.
pub record Net : Type 0 where
  pub parse_url : List ℕ → List ℕ ⊎ Url
  pub parse_ip : List ℕ → Option (List ℕ)
  pub lookup_ip : List ℕ → List ℕ ⊎ List (List ℕ)
  pub split_host : List ℕ → Option (List ℕ)

-- A host that is no address, by the answer of the resolver.
unfoldable pub validate_addresses : List ℕ → List ℕ ⊎ List (List ℕ) → Option (List ℕ)
validate_addresses host (inl err) =
    some (bytes_of "resolve harness_url host " ++ host ++ bytes_of ": " ++ err)
validate_addresses host (inr ips) =
    if length ips == 0
    then some (bytes_of "harness_url host " ++ host ++ bytes_of " has no addresses")
    else if any (λ ip. is_disallowed_ip (some ip)) ips
    then some (bytes_of "harness_url host " ++ host ++ bytes_of " resolves to a non-public address")
    else none

unfoldable pub validate_host : Net → List ℕ → Option (List ℕ)
validate_host net host = elim (net.parse_ip host) [
  | some ip ↦
      if is_disallowed_ip (some ip)
      then some (bytes_of "harness_url host " ++ host ++ bytes_of " is not a public address")
      else none
  | none ↦ validate_addresses host (net.lookup_ip host)
]

-- The text of the error, if there is one.
unfoldable pub validate_url : Net → List ℕ → Bool → Option (List ℕ)
validate_url net raw allow_private = elim (net.parse_url raw) [
  | inl err ↦ some (bytes_of "invalid harness_url: " ++ err)
  | inr u ↦
      if not (same_text u.scheme (bytes_of "http")) && not (same_text u.scheme (bytes_of "https"))
      then some (bytes_of "harness_url scheme must be http or https")
      else if same_text u.hostname []
      then some (bytes_of "harness_url has no host")
      else if allow_private
      then none
      else validate_host net u.hostname
]

-- The control function of Client's dialer: whether a connection to an address is let through.
unfoldable pub dial_allowed : Net → Bool → List ℕ → Bool
dial_allowed net allow_private address =
    if allow_private then true else elim (net.split_host address) [
      | none ↦ false
      | some host ↦ not (is_disallowed_ip (net.parse_ip host))
    ]
