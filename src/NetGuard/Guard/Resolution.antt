-- ===== src/NetGuard/Guard/Resolution.antt =====
-- internal/netguard/netguard.go: which hosts pass the checks of a public server.
use dittobench_api.Base.{
  ℕ, Bool, true, false, not, Option, none, some, List, [], ◌∷◌, ◌≡◌, ◌≢◌, refl, sym, ◌∙◌, subst,
  ◌↔◌, ◌⊎◌, inl, inr, arith, nat_eq, ◌&&◌, ◌||◌, if◌then◌else◌, any, All, Bool-cases, Option-cases,
}
use dittobench_api.Base.Text.{bytes_of, same_text, same_text_iff}
use dittobench_api.NetGuard.{is_disallowed_ip}
use dittobench_api.NetGuard.Guard.{
  Url, Net, validate_addresses, validate_host, validate_url, dial_allowed,
}

-- An address that a public server may be sent to.
abbrev pub IsPublic : List ℕ → Type 0
IsPublic ip = is_disallowed_ip (some ip) ≡ false

-- A host that is a public address, or has addresses, all of them public.
abbrev pub PublicHost : Net → List ℕ → Type 0
PublicHost net host =
    ((ip : List ℕ) × (net.parse_ip host ≡ some ip) × IsPublic ip)
    ⊎ ((net.parse_ip host ≡ none)
        × (ips : List (List ℕ)) × (net.lookup_ip host ≡ inr ips)
        × (ips ≢ [])
        × All IsPublic ips)

any_disallowed_iff :
    (ips : List (List ℕ)) → (any (λ ip. is_disallowed_ip (some ip)) ips ≡ false) ↔ All IsPublic ips
any_disallowed_iff [] = (λ h. tt, λ p. refl)
any_disallowed_iff (ip ∷ ips) = (
  λ h. (ground (arith, h), (any_disallowed_iff ips).0 (ground (arith, h))),
  λ p. ground (arith, p.0, (any_disallowed_iff ips).1 p.1),
)

validate_addresses_public :
    (host : List ℕ) (ips : List (List ℕ))
    → ips ≢ []
    → All IsPublic ips
    → validate_addresses host (inr ips) ≡ none
unfolding validate_addresses
validate_addresses_public host [] some_there public_all = absurd (some_there refl)
validate_addresses_public host (ip ∷ ips) some_there public_all =
    ground (arith, (any_disallowed_iff (ip ∷ ips)).1 public_all)

validate_addresses-none :
    (host : List ℕ) (answer : List ℕ ⊎ List (List ℕ))
    → validate_addresses host answer ≡ none
    → (ips : List (List ℕ)) × (answer ≡ inr ips) × (ips ≢ []) × All IsPublic ips
unfolding validate_addresses
validate_addresses-none host (inl err) h = cc
validate_addresses-none host (inr []) h = cc
validate_addresses-none host (inr (ip ∷ ips)) h =
    (ip ∷ ips, refl, λ e. cc, (any_disallowed_iff (ip ∷ ips)).0 (ground (arith, h)))

validate_host_iff :
    (net : Net) (host : List ℕ) → (validate_host net host ≡ none) ↔ PublicHost net host
unfolding validate_host
validate_host_iff net host = elim (Option-cases (net.parse_ip host)) [
  | inr (ip, literal) ↦ (
    λ h. inl (ip, literal, ground (arith, h, literal)),
    λ p. elim p [
      | inl (other, same, outside) ↦ ground (arith, same, outside)
      | inr (name, ips, answer, some_there, public_all) ↦ absurd (cc (name, literal))
    ],
  )
  | inl name ↦ (
    λ h.
        let (ips, answer, some_there, public_all) =
          validate_addresses-none host (net.lookup_ip host) (ground (arith, h, name)) in
        inr (name, ips, answer, some_there, public_all),
    λ p. elim p [
      | inl (ip, literal, outside) ↦ absurd (cc (name, literal))
      | inr (again, ips, answer, some_there, public_all) ↦
          let passes : validate_addresses host (net.lookup_ip host) ≡ none =
            subst (λ a. validate_addresses host a ≡ none) (sym answer)
              (validate_addresses_public host ips some_there public_all) in
          ground (arith, name, passes)
    ],
  )
]

module _ (net : Net) (raw : List ℕ) (u : Url) where
  abbrev is_http : Bool
  is_http = same_text u.scheme (bytes_of "http") || same_text u.scheme (bytes_of "https")

  -- The check of a URL that parses.
  abbrev validate_parsed : Option (List ℕ)
  validate_parsed =
      if not (same_text u.scheme (bytes_of "http")) && not (same_text u.scheme (bytes_of "https"))
      then some (bytes_of "harness_url scheme must be http or https")
      else if same_text u.hostname []
      then some (bytes_of "harness_url has no host")
      else validate_host net u.hostname

  validate_url-parsed : net.parse_url raw ≡ inr u → validate_url net raw false ≡ validate_parsed
  unfolding validate_url
  validate_url-parsed parsed = rw (parsed, validate_url) refl

  validate_parsed_iff :
      (validate_parsed ≡ none) ↔ ((is_http ≡ true) × (u.hostname ≢ []) × PublicHost net u.hostname)
  validate_parsed_iff = (
    λ h. (
      ground (arith, h),
      λ e. ground (arith, h, (same_text_iff u.hostname []).1 e),
      (validate_host_iff net u.hostname).0 (ground (arith, h)),
    ),
    λ p.
        let (http, named, public_host) = p in
        let passes = (validate_host_iff net u.hostname).1 public_host in
        elim (Bool-cases (same_text u.hostname [])) [
          | inl empty ↦ absurd (named ((same_text_iff u.hostname []).0 empty))
          | inr some_host ↦ ground (arith, http, some_host, passes)
        ],
  )

dial_allowed-IsPublic :
    (net : Net) (address : List ℕ)
    → dial_allowed net false address ≡ true
    → (host : List ℕ) × (ip : List ℕ) × (net.split_host address ≡ some host)
      × (net.parse_ip host ≡ some ip)
      × IsPublic ip
unfolding dial_allowed is_disallowed_ip
dial_allowed-IsPublic net address h = elim (Option-cases (net.split_host address)) [
  | inl nothing ↦ absurd (ground (arith, h, nothing))
  | inr (host, split) ↦ elim (Option-cases (net.parse_ip host)) [
    | inl name ↦ absurd (ground (arith, h, split, name))
    | inr (ip, literal) ↦ (host, ip, split, literal, ground (arith, h, split, literal))
  ]
]

-- On a server that does not allow private harnesses, a URL that parses passes the check exactly when it is
-- an http or https one whose host is a public address, or a name that resolves to public addresses only;
-- and whatever the name resolves to by the time of a connection, the client connects to a public
-- address. A public address is one that isDisallowedIP lets through.
pub validate_url_iff :
    (net : Net) (raw : List ℕ) (u : Url)
    → net.parse_url raw ≡ inr u
    → ((validate_url net raw false ≡ none)
        ↔ ((same_text u.scheme (bytes_of "http") || same_text u.scheme (bytes_of "https")) ≡ true)
          × (u.hostname ≢ [])
          × PublicHost net u.hostname)
      × ((address : List ℕ)
          → dial_allowed net false address ≡ true
          → (host : List ℕ) × (ip : List ℕ) × (net.split_host address ≡ some host)
            × (net.parse_ip host ≡ some ip)
            × IsPublic ip)
validate_url_iff net raw u parsed =
    let same = validate_url-parsed net raw u parsed in
    let (passes, public_only) = validate_parsed_iff net raw u in
    ((λ h. passes (sym same ∙ h), λ p. same ∙ public_only p), dial_allowed-IsPublic net)
