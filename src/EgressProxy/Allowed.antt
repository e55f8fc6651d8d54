-- ===== src/EgressProxy/Allowed.antt =====
-- cmd/egress-proxy/main.go: which addresses the proxy connects to.
use dittobench_api.Base.{
  true, some, List, ◌∷◌, ◌++◌, ◌≡◌, ◌↔◌, ◌⊎◌, inl, inr, refl, sym, ap, subst, ◌∙◌, arith, any,
  any_found, any_holds, Bool-cases, Option-cases,
}
use mathlib.Core.List.{reverse, Memᴰ, reverse-reverse, reverse-append}
use dittobench_api.Base.Text.{
  cut_prefix, cut_prefix-append, cut_prefix-some, same_text, same_text_iff,
}
use dittobench_api.EgressProxy.{
  Text, has_suffix, normal_host, matches_entry, host_allowed, Proxy, Request, Net, serve, splice,
}

has_suffix_iff : (s t : Text) → (has_suffix s t ≡ true) ↔ ((q : Text) × (s ≡ q ++ t))
unfolding has_suffix
has_suffix_iff s t = (
  λ h. elim (Option-cases (cut_prefix (reverse s) (reverse t))) [
    | inl miss ↦ ground (arith, h, miss)
    | inr (r, hit) ↦
        let turned = ap reverse (cut_prefix-some (reverse s) (reverse t) r hit) in
        let parts : reverse (reverse t ++ r) ≡ reverse r ++ t =
          reverse-append (reverse t) r ∙ ap (λ u. reverse r ++ u) (reverse-reverse t) in
        (reverse r, sym (reverse-reverse s) ∙ turned ∙ parts)
  ],
  λ found.
      let turned : reverse s ≡ reverse t ++ reverse found.0 =
        ap reverse found.1 ∙ reverse-append found.0 t in
      let hit : cut_prefix (reverse s) (reverse t) ≡ some (reverse found.0) =
        ap (λ u. cut_prefix u (reverse t)) turned
        ∙ cut_prefix-append (reverse t) (reverse found.0) in
      ground (arith, hit),
)

-- An entry names a host itself or a domain above it.
abbrev pub Covers : Text → Text → Type 0
Covers a h = (h ≡ a) ⊎ ((q : Text) × (h ≡ q ++ b'.' ∷ a))

matches_entry_iff : (h a : Text) → (matches_entry h a ≡ true) ↔ Covers a h
unfolding matches_entry
matches_entry_iff h a = (
  λ m. elim (Bool-cases (same_text h a)) [
    | inl same ↦ inl ((same_text_iff h a).0 same)
    | inr other ↦ inr ((has_suffix_iff h (b'.' ∷ a)).0 (ground (arith, m, other)))
  ],
  λ covered. elim covered [
    | inl same ↦ rw ((same_text_iff h a).1 same) refl
    | inr below ↦
        let hit = (has_suffix_iff h (b'.' ∷ a)).1 below in
        ground (arith, hit, Bool-cases (same_text h a))
  ],
)

-- Some entry covers the host, which may end in a dot and mix its case.
abbrev pub Listed : Text → List Text → Type 0
Listed host allow = (a : Text) × Memᴰ a allow × Covers a (normal_host host)

host_allowed_iff :
    (host : Text) (allow : List Text) → (host_allowed host allow ≡ true) ↔ Listed host allow
unfolding host_allowed
host_allowed_iff host allow = (
  λ h.
      let (a, member, hit) = any_found (matches_entry (normal_host host)) allow h in
      (a, member, (matches_entry_iff (normal_host host) a).0 hit),
  λ listed.
      any_holds (matches_entry (normal_host host)) listed.0 allow listed.1
        ((matches_entry_iff (normal_host host) listed.0).1 listed.2),
)

splice-dialled : (net : Net) (host port : Text) → (splice net host port).dialled ≡ some (host, port)
unfolding splice
splice-dialled net host port = ground arith

module _ (net : Net) (p : Proxy) (r : Request) (host port : Text) where
  -- The address was allowed by the three tests of the handler.
  record Passed : Type 0 where
    connect : r.is_connect ≡ true
    named : net.split_host_port r.target ≡ some (host, port)
    port_ok : any (same_text port) p.ports ≡ true
    host_ok : host_allowed host p.allow ≡ true

  dialled-Passed : (serve net p r).dialled ≡ some (host, port) → Passed
  unfolding serve
  dialled-Passed h = elim (Option-cases (net.split_host_port r.target)) [
    | inl miss ↦ absurd (ground (arith, h, miss))
    | inr ((target_host, target_port), hit) ↦
        ground (arith, h, hit, splice-dialled net target_host target_port)
  ]

  Passed-dialled : Passed → (serve net p r).dialled ≡ some (host, port)
  unfolding serve
  Passed-dialled passed = ground (
    arith,
    passed.connect,
    passed.named,
    passed.port_ok,
    passed.host_ok,
    splice-dialled net host port,
  )

  -- The proxy connects to an address exactly when the request is a CONNECT whose target names it, the
  -- port is one of the ports, and some entry of the allowlist is the host or a domain above it,
  -- upper case, blanks around the name and a dot at its end aside. So with an empty allowlist it
  -- connects nowhere.
  pub dialled_iff : ((serve net p r).dialled ≡ some (host, port)) ↔ (
      (r.is_connect ≡ true)
      × (net.split_host_port r.target ≡ some (host, port))
      × Memᴰ port p.ports
      × Listed host p.allow)
  dialled_iff = (
    λ h.
        let passed = dialled-Passed h in
        let (q, member, same) = any_found (same_text port) p.ports passed.port_ok in
        (
          passed.connect,
          passed.named,
          subst (λ k. Memᴰ k p.ports) (sym ((same_text_iff port q).0 same)) member,
          (host_allowed_iff host p.allow).0 passed.host_ok,
        ),
    λ (connect, named, member, listed).
        let port_ok =
          any_holds (same_text port) port p.ports member ((same_text_iff port port).1 refl) in
        let host_ok = (host_allowed_iff host p.allow).1 listed in
        Passed-dialled
          (record { connect = connect; named = named; port_ok = port_ok; host_ok = host_ok }),
  )
