-- ===== src/ControlAuth/Gate.antt =====
-- cmd/dittobench-api/control_auth.go: what enforcement admits.
use dittobench_api.Base.{
  ℕ, true, false, some, List, [], ◌++◌, ◌≡◌, refl, sym, ap, ◌∙◌, ◌↔◌, ◌⊎◌, inl, inr, arith,
  string_eq, Option-cases, subst, Bool-cases,
}
use dittobench_api.Base.Text.{
  cut_prefix, trim_space, same_text, same_text_iff, cut_prefix-append, cut_prefix-some,
}
use dittobench_api.ControlAuth.{
  enforce, ControlAuth, insecure_default_control_token, control_token_from_env, is_ok,
  bearer_scheme, verify_control_credential, Request, route_is_public, served, rejected, wrap,
  starts,
}

-- A header that is, but for the spaces around it, the scheme and a token in any spaces.
abbrev pub Presents : List ℕ → List ℕ → Type 0
Presents token header =
    (rest : List ℕ) × (trim_space header ≡ bearer_scheme ++ rest) × (trim_space rest ≡ token)

same_refl : (s : List ℕ) → same_text s s ≡ true
same_refl s = (same_text_iff s s).1 refl

verify_sound :
    (token header : List ℕ)
    → is_ok (verify_control_credential token header) ≡ true
    → (same_text token [] ≡ false) × Presents token header
unfolding verify_control_credential
verify_sound token header h = elim (Option-cases (cut_prefix (trim_space header) bearer_scheme)) [
  | inl none_there ↦ absurd (ground (arith, none_there, h))
  | inr (rest, cut) ↦ (
    ground (arith, cut, h),
    (
      rest,
      cut_prefix-some (trim_space header) bearer_scheme rest cut,
      (same_text_iff (trim_space rest) token).0 (ground (arith, cut, h)),
    ),
  )
]

verify_complete :
    (token header : List ℕ)
    → same_text token [] ≡ false
    → Presents token header
    → is_ok (verify_control_credential token header) ≡ true
unfolding verify_control_credential
verify_complete token header configured (rest, scheme, given) =
    let cut : cut_prefix (trim_space header) bearer_scheme ≡ some rest =
      ap (λ s. cut_prefix s bearer_scheme) scheme ∙ cut_prefix-append bearer_scheme rest in
    let there : same_text (trim_space header) [] ≡ false = rw scheme refl in
    let right : same_text (trim_space rest) token ≡ true = (same_text_iff _ _).1 given in
    let full : same_text (trim_space rest) [] ≡ false =
      subst (λ s. same_text s [] ≡ false) (sym given) configured in
    ground (arith, configured, there, cut, full, right)

-- Under enforcement a request is served exactly when its route is public, or a token is configured and
-- the request presents this token as a bearer.
pub enforced_iff :
    (a : ControlAuth) (r : Request)
    → a.mode ≡ enforce
    → (wrap a r ≡ served)
      ↔ (route_is_public r ≡ true)
        ⊎ ((same_text a.token [] ≡ false) × Presents a.token r.authorization)
unfolding wrap
enforced_iff a r h = (
  λ k. elim (Bool-cases (route_is_public r)) [
    | inl public ↦ inl public
    | inr private ↦ inr (verify_sound a.token r.authorization (ground (arith, private, h, k)))
  ],
  λ k. elim k [
    | inl public ↦ ground (arith, public)
    | inr (configured, presented) ↦
        ground (arith, verify_complete a.token r.authorization configured presented)
  ],
)

default_token-empty :
    (control broker : List ℕ)
    → (trim_space control ≡ insecure_default_control_token)
      ⊎ ((trim_space control ≡ []) × (trim_space broker ≡ insecure_default_control_token))
    → control_token_from_env control broker ≡ []
unfolding control_token_from_env
default_token-empty control broker (inl own) = rw own refl
default_token-empty control broker (inr (none_own, shared)) = rw (none_own, shared) refl

-- The published default token is worth nothing: where it is the one configured, whether on its own or
-- through the broker's variable, a server that enforces refuses to start, and every request to a route
-- that is not public would be rejected, also one that presents the default token.
pub default_token_rejected :
    (control broker : List ℕ) (r : Request)
    → (trim_space control ≡ insecure_default_control_token)
      ⊎ ((trim_space control ≡ []) × (trim_space broker ≡ insecure_default_control_token))
    → route_is_public r ≡ false
    → let a : ControlAuth = record {
      mode = enforce;
      token = control_token_from_env control broker;
    } in
      (starts a ≡ false) × (wrap a r ≡ rejected)
unfolding starts wrap verify_control_credential
default_token_rejected control broker r h private =
    let none_set = default_token-empty control broker h in
    (rw none_set refl, ground (arith, private, none_set))
