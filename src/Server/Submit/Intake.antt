-- ===== src/Server/Submit/Intake.antt =====
-- cmd/dittobench-api/main.go, handleScoreRequest and handleSubmit: what a submission has that passes the
-- checks.
use dittobench_api.Base.{
  ℕ, ◌≤◌, String, Bool, true, false, Option, none, some, List, [], ◌∷◌, ◌≡◌, ◌≢◌, refl, inl, inr,
  arith, nat_eq, nat_beq_iff, All, Bool-cases,
}
use dittobench_api.Server.Submit.{
  Request, Config, Refusal, is_set, canonical_sha256, requested_bench_version,
  validate_screened_image, validate_screened_image_access, validate_benchmark_image_contract,
  answer, refuse_if, check_url, first_refusal, count_sources, score_checks, submit_checks,
  score_request_refusal, submit_refusal,
}

passed : (checks : List (Option Refusal)) → first_refusal checks ≡ none → All (λ c. c ≡ none) checks
passed [] h = tt
passed (none ∷ checks) h = (refl, passed checks h)
passed (some r ∷ checks) h = cc

answer-none : (code : ℕ) (msg : Option (List ℕ)) → answer code msg ≡ none → msg ≡ none
answer-none code none h = refl
answer-none code (some msg) h = cc

refuse_if-none :
    (test : Bool) (code : ℕ) (msg : String) → refuse_if test code msg ≡ none → test ≡ false
refuse_if-none true code msg h = cc
refuse_if-none false code msg h = refl

check_url-none :
    (config : Config) (url : List ℕ)
    → is_set url ≡ true
    → check_url config url ≡ none
    → config.validate_url url config.allow_private ≡ none
check_url-none config url given h =
    answer-none 400 (config.validate_url url config.allow_private) (ground (arith, given, h))

requested_bench_version-none :
    (requested : ℕ) → requested_bench_version requested ≡ none → requested ≡ 8
unfolding requested_bench_version
requested_bench_version-none requested h =
    ground (arith, h, nat_beq_iff requested 0, nat_beq_iff requested 8)

contract-none :
    (req : Request)
    → req.bench_version ≡ 8
    → validate_benchmark_image_contract req ≡ none
    → is_set req.screened_image_url ≡ true
unfolding validate_benchmark_image_contract
contract-none req version h = ground (arith, h, version, nat_beq_iff req.bench_version 8)

-- A screened image comes with a tarball.
image_needs_tarball :
    (parse_uuid : List ℕ → Option (List ℕ)) (req : Request)
    → validate_screened_image parse_uuid req ≡ none
    → is_set req.screened_image_url ≡ true
    → is_set req.tarball_url ≡ true
unfolding validate_screened_image
image_needs_tarball parse_uuid req h image = elim (Bool-cases (is_set req.tarball_url)) [
  | inl tarball ↦ tarball
  | inr missing ↦ ground (arith, h, image, missing)
]

-- What every accepted submission of an image has.
abbrev pub IsScreened : Config → Request → Type 0
IsScreened config req =
    (is_set req.tarball_url ≡ true)
    × (is_set req.screened_image_url ≡ true)
    × (is_set req.harness_url ≡ false)
    × (is_set req.git_url ≡ false)
    × (config.allow_screened_images ≡ true)

validate_screened_image-IsScreened :
    (config : Config) (req : Request)
    → validate_screened_image config.parse_uuid req ≡ none
    → validate_screened_image_access req config.allow_screened_images ≡ none
    → is_set req.screened_image_url ≡ true
    → count_sources req ≤ 1
    → IsScreened config req
unfolding validate_screened_image_access
validate_screened_image-IsScreened config req whole access image one =
    let tarball = image_needs_tarball config.parse_uuid req whole image in
    ground (arith, tarball, image, access, one)

-- A request for canonical scoring that passes the checks is for version 8 with a ticket's session, pins
-- the seed and the digest of the dataset, and submits a screened image with its tarball to a validator
-- that takes them: never a harness that runs elsewhere or a git repository, though these are among the
-- sources that the handler counts.
pub score_request_pinned :
    (config : Config) (req : Request)
    → score_request_refusal config req ≡ none
    → (req.bench_version ≡ 8)
      × (is_set req.inference_session_id ≡ true)
      × (req.seed ≢ 0)
      × (canonical_sha256 req.expected_dataset_sha256 ≡ true)
      × (is_set req.run_size ≡ true)
      × IsScreened config req
      × (config.validate_url req.tarball_url config.allow_private ≡ none)
      × (config.validate_url req.screened_image_url config.allow_private ≡ none)
unfolding score_request_refusal
score_request_pinned config req h =
    let (
      version,
      (
        session,
        (
          seed,
          (
            dataset,
            (
              canonical,
              (size, (one, (whole, (access, (contract, (harness, (tarball, (image, done)))))))),
            ),
          ),
        ),
      ),
    ) =
      passed (score_checks config req) h in
    let eight =
      requested_bench_version-none req.bench_version
        (answer-none 400 (requested_bench_version req.bench_version) version) in
    let asked =
      contract-none req eight (answer-none 403 (validate_benchmark_image_contract req) contract) in
    let exactly_one : count_sources req ≡ 1 =
      ground (arith, one, nat_beq_iff (count_sources req) 1) in
    let screened =
      validate_screened_image-IsScreened config req
        (answer-none 400 (validate_screened_image config.parse_uuid req) whole)
        (answer-none 403 (validate_screened_image_access req config.allow_screened_images) access)
        asked (omega (arith, exactly_one)) in
    (
      eight,
      ground (arith, session, eight),
      λ no_seed. ground (arith, seed, no_seed),
      ground (arith, canonical),
      ground (arith, size),
      screened,
      check_url-none config req.tarball_url screened.0 tarball,
      check_url-none config req.screened_image_url asked image,
    )

-- Without private harnesses and without screened images, as on a public practice server, the handler
-- of submissions refuses every request.
pub public_submit_refused :
    (config : Config) (req : Request)
    → config.allow_private ≡ false
    → config.allow_screened_images ≡ false
    → submit_refusal config req ≢ none
unfolding submit_refusal
public_submit_refused config req public_only no_images h =
    let (
      version,
      (
        sources,
        (several, (whole, (access, (contract, (harness, (tarball, (image, (size, done)))))))),
      ),
    ) =
      passed (submit_checks config req) h in
    let eight =
      requested_bench_version-none req.bench_version
        (answer-none 400 (requested_bench_version req.bench_version) version) in
    let required : answer 403 (validate_benchmark_image_contract req) ≡ none =
      ground (arith, contract, public_only) in
    let asked =
      contract-none req eight (answer-none 403 (validate_benchmark_image_contract req) required) in
    let at_most_one : count_sources req ≤ 1 = ground (arith, several) in
    let screened =
      validate_screened_image-IsScreened config req
        (answer-none 400 (validate_screened_image config.parse_uuid req) whole)
        (answer-none 403 (validate_screened_image_access req config.allow_screened_images) access)
        asked at_most_one in
    let (tarball_set, image_set, no_harness, no_git, allowed) = screened in
    ground (arith, allowed, no_images)
