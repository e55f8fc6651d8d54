-- ===== src/Server/Submit.antt =====
-- cmd/dittobench-api/main.go: the checks of a submission, in the order of the handlers. netguard's
-- ValidateURL gives the text of its error, if any; uuid.Parse the canonical form of what it parses.
pub mod Intake
use dittobench_api.Base.{
  ℕ, ◌+◌, ◌*◌, ◌^◌, String, Bool, true, false, not, Option, none, some, List, [], ◌∷◌, ◌++◌, map,
  ◌==◌, ltb, leb, ◌&&◌, ◌||◌, nat_eq, if◌then◌else◌, length, all,
}
use mathlib.Core.List.{reverse}
use dittobench_api.Base.Text.{bytes_of, cut_prefix, trim_space, same_text, lower}

-- The fields of submitRequest that the checks read; the size of the image may be negative.
pub record Request : Type 0 where
  pub bench_version : ℕ
  pub harness_url : List ℕ
  pub git_url : List ℕ
  pub tarball_url : List ℕ
  pub screened_image_url : List ℕ
  pub screened_image_sha256 : List ℕ
  pub screened_image_id : List ℕ
  pub screened_image_ref : List ℕ
  pub screened_image_size : ℕ
  pub negative_size : Bool
  pub run_size : List ℕ
  pub seed : ℕ
  pub expected_dataset_sha256 : List ℕ
  pub inference_session_id : List ℕ

pub record Config : Type 0 where
  pub allow_private : Bool
  pub allow_screened_images : Bool
  pub require_ticket_inference : Bool
  pub validate_url : List ℕ → Bool → Option (List ℕ)
  pub parse_uuid : List ℕ → Option (List ℕ)

-- A status code with the message of its error.
abbrev pub Refusal : Type 0
Refusal = ℕ × List ℕ

abbrev pub is_set : List ℕ → Bool
is_set s = not (same_text s [])

abbrev is_hex_digit : ℕ → Bool
is_hex_digit b =
    (leb b'0' b && leb b b'9') || (leb b'a' b && leb b b'f') || (leb b'A' b && leb b b'F')

-- Whether hex.DecodeString takes a text of even length.
abbrev is_hex : List ℕ → Bool
is_hex s = all is_hex_digit s

unfoldable pub canonical_sha256 : List ℕ → Bool
canonical_sha256 value = length value == 64 && same_text value (map lower value) && is_hex value

unfoldable pub requested_bench_version : ℕ → Option (List ℕ)
requested_bench_version requested =
    if requested == 0
    then some (bytes_of "bench_version is required (supported: 8)")
    else if not (requested == 8)
    then some (bytes_of "unsupported bench_version (supported: 8)")
    else none

-- strings.TrimSuffix and strings.HasSuffix, and their counterparts for prefixes.
abbrev trim_prefix : List ℕ → List ℕ → List ℕ
trim_prefix s p = elim (cut_prefix s p) [ none ↦ s | some r ↦ r ]

abbrev has_prefix : List ℕ → List ℕ → Bool
has_prefix s p = elim (cut_prefix s p) [ none ↦ false | some r ↦ true ]

abbrev trim_suffix : List ℕ → List ℕ → List ℕ
trim_suffix s p = reverse (trim_prefix (reverse s) (reverse p))

abbrev has_suffix : List ℕ → List ℕ → Bool
has_suffix s p = has_prefix (reverse s) (reverse p)

abbrev is_screener_ref : (List ℕ → Option (List ℕ)) → List ℕ → Bool
is_screener_ref parse_uuid ref =
    let ref_id = trim_suffix (trim_prefix ref (bytes_of "ditto-screen/")) (bytes_of ":latest") in
    has_prefix ref (bytes_of "ditto-screen/")
    && has_suffix ref (bytes_of ":latest")
    && elim (parse_uuid ref_id) [ none ↦ false | some canonical ↦ same_text canonical ref_id ]

unfoldable pub validate_screened_image : (List ℕ → Option (List ℕ)) → Request → Option (List ℕ)
validate_screened_image parse_uuid req =
    let positive = not req.negative_size && ltb 0 req.screened_image_size in
    let image_hex = trim_prefix req.screened_image_id (bytes_of "sha256:") in
    if not (
      is_set req.screened_image_url
      || is_set req.screened_image_sha256
      || is_set req.screened_image_id
      || is_set req.screened_image_ref
      || not (req.screened_image_size == 0))
    then none
    else if not (is_set req.tarball_url)
    then some (bytes_of "screened image requires tarball_url for source fingerprinting")
    else if not (is_set req.screened_image_url)
        || not (is_set req.screened_image_sha256)
        || not (is_set req.screened_image_id)
        || not (is_set req.screened_image_ref)
        || not positive
    then some
        (bytes_of "screened image url, sha256, id, ref, and positive size are required together")
    else if ltb (8 * 2 ^ 30) req.screened_image_size
    then some (bytes_of "screened_image_size_bytes exceeds the 8 GiB limit")
    else if not (canonical_sha256 req.screened_image_sha256)
    then some (bytes_of "screened_image_sha256 must be 64 lowercase hex characters")
    else if not (has_prefix req.screened_image_id (bytes_of "sha256:"))
        || not (length req.screened_image_id == 71)
        || not (canonical_sha256 image_hex)
    then some (bytes_of "screened_image_id must be a sha256 Docker image id")
    else if not (is_screener_ref parse_uuid req.screened_image_ref)
    then some (bytes_of "screened_image_ref must be the screener-owned ditto-screen reference")
    else none

unfoldable pub validate_screened_image_access : Request → Bool → Option (List ℕ)
validate_screened_image_access req allow_screened_images =
    if is_set req.screened_image_url && not allow_screened_images
    then some (bytes_of "screened images are only accepted by the validator sandbox")
    else none

unfoldable pub validate_benchmark_image_contract : Request → Option (List ℕ)
validate_benchmark_image_contract req =
    if req.bench_version == 8 && not (is_set req.screened_image_url)
    then some
        (bytes_of "benchmark version 8 requires a screener-built image; source builds are disabled")
    else none

abbrev pub answer : ℕ → Option (List ℕ) → Option Refusal
answer code none = none
answer code (some msg) = some (code, msg)

abbrev pub refuse_if : Bool → ℕ → String → Option Refusal
refuse_if test code msg = if test then some (code, bytes_of msg) else none

-- A row of checks: the first that refuses answers.
abbrev pub first_refusal : List (Option Refusal) → Option Refusal
first_refusal [] = none
first_refusal (none ∷ checks) = first_refusal checks
first_refusal (some r ∷ checks) = some r

abbrev pub count_sources : Request → ℕ
count_sources req =
    (if is_set req.harness_url then 1 else 0)
    + (if is_set req.git_url then 1 else 0)
    + (if is_set req.tarball_url then 1 else 0)

abbrev pub check_url : Config → List ℕ → Option Refusal
check_url config url =
    if is_set url then answer 400 (config.validate_url url config.allow_private) else none

-- handleScoreRequest, behind the rate limit and the decoding of the body, before submitRunSize.
abbrev pub score_checks : Config → Request → List (Option Refusal)
score_checks config req =
    (answer 400 (requested_bench_version req.bench_version)
      ∷ refuse_if
          ((config.require_ticket_inference || leb 7 req.bench_version)
            && not (is_set req.inference_session_id))
          503 "ticket inference session is required for canonical scoring"
      ∷ refuse_if (req.seed == 0) 400
          "seed is required (the platform-issued dataset seed) for canonical scoring"
      ∷ refuse_if (same_text (trim_space req.expected_dataset_sha256) []) 400
          "dataset_sha256 is required (the platform-issued dataset hash) for canonical scoring"
      ∷ refuse_if (not (canonical_sha256 req.expected_dataset_sha256)) 400
          "dataset_sha256 must be 64 lowercase hex characters"
      ∷ refuse_if (not (is_set req.run_size)) 400
          "run_size is required (small|medium|full) for canonical scoring"
      ∷ refuse_if (not (count_sources req == 1)) 400
          "provide exactly one of harness_url, git_url, or tarball_url"
      ∷ answer 400 (validate_screened_image config.parse_uuid req)
      ∷ answer 403 (validate_screened_image_access req config.allow_screened_images)
      ∷ answer 403 (validate_benchmark_image_contract req)
      ∷ check_url config req.harness_url
      ∷ check_url config req.tarball_url
      ∷ check_url config req.screened_image_url
      ∷ [])

unfoldable pub score_request_refusal : Config → Request → Option Refusal
score_request_refusal config req = first_refusal (score_checks config req)

-- handleSubmit, likewise.
abbrev pub submit_checks : Config → Request → List (Option Refusal)
submit_checks config req =
    (answer 400 (requested_bench_version req.bench_version)
      ∷ refuse_if (count_sources req == 0) 400
          "one of harness_url (direct), git_url, or tarball_url (sandbox/run_size) is required"
      ∷ refuse_if (ltb 1 (count_sources req)) 400
          "provide only one of harness_url, git_url, or tarball_url"
      ∷ answer 400 (validate_screened_image config.parse_uuid req)
      ∷ answer 403 (validate_screened_image_access req config.allow_screened_images)
      ∷ (if not (is_set req.harness_url) || not config.allow_private
          then answer 403 (validate_benchmark_image_contract req)
          else none)
      ∷ check_url config req.harness_url
      ∷ check_url config req.tarball_url
      ∷ check_url config req.screened_image_url
      ∷ refuse_if (not (is_set req.run_size)) 400 "run_size is required (small|medium|full)"
      ∷ [])

unfoldable pub submit_refusal : Config → Request → Option Refusal
submit_refusal config req = first_refusal (submit_checks config req)
