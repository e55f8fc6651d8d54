-- ===== src/Server/Job/Starting.antt =====
-- cmd/dittobench-api/main.go, runSizeJob, and cmd/dittobench-api/relay_preflight.go, relayRunStart: the
-- stages from the build of the image to the probe of the harness.
use dittobench_api.Base.{
  ℕ, String, Bool, true, false, not, Option, none, some, List, ◌==◌, ltb, leb, ◌&&◌, ◌||◌,
  string_eq, nat_eq, if◌then◌else◌, length, all,
}
use Prim.Native.String.{◌++◌ as ◌<>◌}
use dittobench_api.Base.Text.{bytes_of, cut_prefix}
use mathlib.Core.List.{reverse}
use dittobench_api.Store.Job.{building, generating}
use dittobench_api.Relay.{Snapshot, RelayError}
use dittobench_api.Relay.Finalize.{relay_finalize_failure}
use dittobench_api.Server.Evidence.{validate_v8_evidence_availability}
use dittobench_api.Server.Job.{
  Fault, Exit, failed_with, abandoned, panicked, image, Handle, Stage, ◌>>=◌, ◌>>◌, pure, done_with,
  stop, fail_stage, fail_if, stage, take, leave, when,
}

-- What the job reads of its request. The expected digest is trimmed; empty for practice.
pub record Request : Type 0 where
  pub run_id : String
  pub bench_version : ℕ
  pub run_size : String
  pub has_source : Bool
  pub has_session : Bool
  pub expected_sha256 : String

-- The version of the artifact and its digest, none if it cannot be computed.
pub record Artifact : Type 0 where
  pub version : ℕ
  pub hash : Option String

-- What dittobench-datagen generated, where it did: the pairs that tool cases need, those that the
-- memory cases require and those of all waves, each with its user.
pub record Dataset : Type 0 where
  pub tool_pairs : List (List String)
  pub required_pairs : List (String × List String)
  pub wave_pairs : List (String × List String)
  pub artifact : Option Artifact

pub data Generated : Type 0 where
  unsupported_version no_memory no_isolation panicked_generation : Generated
  generated : Dataset → Generated

-- A call that ends without a result leaves the failure that is written for it, or panics.
pub data Outcome (A : Type 0) : Type 0 where
  got : A → Outcome A
  lost : Fault → Outcome A
  crashed : Outcome A

-- A call of the relay: its error is one that the run's end classifies, or another text.
pub data RelayFault : Type 0 where
  known : RelayError → RelayFault
  other : String → RelayFault

-- The world that a job meets while it starts.
pub record World : Type 0 where
  pub describe : RelayError → String
  -- The context was cancelled by the time of each of these.
  pub cancelled_at_admission : Bool
  pub cancelled_at_relay : Bool
  -- sandbox.Build, with the failure that is written if it has none.
  pub build : Outcome String
  -- A failed build leaves its tagged image on the validator, as loadScreenedImage does if it cannot
  -- restore the screener's reference.
  pub build_leaves : Bool
  pub generation : Generated
  pub initial_total : ℕ
  pub run_container : Outcome Handle
  pub bind_source : String → Bool
  -- The loopback address of the harness URL, if it names one.
  pub loopback_source : Option String
  pub healthy : Option String
  pub begin_phase : Bool
  pub relay_probe : Option RelayFault
  pub relay_snapshot : Option Snapshot
  -- What the probe of the model's route leaves in the broker's ledger; none if it cannot be read.
  pub after_probe : Option Snapshot
  pub run_replacement : Outcome Handle
  pub replace_source : String → String → Bool
  pub replacement_healthy : Option String
  pub after_second_probe : Option Snapshot

-- runScope
unfoldable pub is_scored : Request → Bool
is_scored r = not (r.expected_sha256 == "")

unfoldable pub verify_dataset_hash : String → Option String → Option String
verify_dataset_hash expected actual = elim actual [
  | none ↦ some "dataset hashing failed for platform-issued dataset"
  | some hash ↦
      if expected == hash
      then none
      else some (
          "dataset_sha256 mismatch: platform issued "
          <> (expected
              <> (" but this validator regenerated "
                  <> (hash <> " (generator/bench_version drift)"))))
]

-- The prose of failRelayUnavailable follows its classification.
unfoldable pub relay_fault : (RelayError → String) → RelayFault → Fault
relay_fault describe (known e) =
    let failure = relay_finalize_failure e in
    record {
      message =
          (if failure.kind == "sandbox_failure"
            then "harness exhausted its inference allowance: "
            else "locked model relay unavailable: ")
          <> describe e;
      failure = some failure;
    }
relay_fault describe (other message) = record {
  message = "locked model relay unavailable: " <> message;
  failure = some (record {
    kind = "validator_infrastructure";
    code = "model_relay_unavailable";
    retryable = true;
    diagnostics = none;
  });
}

-- failRelayUnavailableForContext, for a context that was cancelled or not.
unfoldable pub relay_exit : Bool → (RelayError → String) → RelayFault → Exit
unfolding relay_fault
relay_exit cancelled describe e =
    if cancelled then abandoned else failed_with (relay_fault describe e)

abbrev is_lower_hex : ℕ → Bool
is_lower_hex b = (leb b'0' b && leb b b'9') || (leb b'a' b && leb b b'f')

-- The digest between the prefix and the suffix, read from behind.
unfoldable pub valid_v7_route_profile : String → Bool
valid_v7_route_profile profile =
    elim (cut_prefix (bytes_of profile) (bytes_of "openrouter-route-")) [
      | none ↦ false
      | some rest ↦ elim (cut_prefix (reverse rest) (reverse (bytes_of "-v1"))) [
        | none ↦ false
        | some digest ↦ length digest == 16 && all is_lower_hex digest
      ]
    ]

unfoldable pub require_token_accounting : Snapshot → ℕ → Option String
unfolding valid_v7_route_profile
require_token_accounting s bench_version =
    if not (s.accounting_version == 2)
    then some "relay health lacks trusted token accounting"
    else if s.provider == "" || s.profile_revision == "" || s.model == ""
    then some "relay health lacks immutable provider identity"
    else if ltb bench_version 7
    then none
    else if not (s.model == "openai/gpt-oss-20b")
    then some "relay model does not match benchmark v7"
    else if not (valid_v7_route_profile s.profile_revision)
    then some "relay profile does not match benchmark v7"
    else none

module _ {Case Report : Type 0} (world : World) (r : Request) where
  -- Whether an image was built.
  unfoldable pub build_image : Stage Case Report Bool
  build_image =
      if r.has_source
      then (do
        stage building 0 world.initial_total
        elim world.build [
          | lost fault ↦ when world.build_leaves (leave image) >> stop (failed_with fault)
          | crashed ↦ stop panicked
          | got name ↦ take image >> pure true
        ])
      else pure false

  -- The digest of the artifact is checked where the request has one.
  unfoldable pub check_artifact : Artifact → Stage Case Report (Unit {0})
  unfolding is_scored verify_dataset_hash
  check_artifact a = do
    fail_if (not (a.version == r.bench_version)) "bench_version mismatch"
    if is_scored r
        then elim (verify_dataset_hash r.expected_sha256 a.hash) [
          | none ↦ done_with
          | some message ↦ fail_stage message none
        ]
        else done_with

  unfoldable pub check_made : Option Artifact → Stage Case Report Artifact
  unfolding check_artifact
  check_made none = fail_stage "dataset generation failed for requested bench_version" none
  check_made (some a) = check_artifact a >> pure a

  unfoldable pub check_dataset : Dataset → Stage Case Report Artifact
  unfolding check_made
  check_dataset d = do
    fail_if
        (leb 8 r.bench_version
          && not (validate_v8_evidence_availability d.tool_pairs d.required_pairs d.wave_pairs))
        "v8 memory evidence is unavailable through the ordered seed boundary"
    check_made d.artifact

  unfoldable pub take_generated : Generated → Stage Case Report (Dataset × Artifact)
  unfolding check_dataset
  take_generated unsupported_version = fail_stage "unsupported bench_version during generation" none
  take_generated no_memory =
      fail_stage "memory dataset generation failed for requested bench_version" none
  take_generated no_isolation =
      fail_stage "isolation dataset generation failed for requested bench_version" none
  take_generated panicked_generation = stop panicked
  take_generated (generated d) = check_dataset d >>= λ a. pure (d, a)

  unfoldable pub generate : Stage Case Report (Dataset × Artifact)
  unfolding take_generated
  generate = stage generating 0 world.initial_total >> take_generated world.generation
