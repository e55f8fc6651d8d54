-- ===== src/Sandbox/Image/Primary.antt =====
-- internal/sandbox/image.go, validatePrimaryOCIImage and validatePrimaryOCIIndex: the descriptors of an
-- index. The set of the accepted identities is returned in place of being filled.
use dittobench_api.Base.{
  ℕ, ◌+◌, Bool, false, not, Option, none, some, List, [], ◌∷◌, ◌==◌, ltb, ◌||◌, ◌&&◌, nat_eq,
  if◌then◌else◌, all, length, keep,
}
use dittobench_api.Base.Text.{bytes_of, same_text}
use dittobench_api.Sandbox.Image.{
  Text, Platform, Descriptor, Codec, find, size_of, canonical_sha256_digest, blob_name,
  oci_index_type, oci_manifest_type, docker_manifest_type, max_attestation_descriptors,
  validate_runnable_image_manifest, validate_attestation_descriptor,
}

-- What an index or a manifest binds: the media type of the expected image, its sole runnable digest and
-- the identities that it may get.
pub record Bound : Type 0 where
  pub media_type : Text
  pub runnable : Text
  pub accepted : List Text

abbrev pub is_attestation : Descriptor → Bool
is_attestation d = same_text d.reference_type (bytes_of "attestation-manifest")

abbrev is_known : Option Platform → Bool
is_known none = false
is_known (some p) =
    not (same_text p.architecture (bytes_of "unknown")) && not (same_text p.os (bytes_of "unknown"))

abbrev pub is_runnable : Descriptor → Bool
is_runnable d =
    same_text d.media_type oci_manifest_type
    && ltb 0 d.size
    && is_known d.platform
    && canonical_sha256_digest d.digest

module _ (codec : Codec) (blobs : List (Text × List ℕ)) (sizes : List (Text × ℕ)) where
  -- The sole runnable image of an index, with its manifest and config.
  unfoldable pub bind_runnable : Descriptor → Option Bound
  bind_runnable d = elim (find (blob_name d.digest) blobs) [
    | none ↦ none
    | some content ↦
        if not (size_of (blob_name d.digest) sizes == d.size)
        then none
        else elim (validate_runnable_image_manifest codec sizes blobs content) [
          | none ↦ none
          | some config ↦ some (record {
            media_type = oci_index_type;
            runnable = d.digest;
            accepted = d.digest ∷ config ∷ [];
          })
        ]
  ]

  -- The other descriptors are attestations of it.
  unfoldable pub attest : List Descriptor → Option Bound → Option Bound
  attest ds none = none
  attest ds (some b) =
      if all (validate_attestation_descriptor codec blobs b.runnable) (keep is_attestation ds)
      then some b
      else none

  unfoldable pub bind_sole : List Descriptor → List Descriptor → Option Bound
  unfolding bind_runnable attest
  bind_sole ds [] = none
  bind_sole ds (d ∷ others) =
      if length others == 0 && is_runnable d then attest ds (bind_runnable d) else none

  unfoldable pub validate_primary_oci_index : List ℕ → Option Bound
  unfolding bind_sole
  validate_primary_oci_index content = elim (codec.decode_index content) [
    | none ↦ none
    | some index ↦
        if not (index.schema_version == 2)
          || not (same_text index.media_type oci_index_type)
          || length index.manifests == 0
          || ltb (1 + max_attestation_descriptors) (length index.manifests)
        then none
        else bind_sole index.manifests (keep (λ d. not (is_attestation d)) index.manifests)
  ]

  -- For the expected identity: an index, or the manifest of the image itself.
  unfoldable pub validate_primary_oci_image : Text → List ℕ → Option Bound
  unfolding validate_primary_oci_index
  validate_primary_oci_image expected content = elim (codec.decode_media_type content) [
    | none ↦ none
    | some media_type ↦
        if same_text media_type oci_index_type
        then validate_primary_oci_index content
        else if same_text media_type docker_manifest_type
        then elim (validate_runnable_image_manifest codec sizes blobs content) [
          | none ↦ none
          | some config ↦ some (record {
            media_type = docker_manifest_type;
            runnable = expected;
            accepted = expected ∷ config ∷ [];
          })
        ]
        else none
  ]
