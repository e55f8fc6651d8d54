-- ===== src/Sandbox/Image.antt =====
-- internal/sandbox/image.go: the manifests of an image. The digest and the decoding of JSON are
-- arguments; texts are ASCII. A size of Go that is not positive is 0, and a missing annotation is the
-- empty text. An error is none, or false.
pub mod Primary
pub mod Archive
pub mod Results
pub mod Check
pub mod Contents
pub mod Identities
pub mod Vouched
pub mod Load
pub mod Acquired
mod Examples
use dittobench_api.Base.{
  ℕ, ◌+◌, Bool, true, false, not, Option, none, some, List, [], ◌∷◌, ◌++◌, map, ◌==◌, ltb, leb,
  ◌||◌, ◌&&◌, nat_eq, if◌then◌else◌, all, any, length, keep,
}
use dittobench_api.Base.Text.{bytes_of, cut_prefix, same_text, lower}

abbrev pub Text : Type 0
Text = List ℕ

pub record Platform : Type 0 where
  pub architecture : Text
  pub os : Text

-- ociDescriptor and dockerSchema2Descriptor, with the annotations that are read:
-- vnd.docker.reference.type and .digest, io.containerd.manifest.subject, io.containerd.image.name and
-- in-toto.io/predicate-type.
pub record Descriptor : Type 0 where
  pub media_type : Text
  pub digest : Text
  pub size : ℕ
  pub platform : Option Platform
  pub reference_type : Text
  pub reference_digest : Text
  pub manifest_subject : Text
  pub image_name : Text
  pub predicate_type : Text

pub record Manifest : Type 0 where
  pub schema_version : ℕ
  pub media_type : Text
  pub config : Descriptor
  pub layers : List Descriptor

pub record Index : Type 0 where
  pub schema_version : ℕ
  pub media_type : Text
  pub manifests : List Descriptor

-- The digests of the subjects, and the type of the predicate.
pub record Statement : Type 0 where
  pub subjects : List Text
  pub predicate_type : Text

-- An entry of manifest.json.
pub record Saved : Type 0 where
  pub config : Text
  pub repo_tags : List Text
  pub layers : List Text

-- hex.EncodeToString of sha256.Sum256, and json.Unmarshal into each of the types, with the encoding of
-- the manifest of a classic image.
pub record Codec : Type 0 where
  pub sha256_hex : List ℕ → Text
  pub decode_media_type : List ℕ → Option Text
  pub decode_manifest : List ℕ → Option Manifest
  pub decode_attestation : List ℕ → Option Manifest
  pub decode_index : List ℕ → Option Index
  pub decode_platform : List ℕ → Option Platform
  pub decode_statement : List ℕ → Option Statement
  pub decode_saved : List ℕ → Option (List Saved)
  pub encode_manifest : Manifest → Option (List ℕ)

-- A Go map with texts as keys: the entry that was made last is the first.
unfoldable pub find {ℓ} : {A : Type ℓ} → Text → List (Text × A) → Option A
find name [] = none
find name ((key, value) ∷ entries) =
    let rest = find name entries in if same_text key name then some value else rest

-- The zero value for a missing key.
abbrev pub size_of : Text → List (Text × ℕ) → ℕ
size_of name sizes = elim (find name sizes) [ none ↦ 0 | some size ↦ size ]

abbrev pub bytes_at : Text → List (Text × List ℕ) → List ℕ
bytes_at name blobs = elim (find name blobs) [ none ↦ [] | some bytes ↦ bytes ]

-- strings.TrimPrefix
unfoldable pub trim_prefix : Text → Text → Text
trim_prefix s prefix = elim (cut_prefix s prefix) [ none ↦ s | some rest ↦ rest ]

abbrev pub is_hex : ℕ → Bool
is_hex c = (leb b'0' c && leb c b'9') || (leb b'a' c && leb c b'f') || (leb b'A' c && leb c b'F')

unfoldable pub canonical_sha256_digest : Text → Bool
canonical_sha256_digest value = elim (cut_prefix value (bytes_of "sha256:")) [
  | none ↦ false
  | some digits ↦ length value == 71 && same_text value (map lower value) && all is_hex digits
]

-- The digest that a blob's name has.
unfoldable pub oci_blob_digest : Text → Option Text
oci_blob_digest name = elim (cut_prefix name (bytes_of "blobs/sha256/")) [
  | none ↦ none
  | some digest ↦
      if length digest == 64 && same_text digest (map lower digest) && all is_hex digest
      then some digest
      else none
]

unfoldable pub blob_name : Text → Text
unfolding trim_prefix
blob_name digest = bytes_of "blobs/sha256/" ++ trim_prefix digest (bytes_of "sha256:")

abbrev pub oci_index_type : Text
oci_index_type = bytes_of "application/vnd.oci.image.index.v1+json"

abbrev pub oci_manifest_type : Text
oci_manifest_type = bytes_of "application/vnd.oci.image.manifest.v1+json"

abbrev pub oci_config_type : Text
oci_config_type = bytes_of "application/vnd.oci.image.config.v1+json"

abbrev pub docker_manifest_type : Text
docker_manifest_type = bytes_of "application/vnd.docker.distribution.manifest.v2+json"

abbrev pub docker_config_type : Text
docker_config_type = bytes_of "application/vnd.docker.container.image.v1+json"

abbrev pub docker_layer_type : Text
docker_layer_type = bytes_of "application/vnd.docker.image.rootfs.diff.tar"

abbrev in_toto_type : Text
in_toto_type = bytes_of "application/vnd.in-toto+json"

abbrev pub max_attachment_blob_bytes : ℕ
max_attachment_blob_bytes = 16777216

abbrev pub max_classic_image_layers : ℕ
max_classic_image_layers = 1024

abbrev pub max_attestation_descriptors : ℕ
max_attestation_descriptors = 32

-- The loop over the layers of validateRunnableImageManifest.
unfoldable pub valid_layer : Bool → List (Text × ℕ) → Descriptor → Bool
unfolding canonical_sha256_digest blob_name
valid_layer oci sizes layer =
    (if oci
      then same_text layer.media_type (bytes_of "application/vnd.oci.image.layer.v1.tar")
        || same_text layer.media_type (bytes_of "application/vnd.oci.image.layer.v1.tar+gzip")
        || same_text layer.media_type (bytes_of "application/vnd.oci.image.layer.v1.tar+zstd")
      else same_text layer.media_type docker_layer_type
        || same_text layer.media_type
            (bytes_of "application/vnd.docker.image.rootfs.diff.tar.gzip"))
    && canonical_sha256_digest layer.digest
    && ltb 0 layer.size
    && size_of (blob_name layer.digest) sizes == layer.size

abbrev pub is_some {ℓ} : {A : Type ℓ} → Option A → Bool
is_some none = false
is_some (some x) = true

module _ (codec : Codec) (sizes : List (Text × ℕ)) (blobs : List (Text × List ℕ)) where
  abbrev pub is_runnable_manifest : Manifest → Bool
  is_runnable_manifest m =
      let oci = same_text m.media_type oci_manifest_type in
      m.schema_version == 2
      && (same_text m.media_type docker_manifest_type || oci)
      && canonical_sha256_digest m.config.digest
      && ltb 0 m.config.size
      && leb (length m.layers) max_classic_image_layers
      && same_text m.config.media_type (if oci then oci_config_type else docker_config_type)
      && size_of (blob_name m.config.digest) sizes == m.config.size
      && is_some (find (blob_name m.config.digest) blobs)
      && all (valid_layer oci sizes) m.layers

  -- The digest of the config.
  unfoldable pub validate_runnable_image_manifest : List ℕ → Option Text
  validate_runnable_image_manifest content = elim (codec.decode_manifest content) [
    | none ↦ none
    | some m ↦ if is_runnable_manifest m then some m.config.digest else none
  ]

module _ (codec : Codec) (blobs : List (Text × List ℕ)) where
  abbrev is_unknown : Platform → Bool
  is_unknown p =
      same_text p.architecture (bytes_of "unknown") && same_text p.os (bytes_of "unknown")

  abbrev binds : Text → Text → Option Statement → Bool
  binds predicate_type wanted none = false
  binds predicate_type wanted (some s) =
      same_text s.predicate_type predicate_type && any (λ d. same_text d wanted) s.subjects

  abbrev is_attested : Text → Manifest → Descriptor → Bool
  is_attested runnable m layer =
      let config_bytes = bytes_at (blob_name m.config.digest) blobs in
      let layer_bytes = bytes_at (blob_name layer.digest) blobs in
      same_text layer.media_type in_toto_type
      && canonical_sha256_digest layer.digest
      && ltb 0 layer.size
      && leb layer.size max_attachment_blob_bytes
      && not (same_text layer.predicate_type [])
      && length config_bytes == m.config.size
      && length layer_bytes == layer.size
      && elim (codec.decode_platform config_bytes) [ none ↦ false | some p ↦ is_unknown p ]
      && binds layer.predicate_type (trim_prefix runnable (bytes_of "sha256:"))
          (codec.decode_statement layer_bytes)

  abbrev is_bounded_attestation : Text → Manifest → Bool
  is_bounded_attestation runnable m =
      m.schema_version == 2
      && same_text m.media_type oci_manifest_type
      && same_text m.config.media_type oci_config_type
      && canonical_sha256_digest m.config.digest
      && ltb 0 m.config.size
      && elim m.layers [
        | [] ↦ false
        | layer ∷ others ↦ length others == 0 && is_attested runnable m layer
      ]

  unfoldable pub validate_attestation_manifest : Descriptor → Text → Bool
  validate_attestation_manifest d runnable =
      let content = bytes_at (blob_name d.digest) blobs in
      length content == d.size && elim (codec.decode_attestation content) [
        | none ↦ false
        | some m ↦ is_bounded_attestation runnable m
      ]

  -- The reference of an attestation, in either of its forms.
  unfoldable pub attestation_reference : Descriptor → Option Text
  attestation_reference d =
      if same_text d.reference_type (bytes_of "attestation-manifest")
      then elim d.platform [
        | none ↦ none
        | some p ↦ if is_unknown p then some d.reference_digest else none
      ]
      else if not (same_text d.manifest_subject [])
      then elim d.platform [
        | none ↦ some d.manifest_subject
        | some p ↦ if is_unknown p then some d.manifest_subject else none
      ]
      else none

  -- runnableDigests has one digest wherever this is called.
  unfoldable pub validate_attestation_descriptor : Text → Descriptor → Bool
  unfolding attestation_reference validate_attestation_manifest
  validate_attestation_descriptor runnable d =
      same_text d.media_type oci_manifest_type
      && ltb 0 d.size
      && leb d.size max_attachment_blob_bytes
      && elim (attestation_reference d) [
        | none ↦ false
        | some reference ↦
            canonical_sha256_digest d.digest
            && canonical_sha256_digest reference
            && same_text runnable reference
            && same_text d.image_name []
            && validate_attestation_manifest d reference
      ]
