-- ===== src/Sandbox/Image/Check.antt =====
-- internal/sandbox/image.go, validateDockerSaveArchiveWithStoreIDs: the verdict on a scanned archive.
use dittobench_api.Base.{
  ℕ, ◌+◌, Bool, false, not, Option, none, some, List, [], ◌∷◌, ◌++◌, ◌==◌, ltb, ◌||◌, ◌&&◌, nat_eq,
  if◌then◌else◌, length,
}
use dittobench_api.Base.Text.{bytes_of, same_text}
use dittobench_api.Sandbox.Image.{
  Text, Descriptor, Manifest, Index, Saved, Codec, find, trim_prefix, docker_manifest_type,
  docker_config_type, max_classic_image_layers, max_attestation_descriptors,
  validate_attestation_descriptor,
}
use dittobench_api.Sandbox.Image.Archive.{Member, Scan, empty_scan, plain_descriptor, scan_all}
use dittobench_api.Sandbox.Image.Primary.{Bound, validate_primary_oci_image}

-- What an accepted archive says: whether it has the expected tag, and the identities that it may get.
pub record Accepted : Type 0 where
  pub tagged : Bool
  pub identities : List Text

module _ (codec : Codec) (expected_ref expected_id : Text) where
  abbrev pub expected_hex : Text
  expected_hex = trim_prefix expected_id (bytes_of "sha256:")

  -- The loop over the descriptors of index.json: how many are the expected one; none for an error.
  unfoldable pub count_primary : Bool → List (Text × List ℕ) → Bound → List Descriptor → Option ℕ
  count_primary tagged blobs b [] = some 0
  count_primary tagged blobs b (d ∷ ds) =
      let rest = count_primary tagged blobs b ds in
      let name = trim_prefix d.image_name (bytes_of "docker.io/") in
      if same_text d.digest expected_id
      then (if not (same_text d.media_type b.media_type)
            || (not (same_text name expected_ref) && (tagged || not (same_text name [])))
          then none
          else elim rest [ none ↦ none | some n ↦ some (n + 1) ])
      else if validate_attestation_descriptor codec blobs b.runnable d
      then rest
      else none

  unfoldable pub check_index : Bool → Scan → Bound → Index → Option (List Text)
  unfolding count_primary
  check_index tagged s b index =
      if length index.manifests == 0
        || ltb (1 + max_attestation_descriptors) (length index.manifests)
      then none
      else elim (count_primary tagged s.blobs b index.manifests) [
        | none ↦ none
        | some n ↦ if n == 1 then some b.accepted else none
      ]

  -- An archive in the layout of OCI: the identities beside the expected one.
  unfoldable pub check_oci : Bool → Scan → Option (List Text)
  unfolding validate_primary_oci_image check_index
  check_oci tagged s = elim s.index [
    | none ↦ none
    | some content ↦ elim s.expected_descriptor [
      | none ↦ none
      | some descriptor ↦
          elim (validate_primary_oci_image codec s.blobs s.sizes expected_id descriptor) [
            | none ↦ none
            | some b ↦ elim (codec.decode_index content) [
              | none ↦ none
              | some index ↦ check_index tagged s b index
            ]
          ]
    ]
  ]

  -- The layers that manifest.json names, each of which is in the archive.
  unfoldable pub find_layers : List (Text × Descriptor) → List Text → Option (List Descriptor)
  find_layers layers [] = some []
  find_layers layers (name ∷ names) =
      let rest = find_layers layers names in
      elim (find (trim_prefix name (bytes_of "./")) layers) [
        | none ↦ none
        | some d ↦ elim rest [ none ↦ none | some ds ↦ some (d ∷ ds) ]
      ]

  abbrev pub store_manifest : ℕ → List Descriptor → Manifest
  store_manifest size layers = record {
    schema_version = 2;
    media_type = docker_manifest_type;
    config = plain_descriptor docker_config_type expected_id size;
    layers = layers;
  }

  -- A classic archive: the identity that a containerd store gives it.
  unfoldable pub check_classic : Scan → Saved → Option (List Text)
  unfolding find_layers
  check_classic s saved =
      if s.config_size == 0 || ltb max_classic_image_layers (length saved.layers)
      then none
      else elim (find_layers s.layers saved.layers) [
        | none ↦ none
        | some layers ↦ elim (codec.encode_manifest (store_manifest s.config_size layers)) [
          | none ↦ none
          | some content ↦ some ((bytes_of "sha256:" ++ codec.sha256_hex content) ∷ [])
        ]
      ]

  abbrev pub is_verified : Text → List (Text × Bool) → Bool
  is_verified name verified = elim (find name verified) [ none ↦ false | some ok ↦ ok ]

  -- The identities beside the expected one, in either layout.
  unfoldable pub check_layout : Bool → Scan → Saved → Option (List Text)
  unfolding check_oci check_classic
  check_layout tagged s saved =
      let config = trim_prefix saved.config (bytes_of "./") in
      if same_text config (expected_hex ++ bytes_of ".json")
      then check_classic s saved
      else if is_verified config s.verified
      then check_oci tagged s
      else none

  -- Exactly one member has the expected name, and it has the expected digest.
  unfoldable pub check_saved : Scan → Saved → Option Accepted
  unfolding check_layout
  check_saved s saved =
      let tagged : Bool = elim saved.repo_tags [
        | [] ↦ false
        | tag ∷ others ↦ length others == 0 && same_text tag expected_ref
      ] in
      if not (length saved.repo_tags == 0) && not tagged
      then none
      else if not (s.expected_count == 1) || not s.expected_ok
      then none
      else elim (check_layout tagged s saved) [
        | none ↦ none
        | some more ↦ some (record { tagged = tagged; identities = expected_id ∷ more })
      ]

  unfoldable pub check_scan : Scan → Option Accepted
  unfolding check_saved
  check_scan s = elim s.manifest [
    | none ↦ none
    | some content ↦ elim (codec.decode_saved content) [
      | none ↦ none
      | some [] ↦ none
      | some (saved ∷ others) ↦ if length others == 0 then check_saved s saved else none
    ]
  ]

  unfoldable pub validate_docker_save_archive : List (Option Member) → Option Accepted
  unfolding scan_all check_scan
  validate_docker_save_archive members = elim (scan_all codec expected_hex members empty_scan) [
    | none ↦ none
    | some s ↦ check_scan s
  ]
