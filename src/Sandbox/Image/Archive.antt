-- ===== src/Sandbox/Image/Archive.antt =====
-- internal/sandbox/image.go: the scan of an archive, which is the list of what its reader gives: a member,
-- or an error; its end is the end of the list.
use dittobench_api.Base.{
  ℕ, ◌+◌, Bool, false, Option, none, some, List, [], ◌∷◌, ◌++◌, map, ◌==◌, ltb, leb, ◌||◌, ◌&&◌,
  nat_eq, if◌then◌else◌, length,
}
use dittobench_api.Base.Text.{bytes_of, cut_prefix, same_text, lower}
use mathlib.Core.List.{reverse}
use dittobench_api.Sandbox.Image.{
  Text, Descriptor, Codec, find, trim_prefix, oci_blob_digest, docker_layer_type,
  max_attachment_blob_bytes, max_classic_image_layers, is_some,
}

pub record Member : Type 0 where
  pub name : Text
  pub size : ℕ
  -- What is read of the body; none for an error.
  pub body : Option (List ℕ)

-- What the loop over the members keeps.
pub record Scan : Type 0 where
  pub manifest : Option (List ℕ)
  pub index : Option (List ℕ)
  pub expected_descriptor : Option (List ℕ)
  pub verified : List (Text × Bool)
  pub blobs : List (Text × List ℕ)
  pub sizes : List (Text × ℕ)
  pub small_count : ℕ
  pub small_total : ℕ
  pub expected_count : ℕ
  pub expected_ok : Bool
  pub config_size : ℕ
  pub layers : List (Text × Descriptor)

abbrev pub empty_scan : Scan
empty_scan = record {
  manifest = none;
  index = none;
  expected_descriptor = none;
  verified = [];
  blobs = [];
  sizes = [];
  small_count = 0;
  small_total = 0;
  expected_count = 0;
  expected_ok = false;
  config_size = 0;
  layers = [];
}

abbrev pub has_suffix : Text → Text → Bool
has_suffix s t = is_some (cut_prefix (reverse s) (reverse t))

-- A body of the size of its header.
unfoldable pub read_whole : Member → Option (List ℕ)
read_whole m = elim m.body [
  | none ↦ none
  | some content ↦ if length content == m.size then some content else none
]

-- manifest.json or index.json, once and of at most 1 MiB.
unfoldable pub read_document : Option (List ℕ) → Member → Option (List ℕ)
unfolding read_whole
read_document (some seen) m = none
read_document none m = if m.size == 0 || ltb 1048576 m.size then none else read_whole m

abbrev pub plain_descriptor : Text → Text → ℕ → Descriptor
plain_descriptor media_type digest size = record {
  media_type = media_type;
  digest = digest;
  size = size;
  platform = none;
  reference_type = [];
  reference_digest = [];
  manifest_subject = [];
  image_name = [];
  predicate_type = [];
}

module _ (codec : Codec) (expected_hex : Text) where
  abbrev classic_config : Text
  classic_config = expected_hex ++ bytes_of ".json"

  abbrev expected_blob : Text
  expected_blob = bytes_of "blobs/sha256/" ++ expected_hex

  -- strings.EqualFold with the expected digest.
  abbrev pub has_expected_digest : List ℕ → Bool
  has_expected_digest content =
      same_text (map lower (codec.sha256_hex content)) (map lower expected_hex)

  abbrev keep_if : Bool → Text → List ℕ → List (Text × List ℕ) → List (Text × List ℕ)
  keep_if test name content blobs = if test then (name, content) ∷ blobs else blobs

  -- The size of a blob, whose name occurs once.
  unfoldable pub note_size : Text → ℕ → Scan → Option Scan
  note_size name size s = elim (oci_blob_digest name) [
    | none ↦ some s
    | some digest ↦
        if is_some (find name s.sizes)
        then none
        else some (record s { sizes = (name, size) ∷ s.sizes })
  ]

  unfoldable pub scan_manifest : Member → Scan → Option Scan
  unfolding read_document
  scan_manifest m s = elim (read_document s.manifest m) [
    | none ↦ none
    | some content ↦ some (record s { manifest = some content })
  ]

  unfoldable pub scan_index : Member → Scan → Option Scan
  unfolding read_document
  scan_index m s = elim (read_document s.index m) [
    | none ↦ none
    | some content ↦ some (record s { index = some content })
  ]

  unfoldable pub scan_expected_blob : Text → Member → Scan → Option Scan
  unfolding read_whole
  scan_expected_blob name m s =
      if m.size == 0 || ltb 4194304 m.size then none else elim (read_whole m) [
        | none ↦ none
        | some content ↦
            let ok = has_expected_digest content in
            some (record s {
              expected_count = s.expected_count + 1;
              expected_descriptor = some content;
              expected_ok = ok;
              verified = (name, ok) ∷ s.verified;
              blobs = keep_if ok name content s.blobs;
            })
      ]

  unfoldable pub scan_classic_config : Member → Scan → Option Scan
  unfolding read_whole
  scan_classic_config m s = elim (read_whole m) [
    | none ↦ none
    | some content ↦ some (record s {
      expected_count = s.expected_count + 1;
      config_size = m.size;
      expected_ok = has_expected_digest content;
    })
  ]

  unfoldable pub scan_layer : Text → Member → Scan → Option Scan
  unfolding read_whole
  scan_layer name m s =
      if leb max_classic_image_layers (length s.layers) || is_some (find name s.layers)
      then none
      else elim (read_whole m) [
        | none ↦ none
        | some content ↦
            let digest = bytes_of "sha256:" ++ codec.sha256_hex content in
            some (record s {
              layers = (name, plain_descriptor docker_layer_type digest m.size) ∷ s.layers;
            })
      ]

  -- A blob of at most 16 MiB is kept, if it has its digest.
  unfoldable pub scan_blob : Text → Text → Member → Scan → Option Scan
  unfolding read_whole
  scan_blob name digest m s =
      if ltb 256 (s.small_count + 1) || ltb 67108864 (s.small_total + m.size)
      then none
      else elim (read_whole m) [
        | none ↦ none
        | some content ↦
            let ok = same_text (codec.sha256_hex content) digest in
            some (record s {
              small_count = s.small_count + 1;
              small_total = s.small_total + m.size;
              verified = (name, ok) ∷ s.verified;
              blobs = keep_if ok name content s.blobs;
            })
      ]

  unfoldable pub scan_other : Text → Member → Scan → Option Scan
  unfolding scan_blob
  scan_other name m s = elim (oci_blob_digest name) [
    | none ↦ some s
    | some digest ↦
        if ltb 0 m.size && leb m.size max_attachment_blob_bytes
        then scan_blob name digest m s
        else some s
  ]

  unfoldable pub scan_named : Text → Member → Scan → Option Scan
  unfolding scan_manifest scan_index scan_expected_blob scan_classic_config scan_layer scan_other
  scan_named name m s =
      if same_text name (bytes_of "manifest.json")
      then scan_manifest m s
      else if same_text name (bytes_of "index.json")
      then scan_index m s
      else if same_text name expected_blob
      then scan_expected_blob name m s
      else if same_text name classic_config
      then scan_classic_config m s
      else if has_suffix name (bytes_of "/layer.tar")
      then scan_layer name m s
      else scan_other name m s

  unfoldable pub scan_member : Member → Scan → Option Scan
  unfolding note_size scan_named trim_prefix
  scan_member m s =
      let name = trim_prefix m.name (bytes_of "./") in
      elim (note_size name m.size s) [ none ↦ none | some sized ↦ scan_named name m sized ]

  -- The loop over the members.
  unfoldable pub scan_all : List (Option Member) → Scan → Option Scan
  unfolding scan_member
  scan_all [] s = some s
  scan_all (none ∷ members) s = none
  scan_all (some m ∷ members) s = elim (scan_member m s) [
    | none ↦ none
    | some next ↦ scan_all members next
  ]
