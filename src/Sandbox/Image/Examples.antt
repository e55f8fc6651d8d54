-- ===== src/Sandbox/Image/Examples.antt =====
-- internal/sandbox/image.go: a classic archive, for a digest that is the text itself, and the theorem
-- of accepted archives at it.
use dittobench_api.Base.{ℕ, false, Option, none, some, List, [], ◌∷◌, ◌≡◌, refl}
use mathlib.Core.List.{Memᴰ}
use dittobench_api.Base.Text.{bytes_of, cut_prefix, lower}
use dittobench_api.Sandbox.Image.{Text, Codec, Saved, oci_blob_digest, find}
use dittobench_api.Sandbox.Image.Archive.{Member}
use dittobench_api.Sandbox.Image.Check.{Accepted, validate_docker_save_archive}
use dittobench_api.Sandbox.Image.Identities.{IsPresent, Vouched}
use dittobench_api.Sandbox.Image.Vouched.{identities_vouched}
use dittobench_api.Base.{true, if◌then◌else◌}
use dittobench_api.Base.Text.{same_text}
use dittobench_api.Sandbox.Image.Load.{
  Source, References, Host, loaded, failed, load_screened_image,
}
use dittobench_api.Sandbox.Image.Acquired.{IsClean, load_screened_image-IsClean}

abbrev saved : Saved
saved = record {
  config = bytes_of "./ab.json";
  repo_tags = [];
  layers = bytes_of "l/layer.tar" ∷ [];
}

abbrev codec : Codec
codec = record {
  sha256_hex = λ content. content;
  decode_media_type = λ content. none;
  decode_manifest = λ content. none;
  decode_attestation = λ content. none;
  decode_index = λ content. none;
  decode_platform = λ content. none;
  decode_statement = λ content. none;
  decode_saved = λ content. some (saved ∷ []);
  encode_manifest = λ m. some (bytes_of "cd");
}

abbrev member : Text → ℕ → List ℕ → Option Member
member name size content = some (record { name = name; size = size; body = some content })

abbrev archive : List (Option Member)
archive =
    member (bytes_of "ab.json") 2 (bytes_of "ab")
    ∷ member (bytes_of "l/layer.tar") 3 (bytes_of "xyz")
    ∷ member (bytes_of "./manifest.json") 2 (bytes_of "[]")
    ∷ []

abbrev expected_id : Text
expected_id = bytes_of "sha256:ab"

abbrev accepted : Accepted
accepted = record { tagged = false; identities = expected_id ∷ bytes_of "sha256:cd" ∷ [] }

admitted :
    validate_docker_save_archive codec (bytes_of "screen:1") expected_id archive ≡ some accepted
unfolding validate_docker_save_archive cut_prefix lower oci_blob_digest find
admitted = refl

-- The bytes of the config do not have the expected digest.
forged :
    validate_docker_save_archive codec (bytes_of "screen:1") (bytes_of "sha256:ac") archive ≡ none
unfolding validate_docker_save_archive cut_prefix lower oci_blob_digest find
forged = refl

identities_vouched_example :
    IsPresent codec (bytes_of "screen:1") expected_id archive expected_id
    × ((id : Text)
        → Memᴰ id accepted.identities
        → Vouched codec (bytes_of "screen:1") expected_id archive id)
identities_vouched_example =
    identities_vouched codec (bytes_of "screen:1") expected_id archive accepted admitted

abbrev source : Source
source = record {
  screened_image_sha256 = bytes_of "TAR";
  screened_image_id = expected_id;
  screened_image_ref = bytes_of "screen:1";
  screened_image_size = 3;
}

-- The archive has no tag, and Docker knows the image by the manifest of its store.
abbrev host : Host
host = record {
  request = true;
  response = some 200;
  create = true;
  download = some (bytes_of "tar");
  close = true;
  archive = archive;
  inspect_prior = true;
  load = true;
  loaded_source = none;
  inspect = λ id. if same_text id expected_id then none else some id;
  tag_source = true;
  volumes = some [];
  identity = true;
  tag_local = true;
  restore = true;
}

abbrev before : References
before = record { source = some (bytes_of "older"); local = none }

taken :
    load_screened_image host codec source before
    ≡ (loaded, record before { local = some (bytes_of "sha256:cd") })
unfolding load_screened_image validate_docker_save_archive cut_prefix lower oci_blob_digest find
taken = refl

-- Docker did not say what the reference named: it names nothing behind the call.
forgotten :
    load_screened_image (record host { inspect_prior = false }) codec source before
    ≡ (loaded, record { source = none; local = some (bytes_of "sha256:cd") })
unfolding load_screened_image validate_docker_save_archive cut_prefix lower oci_blob_digest find
forgotten = refl

-- The store is overloaded.
unavailable :
    load_screened_image (record host { response = some 503 }) codec source before
    ≡ (failed true, before)
unfolding load_screened_image
unavailable = refl

load_screened_image-IsClean_example :
    IsClean host refl codec source before (load_screened_image host codec source before)
load_screened_image-IsClean_example = load_screened_image-IsClean host refl codec source before
