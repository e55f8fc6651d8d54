-- ===== src/Sandbox/Image/Load.antt =====
-- internal/sandbox/image.go, loadScreenedImage: how a screened image is fetched, verified and loaded. What
-- the store, the disk and Docker answer is an argument; the fetch and the archive are those of one call.
use dittobench_api.Base.{
  ℕ, Bool, true, false, not, Option, none, some, List, [], ◌∷◌, map, ◌==◌, ltb, leb, ◌||◌, nat_eq,
  if◌then◌else◌, any, length,
}
use dittobench_api.Base.Text.{same_text, lower}
use dittobench_api.Sandbox.Image.{Text, Codec}
use dittobench_api.Sandbox.Image.Archive.{Member}
use dittobench_api.Sandbox.Image.Check.{Accepted, validate_docker_save_archive}

abbrev max_screened_image_bytes : ℕ
max_screened_image_bytes = 8589934592

-- A status that may differ on a later attempt.
unfoldable pub retriable_fetch_status : ℕ → Bool
retriable_fetch_status status = leb 500 status || status == 429

pub record Source : Type 0 where
  pub screened_image_sha256 : Text
  pub screened_image_id : Text
  pub screened_image_ref : Text
  pub screened_image_size : ℕ

-- What the two references name: that of the screener, and that of the request.
pub record References : Type 0 where
  pub source : Option Text
  pub local : Option Text

pub record Host : Type 0 where
  pub request : Bool
  -- The status of the response; none if the fetch failed.
  pub response : Option ℕ
  pub create : Bool
  -- What was copied, at most one byte more than the size; none if the copy failed.
  pub download : Option (List ℕ)
  pub close : Bool
  pub archive : List (Option Member)
  -- Whether Docker answers when it is asked what the screener's reference names before the load.
  pub inspect_prior : Bool
  -- Whether `docker image load` succeeds, and what the screener's reference names after it.
  pub load : Bool
  pub loaded_source : Option Text
  -- The identity that Docker gives an identity of the archive, if it has it.
  pub inspect : Text → Option Text
  pub tag_source : Bool
  -- The volumes that the image declares, none for an error.
  pub volumes : Option Text
  pub identity : Bool
  pub tag_local : Bool
  pub restore : Bool

-- The local reference, or an error and whether it wraps ErrScreenedImageUnavailable.
pub data Loaded : Type 0 where
  loaded : Loaded
  failed : Bool → Loaded

-- The first candidate that Docker has, in any order behind the expected one.
unfoldable pub find_loaded : (Text → Option Text) → List Text → Option Text
find_loaded inspect [] = none
find_loaded inspect (id ∷ ids) =
    let later = find_loaded inspect ids in
    elim (inspect id) [ none ↦ later | some found ↦ some found ]

abbrev pub is_accepted : Text → List Text → Bool
is_accepted id ids = any (λ k. same_text k id) ids

module _ (host : Host) where
  -- restoreImageRef
  unfoldable pub restore_image_ref : Option Text → References → References
  restore_image_ref prior refs = if host.restore then record refs { source = prior } else refs

  -- What the screener's reference seems to name before the load: for inspectImageID an error is as a
  -- reference that names nothing.
  unfoldable pub prior_id : References → Option Text
  prior_id refs = if host.inspect_prior then refs.source else none

  -- An error behind `docker image load`, after which the prior reference is restored.
  unfoldable pub fail_loaded : Option Text → References → Loaded × References
  unfolding restore_image_ref
  fail_loaded prior refs = (failed false, restore_image_ref prior refs)

  -- The local reference takes over.
  unfoldable pub hand_over : Option Text → Text → References → Loaded × References
  unfolding fail_loaded
  hand_over prior id refs =
      let owned = record refs { local = some id } in
      if not host.identity || not host.tag_local
      then fail_loaded prior refs
      else if not host.restore
      then fail_loaded prior owned
      else (loaded, restore_image_ref prior owned)

  unfoldable pub check_loaded : Option Text → List Text → References → Loaded × References
  unfolding hand_over
  check_loaded prior ids refs = elim refs.source [
    | none ↦ fail_loaded prior refs
    | some id ↦ if not (is_accepted id ids) then fail_loaded prior refs else elim host.volumes [
      | none ↦ fail_loaded prior refs
      | some declared ↦
          if same_text declared [] then hand_over prior id refs else fail_loaded prior refs
    ]
  ]

  -- An archive without the tag is tagged from one of its identities.
  unfoldable pub tag_untagged : Option Text → List Text → References → Loaded × References
  unfolding check_loaded find_loaded
  tag_untagged prior ids refs = elim (find_loaded host.inspect ids) [
    | none ↦ fail_loaded prior refs
    | some id ↦
        if not (is_accepted id ids) || not host.tag_source
        then fail_loaded prior refs
        else check_loaded prior ids (record refs { source = some id })
  ]

  unfoldable pub load_archive : Accepted → References → Loaded × References
  unfolding tag_untagged prior_id
  load_archive a refs =
      let prior = prior_id refs in
      let imported = record refs { source = host.loaded_source } in
      if not host.load
      then fail_loaded prior imported
      else if a.tagged
      then check_loaded prior a.identities imported
      else tag_untagged prior a.identities imported

  unfoldable pub verify_download : Codec → Source → List ℕ → References → Loaded × References
  unfolding load_archive
  verify_download codec src content refs =
      if not (length content == src.screened_image_size)
        || not
            (same_text (map lower (codec.sha256_hex content)) (map lower src.screened_image_sha256))
      then (failed false, refs)
      else elim (validate_docker_save_archive codec src.screened_image_ref src.screened_image_id
          host.archive) [ none ↦ (failed false, refs) | some a ↦ load_archive a refs ]

  unfoldable pub save_download : Codec → Source → References → Loaded × References
  unfolding verify_download
  save_download codec src refs =
      if not host.create then (failed true, refs) else elim host.download [
        | none ↦ (failed true, refs)
        | some content ↦
            if not host.close then (failed true, refs) else verify_download codec src content refs
      ]

  unfoldable pub load_screened_image : Codec → Source → References → Loaded × References
  unfolding save_download retriable_fetch_status
  load_screened_image codec src refs =
      if src.screened_image_size == 0
        || ltb max_screened_image_bytes src.screened_image_size
        || not host.request
      then (failed false, refs)
      else elim host.response [
        | none ↦ (failed true, refs)
        | some status ↦
            if status == 200
            then save_download codec src refs
            else (failed (retriable_fetch_status status), refs)
      ]
