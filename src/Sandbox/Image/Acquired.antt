-- ===== src/Sandbox/Image/Acquired.antt =====
-- internal/sandbox/image.go, loadScreenedImage: what every call leaves in Docker.
use dittobench_api.Base.{
  ℕ, Bool, true, false, not, Option, none, some, List, [], map, ◌≡◌, refl, arith, length, ◌==◌, ltb,
  ◌||◌, ◌⊎◌, inl, inr, Bool-cases, nat_eq, if◌then◌else◌,
}
use dittobench_api.Base.Text.{same_text, lower}
use dittobench_api.Sandbox.Image.{Text, Codec}
use dittobench_api.Sandbox.Image.Check.{Accepted, validate_docker_save_archive}
use dittobench_api.Sandbox.Image.Load.{
  Source, References, Host, Loaded, loaded, failed, is_accepted, find_loaded, restore_image_ref,
  prior_id, fail_loaded, hand_over, check_loaded, tag_untagged, load_archive, verify_download,
  save_download, load_screened_image, retriable_fetch_status,
}

module _ (host : Host) (restores : host.restore ≡ true) (codec : Codec) (src : Source) where
  abbrev verdict : Option Accepted
  verdict =
      validate_docker_save_archive codec src.screened_image_ref src.screened_image_id host.archive

  -- What a reference names is what it named, or nothing if Docker did not say what it named.
  abbrev IsRestored : References → Option Text → Type 0
  IsRestored before o = (o ≡ before.source) ⊎ ((host.inspect_prior ≡ false) × (o ≡ none))

  -- What holds of a result that began with these references.
  pub record IsClean (before : References) (result : Loaded × References) : Type 0 where
    pub source_kept : IsRestored before result.1.source
    pub untouched : result.0 ≡ failed true → result.1 ≡ before
    pub verified :
        result.0 ≡ loaded
        → (a : Accepted) × (id : Text) × (verdict ≡ some a)
          × (result.1.local ≡ some id)
          × (is_accepted id a.identities ≡ true)

  IsClean-if :
      (before : References) (test : Bool) (x y : Loaded × References)
      → (test ≡ true → IsClean before x)
      → (test ≡ false → IsClean before y)
      → IsClean before (if test then x else y)
  IsClean-if before true x y h k = h refl
  IsClean-if before false x y h k = k refl

  IsClean-elim :
      {A : Type 0} (before : References) (o : Option A) (x : Loaded × References)
      (f : A → Loaded × References)
      → IsClean before x
      → ((a : A) → o ≡ some a → IsClean before (f a))
      → IsClean before (elim o [ none ↦ x | some a ↦ f a ])
  IsClean-elim before none x f h k = h
  IsClean-elim before (some a) x f h k = k a refl

  refused-IsClean : (before : References) (again : Bool) → IsClean before (failed again, before)
  refused-IsClean before again = record {
    source_kept = inl refl;
    untouched = λ e. refl;
    verified = λ e. cc;
  }

  prior_id-IsRestored :
      (before refs : References)
      → IsRestored before (restore_image_ref host (prior_id host before) refs).source
  unfolding restore_image_ref prior_id
  prior_id-IsRestored before refs = elim (Bool-cases host.inspect_prior) [
    | inl seen ↦ inl (ground (arith, restores, seen))
    | inr unseen ↦ inr (unseen, ground (arith, restores, unseen))
  ]

  fail_loaded-IsClean :
      (before refs : References) → IsClean before (fail_loaded host (prior_id host before) refs)
  unfolding fail_loaded
  fail_loaded-IsClean before refs = record {
    source_kept = prior_id-IsRestored before refs;
    untouched = λ e. cc;
    verified = λ e. cc;
  }

  module _ (before : References) (a : Accepted) (passed : verdict ≡ some a) where
    abbrev prior : Option Text
    prior = prior_id host before

    restored-IsClean :
        (id : Text) (refs : References)
        → is_accepted id a.identities ≡ true
        → IsClean before (loaded, restore_image_ref host prior (record refs { local = some id }))
    unfolding restore_image_ref
    restored-IsClean id refs fits = record {
      source_kept = prior_id-IsRestored before (record refs { local = some id });
      untouched = λ e. cc;
      verified = λ e. (a, id, passed, ground (arith, restores), fits);
    }

    hand_over-IsClean :
        (id : Text) (refs : References)
        → is_accepted id a.identities ≡ true
        → IsClean before (hand_over host prior id refs)
    unfolding hand_over
    hand_over-IsClean id refs fits =
        let owned = record refs { local = some id } in
        let unrestored = not host.restore in
        let last : Loaded × References = (loaded, restore_image_ref host prior owned) in
        let second : Loaded × References =
          if unrestored then fail_loaded host prior owned else last in
        IsClean-if before (not host.identity || not host.tag_local) (fail_loaded host prior refs)
          second (λ _. fail_loaded-IsClean before refs)
          λ _.
            IsClean-if before unrestored (fail_loaded host prior owned) last
              (λ _. fail_loaded-IsClean before owned) (λ _. restored-IsClean id refs fits)

    check_loaded-IsClean :
        (refs : References) → IsClean before (check_loaded host prior a.identities refs)
    unfolding check_loaded
    check_loaded-IsClean refs =
        let fails = fail_loaded host prior refs in
        let fail_clean = fail_loaded-IsClean before refs in
        let declared_by : Text → Text → Loaded × References =
          λ id declared. if same_text declared [] then hand_over host prior id refs else fails in
        let inspected : Text → Loaded × References =
          λ id. elim host.volumes [ none ↦ fails | some declared ↦ declared_by id declared ] in
        let verify : Text → Loaded × References =
          λ id. if not (is_accepted id a.identities) then fails else inspected id in
        IsClean-elim before refs.source fails verify fail_clean λ id _.
          IsClean-if before (not (is_accepted id a.identities)) fails (inspected id)
            (λ _. fail_clean)
            λ fits. IsClean-elim before host.volumes fails (declared_by id) fail_clean λ declared _.
              IsClean-if before (same_text declared []) (hand_over host prior id refs) fails
                (λ _. hand_over-IsClean id refs (ground (arith, fits))) (λ _. fail_clean)

    tag_untagged-IsClean :
        (refs : References) → IsClean before (tag_untagged host prior a.identities refs)
    unfolding tag_untagged
    tag_untagged-IsClean refs =
        let fails = fail_loaded host prior refs in
        let fail_clean = fail_loaded-IsClean before refs in
        let tagged : Text → References = λ id. record refs { source = some id } in
        let refused : Text → Bool =
          λ id. not (is_accepted id a.identities) || not host.tag_source in
        let tag : Text → Loaded × References =
          λ id. if refused id then fails else check_loaded host prior a.identities (tagged id) in
        IsClean-elim before (find_loaded host.inspect a.identities) fails tag fail_clean λ id _.
          IsClean-if before (refused id) fails (check_loaded host prior a.identities (tagged id))
            (λ _. fail_clean) (λ _. check_loaded-IsClean (tagged id))

    load_archive-IsClean : IsClean before (load_archive host a before)
    unfolding load_archive
    load_archive-IsClean =
        let imported = record before { source = host.loaded_source } in
        let ready : Loaded × References =
          if a.tagged
          then check_loaded host prior a.identities imported
          else tag_untagged host prior a.identities imported in
        IsClean-if before (not host.load) (fail_loaded host prior imported) ready
          (λ _. fail_loaded-IsClean before imported)
          λ _.
            IsClean-if before a.tagged (check_loaded host prior a.identities imported)
              (tag_untagged host prior a.identities imported) (λ _. check_loaded-IsClean imported)
              (λ _. tag_untagged-IsClean imported)

  verify_download-IsClean :
      (before : References) (content : List ℕ)
      → IsClean before (verify_download host codec src content before)
  unfolding verify_download
  verify_download-IsClean before content =
      let differs =
        not (length content == src.screened_image_size)
        || not (
            same_text (map lower (codec.sha256_hex content))
              (map lower src.screened_image_sha256)) in
      let rest : Loaded × References = elim verdict [
        | none ↦ (failed false, before)
        | some a ↦ load_archive host a before
      ] in
      IsClean-if before differs (failed false, before) rest (λ _. refused-IsClean before false)
        λ _.
          IsClean-elim before verdict (failed false, before) (λ a. load_archive host a before)
            (refused-IsClean before false) (λ a passed. load_archive-IsClean before a passed)

  save_download-IsClean :
      (before : References) → IsClean before (save_download host codec src before)
  unfolding save_download
  save_download-IsClean before =
      let saved : List ℕ → Loaded × References = λ content.
        if not host.close
        then (failed true, before)
        else verify_download host codec src content before in
      let copied : Loaded × References = elim host.download [
        | none ↦ (failed true, before)
        | some content ↦ saved content
      ] in
      IsClean-if before (not host.create) (failed true, before) copied
        (λ _. refused-IsClean before true)
        λ _.
          IsClean-elim before host.download (failed true, before) saved
            (refused-IsClean before true)
            λ content _.
              IsClean-if before (not host.close) (failed true, before)
                (verify_download host codec src content before) (λ _. refused-IsClean before true)
                (λ _. verify_download-IsClean before content)

  -- While Docker can restore a reference, every call leaves that of the screener as it was, whether the
  -- image is loaded, refused or not fetched; but if Docker did not say what it named before the load,
  -- the call may leave it naming nothing. An error that counts as the validator's own leaves Docker
  -- untouched: it precedes the load. An image that is loaded is named by the local reference under an
  -- identity of its archive, which was accepted.
  pub load_screened_image-IsClean :
      (before : References) → IsClean before (load_screened_image host codec src before)
  unfolding load_screened_image
  load_screened_image-IsClean before =
      let refused =
        src.screened_image_size == 0
        || ltb 8589934592 src.screened_image_size
        || not host.request in
      let answered : ℕ → Loaded × References = λ status.
        if status == 200
        then save_download host codec src before
        else (failed (retriable_fetch_status status), before) in
      let fetched : Loaded × References = elim host.response [
        | none ↦ (failed true, before)
        | some status ↦ answered status
      ] in
      IsClean-if before refused (failed false, before) fetched (λ _. refused-IsClean before false)
        λ _.
          IsClean-elim before host.response (failed true, before) answered
            (refused-IsClean before true)
            λ status _.
              IsClean-if before (status == 200) (save_download host codec src before)
                (failed (retriable_fetch_status status), before) (λ _. save_download-IsClean before)
                (λ _. refused-IsClean before (retriable_fetch_status status))
