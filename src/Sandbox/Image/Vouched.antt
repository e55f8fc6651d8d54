-- ===== src/Sandbox/Image/Vouched.antt =====
-- internal/sandbox/image.go: an accepted archive holds the bytes of every identity that it may get.
use dittobench_api.Base.{
  ℕ, ◌+◌, Bool, false, not, Option, none, some, List, [], ◌∷◌, ◌++◌, ◌≡◌, inl, inr, refl, arith,
  length, ◌==◌, nat_eq, ltb, ◌||◌, ◌&&◌, if◌then◌else◌,
}
use dittobench_api.Base.Text.{bytes_of, same_text}
use dittobench_api.Sandbox.Image.{
  Text, Codec, Descriptor, Index, Saved, find, trim_prefix, max_classic_image_layers,
  max_attestation_descriptors,
}
use dittobench_api.Sandbox.Image.Archive.{Member, Scan, empty_scan, scan_all}
use dittobench_api.Sandbox.Image.Primary.{Bound, validate_primary_oci_image}
use dittobench_api.Sandbox.Image.Check.{
  Accepted, expected_hex, count_primary, check_index, check_oci, find_layers, store_manifest,
  check_classic, check_layout, check_saved, check_scan, validate_docker_save_archive, is_verified,
}
use dittobench_api.Sandbox.Image.Contents.{IsHeld, IsSound, scan_all-IsSound}
use dittobench_api.Sandbox.Image.Results.{OnSome, OnSome-elim, OnSome-if, OnSome-list, OnSome-of}
use dittobench_api.Sandbox.Image.Identities.{
  IsPresent, IsStored, AllVouched, AllVouched-cons, AllVouched-nil, IsVouched, image-IsVouched,
}

module _ (codec : Codec) (expected_ref expected_id : Text) (members : List (Option Member)) where
  abbrev Good : List Text → Type 0
  Good = AllVouched codec expected_ref expected_id members

  abbrev Present : Text → Type 0
  Present = IsPresent codec expected_ref expected_id members

  abbrev hex_of_expected : Text
  hex_of_expected = expected_hex codec expected_ref expected_id

  module _ (s : Scan) (k : IsSound codec hex_of_expected members s) where
    check_index-AllVouched :
        (tagged : Bool) (b : Bound) (index : Index)
        → Good b.accepted
        → OnSome Good (check_index codec expected_ref expected_id tagged s b index)
    unfolding check_index
    check_index-AllVouched tagged b index vouched =
        let miscounted =
          length index.manifests == 0
          || ltb (1 + max_attestation_descriptors) (length index.manifests) in
        let counted =
          count_primary codec expected_ref expected_id tagged s.blobs b index.manifests in
        let once : ℕ → Option (List Text) = λ n. if n == 1 then some b.accepted else none in
        let rest : Option (List Text) = elim counted [ none ↦ none | some n ↦ once n ] in
        OnSome-if Good miscounted none rest (λ _. tt)
          λ _.
            OnSome-elim Good counted once
              λ n e. OnSome-if Good (n == 1) (some b.accepted) none (λ _. vouched) (λ _. tt)

    check_oci-AllVouched :
        (tagged : Bool)
        → Present expected_id
        → OnSome Good (check_oci codec expected_ref expected_id tagged s)
    unfolding check_oci
    check_oci-AllVouched tagged present =
        let image = validate_primary_oci_image codec s.blobs s.sizes expected_id in
        let with_index : List ℕ → Bound → Option (List Text) = λ content b.
          elim (codec.decode_index content) [
            | none ↦ none
            | some index ↦ check_index codec expected_ref expected_id tagged s b index
          ] in
        let with_descriptor : List ℕ → List ℕ → Option (List Text) =
          λ content d. elim (image d) [ none ↦ none | some b ↦ with_index content b ] in
        let with_content : List ℕ → Option (List Text) = λ content. elim s.expected_descriptor [
          | none ↦ none
          | some d ↦ with_descriptor content d
        ] in
        OnSome-elim Good s.index with_content λ content _.
          OnSome-elim Good s.expected_descriptor (with_descriptor content) λ d _.
            OnSome-elim Good (image d) (with_index content) λ b e.
              OnSome-elim Good (codec.decode_index content)
                (check_index codec expected_ref expected_id tagged s b)
                λ index _. check_index-AllVouched tagged b index (
                  OnSome-of (IsVouched codec expected_ref expected_id members s k) (image d) b e
                    (image-IsVouched codec expected_ref expected_id members s k d present))

    check_classic-AllVouched :
        (saved : Saved) → OnSome Good (check_classic codec expected_ref expected_id s saved)
    unfolding check_classic
    check_classic-AllVouched saved =
        let oversized = s.config_size == 0 || ltb max_classic_image_layers (length saved.layers) in
        let manifest = store_manifest codec expected_ref expected_id s.config_size in
        let encoded : List ℕ → Option (List Text) =
          λ content. some ((bytes_of "sha256:" ++ codec.sha256_hex content) ∷ []) in
        let layered : List Descriptor → Option (List Text) = λ layers.
          elim (codec.encode_manifest (manifest layers)) [
            | none ↦ none
            | some content ↦ encoded content
          ] in
        let found = find_layers codec expected_ref expected_id s.layers saved.layers in
        let rest : Option (List Text) = elim found [ none ↦ none | some layers ↦ layered layers ] in
        OnSome-if Good oversized none rest (λ _. tt)
          λ _. OnSome-elim Good found layered λ layers _.
            OnSome-elim Good (codec.encode_manifest (manifest layers)) encoded λ content e.
              let stored : IsStored codec expected_ref expected_id members
                  (bytes_of "sha256:" ++ codec.sha256_hex content) =
                record {
                  manifest = manifest layers;
                  content = content;
                  config_eq = refl;
                  encoded = e;
                  id_eq = refl;
                } in
              AllVouched-cons codec expected_ref expected_id members
                (bytes_of "sha256:" ++ codec.sha256_hex content) [] (inr stored)
                (AllVouched-nil codec expected_ref expected_id members)

    check_layout-AllVouched :
        (tagged : Bool) (saved : Saved)
        → Present expected_id
        → OnSome Good (check_layout codec expected_ref expected_id tagged s saved)
    unfolding check_layout
    check_layout-AllVouched tagged saved present =
        let config = trim_prefix saved.config (bytes_of "./") in
        let verified = is_verified codec expected_ref expected_id config s.verified in
        let oci = check_oci codec expected_ref expected_id tagged s in
        let other : Option (List Text) = if verified then oci else none in
        OnSome-if Good
          (same_text config (expected_hex codec expected_ref expected_id ++ bytes_of ".json"))
          (check_classic codec expected_ref expected_id s saved) other
          (λ _. check_classic-AllVouched saved)
          λ _. OnSome-if Good verified oci none (λ _. check_oci-AllVouched tagged present) (λ _. tt)

    -- Of an accepted archive.
    abbrev Holds : Accepted → Type 0
    Holds a = Present expected_id × Good a.identities

    check_saved-Holds :
        (saved : Saved) → OnSome Holds (check_saved codec expected_ref expected_id s saved)
    unfolding check_saved
    check_saved-Holds saved =
        let tagged : Bool = elim saved.repo_tags [
          | [] ↦ false
          | tag ∷ others ↦ length others == 0 && same_text tag expected_ref
        ] in
        let uncounted = not (s.expected_count == 1) || not s.expected_ok in
        let accept : List Text → Option Accepted =
          λ more. some (record { tagged = tagged; identities = expected_id ∷ more }) in
        let layout = check_layout codec expected_ref expected_id tagged s saved in
        let rest : Option Accepted = elim layout [ none ↦ none | some more ↦ accept more ] in
        let counted : Option Accepted = if uncounted then none else rest in
        OnSome-if Holds (not (length saved.repo_tags == 0) && not tagged) none counted (λ _. tt)
          λ _.
            OnSome-if Holds uncounted none rest (λ _. tt)
              λ h.
                let present = k.expected (ground (arith, h)) in
                OnSome-elim Holds layout accept λ more e. (
                  present,
                  AllVouched-cons codec expected_ref expected_id members expected_id more
                      (inl present)
                      (OnSome-of Good layout more e (check_layout-AllVouched tagged saved present)),
                )

    check_scan-Holds : OnSome Holds (check_scan codec expected_ref expected_id s)
    unfolding check_scan
    check_scan-Holds =
        let one : Saved → List Saved → Option Accepted = λ saved others.
          if length others == 0 then check_saved codec expected_ref expected_id s saved else none in
        let sole : List Saved → Option Accepted =
          λ decoded. elim decoded [ [] ↦ none | saved ∷ others ↦ one saved others ] in
        let decode : List ℕ → Option Accepted = λ content. elim (codec.decode_saved content) [
          | none ↦ none
          | some decoded ↦ sole decoded
        ] in
        OnSome-elim Holds s.manifest decode λ content _.
          OnSome-elim Holds (codec.decode_saved content) sole λ decoded _.
            OnSome-list Holds decoded one λ saved others.
              OnSome-if Holds (length others == 0)
                (check_saved codec expected_ref expected_id s saved) none
                (λ _. check_saved-Holds saved) (λ _. tt)

  nothing_kept :
      (name : Text) (content : List ℕ)
      → find {A = List ℕ} name [] ≡ some content
      → (digest : Text) × (name ≡ bytes_of "blobs/sha256/" ++ digest)
        × IsHeld codec hex_of_expected members digest content
  unfolding find
  nothing_kept name content h = ground (arith, h)

  -- An archive that is accepted holds the bytes of the expected image: the digest of the identity that the
  -- platform signed is that of a member. Every other identity under which Docker may load it is
  -- also the digest of a member, or that of the manifest which binds the expected config. This holds of
  -- any digest function, whatever the documents of the archive decode to.
  pub identities_vouched :
      (a : Accepted)
      → validate_docker_save_archive codec expected_ref expected_id members ≡ some a
      → Present expected_id × Good a.identities
  unfolding validate_docker_save_archive
  identities_vouched a h =
      let start : IsSound codec hex_of_expected members empty_scan = record {
        kept = λ name content found. nothing_kept name content found;
        expected = λ e. ground (arith, e);
      } in
      let scanned = scan_all codec hex_of_expected members empty_scan in
      OnSome-of (λ (b : Accepted). Present expected_id × Good b.identities) _ a h
        (OnSome-elim (λ (b : Accepted). Present expected_id × Good b.identities) scanned
          (check_scan codec expected_ref expected_id)
          λ s e. check_scan-Holds s (
            OnSome-of (IsSound codec hex_of_expected members) scanned s e (
              scan_all-IsSound codec hex_of_expected members members empty_scan (λ m later. later)
                start)))
