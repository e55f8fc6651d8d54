-- ===== src/Sandbox/Image/Identities.antt =====
-- internal/sandbox/image.go: an accepted archive has the bytes of every identity that it may get.
use dittobench_api.Base.{
  ℕ, ◌+◌, true, not, Option, none, some, List, [], ◌∷◌, ◌++◌, ◌≡◌, ◌⊎◌, inl, refl, sym, ap, ◌∙◌,
  subst, arith, length, ◌==◌, nat_eq, ltb, ◌||◌, ◌&&◌, if◌then◌else◌, keep, all,
}
use mathlib.Core.Option.{some-injective}
use mathlib.Core.List.{Memᴰ}
use mathlib.Core.List.Memᴰ
use dittobench_api.Base.Text.{bytes_of, cut_prefix, same_text, cut_prefix-append}
use dittobench_api.Sandbox.Image.{
  Text, Codec, Manifest, Descriptor, Index, find, size_of, trim_prefix, blob_name, is_some,
  is_runnable_manifest, validate_runnable_image_manifest, oci_index_type, docker_manifest_type,
  validate_attestation_descriptor, max_attestation_descriptors,
}
use dittobench_api.Sandbox.Image.Archive.{Member, Scan}
use dittobench_api.Sandbox.Image.Primary.{
  Bound, bind_runnable, attest, bind_sole, is_attestation, is_runnable, validate_primary_oci_index,
  validate_primary_oci_image,
}
use dittobench_api.Sandbox.Image.Check.{expected_hex}
use dittobench_api.Sandbox.Image.Contents.{IsHeld, IsSound}
use dittobench_api.Sandbox.Image.Results.{OnSome, OnSome-elim, OnSome-if, OnSome-of}

blob_name-injective :
    (id digest : Text)
    → blob_name id ≡ bytes_of "blobs/sha256/" ++ digest
    → trim_prefix id (bytes_of "sha256:") ≡ digest
unfolding blob_name
blob_name-injective id digest h =
    let start = bytes_of "blobs/sha256/" in
    some-injective (trim_prefix id (bytes_of "sha256:")) digest (
      sym (cut_prefix-append start (trim_prefix id (bytes_of "sha256:")))
      ∙ ap (λ s. cut_prefix s start) h
      ∙ cut_prefix-append start digest)

some_found : {A : Type 0} (o : Option A) → is_some o ≡ true → (a : A) × (o ≡ some a)
some_found none h = ground (arith, h)
some_found (some a) h = (a, refl)

module _ (codec : Codec) (expected_ref expected_id : Text) (members : List (Option Member)) where
  -- The digest of an identity is that of bytes that stand in the archive.
  abbrev pub IsPresent : Text → Type 0
  IsPresent id =
      (content : List ℕ) × IsHeld codec (expected_hex codec expected_ref expected_id) members
        (trim_prefix id (bytes_of "sha256:")) content

  -- The digest of the manifest that a containerd store makes of a classic image, whose config is the
  -- expected one.
  pub record IsStored (id : Text) : Type 0 where
    pub manifest : Manifest
    pub content : List ℕ
    pub config_eq : manifest.config.digest ≡ expected_id
    pub encoded : codec.encode_manifest manifest ≡ some content
    pub id_eq : id ≡ bytes_of "sha256:" ++ codec.sha256_hex content

  abbrev pub Vouched : Text → Type 0
  Vouched id = IsPresent id ⊎ IsStored id

  abbrev pub AllVouched : List Text → Type 0
  AllVouched ids = (id : Text) → Memᴰ id ids → Vouched id

  pub AllVouched-cons :
      (id : Text) (ids : List Text) → Vouched id → AllVouched ids → AllVouched (id ∷ ids)
  AllVouched-cons id ids h k = λ q stands. elim stands [
    | Memᴰ.head same ↦ subst Vouched (sym same) h
    | Memᴰ.tail later ↦ k q later
  ]

  pub AllVouched-nil : AllVouched []
  AllVouched-nil = λ q stands. absurd (Memᴰ.not-nil stands)

  module _ (s : Scan)
      (k : IsSound codec (expected_hex codec expected_ref expected_id) members s) where
    kept-IsPresent :
        (id : Text) (content : List ℕ) → find (blob_name id) s.blobs ≡ some content → IsPresent id
    kept-IsPresent id content found =
        let (digest, named, held) = k.kept (blob_name id) content found in
        (
          content,
          subst (λ d. IsHeld codec (expected_hex codec expected_ref expected_id) members d content)
              (sym (blob_name-injective id digest named)) held,
        )

    config_found :
        (m : Manifest)
        → is_runnable_manifest codec s.sizes s.blobs m ≡ true
        → is_some (find (blob_name m.config.digest) s.blobs) ≡ true
    config_found m h = ground (arith, h)

    config-IsPresent :
        (content : List ℕ)
        → OnSome IsPresent (validate_runnable_image_manifest codec s.sizes s.blobs content)
    unfolding validate_runnable_image_manifest
    config-IsPresent content =
        OnSome-elim IsPresent (codec.decode_manifest content)
          (λ m. if is_runnable_manifest codec s.sizes s.blobs m then some m.config.digest else none)
          λ m e.
            OnSome-if IsPresent (is_runnable_manifest codec s.sizes s.blobs m)
              (some m.config.digest) none
              (λ h.
                let (config, found) =
                  some_found (find (blob_name m.config.digest) s.blobs) (config_found m h) in
                kept-IsPresent m.config.digest config found)
              (λ h. tt)

    abbrev pub IsVouched : Bound → Type 0
    IsVouched b = AllVouched b.accepted

    two-AllVouched : (a b : Text) → Vouched a → Vouched b → AllVouched (a ∷ b ∷ [])
    two-AllVouched a b h k = AllVouched-cons a (b ∷ []) h (AllVouched-cons b [] k AllVouched-nil)

    bind_runnable-IsVouched :
        (d : Descriptor) → OnSome IsVouched (bind_runnable codec s.blobs s.sizes d)
    unfolding bind_runnable
    bind_runnable-IsVouched d =
        let bound = λ (config : Text).
          let b : Bound = record {
            media_type = oci_index_type;
            runnable = d.digest;
            accepted = d.digest ∷ config ∷ [];
          } in
          some b in
        let configured : List ℕ → Option Bound = λ content.
          elim (validate_runnable_image_manifest codec s.sizes s.blobs content) [
            | none ↦ none
            | some config ↦ bound config
          ] in
        let differs = not (size_of (blob_name d.digest) s.sizes == d.size) in
        OnSome-elim IsVouched (find (blob_name d.digest) s.blobs)
          (λ content. if differs then none else configured content)
          λ content found.
            OnSome-if IsVouched differs none (configured content) (λ h. tt)
              λ h.
                OnSome-elim IsVouched
                  (validate_runnable_image_manifest codec s.sizes s.blobs content) bound
                  λ config e.
                    two-AllVouched d.digest config (inl (kept-IsPresent d.digest content found)) (
                      inl (
                        OnSome-of IsPresent
                          (validate_runnable_image_manifest codec s.sizes s.blobs content) config e
                          (config-IsPresent content)))

    attest-IsVouched :
        (ds : List Descriptor) (o : Option Bound)
        → OnSome IsVouched o
        → OnSome IsVouched (attest codec s.blobs s.sizes ds o)
    unfolding attest
    attest-IsVouched ds none h = tt
    attest-IsVouched ds (some b) h =
        OnSome-if IsVouched
          (all (validate_attestation_descriptor codec s.blobs b.runnable) (keep is_attestation ds))
          (some b) none (λ _. h) (λ _. tt)

    bind_sole-IsVouched :
        (ds sole : List Descriptor) → OnSome IsVouched (bind_sole codec s.blobs s.sizes ds sole)
    unfolding bind_sole
    bind_sole-IsVouched ds [] = tt
    bind_sole-IsVouched ds (d ∷ others) =
        let bound = bind_runnable codec s.blobs s.sizes d in
        OnSome-if IsVouched (length others == 0 && is_runnable d)
          (attest codec s.blobs s.sizes ds bound) none
          (λ _. attest-IsVouched ds bound (bind_runnable-IsVouched d)) (λ _. tt)

    index-IsVouched :
        (content : List ℕ)
        → OnSome IsVouched (validate_primary_oci_index codec s.blobs s.sizes content)
    unfolding validate_primary_oci_index
    index-IsVouched content =
        let shapeless = λ (index : Index).
          not (index.schema_version == 2)
          || not (same_text index.media_type oci_index_type)
          || length index.manifests == 0
          || ltb (1 + max_attestation_descriptors) (length index.manifests) in
        let sole = λ (index : Index).
          bind_sole codec s.blobs s.sizes index.manifests
            (keep (λ d. not (is_attestation d)) index.manifests) in
        OnSome-elim IsVouched (codec.decode_index content)
          (λ index. if shapeless index then none else sole index)
          λ index e.
            OnSome-if IsVouched (shapeless index) none (sole index) (λ h. tt)
              λ h.
                bind_sole-IsVouched index.manifests
                  (keep (λ d. not (is_attestation d)) index.manifests)

    pub image-IsVouched :
        (content : List ℕ)
        → IsPresent expected_id
        → OnSome IsVouched (validate_primary_oci_image codec s.blobs s.sizes expected_id content)
    unfolding validate_primary_oci_image
    image-IsVouched content present =
        let bound = λ (config : Text).
          let b : Bound = record {
            media_type = docker_manifest_type;
            runnable = expected_id;
            accepted = expected_id ∷ config ∷ [];
          } in
          some b in
        let plain : Option Bound =
          elim (validate_runnable_image_manifest codec s.sizes s.blobs content) [
            | none ↦ none
            | some config ↦ bound config
          ] in
        let other = λ (media_type : Text).
          if same_text media_type docker_manifest_type then plain else none in
        let index = validate_primary_oci_index codec s.blobs s.sizes content in
        OnSome-elim IsVouched (codec.decode_media_type content)
          (λ media_type. if same_text media_type oci_index_type then index else other media_type)
          λ media_type e.
            OnSome-if IsVouched (same_text media_type oci_index_type) index (other media_type)
              (λ h. index-IsVouched content)
              λ h.
                OnSome-if IsVouched (same_text media_type docker_manifest_type) plain none
                  (λ _.
                    OnSome-elim IsVouched
                      (validate_runnable_image_manifest codec s.sizes s.blobs content) bound
                      λ config e. two-AllVouched expected_id config (inl present) (
                        inl (
                          OnSome-of IsPresent
                            (validate_runnable_image_manifest codec s.sizes s.blobs content) config
                            e (config-IsPresent content))))
                  (λ _. tt)
