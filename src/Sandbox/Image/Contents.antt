-- ===== src/Sandbox/Image/Contents.antt =====
-- internal/sandbox/image.go: what the scan of an archive keeps has the digest of its name.
use dittobench_api.Base.{
  ℕ, ◌+◌, Bool, true, false, Option, none, some, List, [], ◌∷◌, ◌++◌, ◌≡◌, ◌⊎◌, inl, inr, refl, sym,
  ap, ◌∙◌, subst, arith, map, length, ◌==◌, nat_eq, ltb, leb, ◌||◌, ◌&&◌, if◌then◌else◌,
}
use mathlib.Core.List.{Memᴰ}
use dittobench_api.Base.Text.{bytes_of, same_text, same_text_iff, lower, cut_prefix-some}
use dittobench_api.Sandbox.Image.{
  Text, Codec, find, trim_prefix, oci_blob_digest, max_attachment_blob_bytes,
  max_classic_image_layers, docker_layer_type, is_some,
}
use dittobench_api.Sandbox.Image.Archive.{
  Member, Scan, plain_descriptor, read_whole, read_document, has_suffix, has_expected_digest,
  note_size, scan_manifest, scan_index, scan_expected_blob, scan_classic_config, scan_layer,
  scan_blob, scan_other, scan_named, scan_member, scan_all,
}
use dittobench_api.Sandbox.Image.Results.{OnSome, OnSome-elim, OnSome-case, OnSome-if, OnSome-of}

read_whole-body :
    (m : Member) (content : List ℕ) → read_whole m ≡ some content → m.body ≡ some content
unfolding read_whole
read_whole-body m content h = ground (arith, h)

find-cons :
    (q key : Text) (value content : List ℕ) (blobs : List (Text × List ℕ))
    → find q ((key, value) ∷ blobs) ≡ some content
    → ((key ≡ q) × (value ≡ content)) ⊎ (find q blobs ≡ some content)
unfolding find
find-cons q key value content blobs h = ground (arith, h, same_text_iff key q)

module _ (codec : Codec) (hex : Text) (members : List (Option Member)) where
  -- Bytes of a member of the archive, with a digest, whatever the case of its letters.
  pub record IsHeld (digest : Text) (content : List ℕ) : Type 0 where
    pub member : Member
    pub stands : Memᴰ (some member) members
    pub read : member.body ≡ some content
    pub digest_eq : map lower (codec.sha256_hex content) ≡ map lower digest

  abbrev pub IsKept : List (Text × List ℕ) → Type 0
  IsKept blobs =
      (name : Text) (content : List ℕ)
      → find name blobs ≡ some content
      → (digest : Text) × (name ≡ bytes_of "blobs/sha256/" ++ digest) × IsHeld digest content

  -- Every blob that was kept has the digest of its name, and so has the expected member.
  pub record IsSound (s : Scan) : Type 0 where
    pub kept : IsKept s.blobs
    pub expected : s.expected_ok ≡ true → (content : List ℕ) × IsHeld hex content

  keep_if-IsKept :
      (ok : Bool) (name digest : Text) (content : List ℕ) (blobs : List (Text × List ℕ))
      → name ≡ bytes_of "blobs/sha256/" ++ digest
      → (ok ≡ true → IsHeld digest content)
      → IsKept blobs
      → IsKept (if ok then (name, content) ∷ blobs else blobs)
  keep_if-IsKept false name digest content blobs named held kept = kept
  keep_if-IsKept true name digest content blobs named held kept = λ q found h.
      elim (find-cons q name content found blobs h) [
        | inl (same, value) ↦ (digest, sym same ∙ named, subst (IsHeld digest) value (held refl))
        | inr older ↦ kept q found older
      ]

  module _ (m : Member) (stands : Memᴰ (some m) members) where
    IsHeld-of :
        (digest : Text) (content : List ℕ)
        → read_whole m ≡ some content
        → map lower (codec.sha256_hex content) ≡ map lower digest
        → IsHeld digest content
    IsHeld-of digest content read e = record {
      member = m;
      stands = stands;
      read = read_whole-body m content read;
      digest_eq = e;
    }

    expected-IsHeld :
        (content : List ℕ)
        → read_whole m ≡ some content
        → has_expected_digest codec hex content ≡ true
        → IsHeld hex content
    expected-IsHeld content read ok =
        IsHeld-of hex content read
          ((same_text_iff (map lower (codec.sha256_hex content)) (map lower hex)).0 ok)

    note_size-IsSound :
        (name : Text) (s : Scan) → IsSound s → OnSome IsSound (note_size codec hex name m.size s)
    unfolding note_size
    note_size-IsSound name s k = ground (arith, k)

    keeps : (s t : Scan) → IsSound s → t.blobs ≡ s.blobs → t.expected_ok ≡ s.expected_ok → IsSound t
    keeps s t k same ok = record {
      kept = subst IsKept (sym same) k.kept;
      expected = λ h. k.expected (sym ok ∙ h);
    }

    scan_manifest-IsSound : (s : Scan) → IsSound s → OnSome IsSound (scan_manifest codec hex m s)
    unfolding scan_manifest
    scan_manifest-IsSound s k =
        OnSome-elim IsSound (read_document s.manifest m)
          (λ content. some (record s { manifest = some content }))
          (λ content e. keeps s _ k refl refl)

    scan_index-IsSound : (s : Scan) → IsSound s → OnSome IsSound (scan_index codec hex m s)
    unfolding scan_index
    scan_index-IsSound s k =
        OnSome-elim IsSound (read_document s.index m)
          (λ content. some (record s { index = some content })) (λ content e. keeps s _ k refl refl)

    scan_classic_config-IsSound :
        (s : Scan) → IsSound s → OnSome IsSound (scan_classic_config codec hex m s)
    unfolding scan_classic_config
    scan_classic_config-IsSound s k =
        OnSome-elim IsSound (read_whole m)
          (λ content. some (record s {
            expected_count = s.expected_count + 1;
            config_size = m.size;
            expected_ok = has_expected_digest codec hex content;
          }))
          λ content read. record {
            kept = k.kept;
            expected = λ ok. (content, expected-IsHeld content read ok);
          }

    scan_expected_blob-IsSound :
        (name : Text) (s : Scan)
        → name ≡ bytes_of "blobs/sha256/" ++ hex
        → IsSound s
        → OnSome IsSound (scan_expected_blob codec hex name m s)
    unfolding scan_expected_blob
    scan_expected_blob-IsSound name s named k =
        let put = λ (content : List ℕ).
          let ok = has_expected_digest codec hex content in
          some (record s {
            expected_count = s.expected_count + 1;
            expected_descriptor = some content;
            expected_ok = ok;
            verified = (name, ok) ∷ s.verified;
            blobs = if ok then (name, content) ∷ s.blobs else s.blobs;
          }) in
        OnSome-if IsSound (m.size == 0 || ltb 4194304 m.size) none _ (λ h. tt)
          λ h. OnSome-elim IsSound (read_whole m) put λ content read. record {
            kept =
                keep_if-IsKept (has_expected_digest codec hex content) name hex content s.blobs
                  named (expected-IsHeld content read) k.kept;
            expected = λ ok. (content, expected-IsHeld content read ok);
          }

    scan_layer-IsSound :
        (name : Text) (s : Scan) → IsSound s → OnSome IsSound (scan_layer codec hex name m s)
    unfolding scan_layer
    scan_layer-IsSound name s k =
        let full = leb max_classic_image_layers (length s.layers) || is_some (find name s.layers) in
        let put = λ (content : List ℕ).
          let digest = bytes_of "sha256:" ++ codec.sha256_hex content in
          some (record s {
            layers = (name, plain_descriptor docker_layer_type digest m.size) ∷ s.layers;
          }) in
        OnSome-if IsSound full none _ (λ h. tt)
          λ h. OnSome-elim IsSound (read_whole m) put (λ content read. keeps s _ k refl refl)

    scan_blob-IsSound :
        (name digest : Text) (s : Scan)
        → name ≡ bytes_of "blobs/sha256/" ++ digest
        → IsSound s
        → OnSome IsSound (scan_blob codec hex name digest m s)
    unfolding scan_blob
    scan_blob-IsSound name digest s named k =
        let put = λ (content : List ℕ).
          let ok = same_text (codec.sha256_hex content) digest in
          some (record s {
            small_count = s.small_count + 1;
            small_total = s.small_total + m.size;
            verified = (name, ok) ∷ s.verified;
            blobs = if ok then (name, content) ∷ s.blobs else s.blobs;
          }) in
        OnSome-if IsSound _ none _ (λ h. tt)
          λ h. OnSome-elim IsSound (read_whole m) put λ content read. record {
            kept =
                keep_if-IsKept (same_text (codec.sha256_hex content) digest) name digest content
                  s.blobs named
                  (λ ok.
                    IsHeld-of digest content read
                      (ap (map lower) ((same_text_iff (codec.sha256_hex content) digest).0 ok)))
                  k.kept;
            expected = k.expected;
          }

    digest-named :
        (name digest : Text)
        → oci_blob_digest name ≡ some digest
        → name ≡ bytes_of "blobs/sha256/" ++ digest
    unfolding oci_blob_digest
    digest-named name digest h =
        ground (arith, h, cut_prefix-some name (bytes_of "blobs/sha256/") digest)

    scan_other-IsSound :
        (name : Text) (s : Scan) → IsSound s → OnSome IsSound (scan_other codec hex name m s)
    unfolding scan_other
    scan_other-IsSound name s k =
        let small = ltb 0 m.size && leb m.size max_attachment_blob_bytes in
        OnSome-case IsSound (oci_blob_digest name) (some s)
          (λ digest. if small then scan_blob codec hex name digest m s else some s) k
          λ digest named.
            OnSome-if IsSound small (scan_blob codec hex name digest m s) (some s)
              (λ h. scan_blob-IsSound name digest s (digest-named name digest named) k) (λ h. k)

    scan_named-IsSound :
        (name : Text) (s : Scan) → IsSound s → OnSome IsSound (scan_named codec hex name m s)
    unfolding scan_named
    scan_named-IsSound name s k =
        let blob = bytes_of "blobs/sha256/" ++ hex in
        let classic = same_text name (hex ++ bytes_of ".json") in
        let suffixed = has_suffix name (bytes_of "/layer.tar") in
        let last =
          if suffixed then scan_layer codec hex name m s else scan_other codec hex name m s in
        let fourth = if classic then scan_classic_config codec hex m s else last in
        let third = if same_text name blob then scan_expected_blob codec hex name m s else fourth in
        let second =
          if same_text name (bytes_of "index.json") then scan_index codec hex m s else third in
        OnSome-if IsSound (same_text name (bytes_of "manifest.json")) (scan_manifest codec hex m s)
          second (λ h. scan_manifest-IsSound s k)
          λ h.
            OnSome-if IsSound (same_text name (bytes_of "index.json")) (scan_index codec hex m s)
              third (λ h. scan_index-IsSound s k)
              λ h.
                OnSome-if IsSound (same_text name blob) (scan_expected_blob codec hex name m s)
                  fourth (λ e. scan_expected_blob-IsSound name s ((same_text_iff name blob).0 e) k)
                  λ h.
                    OnSome-if IsSound classic (scan_classic_config codec hex m s) last
                      (λ h. scan_classic_config-IsSound s k)
                      λ h.
                        OnSome-if IsSound suffixed (scan_layer codec hex name m s)
                          (scan_other codec hex name m s) (λ h. scan_layer-IsSound name s k)
                          (λ h. scan_other-IsSound name s k)

    scan_member-IsSound : (s : Scan) → IsSound s → OnSome IsSound (scan_member codec hex m s)
    unfolding scan_member
    scan_member-IsSound s k =
        let name = trim_prefix m.name (bytes_of "./") in
        OnSome-elim IsSound (note_size codec hex name m.size s) (scan_named codec hex name m) λ t e.
          scan_named-IsSound name t
            (OnSome-of IsSound (note_size codec hex name m.size s) t e (note_size-IsSound name s k))

  pub scan_all-IsSound :
      (ms : List (Option Member)) (s : Scan)
      → ((m : Option Member) → Memᴰ m ms → Memᴰ m members)
      → IsSound s
      → OnSome IsSound (scan_all codec hex ms s)
  unfolding scan_all
  scan_all-IsSound [] s within k = k
  scan_all-IsSound (none ∷ ms) s within k = tt
  scan_all-IsSound (some m ∷ ms) s within k =
      let stands = within (some m) (Memᴰ.head refl) in
      OnSome-elim IsSound (scan_member codec hex m s) (scan_all codec hex ms) λ t e.
        scan_all-IsSound ms t (λ x later. within x (Memᴰ.tail later))
          (OnSome-of IsSound (scan_member codec hex m s) t e (scan_member-IsSound m stands s k))
