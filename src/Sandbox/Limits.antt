-- ===== src/Sandbox/Limits.antt =====
-- internal/sandbox/tarball.go: what an extraction can do at most, whatever the archive holds.
use dittobench_api.Base.{
  ℕ, ◌+◌, ◌≤◌, ◌<◌, Bool, true, false, not, Option, none, some, List, [], ◌∷◌, ◌++◌, ◌≡◌, refl, inl,
  inr, arith, ltb, leb, ◌||◌, if◌then◌else◌, All, Option-cases,
}
use dittobench_api.Sandbox.SafeJoin.{Location, safe_join, safe_join-inside}
use dittobench_api.Sandbox.Extract.{
  max_extracted_bytes, max_tarball_files, type_reg, type_dir, other, Header, Next, entry, corrupt,
  Host, File, Extraction, empty_extraction, Step, fails, goes_on, sane_perm, copy, charge,
  drain_counted, write_regular, extract_body, extract_entry, extract_next, extract,
}

-- A path in the extraction root.
abbrev pub Inside : Location → Location → Type 0
Inside root path = (rest : Location) × (path ≡ root ++ rest)

-- Written in the root, readable and writable by its owner, with permission bits only.
abbrev pub IsSafe : Location → File → Type 0
IsSafe root f = Inside root f.path × (384 ≤ f.perm) × (f.perm < 512)

abbrev pub bytes_written : List File → ℕ
bytes_written [] = 0
bytes_written (f ∷ fs) = f.bytes + bytes_written fs

-- Within its limits, up to some members and bytes over them.
pub record IsLimited (over : ℕ) (root : Location) (x : Extraction) : Type 0 where
  pub members : x.files ≤ max_tarball_files + over
  pub inflated : x.total ≤ max_extracted_bytes + over
  pub stored : bytes_written x.written ≤ x.total
  pub safe : All (IsSafe root) x.written

abbrev pub Judged : Location → Step → Type 0
Judged root (fails x) = IsLimited 1 root x
Judged root (goes_on x) = IsLimited 0 root x

module _ (host : Host) (root : Location) where
  loosened : (x : Extraction) → IsLimited 0 root x → IsLimited 1 root x
  loosened x v = record {
    members = omega (arith, v.members);
    inflated = omega (arith, v.inflated);
    stored = v.stored;
    safe = v.safe;
  }

  drain-Judged :
      (size : ℕ) (x : Extraction) → IsLimited 0 root x → Judged root (drain_counted host size x)
  unfolding drain_counted charge copy
  drain-Judged size x v = elim (Option-cases (host.breaks x.files)) [
    | inl whole ↦ ground (arith, whole, v.members, v.inflated, v.stored, v.safe)
    | inr (n, cut) ↦ ground (arith, cut, v.members, v.inflated, v.stored, v.safe)
  ]

  write-Judged :
      (target : Location) (h : Header) (x : Extraction)
      → Inside root target
      → IsLimited 0 root x
      → Judged root (write_regular host target h x)
  unfolding write_regular charge copy sane_perm
  write-Judged target h x inside v = elim (Option-cases (host.breaks x.files)) [
    | inl whole ↦ ground (arith, whole, inside, v.members, v.inflated, v.stored, v.safe)
    | inr (n, cut) ↦ ground (arith, cut, inside, v.members, v.inflated, v.stored, v.safe)
  ]

  Judged-if :
      (c : Bool) (s t : Step)
      → (c ≡ true → Judged root s)
      → (c ≡ false → Judged root t)
      → Judged root (if c then s else t)
  Judged-if true s t h k = h refl
  Judged-if false s t h k = k refl

  Judged-join :
      (joined : Option Location) (s : Step) (next : Location → Step)
      → Judged root s
      → ((target : Location) → joined ≡ some target → Judged root (next target))
      → Judged root (elim joined [ none ↦ s | some target ↦ next target ])
  Judged-join none s next h k = h
  Judged-join (some target) s next h k = k target refl

  Judged-then :
      (s : Step) (next : Extraction → Step)
      → Judged root s
      → ((y : Extraction) → IsLimited 0 root y → Judged root (next y))
      → Judged root (elim s [ fails y ↦ fails y | goes_on y ↦ next y ])
  Judged-then (fails y) next h k = h
  Judged-then (goes_on y) next h k = k y h

  body-Judged :
      (target : Location) (h : Header) (x : Extraction)
      → Inside root target
      → IsLimited 0 root x
      → Judged root (extract_body host target h x)
  unfolding extract_body
  body-Judged target h x inside v =
      elim h.typeflag
        as (λ t. Judged root (elim t [
          | type_reg ↦
              if not (host.disk x.files) || leb max_extracted_bytes x.total
              then fails x
              else write_regular host target h x
          | type_dir ↦ if host.disk x.files then drain_counted host h.size x else fails x
          | other ↦ drain_counted host h.size x
        ])) [
          | type_reg ↦
              Judged-if (not (host.disk x.files) || leb max_extracted_bytes x.total) (fails x)
                (write_regular host target h x) (λ _. loosened x v)
                (λ _. write-Judged target h x inside v)
          | type_dir ↦
              Judged-if (host.disk x.files) (drain_counted host h.size x) (fails x)
                (λ _. drain-Judged h.size x v) (λ _. loosened x v)
          | other ↦ drain-Judged h.size x v
        ]

  entry-Judged :
      (h : Header) (x : Extraction) → IsLimited 0 root x → Judged root (extract_entry host root h x)
  unfolding extract_entry
  entry-Judged h x v =
      let y : Extraction = record x { files = x.files + 1 } in
      Judged-if (ltb max_tarball_files (x.files + 1)) (fails y)
        (elim (safe_join root h.name) [
          | none ↦ fails y
          | some target ↦ extract_body host target h y
        ])
        (λ many. record {
          members = ground (arith, v.members);
          inflated = ground (arith, v.inflated);
          stored = v.stored;
          safe = v.safe;
        })
        (λ room.
          let w : IsLimited 0 root y = record {
            members = ground (arith, room);
            inflated = v.inflated;
            stored = v.stored;
            safe = v.safe;
          } in
          Judged-join (safe_join root h.name) (fails y) (λ target. extract_body host target h y)
            (loosened y w)
            (λ target joined.
              body-Judged target h y (safe_join-inside root h.name target joined) w))

  next-Judged :
      (m : Next) (x : Extraction) → IsLimited 0 root x → Judged root (extract_next host root m x)
  unfolding extract_next
  next-Judged corrupt x v = loosened x v
  next-Judged (entry h) x v = entry-Judged h x v

  extract-Judged :
      (ms : List Next) (x : Extraction) → IsLimited 0 root x → Judged root (extract host root ms x)
  unfolding extract
  extract-Judged [] x v =
      Judged-if (host.cancelled x.files) (fails x) (goes_on x) (λ _. loosened x v) (λ _. v)
  extract-Judged (m ∷ ms) x v =
      Judged-if (host.cancelled x.files) (fails x) _ (λ _. loosened x v)
        (λ _.
          Judged-then (extract_next host root m x) (extract host root ms) (next-Judged m x v)
            (λ y w. extract-Judged ms y w))

  -- Whatever an archive holds and however the extraction ends: every file that was opened lies in the
  -- extraction root, with permission bits only and readable and writable by its owner; the bytes
  -- written are among the counted ones; and no more than the limits of members and of uncompressed
  -- bytes are taken from the archive, or one more of either where the extraction fails.
  pub extraction_limited : (ms : List Next) → Judged root (extract host root ms empty_extraction)
  extraction_limited ms =
      extract-Judged ms empty_extraction (record {
        members = ground arith;
        inflated = ground arith;
        stored = ground arith;
        safe = tt;
      })
