-- ===== src/Sandbox/Extract.antt =====
-- internal/sandbox/tarball.go, extractTarGz: the extraction loop. What the disk, the archive reader
-- and the context do comes from outside, by the number of the member.
use dittobench_api.Base.{
  ℕ, ◌+◌, ◌-◌, ◌%◌, min, Bool, true, false, not, Option, none, some, List, [], ◌∷◌, ltb, leb, ◌||◌,
  if◌then◌else◌,
}
use dittobench_api.Sandbox.SafeJoin.{Location, safe_join}

abbrev pub max_extracted_bytes : ℕ
max_extracted_bytes = 167772160

abbrev pub max_tarball_files : ℕ
max_tarball_files = 20000

pub data TypeFlag : Type 0 where
  type_reg type_dir other : TypeFlag

pub record Header : Type 0 where
  pub typeflag : TypeFlag
  pub name : List ℕ
  pub mode : ℕ
  pub size : ℕ

-- What tr.Next gives before the end of the archive.
pub data Next : Type 0 where
  entry : Header → Next
  corrupt : Next

-- `cancelled` is read before a member; `disk` is whether directories and the file can be made;
-- `breaks` is after how many bytes a copy of the body fails, if it does.
pub record Host : Type 0 where
  pub cancelled : ℕ → Bool
  pub disk : ℕ → Bool
  pub breaks : ℕ → Option ℕ

-- A file that was opened, with the bytes written to it.
pub record File : Type 0 where
  pub path : Location
  pub perm : ℕ
  pub bytes : ℕ

pub record Extraction : Type 0 where
  pub total : ℕ
  pub files : ℕ
  pub written : List File

abbrev pub empty_extraction : Extraction
empty_extraction = record { total = 0; files = 0; written = [] }

pub data Step : Type 0 where
  fails : Extraction → Step
  goes_on : Extraction → Step

-- sanePerm: of the permission bits, those of the owner to read and write are set, 0o600.
unfoldable pub sane_perm : ℕ → ℕ
sane_perm mode = 384 + mode % 128

-- io.Copy from a reader of a limited number of bytes: the bytes, and whether it ran to its end.
unfoldable pub copy : Option ℕ → ℕ → ℕ → ℕ × Bool
copy none size limit = (min size limit, true)
copy (some n) size limit = (min n (min size limit), false)

-- A body against its budget: the bytes are counted, also where the copy fails.
unfoldable pub charge : ℕ → ℕ × Bool → Extraction → Step
charge budget (n, whole) x =
    let y = record x { total = x.total + n } in
    if whole then (if ltb budget n then fails y else goes_on y) else fails y

unfoldable pub drain_counted : Host → ℕ → Extraction → Step
unfolding charge copy
drain_counted host size x =
    let budget = max_extracted_bytes - x.total in
    charge budget (copy (host.breaks x.files) size (budget + 1)) x

unfoldable pub write_regular : Host → Location → Header → Extraction → Step
unfolding charge copy sane_perm
write_regular host target h x =
    let budget = max_extracted_bytes - x.total in
    let copied = copy (host.breaks x.files) h.size (budget + 1) in
    charge budget copied (record x {
      written = record { path = target; perm = sane_perm h.mode; bytes = copied.0 } ∷ x.written;
    })

unfoldable pub extract_body : Host → Location → Header → Extraction → Step
unfolding write_regular drain_counted
extract_body host target h x = elim h.typeflag [
  | type_reg ↦
      if not (host.disk x.files) || leb max_extracted_bytes x.total
      then fails x
      else write_regular host target h x
  | type_dir ↦ if host.disk x.files then drain_counted host h.size x else fails x
  | other ↦ drain_counted host h.size x
]

unfoldable pub extract_entry : Host → Location → Header → Extraction → Step
unfolding extract_body
extract_entry host root h x =
    let y = record x { files = x.files + 1 } in
    if ltb max_tarball_files y.files then fails y else elim (safe_join root h.name) [
      | none ↦ fails y
      | some target ↦ extract_body host target h y
    ]

unfoldable pub extract_next : Host → Location → Next → Extraction → Step
unfolding extract_entry
extract_next host root (entry h) x = extract_entry host root h x
extract_next host root corrupt x = fails x

-- extractTarGz after the gzip header.
unfoldable pub extract : Host → Location → List Next → Extraction → Step
extract host root [] x = if host.cancelled x.files then fails x else goes_on x
extract host root (m ∷ ms) x =
    if host.cancelled x.files then fails x else elim (extract_next host root m x) [
      | fails y ↦ fails y
      | goes_on y ↦ extract host root ms y
    ]
