-- ===== src/Sandbox/Examples.antt =====
-- A concrete archive, and the theorems of its extraction at it.
use dittobench_api.Base.{true, false, none, List, [], ◌∷◌}
use dittobench_api.Base.Text.{bytes_of}
use dittobench_api.Sandbox.SafeJoin.{Location}
use dittobench_api.Sandbox.Extract.{type_reg, other, Next, entry, Host, empty_extraction, extract}
use dittobench_api.Sandbox.Limits.{Judged, extraction_limited}

abbrev root : Location
root = bytes_of "tmp" ∷ bytes_of "build" ∷ []

abbrev host : Host
host = record { cancelled = λ n. false; disk = λ n. true; breaks = λ n. none }

-- A file, a link with a body, and a name that escapes.
abbrev archive : List Next
archive =
    entry (record { typeflag = type_reg; name = bytes_of "Dockerfile"; mode = 2541; size = 700 })
    ∷ entry (record { typeflag = other; name = bytes_of "link"; mode = 511; size = 90 })
    ∷ entry (record { typeflag = type_reg; name = bytes_of "../evil"; mode = 511; size = 4 })
    ∷ []

extraction_limited_example : Judged root (extract host root archive empty_extraction)
extraction_limited_example = extraction_limited host root archive
