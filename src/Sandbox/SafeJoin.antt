-- ===== src/Sandbox/SafeJoin.antt =====
-- internal/sandbox/tarball.go, safeJoin, with what it uses of path/filepath on a system whose
-- separator is the slash. A clean absolute path is the list of its components.
use dittobench_api.Base.{
  ℕ, Bool, true, false, Option, none, some, List, [], ◌∷◌, ◌++◌, ◌≡◌, refl, ap, ◌⊎◌, inl, inr, ◌==◌,
  ◌||◌, nat_eq, if◌then◌else◌, arith, map, sym, ◌∙◌, Bool-cases,
}
use mathlib.Core.List.{reverse}
use dittobench_api.Base.Text.{bytes_of, same_text, same_text_iff, trim_space}

abbrev pub Location : Type 0
Location = List (List ℕ)

abbrev onto_first : ℕ → Location → Location
onto_first c [] = (c ∷ []) ∷ []
onto_first c (s ∷ ss) = (c ∷ s) ∷ ss

-- The texts between the slashes.
unfoldable pub components : List ℕ → Location
components [] = [] ∷ []
components (c ∷ s) = let rest = components s in if c == b'/' then [] ∷ rest else onto_first c rest

abbrev pub is_here : List ℕ → Bool
is_here s = same_text s [] || same_text s (bytes_of ".")

abbrev pub up : List ℕ
up = bytes_of ".."

abbrev pub is_up : List ℕ → Bool
is_up s = same_text s up

abbrev pub starts_up : Location → Bool
starts_up [] = false
starts_up (s ∷ ss) = is_up s

abbrev parent : Location → Location
parent [] = []
parent (s ∷ ss) = ss

-- filepath.Clean of a relative name. The path before a component has its last component first.
unfoldable pub clean_relative : Location → Location → Location
clean_relative before [] = reverse before
clean_relative before (s ∷ ss) =
    if is_here s
    then clean_relative before ss
    else if is_up s
    then clean_relative (elim before [ [] ↦ s ∷ [] | t ∷ ts ↦ if is_up t then s ∷ t ∷ ts else ts ])
        ss
    else clean_relative (s ∷ before) ss

-- filepath.Clean of an absolute path that goes on with the components: the root is its own parent.
unfoldable pub clean_absolute : Location → Location → Location
clean_absolute before [] = reverse before
clean_absolute before (s ∷ ss) =
    if is_here s
    then clean_absolute before ss
    else if is_up s
    then clean_absolute (parent before) ss
    else clean_absolute (s ∷ before) ss

-- filepath.Rel of two clean absolute paths.
unfoldable pub relative : Location → Location → Location
relative [] target = target
relative (s ∷ root) [] = up ∷ map (λ _. up) root
relative (s ∷ root) (t ∷ target) =
    if same_text s t then relative root target else up ∷ (map (λ _. up) root ++ t ∷ target)

abbrev is_absolute : List ℕ → Bool
is_absolute [] = false
is_absolute (c ∷ s) = c == b'/' || c == 0x5c

-- none is an error.
unfoldable pub safe_join : Location → List ℕ → Option Location
safe_join root name =
    if same_text (trim_space name) [] || is_absolute name
    then none
    else let target = clean_absolute (reverse root) (clean_relative [] (components name)) in
      if starts_up (relative root target) then none else some target

below_or_up :
    (root target : Location)
    → ((rest : Location) × (target ≡ root ++ rest)) ⊎ (starts_up (relative root target) ≡ true)
unfolding relative
below_or_up [] target = inl (target, refl)
below_or_up (s ∷ root) [] = inr refl
below_or_up (s ∷ root) (t ∷ target) = elim (Bool-cases (same_text s t)) [
  | inl same ↦ elim (below_or_up root target) [
    | inl (rest, below) ↦
        let equal : t ≡ s = sym ((same_text_iff s t).0 same) in
        inl (rest, ap (λ u. u ∷ target) equal ∙ ap (λ ts. s ∷ ts) below)
    | inr escapes ↦ inr (ground (arith, same, escapes))
  ]
  | inr differ ↦ inr (ground (arith, differ))
]

-- A path that safeJoin accepts lies in the extraction root: it is the root's, and then whatever the
-- name adds.
pub safe_join-inside :
    (root : Location) (name : List ℕ) (target : Location)
    → safe_join root name ≡ some target
    → (rest : Location) × (target ≡ root ++ rest)
unfolding safe_join
safe_join-inside root name target h =
    let joined = clean_absolute (reverse root) (clean_relative [] (components name)) in
    let same : joined ≡ target = ground (arith, h) in
    elim (below_or_up root joined) [
      | inl (rest, below) ↦ (rest, sym same ∙ below)
      | inr escapes ↦ absurd (ground (arith, h, escapes))
    ]
