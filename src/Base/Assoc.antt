-- ===== src/Base/Assoc.antt =====
-- A Go `map[string]V` as an association list: the first entry for a key counts.
use Prim.Native.Nat.{◌+◌, ◌≤◌}
use Prim.Native.String.{String}
use mathlib.Core.Path.{◌≡◌, refl}
use mathlib.Core.List.{List, [], ◌∷◌}
use mathlib.Core.Option.{Option, none, some}
use native.Mathlib.Omega.{arith}
use dittobench_api.Base.Tests.{◌==◌, string_eq, text_beq_iff, if◌then◌else◌}
use dittobench_api.Base.Lists.{length}

abbrev pub Assoc {ℓ} : Type ℓ → Type ℓ
Assoc V = List (String × V)

abbrev pub option_map {ℓ κ} : {A : Type ℓ} {B : Type κ} → (A → B) → Option A → Option B
option_map f none = none
option_map f (some a) = some (f a)

module _ {ℓ} {V : Type ℓ} where
  unfoldable pub lookup : String → Assoc V → Option V
  lookup key [] = none
  lookup key ((here, value) ∷ entries) = if here == key then some value else lookup key entries

  -- entries[key] = value
  unfoldable pub insert : String → V → Assoc V → Assoc V
  insert key value [] = (key, value) ∷ []
  insert key value ((here, old) ∷ entries) =
      if here == key then (key, value) ∷ entries else (here, old) ∷ insert key value entries

  -- delete(entries, key)
  unfoldable pub delete : String → Assoc V → Assoc V
  delete key [] = []
  delete key ((here, old) ∷ entries) =
      let rest = delete key entries in if here == key then rest else (here, old) ∷ rest

  -- A write through the pointer that the map holds at key; nothing without one.
  unfoldable pub modify : String → (V → V) → Assoc V → Assoc V
  modify key f [] = []
  modify key f ((here, old) ∷ entries) =
      if here == key then (here, f old) ∷ entries else (here, old) ∷ modify key f entries

  pub lookup-insert :
      (key asked : String) (value : V) (entries : Assoc V)
      → lookup asked (insert key value entries)
        ≡ (if key == asked then some value else lookup asked entries)
  unfolding lookup insert
  lookup-insert key asked value [] = refl
  lookup-insert key asked value ((here, old) ∷ entries) = ground (
    arith,
    text_beq_iff key asked,
    text_beq_iff here key,
    text_beq_iff here asked,
    lookup-insert key asked value entries,
  )

  pub lookup-delete :
      (key asked : String) (entries : Assoc V)
      → lookup asked (delete key entries) ≡ (if key == asked then none else lookup asked entries)
  unfolding lookup delete
  lookup-delete key asked [] = ground arith
  lookup-delete key asked ((here, old) ∷ entries) = ground (
    arith,
    text_beq_iff key asked,
    text_beq_iff here key,
    text_beq_iff here asked,
    lookup-delete key asked entries,
  )

  pub lookup-modify :
      (key asked : String) (f : V → V) (entries : Assoc V)
      → lookup asked (modify key f entries)
        ≡ (if key == asked then option_map f (lookup asked entries) else lookup asked entries)
  unfolding lookup modify
  lookup-modify key asked f [] = ground arith
  lookup-modify key asked f ((here, old) ∷ entries) = ground (
    arith,
    text_beq_iff key asked,
    text_beq_iff here key,
    text_beq_iff here asked,
    lookup-modify key asked f entries,
  )

  pub length-modify : (k : String) (f : V → V) (m : Assoc V) → length (modify k f m) ≡ length m
  unfolding modify
  length-modify k f [] = refl
  length-modify k f ((i, w) ∷ m) = ground (arith, length-modify k f m)

  pub length-delete-le : (k : String) (m : Assoc V) → length (delete k m) ≤ length m
  unfolding delete
  length-delete-le k [] = omega arith
  length-delete-le k ((i, w) ∷ m) = ground (arith, length-delete-le k m)

  pub length-insert-le : (k : String) (v : V) (m : Assoc V) → length (insert k v m) ≤ length m + 1
  unfolding insert
  length-insert-le k v [] = omega arith
  length-insert-le k v ((i, w) ∷ m) = ground (arith, length-insert-le k v m)
