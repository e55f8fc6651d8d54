-- ===== src/Server/Evidence.antt =====
-- cmd/dittobench-api/main.go, toolPrerequisiteWave and validateV8EvidenceAvailability: the memories that
-- the cases of a run need are seeded before them. A set of pairs is the list of their identifiers.
pub mod Seeded
use dittobench_api.Base.{
  String, Bool, true, false, not, Option, none, some, List, [], ◌∷◌, ◌++◌, ◌==◌, ◌&&◌, ◌||◌,
  string_eq, any, all, if◌then◌else◌,
}
use dittobench_api.Base.Assoc.{Assoc, lookup, insert}

-- protocol.MemoryPair, its identifier with the rest of it.
abbrev pub Pair : Type 0 → Type 0
Pair A = String × A

abbrev pub is_member : String → List String → Bool
is_member id ids = any (λ i. i == id) ids

module _ {A : Type 0} where
  -- The loop over the pairs of one case, with those seen and the wave so far; none for the error.
  unfoldable pub append_pairs :
      List (Pair A) → List String × List (Pair A) → Option (List String × List (Pair A))
  append_pairs [] s = some s
  append_pairs ((id, rest) ∷ pairs) (seen, wave) =
      let more = append_pairs pairs (id ∷ seen, wave ++ ((id, rest) ∷ [])) in
      if id == "" || is_member id seen then none else more

  unfoldable pub append_cases :
      List (List (Pair A)) → List String × List (Pair A) → Option (List String × List (Pair A))
  unfolding append_pairs
  append_cases [] s = some s
  append_cases (pairs ∷ cases) s = elim (append_pairs pairs s) [
    | none ↦ none
    | some t ↦ append_cases cases t
  ]

  -- The pairs of the wave of user "miner".
  unfoldable pub tool_prerequisite_wave : List (List (Pair A)) → Option (List (Pair A))
  unfolding append_cases
  tool_prerequisite_wave cases = elim (append_cases cases ([], [])) [
    | none ↦ none
    | some s ↦ some s.1
  ]

-- The user that an empty name stands for.
abbrev pub graph_of : String → String
graph_of user = if user == "" then "miner" else user

abbrev pub pairs_of : String → Assoc (List String) → List String
pairs_of user available = elim (lookup user available) [ none ↦ [] | some ids ↦ ids ]

unfoldable pub add_pairs : String → List String → Assoc (List String) → Assoc (List String)
add_pairs user ids available =
    insert (graph_of user) (ids ++ pairs_of (graph_of user) available) available

unfoldable pub add_tool_pairs : List (List String) → Assoc (List String) → Assoc (List String)
add_tool_pairs [] available = available
add_tool_pairs (ids ∷ cases) available = add_tool_pairs cases (add_pairs "miner" ids available)

unfoldable pub add_waves : List (String × List String) → Assoc (List String) → Assoc (List String)
add_waves [] available = available
add_waves ((user, ids) ∷ waves) available = add_waves waves (add_pairs user ids available)

-- Whether there is no error, for the pairs of the tool cases, the pairs that the memory cases require
-- and those of the waves, each with its user.
unfoldable pub validate_v8_evidence_availability :
    List (List String) → List (String × List String) → List (String × List String) → Bool
validate_v8_evidence_availability tool_cases memory_cases waves =
    let available = add_waves waves (add_tool_pairs tool_cases (("miner", []) ∷ [])) in
    all
      (λ staged.
        all (λ id. not (id == "") && is_member id (pairs_of (graph_of staged.0) available))
          staged.1)
      memory_cases
