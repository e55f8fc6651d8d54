-- ===== src/Server/Evidence/Seeded.antt =====
-- cmd/dittobench-api/main.go, validateV8EvidenceAvailability: what evidence counts as available.
use dittobench_api.Base.{
  String, Bool, false, not, List, [], ◌∷◌, ◌++◌, ◌≡◌, refl, ap, ◌∙◌, inl, inr, arith, ◌==◌, ◌&&◌,
  ◌||◌, string_eq, text_beq_iff, any, all, Bool-cases,
}
use dittobench_api.Base.Assoc.{Assoc, lookup, lookup-insert}
use dittobench_api.Server.Evidence.{
  is_member, graph_of, pairs_of, add_pairs, add_tool_pairs, add_waves,
  validate_v8_evidence_availability,
}

is_member-append :
    (id : String) (xs ys : List String)
    → is_member id (xs ++ ys) ≡ (is_member id xs || is_member id ys)
is_member-append id [] ys = refl
is_member-append id (x ∷ xs) ys = ground (arith, is_member-append id xs ys)

-- A pair is seeded to a graph by a wave of its user.
abbrev pub seeds : String → String → String × List String → Bool
seeds user id (owner, ids) = graph_of owner == user && is_member id ids

is_member-add_pairs :
    (owner : String) (ids : List String) (available : Assoc (List String)) (user id : String)
    → is_member id (pairs_of user (add_pairs owner ids available))
      ≡ (seeds user id (owner, ids) || is_member id (pairs_of user available))
unfolding add_pairs
is_member-add_pairs owner ids available user id =
    let named = text_beq_iff (graph_of owner) user in
    let there =
      lookup-insert (graph_of owner) user (ids ++ pairs_of (graph_of owner) available) available in
    let both = is_member-append id ids (pairs_of (graph_of owner) available) in
    elim (Bool-cases (graph_of owner == user)) [
      | inl same ↦
          let pairs = ap (λ u. pairs_of u available) (named.0 same) in
          let held : pairs_of user (add_pairs owner ids available)
              ≡ ids ++ pairs_of (graph_of owner) available =
            ground (arith, same, there) in
          ap (is_member id) held
          ∙ both
          ∙ ap (λ ps. is_member id ids || is_member id ps) pairs
          ∙ ground (arith, same)
      | inr other ↦ ground (arith, other, there)
    ]

is_member-add_waves :
    (waves : List (String × List String)) (available : Assoc (List String)) (user id : String)
    → is_member id (pairs_of user (add_waves waves available))
      ≡ (any (seeds user id) waves || is_member id (pairs_of user available))
unfolding add_waves
is_member-add_waves [] available user id = refl
is_member-add_waves ((owner, ids) ∷ waves) available user id = ground (
  arith,
  is_member-add_waves waves (add_pairs owner ids available) user id,
  is_member-add_pairs owner ids available user id,
)

is_member-add_tool_pairs :
    (cases : List (List String)) (available : Assoc (List String)) (user id : String)
    → is_member id (pairs_of user (add_tool_pairs cases available))
      ≡ ((user == "miner" && any (is_member id) cases) || is_member id (pairs_of user available))
unfolding add_tool_pairs
is_member-add_tool_pairs [] available user id = ground arith
is_member-add_tool_pairs (ids ∷ cases) available user id = ground (
  arith,
  is_member-add_tool_pairs cases (add_pairs "miner" ids available) user id,
  is_member-add_pairs "miner" ids available user id,
  text_beq_iff user "miner",
  text_beq_iff "miner" user,
)

-- A pair is seeded to a graph by the tool cases, for the graph of "miner", or by a wave.
abbrev pub is_seeded : List (List String) → List (String × List String) → String → String → Bool
is_seeded tool_cases waves user id =
    (user == "miner" && any (is_member id) tool_cases) || any (seeds user id) waves

all-same {ℓ} :
    {A : Type ℓ} (p q : A → Bool) → ((x : A) → p x ≡ q x) → (xs : List A) → all p xs ≡ all q xs
all-same p q same [] = refl
all-same p q same (x ∷ xs) = ground (arith, same x, all-same p q same xs)

nothing_yet : (user id : String) → is_member id (pairs_of user (("miner", []) ∷ [])) ≡ false
unfolding lookup
nothing_yet user id = ground arith

named_and_seeded :
    (tool_cases : List (List String)) (waves : List (String × List String)) (user id : String)
    → (not (id == "")
        && is_member id
            (pairs_of user (add_waves waves (add_tool_pairs tool_cases (("miner", []) ∷ [])))))
      ≡ (not (id == "") && is_seeded tool_cases waves user id)
named_and_seeded tool_cases waves user id =
    let start : Assoc (List String) = ("miner", []) ∷ [] in
    ground (
      arith,
      is_member-add_waves waves (add_tool_pairs tool_cases start) user id,
      is_member-add_tool_pairs tool_cases start user id,
      nothing_yet user id,
    )

-- The memory cases pass exactly when every pair that they require has a name and is seeded to the graph
-- of their user: by a tool case, for the user that stands for none, or by a wave for this user. What is
-- seeded to one user is not evidence for another.
pub evidence_available_iff :
    (tool_cases : List (List String)) (memory_cases waves : List (String × List String))
    → validate_v8_evidence_availability tool_cases memory_cases waves
      ≡ all
          (λ staged.
            all
              (λ id. not (id == "") && is_seeded tool_cases waves (graph_of staged.0) id)
              staged.1)
          memory_cases
unfolding validate_v8_evidence_availability
evidence_available_iff tool_cases memory_cases waves =
    let start : Assoc (List String) = ("miner", []) ∷ [] in
    let available = add_waves waves (add_tool_pairs tool_cases start) in
    all-same
      (λ staged.
        all (λ id. not (id == "") && is_member id (pairs_of (graph_of staged.0) available))
          staged.1)
      (λ staged.
        all (λ id. not (id == "") && is_seeded tool_cases waves (graph_of staged.0) id) staged.1)
      (λ staged.
        all-same (λ id. not (id == "") && is_member id (pairs_of (graph_of staged.0) available))
          (λ id. not (id == "") && is_seeded tool_cases waves (graph_of staged.0) id)
          (λ id. named_and_seeded tool_cases waves (graph_of staged.0) id) staged.1)
      memory_cases
