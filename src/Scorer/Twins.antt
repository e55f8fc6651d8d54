-- ===== src/Scorer/Twins.antt =====
-- internal/scorer/scorer.go: the families of cases that ask for one fact in several wordings. The
-- prefixes of their names are constants of dittobench-datagen's package persona.
pub mod Delivery
use dittobench_api.Base.{
  ℕ, suc, ◌+◌, String, Bool, true, false, not, Option, none, some, List, [], ◌∷◌, ◌++◌, ◌==◌, leb,
  ltb, ◌&&◌, ◌||◌, nat_eq, string_eq, if◌then◌else◌, length, any, all,
}
use dittobench_api.Base.Assoc.{Assoc, lookup, insert, delete}
use dittobench_api.Base.Text.{bytes_of}
use dittobench_api.Scorer.Text.{is_prefix}
use dittobench_api.Scorer.Floats.{Floats, round6}
use dittobench_api.Scorer.Case.{CaseScore, AuditHalf, no_half, base_half, transform_half}

pub record Persona : Type 0 where
  pub audit_twin_prefix : String
  pub injection_twin_prefix : String

abbrev has_prefix : String → String → Bool
has_prefix s prefix = is_prefix (bytes_of prefix) (bytes_of s)

-- What a pair of an audit was answered, as far as it was delivered.
pub record Sides : Type 0 where
  pub base : Option Bool
  pub xform : Option Bool

pub record AuditPairCounts : Type 0 where
  pub both_correct : ℕ
  pub base_only : ℕ
  pub transform_only : ℕ
  pub both_wrong : ℕ

-- The verdicts of a group with one more.
unfoldable pub append_verdict : String → Bool → Assoc (List Bool) → Assoc (List Bool)
append_verdict group verdict groups = elim (lookup group groups) [
  | none ↦ insert group (verdict ∷ []) groups
  | some verdicts ↦ insert group (verdicts ++ (verdict ∷ [])) groups
]

abbrev pub is_consistent : List Bool → Bool
is_consistent verdicts = all (λ v. v) verdicts || all not verdicts

unfoldable pub count_consistent : Assoc (List Bool) → ℕ
count_consistent [] = 0
count_consistent ((group, verdicts) ∷ groups) =
    let rest = count_consistent groups in if is_consistent verdicts then rest + 1 else rest

abbrev pub delete_all : List String → Assoc (List Bool) → Assoc (List Bool)
delete_all [] groups = groups
delete_all (g ∷ gs) groups = delete_all gs (delete g groups)

-- The pairs with two verdicts, and those of them with the same.
unfoldable pub count_pairs : Assoc (List Bool) → ℕ × ℕ
count_pairs [] = (0, 0)
count_pairs ((group, []) ∷ groups) = count_pairs groups
count_pairs ((group, a ∷ []) ∷ groups) = count_pairs groups
count_pairs ((group, a ∷ b ∷ []) ∷ groups) =
    let (pairs, consistent) = count_pairs groups in
    (pairs + 1, if (a && b) || (not a && not b) then consistent + 1 else consistent)
count_pairs ((group, a ∷ b ∷ c ∷ verdicts) ∷ groups) = count_pairs groups

unfoldable pub count_sides : Assoc Sides → AuditPairCounts → AuditPairCounts
count_sides [] counts = counts
count_sides ((group, s) ∷ groups) counts = count_sides groups (elim s.base [
  | none ↦ counts
  | some base ↦ elim s.xform [
    | none ↦ counts
    | some xform ↦
        if base && xform
        then record counts { both_correct = counts.both_correct + 1 }
        else if base && not xform
        then record counts { base_only = counts.base_only + 1 }
        else if not base && xform
        then record counts { transform_only = counts.transform_only + 1 }
        else record counts { both_wrong = counts.both_wrong + 1 }
  ]
])

abbrev no_sides : Sides
no_sides = record { base = none; xform = none }

abbrev sides_of : String → Assoc Sides → Sides
sides_of group groups = elim (lookup group groups) [ none ↦ no_sides | some s ↦ s ]

abbrev pub is_half : AuditHalf → Bool
is_half no_half = false
is_half base_half = true
is_half transform_half = true

abbrev set_half : AuditHalf → Bool → Sides → Sides
set_half transform_half correct s = record s { xform = some correct }
set_half base_half correct s = record s { base = some correct }
set_half no_half correct s = record s { base = some correct }

unfoldable pub is_audit_group : Persona → String → Bool
is_audit_group persona twin_group = has_prefix twin_group persona.audit_twin_prefix

module _ {F : Type 0} (ops : Floats F) (persona : Persona) where
  abbrev pub is_ordinary_twin : String → Bool
  is_ordinary_twin twin_group =
      not (twin_group == "")
      && not (is_audit_group persona twin_group)
      && not (has_prefix twin_group persona.injection_twin_prefix)

  -- A case in the first loop of MetamorphicConsistency, with the groups so far and those that lost a
  -- member.
  unfoldable pub gather_twin :
      CaseScore F → Assoc (List Bool) × List String → Assoc (List Bool) × List String
  gather_twin cs (groups, undelivered) =
      if not (is_ordinary_twin cs.twin_group)
      then (groups, undelivered)
      else if cs.undelivered
      then (groups, cs.twin_group ∷ undelivered)
      else (append_verdict cs.twin_group cs.correct groups, undelivered)

  unfoldable pub gather_twins :
      List (CaseScore F) → Assoc (List Bool) × List String → Assoc (List Bool) × List String
  gather_twins [] s = s
  gather_twins (cs ∷ cases) s = gather_twins cases (gather_twin cs s)

  unfoldable pub metamorphic_consistency : List (CaseScore F) → Option F
  metamorphic_consistency cases =
      let (groups, undelivered) = gather_twins cases ([], []) in
      let kept = delete_all undelivered groups in
      if length kept == 0
      then none
      else some
          (round6 ops (ops.div (ops.of_nat (count_consistent kept)) (ops.of_nat (length kept))))

  -- A case in the first loop of AuditPairs.
  unfoldable pub gather_side : CaseScore F → Assoc Sides → Assoc Sides
  gather_side cs groups =
      if not (is_audit_group persona cs.twin_group) || not (is_half cs.audit_half)
      then groups
      else if cs.undelivered
      then groups
      else insert cs.twin_group (set_half cs.audit_half cs.correct (sides_of cs.twin_group groups))
          groups

  unfoldable pub gather_sides : List (CaseScore F) → Assoc Sides → Assoc Sides
  gather_sides [] groups = groups
  gather_sides (cs ∷ cases) groups = gather_sides cases (gather_side cs groups)

  unfoldable pub audit_pairs : List (CaseScore F) → AuditPairCounts
  audit_pairs cases =
      let no_pairs : AuditPairCounts = record {
        both_correct = 0;
        base_only = 0;
        transform_only = 0;
        both_wrong = 0;
      } in
      count_sides (gather_sides cases []) no_pairs

  -- The first loop of TransformRobustness.
  unfoldable pub gather_verdicts : List (CaseScore F) → Assoc (List Bool) → Assoc (List Bool)
  gather_verdicts [] groups = groups
  gather_verdicts (cs ∷ cases) groups =
      let more = append_verdict cs.twin_group cs.correct groups in
      gather_verdicts cases (if not (is_audit_group persona cs.twin_group) then groups else more)

  unfoldable pub transform_robustness : List (CaseScore F) → Option F × ℕ
  transform_robustness cases =
      let (pairs, consistent) = count_pairs (gather_verdicts cases []) in
      if pairs == 0
      then (none, 0)
      else (some (round6 ops (ops.div (ops.of_nat consistent) (ops.of_nat pairs))), pairs)
