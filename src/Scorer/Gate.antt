-- ===== src/Scorer/Gate.antt =====
-- internal/scorer/scorer.go and v7.go: the factors that a composite score is multiplied by. The names
-- of categories, and the total of pairs, are those of dittobench-datagen's packages gen and protocol.
pub mod Unobserved
use dittobench_api.Base.{
  ℕ, suc, ◌+◌, ◌-◌, String, Bool, true, false, not, Option, none, some, List, [], ◌∷◌, ◌++◌, map,
  ◌==◌, leb, ltb, ◌&&◌, ◌||◌, nat_eq, string_eq, if◌then◌else◌, length, any, all,
}
use dittobench_api.Base.Text.{bytes_of, lower}
use dittobench_api.Scorer.Text.{index}
use dittobench_api.Scorer.Floats.{Floats, zero_float, one_float, round6}
use dittobench_api.Scorer.Arguments.{Note, said, naming, counting}
use dittobench_api.Scorer.Case.{
  CaseScore, Kind, tool_kind, memory_kind, is_memory_tool, bench_version_v7,
}
use dittobench_api.Scorer.Twins.{Persona, AuditPairCounts, metamorphic_consistency, audit_pairs}

pub record Categories : Type 0 where
  pub total_pairs : AuditPairCounts → ℕ
  pub chitchat : String
  pub declarative_ack : String
  pub declarative_behavior : String
  pub lifecycle_write : String

-- effParams, its penalty and its gate as decimals.
pub record EffParams : Type 0 where
  pub free_overshoot : ℕ
  pub full_overshoot : ℕ
  pub max_penalty : ℕ × ℕ
  pub gate_score : ℕ × ℕ

abbrev pub legacy_eff_params : EffParams
legacy_eff_params = record {
  free_overshoot = 1;
  full_overshoot = 5;
  max_penalty = (15, 2);
  gate_score = (5, 1);
}

abbrev pub v7_eff_params : EffParams
v7_eff_params = record {
  free_overshoot = 0;
  full_overshoot = 3;
  max_penalty = (40, 2);
  gate_score = (6, 1);
}

abbrev pub canary_leak_note : String
canary_leak_note = "canary-leak"

abbrev is_note : String → Note → Bool
is_note marker (said s) = s == marker
is_note marker (naming a b c) = false
is_note marker (counting a b c) = false

abbrev pub is_memory : Kind → Bool
is_memory tool_kind = false
is_memory memory_kind = true

unfoldable pub all_memory_tool_names : List String → Bool
all_memory_tool_names [] = false
all_memory_tool_names (n ∷ names) = all is_memory_tool (n ∷ names)

abbrev contains : List ℕ → List ℕ → Bool
contains s sub = elim (index s sub) [ none ↦ false | some i ↦ true ]

module _ {F : Type 0} (ops : Floats F) where
  unfoldable pub overshoot_efficiency_with : ℕ → ℕ → EffParams → F
  overshoot_efficiency_with expected actual p =
      let over = actual - expected in
      let frac =
        ops.div (ops.of_nat (over - p.free_overshoot))
          (ops.of_nat (p.full_overshoot - p.free_overshoot)) in
      let capped : F = if ops.less (one_float ops) frac then one_float ops else frac in
      if leb over p.free_overshoot
      then one_float ops
      else ops.sub (one_float ops) (ops.mul capped (ops.decimal p.max_penalty.0 p.max_penalty.1))

  abbrev pub counts_for_efficiency : EffParams → CaseScore F → Bool
  counts_for_efficiency p cs =
      not (is_memory cs.kind)
      && cs.observed
      && not (all_memory_tool_names cs.expected)
      && not cs.allow_extra_tools
      && not (ltb (length cs.expected) 1)
      && not (ops.less cs.score (ops.decimal p.gate_score.0 p.gate_score.1))

  -- The sum and the number of the cases, in the loop of toolEfficiencyFactorWith.
  unfoldable pub sum_efficiency : EffParams → List (CaseScore F) → F × ℕ → F × ℕ
  sum_efficiency p [] s = s
  sum_efficiency p (cs ∷ cases) s =
      let one = overshoot_efficiency_with (length cs.expected) (length cs.called) p in
      sum_efficiency p cases (if counts_for_efficiency p cs then (ops.add s.0 one, s.1 + 1) else s)

  unfoldable pub tool_efficiency_factor_with : List (CaseScore F) → EffParams → F
  tool_efficiency_factor_with cases p =
      let (sum, n) = sum_efficiency p cases (zero_float ops, 0) in
      if n == 0 then one_float ops else ops.div sum (ops.of_nat n)

  unfoldable pub is_canary_case : CaseScore F → Bool
  is_canary_case cs =
      is_memory cs.kind && contains (map lower (bytes_of cs.category)) (bytes_of "canary")

  -- The loop of canaryIntegrityFactorWith: whether a case leaked.
  unfoldable pub has_canary_leak : List (CaseScore F) → Bool
  has_canary_leak cases =
      any
        (λ cs.
          is_canary_case cs
          && not (ops.less_eq (ops.decimal 5 1) cs.score)
          && any (is_note canary_leak_note) cs.notes)
        cases

  unfoldable pub canary_integrity_factor_with : List (CaseScore F) → F → F
  canary_integrity_factor_with cases leak_penalty =
      if has_canary_leak cases then leak_penalty else one_float ops

  -- The sum of the correct cases of a category, and their number.
  unfoldable pub sum_slice : String → List (CaseScore F) → F × ℕ → F × ℕ
  sum_slice category [] s = s
  sum_slice category (cs ∷ cases) s =
      let sum : F = if cs.correct then ops.add s.0 (one_float ops) else s.0 in
      sum_slice category cases
        (if is_memory cs.kind && cs.category == category then (sum, s.1 + 1) else s)

  unfoldable pub slice_mean : List (CaseScore F) → String → Option F
  slice_mean cases category =
      let (sum, n) = sum_slice category cases (zero_float ops, 0) in
      if n == 0 then none else some (ops.div sum (ops.of_nat n))

  -- The loop of ConversationalSanity over the means of the slices.
  unfoldable pub pool_slices : List (Option F) → F × ℕ → Option F
  pool_slices [] (log_sum, n) =
      if n == 0 then none else some (round6 ops (ops.exp (ops.div log_sum (ops.of_nat n))))
  pool_slices (none ∷ slices) s = pool_slices slices s
  pool_slices (some m ∷ slices) s =
      let rest = pool_slices slices (ops.add s.0 (ops.log m), s.1 + 1) in
      if ops.less_eq m (zero_float ops) then some (zero_float ops) else rest

  module _ (persona : Persona) (categories : Categories) where
    abbrev pub is_over_call : CaseScore F → Bool
    is_over_call cs = any (λ name. not (is_memory_tool name)) cs.called

    abbrev pub counts_for_over_call : CaseScore F → Bool
    counts_for_over_call cs =
        is_memory cs.kind && cs.observed && not (cs.category == categories.lifecycle_write)

    -- The cases that were observed, and those of them with a call that is not of the memory.
    unfoldable pub count_over_calls : List (CaseScore F) → ℕ × ℕ → ℕ × ℕ
    count_over_calls [] s = s
    count_over_calls (cs ∷ cases) s =
        let over = if is_over_call cs then s.1 + 1 else s.1 in
        count_over_calls cases (if counts_for_over_call cs then (s.0 + 1, over) else s)

    unfoldable pub memory_over_call_factor_with : List (CaseScore F) → F → F
    memory_over_call_factor_with cases max_penalty =
        let (observed, over_called) = count_over_calls cases (0, 0) in
        let rate = ops.div (ops.of_nat over_called) (ops.of_nat observed) in
        if observed == 0
        then one_float ops
        else round6 ops (ops.sub (one_float ops) (ops.mul max_penalty rate))

    unfoldable pub metamorphic_consistency_factor_with : List (CaseScore F) → F → F
    metamorphic_consistency_factor_with cases max_penalty =
        elim (metamorphic_consistency ops persona cases) [
          | none ↦ one_float ops
          | some rate ↦
              round6 ops
                (ops.sub (one_float ops) (ops.mul max_penalty (ops.sub (one_float ops) rate)))
        ]

    unfoldable pub conversational_sanity : List (CaseScore F) → Option F
    conversational_sanity cases =
        pool_slices
          (map (slice_mean cases) (
            categories.chitchat ∷ categories.declarative_ack ∷ categories.declarative_behavior
            ∷ []))
          (zero_float ops, 0)

    unfoldable pub conversational_sanity_factor_with : List (CaseScore F) → F → F
    conversational_sanity_factor_with cases floor = elim (conversational_sanity cases) [
      | none ↦ one_float ops
      | some rate ↦ round6 ops (ops.add floor (ops.mul (ops.sub (one_float ops) floor) rate))
    ]

    unfoldable pub transform_audit_factor_with : List (CaseScore F) → Bool → F → F
    transform_audit_factor_with cases enforced max_penalty =
        let ap = audit_pairs ops persona cases in
        let total = categories.total_pairs ap in
        let frac = ops.div (ops.of_nat (ap.base_only - ap.transform_only)) (ops.of_nat 3) in
        let capped : F = if ops.less (one_float ops) frac then one_float ops else frac in
        if not enforced
        then one_float ops
        else if ltb total 4
        then one_float ops
        else if leb ap.base_only ap.transform_only
        then one_float ops
        else round6 ops (ops.sub (one_float ops) (ops.mul capped max_penalty))

    -- The style factors, their product not below the floor.
    unfoldable pub bounded_gate : EffParams → ℕ × ℕ → ℕ × ℕ → ℕ × ℕ → List (CaseScore F) → F
    bounded_gate p metamorphic over_call floor cases =
        let product =
          ops.mul
            (ops.mul (tool_efficiency_factor_with cases p)
              (metamorphic_consistency_factor_with cases (ops.decimal metamorphic.0 metamorphic.1)))
            (memory_over_call_factor_with cases (ops.decimal over_call.0 over_call.1)) in
        if ops.less product (ops.decimal floor.0 floor.1)
        then ops.decimal floor.0 floor.1
        else product

    unfoldable pub composite_gate_v7 : List (CaseScore F) → F
    composite_gate_v7 cases =
        let bounded = bounded_gate v7_eff_params (40, 2) (25, 2) (40, 2) cases in
        let gate = ops.mul bounded (canary_integrity_factor_with cases (ops.decimal 25 2)) in
        let sane = ops.mul gate (conversational_sanity_factor_with cases (ops.decimal 25 2)) in
        round6 ops (ops.mul sane (transform_audit_factor_with cases true (ops.decimal 40 2)))

    unfoldable pub composite_gate : List (CaseScore F) → F
    composite_gate cases = round6 ops (
        ops.mul (bounded_gate legacy_eff_params (15, 2) (10, 2) (75, 2) cases)
          (canary_integrity_factor_with cases (ops.decimal 5 1)))

    -- With what the environment says of the audit.
    unfoldable pub composite_gate_for_version : Bool → List (CaseScore F) → ℕ → F
    composite_gate_for_version audit_enforced cases bench_version =
        let gate = composite_gate cases in
        if leb bench_version_v7 bench_version
        then composite_gate_v7 cases
        else if leb 5 bench_version
        then round6 ops (
            ops.mul (ops.mul gate (conversational_sanity_factor_with cases (ops.decimal 5 1)))
              (transform_audit_factor_with cases audit_enforced (ops.decimal 15 2)))
        else gate
