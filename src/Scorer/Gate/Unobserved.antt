-- ===== src/Scorer/Gate/Unobserved.antt =====
-- internal/scorer: tool cases that were not observed do not move the gate of the composite.
use dittobench_api.Base.{
  ℕ, ◌+◌, String, Bool, true, not, List, [], ◌∷◌, ◌≡◌, refl, inl, inr, arith, ◌==◌, string_eq, ◌&&◌,
  if◌then◌else◌, length, keep, loop-keep, Bool-cases,
}
use dittobench_api.Base.Assoc.{Assoc}
use dittobench_api.Scorer.Floats.{Floats, zero_float, one_float}
use dittobench_api.Scorer.Case.{CaseScore}
use dittobench_api.Scorer.Twins.{
  Persona, Sides, is_half, gather_twin, gather_twins, metamorphic_consistency, gather_side,
  gather_sides, audit_pairs,
}
use dittobench_api.Scorer.Gate.{
  Categories, EffParams, legacy_eff_params, v7_eff_params, is_memory, overshoot_efficiency_with,
  counts_for_efficiency, is_over_call, counts_for_over_call, sum_efficiency,
  tool_efficiency_factor_with, is_canary_case, has_canary_leak, canary_integrity_factor_with,
  sum_slice, slice_mean, count_over_calls, memory_over_call_factor_with,
  metamorphic_consistency_factor_with, conversational_sanity, conversational_sanity_factor_with,
  transform_audit_factor_with, bounded_gate, composite_gate_v7, composite_gate,
  composite_gate_for_version,
}

-- A tool case that the validator did not observe, in no family of twins.
abbrev pub is_unobserved : {F : Type 0} → CaseScore F → Bool
is_unobserved cs =
    not (is_memory cs.kind) && not cs.observed && cs.twin_group == "" && not (is_half cs.audit_half)

-- The other cases.
abbrev pub without_unobserved : {F : Type 0} → List (CaseScore F) → List (CaseScore F)
without_unobserved cases = keep (λ cs. not (is_unobserved cs)) cases

module _ {F : Type 0} (ops : Floats F) where
  sum_efficiency-keep :
      (p : EffParams) (cases : List (CaseScore F)) (s : F × ℕ)
      → sum_efficiency ops p (without_unobserved cases) s ≡ sum_efficiency ops p cases s
  unfolding sum_efficiency
  sum_efficiency-keep p =
      let step : CaseScore F → F × ℕ → F × ℕ = λ cs s.
        if counts_for_efficiency ops p cs
        then (
          ops.add s.0 (overshoot_efficiency_with ops (length cs.expected) (length cs.called) p),
          s.1 + 1,
        )
        else s in
      loop-keep (λ cs. not (is_unobserved cs)) step (sum_efficiency ops p) (λ s. refl)
        (λ cs cases s. refl) (λ cs s gone. ground (arith, gone))

  sum_slice-keep :
      (category : String) (cases : List (CaseScore F)) (s : F × ℕ)
      → sum_slice ops category (without_unobserved cases) s ≡ sum_slice ops category cases s
  unfolding sum_slice
  sum_slice-keep category =
      let step : CaseScore F → F × ℕ → F × ℕ = λ cs s.
        if is_memory cs.kind && cs.category == category
        then (if cs.correct then ops.add s.0 (one_float ops) else s.0, s.1 + 1)
        else s in
      loop-keep (λ cs. not (is_unobserved cs)) step (sum_slice ops category) (λ s. refl)
        (λ cs cases s. refl) (λ cs s gone. ground (arith, gone))

  has_canary_leak-keep :
      (cases : List (CaseScore F))
      → has_canary_leak ops (without_unobserved cases) ≡ has_canary_leak ops cases
  unfolding has_canary_leak is_canary_case
  has_canary_leak-keep [] = refl
  has_canary_leak-keep (cs ∷ cases) = elim (Bool-cases (is_unobserved cs)) [
    | inl gone ↦ ground (arith, gone, has_canary_leak-keep cases)
    | inr kept ↦ ground (arith, kept, has_canary_leak-keep cases)
  ]

  module _ (persona : Persona) (categories : Categories) where
    count_over_calls-keep :
        (cases : List (CaseScore F)) (s : ℕ × ℕ)
        → count_over_calls ops persona categories (without_unobserved cases) s
          ≡ count_over_calls ops persona categories cases s
    unfolding count_over_calls
    count_over_calls-keep =
        let step : CaseScore F → ℕ × ℕ → ℕ × ℕ = λ cs s.
          if counts_for_over_call ops persona categories cs
          then (s.0 + 1, if is_over_call ops persona categories cs then s.1 + 1 else s.1)
          else s in
        loop-keep (λ cs. not (is_unobserved cs)) step (count_over_calls ops persona categories)
          (λ s. refl) (λ cs cases s. refl) (λ cs s gone. ground (arith, gone))

    gather_twins-keep :
        (cases : List (CaseScore F)) (s : Assoc (List Bool) × List String)
        → gather_twins ops persona (without_unobserved cases) s ≡ gather_twins ops persona cases s
    unfolding gather_twins gather_twin
    gather_twins-keep =
        loop-keep (λ cs. not (is_unobserved cs)) (gather_twin ops persona)
          (gather_twins ops persona) (λ s. refl) (λ cs cases s. refl)
          (λ cs s gone. ground (arith, gone))

    gather_sides-keep :
        (cases : List (CaseScore F)) (s : Assoc Sides)
        → gather_sides ops persona (without_unobserved cases) s ≡ gather_sides ops persona cases s
    unfolding gather_sides gather_side
    gather_sides-keep =
        loop-keep (λ cs. not (is_unobserved cs)) (gather_side ops persona)
          (gather_sides ops persona) (λ s. refl) (λ cs cases s. refl)
          (λ cs s gone. ground (arith, gone))

    metamorphic_consistency-keep :
        (cases : List (CaseScore F))
        → metamorphic_consistency ops persona (without_unobserved cases)
          ≡ metamorphic_consistency ops persona cases
    unfolding metamorphic_consistency
    metamorphic_consistency-keep cases = rw (gather_twins-keep cases ([], [])) refl

    bounded_gate-keep :
        (p : EffParams) (metamorphic over_call floor : ℕ × ℕ) (cases : List (CaseScore F))
        → bounded_gate ops persona categories p metamorphic over_call floor
            (without_unobserved cases)
          ≡ bounded_gate ops persona categories p metamorphic over_call floor cases
    unfolding bounded_gate tool_efficiency_factor_with memory_over_call_factor_with
        metamorphic_consistency_factor_with
    bounded_gate-keep p metamorphic over_call floor cases =
        let efficient = sum_efficiency-keep p cases (zero_float ops, 0) in
        let calls = count_over_calls-keep cases (0, 0) in
        let twins = metamorphic_consistency-keep cases in
        rw (efficient, calls, twins, metamorphic_consistency_factor_with) refl

    conversational_sanity-keep :
        (cases : List (CaseScore F))
        → conversational_sanity ops persona categories (without_unobserved cases)
          ≡ conversational_sanity ops persona categories cases
    unfolding conversational_sanity slice_mean
    conversational_sanity-keep cases =
        let start : F × ℕ = (zero_float ops, 0) in
        rw
          (
            sum_slice-keep categories.chitchat cases start,
            sum_slice-keep categories.declarative_ack cases start,
            sum_slice-keep categories.declarative_behavior cases start,
          )
          refl

    conversational_sanity_factor-keep :
        (floor : F) (cases : List (CaseScore F))
        → conversational_sanity_factor_with ops persona categories (without_unobserved cases) floor
          ≡ conversational_sanity_factor_with ops persona categories cases floor
    unfolding conversational_sanity_factor_with
    conversational_sanity_factor-keep floor cases =
        rw (conversational_sanity-keep cases, conversational_sanity_factor_with) refl

    transform_audit_factor-keep :
        (enforced : Bool) (penalty : F) (cases : List (CaseScore F))
        → transform_audit_factor_with ops persona categories
            (without_unobserved cases)
            enforced
            penalty
          ≡ transform_audit_factor_with ops persona categories cases enforced penalty
    unfolding transform_audit_factor_with audit_pairs
    transform_audit_factor-keep enforced penalty cases = rw (gather_sides-keep cases []) refl

    canary_integrity_factor-keep :
        (penalty : F) (cases : List (CaseScore F))
        → canary_integrity_factor_with ops (without_unobserved cases) penalty
          ≡ canary_integrity_factor_with ops cases penalty
    unfolding canary_integrity_factor_with
    canary_integrity_factor-keep penalty cases = rw (has_canary_leak-keep cases) refl

-- The multiplier of the composite is the same, in every version, as if the tool cases that the
-- validator did not observe, in no family of twins, had not been run: what a harness reports of its own
-- calls neither earns nor costs there.
pub composite_gate_ignores_unobserved :
    {F : Type 0} (ops : Floats F) (persona : Persona) (categories : Categories)
    (audit_enforced : Bool) (cases : List (CaseScore F)) (bench_version : ℕ)
    → composite_gate_for_version ops persona categories audit_enforced
        (without_unobserved cases)
        bench_version
      ≡ composite_gate_for_version ops persona categories audit_enforced cases bench_version
unfolding composite_gate_for_version composite_gate composite_gate_v7
composite_gate_ignores_unobserved {F} ops persona categories audit_enforced cases bench_version =
    let bounded =
      λ (p : EffParams) (m o f : ℕ × ℕ). bounded_gate-keep ops persona categories p m o f cases in
    let canary = λ (x : F). canary_integrity_factor-keep ops persona categories x cases in
    let sane = λ (x : F). conversational_sanity_factor-keep ops persona categories x cases in
    let audited =
      λ (e : Bool) (x : F). transform_audit_factor-keep ops persona categories e x cases in
    rw
      (
        bounded v7_eff_params (40, 2) (25, 2) (40, 2),
        bounded legacy_eff_params (15, 2) (10, 2) (75, 2),
        canary (ops.decimal 25 2),
        canary (ops.decimal 5 1),
        sane (ops.decimal 25 2),
        sane (ops.decimal 5 1),
        audited true (ops.decimal 40 2),
        audited audit_enforced (ops.decimal 15 2),
      )
      refl
