-- ===== src/Scorer/Compose/Scopes.antt =====
-- internal/scorer and cmd/dittobench-api/main.go: what counts of a tool case, the calls that the
-- validator observed or those that the harness reports.
use dittobench_api.Base.{
  ℕ, ◌≤◌, ◌<◌, String, Bool, true, false, not, none, some, List, [], ◌∷◌, ◌≡◌, refl, sym, ap, ◌∙◌,
  ◌⊎◌, inl, inr, arith, ◌==◌, nat_eq, string_eq, ltb, ◌&&◌, ◌||◌, if◌then◌else◌, length, all, keep,
  Bool-cases,
}
use dittobench_api.Base.Text.{trim_space, same_text}
use dittobench_api.Scorer.Calls.{ObservedCall, ToolSpec, ToolCase}
use dittobench_api.Scorer.Calls.Names.{bag_of, same_name_multiset-bag_of}
use dittobench_api.Scorer.Floats.{Floats, zero_float, one_float}
use dittobench_api.Scorer.Case.{
  Scope, scored, CaseScore, RunResponse, is_memory_tool, all_memory_tools, misrouted, tool_accuracy,
  finish_tool, score_tool_case_observed_for_version,
}
use dittobench_api.Scorer.Compose.{
  compose_result_usage_for_version, apply_trajectory_mismatch, apply_trajectory_mismatch_for_case,
  unobserved_ceiling_for_version, cap_unobserved_for_version, score_tool_run,
}

module _ {F : Type 0} (ops : Floats F) where
  cap_unobserved_le :
      (cs : CaseScore F) (scope : Scope) (bench_version : ℕ)
      → let ceiling = unobserved_ceiling_for_version ops scope bench_version in
        ops.less ceiling ceiling ≡ false
        → ops.less ceiling (cap_unobserved_for_version ops cs scope bench_version).score ≡ false
  unfolding cap_unobserved_for_version
  cap_unobserved_le cs scope bench_version irreflexive =
      elim (Bool-cases
        (ops.less (unobserved_ceiling_for_version ops scope bench_version) cs.score)) [
          | inl above ↦ ground (arith, above, irreflexive)
          | inr within ↦ ground (arith, within)
        ]

-- An observable case that the harness did not execute through the endpoint never scores above the
-- ceiling of its scope, whatever the harness reports and answers, in every version; in scored scope
-- the ceiling is zero. The ceiling is a number, not below itself.
pub unobserved_run_capped :
    {F : Type 0} (ops : Floats F) (c : ToolCase) (result_usage : Bool) (resp : RunResponse)
    (ok : Bool) (needle decoy : List ℕ) (scope : Scope) (bench_version : ℕ)
    → let ceiling = unobserved_ceiling_for_version ops scope bench_version in
      let run =
        score_tool_run ops c result_usage true resp ok [] needle decoy scope bench_version in
      ops.less ceiling ceiling ≡ false
      → (ops.less ceiling run.score ≡ false)
        × (unobserved_ceiling_for_version ops scored bench_version ≡ zero_float ops)
unfolding score_tool_run unobserved_ceiling_for_version
unobserved_run_capped ops c result_usage resp ok needle decoy scope bench_version irreflexive =
    let cs = score_tool_case_observed_for_version ops c resp ok [] bench_version in
    let composed =
      if result_usage
      then compose_result_usage_for_version ops bench_version cs resp.final_text needle decoy
      else finish_tool ops cs in
    let matched =
      apply_trajectory_mismatch_for_case ops bench_version c composed resp.tool_calls [] in
    (cap_unobserved_le ops matched scope bench_version irreflexive, refl)

-- The response with other calls reported.
abbrev pub reporting : List ObservedCall → RunResponse → RunResponse
reporting calls resp = record resp { tool_calls = calls }

module _ {F : Type 0} (ops : Floats F) where
  observed_score_same :
      (c : ToolCase) (resp : RunResponse) (ok : Bool) (first : ObservedCall)
      (others told : List ObservedCall) (bench_version : ℕ)
      → score_tool_case_observed_for_version ops c
          (reporting told resp)
          ok
          (first ∷ others)
          bench_version
        ≡ score_tool_case_observed_for_version ops c
            (reporting [] resp)
            ok
            (first ∷ others)
            bench_version
  unfolding score_tool_case_observed_for_version
  observed_score_same c resp ok first others told bench_version =
      let some_observed : (length (first ∷ others) == 0) ≡ false = ground arith in
      rw some_observed refl

  mismatch_same :
      (bench_version : ℕ) (c : ToolCase) (cs : CaseScore F) (told observed : List ObservedCall)
      → bag_of told ≡ bag_of observed
      → apply_trajectory_mismatch_for_case ops bench_version c cs told observed
        ≡ apply_trajectory_mismatch_for_case ops bench_version c cs [] observed
  unfolding apply_trajectory_mismatch_for_case apply_trajectory_mismatch
  mismatch_same bench_version c cs told observed same =
      let checked = (same_name_multiset-bag_of told observed).1 same in ground (arith, checked)

  mismatch_exempt :
      (bench_version : ℕ) (c : ToolCase) (cs : CaseScore F) (told observed : List ObservedCall)
      → (bench_version < 7) ⊎ (8 ≤ bench_version) × (c.fuzzy_trajectory ≡ true)
      → apply_trajectory_mismatch_for_case ops bench_version c cs told observed ≡ cs
  unfolding apply_trajectory_mismatch_for_case apply_trajectory_mismatch
  mismatch_exempt bench_version c cs told observed (inl old) = ground (arith, old)
  mismatch_exempt bench_version c cs told observed (inr (new, fuzzy)) = ground (arith, new, fuzzy)

  abbrev composed :
      ToolCase → Bool → RunResponse → Bool → List ObservedCall → List ℕ → List ℕ → ℕ → CaseScore F
  composed c result_usage resp ok observed needle decoy bench_version =
      let cs =
        score_tool_case_observed_for_version ops c (reporting [] resp) ok observed bench_version in
      if result_usage
      then compose_result_usage_for_version ops bench_version cs resp.final_text needle decoy
      else finish_tool ops cs

  observed_run :
      (c : ToolCase) (result_usage observable : Bool) (resp : RunResponse) (ok : Bool)
      (first : ObservedCall) (others told : List ObservedCall) (needle decoy : List ℕ)
      (scope : Scope) (bench_version : ℕ)
      → score_tool_run ops c result_usage observable
          (reporting told resp)
          ok
          (first ∷ others)
          needle
          decoy
          scope
          bench_version
        ≡ apply_trajectory_mismatch_for_case ops bench_version c
            (composed c result_usage resp ok (first ∷ others) needle decoy bench_version)
            told
            (first ∷ others)
  unfolding score_tool_run
  observed_run c result_usage observable resp ok first others told needle decoy scope
        bench_version =
      let some_observed : ltb 0 (length (first ∷ others)) ≡ true = ground arith in
      let same = observed_score_same c resp ok first others told bench_version in
      rw some_observed (
        ap
          (λ cs.
            apply_trajectory_mismatch_for_case ops bench_version c
              (if result_usage
                then compose_result_usage_for_version ops bench_version cs resp.final_text needle
                    decoy
                else finish_tool ops cs)
              told (first ∷ others))
          same)

-- Once the validator observed calls, those that the harness reports count for nothing as long as they
-- are the same bag of names: the scored case is the one of a harness that reports none. Before version
-- 7, and for a fuzzy case from version 8 on, this holds whatever the harness reports.
pub reported_calls_ignored :
    {F : Type 0} (ops : Floats F) (c : ToolCase) (result_usage observable : Bool)
    (resp : RunResponse) (ok : Bool) (first : ObservedCall) (others told : List ObservedCall)
    (needle decoy : List ℕ) (scope : Scope) (bench_version : ℕ)
    → let run : List ObservedCall → CaseScore F = λ calls.
      score_tool_run ops c result_usage observable
        (reporting calls resp)
        ok
        (first ∷ others)
        needle
        decoy
        scope
        bench_version in
      (bag_of told ≡ bag_of (first ∷ others) → run told ≡ run [])
      × (bench_version < 7 → run told ≡ run [])
      × (8 ≤ bench_version → c.fuzzy_trajectory ≡ true → run told ≡ run [])
unfolding score_tool_run
reported_calls_ignored ops c result_usage observable resp ok first others told needle decoy scope
      bench_version =
    let case = composed ops c result_usage resp ok (first ∷ others) needle decoy bench_version in
    let here = observed_run ops c result_usage observable resp ok first others in
    let run_told = here told needle decoy scope bench_version in
    let run_none = here [] needle decoy scope bench_version in
    let exempt = λ (e : (bench_version < 7) ⊎ (8 ≤ bench_version) × (c.fuzzy_trajectory ≡ true)).
      mismatch_exempt ops bench_version c case told (first ∷ others) e in
    let exempt_none =
      λ (e : (bench_version < 7) ⊎ (8 ≤ bench_version) × (c.fuzzy_trajectory ≡ true)).
        mismatch_exempt ops bench_version c case [] (first ∷ others) e in
    (
      λ same.
          run_told
          ∙ mismatch_same ops bench_version c case told (first ∷ others) same
          ∙ sym run_none,
      λ old. run_told ∙ exempt (inl old) ∙ sym (run_none ∙ exempt_none (inl old)),
      λ new fuzzy.
          run_told ∙ exempt (inr (new, fuzzy)) ∙ sym (run_none ∙ exempt_none (inr (new, fuzzy))),
    )

misrouted-cases :
    (calls : List ObservedCall)
    → let routed = all (λ call. is_memory_tool call.name) calls in
      ((misrouted calls ≡ none) × (routed ≡ true))
      ⊎ ((name : String) × (misrouted calls ≡ some name) × (routed ≡ false))
unfolding misrouted
misrouted-cases [] = inl (refl, refl)
misrouted-cases (c ∷ cs) = elim (Bool-cases (is_memory_tool c.name)) [
  | inr other ↦ inr (c.name, ground (arith, other), ground (arith, other))
  | inl memory ↦ elim (misrouted-cases cs) [
    | inl (none_there, routed) ↦
        inl (ground (arith, memory, none_there), ground (arith, memory, routed))
    | inr (name, there, strays) ↦
        inr (name, ground (arith, memory, there), ground (arith, memory, strays))
  ]
]

all_memory_tools-all :
    (specs : List ToolSpec)
    → all (λ s. is_memory_tool s.name) specs ≡ true
    → all_memory_tools specs ≡ not (length specs == 0)
unfolding all_memory_tools
all_memory_tools-all [] h = ground arith
all_memory_tools-all (s ∷ specs) h = ground (arith, h)

kept_none :
    (calls : List ObservedCall)
    → (length (keep (λ call. not (is_memory_tool call.name)) calls) == 0)
      ≡ all (λ call. is_memory_tool call.name) calls
kept_none [] = ground arith
kept_none (c ∷ cs) = elim (Bool-cases (is_memory_tool c.name)) [
  | inl memory ↦ ground (arith, memory, kept_none cs)
  | inr other ↦ ground (arith, other)
]

-- A case that expects no tools, or tools of the memory only, scores one if the harness responded and
-- called no other tool, and, where tools are expected, called any or answered anything; else zero.
memory_routing_score :
    {F : Type 0} (ops : Floats F) (c : ToolCase) (resp : RunResponse) (ok strict : Bool)
    → all (λ s. is_memory_tool s.name) c.expected_tools ≡ true
    → let routed = all (λ call. is_memory_tool call.name) resp.tool_calls in
      let attempted =
        ltb 0 (length resp.tool_calls)
        || not (same_text (trim_space resp.final_text) [])
        || not (same_text (trim_space resp.answer) []) in
      (tool_accuracy ops c resp ok strict).0 ≡ (
        if ok && routed && (length c.expected_tools == 0 || attempted)
        then one_float ops
        else zero_float ops)
unfolding tool_accuracy
memory_routing_score ops c resp ok strict memory = elim (misrouted-cases resp.tool_calls) [
  | inl (none_there, routed) ↦ ground (
    arith,
    none_there,
    routed,
    kept_none resp.tool_calls,
    all_memory_tools-all c.expected_tools memory,
  )
  | inr (name, there, strays) ↦ ground (
    arith,
    there,
    strays,
    kept_none resp.tool_calls,
    all_memory_tools-all c.expected_tools memory,
  )
]
