-- ===== src/Scorer/Trajectory/Gates.antt =====
-- internal/scorer/trajectory.go, deterministicToolScoreStrict: the cases that earn nothing, and what the
-- argument counts can be.
use mathlib.Core.List.{Memᴰ}
use dittobench_api.Base.{
  ℕ, ◌+◌, ◌≤◌, String, Bool, true, false, List, [], ◌∷◌, ◌≡◌, refl, inl, inr, arith, nat_eq, length,
  Bool-cases, Option-cases,
}
use dittobench_api.Base.Assoc.{Assoc, lookup}
use dittobench_api.Scorer.Calls.{ArgValue, ObservedCall, ToolSpec, ToolCase, count_names}
use dittobench_api.Scorer.Floats.{Floats, zero_float}
use dittobench_api.Scorer.Arguments.{
  Note, ArgCounts, arg_value_equal, is_present, required_outcomes_satisfied, first_unused, Counted,
  count_arg, count_required, mark_forbidden, count_forbidden, miss_required, count_args,
}
use dittobench_api.Scorer.Arguments.Outcomes.{
  ForbiddenCall, forbidden_holds, AllOutcomes, required_outcomes_satisfied_iff,
}
use dittobench_api.Scorer.Trajectory.{
  arg_correctness, count_specs, true_positives, total, in_order, order_pairs,
  deterministic_tool_score_strict,
}

-- Under the strict rules a case scores zero as soon as any call of an expected tool carries an argument
-- that this tool forbids, whatever else was called.
pub forbidden_scores_zero :
    {F : Type 0} (ops : Floats F) (c : ToolCase) (calls : List ObservedCall) (spec : ToolSpec)
    → Memᴰ spec c.expected_tools
    → ForbiddenCall calls spec
    → (deterministic_tool_score_strict ops c calls true).0 ≡ zero_float ops
unfolding deterministic_tool_score_strict
forbidden_scores_zero ops c calls spec among carried =
    let gate = forbidden_holds calls spec c.expected_tools among carried in rw gate refl

-- A fuzzy case scores zero, under both rules, unless every expected tool that requires arguments has a
-- call of its name that carries all of them.
missed_outcome_scores_zero :
    {F : Type 0} (ops : Floats F) (c : ToolCase) (calls : List ObservedCall) (strict : Bool)
    → c.fuzzy_trajectory ≡ true
    → ¬ AllOutcomes c.expected_tools calls
    → (deterministic_tool_score_strict ops c calls strict).0 ≡ zero_float ops
unfolding deterministic_tool_score_strict
missed_outcome_scores_zero ops c calls strict fuzzy missed =
    let (args_f1, noted) = arg_correctness ops c.expected_tools calls [] in
    let unmet : (required_outcomes_satisfied c.expected_tools calls noted).0 ≡ false =
      elim (Bool-cases (required_outcomes_satisfied c.expected_tools calls noted).0) [
        | inl met ↦
            absurd (missed ((required_outcomes_satisfied_iff c.expected_tools calls noted).0 met))
        | inr not_met ↦ not_met
      ] in
    ground (arith, fuzzy, unmet)

-- No more arguments are right than were given, or than are required.
abbrev InBounds : ℕ → Counted → Type 0
InBounds n s = (s.0.correct ≤ s.0.observed) × (s.0.correct ≤ s.0.expected) × (s.0.expected ≡ n)

count_arg-InBounds :
    (args : Assoc ArgValue) (r : String × List ℕ) (n : ℕ) (s : Counted)
    → InBounds n s
    → InBounds (n + 1) (count_arg args r s)
unfolding count_arg
count_arg-InBounds args (key, want) n s b = elim (Option-cases (lookup key args)) [
  | inl absent ↦ ground (arith, absent, b)
  | inr (got, given) ↦ ground (arith, given, b, Bool-cases (arg_value_equal got want))
]

count_required-InBounds :
    (args : Assoc ArgValue) (required : List (String × List ℕ)) (n : ℕ) (s : Counted)
    → InBounds n s
    → InBounds (n + length required) (count_required args required s)
unfolding count_required
count_required-InBounds args [] n s b = ground (arith, b)
count_required-InBounds args (r ∷ required) n s b = ground (
  arith,
  count_required-InBounds args required (n + 1) (count_arg args r s)
      (count_arg-InBounds args r n s b),
)

mark_forbidden-InBounds :
    (args : Assoc ArgValue) (key : String) (n : ℕ) (s : Counted)
    → InBounds n s
    → InBounds n (mark_forbidden args key s)
unfolding mark_forbidden
mark_forbidden-InBounds args key n s b = ground (arith, b, Bool-cases (is_present key args))

count_forbidden-InBounds :
    (args : Assoc ArgValue) (forbidden : List String) (n : ℕ) (s : Counted)
    → InBounds n s
    → InBounds n (count_forbidden args forbidden s)
unfolding count_forbidden
count_forbidden-InBounds args [] n s b = b
count_forbidden-InBounds args (key ∷ forbidden) n s b =
    count_forbidden-InBounds args forbidden n (mark_forbidden args key s)
      (mark_forbidden-InBounds args key n s b)

abbrev pub required_total : List ToolSpec → ℕ
required_total [] = 0
required_total (spec ∷ specs) = length spec.required_args + required_total specs

count_args-InBounds :
    (specs : List ToolSpec) (unused : List ObservedCall) (n : ℕ) (s : Counted)
    → InBounds n s
    → InBounds (n + required_total specs) (count_args specs unused s)
unfolding count_args miss_required
count_args-InBounds [] unused n s b = ground (arith, b)
count_args-InBounds (spec ∷ specs) unused n s b =
    let more = n + length spec.required_args in
    elim (Option-cases (first_unused spec.name unused)) [
      | inl uncalled ↦
          let missed : InBounds more (miss_required spec s) = ground (arith, b) in
          let (seen, asked, all) =
            count_args-InBounds specs unused more (miss_required spec s) missed in
          rw (uncalled, count_args) (seen, asked, omega (arith, all))
      | inr ((call, others), found) ↦
          let counted =
            count_forbidden call.args spec.forbidden_args
              (count_required call.args spec.required_args s) in
          let bounded : InBounds more counted =
            count_forbidden-InBounds call.args spec.forbidden_args more
              (count_required call.args spec.required_args s)
              (count_required-InBounds call.args spec.required_args n s b) in
          let (seen, asked, all) = count_args-InBounds specs others more counted bounded in
          rw (found, count_args) (seen, asked, omega (arith, all))
    ]

true_positives_le :
    (expected observed : Assoc ℕ) → true_positives expected observed ≤ total expected
unfolding true_positives total
true_positives_le [] observed = omega arith
true_positives_le ((name, needed) ∷ expected) observed =
    omega (arith, true_positives_le expected observed)

order_pairs_le :
    (spec : ToolSpec) (specs : List ToolSpec) (calls : List ObservedCall)
    → ((order_pairs (spec ∷ specs) calls).1 ≤ (order_pairs (spec ∷ specs) calls).0)
      × ((order_pairs (spec ∷ specs) calls).0 ≡ length specs)
unfolding order_pairs
order_pairs_le spec [] calls = (omega arith, refl)
order_pairs_le spec (next ∷ specs) calls =
    ground (arith, order_pairs_le next specs calls, Bool-cases (in_order calls spec.name next.name))

-- None of the fractions that a trajectory is scored by exceeds one: the expected calls that were
-- observed, the right arguments against those given and those required, and the pairs in order. All
-- required arguments and all consecutive pairs are counted, called or not.
trajectory_counts_le :
    (spec : ToolSpec) (specs : List ToolSpec) (calls : List ObservedCall) (notes : List Note)
    → let expected = spec ∷ specs in
      let none_yet : ArgCounts = record { expected = 0; observed = 0; correct = 0 } in
      let counts = (count_args expected calls (none_yet, notes)).0 in
      (true_positives (count_specs expected []) (count_names calls [])
        ≤ total (count_specs expected []))
      × (counts.correct ≤ counts.observed)
      × (counts.correct ≤ counts.expected)
      × (counts.expected ≡ required_total expected)
      × ((order_pairs expected calls).1 ≤ (order_pairs expected calls).0)
      × ((order_pairs expected calls).0 ≡ length specs)
trajectory_counts_le spec specs calls notes =
    let none_yet : ArgCounts = record { expected = 0; observed = 0; correct = 0 } in
    let start : InBounds 0 (none_yet, notes) = (omega arith, omega arith, refl) in
    let (seen, asked, all) = count_args-InBounds (spec ∷ specs) calls 0 (none_yet, notes) start in
    let (ordered, pairs) = order_pairs_le spec specs calls in
    (
      true_positives_le (count_specs (spec ∷ specs) []) (count_names calls []),
      seen,
      asked,
      omega (arith, all),
      ordered,
      pairs,
    )
