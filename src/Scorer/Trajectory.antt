-- ===== src/Scorer/Trajectory.antt =====
-- internal/scorer/trajectory.go, deterministicToolScoreStrict: the score of a trajectory.
pub mod Gates
use dittobench_api.Base.{
  ℕ, suc, ◌+◌, ◌-◌, ◌*◌, min, String, Bool, true, false, not, Option, none, some, List, [], ◌∷◌,
  ◌++◌, map, ◌==◌, leb, ltb, ◌&&◌, ◌||◌, nat_eq, string_eq, if◌then◌else◌, length,
}
use dittobench_api.Base.Assoc.{Assoc, lookup, insert}
use dittobench_api.Scorer.Calls.{ObservedCall, ToolSpec, ToolCase, number_of, count_names}
use dittobench_api.Scorer.Floats.{Floats, zero_float, one_float, clamp01, round6, ratio, f1}
use dittobench_api.Scorer.Arguments.{
  Note, said, naming, counting, forbidden_arg_present, required_outcomes_satisfied, ArgCounts,
  count_args,
}

unfoldable pub count_specs : List ToolSpec → Assoc ℕ → Assoc ℕ
unfolding number_of
count_specs [] counts = counts
count_specs (s ∷ ss) counts = count_specs ss (insert s.name (number_of s.name counts + 1) counts)

-- The sum over the counts that are expected, each up to what was observed.
unfoldable pub true_positives : Assoc ℕ → Assoc ℕ → ℕ
unfolding number_of
true_positives [] observed = 0
true_positives ((name, needed) ∷ expected) observed =
    min (number_of name observed) needed + true_positives expected observed

unfoldable pub total : Assoc ℕ → ℕ
total [] = 0
total ((name, n) ∷ counts) = n + total counts

-- The calls beyond those expected of their name.
unfoldable pub extra_calls : Assoc ℕ → Assoc ℕ → ℕ
unfolding number_of
extra_calls [] expected = 0
extra_calls ((name, got) ∷ observed) expected =
    got - number_of name expected + extra_calls observed expected

-- The index of the first call of a name, by the loop that fills firstIdx.
unfoldable pub first_index : String → List ObservedCall → ℕ → Option ℕ
first_index name [] i = none
first_index name (c ∷ cs) i =
    let rest = first_index name cs (i + 1) in if c.name == name then some i else rest

abbrev pub in_order : List ObservedCall → String → String → Bool
in_order calls a b = elim (first_index a calls 0) [
  | none ↦ false
  | some ia ↦ elim (first_index b calls 0) [ none ↦ false | some ib ↦ ltb ia ib ]
]

-- The consecutive expected pairs, and those of them that were observed in order.
unfoldable pub order_pairs : List ToolSpec → List ObservedCall → ℕ × ℕ
unfolding first_index
order_pairs [] calls = (0, 0)
order_pairs (a ∷ []) calls = (0, 0)
order_pairs (a ∷ b ∷ expected) calls =
    let (pairs, satisfied) = order_pairs (b ∷ expected) calls in
    (pairs + 1, if in_order calls a.name b.name then satisfied + 1 else satisfied)

module _ {F : Type 0} (ops : Floats F) where
  unfoldable pub order_credit : List ToolSpec → List ObservedCall → F
  unfolding order_pairs
  order_credit expected calls =
      let (pairs, satisfied) = order_pairs expected calls in
      if ltb (length expected) 2
      then one_float ops
      else if pairs == 0
      then one_float ops
      else ops.div (ops.of_nat satisfied) (ops.of_nat pairs)

  unfoldable pub arg_correctness : List ToolSpec → List ObservedCall → List Note → F × List Note
  unfolding count_args ratio f1
  arg_correctness expected calls notes =
      let none_yet : ArgCounts = record { expected = 0; observed = 0; correct = 0 } in
      let (counts, noted) = count_args expected calls (none_yet, notes) in
      (
        if counts.expected == 0 && counts.observed == 0
            then one_float ops
            else f1 ops (ratio ops counts.correct counts.observed)
                (ratio ops counts.correct counts.expected),
        noted,
      )

  -- The penalty before it is doubled, and its note.
  unfoldable pub call_penalty : ToolCase → Assoc ℕ → Assoc ℕ → List Note → F × List Note
  unfolding total extra_calls ratio
  call_penalty c expected observed notes =
      let over : F =
        if ltb 0 c.max_tool_calls && ltb c.max_tool_calls (total observed)
        then ratio ops (total observed - c.max_tool_calls) c.max_tool_calls
        else zero_float ops in
      let extras = extra_calls observed expected in
      let p = ratio ops extras (total expected) in
      if c.allow_extra_tools
      then (zero_float ops, notes)
      else if ltb 0 (total expected) && ltb 0 extras
      then (
        (if ops.less over p then p else over),
        notes ++ (counting "" extras " extra/unexpected tool call(s)" ∷ []),
      )
      else (over, notes)

  -- The part after the gates.
  unfoldable pub weigh_trajectory :
      ToolCase → List ObservedCall → Bool → Assoc ℕ → Assoc ℕ → F → List Note → F × List Note
  unfolding true_positives total order_credit call_penalty clamp01 round6
  weigh_trajectory c calls strict expected observed args_f1 notes =
      let hits = true_positives expected observed in
      let recall = ratio ops hits (total expected) in
      let name_score : F =
        if c.allow_extra_tools then recall else f1 ops (ratio ops hits (total observed)) recall in
      let ordered = not c.unordered && not c.fuzzy_trajectory in
      let order : F = if ordered then order_credit c.expected_tools calls else one_float ops in
      let (single, noted) = call_penalty c expected observed notes in
      let charged : F = if strict then ops.mul single (ops.of_nat 2) else single in
      let penalty : F = if ops.less (one_float ops) charged then one_float ops else charged in
      let trajectory = ops.mul order (ops.sub (one_float ops) penalty) in
      let score =
        ops.add (ops.add (ops.mul (ops.decimal 4 1) name_score) (ops.mul (ops.decimal 4 1) args_f1))
          (ops.mul (ops.decimal 2 1) trajectory) in
      if strict && ordered && ops.less order (one_float ops)
      then (
        clamp01 ops (round6 ops (ops.mul score order)),
        noted ++ (said "v7 strict: out-of-order multi-hop — score multiplied by order credit" ∷ []),
      )
      else (clamp01 ops (round6 ops score), noted)

  unfoldable pub deterministic_tool_score_strict :
      ToolCase → List ObservedCall → Bool → F × List Note
  unfolding forbidden_arg_present count_specs count_names true_positives total arg_correctness
      required_outcomes_satisfied weigh_trajectory
  deterministic_tool_score_strict c calls strict =
      let expected = count_specs c.expected_tools [] in
      let observed = count_names calls [] in
      let hits = true_positives expected observed in
      let (args_f1, noted) = arg_correctness c.expected_tools calls [] in
      let (satisfied, outcome_notes) = required_outcomes_satisfied c.expected_tools calls noted in
      if strict && forbidden_arg_present c.expected_tools calls
      then (zero_float ops, said "v7 strict: forbidden argument present — case scored 0" ∷ [])
      else if hits == 0
      then (zero_float ops, said "no expected tool was called" ∷ [])
      else if c.fuzzy_trajectory && ltb hits (total expected)
      then (
        zero_float ops,
        said "v8 fuzzy trajectory: a required capability was not observed — case scored 0" ∷ [],
      )
      else if not c.fuzzy_trajectory
      then weigh_trajectory c calls strict expected observed args_f1 noted
      else if satisfied
      then weigh_trajectory c calls strict expected observed (one_float ops) outcome_notes
      else (
        zero_float ops,
        outcome_notes
            ++ (said
                  "v8 fuzzy trajectory: required outcome arguments were not observed — case scored 0"
                ∷ []),
      )
