-- ===== src/Scorer/Arguments.antt =====
-- internal/scorer/trajectory.go: the arguments of calls against those that a case requires and forbids.
pub mod Outcomes
use dittobench_api.Base.{
  ℕ, suc, ◌+◌, ◌*◌, String, Bool, true, false, not, Option, none, some, List, [], ◌∷◌, ◌++◌, map,
  ◌==◌, leb, ◌&&◌, ◌||◌, nat_eq, string_eq, if◌then◌else◌, length, any, all,
}
use dittobench_api.Base.Assoc.{Assoc, lookup}
use dittobench_api.Base.Text.{bytes_of, trim_space, same_text, lower}
use dittobench_api.Scorer.Text.{
  is_pure_number, contains_number_token, contains_bounded_phrase, fields, trim,
}
use dittobench_api.Scorer.Calls.{ArgValue, text, encoded, ObservedCall, ToolSpec}

-- A note of a score: a fixed text, or one with a name or a number in it.
pub data Note : Type 0 where
  said : String → Note
  naming : String → String → String → Note
  counting : String → ℕ → String → Note

abbrev arg_stuffing_ratio : ℕ
arg_stuffing_ratio = 8

unfoldable pub arg_stuffed : List ℕ → List ℕ → Bool
unfolding fields
arg_stuffed got want =
    if leb (length got) (arg_stuffing_ratio * length want)
    then false
    else leb 6 (length (fields got))

-- The text that a value is compared as: a string, or what it is encoded as.
abbrev value_text : ArgValue → Option (List ℕ)
value_text (text s) = some s
value_text (encoded s) = s

abbrev lower_text : List ℕ → List ℕ
lower_text s = map lower s

unfoldable pub arg_value_equal : ArgValue → List ℕ → Bool
unfolding arg_stuffed
arg_value_equal got wanted =
    let want = lower_text (trim_space wanted) in
    if same_text want [] then false else elim (value_text got) [
      | none ↦ false
      | some s ↦
          let got_text = lower_text (trim_space s) in
          if is_pure_number want
          then contains_number_token got_text want
          else if same_text got_text want
          then true
          else if arg_stuffed got_text want
          then false
          else contains_bounded_phrase got_text want
    ]

unfoldable pub fuzzy_outcome_arg_equal : ArgValue → List ℕ → Bool
unfolding arg_value_equal
fuzzy_outcome_arg_equal got wanted =
    let want = lower_text (trim_space wanted) in
    if arg_value_equal got wanted
    then true
    else if not (is_pure_number want)
    then false
    else elim (value_text got) [
      | none ↦ false
      | some s ↦
          any (λ token. same_text (trim (bytes_of "\"'()[]{}!?;:.") token) want)
            (fields (lower_text s))
    ]

abbrev pub is_present : String → Assoc ArgValue → Bool
is_present key args = elim (lookup key args) [ none ↦ false | some v ↦ true ]

-- Whether a call carries a forbidden argument of the tool it calls.
abbrev pub carries_forbidden : ToolSpec → ObservedCall → Bool
carries_forbidden spec call =
    call.name == spec.name && any (λ key. is_present key call.args) spec.forbidden_args

unfoldable pub forbidden_arg_present : List ToolSpec → List ObservedCall → Bool
forbidden_arg_present [] calls = false
forbidden_arg_present (spec ∷ expected) calls =
    let rest = forbidden_arg_present expected calls in
    if length spec.forbidden_args == 0
    then rest
    else if any (carries_forbidden spec) calls
    then true
    else rest

abbrev pub arg_matches : Assoc ArgValue → String × List ℕ → Bool
arg_matches args (key, want) = elim (lookup key args) [
  | none ↦ false
  | some got ↦ fuzzy_outcome_arg_equal got want
]

-- Whether a call satisfies all the arguments that a tool requires.
abbrev pub satisfies : ToolSpec → ObservedCall → Bool
satisfies spec call = call.name == spec.name && all (arg_matches call.args) spec.required_args

-- With the notes so far.
unfoldable pub required_outcomes_satisfied :
    List ToolSpec → List ObservedCall → List Note → Bool × List Note
required_outcomes_satisfied [] calls notes = (true, notes)
required_outcomes_satisfied (spec ∷ expected) calls notes =
    let rest = required_outcomes_satisfied expected calls notes in
    if length spec.required_args == 0 then rest else if any (satisfies spec) calls then rest else (
      false,
      notes ++ (naming "no " spec.name " call satisfied the required outcome arguments" ∷ []),
    )

-- What argCorrectness counts.
pub record ArgCounts : Type 0 where
  pub expected : ℕ
  pub observed : ℕ
  pub correct : ℕ

-- The first call of a name that is not used yet, with the others.
abbrev pub first_unused : String → List ObservedCall → Option (ObservedCall × List ObservedCall)
first_unused name [] = none
first_unused name (call ∷ calls) = elim (first_unused name calls) [
  | none ↦ if call.name == name then some (call, calls) else none
  | some (found, others) ↦
      if call.name == name then some (call, calls) else some (found, call ∷ others)
]

abbrev pub Counted : Type 0
Counted = ArgCounts × List Note

-- One required argument, against those of the call.
unfoldable pub count_arg : Assoc ArgValue → String × List ℕ → Counted → Counted
count_arg args (key, want) (counts, notes) =
    let asked : ArgCounts = record {
      expected = counts.expected + 1;
      observed = counts.observed;
      correct = counts.correct;
    } in
    let seen : ArgCounts = record {
      expected = counts.expected + 1;
      observed = counts.observed + 1;
      correct = counts.correct;
    } in
    let right : ArgCounts = record {
      expected = counts.expected + 1;
      observed = counts.observed + 1;
      correct = counts.correct + 1;
    } in
    elim (lookup key args) [
      | none ↦ (asked, notes)
      | some got ↦
          if arg_value_equal got want
          then (right, notes)
          else (seen, notes ++ (naming "wrong value for arg " key "" ∷ []))
    ]

unfoldable pub count_required : Assoc ArgValue → List (String × List ℕ) → Counted → Counted
unfolding count_arg
count_required args [] s = s
count_required args (r ∷ required) s = count_required args required (count_arg args r s)

-- An argument of the call that the tool forbids counts against the precision.
unfoldable pub mark_forbidden : Assoc ArgValue → String → Counted → Counted
mark_forbidden args key (counts, notes) =
    let more : ArgCounts = record {
      expected = counts.expected;
      observed = counts.observed + 1;
      correct = counts.correct;
    } in
    if is_present key args
    then (more, notes ++ (naming "forbidden arg present: " key "" ∷ []))
    else (counts, notes)

unfoldable pub count_forbidden : Assoc ArgValue → List String → Counted → Counted
unfolding mark_forbidden
count_forbidden args [] s = s
count_forbidden args (key ∷ forbidden) s =
    count_forbidden args forbidden (mark_forbidden args key s)

-- All the required arguments of a tool that is not called, or not often enough.
unfoldable pub miss_required : ToolSpec → Counted → Counted
miss_required spec (counts, notes) =
    let missed : ArgCounts = record {
      expected = counts.expected + length spec.required_args;
      observed = counts.observed;
      correct = counts.correct;
    } in
    (missed, notes)

-- The loop of argCorrectness over the expected tools, on the calls that are not used yet.
unfoldable pub count_args : List ToolSpec → List ObservedCall → Counted → Counted
unfolding count_required count_forbidden miss_required
count_args [] unused s = s
count_args (spec ∷ specs) unused s = elim (first_unused spec.name unused) [
  | none ↦ count_args specs unused (miss_required spec s)
  | some (call, others) ↦ count_args specs others (
      count_forbidden call.args spec.forbidden_args (count_required call.args spec.required_args s))
]
