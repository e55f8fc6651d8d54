-- ===== src/Scorer/Case.antt =====
-- internal/scorer/scorer.go: the accuracy of a tool case.
use dittobench_api.Base.{
  ℕ, String, Bool, true, false, not, Option, none, some, List, [], ◌∷◌, ◌++◌, map, ◌==◌, leb, ltb,
  ◌||◌, nat_eq, string_eq, if◌then◌else◌, length, any, all, keep,
}
use dittobench_api.Base.Text.{trim_space, same_text}
use dittobench_api.Scorer.Calls.{ObservedCall, ToolSpec, ToolCase}
use dittobench_api.Scorer.Floats.{Floats, zero_float, one_float}
use dittobench_api.Scorer.Arguments.{Note, said, naming, counting}
use dittobench_api.Scorer.Trajectory.{deterministic_tool_score_strict}

pub data Scope : Type 0 where
  practice : Scope
  scored : Scope

pub data Kind : Type 0 where
  tool_kind : Kind
  memory_kind : Kind

-- The half of an audit pair that a case is.
pub data AuditHalf : Type 0 where
  no_half : AuditHalf
  base_half : AuditHalf
  transform_half : AuditHalf

-- protocol.CaseScore, without what no score reads: the identifier, the latency, the confidence and
-- the verdict on injections.
pub record CaseScore (F : Type 0) : Type 0 where
  pub category : String
  pub kind : Kind
  pub tool_score : F
  pub result_usage : F
  pub score : F
  pub correct : Bool
  pub observed : Bool
  pub undelivered : Bool
  pub allow_extra_tools : Bool
  pub called : List String
  pub expected : List String
  pub twin_group : String
  pub audit_half : AuditHalf
  pub notes : List Note

-- The fields of protocol.RunResponse that the score of a tool case reads.
pub record RunResponse : Type 0 where
  pub tool_calls : List ObservedCall
  pub final_text : List ℕ
  pub answer : List ℕ

abbrev pub memory_tools : List String
memory_tools =
    "search_memories" ∷ "search_subjects" ∷ "fetch_memories" ∷ "search_memories_in_subjects" ∷ []

unfoldable pub is_memory_tool : String → Bool
is_memory_tool name = any (λ t. t == name) memory_tools

unfoldable pub all_memory_tools : List ToolSpec → Bool
all_memory_tools [] = false
all_memory_tools (s ∷ specs) = all (λ t. is_memory_tool t.name) (s ∷ specs)

unfoldable pub called_names : List ObservedCall → List String
called_names calls = map (λ c. c.name) calls

unfoldable pub expected_names : List ToolSpec → List String
expected_names specs = map (λ s. s.name) specs

-- protocol.BenchVersionV7 and protocol.BenchVersionV8.
abbrev pub bench_version_v7 : ℕ
bench_version_v7 = 7

abbrev pub bench_version_v8 : ℕ
bench_version_v8 = 8

-- The first call of a tool that is not of the memory.
unfoldable pub misrouted : List ObservedCall → Option String
misrouted [] = none
misrouted (c ∷ cs) = let rest = misrouted cs in if is_memory_tool c.name then rest else some c.name

module _ {F : Type 0} (ops : Floats F) where
  -- ToolScore and the notes of scoreCaseStrict.
  unfoldable pub tool_accuracy : ToolCase → RunResponse → Bool → Bool → F × List Note
  tool_accuracy c resp ok strict =
      let actions = length (keep (λ call. not (is_memory_tool call.name)) resp.tool_calls) in
      if not ok
      then (zero_float ops, said "no response from harness (error or timeout)" ∷ [])
      else if length c.expected_tools == 0
      then (if actions == 0
          then (
            one_float ops,
            if ltb 0 (length resp.tool_calls)
                then said "memory retrieval only; no action taken" ∷ []
                else [],
          )
          else (zero_float ops, counting "expected no tools but harness called " actions "" ∷ []))
      else if all_memory_tools c.expected_tools
      then elim (misrouted resp.tool_calls) [
        | some name ↦ (
          zero_float ops,
          naming "misrouted a memory request to a non-memory tool: " name "" ∷ [],
        )
        | none ↦
            if ltb 0 (length resp.tool_calls)
              || not (same_text (trim_space resp.final_text) [])
              || not (same_text (trim_space resp.answer) [])
            then (
              one_float ops,
              said
                    "memory request routed to internal/memory retrieval, no non-memory misrouting observed"
                  ∷ [],
            )
            else (
              zero_float ops,
              said "no memory retrieval attempted (no observed call and no answer)" ∷ [],
            )
      ]
      else deterministic_tool_score_strict ops c resp.tool_calls strict

  unfoldable pub score_case_strict : ToolCase → RunResponse → Bool → Bool → CaseScore F
  score_case_strict c resp ok strict =
      let (accuracy, notes) = tool_accuracy c resp ok strict in
      record {
        category = c.category;
        kind = tool_kind;
        tool_score = accuracy;
        result_usage = zero_float ops;
        score = zero_float ops;
        correct = false;
        observed = false;
        undelivered = false;
        allow_extra_tools = c.allow_extra_tools;
        called = called_names resp.tool_calls;
        expected = expected_names c.expected_tools;
        twin_group = "";
        audit_half = no_half;
        notes = notes;
      }

  unfoldable pub finish_tool : CaseScore F → CaseScore F
  finish_tool cs = record cs { score = cs.tool_score }

  -- ScoreToolCaseObservedForVersion; before version 7 it is ScoreToolCaseObservedScope, which differs
  -- from it in `strict` alone.
  unfoldable pub score_tool_case_observed_for_version :
      ToolCase → RunResponse → Bool → List ObservedCall → ℕ → CaseScore F
  score_tool_case_observed_for_version c resp ok observed bench_version =
      let strict = leb bench_version_v7 bench_version in
      let seen : RunResponse = record {
        tool_calls = observed;
        final_text = resp.final_text;
        answer = resp.answer;
      } in
      let cs = finish_tool (score_case_strict c seen ok strict) in
      if length observed == 0 then finish_tool (score_case_strict c resp ok strict) else record cs {
        observed = true;
        notes = cs.notes ++ (said "trajectory observed via tool_endpoint (authoritative)" ∷ []);
      }
