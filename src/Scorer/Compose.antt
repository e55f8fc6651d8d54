-- ===== src/Scorer/Compose.antt =====
-- internal/scorer/v7.go and scorer.go: from the accuracy of a tool case to its score, and how
-- cmd/dittobench-api/main.go puts it together.
pub mod Scopes
use dittobench_api.Base.{
  ℕ, suc, ◌+◌, String, Bool, true, false, not, Option, none, some, List, [], ◌∷◌, ◌++◌, map, ◌==◌,
  leb, ltb, ◌&&◌, ◌||◌, nat_eq, string_eq, if◌then◌else◌, length, any, all, keep,
}
use dittobench_api.Base.Text.{trim_space, same_text}
use dittobench_api.Scorer.Text.{answer_carries_value}
use dittobench_api.Scorer.Calls.{ObservedCall, ToolSpec, ToolCase, same_name_multiset}
use dittobench_api.Scorer.Floats.{Floats, zero_float, one_float, round6}
use dittobench_api.Scorer.Arguments.{Note, said, naming, counting}
use dittobench_api.Scorer.Trajectory.{deterministic_tool_score_strict}
use dittobench_api.Scorer.Case.{
  Scope, practice, scored, CaseScore, RunResponse, bench_version_v7, bench_version_v8, finish_tool,
  score_tool_case_observed_for_version,
}

module _ {F : Type 0} (ops : Floats F) where
  unfoldable pub compose_result_usage_with_decoy :
      CaseScore F → List ℕ → List ℕ → List ℕ → CaseScore F
  compose_result_usage_with_decoy cs answer needle decoy =
      let composed : F → CaseScore F = λ usage. record cs {
        result_usage = usage;
        score =
            round6 ops
              (ops.add (ops.mul (ops.decimal 4 1) cs.tool_score) (ops.mul (ops.decimal 6 1) usage));
      } in
      if not (same_text decoy []) && answer_carries_value answer decoy
      then record (composed (zero_float ops)) {
        notes =
            cs.notes
            ++ (said "answer carried the decoy value (fished from the wrong tool) — usage scored 0"
                ∷ []);
      }
      else if answer_carries_value answer needle
      then record (composed (one_float ops)) {
        notes = cs.notes ++ (said "answer incorporated the served tool result" ∷ []);
      }
      else record (composed (zero_float ops)) {
        notes = cs.notes ++ (said "answer did NOT incorporate the served tool result" ∷ []);
      }

  unfoldable pub compose_result_usage_for_version :
      ℕ → CaseScore F → List ℕ → List ℕ → List ℕ → CaseScore F
  compose_result_usage_for_version bench_version cs answer needle decoy =
      let gated : F → F → CaseScore F = λ gate usage. record cs {
        result_usage = usage;
        score = round6 ops (ops.mul cs.tool_score gate);
      } in
      if ltb bench_version bench_version_v7
      then compose_result_usage_with_decoy cs answer needle decoy
      else if not (same_text decoy []) && answer_carries_value answer decoy
      then record (gated (zero_float ops) (zero_float ops)) {
        notes =
            cs.notes
            ++ (said
                  "v7: answer carried the decoy value (fished from the wrong tool) — case scored 0"
                ∷ []);
      }
      else if answer_carries_value answer needle
      then record (gated (one_float ops) (one_float ops)) {
        notes = cs.notes ++ (said "answer incorporated the served tool result" ∷ []);
      }
      else record (gated (ops.decimal 10 2) (zero_float ops)) {
        notes =
            cs.notes
            ++ (said
                  "v7: answer did NOT incorporate the served tool result — trajectory credit reduced to 10%"
                ∷ []);
      }

  unfoldable pub apply_trajectory_mismatch :
      ℕ → CaseScore F → List ObservedCall → List ObservedCall → CaseScore F
  apply_trajectory_mismatch bench_version cs self_reported observed =
      if ltb bench_version bench_version_v7 || length observed == 0 || length self_reported == 0
      then cs
      else if same_name_multiset self_reported observed
      then cs
      else record cs {
        score = round6 ops (ops.mul cs.score (ops.decimal 5 1));
        notes =
            cs.notes
            ++ (said
                  "v7: self-reported trajectory disagrees with validator-observed execution — score halved"
                ∷ []);
      }

  unfoldable pub apply_trajectory_mismatch_for_case :
      ℕ → ToolCase → CaseScore F → List ObservedCall → List ObservedCall → CaseScore F
  apply_trajectory_mismatch_for_case bench_version c cs self_reported observed =
      if leb bench_version_v8 bench_version && c.fuzzy_trajectory
      then cs
      else apply_trajectory_mismatch bench_version cs self_reported observed

  unfoldable pub unobserved_ceiling_for_version : Scope → ℕ → F
  unobserved_ceiling_for_version scored bench_version = zero_float ops
  unobserved_ceiling_for_version practice bench_version =
      if leb bench_version_v7 bench_version then ops.decimal 5 2 else ops.decimal 5 1

  abbrev cap_note : Scope → ℕ → String
  cap_note scored bench_version =
      "scored: observable case not executed via tool_endpoint — unobserved, scored 0 (observed execution mandatory)"
  cap_note practice bench_version =
      if leb bench_version_v7 bench_version
      then "v7: observable case not executed via tool_endpoint — selection-only self-report capped at 0.05"
      else "capped: observable case not executed via tool_endpoint (self-report untrusted)"

  -- With CapUnobservedScope, which is what it is before version 7.
  unfoldable pub cap_unobserved_for_version : CaseScore F → Scope → ℕ → CaseScore F
  cap_unobserved_for_version cs scope bench_version =
      let ceiling = unobserved_ceiling_for_version scope bench_version in
      if ops.less ceiling cs.score
      then record cs {
        score = ceiling;
        notes = cs.notes ++ (said (cap_note scope bench_version) ∷ []);
      }
      else cs

  -- What the run of a tool case in runSizeJob makes of a response: whether the category is one of
  -- result usage and whether the case is observable is decided in packages of dittobench-datagen.
  unfoldable pub score_tool_run :
      ToolCase
      → Bool
      → Bool
      → RunResponse
      → Bool
      → List ObservedCall
      → List ℕ
      → List ℕ
      → Scope
      → ℕ
      → CaseScore F
  score_tool_run c result_usage observable resp ok observed needle decoy scope bench_version =
      let cs = score_tool_case_observed_for_version ops c resp ok observed bench_version in
      let composed =
        if result_usage
        then compose_result_usage_for_version bench_version cs resp.final_text needle decoy
        else finish_tool ops cs in
      let matched =
        apply_trajectory_mismatch_for_case bench_version c composed resp.tool_calls observed in
      if ltb 0 (length observed)
      then matched
      else if observable
      then cap_unobserved_for_version matched scope bench_version
      else matched
