-- ===== src/Relay/Examples.antt =====
-- Concrete runs, and the theorems of their classification at them.
use dittobench_api.Base.{◌≤◌, false, some, List, [], ◌∷◌, ◌≡◌, refl, ◌↔◌, arith}
use dittobench_api.Broker.Session.{Ledger, empty_ledger}
use dittobench_api.Broker.Decline.{budget_exhausted}
use dittobench_api.Broker.Accounting.{open_chat, settle, declined, served, grant_denied}
use dittobench_api.Relay.{
  Snapshot, agent_declined, relay_restarted, relay_degraded_since, execution_between,
  relay_execution_since, usage_between, usage_went_back, relay_usage_since,
}
use dittobench_api.Relay.Finalize.{valid_usage, require_complete_v7_usage, relay_run_result}
use dittobench_api.Relay.Attribution.{
  Entry, opened, settled, embedding_failed, book, book_all, count, is_decline, is_platform_decline,
  agent_declined_iff,
}
use dittobench_api.Relay.FailClosed.{is_fault, ValidBetween, scored_run_sound}

-- The platform revokes the grant on one lane while the agent spends its allowance on the other.
abbrev mixed : List Entry
mixed =
    opened 100
    ∷ settled false 20 (declined false)
    ∷ embedding_failed (grant_denied budget_exhausted)
    ∷ []

abbrev clean : List Entry
clean = opened 100 ∷ settled false 20 (served (some (12, 5))) ∷ []

abbrev snapshot : Ledger → Snapshot
snapshot l = record {
  accounting_version = 1;
  provider = "openrouter";
  profile_revision = "profile-7";
  model = "openai/gpt-oss-20b";
  ledger = l;
}

agent_declined_iff_example :
    (relay_degraded_since empty_ledger (book_all mixed empty_ledger) ≡ some agent_declined)
    ↔ (1 ≤ count is_decline mixed) × (count is_platform_decline mixed ≡ 0)
agent_declined_iff_example = agent_declined_iff mixed empty_ledger

abbrev clean_ledger : Ledger
clean_ledger = record empty_ledger {
  requests = 1;
  prompt_bytes = 100;
  successes = 1;
  usage_available = 1;
  prompt_tokens = 12;
  completion_tokens = 5;
  provider_latency = 20;
}

scored_run_sound_example :
    (count is_fault clean ≡ 0)
    × ValidBetween empty_ledger clean_ledger (usage_between empty_ledger clean_ledger)
unfolding book_all book open_chat settle relay_degraded_since relay_usage_since
    relay_execution_since relay_restarted usage_went_back usage_between execution_between
    relay_run_result require_complete_v7_usage valid_usage
scored_run_sound_example =
    scored_run_sound clean (snapshot empty_ledger) (snapshot clean_ledger) 8
      (usage_between empty_ledger clean_ledger) (execution_between empty_ledger clean_ledger) refl
      (omega arith) refl refl
