-- ===== src/Broker/Accounting/Balance.antt =====
-- cmd/dittobench-api/inference_broker.go: what the counters of a session say together.
use dittobench_api.Base.{
  ℕ, ◌+◌, ◌-◌, ◌≤◌, ◌<◌, String, Bool, true, false, not, ◌≡◌, arith, nat_eq, string_eq,
}
use dittobench_api.Broker.Session.{Ledger, empty_ledger}
use dittobench_api.Broker.Delivery.{Delivery}
use dittobench_api.Broker.Accounting.{
  one_if, open_chat, begin_relay_wait, end_relay_wait, book_delivery, Outcome, settle,
  EmbeddingFault, settle_embedding, notify_terminal_agent_failure,
}

-- A ledger, the chat calls that are open and waiting, and the embedding calls that failed. A call of
-- a legacy session whose gateway is no usable URL is counted and then answered without an end, so it
-- stays open.
pub record Books : Type 0 where
  pub ledger : Ledger
  pub open_calls : ℕ
  pub waiting_calls : ℕ
  pub embedding_faults : ℕ

abbrev pub no_books : Books
no_books = record { ledger = empty_ledger; open_calls = 0; waiting_calls = 0; embedding_faults = 0 }

abbrev wait_if : Bool → Ledger → Ledger
wait_if true l = (begin_relay_wait l).0
wait_if false l = l

abbrev end_if : Bool → Ledger → Ledger
end_if true l = (end_relay_wait l).0
end_if false l = l

-- One event of a session: a chat call is opened, announces a wait, delivers, or ends with an outcome;
-- an embedding call fails; the run's owner is told of a terminal decline.
pub data BookStep (b : Books) : Books → Type 0 where
  opens :
      (bytes : ℕ)
      → BookStep b (record b { ledger = open_chat bytes b.ledger; open_calls = b.open_calls + 1 })
  waits :
      b.waiting_calls < b.open_calls
      → BookStep b
          (record b { ledger = (begin_relay_wait b.ledger).0; waiting_calls = b.waiting_calls + 1 })
  delivers : (d : Delivery) → BookStep b (record b { ledger = book_delivery d b.ledger })
  settles :
      (waited : Bool) (latency : ℕ) (o : Outcome)
      → one_if waited ≤ b.waiting_calls
      → 0 < b.open_calls
      → b.waiting_calls + one_if (not waited) ≤ b.open_calls
      → BookStep b (record b {
        ledger = end_if waited (settle waited latency o b.ledger);
        open_calls = b.open_calls - 1;
        waiting_calls = b.waiting_calls - one_if waited;
      })
  faults :
      (f : EmbeddingFault)
      → BookStep b (record b {
        ledger = settle_embedding f b.ledger;
        embedding_faults = b.embedding_faults + 1;
      })
  notifies :
      (run_id : String)
      → BookStep b (record b { ledger = (notify_terminal_agent_failure run_id b.ledger).0 })

pub data BookReach (b : Books) : Books → Type 0 where
  here : BookReach b b
  next : {c d : Books} → BookReach b c → BookStep c d → BookReach b d

-- The calls that have ended, by how they ended.
abbrev pub ended : Ledger → ℕ
ended l = l.successes + l.failures + l.grant_denials + l.agent_request_rejections + l.caller_cancels

pub record IsBalanced (b : Books) : Type 0 where
  pub accounted : b.ledger.requests + b.embedding_faults ≡ ended b.ledger + b.open_calls
  pub metered :
      b.ledger.usage_available + b.ledger.usage_unavailable
      ≡ b.ledger.successes + b.ledger.agent_request_rejections
  pub subset : b.ledger.grant_agent_declines ≤ b.ledger.grant_denials
  pub paused : b.ledger.recovery_waiters ≡ b.waiting_calls
  pub recovered : b.ledger.recovery_exhaustions + b.waiting_calls ≤ b.ledger.recovery_waits
  pub within : b.waiting_calls ≤ b.open_calls
  pub infrastructure : b.ledger.recovery_exhaustions ≤ b.ledger.failures

step-IsBalanced : {b c : Books} → BookStep b c → IsBalanced b → IsBalanced c
unfolding open_chat begin_relay_wait end_relay_wait book_delivery settle settle_embedding
    notify_terminal_agent_failure
step-IsBalanced (opens bytes) v = ground arith
step-IsBalanced (waits h) v = ground arith
step-IsBalanced (delivers d) v = ground arith
step-IsBalanced (settles waited latency o h k m) v = ground arith
step-IsBalanced (faults f) v = ground arith
step-IsBalanced (notifies run_id) v = ground arith

-- However the chat calls and embedding calls of a session overlap, its ledger balances: every counted
-- request is still open or ended in exactly one of success, failure, denial, rejection and
-- cancellation, beside the embedding faults; every success and every rejection has its usage entry;
-- the agent's declines are a part of the denials; the waiters are the calls that wait; and every
-- exhausted recovery is one of the announced waits and of the failures.
pub reach-IsBalanced : {b : Books} → BookReach no_books b → IsBalanced b
reach-IsBalanced here = ground arith
reach-IsBalanced (next r step) = step-IsBalanced step (reach-IsBalanced r)
