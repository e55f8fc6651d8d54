-- ===== src/Broker/Scenarios.antt =====
-- Concrete calls of a session, and the theorems of its lanes, deliveries and ledger at them.
use dittobench_api.Base.{
  ◌+◌, ◌≤◌, String, Option, Bool, true, false, none, some, [], ◌∷◌, ◌≡◌, refl, arith, ◌==◌, ltb,
  nat_eq, string_eq, if◌then◌else◌,
}
use dittobench_api.Broker.Session.{Session, Parsers, empty_session, empty_ledger, empty_lane}
use dittobench_api.Broker.Decline.{
  platform_is_at_capacity, platform_denies_grant, budget_exhausted, decline_is_agent_fault,
  decline_fault_for,
}
use dittobench_api.Broker.Lanes.{admit_embedding}
use dittobench_api.Broker.Table.{Fresh, prepared}
use dittobench_api.Broker.Concurrency as Concurrency
use dittobench_api.Broker.Concurrency.{
  LaneInv, control, admit, charge, lane_safe, Chats, ChatInv, start, then_, arrive, chats_safe,
}
use dittobench_api.Broker.Delivery.{
  Body, answered, unreadable, Env, Delivery, first_delivery, is_transient, sleep, judge, receive,
  send, round, deliver, max_attempts, chat_capacity_max_waits,
}
use dittobench_api.Broker.Delivery.Bounds.{deliver_total}
use dittobench_api.Broker.Delivery.Retries.{is_retryable, only_faults_retried}
use dittobench_api.Broker.Accounting.{
  open_chat, begin_relay_wait, end_relay_wait, settle, settle_embedding, outcome, failed,
  grant_denied,
}
use dittobench_api.Broker.Embedding.{
  responded, lost, EmbeddingError, Lines, Forwards, no_forwards, forward_with_retry,
}
use dittobench_api.Broker.Embedding.Retries.{embedding_total}
use dittobench_api.Broker.Accounting.Stale.{IsSuccess, outcome-IsSuccess}
use dittobench_api.Broker.Accounting.Balance.{
  Books, IsBalanced, here, next, opens, waits, settles, faults, reach-IsBalanced,
}

abbrev parsers : Parsers
parsers = record { is_uuid = λ t. t == "run-1"; is_ip = λ t. t == "172.18.0.2" }

abbrev profile_ok : String → Bool
profile_ok profile = true

abbrev fresh : Fresh
fresh = record { id = "s1"; activation = "secret"; private = 1 ∷ 2 ∷ []; public = 3 ∷ [] }

-- A session in its embedding phase.
abbrev embedding_session : Session
embedding_session = record empty_session {
  bound_run_id = "run-1";
  lane = record empty_lane { phase_started = true; phase_active = true; embedding_concurrency = 2 };
}

abbrev error_body : Body
error_body = record { empty = false; error = record { size = 30; error_code = none }; usage = none }

-- Backpressure twice, a server error, then an answer with its usage.
abbrev busy : Env
busy = record {
  upstream = λ i.
      if ltb i 2
      then answered 503 true error_body
      else if i == 2
      then answered 500 false error_body
      else answered 200 false (record error_body { usage = some (12, 5) });
  elapsed = λ i. 40;
  wakes = λ i. true;
  builds = true;
}

abbrev busy_end : Delivery
busy_end = record {
  status = 200;
  body = some (record error_body { usage = some (12, 5) });
  deliveries = 4;
  pauses = 3;
  capacity_waits = 2;
  waiting = true;
  saturated = false;
  cancelled = false;
  latency = 160;
}

deliver_total_example :
    (e : Delivery) × (deliver busy "" 19 5 1 first_delivery ≡ some e)
    × (e.deliveries ≤ 5 + chat_capacity_max_waits)
unfolding max_attempts
deliver_total_example = deliver_total busy "" 0

only_faults_retried_example : is_retryable "" (busy.upstream 2) ≡ true
unfolding deliver round send receive judge sleep is_transient platform_is_at_capacity
    platform_denies_grant
only_faults_retried_example = only_faults_retried busy "" 19 5 busy_end refl 2 (omega arith)

-- Four server errors with a body, then a success whose body breaks off.
abbrev broken_success : Env
broken_success = record busy {
  upstream = λ i. if ltb i 4 then answered 500 false error_body else unreadable 200;
}

abbrev broken_end : Delivery
broken_end = record {
  status = 200;
  body = some error_body;
  deliveries = 5;
  pauses = 4;
  capacity_waits = 0;
  waiting = true;
  saturated = false;
  cancelled = false;
  latency = 200;
}

-- The call counts as a success with the body of a server error.
outcome-IsSuccess_example : IsSuccess broken_success "" 5 none
unfolding deliver round send receive judge sleep is_transient platform_is_at_capacity
    platform_denies_grant outcome
outcome-IsSuccess_example = outcome-IsSuccess broken_success "" 19 5 broken_end none refl refl

-- A full lane, then a lost answer, then the denial of a spent allowance.
abbrev crowded : Lines
crowded = record {
  platform = λ i.
      if i == 0
      then responded 503 true false (record { size = 0; error_code = none }) false
      else if i == 1
      then lost
      else responded 429 false false (record { size = 40; error_code = some budget_exhausted })
          false;
  ready = λ i. true;
  gone = λ i. false;
  wakes = λ i. true;
}

embedding_total_example :
    (result : Option EmbeddingError) × (g : Forwards) × (forward_with_retry crowded 19 1 no_forwards
      ≡ some (result, g))
    × (g.forwards ≤ 18)
    × (g.retries ≤ 5)
    × (g.waits ≤ 12)
    × (g.forwards ≤ g.retries + g.waits + 1)
    × (g.retries + g.waits ≤ g.forwards)
embedding_total_example = embedding_total crowded

lane_safe_example :
    LaneInv
      (Concurrency.on_lane (admit_embedding 3 (prepared fresh 1000).lane).0 (prepared fresh 1000))
lane_safe_example =
    lane_safe parsers profile_ok 4 fresh 1000 (Concurrency.next Concurrency.here (admit 3 refl))

-- A call that waited in vain, and an embedding call whose allowance was spent.
abbrev failed_books : Books
failed_books = record {
  ledger = record empty_ledger {
    requests = 1;
    prompt_bytes = 200;
    recovery_waits = 1;
    recovery_waiters = 0;
    grant_denials = 1;
    grant_agent_declines = 1;
    failures = 1;
    recovery_exhaustions = 1;
    provider_latency = 30;
  };
  open_calls = 0;
  waiting_calls = 0;
  embedding_faults = 1;
}

reach-IsBalanced_example : IsBalanced failed_books
unfolding open_chat begin_relay_wait end_relay_wait settle settle_embedding decline_is_agent_fault
    decline_fault_for
reach-IsBalanced_example = reach-IsBalanced (
    next
      (next (next (next here (opens 200)) (waits (omega arith)))
        (faults (grant_denied budget_exhausted)))
      (settles true 30 failed (omega arith) (omega arith) (omega arith)))
