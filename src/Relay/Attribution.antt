-- ===== src/Relay/Attribution.antt =====
-- Who is charged for a failed run: the ledger of a session from one snapshot to the next, and the
-- classification that relay_preflight.go makes of it.
use dittobench_api.Base.{
  ℕ, ◌+◌, ◌-◌, ◌≤◌, String, Bool, true, false, not, some, List, [], ◌∷◌, ◌≡◌, refl, ◌↔◌, arith, ltb,
  nat_eq, string_eq,
}
use dittobench_api.Broker.Session.{Ledger}
use dittobench_api.Broker.Decline.{decline_is_agent_fault}
use dittobench_api.Broker.Delivery.{Delivery}
use dittobench_api.Broker.Accounting.{
  one_if, open_chat, begin_relay_wait, end_relay_wait, book_delivery, Outcome, declined, settle,
  EmbeddingFault, grant_denied, settle_embedding, notify_terminal_agent_failure,
}
use dittobench_api.Relay.{
  agent_declined, relay_restarted, relay_degraded_since, execution_between, relay_execution_since,
}

-- An event that changes the ledger of a session.
pub data Entry : Type 0 where
  opened : ℕ → Entry
  wait_begun wait_ended : Entry
  delivered : Delivery → Entry
  settled : Bool → ℕ → Outcome → Entry
  embedding_failed : EmbeddingFault → Entry
  embedding_retried : Entry
  notified : String → Entry

unfoldable pub book : Entry → Ledger → Ledger
unfolding open_chat begin_relay_wait end_relay_wait book_delivery settle settle_embedding
    notify_terminal_agent_failure
book (opened bytes) l = open_chat bytes l
book wait_begun l = (begin_relay_wait l).0
book wait_ended l = (end_relay_wait l).0
book (delivered d) l = book_delivery d l
book (settled waited latency o) l = settle waited latency o l
book (embedding_failed f) l = settle_embedding f l
book embedding_retried l = record l { embedding_retries = l.embedding_retries + 1 }
book (notified run_id) l = (notify_terminal_agent_failure run_id l).0

unfoldable pub book_all : List Entry → Ledger → Ledger
book_all [] l = l
book_all (e ∷ es) l = book_all es (book e l)

-- The declines among the entries, and those that the platform is at fault for.
abbrev pub is_decline : Entry → Bool
is_decline (settled waited latency (declined agent)) = true
is_decline (embedding_failed (grant_denied code)) = true
is_decline _ = false

abbrev pub is_platform_decline : Entry → Bool
is_platform_decline (settled waited latency (declined agent)) = not agent
is_platform_decline (embedding_failed (grant_denied code)) = not (decline_is_agent_fault code)
is_platform_decline _ = false

abbrev pub count : (Entry → Bool) → List Entry → ℕ
count p [] = 0
count p (e ∷ es) = one_if (p e) + count p es

-- What the entries add to the counters that the classification reads.
pub record Grew (es : List Entry) (s e : Ledger) : Type 0 where
  pub denials : e.grant_denials ≡ s.grant_denials + count is_decline es
  pub declines :
      e.grant_agent_declines + count is_platform_decline es
      ≡ s.grant_agent_declines + count is_decline es
  pub part : count is_platform_decline es ≤ count is_decline es
  pub requests : s.requests ≤ e.requests
  pub successes : s.successes ≤ e.successes
  pub failures : s.failures ≤ e.failures
  pub rejections : s.agent_request_rejections ≤ e.agent_request_rejections
  pub exhaustions : s.capacity_exhaustions ≤ e.capacity_exhaustions
  pub waits : s.recovery_waits ≤ e.recovery_waits
  pub recoveries : s.recovery_exhaustions ≤ e.recovery_exhaustions
  pub retries : s.embedding_retries ≤ e.embedding_retries
  pub cancels : s.caller_cancels ≤ e.caller_cancels
  pub attempts : s.upstream_attempts ≤ e.upstream_attempts

book-Grew : (e : Entry) (l : Ledger) → Grew (e ∷ []) l (book e l)
unfolding book
book-Grew (opened bytes) l = ground arith
book-Grew wait_begun l = ground arith
book-Grew wait_ended l = ground arith
book-Grew (delivered d) l = ground arith
book-Grew (settled waited latency o) l = ground arith
book-Grew (embedding_failed f) l = ground arith
book-Grew embedding_retried l = ground arith
book-Grew (notified run_id) l = ground arith

pub book_all-Grew : (es : List Entry) (l : Ledger) → Grew es l (book_all es l)
unfolding book_all
book_all-Grew [] l = omega arith
book_all-Grew (e ∷ es) l = omega (arith, book-Grew e l, book_all-Grew es (book e l))

not_less : {a b : ℕ} → b ≤ a → ltb a b ≡ false
not_less {a} {b} h = ground arith

pub Grew-not_restarted :
    {es : List Entry} {s e : Ledger} → Grew es s e → relay_restarted s e ≡ false
unfolding relay_restarted
Grew-not_restarted {es} {s} {e} g =
    let total : s.grant_denials ≤ e.grant_denials = omega (arith, g.denials) in
    let subset : s.grant_agent_declines ≤ e.grant_agent_declines =
      omega (arith, g.declines, g.part) in
    let within : e.grant_agent_declines - s.grant_agent_declines
        ≤ e.grant_denials - s.grant_denials =
      omega (arith, g.denials, g.declines) in
    rw (
      not_less g.requests,
      not_less g.successes,
      not_less g.failures,
      not_less total,
      not_less subset,
      not_less g.rejections,
      not_less g.exhaustions,
      not_less g.waits,
      not_less g.recoveries,
      not_less g.retries,
      not_less g.cancels,
      not_less g.attempts,
      not_less within,
    )

-- When the ledgers of two snapshots of a session are compared, with any events of either lane booked
-- between them, the comparison finds that the agent's own declines degraded the relay exactly when a
-- grant was declined between them and no decline was the platform's fault. It says nothing of a run
-- that ended before its second snapshot, as one does at the first decline of the agent's.
pub agent_declined_iff :
    (es : List Entry) (l : Ledger)
    → (relay_degraded_since l (book_all es l) ≡ some agent_declined)
      ↔ (1 ≤ count is_decline es) × (count is_platform_decline es ≡ 0)
unfolding relay_degraded_since
agent_declined_iff es l =
    let g = book_all-Grew es l in
    let live = Grew-not_restarted g in
    (
      ground (arith, live, g.denials, g.declines, g.part),
      ground (arith, live, g.denials, g.declines, g.part),
    )

-- The ledger of a live session is never taken for that of a restarted relay, so the deliveries of the
-- interval are always reported.
never_restarted :
    (es : List Entry) (l : Ledger)
    → (relay_restarted l (book_all es l) ≡ false)
      × (relay_execution_since l (book_all es l) ≡ some (execution_between l (book_all es l)))
unfolding relay_execution_since
never_restarted es l = let live = Grew-not_restarted (book_all-Grew es l) in (live, rw live refl)
