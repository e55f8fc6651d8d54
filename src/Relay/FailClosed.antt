-- ===== src/Relay/FailClosed.antt =====
-- cmd/dittobench-api/relay_preflight.go: a run is never scored on degraded inference.
use dittobench_api.Base.{
  ℕ, ◌+◌, ◌*◌, ◌≤◌, ◌<◌, Bool, true, false, none, List, [], ◌∷◌, ◌≡◌, sym, subst, ◌↔◌, arith,
  nat_eq, string_eq,
}
use dittobench_api.Broker.Session.{Ledger}
use dittobench_api.Broker.Accounting.{declined, failed, grant_denied, lane_full, provider_fault}
use dittobench_api.Relay.{
  Snapshot, relay_degraded_since, Execution, TokenUsage, usage_between, usage_went_back,
  relay_usage_since,
}
use dittobench_api.Relay.Finalize.{
  valid_usage, require_complete_v7_usage, relay_run_result, metered,
}
use dittobench_api.Relay.Attribution.{
  Entry, opened, wait_begun, wait_ended, delivered, settled, embedding_failed, embedding_retried,
  notified, book, book_all, count, book_all-Grew, Grew-not_restarted,
}

-- The entries of degraded inference: a failed call, a denied grant, a lane that stayed full.
abbrev pub is_fault : Entry → Bool
is_fault (settled waited latency failed) = true
is_fault (settled waited latency (declined agent)) = true
is_fault (embedding_failed lane_full) = true
is_fault (embedding_failed provider_fault) = true
is_fault (embedding_failed (grant_denied code)) = true
is_fault (delivered d) = d.saturated
is_fault _ = false

abbrev faults : Ledger → ℕ
faults l = l.failures + l.grant_denials + l.capacity_exhaustions

-- What faulty entries add up to.
record Faulted (es : List Entry) (s e : Ledger) : Type 0 where
  least : faults s + count is_fault es ≤ faults e
  most : faults e ≤ faults s + 2 * count is_fault es
  recoveries : e.recovery_exhaustions + s.failures ≤ s.recovery_exhaustions + e.failures

book-Faulted : (e : Entry) (l : Ledger) → Faulted (e ∷ []) l (book e l)
unfolding book
book-Faulted (opened bytes) l = ground arith
book-Faulted wait_begun l = ground arith
book-Faulted wait_ended l = ground arith
book-Faulted (delivered d) l = ground arith
book-Faulted (settled waited latency o) l = ground arith
book-Faulted (embedding_failed f) l = ground arith
book-Faulted embedding_retried l = ground arith
book-Faulted (notified run_id) l = ground arith

book_all-Faulted : (es : List Entry) (l : Ledger) → Faulted es l (book_all es l)
unfolding book_all
book_all-Faulted [] l = omega arith
book_all-Faulted (e ∷ es) l = omega (arith, book-Faulted e l, book_all-Faulted es (book e l))

-- A run passes the check for degraded inference exactly when nothing degraded was booked between its
-- snapshots: no failed call on either lane, no denied grant and no exhausted wait for a full lane.
undegraded_iff :
    (es : List Entry) (l : Ledger)
    → (relay_degraded_since l (book_all es l) ≡ none) ↔ (count is_fault es ≡ 0)
unfolding relay_degraded_since
undegraded_iff es l =
    let g = book_all-Grew es l in
    let live = Grew-not_restarted g in
    let f = book_all-Faulted es l in
    (
      ground (arith, live, g.denials, g.failures, g.exhaustions, f.least, f.most),
      ground (arith, live, g.denials, g.failures, g.exhaustions, f.most, f.least, f.recoveries),
    )

run_result_metered :
    (s e : Snapshot) {u : TokenUsage} {x : Execution}
    → relay_run_result s e ≡ metered u x
    → (relay_degraded_since s.ledger e.ledger ≡ none)
      × (usage_went_back s.ledger e.ledger ≡ false)
      × (u ≡ usage_between s.ledger e.ledger)
unfolding relay_run_result relay_usage_since
run_result_metered s e h = ground arith

valid_usage_lem :
    (u : TokenUsage)
    → valid_usage u ≡ true
    → (1 ≤ u.successes)
      × (u.usage_available ≡ u.successes)
      × (u.usage_unavailable ≡ 0)
      × (u.total_tokens ≡ u.prompt_tokens + u.completion_tokens)
unfolding valid_usage
valid_usage_lem u h = ground arith

usage_forward :
    (s e : Ledger)
    → usage_went_back s e ≡ false
    → (s.successes ≤ e.successes)
      × (s.usage_available ≤ e.usage_available)
      × (s.usage_unavailable ≤ e.usage_unavailable)
      × (s.prompt_tokens ≤ e.prompt_tokens)
      × (s.completion_tokens ≤ e.completion_tokens)
unfolding usage_went_back
usage_forward s e h = ground arith

-- What valid usage says of the ledgers it was taken from.
abbrev pub ValidBetween : Ledger → Ledger → TokenUsage → Type 0
ValidBetween s e u =
    (s.successes < e.successes)
    × (e.usage_available + s.successes ≡ e.successes + s.usage_available)
    × (e.usage_unavailable ≡ s.usage_unavailable)
    × (u.total_tokens + s.prompt_tokens + s.completion_tokens
        ≡ e.prompt_tokens + e.completion_tokens)

valid_between :
    (s e : Ledger)
    → usage_went_back s e ≡ false
    → valid_usage (usage_between s e) ≡ true
    → ValidBetween s e (usage_between s e)
unfolding usage_between
valid_between s e h v =
    let (a, b, c, d, f) = usage_forward s e h in
    let (i, j, k, l) = valid_usage_lem (usage_between s e) v in
    (omega (arith, a, i), omega (arith, a, b, i, j), omega (arith, c, k), omega (arith, d, f, l))

-- A run of version 7 or later that passes both checks at its end ran on undegraded inference, with
-- at least one served chat call; every served call came with its token counts, no request was
-- rejected, and the total is the sum of the counted tokens, without overflow.
pub scored_run_sound :
    (es : List Entry) (s e : Snapshot) (version : ℕ) (u : TokenUsage) (x : Execution)
    → e.ledger ≡ book_all es s.ledger
    → 7 ≤ version
    → relay_run_result s e ≡ metered u x
    → require_complete_v7_usage version u x ≡ none
    → (count is_fault es ≡ 0) × ValidBetween s.ledger e.ledger u
unfolding require_complete_v7_usage
scored_run_sound es s e version u x same h k c =
    let (undegraded, forward, between) = run_result_metered s e k in
    let valid : valid_usage u ≡ true = ground arith in
    (
      (undegraded_iff es s.ledger).0 (rw (← same) undegraded),
      subst (ValidBetween s.ledger e.ledger) (sym between)
          (valid_between s.ledger e.ledger forward (rw (← between) valid)),
    )
