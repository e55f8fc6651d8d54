-- ===== src/Broker/Embedding.antt =====
-- cmd/dittobench-api/inference_broker.go, handleEmbedding from its forwarding on, with
-- forwardPlatformEmbedding and forwardPlatformEmbeddingWithRetry: one call of the hosted embedding
-- lane. What the platform answers comes from outside, by the number of the forward.
pub mod Retries
use dittobench_api.Base.{
  ℕ, zero, suc, ◌+◌, String, Bool, true, false, not, Option, none, some, ◌==◌, ltb, leb, ◌&&◌, ◌||◌,
  nat_eq, if◌then◌else◌,
}
use dittobench_api.Broker.Session.{Ledger}
use dittobench_api.Broker.Decline.{ErrorBody, platform_decline_code, platform_is_at_capacity}
use dittobench_api.Broker.Accounting.{
  EmbeddingFault, call_gone, grant_denied, lane_full, provider_fault, settle_embedding,
}

abbrev pub ticket_transient_max_attempts : ℕ
ticket_transient_max_attempts = 6

abbrev pub embedding_capacity_max_waits : ℕ
embedding_capacity_max_waits = 12

-- The result of one request: none at all, a body that cannot be read, or a body. `usable` is whether
-- it decodes to finite vectors of the right number, dimension and order, from the locked model.
pub data PlatformAnswer : Type 0 where
  lost : PlatformAnswer
  broken : ℕ → PlatformAnswer
  responded :
      (status : ℕ) (retry_after_set too_long : Bool) (error : ErrorBody) (usable : Bool)
      → PlatformAnswer

-- platformEmbeddingAtCapacity, platformEmbeddingTransient, platformGrantDenied, and other errors.
pub data EmbeddingError : Type 0 where
  at_capacity transient : EmbeddingError
  denied : ℕ → EmbeddingError
  permanent : EmbeddingError

-- none is the decoded response.
unfoldable pub judge_embedding : PlatformAnswer → Option EmbeddingError
judge_embedding lost = some transient
judge_embedding (broken status) = some transient
judge_embedding (responded status retry_after_set too_long error usable) =
    if too_long || ltb status 200 || leb 300 status
    then some (
        if platform_is_at_capacity status retry_after_set
        then at_capacity
        else if leb 500 status
        then transient
        else if status == 429
        then denied (platform_decline_code error)
        else permanent)
    else if usable
    then none
    else some permanent

-- `ready` is whether the session still serves hosted embeddings at the forward, and its request can
-- be built; `gone` is whether the call's context has ended after it.
pub record Lines : Type 0 where
  pub platform : ℕ → PlatformAnswer
  pub ready : ℕ → Bool
  pub gone : ℕ → Bool
  pub wakes : ℕ → Bool

unfoldable pub forward_platform_embedding : Lines → ℕ → Option EmbeddingError
unfolding judge_embedding
forward_platform_embedding lines n =
    if lines.ready n then judge_embedding (lines.platform n) else some permanent

pub record Forwards : Type 0 where
  pub forwards : ℕ
  pub pauses : ℕ
  pub waits : ℕ
  pub retries : ℕ

abbrev pub no_forwards : Forwards
no_forwards = record { forwards = 0; pauses = 0; waits = 0; retries = 0 }

-- How a round ends: with the call's result, or with the next attempt.
pub data EmbeddingRound : Type 0 where
  over : Option EmbeddingError → Forwards → EmbeddingRound
  onward : ℕ → Forwards → EmbeddingRound

module _ (lines : Lines) where
  -- What the loop makes of an error of the forward numbered `n`.
  unfoldable pub recover : ℕ → ℕ → EmbeddingError → Forwards → EmbeddingRound
  recover n attempt at_capacity f =
      if leb embedding_capacity_max_waits f.waits || lines.gone n
      then over (some at_capacity) f
      else if lines.wakes f.pauses
      then onward attempt (record f { waits = f.waits + 1; pauses = f.pauses + 1 })
      else over (some at_capacity) (record f { waits = f.waits + 1; pauses = f.pauses + 1 })
  recover n attempt transient f =
      if lines.gone n || ltb ticket_transient_max_attempts (attempt + 1)
      then over (some transient) f
      else if lines.wakes f.pauses
      then onward (attempt + 1) (record f { retries = f.retries + 1; pauses = f.pauses + 1 })
      else over (some transient) (record f { pauses = f.pauses + 1 })
  recover n attempt error f = over (some error) f

  unfoldable pub judge_forward : ℕ → ℕ → Option EmbeddingError → Forwards → EmbeddingRound
  unfolding recover
  judge_forward n attempt none f = over none f
  judge_forward n attempt (some error) f = recover n attempt error f

  unfoldable pub embedding_round : ℕ → Forwards → EmbeddingRound
  unfolding judge_forward
  embedding_round attempt f =
      judge_forward f.forwards attempt (forward_platform_embedding lines f.forwards)
        (record f { forwards = f.forwards + 1 })

  -- The loop on fuel: none is fuel that ran out.
  unfoldable pub forward_with_retry : ℕ → ℕ → Forwards → Option (Option EmbeddingError × Forwards)
  forward_with_retry zero attempt f = none
  forward_with_retry (suc fuel) attempt f = elim (embedding_round attempt f) [
    | over result g ↦ some (result, g)
    | onward next g ↦ forward_with_retry fuel next g
  ]

-- Which counters an error goes to; `cancelled` is whether the call was cancelled, not timed out.
unfoldable pub embedding_fault : Bool → EmbeddingError → EmbeddingFault
embedding_fault true error = call_gone
embedding_fault false at_capacity = lane_full
embedding_fault false (denied code) = grant_denied code
embedding_fault false error = provider_fault

-- The ledger after the call, with the retries that the loop booked.
unfoldable pub book_embedding : Bool → Option EmbeddingError → Forwards → Ledger → Ledger
unfolding settle_embedding embedding_fault
book_embedding cancelled none f l = record l { embedding_retries = l.embedding_retries + f.retries }
book_embedding cancelled (some error) f l =
    settle_embedding (embedding_fault cancelled error)
      (record l { embedding_retries = l.embedding_retries + f.retries })
