-- ===== src/Broker/Delivery.antt =====
-- cmd/dittobench-api/inference_broker.go, proxy: the delivery loop of one chat call. What the
-- platform answers, how long it takes and whether a pause runs to its end come from outside, as
-- functions of the number of the delivery and of the pause.
pub mod Bounds
pub mod Retries
use dittobench_api.Base.{
  ℕ, zero, suc, ◌+◌, ◌-◌, ◌≤◌, ◌<◌, String, Bool, true, false, not, Option, none, some, List, [],
  ◌∷◌, ◌≡◌, refl, ◌==◌, ltb, leb, ◌&&◌, ◌||◌, nat_eq, string_eq, if◌then◌else◌,
}
use dittobench_api.Broker.Decline.{ErrorBody, platform_is_at_capacity, platform_denies_grant}

abbrev pub chat_fast_attempts : ℕ
chat_fast_attempts = 1

abbrev pub recovery_attempts : ℕ
recovery_attempts = 4

abbrev pub chat_capacity_max_waits : ℕ
chat_capacity_max_waits = 12

-- A response body that was read: whether it is empty, how it reads as an error envelope, and the
-- prompt and completion tokens of its usage block, if it has one with no negative count.
pub record Body : Type 0 where
  pub empty : Bool
  pub error : ErrorBody
  pub usage : Option (ℕ × ℕ)

-- The result of one delivery: no response (with whether the call was cancelled), a response whose
-- body cannot be read or is too long, or a response.
pub data Upstream : Type 0 where
  no_response : Bool → Upstream
  unreadable : ℕ → Upstream
  answered : (status : ℕ) (retry_after_set : Bool) (body : Body) → Upstream

pub record Env : Type 0 where
  pub upstream : ℕ → Upstream
  pub elapsed : ℕ → ℕ
  pub wakes : ℕ → Bool
  pub builds : Bool

-- The loop's variables: the count of deliveries is what upstreamAttempts grows by.
pub record Delivery : Type 0 where
  pub status : ℕ
  pub body : Option Body
  pub deliveries : ℕ
  pub pauses : ℕ
  pub capacity_waits : ℕ
  pub waiting : Bool
  pub saturated : Bool
  pub cancelled : Bool
  pub latency : ℕ

abbrev pub first_delivery : Delivery
first_delivery = record {
  status = 0;
  body = none;
  deliveries = 0;
  pauses = 0;
  capacity_waits = 0;
  waiting = false;
  saturated = false;
  cancelled = false;
  latency = 0;
}

-- How a round ends: the loop is left, or goes on with an attempt number.
pub data Round : Type 0 where
  stop : Delivery → Round
  again : ℕ → Delivery → Round

unfoldable pub is_transient : ℕ → Bool
is_transient status = status == 408 || status == 429 || leb 500 status

-- maxAttempts; `retry_attempts` is the configured maximum of a legacy relay.
unfoldable pub max_attempts : String → ℕ → ℕ
max_attempts legacy_gateway retry_attempts =
    let n =
      if legacy_gateway == "" then chat_fast_attempts + recovery_attempts else retry_attempts in
    if ltb n 1 then 1 else n

module _ (env : Env) (legacy_gateway : String) where
  -- A pause that the call's cancellation cuts short leaves the loop.
  unfoldable pub sleep : Delivery → (Delivery → Round) → Round
  sleep d rest =
      if env.wakes d.pauses
      then rest (record d { pauses = d.pauses + 1 })
      else stop (record d { pauses = d.pauses + 1; cancelled = true })

  -- The branch on an answer that was read.
  unfoldable pub judge : ℕ → ℕ → Bool → Delivery → Round
  unfolding sleep is_transient
  judge attempt status retry_after_set d =
      if legacy_gateway == "" && platform_is_at_capacity status retry_after_set
      then if leb chat_capacity_max_waits d.capacity_waits
        then stop (record d { saturated = true })
        else sleep (record d { capacity_waits = d.capacity_waits + 1 }) (again attempt)
      else if platform_denies_grant legacy_gateway status
      then stop d
      else if is_transient status
      then again (attempt + 1) d
      else stop d

  -- One request, and what is made of its result.
  unfoldable pub receive : ℕ → Upstream → Delivery → Round
  unfolding judge
  receive attempt (no_response gone) d =
      if gone then stop (record d { cancelled = true }) else again (attempt + 1) d
  receive attempt (unreadable status) d = again (attempt + 1) (record d { status = status })
  receive attempt (answered status retry_after_set body) d =
      judge attempt status retry_after_set (record d { status = status; body = some body })

  unfoldable pub send : ℕ → Delivery → Round
  send attempt d =
      if env.builds
      then receive attempt (env.upstream d.deliveries) (record d {
        deliveries = d.deliveries + 1;
        latency = d.latency + env.elapsed d.deliveries;
      })
      else stop d

  -- The loop's body. A second attempt of a ticket's call announces the wait for the relay.
  unfoldable pub round : ℕ → Delivery → Round
  unfolding sleep
  round attempt d =
      if ltb 1 attempt
      then sleep
          (record d {
            waiting = d.waiting || (legacy_gateway == "" && ltb chat_fast_attempts attempt);
          })
          (send attempt)
      else send attempt d

  -- The loop on fuel: none is fuel that ran out.
  unfoldable pub deliver : ℕ → ℕ → ℕ → Delivery → Option Delivery
  deliver zero maximum attempt d = none
  deliver (suc fuel) maximum attempt d =
      if leb attempt maximum
      then elim (round attempt d) [ stop e ↦ some e | again next e ↦ deliver fuel maximum next e ]
      else some d
