-- ===== src/Broker/Decline.antt =====
-- cmd/dittobench-api/inference_broker.go: how one answer of the platform is read.
use dittobench_api.Base.{
  ℕ, String, Bool, true, false, Option, none, some, ◌≡◌, refl, ◌↔◌, ◌⊎◌, arith, ◌==◌, ltb, leb,
  ◌&&◌, ◌||◌, ◌*◌, nat_eq, string_eq, if◌then◌else◌,
}

abbrev pub unspecified : ℕ
unspecified = 4100

abbrev pub grant_revoked : ℕ
grant_revoked = 4101

abbrev pub budget_exhausted : ℕ
budget_exhausted = 4102

abbrev pub at_capacity : ℕ
at_capacity = 4103

abbrev pub token_budget_exhausted : ℕ
token_budget_exhausted = 4104

abbrev pub lease_expired : ℕ
lease_expired = 4105

abbrev pub nonce_replayed : ℕ
nonce_replayed = 4106

abbrev pub model_not_permitted : ℕ
model_not_permitted = 4107

abbrev pub grant_not_exchanged : ℕ
grant_not_exchanged = 4108

abbrev pub reservation_too_large : ℕ
reservation_too_large = 4109

pub data DeclineFault : Type 0 where
  platform agent : DeclineFault

-- The table declineFaultFor; a code that is not in it has the zero value.
unfoldable pub decline_fault_for : ℕ → DeclineFault
decline_fault_for code =
    if code == budget_exhausted
    then agent
    else if code == token_budget_exhausted
    then agent
    else if code == reservation_too_large
    then agent
    else platform

unfoldable pub decline_is_agent_fault : ℕ → Bool
unfolding decline_fault_for
decline_is_agent_fault code = elim (decline_fault_for code) [ agent ↦ true | platform ↦ false ]

-- The keys of platformDeclineReasons.
unfoldable pub is_known_decline : ℕ → Bool
is_known_decline code =
    code == unspecified
    || code == grant_revoked
    || code == budget_exhausted
    || code == at_capacity
    || code == token_budget_exhausted
    || code == lease_expired
    || code == nonce_replayed
    || code == model_not_permitted
    || code == grant_not_exchanged
    || code == reservation_too_large

-- The body of an error answer: its length, and the error_code of its envelope if it parses.
pub record ErrorBody : Type 0 where
  pub size : ℕ
  pub error_code : Option ℕ

unfoldable pub platform_decline_code : ErrorBody → ℕ
unfolding is_known_decline
platform_decline_code body =
    if body.size == 0 || ltb 65536 body.size
    then 0
    else elim body.error_code [ none ↦ 0 | some code ↦ if is_known_decline code then code else 0 ]

-- Retry-After in nanoseconds; none is a text that is no integer. A negative number is 0.
unfoldable pub retry_after_duration : Option ℕ → ℕ
retry_after_duration none = 250000000
retry_after_duration (some seconds) =
    if ltb seconds 1 then 250000000 else (if ltb 5 seconds then 5 else seconds) * 1000000000

-- Whether Retry-After is set is whether the trimmed header is not empty.
unfoldable pub platform_is_at_capacity : ℕ → Bool → Bool
platform_is_at_capacity status retry_after_set = status == 503 && retry_after_set

unfoldable pub platform_denies_grant : String → ℕ → Bool
platform_denies_grant legacy_gateway status = legacy_gateway == "" && status == 429

-- A decline is charged to the agent exactly for a spent request budget, a spent token budget or a
-- reservation that is too large. Every other code is the platform's fault, that of an answer whose
-- body is empty, too long, unreadable or carries an unknown code included.
pub decline_is_agent_fault_iff :
    (body : ErrorBody)
    → (decline_is_agent_fault (platform_decline_code body) ≡ true)
      ↔ ((leb 1 body.size && leb body.size 65536) ≡ true)
        × ((body.error_code ≡ some budget_exhausted)
            ⊎ (body.error_code ≡ some token_budget_exhausted)
            ⊎ (body.error_code ≡ some reservation_too_large))
unfolding decline_is_agent_fault platform_decline_code
decline_is_agent_fault_iff body = ground arith

-- The pause that a Retry-After asks for is between a quarter of a second and five seconds.
retry_after_bounds :
    (header : Option ℕ)
    → (leb 250000000 (retry_after_duration header) ≡ true)
      × (leb (retry_after_duration header) 5000000000 ≡ true)
unfolding retry_after_duration
retry_after_bounds none = (refl, refl)
retry_after_bounds (some seconds) = ground arith
