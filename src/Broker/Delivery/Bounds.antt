-- ===== src/Broker/Delivery/Bounds.antt =====
-- cmd/dittobench-api/inference_broker.go, proxy: the delivery loop ends, and how often it delivers.
use dittobench_api.Base.{
  ℕ, zero, suc, ◌+◌, ◌-◌, ◌≤◌, ◌<◌, String, Bool, true, false, some, ◌≡◌, refl, subst, ◌⊎◌, inl,
  inr, arith, ltb, leb, nat_eq, string_eq, if◌then◌else◌, Bool-cases,
}
use dittobench_api.Broker.Delivery.{
  Upstream, no_response, unreadable, answered, Env, Delivery, first_delivery, Round, stop, again,
  max_attempts, chat_capacity_max_waits, judge, receive, send, round, deliver,
}

pub Round-cases :
    (r : Round) → ((e : Delivery) × (r ≡ stop e)) ⊎ ((n : ℕ) × (e : Delivery) × (r ≡ again n e))
Round-cases (stop e) = inl (e, refl)
Round-cases (again n e) = inr (n, e, refl)

module _ (env : Env) (gateway : String) where
  -- A round that goes on has delivered once, and used up an attempt or a capacity wait.
  record Progress (attempt : ℕ) (d : Delivery) (next : ℕ) (e : Delivery) : Type 0 where
    delivered : e.deliveries ≡ d.deliveries + 1
    used : next + e.capacity_waits ≡ attempt + d.capacity_waits + 1
    not_back : attempt ≤ next
    one_on : next ≤ attempt + 1
    waits_capped : d.capacity_waits ≤ 12 → e.capacity_waits ≤ 12

  abbrev Fair : ℕ → Delivery → Round → Type 0
  Fair attempt d (stop e) = e.deliveries ≤ d.deliveries + 1
  Fair attempt d (again next e) = Progress attempt d next e

  judge-Fair :
      (attempt status : ℕ) (set : Bool) (d e : Delivery)
      → e.deliveries ≡ d.deliveries + 1
      → e.capacity_waits ≡ d.capacity_waits
      → Fair attempt d (judge env gateway attempt status set e)
  unfolding judge
  judge-Fair attempt status set d e h k = ground arith

  receive-Fair :
      (attempt : ℕ) (u : Upstream) (d e : Delivery)
      → e.deliveries ≡ d.deliveries + 1
      → e.capacity_waits ≡ d.capacity_waits
      → Fair attempt d (receive env gateway attempt u e)
  unfolding receive
  receive-Fair attempt (no_response gone) d e h k = ground arith
  receive-Fair attempt (unreadable status) d e h k = ground arith
  receive-Fair attempt (answered status set body) d e h k =
      judge-Fair attempt status set d (record e { status = status; body = some body }) h k

  Fair-if :
      (attempt : ℕ) (d : Delivery) (b : Bool) (x y : Round)
      → Fair attempt d x
      → Fair attempt d y
      → Fair attempt d (if b then x else y)
  Fair-if attempt d true x y h k = h
  Fair-if attempt d false x y h k = k

  send-Fair :
      (attempt : ℕ) (d e : Delivery)
      → e.deliveries ≡ d.deliveries
      → e.capacity_waits ≡ d.capacity_waits
      → Fair attempt d (send env gateway attempt e)
  unfolding send
  send-Fair attempt d e h k =
      Fair-if attempt d env.builds _ _
        (receive-Fair attempt (env.upstream e.deliveries) d _ (omega arith) k) (omega arith)

  round-Fair : (attempt : ℕ) (d : Delivery) → Fair attempt d (round env gateway attempt d)
  unfolding round
  round-Fair attempt d =
      Fair-if attempt d (ltb 1 attempt) _ _
        (Fair-if attempt d (env.wakes d.pauses) _ _ (send-Fair attempt d _ refl refl) (omega arith))
        (send-Fair attempt d d refl refl)

  stop-Fair :
      (attempt : ℕ) (d e : Delivery)
      → round env gateway attempt d ≡ stop e
      → e.deliveries ≤ d.deliveries + 1
  stop-Fair attempt d e h = subst (Fair attempt d) h (round-Fair attempt d)

  again-Fair :
      (attempt : ℕ) (d : Delivery) (next : ℕ) (e : Delivery)
      → round env gateway attempt d ≡ again next e
      → Progress attempt d next e
  again-Fair attempt d next e h = subst (Fair attempt d) h (round-Fair attempt d)

  deliver_bounded :
      (fuel maximum attempt : ℕ) (d : Delivery)
      → d.capacity_waits ≤ 12
      → (maximum + 1 - attempt) + (12 - d.capacity_waits) < fuel
      → (e : Delivery) × (deliver env gateway fuel maximum attempt d ≡ some e)
        × (e.deliveries ≤ d.deliveries + (maximum + 1 - attempt) + (12 - d.capacity_waits))
  unfolding deliver
  deliver_bounded zero maximum attempt d w h = absurd (omega arith)
  deliver_bounded (suc fuel) maximum attempt d w h = elim (Bool-cases (leb attempt maximum)) [
    | inr over ↦ (d, rw over refl, omega arith)
    | inl room ↦ elim (Round-cases (round env gateway attempt d)) [
      | inl (e, stops) ↦
          (e, rw (room, stops) refl, ground (arith, room, stop-Fair attempt d e stops))
      | inr (next, e, goes) ↦
          let p = again-Fair attempt d next e goes in
          let (r, result, bound) =
            deliver_bounded fuel maximum next e (p.waits_capped w)
              (ground (arith, room, p.used, p.not_back, p.one_on, p.waits_capped w)) in
          (
            r,
            rw (room, goes) result,
            ground
                (arith, room, bound, p.delivered, p.used, p.not_back, p.one_on, p.waits_capped w),
          )
    ]
  ]

  -- The delivery loop of a chat call ends, whatever the platform answers and however the pauses go,
  -- and makes at most as many deliveries as the maximum of attempts and the twelve capacity waits.
  pub deliver_total :
      (retry_attempts : ℕ)
      → let maximum = max_attempts gateway retry_attempts in
        (e : Delivery) × (deliver env gateway (maximum + 14) maximum 1 first_delivery ≡ some e)
        × (e.deliveries ≤ maximum + chat_capacity_max_waits)
  deliver_total retry_attempts =
      let maximum = max_attempts gateway retry_attempts in
      let (e, result, bound) =
        deliver_bounded (maximum + 14) maximum 1 first_delivery (omega arith) (omega arith) in
      (e, result, omega (arith, bound))
