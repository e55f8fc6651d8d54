-- ===== src/Broker/Delivery/Retries.antt =====
-- cmd/dittobench-api/inference_broker.go, proxy: what is delivered again.
use dittobench_api.Base.{
  ℕ, zero, suc, ◌+◌, ◌≤◌, ◌<◌, String, Bool, true, false, not, some, ◌≡◌, subst, inl, inr, arith,
  ltb, leb, ◌==◌, ◌&&◌, ◌||◌, nat_eq, string_eq, if◌then◌else◌, Bool-cases,
}
use native.Mathlib.Decide.{ℕ_discrete}
use dittobench_api.Broker.Decline.{platform_is_at_capacity, platform_denies_grant}
use dittobench_api.Broker.Delivery.{
  Body, Upstream, no_response, unreadable, answered, Env, Delivery, first_delivery, Round, stop,
  again, is_transient, judge, receive, send, round, deliver,
}
use dittobench_api.Broker.Delivery.Bounds.{Round-cases}

-- What is worth another delivery: no response to a call that is not cancelled, a response that cannot
-- be read, whatever its status, and the statuses 408, 429 for a legacy relay, and from 500 on.
abbrev pub is_retryable : String → Upstream → Bool
is_retryable gateway (no_response gone) = not gone
is_retryable gateway (unreadable status) = true
is_retryable gateway (answered status set body) =
    status == 408 || (status == 429 && not (gateway == "")) || leb 500 status

module _ (env : Env) (gateway : String) where
  abbrev Faulty : Upstream → ℕ → Round → Type 0
  Faulty u n (stop e) = e.deliveries ≤ n + 1
  Faulty u n (again next e) = (is_retryable gateway u ≡ true) × (e.deliveries ≡ n + 1)

  judge-Faulty :
      (attempt status n : ℕ) (set : Bool) (body : Body) (e : Delivery)
      → e.deliveries ≡ n + 1
      → Faulty (answered status set body) n (judge env gateway attempt status set e)
  unfolding judge is_transient platform_denies_grant platform_is_at_capacity
  judge-Faulty attempt status n set body e h = ground arith

  receive-Faulty :
      (attempt n : ℕ) (u : Upstream) (e : Delivery)
      → e.deliveries ≡ n + 1
      → Faulty u n (receive env gateway attempt u e)
  unfolding receive
  receive-Faulty attempt n (no_response gone) e h = ground arith
  receive-Faulty attempt n (unreadable status) e h = ground arith
  receive-Faulty attempt n (answered status set body) e h =
      judge-Faulty attempt status n set body (record e { status = status; body = some body }) h

  Faulty-if :
      (u : Upstream) (n : ℕ) (b : Bool) (x y : Round)
      → Faulty u n x
      → Faulty u n y
      → Faulty u n (if b then x else y)
  Faulty-if u n true x y h k = h
  Faulty-if u n false x y h k = k

  send-Faulty :
      (attempt : ℕ) (e : Delivery)
      → Faulty (env.upstream e.deliveries) e.deliveries (send env gateway attempt e)
  unfolding send
  send-Faulty attempt e =
      Faulty-if (env.upstream e.deliveries) e.deliveries env.builds _ _
        (receive-Faulty attempt e.deliveries (env.upstream e.deliveries) _ (omega arith))
        (omega arith)

  round-Faulty :
      (attempt : ℕ) (d : Delivery)
      → Faulty (env.upstream d.deliveries) d.deliveries (round env gateway attempt d)
  unfolding round
  round-Faulty attempt d =
      let u = env.upstream d.deliveries in
      Faulty-if u d.deliveries (ltb 1 attempt) _ _
        (Faulty-if u d.deliveries (env.wakes d.pauses) _ _ (send-Faulty attempt _) (omega arith))
        (send-Faulty attempt d)

  retried :
      (fuel maximum attempt : ℕ) (d e : Delivery)
      → deliver env gateway fuel maximum attempt d ≡ some e
      → (i : ℕ) → d.deliveries ≤ i
      → i + 1 < e.deliveries
      → is_retryable gateway (env.upstream i) ≡ true
  unfolding deliver
  retried zero maximum attempt d e h i lo hi = cc
  retried (suc fuel) maximum attempt d e h i lo hi = elim (Bool-cases (leb attempt maximum)) [
    | inr over ↦ absurd (ground (arith, over))
    | inl room ↦ elim (Round-cases (round env gateway attempt d)) [
      | inl (f, stops) ↦
          let once =
            subst (Faulty (env.upstream d.deliveries) d.deliveries) stops
              (round-Faulty attempt d) in
          let same : some f ≡ some e = rw (room, stops) at h in absurd (ground (arith, once, same))
      | inr (next, f, goes) ↦
          let (faulty, counted) =
            subst (Faulty (env.upstream d.deliveries) d.deliveries) goes (round-Faulty attempt d) in
          let rest : deliver env gateway fuel maximum next f ≡ some e = rw (room, goes) at h in
          elim (ℕ_discrete d.deliveries i) [
            | yes first ↦ subst (λ k. is_retryable gateway (env.upstream k) ≡ true) first faulty
            | no other ↦ retried fuel maximum next f e rest i (omega (arith, counted)) hi
          ]
    ]
  ]

  -- A chat call is delivered again only behind a delivery that got no response while the call was not
  -- cancelled, a response that could not be read, whatever its status, or a response with the status
  -- 408, with 429 from a legacy relay, or with one from 500 on. So a response that was read ends the
  -- call if it is a success, a refusal of the request, or, for a ticket, the denial of its grant by 429.
  pub only_faults_retried :
      (fuel maximum : ℕ) (e : Delivery)
      → deliver env gateway fuel maximum 1 first_delivery ≡ some e
      → (i : ℕ) → i + 1 < e.deliveries
      → is_retryable gateway (env.upstream i) ≡ true
  only_faults_retried fuel maximum e h i hi =
      retried fuel maximum 1 first_delivery e h i (omega arith) hi
