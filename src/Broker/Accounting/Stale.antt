-- ===== src/Broker/Accounting/Stale.antt =====
-- cmd/dittobench-api/inference_broker.go, proxy: which status and which body the loop ends with.
use dittobench_api.Base.{
  ℕ, zero, suc, ◌+◌, ◌≤◌, ◌<◌, String, Bool, true, false, Option, none, some, ◌≡◌, subst, inl, inr,
  refl, sym, ◌∙◌, not, arith, ltb, leb, ◌&&◌, nat_eq, string_eq, if◌then◌else◌, Bool-cases,
}
use mathlib.Core.Option.{some-injective}
use dittobench_api.Broker.Delivery.{
  Body, Upstream, no_response, unreadable, answered, Env, Delivery, first_delivery, Round, stop,
  again, judge, receive, send, round, deliver,
}
use dittobench_api.Broker.Accounting.{served, outcome}
use dittobench_api.Broker.Delivery.Bounds.{Round-cases}

-- The status of the latest of the first n deliveries that got a response.
unfoldable pub latest_status : Env → ℕ → ℕ
latest_status env zero = 0
latest_status env (suc n) =
    let earlier = latest_status env n in
    elim (env.upstream n) [
      | no_response gone ↦ earlier
      | unreadable status ↦ status
      | answered status set body ↦ status
    ]

-- The body of the latest of the first n deliveries that got one that could be read.
unfoldable pub latest_body : Env → ℕ → Option Body
latest_body env zero = none
latest_body env (suc n) =
    let earlier = latest_body env n in
    elim (env.upstream n) [
      | no_response gone ↦ earlier
      | unreadable status ↦ earlier
      | answered status set body ↦ some body
    ]

module _ (env : Env) (gateway : String) where
  abbrev IsLatest : Delivery → Type 0
  IsLatest d = (d.status ≡ latest_status env d.deliveries) × (d.body ≡ latest_body env d.deliveries)

  abbrev Latest : Round → Type 0
  Latest (stop e) = IsLatest e
  Latest (again next e) = IsLatest e

  Latest-if : (b : Bool) (x y : Round) → Latest x → Latest y → Latest (if b then x else y)
  Latest-if true x y h k = h
  Latest-if false x y h k = k

  judge-Latest :
      (attempt status : ℕ) (set : Bool) (e : Delivery)
      → IsLatest e
      → Latest (judge env gateway attempt status set e)
  unfolding judge
  judge-Latest attempt status set e h = ground (arith, h.0, h.1)

  receive-Latest :
      (attempt : ℕ) (u : Upstream) (d : Delivery) (latency : ℕ)
      → env.upstream d.deliveries ≡ u
      → IsLatest d
      → Latest (
          receive env gateway attempt u
            (record d { deliveries = d.deliveries + 1; latency = latency }))
  unfolding receive latest_status latest_body
  receive-Latest attempt (no_response gone) d latency is_u h = ground (arith, is_u, h.0, h.1)
  receive-Latest attempt (unreadable status) d latency is_u h = ground (arith, is_u, h.0, h.1)
  receive-Latest attempt (answered status set body) d latency is_u h =
      judge-Latest attempt status set
        (record d {
          status = status;
          body = some body;
          deliveries = d.deliveries + 1;
          latency = latency;
        })
        (ground (arith, is_u), ground (arith, is_u))

  send-Latest : (attempt : ℕ) (d : Delivery) → IsLatest d → Latest (send env gateway attempt d)
  unfolding send
  send-Latest attempt d h =
      Latest-if env.builds _ _
        (receive-Latest attempt (env.upstream d.deliveries) d (d.latency + env.elapsed d.deliveries)
          refl h)
        h

  round-Latest : (attempt : ℕ) (d : Delivery) → IsLatest d → Latest (round env gateway attempt d)
  unfolding round
  round-Latest attempt d h =
      Latest-if (ltb 1 attempt) _ _ (Latest-if (env.wakes d.pauses) _ _ (send-Latest attempt _ h) h)
        (send-Latest attempt d h)

  deliver-IsLatest :
      (fuel maximum attempt : ℕ) (d e : Delivery)
      → IsLatest d
      → deliver env gateway fuel maximum attempt d ≡ some e
      → IsLatest e
  unfolding deliver
  deliver-IsLatest zero maximum attempt d e h done = cc
  deliver-IsLatest (suc fuel) maximum attempt d e h done = elim (Bool-cases (leb attempt maximum)) [
    | inr over ↦
        let same : some d ≡ some e = rw over at done in subst IsLatest (some-injective d e same) h
    | inl room ↦ elim (Round-cases (round env gateway attempt d)) [
      | inl (f, stops) ↦
          let same : some f ≡ some e = rw (room, stops) at done in
          subst IsLatest (some-injective f e same) (subst Latest stops (round-Latest attempt d h))
      | inr (next, f, goes) ↦
          let rest : deliver env gateway fuel maximum next f ≡ some e = rw (room, goes) at done in
          deliver-IsLatest fuel maximum next f e (subst Latest goes (round-Latest attempt d h)) rest
    ]
  ]

  latest_kept :
      (fuel maximum : ℕ) (e : Delivery)
      → deliver env gateway fuel maximum 1 first_delivery ≡ some e
      → (e.status ≡ latest_status env e.deliveries) × (e.body ≡ latest_body env e.deliveries)
  unfolding latest_status latest_body
  latest_kept fuel maximum e done =
      deliver-IsLatest fuel maximum 1 first_delivery e (refl, refl) done

  -- What is served: a success, and the usage of a body that is not empty.
  pub record IsSuccess (n : ℕ) (used : Option (ℕ × ℕ)) : Type 0 where
    pub body : Body
    pub least : 200 ≤ latest_status env n
    pub most : latest_status env n < 300
    pub body_eq : latest_body env n ≡ some body
    pub not_empty : body.empty ≡ false
    pub used_eq : used ≡ body.usage

  served-IsSuccess :
      (d : Delivery) (o : Option Body) (used : Option (ℕ × ℕ))
      → IsLatest d
      → d.body ≡ o
      → outcome gateway d.cancelled d ≡ served used
      → IsSuccess d.deliveries used
  unfolding outcome
  served-IsSuccess d none used h none_read success = absurd (ground (arith, none_read, success))
  served-IsSuccess d (some body) used h read success =
      let settled : (leb 200 d.status && ltb d.status 300 && not body.empty) ≡ true =
        ground (arith, read, success) in
      record {
        body = body;
        least = ground (arith, settled, h.0);
        most = ground (arith, settled, h.0);
        body_eq = sym h.1 ∙ read;
        not_empty = ground (arith, settled);
        used_eq = ground (arith, read, success);
      }

  -- A chat call that counts as a success had a status from 200 to 299 in its latest response, and is
  -- metered with the usage of the latest body that could be read, which is not empty. These may belong
  -- to two deliveries: if the latest response could not be read, the body is that of an earlier one.
  pub outcome-IsSuccess :
      (fuel maximum : ℕ) (e : Delivery) (used : Option (ℕ × ℕ))
      → deliver env gateway fuel maximum 1 first_delivery ≡ some e
      → outcome gateway e.cancelled e ≡ served used
      → IsSuccess e.deliveries used
  outcome-IsSuccess fuel maximum e used done success =
      served-IsSuccess e e.body used (latest_kept fuel maximum e done) refl success
