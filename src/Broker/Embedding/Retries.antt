-- ===== src/Broker/Embedding/Retries.antt =====
-- cmd/dittobench-api/inference_broker.go, forwardPlatformEmbeddingWithRetry: the loop ends, and what
-- it forwards again.
use dittobench_api.Base.{
  ℕ, zero, suc, ◌+◌, ◌≤◌, ◌<◌, Bool, true, false, Option, none, some, ◌≡◌, refl, subst, ◌⊎◌, inl,
  inr, arith, nat_eq,
}
use native.Mathlib.Decide.{ℕ_discrete}
use dittobench_api.Broker.Embedding.{
  EmbeddingError, at_capacity, transient, denied, permanent, Lines, forward_platform_embedding,
  Forwards, no_forwards, EmbeddingRound, over, onward, recover, judge_forward, embedding_round,
  forward_with_retry,
}

abbrev pub is_worth_retrying : Option EmbeddingError → Bool
is_worth_retrying (some at_capacity) = true
is_worth_retrying (some transient) = true
is_worth_retrying _ = false

EmbeddingRound-cases :
    (r : EmbeddingRound)
    → ((o : Option EmbeddingError) × (f : Forwards) × (r ≡ over o f))
      ⊎ ((n : ℕ) × (f : Forwards) × (r ≡ onward n f))
EmbeddingRound-cases (over o f) = inl (o, f, refl)
EmbeddingRound-cases (onward n f) = inr (n, f, refl)

-- The counts between two rounds at an attempt.
record Between (attempt : ℕ) (f : Forwards) : Type 0 where
  counted : f.forwards ≡ f.retries + f.waits
  retried : attempt ≡ f.retries + 1
  attempts : attempt ≤ 6
  waited : f.waits ≤ 12

record Ended (f : Forwards) : Type 0 where
  one_more : f.forwards ≤ f.retries + f.waits + 1
  covered : f.retries + f.waits ≤ f.forwards
  retries_capped : f.retries ≤ 5
  waits_capped : f.waits ≤ 12

module _ (lines : Lines) where
  -- A round either ends the call or goes on after a failure that is worth another forward.
  abbrev Proceeds : ℕ → Forwards → EmbeddingRound → Type 0
  Proceeds attempt f (over result g) = Ended g × (g.forwards ≡ f.forwards + 1)
  Proceeds attempt f (onward next g) =
      Between next g
      × (g.forwards ≡ f.forwards + 1)
      × (is_worth_retrying (forward_platform_embedding lines f.forwards) ≡ true)

  judge-Proceeds :
      (attempt : ℕ) (f : Forwards) (o : Option EmbeddingError)
      → Between attempt f
      → forward_platform_embedding lines f.forwards ≡ o
      → Proceeds attempt f
          (judge_forward lines f.forwards attempt o (record f { forwards = f.forwards + 1 }))
  unfolding judge_forward recover
  judge-Proceeds attempt f none b h = ground arith
  judge-Proceeds attempt f (some at_capacity) b h = ground arith
  judge-Proceeds attempt f (some transient) b h = ground arith
  judge-Proceeds attempt f (some (denied code)) b h = ground arith
  judge-Proceeds attempt f (some permanent) b h = ground arith

  round-Proceeds :
      (attempt : ℕ) (f : Forwards)
      → Between attempt f
      → Proceeds attempt f (embedding_round lines attempt f)
  unfolding embedding_round
  round-Proceeds attempt f b = judge-Proceeds attempt f _ b refl

  -- A loop entered at an attempt with enough fuel.
  Finishes : ℕ → ℕ → Forwards → Type 0
  Finishes fuel attempt f =
      (result : Option EmbeddingError) × (g : Forwards) × (forward_with_retry lines fuel attempt f
        ≡ some (result, g))
      × Ended g

  finishes :
      (fuel attempt : ℕ) (f : Forwards)
      → Between attempt f
      → 19 ≤ fuel + f.forwards
      → Finishes fuel attempt f
  unfolding Finishes forward_with_retry
  finishes zero attempt f b h = absurd (ground (arith, b))
  finishes (suc fuel) attempt f b h =
      elim (EmbeddingRound-cases (embedding_round lines attempt f)) [
        | inl (result, g, ends) ↦ (
          result,
          g,
          rw (ends, forward_with_retry) refl,
          (subst (Proceeds attempt f) ends (round-Proceeds attempt f b)).0,
        )
        | inr (next, g, goes) ↦
            let (still, counted, worth) =
              subst (Proceeds attempt f) goes (round-Proceeds attempt f b) in
            let (result, e, same, fine) = finishes fuel next g still (omega (arith, h, counted)) in
            (result, e, rw (goes, forward_with_retry) same, fine)
      ]

  -- A call of the hosted embedding lane ends, whatever the platform answers: after at most eighteen
  -- forwards, of which at most five repeat a transient failure and at most twelve follow a wait for a
  -- full lane. Each forward but the first is booked as exactly one of the two.
  pub embedding_total :
      (result : Option EmbeddingError) × (g : Forwards) × (forward_with_retry lines 19 1 no_forwards
        ≡ some (result, g))
      × (g.forwards ≤ 18)
      × (g.retries ≤ 5)
      × (g.waits ≤ 12)
      × (g.forwards ≤ g.retries + g.waits + 1)
      × (g.retries + g.waits ≤ g.forwards)
  unfolding Finishes
  embedding_total =
      let (result, g, same, e) = finishes 19 1 no_forwards (ground arith) (omega arith) in
      (
        result,
        g,
        same,
        omega (arith, e.one_more, e.retries_capped, e.waits_capped),
        e.retries_capped,
        e.waits_capped,
        e.one_more,
        e.covered,
      )

  forwarded_again :
      (fuel attempt : ℕ) (f g : Forwards) (result : Option EmbeddingError)
      → Between attempt f
      → forward_with_retry lines fuel attempt f ≡ some (result, g)
      → (i : ℕ) → f.forwards ≤ i
      → i + 1 < g.forwards
      → is_worth_retrying (forward_platform_embedding lines i) ≡ true
  unfolding forward_with_retry
  forwarded_again zero attempt f g result b h i lo hi = cc
  forwarded_again (suc fuel) attempt f g result b h i lo hi =
      elim (EmbeddingRound-cases (embedding_round lines attempt f)) [
        | inl (r, e, ends) ↦
            let last = (subst (Proceeds attempt f) ends (round-Proceeds attempt f b)).1 in
            let same : some (r, e) ≡ some (result, g) = rw (ends, forward_with_retry) at h in
            absurd (ground (arith, last, same))
        | inr (next, e, goes) ↦
            let (still, counted, worth) =
              subst (Proceeds attempt f) goes (round-Proceeds attempt f b) in
            let rest : forward_with_retry lines fuel next e ≡ some (result, g) =
              rw (goes, forward_with_retry) at h in
            elim (ℕ_discrete f.forwards i) [
              | yes here ↦
                  subst (λ k. is_worth_retrying (forward_platform_embedding lines k) ≡ true) here
                    worth
              | no other ↦
                  forwarded_again fuel next e g result still rest i (omega (arith, counted)) hi
            ]
      ]

  -- Every forward of a call but its last met a full lane or a transient failure. So nothing is
  -- forwarded again after a response, a denied grant or a refused request.
  pub only_transient_forwarded_again :
      (fuel : ℕ) (g : Forwards) (result : Option EmbeddingError)
      → forward_with_retry lines fuel 1 no_forwards ≡ some (result, g)
      → (i : ℕ) → i + 1 < g.forwards
      → is_worth_retrying (forward_platform_embedding lines i) ≡ true
  only_transient_forwarded_again fuel g result h i hi =
      forwarded_again fuel 1 no_forwards g result (ground arith) h i (omega arith) hi
