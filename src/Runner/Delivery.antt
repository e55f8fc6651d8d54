-- ===== src/Runner/Delivery.antt =====
-- internal/runner/runner.go, runOneWithTelemetry: when a case is delivered, and within how many attempts.
use dittobench_api.Base.{
  ℕ, zero, suc, ◌+◌, ◌<◌, ◌≤◌, Bool, true, false, Option, none, some, List, [], ◌∷◌, ◌++◌, ◌≡◌, ◌↔◌,
  ◌∙◌, refl, sym, ap, subst, arith, ltb, leb, ◌&&◌, ◌||◌, ◌==◌, nat_eq, if◌then◌else◌, Bool-cases,
  inl, inr, String,
}
use native.Mathlib.Decide.{ℕ_discrete}
use dittobench_api.Runner.{
  Context, live, expired, cancelled, Exchange, unbuilt, unsent, unread, answered, Tried, delivered,
  failed, run_attempt, AttemptTelemetry, is_live, World, Ran, finish_case, succeed, pause_before,
  attempt_from, run_one_with_telemetry,
}

-- The attempts of a case: one at least, whatever the setting is.
abbrev pub attempts_of : ℕ → ℕ
attempts_of run_attempts = if ltb run_attempts 1 then 1 else run_attempts

module _ {Response : Type 0} where
  -- The response of an exchange: a success whose body can be decoded.
  abbrev pub reply : Exchange Response → Option Response
  reply (answered status body) = if leb 200 status && ltb status 300 then body else none
  reply _ = none

  -- The faults that may pass: the harness was not reached or not understood while there was time, or it
  -- answered 429 or a server error.
  abbrev pub may_pass : Exchange Response → Bool
  may_pass unbuilt = false
  may_pass (unsent c) = is_live c
  may_pass (unread c status) = is_live c
  may_pass (answered status body) = status == 429 || leb 500 status

  abbrev tried_of : Option Response → Bool → Tried Response
  tried_of (some r) again = delivered r
  tried_of none again = failed again

  answered-tried :
      (duration status : ℕ) (body : Option Response)
      → (run_attempt duration (answered status body)).0
        ≡ tried_of (reply (answered status body)) (may_pass (answered status body))
  unfolding run_attempt
  answered-tried duration status none = ground arith
  answered-tried duration status (some r) = ground arith

  run_attempt-tried :
      (duration : ℕ) (x : Exchange Response)
      → (run_attempt duration x).0 ≡ tried_of (reply x) (may_pass x)
  unfolding run_attempt
  run_attempt-tried duration unbuilt = refl
  run_attempt-tried duration (unsent c) = refl
  run_attempt-tried duration (unread c status) = refl
  run_attempt-tried duration (answered status body) = answered-tried duration status body

  -- What an attempt makes of the response of the later ones.
  abbrev pick : Context → Option Response → Bool → Option Response → Option Response
  pick live (some r) again rest = some r
  pick live none again rest = if again then rest else none
  pick expired o again rest = none
  pick cancelled o again rest = none

  may_pass-reply : (x : Exchange Response) → may_pass x ≡ true → reply x ≡ none
  may_pass-reply unbuilt h = refl
  may_pass-reply (unsent c) h = refl
  may_pass-reply (unread c status) h = refl
  may_pass-reply (answered status body) h = ground (arith, h)

module _ {Response : Type 0} (world : World Response) where
  -- What follows an attempt, after the pause before it.
  abbrev after :
      Context
      → Tried Response
      → AttemptTelemetry
      → List AttemptTelemetry
      → List AttemptTelemetry
      → Ran Response
      → Ran Response
  after c t seen attempts done rest = elim c [
    | live ↦ elim t [
      | delivered r ↦ succeed world r attempts
      | failed retryable ↦ if retryable then rest else finish_case world seen.outcome attempts
    ]
    | expired ↦ finish_case world "timeout" done
    | cancelled ↦ finish_case world "cancelled" done
  ]

  pick-response :
      (c : Context) (o : Option Response) (again : Bool) (seen : AttemptTelemetry)
      (attempts done : List AttemptTelemetry) (rest : Ran Response)
      → (after c (tried_of o again) seen attempts done rest).response ≡ pick c o again rest.response
  unfolding finish_case succeed
  pick-response live (some r) again seen attempts done rest = refl
  pick-response live none true seen attempts done rest = refl
  pick-response live none false seen attempts done rest = refl
  pick-response expired o again seen attempts done rest = refl
  pick-response cancelled o again seen attempts done rest = refl

  pick-tried :
      (t : Tried Response) (c : Context) (o : Option Response) (again : Bool)
      (seen : AttemptTelemetry) (attempts done : List AttemptTelemetry) (rest : Ran Response)
      → t ≡ tried_of o again
      → (after c t seen attempts done rest).response ≡ pick c o again rest.response
  pick-tried t c o again seen attempts done rest e =
      ap (λ u. Ran.response (after c u seen attempts done rest)) e
      ∙ pick-response c o again seen attempts done rest

  attempt_from-pick :
      (left attempt : ℕ) (done : List AttemptTelemetry) (last : String)
      → (next : List AttemptTelemetry) × (outcome : String) × ((attempt_from world
            (suc left)
            attempt
            done
            last).response
          ≡ pick
              (pause_before world attempt)
              (reply (world.exchange attempt))
              (may_pass (world.exchange attempt))
              (attempt_from world left (attempt + 1) next outcome).response)
  unfolding attempt_from
  attempt_from-pick left attempt done last =
      let x = world.exchange attempt in
      let seen = (run_attempt (world.duration attempt) x).1 in
      let attempts = done ++ record seen { attempt = attempt + 1 } ∷ [] in
      let rest = attempt_from world left (attempt + 1) attempts seen.outcome in
      (
        attempts,
        seen.outcome,
        pick-tried (run_attempt (world.duration attempt) x).0 (pause_before world attempt) (reply x)
            (may_pass x) seen attempts done rest (run_attempt-tried (world.duration attempt) x),
      )

  -- A response arrives from an attempt on: at one of those that are left, before which every attempt met
  -- a fault that may pass, with time left at each.
  pub record Arrives (r : Response) (left attempt : ℕ) : Type 0 where
    pub number : ℕ
    pub from : attempt ≤ number
    pub within : number < attempt + left
    pub answer : reply (world.exchange number) ≡ some r
    pub passed : (j : ℕ) → attempt ≤ j → j < number → may_pass (world.exchange j) ≡ true
    pub in_time : (j : ℕ) → attempt ≤ j → j ≤ number → pause_before world j ≡ live

  Arrives-suc :
      (r : Response) (left attempt : ℕ)
      → pause_before world attempt ≡ live
      → may_pass (world.exchange attempt) ≡ true
      → Arrives r left (attempt + 1)
      → Arrives r (suc left) attempt
  Arrives-suc r left attempt alive again a = record {
    number = a.number;
    from = omega (arith, a.from);
    within = omega (arith, a.within);
    answer = a.answer;
    passed = λ j from before. elim (ℕ_discrete j attempt) [
      | yes same ↦ subst (λ i. may_pass (world.exchange i) ≡ true) (sym same) again
      | no other ↦ a.passed j (omega (arith, from, other)) before
    ];
    in_time = λ j from before. elim (ℕ_discrete j attempt) [
      | yes same ↦ subst (λ i. pause_before world i ≡ live) (sym same) alive
      | no other ↦ a.in_time j (omega (arith, from, other)) before
    ];
  }

  Arrives-now :
      (r : Response) (left attempt : ℕ)
      → pause_before world attempt ≡ live
      → reply (world.exchange attempt) ≡ some r
      → Arrives r (suc left) attempt
  Arrives-now r left attempt alive answer = record {
    number = attempt;
    from = omega arith;
    within = omega arith;
    answer = answer;
    passed = λ j from before. ground (arith, from, before);
    in_time = λ j from before.
        subst (λ i. pause_before world i ≡ live) (omega (arith, from, before)) alive;
  }

  Arrives-pick :
      (r : Response) (left attempt : ℕ) (c : Context) (o : Option Response) (again : Bool)
      (rest : Option Response)
      → pause_before world attempt ≡ c
      → reply (world.exchange attempt) ≡ o
      → may_pass (world.exchange attempt) ≡ again
      → (rest ≡ some r → Arrives r left (attempt + 1))
      → pick c o again rest ≡ some r
      → Arrives r (suc left) attempt
  Arrives-pick r left attempt live (some q) again rest alive answer faulty later h =
      Arrives-now r left attempt alive (answer ∙ h)
  Arrives-pick r left attempt live none true rest alive answer faulty later h =
      Arrives-suc r left attempt alive faulty (later h)
  Arrives-pick r left attempt live none false rest alive answer faulty later h = ground (arith, h)
  Arrives-pick r left attempt expired o again rest alive answer faulty later h = ground (arith, h)
  Arrives-pick r left attempt cancelled o again rest alive answer faulty later h = ground (arith, h)

  attempt_from-Arrives :
      (r : Response) (left attempt : ℕ) (done : List AttemptTelemetry) (last : String)
      → (attempt_from world left attempt done last).response ≡ some r
      → Arrives r left attempt
  unfolding attempt_from finish_case
  attempt_from-Arrives r zero attempt done last h = ground (arith, h)
  attempt_from-Arrives r (suc left) attempt done last h =
      let (next, outcome, e) = attempt_from-pick left attempt done last in
      Arrives-pick r left attempt (pause_before world attempt) (reply (world.exchange attempt))
        (may_pass (world.exchange attempt))
        (attempt_from world left (attempt + 1) next outcome).response refl refl refl
        (attempt_from-Arrives r left (attempt + 1) next outcome) (sym e ∙ h)

  pick-now :
      (c : Context) (o : Option Response) (again : Bool) (rest : Option Response) (r : Response)
      → c ≡ live
      → o ≡ some r
      → pick c o again rest ≡ some r
  pick-now c o again rest r alive answer = rw (alive, answer) refl

  pick-later :
      (c : Context) (o : Option Response) (again : Bool) (rest : Option Response) (r : Response)
      → c ≡ live
      → o ≡ none
      → again ≡ true
      → rest ≡ some r
      → pick c o again rest ≡ some r
  pick-later c o again rest r alive none_yet faulty later = rw (alive, none_yet, faulty) later

  Arrives-attempt_from :
      (r : Response) (left attempt : ℕ) (done : List AttemptTelemetry) (last : String)
      → Arrives r left attempt
      → (attempt_from world left attempt done last).response ≡ some r
  Arrives-attempt_from r zero attempt done last a = ground (arith, a.from, a.within)
  Arrives-attempt_from r (suc left) attempt done last a =
      let (next, outcome, e) = attempt_from-pick left attempt done last in
      let c = pause_before world attempt in
      let x = world.exchange attempt in
      let rest = (attempt_from world left (attempt + 1) next outcome).response in
      let alive = a.in_time attempt (omega arith) a.from in
      e ∙ elim (ℕ_discrete a.number attempt) [
        | yes first ↦
            pick-now c (reply x) (may_pass x) rest r alive
              (ap (λ i. reply (world.exchange i)) (sym first) ∙ a.answer)
        | no later ↦
            let again = a.passed attempt (omega arith) (omega (arith, a.from, later)) in
            let more : Arrives r left (attempt + 1) = record {
              number = a.number;
              from = omega (arith, a.from, later);
              within = omega (arith, a.within);
              answer = a.answer;
              passed = λ j from before. a.passed j (omega (arith, from)) before;
              in_time = λ j from before. a.in_time j (omega (arith, from)) before;
            } in
            pick-later c (reply x) (may_pass x) rest r alive (may_pass-reply x again) again
              (Arrives-attempt_from r left (attempt + 1) next outcome more)
      ]

  -- A case is delivered exactly when its request can be encoded and one of its attempts, of which there
  -- are as many as the setting says and at least one, is answered by a success that can be decoded,
  -- after attempts that all met a fault that may pass and pauses that all ended in time. It is
  -- the first such answer that is delivered.
  pub delivered_iff :
      (run_attempts : ℕ) (r : Response)
      → ((run_one_with_telemetry world run_attempts).response ≡ some r)
        ↔ ((world.encoded ≡ true) × Arrives r (attempts_of run_attempts) 0)
  unfolding run_one_with_telemetry finish_case
  delivered_iff run_attempts r = elim (Bool-cases world.encoded) [
    | inl encoded ↦ (
      λ h. (
        encoded,
        attempt_from-Arrives r (attempts_of run_attempts) 0 [] "retry_exhausted"
            (ground (arith, h, encoded)),
      ),
      λ both.
          rw encoded
            (Arrives-attempt_from r (attempts_of run_attempts) 0 [] "retry_exhausted" both.1),
    )
    | inr unencoded ↦ (λ h. ground (arith, h, unencoded), λ both. ground (arith, both.0, unencoded))
  ]
