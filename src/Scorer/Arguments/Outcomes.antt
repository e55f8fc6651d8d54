-- ===== src/Scorer/Arguments/Outcomes.antt =====
-- internal/scorer/trajectory.go, forbiddenArgPresent, requiredOutcomesSatisfied and argCorrectness: what
-- their loops decide and count.
use mathlib.Core.List.{Memᴰ}
use mathlib.Core.List.Memᴰ
use dittobench_api.Base.{
  ℕ, ◌≤◌, String, Bool, true, some, List, [], ◌∷◌, ◌≡◌, refl, ap, ◌∙◌, subst, ◌↔◌, inl, inr, arith,
  ◌==◌, nat_eq, string_eq, nat_beq_iff, text_beq_iff, ◌&&◌, ◌||◌, length, any, Bool-cases,
  Option-cases, any_found, any_holds, all_found, all_holds, length-member,
}
use dittobench_api.Base.Assoc.{Assoc, lookup}
use dittobench_api.Scorer.Calls.{ArgValue, ObservedCall, ToolSpec}
use dittobench_api.Scorer.Arguments.{
  Note, fuzzy_outcome_arg_equal, is_present, carries_forbidden, forbidden_arg_present, arg_matches,
  satisfies, required_outcomes_satisfied,
}

-- A call of the tool carries an argument that the tool forbids.
abbrev pub Forbidden : ToolSpec → ObservedCall → Type 0
Forbidden spec call =
    (call.name ≡ spec.name)
    × (key : String) × Memᴰ key spec.forbidden_args
    × (value : ArgValue) × (lookup key call.args ≡ some value)

is_present_iff :
    (key : String) (args : Assoc ArgValue)
    → (is_present key args ≡ true) ↔ ((value : ArgValue) × (lookup key args ≡ some value))
is_present_iff key args = elim (Option-cases (lookup key args)) [
  | inl none_there ↦
      (λ h. absurd (ground (arith, h, none_there)), λ s. absurd (cc (none_there, s.1)))
  | inr (value, there) ↦ (λ h. (value, there), λ s. ground (arith, there))
]

carries_forbidden_iff :
    (spec : ToolSpec) (call : ObservedCall)
    → (carries_forbidden spec call ≡ true) ↔ Forbidden spec call
carries_forbidden_iff spec call = (
  λ h.
      let (key, member, passes) =
        any_found (λ k. is_present k call.args) spec.forbidden_args (ground (arith, h)) in
      (
        ground (arith, h, text_beq_iff call.name spec.name),
        key,
        member,
        ((is_present_iff key call.args).0 passes).0,
        ((is_present_iff key call.args).0 passes).1,
      ),
  λ f.
      let (same, key, member, value, there) = f in
      let carried =
        any_holds (λ k. is_present k call.args) key spec.forbidden_args member
          (ground (arith, there)) in
      ground (arith, carried, same, text_beq_iff call.name spec.name),
)

module _ (calls : List ObservedCall) where
  abbrev pub ForbiddenCall : ToolSpec → Type 0
  ForbiddenCall spec = (call : ObservedCall) × Memᴰ call calls × Forbidden spec call

  forbidden_found :
      (expected : List ToolSpec)
      → forbidden_arg_present expected calls ≡ true
      → (spec : ToolSpec) × Memᴰ spec expected × ForbiddenCall spec
  unfolding forbidden_arg_present
  forbidden_found [] h = cc
  forbidden_found (spec ∷ expected) h = elim (Bool-cases (any (carries_forbidden spec) calls)) [
    | inl here ↦
        let (call, member, passes) = any_found (carries_forbidden spec) calls here in
        (spec, Memᴰ.head refl, (call, member, (carries_forbidden_iff spec call).0 passes))
    | inr later ↦
        let (other, among, carried) = forbidden_found expected (ground (arith, h, later)) in
        (other, Memᴰ.tail among, carried)
  ]

  pub forbidden_holds :
      (spec : ToolSpec) (expected : List ToolSpec)
      → Memᴰ spec expected
      → ForbiddenCall spec
      → forbidden_arg_present expected calls ≡ true
  unfolding forbidden_arg_present
  forbidden_holds spec [] among c = absurd (Memᴰ.not-nil among)
  forbidden_holds spec (first ∷ expected) (Memᴰ.head same) (call, member, carried) =
      let this : Forbidden first call = subst (λ s. Forbidden s call) same carried in
      let met =
        any_holds (carries_forbidden first) call calls member
          ((carries_forbidden_iff first call).1 this) in
      let (named, key, listed, value, there) = this in
      ground (arith, met, length-member key first.forbidden_args listed)
  forbidden_holds spec (first ∷ expected) (Memᴰ.tail among) c =
      let rest = forbidden_holds spec expected among c in
      elim (Bool-cases (length first.forbidden_args == 0)) [
        | inl none_there ↦ ground (arith, rest, none_there)
        | inr some_there ↦
            ground (arith, rest, some_there, Bool-cases (any (carries_forbidden first) calls))
      ]

-- A call that carries all the arguments that the tool requires, with values that pass.
abbrev pub Outcome : ToolSpec → ObservedCall → Type 0
Outcome spec call =
    (call.name ≡ spec.name)
    × ((required : String × List ℕ)
        → Memᴰ required spec.required_args
        → (value : ArgValue) × (lookup required.0 call.args ≡ some value)
          × (fuzzy_outcome_arg_equal value required.1 ≡ true))

arg_matches_iff :
    (args : Assoc ArgValue) (required : String × List ℕ)
    → (arg_matches args required ≡ true) ↔ (
        (value : ArgValue) × (lookup required.0 args ≡ some value)
        × (fuzzy_outcome_arg_equal value required.1 ≡ true))
arg_matches_iff args (key, want) = elim (Option-cases (lookup key args)) [
  | inl none_there ↦ (
    λ h. absurd (ground (arith, h, none_there)),
    λ s. let (value, there, passes) = s in absurd (cc (none_there, there)),
  )
  | inr (value, there) ↦ (
    λ h. (value, there, ground (arith, h, there)),
    λ s. let (other, here, passes) = s in ground (arith, here, passes),
  )
]

satisfies_iff :
    (spec : ToolSpec) (call : ObservedCall) → (satisfies spec call ≡ true) ↔ Outcome spec call
satisfies_iff spec call = (
  λ h. (
    ground (arith, h, text_beq_iff call.name spec.name),
    λ required member.
        (arg_matches_iff call.args required).0 (
          all_found (arg_matches call.args) required spec.required_args member (ground (arith, h))),
  ),
  λ o.
      let every =
        all_holds (arg_matches call.args) spec.required_args
          (λ required member. (arg_matches_iff call.args required).1 (o.1 required member)) in
      let named = (text_beq_iff call.name spec.name).1 o.0 in ground (arith, every, named),
)

-- Every expected tool with required arguments has a call with all of them.
abbrev pub AllOutcomes : List ToolSpec → List ObservedCall → Type 0
AllOutcomes expected calls =
    (spec : ToolSpec)
    → Memᴰ spec expected
    → 1 ≤ length spec.required_args
    → (call : ObservedCall) × Memᴰ call calls × Outcome spec call

module _ (calls : List ObservedCall) (notes : List Note) where
  abbrev all_met : List ToolSpec → Bool
  all_met expected = (required_outcomes_satisfied expected calls notes).0

  abbrev met : ToolSpec → Bool
  met spec = length spec.required_args == 0 || any (satisfies spec) calls

  all_met-cons :
      (spec : ToolSpec) (expected : List ToolSpec)
      → all_met (spec ∷ expected) ≡ (met spec && all_met expected)
  unfolding required_outcomes_satisfied
  all_met-cons spec expected = elim (Bool-cases (length spec.required_args == 0)) [
    | inl nothing ↦ ground (arith, nothing)
    | inr some_there ↦ elim (Bool-cases (any (satisfies spec) calls)) [
      | inl one ↦ ground (arith, some_there, one)
      | inr nowhere ↦ ground (arith, some_there, nowhere)
    ]
  ]

  abbrev Met : ToolSpec → Type 0
  Met spec =
      1 ≤ length spec.required_args → (call : ObservedCall) × Memᴰ call calls × Outcome spec call

  met_iff : (spec : ToolSpec) → (met spec ≡ true) ↔ Met spec
  met_iff spec = (
    λ h some_there.
        let one : any (satisfies spec) calls ≡ true =
          ground (arith, h, some_there, nat_beq_iff (length spec.required_args) 0) in
        let (call, member, passes) = any_found (satisfies spec) calls one in
        (call, member, (satisfies_iff spec call).0 passes),
    λ m. elim (Bool-cases (length spec.required_args == 0)) [
      | inl nothing ↦ rw nothing refl
      | inr some_there ↦
          let (call, member, outcome) =
            m (ground (arith, some_there, nat_beq_iff (length spec.required_args) 0)) in
          let one =
            any_holds (satisfies spec) call calls member ((satisfies_iff spec call).1 outcome) in
          ground (arith, one, some_there)
    ],
  )

  outcomes_found : (expected : List ToolSpec) → all_met expected ≡ true → AllOutcomes expected calls
  outcomes_found [] h spec among = absurd (Memᴰ.not-nil among)
  outcomes_found (first ∷ expected) h spec (Memᴰ.head same) =
      (met_iff spec).0 (ap met same ∙ ground (arith, h, all_met-cons first expected))
  outcomes_found (first ∷ expected) h spec (Memᴰ.tail among) =
      outcomes_found expected
        (ground (arith, h, all_met-cons first expected, Bool-cases (met first))) spec among

  outcomes_hold : (expected : List ToolSpec) → AllOutcomes expected calls → all_met expected ≡ true
  unfolding required_outcomes_satisfied
  outcomes_hold [] o = refl
  outcomes_hold (first ∷ expected) o =
      let here = (met_iff first).1 (o first (Memᴰ.head refl)) in
      let rest = outcomes_hold expected (λ spec among. o spec (Memᴰ.tail among)) in
      all_met-cons first expected ∙ ground (arith, here, rest)

pub required_outcomes_satisfied_iff :
    (expected : List ToolSpec) (calls : List ObservedCall) (notes : List Note)
    → ((required_outcomes_satisfied expected calls notes).0 ≡ true) ↔ AllOutcomes expected calls
required_outcomes_satisfied_iff expected calls notes =
    (outcomes_found calls notes expected, outcomes_hold calls notes expected)
