-- ===== src/Scorer/Calls/Names.antt =====
-- internal/scorer/v7.go, sameNameMultiset: the calls of a harness up to their order.
use mathlib.Core.Quot
use mathlib.Core.Quot.{Quot, Quot-set}
use native.Mathlib.Nat.{ℕ_set}
use dittobench_api.Base.{
  ℕ, suc, ◌+◌, ◌-◌, ◌≤◌, String, true, List, [], ◌∷◌, ◌≡◌, refl, sym, ap, ◌↔◌, inl, inr, arith,
  ◌==◌, nat_eq, string_eq, nat_beq_iff, text_beq_iff, if◌then◌else◌, length, Bool-cases,
}
use dittobench_api.Base.Assoc.{Assoc, lookup, insert, lookup-insert}
use dittobench_api.Scorer.Calls.{
  ObservedCall, number_of, count_names, discount_names, same_name_multiset,
}

abbrev pub count : String → List ObservedCall → ℕ
count name [] = 0
count name (c ∷ cs) = (if c.name == name then 1 else 0) + count name cs

-- Each name is called as often.
abbrev pub SameNames : List ObservedCall → List ObservedCall → Type 0
SameNames a b = (name : String) → count name a ≡ count name b

-- What a trajectory is when the order and the arguments of its calls are forgotten.
abbrev pub NameBag : Type 0
NameBag = Quot SameNames

abbrev pub bag_of : List ObservedCall → NameBag
bag_of = Quot.mk

unfoldable pub units : String → NameBag → ℕ
units name = Quot.lift ℕ_set (count name) (λ a b h. h name)

number_of-insert :
    (key asked : String) (n : ℕ) (counts : Assoc ℕ)
    → number_of asked (insert key n counts) ≡ (if key == asked then n else number_of asked counts)
unfolding number_of
number_of-insert key asked n counts = ground (arith, lookup-insert key asked n counts)

number_of-count_names :
    (cs : List ObservedCall) (counts : Assoc ℕ) (name : String)
    → number_of name (count_names cs counts) ≡ count name cs + number_of name counts
unfolding count_names
number_of-count_names [] counts name = omega arith
number_of-count_names (c ∷ cs) counts name =
    let more = insert c.name (number_of c.name counts + 1) counts in
    ground (
      arith,
      number_of-count_names cs more name,
      number_of-insert c.name name (number_of c.name counts + 1) counts,
      text_beq_iff c.name name,
    )

discount_names-le :
    (cs : List ObservedCall) (counts : Assoc ℕ)
    → discount_names cs counts ≡ true
    → (name : String) → count name cs ≤ number_of name counts
unfolding discount_names
discount_names-le [] counts h name = omega arith
discount_names-le (c ∷ cs) counts h name =
    let fewer = insert c.name (number_of c.name counts - 1) counts in
    ground (
      arith,
      nat_beq_iff (number_of c.name counts) 0,
      discount_names-le cs fewer (ground arith) name,
      number_of-insert c.name name (number_of c.name counts - 1) counts,
      text_beq_iff c.name name,
    )

discount_names-of_le :
    (cs : List ObservedCall) (counts : Assoc ℕ)
    → ((name : String) → count name cs ≤ number_of name counts)
    → discount_names cs counts ≡ true
unfolding discount_names
discount_names-of_le [] counts h = refl
discount_names-of_le (c ∷ cs) counts h =
    let fewer = insert c.name (number_of c.name counts - 1) counts in
    let here : 1 ≤ number_of c.name counts = ground (arith, h c.name, text_beq_iff c.name c.name) in
    ground (
      arith,
      here,
      discount_names-of_le cs fewer (λ name. ground (
        arith,
        here,
        h name,
        number_of-insert c.name name (number_of c.name counts - 1) counts,
        text_beq_iff c.name name,
      )),
    )

none_counted : (name : String) → number_of name [] ≡ 0
unfolding number_of lookup
none_counted name = refl

length_zero : (cs : List ObservedCall) → length cs ≡ 0 → (name : String) → count name cs ≡ 0
length_zero [] h name = refl
length_zero (c ∷ cs) h name = absurd (omega (arith, h))

-- One call of a name taken out of a trajectory that has it.
count_out :
    (called : String) (a : List ObservedCall)
    → 1 ≤ count called a
    → (rest : List ObservedCall) × (length a ≡ suc (length rest))
      × ((name : String) → count name a ≡ (if called == name then 1 else 0) + count name rest)
count_out called [] h = absurd (omega (arith, h))
count_out called (c ∷ cs) h = elim (Bool-cases (c.name == called)) [
  | inl here ↦ (
    cs,
    refl,
    λ name. ground (
      arith,
      here,
      text_beq_iff c.name called,
      text_beq_iff c.name name,
      text_beq_iff called name,
    ),
  )
  | inr other ↦
      let (rest, size, same) = count_out called cs (ground (arith, h, other)) in
      (c ∷ rest, ap (λ n. suc n) size, λ name. omega (arith, same name))
]

count_le_eq :
    (b a : List ObservedCall)
    → length a ≡ length b
    → ((name : String) → count name b ≤ count name a)
    → SameNames a b
count_le_eq [] a size le name = length_zero a size name
count_le_eq (c ∷ cs) a size le name =
    let (rest, shorter, same) =
      count_out c.name a (ground (arith, le c.name, text_beq_iff c.name c.name)) in
    let fewer : (asked : String) → count asked cs ≤ count asked rest =
      λ asked. omega (arith, le asked, same asked) in
    omega (arith, same name, count_le_eq cs rest (omega (arith, size, shorter)) fewer name)

SameNames-length : (b a : List ObservedCall) → SameNames a b → length b ≤ length a
SameNames-length [] a same = omega arith
SameNames-length (c ∷ cs) a same =
    let (rest, shorter, out) =
      count_out c.name a (ground (arith, same c.name, text_beq_iff c.name c.name)) in
    omega (arith, shorter, SameNames-length cs rest (λ asked. omega (arith, same asked, out asked)))

same_name_multiset_iff : (a b : List ObservedCall) → (same_name_multiset a b ≡ true) ↔ SameNames a b
unfolding same_name_multiset
same_name_multiset_iff a b = (
  λ h.
      let size : length a ≡ length b = ground (arith, nat_beq_iff (length a) (length b)) in
      let counted : discount_names b (count_names a []) ≡ true = ground (arith, h) in
      count_le_eq b a size (λ name. omega (
        arith,
        discount_names-le b (count_names a []) counted name,
        number_of-count_names a [] name,
        none_counted name,
      )),
  λ same.
      let size : length a ≡ length b =
        omega (arith, SameNames-length b a same, SameNames-length a b (λ name. sym (same name))) in
      let counted : discount_names b (count_names a []) ≡ true =
        discount_names-of_le b (count_names a [])
          (λ name. omega (arith, same name, number_of-count_names a [] name, none_counted name)) in
      ground (arith, size, counted, nat_beq_iff (length a) (length b)),
)

-- Two trajectories pass the check exactly when they are the same bag of called names: their order and
-- their arguments do not count, how often each name is called does.
pub same_name_multiset-bag_of :
    (a b : List ObservedCall) → (same_name_multiset a b ≡ true) ↔ (bag_of a ≡ bag_of b)
unfolding units
same_name_multiset-bag_of a b = (
  λ h. Quot.sound ((same_name_multiset_iff a b).0 h),
  λ e. (same_name_multiset_iff a b).1 (λ name. ap (units name) e),
)
