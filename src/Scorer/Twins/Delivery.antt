-- ===== src/Scorer/Twins/Delivery.antt =====
-- internal/scorer/scorer.go, MetamorphicConsistency and AuditPairs: cases that the harness never
-- delivered an answer for.
use dittobench_api.Base.{
  String, Bool, true, false, not, List, [], ◌∷◌, ◌++◌, ◌≡◌, refl, sym, ap, ◌∙◌, subst, inl, inr,
  arith, ◌==◌, string_eq, text_beq_iff, ◌&&◌, ◌||◌, if◌then◌else◌, any, keep, loop-keep, Bool-cases,
  Option-cases,
}
use dittobench_api.Base.Assoc.{Assoc, lookup, insert, delete, lookup-delete}
use dittobench_api.Scorer.Floats.{Floats}
use dittobench_api.Scorer.Case.{CaseScore}
use dittobench_api.Scorer.Twins.{
  Persona, append_verdict, delete_all, is_ordinary_twin, gather_twin, gather_twins,
  metamorphic_consistency, gather_side, gather_sides, audit_pairs,
}

delete-insert_same :
    (group : String) (verdicts : List Bool) (groups : Assoc (List Bool))
    → delete group (insert group verdicts groups) ≡ delete group groups
unfolding delete insert
delete-insert_same group verdicts [] = ground (arith, text_beq_iff group group)
delete-insert_same group verdicts ((here, old) ∷ groups) = ground (
  arith,
  text_beq_iff group group,
  text_beq_iff here group,
  delete-insert_same group verdicts groups,
)

delete-insert_other :
    (gone group : String) (verdicts : List Bool) (groups : Assoc (List Bool))
    → (gone == group) ≡ false
    → delete gone (insert group verdicts groups) ≡ insert group verdicts (delete gone groups)
unfolding delete insert
delete-insert_other gone group verdicts [] h =
    ground (arith, h, text_beq_iff group gone, text_beq_iff gone group)
delete-insert_other gone group verdicts ((here, old) ∷ groups) h = ground (
  arith,
  h,
  text_beq_iff group gone,
  text_beq_iff gone group,
  text_beq_iff here gone,
  text_beq_iff here group,
  delete-insert_other gone group verdicts groups h,
)

delete-insert :
    (gone group : String) (verdicts : List Bool) (groups : Assoc (List Bool))
    → delete gone (insert group verdicts groups)
      ≡ (if gone == group then delete gone groups else insert group verdicts (delete gone groups))
delete-insert gone group verdicts groups = elim (Bool-cases (gone == group)) [
  | inl same ↦
      let named : gone ≡ group = (text_beq_iff gone group).0 same in
      let taken : delete gone (insert group verdicts groups) ≡ delete gone groups =
        subst (λ g. delete g (insert group verdicts groups) ≡ delete g groups) (sym named)
          (delete-insert_same group verdicts groups) in
      rw same taken
  | inr other ↦ rw other (delete-insert_other gone group verdicts groups other)
]

delete-append_verdict :
    (gone group : String) (verdict : Bool) (groups : Assoc (List Bool))
    → delete gone (append_verdict group verdict groups) ≡ (
        if gone == group
        then delete gone groups
        else append_verdict group verdict (delete gone groups))
unfolding append_verdict
delete-append_verdict gone group verdict groups = elim (Option-cases (lookup group groups)) [
  | inl new ↦ ground (
    arith,
    new,
    lookup-delete gone group groups,
    delete-insert gone group (verdict ∷ []) groups,
    Bool-cases (gone == group),
  )
  | inr (verdicts, there) ↦ ground (
    arith,
    there,
    lookup-delete gone group groups,
    delete-insert gone group (verdicts ++ (verdict ∷ [])) groups,
    Bool-cases (gone == group),
  )
]

abbrev is_one_of : List String → String → Bool
is_one_of names group = any (λ name. name == group) names

delete_all-append_verdict :
    (gone : List String) (group : String) (verdict : Bool) (groups : Assoc (List Bool))
    → delete_all gone (append_verdict group verdict groups) ≡ (
        if is_one_of gone group
        then delete_all gone groups
        else append_verdict group verdict (delete_all gone groups))
delete_all-append_verdict [] group verdict groups = refl
delete_all-append_verdict (g ∷ gone) group verdict groups = elim (Bool-cases (g == group)) [
  | inl same ↦
      let taken = ap (delete_all gone) (delete-append_verdict g group verdict groups) in
      taken ∙ ground (arith, same)
  | inr other ↦
      let kept = ap (delete_all gone) (delete-append_verdict g group verdict groups) in
      let rest = delete_all-append_verdict gone group verdict (delete g groups) in
      kept ∙ ground (arith, other, rest)
]

delete_all-nil : (gone : List String) → delete_all gone [] ≡ []
unfolding delete
delete_all-nil [] = refl
delete_all-nil (g ∷ gone) = delete_all-nil gone

module _ {F : Type 0} (ops : Floats F) (persona : Persona) where
  -- The family lost a member that was not delivered.
  abbrev pub is_lost : List (CaseScore F) → String → Bool
  is_lost cases group =
      any
        (λ cs.
          is_ordinary_twin ops persona cs.twin_group && cs.undelivered && cs.twin_group == group)
        cases

  module _ (cs : CaseScore F) (groups : Assoc (List Bool)) (lost : List String) where
    gather_twin-other :
        is_ordinary_twin ops persona cs.twin_group ≡ false
        → gather_twin ops persona cs (groups, lost) ≡ (groups, lost)
    unfolding gather_twin
    gather_twin-other other = ground (arith, other)

    gather_twin-lost :
        is_ordinary_twin ops persona cs.twin_group ≡ true
        → cs.undelivered ≡ true
        → gather_twin ops persona cs (groups, lost) ≡ (groups, cs.twin_group ∷ lost)
    unfolding gather_twin
    gather_twin-lost twin gone = ground (arith, twin, gone)

    gather_twin-delivered :
        is_ordinary_twin ops persona cs.twin_group ≡ true
        → cs.undelivered ≡ false
        → gather_twin ops persona cs (groups, lost)
          ≡ (append_verdict cs.twin_group cs.correct groups, lost)
    unfolding gather_twin
    gather_twin-delivered twin delivered = ground (arith, twin, delivered)

  gather_twins-is_lost :
      (cases : List (CaseScore F)) (groups : Assoc (List Bool)) (lost : List String)
      (group : String)
      → is_one_of (gather_twins ops persona cases (groups, lost)).1 group
        ≡ (is_one_of lost group || is_lost cases group)
  unfolding gather_twins
  gather_twins-is_lost [] groups lost group = ground arith
  gather_twins-is_lost (cs ∷ cases) groups lost group =
      let after : Assoc (List Bool) × List String → Bool =
        λ s. is_one_of (gather_twins ops persona cases s).1 group in
      elim (Bool-cases (is_ordinary_twin ops persona cs.twin_group)) [
        | inr other ↦
            ap after (gather_twin-other cs groups lost other)
            ∙ gather_twins-is_lost cases groups lost group
            ∙ ground (arith, other)
        | inl twin ↦ elim (Bool-cases cs.undelivered) [
          | inl gone ↦
              ap after (gather_twin-lost cs groups lost twin gone)
              ∙ gather_twins-is_lost cases groups (cs.twin_group ∷ lost) group
              ∙ ground (arith, twin, gone)
          | inr delivered ↦
              ap after (gather_twin-delivered cs groups lost twin delivered)
              ∙ gather_twins-is_lost cases (append_verdict cs.twin_group cs.correct groups) lost
                  group
              ∙ ground (arith, twin, delivered)
        ]
      ]

  -- The loop without the families in a list that has all the lost ones.
  gather_twins-keep :
      (gone : List String) (cases : List (CaseScore F)) (groups : Assoc (List Bool))
      (lost : List String)
      → ((group : String) → is_lost cases group ≡ true → is_one_of gone group ≡ true)
      → gather_twins ops persona
          (keep (λ cs. not (is_one_of gone cs.twin_group)) cases)
          (delete_all gone groups, [])
        ≡ (delete_all gone (gather_twins ops persona cases (groups, lost)).0, [])
  unfolding gather_twins
  gather_twins-keep gone [] groups lost all_in = refl
  gather_twins-keep gone (cs ∷ cases) groups lost all_in =
      let kept = keep (λ c. not (is_one_of gone c.twin_group)) cases in
      let later : (group : String) → is_lost cases group ≡ true → is_one_of gone group ≡ true =
        λ group h. all_in group (ground (arith, h)) in
      let after : Assoc (List Bool) × List String → Assoc (List Bool) × List String =
        λ s. (delete_all gone (gather_twins ops persona cases s).0, []) in
      let start : Assoc (List Bool) × List String → Assoc (List Bool) × List String =
        λ s. gather_twins ops persona kept s in
      let more = append_verdict cs.twin_group cs.correct groups in
      let deleted = delete_all-append_verdict gone cs.twin_group cs.correct groups in
      elim (Bool-cases (is_one_of gone cs.twin_group)) [
        | inl dropped ↦ elim (Bool-cases (is_ordinary_twin ops persona cs.twin_group)) [
          | inr other ↦ rw dropped (
              gather_twins-keep gone cases groups lost later
              ∙ sym (ap after (gather_twin-other cs groups lost other)))
          | inl twin ↦ elim (Bool-cases cs.undelivered) [
            | inl away ↦ rw dropped (
                gather_twins-keep gone cases groups (cs.twin_group ∷ lost) later
                ∙ sym (ap after (gather_twin-lost cs groups lost twin away)))
            | inr delivered ↦
                let same : delete_all gone more ≡ delete_all gone groups =
                  deleted ∙ ground (arith, dropped) in
                rw dropped (
                  sym (ap (λ g. start (g, [])) same)
                  ∙ gather_twins-keep gone cases more lost later
                  ∙ sym (ap after (gather_twin-delivered cs groups lost twin delivered)))
          ]
        ]
        | inr stays ↦ elim (Bool-cases (is_ordinary_twin ops persona cs.twin_group)) [
          | inr other ↦ rw stays (
              ap start (gather_twin-other cs (delete_all gone groups) [] other)
              ∙ gather_twins-keep gone cases groups lost later
              ∙ sym (ap after (gather_twin-other cs groups lost other)))
          | inl twin ↦ elim (Bool-cases cs.undelivered) [
            | inl away ↦
                let lost_here : is_lost (cs ∷ cases) cs.twin_group ≡ true =
                  ground (arith, twin, away, text_beq_iff cs.twin_group cs.twin_group) in
                absurd (ground (arith, all_in cs.twin_group lost_here, stays))
            | inr delivered ↦
                let same : delete_all gone more
                    ≡ append_verdict cs.twin_group cs.correct (delete_all gone groups) =
                  deleted ∙ ground (arith, stays) in
                rw stays (
                  ap start (gather_twin-delivered cs (delete_all gone groups) [] twin delivered)
                  ∙ ap (λ g. start (g, [])) (sym same)
                  ∙ gather_twins-keep gone cases more lost later
                  ∙ sym (ap after (gather_twin-delivered cs groups lost twin delivered)))
          ]
        ]
      ]

keep-same {ℓ} :
    {A : Type ℓ} (p q : A → Bool) → ((x : A) → p x ≡ q x) → (xs : List A) → keep p xs ≡ keep q xs
keep-same p q same [] = refl
keep-same p q same (x ∷ xs) = ground (arith, same x, keep-same p q same xs)

-- The consistency over rewordings is the one of the families that lost no member to an answer that was
-- not delivered, whatever the other members of a lost family were judged; and the outcomes of the
-- audit are those of the delivered halves alone.
pub undelivered_cases_ignored :
    {F : Type 0} (ops : Floats F) (persona : Persona) (cases : List (CaseScore F))
    → (metamorphic_consistency ops persona
          (keep (λ cs. not (is_lost ops persona cases cs.twin_group)) cases)
        ≡ metamorphic_consistency ops persona cases)
      × (audit_pairs ops persona (keep (λ cs. not cs.undelivered) cases)
          ≡ audit_pairs ops persona cases)
unfolding metamorphic_consistency audit_pairs gather_sides gather_side
undelivered_cases_ignored {F} ops persona cases =
    let gone = (gather_twins ops persona cases ([], [])).1 in
    let named : (group : String) → is_one_of gone group ≡ is_lost ops persona cases group =
      gather_twins-is_lost ops persona cases [] [] in
    let kept : keep (λ cs. not (is_one_of gone cs.twin_group)) cases
        ≡ keep (λ cs. not (is_lost ops persona cases cs.twin_group)) cases =
      keep-same (λ cs. not (is_one_of gone cs.twin_group))
        (λ cs. not (is_lost ops persona cases cs.twin_group)) (λ cs. ap not (named cs.twin_group))
        cases in
    let dropped : gather_twins ops persona
          (keep (λ cs. not (is_lost ops persona cases cs.twin_group)) cases) ([], [])
        ≡ (delete_all gone (gather_twins ops persona cases ([], [])).0, []) =
      ap (λ cs. gather_twins ops persona cs ([], [])) (sym kept)
      ∙ ap
          (λ g.
            gather_twins ops persona (keep (λ cs. not (is_one_of gone cs.twin_group)) cases)
              (g, []))
          (sym (delete_all-nil gone))
      ∙ gather_twins-keep ops persona gone cases [] [] (λ group h. named group ∙ h) in
    let sides =
      loop-keep (λ cs. not cs.undelivered) (gather_side ops persona) (gather_sides ops persona)
        (λ s. refl) (λ cs rest s. refl) (λ cs s away. ground (arith, away)) cases [] in
    (rw dropped refl, rw sides refl)
