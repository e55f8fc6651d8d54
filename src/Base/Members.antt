-- ===== src/Base/Members.antt =====
-- Tests over lists, said by the members.
use mathlib.Core.Path.{◌≡◌, refl, sym, ap, ◌∙◌}
use mathlib.Core.Logic.{inl, inr}
use mathlib.Core.Bool.{Bool, true, false}
use mathlib.Core.List.{List, [], ◌∷◌, Memᴰ}
use mathlib.Core.List.Memᴰ
use native.Mathlib.Omega.{arith}
use dittobench_api.Base.Tests.{Bool-cases, ◌==◌, nat_eq}
use dittobench_api.Base.Lists.{length, any, all}

module _ {ℓ} {A : Type ℓ} (p : A → Bool) where
  pub any_found : (xs : List A) → any p xs ≡ true → (x : A) × Memᴰ x xs × (p x ≡ true)
  any_found [] h = cc
  any_found (x ∷ xs) h = elim (Bool-cases (p x)) [
    | inl here ↦ (x, Memᴰ.head refl, here)
    | inr later ↦
        let (y, member, passes) = any_found xs (ground (arith, h, later)) in
        (y, Memᴰ.tail member, passes)
  ]

  pub any_holds : (x : A) (xs : List A) → Memᴰ x xs → p x ≡ true → any p xs ≡ true
  any_holds x [] member passes = absurd (Memᴰ.not-nil member)
  any_holds x (y ∷ xs) (Memᴰ.head same) passes =
      let here : p y ≡ true = ap p (sym same) ∙ passes in ground (arith, here)
  any_holds x (y ∷ xs) (Memᴰ.tail member) passes =
      ground (arith, any_holds x xs member passes, Bool-cases (p y))

  pub all_found : (x : A) (xs : List A) → Memᴰ x xs → all p xs ≡ true → p x ≡ true
  all_found x [] member h = absurd (Memᴰ.not-nil member)
  all_found x (y ∷ xs) (Memᴰ.head same) h = ap p same ∙ ground (arith, h)
  all_found x (y ∷ xs) (Memᴰ.tail member) h = all_found x xs member (ground (arith, h))

  pub all_holds : (xs : List A) → ((x : A) → Memᴰ x xs → p x ≡ true) → all p xs ≡ true
  all_holds [] h = refl
  all_holds (x ∷ xs) h =
      ground (arith, h x (Memᴰ.head refl), all_holds xs (λ y member. h y (Memᴰ.tail member)))

pub length-member {ℓ} : {A : Type ℓ} (x : A) (xs : List A) → Memᴰ x xs → (length xs == 0) ≡ false
length-member x [] member = absurd (Memᴰ.not-nil member)
length-member x (y ∷ xs) member = ground arith
