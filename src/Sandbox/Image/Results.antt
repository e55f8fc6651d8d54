-- ===== src/Sandbox/Image/Results.antt =====
-- internal/sandbox/image.go: what holds of a check that may fail, in the form of its branches.
use dittobench_api.Base.{
  Bool, true, false, Option, none, some, List, [], ◌∷◌, ◌≡◌, refl, subst, if◌then◌else◌,
}

-- What holds of a result, if there is one.
abbrev pub OnSome : {A : Type 0} → (A → Type 0) → Option A → Type 0
OnSome P none = Unit
OnSome P (some a) = P a

pub OnSome-elim :
    {A B : Type 0} (P : B → Type 0) (o : Option A) (f : A → Option B)
    → ((a : A) → o ≡ some a → OnSome P (f a))
    → OnSome P (elim o [ none ↦ none | some a ↦ f a ])
OnSome-elim P none f h = tt
OnSome-elim P (some a) f h = h a refl

pub OnSome-case :
    {A B : Type 0} (P : B → Type 0) (o : Option A) (x : Option B) (f : A → Option B)
    → OnSome P x
    → ((a : A) → o ≡ some a → OnSome P (f a))
    → OnSome P (elim o [ none ↦ x | some a ↦ f a ])
OnSome-case P none x f h k = h
OnSome-case P (some a) x f h k = k a refl

pub OnSome-list :
    {A B : Type 0} (P : B → Type 0) (xs : List A) (f : A → List A → Option B)
    → ((x : A) (others : List A) → OnSome P (f x others))
    → OnSome P (elim xs [ [] ↦ none | x ∷ others ↦ f x others ])
OnSome-list P [] f h = tt
OnSome-list P (x ∷ others) f h = h x others

pub OnSome-if :
    {B : Type 0} (P : B → Type 0) (test : Bool) (x y : Option B)
    → (test ≡ true → OnSome P x)
    → (test ≡ false → OnSome P y)
    → OnSome P (if test then x else y)
OnSome-if P true x y h k = h refl
OnSome-if P false x y h k = k refl

pub OnSome-of : {B : Type 0} (P : B → Type 0) (o : Option B) (b : B) → o ≡ some b → OnSome P o → P b
OnSome-of P o b e h = subst (OnSome P) e h
