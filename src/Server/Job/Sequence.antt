-- ===== src/Server/Job/Sequence.antt =====
-- cmd/dittobench-api/main.go, runSizeJob: what holds of a stage that goes on.
use dittobench_api.Base.{Bool, true, false, String, ◌≡◌, refl}
use dittobench_api.Server.Job.{Work, Step, goes_on, returns, Stage, ◌>>=◌, ◌>>◌, fail_if}

-- A condition on the value with which a stage goes on.
abbrev pub Holds : {A : Type 0} → (A → Type 0) → Step A → Type 0
Holds P (goes_on a) = P a
Holds P (returns e) = Unit {0}

pub Holds-imp :
    {A : Type 0} (P Q : A → Type 0) (s : Step A) → Holds P s → ((a : A) → P a → Q a) → Holds Q s
Holds-imp P Q (goes_on a) h implies = implies a h
Holds-imp P Q (returns e) h implies = tt

module _ {Case Report A B : Type 0} (P : A → Type 0) (Q : B → Type 0)
    (f : A → Stage Case Report B) where
  after :
      (s : Step A) (v : Work Case Report)
      → Holds P s
      → ((a : A) (u : Work Case Report) → P a → Holds Q (f a u).0)
      → Holds Q (◌>>=◌ (λ w. (s, w)) f v).0
  after (goes_on a) v h rest = rest a v h
  after (returns e) v h rest = tt

  -- The rule of a sequence.
  pub Holds->>= :
      (m : Stage Case Report A) (w : Work Case Report)
      → Holds P (m w).0
      → ((a : A) (u : Work Case Report) → P a → Holds Q (f a u).0)
      → Holds Q ((m >>= f) w).0
  Holds->>= m w h rest = after (m w).0 (m w).1 h rest

pub Holds-any : {A : Type 0} (s : Step A) → Holds (λ _. Unit {0}) s
Holds-any (goes_on a) = tt
Holds-any (returns e) = tt

module _ {Case Report B : Type 0} (Q : B → Type 0) (k : Stage Case Report B) where
  -- The same where the second part does not depend on the first.
  pub Holds->> :
      (m : Stage Case Report (Unit {0})) (w : Work Case Report)
      → ((u : Work Case Report) → Holds Q (k u).0)
      → Holds Q ((m >> k) w).0
  Holds->> m w rest = Holds->>= (λ _. Unit {0}) Q (λ _. k) m w (Holds-any (m w).0) (λ _ u _. rest u)

pub Holds-fail_if :
    {Case Report : Type 0} (test : Bool) (message : String) (w : Work Case Report)
    → Holds (λ _. test ≡ false) (fail_if test message w).0
Holds-fail_if true message w = tt
Holds-fail_if false message w = refl
