-- ===== src/Server/Job/Accounted.antt =====
-- cmd/dittobench-api/main.go, runSizeJob: whatever a run takes it gives back, however it ends.
use dittobench_api.Base.{
  String, Bool, true, false, Option, none, some, List, [], ◌∷◌, ◌≡◌, refl, sym, ap, subst, ◌∙◌,
  arith, nat_eq, if◌then◌else◌, text_beq_iff, Bool-cases, inl, inr,
}
use dittobench_api.Server.Job.{
  Resource, run_slot, cancel_entry, session, image, relay_lock, embedding_phase, tool_endpoint,
  Deferred, gives_back, finishes_sandbox, recovers, Handle, same_resource, give_back, without, Work,
  Step, goes_on, returns, Stage, ◌>>=◌, take, pure, fail_if,
}
use dittobench_api.Server.Job.Scoring.{EndWorld, end_phase}
use dittobench_api.Server.Job.Starting.{Request}

same_resource-eq : (a b : Resource) → same_resource a b ≡ true → a ≡ b
same_resource-eq run_slot run_slot h = refl
same_resource-eq cancel_entry cancel_entry h = refl
same_resource-eq session session h = refl
same_resource-eq image image h = refl
same_resource-eq relay_lock relay_lock h = refl
same_resource-eq embedding_phase embedding_phase h = refl
same_resource-eq tool_endpoint tool_endpoint h = refl
same_resource-eq a b h = cc

give_back_comm :
    (a b : Resource) (held : List Resource)
    → give_back a (give_back b held) ≡ give_back b (give_back a held)
give_back_comm a b [] = refl
give_back_comm a b (h ∷ held) = elim (Bool-cases (same_resource a h)) [
  | inl one ↦ elim (Bool-cases (same_resource b h)) [
    | inl two ↦
        let same : a ≡ b = same_resource-eq a h one ∙ sym (same_resource-eq b h two) in
        ground (arith, one, two, ap (λ x. give_back x held) same)
    | inr other ↦ ground (arith, one, other)
  ]
  | inr other ↦ elim (Bool-cases (same_resource b h)) [
    | inl two ↦ ground (arith, other, two)
    | inr neither ↦ ground (arith, other, neither, give_back_comm a b held)
  ]
]

give_back_self : (r : Resource) (held : List Resource) → give_back r (r ∷ held) ≡ held
give_back_self run_slot held = refl
give_back_self cancel_entry held = refl
give_back_self session held = refl
give_back_self image held = refl
give_back_self relay_lock held = refl
give_back_self embedding_phase held = refl
give_back_self tool_endpoint held = refl

-- What is still held after the deferred calls.
abbrev pub held_after : List Deferred → List Resource → List Resource
held_after [] held = held
held_after (gives_back r ∷ ds) held = held_after ds (give_back r held)
held_after (finishes_sandbox ∷ ds) held = held_after ds held
held_after (recovers ∷ ds) held = held_after ds held

-- Whether the container is stopped by a deferred call.
abbrev pub is_stopped : List Deferred → Bool
is_stopped [] = false
is_stopped (gives_back r ∷ ds) = is_stopped ds
is_stopped (finishes_sandbox ∷ ds) = true
is_stopped (recovers ∷ ds) = is_stopped ds

-- Only the container that the job knows runs, and a deferred call stops it.
abbrev pub Contained : Option Handle → List Handle → List Deferred → Type 0
Contained none containers ds = containers ≡ []
Contained (some h) containers ds = (containers ≡ h ∷ []) × (is_stopped ds ≡ true)

-- The deferred calls give back all that is held.
pub record IsAccounted {Case Report : Type 0} (w : Work Case Report) : Type 0 where
  pub returned : held_after w.deferred w.held ≡ []
  pub contained : Contained w.handle w.containers w.deferred

held_after-give_back :
    (r : Resource) (ds : List Deferred) (held : List Resource)
    → held_after ds (give_back r held) ≡ give_back r (held_after ds held)
held_after-give_back r [] held = refl
held_after-give_back r (gives_back q ∷ ds) held =
    ap (held_after ds) (give_back_comm q r held) ∙ held_after-give_back r ds (give_back q held)
held_after-give_back r (finishes_sandbox ∷ ds) held = held_after-give_back r ds held
held_after-give_back r (recovers ∷ ds) held = held_after-give_back r ds held

without_self : (h : Handle) → without (some h) (h ∷ []) ≡ []
without_self h =
    ground (arith, text_beq_iff h.source_ip h.source_ip, text_beq_iff h.base_url h.base_url)

pub without_known :
    (o : Option Handle) (containers : List Handle) (ds : List Deferred)
    → Contained o containers ds
    → without o containers ≡ []
without_known none containers ds c = c
without_known (some h) containers ds c = ap (without (some h)) c.0 ∙ without_self h

Contained-take :
    (r : Resource) (o : Option Handle) (containers : List Handle) (ds : List Deferred)
    → Contained o containers ds
    → Contained o containers (gives_back r ∷ ds)
Contained-take r none containers ds c = c
Contained-take r (some h) containers ds c = c

module _ {Case Report : Type 0} where
  abbrev pub Keeps : {A : Type 0} → Stage Case Report A → Type 0
  Keeps m = (w : Work Case Report) → IsAccounted w → IsAccounted (m w).1

  pub Keeps->>= :
      {A B : Type 0} (m : Stage Case Report A) (f : A → Stage Case Report B)
      → Keeps m
      → ((a : A) → Keeps (f a))
      → Keeps (m >>= f)
  Keeps->>= {A = A} {B = B} m f first rest w k = after (m w).0 (m w).1 (first w k)
    where
      after :
          (s : Step A) (v : Work Case Report)
          → IsAccounted v
          → IsAccounted (◌>>=◌ (λ w. (s, w)) f v).1
      after (goes_on a) v l = rest a v l
      after (returns e) v l = l

  pub Keeps-take : (r : Resource) → Keeps (take r)
  Keeps-take r w k = record {
    returned = ap (held_after w.deferred) (give_back_self r w.held) ∙ k.returned;
    contained = Contained-take r w.handle w.containers w.deferred k.contained;
  }

  pub Keeps-end_phase : (world : EndWorld Case Report) (r : Request) → Keeps (end_phase world r)
  Keeps-end_phase world r w k = record {
    returned =
        held_after-give_back embedding_phase w.deferred w.held
        ∙ ap (give_back embedding_phase) k.returned;
    contained = k.contained;
  }

-- What holds where a stage goes on; the work stays accounted where the job returns.
abbrev pub Leaves :
    {A Case Report : Type 0} → (A → Work Case Report → Type 0) → Step A → Work Case Report → Type 0
Leaves Q (goes_on a) v = Q a v
Leaves Q (returns e) v = IsAccounted v

module _ {Case Report A B : Type 0} (P : A → Work Case Report → Type 0)
    (Q : B → Work Case Report → Type 0) (f : A → Stage Case Report B) where
  after :
      (s : Step A) (v : Work Case Report)
      → Leaves P s v
      → ((a : A) (u : Work Case Report) → P a u → Leaves Q (f a u).0 (f a u).1)
      → Leaves Q (◌>>=◌ (λ w. (s, w)) f v).0 (◌>>=◌ (λ w. (s, w)) f v).1
  after (goes_on a) v h rest = rest a v h
  after (returns e) v h rest = h

  pub Leaves->>= :
      (m : Stage Case Report A) (w : Work Case Report)
      → Leaves P (m w).0 (m w).1
      → ((a : A) (u : Work Case Report) → P a u → Leaves Q (f a u).0 (f a u).1)
      → Leaves Q ((m >>= f) w).0 ((m >>= f) w).1
  Leaves->>= m w h rest = after (m w).0 (m w).1 h rest

module _ {Case Report A B : Type 0} (P : A → Work Case Report → Type 0)
    (f : A → Stage Case Report B) where
  IsAccounted-after :
      (s : Step A) (v : Work Case Report)
      → Leaves P s v
      → ((a : A) (u : Work Case Report) → P a u → IsAccounted (f a u).1)
      → IsAccounted (◌>>=◌ (λ w. (s, w)) f v).1
  IsAccounted-after (goes_on a) v h rest = rest a v h
  IsAccounted-after (returns e) v h rest = h

  -- A sequence whose second part keeps the work accounted.
  pub >>=-IsAccounted :
      (m : Stage Case Report A) (w : Work Case Report)
      → Leaves P (m w).0 (m w).1
      → ((a : A) (u : Work Case Report) → P a u → IsAccounted (f a u).1)
      → IsAccounted ((m >>= f) w).1
  >>=-IsAccounted m w h rest = IsAccounted-after (m w).0 (m w).1 h rest

pub if-IsAccounted :
    {Case Report A : Type 0} (test : Bool) (m n : Stage Case Report A) (w : Work Case Report)
    → (test ≡ true → IsAccounted (m w).1)
    → IsAccounted (n w).1
    → IsAccounted ((if test then m else n) w).1
if-IsAccounted true m n w h k = h refl
if-IsAccounted false m n w h k = k

-- A stage that leaves the work alone.
pub Leaves_same :
    {Case Report A : Type 0} (P : Work Case Report → Type 0) (s : Step A) (u v : Work Case Report)
    → u ≡ v
    → (P v → IsAccounted v)
    → P v
    → Leaves (λ (_ : A) x. P x) s u
Leaves_same P (goes_on a) u v same implies k = subst P (sym same) k
Leaves_same P (returns e) u v same implies k = subst IsAccounted (sym same) (implies k)

-- A job that has started no container yet.
abbrev pub IsFresh : {Case Report : Type 0} → Work Case Report → Type 0
IsFresh w = (w.handle ≡ none) × IsAccounted w

pub fresh_empty : {Case Report : Type 0} (w : Work Case Report) → IsFresh w → w.containers ≡ []
fresh_empty w k = subst (λ o. Contained o w.containers w.deferred) k.0 k.1.contained

pub fail_if-work :
    {Case Report : Type 0} (test : Bool) (message : String) (w : Work Case Report)
    → (fail_if test message w).1 ≡ w
fail_if-work true message w = refl
fail_if-work false message w = refl

module _ {Case Report A B : Type 0} (m : Stage Case Report A) (f : A → Stage Case Report B)
    (first : (w : Work Case Report) → (m w).1 ≡ w)
    (rest : (a : A) (w : Work Case Report) → (f a w).1 ≡ w) where
  work_after : (s : Step A) (v : Work Case Report) → (◌>>=◌ (λ w. (s, w)) f v).1 ≡ v
  work_after (goes_on a) v = rest a v
  work_after (returns e) v = refl

  -- Stages that change nothing but how the job goes on.
  pub >>=-work : (w : Work Case Report) → ((m >>= f) w).1 ≡ w
  >>=-work w = work_after (m w).0 (m w).1 ∙ first w

-- A job whose container, if any, a deferred call stops, and that has one if it built an image.
abbrev pub IsRunning : {Case Report : Type 0} → Bool → Work Case Report → Type 0
IsRunning built w = (built ≡ true → is_stopped w.deferred ≡ true) × IsAccounted w

-- A last step that only changes the value.
module _ {Case Report A B : Type 0} (g : A → B) where
  value_last :
      (s : Step A) (v : Work Case Report)
      → IsAccounted v
      → IsAccounted (◌>>=◌ (λ x. (s, x)) (λ a. pure (g a)) v).1
  value_last (goes_on a) v l = l
  value_last (returns e) v l = l

  pub Keeps_last :
      (m : Stage Case Report A) (w : Work Case Report)
      → IsAccounted (m w).1
      → IsAccounted ((m >>= λ a. pure (g a)) w).1
  Keeps_last m w k = value_last (m w).0 (m w).1 k
