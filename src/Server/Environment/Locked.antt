-- ===== src/Server/Environment/Locked.antt =====
-- cmd/dittobench-api/main.go: what a submitter's environment can set in its sandbox.
use dittobench_api.Base.{
  String, ℕ, Bool, false, none, some, [], ◌∷◌, ◌≡◌, ◌∙◌, refl, ap, arith, ◌==◌, ◌++◌, map, any,
  if◌then◌else◌, text_beq_iff, Bool-cases, inl, inr, string_eq,
}
use dittobench_api.Base.Assoc.{Assoc, lookup, lookup-insert}
use dittobench_api.Base.Text.{bytes_of}
use dittobench_api.Broker.Control.{harness_model_for_version}
use dittobench_api.Server.Environment.{
  Text, Getenv, harness_gateway, embedding_gateway, placeholder_key, is_locked, copy_but,
  sandbox_runtime_env, set_each, harness_sandbox_env_for_provider,
}

lookup-copy_but :
    (drops : String → Bool) (key : String) (env : Assoc Text)
    → lookup key (copy_but drops env) ≡ (if drops key then none else lookup key env)
unfolding copy_but lookup
lookup-copy_but drops key [] = ground (arith, Bool-cases (drops key))
lookup-copy_but drops key ((here, value) ∷ env) = elim (Bool-cases (here == key)) [
  | inl same ↦
      let e = (text_beq_iff here key).0 same in
      ground (
        arith,
        same,
        ap drops e,
        lookup-insert here key value (copy_but drops env),
        lookup-copy_but drops key env,
      )
  | inr other ↦ ground (
    arith,
    other,
    lookup-insert here key value (copy_but drops env),
    lookup-copy_but drops key env,
  )
]

-- The value of each locked key: the broker's routes for a run with a session.
abbrev pub locked_values : Getenv → ℕ → Text → Text → Assoc Text
locked_values getenv bench_version provider session_id =
    let gateway = harness_gateway getenv session_id in
    ("DITTOBENCH_DB", bytes_of "/tmp/dittobench.db")
    ∷ ("OLLAMA_BASE_URL", embedding_gateway getenv session_id)
    ∷ ("DITTOBENCH_MODEL", bytes_of (harness_model_for_version bench_version))
    ∷ ("OPENROUTER_API_KEY", placeholder_key)
    ∷ ("OPENAI_API_KEY", placeholder_key)
    ∷ ("OPENROUTER_BASE_URL", gateway)
    ∷ ("OPENAI_API_BASE", gateway)
    ∷ ("OPENAI_BASE_URL", gateway)
    ∷ ("CHUTES_API_KEY", placeholder_key)
    ∷ ("CHUTES_BASE_URL", gateway)
    ∷ ("DITTOBENCH_INFERENCE_BASE_URL", gateway)
    ∷ ("DITTOBENCH_PROVIDER", provider)
    ∷ []

database_locked : (key : String) → is_locked key ≡ false → ("DITTOBENCH_DB" == key) ≡ false
unfolding is_locked
database_locked key h = ground (arith, h)

lookup-runtime :
    (key : String) (req_env : Assoc Text)
    → lookup key (copy_but is_locked (sandbox_runtime_env req_env))
      ≡ (if is_locked key then none else lookup key req_env)
unfolding sandbox_runtime_env
lookup-runtime key req_env =
    lookup-copy_but is_locked key (sandbox_runtime_env req_env)
    ∙ elim (Bool-cases (is_locked key)) [
      | inl locked ↦ ground (arith, locked)
      | inr free ↦ ground (
        arith,
        free,
        database_locked key,
        lookup-insert "DITTOBENCH_DB" key (bytes_of "/tmp/dittobench.db")
            (copy_but (λ k. k == "DITTOBENCH_DB") req_env),
        lookup-copy_but (λ k. k == "DITTOBENCH_DB") key req_env,
        text_beq_iff "DITTOBENCH_DB" key,
        text_beq_iff key "DITTOBENCH_DB",
      )
    ]

lookup-cons :
    (here key : String) (value : Text) (env : Assoc Text)
    → lookup key ((here, value) ∷ env) ≡ (if here == key then some value else lookup key env)
unfolding lookup
lookup-cons here key value env = refl

-- A lookup in the environment is one in the locked values, and then in the request's.
lookup-locked :
    (getenv : Getenv) (req_env : Assoc Text) (bench_version : ℕ) (provider session_id : Text)
    (key : String)
    → lookup key (harness_sandbox_env_for_provider getenv req_env bench_version provider session_id)
      ≡ lookup key (
          locked_values getenv bench_version provider session_id
          ++ copy_but is_locked (sandbox_runtime_env req_env))
unfolding harness_sandbox_env_for_provider set_each
lookup-locked getenv req_env bench_version provider session_id key =
    simp (lookup-insert, lookup-cons)

lookup-append :
    (key : String) (table env : Assoc Text)
    → lookup key (table ++ env)
      ≡ (if any (λ k. k == key) (map (λ e. e.0) table) then lookup key table else lookup key env)
unfolding lookup
lookup-append key [] env = refl
lookup-append key ((here, value) ∷ table) env = ground (arith, lookup-append key table env)

locked_keys :
    (getenv : Getenv) (bench_version : ℕ) (provider session_id : Text) (key : String)
    → any (λ k. k == key) (map (λ e. e.0) (locked_values getenv bench_version provider session_id))
      ≡ is_locked key
unfolding is_locked
locked_keys getenv bench_version provider session_id key = refl

-- A variable of the sandbox is a locked one, with the value that the validator gives it, or it has
-- the value of the request: whatever the submitter sets, the model, the provider, the gateways,
-- the keys and the database are the validator's.
pub sandbox_env_exact :
    (getenv : Getenv) (req_env : Assoc Text) (bench_version : ℕ) (provider session_id : Text)
    (key : String)
    → lookup key (harness_sandbox_env_for_provider getenv req_env bench_version provider session_id)
      ≡ (if is_locked key
          then lookup key (locked_values getenv bench_version provider session_id)
          else lookup key req_env)
sandbox_env_exact getenv req_env bench_version provider session_id key =
    let copied = copy_but is_locked (sandbox_runtime_env req_env) in
    lookup-locked getenv req_env bench_version provider session_id key
    ∙ lookup-append key (locked_values getenv bench_version provider session_id) copied
    ∙ rw (locked_keys getenv bench_version provider session_id key)
        elim (Bool-cases (is_locked key)) [
          | inl locked ↦ rw locked refl
          | inr free ↦ rw free (lookup-runtime key req_env ∙ ground (arith, free))
        ]
