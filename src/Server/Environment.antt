-- ===== src/Server/Environment.antt =====
-- cmd/dittobench-api/main.go: the environment of a miner's sandbox. os.Getenv is an argument; the
-- environments are Go maps, so no key occurs twice, and texts are ASCII.
pub mod Locked
use dittobench_api.Base.{
  ℕ, zero, suc, ◌+◌, ◌*◌, ◌-◌, ◌/◌, ◌%◌, String, Bool, true, false, not, Option, none, some, List,
  [], ◌∷◌, ◌++◌, ◌==◌, ltb, leb, ◌&&◌, ◌||◌, string_eq, nat_eq, if◌then◌else◌, any,
}
use dittobench_api.Base.Assoc.{Assoc, lookup, insert}
use dittobench_api.Base.Text.{bytes_of, trim_space, same_text}
use dittobench_api.Broker.Control.{harness_model_for_version}

abbrev pub Text : Type 0
Text = List ℕ

-- os.Getenv: the empty text for a variable that is not set.
abbrev pub Getenv : Type 0
Getenv = String → Text

unfoldable pub env_or : Getenv → String → Text → Text
env_or getenv name default =
    let v = trim_space (getenv name) in if same_text v [] then default else v

-- The digits of a number after those read so far; none for another byte.
unfoldable pub read_digits : ℕ → Text → Option ℕ
read_digits n [] = some n
read_digits n (c ∷ s) =
    let rest = read_digits (n * 10 + (c - b'0')) s in
    if leb b'0' c && leb c b'9' then rest else none

unfoldable pub skip_plus : Text → Text
skip_plus [] = []
skip_plus (c ∷ s) = if c == b'+' then s else c ∷ s

-- strconv.Atoi where its result is positive: a plus sign or none, digits, and no overflow.
unfoldable pub positive_atoi : Text → Option ℕ
unfolding read_digits skip_plus
positive_atoi s = elim (read_digits 0 (skip_plus s)) [
  | none ↦ none
  | some n ↦ if n == 0 || ltb 9223372036854775807 n then none else some n
]

unfoldable pub env_int_default : Getenv → String → ℕ → ℕ
unfolding positive_atoi
env_int_default getenv key default = elim (positive_atoi (getenv key)) [
  | none ↦ default
  | some n ↦ n
]

-- The decimal digits of a number before those written so far; 20 rounds do for 64 bits.
unfoldable pub write_digits : ℕ → ℕ → Text → Text
write_digits zero n written = written
write_digits (suc fuel) n written =
    let digits = (b'0' + n % 10) ∷ written in
    let rest = write_digits fuel (n / 10) digits in if ltb n 10 then digits else rest

-- strconv.Itoa
unfoldable pub itoa : ℕ → Text
unfolding write_digits
itoa n = write_digits 20 n []

abbrev default_gateway : Text
default_gateway = bytes_of "http://host.docker.internal:11434"

abbrev pub broker_port : Getenv → ℕ
broker_port getenv = env_int_default getenv "DITTOBENCH_BROKER_PORT" 11436

unfoldable pub harness_gateway : Getenv → Text → Text
harness_gateway getenv session_id =
    if same_text session_id []
    then env_or getenv "HARNESS_GATEWAY_URL" default_gateway
    else bytes_of "http://host.docker.internal:"
      ++ (itoa (broker_port getenv) ++ bytes_of "/v1/inference")

-- The embedding gateway: the broker for a run with a session.
unfoldable pub embedding_gateway : Getenv → Text → Text
embedding_gateway getenv session_id =
    if same_text session_id []
    then env_or getenv "HARNESS_EMBED_URL" default_gateway
    else bytes_of "http://host.docker.internal:" ++ itoa (broker_port getenv)

-- The keys of the map lockedEnvKeys.
abbrev pub locked_env_keys : List String
locked_env_keys =
    "DITTOBENCH_DB" ∷ "OLLAMA_BASE_URL" ∷ "DITTOBENCH_MODEL" ∷ "OPENROUTER_API_KEY"
    ∷ "OPENAI_API_KEY" ∷ "OPENROUTER_BASE_URL" ∷ "OPENAI_API_BASE" ∷ "OPENAI_BASE_URL"
    ∷ "CHUTES_API_KEY" ∷ "CHUTES_BASE_URL" ∷ "DITTOBENCH_INFERENCE_BASE_URL" ∷ "DITTOBENCH_PROVIDER"
    ∷ []

unfoldable pub is_locked : String → Bool
is_locked key = any (λ k. k == key) locked_env_keys

abbrev pub v8_compat_base_url_keys : List String
v8_compat_base_url_keys = "OPENAI_BASE_URL" ∷ "OPENAI_API_BASE" ∷ "OPENROUTER_BASE_URL" ∷ []

-- The entries of a map but those that a test drops, as the loops over a map copy them.
unfoldable pub copy_but : (String → Bool) → Assoc Text → Assoc Text
copy_but drops [] = []
copy_but drops ((key, value) ∷ env) =
    let rest = copy_but drops env in if drops key then rest else insert key value rest

abbrev database_path : Text
database_path = bytes_of "/tmp/dittobench.db"

unfoldable pub sandbox_runtime_env : Assoc Text → Assoc Text
unfolding copy_but
sandbox_runtime_env req_env =
    insert "DITTOBENCH_DB" database_path (copy_but (λ key. key == "DITTOBENCH_DB") req_env)

-- env[key] = value for each key of a list.
unfoldable pub set_each : List String → Text → Assoc Text → Assoc Text
set_each [] value env = env
set_each (key ∷ keys) value env = set_each keys value (insert key value env)

abbrev pub placeholder_key : Text
placeholder_key = bytes_of "ticket"

unfoldable pub harness_sandbox_env_for_provider : Getenv → Assoc Text → ℕ → Text → Text → Assoc Text
harness_sandbox_env_for_provider getenv req_env bench_version provider session_id =
    let gateway = harness_gateway getenv session_id in
    let copied = copy_but is_locked (sandbox_runtime_env req_env) in
    let named =
      insert "DITTOBENCH_INFERENCE_BASE_URL" gateway
        (insert "DITTOBENCH_PROVIDER" provider copied) in
    let chutes = insert "CHUTES_API_KEY" placeholder_key (insert "CHUTES_BASE_URL" gateway named) in
    let compat = set_each v8_compat_base_url_keys gateway chutes in
    let keys =
      insert "OPENROUTER_API_KEY" placeholder_key
        (insert "OPENAI_API_KEY" placeholder_key compat) in
    let model =
      insert "DITTOBENCH_MODEL" (bytes_of (harness_model_for_version bench_version)) keys in
    insert "DITTOBENCH_DB" database_path
      (insert "OLLAMA_BASE_URL" (embedding_gateway getenv session_id) model)

unfoldable pub harness_sandbox_env : Getenv → Assoc Text → ℕ → Text → Assoc Text
harness_sandbox_env getenv req_env bench_version session_id =
    harness_sandbox_env_for_provider getenv req_env bench_version (bytes_of "platform") session_id
