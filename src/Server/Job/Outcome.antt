-- ===== src/Server/Job/Outcome.antt =====
-- cmd/dittobench-api/main.go, runSizeJob: what a run that ends with a report went through.
use dittobench_api.Base.{
  ℕ, ◌+◌, String, Bool, true, false, not, Option, none, some, List, [], ◌∷◌, ◌++◌, map, ◌≡◌, refl,
  subst, sym, arith, leb, ◌&&◌, nat_eq, string_eq, Bool-cases, Option-cases, inl, inr, text_beq_iff,
  nat_beq_iff, length,
}
use mathlib.Core.List.{append-nil, append_assoc}
use dittobench_api.Store.Job.{running}
use dittobench_api.Store.Methods.{append_partial}
use dittobench_api.Server.Evidence.{validate_v8_evidence_availability}
use dittobench_api.Server.Job.{Work, goes_on, ◌>>=◌, ◌>>◌, pure, fail_if, stage, write}
use dittobench_api.Server.Job.Starting.{
  Request, World, Artifact, Dataset, is_scored, verify_dataset_hash, check_artifact, check_made,
  check_dataset,
}
use dittobench_api.Server.Job.Cases.{
  CaseWorld, Suite, Wave, Staged, panics, enter_wave, append_all, run_batch, run_staged, run_waves,
  run_tool_cases, cases_by_wave, run_memory_cases, run_assigned, open_endpoint, seed_tool_pairs,
  admit_memory_phase, run_cases, seed_isolation,
}
use dittobench_api.Server.Job.Waves.{run_all}
use dittobench_api.Server.Job.Sequence.{
  Holds, Holds-any, Holds->>=, Holds->>, Holds-imp, Holds-fail_if,
}

-- The artifact is the one of the request's version, and of the digest that a scored run expects.
pub record IsPinned (r : Request) (a : Artifact) : Type 0 where
  pub version_eq : a.version ≡ r.bench_version
  pub digest_eq : is_scored r ≡ true → a.hash ≡ some r.expected_sha256

seeded_when : (due seeded : Bool) → (due && not seeded) ≡ false → due ≡ true → seeded ≡ true
seeded_when due seeded h e = ground (arith, h, e)

verified :
    (expected : String) (hash : Option String)
    → verify_dataset_hash expected hash ≡ none
    → hash ≡ some expected
unfolding verify_dataset_hash
verified expected none h = cc
verified expected (some hash) h = ground (arith, h, text_beq_iff expected hash)

-- What a run needs of its dataset.
abbrev pub IsChecked : Request → Dataset × Artifact → Type 0
IsChecked r (d, a) =
    IsPinned r a
    × (leb 8 r.bench_version ≡ true
        → validate_v8_evidence_availability d.tool_pairs d.required_pairs d.wave_pairs ≡ true)

module _ {Case Report : Type 0} (world : World) (r : Request) where
  check_artifact-IsPinned :
      (a : Artifact) (w : Work Case Report)
      → Holds (λ _. IsPinned r a) (check_artifact world r a w).0
  unfolding check_artifact
  check_artifact-IsPinned a w = elim (Option-cases (verify_dataset_hash r.expected_sha256 a.hash)) [
    | inl ok ↦
        let same = verified r.expected_sha256 a.hash ok in
        ground (arith, ok, same, nat_beq_iff a.version r.bench_version, Bool-cases (is_scored r))
    | inr (message, bad) ↦
        ground (arith, bad, nat_beq_iff a.version r.bench_version, Bool-cases (is_scored r))
  ]

  check_made-IsPinned :
      (o : Option Artifact) (w : Work Case Report) → Holds (IsPinned r) (check_made world r o w).0
  unfolding check_made
  check_made-IsPinned none w = tt
  check_made-IsPinned (some a) w =
      Holds->>= (λ _. IsPinned r a) (IsPinned r) (λ _. pure a) (check_artifact world r a) w
        (check_artifact-IsPinned a w) (λ _ v pinned. pinned)

  pub check_dataset-IsChecked :
      (d : Dataset) (w : Work Case Report)
      → Holds (λ a. IsChecked r (d, a)) (check_dataset world r d w).0
  unfolding check_dataset
  check_dataset-IsChecked d w =
      let seeded = validate_v8_evidence_availability d.tool_pairs d.required_pairs d.wave_pairs in
      let unseeded = leb 8 r.bench_version && not seeded in
      let message : String =
        "v8 memory evidence is unavailable through the ordered seed boundary" in
      Holds->>= (λ _. unseeded ≡ false) (λ a. IsChecked r (d, a))
        (λ _. check_made world r d.artifact) (fail_if unseeded message) w
        (Holds-fail_if unseeded message w)
        λ _ u found.
          let late = λ (e : leb 8 r.bench_version ≡ true).
            seeded_when (leb 8 r.bench_version) seeded found e in
          Holds-imp (IsPinned r) (λ a. IsChecked r (d, a)) (check_made world r d.artifact u).0
            (check_made-IsPinned d.artifact u) (λ a pinned. (pinned, late))

-- The scores of all cases: those of the tool cases, and those of the waves.
abbrev pub IsCovered :
    {Tool Memory Case : Type 0}
    → CaseWorld Tool Memory Case
    → Suite Tool Memory
    → List Case
    → Type 0
IsCovered {Memory = Memory} world suite out =
    (table : List (List (Staged Memory))) × (cases_by_wave suite.seeding_waves suite.memory_cases
      ≡ some table)
    × (out ≡ map world.run_tool suite.tool_cases ++ run_all (run_staged world) suite.waves table)

module _ {Tool Memory Case Report : Type 0} (world : CaseWorld Tool Memory Case) (r : Request)
    (suite : Suite Tool Memory) where
  append_all-tt :
      (cs : List Case) (w : Work Case Report) → (append_all world r suite cs w).0 ≡ goes_on tt
  append_all-tt [] w = refl
  append_all-tt (c ∷ cs) w = append_all-tt cs (write (append_partial c) w).1

  run_batch-eq :
      (batch : ℕ) (results : List Case) (w : Work Case Report)
      → Holds (λ out. out ≡ results) (run_batch world r suite batch results w).0
  unfolding run_batch
  run_batch-eq batch results w = ground (arith, append_all-tt (world.appended batch results) w)

  run_waves-eq :
      (waves : List Wave) (n : ℕ) (table : List (List (Staged Memory))) (scored : List Case)
      (w : Work Case Report)
      → Holds
          (λ out. out ≡ scored ++ run_all (run_staged world) waves table)
          (run_waves world r suite n waves table scored w).0
  unfolding run_waves
  run_waves-eq [] n table scored w = sym (append-nil scored)
  run_waves-eq (wave ∷ waves) n [] scored w =
      Holds->> (λ out. out ≡ scored ++ []) panics (enter_wave world r suite n wave scored) w
        (λ u. tt)
  run_waves-eq (wave ∷ waves) n (cases ∷ table) scored w =
      let ran = map (run_staged world wave) cases in
      let later = run_all (run_staged world) waves table in
      let go =
        λ (results : List Case). run_waves world r suite (n + 1) waves table (scored ++ results) in
      let batch = run_batch world r suite (n + 1) ran in
      Holds->> (λ out. out ≡ scored ++ (ran ++ later)) (batch >>= go)
        (enter_wave world r suite n wave scored) w
        λ u.
          Holds->>= (λ results. results ≡ ran) (λ out. out ≡ scored ++ (ran ++ later)) go batch u
            (run_batch-eq (n + 1) ran u)
            λ results v same.
              subst (λ rs. Holds (λ out. out ≡ scored ++ (ran ++ later)) (go rs v).0) (sym same)
                (subst (λ l. Holds (λ out. out ≡ l) (go ran v).0) (append_assoc scored ran later)
                  (run_waves-eq waves (n + 1) table (scored ++ ran) v))

  run_assigned-eq :
      (tools : List Case) (o : Option (List (List (Staged Memory)))) (w : Work Case Report)
      → Holds
          (λ out.
            (table : List (List (Staged Memory))) × (o ≡ some table)
            × (out ≡ tools ++ run_all (run_staged world) suite.waves table))
          (run_assigned world r suite tools o w).0
  unfolding run_assigned
  run_assigned-eq tools none w = tt
  run_assigned-eq tools (some table) w =
      let Result = λ (out : List Case).
        (t : List (List (Staged Memory))) × (some table ≡ some t)
        × (out ≡ tools ++ run_all (run_staged world) suite.waves t) in
      let waves = run_waves world r suite 0 suite.waves table tools in
      Holds->> Result waves (seed_isolation world r suite (length tools)) w λ u.
        Holds-imp (λ out. out ≡ tools ++ run_all (run_staged world) suite.waves table) Result
          (waves u).0 (run_waves-eq suite.waves 0 table tools u) (λ out same. (table, refl, same))

  pub run_cases-IsCovered :
      (w : Work Case Report) → Holds (IsCovered world suite) (run_cases world r suite w).0
  unfolding run_cases run_tool_cases run_memory_cases
  run_cases-IsCovered w =
      let tools = map world.run_tool suite.tool_cases in
      let table = cases_by_wave suite.seeding_waves suite.memory_cases in
      let memory = λ (ran : List Case).
        admit_memory_phase world r suite >> run_memory_cases world r suite ran in
      let after_seed = run_tool_cases world r suite >>= memory in
      Holds->>= (λ _. Unit) (IsCovered world suite)
        (λ _. seed_tool_pairs world r suite >> after_seed) (open_endpoint world r suite) w
        (Holds-any (open_endpoint world r suite w).0)
        λ _ v _. Holds->> (IsCovered world suite) after_seed (seed_tool_pairs world r suite) v λ u.
          Holds->>= (λ ran. ran ≡ tools) (IsCovered world suite) memory
            (run_tool_cases world r suite) u
            (Holds->> (λ ran. ran ≡ tools) (run_batch world r suite 0 tools)
              (stage running 0 suite.total) u (λ x. run_batch-eq 0 tools x))
            λ ran x same.
              Holds->> (IsCovered world suite) (run_memory_cases world r suite ran)
                (admit_memory_phase world r suite) x
                λ y.
                  subst
                    (λ ts. Holds (IsCovered world suite) (run_memory_cases world r suite ts y).0)
                    (sym same) (run_assigned-eq tools table y)
