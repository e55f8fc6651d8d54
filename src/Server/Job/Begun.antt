-- ===== src/Server/Job/Begun.antt =====
-- cmd/dittobench-api/main.go, runSizeJob: the dataset and the snapshot with which a run begins its cases.
use dittobench_api.Base.{
  Bool, true, false, not, Option, none, some, ◌≡◌, ◌⊎◌, inl, inr, refl, sym, subst, ◌∙◌, arith, ltb,
  leb, ◌==◌, ◌&&◌, nat_eq, String, Bool-cases, Option-cases,
}
use dittobench_api.Relay.{Snapshot, relay_degraded_since}
use dittobench_api.Server.Job.{Work, Step, returns, Handle, goes_on, ◌>>=◌, pure, fail_if}
use dittobench_api.Server.Job.Starting.{
  Request, World, Artifact, Dataset, Generated, generated, unsupported_version, no_memory,
  no_isolation, panicked_generation, Outcome, got, lost, crashed, is_scored,
  require_token_accounting, build_image, check_artifact, check_made, check_dataset, take_generated,
}
use dittobench_api.Server.Job.Launching.{
  source_of, keep_replacement, stop_for_restart, relay_run_start, probe_model_route, confirm_route,
  confirm_healthy, move_session, restart_with, restart_harness, keep_or_restart, check_model_route,
  snapshot_if,
}
use dittobench_api.Server.Job.Outcome.{IsChecked, check_dataset-IsChecked}
use dittobench_api.Server.Job.Sequence.{Holds, Holds-any, Holds->>=, Holds->>, Holds-imp}

module _ (world : World) (r : Request) where
  -- The snapshot at the start: the relay answered its probe, and says from where it serves.
  pub record IsRelayed (s : Snapshot) : Type 0 where
    pub probe_eq : world.relay_probe ≡ none
    pub snapshot_eq : world.relay_snapshot ≡ some s
    pub accounted :
        (leb 5 r.bench_version ≡ false) ⊎ (require_token_accounting s r.bench_version ≡ none)

  -- The snapshot after a probe of the model's route, by which the harness reached the broker.
  pub record IsProbed (after : Option Snapshot) (s m : Snapshot) : Type 0 where
    pub after_eq : after ≡ some m
    pub undegraded : relay_degraded_since s.ledger m.ledger ≡ none
    pub routed : ltb s.ledger.requests m.ledger.requests ≡ true

  abbrev pub probes : Bool → Bool
  probes built = built && is_scored r && r.bench_version == 8

  -- The snapshot from which the run is metered: that of the start, or one after a probe.
  abbrev pub IsRouted : Bool → Snapshot → Snapshot → Type 0
  IsRouted built s m =
      ((probes built ≡ false) × (m ≡ s))
      ⊎ ((probes built ≡ true)
          × (IsProbed world.after_probe s m ⊎ IsProbed world.after_second_probe s m))

  -- None for practice.
  abbrev pub IsBegun : Bool → Bool → Option Snapshot → Type 0
  IsBegun scored built o =
      ((scored ≡ false) × (o ≡ none))
      ⊎ ((scored ≡ true)
          × (s : Snapshot) × (m : Snapshot) × (o ≡ some m)
          × IsRelayed s
          × IsRouted built s m)

  -- The dataset is the generated one, with its artifact, and passed the checks.
  abbrev pub IsMade : Generated → Dataset × Artifact → Type 0
  IsMade g (d, a) = (g ≡ generated d) × (d.artifact ≡ some a) × IsChecked r (d, a)

Holds-both :
    {A : Type 0} (P Q : A → Type 0) (s : Step A) → Holds P s → Holds Q s → Holds (λ a. P a × Q a) s
Holds-both P Q (goes_on a) h k = (h, k)
Holds-both P Q (returns e) h k = tt

abbrev AfterProbe : Snapshot → Option Snapshot → Snapshot × Bool → Type 0
AfterProbe s after p =
    (after ≡ some p.0)
    × (relay_degraded_since s.ledger p.0.ledger ≡ none)
    × (ltb s.ledger.requests p.0.ledger.requests ≡ p.1)

module _ (world : World) (r : Request) where
  abbrev Routed : Snapshot → Snapshot → Type 0
  Routed s m =
      IsProbed world r world.after_probe s m ⊎ IsProbed world r world.after_second_probe s m

  confirm_route-IsProbed :
      (o : Option Snapshot) (s : Snapshot) (p : Snapshot × Bool) (m : Snapshot)
      → AfterProbe s o p
      → (m ≡ p.0) × (p.1 ≡ true)
      → IsProbed world r o s m
  confirm_route-IsProbed o s p m (after, clean, routed) (same, yes_routed) =
      subst (IsProbed world r o s) (sym same)
        (record { after_eq = after; undegraded = clean; routed = routed ∙ yes_routed })

module _ {Case Report : Type 0} (world : World) (r : Request) where
  pub build_image-eq :
      (w : Work Case Report) → Holds (λ built. built ≡ r.has_source) (build_image world r w).0
  unfolding build_image
  build_image-eq w = ground arith

  check_made-eq :
      (o : Option Artifact) (w : Work Case Report)
      → Holds (λ a. o ≡ some a) (check_made world r o w).0
  unfolding check_made
  check_made-eq none w = tt
  check_made-eq (some a) w =
      Holds->>= (λ _. Unit) (λ b. some a ≡ some b) (λ _. pure a) (check_artifact world r a) w
        (Holds-any (check_artifact world r a w).0) (λ _ v _. refl)

  check_dataset-eq :
      (d : Dataset) (w : Work Case Report)
      → Holds (λ a. d.artifact ≡ some a) (check_dataset world r d w).0
  unfolding check_dataset
  check_dataset-eq d w =
      Holds->> (λ a. d.artifact ≡ some a) (check_made world r d.artifact) (fail_if _ _) w
        (check_made-eq d.artifact)

  pub take_generated-IsMade :
      (g : Generated) (w : Work Case Report)
      → Holds (IsMade world r g) (take_generated world r g w).0
  unfolding take_generated
  take_generated-IsMade unsupported_version w = tt
  take_generated-IsMade no_memory w = tt
  take_generated-IsMade no_isolation w = tt
  take_generated-IsMade panicked_generation w = tt
  take_generated-IsMade (generated d) w =
      let Taken = λ (a : Artifact). (d.artifact ≡ some a) × IsChecked r (d, a) in
      Holds->>= Taken (IsMade world r (generated d)) (λ a. pure (d, a)) (check_dataset world r d) w
        (Holds-both (λ a. d.artifact ≡ some a) (λ a. IsChecked r (d, a))
          (check_dataset world r d w).0 (check_dataset-eq d w)
          (check_dataset-IsChecked world r d w))
        (λ a v taken. (refl, taken.0, taken.1))

  relay_run_start-IsRelayed :
      (w : Work Case Report) → Holds (IsRelayed world r) (relay_run_start world r w).0
  unfolding relay_run_start
  relay_run_start-IsRelayed w = ground (
    arith,
    Option-cases world.relay_probe,
    Option-cases world.relay_snapshot,
    Bool-cases (leb 5 r.bench_version),
  )

  probe_model_route-AfterProbe :
      (s : Snapshot) (after : Option Snapshot) (w : Work Case Report)
      → Holds (AfterProbe s after) (probe_model_route world r s after w).0
  unfolding probe_model_route
  probe_model_route-AfterProbe s none w = tt
  probe_model_route-AfterProbe s (some end) w =
      ground (arith, Option-cases (relay_degraded_since s.ledger end.ledger))

  confirm_route-routed :
      (p : Snapshot × Bool) (w : Work Case Report)
      → Holds (λ m. (m ≡ p.0) × (p.1 ≡ true)) (confirm_route world r p w).0
  unfolding confirm_route
  confirm_route-routed (m, true) w = (refl, refl)
  confirm_route-routed (m, false) w = tt

  confirm_healthy-IsProbed :
      (s : Snapshot) (o : Option String) (w : Work Case Report)
      → Holds (IsProbed world r world.after_second_probe s) (confirm_healthy world r s o w).0
  unfolding confirm_healthy
  confirm_healthy-IsProbed s (some problem) w = tt
  confirm_healthy-IsProbed s none w =
      let Done = IsProbed world r world.after_second_probe s in
      Holds->>= (AfterProbe s world.after_second_probe) Done (confirm_route world r)
        (probe_model_route world r s world.after_second_probe) w
        (probe_model_route-AfterProbe s world.after_second_probe w)
        λ p v probed.
          Holds-imp (λ m. (m ≡ p.0) × (p.1 ≡ true)) Done (confirm_route world r p v).0
            (confirm_route-routed p v)
            (λ m routed.
              confirm_route-IsProbed world r world.after_second_probe s p m probed routed)

  restart_with-IsProbed :
      (s : Snapshot) (old : Option Handle) (o : Outcome Handle) (w : Work Case Report)
      → Holds (IsProbed world r world.after_second_probe s) (restart_with world r s old o w).0
  unfolding restart_with move_session
  restart_with-IsProbed s old (lost fault) w = tt
  restart_with-IsProbed s old crashed w = tt
  restart_with-IsProbed s old (got h) w =
      let Done = IsProbed world r world.after_second_probe s in
      Holds->> Done (move_session world r s old h) (keep_replacement world r h) w λ v.
        Holds->> Done (confirm_healthy world r s world.replacement_healthy)
          (fail_if (not (world.replace_source (source_of old) h.source_ip))
            "inference session could not move to compatibility sandbox")
          v (confirm_healthy-IsProbed s world.replacement_healthy)

  keep_or_restart-Routed :
      (s : Snapshot) (p : Snapshot × Bool) (w : Work Case Report)
      → AfterProbe s world.after_probe p
      → Holds (Routed world r s) (keep_or_restart world r s p w).0
  unfolding keep_or_restart restart_harness
  keep_or_restart-Routed s (m, true) w probed =
      inl (confirm_route-IsProbed world r world.after_probe s (m, true) m probed (refl, refl))
  keep_or_restart-Routed s (m, false) w probed =
      Holds->>= (λ _. Unit) (Routed world r s)
        (λ old. restart_with world r s old world.run_replacement) (stop_for_restart world r) w tt
        λ old v _.
          Holds-imp (IsProbed world r world.after_second_probe s) (Routed world r s)
            (restart_with world r s old world.run_replacement v).0
            (restart_with-IsProbed s old world.run_replacement v) (λ n done. inr done)

  check_model_route-IsRouted :
      (built : Bool) (s : Snapshot) (w : Work Case Report)
      → Holds (IsRouted world r built s) (check_model_route world r built s w).0
  unfolding check_model_route
  check_model_route-IsRouted built s w = elim (Bool-cases (probes world r built)) [
    | inr unprobed ↦ rw unprobed (inl (unprobed, refl))
    | inl due ↦ rw due (
        Holds-imp (Routed world r s) (IsRouted world r built s)
          ((probe_model_route world r s world.after_probe >>= keep_or_restart world r s) w).0
          (Holds->>= (AfterProbe s world.after_probe) (Routed world r s) (keep_or_restart world r s)
            (probe_model_route world r s world.after_probe) w
            (probe_model_route-AfterProbe s world.after_probe w)
            (λ p v probed. keep_or_restart-Routed s p v probed))
          (λ m routed. inr (due, routed)))
  ]

  pub snapshot_if-IsBegun :
      (scored built : Bool) (w : Work Case Report)
      → Holds (IsBegun world r scored built) (snapshot_if world r scored built w).0
  unfolding snapshot_if
  snapshot_if-IsBegun false built w = inl (refl, refl)
  snapshot_if-IsBegun true built w =
      let Begun = IsBegun world r true built in
      Holds->>= (IsRelayed world r) Begun
        (λ s. check_model_route world r built s >>= λ m. pure (some m)) (relay_run_start world r) w
        (relay_run_start-IsRelayed w)
        λ s v relayed.
          Holds->>= (IsRouted world r built s) Begun (λ m. pure (some m))
            (check_model_route world r built s) v (check_model_route-IsRouted built s v)
            (λ m u routed. inr (refl, s, m, refl, relayed, routed))
