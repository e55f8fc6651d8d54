-- ===== src/Server/Job/Launched.antt =====
-- cmd/dittobench-api/main.go, runSizeJob: what a run holds when its first case begins.
use dittobench_api.Base.{
  String, Bool, true, false, not, Option, none, some, List, if◌then◌else◌, [], ◌∷◌, ◌++◌, ◌≡◌, refl,
  sym, ap, subst, arith, leb, ◌&&◌, ◌==◌, nat_eq,
}
use dittobench_api.Server.Job.{
  Resource, image, relay_lock, embedding_phase, Handle, without, Work, Stage, ◌>>=◌, ◌>>◌, take,
  pure, stage, fail_if, when,
}
use dittobench_api.Store.Job.{generating}
use dittobench_api.Store.Methods.{set_stage}
use dittobench_api.Relay.{Snapshot}
use dittobench_api.Server.Job.Starting.{
  Request, World, build_image, is_scored, Outcome, got, lost, crashed, check_artifact,
  check_dataset, take_generated, generate, Generated, generated, unsupported_version, no_memory,
  no_isolation, panicked_generation, Artifact, Dataset,
}
use dittobench_api.Server.Job.Launching.{
  relay_run_start, probe_model_route, restart_harness, restart_with, check_model_route,
  keep_or_restart, launch, start_run, meter_start, snapshot_if, confirm_healthy, source_of,
  move_session, confirm_route, start_harness, wait_harness, admit_embedding_phase,
}
use dittobench_api.Server.Job.Accounted.{
  IsAccounted, Keeps-take, Leaves, Leaves->>=, >>=-IsAccounted, if-IsAccounted, Leaves_same,
  IsFresh, IsRunning, fresh_empty, fail_if-work, >>=-work, Keeps_last, without_known, is_stopped,
}

-- What a job leaves behind that it cannot name: the tagged image of a build that failed behind the tag.
abbrev pub image_of_lost : Outcome String → List Resource
image_of_lost (lost fault) = image ∷ []
image_of_lost (got name) = []
image_of_lost crashed = []

abbrev pub left_behind : World → Request → List Resource
left_behind world r = if r.has_source && world.build_leaves then image_of_lost world.build else []

module _ {Case Report : Type 0} (world : World) (r : Request) where
  check_artifact-work : (a : Artifact) (w : Work Case Report) → (check_artifact world r a w).1 ≡ w
  unfolding check_artifact
  check_artifact-work a w = ground arith

  check_dataset-work : (d : Dataset) (w : Work Case Report) → (check_dataset world r d w).1 ≡ w
  unfolding check_dataset
  check_dataset-work d w = ground arith

  take_generated-work : (g : Generated) (w : Work Case Report) → (take_generated world r g w).1 ≡ w
  unfolding take_generated
  take_generated-work unsupported_version w = refl
  take_generated-work no_memory w = refl
  take_generated-work no_isolation w = refl
  take_generated-work panicked_generation w = refl
  take_generated-work (generated d) w = ground (arith, check_dataset-work d w)

  probe_model_route-work :
      (s : Snapshot) (o : Option Snapshot) (w : Work Case Report)
      → (probe_model_route world r s o w).1 ≡ w
  unfolding probe_model_route
  probe_model_route-work s o w = ground arith

  build_image-IsFresh :
      (w : Work Case Report)
      → left_behind world r ≡ []
      → IsFresh w
      → Leaves (λ _ v. IsFresh v) (build_image world r w).0 (build_image world r w).1
  unfolding build_image
  build_image-IsFresh w none_left k = ground (arith, none_left, Keeps-take image w k.1)

  leaves_generated :
      {A : Type 0} (m : Stage Case Report A) (w : Work Case Report)
      → IsFresh w
      → ((v : Work Case Report) → (m v).1 ≡ v)
      → Leaves
          (λ _ v. IsFresh v)
          ((stage generating 0 world.initial_total >> m) w).0
          ((stage generating 0 world.initial_total >> m) w).1
  leaves_generated m w k same =
      let v = record w { writes = w.writes ++ set_stage generating 0 world.initial_total ∷ [] } in
      let accounted : IsAccounted v = record {
        returned = k.1.returned;
        contained = k.1.contained;
      } in
      Leaves_same IsFresh (m v).0 (m v).1 v (same v) (λ fresh. fresh.1) (k.0, accounted)

  generate-IsFresh :
      (w : Work Case Report)
      → IsFresh w
      → Leaves (λ _ v. IsFresh v) (generate world r w).0 (generate world r w).1
  unfolding generate
  generate-IsFresh w k =
      leaves_generated (take_generated world r world.generation) w k
        (take_generated-work world.generation)

  start_harness-IsRunning :
      (built : Bool) (w : Work Case Report)
      → IsFresh w
      → Leaves
          (λ _ v. IsRunning built v)
          (start_harness world r built w).0
          (start_harness world r built w).1
  unfolding start_harness
  start_harness-IsRunning built w k = ground arith

  confirm_route-work :
      (p : Snapshot × Bool) (w : Work Case Report) → (confirm_route world r p w).1 ≡ w
  unfolding confirm_route
  confirm_route-work (s, routed) w = ground arith

  confirm_healthy-work :
      (s : Snapshot) (o : Option String) (w : Work Case Report)
      → (confirm_healthy world r s o w).1 ≡ w
  unfolding confirm_healthy
  confirm_healthy-work s none w =
      >>=-work (probe_model_route world r s world.after_second_probe) (confirm_route world r)
        (probe_model_route-work s world.after_second_probe) confirm_route-work w
  confirm_healthy-work s (some problem) w = refl

  relay_run_start-work : (w : Work Case Report) → (relay_run_start world r w).1 ≡ w
  unfolding relay_run_start
  relay_run_start-work w = ground arith

  move_session-work :
      (s : Snapshot) (old : Option Handle) (h : Handle) (w : Work Case Report)
      → (move_session world r s old h w).1 ≡ w
  unfolding move_session
  move_session-work s old h w =
      >>=-work
        (fail_if (not (world.replace_source (source_of old) h.source_ip))
          "inference session could not move to compatibility sandbox")
        (λ _. confirm_healthy world r s world.replacement_healthy)
        (fail_if-work _ "inference session could not move to compatibility sandbox")
        (λ _. confirm_healthy-work s world.replacement_healthy) w

  restart_with-IsAccounted :
      (s : Snapshot) (old : Option Handle) (o : Outcome Handle) (w : Work Case Report)
      → is_stopped w.deferred ≡ true
      → IsFresh w
      → IsAccounted (restart_with world r s old o w).1
  unfolding restart_with
  restart_with-IsAccounted s old (lost fault) w stopped k = k.1
  restart_with-IsAccounted s old crashed w stopped k = k.1
  restart_with-IsAccounted s old (got h) w stopped k =
      let v = record w { handle = some h; containers = h ∷ w.containers } in
      let accounted : IsAccounted v = record {
        returned = k.1.returned;
        contained = (ap (λ cs. h ∷ cs) (fresh_empty w k), stopped);
      } in
      subst IsAccounted (sym (move_session-work s old h v)) accounted

  restart_harness-IsAccounted :
      (s : Snapshot) (w : Work Case Report)
      → IsRunning true w
      → IsAccounted (restart_harness world r s w).1
  unfolding restart_harness
  restart_harness-IsAccounted s w k =
      let gone = without_known w.handle w.containers w.deferred k.1.contained in
      let v = record w { handle = none; containers = without w.handle w.containers } in
      let accounted : IsAccounted v = record { returned = k.1.returned; contained = gone } in
      restart_with-IsAccounted s w.handle world.run_replacement v (k.0 refl) (refl, accounted)

  keep_or_restart-IsAccounted :
      (s : Snapshot) (p : Snapshot × Bool) (w : Work Case Report)
      → IsRunning true w
      → IsAccounted (keep_or_restart world r s p w).1
  unfolding keep_or_restart
  keep_or_restart-IsAccounted s (probed, true) w k = k.1
  keep_or_restart-IsAccounted s (probed, false) w k = restart_harness-IsAccounted s w k

  check_model_route-IsAccounted :
      (built : Bool) (s : Snapshot) (w : Work Case Report)
      → IsRunning built w
      → IsAccounted (check_model_route world r built s w).1
  unfolding check_model_route
  check_model_route-IsAccounted built s w k =
      let probe = probe_model_route world r s world.after_probe in
      if-IsAccounted (built && is_scored r && r.bench_version == 8)
        (probe >>= keep_or_restart world r s) (pure s) w
        (λ due.
          let running : IsRunning true w = (λ _. k.0 (ground (arith, due)), k.1) in
          >>=-IsAccounted (λ _. IsRunning true) (keep_or_restart world r s) probe w
            (Leaves_same (IsRunning true) (probe w).0 (probe w).1 w
              (probe_model_route-work s world.after_probe w) (λ v. v.1) running)
            (keep_or_restart-IsAccounted s))
        k.1

  snapshot_if-IsAccounted :
      (scored built : Bool) (w : Work Case Report)
      → IsRunning built w
      → IsAccounted (snapshot_if world r scored built w).1
  unfolding snapshot_if
  snapshot_if-IsAccounted false built w k = k.1
  snapshot_if-IsAccounted true built w k =
      let route = λ (s : Snapshot). check_model_route world r built s >>= λ m. pure (some m) in
      >>=-IsAccounted (λ _. IsRunning built) route (relay_run_start world r) w
        (Leaves_same (IsRunning built) (relay_run_start world r w).0 (relay_run_start world r w).1 w
          (relay_run_start-work w) (λ v. v.1) k)
        λ s v l.
          Keeps_last (λ m. some m) (check_model_route world r built s) v
            (check_model_route-IsAccounted built s v l)

  wait_harness-work : (w : Work Case Report) → (wait_harness world r w).1 ≡ w
  unfolding wait_harness
  wait_harness-work w = ground arith

  lock-IsFresh :
      (test : Bool) (w : Work Case Report)
      → IsFresh w
      → Leaves
          (λ _ v. IsFresh v)
          (when test (take relay_lock) w).0
          (when test (take relay_lock) w).1
  lock-IsFresh true w k = (k.0, Keeps-take relay_lock w k.1)
  lock-IsFresh false w k = k

  admit-IsRunning :
      (built test : Bool) (w : Work Case Report)
      → IsRunning built w
      → Leaves
          (λ _ v. IsRunning built v)
          (when test (admit_embedding_phase world r) w).0
          (when test (admit_embedding_phase world r) w).1
  unfolding admit_embedding_phase
  admit-IsRunning built true w k = ground (arith, Keeps-take embedding_phase w k.1)
  admit-IsRunning built false w k = k

  launch-IsRunning :
      (built : Bool) (w : Work Case Report)
      → IsFresh w
      → Leaves (λ _ v. IsRunning built v) (launch world r built w).0 (launch world r built w).1
  unfolding launch
  launch-IsRunning built w k =
      let Fresh = λ (x : Unit {0}) (v : Work Case Report). IsFresh v in
      let Running = λ (x : Unit {0}) (v : Work Case Report). IsRunning built v in
      let admit = when (leb 7 r.bench_version) (admit_embedding_phase world r) in
      let begin = start_harness world r built in
      let lock = is_scored r && not r.has_session in
      Leaves->>= Fresh Running (λ _. begin >> (wait_harness world r >> admit))
        (when lock (take relay_lock)) w (lock-IsFresh lock w k)
        λ _ v fresh.
          Leaves->>= Running Running (λ _. wait_harness world r >> admit) begin v
            (start_harness-IsRunning built v fresh)
            λ _ u running.
              Leaves->>= Running Running (λ _. admit) (wait_harness world r) u
                (Leaves_same (IsRunning built) (wait_harness world r u).0 (wait_harness world r u).1
                  u (wait_harness-work u) (λ x. x.1) running)
                (λ _ x on. admit-IsRunning built (leb 7 r.bench_version) x on)

  pub start_run-IsAccounted :
      (w : Work Case Report)
      → left_behind world r ≡ []
      → IsFresh w
      → IsAccounted (start_run world r w).1
  unfolding start_run meter_start
  start_run-IsAccounted w none_left k =
      let meter_from = λ (built : Bool) (d : Dataset × Artifact).
        meter_start world r built >>= λ start. pure (d, start) in
      let go =
        λ (built : Bool) (d : Dataset × Artifact). launch world r built >> meter_from built d in
      >>=-IsAccounted (λ _ v. IsFresh v) (λ built. generate world r >>= go built)
        (build_image world r) w (build_image-IsFresh w none_left k)
        λ built v fresh.
          >>=-IsAccounted (λ _ u. IsFresh u) (go built) (generate world r) v
            (generate-IsFresh v fresh)
            λ d u also.
              >>=-IsAccounted (λ _ x. IsRunning built x) (λ _. meter_from built d)
                (launch world r built) u (launch-IsRunning built u also)
                λ _ x running.
                  Keeps_last (λ start. (d, start)) (meter_start world r built) x
                    (snapshot_if-IsAccounted (is_scored r) built x running)
