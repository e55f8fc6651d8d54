-- ===== src/Server/Start/Admission.antt =====
-- cmd/dittobench-api/main.go, submitRunSize: a submission becomes a run, or leaves nothing behind.
use dittobench_api.Base.{
  ℕ, ◌+◌, ◌-◌, ◌≤◌, ◌≡◌, ◌⊎◌, inl, inr, refl, ap, ◌&&◌, not, Bool, true, false, Option, none, some,
  arith, ltb, if◌then◌else◌, string_eq, text_beq_iff, Bool-cases,
}
use dittobench_api.Base.Assoc.{lookup-insert}
use dittobench_api.Store.Job.{Job, Store, queued}
use dittobench_api.Store.Methods.{
  create, update, mutate, set_run_size, set_bench_version, get, new_job,
}
use dittobench_api.Server.Diagnosis.Verdicts.{get-update_self}
use dittobench_api.Server.Cancel.{Cancels, is_registered, register_run_cancel}
use dittobench_api.Server.Start.{
  Server, Submission, Answer, refused, accepted, acquire_run_slot, pinned_or_fresh_seed, start_job,
  claim_and_start, submit_run_size,
}

module _ {Case Report Diag Broker : Type 0} (now : ℕ) (q : Submission Broker)
    (s : Server Case Report Diag Broker) where
  abbrev Submitted : Server Case Report Diag Broker × Answer
  Submitted = submit_run_size now q s

  -- The run of a submission that was accepted.
  pub record IsStarted (t : Server Case Report Diag Broker) : Type 0 where
    pub slot_taken : t.run_slots ≡ s.run_slots + 1
    pub within : t.run_slots ≤ s.capacity
    pub job : Job Case Report Diag
    pub found : get q.run_id t.store ≡ some job
    pub is_queued : job.status ≡ queued
    pub versioned : job.bench_version ≡ q.bench_version
    pub cancellable : is_registered q.run_id t.cancels ≡ true

  abbrev Good : Server Case Report Diag Broker × Answer → Type 0
  Good x = ((code : ℕ) × (x ≡ (s, refused code))) ⊎ ((x.1 ≡ accepted q.run_id) × IsStarted x.0)

  created_job :
      (seed cases : ℕ) (store : Store Case Report Diag)
      → get q.run_id (create q.run_id "run_size" queued seed cases now store).0
        ≡ some (new_job q.run_id "run_size" queued seed cases now)
  unfolding get create
  created_job seed cases store = ground (
    arith,
    text_beq_iff q.run_id q.run_id,
    lookup-insert q.run_id q.run_id (new_job q.run_id "run_size" queued seed cases now) store,
  )

  registered : (k : Cancels) → is_registered q.run_id (register_run_cancel q.run_id k) ≡ true
  unfolding register_run_cancel
  registered k =
      ground (arith, text_beq_iff q.run_id q.run_id, Bool-cases (is_registered q.run_id k))

  started :
      (cases : ℕ) (t : Server Case Report Diag Broker)
      → ltb s.run_slots s.capacity ≡ true
      → t.run_slots ≡ s.run_slots + 1
      → IsStarted (start_job now q cases t)
  unfolding start_job mutate new_job
  started cases t room taken =
      let seed = pinned_or_fresh_seed q.pinned_seed q.fresh_seed in
      let first = (create q.run_id "run_size" queued seed cases now t.store).0 in
      let sized = update q.run_id (mutate (set_run_size q.run_size)) now first in
      let made = new_job q.run_id "run_size" queued seed cases now in
      let one =
        get-update_self q.run_id (mutate (set_run_size q.run_size)) now first made
          (created_job seed cases t.store) in
      let change = mutate (set_bench_version q.bench_version) in
      let named = record (mutate (set_run_size q.run_size) made) { updated_at = now } in
      let two = get-update_self q.run_id change now sized named one in
      record {
        slot_taken = taken;
        within = ground (arith, room, taken);
        job = record (change named) { updated_at = now };
        found = two;
        is_queued = refl;
        versioned = refl;
        cancellable = registered t.cancels;
      }

  Good-if :
      (test : Bool) (x y : Server Case Report Diag Broker × Answer)
      → Good x
      → Good y
      → Good (if test then x else y)
  Good-if true x y h k = h
  Good-if false x y h k = k

  given_back : (n : ℕ) → n ≡ s.run_slots → record s { run_slots = n } ≡ s
  given_back n e = ap (λ m. record s { run_slots = m }) e

  claimed-Good :
      (cases : ℕ) (o : Option Broker)
      → ltb s.run_slots s.capacity ≡ true
      → Good (elim o [
        | none ↦ (record s { run_slots = s.run_slots + 1 - 1 }, refused 409)
        | some b ↦ (
          start_job now q cases (record s { run_slots = s.run_slots + 1; broker = b }),
          accepted q.run_id,
        )
      ])
  claimed-Good cases none room =
      inl (409, ap (λ t. (t, refused 409)) (given_back (s.run_slots + 1 - 1) (omega arith)))
  claimed-Good cases (some b) room =
      inr (refl, started cases (record s { run_slots = s.run_slots + 1; broker = b }) room refl)

  claim_and_start-Good :
      (cases : ℕ)
      → ltb s.run_slots s.capacity ≡ true
      → Good (claim_and_start now q cases (record s { run_slots = s.run_slots + 1 }))
  unfolding claim_and_start
  claim_and_start-Good cases room =
      let t = record s { run_slots = s.run_slots + 1 } in
      Good-if q.has_session _ (start_job now q cases t, accepted q.run_id)
        (claimed-Good cases (q.claim s.broker) room) (inr (refl, started cases t room refl))

  profile-Good :
      (o : Option ℕ)
      → Good (elim o [
        | none ↦ (s, refused 400)
        | some cases ↦
            if q.has_build_source && not q.has_sandbox
            then (s, refused 501)
            else if q.has_build_source && not q.sandbox_available
            then (s, refused 503)
            else elim (acquire_run_slot s) [
              | none ↦ (s, refused 429)
              | some t ↦ claim_and_start now q cases t
            ]
      ])
  unfolding acquire_run_slot
  profile-Good none = inl (400, refl)
  profile-Good (some cases) =
      Good-if (q.has_build_source && not q.has_sandbox) (s, refused 501) _ (inl (501, refl))
        (Good-if (q.has_build_source && not q.sandbox_available) (s, refused 503) _
          (inl (503, refl))
          elim (Bool-cases (ltb s.run_slots s.capacity)) [
            | inl room ↦ rw room (claim_and_start-Good cases room)
            | inr full ↦ rw full (inl (429, refl))
          ])

  -- A submission that is refused, for want of a source, a profile, a sandbox, a slot or its session,
  -- leaves the server as it was: it holds no slot, and there is no job of it. One that is accepted has
  -- taken one slot of those there are, and its job stands in the store, queued, for the version of the
  -- request, with a context by which it can be cancelled.
  pub submit_all_or_nothing :
      ((code : ℕ) × (submit_run_size now q s ≡ (s, refused code)))
      ⊎ (((submit_run_size now q s).1 ≡ accepted q.run_id) × IsStarted (submit_run_size now q s).0)
  unfolding submit_run_size
  submit_all_or_nothing =
      Good-if (not q.has_build_source && not q.has_harness_url) (s, refused 400) _ (inl (400, refl))
        (profile-Good q.profile)
