-- ===== src/Server/Memory/Slots.antt =====
-- cmd/dittobench-api/main.go, beginMemoryPhase: slots are neither lost nor released twice, and a run
-- that waits is let in.
use dittobench_api.Base.{
  ℕ, zero, suc, ◌+◌, ◌≤◌, ◌<◌, String, Bool, true, false, not, none, some, List, [], ◌∷◌, ◌≡◌, refl,
  sym, subst, inl, inr, arith, ◌&&◌, if◌then◌else◌, Bool-cases, Option-cases,
}
use dittobench_api.Server.Memory.{
  Phases, Holder, Begun, waits, refused, admitted, take_slot, release_slot, open_phase, close_phase,
  begin_memory_phase, end_memory_phase, Event, begins, ends, end_at, admit, next, run_events,
}

abbrev pub is_open : Holder → ℕ
is_open h = if h.local && not h.ended then 1 else 0

abbrev pub count_open : List Holder → ℕ
count_open [] = 0
count_open (h ∷ hs) = is_open h + count_open hs

-- The channel holds a token for each open holder that took one, and `k` more.
abbrev Accounted : ℕ → ℕ → List Holder → Phases → Type 0
Accounted c k hs p = (p.capacity ≡ some c) × (p.slots ≡ count_open hs + k) × (p.slots ≤ c)

close_phase-slots :
    (session_id run_id : String) (p : Phases)
    → ((close_phase session_id run_id p).slots ≡ p.slots)
      × ((close_phase session_id run_id p).capacity ≡ p.capacity)
unfolding close_phase
close_phase-slots session_id run_id p = ground arith

open_phase-slots :
    (session_id run_id : String) (now : ℕ) (p q : Phases)
    → open_phase session_id run_id now p ≡ some q
    → (q.slots ≡ p.slots) × (q.capacity ≡ p.capacity)
unfolding open_phase
open_phase-slots session_id run_id now p q h = ground (arith, h)

end_memory_phase-Accounted :
    (c k : ℕ) (h : Holder) (hs : List Holder) (p : Phases)
    → Accounted c k (h ∷ hs) p
    → let (g, q) = end_memory_phase h p in Accounted c k (g ∷ hs) q
unfolding end_memory_phase release_slot
end_memory_phase-Accounted c k h hs p a =
    ground (arith, a, close_phase-slots h.session_id h.run_id p)

end_at-Accounted :
    (c k i : ℕ) (hs : List Holder) (p : Phases)
    → Accounted c k hs p
    → let (gs, q) = end_at i hs p in Accounted c k gs q
end_at-Accounted c k i [] p a = a
end_at-Accounted c k zero (h ∷ hs) p a = end_memory_phase-Accounted c k h hs p a
end_at-Accounted c k (suc i) (h ∷ hs) p a =
    let inner : Accounted c (k + is_open h) hs p = (a.0, omega (arith, a.1), a.2) in
    let (held, counted, fits) = end_at-Accounted c (k + is_open h) i hs p inner in
    (held, omega (arith, counted), fits)

take_slot-Accounted :
    (c : ℕ) (local : Bool) (hs : List Holder) (p q : Phases)
    → Accounted c 0 hs p
    → take_slot local p ≡ some q
    → Accounted c (if local then 1 else 0) hs q
unfolding take_slot
take_slot-Accounted c local hs p q a h = ground (arith, a, h, Bool-cases local)

abbrev AfterBegin : ℕ → List Holder → Phases × Begun → Type 0
AfterBegin c hs r = Accounted c 0 (admit hs r).0 (admit hs r).1

begin_memory_phase-Accounted :
    (c : ℕ) (session_id run_id : String) (local : Bool) (now : ℕ) (hs : List Holder) (p : Phases)
    → Accounted c 0 hs p
    → AfterBegin c hs (begin_memory_phase session_id run_id local now p)
unfolding begin_memory_phase release_slot
begin_memory_phase-Accounted c session_id run_id local now hs p a =
    elim (Option-cases (take_slot local p)) [
      | inl blocked ↦
          let same : begin_memory_phase session_id run_id local now p ≡ (p, waits) =
            rw (blocked, begin_memory_phase) refl in
          subst (AfterBegin c hs) (sym same) a
      | inr (q, taken) ↦
          let b = take_slot-Accounted c local hs p q a taken in
          elim (Option-cases (open_phase session_id run_id now q)) [
            | inl shut ↦
                let same : begin_memory_phase session_id run_id local now p
                    ≡ (release_slot local q, refused) =
                  rw (taken, shut, begin_memory_phase) refl in
                let back : Accounted c 0 hs (release_slot local q) =
                  ground (arith, b, Bool-cases local) in
                subst (AfterBegin c hs) (sym same) back
            | inr (r, opened) ↦
                let holder : Holder = record {
                  session_id = session_id;
                  run_id = run_id;
                  local = local;
                  ended = false;
                } in
                let same : begin_memory_phase session_id run_id local now p ≡ (r, admitted holder) =
                  rw (taken, opened, begin_memory_phase) refl in
                let held : Accounted c 0 (holder ∷ hs) r =
                  ground (
                    arith,
                    b,
                    open_phase-slots session_id run_id now q r opened,
                    Bool-cases local,
                  ) in
                subst (AfterBegin c hs) (sym same) held
          ]
    ]

run_events-Accounted :
    (c : ℕ) (es : List Event) (hs : List Holder) (p : Phases)
    → Accounted c 0 hs p
    → let (gs, q) = run_events es (hs, p) in Accounted c 0 gs q
run_events-Accounted c [] hs p a = a
run_events-Accounted c (begins session_id run_id local now ∷ es) hs p a =
    let (gs, q) = next (begins session_id run_id local now) (hs, p) in
    run_events-Accounted c es gs q
      (begin_memory_phase-Accounted c session_id run_id local now hs p a)
run_events-Accounted c (ends i ∷ es) hs p a =
    let (gs, q) = end_at i hs p in run_events-Accounted c es gs q (end_at-Accounted c 0 i hs p a)

-- From a server without holders: the channel holds exactly one token for each phase that took one and
-- is not ended, and never more than its capacity, whatever phases begin and end, are refused or are
-- ended again.
slots_accounted :
    (c : ℕ) (es : List Event) (p : Phases)
    → p.capacity ≡ some c
    → p.slots ≡ 0
    → let (gs, q) = run_events es ([], p) in (q.slots ≡ count_open gs) × (count_open gs ≤ c)
slots_accounted c es p held empty =
    let start : Accounted c 0 [] p = (held, omega (arith, empty), omega (arith, empty)) in
    let (still, counted, fits) = run_events-Accounted c es [] p start in
    (omega (arith, counted), omega (arith, counted, fits))

-- Whether the holder at an index holds a slot.
abbrev pub is_open_at : ℕ → List Holder → Bool
is_open_at i [] = false
is_open_at zero (h ∷ hs) = h.local && not h.ended
is_open_at (suc i) (h ∷ hs) = is_open_at i hs

end_memory_phase-releases :
    (c : ℕ) (h : Holder) (p : Phases)
    → p.capacity ≡ some c
    → 1 ≤ p.slots
    → (h.local && not h.ended) ≡ true
    → (suc (end_memory_phase h p).1.slots ≡ p.slots) × ((end_memory_phase h p).1.capacity ≡ some c)
unfolding end_memory_phase release_slot
end_memory_phase-releases c h p held some_taken held_here =
    ground (arith, held, some_taken, held_here, close_phase-slots h.session_id h.run_id p)

end_at-releases :
    (c i : ℕ) (hs : List Holder) (p : Phases)
    → p.capacity ≡ some c
    → 1 ≤ p.slots
    → is_open_at i hs ≡ true
    → (suc (end_at i hs p).1.slots ≡ p.slots) × ((end_at i hs p).1.capacity ≡ some c)
end_at-releases c i [] p held some_taken held_here = absurd (cc held_here)
end_at-releases c zero (h ∷ hs) p held some_taken held_here =
    end_memory_phase-releases c h p held some_taken held_here
end_at-releases c (suc i) (h ∷ hs) p held some_taken held_here =
    end_at-releases c i hs p held some_taken held_here

take_slot-blocked :
    (c : ℕ) (local : Bool) (p : Phases)
    → p.capacity ≡ some c
    → take_slot local p ≡ none
    → c ≤ p.slots
unfolding take_slot
take_slot-blocked c local p held blocked = ground (arith, held, blocked)

take_slot-free :
    (c : ℕ) (local : Bool) (p : Phases)
    → p.capacity ≡ some c
    → p.slots < c
    → (q : Phases) × (take_slot local p ≡ some q)
unfolding take_slot
take_slot-free c true p held free = (record p { slots = p.slots + 1 }, ground (arith, held, free))
take_slot-free c false p held free = (p, ground (arith, held))

-- A phase that waits for a slot is let in: all slots are then held by phases that are not ended, at
-- least one of them, and as soon as any of these ends, the begin goes on.
pub waiting_phase_admitted :
    (c : ℕ) (es : List Event) (p : Phases) (local : Bool)
    → p.capacity ≡ some (suc c)
    → p.slots ≡ 0
    → let (gs, q) = run_events es ([], p) in
      take_slot local q ≡ none
      → (count_open gs ≡ suc c)
        × ((i : ℕ)
            → is_open_at i gs ≡ true
            → (s : Phases) × (take_slot local (end_at i gs q).1 ≡ some s))
waiting_phase_admitted c es p local held empty blocked =
    let (gs, q) = run_events es ([], p) in
    let start : Accounted (suc c) 0 [] p = (held, omega (arith, empty), omega (arith, empty)) in
    let (still, counted, fits) = run_events-Accounted (suc c) es [] p start in
    let full = take_slot-blocked (suc c) local q still blocked in
    (
      omega (arith, counted, fits, full),
      λ i held_here.
          let (freed, kept) =
            end_at-releases (suc c) i gs q still (omega (arith, full)) held_here in
          take_slot-free (suc c) local (end_at i gs q).1 kept (omega (arith, freed, fits)),
    )
