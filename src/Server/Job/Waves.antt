-- ===== src/Server/Job/Waves.antt =====
-- cmd/dittobench-api/main.go, runSizeJob: each memory case runs once, after its wave.
use dittobench_api.Base.{
  ℕ, zero, suc, ◌<◌, none, some, List, [], ◌∷◌, ◌++◌, map, ◌≡◌, refl, ap, subst, ◌∙◌, arith,
  Option-cases, inl, inr, length, get_elem?,
}
use mathlib.Core.List.{Perm, perm_middle, append-nil, map-append, append_assoc}
use mathlib.Core.List.Perm
use dittobench_api.Server.Job.Cases.{
  Staged, Wave, push_at, wave_of, empty_table, assign_cases, cases_by_wave,
}

module _ {Memory Case : Type 0} (run : Wave → Staged Memory → Case) where
  -- The results of all waves, in order.
  abbrev pub run_all : List Wave → List (List (Staged Memory)) → List Case
  run_all [] table = []
  run_all (wave ∷ waves) [] = []
  run_all (wave ∷ waves) (cases ∷ table) = map (run wave) cases ++ run_all waves table

  push_run :
      (i : ℕ) (c : Staged Memory) (waves : List Wave) (table next : List (List (Staged Memory)))
      (wave : Wave)
      → push_at i c table ≡ some next
      → get_elem? waves i ≡ some wave
      → Perm (run_all waves next) (run wave c ∷ run_all waves table)
  unfolding push_at
  push_run i c waves [] next wave h e = cc
  push_run zero c [] (xs ∷ table) next wave h e = cc
  push_run zero c (w ∷ waves) (xs ∷ table) next wave h e =
      let n : ((xs ++ c ∷ []) ∷ table) ≡ next = cc in
      let same : w ≡ wave = cc in
      let goal : Perm (map (run w) (xs ++ c ∷ []) ++ run_all waves table)
          (run w c ∷ (map (run w) xs ++ run_all waves table)) =
        rw (map-append (run w) xs (c ∷ [])) (
          rw (append_assoc (map (run w) xs) (run w c ∷ []) (run_all waves table))
            (perm_middle (map (run w) xs) (run_all waves table))) in
      subst
        (λ t. Perm (run_all (w ∷ waves) t) (run wave c ∷ (map (run w) xs ++ run_all waves table))) n
        (subst
          (λ v.
            Perm (run_all (w ∷ waves) ((xs ++ c ∷ []) ∷ table))
              (run v c ∷ (map (run w) xs ++ run_all waves table)))
          same goal)
  push_run (suc i) c [] (xs ∷ table) next wave h e = cc
  push_run (suc i) c (w ∷ waves) (xs ∷ table) next wave h e =
      elim (Option-cases (push_at i c table)) [
        | inl full ↦ absurd (ground (arith, h, full))
        | inr (rest, pushed) ↦
            let n : (xs ∷ rest) ≡ next = ground (arith, h, pushed) in
            let ih = push_run i c waves table rest wave pushed e in
            subst
              (λ t.
                Perm (run_all (w ∷ waves) t) (run wave c ∷ (map (run w) xs ++ run_all waves table)))
              n
              (Perm.trans (Perm.append (Perm.refl (map (run w) xs)) ih)
                (perm_middle (map (run w) xs) (run_all waves table)))
      ]

  push_found :
      (i : ℕ) (c : Staged Memory) (table : List (List (Staged Memory)))
      → i < length table
      → (next : List (List (Staged Memory))) × (push_at i c table ≡ some next)
        × (length next ≡ length table)
  unfolding push_at
  push_found i c [] h = absurd (omega arith)
  push_found zero c (xs ∷ table) h = ((xs ++ c ∷ []) ∷ table, refl, refl)
  push_found (suc i) c (xs ∷ table) h =
      let (rest, pushed, same) = push_found i c table (omega arith) in
      (xs ∷ rest, ground (arith, pushed), omega (arith, same))

  wave_found :
      (i : ℕ) (waves : List Wave) → i < length waves → (w : Wave) × (get_elem? waves i ≡ some w)
  wave_found i [] h = absurd (omega arith)
  wave_found zero (w ∷ waves) h = (w, refl)
  wave_found (suc i) (w ∷ waves) h = wave_found i waves (omega arith)

  run_nothing : (waves : List Wave) (n : ℕ) → run_all waves (empty_table n) ≡ []
  run_nothing [] n = refl
  run_nothing (w ∷ waves) zero = refl
  run_nothing (w ∷ waves) (suc n) = run_nothing waves n

wave_of-lt : {Memory : Type 0} (n : ℕ) (c : Staged Memory) → 0 < n → wave_of n c < n
unfolding wave_of
wave_of-lt n c h = ground arith

length-empty_table : (Memory : Type 0) (n : ℕ) → length (empty_table {A = Staged Memory} n) ≡ n
length-empty_table Memory zero = refl
length-empty_table Memory (suc n) = omega (arith, length-empty_table Memory n)

-- The wave of a number, or the first.
abbrev pub wave_at : Wave → List Wave → ℕ → Wave
wave_at first waves i = elim (get_elem? waves i) [ none ↦ first | some wave ↦ wave ]

module _ {Memory Case : Type 0} (run : Wave → Staged Memory → Case) (first : Wave)
    (waves : List Wave) (n : ℕ) (some_wave : 0 < n) (count : length waves ≡ n) where
  assign_found :
      (cs : List (Staged Memory)) (table : List (List (Staged Memory)))
      → length table ≡ n
      → (next : List (List (Staged Memory))) × (assign_cases n cs table ≡ some next)
        × (length next ≡ n)
        × Perm
            (run_all run waves next)
            (map (λ c. run (wave_at first waves (wave_of n c)) c) cs ++ run_all run waves table)
  unfolding assign_cases
  assign_found [] table h = (table, refl, h, Perm.refl (run_all run waves table))
  assign_found (c ∷ cs) table h =
      let low = wave_of-lt n c some_wave in
      let (pushed, e, same) = push_found run (wave_of n c) c table (omega (arith, low)) in
      let (w, found) = wave_found run (wave_of n c) waves (omega (arith, low)) in
      let (next, assigned, long, rest) = assign_found cs pushed (omega (arith, same)) in
      let one = push_run run (wave_of n c) c waves table pushed w e found in
      let at : w ≡ wave_at first waves (wave_of n c) = ground (arith, found) in
      let here : Perm (run_all run waves pushed)
          (run (wave_at first waves (wave_of n c)) c ∷ run_all run waves table) =
        subst (λ v. Perm (run_all run waves pushed) (run v c ∷ run_all run waves table)) at one in
      let others = map (λ d. run (wave_at first waves (wave_of n d)) d) cs in
      (
        next,
        ground (arith, e, assigned),
        long,
        Perm.trans rest (
            Perm.trans (Perm.append (Perm.refl others) here)
              (perm_middle others (run_all run waves table))),
      )

  pub cases_found :
      (cs : List (Staged Memory))
      → (table : List (List (Staged Memory))) × (cases_by_wave n cs ≡ some table)
        × Perm (run_all run waves table) (map (λ c. run (wave_at first waves (wave_of n c)) c) cs)
  unfolding cases_by_wave
  cases_found cs =
      let (table, assigned, long, p) =
        assign_found cs (empty_table n) (length-empty_table Memory n) in
      let ran = map (λ c. run (wave_at first waves (wave_of n c)) c) cs in
      let nothing : ran ++ run_all run waves (empty_table n) ≡ ran =
        ap (λ t. ran ++ t) (run_nothing run waves n) ∙ append-nil ran in
      (table, assigned, subst (Perm (run_all run waves table)) nothing p)
