-- ===== src/Concurrency/Functions.antt =====
-- The traversal of a function: whatever the loops and the order of the queue, each report is a
-- conflict between two instructions of the function.
use parcoach.Base.{
  ◌≡◌, refl, inl, inr, ℕ, zero, suc, Bool, true, Option, none, some, List, [], ◌∷◌, ◌||◌, ◌&&◌,
  ◌==◌, not, arith, Bool-cases, Option-cases, subst, All, In,
}
use parcoach.Concurrency.{Instruction, AccessMap, Reports, insert_access}
use parcoach.Concurrency.Reports.{IsConflict, IsKept, insert_access-IsKept, analyze_bb-IsSound}
use parcoach.Concurrency.Graph.{
  Loop, loop, Loops, end, child, FunctionGraph, white, grey, Analysis, set_at, set_color, is_black,
  is_white, insert_all, has, must_wait, must_wait_loop, visit_successor, visit_successors,
  analyze_block, visit_block, bfs_loop_step, analyze_step, run_queue, leave_loop, bfs_loop,
  bfs_loops, new_analysis, analyze,
}

-- An instruction of one of the blocks.
abbrev pub IsOf : FunctionGraph → Instruction → Type 0
IsOf f i = (b : ℕ) × In i (f.instructions b)

All-own {κ} : {A : Type 0} (P : A → Type κ) (xs : List A) → ((x : A) → In x xs → P x) → All P xs
All-own P [] h = tt
All-own P (x ∷ xs) h = (h x (inl refl), All-own P xs (λ y m. h y (inr m)))

module _ (may_alias : ℕ → ℕ → Bool) (f : FunctionGraph) where
  abbrev IsSafe : Analysis → Type 0
  IsSafe s =
      ((b : ℕ) → All (IsKept may_alias (IsOf f)) (s.bb_to_mem_access b))
      × All (IsConflict may_alias (IsOf f)) s.results

  insert_all-IsKept :
      (m n : AccessMap)
      → All (IsKept may_alias (IsOf f)) m
      → All (IsKept may_alias (IsOf f)) n
      → All (IsKept may_alias (IsOf f)) (insert_all m n)
  unfolding insert_all
  insert_all-IsKept [] n h k = k
  insert_all-IsKept ((x, i) ∷ m) n h k =
      insert_all-IsKept m (insert_access x i n) h.1
        (insert_access-IsKept may_alias (IsOf f) x i n h.0 k)

  set_at-IsKept :
      (accesses : ℕ → AccessMap) (bb : ℕ) (m : AccessMap)
      → ((b : ℕ) → All (IsKept may_alias (IsOf f)) (accesses b))
      → All (IsKept may_alias (IsOf f)) m
      → (b : ℕ) → All (IsKept may_alias (IsOf f)) (set_at accesses bb m b)
  set_at-IsKept accesses bb m h k b = elim (Bool-cases (b == bb)) [
    | inl here ↦ rw here k
    | inr away ↦ rw away (h b)
  ]

  visit_successor-IsSafe :
      (contains : ℕ → Bool) (bb succ : ℕ) (queue : List ℕ) (s : Analysis)
      → IsSafe s
      → IsSafe (visit_successor contains bb succ queue s).1
  unfolding visit_successor
  visit_successor-IsSafe contains bb succ queue s h =
      let kept =
        set_at-IsKept s.bb_to_mem_access succ _ h.0 (
          insert_all-IsKept (s.bb_to_mem_access bb) (s.bb_to_mem_access succ) (h.0 bb)
            (h.0 succ)) in
      elim (Bool-cases (not (contains succ) || s.llatch_map bb && s.lheader_map succ)) [
        | inl skip ↦ rw (skip, visit_successor) h
        | inr taken ↦ elim (Bool-cases (is_white s succ)) [
          | inl new ↦ rw (taken, new, visit_successor) (kept, h.1)
          | inr seen ↦ rw (taken, seen, visit_successor) (kept, h.1)
        ]
      ]

  visit_successors-IsSafe :
      (contains : ℕ → Bool) (bb : ℕ) (succs queue : List ℕ) (s : Analysis)
      → IsSafe s
      → IsSafe (visit_successors contains bb succs queue s).1
  unfolding visit_successors
  visit_successors-IsSafe contains bb [] queue s h = h
  visit_successors-IsSafe contains bb (succ ∷ succs) queue s h =
      let (queue', t) = visit_successor contains bb succ queue s in
      visit_successors-IsSafe contains bb succs queue' t
        (visit_successor-IsSafe contains bb succ queue s h)

  visit_block-IsSafe :
      (contains : ℕ → Bool) (bb : ℕ) (queue : List ℕ) (s : Analysis)
      → IsSafe s
      → IsSafe (visit_block may_alias f contains bb queue s).1
  unfolding visit_block analyze_block
  visit_block-IsSafe contains bb queue s h =
      let known = All-own (IsOf f) (f.instructions bb) (λ i m. (bb, m)) in
      let sound =
        analyze_bb-IsSound may_alias (IsOf f) (f.instructions bb)
          (record { accesses = s.bb_to_mem_access bb; results = s.results }) known (h.0 bb, h.1) in
      visit_successors-IsSafe contains bb (f.successors bb) queue
        (set_color bb grey (analyze_block may_alias f bb s))
        (set_at-IsKept s.bb_to_mem_access bb _ h.0 sound.0, sound.1)

  abbrev Keeps : (ℕ → List ℕ → Analysis → List ℕ × Analysis) → Type 0
  Keeps step = (bb : ℕ) (queue : List ℕ) (s : Analysis) → IsSafe s → IsSafe (step bb queue s).1

  bfs_loop_step-Keeps :
      (header : ℕ) (blocks : List ℕ) → Keeps (bfs_loop_step may_alias f header blocks)
  unfolding bfs_loop_step
  bfs_loop_step-Keeps header blocks bb queue s h =
      let visited = visit_block-IsSafe (λ b. has b blocks) bb queue s h in
      elim (Bool-cases (is_black s bb)) [
        | inl done ↦ rw done h
        | inr open' ↦ elim (Bool-cases (must_wait_loop f blocks s bb && not (bb == header))) [
          | inl waits ↦ rw (open', waits) h
          | inr goes ↦ rw (open', goes) visited
        ]
      ]

  analyze_step-Keeps : Keeps (analyze_step may_alias f)
  unfolding analyze_step
  analyze_step-Keeps bb queue s h =
      let visited = visit_block-IsSafe (λ b. true) bb queue s h in
      elim (Bool-cases (is_black s bb)) [
        | inl done ↦ rw done h
        | inr open' ↦ elim (Bool-cases (must_wait f s bb)) [
          | inl waits ↦ rw (open', waits) h
          | inr goes ↦ rw (open', goes) visited
        ]
      ]

  run_queue-IsSafe :
      (fuel : ℕ) (step : ℕ → List ℕ → Analysis → List ℕ × Analysis) (queue : List ℕ)
      (s t : Analysis)
      → Keeps step
      → IsSafe s
      → run_queue fuel step queue s ≡ some t
      → IsSafe t
  unfolding run_queue
  run_queue-IsSafe zero step [] s t k h e = let same : s ≡ t = ground arith in subst IsSafe same h
  run_queue-IsSafe zero step (bb ∷ queue) s t k h e = absurd (ground arith)
  run_queue-IsSafe (suc fuel) step [] s t k h e =
      let same : s ≡ t = ground arith in subst IsSafe same h
  run_queue-IsSafe (suc fuel) step (bb ∷ queue) s t k h e =
      run_queue-IsSafe fuel step (step bb queue s).0 (step bb queue s).1 t k (k bb queue s h) e

  leave_loop-IsSafe :
      (latch : Option ℕ) (blocks : List ℕ) (s : Analysis)
      → IsSafe s
      → IsSafe (leave_loop latch blocks s)
  unfolding leave_loop
  leave_loop-IsSafe none [] s h = h
  leave_loop-IsSafe (some b) [] s h = h
  leave_loop-IsSafe latch (b ∷ bs) s h = leave_loop-IsSafe latch bs (set_color b white s) h

  mutual
    unfolding bfs_loop

    bfs_loop-IsSafe :
        (fuel : ℕ) (l : Loop) (s t : Analysis)
        → IsSafe s
        → bfs_loop fuel may_alias f l s ≡ some t
        → IsSafe t
    bfs_loop-IsSafe fuel (loop header latch blocks children) s t h e =
        elim (Option-cases (bfs_loops fuel may_alias f children s)) [
          | inl stuck ↦ absurd (ground arith)
          | inr (u, inner) ↦
              let v : Analysis = record u { lheader_map = set_at u.lheader_map header true } in
              let step = bfs_loop_step may_alias f header blocks in
              elim (Option-cases (run_queue fuel step (header ∷ []) v)) [
                | inl stuck ↦ absurd (ground arith)
                | inr (w, runs) ↦
                    let safe = bfs_loops-IsSafe fuel children s u h inner in
                    let after =
                      run_queue-IsSafe fuel step (header ∷ []) v w
                        (bfs_loop_step-Keeps header blocks) safe runs in
                    let end' : leave_loop latch blocks w ≡ t = ground arith in
                    subst IsSafe end' (leave_loop-IsSafe latch blocks w after)
              ]
        ]

    bfs_loops-IsSafe :
        (fuel : ℕ) (ls : Loops) (s t : Analysis)
        → IsSafe s
        → bfs_loops fuel may_alias f ls s ≡ some t
        → IsSafe t
    bfs_loops-IsSafe fuel end s t h e = let same : s ≡ t = ground arith in subst IsSafe same h
    bfs_loops-IsSafe fuel (child l ls) s t h e =
        elim (Option-cases (bfs_loop fuel may_alias f l s)) [
          | inl stuck ↦ absurd (ground arith)
          | inr (u, first) ↦
              bfs_loops-IsSafe fuel ls u t (bfs_loop-IsSafe fuel l s u h first) (ground arith)
        ]

  -- A report of the analysis pairs two instructions of the function, of which the second is a call
  -- of put or get; both access memory that is the same or may alias, and one of them writes it.
  pub analyze-IsConflict :
      (fuel : ℕ) (rs : Reports)
      → analyze fuel may_alias f ≡ some rs
      → All (IsConflict may_alias (IsOf f)) rs
  unfolding analyze
  analyze-IsConflict fuel rs e =
      elim (Option-cases (bfs_loops fuel may_alias f f.loops new_analysis)) [
        | inl stuck ↦ absurd (ground arith)
        | inr (s, loops) ↦
            let safe = bfs_loops-IsSafe fuel f.loops new_analysis s (λ b. tt, tt) loops in
            elim (Option-cases (run_queue fuel (analyze_step may_alias f) (f.entry_block ∷ []) s)) [
              | inl stuck ↦ absurd (ground arith)
              | inr (t, runs) ↦
                  let after =
                    run_queue-IsSafe fuel (analyze_step may_alias f) (f.entry_block ∷ []) s t
                      analyze_step-Keeps safe runs in
                  let same : t.results ≡ rs = ground arith in
                  subst (All (IsConflict may_alias (IsOf f))) same after.1
            ]
      ]
