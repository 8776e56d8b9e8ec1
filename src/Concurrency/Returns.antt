-- ===== src/Concurrency/Returns.antt =====
-- The analysis of a function without loops returns, with true reports only.
use parcoach.Base.{
  ◌≡◌, ◌≢◌, refl, sym, ap, ◌∙◌, inl, inr, ℕ, zero, suc, ◌≤◌, ◌<◌, Bool, true, false, some, List, [],
  ◌∷◌, ◌++◌, arith, Bool-cases, subst, In, length, All,
}
use parcoach.Static.Lists.Splits.{append_assoc}
use parcoach.Static.Flow.Remaining.{In-split}
use parcoach.Concurrency.{Reports}
use parcoach.Concurrency.Reports.{IsConflict}
use parcoach.Concurrency.Functions.{IsOf, analyze-IsConflict}
use parcoach.Concurrency.Graph.{
  FunctionGraph, Loops, black, Analysis, is_black, must_wait, visit_block, analyze_step, run_queue,
  bfs_loops, new_analysis, analyze,
}
use parcoach.Concurrency.Ends.{IsAcyclic, Color-cases, open_blocks}
use parcoach.Concurrency.Ready.{IsFlowing, ready_from, dropped, rotated, visit_block-IsVisit}

module _ (may_alias : ℕ → ℕ → Bool) (f : FunctionGraph) (acyclic : IsAcyclic f) where
  abbrev Flows : List ℕ → Analysis → Type 0
  Flows queue s = IsFlowing may_alias f acyclic queue s

  -- The loop returns with enough fuel.
  abbrev Ends : List ℕ → Analysis → Type 0
  Ends queue s =
      (n : ℕ) × (t : Analysis) × ((fuel : ℕ)
        → n ≤ fuel
        → run_queue fuel (analyze_step may_alias f) queue s ≡ some t)

  step-Ends :
      (bb : ℕ) (rest queue : List ℕ) (s t : Analysis)
      → analyze_step may_alias f bb rest s ≡ (queue, t)
      → Ends queue t
      → Ends (bb ∷ rest) s
  unfolding run_queue
  step-Ends bb rest queue s t e (n, u, runs) = (suc n, u, round)
    where
      round :
          (fuel : ℕ)
          → suc n ≤ fuel
          → run_queue fuel (analyze_step may_alias f) (bb ∷ rest) s ≡ some u
      round zero le = absurd (omega arith)
      round (suc fuel) le =
          ap (λ (x : List ℕ × Analysis). run_queue fuel (analyze_step may_alias f) x.0 x.1) e
          ∙ runs fuel (omega arith)

  drop-Ends :
      (bb : ℕ) (rest : List ℕ) (s : Analysis)
      → s.color_map bb ≡ black
      → Ends rest s
      → Ends (bb ∷ rest) s
  unfolding analyze_step
  drop-Ends bb rest s e h = step-Ends bb rest rest s s (ground arith) h

  going_on :
      (bb : ℕ) (rest : List ℕ) (s : Analysis) → s.color_map bb ≢ black → is_black s bb ≡ false
  going_on bb rest s ne = elim (Color-cases (s.color_map bb)) [
    | inl k ↦ rw (k, is_black) refl
    | inr (inl k) ↦ rw (k, is_black) refl
    | inr (inr k) ↦ absurd (ne k)
  ]

  wait-Ends :
      (bb : ℕ) (rest : List ℕ) (s : Analysis)
      → s.color_map bb ≢ black
      → must_wait f s bb ≡ true
      → Ends (rest ++ bb ∷ []) s
      → Ends (bb ∷ rest) s
  unfolding analyze_step
  wait-Ends bb rest s ne waits h =
      let open' = going_on bb rest s ne in
      step-Ends bb rest (rest ++ bb ∷ []) s s (rw (open', waits, analyze_step) refl) h

  -- What is left to show behind a visit.
  abbrev Next : Analysis → Type 0
  Next s =
      (queue : List ℕ) (t : Analysis)
      → Flows queue t
      → open_blocks t.color_map f.blocks < open_blocks s.color_map f.blocks
      → Ends queue t

  visit-Ends :
      (bb : ℕ) (rest : List ℕ) (s : Analysis)
      → s.color_map bb ≢ black
      → must_wait f s bb ≡ false
      → Flows (bb ∷ rest) s
      → Next s
      → Ends (bb ∷ rest) s
  unfolding analyze_step
  visit-Ends bb rest s ne free h next =
      let v = visit_block-IsVisit may_alias f acyclic bb rest s ne h in
      let open' = going_on bb rest s ne in
      step-Ends bb rest (visit_block may_alias f (λ b. true) bb rest s).0 s
        (visit_block may_alias f (λ b. true) bb rest s).1 (rw (open', free, analyze_step) refl)
        (next _ _ v.flowing v.fewer)

  -- Blocks that wait go to the end, and black ones go, until one need not wait.
  rotate :
      (pre : List ℕ) (c : ℕ) (post : List ℕ) (s : Analysis)
      → s.color_map c ≢ black
      → must_wait f s c ≡ false
      → Flows (pre ++ c ∷ post) s
      → Next s
      → Ends (pre ++ c ∷ post) s
  rotate [] c post s ne free h next = visit-Ends c post s ne free h next
  rotate (b ∷ pre) c post s ne free h next =
      let rest = pre ++ c ∷ post in
      let going : s.color_map b ≢ black → Ends (b ∷ rest) s = λ open'.
        elim (Bool-cases (must_wait f s b)) [
          | inr free' ↦ visit-Ends b rest s open' free' h next
          | inl waits ↦
              let turned = append_assoc pre (c ∷ post) (b ∷ []) in
              let h' = subst (λ q. Flows q s) turned (rotated may_alias f acyclic b rest s h) in
              wait-Ends b rest s open' waits (
                subst (λ q. Ends q s) (sym turned)
                  (rotate pre c (post ++ b ∷ []) s ne free h' next))
        ] in
      elim (Color-cases (s.color_map b)) [
        | inl k ↦ going (λ k'. cc (k, k'))
        | inr (inl k) ↦ going (λ k'. cc (k, k'))
        | inr (inr k) ↦
            drop-Ends b rest s k
              (rotate pre c post s ne free (dropped may_alias f acyclic b rest s k h) next)
      ]

  ends :
      (n m : ℕ) (queue : List ℕ) (s : Analysis)
      → open_blocks s.color_map f.blocks < n
      → length queue < m
      → Flows queue s
      → Ends queue s
  unfolding run_queue
  ends zero m queue s lt lt' h = absurd (omega arith)
  ends (suc n) zero queue s lt lt' h = absurd (omega arith)
  ends (suc n) (suc m) [] s lt lt' h = (0, s, stop)
    where
      stop : (fuel : ℕ) → 0 ≤ fuel → run_queue fuel (analyze_step may_alias f) [] s ≡ some s
      stop zero le = refl
      stop (suc fuel) le = refl
  ends (suc n) (suc m) (bb ∷ rest) s lt lt' h =
      let next : Next s =
        λ queue t h' less. ends n (suc (length queue)) queue t (omega arith) (omega arith) h' in
      let going : s.color_map bb ≢ black → Ends (bb ∷ rest) s = λ open'.
        let (c, i, ne, free) =
          ready_from may_alias f acyclic (suc (acyclic.rank bb)) bb (bb ∷ rest) s (omega arith) h
            (h.inside bb (inl refl)) open' in
        let (pre, post, place) = In-split c (bb ∷ rest) i in
        subst (λ q. Ends q s) (sym place)
          (rotate pre c post s ne free (subst (λ q. Flows q s) place h) next) in
      elim (Color-cases (s.color_map bb)) [
        | inl k ↦ going (λ k'. cc (k, k'))
        | inr (inl k) ↦ going (λ k'. cc (k, k'))
        | inr (inr k) ↦
            drop-Ends bb rest s k
              (ends (suc n) m rest s lt (omega arith) (dropped may_alias f acyclic bb rest s k h))
      ]

  start-IsFlowing : Flows (f.entry_block ∷ []) new_analysis
  start-IsFlowing = record {
    headers = λ b. refl;
    latches = λ b. refl;
    queued = λ b e. absurd (cc e);
    ordered = λ b c e m. absurd (cc e);
    entry = inr (inl refl);
    inside = λ b m. elim m [
      | inl same ↦ subst (λ x. In x f.blocks) (sym same) acyclic.entered
      | inr none_left ↦ absurd none_left
    ];
  }

  analyze_value :
      (fuel : ℕ) (t : Analysis)
      → bfs_loops fuel may_alias f f.loops new_analysis ≡ some new_analysis
      → run_queue fuel (analyze_step may_alias f) (f.entry_block ∷ []) new_analysis ≡ some t
      → analyze fuel may_alias f ≡ some t.results
  unfolding analyze
  analyze_value fuel t no_loops runs = rw (no_loops, runs, analyze) refl

  -- Let a function have no loops, and every block of it but the entry a predecessor among its blocks.
  -- Then the analysis returns, however much fuel more it is given, and each of its reports pairs two
  -- instructions of the function, of which the second is a call of put or get; both access memory that
  -- is the same or may alias, and one of them writes it.
  pub analyze-returns :
      (n : ℕ) × (rs : Reports) × ((fuel : ℕ) → n ≤ fuel → analyze fuel may_alias f ≡ some rs)
      × All (IsConflict may_alias (IsOf f)) rs
  unfolding bfs_loops
  analyze-returns =
      let (n, t, runs) =
        ends (suc (open_blocks new_analysis.color_map f.blocks)) 2 (f.entry_block ∷ []) new_analysis
          (omega arith) (omega arith) start-IsFlowing in
      let value : (fuel : ℕ) → n ≤ fuel → analyze fuel may_alias f ≡ some t.results = λ fuel le.
        let no_loops : bfs_loops fuel may_alias f f.loops new_analysis ≡ some new_analysis =
          ap (λ (ls : Loops). bfs_loops fuel may_alias f ls new_analysis) acyclic.no_loop in
        analyze_value fuel t no_loops (runs fuel le) in
      (n, t.results, value, analyze-IsConflict may_alias f n t.results (value n (omega arith)))
