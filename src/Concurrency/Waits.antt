-- ===== src/Concurrency/Waits.antt =====
-- The traversal of a function does not end if a block has a predecessor that cannot be reached.
use parcoach.Base.{
  ◌≡◌, refl, ◌∙◌, ap, ◌⊎◌, inl, inr, ℕ, zero, suc, Bool, true, false, none, List, [], ◌∷◌, ◌==◌,
  arith, Bool-cases, subst, All, All-append, In, In-append,
}
use parcoach.Concurrency.Graph.{
  FunctionGraph, white, grey, black, end, Analysis, set_color, is_black, must_wait, any_open,
  visit_successors, analyze_block, visit_block, analyze_step, run_queue, bfs_loops, new_analysis,
  analyze,
}
use parcoach.Concurrency.Successors.{
  set_color-is_black, visit_successors-Grows, visit_successors-In,
}

any_open-In :
    (s : Analysis) (dead : ℕ) (preds : List ℕ)
    → In dead preds
    → is_black s dead ≡ false
    → any_open s preds ≡ true
unfolding any_open
any_open-In s dead [] m d = absurd m
any_open-In s dead (pred ∷ preds) (inl e) d = let same = ap (is_black s) e in ground arith
any_open-In s dead (pred ∷ preds) (inr m) d =
    let rest = any_open-In s dead preds m d in ground arith

unreached_differs :
    (Reached : ℕ → Type 0) (b dead : ℕ) → Reached b → ¬ Reached dead → dead == b ≡ false
unreached_differs Reached b dead r unreached = elim (Bool-cases (dead == b)) [
  | inl here ↦ let at : b ≡ dead = ground arith in absurd (unreached (subst Reached at r))
  | inr off ↦ off
]

must_wait-In :
    (f : FunctionGraph) (s : Analysis) (bb dead : ℕ)
    → s.lheader_map bb ≡ false
    → In dead (f.predecessors bb)
    → is_black s dead ≡ false
    → must_wait f s bb ≡ true
unfolding must_wait
must_wait-In f s bb dead h m d = rw (h, must_wait) (any_open-In s dead (f.predecessors bb) m d)

module _ (Reached : ℕ → Type 0) where
  module _ (may_alias : ℕ → ℕ → Bool) (f : FunctionGraph) (bb dead : ℕ) where
    -- The block is in the queue, and both it and its predecessor are not black.
    abbrev Stuck : List ℕ → Analysis → Type 0
    Stuck queue s =
        All Reached queue
        × In bb queue
        × (is_black s bb ≡ false)
        × (is_black s dead ≡ false)
        × (s.lheader_map bb ≡ false)

    module _ (closed : (b : ℕ) → Reached b → All Reached (f.successors b))
        (unreached : ¬ Reached dead) (edge : In dead (f.predecessors bb)) where
      visit_block-Stuck :
          (b : ℕ) (queue : List ℕ) (s : Analysis)
          → Reached b
          → Stuck queue s
          → b == bb ≡ false
          → let (queue', t) = visit_block may_alias f (λ c. true) b queue s in Stuck queue' t
      unfolding visit_block analyze_block
      visit_block-Stuck b queue s r (q, m, open', dark, plain) away =
          let t = set_color b grey (analyze_block may_alias f b s) in
          let u = (visit_successors (λ c. true) b (f.successors b) queue t).1 in
          let grows = visit_successors-Grows Reached b (f.successors b) queue t (closed b r) in
          let away' : bb == b ≡ false = ground arith in
          let off = unreached_differs Reached b dead r unreached in
          (
            grows.0 q,
            grows.1 bb m,
            set_color-is_black bb b black u away'
                ∙ grows.2 bb
                ∙ set_color-is_black bb b grey (analyze_block may_alias f b s) away'
                ∙ open',
            set_color-is_black dead b black u off
                ∙ grows.2 dead
                ∙ set_color-is_black dead b grey (analyze_block may_alias f b s) off
                ∙ dark,
            grows.3 bb ∙ plain,
          )

      step-Stuck :
          (b : ℕ) (queue : List ℕ) (s : Analysis)
          → Stuck (b ∷ queue) s
          → let (queue', t) = analyze_step may_alias f b queue s in Stuck queue' t
      unfolding analyze_step
      step-Stuck b queue s (q, m, open', dark, plain) = elim (Bool-cases (is_black s b)) [
        | inl done ↦
            let off : b == bb ≡ false = differs b s done open' in
            let here : In bb queue = ground arith in
            rw (done, analyze_step) (q.1, here, open', dark, plain)
        | inr fresh ↦ elim (Bool-cases (must_wait f s b)) [
          | inl waits ↦
              rw (fresh, waits, analyze_step)
                (
                  All-append Reached queue (b ∷ []) q.1 (q.0, tt),
                  (In-append bb queue (b ∷ [])).1 (swap queue m),
                  open',
                  dark,
                  plain,
                )
          | inr goes ↦
              let off : b == bb ≡ false = elim (Bool-cases (b == bb)) [
                | inl here ↦
                    let at : b ≡ bb = ground arith in
                    let same = ap (must_wait f s) at in
                    let waits = must_wait-In f s bb dead plain edge dark in absurd (ground arith)
                | inr off ↦ off
              ] in
              let here : In bb queue = ground arith in
              rw (fresh, goes, analyze_step)
                (visit_block-Stuck b queue s q.0 (q.1, here, open', dark, plain) off)
        ]
      ]
        where
          differs :
              (b : ℕ) (s : Analysis) → is_black s b ≡ true → is_black s bb ≡ false → b == bb ≡ false
          differs b s done open' = elim (Bool-cases (b == bb)) [
            | inl here ↦
                let at : b ≡ bb = ground arith in
                let same = ap (is_black s) at in absurd (ground arith)
            | inr off ↦ off
          ]

          swap : {b c : ℕ} (bs : List ℕ) → In c (b ∷ bs) → In c bs ⊎ In c (b ∷ [])
          swap bs (inl e) = inr (inl e)
          swap bs (inr m) = inl m

      run_queue-Stuck :
          (fuel : ℕ) (queue : List ℕ) (s : Analysis)
          → Stuck queue s
          → run_queue fuel (analyze_step may_alias f) queue s ≡ none
      unfolding run_queue
      run_queue-Stuck zero [] s h = absurd h.1
      run_queue-Stuck zero (b ∷ queue) s h = refl
      run_queue-Stuck (suc fuel) [] s h = absurd h.1
      run_queue-Stuck (suc fuel) (b ∷ queue) s h =
          let (queue', t) = analyze_step may_alias f b queue s in
          run_queue-Stuck fuel queue' t (step-Stuck b queue s h)

first-Stuck :
    (may_alias : ℕ → ℕ → Bool) (f : FunctionGraph) (bb dead : ℕ) (Reached : ℕ → Type 0)
    → f.entry_block == bb ≡ false
    → In bb (f.successors f.entry_block)
    → Reached f.entry_block
    → ((b : ℕ) → Reached b → All Reached (f.successors b))
    → ¬ Reached dead
    → let (queue, t) = visit_block may_alias f (λ c. true) f.entry_block [] new_analysis in
      Stuck Reached may_alias f bb dead queue t
unfolding visit_block analyze_block
first-Stuck may_alias f bb dead Reached away m r closed unreached =
    let b = f.entry_block in
    let s = analyze_block may_alias f b new_analysis in
    let t = set_color b grey s in
    let u = (visit_successors (λ c. true) b (f.successors b) [] t).1 in
    let grows = visit_successors-Grows Reached b (f.successors b) [] t (closed b r) in
    let away' : bb == b ≡ false = ground arith in
    let off = unreached_differs Reached b dead r unreached in
    let white' : t.color_map bb ≡ white = rw (away', t) refl in
    (
      grows.0 tt,
      visit_successors-In Reached b bb (f.successors b) [] t (closed b r) m white' refl,
      set_color-is_black bb b black u away' ∙ grows.2 bb ∙ set_color-is_black bb b grey s away',
      set_color-is_black dead b black u off ∙ grows.2 dead ∙ set_color-is_black dead b grey s off,
      grows.3 bb,
    )

-- A function without loops whose entry block has no predecessor. If one of the entry's successors
-- has a predecessor that the entry does not reach, the analysis does not end: that predecessor
-- never turns black, and the block goes back to the queue for ever.
pub analyze-unreached :
    (may_alias : ℕ → ℕ → Bool) (f : FunctionGraph) (bb dead : ℕ) (Reached : ℕ → Type 0)
    → f.loops ≡ end
    → f.predecessors f.entry_block ≡ []
    → f.entry_block == bb ≡ false
    → In bb (f.successors f.entry_block)
    → Reached f.entry_block
    → ((b : ℕ) → Reached b → All Reached (f.successors b))
    → ¬ Reached dead
    → In dead (f.predecessors bb)
    → (fuel : ℕ) → analyze fuel may_alias f ≡ none
unfolding analyze bfs_loops run_queue must_wait any_open analyze_step
analyze-unreached may_alias f bb dead Reached l e off m r closed u edge zero =
    rw (ap (λ ls. bfs_loops zero may_alias f ls new_analysis) l, analyze) refl
analyze-unreached may_alias f bb dead Reached l e off m r closed u edge (suc fuel) =
    let b = f.entry_block in
    let (queue, t) = visit_block may_alias f (λ c. true) b [] new_analysis in
    let goes : must_wait f new_analysis b ≡ false = rw (e, must_wait) refl in
    let first : analyze_step may_alias f b [] new_analysis ≡ (queue, t) =
      rw (goes, analyze_step) refl in
    let stuck =
      run_queue-Stuck Reached may_alias f bb dead closed u edge fuel queue t
        (first-Stuck may_alias f bb dead Reached off m r closed u) in
    let loops = ap (λ ls. bfs_loops (suc fuel) may_alias f ls new_analysis) l in
    rw (loops, first, stuck, analyze) refl
