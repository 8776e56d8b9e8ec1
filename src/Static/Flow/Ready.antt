-- ===== src/Static/Flow/Ready.antt =====
-- One round of the traversal of a function without loops: some block is ready, and its visit leaves
-- less to do.
use parcoach.Base.{
  ℕ, zero, suc, ◌≤◌, ◌<◌, ◌≡◌, ◌≢◌, ◌⊎◌, inl, inr, refl, sym, ap, ◌∙◌, subst, Bool, Bool-cases,
  true, false, Option, none, some, List, [], ◌∷◌, ◌++◌, length, In, ◌==◌, ==_iff, if_true, if_false,
  arith,
}
use parcoach.Static.Collectives.{Text, Value}
use parcoach.Static.Lists.{CollectiveList, CollLists, Program, create_from_bb}
use parcoach.Static.Flow.{
  Cfg, LoopAggregationInfo, NodeState, unvisited, visited, Visit, set_list, set_state, enqueue_all,
  all_done, visit_step, visit_loop, visit_bb, to_enqueue,
}
use parcoach.Static.Flow.Queue.{State-cases, all_done-In, enqueue_all-IsEnqueued}
use parcoach.Static.Flow.Rounds.{IsOrdered, after_visit}
use parcoach.Static.Flow.Remaining.{remaining, remaining_le, remaining_lt, not_done, In-all_done}

-- A function without loops: no block is a header of a loop or behind one, the rank falls from a block
-- to its successors, the edges stay within the function and are the same from both ends, and what the
-- calls of a block add does not depend on the lists of the function's own blocks: they do not call it back.
pub record IsLoopFree (p : Program) (cfg : Cfg) (res : LoopAggregationInfo) (comm : Option Value)
    : Type 0 where
  pub no_header : (b : ℕ) → res.loop_header_to_successors b ≡ none
  pub no_exit : (b : ℕ) → res.loop_successor_to_loop_header b ≡ none
  pub linked : (b c : ℕ) → In c (cfg.successors b) → In b (cfg.predecessors c)
  pub back : (b c : ℕ) → In b (cfg.predecessors c) → In c (cfg.successors b)
  pub no_recursion :
      (b bb : ℕ) (l : CollectiveList) (navs : Bool) (lists : CollLists)
      → In bb cfg.blocks
      → create_from_bb p (set_list lists bb l) navs (cfg.calls b) comm
        ≡ create_from_bb p lists navs (cfg.calls b) comm
  pub rank : ℕ → ℕ
  pub falls : (b c : ℕ) → In c (cfg.successors b) → rank c < rank b
  pub above : (b c : ℕ) → In b cfg.blocks → In c (cfg.predecessors b) → In c cfg.blocks
  pub below : (b c : ℕ) → In b cfg.blocks → In c (cfg.successors b) → In c cfg.blocks

module _ (print_operand : ℕ → Text) (p : Program) (cfg : Cfg) (res : LoopAggregationInfo)
    (comm : Option Value) (free : IsLoopFree p cfg res comm) (lists₀ : CollLists) where
  open free use {no_header, no_exit, linked, back, no_recursion, rank, falls, above, below}

  abbrev pub Ordered : Visit → Type 0
  Ordered v = IsOrdered print_operand p cfg res comm no_header no_exit linked no_recursion v

  -- The queue has blocks of the function that have been pushed before, and what the calls of a block
  -- add has not changed.
  abbrev pub IsTight : Visit → Type 0
  IsTight v =
      ((b : ℕ) → In b v.queue → In b cfg.blocks × (v.states b ≢ unvisited))
      × ((b : ℕ) (navs : Bool)
          → create_from_bb p v.lists navs (cfg.calls b) comm
            ≡ create_from_bb p lists₀ navs (cfg.calls b) comm)

  abbrev pub step : ℕ → List ℕ → Visit → Visit
  step bb queue v = visit_step print_operand p cfg res comm bb queue v

  -- The loop returns with enough fuel.
  abbrev pub Ends : Visit → Type 0
  Ends v =
      (n : ℕ) × (w : Visit) × ((fuel : ℕ)
        → n ≤ fuel
        → visit_loop fuel print_operand p cfg res comm v ≡ some w)
      × Ordered w
      × IsTight w
      × (w.queue ≡ [])

  ready_below :
      (n b : ℕ) (v : Visit)
      → rank b < n
      → Ordered v
      → In b cfg.blocks
      → v.states b ≢ visited
      → (c : ℕ) × In c v.queue × (all_done v (cfg.successors c) ≡ true)
  ready_below zero b v lt o m ne = absurd (omega arith)
  ready_below (suc n) b v lt o m ne = elim (Bool-cases (all_done v (cfg.successors b))) [
    | inr waits ↦
        let (c, m', ne') = not_done v (cfg.successors b) waits in
        let f = falls b c m' in ready_below n c v (omega arith) o (below b c m m') ne'
    | inl done ↦ elim (State-cases (v.states b)) [
      | inr (inr e) ↦ absurd (ne e)
      | inr (inl e) ↦ (b, o.queued b e, done)
      | inl e ↦ absurd (untouched (cfg.successors b) refl done e)
    ]
  ]
    where
      untouched :
          (succs : List ℕ)
          → cfg.successors b ≡ succs
          → all_done v (cfg.successors b) ≡ true
          → v.states b ≡ unvisited
          → ⊥
      untouched [] e done new = o.exits b m e new
      untouched (c ∷ cs) e done new =
          let m' = subst (In c) (sym e) (inl refl) in
          o.reached b c (all_done-In v (cfg.successors b) c done m') m' new

  -- The front is done already, or some entry is ready.
  pub ready :
      (bb : ℕ) (queue : List ℕ) (v : Visit)
      → v.queue ≡ bb ∷ queue
      → Ordered v
      → IsTight v
      → (c : ℕ) × In c v.queue × (all_done v (cfg.successors c) ≡ true)
  ready bb queue v e o t =
      let front = subst (In bb) (sym e) (inl refl) in
      elim (State-cases (v.states bb)) [
        | inl s ↦ ready_below (suc (rank bb)) bb v (omega arith) o (t.0 bb front).0 (λ d. cc (s, d))
        | inr (inl s) ↦
            ready_below (suc (rank bb)) bb v (omega arith) o (t.0 bb front).0 (λ d. cc (s, d))
        | inr (inr s) ↦ (bb, front, In-all_done v (cfg.successors bb) (λ c m. o.ordered bb c s m))
      ]

  pub step_done :
      (bb : ℕ) (queue : List ℕ) (v : Visit)
      → all_done v (cfg.successors bb) ≡ true
      → step bb queue v
        ≡ enqueue_all (cfg.predecessors bb) (
            after_visit print_operand p cfg res comm no_header no_exit linked no_recursion bb queue
              v)
  unfolding visit_step visit_bb to_enqueue
  step_done bb queue v done = let header = no_header bb in let exit = no_exit bb in ground arith

  pub step_waits :
      (bb : ℕ) (queue : List ℕ) (v : Visit)
      → all_done v (cfg.successors bb) ≡ false
      → step bb queue v ≡ record v { queue = queue ++ bb ∷ [] }
  unfolding visit_step visit_bb to_enqueue
  step_waits bb queue v waits = let header = no_header bb in let exit = no_exit bb in ground arith

  abbrev pub behind : ℕ → List ℕ → Visit → Visit
  behind bb queue v =
      after_visit print_operand p cfg res comm no_header no_exit linked no_recursion bb queue v

  set_state_cases :
      (s : ℕ → NodeState) (bb c : ℕ)
      → ((c ≡ bb) × (set_state s bb visited c ≡ visited)) ⊎ (set_state s bb visited c ≡ s c)
  set_state_cases s bb c = elim (Bool-cases (c == bb)) [
    | inl same ↦ inl ((==_iff c bb).0 same, if_true visited (s c) same refl)
    | inr other ↦ inr (if_false visited (s c) other refl)
  ]

  behind_seen :
      (bb : ℕ) (queue : List ℕ) (v : Visit) (c : ℕ)
      → v.states c ≢ unvisited
      → (behind bb queue v).states c ≢ unvisited
  behind_seen bb queue v c ne new = elim (set_state_cases v.states bb c) [
    | inl (_, e) ↦ absurd (cc (e, new))
    | inr e ↦ ne (sym e ∙ new)
  ]

  behind_visited :
      (bb : ℕ) (queue : List ℕ) (v : Visit) (c : ℕ)
      → v.states c ≡ visited
      → (behind bb queue v).states c ≡ visited
  behind_visited bb queue v c s = elim (set_state_cases v.states bb c) [
    | inl (_, e) ↦ e
    | inr e ↦ e ∙ s
  ]

  step_visited :
      (bb : ℕ) (queue : List ℕ) (v : Visit) (c : ℕ)
      → (behind bb queue v).states c ≡ visited
      → (enqueue_all (cfg.predecessors bb) (behind bb queue v)).states c ≡ visited
  step_visited bb queue v c s =
      let en = enqueue_all-IsEnqueued (cfg.predecessors bb) (behind bb queue v) in
      en.kept c (λ new. cc (s, new)) ∙ s

  pub step-IsTight :
      (bb : ℕ) (queue : List ℕ) (v : Visit)
      → v.queue ≡ bb ∷ queue
      → IsTight v
      → IsTight (enqueue_all (cfg.predecessors bb) (behind bb queue v))
  step-IsTight bb queue v e t = (
    inside,
    λ b navs.
        ap (λ ls. create_from_bb p ls navs (cfg.calls b) comm)
          (enqueue_all-IsEnqueued (cfg.predecessors bb) (behind bb queue v)).lists
        ∙ no_recursion b bb _ navs v.lists (t.0 bb (subst (In bb) (sym e) (inl refl))).0
        ∙ t.1 b navs,
  )
    where
      inside :
          (c : ℕ)
          → In c (enqueue_all (cfg.predecessors bb) (behind bb queue v)).queue
          → In c cfg.blocks
            × ((enqueue_all (cfg.predecessors bb) (behind bb queue v)).states c ≢ unvisited)
      inside c m =
          let en = enqueue_all-IsEnqueued (cfg.predecessors bb) (behind bb queue v) in
          elim (en.origin c m) [
            | inl m' ↦
                let (within, ne) = t.0 c (subst (In c) (sym e) (inr m')) in
                let ne' = behind_seen bb queue v c ne in
                (within, λ new. ne' (sym (en.kept c ne') ∙ new))
            | inr m' ↦ (above bb c (t.0 bb (subst (In bb) (sym e) (inl refl))).0 m', en.seen c m')
          ]

  -- A visit leaves less: a block less to visit, or the same with a shorter queue.
  abbrev pub IsLess : Visit → Visit → Type 0
  IsLess w v =
      (remaining cfg.blocks w.states < remaining cfg.blocks v.states)
      ⊎ ((remaining cfg.blocks w.states ≤ remaining cfg.blocks v.states)
          × (length w.queue < length v.queue))

  pub step-IsLess :
      (bb : ℕ) (queue : List ℕ) (v : Visit)
      → v.queue ≡ bb ∷ queue
      → Ordered v
      → IsTight v
      → IsLess (enqueue_all (cfg.predecessors bb) (behind bb queue v)) v
  step-IsLess bb queue v e o t =
      let en = enqueue_all-IsEnqueued (cfg.predecessors bb) (behind bb queue v) in
      elim (State-cases (v.states bb)) [
        | inl s ↦ inl (fewer (λ d. cc (s, d)))
        | inr (inl s) ↦ inl (fewer (λ d. cc (s, d)))
        | inr (inr s) ↦ inr (
          remaining_le cfg.blocks v.states _ keeps,
          let shorter =
                ap length
                  (en.still (λ c m. behind_seen bb queue v c (o.reached c bb s (back c bb m)))) in
              let front = ap length e in omega arith,
        )
      ]
    where
      keeps :
          (c : ℕ)
          → v.states c ≡ visited
          → (enqueue_all (cfg.predecessors bb) (behind bb queue v)).states c ≡ visited
      keeps c s = step_visited bb queue v c (behind_visited bb queue v c s)

      fewer :
          v.states bb ≢ visited
          → remaining cfg.blocks (enqueue_all (cfg.predecessors bb) (behind bb queue v)).states
            < remaining cfg.blocks v.states
      fewer ne =
          remaining_lt cfg.blocks v.states _ bb keeps (t.0 bb (subst (In bb) (sym e) (inl refl))).0
            ne
            (step_visited bb queue v bb
              (if_true visited (v.states bb) ((==_iff bb bb).1 refl) refl))
