-- ===== src/Static/Flow/Rounds.antt =====
-- The rounds of the traversal of a function without loops: the order of the visits, which blocks are
-- reached, and what the lists are.
use parcoach.Base.{
  ℕ, ◌≡◌, ◌≢◌, ◌⊎◌, inl, inr, refl, sym, ap, ◌∙◌, subst, Bool, Bool-cases, true, false, Option,
  none, List, [], ◌∷◌, ◌++◌, ◌==◌, ==_iff, if◌then◌else◌, In, In-append, if_true, if_false, arith,
}
use parcoach.Static.Collectives.{Text, Value}
use parcoach.Static.Lists.{
  CollectiveList, CollLists, Program, neighbors_are_navs, create_from_bb, extend_with,
}
use parcoach.Static.Flow.{
  Cfg, LoopAggregationInfo, unvisited, pushed, visited, Visit, list_at, set_list, set_state,
  compute, visit_bb, enqueue_all, to_enqueue, all_done, visit_step,
}
use parcoach.Static.Flow.Queue.{all_done-In, IsEnqueued, enqueue_all-IsEnqueued}
use parcoach.Static.Flow.Lookups.{neighbors_cong, set_list_self, set_list_other}

module _ (print_operand : ℕ → Text) (p : Program) (cfg : Cfg) (res : LoopAggregationInfo)
    (comm : Option Value) (no_header : (b : ℕ) → res.loop_header_to_successors b ≡ none)
    (no_exit : (b : ℕ) → res.loop_successor_to_loop_header b ≡ none)
    (linked : (b c : ℕ) → In c (cfg.successors b) → In b (cfg.predecessors c))
    (no_recursion : (b bb : ℕ) (l : CollectiveList) (navs : Bool) (lists : CollLists)
      → In bb cfg.blocks
      → create_from_bb p (set_list lists bb l) navs (cfg.calls b) comm
        ≡ create_from_bb p lists navs (cfg.calls b) comm) where
  abbrev value : CollLists → ℕ → CollectiveList
  value lists b = compute print_operand p cfg comm lists (cfg.successors b) b false

  pub record IsOrdered (v : Visit) : Type 0 where
    pub queued : (b : ℕ) → v.states b ≡ pushed → In b v.queue
    pub ordered : (b c : ℕ) → v.states b ≡ visited → In c (cfg.successors b) → v.states c ≡ visited
    pub reached :
        (b c : ℕ) → v.states c ≡ visited → In c (cfg.successors b) → v.states b ≢ unvisited
    pub computed : (b : ℕ) → v.states b ≡ visited → list_at v.lists b ≡ value v.lists b
    pub exits : (b : ℕ) → In b cfg.blocks → cfg.successors b ≡ [] → v.states b ≢ unvisited

  compute_cong :
      (lists : CollLists) (bb b : ℕ) (l : CollectiveList) (bbs : List ℕ)
      → In bb cfg.blocks
      → ((c : ℕ) → In c bbs → list_at (set_list lists bb l) c ≡ list_at lists c)
      → compute print_operand p cfg comm (set_list lists bb l) bbs b false
        ≡ compute print_operand p cfg comm lists bbs b false
  unfolding compute
  compute_cong lists bb b l [] i h = no_recursion b bb l false lists i
  compute_cong lists bb b l (c ∷ cs) i h =
      let same =
        neighbors_cong print_operand (list_at (set_list lists bb l)) (list_at lists) (c ∷ cs) h in
      ap
        (λ navs.
          let current = create_from_bb p (set_list lists bb l) navs (cfg.calls b) comm in
          if navs then current else extend_with current (list_at (set_list lists bb l) c))
        same
      ∙ ap
          (λ current.
            if neighbors_are_navs print_operand (list_at lists) (c ∷ cs)
            then current
            else extend_with current (list_at (set_list lists bb l) c))
          (no_recursion b bb l (neighbors_are_navs print_operand (list_at lists) (c ∷ cs)) lists i)
      ∙ ap
          (λ x.
            let navs = neighbors_are_navs print_operand (list_at lists) (c ∷ cs) in
            let current = create_from_bb p lists navs (cfg.calls b) comm in
            if navs then current else extend_with current x)
          (h c (inl refl))

  postponed :
      (bb : ℕ) (queue : List ℕ) (v : Visit)
      → v.queue ≡ bb ∷ queue
      → IsOrdered v
      → IsOrdered (record v { queue = queue ++ bb ∷ [] })
  postponed bb queue v e o = record {
    queued = λ b s. elim (subst (In b) e (o.queued b s)) [
      | inl same ↦ (In-append b queue (bb ∷ [])).1 (inr (inl same))
      | inr m ↦ (In-append b queue (bb ∷ [])).1 (inl m)
    ];
    ordered = o.ordered;
    reached = o.reached;
    computed = o.computed;
    exits = o.exits;
  }

  -- The state behind the visit of a block, before its predecessors are enqueued.
  abbrev pub after_visit : ℕ → List ℕ → Visit → Visit
  after_visit bb queue v = record {
    queue = queue;
    states = set_state v.states bb visited;
    lists = set_list v.lists bb (value v.lists bb);
  }

  -- What holds behind the visit but for the predecessors of the block.
  record IsVisiting (bb : ℕ) (v : Visit) : Type 0 where
    queued : (b : ℕ) → v.states b ≡ pushed → In b v.queue
    ordered : (b c : ℕ) → v.states b ≡ visited → In c (cfg.successors b) → v.states c ≡ visited
    reached :
        (b c : ℕ)
        → v.states c ≡ visited
        → In c (cfg.successors b)
        → (c ≡ bb) ⊎ (v.states b ≢ unvisited)
    computed : (b : ℕ) → v.states b ≡ visited → list_at v.lists b ≡ value v.lists b
    exits : (b : ℕ) → In b cfg.blocks → cfg.successors b ≡ [] → v.states b ≢ unvisited

  visiting :
      (bb : ℕ) (queue : List ℕ) (v : Visit)
      → In bb cfg.blocks
      → v.queue ≡ bb ∷ queue
      → all_done v (cfg.successors bb) ≡ true
      → IsOrdered v
      → IsVisiting bb (after_visit bb queue v)
  visiting bb queue v inside e done o = record {
    queued = λ b s. elim (marked b) [
      | inl (same, s') ↦ absurd (cc (s, s'))
      | inr (other, s') ↦ elim (subst (In b) e (o.queued b (sym s' ∙ s))) [
        | inl same ↦ absurd (cc ((==_iff b bb).1 same, other))
        | inr m ↦ m
      ]
    ];
    ordered = λ b c s m. stays c (below b c s m);
    reached = λ b c s m. elim (marked c) [
      | inl (same, _) ↦ inl ((==_iff c bb).0 same)
      | inr (other, s') ↦ inr (λ new. old b (o.reached b c (sym s' ∙ s) m) new)
    ];
    computed = λ b s.
        let cong =
          compute_cong v.lists bb b (value v.lists bb) (cfg.successors b) inside
            (λ c m. stable c (below b c s m)) in
        elim (marked b) [
          | inl (same, _) ↦
              set_list_self v.lists bb b (value v.lists bb) same
              ∙ ap (value v.lists) (sym ((==_iff b bb).0 same))
              ∙ sym cong
          | inr (_, s') ↦ stable b (sym s' ∙ s) ∙ o.computed b (sym s' ∙ s) ∙ sym cong
        ];
    exits = λ b m e'. old b (o.exits b m e');
  }
    where
      marked :
          (b : ℕ)
          → (((b == bb) ≡ true) × (set_state v.states bb visited b ≡ visited))
            ⊎ (((b == bb) ≡ false) × (set_state v.states bb visited b ≡ v.states b))
      marked b = elim (Bool-cases (b == bb)) [
        | inl same ↦ inl (same, if_true visited (v.states b) same refl)
        | inr other ↦ inr (other, if_false visited (v.states b) other refl)
      ]

      stays : (c : ℕ) → v.states c ≡ visited → set_state v.states bb visited c ≡ visited
      stays c s = elim (marked c) [ inl (_, s') ↦ s' | inr (_, s') ↦ s' ∙ s ]

      below :
          (b c : ℕ)
          → set_state v.states bb visited b ≡ visited
          → In c (cfg.successors b)
          → v.states c ≡ visited
      below b c s m = elim (marked b) [
        | inl (same, _) ↦
            all_done-In v (cfg.successors bb) c done
              (subst (λ x. In c (cfg.successors x)) ((==_iff b bb).0 same) m)
        | inr (_, s') ↦ o.ordered b c (sym s' ∙ s) m
      ]

      old : (b : ℕ) → v.states b ≢ unvisited → set_state v.states bb visited b ≢ unvisited
      old b ne new = elim (marked b) [
        | inl (_, s') ↦ absurd (cc (s', new))
        | inr (_, s') ↦ ne (sym s' ∙ new)
      ]

      stable :
          (c : ℕ)
          → v.states c ≡ visited
          → list_at (set_list v.lists bb (value v.lists bb)) c ≡ list_at v.lists c
      stable c s = elim (Bool-cases (c == bb)) [
        | inl same ↦
            set_list_self v.lists bb c (value v.lists bb) same
            ∙ ap (value v.lists) (sym ((==_iff c bb).0 same))
            ∙ sym (o.computed c s)
        | inr other ↦ set_list_other v.lists bb c (value v.lists bb) other
      ]

  enqueued :
      (bb : ℕ) (v w : Visit) → IsVisiting bb v → IsEnqueued (cfg.predecessors bb) v w → IsOrdered w
  enqueued bb v w i en = record {
    queued = λ b s. en.queued i.queued b s;
    ordered = λ b c s m.
        let below = i.ordered b c (en.no_visit b s) m in en.kept c (λ new. cc (below, new)) ∙ below;
    reached = λ b c s m. elim (i.reached b c (en.no_visit c s) m) [
      | inl same ↦ en.seen b (subst (λ x. In b (cfg.predecessors x)) same (linked b c m))
      | inr ne ↦ λ new. ne (sym (en.kept b ne) ∙ new)
    ];
    computed = λ b s.
        subst (λ ls. list_at ls b ≡ value ls b) (sym en.lists) (i.computed b (en.no_visit b s));
    exits = λ b m e new. let ne = i.exits b m e in ne (sym (en.kept b ne) ∙ new);
  }

  -- Let no block be a header or a successor of a loop, let the predecessors be those of the
  -- successors, and let what the calls of a block add not depend on the lists of the function's blocks. A round
  -- of the traversal, visit or postponement, keeps this: the pushed blocks are in the queue, the
  -- successors of a visited block are visited and its predecessors are not unvisited, the list of a
  -- visited block is what its successors' lists give, and no exit is unvisited.
  pub step-IsOrdered :
      (bb : ℕ) (queue : List ℕ) (v : Visit)
      → In bb cfg.blocks
      → v.queue ≡ bb ∷ queue
      → IsOrdered v
      → IsOrdered (visit_step print_operand p cfg res comm bb queue v)
  unfolding visit_step visit_bb to_enqueue
  step-IsOrdered bb queue v inside e o =
      let header = no_header bb in
      let exit = no_exit bb in
      elim (Bool-cases (all_done v (cfg.successors bb))) [
        | inr later ↦
            let same : record v { queue = queue ++ bb ∷ [] }
                ≡ visit_step print_operand p cfg res comm bb queue v =
              ground arith in
            subst IsOrdered same (postponed bb queue v e o)
        | inl now ↦
            let same : enqueue_all (cfg.predecessors bb) (after_visit bb queue v)
                ≡ visit_step print_operand p cfg res comm bb queue v =
              ground arith in
            subst IsOrdered same (
              enqueued bb (after_visit bb queue v)
                (enqueue_all (cfg.predecessors bb) (after_visit bb queue v))
                (visiting bb queue v inside e now o)
                (enqueue_all-IsEnqueued (cfg.predecessors bb) (after_visit bb queue v)))
      ]
