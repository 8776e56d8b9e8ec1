-- ===== src/Static/Flow/Visits.antt =====
-- The whole traversal of a function without loops, from its exits on.
use parcoach.Base.{
  Bool, List-cases, ℕ, zero, suc, ◌≤◌, ◌<◌, ◌≡◌, ◌≢◌, ◌⊎◌, inl, inr, refl, sym, ap, ◌∙◌, subst,
  Bool-cases, false, Option, some, List, [], ◌∷◌, ◌++◌, length, In, In-append, ◌==◌, ==_iff,
  if_true, if_false, arith,
}
use parcoach.Static.Collectives.{Text, Value}
use parcoach.Static.Lists.{CollLists, Program, create_from_bb}
use parcoach.Static.Flow.{
  Cfg, LoopAggregationInfo, NodeState, unvisited, pushed, visited, Visit, list_at, set_state,
  compute, enqueue_exits, visit_function,
}
use parcoach.Static.Flow.Queue.{State-cases}
use parcoach.Static.Flow.Remaining.{remaining}
use parcoach.Static.Flow.Ready.{IsLoopFree, Ordered}
use parcoach.Static.Flow.Ends.{ends}

set_pushed_cases :
    (s : ℕ → NodeState) (b c : ℕ)
    → ((c ≡ b) × (set_state s b pushed c ≡ pushed)) ⊎ (set_state s b pushed c ≡ s c)
set_pushed_cases s b c = elim (Bool-cases (c == b)) [
  | inl same ↦ inl ((==_iff c b).0 same, if_true pushed (s c) same refl)
  | inr other ↦ inr (if_false pushed (s c) other refl)
]

-- Exits have been pushed, and nothing has been visited.
record IsStart (cfg : Cfg) (v : Visit) : Type 0 where
  queued : (b : ℕ) → v.states b ≡ pushed → In b v.queue
  none_visited : (b : ℕ) → v.states b ≢ visited
  tight : (b : ℕ) → In b v.queue → In b cfg.blocks × (v.states b ≢ unvisited)

-- Exits that are seen stay so.
record IsSeeing (bs : List ℕ) (cfg : Cfg) (v w : Visit) : Type 0 where
  start : IsStart cfg w
  seen : (b : ℕ) → In b bs → cfg.successors b ≡ [] → w.states b ≢ unvisited
  kept : (b : ℕ) → v.states b ≢ unvisited → w.states b ≢ unvisited

abbrev push : ℕ → Visit → Visit
push b v = record v { queue = v.queue ++ b ∷ []; states = set_state v.states b pushed }

push_kept : (b : ℕ) (v : Visit) (c : ℕ) → v.states c ≢ unvisited → (push b v).states c ≢ unvisited
push_kept b v c ne new = elim (set_pushed_cases v.states b c) [
  | inl (_, e) ↦ absurd (cc (e, new))
  | inr e ↦ ne (sym e ∙ new)
]

push_self : (b : ℕ) (v : Visit) → (push b v).states b ≢ unvisited
push_self b v new = cc (if_true pushed (v.states b) ((==_iff b b).1 refl) refl, new)

push-IsStart :
    (cfg : Cfg) (b : ℕ) (v : Visit) → In b cfg.blocks → IsStart cfg v → IsStart cfg (push b v)
push-IsStart cfg b v m s = record {
  queued = λ c e. elim (set_pushed_cases v.states b c) [
    | inl (same, _) ↦ (In-append c v.queue (b ∷ [])).1 (inr (inl same))
    | inr e' ↦ (In-append c v.queue (b ∷ [])).1 (inl (s.queued c (sym e' ∙ e)))
  ];
  none_visited = λ c e. elim (set_pushed_cases v.states b c) [
    | inl (_, e') ↦ absurd (cc (e, e'))
    | inr e' ↦ s.none_visited c (sym e' ∙ e)
  ];
  tight = λ c m'. elim ((In-append c v.queue (b ∷ [])).0 m') [
    | inl old ↦ let (inside, ne) = s.tight c old in (inside, push_kept b v c ne)
    | inr last ↦ elim last [
      | inl same ↦ (
        subst (λ x. In x cfg.blocks) (sym same) m,
        subst (λ x. (push b v).states x ≢ unvisited) (sym same) (push_self b v),
      )
      | inr none_left ↦ absurd none_left
    ]
  ];
}

enqueue_exits-IsSeeing :
    (cfg : Cfg) (bs : List ℕ) (v : Visit)
    → ((b : ℕ) → In b bs → In b cfg.blocks)
    → IsStart cfg v
    → IsSeeing bs cfg v (enqueue_exits cfg bs v)
unfolding enqueue_exits
enqueue_exits-IsSeeing cfg [] v inside s = record {
  start = s;
  seen = λ b m e. absurd m;
  kept = λ b ne. ne;
}
enqueue_exits-IsSeeing cfg (b ∷ bs) v inside s = elim (List-cases (cfg.successors b)) [
  | inl e ↦
      let same : enqueue_exits cfg bs (push b v) ≡ enqueue_exits cfg (b ∷ bs) v = ground arith in
      let more =
        enqueue_exits-IsSeeing cfg bs (push b v) (λ c m. inside c (inr m))
          (push-IsStart cfg b v (inside b (inl refl)) s) in
      subst (IsSeeing (b ∷ bs) cfg v) same (record {
        start = more.start;
        seen = λ c m e'. elim m [
          | inl here ↦
              subst (λ x. (enqueue_exits cfg bs (push b v)).states x ≢ unvisited) (sym here)
                (more.kept b (push_self b v))
          | inr behind ↦ more.seen c behind e'
        ];
        kept = λ c ne. more.kept c (push_kept b v c ne);
      })
  | inr (x, xs, e) ↦
      let same : enqueue_exits cfg bs v ≡ enqueue_exits cfg (b ∷ bs) v = ground arith in
      let more = enqueue_exits-IsSeeing cfg bs v (λ c m. inside c (inr m)) s in
      subst (IsSeeing (b ∷ bs) cfg v) same (record {
        start = more.start;
        seen = λ c m e'. elim m [
          | inl here ↦ absurd (cc (e, ap cfg.successors (sym here), e'))
          | inr behind ↦ more.seen c behind e'
        ];
        kept = more.kept;
      })
]

enqueue_exits-lists :
    (cfg : Cfg) (bs : List ℕ) (v : Visit) → (enqueue_exits cfg bs v).lists ≡ v.lists
unfolding enqueue_exits
enqueue_exits-lists cfg [] v = refl
enqueue_exits-lists cfg (b ∷ bs) v =
    ground (arith, enqueue_exits-lists cfg bs v, enqueue_exits-lists cfg bs (push b v))

module _ (print_operand : ℕ → Text) (p : Program) (cfg : Cfg) (res : LoopAggregationInfo)
    (comm : Option Value) (free : IsLoopFree p cfg res comm) where
  open free use {rank, falls, below}

  all_visited :
      (n b : ℕ) (lists : CollLists) (w : Visit)
      → rank b < n
      → Ordered print_operand p cfg res comm free lists w
      → w.queue ≡ []
      → In b cfg.blocks
      → w.states b ≡ visited
  all_visited zero b lists w lt o e m = absurd (omega arith)
  all_visited (suc n) b lists w lt o e m = elim (State-cases (w.states b)) [
    | inr (inr s) ↦ s
    | inr (inl s) ↦ absurd (subst (In b) e (o.queued b s))
    | inl s ↦ elim (List-cases (cfg.successors b)) [
      | inl last ↦ absurd (o.exits b m last s)
      | inr (c, cs, e') ↦
          let m' = subst (In c) (sym e') (inl refl) in
          let f = falls b c m' in
          absurd (o.reached b c (all_visited n c lists w (omega arith) o e (below b c m m')) m' s)
    ]
  ]

  start : CollLists → Visit
  start lists =
      enqueue_exits cfg cfg.blocks (record { queue = []; states = λ b. unvisited; lists = lists })

  start-IsSeeing :
      (lists : CollLists)
      → IsSeeing cfg.blocks cfg
          (record { queue = []; states = λ b. unvisited; lists = lists })
          (start lists)
  unfolding start
  start-IsSeeing lists =
      enqueue_exits-IsSeeing cfg cfg.blocks _ (λ b m. m)
        (record {
          queued = λ b e. absurd (cc e);
          none_visited = λ b e. cc e;
          tight = λ b m. absurd m;
        })

  -- The traversal of a function without loops, whose calls do not lead back to the lists of its own
  -- blocks, returns, however much fuel more it is given. Then every block is visited and has the list that its successors' lists give, where what the calls of the
  -- block add is as it was before.
  pub visit_function-computed :
      (lists : CollLists)
      → (n : ℕ) × (w : Visit) × ((fuel : ℕ)
          → n ≤ fuel
          → visit_function fuel print_operand p cfg res comm lists ≡ some w)
        × ((b : ℕ)
            → In b cfg.blocks
            → (w.states b ≡ visited)
              × (list_at w.lists b
                  ≡ compute print_operand p cfg comm w.lists (cfg.successors b) b false))
        × ((b : ℕ) (navs : Bool)
            → create_from_bb p w.lists navs (cfg.calls b) comm
              ≡ create_from_bb p lists navs (cfg.calls b) comm)
  unfolding visit_function start
  visit_function-computed lists =
      let s = start-IsSeeing lists in
      let begun = s.start in
      let (n, w, runs, o, t, e) =
        ends print_operand p cfg res comm free lists
          (suc (remaining cfg.blocks (start lists).states)) (suc (length (start lists).queue))
          (start lists) (omega arith) (omega arith)
          (record {
            queued = begun.queued;
            ordered = λ b c v m. absurd (begun.none_visited b v);
            reached = λ b c v m. absurd (begun.none_visited c v);
            computed = λ b v. absurd (begun.none_visited b v);
            exits = s.seen;
          })
          (
            begun.tight,
            λ b navs.
                ap (λ ls. create_from_bb p ls navs (cfg.calls b) comm)
                  (enqueue_exits-lists cfg cfg.blocks _),
          ) in
      (
        n,
        w,
        runs,
        λ b m.
            let done = all_visited (suc (rank b)) b lists w (omega arith) o e m in
            (done, o.computed b done),
        t.1,
      )
