-- ===== src/Static/Loops.antt =====
-- src/include/parcoach/CFGVisitors.h (LoopVisitor) and src/aSSA/CollListLoopAnalysis.cpp
-- (CollListLoopVisitor): the traversal of the loops of a function from the inside out, from the header
-- of each loop down. It computes the list of each block in a loop from those of its predecessors, and
-- turns the list of the back edge into that of the header. As in Flow, one communicator at a time.
pub mod Exits
use parcoach.Base.{
  ℕ, zero, suc, Bool, true, false, not, Option, none, some, List, [], ◌∷◌, ◌++◌, ◌&&◌, ◌||◌, ◌==◌,
  if◌then◌else◌, ◌>>=◌,
}
use parcoach.Static.Collectives.{Text, Value}
use parcoach.Static.Lists.{
  CollectiveList, CollLists, Program, empty_list, with_header, prepend_with, neighbors_are_navs,
  create_from_bb,
}
use parcoach.Static.Flow.{
  Cfg, LoopAggregationInfo, NodeState, unvisited, pushed, visited, list_at, set_list, set_state,
}

-- llvm::Loop: the header, what getIncomingAndBackEdge finds (none if it fails), the blocks, the loops
-- inside.
mutual
  pub data Loop : Type 0 where
    loop : ℕ → Option (ℕ × ℕ) → List ℕ → Loops → Loop

  pub data Loops : Type 0 where
    end : Loops
    sub_loop : Loop → Loops → Loops

-- What the traversal of loops changes: LoopHeaderToSuccessors, LoopHeaderToIncomingBlock, and the
-- lists.
pub record LoopState : Type 0 where
  pub header_to_successors : ℕ → Option (List ℕ)
  pub header_to_incoming : ℕ → Option ℕ
  pub coll_lists : CollLists

abbrev pub map_at {ℓ} : {A : Type ℓ} → (ℕ → Option A) → ℕ → A → ℕ → Option A
map_at m b a c = if c == b then some a else m c

abbrev pub clear_at {ℓ} : {A : Type ℓ} → (ℕ → Option A) → ℕ → ℕ → Option A
clear_at m b c = if c == b then none else m c

unfoldable pub has_block : ℕ → List ℕ → Bool
has_block b [] = false
has_block b (c ∷ cs) = b == c || has_block b cs

-- LoopHeaderToSuccessors[Start].insert(BB)
unfoldable pub insert_exit : ℕ → ℕ → LoopState → LoopState
unfolding has_block
insert_exit start bb s =
    let exits : List ℕ = elim (s.header_to_successors start) [ none ↦ [] | some bs ↦ bs ] in
    record s {
      header_to_successors =
          map_at s.header_to_successors start
            (if has_block bb exits then exits else exits ++ bb ∷ []);
    }

-- CollListLoopVisitor::visitBB. A block that has a list keeps it, be it the header of the loop or of a
-- loop inside.
unfoldable pub visit_loop_bb :
    (ℕ → Text) → Program → Cfg → Option Value → ℕ → ℕ → LoopState → LoopState
unfolding neighbors_are_navs create_from_bb prepend_with
visit_loop_bb print_operand p cfg comm header bb s =
    let lists = s.coll_lists in
    let preds = cfg.predecessors bb in
    let pred_set : CollectiveList = elim preds [
      | [] ↦ empty_list
      | pred ∷ _ ↦ list_at lists pred
    ] in
    let is_inner : Bool = elim (s.header_to_incoming bb) [ some incoming ↦ true | none ↦ false ] in
    let is_navs = not is_inner && neighbors_are_navs print_operand (list_at lists) preds in
    let current = create_from_bb p lists is_navs (cfg.calls bb) comm in
    let computed = if is_navs then current else prepend_with current pred_set in
    elim (lists bb) [
      | some l ↦ s
      | none ↦ record s {
        coll_lists = set_list lists bb (if bb == header then empty_list else computed);
      }
    ]

-- CollListLoopVisitor::endOfLoop
unfoldable pub end_of_loop : ℕ → ℕ → LoopState → LoopState
end_of_loop header back_edge s = record s {
  coll_lists = set_list s.coll_lists header (with_header header (list_at s.coll_lists back_edge));
}

-- The local variables of LoopVisitor::Visit beside the state.
pub record LoopVisit : Type 0 where
  pub queue : List ℕ
  pub node_states : ℕ → NodeState
  pub state : LoopState

abbrev pub is_visited : LoopVisit → ℕ → Bool
is_visited v b = elim (v.node_states b) [ visited ↦ true | _ ↦ false ]

unfoldable pub all_visited : LoopVisit → List ℕ → Bool
all_visited v [] = true
all_visited v (b ∷ bs) = is_visited v b && all_visited v bs

-- The lambda EnqueueBB: a block of the loop is pushed, any other one is an exit of it.
unfoldable pub enqueue_bb : ℕ → List ℕ → ℕ → LoopVisit → LoopVisit
unfolding has_block insert_exit
enqueue_bb start blocks bb v = elim (v.node_states bb) [
  | unvisited ↦
      if has_block bb blocks
      then record v { queue = v.queue ++ bb ∷ []; node_states = set_state v.node_states bb pushed }
      else record v { state = insert_exit start bb v.state }
  | _ ↦ v
]

unfoldable pub enqueue_bbs : ℕ → List ℕ → List ℕ → LoopVisit → LoopVisit
unfolding enqueue_bb
enqueue_bbs start blocks [] v = v
enqueue_bbs start blocks (b ∷ bs) v = enqueue_bbs start blocks bs (enqueue_bb start blocks b v)

-- The end of a round: behind the header of a loop inside come that loop's successors, which are then
-- removed; behind any other block its own. `header_of` is the header of the innermost loop of a block.
unfoldable pub enqueue_next : (ℕ → Option ℕ) → Cfg → ℕ → List ℕ → ℕ → LoopVisit → LoopVisit
unfolding enqueue_bbs
enqueue_next header_of cfg start blocks bb v =
    let is_inner : Bool = elim (header_of bb) [ some h ↦ bb == h | none ↦ false ] in
    if not (bb == start) && is_inner
    then (let exits : List ℕ = elim (v.state.header_to_successors bb) [
      | some bs ↦ bs
      | none ↦ []
    ] in
        let w = enqueue_bbs start blocks exits v in
        record w {
          state = record w.state {
            header_to_successors = clear_at w.state.header_to_successors bb;
          };
        })
    else enqueue_bbs start blocks (cfg.successors bb) v

-- One round of the loop, on the front of the queue.
unfoldable pub visit_loop_step :
    (ℕ → Text)
    → Program
    → Cfg
    → (ℕ → Option ℕ)
    → Option Value
    → ℕ
    → List ℕ
    → ℕ
    → List ℕ
    → LoopVisit
    → LoopVisit
unfolding all_visited visit_loop_bb enqueue_next
visit_loop_step print_operand p cfg header_of comm start blocks bb queue v =
    let is_header : Bool = elim (v.state.header_to_incoming bb) [
      | some incoming ↦ true
      | none ↦ false
    ] in
    if not is_header && not (all_visited v (cfg.predecessors bb))
    then record v { queue = queue ++ bb ∷ [] }
    else enqueue_next header_of cfg start blocks bb (record {
      queue = queue;
      node_states = set_state v.node_states bb visited;
      state = visit_loop_bb print_operand p cfg comm start bb v.state;
    })

-- while (!Queue.empty()), with fuel, since a block may be put back.
unfoldable pub visit_loop_blocks :
    ℕ
    → (ℕ → Text)
    → Program
    → Cfg
    → (ℕ → Option ℕ)
    → Option Value
    → ℕ
    → List ℕ
    → LoopVisit
    → Option LoopState
unfolding visit_loop_step
visit_loop_blocks zero print_operand p cfg header_of comm start blocks v = elim v.queue [
  | [] ↦ some v.state
  | _ ∷ _ ↦ none
]
visit_loop_blocks (suc fuel) print_operand p cfg header_of comm start blocks v = elim v.queue [
  | [] ↦ some v.state
  | bb ∷ queue ↦
      visit_loop_blocks fuel print_operand p cfg header_of comm start blocks
        (visit_loop_step print_operand p cfg header_of comm start blocks bb queue v)
]

-- LoopVisitor::Visit on a loop, and its calls for a list of loops. A loop without a single back edge
-- is only registered.
unfoldable mutual
  unfolding visit_loop_blocks end_of_loop

  pub visit_one_loop :
      ℕ
      → (ℕ → Text)
      → Program
      → Cfg
      → (ℕ → Option ℕ)
      → Option Value
      → Loop
      → LoopState
      → Option LoopState
  visit_one_loop fuel print_operand p cfg header_of comm (loop start edges blocks subs) s = do
    t ← visit_loops fuel print_operand p cfg header_of comm subs s
    let u : LoopState = record t { header_to_successors = map_at t.header_to_successors start [] }
    elim edges [
      | none ↦ some u
      | some (incoming, back_edge) ↦ do
        w ← visit_loop_blocks fuel print_operand p cfg header_of comm start blocks (record {
          queue = start ∷ [];
          node_states = set_state (λ b. unvisited) start pushed;
          state = record u { header_to_incoming = map_at u.header_to_incoming start incoming };
        })
        some (end_of_loop start back_edge w)
    ]

  pub visit_loops :
      ℕ
      → (ℕ → Text)
      → Program
      → Cfg
      → (ℕ → Option ℕ)
      → Option Value
      → Loops
      → LoopState
      → Option LoopState
  visit_loops fuel print_operand p cfg header_of comm end s = some s
  visit_loops fuel print_operand p cfg header_of comm (sub_loop l ls) s = do
    t ← visit_one_loop fuel print_operand p cfg header_of comm l s
    visit_loops fuel print_operand p cfg header_of comm ls t

-- The inner loop of ComputeReversedMap.
unfoldable pub reverse_exits : ℕ → List ℕ → (ℕ → Option ℕ) → ℕ → Option ℕ
reverse_exits header [] m = m
reverse_exits header (succ ∷ succs) m = reverse_exits header succs (map_at m succ header)

-- The body of ComputeReversedMap's outer loop.
unfoldable pub reverse_header : (ℕ → Option (List ℕ)) → ℕ → (ℕ → Option ℕ) → ℕ → Option ℕ
unfolding reverse_exits
reverse_header successors_of header m = elim (successors_of header) [
  | none ↦ m
  | some succs ↦ reverse_exits header succs m
]

-- ComputeReversedMap, over the headers in the order of the map.
unfoldable pub compute_reversed_map : (ℕ → Option (List ℕ)) → List ℕ → (ℕ → Option ℕ) → ℕ → Option ℕ
unfolding reverse_header
compute_reversed_map successors_of [] m = m
compute_reversed_map successors_of (header ∷ headers) m =
    compute_reversed_map successors_of headers (reverse_header successors_of header m)
