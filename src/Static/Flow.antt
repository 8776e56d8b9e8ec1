-- ===== src/Static/Flow.antt =====
-- src/include/parcoach/CFGVisitors.h (CFGVisitor) and src/aSSA/CollListFunctionAnalysis.cpp
-- (CollListCFGVisitor): the traversal of a function from its exits up, which computes the list of
-- each block, one communicator at a time. A loop has been replaced by its header before.
pub mod Merges
pub mod Neighbors
pub mod Traces
pub mod Queue
pub mod Lookups
pub mod Rounds
pub mod Remaining
pub mod Ready
pub mod Ends
pub mod Visits
pub mod Whole
use parcoach.Base.{
  ℕ, zero, suc, Bool, true, false, not, Option, none, some, List, [], ◌∷◌, ◌++◌, ◌&&◌, ◌==◌,
  if◌then◌else◌,
}
use parcoach.Static.Collectives.{Text, Value, CallInst}
use parcoach.Static.Lists.{
  CollectiveList, CollLists, Program, navs_element, empty_list, extend_with, extend_with_element,
  neighbors_are_navs, create_from_bb,
}

-- A function's control flow graph, with the calls of each block.
pub record Cfg : Type 0 where
  pub blocks : List ℕ
  pub successors : ℕ → List ℕ
  pub predecessors : ℕ → List ℕ
  pub calls : ℕ → List CallInst

-- LoopAggretationInfo, and from LoopInfo whether the loop of a header contains a block.
pub record LoopAggregationInfo : Type 0 where
  pub loop_header_to_successors : ℕ → Option (List ℕ)
  pub loop_header_to_incoming_block : ℕ → Option ℕ
  pub loop_successor_to_loop_header : ℕ → Option ℕ
  pub loop_contains : ℕ → ℕ → Bool

pub data NodeState : Type 0 where
  unvisited pushed visited : NodeState

-- `Lists[BB]`: where nothing is stored, the empty list.
abbrev pub list_at : CollLists → ℕ → CollectiveList
list_at lists b = elim (lists b) [ none ↦ empty_list | some l ↦ l ]

-- CollListCFGVisitor::compute, for a graph and one communicator.
unfoldable pub compute :
    (ℕ → Text) → Program → Cfg → Option Value → CollLists → List ℕ → ℕ → Bool → CollectiveList
unfolding neighbors_are_navs extend_with extend_with_element create_from_bb
compute print_operand p cfg comm lists successors bb is_loop_header =
    let is_navs = neighbors_are_navs print_operand (list_at lists) successors in
    let current =
      if is_loop_header
      then if is_navs
        then extend_with_element empty_list navs_element
        else extend_with empty_list (list_at lists bb)
      else create_from_bb p lists is_navs (cfg.calls bb) comm in
    if is_navs
    then current
    else elim successors [ [] ↦ current | succ ∷ succs ↦ extend_with current (list_at lists succ) ]

-- Lists[BB] = ...
unfoldable pub set_list : CollLists → ℕ → CollectiveList → CollLists
set_list lists bb l b = if b == bb then some l else lists b

-- CollListCFGVisitor::visitBB. The successors of the loop are given when the block is its header.
unfoldable pub visit_bb :
    (ℕ → Text) → Program → Cfg → Option Value → ℕ → Option (List ℕ) → CollLists → CollLists
unfolding compute set_list
visit_bb print_operand p cfg comm bb none lists =
    set_list lists bb (compute print_operand p cfg comm lists (cfg.successors bb) bb false)
visit_bb print_operand p cfg comm bb (some loop_succs) lists =
    set_list lists bb (compute print_operand p cfg comm lists loop_succs bb true)

-- The state of CFGVisitor::Visit: the queue, the map of the nodes' states, and what visitBB changes.
pub record Visit : Type 0 where
  pub queue : List ℕ
  pub states : ℕ → NodeState
  pub lists : CollLists

abbrev pub is_done : Visit → ℕ → Bool
is_done v b = elim (v.states b) [ visited ↦ true | _ ↦ false ]

unfoldable pub all_done : Visit → List ℕ → Bool
all_done v [] = true
all_done v (b ∷ bs) = is_done v b && all_done v bs

abbrev pub set_state : (ℕ → NodeState) → ℕ → NodeState → ℕ → NodeState
set_state states bb s b = if b == bb then s else states b

-- The lambda EnqueueBB
unfoldable pub enqueue : ℕ → Visit → Visit
enqueue b v = elim (v.states b) [
  | unvisited ↦ record v { queue = v.queue ++ b ∷ []; states = set_state v.states b pushed }
  | _ ↦ v
]

unfoldable pub enqueue_all : List ℕ → Visit → Visit
unfolding enqueue
enqueue_all [] v = v
enqueue_all (b ∷ bs) v = enqueue_all bs (enqueue b v)

-- What is enqueued behind a visited block. A loop header always has an incoming block (the source
-- does not test it).
unfoldable pub to_enqueue : Cfg → LoopAggregationInfo → ℕ → List ℕ
to_enqueue cfg res bb = elim (res.loop_header_to_successors bb) [
  | some succs ↦ elim (res.loop_header_to_incoming_block bb) [ some b ↦ b ∷ [] | none ↦ [] ]
  | none ↦ elim (res.loop_successor_to_loop_header bb) [
    | none ↦ cfg.predecessors bb
    | some header ↦ header ∷ outside (res.loop_contains header) (cfg.predecessors bb)
  ]
]
  where
    outside : (ℕ → Bool) → List ℕ → List ℕ
    outside contains [] = []
    outside contains (b ∷ bs) =
        let rest = outside contains bs in if contains b then rest else b ∷ rest

-- One round of the loop, on the front of the queue.
unfoldable pub visit_step :
    (ℕ → Text) → Program → Cfg → LoopAggregationInfo → Option Value → ℕ → List ℕ → Visit → Visit
unfolding all_done visit_bb enqueue_all to_enqueue
visit_step print_operand p cfg res comm bb queue v =
    let loop_succs = res.loop_header_to_successors bb in
    let succs : List ℕ = elim loop_succs [ some bs ↦ bs | none ↦ cfg.successors bb ] in
    if all_done v succs
    then enqueue_all (to_enqueue cfg res bb) (record {
      queue = queue;
      states = set_state v.states bb visited;
      lists = visit_bb print_operand p cfg comm bb loop_succs v.lists;
    })
    else record v { queue = queue ++ bb ∷ [] }

-- The loop. A postponed block comes back to the end of the queue, so the rounds are counted by fuel.
unfoldable pub visit_loop :
    ℕ → (ℕ → Text) → Program → Cfg → LoopAggregationInfo → Option Value → Visit → Option Visit
unfolding visit_step
visit_loop zero print_operand p cfg res comm v = elim v.queue [ [] ↦ some v | _ ∷ _ ↦ none ]
visit_loop (suc fuel) print_operand p cfg res comm v = elim v.queue [
  | [] ↦ some v
  | bb ∷ queue ↦
      visit_loop fuel print_operand p cfg res comm
        (visit_step print_operand p cfg res comm bb queue v)
]

-- The exits of the function, which are pushed first.
unfoldable pub enqueue_exits : Cfg → List ℕ → Visit → Visit
enqueue_exits cfg [] v = v
enqueue_exits cfg (b ∷ bs) v = elim (cfg.successors b) [
  | [] ↦
      enqueue_exits cfg bs
        (record v { queue = v.queue ++ b ∷ []; states = set_state v.states b pushed })
  | _ ∷ _ ↦ enqueue_exits cfg bs v
]

-- CollListCFGVisitor::Visit for one communicator, on the lists that are there already.
unfoldable pub visit_function :
    ℕ → (ℕ → Text) → Program → Cfg → LoopAggregationInfo → Option Value → CollLists → Option Visit
unfolding visit_loop enqueue_exits
visit_function fuel print_operand p cfg res comm lists =
    visit_loop fuel print_operand p cfg res comm
      (enqueue_exits cfg cfg.blocks (record { queue = []; states = λ b. unvisited; lists = lists }))
