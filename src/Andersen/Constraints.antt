-- ===== src/Andersen/Constraints.antt =====
-- Constraint.h, PtsSet.h and the data of ConstraintSolving.cpp: constraints, points-to sets, the
-- constraint graph, the worklist, and how the graph is built from the constraints. A std::set and a
-- SparseBitVector are the list of their elements in ascending order, a std::map the function that
-- looks up.
use parcoach.Base.{
  ◌>>=◌, ℕ, Bool, true, false, not, Option, none, some, List, [], ◌∷◌, ◌++◌, ◌==◌, ◌&&◌, ◌||◌,
  if◌then◌else◌, ltb,
}
use parcoach.Andersen.{NodeFactory, get_merge_target, merge_node}

-- AndersConstraint::ConstraintType
pub data ConstraintType : Type 0 where
  addr_of copy load store : ConstraintType

-- The value of an enumerator.
abbrev pub constraint_code : ConstraintType → ℕ
constraint_code addr_of = 0
constraint_code copy = 1
constraint_code load = 2
constraint_code store = 3

pub record Constraint : Type 0 where
  pub type : ConstraintType
  pub dest : ℕ
  pub src : ℕ

-- AndersConstraint::operator==
unfoldable pub constraint_eq : Constraint → Constraint → Bool
constraint_eq c d =
    constraint_code d.type == constraint_code c.type && (d.dest == c.dest && d.src == c.src)

-- AndersConstraint::operator<
unfoldable pub constraint_lt : Constraint → Constraint → Bool
constraint_lt c d =
    if not (constraint_code d.type == constraint_code c.type)
    then ltb (constraint_code d.type) (constraint_code c.type)
    else (if not (d.dest == c.dest) then ltb d.dest c.dest else ltb d.src c.src)

-- std::set::insert, SparseBitVector::test_and_set: the set, and whether it has changed.
unfoldable pub insert_index : ℕ → List ℕ → Bool × List ℕ
insert_index n [] = (true, n ∷ [])
insert_index n (m ∷ ms) =
    let (changed, rest) = insert_index n ms in
    if ltb n m
    then (true, n ∷ m ∷ ms)
    else (if n == m then (false, m ∷ ms) else (changed, m ∷ rest))

-- std::set::erase: whether there was something to erase.
unfoldable pub erase_index : ℕ → List ℕ → Bool × List ℕ
erase_index n [] = (false, [])
erase_index n (m ∷ ms) =
    let (changed, rest) = erase_index n ms in if n == m then (true, ms) else (changed, m ∷ rest)

-- AndersPtsSet::unionWith: whether the set has changed.
unfoldable pub union_with : List ℕ → List ℕ → Bool × List ℕ
unfolding insert_index
union_with ms [] = (false, ms)
union_with ms (n ∷ ns) =
    let (changed, ms') = insert_index n ms in
    let (more, ms'') = union_with ms' ns in (changed || more, ms'')

-- AndersPtsSet::has
unfoldable pub has_index : ℕ → List ℕ → Bool
has_index n [] = false
has_index n (m ∷ ms) = n == m || has_index n ms

-- ConstraintGraphNode
pub record GraphNode : Type 0 where
  pub idx : ℕ
  pub copy_edges : List ℕ
  pub load_edges : List ℕ
  pub store_edges : List ℕ

abbrev pub new_graph_node : ℕ → GraphNode
new_graph_node i = record { idx = i; copy_edges = []; load_edges = []; store_edges = [] }

-- ConstraintGraph
abbrev pub ConstraintGraph : Type 0
ConstraintGraph = ℕ → Option GraphNode

abbrev pub put_node : ℕ → GraphNode → ConstraintGraph → ConstraintGraph
put_node i n g j = if j == i then some n else g j

-- getOrInsertNode, as far as it finds the node.
abbrev pub node_at : ConstraintGraph → ℕ → GraphNode
node_at g i = elim (g i) [ none ↦ new_graph_node i | some n ↦ n ]

-- ConstraintGraph::insertCopyEdge, insertLoadEdge, insertStoreEdge. A node that is new gets the edge.
unfoldable pub insert_copy_edge : ℕ → ℕ → ConstraintGraph → Bool × ConstraintGraph
unfolding insert_index
insert_copy_edge src dst g =
    let n = node_at g src in
    let (changed, edges) = insert_index dst n.copy_edges in
    (changed, put_node src (record n { copy_edges = edges }) g)

unfoldable pub insert_load_edge : ℕ → ℕ → ConstraintGraph → Bool × ConstraintGraph
unfolding insert_index
insert_load_edge src dst g =
    let n = node_at g src in
    let (changed, edges) = insert_index dst n.load_edges in
    (changed, put_node src (record n { load_edges = edges }) g)

unfoldable pub insert_store_edge : ℕ → ℕ → ConstraintGraph → Bool × ConstraintGraph
unfolding insert_index
insert_store_edge src dst g =
    let n = node_at g src in
    let (changed, edges) = insert_index dst n.store_edges in
    (changed, put_node src (record n { store_edges = edges }) g)

-- ConstraintGraphNode::replaceCopyEdge, replaceLoadEdge, replaceStoreEdge, on one set of edges.
unfoldable pub replace_edge : ℕ → ℕ → List ℕ → List ℕ
unfolding insert_index erase_index
replace_edge old new edges =
    let (found, rest) = erase_index old edges in if found then (insert_index new rest).1 else rest

-- ConstraintGraphNode::mergeEdges
unfoldable pub merge_edges : GraphNode → GraphNode → GraphNode
unfolding union_with
merge_edges n other = record n {
  copy_edges = (union_with n.copy_edges other.copy_edges).1;
  load_edges = (union_with n.load_edges other.load_edges).1;
  store_edges = (union_with n.store_edges other.store_edges).1;
}

-- ConstraintGraph::mergeNodes. Where dst has no node yet it gets that of src, with its index.
unfoldable pub merge_nodes : ℕ → ℕ → ConstraintGraph → ConstraintGraph
unfolding merge_edges
merge_nodes dst src g = elim (g src) [
  | none ↦ g
  | some s ↦ elim (g dst) [ none ↦ put_node dst s g | some d ↦ put_node dst (merge_edges d s) g ]
]

-- ConstraintGraph::deleteNode
abbrev pub delete_node : ℕ → ConstraintGraph → ConstraintGraph
delete_node i g j = if j == i then none else g j

-- The points-to graph, a std::map<NodeIndex, AndersPtsSet>.
abbrev pub PtsGraph : Type 0
PtsGraph = ℕ → Option (List ℕ)

-- ptsGraph[n], empty where there is no entry.
abbrev pub pts_at : PtsGraph → ℕ → List ℕ
pts_at g n = elim (g n) [ none ↦ [] | some s ↦ s ]

abbrev pub put_pts : ℕ → List ℕ → PtsGraph → PtsGraph
put_pts n s g m = if m == n then some s else g m

-- What the constraint solver changes.
pub record Solver : Type 0 where
  pub node_factory : NodeFactory
  pub pts_graph : PtsGraph
  pub constraint_graph : ConstraintGraph

-- collapseNodes
unfoldable pub collapse_nodes : ℕ → ℕ → Solver → Solver
unfolding merge_node union_with merge_nodes
collapse_nodes dst src s = if dst == src then s else record {
  node_factory = merge_node dst src s.node_factory;
  pts_graph = λ n. if n == src then none else elim (s.pts_graph src) [
    | none ↦ s.pts_graph n
    | some pts ↦ put_pts dst (union_with (pts_at s.pts_graph dst) pts).1 s.pts_graph n
  ];
  constraint_graph = delete_node src (merge_nodes dst src s.constraint_graph);
}

-- AndersWorkList: the queue, and the set against duplicates.
pub record WorkList : Type 0 where
  pub list : List ℕ
  pub set : List ℕ

-- AndersWorkList::enqueue
unfoldable pub enqueue_node : ℕ → WorkList → WorkList
unfolding has_index insert_index
enqueue_node n w =
    if not (has_index n w.set)
    then record { list = w.list ++ n ∷ []; set = (insert_index n w.set).1 }
    else w

-- AndersWorkList::dequeue, none if the assertion fails.
unfoldable pub dequeue_node : WorkList → Option (ℕ × WorkList)
unfolding erase_index
dequeue_node w = elim w.list [
  | [] ↦ none
  | n ∷ rest ↦ some (n, record { list = rest; set = (erase_index n w.set).1 })
]

-- The switch of buildConstraintGraph, on the representatives of a constraint.
unfoldable pub add_constraint : Constraint → ℕ → ℕ → Solver → Solver
unfolding insert_index insert_copy_edge insert_load_edge insert_store_edge
add_constraint c src_tgt dst_tgt s = elim c.type [
  | addr_of ↦ record s {
    pts_graph = put_pts dst_tgt (insert_index c.src (pts_at s.pts_graph dst_tgt)).1 s.pts_graph;
  }
  | load ↦ record s { constraint_graph = (insert_load_edge src_tgt dst_tgt s.constraint_graph).1 }
  | store ↦ record s { constraint_graph = (insert_store_edge dst_tgt src_tgt s.constraint_graph).1 }
  | copy ↦ record s { constraint_graph = (insert_copy_edge src_tgt dst_tgt s.constraint_graph).1 }
]

-- buildConstraintGraph, with fuel for the rounds of each getMergeTarget.
unfoldable pub build_constraint_graph : ℕ → List Constraint → Solver → Option Solver
unfolding get_merge_target add_constraint
build_constraint_graph fuel [] s = some s
build_constraint_graph fuel (c ∷ cs) s = do
  (src_tgt, f) ← get_merge_target fuel s.node_factory c.src
  (dst_tgt, f') ← get_merge_target fuel f c.dest
  build_constraint_graph fuel cs (add_constraint c src_tgt dst_tgt (record s { node_factory = f' }))
