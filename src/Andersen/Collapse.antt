-- ===== src/Andersen/Collapse.antt =====
-- ConstraintSolving.cpp, collapseNodes: the edges of the node that is collapsed go to the other one.
use parcoach.Base.{
  ◌≡◌, refl, ◌⊎◌, inl, inr, ◌↔◌, ℕ, true, false, none, some, List, [], ◌==◌, arith, Option-cases,
  In,
}
use parcoach.Andersen.Constraints.{
  new_graph_node, ConstraintType, addr_of, copy, load, store, Solver, GraphNode, ConstraintGraph,
  node_at, pts_at, delete_node, union_with, merge_edges, merge_nodes, collapse_nodes,
}
use parcoach.Andersen.Sets.{In-union_with}
use parcoach.Andersen.Edges.{Edge}

==-self : (n : ℕ) → (n == n) ≡ true
==-self n = ground arith

pts_dst :
    (s : Solver) (dst src y : ℕ)
    → dst == src ≡ false
    → In y (pts_at (collapse_nodes dst src s).pts_graph dst)
      ↔ (In y (pts_at s.pts_graph dst) ⊎ In y (pts_at s.pts_graph src))
unfolding collapse_nodes
pts_dst s dst src y off = elim (Option-cases (s.pts_graph src)) [
  | inl gone ↦
      let value : pts_at (collapse_nodes dst src s).pts_graph dst ≡ pts_at s.pts_graph dst =
        rw (off, collapse_nodes, gone, pts_at, off) refl in
      rw (value, gone, pts_at) (ground arith)
  | inr (pts, at) ↦
      let value : pts_at (collapse_nodes dst src s).pts_graph dst
          ≡ (union_with (pts_at s.pts_graph dst) pts).1 =
        rw (off, collapse_nodes, at, ==-self dst, pts_at, off) refl in
      rw (value, at, pts_at) (In-union_with y (pts_at s.pts_graph dst) pts)
]

node_dst :
    (g : ConstraintGraph) (dst src : ℕ)
    → dst == src ≡ false
    → ((g src ≡ none) × (node_at (delete_node src (merge_nodes dst src g)) dst ≡ node_at g dst))
      ⊎ ((s : GraphNode) × (g src ≡ some s)
          × (((g dst ≡ none) × (node_at (delete_node src (merge_nodes dst src g)) dst ≡ s))
              ⊎ ((d : GraphNode) × (g dst ≡ some d)
                  × (node_at (delete_node src (merge_nodes dst src g)) dst ≡ merge_edges d s))))
unfolding merge_nodes
node_dst g dst src off = elim (Option-cases (g src)) [
  | inl gone ↦ inl (gone, rw (off, node_at, merge_nodes, gone) refl)
  | inr (s, at_src) ↦ inr (
    s,
    at_src,
    elim (Option-cases (g dst)) [
      | inl new ↦ inl (new, rw (off, node_at, merge_nodes, at_src, new, ==-self dst) refl)
      | inr (d, at_dst) ↦
          inr (d, at_dst, rw (off, node_at, merge_nodes, at_src, at_dst, ==-self dst) refl)
    ],
  )
]

-- The edges of a field of the node that dst has afterwards.
module _ (s : Solver) (dst src y : ℕ) (off : dst == src ≡ false) where
  abbrev Joined : (GraphNode → List ℕ) → Type 0
  Joined edges = In y (edges (node_at (collapse_nodes dst src s).constraint_graph dst)) ↔ (
      In y (edges (node_at s.constraint_graph dst)) ⊎ In y (edges (node_at s.constraint_graph src)))

  node-Joined :
      (edges : GraphNode → List ℕ)
      → ((i : ℕ) → edges (new_graph_node i) ≡ [])
      → ((d e : GraphNode) → edges (merge_edges d e) ≡ (union_with (edges d) (edges e)).1)
      → Joined edges
  unfolding collapse_nodes
  node-Joined edges empty merged =
      let g = s.constraint_graph in
      let opened : (collapse_nodes dst src s).constraint_graph
          ≡ delete_node src (merge_nodes dst src g) =
        rw (off, collapse_nodes) refl in
      elim (node_dst g dst src off) [
        | inl (gone, value) ↦
            let none_src : edges (node_at g src) ≡ [] = rw (gone, node_at) (empty src) in
            rw (opened, value, none_src) (ground arith)
        | inr (n, at_src, inl (new, value)) ↦
            let none_dst : edges (node_at g dst) ≡ [] = rw (new, node_at) (empty dst) in
            let some_src : edges (node_at g src) ≡ edges n = rw (at_src, node_at) refl in
            rw (opened, value, none_dst, some_src) (ground arith)
        | inr (n, at_src, inr (d, at_dst, value)) ↦
            let some_dst : edges (node_at g dst) ≡ edges d = rw (at_dst, node_at) refl in
            let some_src : edges (node_at g src) ≡ edges n = rw (at_src, node_at) refl in
            rw (opened, value, some_dst, some_src, merged d n) (In-union_with y (edges d) (edges n))
      ]

-- After collapseNodes(dst, src) of different nodes, dst has the points-to set and the edges of both.
pub collapse_nodes-Edge :
    (s : Solver) (dst src : ℕ) (t : ConstraintType) (y : ℕ)
    → dst == src ≡ false
    → Edge (collapse_nodes dst src s) t dst y ↔ (Edge s t dst y ⊎ Edge s t src y)
unfolding merge_edges
collapse_nodes-Edge s dst src addr_of y off = pts_dst s dst src y off
collapse_nodes-Edge s dst src copy y off =
    node-Joined s dst src y off (λ n. n.copy_edges) (λ i. refl) (λ d e. refl)
collapse_nodes-Edge s dst src load y off =
    node-Joined s dst src y off (λ n. n.load_edges) (λ i. refl) (λ d e. refl)
collapse_nodes-Edge s dst src store y off =
    node-Joined s dst src y off (λ n. n.store_edges) (λ i. refl) (λ d e. refl)
