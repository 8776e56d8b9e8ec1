-- ===== src/Andersen/Edges.antt =====
-- ConstraintSolving.cpp: the edges of a solver's state, and what one constraint adds to them.
use parcoach.Base.{
  ◌≡◌, refl, sym, ◌∙◌, ap, ◌⊎◌, inl, inr, ◌↔◌, ℕ, Option, List, ◌==◌, arith, if◌then◌else◌,
  Bool-cases, In, subst,
}
use parcoach.Andersen.Constraints.{
  GraphNode, ConstraintType, addr_of, copy, load, store, Solver, node_at, pts_at, insert_index,
  insert_copy_edge, insert_load_edge, insert_store_edge, put_node, put_pts, add_constraint,
}
use parcoach.Andersen.Sets.{In-insert_index}

-- The node y is in the points-to set of x, or x has an edge of the given type to y.
abbrev pub Edge : Solver → ConstraintType → ℕ → ℕ → Type 0
Edge s addr_of x y = In y (pts_at s.pts_graph x)
Edge s copy x y = In y (node_at s.constraint_graph x).copy_edges
Edge s load x y = In y (node_at s.constraint_graph x).load_edges
Edge s store x y = In y (node_at s.constraint_graph x).store_edges

-- Where a constraint of the given type leads from and to, if its source is represented by p and its
-- destination by q. The address that is taken is that of the source itself.
abbrev pub Place : ConstraintType → ℕ → ℕ → ℕ → ℕ → ℕ → Type 0
Place addr_of src p q x y = (x ≡ q) × (y ≡ src)
Place copy src p q x y = (x ≡ p) × (y ≡ q)
Place load src p q x y = (x ≡ p) × (y ≡ q)
Place store src p q x y = (x ≡ q) × (y ≡ p)

-- What insertion into the entry of i does to the entry of x.
pub In-entry :
    (g : ℕ → List ℕ) (i n x y : ℕ)
    → In y (if x == i then (insert_index n (g i)).1 else g x) ↔ (In y (g x) ⊎ ((x ≡ i) × (y ≡ n)))
In-entry g i n x y = elim (Bool-cases (x == i)) [
  | inl here ↦
      let at : x ≡ i = ground arith in
      rw here (
        subst (λ z. In y (insert_index n (g i)).1 ↔ (In y (g z) ⊎ ((z ≡ i) × (y ≡ n)))) (sym at)
          (let put = In-insert_index y n (g i) in ground arith))
  | inr away ↦ rw away (ground arith)
]

pub pts_put :
    (g : ℕ → Option (List ℕ)) (i x : ℕ) (set : List ℕ)
    → pts_at (put_pts i set g) x ≡ (if x == i then set else pts_at g x)
pts_put g i x set = elim (Bool-cases (x == i)) [
  | inl here ↦ rw (here, pts_at) refl
  | inr away ↦ rw (away, pts_at) refl
]

pub edges_put :
    (edges : GraphNode → List ℕ) (g : ℕ → Option GraphNode) (i x : ℕ) (n : GraphNode)
    → edges (node_at (put_node i n g) x) ≡ (if x == i then edges n else edges (node_at g x))
edges_put edges g i x n = elim (Bool-cases (x == i)) [
  | inl here ↦ rw (here, node_at) refl
  | inr away ↦ rw (away, node_at) refl
]

-- Where the edges are those of before at i too, they are those of before everywhere.
pub edges_put-same :
    (edges : GraphNode → List ℕ) (g : ℕ → Option GraphNode) (i x : ℕ) (n : GraphNode)
    → edges n ≡ edges (node_at g i)
    → edges (node_at (put_node i n g) x) ≡ edges (node_at g x)
edges_put-same edges g i x n e = elim (Bool-cases (x == i)) [
  | inl here ↦
      let at : i ≡ x = ground arith in
      edges_put edges g i x n ∙ rw here (e ∙ ap (λ z. edges (node_at g z)) at)
  | inr away ↦ edges_put edges g i x n ∙ rw away refl
]

pub add_constraint_iff :
    (ty : ConstraintType) (dest src p q : ℕ) (s : Solver) (t : ConstraintType) (x y : ℕ)
    → Edge (add_constraint (record { type = ty; dest = dest; src = src }) p q s) t x y
      ↔ (Edge s t x y ⊎ ((ty ≡ t) × Place t src p q x y))
unfolding add_constraint insert_copy_edge insert_load_edge insert_store_edge
add_constraint_iff addr_of dest src p q s addr_of x y =
    let entry = In-entry (pts_at s.pts_graph) q src x y in
    rw (pts_put s.pts_graph q x (insert_index src (pts_at s.pts_graph q)).1) (ground arith)
add_constraint_iff addr_of dest src p q s copy x y = ground arith
add_constraint_iff addr_of dest src p q s load x y = ground arith
add_constraint_iff addr_of dest src p q s store x y = ground arith
add_constraint_iff copy dest src p q s addr_of x y = ground arith
add_constraint_iff copy dest src p q s copy x y =
    let g = s.constraint_graph in
    let entry = In-entry (λ z. (node_at g z).copy_edges) p q x y in
    rw
      (edges_put (λ n. n.copy_edges) g p x
        (record (node_at g p) { copy_edges = (insert_index q (node_at g p).copy_edges).1 }))
      (ground arith)
add_constraint_iff copy dest src p q s load x y =
    let g = s.constraint_graph in
    rw
      (edges_put-same (λ n. n.load_edges) g p x
        (record (node_at g p) { copy_edges = (insert_index q (node_at g p).copy_edges).1 }) refl)
      (ground arith)
add_constraint_iff copy dest src p q s store x y =
    let g = s.constraint_graph in
    rw
      (edges_put-same (λ n. n.store_edges) g p x
        (record (node_at g p) { copy_edges = (insert_index q (node_at g p).copy_edges).1 }) refl)
      (ground arith)
add_constraint_iff load dest src p q s addr_of x y = ground arith
add_constraint_iff load dest src p q s copy x y =
    let g = s.constraint_graph in
    rw
      (edges_put-same (λ n. n.copy_edges) g p x
        (record (node_at g p) { load_edges = (insert_index q (node_at g p).load_edges).1 }) refl)
      (ground arith)
add_constraint_iff load dest src p q s load x y =
    let g = s.constraint_graph in
    let entry = In-entry (λ z. (node_at g z).load_edges) p q x y in
    rw
      (edges_put (λ n. n.load_edges) g p x
        (record (node_at g p) { load_edges = (insert_index q (node_at g p).load_edges).1 }))
      (ground arith)
add_constraint_iff load dest src p q s store x y =
    let g = s.constraint_graph in
    rw
      (edges_put-same (λ n. n.store_edges) g p x
        (record (node_at g p) { load_edges = (insert_index q (node_at g p).load_edges).1 }) refl)
      (ground arith)
add_constraint_iff store dest src p q s addr_of x y = ground arith
add_constraint_iff store dest src p q s copy x y =
    let g = s.constraint_graph in
    rw
      (edges_put-same (λ n. n.copy_edges) g q x
        (record (node_at g q) { store_edges = (insert_index p (node_at g q).store_edges).1 }) refl)
      (ground arith)
add_constraint_iff store dest src p q s load x y =
    let g = s.constraint_graph in
    rw
      (edges_put-same (λ n. n.load_edges) g q x
        (record (node_at g q) { store_edges = (insert_index p (node_at g q).store_edges).1 }) refl)
      (ground arith)
add_constraint_iff store dest src p q s store x y =
    let g = s.constraint_graph in
    let entry = In-entry (λ z. (node_at g z).store_edges) q p x y in
    rw
      (edges_put (λ n. n.store_edges) g q x
        (record (node_at g q) { store_edges = (insert_index p (node_at g q).store_edges).1 }))
      (ground arith)
