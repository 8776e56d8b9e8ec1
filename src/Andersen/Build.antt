-- ===== src/Andersen/Build.antt =====
-- ConstraintSolving.cpp, buildConstraintGraph: the graph has the edges that the constraints ask for,
-- between the representatives of their nodes, and no others.
use parcoach.Base.{
  ◌≡◌, refl, sym, ap, ◌⊎◌, inl, inr, ◌↔◌, ℕ, ◌≤◌, some, List, [], ◌∷◌, arith, All, subst,
}
use parcoach.Andersen.{AndersNode, NodeFactory}
use parcoach.Andersen.Forest.{Leads, Reps, Keeps, Leads-unique, get_merge_target-Reps}
use parcoach.Andersen.Constraints.{
  Constraint, ConstraintType, addr_of, copy, load, store, Solver, add_constraint,
  build_constraint_graph,
}
use parcoach.Andersen.Edges.{Edge, Place, add_constraint_iff}

-- The constraint asks for the edge between the representatives of its nodes.
abbrev pub Demand : List AndersNode → Constraint → ConstraintType → ℕ → ℕ → Type 0
Demand nodes c t x y =
    (c.type ≡ t)
    × ((p : ℕ) × (q : ℕ) × Reps nodes c.src p × Reps nodes c.dest q × Place t c.src p q x y)

abbrev pub Demands : List AndersNode → List Constraint → ConstraintType → ℕ → ℕ → Type 0
Demands nodes [] t x y = ⊥
Demands nodes (c ∷ cs) t x y = Demand nodes c t x y ⊎ Demands nodes cs t x y

-- The node has a representative that is reached within the fuel.
abbrev pub IsNear : ℕ → List AndersNode → ℕ → Type 0
IsNear fuel nodes n = (k : ℕ) × (r : ℕ) × (k ≤ fuel) × Leads nodes k n r

abbrev pub AreNear : ℕ → List AndersNode → Constraint → Type 0
AreNear fuel nodes c = IsNear fuel nodes c.src × IsNear fuel nodes c.dest

kept-IsNear :
    (fuel : ℕ) (nodes nodes' : List AndersNode) (n : ℕ)
    → Keeps nodes nodes'
    → IsNear fuel nodes n
    → IsNear fuel nodes' n
kept-IsNear fuel nodes nodes' n keeps (k, r, le, leads) =
    let (j, near, leads') = keeps k n r leads in (j, r, omega arith, leads')

-- A demand is for the place that the given representatives determine.
Demand-Place :
    (nodes : List AndersNode) (c : Constraint) (k l p q : ℕ) (t : ConstraintType) (x y : ℕ)
    → Leads nodes k c.src p
    → Leads nodes l c.dest q
    → Demand nodes c t x y ↔ ((c.type ≡ t) × Place t c.src p q x y)
Demand-Place nodes c k l p q t x y hp hq = (
  λ (e, (p', q', (k', hp'), (l', hq'), place)).
      let same_p = Leads-unique nodes k' k c.src p' p hp' hp in
      let same_q = Leads-unique nodes l' l c.dest q' q hq' hq in
      (
        e,
        subst (λ z. Place t c.src p z x y) same_q
            (subst (λ z. Place t c.src z q' x y) same_p place),
      ),
  λ (e, place). (e, (p, q, (k, hp), (l, hq), place)),
)

Demands-kept :
    (fuel : ℕ) (nodes nodes' : List AndersNode) (cs : List Constraint) (t : ConstraintType)
    (x y : ℕ)
    → Keeps nodes nodes'
    → All (AreNear fuel nodes) cs
    → Demands nodes' cs t x y ↔ Demands nodes cs t x y
Demands-kept fuel nodes nodes' [] t x y keeps h = ground arith
Demands-kept fuel nodes nodes' (c ∷ cs) t x y keeps (((k, p, le, hp), (l, q, le', hq)), h) =
    let (k', _, hp') = keeps k c.src p hp in
    let (l', _, hq') = keeps l c.dest q hq in
    let old = Demand-Place nodes c k l p q t x y hp hq in
    let new = Demand-Place nodes' c k' l' p q t x y hp' hq' in
    let rest = Demands-kept fuel nodes nodes' cs t x y keeps h in
    (
      λ d. elim d [ inl own ↦ inl (old.1 (new.0 own)) | inr other' ↦ inr (rest.0 other') ],
      λ d. elim d [ inl own ↦ inl (new.1 (old.0 own)) | inr other' ↦ inr (rest.1 other') ],
    )

add_constraint-factory :
    (ty : ConstraintType) (dest src p q : ℕ) (s : Solver)
    → (add_constraint (record { type = ty; dest = dest; src = src }) p q s).node_factory
      ≡ s.node_factory
unfolding add_constraint
add_constraint-factory addr_of dest src p q s = refl
add_constraint-factory copy dest src p q s = refl
add_constraint-factory load dest src p q s = refl
add_constraint-factory store dest src p q s = refl

Edge-factory :
    (s : Solver) (f : NodeFactory) (t : ConstraintType) (x y : ℕ)
    → Edge (record s { node_factory = f }) t x y ↔ Edge s t x y
Edge-factory s f addr_of x y = (λ m. m, λ m. m)
Edge-factory s f copy x y = (λ m. m, λ m. m)
Edge-factory s f load x y = (λ m. m, λ m. m)
Edge-factory s f store x y = (λ m. m, λ m. m)

-- The edges of all rounds, from those of the first one and those of the rest.
chained :
    (Whole First Old Unchanged Own Rest Left Right : Type 0)
    → Whole ↔ (First ⊎ Left)
    → First ↔ (Old ⊎ Own)
    → Old ↔ Unchanged
    → Left ↔ Rest
    → Right ↔ Own
    → Whole ↔ (Unchanged ⊎ (Right ⊎ Rest))
chained Whole First Old Unchanged Own Rest Left Right h1 h2 h3 h4 h5 = ground arith

All-near :
    (fuel : ℕ) (nodes nodes' : List AndersNode) (cs : List Constraint)
    → Keeps nodes nodes'
    → All (AreNear fuel nodes) cs
    → All (AreNear fuel nodes') cs
All-near fuel nodes nodes' [] keeps h = tt
All-near fuel nodes nodes' (c ∷ cs) keeps ((src, dest), h) = (
  (kept-IsNear fuel nodes nodes' c.src keeps src, kept-IsNear fuel nodes nodes' c.dest keeps dest),
  All-near fuel nodes nodes' cs keeps h,
)

-- Given rounds for the way of each node to its representative, buildConstraintGraph ends. Then an
-- edge, or an element of a points-to set, is there if it was there before or one of the constraints
-- asks for it, and not otherwise.
pub build_constraint_graph_iff :
    (fuel : ℕ) (cs : List Constraint) (s : Solver)
    → All (AreNear fuel s.node_factory.nodes) cs
    → (s' : Solver) × (build_constraint_graph fuel cs s ≡ some s')
      × ((t : ConstraintType) (x y : ℕ)
          → Edge s' t x y ↔ (Edge s t x y ⊎ Demands s.node_factory.nodes cs t x y))
unfolding build_constraint_graph
build_constraint_graph_iff fuel [] s h = (s, refl, λ t x y. ground arith)
build_constraint_graph_iff fuel (c ∷ cs) s (((k, p, le, hp), (l, q, le', hq)), h) =
    let f = s.node_factory in
    let (_, nodes1, runs1, keeps1, _) = get_merge_target-Reps f c.src p k fuel hp le in
    let f1 : NodeFactory = record f { nodes = nodes1 } in
    let (l1, near1, hq1) = keeps1 l c.dest q hq in
    let (_, nodes2, runs2, keeps2, _) =
      get_merge_target-Reps f1 c.dest q l1 fuel hq1 (omega arith) in
    let keeps : Keeps f.nodes nodes2 = λ i n r leads.
      let (i1, le1, leads1) = keeps1 i n r leads in
      let (i2, le2, leads2) = keeps2 i1 n r leads1 in (i2, omega arith, leads2) in
    let u : Solver = record s { node_factory = record f1 { nodes = nodes2 } } in
    let v = add_constraint c p q u in
    let same = ap (λ g. g.nodes) (add_constraint-factory c.type c.dest c.src p q u) in
    let near =
      subst (λ ns. All (AreNear fuel ns) cs) (sym same) (All-near fuel f.nodes nodes2 cs keeps h) in
    let (s', runs, edges) = build_constraint_graph_iff fuel cs v near in
    (
      s',
      rw (runs1, runs2) runs,
      λ t x y.
          let step = add_constraint_iff c.type c.dest c.src p q u t x y in
          let own = Demand-Place f.nodes c k l p q t x y hp hq in
          let kept =
            subst (λ ns. Demands ns cs t x y ↔ Demands f.nodes cs t x y) (sym same)
              (Demands-kept fuel f.nodes nodes2 cs t x y keeps h) in
          let all = edges t x y in
          chained _ _ _ _ _ _ _ _ all step (Edge-factory s (record f1 { nodes = nodes2 }) t x y)
            kept own,
    )
