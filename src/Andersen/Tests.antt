-- ===== src/Andersen/Tests.antt =====
-- Runs of the node factory, the worklist and the construction of the constraint graph, and the
-- theorems at concrete inputs.
mod Library
use parcoach.Base.{◌≡◌, refl, ◌↔◌, ◌⊎◌, ℕ, none, some, List, [], ◌∷◌, arith, All, length}
use parcoach.Andersen.{
  AndersNode, value_node, NodeFactory, named, constant_expr, get_element_ptr, new_factory,
  target_of, merge_node, get_merge_target, get_merge_target_const, create_value_node,
  get_value_node_for,
}
use parcoach.Andersen.Forest.{Leads, Keeps, get_merge_target-Reps}
use parcoach.Andersen.Nodes.{new, value, merged, IsWhole, Made-IsWhole}
use parcoach.Andersen.Constraints.{
  Constraint, ConstraintType, addr_of, copy, store, Solver, WorkList, build_constraint_graph,
  collapse_nodes,
}
use parcoach.Andersen.Edges.{Edge}
use parcoach.Andersen.Build.{Demands, AreNear, build_constraint_graph_iff}
use parcoach.Andersen.Collapse.{collapse_nodes-Edge}
use parcoach.Andersen.Worklist.{
  Operation, put_in, take_out, run, run_queue_of, IsConsistent, run-refines,
}

abbrev pointing : ℕ → ℕ → AndersNode
pointing i t = record { type = value_node; idx = i; merge_target = t; value = none }

-- Node 0 leads to node 2 by way of node 1.
abbrev chain : NodeFactory
chain = record new_factory { nodes = pointing 0 1 ∷ pointing 1 2 ∷ pointing 2 2 ∷ [] }

chain_compressed :
    get_merge_target 5 chain 0
    ≡ some (2, record chain { nodes = pointing 0 2 ∷ pointing 1 2 ∷ pointing 2 2 ∷ [] })
unfolding get_merge_target
chain_compressed = refl

chain-Leads : Leads chain.nodes 2 0 2
unfolding target_of
chain-Leads = (1, refl, refl, (2, refl, refl, (refl, refl)))

get_merge_target-Reps_example :
    (get_merge_target_const 2 chain 0 ≡ some 2)
    × (nodes : List AndersNode) × (get_merge_target 2 chain 0
        ≡ some (2, record chain { nodes = nodes }))
    × Keeps chain.nodes nodes
    × (length nodes ≡ 3)
get_merge_target-Reps_example = get_merge_target-Reps chain 0 2 2 2 chain-Leads (omega arith)

abbrev nine_factory : NodeFactory
nine_factory = (create_value_node (some 9) new_factory).1

nine_target : target_of nine_factory.nodes 4 ≡ some 4
unfolding target_of create_value_node
nine_target = refl

zero_target : target_of nine_factory.nodes 0 ≡ some 0
unfolding target_of create_value_node
zero_target = refl

nine_found : get_value_node_for nine_factory (constant_expr get_element_ptr (named 9)) ≡ some 4
unfolding get_value_node_for create_value_node
nine_found = refl

Made-IsWhole_example : IsWhole (merge_node 0 4 nine_factory)
Made-IsWhole_example =
    Made-IsWhole {f = merge_node 0 4 nine_factory}
      (merged {f = nine_factory} 0 4 zero_target nine_target refl (value (some 9) new))

abbrev empty_worklist : WorkList
empty_worklist = record { list = []; set = [] }

abbrev operations : List Operation
operations = put_in 3 ∷ put_in 3 ∷ put_in 1 ∷ take_out ∷ take_out ∷ []

two_taken : run operations empty_worklist ≡ some (3 ∷ 1 ∷ [])
unfolding run
two_taken = refl

empty-IsConsistent : IsConsistent empty_worklist
empty-IsConsistent = record { ascending = tt; same = λ n. (λ m. m, λ m. m); distinct = tt }

run-refines_example : run operations empty_worklist ≡ run_queue_of operations []
run-refines_example = run-refines operations empty_worklist empty-IsConsistent

-- The node 0 points to the object 1, the node 2 is a copy of it, and *2 = 0 stores through it.
abbrev constraints : List Constraint
constraints =
    record { type = addr_of; dest = 0; src = 1 }
    ∷ record { type = copy; dest = 2; src = 0 }
    ∷ record { type = store; dest = 2; src = 0 }
    ∷ []

abbrev new_solver : Solver
new_solver = record {
  node_factory = new_factory;
  pts_graph = λ n. none;
  constraint_graph = λ n. none;
}

constraints_near : All (AreNear 1 new_factory.nodes) constraints
unfolding target_of
constraints_near = (
  ((0, 1, omega arith, (refl, refl)), (0, 0, omega arith, (refl, refl))),
  (
    ((0, 0, omega arith, (refl, refl)), (0, 2, omega arith, (refl, refl))),
    (((0, 0, omega arith, (refl, refl)), (0, 2, omega arith, (refl, refl))), tt),
  ),
)

build_constraint_graph_iff_example :
    (s : Solver) × (build_constraint_graph 1 constraints new_solver ≡ some s)
    × ((t : ConstraintType) (x y : ℕ)
        → Edge s t x y ↔ (Edge new_solver t x y ⊎ Demands new_factory.nodes constraints t x y))
build_constraint_graph_iff_example =
    build_constraint_graph_iff 1 constraints new_solver constraints_near

abbrev pts_solver : Solver
pts_solver = record new_solver { pts_graph = λ n. some (1 ∷ []) }

collapse_nodes-Edge_example :
    Edge (collapse_nodes 0 2 pts_solver) addr_of 0 1
    ↔ (Edge pts_solver addr_of 0 1 ⊎ Edge pts_solver addr_of 2 1)
collapse_nodes-Edge_example = collapse_nodes-Edge pts_solver 0 2 addr_of 1 refl
