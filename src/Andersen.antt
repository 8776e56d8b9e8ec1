-- ===== src/Andersen.antt =====
-- src/aSSA/andersen, below src/include/parcoach/andersen: Andersen's points-to analysis. Here
-- NodeFactory.h and NodeFactory.cpp, the nodes of the constraint graph and their representatives.
-- A NodeIndex is a number; values and functions of LLVM are numbers.
pub mod Forest
pub mod Nodes
pub mod Constraints
pub mod Sets
pub mod Edges
pub mod Build
pub mod Worklist
pub mod Collapse
pub mod Names
pub mod Library
mod Tests
use parcoach.Base.{
  ℕ, zero, suc, Bool, true, false, Option, none, some, List, [], ◌∷◌, ◌++◌, ◌==◌, if◌then◌else◌,
  length, get_elem?, set, ◌-◌, ◌^◌,
}

pub data AndersNodeType : Type 0 where
  value_node obj_node : AndersNodeType

pub record AndersNode : Type 0 where
  pub type : AndersNodeType
  pub idx : ℕ
  pub merge_target : ℕ
  pub value : Option ℕ

-- The constructor of AndersNode.
abbrev pub new_node : AndersNodeType → ℕ → Option ℕ → AndersNode
new_node t i v = record { type = t; idx = i; merge_target = i; value = v }

-- AndersNodeFactory, each DenseMap as the function that looks up.
pub record NodeFactory : Type 0 where
  pub nodes : List AndersNode
  pub value_node_map : ℕ → Option ℕ
  pub obj_node_map : ℕ → Option ℕ
  pub return_map : ℕ → Option ℕ
  pub vararg_map : ℕ → Option ℕ

-- std::numeric_limits<unsigned>::max()
abbrev pub invalid_index : ℕ
invalid_index = 2 ^ 32 - 1

abbrev pub universal_ptr_index : ℕ
universal_ptr_index = 0

abbrev pub universal_obj_index : ℕ
universal_obj_index = 1

abbrev pub null_ptr_index : ℕ
null_ptr_index = 2

abbrev pub null_object_index : ℕ
null_object_index = 3

-- AndersNodeFactory::AndersNodeFactory
abbrev pub new_factory : NodeFactory
new_factory = record {
  nodes =
      new_node value_node 0 none
      ∷ new_node obj_node 1 none
      ∷ new_node value_node 2 none
      ∷ new_node obj_node 3 none
      ∷ [];
  value_node_map = λ v. none;
  obj_node_map = λ v. none;
  return_map = λ f. none;
  vararg_map = λ f. none;
}

abbrev pub map_to : (ℕ → Option ℕ) → ℕ → ℕ → ℕ → Option ℕ
map_to m v i w = if w == v then some i else m w

-- createValueNode, with the null pointer as none.
unfoldable pub create_value_node : Option ℕ → NodeFactory → ℕ × NodeFactory
create_value_node v f =
    let next = length f.nodes in
    let f' : NodeFactory = record f { nodes = f.nodes ++ new_node value_node next v ∷ [] } in
    elim v [
      | none ↦ (next, f')
      | some w ↦ (next, record f' { value_node_map = map_to f.value_node_map w next })
    ]

-- createObjectNode
unfoldable pub create_object_node : Option ℕ → NodeFactory → ℕ × NodeFactory
create_object_node v f =
    let next = length f.nodes in
    let f' : NodeFactory = record f { nodes = f.nodes ++ new_node obj_node next v ∷ [] } in
    elim v [
      | none ↦ (next, f')
      | some w ↦ (next, record f' { obj_node_map = map_to f.obj_node_map w next })
    ]

-- createReturnNode
unfoldable pub create_return_node : ℕ → NodeFactory → ℕ × NodeFactory
create_return_node fn f =
    let next = length f.nodes in
    (
      next,
      record f {
        nodes = f.nodes ++ new_node value_node next (some fn) ∷ [];
        return_map = map_to f.return_map fn next;
      },
    )

-- createVarargNode
unfoldable pub create_vararg_node : ℕ → NodeFactory → ℕ × NodeFactory
create_vararg_node fn f =
    let next = length f.nodes in
    (
      next,
      record f {
        nodes = f.nodes ++ new_node obj_node next (some fn) ∷ [];
        vararg_map = map_to f.vararg_map fn next;
      },
    )

abbrev pub or_invalid : Option ℕ → ℕ
or_invalid none = invalid_index
or_invalid (some i) = i

-- getReturnNodeFor, getVarargNodeFor
unfoldable pub get_return_node_for : NodeFactory → ℕ → ℕ
get_return_node_for f fn = or_invalid (f.return_map fn)

unfoldable pub get_vararg_node_for : NodeFactory → ℕ → ℕ
get_vararg_node_for f fn = or_invalid (f.vararg_map fn)

-- What the analysis tells apart among the pointers: the constant expressions by their opcode, null
-- and undef, other constants, and the values with a number (globals, arguments, instructions).
pub data Opcode : Type 0 where
  get_element_ptr int_to_ptr ptr_to_int bit_cast addr_space_cast other_opcode : Opcode

pub data Pointer : Type 0 where
  named : ℕ → Pointer
  null_ptr undef other_constant : Pointer
  constant_expr : Opcode → Pointer → Pointer

-- getValueNodeFor and getValueNodeForConstant, which differ in nothing on constants; none is
-- llvm_unreachable.
unfoldable pub get_value_node_for : NodeFactory → Pointer → Option ℕ
get_value_node_for f (named v) = some (or_invalid (f.value_node_map v))
get_value_node_for f null_ptr = some null_ptr_index
get_value_node_for f undef = some null_ptr_index
get_value_node_for f other_constant = none
get_value_node_for f (constant_expr op p) =
    let operand = get_value_node_for f p in
    elim op [
      | get_element_ptr ↦ operand
      | int_to_ptr ↦ some universal_ptr_index
      | ptr_to_int ↦ some universal_ptr_index
      | bit_cast ↦ operand
      | addr_space_cast ↦ operand
      | other_opcode ↦ none
    ]

-- getObjectNodeFor and getObjectNodeForConstant; undef has no object.
unfoldable pub get_object_node_for : NodeFactory → Pointer → Option ℕ
get_object_node_for f (named v) = some (or_invalid (f.obj_node_map v))
get_object_node_for f null_ptr = some null_object_index
get_object_node_for f undef = none
get_object_node_for f other_constant = none
get_object_node_for f (constant_expr op p) =
    let operand = get_object_node_for f p in
    elim op [
      | get_element_ptr ↦ operand
      | int_to_ptr ↦ some universal_obj_index
      | ptr_to_int ↦ some universal_obj_index
      | bit_cast ↦ operand
      | addr_space_cast ↦ operand
      | other_opcode ↦ none
    ]

-- nodes[n].mergeTarget, none outside the vector.
unfoldable pub target_of : List AndersNode → ℕ → Option ℕ
target_of [] n = none
target_of (a ∷ nodes) zero = some a.merge_target
target_of (a ∷ nodes) (suc n) = target_of nodes n

-- nodes[n].mergeTarget = r
unfoldable pub set_target : List AndersNode → ℕ → ℕ → List AndersNode
set_target [] n r = []
set_target (a ∷ nodes) zero r = record a { merge_target = r } ∷ nodes
set_target (a ∷ nodes) (suc n) r = a ∷ set_target nodes n r

-- AndersNodeFactory::mergeNode
unfoldable pub merge_node : ℕ → ℕ → NodeFactory → NodeFactory
unfolding set_target
merge_node n0 n1 f = record f { nodes = set_target f.nodes n1 n0 }

-- The loop of getMergeTarget const, with fuel for its rounds.
unfoldable pub follow : ℕ → List AndersNode → ℕ → Option ℕ
unfolding target_of
follow zero nodes ret = elim (target_of nodes ret) [
  | none ↦ none
  | some t ↦ if ret == t then some ret else none
]
follow (suc fuel) nodes ret = elim (target_of nodes ret) [
  | none ↦ none
  | some t ↦ let rest = follow fuel nodes t in if ret == t then some ret else rest
]

-- AndersNodeFactory::getMergeTarget const
unfoldable pub get_merge_target_const : ℕ → NodeFactory → ℕ → Option ℕ
unfolding target_of follow
get_merge_target_const fuel f n = elim (target_of f.nodes n) [
  | none ↦ none
  | some ret ↦ follow fuel f.nodes ret
]

-- The loop that also collects the path.
unfoldable pub follow_path : ℕ → List AndersNode → List ℕ → ℕ → Option (ℕ × List ℕ)
unfolding target_of
follow_path zero nodes path ret = elim (target_of nodes ret) [
  | none ↦ none
  | some t ↦ if ret == t then some (ret, path) else none
]
follow_path (suc fuel) nodes path ret = elim (target_of nodes ret) [
  | none ↦ none
  | some t ↦
      let rest = follow_path fuel nodes (path ++ ret ∷ []) t in
      if ret == t then some (ret, path) else rest
]

-- The loop over the path, which points all its nodes at the representative.
unfoldable pub compress : List ℕ → ℕ → List AndersNode → List AndersNode
unfolding set_target
compress [] ret nodes = nodes
compress (i ∷ path) ret nodes = compress path ret (set_target nodes i ret)

-- AndersNodeFactory::getMergeTarget
unfoldable pub get_merge_target : ℕ → NodeFactory → ℕ → Option (ℕ × NodeFactory)
unfolding target_of follow_path compress
get_merge_target fuel f n = elim (target_of f.nodes n) [
  | none ↦ none
  | some ret ↦ if ret == n then some (ret, f) else elim (follow_path fuel f.nodes (n ∷ []) ret) [
    | none ↦ none
    | some (rep, path) ↦ some (rep, record f { nodes = compress path rep f.nodes })
  ]
]
