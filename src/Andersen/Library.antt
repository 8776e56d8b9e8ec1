-- ===== src/Andersen/Library.antt =====
-- src/aSSA/andersen/ExternalLibrary.cpp: addConstraintForExternalLibrary, the nodes and constraints
-- for a call of a function whose body is not known. None is an assertion that fails: an operand that
-- is not there, or one that has no node.
pub mod Below
pub mod Extends
pub mod Keeps
use text.Mathlib.Text.{◌==◌ as str_eq}
use Prim.Native.String.{String}
use parcoach.Base.{
  ℕ, Bool, true, false, not, Option, none, some, List, [], ◌∷◌, ◌++◌, ◌==◌, ◌&&◌, ◌||◌,
  if◌then◌else◌, ◌>>=◌, get_elem?,
}
use parcoach.Andersen.{
  NodeFactory, Pointer, null_ptr, invalid_index, or_invalid, create_value_node, create_object_node,
  get_value_node_for, get_vararg_node_for,
}
use parcoach.Andersen.Constraints.{ConstraintType, Constraint, addr_of, copy, load, store}
use parcoach.Andersen.Names.{
  noop_funcs, malloc_funcs, realloc_funcs, ret_arg0_funcs, ret_arg1_funcs, ret_arg2_funcs,
  memcpy_funcs, convert_funcs, lookup_name,
}

-- CallBase with the function it calls: the number of the instruction, the name, the operands, and the
-- function around it, with whether that takes variable arguments.
pub record CallSite : Type 0 where
  pub result : ℕ
  pub name : String
  pub operands : List Pointer
  pub parent : ℕ
  pub is_var_arg : Bool

-- The members nodeFactory and constraints of Andersen.
pub record Collected : Type 0 where
  pub factory : NodeFactory
  pub constraints : List Constraint

-- constraints.emplace_back
unfoldable pub emplace_constraint : ConstraintType → ℕ → ℕ → Collected → Collected
emplace_constraint type dest src s = record s {
  constraints = s.constraints ++ (record { type = type; dest = dest; src = src }) ∷ [];
}

-- isa<ConstantPointerNull>(cs.getArgOperand(n))
unfoldable pub is_null_operand : CallSite → ℕ → Option Bool
is_null_operand cs n = do p ← get_elem? cs.operands n; some (elim p [ null_ptr ↦ true | _ ↦ false ])

-- getValueNodeFor(cs.getArgOperand(n)), and the assertion that it is found.
unfoldable pub operand_node : NodeFactory → CallSite → ℕ → Option ℕ
unfolding get_value_node_for
operand_node f cs n = do
  p ← get_elem? cs.operands n
  i ← get_value_node_for f p
  if i == invalid_index then none else some i

-- getValueNodeFor(&cs)
unfoldable pub result_node : NodeFactory → CallSite → ℕ
result_node f cs = or_invalid (f.value_node_map cs.result)

-- The call allocates memory.
unfoldable pub add_malloc : CallSite → Collected → Option Collected
unfolding create_object_node result_node operand_node emplace_constraint
add_malloc cs s =
    let (obj_index, f) = create_object_node (some cs.result) s.factory in
    let ptr_index = result_node f cs in
    let t : Collected = record s { factory = f } in
    if ptr_index == invalid_index
    then (if str_eq cs.name "posix_memalign"
        then (do
          arg0_index ← operand_node f cs 0
          some (emplace_constraint store arg0_index obj_index t))
        else none)
    else some (emplace_constraint addr_of ptr_index obj_index t)

-- The call returns its first operand, where it is used as a pointer.
unfoldable pub add_ret_arg0 : CallSite → Collected → Option Collected
unfolding result_node operand_node emplace_constraint
add_ret_arg0 cs s =
    let ret_index = result_node s.factory cs in
    if ret_index == invalid_index then some s else (do
      arg0_index ← operand_node s.factory cs 0
      some (emplace_constraint copy ret_index arg0_index s))

-- The call returns another operand.
unfoldable pub add_ret_arg : ℕ → CallSite → Collected → Option Collected
unfolding result_node operand_node emplace_constraint
add_ret_arg n cs s =
    let ret_index = result_node s.factory cs in
    if ret_index == invalid_index then none else (do
      arg_index ← operand_node s.factory cs n
      some (emplace_constraint copy ret_index arg_index s))

-- The call copies memory.
unfoldable pub add_memcpy : CallSite → Collected → Option Collected
unfolding create_value_node result_node operand_node emplace_constraint
add_memcpy cs s = do
  arg0_index ← operand_node s.factory cs 0
  arg1_index ← operand_node s.factory cs 1
  let (temp_index, f) = create_value_node none s.factory
  let t =
      emplace_constraint store arg0_index temp_index
        (emplace_constraint load temp_index arg1_index (record s { factory = f }))
  let ret_index = result_node f cs
  some (if ret_index == invalid_index then t else emplace_constraint copy ret_index arg0_index t)

-- The call stores the end of what it has read, unless the place for it is null.
unfoldable pub add_convert : CallSite → Collected → Option Collected
unfolding is_null_operand operand_node emplace_constraint
add_convert cs s = do
  is_null ← is_null_operand cs 1
  if is_null then some s else (do
    arg0_index ← operand_node s.factory cs 0
    arg1_index ← operand_node s.factory cs 1
    some (emplace_constraint store arg0_index arg1_index s))

-- llvm.va_start
unfoldable pub add_va_start : CallSite → Collected → Option Collected
unfolding operand_node get_vararg_node_for emplace_constraint
add_va_start cs s =
    if cs.is_var_arg
    then (do
      arg0_index ← operand_node s.factory cs 0
      let va_index = get_vararg_node_for s.factory cs.parent
      if va_index == invalid_index
          then none
          else some (emplace_constraint addr_of arg0_index va_index s))
    else none

-- The tables after those for reallocation, in the order in which they are searched. True is that the
-- function is known.
unfoldable pub add_known : CallSite → Collected → Option (Bool × Collected)
unfolding add_ret_arg add_memcpy add_convert add_va_start lookup_name
add_known cs s =
    let known : Option Collected → Option (Bool × Collected) = λ r. r >>= (λ t. some (true, t)) in
    if lookup_name ret_arg1_funcs cs.name
    then known (add_ret_arg 1 cs s)
    else if lookup_name ret_arg2_funcs cs.name
    then known (add_ret_arg 2 cs s)
    else if lookup_name memcpy_funcs cs.name
    then known (add_memcpy cs s)
    else if lookup_name convert_funcs cs.name
    then known (add_convert cs s)
    else if str_eq cs.name "llvm.va_start"
    then known (add_va_start cs s)
    else some (false, s)

-- addConstraintForExternalLibrary
unfoldable pub add_constraint_for_external_library :
    CallSite → Collected → Option (Bool × Collected)
unfolding add_malloc add_ret_arg0 add_known is_null_operand lookup_name
add_constraint_for_external_library cs s =
    let is_realloc_like = lookup_name realloc_funcs cs.name in
    if lookup_name noop_funcs cs.name then some (true, s) else (do
      is_null ← if is_realloc_like then is_null_operand cs 0 else some false
      if lookup_name malloc_funcs cs.name || (is_realloc_like && not is_null)
          then (do t ← add_malloc cs s; some (true, t))
          else if lookup_name ret_arg0_funcs cs.name || (is_realloc_like && is_null)
          then (do t ← add_ret_arg0 cs s; some (true, t))
          else add_known cs s)
