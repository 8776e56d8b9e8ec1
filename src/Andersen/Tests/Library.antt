-- ===== src/Andersen/Tests/Library.antt =====
-- Calls of external functions.
use Prim.Native.String.{String}
use parcoach.Base.{◌≡◌, refl, none, some, List, [], ◌∷◌, ◌++◌, arith, true, false}
use parcoach.Andersen.{NodeFactory, named, new_factory, create_value_node}
use parcoach.Andersen.Nodes.{new, value, Made-IsWhole}
use parcoach.Andersen.Constraints.{Constraint, copy, load, store}
use parcoach.Andersen.Library.{CallSite, Collected, add_constraint_for_external_library}
use parcoach.Andersen.Library.Below.{IsCollected}
use parcoach.Andersen.Library.Keeps.{add_constraint_for_external_library-IsCollected}

-- Values 10 and 11 have the nodes 4 and 5, and the call 12 has the node 6.
abbrev three_values : NodeFactory
three_values =
    (create_value_node (some 12)
      (create_value_node (some 11) (create_value_node (some 10) new_factory).1).1).1

abbrev before : Collected
before = record { factory = three_values; constraints = [] }

abbrev call_of : String → CallSite
call_of name = record {
  result = 12;
  name = name;
  operands = named 10 ∷ named 11 ∷ [];
  parent = 1;
  is_var_arg = false;
}

abbrev after_move : Collected
after_move = record {
  factory = (create_value_node none three_values).1;
  constraints =
      (record { type = load; dest = 7; src = 5 })
      ∷ (record { type = store; dest = 4; src = 7 })
      ∷ (record { type = copy; dest = 6; src = 4 })
      ∷ [];
}

move_run : add_constraint_for_external_library (call_of "memmove") before ≡ some (true, after_move)
unfolding add_constraint_for_external_library create_value_node
move_run = refl

-- fgets is in the first table, so that its result has no constraint.
fgets_run : add_constraint_for_external_library (call_of "fgets") before ≡ some (true, before)
unfolding add_constraint_for_external_library
fgets_run = refl

-- strcpy returns its first operand.
strcpy_run :
    add_constraint_for_external_library (call_of "strcpy") before
    ≡ some (true, record before { constraints = (record { type = copy; dest = 6; src = 4 }) ∷ [] })
unfolding add_constraint_for_external_library create_value_node
strcpy_run = refl

unknown_run : add_constraint_for_external_library (call_of "f") before ≡ some (false, before)
unfolding add_constraint_for_external_library
unknown_run = refl

before-IsCollected : IsCollected before
unfolding create_value_node
before-IsCollected = record {
  whole = Made-IsWhole (value (some 12) (value (some 11) (value (some 10) new)));
  fixed = omega arith;
  between = λ c m. absurd m;
}

add_constraint_for_external_library-IsCollected_example :
    IsCollected after_move
    × ((new' : List Constraint) × (after_move.constraints ≡ [] ++ new'))
    × ((true ≡ false) → after_move ≡ before)
add_constraint_for_external_library-IsCollected_example =
    add_constraint_for_external_library-IsCollected (call_of "memmove") before after_move true
      before-IsCollected move_run
