-- ===== src/Static/Collectives.antt =====
-- src/include/parcoach/Collectives.h and src/aSSA/Collectives.cpp: the functions that count as
-- collectives, and the communicator of a call to one. Of LLVM's values, functions and calls there is
-- what the analysis looks at. A name is the list of its bytes.
use parcoach.Base.{
  ℕ, Bool, true, false, Option, none, some, List, [], ◌∷◌, ◌==◌, ◌&&◌, if◌then◌else◌,
}

abbrev pub Text : Type 0
Text = List ℕ

unfoldable pub text_eq : Text → Text → Bool
text_eq [] [] = true
text_eq [] (b ∷ bs) = false
text_eq (a ∷ cs) [] = false
text_eq (a ∷ cs) (b ∷ bs) = a == b && text_eq cs bs

-- std::string::startswith
unfoldable pub starts_with : Text → Text → Bool
starts_with [] text = true
starts_with (p ∷ ps) [] = false
starts_with (p ∷ ps) (b ∷ bs) = p == b && starts_with ps bs

pub data Paradigm : Type 0 where
  mpi omp cuda rma upc : Paradigm

-- Collective and its derived types. `comm_arg_id` is MPICollective::CommArgId, none if it is
-- negative.
pub record Collective : Type 0 where
  pub name : Text
  pub kind : ℕ
  pub paradigm : Paradigm
  pub comm_arg_id : Option ℕ

-- llvm::Value: a load from a pointer, or any other value.
pub data Value : Type 0 where
  load_inst : Value → Value
  other : ℕ → Value

unfoldable pub value_eq : Value → Value → Bool
value_eq (load_inst v) (load_inst w) = value_eq v w
value_eq (load_inst v) (other j) = false
value_eq (other i) (load_inst w) = false
value_eq (other i) (other j) = i == j

pub record Function : Type 0 where
  pub name : Text
  pub entry_block : ℕ

-- llvm::CallInst: the function that it names, none for an indirect call. The operands are looked up
-- without a test of their number.
pub record CallInst : Type 0 where
  pub id : ℕ
  pub called_function : Option Function
  pub arg_operand : ℕ → Value

-- Registry::Data, filled from the registry files.
abbrev pub Registry : Type 0
Registry = List (Text × Collective)

unfoldable pub registry_find : Text → Registry → Option Collective
unfolding text_eq
registry_find name [] = none
registry_find name ((key, coll) ∷ rest) =
    if text_eq key name then some coll else registry_find name rest

-- Collective::find. `activated` is Options::isActivated.
unfoldable pub find_collective : Registry → (Paradigm → Bool) → Function → Option Collective
unfolding registry_find
find_collective registry activated f = elim (registry_find f.name registry) [
  | none ↦ none
  | some coll ↦ if activated coll.paradigm then some coll else none
]

-- Collective::isCollective
unfoldable pub is_collective : Registry → (Paradigm → Bool) → Function → Bool
unfolding find_collective
is_collective registry activated f = elim (find_collective registry activated f) [
  | none ↦ false
  | some coll ↦ true
]

-- The loop of getCommunicator, which goes from a load to its pointer operand.
unfoldable pub strip_loads : Value → Value
strip_loads (load_inst v) = strip_loads v
strip_loads (other i) = other i

-- MPICollective::getCommunicator
unfoldable pub get_communicator : Collective → CallInst → Option Value
unfolding strip_loads
get_communicator coll ci = elim coll.comm_arg_id [
  | none ↦ none
  | some i ↦ some (strip_loads (ci.arg_operand i))
]
