-- ===== src/Static/Warnings.antt =====
-- src/aSSA/CollListFunctionAnalysis.cpp, checkWarnings, with getBasicBlockCond of src/aSSA/Utils.cpp:
-- the conditionals on which the sequence of collectives depends, and the warnings about the calls
-- that they govern. What the dependence graph answers is an argument. A lookup that finds no list,
-- which the source does not test, gives none.
pub mod Paths
pub mod Complete
use parcoach.Base.{
  ℕ, Bool, true, false, not, Option, none, some, List, [], ◌∷◌, ◌||◌, if◌then◌else◌, ◌>>=◌,
}
use parcoach.Static.Collectives.{
  Value, Collective, CallInst, Function, value_eq, find_collective, is_collective, get_communicator,
}
use parcoach.Static.Lists.{CollLists, Program, navs, is_mpi}

-- The terminator of a block, as far as getBasicBlockCond looks at it.
pub data Terminator : Type 0 where
  unconditional_branch other_terminator : Terminator
  conditional_branch switch : Value → Terminator

-- getBasicBlockCond
unfoldable pub get_basic_block_cond : Terminator → Option Value
get_basic_block_cond unconditional_branch = none
get_basic_block_cond (conditional_branch v) = some v
get_basic_block_cond (switch v) = some v
get_basic_block_cond other_terminator = none

-- What checkWarnings asks: DepGraphDCF::getCallInterIPDF and isTaintedValue, the header of the
-- innermost loop of a block, and the terminator of a block.
pub record Facts : Type 0 where
  pub call_inter_ipdf : CallInst → List ℕ
  pub is_tainted_value : Value → Bool
  pub loop_header : ℕ → Option ℕ
  pub terminator : ℕ → Terminator

-- CommToBBToCollListMap
abbrev pub ListsPerComm : Type 0
ListsPerComm = List (Value × CollLists)

-- Whether the lists of a communicator count for a call; a call without communicator looks at all.
abbrev pub concerns : Option Value → Value → Bool
concerns none c = true
concerns (some comm) c = value_eq c comm

-- The block whose list is looked up for a block.
abbrev pub list_block : Facts → ℕ → ℕ
list_block facts bb = elim (facts.loop_header bb) [ some header ↦ header | none ↦ bb ]

-- The loop that computes HasNAVS.
unfoldable pub has_navs_on : Facts → ListsPerComm → Option Value → ℕ → Option Bool
has_navs_on facts [] comm bb = some false
has_navs_on facts ((c, lists) ∷ rest) comm bb =
    if concerns comm c
    then (do
      l ← lists (list_block facts bb)
      more ← has_navs_on facts rest comm bb
      some (navs l || more))
    else has_navs_on facts rest comm bb

-- Whether the condition of the block is tainted.
unfoldable pub is_tainted_block : Facts → ℕ → Bool
unfolding get_basic_block_cond
is_tainted_block facts bb = elim (get_basic_block_cond (facts.terminator bb)) [
  | none ↦ false
  | some cond ↦ facts.is_tainted_value cond
]

-- The loop over the blocks that govern a call; here the blocks, of whose terminators the source keeps
-- the locations.
unfoldable pub conditionals_of : Facts → ListsPerComm → Option Value → List ℕ → Option (List ℕ)
unfolding has_navs_on is_tainted_block
conditionals_of facts lists comm [] = some []
conditionals_of facts lists comm (bb ∷ bbs) = do
  has_navs ← has_navs_on facts lists comm bb
  rest ← conditionals_of facts lists comm bbs
  some (if has_navs then (if is_tainted_block facts bb then bb ∷ rest else rest) else rest)

-- Warning, with the call that it is stored for.
pub record Warning : Type 0 where
  pub call : CallInst
  pub missed_function : Function
  pub conditionals : List ℕ

unfoldable pub comm_for_collective : Collective → CallInst → Option Value
unfolding get_communicator
comm_for_collective coll ci = if is_mpi coll then get_communicator coll ci else none

-- No warning without conditionals.
abbrev pub warn : CallInst → Function → List ℕ → Option Warning
warn ci f [] = none
warn ci f (bb ∷ bbs) = some (record { call = ci; missed_function = f; conditionals = bb ∷ bbs })

-- The body of the loop over the direct calls of collectives; none of the outer option is a lookup that
-- fails, none of the inner one no warning.
unfoldable pub check_call :
    Facts → ListsPerComm → CallInst → Function → Collective → Option (Option Warning)
unfolding conditionals_of comm_for_collective
check_call facts lists ci f coll = do
  conditionals ←
      conditionals_of facts lists (comm_for_collective coll ci) (facts.call_inter_ipdf ci)
  some (warn ci f conditionals)

-- checkWarnings, on the calls of the function.
unfoldable pub check_warnings :
    Facts → Program → ListsPerComm → List CallInst → Option (List Warning)
unfolding check_call find_collective
check_warnings facts p lists [] = some []
check_warnings facts p lists (ci ∷ cis) = do
  rest ← check_warnings facts p lists cis
  elim ci.called_function [
    | none ↦ some rest
    | some f ↦ elim (find_collective p.registry p.activated f) [
      | none ↦ some rest
      | some coll ↦ do
        warning ← check_call facts lists ci f coll
        some (elim warning [ none ↦ rest | some w ↦ w ∷ rest ])
    ]
  ]
