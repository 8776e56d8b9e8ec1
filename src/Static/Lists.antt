-- ===== src/Static/Lists.antt =====
-- src/include/parcoach/CollectiveList.h and src/aSSA/CollectiveList.cpp: the list of the collectives
-- that are called from a block to the exit of its function. A basic block is a number.
pub mod Splits
pub mod Texts
use parcoach.Base.{
  ℕ, Bool, true, false, not, Option, none, some, List, [], ◌∷◌, ◌++◌, ◌&&◌, ◌||◌, if◌then◌else◌,
}
use parcoach.Static.Collectives.{
  Text, text_eq, starts_with, Paradigm, mpi, Collective, Value, value_eq, Function, CallInst,
  Registry, find_collective, get_communicator,
}

-- CollElement, NavsElement and CollListElement. The list of the last one is given by its loop header
-- and its elements.
mutual
  pub data Element : Type 0 where
    coll_element : Collective → Element
    navs_element : Element
    list_element : Option ℕ → Elements → Element

  pub data Elements : Type 0 where
    nil : Elements
    cons : Element → Elements → Elements

pub record CollectiveList : Type 0 where
  pub loop_header : Option ℕ
  pub list : Elements

abbrev pub empty_list : CollectiveList
empty_list = record { loop_header = none; list = nil }

-- CollectiveList(Header, LoopList)
abbrev pub with_header : ℕ → CollectiveList → CollectiveList
with_header header l = record l { loop_header = some header }

unfoldable pub append : Elements → Elements → Elements
append nil ys = ys
append (cons x xs) ys = cons x (append xs ys)

unfoldable mutual
  pub navs_of : Element → Bool
  navs_of (coll_element c) = false
  navs_of navs_element = true
  navs_of (list_element header es) = navs_front es

  -- CollectiveList::navs: whether the front is NAVS.
  pub navs_front : Elements → Bool
  navs_front nil = false
  navs_front (cons e es) = navs_of e

abbrev pub navs : CollectiveList → Bool
navs l = navs_front l.list

-- What CollectiveList::add inserts for another list.
unfoldable pub added : CollectiveList → Elements
added l = elim l.list [
  | nil ↦ nil
  | cons e es ↦ elim l.loop_header [
    | none ↦ cons e es
    | some header ↦ cons (list_element (some header) (cons e es)) nil
  ]
]

unfoldable pub extend_with : CollectiveList → CollectiveList → CollectiveList
unfolding added append
extend_with l l' = record l { list = append l.list (added l') }

unfoldable pub prepend_with : CollectiveList → CollectiveList → CollectiveList
unfolding added append
prepend_with l l' = record l { list = append (added l') l.list }

-- extendWith<ElementTy>
unfoldable pub extend_with_element : CollectiveList → Element → CollectiveList
unfolding append
extend_with_element l e = record l { list = append l.list (cons e nil) }

-- "NAVS"
abbrev pub navs_text : Text
navs_text = 78 ∷ 65 ∷ 86 ∷ 83 ∷ []

-- BasicBlock::printAsOperand is LLVM's.
module _ (print_operand : ℕ → Text) where
  abbrev pub header_text : Option ℕ → Text
  header_text none = []
  header_text (some b) = 42 ∷ print_operand b

  unfoldable mutual
    pub element_text : Element → Text
    element_text (coll_element c) = c.name
    element_text navs_element = navs_text
    element_text (list_element header es) = header_text header ++ 40 ∷ elements_text es

    -- From behind the opening parenthesis on, to the closing one.
    pub elements_text : Elements → Text
    elements_text nil = 41 ∷ []
    elements_text (cons e es) = element_text e ++ rest_text es

    -- Behind the first element.
    pub rest_text : Elements → Text
    rest_text nil = 41 ∷ []
    rest_text (cons e es) = 44 ∷ 32 ∷ element_text e ++ rest_text es

  -- CollectiveList::toString
  unfoldable pub to_string : CollectiveList → Text
  unfolding element_text
  to_string l = header_text l.loop_header ++ 40 ∷ elements_text l.list

  -- operator==
  unfoldable pub list_eq : CollectiveList → CollectiveList → Bool
  unfolding to_string text_eq
  list_eq l l' = text_eq (to_string l) (to_string l')

  -- std::adjacent_find with operator!= on the lists of the neighbors
  unfoldable pub neighbors_are_navs : (ℕ → CollectiveList) → List ℕ → Bool
  unfolding list_eq
  neighbors_are_navs computed [] = false
  neighbors_are_navs computed (a ∷ []) = false
  neighbors_are_navs computed (a ∷ b ∷ bbs) =
      not (list_eq (computed a) (computed b)) || neighbors_are_navs computed (b ∷ bbs)

abbrev pub is_mpi : Collective → Bool
is_mpi c = elim c.paradigm [ mpi ↦ true | _ ↦ false ]

-- shouldIgnore
unfoldable pub should_ignore : CallInst → Collective → Option Value → Bool
unfolding get_communicator value_eq
should_ignore ci coll none = false
should_ignore ci coll (some comm) =
    if is_mpi coll
    then elim (get_communicator coll ci) [ none ↦ false | some c ↦ not (value_eq c comm) ]
    else false

-- The registry, the activated paradigms, and PTACallGraph::getIndirectCallMap.
pub record Program : Type 0 where
  pub registry : Registry
  pub activated : Paradigm → Bool
  pub indirect_calls : ℕ → Option (List Function)

-- BBToCollListMap
abbrev pub CollLists : Type 0
CollLists = ℕ → Option CollectiveList

-- The lambda ActOnFunction
unfoldable pub act_on_function :
    Program → CollLists → Option Value → CallInst → Function → CollectiveList → CollectiveList
unfolding find_collective should_ignore extend_with extend_with_element
act_on_function p lists comm ci f current = elim (find_collective p.registry p.activated f) [
  | some coll ↦
      if should_ignore ci coll comm
      then current
      else extend_with_element current (coll_element coll)
  | none ↦ elim (lists f.entry_block) [
    | some for_func ↦ extend_with current for_func
    | none ↦ current
  ]
]

-- "llvm.dbg", isIntrinsicDbgFunction
abbrev pub is_intrinsic_dbg_function : Function → Bool
is_intrinsic_dbg_function f = starts_with (108 ∷ 108 ∷ 118 ∷ 109 ∷ 46 ∷ 100 ∷ 98 ∷ 103 ∷ []) f.name

-- The loop over the functions that an indirect call may call.
unfoldable pub act_on_may_calls :
    Program → CollLists → Option Value → CallInst → List Function → CollectiveList → CollectiveList
unfolding act_on_function starts_with
act_on_may_calls p lists comm ci [] current = current
act_on_may_calls p lists comm ci (f ∷ fs) current =
    act_on_may_calls p lists comm ci fs
      (if is_intrinsic_dbg_function f then current else act_on_function p lists comm ci f current)

unfoldable pub act_on_call :
    Program → CollLists → Option Value → CallInst → CollectiveList → CollectiveList
unfolding act_on_function act_on_may_calls
act_on_call p lists comm ci current = elim ci.called_function [
  | some f ↦ act_on_function p lists comm ci f current
  | none ↦ elim (p.indirect_calls ci.id) [
    | none ↦ current
    | some fs ↦ act_on_may_calls p lists comm ci fs current
  ]
]

unfoldable pub act_on_calls :
    Program → CollLists → Option Value → List CallInst → CollectiveList → CollectiveList
unfolding act_on_call
act_on_calls p lists comm [] current = current
act_on_calls p lists comm (ci ∷ cis) current =
    act_on_calls p lists comm cis (act_on_call p lists comm ci current)

-- CollectiveList::CreateFromBB, on the calls of the block.
unfoldable pub create_from_bb :
    Program → CollLists → Bool → List CallInst → Option Value → CollectiveList
unfolding extend_with_element act_on_calls
create_from_bb p lists are_navs calls comm =
    if are_navs
    then extend_with_element empty_list navs_element
    else act_on_calls p lists comm calls empty_list
