-- ===== src/Static/Returns.antt =====
-- src/aSSA/Utils.cpp: functionDoesNotRet, the search for a return from the entry of a function.
pub mod Reaches
use parcoach.Base.{
  ℕ, zero, suc, Bool, true, false, Option, none, some, List, [], ◌∷◌, if◌then◌else◌,
}
use parcoach.Static.Loops.{has_block}

-- An instruction, as isa<ReturnInst> sees it.
pub data Inst : Type 0 where
  ret_inst other_inst : Inst

-- The function: what the graph of its blocks is, and what is in them.
pub record Function : Type 0 where
  pub entry : ℕ
  pub instructions : ℕ → List Inst
  pub succs : ℕ → List ℕ

-- The local variables ToVisit, with its back in front, and Visited.
pub record Search : Type 0 where
  pub to_visit : List ℕ
  pub seen : List ℕ

-- The loop over the instructions of a block.
unfoldable pub has_return : List Inst → Bool
has_return [] = false
has_return (ret_inst ∷ is) = true
has_return (other_inst ∷ is) = has_return is

-- The loop over the successors of a block.
unfoldable pub visit_succs : List ℕ → Search → Search
unfolding has_block
visit_succs [] s = s
visit_succs (b ∷ bs) s =
    visit_succs bs
      (if has_block b s.seen then s else record { to_visit = b ∷ s.to_visit; seen = b ∷ s.seen })

-- while (!ToVisit.empty()), with fuel.
unfoldable pub search_return : ℕ → Function → Search → Option Bool
unfolding has_return visit_succs
search_return zero f s = elim s.to_visit [ [] ↦ some true | _ ∷ _ ↦ none ]
search_return (suc fuel) f s = elim s.to_visit [
  | [] ↦ some true
  | bb ∷ bbs ↦
      let rest = search_return fuel f (visit_succs (f.succs bb) (record s { to_visit = bbs })) in
      if has_return (f.instructions bb) then some false else rest
]

unfoldable pub function_does_not_ret : ℕ → Function → Option Bool
unfolding search_return
function_does_not_ret fuel f = search_return fuel f (record { to_visit = f.entry ∷ []; seen = [] })
