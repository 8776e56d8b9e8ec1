-- ===== src/Static/Tests.antt =====
-- The lists of collectives at concrete inputs.
mod Warnings
mod Loops
mod Returns
use parcoach.Base.{
  Option, Bool, ℕ, zero, suc, ◌+◌, ◌<◌, ◌≡◌, ◌↔◌, inl, inr, refl, sym, ◌∙◌, subst, true, false,
  none, some, List, [], ◌∷◌, In, All, arith,
}
use parcoach.Static.Flow.Merges.{HasNavs}
use parcoach.Static.Flow.Ready.{IsLoopFree}
use parcoach.Static.Flow.Visits.{visit_function-computed}
use parcoach.Static.Flow.Whole.{IsNaming, Known, own, TellsPaths, visit_function-Trace}
use parcoach.Static.Flow.{visit_function}
use parcoach.Base.{◌≤◌}
use parcoach.Static.Collectives.{Value, Text, Collective, mpi, other, CallInst}
use parcoach.Static.Lists.{
  Elements, coll_element, navs_element, list_element, nil, cons, CollectiveList, CollLists, Program,
  list_eq,
}
use parcoach.Static.Lists.{create_from_bb}
use parcoach.Static.Lists.Splits.{IsName}
use parcoach.Static.Lists.Texts.{list_eq_iff, AreOfKnown}
use parcoach.Static.Flow.{Cfg, list_at, compute, set_list, LoopAggregationInfo, visited, Visit}

-- A collective with the name "b".
abbrev pub coll : Collective
coll = record { name = 98 ∷ []; kind = 0; paradigm = mpi; comm_arg_id = some 0 }

abbrev pub print_block : ℕ → Text
print_block b = (b + 41) ∷ []

abbrev pub IsColl : Collective → Type 0
IsColl c = c ≡ coll

abbrev pub IsAnyBlock : ℕ → Type 0
IsAnyBlock b = Unit

coll-IsName : (c : Collective) → IsColl c → IsName c.name
coll-IsName c e =
    subst (λ (d : Collective). IsName d.name) (sym e)
      (record {
        clean = ((λ h. omega arith, λ h. omega arith, λ h. omega arith, λ h. omega arith), tt);
        nonempty = λ h. cc;
        not_navs = λ h. cc;
      })

coll_unique : (c d : Collective) → IsColl c → IsColl d → c.name ≡ d.name → c ≡ d
coll_unique c d e f same = e ∙ sym f

print_block-All : (b : ℕ) → All (λ c. ¬ (c ≡ 40)) (print_block b)
print_block-All b = (λ e. omega arith, tt)

print_block_distinct :
    (b d : ℕ) → IsAnyBlock b → IsAnyBlock d → print_block b ≡ print_block d → b ≡ d
print_block_distinct b d i j e = let same : b + 41 ≡ d + 41 = cc in omega arith

abbrev pub one : CollectiveList
one = record { loop_header = none; list = cons (coll_element coll) nil }

abbrev nested : CollectiveList
nested = record {
  loop_header = none;
  list = cons (list_element (some 2) (cons (coll_element coll) nil)) nil;
}

list_eq_iff_example : (list_eq print_block one nested ≡ true) ↔ (one ≡ nested)
list_eq_iff_example =
    list_eq_iff print_block IsAnyBlock IsColl coll-IsName coll_unique print_block-All
      print_block_distinct one nested (unfold AreOfKnown in (tt, (refl, tt)))
      (unfold AreOfKnown in (tt, ((tt, (refl, tt)), tt)))

abbrev pub program : Program
program = record {
  registry = (98 ∷ [], coll) ∷ [];
  activated = λ p. true;
  indirect_calls = λ i. none;
}

-- A call of the collective.
abbrev pub call : CallInst
call = record {
  id = 7;
  called_function = some (record { name = 98 ∷ []; entry_block = 90 });
  arg_operand = λ i. other 5;
}

-- A call of a function that is no collective and has no list.
abbrev quiet_call : CallInst
quiet_call = record {
  id = 8;
  called_function = some (record { name = 112 ∷ []; entry_block = 91 });
  arg_operand = λ i. other 5;
}

abbrev pub succs : ℕ → List ℕ
succs zero = 1 ∷ 2 ∷ []
succs (suc n) = []

abbrev pub calls : ℕ → List CallInst
calls (suc zero) = call ∷ []
calls zero = []
calls (suc (suc n)) = quiet_call ∷ []

abbrev preds : ℕ → List ℕ
preds zero = []
preds (suc zero) = 0 ∷ []
preds (suc (suc zero)) = 0 ∷ []
preds (suc (suc (suc n))) = []

-- Block 0 branches to the exits 1, with the call, and 2, which calls another function.
abbrev pub branch : Cfg
branch = record { blocks = 0 ∷ 1 ∷ 2 ∷ []; successors = succs; predecessors = preds; calls = calls }

abbrev height : ℕ → ℕ
height zero = 1
height (suc n) = 0

height-falls : (b c : ℕ) → In c (succs b) → height c < height b
height-falls zero c (inl e) = subst (λ x. height x < 1) (sym e) (omega arith)
height-falls zero c (inr (inl e)) = subst (λ x. height x < 1) (sym e) (omega arith)
height-falls zero c (inr (inr m)) = absurd m
height-falls (suc n) c m = absurd m

abbrev pub no_loops : LoopAggregationInfo
no_loops = record {
  loop_header_to_successors = λ b. none;
  loop_header_to_incoming_block = λ b. none;
  loop_successor_to_loop_header = λ b. none;
  loop_contains = λ h b. false;
}

branch_linked : (b c : ℕ) → In c (succs b) → In b (preds c)
branch_linked zero c (inl e) = subst (λ x. In 0 (preds x)) (sym e) (inl refl)
branch_linked zero c (inr (inl e)) = subst (λ x. In 0 (preds x)) (sym e) (inl refl)
branch_linked zero c (inr (inr m)) = absurd m
branch_linked (suc n) c m = absurd m

branch_calls_apart :
    (comm : Value) (b bb : ℕ) (l : CollectiveList) (navs : Bool) (lists : CollLists)
    → In bb (0 ∷ 1 ∷ 2 ∷ [])
    → create_from_bb program (set_list lists bb l) navs (calls b) (some comm)
      ≡ create_from_bb program lists navs (calls b) (some comm)
unfolding create_from_bb set_list
branch_calls_apart comm zero bb l navs lists m = refl
branch_calls_apart comm (suc zero) bb l navs lists m = refl
branch_calls_apart comm (suc (suc n)) zero l navs lists m = refl
branch_calls_apart comm (suc (suc n)) (suc zero) l navs lists m = refl
branch_calls_apart comm (suc (suc n)) (suc (suc zero)) l navs lists m = refl
branch_calls_apart comm (suc (suc n)) (suc (suc (suc k))) l navs lists m = absurd (ground arith)

branch_back : (b c : ℕ) → In b (preds c) → In c (succs b)
branch_back b zero m = absurd m
branch_back b (suc zero) (inl e) = subst (λ x. In 1 (succs x)) (sym e) (inl refl)
branch_back b (suc zero) (inr m) = absurd m
branch_back b (suc (suc zero)) (inl e) = subst (λ x. In 2 (succs x)) (sym e) (inr (inl refl))
branch_back b (suc (suc zero)) (inr m) = absurd m
branch_back b (suc (suc (suc n))) m = absurd m

branch_above : (b c : ℕ) → In b (0 ∷ 1 ∷ 2 ∷ []) → In c (preds b) → In c (0 ∷ 1 ∷ 2 ∷ [])
branch_above zero c m m' = absurd m'
branch_above (suc zero) c m (inl e) = inl e
branch_above (suc zero) c m (inr m') = absurd m'
branch_above (suc (suc zero)) c m (inl e) = inl e
branch_above (suc (suc zero)) c m (inr m') = absurd m'
branch_above (suc (suc (suc n))) c m m' = absurd m'

branch_below : (b c : ℕ) → In b (0 ∷ 1 ∷ 2 ∷ []) → In c (succs b) → In c (0 ∷ 1 ∷ 2 ∷ [])
branch_below zero c m m' = inr m'
branch_below (suc n) c m m' = absurd m'

pub branch_comm-IsLoopFree : (comm : Value) → IsLoopFree program branch no_loops (some comm)
branch_comm-IsLoopFree comm = record {
  no_header = λ b. refl;
  no_exit = λ b. refl;
  linked = branch_linked;
  back = branch_back;
  no_recursion = branch_calls_apart comm;
  rank = height;
  falls = height-falls;
  above = branch_above;
  below = branch_below;
}

abbrev pub branch-IsLoopFree : IsLoopFree program branch no_loops (some (other 5))
branch-IsLoopFree = branch_comm-IsLoopFree (other 5)

pub coll-IsNaming : IsNaming print_block IsAnyBlock IsColl
coll-IsNaming = record {
  names = coll-IsName;
  unique = coll_unique;
  printed = print_block-All;
  distinct = print_block_distinct;
}

abbrev pub no_lists : CollLists
no_lists b = none

branch-Known :
    (b : ℕ)
    → In b (0 ∷ 1 ∷ 2 ∷ [])
    → Known print_block IsAnyBlock IsColl coll-IsNaming (
        own print_block IsAnyBlock IsColl coll-IsNaming program branch no_loops
          (some (other 5))
          branch-IsLoopFree
          no_lists
          b)
unfolding create_from_bb AreOfKnown
branch-Known zero m = tt
branch-Known (suc zero) m = (refl, tt)
branch-Known (suc (suc n)) m = tt

branch_clean :
    (b : ℕ)
    → In b (0 ∷ 1 ∷ 2 ∷ [])
    → ¬ HasNavs (
        own print_block IsAnyBlock IsColl coll-IsNaming program branch no_loops
          (some (other 5))
          branch-IsLoopFree
          no_lists
          b)
unfolding create_from_bb
branch_clean zero m h = h
branch_clean (suc zero) m (inl e) = cc
branch_clean (suc zero) m (inr m') = m'
branch_clean (suc (suc n)) m h = h

abbrev ap_list : ℕ → Option Visit → Option Elements
ap_list b none = none
ap_list b (some w) = some (list_at w.lists b).list

visit_function-computed_example :
    (n : ℕ) × (w : Visit) × ((fuel : ℕ)
      → n ≤ fuel
      → visit_function fuel print_block program branch no_loops (some (other 5)) no_lists ≡ some w)
    × ((b : ℕ)
        → In b (0 ∷ 1 ∷ 2 ∷ [])
        → (w.states b ≡ visited)
          × (list_at w.lists b
              ≡ compute print_block program branch (some (other 5)) w.lists (succs b) b false))
    × ((b : ℕ) (navs : Bool)
        → create_from_bb program w.lists navs (calls b) (some (other 5))
          ≡ create_from_bb program no_lists navs (calls b) (some (other 5)))
visit_function-computed_example =
    visit_function-computed print_block program branch no_loops (some (other 5)) branch-IsLoopFree
      no_lists

visit_function-Trace_example :
    (n : ℕ) × (w : Visit) × ((fuel : ℕ)
      → n ≤ fuel
      → visit_function fuel print_block program branch no_loops (some (other 5)) no_lists ≡ some w)
    × TellsPaths print_block IsAnyBlock IsColl coll-IsNaming program branch no_loops
        (some (other 5))
        branch-IsLoopFree
        no_lists
        w.lists
visit_function-Trace_example =
    visit_function-Trace print_block IsAnyBlock IsColl coll-IsNaming program branch no_loops
      (some (other 5)) branch-IsLoopFree no_lists branch-Known branch_clean

-- The traversal of the branch leaves NAVS at block 0.
branch_runs :
    ap_list 0 (visit_function 9 print_block program branch no_loops (some (other 5)) no_lists)
    ≡ some (cons navs_element nil)
unfolding visit_function
branch_runs = refl
