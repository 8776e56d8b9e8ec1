-- ===== src/Static/Tests/Loops.antt =====
-- A loop with a collective in its body.
use parcoach.Base.{
  arith, ℕ, zero, suc, ◌≡◌, ◌↔◌, refl, inl, inr, sym, subst, Option, none, some, List, [], ◌∷◌, In,
  ◌∙◌,
}
use parcoach.Static.Collectives.{other, CallInst}
use parcoach.Static.Lists.{coll_element, nil, cons, CollectiveList}
use parcoach.Static.Flow.{Cfg, set_list}
use parcoach.Static.Loops.{loop, Loops, end, sub_loop, LoopState, visit_loops, compute_reversed_map}
use parcoach.Static.Loops.Exits.{IsExit, compute_reversed_map_iff}
use parcoach.Static.Tests.{coll, print_block, program, call}

-- Block 0 leads to the header 1 of a loop over the blocks 1 and 2, which leads to block 3.
abbrev loop_succs : ℕ → List ℕ
loop_succs zero = 1 ∷ []
loop_succs (suc zero) = 2 ∷ 3 ∷ []
loop_succs (suc (suc zero)) = 1 ∷ []
loop_succs (suc (suc (suc n))) = []

abbrev loop_preds : ℕ → List ℕ
loop_preds zero = []
loop_preds (suc zero) = 0 ∷ 2 ∷ []
loop_preds (suc (suc zero)) = 1 ∷ []
loop_preds (suc (suc (suc n))) = 1 ∷ []

abbrev loop_calls : ℕ → List CallInst
loop_calls zero = []
loop_calls (suc zero) = []
loop_calls (suc (suc zero)) = call ∷ []
loop_calls (suc (suc (suc n))) = []

abbrev looping : Cfg
looping = record {
  blocks = 0 ∷ 1 ∷ 2 ∷ 3 ∷ [];
  successors = loop_succs;
  predecessors = loop_preds;
  calls = loop_calls;
}

abbrev header_of : ℕ → Option ℕ
header_of zero = none
header_of (suc zero) = some 1
header_of (suc (suc zero)) = some 1
header_of (suc (suc (suc n))) = none

abbrev loops : Loops
loops = sub_loop (loop 1 (some (0, 2)) (1 ∷ 2 ∷ []) end) end

abbrev no_state : LoopState
no_state = record {
  header_to_successors = λ b. none;
  header_to_incoming = λ b. none;
  coll_lists = λ b. none;
}

-- The exits of the loop, and the list of its header.
abbrev result : Option LoopState → Option (List ℕ) × Option CollectiveList
result none = (none, none)
result (some s) = (s.header_to_successors 1, s.coll_lists 1)

loop_visited :
    result (visit_loops 5 print_block program looping header_of (some (other 5)) loops no_state)
    ≡ (some (3 ∷ []), some (record { loop_header = some 1; list = cons (coll_element coll) nil }))
unfolding visit_loops set_list
loop_visited = refl

abbrev exits : ℕ → Option (List ℕ)
exits zero = some (3 ∷ 4 ∷ [])
exits (suc zero) = some (5 ∷ [])
exits (suc (suc n)) = none

four_left : (g : ℕ) → IsExit exits g 4 → g ≡ 0
four_left zero e = refl
four_left (suc zero) (bs, same, inside) =
    let only : bs ≡ 5 ∷ [] = ground arith in
    absurd (elim (subst (In 4) only inside) [ inl e ↦ omega (arith, e) | inr m ↦ m ])
four_left (suc (suc g)) (bs, same, inside) = absurd (ground arith)

exits_apart :
    (g k : ℕ) → In g (0 ∷ 1 ∷ []) → In k (0 ∷ 1 ∷ []) → IsExit exits g 4 → IsExit exits k 4 → g ≡ k
exits_apart g k m m' e e' = four_left g e ∙ sym (four_left k e')

compute_reversed_map_iff_example :
    (compute_reversed_map exits (0 ∷ 1 ∷ []) (λ b. none) 4 ≡ some 0)
    ↔ (In {A = ℕ} 0 (0 ∷ 1 ∷ []) × IsExit exits 0 4)
compute_reversed_map_iff_example = compute_reversed_map_iff exits (0 ∷ 1 ∷ []) 4 0 exits_apart
