-- ===== src/Concurrency/Tests.antt =====
-- Runs of the analysis on small blocks and functions, and the theorems at concrete inputs.
use parcoach.Base.{
  ◌⊎◌, ◌≢◌, ◌≤◌, ◌<◌, subst, sym, In, if◌then◌else◌, ◌≡◌, refl, ◌↔◌, inl, inr, ℕ, zero, suc, Bool,
  true, false, none, some, List, [], ◌∷◌, ◌==◌, arith, All, In,
}
use parcoach.Static.Collectives.{Text}
use parcoach.Concurrency.{
  Instruction, call, load, BlockState, is_write, is_synchro, is_load_or_store, memory_operand,
  find_access, insert_report, analyze_bb,
}
use parcoach.Concurrency.Races.{conflict, Race}
use parcoach.Concurrency.Blocks.{Pending, nil-IsClean}
use parcoach.Concurrency.Quiet.{analyze_bb_iff}
use parcoach.Concurrency.Masks.{analyze_bb-masked}
use parcoach.Concurrency.Reports.{IsConflict}
use parcoach.Concurrency.Graph.{loop, end, child, FunctionGraph, analyze}
use parcoach.Concurrency.Functions.{IsOf}
use parcoach.Concurrency.Ends.{IsAcyclic}
use parcoach.Concurrency.Returns.{analyze-returns}
use parcoach.Concurrency.{Reports}
use parcoach.Concurrency.Waits.{analyze-unreached}

abbrev mpi_get : Text
mpi_get = 77 ∷ 80 ∷ 73 ∷ 95 ∷ 71 ∷ 101 ∷ 116 ∷ []

abbrev mpi_put : Text
mpi_put = 77 ∷ 80 ∷ 73 ∷ 95 ∷ 80 ∷ 117 ∷ 116 ∷ []

abbrev win_fence : Text
win_fence = 77 ∷ 80 ∷ 73 ∷ 95 ∷ 87 ∷ 105 ∷ 110 ∷ 95 ∷ 102 ∷ 101 ∷ 110 ∷ 99 ∷ 101 ∷ []

abbrev get_1 : Instruction
get_1 = call 20 (some mpi_get) 1

abbrev put_1 : Instruction
put_1 = call 21 (some mpi_put) 1

abbrev fence_call : Instruction
fence_call = call 22 (some win_fence) 0

abbrev load_1 : Instruction
load_1 = load 23 1

abbrev load_2 : Instruction
load_2 = load 24 2

abbrev never : ℕ → ℕ → Bool
never x y = false

abbrev always : ℕ → ℕ → Bool
always x y = true

abbrev empty_state : BlockState
empty_state = record { accesses = []; results = [] }

-- A load behind a get is reported, unless they are synchronised. An alias is as good as the memory.
get_load : (analyze_bb never (get_1 ∷ load_1 ∷ []) empty_state).results ≡ (load_1, get_1) ∷ []
unfolding analyze_bb memory_operand is_synchro is_load_or_store is_write
get_load = refl

get_fence_load : (analyze_bb never (get_1 ∷ fence_call ∷ load_1 ∷ []) empty_state).results ≡ []
unfolding analyze_bb memory_operand is_synchro is_load_or_store is_write
get_fence_load = refl

get_alias : (analyze_bb always (get_1 ∷ load_2 ∷ []) empty_state).results ≡ (load_2, get_1) ∷ []
unfolding analyze_bb memory_operand is_synchro is_load_or_store is_write
get_alias = refl

analyze_bb_iff_example :
    ((analyze_bb always (get_1 ∷ load_2 ∷ []) empty_state).results ≡ [])
    ↔ (¬ Pending always [] (get_1 ∷ load_2 ∷ []) × ¬ Race always (get_1 ∷ load_2 ∷ []))
analyze_bb_iff_example =
    analyze_bb_iff always (λ x y. refl) (get_1 ∷ load_2 ∷ []) empty_state (nil-IsClean always) refl

abbrev put_state : BlockState
put_state = record { accesses = (1, put_1) ∷ []; results = [] }

analyze_bb-masked_example :
    ((analyze_bb never (get_1 ∷ load_1 ∷ []) put_state).results ≡ insert_report get_1 put_1 [])
    × (conflict never get_1 load_1 ≡ true)
unfolding find_access is_write is_load_or_store memory_operand
analyze_bb-masked_example =
    analyze_bb-masked never put_1 get_1 load_1 1 put_state refl refl refl refl refl refl refl

-- A loop on block 1 between the blocks 0 and 2: the get in the loop meets the load behind it, and
-- the load before the get in the next round.
abbrev loop_successors : ℕ → List ℕ
loop_successors b = elim (b == 0) [
  | true ↦ 1 ∷ []
  | false ↦ elim (b == 1) [ true ↦ 1 ∷ 2 ∷ [] | false ↦ [] ]
]

abbrev loop_predecessors : ℕ → List ℕ
loop_predecessors b = elim (b == 1) [
  | true ↦ 0 ∷ 1 ∷ []
  | false ↦ elim (b == 2) [ true ↦ 1 ∷ [] | false ↦ [] ]
]

abbrev loop_instructions : ℕ → List Instruction
loop_instructions b = elim (b == 1) [
  | true ↦ load_1 ∷ get_1 ∷ []
  | false ↦ elim (b == 2) [ true ↦ fence_call ∷ load_1 ∷ [] | false ↦ [] ]
]

abbrev looping : FunctionGraph
looping = record {
  blocks = 0 ∷ 1 ∷ 2 ∷ [];
  entry_block = 0;
  successors = loop_successors;
  predecessors = loop_predecessors;
  instructions = loop_instructions;
  loops = child (loop 1 (some 1) (1 ∷ []) end) end;
}

looping_reports : analyze 5 never looping ≡ some ((load_1, get_1) ∷ (get_1, get_1) ∷ [])
unfolding analyze memory_operand is_synchro is_load_or_store is_write
looping_reports = refl

-- Block 0 leads to the blocks 1 and 2, and these lead to block 3.
abbrev diamond_successors : ℕ → List ℕ
diamond_successors zero = 1 ∷ 2 ∷ []
diamond_successors (suc zero) = 3 ∷ []
diamond_successors (suc (suc zero)) = 3 ∷ []
diamond_successors (suc (suc (suc b))) = []

abbrev diamond_predecessors : ℕ → List ℕ
diamond_predecessors zero = []
diamond_predecessors (suc zero) = 0 ∷ []
diamond_predecessors (suc (suc zero)) = 0 ∷ []
diamond_predecessors (suc (suc (suc zero))) = 1 ∷ 2 ∷ []
diamond_predecessors (suc (suc (suc (suc b)))) = []

abbrev diamond_instructions : ℕ → List Instruction
diamond_instructions zero = []
diamond_instructions (suc zero) = get_1 ∷ []
diamond_instructions (suc (suc zero)) = []
diamond_instructions (suc (suc (suc b))) = load_1 ∷ []

abbrev diamond : FunctionGraph
diamond = record {
  blocks = 0 ∷ 1 ∷ 2 ∷ 3 ∷ [];
  entry_block = 0;
  successors = diamond_successors;
  predecessors = diamond_predecessors;
  instructions = diamond_instructions;
  loops = end;
}

diamond_rises : (b c : ℕ) → In b (diamond_predecessors c) → b < c
diamond_rises b zero m = absurd m
diamond_rises b (suc zero) m = ground arith
diamond_rises b (suc (suc zero)) m = ground arith
diamond_rises b (suc (suc (suc zero))) m = ground arith
diamond_rises b (suc (suc (suc (suc c)))) m = absurd m

diamond_linked : (b c : ℕ) → In b (diamond_predecessors c) → In c (diamond_successors b)
diamond_linked b zero m = absurd m
diamond_linked b (suc zero) (inl e) = subst (λ x. In 1 (diamond_successors x)) (sym e) (inl refl)
diamond_linked b (suc zero) (inr m) = absurd m
diamond_linked b (suc (suc zero)) (inl e) =
    subst (λ x. In 2 (diamond_successors x)) (sym e) (inr (inl refl))
diamond_linked b (suc (suc zero)) (inr m) = absurd m
diamond_linked b (suc (suc (suc zero))) (inl e) =
    subst (λ x. In 3 (diamond_successors x)) (sym e) (inl refl)
diamond_linked b (suc (suc (suc zero))) (inr (inl e)) =
    subst (λ x. In 3 (diamond_successors x)) (sym e) (inl refl)
diamond_linked b (suc (suc (suc zero))) (inr (inr m)) = absurd m
diamond_linked b (suc (suc (suc (suc c)))) m = absurd m

diamond_below : (b c : ℕ) → In b diamond.blocks → In c (diamond_successors b) → In c diamond.blocks
diamond_below zero c i m = ground arith
diamond_below (suc zero) c i m = ground arith
diamond_below (suc (suc zero)) c i m = ground arith
diamond_below (suc (suc (suc b))) c i m = absurd m

diamond_above :
    (b c : ℕ) → In c diamond.blocks → In b (diamond_predecessors c) → In b diamond.blocks
diamond_above b zero i m = absurd m
diamond_above b (suc zero) i m = ground arith
diamond_above b (suc (suc zero)) i m = ground arith
diamond_above b (suc (suc (suc zero))) i m = ground arith
diamond_above b (suc (suc (suc (suc c)))) i m = absurd m

diamond_reached : (c : ℕ) → In c diamond.blocks → (c ≡ 0) ⊎ (diamond_predecessors c ≢ [])
diamond_reached zero i = inl refl
diamond_reached (suc zero) i = inr (λ e. cc)
diamond_reached (suc (suc zero)) i = inr (λ e. cc)
diamond_reached (suc (suc (suc zero))) i = inr (λ e. cc)
diamond_reached (suc (suc (suc (suc c)))) i = absurd (ground arith)

diamond-IsAcyclic : IsAcyclic diamond
diamond-IsAcyclic = record {
  no_loop = refl;
  entered = inl refl;
  rank = λ b. b;
  rises = diamond_rises;
  linked = diamond_linked;
  below = diamond_below;
  above = diamond_above;
  reached = diamond_reached;
}

diamond_reports : analyze 5 never diamond ≡ some ((load_1, get_1) ∷ [])
unfolding analyze memory_operand is_synchro is_load_or_store is_write
diamond_reports = refl

analyze-returns_example :
    (n : ℕ) × (rs : Reports) × ((fuel : ℕ) → n ≤ fuel → analyze fuel never diamond ≡ some rs)
    × All (IsConflict never (IsOf diamond)) rs
analyze-returns_example = analyze-returns never diamond diamond-IsAcyclic

-- Block 0 leads to block 1, and so does block 2, which nothing leads to.
abbrev dead_successors : ℕ → List ℕ
dead_successors zero = 1 ∷ []
dead_successors (suc zero) = []
dead_successors (suc (suc b)) = 1 ∷ []

abbrev dead_code : FunctionGraph
dead_code = record {
  blocks = 0 ∷ 1 ∷ 2 ∷ [];
  entry_block = 0;
  successors = dead_successors;
  predecessors = λ b. if b == 1 then 0 ∷ 2 ∷ [] else [];
  instructions = λ b. [];
  loops = end;
}

abbrev IsLive : ℕ → Type 0
IsLive b = In b (0 ∷ 1 ∷ [])

IsLive-closed : (b : ℕ) → IsLive b → All IsLive (dead_code.successors b)
IsLive-closed zero m = (inr (inl refl), tt)
IsLive-closed (suc zero) m = tt
IsLive-closed (suc (suc b)) m = (inr (inl refl), tt)

two_unreached : ¬ IsLive 2
two_unreached m = ground arith

analyze-unreached_example : analyze 7 never dead_code ≡ none
analyze-unreached_example =
    analyze-unreached never dead_code 1 2 IsLive refl refl refl (inl refl) (inl refl) IsLive-closed
      two_unreached (inr (inl refl)) 7
