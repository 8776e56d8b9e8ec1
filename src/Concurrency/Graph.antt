-- ===== src/Concurrency/Graph.antt =====
-- src/rma/LocalConcurrencyAnalysis.cpp, LCDAnalysis: the traversal of a function, first of its loops
-- from the inside out, then of the whole function. A block that has to wait for a predecessor goes
-- back to the end of the queue, so the rounds of each queue are counted by fuel: some is what the
-- traversal leaves, none is running out. The loops are those of LLVM's loop analysis.
use parcoach.Base.{
  ℕ, zero, suc, Bool, true, false, not, Option, none, some, List, [], ◌∷◌, ◌++◌, ◌||◌, ◌&&◌, ◌==◌,
  if◌then◌else◌,
}
use parcoach.Concurrency.{Instruction, AccessMap, Reports, insert_access, analyze_bb}

-- llvm::Loop: the header, the latch (none if there is not exactly one), the blocks, the child loops.
mutual
  pub data Loop : Type 0 where
    loop : ℕ → Option ℕ → List ℕ → Loops → Loop

  pub data Loops : Type 0 where
    end : Loops
    child : Loop → Loops → Loops

pub record FunctionGraph : Type 0 where
  pub blocks : List ℕ
  pub entry_block : ℕ
  pub successors : ℕ → List ℕ
  pub predecessors : ℕ → List ℕ
  pub instructions : ℕ → List Instruction
  pub loops : Loops

pub data Color : Type 0 where
  white grey black : Color

-- The members of LCDAnalysis. A DenseMap that has no entry for a block gives WHITE or false.
pub record Analysis : Type 0 where
  pub color_map : ℕ → Color
  pub lheader_map : ℕ → Bool
  pub llatch_map : ℕ → Bool
  pub bb_to_mem_access : ℕ → AccessMap
  pub results : Reports

abbrev pub set_at {ℓ} : {A : Type ℓ} → (ℕ → A) → ℕ → A → ℕ → A
set_at f bb a b = if b == bb then a else f b

abbrev pub set_color : ℕ → Color → Analysis → Analysis
set_color bb c s = record s { color_map = set_at s.color_map bb c }

abbrev pub is_black : Analysis → ℕ → Bool
is_black s bb = elim (s.color_map bb) [ black ↦ true | _ ↦ false ]

abbrev pub is_white : Analysis → ℕ → Bool
is_white s bb = elim (s.color_map bb) [ white ↦ true | _ ↦ false ]

-- The range insertion into BBToMemAccess[Succ].
unfoldable pub insert_all : AccessMap → AccessMap → AccessMap
unfolding insert_access
insert_all [] m = m
insert_all ((key, i) ∷ rest) m = insert_all rest (insert_access key i m)

unfoldable pub has : ℕ → List ℕ → Bool
has b [] = false
has b (c ∷ cs) = b == c || has b cs

unfoldable pub any_open : Analysis → List ℕ → Bool
any_open s [] = false
any_open s (pred ∷ preds) = not (is_black s pred) || any_open s preds

-- LCDAnalysis::mustWait
unfoldable pub must_wait : FunctionGraph → Analysis → ℕ → Bool
unfolding any_open
must_wait f s bb = if s.lheader_map bb then false else any_open s (f.predecessors bb)

-- LCDAnalysis::mustWaitLoop
unfoldable pub must_wait_loop : FunctionGraph → List ℕ → Analysis → ℕ → Bool
unfolding has
must_wait_loop f blocks s bb = from (f.predecessors bb)
  where
    from : List ℕ → Bool
    from [] = false
    from (pred ∷ preds) =
        let rest = from preds in
        if pred == bb || s.llatch_map pred
        then rest
        else not (is_black s pred) && has pred blocks || rest

-- One round of the loops over the successors of a block, which skip those that `contains` does not
-- accept. In both branches the accesses of the block are inserted.
unfoldable pub visit_successor : (ℕ → Bool) → ℕ → ℕ → List ℕ → Analysis → List ℕ × Analysis
unfolding insert_all
visit_successor contains bb succ queue s =
    let merged = insert_all (s.bb_to_mem_access bb) (s.bb_to_mem_access succ) in
    let s' : Analysis = record s { bb_to_mem_access = set_at s.bb_to_mem_access succ merged } in
    if not (contains succ) || s.llatch_map bb && s.lheader_map succ
    then (queue, s)
    else (if is_white s succ then (queue ++ succ ∷ [], set_color succ grey s') else (queue, s'))

unfoldable pub visit_successors : (ℕ → Bool) → ℕ → List ℕ → List ℕ → Analysis → List ℕ × Analysis
unfolding visit_successor
visit_successors contains bb [] queue s = (queue, s)
visit_successors contains bb (succ ∷ succs) queue s =
    let (queue', t) = visit_successor contains bb succ queue s in
    visit_successors contains bb succs queue' t

-- analyzeBB on the members.
unfoldable pub analyze_block : (ℕ → ℕ → Bool) → FunctionGraph → ℕ → Analysis → Analysis
unfolding analyze_bb
analyze_block may_alias f bb s =
    let t =
      analyze_bb may_alias (f.instructions bb)
        (record { accesses = s.bb_to_mem_access bb; results = s.results }) in
    record s { bb_to_mem_access = set_at s.bb_to_mem_access bb t.accesses; results = t.results }

-- What both traversals do with a block that need not wait.
unfoldable pub visit_block :
    (ℕ → ℕ → Bool) → FunctionGraph → (ℕ → Bool) → ℕ → List ℕ → Analysis → List ℕ × Analysis
unfolding analyze_block visit_successors
visit_block may_alias f contains bb queue s =
    let (queue', t) =
      visit_successors contains bb (f.successors bb) queue
        (set_color bb grey (analyze_block may_alias f bb s)) in
    (queue', set_color bb black t)

-- One round of the loop of bfsLoop.
unfoldable pub bfs_loop_step :
    (ℕ → ℕ → Bool) → FunctionGraph → ℕ → List ℕ → ℕ → List ℕ → Analysis → List ℕ × Analysis
unfolding must_wait_loop visit_block has
bfs_loop_step may_alias f header blocks bb queue s =
    if is_black s bb
    then (queue, s)
    else (if must_wait_loop f blocks s bb && not (bb == header)
        then (queue ++ bb ∷ [], s)
        else visit_block may_alias f (λ b. has b blocks) bb queue s)

-- One round of the loop of analyze.
unfoldable pub analyze_step :
    (ℕ → ℕ → Bool) → FunctionGraph → ℕ → List ℕ → Analysis → List ℕ × Analysis
unfolding must_wait visit_block
analyze_step may_alias f bb queue s =
    if is_black s bb
    then (queue, s)
    else (if must_wait f s bb
        then (queue ++ bb ∷ [], s)
        else visit_block may_alias f (λ b. true) bb queue s)

-- while (!Unvisited.empty()), with the round as an argument.
unfoldable pub run_queue :
    ℕ → (ℕ → List ℕ → Analysis → List ℕ × Analysis) → List ℕ → Analysis → Option Analysis
run_queue zero step queue s = elim queue [ [] ↦ some s | _ ∷ _ ↦ none ]
run_queue (suc fuel) step queue s = elim queue [
  | [] ↦ some s
  | bb ∷ rest ↦ let (queue', t) = step bb rest s in run_queue fuel step queue' t
]

-- The end of bfsLoop: the loop's blocks are white again, its back edge will be ignored.
unfoldable pub leave_loop : Option ℕ → List ℕ → Analysis → Analysis
leave_loop latch [] s = elim latch [
  | some b ↦ record s { llatch_map = set_at s.llatch_map b true }
  | none ↦ s
]
leave_loop latch (b ∷ bs) s = leave_loop latch bs (set_color b white s)

-- LCDAnalysis::bfsLoop, and its calls for a list of loops.
unfoldable mutual
  unfolding run_queue bfs_loop_step leave_loop

  pub bfs_loop : ℕ → (ℕ → ℕ → Bool) → FunctionGraph → Loop → Analysis → Option Analysis
  bfs_loop fuel may_alias f (loop header latch blocks children) s =
      elim (bfs_loops fuel may_alias f children s) [
        | none ↦ none
        | some t ↦
            elim (run_queue fuel (bfs_loop_step may_alias f header blocks) (header ∷ [])
              (record t { lheader_map = set_at t.lheader_map header true })) [
                | none ↦ none
                | some u ↦ some (leave_loop latch blocks u)
              ]
      ]

  pub bfs_loops : ℕ → (ℕ → ℕ → Bool) → FunctionGraph → Loops → Analysis → Option Analysis
  bfs_loops fuel may_alias f end s = some s
  bfs_loops fuel may_alias f (child l ls) s = elim (bfs_loop fuel may_alias f l s) [
    | none ↦ none
    | some t ↦ bfs_loops fuel may_alias f ls t
  ]

-- The members when LCDAnalysis::analyze has made all blocks white.
abbrev pub new_analysis : Analysis
new_analysis = record {
  color_map = λ b. white;
  lheader_map = λ b. false;
  llatch_map = λ b. false;
  bb_to_mem_access = λ b. [];
  results = [];
}

-- LCDAnalysis::analyze and takeResults
unfoldable pub analyze : ℕ → (ℕ → ℕ → Bool) → FunctionGraph → Option Reports
unfolding bfs_loop run_queue analyze_step
analyze fuel may_alias f = elim (bfs_loops fuel may_alias f f.loops new_analysis) [
  | none ↦ none
  | some s ↦ elim (run_queue fuel (analyze_step may_alias f) (f.entry_block ∷ []) s) [
    | none ↦ none
    | some t ↦ some t.results
  ]
]
