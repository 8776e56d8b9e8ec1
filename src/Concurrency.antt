-- ===== src/Concurrency.antt =====
-- src/rma/LocalConcurrencyAnalysis.cpp, LCDAnalysis: the search for local data races on the buffers of
-- one-sided calls at compile time. Here the analysis of one block; Graph has the traversal of a
-- function. Values and instructions are numbers, names are lists of bytes. LLVM's alias analysis is
-- an argument, which tells whether two values may alias.
pub mod Graph
pub mod Maps
pub mod Races
pub mod Blocks
pub mod Clean
pub mod Quiet
pub mod Reports
pub mod Functions
pub mod Ends
pub mod Ready
pub mod Returns
pub mod Successors
pub mod Waits
pub mod Masks
mod Tests
use parcoach.Base.{
  ℕ, Bool, true, false, not, Option, none, some, List, [], ◌∷◌, ◌++◌, ◌||◌, ◌&&◌, ◌==◌,
  if◌then◌else◌,
}
use parcoach.Static.Collectives.{Text, text_eq}

-- What the analysis looks at: the name of the called function, if it is known, and the first operand
-- of a call; the pointer operand of a store and of a load. The first number is the instruction.
pub data Instruction : Type 0 where
  call : ℕ → Option Text → ℕ → Instruction
  store load : ℕ → ℕ → Instruction
  other : ℕ → Instruction

abbrev pub instruction_id : Instruction → ℕ
instruction_id (call id callee operand) = id
instruction_id (store id mem) = id
instruction_id (load id mem) = id
instruction_id (other id) = id

unfoldable pub is_among : Text → List Text → Bool
unfolding text_eq
is_among name [] = false
is_among name (n ∷ names) = text_eq name n || is_among name names

-- "MPI_Get", "mpi_get_"
abbrev pub get_names : List Text
get_names =
    (77 ∷ 80 ∷ 73 ∷ 95 ∷ 71 ∷ 101 ∷ 116 ∷ [])
    ∷ (109 ∷ 112 ∷ 105 ∷ 95 ∷ 103 ∷ 101 ∷ 116 ∷ 95 ∷ [])
    ∷ []

-- "MPI_Put", "mpi_put_"
abbrev pub put_names : List Text
put_names =
    (77 ∷ 80 ∷ 73 ∷ 95 ∷ 80 ∷ 117 ∷ 116 ∷ [])
    ∷ (109 ∷ 112 ∷ 105 ∷ 95 ∷ 112 ∷ 117 ∷ 116 ∷ 95 ∷ [])
    ∷ []

-- "MPI_Win_flush", "MPI_Win_flush_all", "MPI_Win_fence", "MPI_Win_flush_local",
-- "MPI_Win_unlock_all", "mpi_win_unlock_all_", "mpi_win_flush_", "mpi_win_flush_all_",
-- "mpi_win_fence_"
abbrev pub synchro_names : List Text
synchro_names =
    (77 ∷ 80 ∷ 73 ∷ 95 ∷ 87 ∷ 105 ∷ 110 ∷ 95 ∷ 102 ∷ 108 ∷ 117 ∷ 115 ∷ 104 ∷ [])
    ∷ (77 ∷ 80 ∷ 73 ∷ 95 ∷ 87 ∷ 105 ∷ 110 ∷ 95 ∷ 102 ∷ 108 ∷ 117 ∷ 115 ∷ 104 ∷ 95 ∷ 97 ∷ 108 ∷ 108
        ∷ [])
    ∷ (77 ∷ 80 ∷ 73 ∷ 95 ∷ 87 ∷ 105 ∷ 110 ∷ 95 ∷ 102 ∷ 101 ∷ 110 ∷ 99 ∷ 101 ∷ [])
    ∷ (77 ∷ 80 ∷ 73 ∷ 95 ∷ 87 ∷ 105 ∷ 110 ∷ 95 ∷ 102 ∷ 108 ∷ 117 ∷ 115 ∷ 104 ∷ 95 ∷ 108 ∷ 111 ∷ 99
        ∷ 97 ∷ 108 ∷ [])
    ∷ (77 ∷ 80 ∷ 73 ∷ 95 ∷ 87 ∷ 105 ∷ 110 ∷ 95 ∷ 117 ∷ 110 ∷ 108 ∷ 111 ∷ 99 ∷ 107 ∷ 95 ∷ 97 ∷ 108
        ∷ 108 ∷ [])
    ∷ (109 ∷ 112 ∷ 105 ∷ 95 ∷ 119 ∷ 105 ∷ 110 ∷ 95 ∷ 117 ∷ 110 ∷ 108 ∷ 111 ∷ 99 ∷ 107 ∷ 95 ∷ 97
        ∷ 108 ∷ 108 ∷ 95 ∷ [])
    ∷ (109 ∷ 112 ∷ 105 ∷ 95 ∷ 119 ∷ 105 ∷ 110 ∷ 95 ∷ 102 ∷ 108 ∷ 117 ∷ 115 ∷ 104 ∷ 95 ∷ [])
    ∷ (109 ∷ 112 ∷ 105 ∷ 95 ∷ 119 ∷ 105 ∷ 110 ∷ 95 ∷ 102 ∷ 108 ∷ 117 ∷ 115 ∷ 104 ∷ 95 ∷ 97 ∷ 108
        ∷ 108 ∷ 95 ∷ [])
    ∷ (109 ∷ 112 ∷ 105 ∷ 95 ∷ 119 ∷ 105 ∷ 110 ∷ 95 ∷ 102 ∷ 101 ∷ 110 ∷ 99 ∷ 101 ∷ 95 ∷ [])
    ∷ []

pub data AccessMode : Type 0 where
  read write : AccessMode

-- LCDAnalysis::getInstructionType
unfoldable pub get_instruction_type : Instruction → AccessMode
unfolding is_among
get_instruction_type (call id none operand) = read
get_instruction_type (call id (some name) operand) =
    if is_among name get_names then write else (if is_among name put_names then read else read)
get_instruction_type (store id mem) = write
get_instruction_type (load id mem) = read
get_instruction_type (other id) = read

-- The variable Mem of analyzeBB, none for the null pointer.
unfoldable pub memory_operand : Instruction → Option ℕ
unfolding is_among
memory_operand (call id none operand) = none
memory_operand (call id (some name) operand) =
    if is_among name get_names || is_among name put_names then some operand else none
memory_operand (store id mem) = some mem
memory_operand (load id mem) = some mem
memory_operand (other id) = none

-- The calls that end all pending accesses.
unfoldable pub is_synchro : Instruction → Bool
unfolding is_among
is_synchro (call id (some name) operand) =
    not (is_among name get_names || is_among name put_names) && is_among name synchro_names
is_synchro (call id none operand) = false
is_synchro (store id mem) = false
is_synchro (load id mem) = false
is_synchro (other id) = false

unfoldable pub is_load_or_store : Instruction → Bool
is_load_or_store (call id callee operand) = false
is_load_or_store (store id mem) = true
is_load_or_store (load id mem) = true
is_load_or_store (other id) = false

-- ValueMap<Value *, Instruction *>
abbrev pub AccessMap : Type 0
AccessMap = List (ℕ × Instruction)

unfoldable pub find_access : ℕ → AccessMap → Option Instruction
find_access mem [] = none
find_access mem ((key, i) ∷ rest) = if key == mem then some i else find_access mem rest

-- insert_access, which keeps an entry that is there.
unfoldable pub insert_access : ℕ → Instruction → AccessMap → AccessMap
insert_access mem i [] = (mem, i) ∷ []
insert_access mem i ((key, j) ∷ rest) =
    if key == mem then (key, j) ∷ rest else (key, j) ∷ insert_access mem i rest

-- PrevAccess->second = &Inst
unfoldable pub assign : ℕ → Instruction → AccessMap → AccessMap
assign mem i [] = []
assign mem i ((key, j) ∷ rest) =
    if key == mem then (key, i) ∷ rest else (key, j) ∷ assign mem i rest

-- LocalConcurrencyVector, a vector without duplicates.
abbrev pub Reports : Type 0
Reports = List (Instruction × Instruction)

unfoldable pub insert_report : Instruction → Instruction → Reports → Reports
insert_report i j [] = (i, j) ∷ []
insert_report i j ((k, l) ∷ rest) =
    if (instruction_id k == instruction_id i) && (instruction_id l == instruction_id j)
    then (k, l) ∷ rest
    else (k, l) ∷ insert_report i j rest

-- The accesses of the block, BBToMemAccess[BB], and the results.
pub record BlockState : Type 0 where
  pub accesses : AccessMap
  pub results : Reports

abbrev pub is_write : Instruction → Bool
unfolding get_instruction_type
is_write i = elim (get_instruction_type i) [ write ↦ true | read ↦ false ]

-- The loop over all entries, when none is stored for the memory of the instruction.
unfoldable pub report_aliases : (ℕ → ℕ → Bool) → Instruction → ℕ → AccessMap → Reports → Reports
unfolding insert_report
report_aliases may_alias i mem [] results = results
report_aliases may_alias i mem ((key, j) ∷ rest) results =
    report_aliases may_alias i mem rest (
      if may_alias key mem && (is_write j || is_write i)
      then insert_report i j results
      else results)

-- The part of analyzeBB for an instruction that accesses memory.
unfoldable pub analyze_access : (ℕ → ℕ → Bool) → Instruction → ℕ → BlockState → BlockState
unfolding find_access insert_access assign report_aliases insert_report
analyze_access may_alias i mem s = elim (find_access mem s.accesses) [
  | some prev ↦
      if is_write prev || is_write i
      then record s { results = insert_report i prev s.results }
      else (if is_load_or_store i then s else record s { accesses = assign mem i s.accesses })
  | none ↦ record {
    accesses = if is_load_or_store i then s.accesses else insert_access mem i s.accesses;
    results = report_aliases may_alias i mem s.accesses s.results;
  }
]

-- One round of the loop of analyzeBB.
unfoldable pub analyze_instruction : (ℕ → ℕ → Bool) → Instruction → BlockState → BlockState
unfolding analyze_access
analyze_instruction may_alias i s = elim (memory_operand i) [
  | some mem ↦ analyze_access may_alias i mem s
  | none ↦ if is_synchro i then record s { accesses = [] } else s
]

-- LCDAnalysis::analyzeBB
unfoldable pub analyze_bb : (ℕ → ℕ → Bool) → List Instruction → BlockState → BlockState
unfolding analyze_instruction
analyze_bb may_alias [] s = s
analyze_bb may_alias (i ∷ is) s = analyze_bb may_alias is (analyze_instruction may_alias i s)
