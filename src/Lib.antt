-- ===== src/Lib.antt =====
-- PARCOACH finds errors in the use of collectives and of one-sided communications in MPI programs.
-- This library is about some of its parts. The RMA analyzer checks one-sided communications at run
-- time: a program is linked with it, and its calls stand in place of the program's MPI calls, loads
-- and stores. The static analysis compares the sequences of collectives on the paths of a program.
-- A compile-time search finds local data races around one-sided calls. The compiler wrapper runs the
-- static analysis beside a compiler.
--
-- The RMA analyzer, from the bottom up (all paths below src/instrumentation/rma):
--   Rma/Interval: Interval.h. The interval of addresses of an access, its type, and the test whether
--     two accesses conflict (Interval::intersects, Access::conflictsWith, fixForWindow).
--   Rma/Store: getIntersectingIntervals and getConflictingIntervals of rma_analyzer.cpp, on the
--     sorted multiset of the accesses of an epoch.
--   Rma/Windows: rma_analyzer_state and the map States; rma_analyzer_save_interval,
--     rma_analyzer_save_interval_all_wins and rma_analyzer_update_on_comm_send.
--   Rma/Tags: rma_analyzer_get_tag_range_id and rma_analyzer_free_tag_range.
--   Rma/Thread: rma_analyzer_check_communication and rma_analyzer_comm_check_thread, the thread that
--     receives the accesses that other processes make to a window.
--   Rma/Epochs: rma_analyzer_init_comm_check_thread and rma_analyzer_clear_comm_check_thread, which
--     start and stop that thread for one window or for all of them, and MPI_Barrier.
--   Rma/Calls: rma_analyzer_start and rma_analyzer_stop, rma_analyzer_mpi_c_overload.cpp and
--     rma_analyzer_load_store_overload.cpp. Calls/Program has the runs of a program, call by call.
--   Rma/Fortran: rma_analyzer_mpi_fort_overload.cpp.
-- A call looks up the state of its window, saves its local access in the store of that window, and
-- sends the access to its target. There the thread gives it the addresses of the target's window and
-- saves it too. An access that conflicts with a stored one aborts the program.
--
-- State and errors: an operation takes the state and returns an Outcome. That is a result or the way
-- the program ends: exit_failure (exit in rma_analyzer_get_state), abort (MPI_Abort at a conflict),
-- terminated (std::terminate, by a std::thread that is assigned to, joined or destroyed in the wrong
-- state), out_of_bounds (an index outside an array) and blocked (a join that waits for a thread which
-- still polls). MPI is not modelled. What it brings is an argument: the result of MPI_Reduce and the list
-- of what the thread's polls find (Arrivals, Poll). The loops of the thread recurse on that list, so
-- no fuel is needed: a thread that has used it up is still polling. The receiving thread and the
-- program's own thread are interleaved at the granularity of one call or one round (Calls/Program); the
-- mutex of the store makes one saving atomic. Windows and communicators are numbers.
-- Addresses and sizes are taken modulo 2 ^ 64 where the source computes with uint64_t, and in Fortran
-- modulo 2 ^ 32 where it computes with int. The counters of a window are natural numbers.
--
-- The static analysis (below src/aSSA and src/include/parcoach):
--   Static/Collectives: Collectives.h, Collectives.cpp. Which functions are collectives, and the
--     communicator of a call to one.
--   Static/Lists: CollectiveList.h, CollectiveList.cpp. The list of the collectives of a block, with
--     NAVS where the paths differ, and nested lists for loops; two lists are compared by their texts.
--   Static/Flow: CFGVisitor of CFGVisitors.h and CollListCFGVisitor of CollListFunctionAnalysis.cpp,
--     which go from the exits of a function up and compute the list of each block from those of its
--     successors, here for one communicator at a time. The traversal puts back a block whose successors
--     are not all visited, so its rounds are counted by fuel; a result is some, running out is none.
--     Where the function has no loops and its calls do not lead back to it, Flow/Ready and Flow/Ends
--     show that finitely many rounds are enough: each full turn of the queue visits a block.
--   Static/Loops: LoopVisitor of CFGVisitors.h and CollListLoopVisitor of CollListLoopAnalysis.cpp, which
--     go through the loops from the inside out and through the blocks of each from its header down.
--     Its rounds are counted by fuel too. Loops/Exits has ComputeReversedMap.
--   Static/Returns: functionDoesNotRet of Utils.cpp, with a round of fuel for each pop; Returns/Reaches
--     shows that one more than the number of blocks is enough.
--   Static/Warnings: checkWarnings of CollListFunctionAnalysis.cpp, on what the dependence graph says
--     of the blocks that govern a call.
--
-- The search for local data races at compile time (src/rma/LocalConcurrencyAnalysis.cpp, LCDAnalysis):
--   Concurrency: analyzeBB, with the map from the values to the last one-sided call on them.
--     Concurrency/Races says what a race is without that map.
--   Concurrency/Graph: mustWait, mustWaitLoop, bfsLoop and analyze, which visit the loops of a function
--     from the inside out and then the function. The rounds of each queue are counted by fuel, since
--     the traversal need not end. Concurrency/Returns is about functions without loops, for which
--     finitely many rounds are enough; Concurrency/Waits about blocks that are waited for forever.
-- LLVM's alias analysis and its loops are arguments.
--
-- The pointer analysis (src/aSSA/andersen and src/include/parcoach/andersen):
--   Andersen: NodeFactory. The nodes, their maps, mergeNode and getMergeTarget with its path
--     compression, whose rounds are counted by fuel. Andersen/Forest has the representatives.
--   Andersen/Library, on the tables of Andersen/Names: ExternalLibrary.cpp, the constraints for calls of
--     functions without a body. Library/Below and Library/Extends have what the cases keep.
--   Andersen/Constraints: Constraint.h, PtsSet.h and, of ConstraintSolving.cpp, the constraint graph,
--     collapseNodes, AndersWorkList and buildConstraintGraph.
--
-- In the static parts blocks are numbers, names are lists of bytes, and a map that has no entry for a
-- block gives the empty list, as operator[] does. LLVM's loop information is an argument.
--
-- The compiler wrapper (src/tools/wrapper): Wrapper.antt has CommandLineUtils.cpp and the main of
-- Wrapper.cpp. A run gives the exit code and the commands in order; what the system answers to the
-- search for a program, to the creation of a file and to a command is an argument (System).
--
-- Not modelled: the texts of messages, the measurement of times, the MPI datatype, the printing
-- of warnings, the collection, the optimization and the solving loop of the constraints of the pointer
-- analysis, the dependence analysis of src/aSSA, the other passes of src/rma, and src/tools/launcher.
pub mod Andersen
pub mod Base
pub mod Concurrency
pub mod Rma
pub mod Static
pub mod Wrapper
