-- ===== src/Rma/Thread.antt =====
-- src/instrumentation/rma/rma_analyzer.cpp, rma_analyzer_check_communication and
-- rma_analyzer_comm_check_thread: the thread that receives the accesses of the other processes.
-- What MPI_Test finds is an input, one entry for each round of the polling loop.
pub mod Counts
use Prim.Native.String.{String}
use parcoach.Base.{ℕ, suc, ◌+◌, Bool, true, false, List, [], ◌∷◌, ◌==◌, ◌&&◌, if◌then◌else◌}
use parcoach.Rma.Interval.{Access, Interval, fix_for_window}
use parcoach.Rma.Outcome.{Outcome, ok, abort}
use parcoach.Rma.Windows.{WinState, save}

-- `arrived`: the request has completed with an access as it was sent, and MPI_Probe then finds a
-- message with a file name, from whichever process.
pub data Poll : Type 0 where
  pending : Poll
  arrived : Access → String → Poll

-- The test of the polling loop: (state->thread_end == 1) && (state->count == state->value)
unfoldable pub is_finished : WinState → Bool
is_finished s = s.thread_end == 1 && s.count == s.value

-- The access that is returned, with the interval fixed for the window.
unfoldable pub received : WinState → Access → String → Access
received s acc name = record acc {
  itv = fix_for_window acc.itv s.win_base s.disp_unit;
  dbg = record { line = acc.dbg.line; filename = name };
}

-- What the thread has come to when the inputs are used up: it has returned, it still polls, or it
-- has aborted the program.
pub data ThreadResult : Type 0 where
  returned : WinState → List Poll → ThreadResult
  polling : WinState → ThreadResult
  aborted : ThreadResult

-- The two loops, as one over the rounds of the inner one. Each round tests for the end, then polls.
-- The access of a completed round is saved, and the next call of rma_analyzer_check_communication
-- begins with its own test.
unfoldable pub comm_check_thread : WinState → List Poll → ThreadResult
unfolding is_finished received save
comm_check_thread s [] = if is_finished s then returned (record s { count = 0 }) [] else polling s
comm_check_thread s (pending ∷ polls) =
    let rest = comm_check_thread s polls in
    if is_finished s then returned (record s { count = 0 }) (pending ∷ polls) else rest
comm_check_thread s (arrived acc name ∷ polls) =
    let rest = λ (t : WinState). comm_check_thread t polls in
    let next : ThreadResult = elim (save (received s acc name) (record s { count = suc s.count })) [
      | ok t ↦ rest t
      | _ ↦ aborted
    ] in
    if is_finished s then returned (record s { count = 0 }) (arrived acc name ∷ polls) else next
