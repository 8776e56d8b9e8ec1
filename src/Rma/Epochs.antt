-- ===== src/Rma/Epochs.antt =====
-- src/instrumentation/rma/rma_analyzer.cpp: the start and the end of an epoch on one window, and
-- on all windows around a barrier.
pub mod Protocol
pub mod Barrier
pub mod Resumes
pub mod Steps
use parcoach.Base.{
  ℕ, zero, suc, ◌+◌, Bool, true, false, not, List, [], ◌∷◌, ◌==◌, ◌&&◌, if◌then◌else◌,
}
use parcoach.Rma.Outcome.{Outcome, ok, terminated, out_of_bounds, blocked, abort, ◌>>=◌}
use parcoach.Rma.Windows.{WinState, States, get_state, update, is_active_epoch, for_each, handles}
use parcoach.Rma.Thread.{Poll, comm_check_thread, ThreadResult, returned, polling, aborted}

-- for (i = 0; i < size_comm; i++) array[i] = 0
unfoldable pub clear_array : ℕ → List ℕ → Outcome (List ℕ)
clear_array zero xs = ok xs
clear_array (suc n) [] = out_of_bounds
clear_array (suc n) (x ∷ xs) = do rest ← clear_array n xs; ok (0 ∷ rest)

-- rma_analyzer_init_comm_check_thread behind the lookup. Assigning to a std::thread that is
-- joinable terminates the program.
unfoldable pub start_thread : WinState → Outcome WinState
unfolding clear_array
start_thread s = do
  zeros ← clear_array s.size_comm s.array
  if s.thread
      then terminated
      else ok (record s {
        array = zeros;
        thread_end = 0;
        count_epoch = s.count_epoch + 1;
        active_epoch = 1;
        thread = true;
      })

unfoldable pub init_comm_check_thread : ℕ → States → Outcome States
unfolding get_state start_thread update
init_comm_check_thread win states = do
  s ← get_state win states
  t ← start_thread s
  ok (update win t states)

-- What MPI brings to the end of an epoch on one window: the sum that MPI_Reduce leaves in `value`
-- on this process, and what the thread's polls find until it returns.
pub record Arrivals : Type 0 where
  pub reduced : ℕ
  pub polls : List Poll

-- The end of rma_analyzer_clear_comm_check_thread, from `Thread.join()` on.
unfoldable pub join : ThreadResult → Outcome WinState
join (returned t rest) =
    ok (record t { thread = false; count = 0; active_epoch = 0; intervals = [] })
join (polling t) = blocked
join aborted = abort

-- rma_analyzer_clear_comm_check_thread behind the lookup. Joining a std::thread that is not
-- joinable throws std::system_error, which no caller catches.
unfoldable pub stop_thread : Bool → Arrivals → WinState → Outcome WinState
unfolding comm_check_thread join
stop_thread do_reduce e s =
    if not s.thread
    then terminated
    else join (
        comm_check_thread (record s { value = if do_reduce then e.reduced else 0; thread_end = 1 })
          e.polls)

unfoldable pub clear_comm_check_thread : Bool → Arrivals → ℕ → States → Outcome States
unfolding get_state stop_thread update
clear_comm_check_thread do_reduce e win states = do
  s ← get_state win states
  t ← stop_thread do_reduce e s
  ok (update win t states)

-- The body of rma_analyzer_init_comm_check_thread_all_wins.
unfoldable pub restart_if_synced : ℕ → States → Outcome States
unfolding is_active_epoch get_state init_comm_check_thread
restart_if_synced win states = do
  active ← is_active_epoch win states
  s ← get_state win states
  if not active && s.from_sync == 1 then init_comm_check_thread win states else ok states

unfoldable pub init_comm_check_thread_all_wins : States → Outcome States
unfolding for_each restart_if_synced
init_comm_check_thread_all_wins states = for_each restart_if_synced (handles states) states

set_from_sync : ℕ → States → Outcome States
unfolding get_state update
set_from_sync win states = do
  s ← get_state win states
  ok (update win (record s { from_sync = 1 }) states)

-- The body of rma_analyzer_clear_comm_check_thread_all_wins.
unfoldable pub clear_if_active : Bool → (ℕ → Arrivals) → ℕ → States → Outcome States
unfolding is_active_epoch clear_comm_check_thread set_from_sync
clear_if_active do_reduce e win states = do
  active ← is_active_epoch win states
  if active
      then clear_comm_check_thread do_reduce (e win) win states >>= set_from_sync win
      else ok states

unfoldable pub clear_comm_check_thread_all_wins : Bool → (ℕ → Arrivals) → States → Outcome States
unfolding for_each clear_if_active
clear_comm_check_thread_all_wins do_reduce e states =
    for_each (clear_if_active do_reduce e) (handles states) states

-- rma_analyzer_mpi_c_overload.cpp, MPI_Barrier
unfoldable pub barrier : (ℕ → Arrivals) → States → Outcome States
unfolding clear_comm_check_thread_all_wins init_comm_check_thread_all_wins
barrier e states = do
  cleared ← clear_comm_check_thread_all_wins true e states
  init_comm_check_thread_all_wins cleared
