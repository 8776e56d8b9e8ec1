-- ===== src/Rma/Calls.antt =====
-- src/instrumentation/rma/rma_analyzer.cpp (start and stop of the analysis of a window),
-- rma_analyzer_mpi_c_overload.cpp and rma_analyzer_load_store_overload.cpp: what the instrumented
-- program calls in place of its MPI calls, loads and stores. The PMPI calls themselves change
-- nothing here. What they and the other MPI calls return is an argument.
pub mod Fences
pub mod Life
pub mod Detects
pub mod Locks
pub mod Program
pub mod Kept
pub mod Loops
pub mod Whole
use Prim.Native.String.{String}
use parcoach.Base.{
  ℕ, zero, suc, ◌+◌, ◌*◌, ◌/◌, ◌%◌, Bool, true, false, Option, none, some, List, [], ◌∷◌, ltb,
  if◌then◌else◌, replicate,
}
use parcoach.Rma.Interval.{
  Access, MemoryAccess, DebugInfo, local_read, local_write, rma_read, rma_write, u64_mod,
  access_of_memory,
}
use parcoach.Rma.Outcome.{Outcome, ok, terminated, ◌>>=◌}
use parcoach.Rma.Windows.{
  WinState, States, Message, get_state, update, insert, erase, save_interval_all_wins,
  update_on_comm_send,
}
use parcoach.Rma.Tags.{TagIds, get_tag_range_id, mpi_tag_of, free_tag_range}
use parcoach.Rma.Epochs.{
  Arrivals, init_comm_check_thread, clear_comm_check_thread, init_comm_check_thread_all_wins,
  clear_comm_check_thread_all_wins,
}

-- The file's globals: States, win_mpi_tag_id and rma_analyzer_filter_window.
pub record Analyzer : Type 0 where
  pub states : States
  pub win_mpi_tag_id : TagIds
  pub filter_window : ℕ

-- The state that rma_analyzer_start makes; what it does not set is zero.
unfoldable pub new_state : ℕ → ℕ → ℕ → ℕ → ℕ → ℕ → ℕ → WinState
new_state base size comm size_comm win disp_unit tag = record {
  state_win = win;
  thread = false;
  intervals = [];
  win_base = base;
  disp_unit = disp_unit;
  win_size = size;
  win_comm = comm;
  size_comm = size_comm;
  mpi_tag = tag;
  array = replicate size_comm 0;
  value = 0;
  thread_end = 0;
  count_epoch = 0;
  count_fence = 0;
  count = 0;
  active_epoch = 0;
  from_sync = 0;
}

-- `env` is atoi of RMA_ANALYZER_FILTER_WINDOW if that is set, `size_comm` what MPI_Comm_size says.
unfoldable pub start : Option ℕ → ℕ → ℕ → ℕ → ℕ → ℕ → ℕ → Analyzer → Analyzer
unfolding new_state get_tag_range_id mpi_tag_of insert
start env base size comm size_comm win disp_unit a =
    let (tag_id, ids) = get_tag_range_id a.win_mpi_tag_id in
    let s = new_state base size comm size_comm win disp_unit (mpi_tag_of tag_id) in
    record {
      states = insert win s a.states;
      win_mpi_tag_id = ids;
      filter_window = elim env [ none ↦ a.filter_window | some n ↦ n ];
    }

-- Erasing the state destroys its std::thread, which terminates the program if that is joinable.
unfoldable pub stop : ℕ → Analyzer → Outcome Analyzer
unfolding get_state free_tag_range erase
stop win a = do
  s ← get_state win a.states
  ids ← free_tag_range s.mpi_tag a.win_mpi_tag_id
  if s.thread
      then terminated
      else ok (record a { states = erase win a.states; win_mpi_tag_id = ids })

-- MPI_Win_create
unfoldable pub win_create : Option ℕ → ℕ → ℕ → ℕ → ℕ → ℕ → ℕ → Analyzer → Analyzer
unfolding start
win_create env base size comm size_comm win disp_unit a =
    start env base size comm size_comm win disp_unit a

-- MPI_Win_allocate. `baseptr` is the address at which PMPI_Win_allocate stores the base of the
-- memory, `allocated`.
unfoldable pub win_allocate : Option ℕ → ℕ → ℕ → ℕ → ℕ → ℕ → ℕ → ℕ → Analyzer → Analyzer
unfolding start
win_allocate env baseptr allocated size comm size_comm win disp_unit a =
    start env baseptr size comm size_comm win disp_unit a

-- MPI_Win_lock_all
unfoldable pub win_lock_all : ℕ → States → Outcome States
unfolding init_comm_check_thread
win_lock_all win states = init_comm_check_thread win states

-- MPI_Win_lock
unfoldable pub win_lock : ℕ → States → Outcome States
unfolding init_comm_check_thread
win_lock win states = init_comm_check_thread win states

-- MPI_Win_start
unfoldable pub win_start : ℕ → States → Outcome States
unfolding init_comm_check_thread
win_start win states = init_comm_check_thread win states

-- MPI_Win_post
unfoldable pub win_post : ℕ → States → Outcome States
unfolding init_comm_check_thread
win_post win states = init_comm_check_thread win states

-- MPI_Win_unlock_all
unfoldable pub win_unlock_all : Arrivals → ℕ → States → Outcome States
unfolding clear_comm_check_thread
win_unlock_all e win states = clear_comm_check_thread true e win states

-- MPI_Win_unlock
unfoldable pub win_unlock : Arrivals → ℕ → States → Outcome States
unfolding clear_comm_check_thread
win_unlock e win states = clear_comm_check_thread true e win states

-- MPI_Win_complete
unfoldable pub win_complete : Arrivals → ℕ → States → Outcome States
unfolding clear_comm_check_thread
win_complete e win states = clear_comm_check_thread true e win states

-- MPI_Win_wait
unfoldable pub win_wait : Arrivals → ℕ → States → Outcome States
unfolding clear_comm_check_thread
win_wait e win states = clear_comm_check_thread true e win states

-- MPI_Win_fence
unfoldable pub fence : Arrivals → ℕ → States → Outcome States
unfolding get_state clear_comm_check_thread update init_comm_check_thread
fence e win states = do
  s ← get_state win states
  cleared ← if ltb 0 s.count_fence then clear_comm_check_thread true e win states else ok states
  t ← get_state win cleared
  init_comm_check_thread win (update win (record t { count_fence = t.count_fence + 1 }) cleared)

-- MPI_Win_free
unfoldable pub win_free : Arrivals → ℕ → Analyzer → Outcome Analyzer
unfolding get_state clear_comm_check_thread stop
win_free e win a = do
  s ← get_state win a.states
  cleared ←
      if ltb 0 s.count_fence then clear_comm_check_thread false e win a.states else ok a.states
  stop win (record a { states = cleared })

-- An argument triple of a one-sided call: address or displacement, count, and size of the type.
pub record Buffer : Type 0 where
  pub at : ℕ
  pub count : ℕ
  pub type_size : ℕ

abbrev pub memory_of : Buffer → MemoryAccess
memory_of b = record { addr = b.at; size = b.type_size * b.count % u64_mod }

-- MPI_Put
unfoldable pub put : Buffer → Buffer → DebugInfo → ℕ → ℕ → States → Outcome (States × Message)
unfolding access_of_memory update_on_comm_send
put origin target dbg target_rank win states =
    update_on_comm_send (access_of_memory (memory_of origin) rma_read dbg)
      (access_of_memory (memory_of target) rma_write dbg) target_rank win states

-- MPI_Get
unfoldable pub get : Buffer → Buffer → DebugInfo → ℕ → ℕ → States → Outcome (States × Message)
unfolding access_of_memory update_on_comm_send
get origin target dbg target_rank win states =
    update_on_comm_send (access_of_memory (memory_of origin) rma_write dbg)
      (access_of_memory (memory_of target) rma_read dbg) target_rank win states

-- MPI_Accumulate
unfoldable pub accumulate :
    Buffer → Buffer → DebugInfo → ℕ → ℕ → States → Outcome (States × Message)
unfolding access_of_memory update_on_comm_send
accumulate origin target dbg target_rank win states =
    update_on_comm_send (access_of_memory (memory_of origin) rma_read dbg)
      (access_of_memory (memory_of target) rma_write dbg) target_rank win states

-- parcoach_rma_store, parcoach_rma_load: the size is given in bits.
unfoldable pub store : ℕ → ℕ → DebugInfo → States → Outcome States
unfolding access_of_memory save_interval_all_wins
store addr bits dbg states =
    save_interval_all_wins
      (access_of_memory (record { addr = addr; size = bits / 8 }) local_write dbg) states

unfoldable pub load : ℕ → ℕ → DebugInfo → States → Outcome States
unfolding access_of_memory save_interval_all_wins
load addr bits dbg states =
    save_interval_all_wins
      (access_of_memory (record { addr = addr; size = bits / 8 }) local_read dbg) states
