-- ===== src/Rma/Fortran.antt =====
-- src/instrumentation/rma/rma_analyzer_mpi_fort_overload.cpp: what an instrumented Fortran program
-- calls. An int is its 32-bit pattern. Handles are converted by MPI_Win_f2c and MPI_Comm_f2c, which
-- are parameters. A product of ints that overflows wraps around, as compilers have it.
pub mod Sizes
use parcoach.Base.{ℕ, ◌+◌, ◌*◌, ◌-◌, ◌%◌, ◌^◌, Option, ltb, if◌then◌else◌, true, false}
use parcoach.Rma.Interval.{MemoryAccess, DebugInfo, rma_read, rma_write, u64_mod, access_of_memory}
use parcoach.Rma.Outcome.{Outcome, ok, ◌>>=◌}
use parcoach.Rma.Windows.{States, Message, get_state, update, update_on_comm_send}
use parcoach.Rma.Epochs.{
  Arrivals, init_comm_check_thread, clear_comm_check_thread, init_comm_check_thread_all_wins,
  clear_comm_check_thread_all_wins,
}
use parcoach.Rma.Calls.{Analyzer, Buffer, start, stop}

abbrev pub int_mod : ℕ
int_mod = 2 ^ 32

-- The conversion of an int to uint64_t.
unfoldable pub sign_extend : ℕ → ℕ
sign_extend x = if ltb x (2 ^ 31) then x else x + (u64_mod - int_mod)

-- local_size and target_size are int.
unfoldable pub fort_origin : Buffer → MemoryAccess
unfolding sign_extend
fort_origin b = record { addr = b.at; size = sign_extend (b.type_size * b.count % int_mod) }

unfoldable pub fort_target : Buffer → MemoryAccess
unfolding sign_extend
fort_target b = record {
  addr = sign_extend b.at;
  size = sign_extend (b.type_size * b.count % int_mod);
}

module _ (win_f2c comm_f2c : ℕ → ℕ) where
  -- mpi_win_create_
  unfoldable pub fort_win_create : Option ℕ → ℕ → ℕ → ℕ → ℕ → ℕ → ℕ → Analyzer → Analyzer
  unfolding start
  fort_win_create env base size comm size_comm win disp_unit a =
      start env base (sign_extend size) (comm_f2c comm) size_comm (win_f2c win) disp_unit a

  -- mpi_win_allocate_
  unfoldable pub fort_win_allocate : Option ℕ → ℕ → ℕ → ℕ → ℕ → ℕ → ℕ → Analyzer → Analyzer
  unfolding start
  fort_win_allocate env baseptr size comm size_comm win disp_unit a =
      start env baseptr (sign_extend size) (comm_f2c comm) size_comm (win_f2c win) disp_unit a

  -- mpi_win_lock_all_
  unfoldable pub fort_win_lock_all : ℕ → States → Outcome States
  unfolding init_comm_check_thread
  fort_win_lock_all win states = init_comm_check_thread (win_f2c win) states

  -- mpi_win_lock_
  unfoldable pub fort_win_lock : ℕ → States → Outcome States
  unfolding init_comm_check_thread
  fort_win_lock win states = init_comm_check_thread (win_f2c win) states

  -- mpi_win_fence_
  unfoldable pub fort_fence : Arrivals → ℕ → States → Outcome States
  unfolding get_state clear_comm_check_thread update init_comm_check_thread
  fort_fence e win states = do
    let c_win = win_f2c win
    s ← get_state c_win states
    cleared ← if ltb 0 s.count_fence then clear_comm_check_thread true e c_win states else ok states
    t ← get_state c_win cleared
    init_comm_check_thread c_win
        (update c_win (record t { count_fence = t.count_fence + 1 }) cleared)

  -- mpi_win_start_
  unfoldable pub fort_win_start : ℕ → States → Outcome States
  unfolding init_comm_check_thread
  fort_win_start win states = init_comm_check_thread (win_f2c win) states

  -- mpi_win_post_
  unfoldable pub fort_win_post : ℕ → States → Outcome States
  unfolding init_comm_check_thread
  fort_win_post win states = init_comm_check_thread (win_f2c win) states

  -- mpi_put_
  unfoldable pub fort_put :
      Buffer → Buffer → DebugInfo → ℕ → ℕ → States → Outcome (States × Message)
  unfolding access_of_memory update_on_comm_send fort_origin fort_target
  fort_put origin target dbg target_rank win states =
      update_on_comm_send (access_of_memory (fort_origin origin) rma_read dbg)
        (access_of_memory (fort_target target) rma_write dbg) target_rank (win_f2c win) states

  -- mpi_get_
  unfoldable pub fort_get :
      Buffer → Buffer → DebugInfo → ℕ → ℕ → States → Outcome (States × Message)
  unfolding access_of_memory update_on_comm_send fort_origin fort_target
  fort_get origin target dbg target_rank win states =
      update_on_comm_send (access_of_memory (fort_origin origin) rma_write dbg)
        (access_of_memory (fort_target target) rma_read dbg) target_rank (win_f2c win) states

  -- mpi_accumulate_
  unfoldable pub fort_accumulate :
      Buffer → Buffer → DebugInfo → ℕ → ℕ → States → Outcome (States × Message)
  unfolding access_of_memory update_on_comm_send fort_origin fort_target
  fort_accumulate origin target dbg target_rank win states =
      update_on_comm_send (access_of_memory (fort_origin origin) rma_read dbg)
        (access_of_memory (fort_target target) rma_write dbg) target_rank (win_f2c win) states

  -- mpi_win_unlock_all_
  unfoldable pub fort_win_unlock_all : Arrivals → ℕ → States → Outcome States
  unfolding clear_comm_check_thread
  fort_win_unlock_all e win states = clear_comm_check_thread true e (win_f2c win) states

  -- mpi_win_unlock_
  unfoldable pub fort_win_unlock : Arrivals → ℕ → States → Outcome States
  unfolding clear_comm_check_thread
  fort_win_unlock e win states = clear_comm_check_thread true e (win_f2c win) states

  -- mpi_win_complete_
  unfoldable pub fort_win_complete : Arrivals → ℕ → States → Outcome States
  unfolding clear_comm_check_thread
  fort_win_complete e win states = clear_comm_check_thread true e (win_f2c win) states

  -- mpi_win_wait_
  unfoldable pub fort_win_wait : Arrivals → ℕ → States → Outcome States
  unfolding clear_comm_check_thread
  fort_win_wait e win states = clear_comm_check_thread true e (win_f2c win) states

  -- mpi_win_free_
  unfoldable pub fort_win_free : Arrivals → ℕ → Analyzer → Outcome Analyzer
  unfolding get_state clear_comm_check_thread stop
  fort_win_free e win a = do
    let c_win = win_f2c win
    s ← get_state c_win a.states
    cleared ←
        if ltb 0 s.count_fence then clear_comm_check_thread false e c_win a.states else ok a.states
    stop c_win (record a { states = cleared })

-- mpi_barrier_
unfoldable pub fort_barrier : (ℕ → Arrivals) → States → Outcome States
unfolding clear_comm_check_thread_all_wins init_comm_check_thread_all_wins
fort_barrier e states = do
  cleared ← clear_comm_check_thread_all_wins true e states
  init_comm_check_thread_all_wins cleared
