-- ===== src/Rma/Calls/Whole.antt =====
-- The invariant of all windows, from the start of the program on.
use parcoach.Base.{◌/◌, ap, true, Option, ◌≡◌, refl, sym, subst, ℕ, none}
use parcoach.Rma.Interval.{access_of_memory, rma_read, rma_write, local_read, local_write}
use parcoach.Rma.Windows.{States, WinState, find}
use parcoach.Rma.Thread.Counts.{comm_check_thread-polling}
use parcoach.Rma.Tags.{mpi_tag_of, get_tag_range_id}
use parcoach.Rma.Epochs.Steps.{receives}
use parcoach.Rma.Calls.{
  memory_of, Analyzer, new_state, start, win_create, win_allocate, win_lock_all, win_lock,
  win_start, win_post, win_unlock_all, win_unlock, win_complete, win_wait, put, get, accumulate,
  store, load,
}
use parcoach.Rma.Calls.Life.{new_state-IsConsistent}
use parcoach.Rma.Calls.Program.{
  Call, creates, allocates, frees, locks_all, locks, starts_epoch, posts, unlocks_all, unlocks,
  completes, waits, passes_fence, passes_barrier, puts, gets, accumulates, stores, loads,
  thread_receives, Calls, none_yet, called,
}
use parcoach.Rma.Calls.Kept.{
  AreConsistent, begin-AreConsistent, end-AreConsistent, update-AreConsistent, insert-AreConsistent,
  fence-AreConsistent, free-AreConsistent, send-AreConsistent,
}
use parcoach.Rma.Calls.Loops.{barrier-AreConsistent, save_all-AreConsistent}

start-AreConsistent :
    (env : Option ℕ) (base size comm size_comm win disp_unit : ℕ) (a : Analyzer)
    → find win a.states ≡ none
    → AreConsistent a.states
    → AreConsistent (start env base size comm size_comm win disp_unit a).states
unfolding start new_state
start-AreConsistent env base size comm size_comm win disp_unit a fresh c =
    let tag = mpi_tag_of (get_tag_range_id a.win_mpi_tag_id).0 in
    insert-AreConsistent win (new_state base size comm size_comm win disp_unit tag) a.states fresh
      refl (new_state-IsConsistent base size comm size_comm win disp_unit tag) c

Call-AreConsistent : {m m' : States} → Call m m' → AreConsistent m → AreConsistent m'
unfolding win_create win_allocate win_lock_all win_lock win_start win_post win_unlock_all win_unlock
    win_complete win_wait put get accumulate store load
Call-AreConsistent (creates env base size comm size_comm win disp_unit a e fresh e') c =
    subst AreConsistent e' (
      start-AreConsistent env base size comm size_comm win disp_unit a
        (subst (λ x. find win x ≡ none) (sym e) fresh) (subst AreConsistent (sym e) c))
Call-AreConsistent (allocates env baseptr allocated size comm size_comm win disp_unit a e fresh e')
      c =
    subst AreConsistent e' (
      start-AreConsistent env baseptr size comm size_comm win disp_unit a
        (subst (λ x. find win x ≡ none) (sym e) fresh) (subst AreConsistent (sym e) c))
Call-AreConsistent (frees e win a a' same h same') c =
    subst AreConsistent same' (free-AreConsistent e win a a' h (subst AreConsistent (sym same) c))
Call-AreConsistent (locks_all win h) c = begin-AreConsistent win _ _ h c
Call-AreConsistent (locks win h) c = begin-AreConsistent win _ _ h c
Call-AreConsistent (starts_epoch win h) c = begin-AreConsistent win _ _ h c
Call-AreConsistent (posts win h) c = begin-AreConsistent win _ _ h c
Call-AreConsistent (unlocks_all e win h) c = end-AreConsistent true e win _ _ h c
Call-AreConsistent (unlocks e win h) c = end-AreConsistent true e win _ _ h c
Call-AreConsistent (completes e win h) c = end-AreConsistent true e win _ _ h c
Call-AreConsistent (waits e win h) c = end-AreConsistent true e win _ _ h c
Call-AreConsistent (passes_fence e win h) c = fence-AreConsistent e win _ _ h c
Call-AreConsistent (passes_barrier e h) c = barrier-AreConsistent e _ _ h c
Call-AreConsistent (puts origin target dbg rank win msg active h) c =
    send-AreConsistent (access_of_memory (memory_of origin) rma_read dbg)
      (access_of_memory (memory_of target) rma_write dbg) rank win _ _ msg active h c
Call-AreConsistent (gets origin target dbg rank win msg active h) c =
    send-AreConsistent (access_of_memory (memory_of origin) rma_write dbg)
      (access_of_memory (memory_of target) rma_read dbg) rank win _ _ msg active h c
Call-AreConsistent (accumulates origin target dbg rank win msg active h) c =
    send-AreConsistent (access_of_memory (memory_of origin) rma_read dbg)
      (access_of_memory (memory_of target) rma_write dbg) rank win _ _ msg active h c
Call-AreConsistent (stores addr bits dbg h) c =
    save_all-AreConsistent
      (access_of_memory (record { addr = addr; size = bits / 8 }) local_write dbg) _ _ h c
Call-AreConsistent (loads addr bits dbg h) c =
    save_all-AreConsistent
      (access_of_memory (record { addr = addr; size = bits / 8 }) local_read dbg) _ _ h c
Call-AreConsistent {m} (thread_receives win s t polls there on h e) c =
    subst AreConsistent (sym e) (
      update-AreConsistent win s t m there
        (ap (λ (x : WinState). x.state_win) (comm_check_thread-polling s t polls h))
        (receives polls on h) c)

-- A program begins without windows. In whatever order it creates and frees windows, under handles that
-- are not in use, opens and closes epochs, passes fences and barriers, loads and stores, makes
-- one-sided calls on windows with an open epoch, as MPI demands, and however the rounds of the threads
-- fall between these calls: as long as all of them return, each window is filed under its handle, a
-- thread runs on it exactly during an epoch, its store is sorted, and it is empty between epochs.
pub Calls-AreConsistent : (m : States) → Calls m → AreConsistent m
unfolding find
Calls-AreConsistent m none_yet = record { keyed = tt; each = λ k s e. cc }
Calls-AreConsistent m (called {m = before} calls call) =
    Call-AreConsistent call (Calls-AreConsistent before calls)
