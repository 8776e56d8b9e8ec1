-- ===== src/Rma/Tests/Windows.antt =====
-- Windows, their thread and their epochs at concrete inputs.
use parcoach.Base.{
  ℕ, ◌≤◌, ◌<◌, ◌≡◌, refl, ◌⊎◌, true, false, some, List, [], ◌∷◌, In, arith, ltb, if◌then◌else◌,
}
use parcoach.Rma.Interval.{
  Access, AccessType, DebugInfo, local_write, rma_read, rma_write, fix_for_window,
}
use parcoach.Rma.Interval.Bytes.{IsValid}
use parcoach.Rma.Interval.Races.{Races}
use parcoach.Rma.Store.{emplace}
use parcoach.Rma.Outcome.{ok, abort, terminated}
use parcoach.Rma.Windows.{
  WinState, States, Message, find, save, save_interval_all_wins, update_on_comm_send,
}
use parcoach.Rma.Windows.Lookup.{IsKeyed}
use parcoach.Rma.Windows.Saves.{HasOrderedStore, save-Races, save_interval_all_wins-stores}
use parcoach.Rma.Windows.Sends.{IsSent, update_on_comm_send-IsSent}
use parcoach.Rma.Thread.{Poll, pending, arrived, comm_check_thread, returned, aborted}
use parcoach.Rma.Thread.Counts.{
  Conflicts, Returns, comm_check_thread-Returns, comm_check_thread-ends,
}
use parcoach.Rma.Epochs.{Arrivals, stop_thread, init_comm_check_thread, barrier}
use parcoach.Rma.Epochs.Protocol.{IsConsistent, stop_thread_cases}
use parcoach.Rma.Epochs.Resumes.{AtBarrier, barrier_cases, barrier-reopens}

abbrev dbg : DebugInfo
dbg = record { line = 7; filename = "main.c" }

abbrev access : ℕ → ℕ → AccessType → Access
access a b t = record { itv = record { low = a; up = b }; type = t; dbg = dbg }

-- Window 5 of two processes, in its first epoch.
abbrev open_window : WinState
open_window = record {
  state_win = 5;
  thread = true;
  intervals = [];
  win_base = 1000;
  disp_unit = 4;
  win_size = 400;
  win_comm = 1;
  size_comm = 2;
  mpi_tag = 65535;
  array = 0 ∷ 0 ∷ [];
  value = 0;
  thread_end = 0;
  count_epoch = 1;
  count_fence = 0;
  count = 0;
  active_epoch = 1;
  from_sync = 0;
}

abbrev open_windows : States
open_windows = (5, open_window) ∷ []

open_windows-IsKeyed : IsKeyed open_windows
open_windows-IsKeyed = (refl, tt, tt)

find_open : find 5 open_windows ≡ some open_window
unfolding find
find_open = refl

open_window-IsConsistent : IsConsistent open_window
open_window-IsConsistent = record {
  running = λ _. (refl, refl);
  idle = λ e. cc;
  sorted = tt;
  sized = refl;
}

-- After the epoch has ended, and had been cleared by a barrier.
abbrev closed_window : WinState
closed_window = record open_window { thread = false; active_epoch = 0; from_sync = 1 }

abbrev closed_windows : States
closed_windows = (5, closed_window) ∷ []

find_closed : find 5 closed_windows ≡ some closed_window
unfolding find
find_closed = refl

closed_window-IsConsistent : IsConsistent closed_window
closed_window-IsConsistent = record {
  running = λ e. cc;
  idle = λ _. (refl, refl, refl);
  sorted = tt;
  sized = refl;
}

valid : (a b : ℕ) → a ≤ b → b < 10000 → IsValid (record { low = a; up = b })
valid a b h k = record { ordered = h; word = omega (arith, k) }

abbrev busy_window : WinState
busy_window = record open_window { intervals = access 0 8 rma_read ∷ [] }

busy_window-HasOrderedStore : HasOrderedStore busy_window
busy_window-HasOrderedStore = record {
  sorted = (tt, tt);
  valid = (valid 0 8 (omega arith) (omega arith), tt);
  monotone = (tt, tt);
}

save-Races_example :
    (((x : Access) → In x busy_window.intervals → ¬ Races x (access 4 4 local_write))
      → save (access 4 4 local_write) busy_window
        ≡ ok (record busy_window {
          intervals = emplace (access 4 4 local_write) busy_window.intervals;
        }))
    × ((x : Access)
        → In x busy_window.intervals
        → Races x (access 4 4 local_write)
        → save (access 4 4 local_write) busy_window ≡ abort)
save-Races_example =
    save-Races (access 4 4 local_write) busy_window busy_window-HasOrderedStore
      (valid 4 4 (omega arith) (omega arith))

abbrev stored_windows : States
stored_windows = (5, record open_window { intervals = access 4 4 local_write ∷ [] }) ∷ []

stores : save_interval_all_wins (access 4 4 local_write) open_windows ≡ ok stored_windows
unfolding save_interval_all_wins
stores = refl

save_interval_all_wins-stores_example :
    find 5 stored_windows
    ≡ some (
        if ltb 0 open_window.active_epoch
        then record open_window {
          intervals = emplace (access 4 4 local_write) open_window.intervals;
        }
        else open_window)
save_interval_all_wins-stores_example =
    save_interval_all_wins-stores (access 4 4 local_write) open_windows stored_windows
      open_windows-IsKeyed stores 5 open_window find_open

abbrev sent_windows : States
sent_windows =
    (5, record open_window { intervals = access 0 8 rma_read ∷ []; array = 0 ∷ 1 ∷ [] }) ∷ []

abbrev sent_message : Message
sent_message = record { target_rank = 1; tag = 65536; content = access 2 3 rma_write }

sends :
    update_on_comm_send (access 0 8 rma_read) (access 2 3 rma_write) 1 5 open_windows
    ≡ ok (sent_windows, sent_message)
unfolding update_on_comm_send
sends = refl

update_on_comm_send-IsSent_example :
    IsSent
      (access 0 8 rma_read)
      (access 2 3 rma_write)
      1
      5
      open_window
      open_windows
      sent_windows
      sent_message
update_on_comm_send-IsSent_example =
    update_on_comm_send-IsSent (access 0 8 rma_read) (access 2 3 rma_write) 1 5 open_windows
      sent_windows sent_message open_window find_open sends

-- One remote write is expected; it comes after an empty round.
abbrev ending_window : WinState
ending_window = record open_window { thread_end = 1; value = 1 }

abbrev inputs : List Poll
inputs = pending ∷ arrived (access 2 3 rma_write) "far.c" ∷ pending ∷ []

abbrev ended_window : WinState
ended_window = record ending_window {
  intervals =
      record {
        itv = record { low = 1008; up = 1009 };
        type = rma_write;
        dbg = record { line = 7; filename = "far.c" };
      }
      ∷ [];
}

thread_returns : comm_check_thread ending_window inputs ≡ returned ended_window (pending ∷ [])
unfolding comm_check_thread fix_for_window
thread_returns = refl

comm_check_thread-Returns_example : Returns ending_window ended_window inputs (pending ∷ [])
comm_check_thread-Returns_example =
    comm_check_thread-Returns ending_window ended_window inputs (pending ∷ []) thread_returns

comm_check_thread-ends_example :
    ((comm_check_thread ending_window inputs ≡ aborted)
      × Conflicts ending_window ending_window.value inputs)
    ⊎ ((t : WinState) × (rest : List Poll) × (comm_check_thread ending_window inputs
          ≡ returned t rest))
comm_check_thread-ends_example =
    comm_check_thread-ends ending_window inputs refl (omega arith) (omega arith)

abbrev one_arrival : Arrivals
one_arrival = record { reduced = 1; polls = inputs }

abbrev stopped_window : WinState
stopped_window = record ending_window { thread = false; active_epoch = 0 }

thread_stops : stop_thread true one_arrival open_window ≡ ok stopped_window
unfolding stop_thread
thread_stops = refl

stop_thread_cases_example :
    ((open_window.thread ≡ false) × (stop_thread true one_arrival open_window ≡ terminated))
    ⊎ ((open_window.thread ≡ true)
        × (((stop_thread true one_arrival open_window ≡ abort) × Conflicts open_window 1 inputs)
            ⊎ ((t : WinState) × (stop_thread true one_arrival open_window ≡ ok t))))
stop_thread_cases_example =
    stop_thread_cases true one_arrival open_window (omega arith) (omega arith)

abbrev resumed_windows : States
resumed_windows =
    (
      5,
      record stopped_window {
        thread = true;
        thread_end = 0;
        count_epoch = 2;
        active_epoch = 1;
        from_sync = 1;
      },
    )
    ∷ []

barrier_resumes : barrier (λ _. one_arrival) open_windows ≡ ok resumed_windows
unfolding barrier
barrier_resumes = refl

barrier_cases_example : (u : WinState) × (find 5 resumed_windows ≡ some u) × AtBarrier open_window u
barrier_cases_example =
    barrier_cases (λ _. one_arrival) open_windows resumed_windows 5 open_window open_windows-IsKeyed
      barrier_resumes find_open open_window-IsConsistent

abbrev reopened_windows : States
reopened_windows =
    (5, record closed_window { thread = true; count_epoch = 2; active_epoch = 1 }) ∷ []

barrier_reopens : barrier (λ _. one_arrival) closed_windows ≡ ok reopened_windows
unfolding barrier
barrier_reopens = refl

barrier-reopens_example : init_comm_check_thread 5 reopened_windows ≡ terminated
barrier-reopens_example =
    barrier-reopens (λ _. one_arrival) closed_windows reopened_windows 5 closed_window
      (refl, tt, tt) barrier_reopens find_closed closed_window-IsConsistent refl refl
