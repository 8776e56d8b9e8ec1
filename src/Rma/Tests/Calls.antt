-- ===== src/Rma/Tests/Calls.antt =====
-- The calls of an instrumented program at concrete inputs.

use parcoach.Rma.Thread.Counts.{Conflicts}
use parcoach.Base.{◌≢◌, ◌<◌, ℕ, ◌≡◌, refl, ◌⊎◌, none, some, true, false, [], ◌∷◌, arith}
use parcoach.Rma.Interval.{Access, AccessType, DebugInfo, rma_read, rma_write}
use parcoach.Rma.Outcome.{terminated, ok, abort}
use parcoach.Rma.Windows.{WinState, States, Message, find}
use parcoach.Rma.Epochs.{Arrivals, start_thread}
use parcoach.Rma.Epochs.Protocol.{IsConsistent}
use parcoach.Rma.Tags.{get_tag_range_id}
use parcoach.Rma.Thread.{pending}
use parcoach.Rma.Calls.Locks.{win_lock-twice}
use parcoach.Rma.Calls.{
  win_lock, win_post, win_start, Analyzer, Buffer, new_state, start, stop, fence, put, get, store,
}
use parcoach.Rma.Interval.{fix_for_window, access_of_memory}
use parcoach.Rma.Windows.{update, update_on_comm_send}
use parcoach.Rma.Thread.{arrived, polling, comm_check_thread}
use parcoach.Rma.Tags.{mpi_tag_of}
use parcoach.Rma.Tags.Messages.{HasTag, update_on_comm_send-apart}
use parcoach.Rma.Calls.{memory_of, win_create, win_unlock}
use parcoach.Rma.Calls.Program.{
  HasEpoch, none_yet, called, creates, locks, puts, thread_receives, unlocks,
}
use parcoach.Rma.Calls.Kept.{AreConsistent}
use parcoach.Rma.Calls.Whole.{Calls-AreConsistent}
use parcoach.Rma.Calls.Life.{stop-start}
use parcoach.Rma.Calls.Fences.{IsFenced, IsReopened, fence_cases}
use parcoach.Rma.Calls.Detects.{store-put}

abbrev dbg : DebugInfo
dbg = record { line = 7; filename = "main.c" }

-- Window 5, as it is created.
abbrev created : WinState
created = record {
  state_win = 5;
  thread = false;
  intervals = [];
  win_base = 1000;
  disp_unit = 4;
  win_size = 400;
  win_comm = 1;
  size_comm = 2;
  mpi_tag = 65535;
  array = 0 ∷ 0 ∷ [];
  value = 0;
  thread_end = 0;
  count_epoch = 0;
  count_fence = 0;
  count = 0;
  active_epoch = 0;
  from_sync = 0;
}

abbrev started : WinState
started = record created { thread = true; count_epoch = 1; active_epoch = 1 }

first_start : start_thread (new_state 1000 400 1 2 5 4 65535) ≡ ok started
unfolding start_thread new_state
first_start = refl

created-IsConsistent : IsConsistent created
created-IsConsistent = record {
  running = λ e. cc;
  idle = λ _. (refl, refl, refl);
  sorted = tt;
  sized = refl;
}

abbrev idle : Analyzer
idle = record { states = []; win_mpi_tag_id = true ∷ false ∷ []; filter_window = 1 }

not_there : find 5 idle.states ≡ none
unfolding find
not_there = refl

second_left : (get_tag_range_id idle.win_mpi_tag_id).0 ≡ some 1
unfolding get_tag_range_id
second_left = refl

stop-start_example :
    (b : Analyzer) × (stop 5 (start none 1000 400 1 2 5 4 idle) ≡ ok b)
    × (b.win_mpi_tag_id ≡ idle.win_mpi_tag_id)
    × ((k : ℕ) → find k b.states ≡ find k idle.states)
stop-start_example = stop-start none 1000 400 1 2 5 4 1 idle tt not_there second_left

created-IsFenced : IsFenced created
created-IsFenced = record {
  consistent = created-IsConsistent;
  before = λ _. refl;
  behind = λ h. absurd (omega arith);
}

find-created : find 5 ((5, created) ∷ []) ≡ some created
unfolding find
find-created = refl

abbrev no_arrivals : Arrivals
no_arrivals = record { reduced = 0; polls = pending ∷ [] }

fence_cases_example :
    ((fence no_arrivals 5 ((5, created) ∷ []) ≡ abort)
      × (0 < created.count_fence)
      × Conflicts created no_arrivals.reduced no_arrivals.polls)
    ⊎ ((states' : States) × (u : WinState) × (fence no_arrivals 5 ((5, created) ∷ []) ≡ ok states')
        × (find 5 states' ≡ some u)
        × IsReopened created u)
fence_cases_example =
    fence_cases no_arrivals 5 ((5, created) ∷ []) created find-created created-IsFenced
      (omega arith) (omega arith)

find-started : find 5 ((5, started) ∷ []) ≡ some started
unfolding find
find-started = refl

-- Two ints at address 64.
abbrev ints : Buffer
ints = record { at = 64; count = 2; type_size = 4 }

abbrev far : Buffer
far = record { at = 3; count = 2; type_size = 4 }

abbrev with_local : AccessType → States
with_local t =
    (
      5,
      record started {
        intervals = record { itv = record { low = 64; up = 71 }; type = t; dbg = dbg } ∷ [];
        array = 0 ∷ 1 ∷ [];
      },
    )
    ∷ []

abbrev sent : AccessType → Message
sent t = record {
  target_rank = 1;
  tag = 65536;
  content = record { itv = record { low = 3; up = 10 }; type = t; dbg = dbg };
}

puts_rma : put ints far dbg 1 5 ((5, started) ∷ []) ≡ ok (with_local rma_read, sent rma_write)
unfolding put
puts_rma = refl

gets_rma : get ints far dbg 1 5 ((5, started) ∷ []) ≡ ok (with_local rma_write, sent rma_read)
unfolding get
gets_rma = refl

abbrev at_first : Analyzer
at_first = record idle { win_mpi_tag_id = false ∷ [] }

abbrev locked : States
locked = (5, started) ∷ []

abbrev far_itv : Access
far_itv = record { itv = record { low = 20; up = 27 }; type = rma_read; dbg = dbg }

-- The read at 1080 has come from another process.
abbrev received_far : WinState
received_far = record started {
  count = 1;
  intervals =
      (record { itv = record { low = 64; up = 71 }; type = rma_read; dbg = dbg })
      ∷ (record { itv = record { low = 1080; up = 1087 }; type = rma_read; dbg = dbg })
      ∷ [];
  array = 0 ∷ 1 ∷ [];
}

abbrev put_state : WinState
put_state = record started {
  intervals = (record { itv = record { low = 64; up = 71 }; type = rma_read; dbg = dbg }) ∷ [];
  array = 0 ∷ 1 ∷ [];
}

abbrev no_more : Arrivals
no_more = record { reduced = 1; polls = [] }

abbrev unlocked : WinState
unlocked = record received_far {
  thread = false;
  intervals = [];
  value = 1;
  thread_end = 1;
  count = 0;
  active_epoch = 0;
}

creates_window : (win_create none 1000 400 1 2 5 4 at_first).states ≡ (5, created) ∷ []
unfolding win_create
creates_window = refl

locks_window : win_lock 5 ((5, created) ∷ []) ≡ ok locked
unfolding win_lock
locks_window = refl

locked-HasEpoch : HasEpoch 5 locked
unfolding find
locked-HasEpoch s e = ground arith

polls_window : comm_check_thread put_state (arrived far_itv "main.c" ∷ []) ≡ polling received_far
unfolding comm_check_thread fix_for_window
polls_window = refl

find-put : find 5 ((5, put_state) ∷ []) ≡ some put_state
unfolding find
find-put = refl

update-put : (5, received_far) ∷ [] ≡ update 5 received_far ((5, put_state) ∷ [])
unfolding update
update-put = refl

unlocks_window : win_unlock no_more 5 ((5, received_far) ∷ []) ≡ ok ((5, unlocked) ∷ [])
unfolding win_unlock
unlocks_window = refl

Calls-AreConsistent_example : AreConsistent ((5, unlocked) ∷ [])
Calls-AreConsistent_example = Calls-AreConsistent ((5, unlocked) ∷ []) (
    called {m = (5, received_far) ∷ []} {m' = (5, unlocked) ∷ []}
      (called {m = (5, put_state) ∷ []} {m' = (5, received_far) ∷ []}
        (called {m = locked} {m' = (5, put_state) ∷ []}
          (called {m = (5, created) ∷ []} {m' = locked}
            (called {m = []} {m' = (5, created) ∷ []} none_yet
              (creates none 1000 400 1 2 5 4 at_first refl not_there creates_window))
            (locks 5 locks_window))
          (puts ints far dbg 1 5 (sent rma_write) locked-HasEpoch puts_rma))
        (thread_receives 5 put_state received_far (arrived far_itv "main.c" ∷ []) find-put refl
          polls_window update-put))
      (unlocks no_more 5 unlocks_window))

-- Window 6 has the second range, and is in its last epoch.
abbrev last_epoch : WinState
last_epoch = record started { state_win = 6; mpi_tag = 66559; count_epoch = 1024 }

abbrev sent_last : Message
sent_last = record (sent rma_write) { tag = 67583 }

abbrev last_put : States
last_put =
    (
      6,
      record last_epoch {
        intervals =
            (record { itv = record { low = 64; up = 71 }; type = rma_read; dbg = dbg }) ∷ [];
        array = 0 ∷ 1 ∷ [];
      },
    )
    ∷ []

sends_first :
    update_on_comm_send
      (access_of_memory (memory_of ints) rma_read dbg)
      (access_of_memory (memory_of far) rma_write dbg)
      1
      5
      ((5, started) ∷ [])
    ≡ ok (with_local rma_read, sent rma_write)
unfolding update_on_comm_send access_of_memory
sends_first = refl

sends_last :
    update_on_comm_send
      (access_of_memory (memory_of ints) rma_read dbg)
      (access_of_memory (memory_of far) rma_write dbg)
      1
      6
      ((6, last_epoch) ∷ [])
    ≡ ok (last_put, sent_last)
unfolding update_on_comm_send access_of_memory
sends_last = refl

find-last : find 6 ((6, last_epoch) ∷ []) ≡ some last_epoch
unfolding find
find-last = refl

started-HasTag : HasTag 0 started
unfolding mpi_tag_of
started-HasTag = record { tag = refl; begun = omega arith; left = omega arith }

last-HasTag : HasTag 1 last_epoch
unfolding mpi_tag_of
last-HasTag = record { tag = refl; begun = omega arith; left = omega arith }

update_on_comm_send-apart_example : (sent rma_write).tag ≢ sent_last.tag
update_on_comm_send-apart_example =
    update_on_comm_send-apart (access_of_memory (memory_of ints) rma_read dbg)
      (access_of_memory (memory_of far) rma_write dbg)
      (access_of_memory (memory_of ints) rma_read dbg)
      (access_of_memory (memory_of far) rma_write dbg) 1 1 5 6 0 1 ((5, started) ∷ [])
      (with_local rma_read) ((6, last_epoch) ∷ []) last_put (sent rma_write) sent_last started
      last_epoch find-started find-last started-HasTag last-HasTag (omega arith) sends_first
      sends_last

store-put_example : ¬ (store 68 32 dbg (with_local rma_read) ≡ ok [])
store-put_example =
    store-put ints dbg dbg 68 32 68 (record { positive = omega arith; fits = omega arith })
      (omega arith) (omega arith) (omega arith) (omega arith) far 1 5 ((5, started) ∷ [])
      (with_local rma_read) [] (sent rma_write) started (refl, tt, tt) find-started refl refl
      puts_rma

abbrev far_write : Access
far_write = record { itv = record { low = 3; up = 10 }; type = rma_write; dbg = dbg }

-- The memory is at 9000, its address is stored at 1000.
win_lock-twice_example :
    ((win_lock 5 ((5, created) ∷ []) ≡ ok ((5, started) ∷ []))
      → (win_lock 5 ((5, started) ∷ []) ≡ terminated))
    × ((win_post 5 ((5, created) ∷ []) ≡ ok ((5, started) ∷ []))
        → (win_start 5 ((5, started) ∷ []) ≡ terminated))
win_lock-twice_example =
    win_lock-twice 5 ((5, created) ∷ []) ((5, started) ∷ []) created find-created
      created-IsConsistent
