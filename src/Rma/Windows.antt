-- ===== src/Rma/Windows.antt =====
-- src/instrumentation/rma/rma_analyzer.h and rma_analyzer.cpp: the state of a window, the map of
-- the windows, and the operations that read or write the store of one window. A handle of type
-- MPI_Win or MPI_Comm is a number. The counters are int: they are never negative, and stay below
-- 2 ^ 31 as long as the program makes fewer calls than that.
pub mod Lookup
pub mod Loops
pub mod Saves
pub mod Sends
use parcoach.Base.{
  ℕ, ◌+◌, ◌<◌, Bool, true, false, Option, none, some, List, [], ◌∷◌, ◌==◌, ltb, if◌then◌else◌,
  length, get_elem?, set, map,
}
use parcoach.Rma.Interval.{Access}
use parcoach.Rma.Store.{Accesses, emplace, get_conflicting_intervals}
use parcoach.Rma.Outcome.{Outcome, ok, exit_failure, abort, out_of_bounds, ◌>>=◌}

-- rma_analyzer_state. `thread` says whether Thread is joinable.
pub record WinState : Type 0 where
  pub state_win : ℕ
  pub thread : Bool
  pub intervals : Accesses
  pub win_base : ℕ
  pub disp_unit : ℕ
  pub win_size : ℕ
  pub win_comm : ℕ
  pub size_comm : ℕ
  pub mpi_tag : ℕ
  pub array : List ℕ
  pub value : ℕ
  pub thread_end : ℕ
  pub count_epoch : ℕ
  pub count_fence : ℕ
  pub count : ℕ
  pub active_epoch : ℕ
  pub from_sync : ℕ

-- std::map<MPI_Win, unique_ptr<rma_analyzer_state>>, in the order of the keys.
abbrev pub States : Type 0
States = List (ℕ × WinState)

unfoldable pub find : ℕ → States → Option WinState
find win [] = none
find win ((w, s) ∷ m) = if w == win then some s else find win m

-- What writing through the pointer of an entry does to the map.
unfoldable pub update : ℕ → WinState → States → States
update win t [] = []
update win t ((w, s) ∷ m) = if w == win then (w, t) ∷ m else (w, s) ∷ update win t m

-- States.emplace: an entry that is there stays.
unfoldable pub insert : ℕ → WinState → States → States
insert win t [] = (win, t) ∷ []
insert win t ((w, s) ∷ m) =
    if w == win
    then (w, s) ∷ m
    else if ltb win w
    then (win, t) ∷ (w, s) ∷ m
    else (w, s) ∷ insert win t m

unfoldable pub erase : ℕ → States → States
erase win [] = []
erase win ((w, s) ∷ m) = if w == win then m else (w, s) ∷ erase win m

unfoldable pub get_state : ℕ → States → Outcome WinState
unfolding find
get_state win states = elim (find win states) [ none ↦ exit_failure | some s ↦ ok s ]

unfoldable pub is_active_epoch : ℕ → States → Outcome Bool
unfolding get_state
is_active_epoch win states = do s ← get_state win states; ok (ltb 0 s.active_epoch)

-- The part of rma_analyzer_save_interval behind the lookup.
unfoldable pub save : Access → WinState → Outcome WinState
unfolding get_conflicting_intervals emplace
save acc s = elim (get_conflicting_intervals s.intervals acc) [
  | [] ↦ ok (record s { intervals = emplace acc s.intervals })
  | _ ∷ _ ↦ abort
]

unfoldable pub save_interval : Access → ℕ → States → Outcome States
unfolding get_state save update
save_interval acc win states = do s ← get_state win states; t ← save acc s; ok (update win t states)

abbrev pub handles : States → List ℕ
handles = map λ (w, s). s.state_win

-- A loop over the map. The bodies look their window up again, by the handle in its state, and
-- neither add nor remove windows.
unfoldable pub for_each : (ℕ → States → Outcome States) → List ℕ → States → Outcome States
for_each body [] states = ok states
for_each body (win ∷ wins) states = do states' ← body win states; for_each body wins states'

unfoldable pub save_if_active : Access → ℕ → States → Outcome States
unfolding is_active_epoch save_interval
save_if_active acc win states = do
  active ← is_active_epoch win states
  if active then save_interval acc win states else ok states

unfoldable pub save_interval_all_wins : Access → States → Outcome States
unfolding for_each save_if_active
save_interval_all_wins acc states = for_each (save_if_active acc) (handles states) states

-- A message to the analyzer of another process: the access, then its file name.
pub record Message : Type 0 where
  pub target_rank : ℕ
  pub tag : ℕ
  pub content : Access

-- state->array[target_rank]++
unfoldable pub count_send : ℕ → WinState → Outcome WinState
count_send rank t = elim (get_elem? t.array rank) [
  | none ↦ out_of_bounds
  | some n ↦ ok (record t { array = set t.array rank (n + 1) })
]

unfoldable pub update_on_comm_send : Access → Access → ℕ → ℕ → States → Outcome (States × Message)
unfolding get_state save_interval update count_send
update_on_comm_send local_access target_access target_rank win states = do
  s ← get_state win states
  saved ← save_interval local_access win states
  t ← get_state win saved
  sent ← count_send target_rank t
  ok (
    update win sent saved,
    record { target_rank = target_rank; tag = s.mpi_tag + s.count_epoch; content = target_access },
  )
