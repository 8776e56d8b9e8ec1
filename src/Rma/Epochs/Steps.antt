-- ===== src/Rma/Epochs/Steps.antt =====
-- The steps that the program and the thread make on one window, in any order in which they may
-- interleave: saves are atomic under the window's mutex, and the thread's rounds fall anywhere.
use parcoach.Base.{
  ℕ, Bool-cases, ◌<◌, ◌+◌, ◌≡◌, sym, ◌∙◌, inl, inr, Bool, true, List, [], ◌∷◌, length-set, arith,
  subst, set,
}
use parcoach.Rma.Interval.{Access}
use parcoach.Rma.Store.{Accesses, emplace}
use parcoach.Rma.Store.Order.{IsSorted, emplace-IsSorted}
use parcoach.Rma.Outcome.{ok}
use parcoach.Rma.Windows.{WinState, save}
use parcoach.Rma.Windows.Saves.{save_cases}
use parcoach.Rma.Thread.{Poll, pending, arrived, received, comm_check_thread, polling}
use parcoach.Rma.Thread.Counts.{gathered, arrivals, comm_check_thread-polling}
use parcoach.Rma.Epochs.{Arrivals, start_thread, stop_thread}
use parcoach.Rma.Epochs.Protocol.{
  IsClosed-IsConsistent, IsConsistent, start_thread_cases, stop_thread-ok,
}

pub data Step (s t : WinState) : Type 0 where
  starts : start_thread s ≡ ok t → Step s t
  stops : (do_reduce : Bool) (e : Arrivals) → stop_thread do_reduce e s ≡ ok t → Step s t
  -- A load, a store or the local side of a one-sided call, during an epoch. Loads and stores test
  -- that; one-sided calls do not, but MPI demands it of them.
  saves : (acc : Access) → 0 < s.active_epoch → save acc s ≡ ok t → Step s t
  -- Some rounds of the thread.
  receives :
      (polls : List Poll) → s.thread ≡ true → comm_check_thread s polls ≡ polling t → Step s t
  -- update_on_comm_send has sent an access to a rank.
  sends : (rank n : ℕ) → t ≡ record s { array = set s.array rank n } → Step s t
  fences : t ≡ record s { count_fence = s.count_fence + 1 } → Step s t
  syncs : t ≡ record s { from_sync = 1 } → Step s t

gathered-IsSorted :
    (s : WinState) (xs : Accesses) (polls : List Poll)
    → IsSorted xs
    → IsSorted (gathered s xs polls)
gathered-IsSorted s xs [] h = h
gathered-IsSorted s xs (pending ∷ polls) h = gathered-IsSorted s xs polls h
gathered-IsSorted s xs (arrived acc name ∷ polls) h =
    gathered-IsSorted s (emplace (received s acc name) xs) polls
      (emplace-IsSorted (received s acc name) xs h)

pub stored-IsConsistent :
    (s : WinState) (n : ℕ) (xs : Accesses)
    → IsConsistent s
    → s.thread ≡ true
    → IsSorted xs
    → IsConsistent (record s { count = n; intervals = xs })
stored-IsConsistent s n xs c on h = record {
  running = c.running;
  idle = λ off. absurd (ground arith);
  sorted = h;
  sized = c.sized;
}

pub active_thread : (s : WinState) → IsConsistent s → 0 < s.active_epoch → s.thread ≡ true
active_thread s c active = elim (Bool-cases s.thread) [
  | inl on ↦ on
  | inr off ↦ let none_open = (c.idle off).0 in absurd (omega arith)
]

-- Every step keeps the thread and the epoch together, the store sorted, and empty between epochs.
pub Step-IsConsistent : {s t : WinState} → Step s t → IsConsistent s → IsConsistent t
Step-IsConsistent {s} {t} (starts h) c = elim (start_thread_cases s c) [
  | inl (_, stopped) ↦ absurd (ground arith)
  | inr (_, (v, started, r)) ↦ let e : v ≡ t = ground arith in subst IsConsistent e r.consistent
]
Step-IsConsistent {s} {t} (stops do_reduce e h) c =
    IsClosed-IsConsistent c (stop_thread-ok do_reduce e s t h).2
Step-IsConsistent {s} {t} (saves acc active h) c = elim (save_cases acc s) [
  | inl (_, saved) ↦
      let e : record s { intervals = emplace acc s.intervals } ≡ t = ground arith in
      subst IsConsistent e (
        stored-IsConsistent s s.count (emplace acc s.intervals) c (active_thread s c active)
          (emplace-IsSorted acc s.intervals c.sorted))
  | inr (_, stopped) ↦ absurd (ground arith)
]
Step-IsConsistent {s} {t} (receives polls on h) c =
    subst IsConsistent (sym (comm_check_thread-polling s t polls h)) (
      stored-IsConsistent s (s.count + arrivals polls) (gathered s s.intervals polls) c on
        (gathered-IsSorted s s.intervals polls c.sorted))
Step-IsConsistent {s} (sends rank n e) c = subst IsConsistent (sym e) (record {
  running = c.running;
  idle = c.idle;
  sorted = c.sorted;
  sized = length-set s.array rank n ∙ c.sized;
})
Step-IsConsistent {s} (fences e) c = subst IsConsistent (sym e) (kept s c)
  where
    kept :
        (s : WinState)
        → IsConsistent s
        → IsConsistent (record s { count_fence = s.count_fence + 1 })
    kept s c = record { running = c.running; idle = c.idle; sorted = c.sorted; sized = c.sized }
Step-IsConsistent {s} (syncs e) c = subst IsConsistent (sym e) (kept s c)
  where
    kept : (s : WinState) → IsConsistent s → IsConsistent (record s { from_sync = 1 })
    kept s c = record { running = c.running; idle = c.idle; sorted = c.sorted; sized = c.sized }
