-- ===== src/Rma/Epochs/Protocol.antt =====
-- The life of a window: starts and ends of epochs, saves, sends and the thread's receives, in any
-- order in which they may interleave.
use parcoach.Base.{
  subst, sym, ◌++◌, ℕ, zero, suc, ◌+◌, ◌≤◌, ◌≡◌, refl, ◌∙◌, ◌⊎◌, inl, inr, Bool, true, false, not,
  List, [], ◌∷◌, length, arith, if◌then◌else◌, Bool-cases, ap,
}
use parcoach.Rma.Store.Order.{IsSorted}
use parcoach.Rma.Outcome.{ok, terminated, abort}
use parcoach.Rma.Windows.{WinState}
use parcoach.Rma.Store.{Accesses, emplace, get_conflicting_intervals}
use parcoach.Rma.Thread.{
  Poll, pending, arrived, received, comm_check_thread, returned, polling, aborted,
}
use parcoach.Rma.Thread.Counts.{
  Conflicts, arrivals, gathered, comm_check_thread-Returns, comm_check_thread-ends,
}
use parcoach.Rma.Epochs.{ThreadResult, clear_array, start_thread, stop_thread, join, Arrivals}

-- A thread runs exactly during an epoch, and between two epochs the store is empty.
pub record IsConsistent (s : WinState) : Type 0 where
  pub running : s.thread ≡ true → (s.active_epoch ≡ 1) × (s.thread_end ≡ 0)
  pub idle : s.thread ≡ false → (s.active_epoch ≡ 0) × (s.count ≡ 0) × (s.intervals ≡ [])
  pub sorted : IsSorted s.intervals
  pub sized : length s.array ≡ s.size_comm

clear_array-ok :
    (n : ℕ) (xs : List ℕ)
    → length xs ≡ n
    → (ys : List ℕ) × (clear_array n xs ≡ ok ys) × (length ys ≡ n)
unfolding clear_array
clear_array-ok zero xs e = (xs, refl, e)
clear_array-ok (suc n) [] e = absurd (omega arith)
clear_array-ok (suc n) (x ∷ xs) e =
    let (ys, done, len) = clear_array-ok n xs (omega arith) in (0 ∷ ys, rw done, omega (arith, len))

abbrev started : WinState → List ℕ → WinState
started s zeros = record s {
  array = zeros;
  thread_end = 0;
  count_epoch = s.count_epoch + 1;
  active_epoch = 1;
  thread = true;
}

-- The state that a start leaves.
pub record IsStarted (s t : WinState) : Type 0 where
  pub consistent : IsConsistent t
  pub running : t.thread ≡ true
  pub next_epoch : t.count_epoch ≡ s.count_epoch + 1
  pub emptied : t.intervals ≡ []
  pub from_sync : t.from_sync ≡ s.from_sync
  pub count_fence : t.count_fence ≡ s.count_fence

-- From the state between two epochs a start succeeds: it opens the next epoch, with an empty store
-- and a running thread. During an epoch it terminates the program.
pub start_thread_cases :
    (s : WinState)
    → IsConsistent s
    → ((s.thread ≡ true) × (start_thread s ≡ terminated))
      ⊎ ((s.thread ≡ false) × ((t : WinState) × (start_thread s ≡ ok t) × IsStarted s t))
unfolding start_thread
start_thread_cases s c =
    let (zeros, cleared, len) = clear_array-ok s.size_comm s.array c.sized in
    elim (Bool-cases s.thread) [
      | inl on ↦ inl (on, rw cleared (rw on))
      | inr off ↦ inr (
        off,
        (
          started s zeros,
          rw cleared (rw off),
          record {
            consistent = record {
              running = λ _. (refl, refl);
              idle = λ e. cc;
              sorted = c.sorted;
              sized = len;
            };
            running = refl;
            next_epoch = refl;
            emptied = (c.idle off).2;
            from_sync = refl;
            count_fence = refl;
          },
        ),
      )
    ]

-- The state that the end of an epoch leaves.
pub record IsClosed (s t : WinState) : Type 0 where
  pub state_win : t.state_win ≡ s.state_win
  pub stopped : t.thread ≡ false
  pub inactive : t.active_epoch ≡ 0
  pub cleared : t.intervals ≡ []
  pub reset : t.count ≡ 0
  pub array : t.array ≡ s.array
  pub size_comm : t.size_comm ≡ s.size_comm
  pub count_epoch : t.count_epoch ≡ s.count_epoch
  pub from_sync : t.from_sync ≡ s.from_sync
  pub count_fence : t.count_fence ≡ s.count_fence

pub IsClosed-IsConsistent : {s t : WinState} → IsConsistent s → IsClosed s t → IsConsistent t
IsClosed-IsConsistent c closed = record {
  running = λ on. cc (closed.stopped, on);
  idle = λ _. (closed.inactive, closed.reset, closed.cleared);
  sorted = subst IsSorted (sym closed.cleared) tt;
  sized = ap length closed.array ∙ c.sized ∙ sym closed.size_comm;
}

-- The value that the thread is told to expect.
abbrev pub expected : Bool → Arrivals → ℕ
expected do_reduce e = if do_reduce then e.reduced else 0

abbrev ending : Bool → Arrivals → WinState → WinState
ending do_reduce e s = record s { value = expected do_reduce e; thread_end = 1 }

gathered-ending :
    (do_reduce : Bool) (e : Arrivals) (s : WinState) (xs : Accesses) (polls : List Poll)
    → gathered (ending do_reduce e s) xs polls ≡ gathered s xs polls
unfolding received
gathered-ending do_reduce e s xs [] = refl
gathered-ending do_reduce e s xs (pending ∷ polls) = gathered-ending do_reduce e s xs polls
gathered-ending do_reduce e s xs (arrived acc name ∷ polls) =
    gathered-ending do_reduce e s (emplace (received s acc name) xs) polls

ending_conflict :
    (do_reduce : Bool) (e : Arrivals) (s : WinState)
    → Conflicts (ending do_reduce e s) (expected do_reduce e) e.polls
    → Conflicts s (expected do_reduce e) e.polls
unfolding received
ending_conflict do_reduce e s c = record {
  used = c.used;
  rest = c.rest;
  acc = c.acc;
  name = c.name;
  split = c.split;
  early = c.early;
  conflict = λ none_there. c.conflict (
      ap (λ xs. get_conflicting_intervals xs (received s c.acc c.name))
        (gathered-ending do_reduce e s s.intervals c.used)
      ∙ none_there);
}

stop_thread-on :
    (do_reduce : Bool) (e : Arrivals) (s : WinState)
    → s.thread ≡ true
    → stop_thread do_reduce e s ≡ join (comm_check_thread (ending do_reduce e s) e.polls)
unfolding stop_thread
stop_thread-on do_reduce e s on =
    ap (λ b. if not b then terminated else join (comm_check_thread (ending do_reduce e s) e.polls))
      on

-- When the end of an epoch returns, a thread was running and has received exactly the number of
-- accesses that the reduction announces, and the epoch is closed.
pub stop_thread-ok :
    (do_reduce : Bool) (e : Arrivals) (s t : WinState)
    → stop_thread do_reduce e s ≡ ok t
    → (s.thread ≡ true)
      × ((used rest : List Poll) × (e.polls ≡ used ++ rest)
          × (s.count + arrivals used ≡ expected do_reduce e))
      × IsClosed s t
unfolding stop_thread join
stop_thread-ok do_reduce e s t h = elim (Bool-cases s.thread) [
  | inr off ↦ absurd (cc (rw off at h))
  | inl on ↦
      joined on (comm_check_thread (ending do_reduce e s) e.polls) refl
        (sym (stop_thread-on do_reduce e s on) ∙ h)
]
  where
    joined :
        s.thread ≡ true
        → (r : ThreadResult) → comm_check_thread (ending do_reduce e s) e.polls ≡ r
        → join r ≡ ok t
        → (s.thread ≡ true)
          × ((used rest : List Poll) × (e.polls ≡ used ++ rest)
              × (s.count + arrivals used ≡ expected do_reduce e))
          × IsClosed s t
    joined on (returned u rest) ran done =
        let r = comm_check_thread-Returns (ending do_reduce e s) u e.polls rest ran in
        (on, (r.used, rest, r.split, r.counted), closed u r.used r.left done)
      where
        closed :
            (u : WinState) (used : List Poll)
            → u ≡ record (ending do_reduce e s) {
              count = 0;
              intervals = gathered (ending do_reduce e s) s.intervals used;
            }
            → ok (record u { thread = false; count = 0; active_epoch = 0; intervals = [] }) ≡ ok t
            → IsClosed s t
        closed u used left same = ground arith
    joined on (polling u) ran done = cc
    joined on aborted ran done = cc

-- The end of an epoch with a running thread, for which the announced accesses are among those that come,
-- returns, or it aborts the program and one of the announced accesses conflicts with what is in the store
-- when it comes. Without a thread it terminates the program.
pub stop_thread_cases :
    (do_reduce : Bool) (e : Arrivals) (s : WinState)
    → s.count ≤ expected do_reduce e
    → expected do_reduce e ≤ s.count + arrivals e.polls
    → ((s.thread ≡ false) × (stop_thread do_reduce e s ≡ terminated))
      ⊎ ((s.thread ≡ true)
          × (((stop_thread do_reduce e s ≡ abort) × Conflicts s (expected do_reduce e) e.polls)
              ⊎ ((t : WinState) × (stop_thread do_reduce e s ≡ ok t))))
unfolding stop_thread join
stop_thread_cases do_reduce e s lo hi = elim (Bool-cases s.thread) [
  | inr off ↦ inl (off, rw off)
  | inl on ↦ inr (on, ran on)
]
  where
    ran :
        s.thread ≡ true
        → ((stop_thread do_reduce e s ≡ abort) × Conflicts s (expected do_reduce e) e.polls)
          ⊎ ((t : WinState) × (stop_thread do_reduce e s ≡ ok t))
    ran on = elim (comm_check_thread-ends (ending do_reduce e s) e.polls refl lo hi) [
      | inl (stopped, c) ↦
          inl (stop_thread-on do_reduce e s on ∙ ap join stopped, ending_conflict do_reduce e s c)
      | inr (t, rest, done) ↦ inr (
        record t { thread = false; count = 0; active_epoch = 0; intervals = [] },
        stop_thread-on do_reduce e s on ∙ ap join done,
      )
    ]
