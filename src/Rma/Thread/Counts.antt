-- ===== src/Rma/Thread/Counts.antt =====
-- When the communication checking thread returns, and with what.
use Prim.Native.String.{String}
use parcoach.Base.{
  ℕ, suc, ◌+◌, ◌≤◌, ◌<◌, ◌≡◌, ◌≢◌, refl, ap, ◌∙◌, ◌⊎◌, inl, inr, true, List, [], ◌∷◌, ◌++◌, arith,
  Bool-cases,
}
use parcoach.Rma.Interval.{Access}
use parcoach.Rma.Store.{Accesses, emplace, get_conflicting_intervals}
use parcoach.Rma.Windows.{WinState}
use parcoach.Rma.Windows.Saves.{save_cases}
use parcoach.Rma.Thread.{
  polling, Poll, pending, arrived, is_finished, received, returned, aborted, comm_check_thread,
}

-- The accesses among the inputs.
abbrev pub arrivals : List Poll → ℕ
arrivals [] = 0
arrivals (pending ∷ polls) = arrivals polls
arrivals (arrived acc name ∷ polls) = suc (arrivals polls)

-- The store with all the accesses of the inputs added.
abbrev pub gathered : WinState → Accesses → List Poll → Accesses
gathered s xs [] = xs
gathered s xs (pending ∷ polls) = gathered s xs polls
gathered s xs (arrived acc name ∷ polls) = gathered s (emplace (received s acc name) xs) polls

-- The inputs that the thread has used, where it returns `t` with `rest` left.
pub record Returns (s t : WinState) (polls rest : List Poll) : Type 0 where
  pub used : List Poll
  pub split : polls ≡ used ++ rest
  pub end_set : s.thread_end ≡ 1
  pub counted : s.count + arrivals used ≡ s.value
  pub left : t ≡ record s { count = 0; intervals = gathered s s.intervals used }

gathered_count :
    (s : WinState) (n : ℕ) (xs ys : Accesses) (polls : List Poll)
    → gathered (record s { count = n; intervals = xs }) ys polls ≡ gathered s ys polls
unfolding received
gathered_count s n xs ys [] = refl
gathered_count s n xs ys (pending ∷ polls) = gathered_count s n xs ys polls
gathered_count s n xs ys (arrived acc name ∷ polls) =
    gathered_count s n xs (emplace (received s acc name) ys) polls

-- The state behind an access that has been received and saved.
abbrev after : WinState → Access → String → WinState
after s acc name = record s {
  count = suc s.count;
  intervals = emplace (received s acc name) s.intervals;
}

-- A round in which the test holds.
stop :
    (s t : WinState) (polls rest : List Poll)
    → is_finished s ≡ true
    → returned (record s { count = 0 }) polls ≡ returned t rest
    → Returns s t polls rest
unfolding is_finished
stop s t polls rest done e = record {
  used = [];
  split = ground arith;
  end_set = ground arith;
  counted = ground arith;
  left = ground arith;
}

one_counted :
    (s : WinState) (acc : Access) (name : String) (polls : List Poll)
    → record (after s acc name) {
      count = suc s.count + arrivals polls;
      intervals = gathered (after s acc name) (emplace (received s acc name) s.intervals) polls;
    }
      ≡ record s {
        count = s.count + suc (arrivals polls);
        intervals = gathered s (emplace (received s acc name) s.intervals) polls;
      }
one_counted s acc name polls =
    let kept =
      gathered_count s (suc s.count) (emplace (received s acc name) s.intervals)
        (emplace (received s acc name) s.intervals) polls in
    ground arith

one_more :
    (s t : WinState) (acc : Access) (name : String) (polls rest : List Poll)
    → Returns (after s acc name) t polls rest
    → Returns s t (arrived acc name ∷ polls) rest
one_more s t acc name polls rest r = record {
  used = arrived acc name ∷ r.used;
  split = ap (◌∷◌ (arrived acc name)) r.split;
  end_set = r.end_set;
  counted = omega (arith, r.counted);
  left =
      r.left
      ∙ ap (λ (xs : Accesses). record s { count = 0; intervals = xs })
          (gathered_count s (suc s.count) (emplace (received s acc name) s.intervals) _ r.used);
}

-- The thread returns only when it has been told to end and exactly the expected number of accesses
-- has come. Then all of them are in the store, and the count is reset.
pub comm_check_thread-Returns :
    (s t : WinState) (polls rest : List Poll)
    → comm_check_thread s polls ≡ returned t rest
    → Returns s t polls rest
unfolding comm_check_thread
comm_check_thread-Returns s t [] rest h = elim (Bool-cases (is_finished s)) [
  | inl done ↦ stop s t [] rest done (rw done at h)
  | inr more ↦ cc (rw more at h)
]
comm_check_thread-Returns s t (pending ∷ polls) rest h = elim (Bool-cases (is_finished s)) [
  | inl done ↦ stop s t (pending ∷ polls) rest done (rw done at h)
  | inr more ↦
      let ih = comm_check_thread-Returns s t polls rest (rw more at h) in
      record {
        used = pending ∷ ih.used;
        split = ap (◌∷◌ pending) ih.split;
        end_set = ih.end_set;
        counted = ih.counted;
        left = ih.left;
      }
]
comm_check_thread-Returns s t (arrived acc name ∷ polls) rest h =
    elim (Bool-cases (is_finished s)) [
      | inl done ↦ stop s t (arrived acc name ∷ polls) rest done (rw done at h)
      | inr more ↦ elim (save_cases (received s acc name) (record s { count = suc s.count })) [
        | inl (_, saved) ↦ one_more s t acc name polls rest (
            comm_check_thread-Returns (after s acc name) t polls rest
              (rw (more, saved, comm_check_thread) at h))
        | inr (_, stopped) ↦ cc (rw (more, stopped, comm_check_thread) at h)
      ]
    ]

-- Some access among the inputs, of those up to the count of `limit`, conflicts with the store as it is
-- when the access comes.
pub record Conflicts (s : WinState) (limit : ℕ) (polls : List Poll) : Type 0 where
  pub used : List Poll
  pub rest : List Poll
  pub acc : Access
  pub name : String
  pub split : polls ≡ used ++ arrived acc name ∷ rest
  pub early : s.count + arrivals used < limit
  pub conflict : get_conflicting_intervals (gathered s s.intervals used) (received s acc name) ≢ []

later_conflict :
    (s : WinState) (limit : ℕ) (acc : Access) (name : String) (polls : List Poll)
    → Conflicts (after s acc name) limit polls
    → Conflicts s limit (arrived acc name ∷ polls)
unfolding received
later_conflict s limit acc name polls c = record {
  used = arrived acc name ∷ c.used;
  rest = c.rest;
  acc = c.acc;
  name = c.name;
  split = ap (◌∷◌ (arrived acc name)) c.split;
  early = (let lt = c.early in omega arith);
  conflict = λ e. c.conflict (
      ap (λ xs. get_conflicting_intervals xs (received s c.acc c.name))
        (gathered_count s (suc s.count) (emplace (received s acc name) s.intervals)
          (emplace (received s acc name) s.intervals) c.used)
      ∙ e);
}

-- An end that has been announced comes: once as many accesses have arrived as the thread expects,
-- it has returned, or it has aborted the program and one of the accesses that it expects conflicts with
-- what is in the store when it comes.
pub comm_check_thread-ends :
    (s : WinState) (polls : List Poll)
    → s.thread_end ≡ 1
    → s.count ≤ s.value
    → s.value ≤ s.count + arrivals polls
    → ((comm_check_thread s polls ≡ aborted) × Conflicts s s.value polls)
      ⊎ ((t : WinState) × (rest : List Poll) × (comm_check_thread s polls ≡ returned t rest))
unfolding comm_check_thread is_finished
comm_check_thread-ends s [] e lo hi = inr (record s { count = 0 }, [], ground arith)
comm_check_thread-ends s (pending ∷ polls) e lo hi = elim (Bool-cases (is_finished s)) [
  | inl done ↦ inr (record s { count = 0 }, pending ∷ polls, rw done)
  | inr more ↦ elim (comm_check_thread-ends s polls e lo hi) [
    | inl (stopped, c) ↦ inl (
      rw more stopped,
      record {
        used = pending ∷ c.used;
        rest = c.rest;
        acc = c.acc;
        name = c.name;
        split = ap (◌∷◌ pending) c.split;
        early = c.early;
        conflict = c.conflict;
      },
    )
    | inr (t, rest, done) ↦ inr (t, rest, rw more done)
  ]
]
comm_check_thread-ends s (arrived acc name ∷ polls) e lo hi = elim (Bool-cases (is_finished s)) [
  | inl done ↦ inr (record s { count = 0 }, arrived acc name ∷ polls, rw done)
  | inr more ↦ elim (save_cases (received s acc name) (record s { count = suc s.count })) [
    | inl (_, saved) ↦
        elim (comm_check_thread-ends (after s acc name) polls e (ground arith) (omega arith)) [
          | inl (stopped, c) ↦
              inl (rw (more, saved) stopped, later_conflict s s.value acc name polls c)
          | inr (t, rest, done) ↦ inr (t, rest, rw (more, saved) done)
        ]
    | inr (conflict, stopped) ↦ inl (
      rw (more, stopped),
      record {
        used = [];
        rest = polls;
        acc = acc;
        name = name;
        split = refl;
        early = ground arith;
        conflict = conflict;
      },
    )
  ]
]

-- While the thread still polls, it has counted and stored exactly what has arrived, and changed
-- nothing else.
pub comm_check_thread-polling :
    (s t : WinState) (polls : List Poll)
    → comm_check_thread s polls ≡ polling t
    → t ≡ record s { count = s.count + arrivals polls; intervals = gathered s s.intervals polls }
unfolding comm_check_thread
comm_check_thread-polling s t [] h = elim (Bool-cases (is_finished s)) [
  | inl done ↦ cc (rw done at h)
  | inr more ↦ ground arith
]
comm_check_thread-polling s t (pending ∷ polls) h = elim (Bool-cases (is_finished s)) [
  | inl done ↦ cc (rw done at h)
  | inr more ↦ comm_check_thread-polling s t polls (rw more at h)
]
comm_check_thread-polling s t (arrived acc name ∷ polls) h = elim (Bool-cases (is_finished s)) [
  | inl done ↦ cc (rw done at h)
  | inr more ↦ elim (save_cases (received s acc name) (record s { count = suc s.count })) [
    | inl (_, saved) ↦
        comm_check_thread-polling (after s acc name) t polls
          (rw (more, saved, comm_check_thread) at h)
        ∙ one_counted s acc name polls
    | inr (_, stopped) ↦ cc (rw (more, stopped, comm_check_thread) at h)
  ]
]
