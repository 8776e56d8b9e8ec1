-- ===== src/Rma/Windows/Saves.antt =====
-- Saving accesses: one window, and all the active ones.
use parcoach.Base.{
  Bool-cases, ◌⊎◌, Option-cases, ℕ, ◌≡◌, ◌≢◌, ◌↔◌, inl, inr, some, [], ltb, if◌then◌else◌, arith,
  All, In,
}
use parcoach.Rma.Interval.{Access}
use parcoach.Rma.Interval.Bytes.{IsValid}
use parcoach.Rma.Interval.Races.{Races}
use parcoach.Rma.Store.{emplace, get_conflicting_intervals}
use parcoach.Rma.Store.Order.{IsSorted}
use parcoach.Rma.Store.Search.{IsMonotone}
use parcoach.Rma.Store.Conflicts.{get_conflicting_complete}
use parcoach.Rma.Outcome.{Outcome, ok, abort}
use parcoach.Rma.Windows.{
  save_if_active, save_interval_all_wins, WinState, States, find, get_state, save, save_interval,
}
use parcoach.Rma.Windows.Loops.{Acts, for_each-handles}
use parcoach.Rma.Windows.Lookup.{IsKeyed, find-update}

-- A save goes through where the query finds no conflict, and then adds the access; otherwise the
-- program is aborted.
pub save_cases :
    (acc : Access) (s : WinState)
    → ((get_conflicting_intervals s.intervals acc ≡ [])
        × (save acc s ≡ ok (record s { intervals = emplace acc s.intervals })))
      ⊎ ((get_conflicting_intervals s.intervals acc ≢ []) × (save acc s ≡ abort))
unfolding save
save_cases acc s = ground arith

pub record HasOrderedStore (s : WinState) : Type 0 where
  pub sorted : IsSorted s.intervals
  pub valid : All (λ y. IsValid y.itv) s.intervals
  pub monotone : IsMonotone s.intervals

-- In a store of intervals that are not empty and whose upper bounds grow with the lower ones, an
-- access is saved if no stored access races with it, and the program is aborted if one does.
pub save-Races :
    (acc : Access) (s : WinState)
    → HasOrderedStore s
    → IsValid acc.itv
    → (((x : Access) → In x s.intervals → ¬ Races x acc)
        → save acc s ≡ ok (record s { intervals = emplace acc s.intervals }))
      × ((x : Access) → In x s.intervals → Races x acc → save acc s ≡ abort)
save-Races acc s h v = (
  λ free. ground (arith, save_cases acc s, exact.1 free),
  λ x stored race. elim (save_cases acc s) [
    | inl (empty, _) ↦ absurd (exact.0 empty x stored race)
    | inr (_, e) ↦ e
  ],
)
  where
    exact :
        (get_conflicting_intervals s.intervals acc ≡ [])
        ↔ ((x : Access) → In x s.intervals → ¬ Races x acc)
    exact = get_conflicting_complete s.intervals acc h.sorted h.valid h.monotone v

abbrev pub save_step : Access → WinState → Outcome WinState
save_step acc s = if ltb 0 s.active_epoch then save acc s else ok s

pub save_if_active-Acts : (acc : Access) → Acts (save_if_active acc) (λ _. save_step acc)
unfolding save_if_active get_state save_interval
save_if_active-Acts acc win states states' h = elim (Option-cases (find win states)) [
  | inl missing ↦ absurd (ground arith)
  | inr (s, there) ↦ elim (Bool-cases (ltb 0 s.active_epoch)) [
    | inl active ↦ elim (save_cases acc s) [
      | inl (_, saved) ↦ (
        s,
        record s { intervals = emplace acc s.intervals },
        there,
        rw active saved,
        λ k.
            ground
              (arith, find-update k win (record s { intervals = emplace acc s.intervals }) states),
      )
      | inr (_, stopped) ↦ absurd (ground arith)
    ]
    | inr idle ↦ (s, s, there, rw idle, λ k. ground arith)
  ]
]

-- When a local load or store has been saved without a conflict, every window of an active epoch
-- holds the access, once more than before, and every other window is unchanged.
pub save_interval_all_wins-stores :
    (acc : Access) (states states' : States)
    → IsKeyed states
    → save_interval_all_wins acc states ≡ ok states'
    → (k : ℕ) (s : WinState) → find k states ≡ some s
    → find k states'
      ≡ some (if ltb 0 s.active_epoch then record s { intervals = emplace acc s.intervals } else s)
unfolding save_interval_all_wins
save_interval_all_wins-stores acc states states' keyed h k s e =
    let (t, step, found) =
      for_each-handles (save_if_active-Acts acc) states states' keyed h k s e in
    ground (arith, save_cases acc s)

-- A save on one window changes no other one.
pub save_interval-frame :
    (acc : Access) (win k : ℕ) (states states' : States)
    → win ≢ k
    → save_interval acc win states ≡ ok states'
    → find k states' ≡ find k states
unfolding save_interval get_state
save_interval-frame acc win k states states' ne h = elim (Option-cases (find win states)) [
  | inl missing ↦ ground arith
  | inr (s, there) ↦ ground (
    arith,
    save_cases acc s,
    find-update k win (record s { intervals = emplace acc s.intervals }) states,
  )
]
