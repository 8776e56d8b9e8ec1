-- ===== src/Rma/Tests/Stores.antt =====
-- Intervals, stores and tag ranges at concrete inputs.
use parcoach.Base.{
  ℕ, ◌+◌, ◌*◌, ◌-◌, ◌≤◌, ◌<◌, ◌≡◌, ◌↔◌, refl, inl, inr, true, false, some, [], ◌∷◌, ◌++◌, In, All,
  arith,
}
use parcoach.Rma.Interval.{
  Interval, Access, AccessType, DebugInfo, local_read, local_write, rma_read, rma_write,
  conflicts_with, fix_for_window,
}
use parcoach.Rma.Interval.Bytes.{IsValid, Covers, fix_for_window-bytes}
use parcoach.Rma.Interval.Races.{Races, conflicts_with-Races}
use parcoach.Rma.Store.{
  Accesses, get_intersecting_intervals, get_conflicting_intervals, before_upper_bound,
}
use parcoach.Rma.Store.Order.{IsSorted}
use parcoach.Rma.Store.Search.{IsMonotone}
use parcoach.Rma.Store.Conflicts.{get_conflicting_complete, get_conflicting-gap}
use parcoach.Rma.Outcome.{ok, out_of_bounds}
use parcoach.Rma.Tags.{get_tag_range_id, free_tag_range, mpi_tag_of}
use parcoach.Rma.Tags.Ranges.{free_tag_range-get, free_tag_range-exhausted}

abbrev dbg : DebugInfo
dbg = record { line = 7; filename = "main.c" }

abbrev between : ℕ → ℕ → Interval
between a b = record { low = a; up = b }

abbrev access : ℕ → ℕ → AccessType → Access
access a b t = record { itv = between a b; type = t; dbg = dbg }

-- The store and the access of the unit test FindIntersections.
abbrev three : Accesses
three = access 0 4 rma_write ∷ access 6 8 rma_read ∷ access 10 12 rma_read ∷ []

abbrev probe : Access
probe = access 1 7 rma_read

find_intersections :
    get_intersecting_intervals three probe ≡ access 0 4 rma_write ∷ access 6 8 rma_read ∷ []
unfolding get_intersecting_intervals
find_intersections = refl

find_conflicts : get_conflicting_intervals three probe ≡ access 0 4 rma_write ∷ []
unfolding get_conflicting_intervals
find_conflicts = refl

valid : (a b : ℕ) → a ≤ b → b < 100 → IsValid (between a b)
valid a b h k = record { ordered = h; word = omega (arith, k) }

three-IsValid : All (λ y. IsValid y.itv) three
three-IsValid = (
  valid 0 4 (omega arith) (omega arith),
  (valid 6 8 (omega arith) (omega arith), (valid 10 12 (omega arith) (omega arith), tt)),
)

three-IsSorted : IsSorted three
three-IsSorted = ((refl, (refl, tt)), ((refl, tt), (tt, tt)))

three-IsMonotone : IsMonotone three
three-IsMonotone = omega arith

conflicts_with-Races_example :
    (conflicts_with (access 0 4 rma_write) probe ≡ true) ↔ Races (access 0 4 rma_write) probe
conflicts_with-Races_example =
    conflicts_with-Races (access 0 4 rma_write) probe (valid 0 4 (omega arith) (omega arith))
      (valid 1 7 (omega arith) (omega arith))

get_conflicting_complete_example :
    (get_conflicting_intervals three probe ≡ []) ↔ ((x : Access) → In x three → ¬ Races x probe)
get_conflicting_complete_example =
    get_conflicting_complete three probe three-IsSorted three-IsValid three-IsMonotone
      (valid 1 7 (omega arith) (omega arith))

-- A read of a byte between hides the write of the whole range from a later remote read.
abbrev nested : Accesses
nested = access 0 90 local_write ∷ access 2 3 local_read ∷ []

missed : Races (access 0 90 local_write) (access 50 60 rma_read)
missed = ((50, omega arith, omega arith), (inr (inl refl), inl (inl refl)))

nested-IsSorted : IsSorted nested
nested-IsSorted = ((refl, tt), (tt, tt))

nested_below :
    before_upper_bound (access 50 60 rma_read) nested
    ≡ (access 0 90 local_write ∷ []) ++ access 2 3 local_read ∷ []
unfolding before_upper_bound
nested_below = refl

get_conflicting-gap_example :
    ¬ In (access 0 90 local_write) (get_conflicting_intervals nested (access 50 60 rma_read))
get_conflicting-gap_example =
    get_conflicting-gap nested (access 0 90 local_write ∷ []) (access 50 60 rma_read)
      (access 0 90 local_write) (access 2 3 local_read) nested-IsSorted nested_below refl refl

fix_for_window-bytes_example :
    Covers (fix_for_window (between 10 17) 1000 4) 1041
    ↔ ((1000 + 10 * 4 ≤ 1041) × (1041 ≤ 1000 + 10 * 4 + (17 - 10)))
fix_for_window-bytes_example =
    fix_for_window-bytes (between 10 17) 1000 4 1041 (valid 10 17 (omega arith) (omega arith))
      (omega arith)

free_tag_range-get_example :
    free_tag_range (mpi_tag_of (some 1)) (true ∷ true ∷ false ∷ []) ≡ ok (true ∷ false ∷ false ∷ [])
free_tag_range-get_example =
    free_tag_range-get (true ∷ false ∷ false ∷ []) (true ∷ true ∷ false ∷ []) 1 second_is_free
  where
    second_is_free :
        get_tag_range_id (true ∷ false ∷ false ∷ []) ≡ (some 1, true ∷ true ∷ false ∷ [])
    second_is_free = unfold get_tag_range_id in refl

free_tag_range-exhausted_example :
    free_tag_range
      (mpi_tag_of (get_tag_range_id (true ∷ true ∷ [])).0)
      (get_tag_range_id (true ∷ true ∷ [])).1
    ≡ out_of_bounds
free_tag_range-exhausted_example = free_tag_range-exhausted (true ∷ true ∷ []) (refl, (refl, tt))
