-- ===== src/Rma/Store.antt =====
-- src/instrumentation/rma/rma_analyzer.cpp, getIntersectingIntervals and getConflictingIntervals.
-- A std::multiset<Access, AccessComp> is the list of its entries in the order of iteration; the
-- multisets of references that the queries return are the lists of what the references stand for.
pub mod Order
pub mod Search
pub mod Gaps
pub mod Conflicts
use parcoach.Base.{List, [], ◌∷◌, reverse, if◌then◌else◌, true, false}
use parcoach.Rma.Interval.{Access, intersects, access_lt, conflicts_with}

-- IntervalContainer, IntervalViewContainer
abbrev pub Accesses : Type 0
Accesses = List Access

-- std::multiset::emplace, insert: behind the entries that are not greater.
unfoldable pub emplace : Access → Accesses → Accesses
emplace a [] = a ∷ []
emplace a (x ∷ xs) = if access_lt a x then a ∷ x ∷ xs else x ∷ emplace a xs

-- The entries from std::multiset::upper_bound on, and those before it.
unfoldable pub from_upper_bound : Access → Accesses → Accesses
from_upper_bound a [] = []
from_upper_bound a (x ∷ xs) = if access_lt a x then x ∷ xs else from_upper_bound a xs

unfoldable pub before_upper_bound : Access → Accesses → Accesses
before_upper_bound a [] = []
before_upper_bound a (x ∷ xs) = if access_lt a x then [] else x ∷ before_upper_bound a xs

-- The lambda AddNeighbors, which stops at the first entry that does not intersect.
unfoldable pub add_neighbors : Access → Accesses → Accesses → Accesses
add_neighbors a [] ret = ret
add_neighbors a (x ∷ xs) ret =
    let rest = add_neighbors a xs (emplace x ret) in if intersects x.itv a.itv then rest else ret

unfoldable pub get_intersecting_intervals : Accesses → Access → Accesses
unfolding add_neighbors emplace from_upper_bound before_upper_bound
get_intersecting_intervals intervals a =
    add_neighbors a (reverse (before_upper_bound a intervals))
      (add_neighbors a (from_upper_bound a intervals) [])

-- The loop of getConflictingIntervals, over the intersecting intervals in order.
unfoldable pub keep_conflicting : Access → Accesses → Accesses → Accesses
keep_conflicting a [] ret = ret
keep_conflicting a (x ∷ xs) ret =
    keep_conflicting a xs (if conflicts_with x a then emplace x ret else ret)

unfoldable pub get_conflicting_intervals : Accesses → Access → Accesses
unfolding keep_conflicting get_intersecting_intervals conflicts_with
get_conflicting_intervals intervals a =
    keep_conflicting a (get_intersecting_intervals intervals a) []
