-- ===== src/Rma/Store/Conflicts.antt =====
-- getConflictingIntervals against the definition of a data race.
use parcoach.Base.{
  subst, All-In, ◌≡◌, refl, ◌↔◌, ◌⊎◌, inl, inr, [], ◌∷◌, ◌++◌, true, false, arith, All, In,
  Bool-cases,
}
use parcoach.Rma.Interval.{Access, access_lt, conflicts_with}
use parcoach.Rma.Interval.Bytes.{IsValid}
use parcoach.Rma.Interval.Races.{Races, conflicts_with_iff, conflicts_with-Races}
use parcoach.Rma.Store.{
  Accesses, emplace, before_upper_bound, keep_conflicting, get_intersecting_intervals,
  get_conflicting_intervals,
}
use parcoach.Rma.Store.Order.{IsSorted, In-emplace}
use parcoach.Rma.Store.Search.{Misses, IsMonotone}
use parcoach.Rma.Store.Gaps.{get_intersecting_sound, get_intersecting_iff, get_intersecting-gap}

keep_conflicting-In :
    (a x : Access) (xs ret : Accesses)
    → In x (keep_conflicting a xs ret) ↔ ((In x xs × (conflicts_with x a ≡ true)) ⊎ In x ret)
unfolding keep_conflicting
keep_conflicting-In a x [] ret = ground arith
keep_conflicting-In a x (y ∷ xs) ret = elim (Bool-cases (conflicts_with y a)) [
  | inl yes' ↦
      rw yes' (ground (arith, keep_conflicting-In a x xs (emplace y ret), In-emplace y x ret))
  | inr no' ↦ rw no' (ground (arith, keep_conflicting-In a x xs ret))
]

pub get_conflicting_iff :
    (intervals : Accesses) (a x : Access)
    → In x (get_conflicting_intervals intervals a)
      ↔ (In x (get_intersecting_intervals intervals a) × (conflicts_with x a ≡ true))
unfolding get_conflicting_intervals
get_conflicting_iff intervals a x =
    ground (arith, keep_conflicting-In a x (get_intersecting_intervals intervals a) [])

eq-nil : (xs : Accesses) → ((x : Access) → ¬ In x xs) → xs ≡ []
eq-nil [] h = refl
eq-nil (x ∷ xs) h = absurd (h x (inl refl))

-- Each access that is reported is stored and races with the given one.
pub get_conflicting_sound :
    (intervals : Accesses) (a x : Access)
    → All (λ y. IsValid y.itv) intervals
    → IsValid a.itv
    → In x (get_conflicting_intervals intervals a)
    → In x intervals × Races x a
get_conflicting_sound intervals a x v va m =
    let (found, conflict) = (get_conflicting_iff intervals a x).0 m in
    let (stored, meets) = get_intersecting_sound intervals a x found in
    (stored, (conflicts_with-Races x a (All-In _ intervals v stored) va).0 conflict)

-- In a sorted store of intervals that are not empty and whose upper bounds grow, no conflict is
-- reported exactly when no stored access races with the given one.
pub get_conflicting_complete :
    (intervals : Accesses) (a : Access)
    → IsSorted intervals
    → All (λ y. IsValid y.itv) intervals
    → IsMonotone intervals
    → IsValid a.itv
    → (get_conflicting_intervals intervals a ≡ []) ↔ ((x : Access) → In x intervals → ¬ Races x a)
get_conflicting_complete intervals a s v mono va = (
  λ empty x stored race.
      let conflict = (conflicts_with-Races x a (All-In _ intervals v stored) va).1 race in
      let meets = ((conflicts_with_iff x a).0 conflict).0 in
      let found = (get_intersecting_iff intervals a x s v mono va).1 (stored, meets) in
      subst (In x) empty ((get_conflicting_iff intervals a x).1 (found, conflict)),
  λ none_races. eq-nil _ (λ x m.
      let (stored, race) = get_conflicting_sound intervals a x v va m in none_races x stored race),
)

-- The early exit hides races. Let y be the last stored access below the given access a. If y does
-- not intersect a, no stored access below a is reported, although one that starts before y and
-- reaches beyond it may race with a.
pub get_conflicting-gap :
    (intervals pre : Accesses) (a x y : Access)
    → IsSorted intervals
    → before_upper_bound a intervals ≡ pre ++ y ∷ []
    → Misses a y
    → access_lt a x ≡ false
    → ¬ In x (get_conflicting_intervals intervals a)
get_conflicting-gap intervals pre a x y s e miss le m =
    let (found, _) = (get_conflicting_iff intervals a x).0 m in
    let lt = get_intersecting-gap intervals pre a x y s e miss found in ground arith
