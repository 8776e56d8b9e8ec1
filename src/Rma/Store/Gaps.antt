-- ===== src/Rma/Store/Gaps.antt =====
-- Where the early exit of getIntersectingIntervals is exact, and what it loses otherwise.
use mathlib.Core.List.{reverse-append}
use parcoach.Base.{
  ap, subst, ◌∙◌, ◌≡◌, ◌↔◌, ◌⊎◌, inl, inr, [], ◌∷◌, ◌++◌, reverse, true, false, arith, All, In,
  In-reverse, All-In,
}
use parcoach.Rma.Interval.{Access, access_lt}
use parcoach.Rma.Interval.Bytes.{IsValid}
use parcoach.Rma.Store.{
  Accesses, from_upper_bound, before_upper_bound, add_neighbors, get_intersecting_intervals,
}
use parcoach.Rma.Store.Order.{IsSorted, before_upper_bound-ge, from_upper_bound-lt}
use parcoach.Rma.Store.Search.{
  Meets, Misses, IsMonotone, add_neighbors_sound, add_neighbors-keeps, add_neighbors_complete,
  before_upper_bound-HasNoGap, from_upper_bound-HasNoGap, In-upper_bound,
}

-- What the query returns is stored and intersects.
pub get_intersecting_sound :
    (intervals : Accesses) (a x : Access)
    → In x (get_intersecting_intervals intervals a)
    → In x intervals × Meets a x
unfolding get_intersecting_intervals
get_intersecting_sound intervals a x m = ground (
  arith,
  add_neighbors_sound a x (reverse (before_upper_bound a intervals))
      (add_neighbors a (from_upper_bound a intervals) []),
  add_neighbors_sound a x (from_upper_bound a intervals) [],
  In-reverse x (before_upper_bound a intervals),
  In-upper_bound a x intervals,
)

-- In a sorted store of intervals that are not empty, every stored access which is greater than
-- the given one and intersects it is found.
pub get_intersecting-above :
    (intervals : Accesses) (a x : Access)
    → IsSorted intervals
    → All (λ y. IsValid y.itv) intervals
    → In x intervals
    → access_lt a x ≡ true
    → Meets a x
    → In x (get_intersecting_intervals intervals a)
unfolding get_intersecting_intervals
get_intersecting-above intervals a x s v m lt h =
    add_neighbors-keeps a x (reverse (before_upper_bound a intervals)) _ (
      add_neighbors_complete a x (from_upper_bound a intervals) []
        (from_upper_bound-HasNoGap a intervals s v) is_above h)
  where
    is_above : In x (from_upper_bound a intervals)
    is_above = elim ((In-upper_bound a x intervals).0 m) [
      | inl below ↦ absurd (
          ground (
            arith,
            All-In (λ y. access_lt a y ≡ false) _ (before_upper_bound-ge a intervals) below,
          ))
      | inr above ↦ above
    ]

-- Where moreover the upper bounds grow along the store, the query finds exactly the stored
-- accesses that intersect the given one.
pub get_intersecting_iff :
    (intervals : Accesses) (a x : Access)
    → IsSorted intervals
    → All (λ y. IsValid y.itv) intervals
    → IsMonotone intervals
    → IsValid a.itv
    → In x (get_intersecting_intervals intervals a) ↔ (In x intervals × Meets a x)
unfolding get_intersecting_intervals
get_intersecting_iff intervals a x s v mono va =
    (get_intersecting_sound intervals a x, λ (m, h). found h ((In-upper_bound a x intervals).0 m))
  where
    found :
        Meets a x
        → In x (before_upper_bound a intervals) ⊎ In x (from_upper_bound a intervals)
        → In x (get_intersecting_intervals intervals a)
    found h (inl below) =
        add_neighbors_complete a x (reverse (before_upper_bound a intervals)) _
          (before_upper_bound-HasNoGap a intervals va mono) ((In-reverse x _).1 below) h
    found h (inr above) = add_neighbors-keeps a x (reverse (before_upper_bound a intervals)) _ (
        add_neighbors_complete a x (from_upper_bound a intervals) []
          (from_upper_bound-HasNoGap a intervals s v) above h)

-- Where the last stored access below the given one does not intersect it, nothing below is found,
-- even what stands further down, encloses that access and does intersect.
pub get_intersecting-gap :
    (intervals pre : Accesses) (a x y : Access)
    → IsSorted intervals
    → before_upper_bound a intervals ≡ pre ++ y ∷ []
    → Misses a y
    → In x (get_intersecting_intervals intervals a)
    → access_lt a x ≡ true
unfolding get_intersecting_intervals
get_intersecting-gap intervals pre a x y s e miss m =
    let none_below =
      ap (λ (zs : Accesses). add_neighbors a (reverse zs) above) e
      ∙ ap (λ (zs : Accesses). add_neighbors a zs above) (reverse-append pre (y ∷ []))
      ∙ stops (reverse pre) in
    elim (add_neighbors_sound a x (from_upper_bound a intervals) [] (subst (In x) none_below m)) [
      | inl (found, _) ↦
          All-In (λ z. access_lt a z ≡ true) _ (from_upper_bound-lt a intervals s).1 found
      | inr none ↦ absurd none
    ]
  where
    above : Accesses
    above = add_neighbors a (from_upper_bound a intervals) []

    stops : (zs : Accesses) → add_neighbors a (y ∷ zs) above ≡ above
    stops zs = unfold add_neighbors in (rw miss)
