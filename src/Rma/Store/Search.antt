-- ===== src/Rma/Store/Search.antt =====
-- What the query for intersecting intervals finds.
use mathlib.Core.List.{reverse-cons}
use parcoach.Base.{
  All-append, All-split, ◌≤◌, ◌≡◌, refl, ◌↔◌, ◌⊎◌, inl, inr, [], ◌∷◌, ◌++◌, reverse, true, false,
  arith, All, In, Bool-cases, In-append, In-reverse, All-In,
}
use parcoach.Rma.Interval.{Access, intersects, access_lt}
use parcoach.Rma.Interval.Bytes.{IsValid}
use parcoach.Rma.Store.{Accesses, emplace, from_upper_bound, before_upper_bound, add_neighbors}
use parcoach.Rma.Store.Order.{
  IsSorted, In-emplace, from_upper_bound-lt, before_upper_bound-ge, upper_bound-append,
}

abbrev pub Meets : Access → Access → Type 0
Meets a x = intersects x.itv a.itv ≡ true

abbrev pub Misses : Access → Access → Type 0
Misses a x = intersects x.itv a.itv ≡ false

-- Behind the first entry that does not intersect, none does.
abbrev pub HasNoGap : Access → Accesses → Type 0
HasNoGap a [] = Unit
HasNoGap a (x ∷ xs) = (Misses a x → All (Misses a) xs) × HasNoGap a xs

pub add_neighbors_sound :
    (a x : Access) (xs ret : Accesses)
    → In x (add_neighbors a xs ret)
    → (In x xs × Meets a x) ⊎ In x ret
unfolding add_neighbors
add_neighbors_sound a x [] ret h = inr h
add_neighbors_sound a x (y ∷ xs) ret h =
    ground (arith, add_neighbors_sound a x xs (emplace y ret), In-emplace y x ret)

pub add_neighbors-keeps :
    (a x : Access) (xs ret : Accesses) → In x ret → In x (add_neighbors a xs ret)
unfolding add_neighbors
add_neighbors-keeps a x [] ret h = h
add_neighbors-keeps a x (y ∷ xs) ret h =
    ground (arith, add_neighbors-keeps a x xs (emplace y ret), In-emplace y x ret)

pub add_neighbors_complete :
    (a x : Access) (xs ret : Accesses)
    → HasNoGap a xs
    → In x xs
    → Meets a x
    → In x (add_neighbors a xs ret)
unfolding add_neighbors
add_neighbors_complete a x [] ret g m h = absurd m
add_neighbors_complete a x (y ∷ xs) ret g m h = elim (Bool-cases (intersects y.itv a.itv)) [
  | inl hit ↦ rw hit (elim m [
    | inl e ↦ add_neighbors-keeps a x xs (emplace y ret) ((In-emplace y x ret).1 (inl e))
    | inr later ↦ add_neighbors_complete a x xs (emplace y ret) g.1 later h
  ])
  | inr miss ↦ elim m [
    | inl e ↦ ground arith
    | inr later ↦ absurd (ground (arith, All-In (Misses a) xs (g.0 miss) later))
  ]
]

-- From the upper bound on, the low bounds grow, so the scan loses nothing.
from_upper_bound-Misses :
    (a y : Access) (xs : Accesses)
    → a.itv.low ≤ y.itv.up
    → access_lt a y ≡ true
    → Misses a y
    → All (λ z. access_lt z y ≡ false) xs
    → All (Misses a) xs
from_upper_bound-Misses a y [] v lt miss s = tt
from_upper_bound-Misses a y (z ∷ xs) v lt miss s =
    (ground arith, from_upper_bound-Misses a y xs v lt miss s.1)

pub HasNoGap-above :
    (a : Access) (xs : Accesses)
    → IsSorted xs
    → All (λ y. access_lt a y ≡ true) xs
    → All (λ y. IsValid y.itv) xs
    → HasNoGap a xs
HasNoGap-above a [] s lt v = tt
HasNoGap-above a (x ∷ xs) s lt v = (
  λ miss. from_upper_bound-Misses a x xs (le_up v.0) lt.0 miss s.0,
  HasNoGap-above a xs s.1 lt.1 v.1,
)
  where
    le_up : IsValid x.itv → a.itv.low ≤ x.itv.up
    le_up w = ground arith

HasNoGap-concat :
    (a x : Access) (ys : Accesses)
    → HasNoGap a ys
    → ((y : Access) → In y ys → Misses a y → Misses a x)
    → HasNoGap a (ys ++ x ∷ [])
HasNoGap-concat a x [] g h = ((λ _. tt), tt)
HasNoGap-concat a x (y ∷ ys) g h = (
  λ miss. All-append (Misses a) ys (x ∷ []) (g.0 miss) (h y (inl refl) miss, tt),
  HasNoGap-concat a x ys g.1 (λ z m. h z (inr m)),
)

-- The upper bounds grow along the store: no entry reaches beyond one that stands behind it.
abbrev pub IsMonotone : Accesses → Type 0
IsMonotone [] = Unit
IsMonotone (x ∷ xs) = All (λ y. x.itv.up ≤ y.itv.up) xs × IsMonotone xs

HasNoGap-below :
    (a : Access) (xs : Accesses)
    → IsValid a.itv
    → All (λ y. access_lt a y ≡ false) xs
    → IsMonotone xs
    → HasNoGap a (reverse xs)
HasNoGap-below a [] v ge mono = tt
HasNoGap-below a (x ∷ xs) v ge mono =
    rw (reverse-cons x xs)
      (HasNoGap-concat a x (reverse xs) (HasNoGap-below a xs v ge.1 mono.1) passes)
  where
    passes : (y : Access) → In y (reverse xs) → Misses a y → Misses a x
    passes y m miss =
        let m' = (In-reverse y xs).0 m in
        let le_a = All-In (λ z. access_lt a z ≡ false) xs ge.1 m' in
        let up = All-In (λ z. x.itv.up ≤ z.itv.up) xs mono.0 m' in ground arith

IsMonotone-prefix : (xs ys : Accesses) → IsMonotone (xs ++ ys) → IsMonotone xs
IsMonotone-prefix [] ys m = tt
IsMonotone-prefix (x ∷ xs) ys m =
    ((All-split (λ y. x.itv.up ≤ y.itv.up) xs ys m.0).0, IsMonotone-prefix xs ys m.1)

pub before_upper_bound-HasNoGap :
    (a : Access) (xs : Accesses)
    → IsValid a.itv
    → IsMonotone xs
    → HasNoGap a (reverse (before_upper_bound a xs))
before_upper_bound-HasNoGap a xs v mono =
    HasNoGap-below a (before_upper_bound a xs) v (before_upper_bound-ge a xs)
      (IsMonotone-prefix _ (from_upper_bound a xs) (rw (upper_bound-append a xs) mono))

pub from_upper_bound-HasNoGap :
    (a : Access) (xs : Accesses)
    → IsSorted xs
    → All (λ y. IsValid y.itv) xs
    → HasNoGap a (from_upper_bound a xs)
from_upper_bound-HasNoGap a xs s v =
    let (sorted, greater) = from_upper_bound-lt a xs s in
    let above =
      All-split (λ y. IsValid y.itv) (before_upper_bound a xs) (from_upper_bound a xs)
        (rw (upper_bound-append a xs) v) in
    HasNoGap-above a (from_upper_bound a xs) sorted greater above.1

pub In-upper_bound :
    (a x : Access) (xs : Accesses)
    → In x xs ↔ (In x (before_upper_bound a xs) ⊎ In x (from_upper_bound a xs))
In-upper_bound a x xs =
    rw (upper_bound-append a xs) at (In-append x (before_upper_bound a xs) (from_upper_bound a xs))
