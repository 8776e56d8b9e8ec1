-- ===== src/Rma/Store/Order.antt =====
-- The multiset of accesses: order and membership.
use parcoach.Base.{
  ◌≡◌, refl, ◌↔◌, ◌⊎◌, inl, inr, [], ◌∷◌, ◌++◌, true, false, arith, All, In, Bool-cases,
}
use parcoach.Rma.Interval.{Access, access_lt}
use parcoach.Rma.Store.{Accesses, emplace, from_upper_bound, before_upper_bound}

-- No entry stands before a smaller one.
abbrev pub IsSorted : Accesses → Type 0
IsSorted [] = Unit
IsSorted (x ∷ xs) = All (λ y. access_lt y x ≡ false) xs × IsSorted xs

pub In-emplace : (a x : Access) (xs : Accesses) → In x (emplace a xs) ↔ ((x ≡ a) ⊎ In x xs)
unfolding emplace
In-emplace a x [] = ground arith
In-emplace a x (y ∷ xs) = ground (arith, In-emplace a x xs)

-- The order is transitive, and linear up to entries with the same bounds.
pub access_lt_trans :
    (a b c : Access) → access_lt b a ≡ false → access_lt c b ≡ false → access_lt c a ≡ false
access_lt_trans a b c p q = ground arith

pub access_lt_asymm : (a b : Access) → access_lt a b ≡ true → access_lt b a ≡ false
access_lt_asymm a b p = ground arith

All-above :
    (a x : Access) (xs : Accesses)
    → access_lt x a ≡ false
    → All (λ y. access_lt y x ≡ false) xs
    → All (λ y. access_lt y a ≡ false) xs
All-above a x [] p h = tt
All-above a x (y ∷ xs) p h = (access_lt_trans a x y p h.0, All-above a x xs p h.1)

All-emplace :
    (a x : Access) (xs : Accesses)
    → access_lt a x ≡ false
    → All (λ y. access_lt y x ≡ false) xs
    → All (λ y. access_lt y x ≡ false) (emplace a xs)
unfolding emplace
All-emplace a x [] p h = (p, tt)
All-emplace a x (y ∷ xs) p h = elim (Bool-cases (access_lt a y)) [
  | inl lt ↦ rw lt (p, (h.0, h.1))
  | inr ge ↦ rw ge (h.0, All-emplace a x xs p h.1)
]

pub emplace-IsSorted : (a : Access) (xs : Accesses) → IsSorted xs → IsSorted (emplace a xs)
unfolding emplace
emplace-IsSorted a [] s = (tt, tt)
emplace-IsSorted a (x ∷ xs) s = elim (Bool-cases (access_lt a x)) [
  | inl lt ↦ let ge = access_lt_asymm a x lt in rw lt ((ge, All-above a x xs ge s.0), (s.0, s.1))
  | inr ge ↦ rw ge (All-emplace a x xs ge s.0, emplace-IsSorted a xs s.1)
]

pub upper_bound-append :
    (a : Access) (xs : Accesses) → before_upper_bound a xs ++ from_upper_bound a xs ≡ xs
unfolding before_upper_bound from_upper_bound
upper_bound-append a [] = refl
upper_bound-append a (x ∷ xs) = ground (arith, upper_bound-append a xs)

-- What stands from the upper bound on is greater, and sorted.
pub from_upper_bound-lt :
    (a : Access) (xs : Accesses)
    → IsSorted xs
    → IsSorted (from_upper_bound a xs) × All (λ y. access_lt a y ≡ true) (from_upper_bound a xs)
unfolding from_upper_bound
from_upper_bound-lt a [] s = (tt, tt)
from_upper_bound-lt a (x ∷ xs) s = elim (Bool-cases (access_lt a x)) [
  | inl lt ↦ rw lt ((s.0, s.1), (lt, All-greater a x xs lt s.0))
  | inr ge ↦ rw ge (from_upper_bound-lt a xs s.1)
]
  where
    All-greater :
        (a x : Access) (xs : Accesses)
        → access_lt a x ≡ true
        → All (λ y. access_lt y x ≡ false) xs
        → All (λ y. access_lt a y ≡ true) xs
    All-greater a x [] p h = tt
    All-greater a x (y ∷ xs) p h = (ground arith, All-greater a x xs p h.1)

pub before_upper_bound-ge :
    (a : Access) (xs : Accesses) → All (λ y. access_lt a y ≡ false) (before_upper_bound a xs)
unfolding before_upper_bound
before_upper_bound-ge a [] = tt
before_upper_bound-ge a (x ∷ xs) = elim (Bool-cases (access_lt a x)) [
  | inl lt ↦ rw lt tt
  | inr ge ↦ rw ge (ge, before_upper_bound-ge a xs)
]
