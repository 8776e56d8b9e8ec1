-- ===== src/Andersen/Sets.antt =====
-- The ordered sets of the solver: what is in them, that they stay ascending, and when an insertion
-- reports a change.
use parcoach.Base.{
  ◌≡◌, refl, ◌⊎◌, inl, inr, ◌↔◌, ℕ, ◌<◌, true, false, List, [], ◌∷◌, ◌==◌, arith, ltb, Bool-cases,
  All, In,
}
use parcoach.Andersen.Constraints.{insert_index, erase_index, union_with, has_index}

abbrev pub IsAscending : List ℕ → Type 0
IsAscending [] = Unit
IsAscending (n ∷ ns) = All (λ m. n < m) ns × IsAscending ns

pub In-insert_index : (m n : ℕ) (ns : List ℕ) → In m (insert_index n ns).1 ↔ ((m ≡ n) ⊎ In m ns)
unfolding insert_index
In-insert_index m n [] = ground arith
In-insert_index m n (k ∷ ns) = elim (Bool-cases (ltb n k)) [
  | inl lt ↦ rw (lt, insert_index) (ground arith)
  | inr ge ↦ elim (Bool-cases (n == k)) [
    | inl eq ↦ rw (ge, eq, insert_index) (ground arith)
    | inr ne ↦ rw (ge, ne, insert_index) (ground (arith, In-insert_index m n ns))
  ]
]

pub In-union_with : (m : ℕ) (ms ns : List ℕ) → In m (union_with ms ns).1 ↔ (In m ms ⊎ In m ns)
unfolding union_with
In-union_with m ms [] = ground arith
In-union_with m ms (n ∷ ns) =
    ground (arith, In-union_with m (insert_index n ms).1 ns, In-insert_index m n ms)

pub has_index_iff : (n : ℕ) (ns : List ℕ) → (has_index n ns ≡ true) ↔ In n ns
unfolding has_index
has_index_iff n [] = ground arith
has_index_iff n (m ∷ ns) = ground (arith, has_index_iff n ns)

-- Nothing changes where no change is reported.
pub insert_index-same :
    (n : ℕ) (ns : List ℕ) → (insert_index n ns).0 ≡ false → (insert_index n ns).1 ≡ ns
unfolding insert_index
insert_index-same n [] e = ground arith
insert_index-same n (k ∷ ns) e = ground (arith, insert_index-same n ns)

pub union_with-same : (ms ns : List ℕ) → (union_with ms ns).0 ≡ false → (union_with ms ns).1 ≡ ms
unfolding union_with
union_with-same ms [] e = refl
union_with-same ms (n ∷ ns) e =
    let first = insert_index-same n ms in
    let rest = union_with-same (insert_index n ms).1 ns in ground arith

above_insert :
    (k n : ℕ) (ns : List ℕ) → k < n → All (λ m. k < m) ns → All (λ m. k < m) (insert_index n ns).1
unfolding insert_index
above_insert k n [] lt h = (lt, tt)
above_insert k n (j ∷ ns) lt h = ground (arith, above_insert k n ns)

above_trans : (k n : ℕ) (ns : List ℕ) → k < n → All (λ m. n < m) ns → All (λ m. k < m) ns
above_trans k n [] lt h = tt
above_trans k n (j ∷ ns) lt h = (omega (arith, h.0), above_trans k n ns lt h.1)

pub insert_index-IsAscending :
    (n : ℕ) (ns : List ℕ) → IsAscending ns → IsAscending (insert_index n ns).1
unfolding insert_index
insert_index-IsAscending n [] h = (tt, tt)
insert_index-IsAscending n (k ∷ ns) h =
    ground (arith, insert_index-IsAscending n ns, above_insert k n ns, above_trans n k ns)

above_absent : (n : ℕ) (ns : List ℕ) → All (λ m. n < m) ns → ¬ In n ns
above_absent n [] h m = m
above_absent n (k ∷ ns) h (inl e) = omega (arith, h.0)
above_absent n (k ∷ ns) h (inr m) = above_absent n ns h.1 m

pub In-erase_index :
    (m n : ℕ) (ns : List ℕ)
    → IsAscending ns
    → In m (erase_index n ns).1 ↔ (In m ns × (m == n ≡ false))
unfolding erase_index
In-erase_index m n [] h = ground arith
In-erase_index m n (k ∷ ns) h = ground (arith, In-erase_index m n ns, above_absent k ns)

above_erase : (k n : ℕ) (ns : List ℕ) → All (λ m. k < m) ns → All (λ m. k < m) (erase_index n ns).1
unfolding erase_index
above_erase k n [] h = tt
above_erase k n (j ∷ ns) h = ground (arith, above_erase k n ns)

pub erase_index-IsAscending :
    (n : ℕ) (ns : List ℕ) → IsAscending ns → IsAscending (erase_index n ns).1
unfolding erase_index
erase_index-IsAscending n [] h = tt
erase_index-IsAscending n (k ∷ ns) h =
    ground (arith, erase_index-IsAscending n ns, above_erase k n ns)
