-- ===== src/Rma/Tags/Ranges.antt =====
-- Tag ranges are handed out once, and given back.
use parcoach.Base.{
  ◌≤◌, length-set, ◌∙◌, ℕ, zero, suc, ◌+◌, ◌<◌, ◌≡◌, ◌≢◌, refl, ap, ◌⊎◌, inl, inr, true, false,
  none, some, [], ◌∷◌, length, get_elem?, set, arith, All,
}
use parcoach.Rma.Outcome.{ok, out_of_bounds}
use parcoach.Rma.Tags.{
  TagIds, get_tag_range_from, get_tag_range_id, mpi_tag_of, free_tag_range, max_epoch_number,
}

get_tag_range_from_cases :
    (i : ℕ) (ids : TagIds)
    → ((k : ℕ) × (k < length ids)
        × (get_elem? ids k ≡ some false)
        × (get_tag_range_from i ids ≡ (some (i + k), set ids k true)))
      ⊎ ((All (λ b. b ≡ true) ids) × (get_tag_range_from i ids ≡ (none, ids)))
unfolding get_tag_range_from
get_tag_range_from_cases i [] = inr (tt, refl)
get_tag_range_from_cases i (false ∷ ids) = inl (0, omega arith, refl, ground arith)
get_tag_range_from_cases i (true ∷ ids) = elim (get_tag_range_from_cases (suc i) ids) [
  | inl (k, lt, was, e) ↦ inl (suc k, omega arith, was, rw e (ground arith))
  | inr (full, e) ↦ inr ((refl, full), ground arith)
]

-- The flags after the range i has been given out are those before, with flag i set.
pub get_tag_range_id_cases :
    (ids : TagIds)
    → ((i : ℕ) × (i < length ids)
        × (get_elem? ids i ≡ some false)
        × (get_tag_range_id ids ≡ (some i, set ids i true)))
      ⊎ ((All (λ b. b ≡ true) ids) × (get_tag_range_id ids ≡ (none, ids)))
unfolding get_tag_range_id
get_tag_range_id_cases ids = elim (get_tag_range_from_cases 0 ids) [
  | inl (k, lt, was, e) ↦ inl (k, lt, was, e ∙ ground arith)
  | inr full ↦ inr full
]

set-set_free :
    (ids : TagIds) (i : ℕ) → get_elem? ids i ≡ some false → set (set ids i true) i false ≡ ids
set-set_free [] i h = cc
set-set_free (b ∷ ids) zero h = ground arith
set-set_free (b ∷ ids) (suc i) h = ap (◌∷◌ b) (set-set_free ids i h)

-- A range that is given back leaves the flags as they were before it was taken.
pub free_tag_range-get :
    (ids ids' : TagIds) (i : ℕ)
    → get_tag_range_id ids ≡ (some i, ids')
    → free_tag_range (mpi_tag_of (some i)) ids' ≡ ok ids
unfolding free_tag_range mpi_tag_of
free_tag_range-get ids ids' i h = elim (get_tag_range_id_cases ids) [
  | inl (k, lt, was, e) ↦ ground (arith, set-set_free ids k was, length-set ids k true)
  | inr (full, e) ↦ absurd (ground arith)
]

-- The tags of two ranges differ in the epochs from the first, 1, to the last, 1024.
pub mpi_tag_of-disjoint :
    (i j e f : ℕ)
    → i ≢ j
    → 0 < e
    → e ≤ max_epoch_number
    → 0 < f
    → f ≤ max_epoch_number
    → mpi_tag_of (some i) + e ≢ mpi_tag_of (some j) + f
unfolding mpi_tag_of
mpi_tag_of-disjoint i j e f ne lo hi lo' hi' h = ne (omega arith)

-- A window that is created when no range is left gets a tag whose range cannot be given back: the
-- flags are written out of bounds.
pub free_tag_range-exhausted :
    (ids : TagIds)
    → All (λ b. b ≡ true) ids
    → free_tag_range (mpi_tag_of (get_tag_range_id ids).0) (get_tag_range_id ids).1 ≡ out_of_bounds
unfolding free_tag_range mpi_tag_of
free_tag_range-exhausted ids full = elim (get_tag_range_id_cases ids) [
  | inl (k, lt, was, e) ↦ absurd (in_use ids k full was)
  | inr (_, e) ↦ rw e refl
]
  where
    in_use : (bs : TagIds) (k : ℕ) → All (λ b. b ≡ true) bs → ¬ (get_elem? bs k ≡ some false)
    in_use [] k h e = cc
    in_use (b ∷ bs) zero h e = ground arith
    in_use (b ∷ bs) (suc k) h e = in_use bs k h.1 e
