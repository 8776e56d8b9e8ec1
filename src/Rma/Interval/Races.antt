-- ===== src/Rma/Interval/Races.antt =====
-- When two accesses conflict.
use parcoach.Base.{ℕ, ◌≡◌, ◌↔◌, ◌⊎◌, true, arith}
use parcoach.Rma.Interval.{
  Access, AccessType, local_write, rma_read, rma_write, conflicts_with, intersects,
}
use parcoach.Rma.Interval.Bytes.{IsValid, Covers, intersects_iff}

abbrev pub IsRemote : AccessType → Type 0
IsRemote t = (t ≡ rma_read) ⊎ (t ≡ rma_write)

abbrev pub IsWrite : AccessType → Type 0
IsWrite t = (t ≡ local_write) ⊎ (t ≡ rma_write)

-- One of the two is remote, and one of the two writes.
abbrev pub TypesRace : AccessType → AccessType → Type 0
TypesRace s t = (IsRemote s ⊎ IsRemote t) × (IsWrite s ⊎ IsWrite t)

-- The accesses touch a common address, in a way that races.
abbrev pub Races : Access → Access → Type 0
Races a b = ((x : ℕ) × Covers a.itv x × Covers b.itv x) × TypesRace a.type b.type

pub conflicts_with_iff :
    (a b : Access)
    → (conflicts_with a b ≡ true) ↔ ((intersects a.itv b.itv ≡ true) × TypesRace a.type b.type)
unfolding conflicts_with
conflicts_with_iff a b = ground arith

-- Two accesses that are not empty conflict exactly when they touch a common address, one of them
-- at least is remote and one of them at least writes.
pub conflicts_with-Races :
    (a b : Access) → IsValid a.itv → IsValid b.itv → (conflicts_with a b ≡ true) ↔ Races a b
conflicts_with-Races a b va vb =
    let (shared, meet) = intersects_iff a.itv b.itv va vb in
    let (to, of) = conflicts_with_iff a b in
    (λ h. (shared (to h).0, (to h).1), λ (h, r). of (meet h, r))
