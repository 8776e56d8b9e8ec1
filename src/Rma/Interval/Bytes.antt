-- ===== src/Rma/Interval/Bytes.antt =====
-- Intervals as sets of addresses.
use parcoach.Base.{ℕ, ◌+◌, ◌-◌, ◌*◌, ◌≤◌, ◌<◌, ◌≡◌, ◌↔◌, true, inl, inr, ltb, Bool-cases, arith}
use parcoach.Rma.Interval.{
  Interval, MemoryAccess, AccessType, DebugInfo, u64_mod, intersects, fix_for_window,
  access_of_memory,
}

-- The address lies in the interval.
abbrev pub Covers : Interval → ℕ → Type 0
Covers i a = (i.low ≤ a) × (a ≤ i.up)

-- The interval is not empty and its bounds are 64-bit words.
pub record IsValid (i : Interval) : Type 0 where
  pub ordered : i.low ≤ i.up
  pub word : i.up < u64_mod

common :
    (i j : Interval)
    → IsValid i
    → IsValid j
    → intersects i j ≡ true
    → (a : ℕ) × Covers i a × Covers j a
common i j vi vj h = elim (Bool-cases (ltb i.low j.low)) [
  | inl lt ↦ (j.low, (ground arith, ground arith), ground arith)
  | inr ge ↦ (i.low, ground arith, (ground arith, ground arith))
]

-- Two intervals that are not empty intersect exactly when they have an address in common.
pub intersects_iff :
    (i j : Interval)
    → IsValid i
    → IsValid j
    → (intersects i j ≡ true) ↔ ((a : ℕ) × Covers i a × Covers j a)
intersects_iff i j vi vj = (common i j vi vj, λ (a, p, q). ground arith)

-- An access of a positive size that ends below 2 ^ 64 covers exactly its bytes.
pub access_of_memory-bytes :
    (acc : MemoryAccess) (t : AccessType) (dbg : DebugInfo) (a : ℕ)
    → 0 < acc.size
    → acc.addr + acc.size ≤ u64_mod
    → Covers (access_of_memory acc t dbg).itv a ↔ ((acc.addr ≤ a) × (a < acc.addr + acc.size))
unfolding access_of_memory
access_of_memory-bytes acc t dbg a pos fits = ground arith

pub access_of_memory-IsValid :
    (acc : MemoryAccess) (t : AccessType) (dbg : DebugInfo)
    → 0 < acc.size
    → acc.addr + acc.size ≤ u64_mod
    → IsValid (access_of_memory acc t dbg).itv
unfolding access_of_memory
access_of_memory-IsValid acc t dbg pos fits = record { ordered = omega arith; word = omega arith }

-- Where nothing wraps around, an interval in the window goes to the addresses of its units: the
-- base plus the displacement of the first unit, with as many bytes as before.
pub fix_for_window-bytes :
    (i : Interval) (base unit a : ℕ)
    → IsValid i
    → base + i.low * unit + (i.up - i.low) < u64_mod
    → Covers (fix_for_window i base unit) a
      ↔ ((base + i.low * unit ≤ a) × (a ≤ base + i.low * unit + (i.up - i.low)))
unfolding fix_for_window
fix_for_window-bytes i base unit a v fits = ground arith
