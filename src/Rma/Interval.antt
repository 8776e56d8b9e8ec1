-- ===== src/Rma/Interval.antt =====
-- src/instrumentation/rma/Interval.h: intervals of addresses, memory accesses and their conflicts.
-- Addresses are uint64_t, so sums, products and differences are taken modulo 2 ^ 64.
pub mod Bytes
pub mod Races
use Prim.Native.String.{String}
use parcoach.Base.{
  ℕ, ◌+◌, ◌-◌, ◌*◌, ◌%◌, ◌^◌, Bool, true, false, not, ◌&&◌, ◌||◌, bit_or, ltb, ◌==◌, if◌then◌else◌,
}

abbrev pub u64_mod : ℕ
u64_mod = 2 ^ 64

pub data AccessType : Type 0 where
  local_read local_write rma_read rma_write : AccessType

-- The enumerators' values.
abbrev pub type_code : AccessType → ℕ
type_code local_read = 0
type_code local_write = 1
type_code rma_read = 2
type_code rma_write = 3

-- Both bounds belong to the interval.
pub record Interval : Type 0 where
  pub low : ℕ
  pub up : ℕ

unfoldable pub fix_for_window : Interval → ℕ → ℕ → Interval
fix_for_window i base_addr disp_unit =
    let size = (i.up + u64_mod - i.low) % u64_mod in
    let low = (i.low * disp_unit % u64_mod + base_addr) % u64_mod in
    record { low = low; up = (low + size) % u64_mod }

-- std::tie(Low, Up) < std::tie(Other.Low, Other.Up)
abbrev pub interval_lt : Interval → Interval → Bool
interval_lt i j = ltb i.low j.low || (i.low == j.low && ltb i.up j.up)

abbrev pub intersects : Interval → Interval → Bool
intersects i j = not (ltb j.up i.low || ltb i.up j.low)

pub record MemoryAccess : Type 0 where
  pub addr : ℕ
  pub size : ℕ

pub record DebugInfo : Type 0 where
  pub line : ℕ
  pub filename : String

pub record Access : Type 0 where
  pub itv : Interval
  pub type : AccessType
  pub dbg : DebugInfo

-- The constructor that takes a MemoryAccess.
unfoldable pub access_of_memory : MemoryAccess → AccessType → DebugInfo → Access
access_of_memory acc t dbg = record {
  itv = record { low = acc.addr; up = ((acc.addr + acc.size) % u64_mod + u64_mod - 1) % u64_mod };
  type = t;
  dbg = dbg;
}

unfoldable pub conflicts_with : Access → Access → Bool
conflicts_with a b =
    if not (intersects a.itv b.itv)
    then false
    else bit_or (type_code a.type) (type_code b.type) == type_code rma_write

-- AccessComp
abbrev pub access_lt : Access → Access → Bool
access_lt a b = interval_lt a.itv b.itv
