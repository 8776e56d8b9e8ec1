-- ===== src/Rma/Tags.antt =====
-- src/instrumentation/rma/rma_analyzer.cpp, rma_analyzer_get_tag_range_id and
-- rma_analyzer_free_tag_range: each window has a range of message tags, one for each epoch.
pub mod Ranges
pub mod Messages
use parcoach.Base.{
  ℕ, suc, ◌+◌, ◌-◌, ◌*◌, ◌/◌, Bool, true, false, Option, none, some, List, [], ◌∷◌, ltb, length,
  if◌then◌else◌, set,
}
use parcoach.Rma.Outcome.{Outcome, ok, out_of_bounds}
use mathlib.Core.Option

-- RMA_ANALYZER_BASE_MPI_TAG, RMA_ANALYZER_MAX_EPOCH_NUMBER, RMA_ANALYZER_MAX_WIN
abbrev pub base_mpi_tag : ℕ
base_mpi_tag = 65535

abbrev pub max_epoch_number : ℕ
max_epoch_number = 1024

abbrev pub max_win : ℕ
max_win = 32

-- win_mpi_tag_id: which ranges are in use.
abbrev pub TagIds : Type 0
TagIds = List Bool

-- The loop of rma_analyzer_get_tag_range_id, from index i on. The result is the index, none for
-- -1, and the flags as they are left.
unfoldable pub get_tag_range_from : ℕ → TagIds → Option ℕ × TagIds
get_tag_range_from i [] = (none, [])
get_tag_range_from i (false ∷ ids) = (some i, true ∷ ids)
get_tag_range_from i (true ∷ ids) =
    let (found, ids') = get_tag_range_from (suc i) ids in (found, true ∷ ids')

unfoldable pub get_tag_range_id : TagIds → Option ℕ × TagIds
unfolding get_tag_range_from
get_tag_range_id ids = get_tag_range_from 0 ids

-- BASE + MAX_EPOCH_NUMBER * tag_id, where tag_id is -1 if no range was left.
unfoldable pub mpi_tag_of : Option ℕ → ℕ
mpi_tag_of none = base_mpi_tag - max_epoch_number
mpi_tag_of (some i) = base_mpi_tag + max_epoch_number * i

write_free : TagIds → ℕ → Outcome TagIds
write_free ids i = if ltb i (length ids) then ok (set ids i false) else out_of_bounds

-- int id = (tag_id - BASE) / MAX_EPOCH_NUMBER; win_mpi_tag_id[id] = 0. The division rounds
-- towards zero, and a negative index is out of bounds.
unfoldable pub free_tag_range : ℕ → TagIds → Outcome TagIds
unfolding write_free
free_tag_range tag ids =
    if ltb tag base_mpi_tag
    then if ltb (base_mpi_tag - tag) max_epoch_number then write_free ids 0 else out_of_bounds
    else write_free ids ((tag - base_mpi_tag) / max_epoch_number)
