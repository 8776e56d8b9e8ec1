-- ===== src/Rma/Calls/Life.antt =====
-- The life of a window, from its creation on.
use Prim.Native.String.{String}
use parcoach.Rma.Interval.{Access, u64_mod}
use parcoach.Rma.Interval.Bytes.{IsValid, Covers, fix_for_window-bytes}
use parcoach.Rma.Thread.{received}
use parcoach.Base.{
  if◌then◌else◌, false, ◌+◌, ◌*◌, ◌-◌, ◌≤◌, ◌<◌, ◌↔◌, ap, ◌∙◌, ℕ, ◌≡◌, refl, Option, none, some,
  arith, length-replicate,
}
use parcoach.Rma.Outcome.{◌>>=◌, Outcome, ok, terminated}
use parcoach.Rma.Windows.{WinState, find, insert, erase}
use parcoach.Rma.Windows.Lookup.{get_state-ok, IsKeyed, find-insert, find-erase, insert-IsKeyed}
use parcoach.Rma.Tags.{TagIds, mpi_tag_of, get_tag_range_id, free_tag_range}
use parcoach.Rma.Tags.Ranges.{free_tag_range-get}
use parcoach.Rma.Epochs.Protocol.{IsConsistent}
use parcoach.Rma.Calls.{win_allocate, Analyzer, new_state, start, stop}

pub new_state-IsConsistent :
    (base size comm size_comm win disp_unit tag : ℕ)
    → IsConsistent (new_state base size comm size_comm win disp_unit tag)
unfolding new_state
new_state-IsConsistent base size comm size_comm win disp_unit tag = record {
  running = λ e. cc;
  idle = λ _. (refl, refl, refl);
  sorted = tt;
  sized = length-replicate size_comm 0;
}

-- The end of stop, on the state that has been found.
abbrev erased : ℕ → Analyzer → WinState → TagIds → Outcome Analyzer
erased win a s ids =
    if s.thread
    then terminated
    else ok (record a { states = erase win a.states; win_mpi_tag_id = ids })

stop_value :
    (win : ℕ) (a : Analyzer) (s : WinState) (ids : TagIds)
    → find win a.states ≡ some s
    → free_tag_range s.mpi_tag a.win_mpi_tag_id ≡ ok ids
    → stop win a ≡ erased win a s ids
unfolding stop
stop_value win a s ids there freed =
    ap
      (λ (o : Outcome WinState).
        o >>= λ t. free_tag_range t.mpi_tag a.win_mpi_tag_id >>= λ js. erased win a t js)
      (get_state-ok win a.states s there)
    ∙ ap (λ (o : Outcome TagIds). o >>= λ js. erased win a s js) freed

stop-ok :
    (win : ℕ) (a : Analyzer) (s : WinState) (ids : TagIds)
    → find win a.states ≡ some s
    → s.thread ≡ false
    → free_tag_range s.mpi_tag a.win_mpi_tag_id ≡ ok ids
    → stop win a ≡ ok (record a { states = erase win a.states; win_mpi_tag_id = ids })
stop-ok win a s ids there off freed = stop_value win a s ids there freed ∙ rw off refl

-- Creating a window under a new handle while a range of tags is left, and freeing it, gives the
-- range back and leaves all other windows as they were.
pub stop-start :
    (env : Option ℕ) (base size comm size_comm win disp_unit i : ℕ) (a : Analyzer)
    → IsKeyed a.states
    → find win a.states ≡ none
    → (get_tag_range_id a.win_mpi_tag_id).0 ≡ some i
    → (b : Analyzer) × (stop win (start env base size comm size_comm win disp_unit a) ≡ ok b)
      × (b.win_mpi_tag_id ≡ a.win_mpi_tag_id)
      × ((k : ℕ) → find k b.states ≡ find k a.states)
unfolding start new_state
stop-start env base size comm size_comm win disp_unit i a keyed fresh left = (
  record (start env base size comm size_comm win disp_unit a) {
    states = erase win (insert win s a.states);
    win_mpi_tag_id = a.win_mpi_tag_id;
  },
  stop-ok win (start env base size comm size_comm win disp_unit a) s a.win_mpi_tag_id there refl
      freed,
  refl,
  λ k. ground (
    arith,
    find-erase k win (insert win s a.states) (insert-IsKeyed win s a.states refl keyed),
    find-insert k win s a.states fresh,
  ),
)
  where
    s : WinState
    s =
        new_state base size comm size_comm win disp_unit
          (mpi_tag_of (get_tag_range_id a.win_mpi_tag_id).0)

    there : find win (insert win s a.states) ≡ some s
    there = ground (arith, find-insert win win s a.states fresh)

    freed : free_tag_range s.mpi_tag (get_tag_range_id a.win_mpi_tag_id).1 ≡ ok a.win_mpi_tag_id
    freed =
        ap (λ o. free_tag_range (mpi_tag_of o) (get_tag_range_id a.win_mpi_tag_id).1) left
        ∙ free_tag_range-get a.win_mpi_tag_id (get_tag_range_id a.win_mpi_tag_id).1 i (ground arith)

-- A window whose memory is allocated by MPI has as its base the address at which the base is
-- stored, wherever the memory is: an access that comes for a displacement into the window is
-- recorded at that address.
pub win_allocate-misplaced :
    (env : Option ℕ) (baseptr allocated size comm size_comm win disp_unit : ℕ) (a : Analyzer)
    (acc : Access) (name : String) (x : ℕ)
    → find win a.states ≡ none
    → IsValid acc.itv
    → baseptr + acc.itv.low * disp_unit + (acc.itv.up - acc.itv.low) < u64_mod
    → (s : WinState) × (find win
          (win_allocate env baseptr allocated size comm size_comm win disp_unit a).states
        ≡ some s)
      × (Covers (received s acc name).itv x ↔ (
          (baseptr + acc.itv.low * disp_unit ≤ x)
          × (x ≤ baseptr + acc.itv.low * disp_unit + (acc.itv.up - acc.itv.low))))
unfolding win_allocate new_state received
win_allocate-misplaced env baseptr allocated size comm size_comm win disp_unit a acc name x fresh v
      fits =
    (
      new_state baseptr size comm size_comm win disp_unit
          (mpi_tag_of (get_tag_range_id a.win_mpi_tag_id).0),
      ground (
        arith,
        find-insert win win
            (new_state baseptr size comm size_comm win disp_unit
              (mpi_tag_of (get_tag_range_id a.win_mpi_tag_id).0))
            a.states fresh,
      ),
      fix_for_window-bytes acc.itv baseptr disp_unit x v fits,
    )
