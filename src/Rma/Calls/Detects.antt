-- ===== src/Rma/Calls/Detects.antt =====
-- A one-sided call and a local access to its buffer, in the same epoch.
use parcoach.Base.{
  set, ◌/◌, All, ◌*◌, ℕ, ◌+◌, ◌≤◌, ◌<◌, ◌≡◌, refl, sym, ap, ◌∙◌, subst, inl, inr, true, some, arith,
  [], ◌∷◌, ltb, In,
}
use parcoach.Rma.Interval.{
  u64_mod, Access, AccessType, DebugInfo, local_read, local_write, rma_read, rma_write,
  access_of_memory,
}
use parcoach.Rma.Interval.Bytes.{access_of_memory-IsValid, access_of_memory-bytes, Covers, IsValid}
use parcoach.Rma.Interval.Races.{Races, TypesRace}
use parcoach.Rma.Store.{emplace}
use parcoach.Rma.Store.Order.{IsSorted}
use parcoach.Rma.Store.Search.{IsMonotone}
use parcoach.Rma.Outcome.{ok}
use parcoach.Rma.Windows.{WinState, States, Message, find, save_interval_all_wins}
use parcoach.Rma.Windows.Lookup.{IsKeyed}
use parcoach.Rma.Windows.Loops.{for_each-handles}
use parcoach.Rma.Windows.Saves.{save-Races, HasOrderedStore, save_if_active-Acts}
use parcoach.Rma.Windows.Sends.{IsSent, update_on_comm_send-IsSent}
use parcoach.Rma.Calls.{Buffer, memory_of, put, get, store, load}

-- Where one access is alone in the store of an active window, saving a second one that races with
-- it in all windows does not return.
alone_aborts :
    (first second : Access) (win : ℕ) (states states' : States) (s : WinState)
    → IsKeyed states
    → find win states ≡ some s
    → s.intervals ≡ first ∷ []
    → ltb 0 s.active_epoch ≡ true
    → IsValid first.itv
    → IsValid second.itv
    → Races first second
    → ¬ (save_interval_all_wins second states ≡ ok states')
unfolding save_interval_all_wins
alone_aborts first second win states states' s keyed there alone active v w race h =
    let (t, stepped, _) =
      for_each-handles (save_if_active-Acts second) states states' keyed h win s there in
    let stops =
      (save-Races second s ordered w).1 first (subst (In first) (sym alone) (inl refl)) race in
    ground arith
  where
    ordered : HasOrderedStore s
    ordered = record {
      sorted = subst IsSorted (sym alone) (tt, tt);
      valid = subst (All (λ y. IsValid y.itv)) (sym alone) (v, tt);
      monotone = subst IsMonotone (sym alone) (tt, tt);
    }

-- The buffer has bytes, and neither their number nor their addresses wrap around.
pub record IsPlaced (b : Buffer) : Type 0 where
  pub positive : 0 < b.type_size * b.count
  pub fits : b.at + b.type_size * b.count < u64_mod

abbrev pub InBuffer : Buffer → ℕ → Type 0
InBuffer b x = (b.at ≤ x) × (x < b.at + b.type_size * b.count)

placed_size : (b : Buffer) → IsPlaced b → (memory_of b).size ≡ b.type_size * b.count
placed_size b p = omega (arith, p.fits)

-- A call that keeps a buffer busy, then a local access to a byte of it.
module _ (buffer : Buffer) (dbg dbg' : DebugInfo) (addr bits x : ℕ) (placed : IsPlaced buffer)
    (positive : 0 < bits / 8) (fits : addr + bits / 8 ≤ u64_mod) (busy : InBuffer buffer x)
    (touched : (addr ≤ x) × (x < addr + bits / 8)) where
  abbrev first : AccessType → Access
  first t = access_of_memory (memory_of buffer) t dbg

  abbrev second : AccessType → Access
  second t = access_of_memory (record { addr = addr; size = bits / 8 }) t dbg'

  first-IsValid : (t : AccessType) → IsValid (first t).itv
  first-IsValid t =
      access_of_memory-IsValid (memory_of buffer) t dbg
        (omega (arith, placed_size buffer placed, placed.positive))
        (omega (arith, placed_size buffer placed, placed.fits))

  race : (t u : AccessType) → TypesRace t u → Races (first t) (second u)
  unfolding access_of_memory
  race t u r = ((x, in_first, in_second), r)
    where
      in_first : Covers (first t).itv x
      in_first =
          (access_of_memory-bytes (memory_of buffer) t dbg x
              (omega (arith, placed_size buffer placed, placed.positive))
              (omega (arith, placed_size buffer placed, placed.fits))).1
            (omega (arith, placed_size buffer placed, busy))

      in_second : Covers (second u).itv x
      in_second =
          (access_of_memory-bytes (record { addr = addr; size = bits / 8 }) u dbg' x positive
              fits).1
            touched

  caught :
      (t u : AccessType) (target : Access) (rank win : ℕ) (states states' m : States)
      (msg : Message) (s : WinState)
      → IsKeyed states
      → find win states ≡ some s
      → s.intervals ≡ []
      → ltb 0 s.active_epoch ≡ true
      → IsSent (first t) target rank win s states states' msg
      → TypesRace t u
      → ¬ (save_interval_all_wins (second u) states' ≡ ok m)
  caught t u target rank win states states' m msg s keyed there fresh active sent r =
      alone_aborts (first t) (second u) win states' m
        (record s {
          intervals = emplace (first t) s.intervals;
          array = set s.array rank (sent.sent + 1);
        })
        (sent.keyed keyed) sent.stored (alone fresh) active (first-IsValid t)
        (access_of_memory-IsValid _ u dbg' positive fits) (race t u r)
    where
      alone : s.intervals ≡ [] → emplace (first t) s.intervals ≡ first t ∷ []
      alone e = ap (emplace (first t)) e ∙ unfold emplace in refl

  -- Let a local store touch a byte of the buffer of an MPI_Put, let neither wrap around and the
  -- store have at least one byte. If the MPI_Put has returned, in an active epoch of its window in
  -- which nothing had been recorded, the store never gets past the check.
  pub store-put :
      (target : Buffer) (rank win : ℕ) (states states' m : States) (msg : Message) (s : WinState)
      → IsKeyed states
      → find win states ≡ some s
      → s.intervals ≡ []
      → ltb 0 s.active_epoch ≡ true
      → put buffer target dbg rank win states ≡ ok (states', msg)
      → ¬ (store addr bits dbg' states' ≡ ok m)
  unfolding put store
  store-put target rank win states states' m msg s keyed there fresh active sent =
      caught rma_read local_write (access_of_memory (memory_of target) rma_write dbg) rank win
        states states' m msg s keyed there fresh active
        (update_on_comm_send-IsSent _ _ rank win states states' msg s there sent)
        (inl (inl refl), inr (inl refl))

  -- Let a local load touch a byte of the buffer of an MPI_Get, let neither wrap around and the load
  -- have at least one byte. If the MPI_Get has returned, in an active epoch of its window in which
  -- nothing had been recorded, the load never gets past the check.
  pub load-get :
      (target : Buffer) (rank win : ℕ) (states states' m : States) (msg : Message) (s : WinState)
      → IsKeyed states
      → find win states ≡ some s
      → s.intervals ≡ []
      → ltb 0 s.active_epoch ≡ true
      → get buffer target dbg rank win states ≡ ok (states', msg)
      → ¬ (load addr bits dbg' states' ≡ ok m)
  unfolding get load
  load-get target rank win states states' m msg s keyed there fresh active sent =
      caught rma_write local_read (access_of_memory (memory_of target) rma_read dbg) rank win states
        states' m msg s keyed there fresh active
        (update_on_comm_send-IsSent _ _ rank win states states' msg s there sent)
        (inl (inr refl), inl (inr refl))
