-- ===== src/Rma/Calls/Program.antt =====
-- The calls of a program on its windows, in any order, with the rounds of the threads between them.

use parcoach.Base.{ℕ, ◌<◌, ◌≡◌, true, Option, none, some, List, []}
use parcoach.Rma.Interval.{DebugInfo}
use parcoach.Rma.Outcome.{ok}
use parcoach.Rma.Windows.{WinState, States, Message, find, update}
use parcoach.Rma.Thread.{Poll, polling, comm_check_thread}
use parcoach.Rma.Epochs.{Arrivals, barrier}
use parcoach.Rma.Calls.{
  Analyzer, Buffer, win_create, win_allocate, win_free, win_lock_all, win_lock, win_start, win_post,
  win_unlock_all, win_unlock, win_complete, win_wait, fence, put, get, accumulate, store, load,
}

-- The window has an open epoch, as MPI demands for a one-sided call.
abbrev pub HasEpoch : ℕ → States → Type 0
HasEpoch win m = (s : WinState) → find win m ≡ some s → 0 < s.active_epoch

-- One call that returns, or some rounds of the thread of a window.
pub data Call (m m' : States) : Type 0 where
  creates :
      (env : Option ℕ) (base size comm size_comm win disp_unit : ℕ) (a : Analyzer)
      → a.states ≡ m
      → find win m ≡ none
      → (win_create env base size comm size_comm win disp_unit a).states ≡ m'
      → Call m m'
  allocates :
      (env : Option ℕ) (baseptr allocated size comm size_comm win disp_unit : ℕ) (a : Analyzer)
      → a.states ≡ m
      → find win m ≡ none
      → (win_allocate env baseptr allocated size comm size_comm win disp_unit a).states ≡ m'
      → Call m m'
  frees :
      (e : Arrivals) (win : ℕ) (a a' : Analyzer)
      → a.states ≡ m
      → win_free e win a ≡ ok a'
      → a'.states ≡ m'
      → Call m m'
  locks_all : (win : ℕ) → win_lock_all win m ≡ ok m' → Call m m'
  locks : (win : ℕ) → win_lock win m ≡ ok m' → Call m m'
  starts_epoch : (win : ℕ) → win_start win m ≡ ok m' → Call m m'
  posts : (win : ℕ) → win_post win m ≡ ok m' → Call m m'
  unlocks_all : (e : Arrivals) (win : ℕ) → win_unlock_all e win m ≡ ok m' → Call m m'
  unlocks : (e : Arrivals) (win : ℕ) → win_unlock e win m ≡ ok m' → Call m m'
  completes : (e : Arrivals) (win : ℕ) → win_complete e win m ≡ ok m' → Call m m'
  waits : (e : Arrivals) (win : ℕ) → win_wait e win m ≡ ok m' → Call m m'
  passes_fence : (e : Arrivals) (win : ℕ) → fence e win m ≡ ok m' → Call m m'
  passes_barrier : (e : ℕ → Arrivals) → barrier e m ≡ ok m' → Call m m'
  puts :
      (origin target : Buffer) (dbg : DebugInfo) (rank win : ℕ) (msg : Message)
      → HasEpoch win m
      → put origin target dbg rank win m ≡ ok (m', msg)
      → Call m m'
  gets :
      (origin target : Buffer) (dbg : DebugInfo) (rank win : ℕ) (msg : Message)
      → HasEpoch win m
      → get origin target dbg rank win m ≡ ok (m', msg)
      → Call m m'
  accumulates :
      (origin target : Buffer) (dbg : DebugInfo) (rank win : ℕ) (msg : Message)
      → HasEpoch win m
      → accumulate origin target dbg rank win m ≡ ok (m', msg)
      → Call m m'
  stores : (addr bits : ℕ) (dbg : DebugInfo) → store addr bits dbg m ≡ ok m' → Call m m'
  loads : (addr bits : ℕ) (dbg : DebugInfo) → load addr bits dbg m ≡ ok m' → Call m m'
  thread_receives :
      (win : ℕ) (s t : WinState) (polls : List Poll)
      → find win m ≡ some s
      → s.thread ≡ true
      → comm_check_thread s polls ≡ polling t
      → m' ≡ update win t m
      → Call m m'

pub data Calls : States → Type 0 where
  none_yet : Calls []
  called : {m m' : States} → Calls m → Call m m' → Calls m'
