-- ===== src/Rma/Calls/Locks.antt =====
-- Epochs that overlap on one window.
use parcoach.Base.{ℕ, ◌≡◌, ap, ◌∙◌, inl, inr, some, arith, subst, sym}
use parcoach.Rma.Outcome.{Outcome, ok, terminated, ◌>>=◌}
use parcoach.Rma.Windows.{WinState, States, find, update}
use parcoach.Rma.Windows.Lookup.{visit-eq-ok, get_state-ok, find-update_self}
use parcoach.Rma.Epochs.{start_thread, init_comm_check_thread}
use parcoach.Rma.Epochs.Protocol.{IsConsistent, IsStarted, start_thread_cases}
use parcoach.Rma.Calls.{win_lock, win_start, win_post}

started_twice :
    (win : ℕ) (m m' : States) (s : WinState)
    → find win m ≡ some s
    → IsConsistent s
    → init_comm_check_thread win m ≡ ok m'
    → init_comm_check_thread win m' ≡ terminated
unfolding init_comm_check_thread
started_twice win m m' s there c h =
    let (s', t, there', started, e, _) = visit-eq-ok start_thread win m m' h in
    let same : s' ≡ s = ground arith in
    let began = subst (λ v. start_thread v ≡ ok t) same started in
    let again = subst (λ n. find win n ≡ some t) (sym e) (find-update_self win s t m there) in
    ap (λ (o : Outcome WinState). o >>= λ v. start_thread v >>= λ u. ok (update win u m'))
      (get_state-ok win m' t again)
    ∙ ap (λ (o : Outcome WinState). o >>= λ u. ok (update win u m')) (stops t began)
  where
    stops : (t : WinState) → start_thread s ≡ ok t → start_thread t ≡ terminated
    stops t began = elim (start_thread_cases s c) [
      | inl (_, stopped) ↦ absurd (ground arith)
      | inr (_, (u, started, r)) ↦
          let same : u ≡ t = ground arith in
          let r' = subst (IsStarted s) same r in
          elim (start_thread_cases t r'.consistent) [
            | inl (_, stopped) ↦ stopped
            | inr (off, _) ↦ cc (off, r'.running)
          ]
    ]

-- While an epoch is open on a window, opening another one on it terminates the program: a second
-- MPI_Win_lock, on whichever rank, and MPI_Win_start behind MPI_Win_post.
pub win_lock-twice :
    (win : ℕ) (m m' : States) (s : WinState)
    → find win m ≡ some s
    → IsConsistent s
    → ((win_lock win m ≡ ok m') → (win_lock win m' ≡ terminated))
      × ((win_post win m ≡ ok m') → (win_start win m' ≡ terminated))
unfolding win_lock win_post win_start
win_lock-twice win m m' s there c =
    (started_twice win m m' s there c, started_twice win m m' s there c)
