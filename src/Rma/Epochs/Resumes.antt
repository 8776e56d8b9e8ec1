-- ===== src/Rma/Epochs/Resumes.antt =====
-- What a barrier leaves of a window that is inside or outside of an epoch.
use parcoach.Base.{
  subst, ap, Bool-cases, ℕ, ◌+◌, ◌≡◌, ◌≢◌, refl, ◌∙◌, inl, inr, true, false, some, arith, [], ◌==◌,
}
use parcoach.Rma.Outcome.{ok, terminated, >>=-eq-ok, ◌>>=◌}
use parcoach.Rma.Windows.{WinState, States, find, get_state}
use parcoach.Rma.Windows.Lookup.{IsKeyed}
use parcoach.Rma.Epochs.{Arrivals, start_thread, stop_thread, init_comm_check_thread, barrier}
use parcoach.Rma.Epochs.Protocol.{
  IsClosed-IsConsistent, IsConsistent, IsClosed, start_thread_cases, stop_thread-ok,
}
use parcoach.Rma.Epochs.Barrier.{barrier_steps, clear_step, restart_step}

-- The state that a barrier leaves where it starts the thread.
pub record IsResumed (s u : WinState) : Type 0 where
  pub running : u.thread ≡ true
  pub active : u.active_epoch ≡ 1
  pub emptied : u.intervals ≡ []
  pub next_epoch : u.count_epoch ≡ s.count_epoch + 1
  pub synced : u.from_sync ≡ 1
  pub consistent : IsConsistent u

closed-IsConsistent :
    (s t : WinState) → IsConsistent s → IsClosed s t → IsConsistent (record t { from_sync = 1 })
closed-IsConsistent s t c closed = record {
  running = c'.running;
  idle = c'.idle;
  sorted = c'.sorted;
  sized = c'.sized;
}
  where
    c' : IsConsistent t
    c' = IsClosed-IsConsistent c closed

resumed :
    (s t u : WinState)
    → IsConsistent t
    → t.thread ≡ false
    → t.from_sync ≡ 1
    → t.count_epoch ≡ s.count_epoch
    → restart_step t ≡ ok u
    → IsResumed s u
resumed s t u c off synced same h = elim (start_thread_cases t c) [
  | inl (on, _) ↦ absurd (ground arith)
  | inr (_, (v, started, r)) ↦
      let go : restart_step t ≡ start_thread t = ground (arith, c.idle off) in
      let e : v ≡ u = ground arith in
      subst (IsResumed s) e (record {
        running = r.running;
        active = (r.consistent.running r.running).0;
        emptied = r.emptied;
        next_epoch = r.next_epoch ∙ ap (λ (n : ℕ). n + 1) same;
        synced = r.from_sync ∙ synced;
        consistent = r.consistent;
      })
]

-- The three cases of a window at a barrier.
pub data AtBarrier (s u : WinState) : Type 0 where
  -- Its epoch goes on, with an empty store and under the next number.
  inside : s.thread ≡ true → IsResumed s u → AtBarrier s u
  -- It is out of an epoch, and has never been cleared by a barrier: nothing changes.
  outside : s.thread ≡ false → s.from_sync ≢ 1 → u ≡ s → AtBarrier s u
  -- It is out of an epoch, and a barrier has cleared it in some earlier one: an epoch starts.
  reopened : s.thread ≡ false → s.from_sync ≡ 1 → IsResumed s u → AtBarrier s u

at_barrier :
    (e : ℕ → Arrivals) (k : ℕ) (s t u : WinState)
    → IsConsistent s
    → clear_step true e k s ≡ ok t
    → restart_step t ≡ ok u
    → AtBarrier s u
at_barrier e k s t u c clear restart = elim (Bool-cases s.thread) [
  | inl on ↦
      let active = (c.running on).0 in
      let go : (stop_thread true (e k) s >>= λ v. ok (record v { from_sync = 1 })) ≡ ok t =
        ground arith in
      let (v, stopped, same) = >>=-eq-ok (stop_thread true (e k) s) _ go in
      let closed = (stop_thread-ok true (e k) s v stopped).2 in
      let e' : record v { from_sync = 1 } ≡ t = ground arith in
      inside on (
        resumed s (record v { from_sync = 1 }) u (closed-IsConsistent s v c closed) closed.stopped
          refl closed.count_epoch (ground arith))
  | inr off ↦
      let idle = (c.idle off).0 in
      let same : t ≡ s = ground arith in
      elim (Bool-cases (s.from_sync == 1)) [
        | inl synced ↦
            let flag : s.from_sync ≡ 1 = ground arith in
            reopened off flag
              (resumed s s u c off flag refl (subst (λ v. restart_step v ≡ ok u) same restart))
        | inr unsynced ↦ outside off (ground arith) (ground arith)
      ]
]

-- When a barrier returns, every window whose epoch is open is in its next epoch, with an empty
-- store; a window that is out of an epoch is unchanged, or put into a new epoch if a barrier has
-- cleared it before.
pub barrier_cases :
    (e : ℕ → Arrivals) (states states' : States) (k : ℕ) (s : WinState)
    → IsKeyed states
    → barrier e states ≡ ok states'
    → find k states ≡ some s
    → IsConsistent s
    → (u : WinState) × (find k states' ≡ some u) × AtBarrier s u
barrier_cases e states states' k s keyed h there c =
    let (t, u, clear, restart, found) = barrier_steps e states states' keyed h k s there in
    (u, found, at_barrier e k s t u c clear restart)

-- A window that is out of an epoch, but has been cleared by a barrier in an earlier epoch, is put
-- back into an epoch by the next barrier, so that the start of its next epoch terminates the
-- program.
pub barrier-reopens :
    (e : ℕ → Arrivals) (states states' : States) (k : ℕ) (s : WinState)
    → IsKeyed states
    → barrier e states ≡ ok states'
    → find k states ≡ some s
    → IsConsistent s
    → s.thread ≡ false
    → s.from_sync ≡ 1
    → init_comm_check_thread k states' ≡ terminated
unfolding init_comm_check_thread get_state
barrier-reopens e states states' k s keyed h there c off synced =
    let (u, found, at) = barrier_cases e states states' k s keyed h there c in
    let again = reopened_again u at in ground arith
  where
    reopened_again : (u : WinState) → AtBarrier s u → start_thread u ≡ terminated
    reopened_again u (inside on _) = cc (off, on)
    reopened_again u (outside _ unsynced _) = absurd (unsynced synced)
    reopened_again u (reopened _ _ r) = elim (start_thread_cases u r.consistent) [
      | inl (_, again) ↦ again
      | inr (idle, _) ↦ cc (r.running, idle)
    ]
