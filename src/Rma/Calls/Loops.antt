-- ===== src/Rma/Calls/Loops.antt =====
-- What the calls of a program that go through all windows keep of them: MPI_Barrier, loads and stores.
use parcoach.Base.{
  ◌&&◌, not, ℕ, ◌≡◌, refl, subst, inl, inr, Bool-cases, true, ◌==◌, ltb, ltb→lt, arith,
}
use parcoach.Rma.Interval.{Access}
use parcoach.Rma.Outcome.{ok, >>=-eq-ok}
use parcoach.Rma.Windows.{
  WinState, States, save, save_interval, is_active_epoch, handles, save_if_active,
  save_interval_all_wins,
}
use parcoach.Rma.Windows.Lookup.{IsKeyed, visit-IsKeyed}
use parcoach.Rma.Windows.Loops.{for_each-Keeps, for_each-IsKeyed}
use parcoach.Rma.Windows.Saves.{save_cases, save_step, save_if_active-Acts}
use parcoach.Rma.Epochs.{
  Arrivals, stop_thread, barrier, clear_if_active, restart_if_synced,
  clear_comm_check_thread_all_wins, init_comm_check_thread_all_wins,
}
use parcoach.Rma.Epochs.Barrier.{
  clear_if_active-IsKeyed, restart_if_synced-IsKeyed, restart-Acts, clear-Acts, restart_step,
  clear_step,
}
use parcoach.Rma.Epochs.Protocol.{IsConsistent}
use parcoach.Rma.Epochs.Steps.{Step-IsConsistent, starts, stops, saves, syncs}
use parcoach.Rma.Calls.Kept.{AreConsistent}

pub barrier-AreConsistent :
    (e : ℕ → Arrivals) (m m' : States) → barrier e m ≡ ok m' → AreConsistent m → AreConsistent m'
unfolding barrier clear_comm_check_thread_all_wins init_comm_check_thread_all_wins
barrier-AreConsistent e m m' h c =
    let (n, cleared, started) = >>=-eq-ok (clear_comm_check_thread_all_wins true e m) _ h in
    let keyed =
      for_each-IsKeyed (clear_if_active true e) (clear_if_active-IsKeyed true e) (handles m) m n
        c.keyed cleared in
    record {
      keyed =
          for_each-IsKeyed restart_if_synced restart_if_synced-IsKeyed (handles n) n m' keyed
            started;
      each =
          for_each-Keeps restart-Acts IsConsistent restart_keeps n m' keyed started (
            for_each-Keeps (clear-Acts true e) IsConsistent clear_keeps m n c.keyed cleared c.each);
    }
  where
    restart_keeps :
        (win : ℕ) (s t : WinState) → restart_step s ≡ ok t → IsConsistent s → IsConsistent t
    restart_keeps win s t h c = elim (Bool-cases (not (ltb 0 s.active_epoch) && s.from_sync == 1)) [
      | inl on ↦ Step-IsConsistent {s = s} {t = t} (starts (rw on at h)) c
      | inr off ↦ let same : s ≡ t = ground arith in subst IsConsistent same c
    ]

    clear_keeps :
        (win : ℕ) (s t : WinState)
        → clear_step true e win s ≡ ok t
        → IsConsistent s
        → IsConsistent t
    clear_keeps win s t h c = elim (Bool-cases (ltb 0 s.active_epoch)) [
      | inl on ↦
          let (u, stopped, rest) =
            >>=-eq-ok (stop_thread true (e win) s) (λ v. ok (record v { from_sync = 1 }))
              (rw on at h) in
          let same : record u { from_sync = 1 } ≡ t = ground arith in
          subst IsConsistent same (
            Step-IsConsistent (syncs refl)
              (Step-IsConsistent {s = s} {t = u} (stops true (e win) stopped) c))
      | inr off ↦ let same : s ≡ t = ground arith in subst IsConsistent same c
    ]

save_if_active-IsKeyed :
    (acc : Access) (win : ℕ) (m m' : States)
    → IsKeyed m
    → save_if_active acc win m ≡ ok m'
    → IsKeyed m'
unfolding save_if_active save_interval
save_if_active-IsKeyed acc win m m' keyed h =
    let (active, tested, rest) = >>=-eq-ok (is_active_epoch win m) _ h in
    elim (Bool-cases active) [
      | inl on ↦
          visit-IsKeyed (save acc) (λ s t e. ground (arith, save_cases acc s)) win m m' keyed
            (rw on at rest)
      | inr off ↦ let kept : m ≡ m' = ground arith in subst IsKeyed kept keyed
    ]

-- A load or a store.
pub save_all-AreConsistent :
    (acc : Access) (m m' : States)
    → save_interval_all_wins acc m ≡ ok m'
    → AreConsistent m
    → AreConsistent m'
unfolding save_interval_all_wins
save_all-AreConsistent acc m m' h c = record {
  keyed =
      for_each-IsKeyed (save_if_active acc) (save_if_active-IsKeyed acc) (handles m) m m' c.keyed h;
  each = for_each-Keeps (save_if_active-Acts acc) IsConsistent keeps m m' c.keyed h c.each;
}
  where
    keeps : (win : ℕ) (s t : WinState) → save_step acc s ≡ ok t → IsConsistent s → IsConsistent t
    keeps win s t h c = elim (Bool-cases (ltb 0 s.active_epoch)) [
      | inl on ↦ Step-IsConsistent {s = s} {t = t} (saves acc (ltb→lt _ _ on) (rw on at h)) c
      | inr off ↦ let same : s ≡ t = ground arith in subst IsConsistent same c
    ]
