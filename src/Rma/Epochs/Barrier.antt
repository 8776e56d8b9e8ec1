-- ===== src/Rma/Epochs/Barrier.antt =====
-- A barrier, seen from one window.
use parcoach.Base.{
  ap, sym, if_true, if_false, ==_iff, subst, ℕ, ◌≡◌, refl, ◌∙◌, inl, inr, Bool, true, not, ◌&&◌,
  ◌==◌, ltb, some, arith, if◌then◌else◌, Bool-cases,
}
use parcoach.Rma.Outcome.{Outcome, ok, >>=-eq-ok, ◌>>=◌}
use parcoach.Rma.Windows.{WinState, States, find, get_state, is_active_epoch}
use parcoach.Rma.Windows.Lookup.{visit-IsKeyed, get_state-eq-ok, visit-eq-ok, IsKeyed}
use parcoach.Rma.Windows.Loops.{for_each-IsKeyed, Acts, for_each-handles}
use parcoach.Rma.Epochs.Protocol.{stop_thread-ok}
use parcoach.Rma.Epochs.{
  handles, barrier, clear_array, set_from_sync, Arrivals, start_thread, stop_thread,
  init_comm_check_thread, clear_comm_check_thread, restart_if_synced, clear_if_active,
  init_comm_check_thread_all_wins, clear_comm_check_thread_all_wins,
}

pub init-Acts : Acts init_comm_check_thread (λ _. start_thread)
unfolding init_comm_check_thread
init-Acts win states states' h =
    let (s, t, there, started, _, found) = visit-eq-ok start_thread win states states' h in
    (s, t, there, started, found)

unchanged :
    (win : ℕ) (states : States) (s : WinState)
    → find win states ≡ some s
    → (k : ℕ) → find k states ≡ (if win == k then some s else find k states)
unchanged win states s there k = ground arith

abbrev pub restart_step : WinState → Outcome WinState
restart_step s = if not (ltb 0 s.active_epoch) && s.from_sync == 1 then start_thread s else ok s

active_of :
    (win : ℕ) (states : States) (active : Bool)
    → is_active_epoch win states ≡ ok active
    → (s : WinState) × (find win states ≡ some s) × (ltb 0 s.active_epoch ≡ active)
unfolding is_active_epoch
active_of win states active h =
    let (s, got, same) = >>=-eq-ok (get_state win states) _ h in
    (s, get_state-eq-ok win states s got, ground arith)

pub restart-Acts : Acts restart_if_synced (λ _. restart_step)
unfolding restart_if_synced
restart-Acts win states states' h =
    let (active, tested, rest) = >>=-eq-ok (is_active_epoch win states) _ h in
    let (s', got, rest') = >>=-eq-ok (get_state win states) _ rest in
    let (s, there, test) = active_of win states active tested in
    let same : s' ≡ s = ground (arith, get_state-eq-ok win states s' got) in
    elim (Bool-cases (not (ltb 0 s.active_epoch) && s.from_sync == 1)) [
      | inl go ↦
          let (v, t, there', started, found) = init-Acts win states states' (ground arith) in
          let same' : v ≡ s = ground arith in
          (s, t, there, if_true _ _ go (subst (λ v. start_thread v ≡ ok t) same' started), found)
      | inr stay ↦
          let kept : states' ≡ states = ground arith in
          (s, s, there, if_false _ _ stay refl, λ k. rw kept (unchanged win states s there k))
    ]

abbrev pub clear_step : Bool → (ℕ → Arrivals) → ℕ → WinState → Outcome WinState
clear_step do_reduce e win s =
    if ltb 0 s.active_epoch
    then (stop_thread do_reduce (e win) s >>= λ t. ok (record t { from_sync = 1 }))
    else ok s

pub clear-Acts :
    (do_reduce : Bool) (e : ℕ → Arrivals)
    → Acts (clear_if_active do_reduce e) (clear_step do_reduce e)
unfolding clear_if_active clear_comm_check_thread set_from_sync
clear-Acts do_reduce e win states states' h =
    let (active, tested, rest) = >>=-eq-ok (is_active_epoch win states) _ h in
    let (s, there, test) = active_of win states active tested in
    elim (Bool-cases (ltb 0 s.active_epoch)) [
      | inl on ↦
          let (m, cleared, synced) =
            >>=-eq-ok (clear_comm_check_thread do_reduce (e win) win states) (set_from_sync win)
              (ground arith) in
          let (s', t, there', stopped, _, found) =
            visit-eq-ok (stop_thread do_reduce (e win)) win states m cleared in
          let (t', u, there'', flagged, _, found') =
            visit-eq-ok (λ (v : WinState). ok (record v { from_sync = 1 })) win m states' synced in
          let same : s' ≡ s = ground arith in
          let same' : t' ≡ t = ground (arith, found win, ==_iff win win) in
          (
            s,
            record t { from_sync = 1 },
            there,
            if_true _ _ on (synced_step s' s t same stopped),
            λ k. ground (arith, found' k, found k),
          )
      | inr off ↦
          let kept : states' ≡ states = ground arith in
          (s, s, there, if_false _ _ off refl, λ k. rw kept (unchanged win states s there k))
    ]
  where
    synced_step :
        (s' s t : WinState)
        → s' ≡ s
        → stop_thread do_reduce (e win) s' ≡ ok t
        → (stop_thread do_reduce (e win) s >>= λ (v : WinState). ok (record v { from_sync = 1 }))
          ≡ ok (record t { from_sync = 1 })
    synced_step s' s t same stopped =
        ap (λ (o : Outcome WinState). o >>= λ (v : WinState). ok (record v { from_sync = 1 }))
          (ap (stop_thread do_reduce (e win)) (sym same) ∙ stopped)

pub start_thread-state_win : (s t : WinState) → start_thread s ≡ ok t → t.state_win ≡ s.state_win
unfolding start_thread
start_thread-state_win s t h =
    let (zeros, _, rest) = >>=-eq-ok (clear_array s.size_comm s.array) _ h in ground arith

pub stop_thread-state_win :
    (do_reduce : Bool) (e : Arrivals) (s t : WinState)
    → stop_thread do_reduce e s ≡ ok t
    → t.state_win ≡ s.state_win
stop_thread-state_win do_reduce e s t h = (stop_thread-ok do_reduce e s t h).2.state_win

pub clear_if_active-IsKeyed :
    (do_reduce : Bool) (e : ℕ → Arrivals) (win : ℕ) (m m' : States)
    → IsKeyed m
    → clear_if_active do_reduce e win m ≡ ok m'
    → IsKeyed m'
unfolding clear_if_active clear_comm_check_thread set_from_sync
clear_if_active-IsKeyed do_reduce e win m m' keyed h =
    let (active, tested, rest) = >>=-eq-ok (is_active_epoch win m) _ h in
    elim (Bool-cases active) [
      | inl on ↦
          let (n, cleared, synced) =
            >>=-eq-ok (clear_comm_check_thread do_reduce (e win) win m) (set_from_sync win)
              (ground arith) in
          visit-IsKeyed (λ (v : WinState). ok (record v { from_sync = 1 })) (λ s t q. ground arith)
            win n m'
            (visit-IsKeyed (stop_thread do_reduce (e win)) (stop_thread-state_win do_reduce (e win))
              win m n keyed cleared)
            synced
      | inr off ↦ let kept : m ≡ m' = ground arith in subst IsKeyed kept keyed
    ]

pub restart_if_synced-IsKeyed :
    (win : ℕ) (m m' : States) → IsKeyed m → restart_if_synced win m ≡ ok m' → IsKeyed m'
unfolding restart_if_synced init_comm_check_thread
restart_if_synced-IsKeyed win m m' keyed h =
    let (active, tested, rest) = >>=-eq-ok (is_active_epoch win m) _ h in
    let (s, got, rest') = >>=-eq-ok (get_state win m) _ rest in
    elim (Bool-cases (not active && s.from_sync == 1)) [
      | inl on ↦ visit-IsKeyed start_thread start_thread-state_win win m m' keyed (ground arith)
      | inr off ↦ let kept : m ≡ m' = ground arith in subst IsKeyed kept keyed
    ]

-- When a barrier returns, each window has first been cleared, if it was in an epoch, and then
-- started again, if it is out of an epoch and has been cleared by a barrier at any time before.
pub barrier_steps :
    (e : ℕ → Arrivals) (states states' : States)
    → IsKeyed states
    → barrier e states ≡ ok states'
    → (k : ℕ) (s : WinState) → find k states ≡ some s
    → (t u : WinState) × (clear_step true e k s ≡ ok t)
      × (restart_step t ≡ ok u)
      × (find k states' ≡ some u)
unfolding barrier clear_comm_check_thread_all_wins init_comm_check_thread_all_wins
barrier_steps e states states' keyed h k s there =
    let (m, cleared, started) = >>=-eq-ok (clear_comm_check_thread_all_wins true e states) _ h in
    let keyed' =
      for_each-IsKeyed (clear_if_active true e) (clear_if_active-IsKeyed true e) (handles states)
        states m keyed cleared in
    let (t, clear, there') =
      for_each-handles (clear-Acts true e) states m keyed cleared k s there in
    let (u, restart, there'') = for_each-handles restart-Acts m states' keyed' started k t there' in
    (t, u, clear, restart, there'')
