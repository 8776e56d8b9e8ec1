-- ===== src/Rma/Calls/Kept.antt =====
-- What the calls of a program on one window keep of all windows.
use parcoach.Base.{
  none, ℕ, ◌+◌, ◌≡◌, refl, ap, sym, ◌∙◌, subst, inl, inr, Bool, Bool-cases, true, false, some, set,
  ◌==◌, ==_iff, ltb, if◌then◌else◌, arith,
}
use parcoach.Rma.Interval.{Access}
use parcoach.Rma.Store.{emplace}
use parcoach.Rma.Store.Order.{emplace-IsSorted}
use parcoach.Rma.Outcome.{Outcome, ok, ◌>>=◌, >>=-eq-ok}
use parcoach.Rma.Windows.{
  WinState, States, Message, find, update, insert, erase, get_state, update_on_comm_send,
}
use parcoach.Rma.Windows.Lookup.{
  IsKeyed, visit-eq-ok, visit-IsKeyed, get_state-eq-ok, find-update, update-IsKeyed, find-handle,
  find-insert, insert-IsKeyed, find-erase, erase-IsKeyed,
}
use parcoach.Rma.Windows.Sends.{update_on_comm_send-IsSent}
use parcoach.Rma.Tags.{free_tag_range}
use parcoach.Rma.Epochs.{
  Arrivals, start_thread, stop_thread, init_comm_check_thread, clear_comm_check_thread,
}
use parcoach.Rma.Epochs.Barrier.{start_thread-state_win, stop_thread-state_win}
use parcoach.Rma.Epochs.Protocol.{IsConsistent}
use parcoach.Rma.Epochs.Steps.{
  stored-IsConsistent, active_thread, Step, Step-IsConsistent, starts, stops, sends, fences,
}
use parcoach.Rma.Calls.{Analyzer, win_free, stop, fence}
use parcoach.Rma.Calls.Program.{HasEpoch}

-- Every window is filed under its handle, and in each a thread runs exactly during an epoch, the store
-- is sorted, and it is empty between epochs.
pub record AreConsistent (m : States) : Type 0 where
  pub keyed : IsKeyed m
  pub each : (k : ℕ) (s : WinState) → find k m ≡ some s → IsConsistent s

visit-AreConsistent :
    (f : WinState → Outcome WinState)
    → ((s t : WinState) → f s ≡ ok t → t.state_win ≡ s.state_win)
    → ((s t : WinState) → f s ≡ ok t → IsConsistent s → IsConsistent t)
    → (win : ℕ) (m m' : States)
    → (get_state win m >>= λ s. f s >>= λ t. ok (update win t m)) ≡ ok m'
    → AreConsistent m
    → AreConsistent m'
visit-AreConsistent f handle keeps win m m' h c =
    let (s, t, there, done, _, found) = visit-eq-ok f win m m' h in
    record {
      keyed = visit-IsKeyed f handle win m m' c.keyed h;
      each = λ k u e. elim (Bool-cases (win == k)) [
        | inl same ↦
            let at : t ≡ u = ground (arith, found k) in
            subst IsConsistent at (keeps s t done (c.each win s there))
        | inr other ↦ c.each k u (ground (arith, found k))
      ];
    }

pub begin-AreConsistent :
    (win : ℕ) (m m' : States)
    → init_comm_check_thread win m ≡ ok m'
    → AreConsistent m
    → AreConsistent m'
unfolding init_comm_check_thread
begin-AreConsistent win m m' h c =
    visit-AreConsistent start_thread start_thread-state_win
      (λ s t e. Step-IsConsistent {s = s} {t = t} (starts e)) win m m' h c

pub end-AreConsistent :
    (do_reduce : Bool) (e : Arrivals) (win : ℕ) (m m' : States)
    → clear_comm_check_thread do_reduce e win m ≡ ok m'
    → AreConsistent m
    → AreConsistent m'
unfolding clear_comm_check_thread
end-AreConsistent do_reduce e win m m' h c =
    visit-AreConsistent (stop_thread do_reduce e) (stop_thread-state_win do_reduce e)
      (λ s t h. Step-IsConsistent {s = s} {t = t} (stops do_reduce e h)) win m m' h c

-- Writing a state of the same window back.
pub update-AreConsistent :
    (win : ℕ) (s t : WinState) (m : States)
    → find win m ≡ some s
    → t.state_win ≡ s.state_win
    → Step s t
    → AreConsistent m
    → AreConsistent (update win t m)
update-AreConsistent win s t m there handle step c = record {
  keyed = update-IsKeyed win t m (handle ∙ find-handle win m s c.keyed there) c.keyed;
  each = λ k u e. elim (Bool-cases (win == k)) [
    | inl same ↦
        let at : t ≡ u = ground (arith, find-update k win t m, ==_iff win k) in
        subst IsConsistent at (Step-IsConsistent step (c.each win s there))
    | inr other ↦ c.each k u (ground (arith, find-update k win t m))
  ];
}

pub insert-AreConsistent :
    (win : ℕ) (s : WinState) (m : States)
    → find win m ≡ none
    → s.state_win ≡ win
    → IsConsistent s
    → AreConsistent m
    → AreConsistent (insert win s m)
insert-AreConsistent win s m fresh handle consistent c = record {
  keyed = insert-IsKeyed win s m handle c.keyed;
  each = λ k u e. elim (Bool-cases (win == k)) [
    | inl same ↦
        let at : s ≡ u = ground (arith, find-insert k win s m fresh) in
        subst IsConsistent at consistent
    | inr other ↦ c.each k u (ground (arith, find-insert k win s m fresh))
  ];
}

pub erase-AreConsistent : (win : ℕ) (m : States) → AreConsistent m → AreConsistent (erase win m)
erase-AreConsistent win m c = record {
  keyed = erase-IsKeyed win m c.keyed;
  each = λ k u e. elim (Bool-cases (win == k)) [
    | inl same ↦ absurd (ground (arith, find-erase k win m c.keyed))
    | inr other ↦ c.each k u (ground (arith, find-erase k win m c.keyed))
  ];
}

pub fence-AreConsistent :
    (e : Arrivals) (win : ℕ) (m m' : States)
    → fence e win m ≡ ok m'
    → AreConsistent m
    → AreConsistent m'
unfolding fence
fence-AreConsistent e win m m' h c =
    let (s, got, rest) = >>=-eq-ok (get_state win m) _ h in
    let (n, cleared, rest') =
      >>=-eq-ok (if ltb 0 s.count_fence then clear_comm_check_thread true e win m else ok m) _
        rest in
    let (t, got', begun) = >>=-eq-ok (get_state win n) _ rest' in
    let c' : AreConsistent n = elim (Bool-cases (ltb 0 s.count_fence)) [
      | inl later ↦ end-AreConsistent true e win m n (rw later at cleared) c
      | inr first ↦ let same : m ≡ n = ground arith in subst AreConsistent same c
    ] in
    begin-AreConsistent win _ m' begun
      (update-AreConsistent win t _ n (get_state-eq-ok win n t got') refl (fences refl) c')

pub free-AreConsistent :
    (e : Arrivals) (win : ℕ) (a a' : Analyzer)
    → win_free e win a ≡ ok a'
    → AreConsistent a.states
    → AreConsistent a'.states
unfolding win_free stop
free-AreConsistent e win a a' h c =
    let (s, got, rest) = >>=-eq-ok (get_state win a.states) _ h in
    let (n, cleared, stopped) =
      >>=-eq-ok
        (if ltb 0 s.count_fence then clear_comm_check_thread false e win a.states else ok a.states)
        _ rest in
    let c' : AreConsistent n = elim (Bool-cases (ltb 0 s.count_fence)) [
      | inl later ↦ end-AreConsistent false e win a.states n (rw later at cleared) c
      | inr first ↦ let same : a.states ≡ n = ground arith in subst AreConsistent same c
    ] in
    let (t, got', rest') = >>=-eq-ok (get_state win n) _ stopped in
    let (ids, freed, rest'') = >>=-eq-ok (free_tag_range t.mpi_tag a.win_mpi_tag_id) _ rest' in
    elim (Bool-cases t.thread) [
      | inl on ↦ absurd (ground arith)
      | inr off ↦
          let same : erase win n ≡ a'.states = ground arith in
          subst AreConsistent same (erase-AreConsistent win n c')
    ]

-- A one-sided call during an epoch.
pub send-AreConsistent :
    (local target : Access) (rank win : ℕ) (m m' : States) (msg : Message)
    → HasEpoch win m
    → update_on_comm_send local target rank win m ≡ ok (m', msg)
    → AreConsistent m
    → AreConsistent m'
unfolding update_on_comm_send
send-AreConsistent local target rank win m m' msg open' h c =
    let (s, got, rest) = >>=-eq-ok (get_state win m) _ h in
    let there = get_state-eq-ok win m s got in
    let sent = update_on_comm_send-IsSent local target rank win m m' msg s there h in
    let before = c.each win s there in
    let u : WinState = record s { intervals = emplace local s.intervals } in
    let stored : IsConsistent u =
      stored-IsConsistent s s.count (emplace local s.intervals) before
        (active_thread s before (open' s there))
        (emplace-IsSorted local s.intervals before.sorted) in
    let v : WinState = record u { array = set s.array rank (sent.sent + 1) } in
    let after : IsConsistent v =
      Step-IsConsistent {s = u} {t = v} (sends rank (sent.sent + 1) refl) stored in
    record {
      keyed = sent.keyed c.keyed;
      each = λ k w e. elim (Bool-cases (win == k)) [
        | inl same ↦
            let moved = ap (λ j. find j m') ((==_iff win k).0 same) in
            let at : v ≡ w = ground (arith, sent.stored) in subst IsConsistent at after
        | inr other ↦
            c.each k w (sym (sent.others k (λ same. absurd (ground (arith, ==_iff win k)))) ∙ e)
      ];
    }
