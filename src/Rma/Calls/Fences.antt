-- ===== src/Rma/Calls/Fences.antt =====
-- Windows that are synchronised by fences alone.
use parcoach.Base.{
  ℕ, ◌+◌, ◌≤◌, ◌<◌, ◌≡◌, refl, ◌∙◌, ap, ◌⊎◌, inl, inr, true, false, some, arith, [], ltb,
  if◌then◌else◌, Bool-cases, if_true, if_false, ltb→lt,
}
use parcoach.Rma.Outcome.{Outcome, ok, abort, ◌>>=◌}
use parcoach.Rma.Windows.{WinState, States, find, update, get_state}
use parcoach.Rma.Windows.Lookup.{get_state-ok, find-update_self}
use parcoach.Rma.Thread.Counts.{arrivals, Conflicts}
use parcoach.Rma.Epochs.{
  Arrivals, start_thread, stop_thread, init_comm_check_thread, clear_comm_check_thread,
}
use parcoach.Rma.Epochs.Protocol.{
  IsClosed-IsConsistent, IsConsistent, start_thread_cases, stop_thread_cases, stop_thread-ok,
}
use parcoach.Rma.Calls.{fence}

-- A thread runs if and only if there has been a fence.
pub record IsFenced (s : WinState) : Type 0 where
  pub consistent : IsConsistent s
  pub before : s.count_fence ≡ 0 → s.thread ≡ false
  pub behind : 0 < s.count_fence → s.thread ≡ true

-- An operation on one window, run on the state that is there.
visit :
    (f : WinState → Outcome WinState) (win : ℕ) (m : States) (s : WinState)
    → find win m ≡ some s
    → (get_state win m >>= λ v. f v >>= λ t. ok (update win t m))
      ≡ (f s >>= λ t. ok (update win t m))
visit f win m s e =
    ap (λ (o : Outcome WinState). o >>= λ v. f v >>= λ t. ok (update win t m))
      (get_state-ok win m s e)

-- The second half of a fence, on the map as the first half has left it.
abbrev reopen : ℕ → States → Outcome States
reopen win m = do
  t ← get_state win m
  init_comm_check_thread win (update win (record t { count_fence = t.count_fence + 1 }) m)

reopen-IsFenced :
    (win : ℕ) (m : States) (s : WinState)
    → find win m ≡ some s
    → IsConsistent s
    → s.thread ≡ false
    → (m' : States) × (u : WinState) × (reopen win m ≡ ok m')
      × (find win m' ≡ some u)
      × IsFenced u
      × (u.thread ≡ true)
      × (u.count_epoch ≡ s.count_epoch + 1)
      × (u.intervals ≡ [])
unfolding init_comm_check_thread
reopen-IsFenced win m s there c off = elim (start_thread_cases s' c') [
  | inl (on, _) ↦ cc (off, on)
  | inr (_, (u, started, r)) ↦ (
    update win u (update win s' m),
    u,
    ap
          (λ (o : Outcome WinState). o >>= λ t.
            init_comm_check_thread win
              (update win (record t { count_fence = t.count_fence + 1 }) m))
          (get_state-ok win m s there)
        ∙ visit start_thread win (update win s' m) s' there'
        ∙ ap (λ (o : Outcome WinState). o >>= λ t. ok (update win t (update win s' m))) started,
    find-update_self win s' u (update win s' m) there',
    record {
      consistent = r.consistent;
      before = λ none_yet. absurd (ground (arith, r.count_fence));
      behind = λ _. r.running;
    },
    r.running,
    r.next_epoch,
    r.emptied,
  )
]
  where
    s' : WinState
    s' = record s { count_fence = s.count_fence + 1 }

    c' : IsConsistent s'
    c' = record { running = c.running; idle = c.idle; sorted = c.sorted; sized = c.sized }

    there' : find win (update win s' m) ≡ some s'
    there' = find-update_self win s s' m there

-- The window has gone through a fence: there is a thread, and the next epoch is open and empty.
pub record IsReopened (s u : WinState) : Type 0 where
  pub fenced : IsFenced u
  pub running : u.thread ≡ true
  pub next_epoch : u.count_epoch ≡ s.count_epoch + 1
  pub emptied : u.intervals ≡ []

-- On a window that is synchronised by fences alone a fence never terminates the program and never
-- waits for more than what comes. If the announced accesses are among those that arrive, it closes the
-- epoch, if there was one, and opens the next one; or there was one, and it aborts, and one of the
-- announced accesses conflicts with what is in the store when it comes.
pub fence_cases :
    (e : Arrivals) (win : ℕ) (states : States) (s : WinState)
    → find win states ≡ some s
    → IsFenced s
    → s.count ≤ e.reduced
    → e.reduced ≤ s.count + arrivals e.polls
    → ((fence e win states ≡ abort) × (0 < s.count_fence) × Conflicts s e.reduced e.polls)
      ⊎ ((states' : States) × (u : WinState) × (fence e win states ≡ ok states')
          × (find win states' ≡ some u)
          × IsReopened s u)
unfolding fence clear_comm_check_thread
fence_cases e win states s there f lo hi = elim (Bool-cases (ltb 0 s.count_fence)) [
  | inr first ↦ inr (
      done states s
        (begins ∙ ap (λ (o : Outcome States). o >>= reopen win) (if_false _ _ first refl)) there
        f.consistent (f.before (ground arith)) refl)
  | inl later ↦
      let on = f.behind (ltb→lt 0 s.count_fence later) in
      let cleared = visit (stop_thread true e) win states s there in
      let begins' =
        begins ∙ ap (λ (o : Outcome States). o >>= reopen win) (if_true _ _ later cleared) in
      elim (stop_thread_cases true e s lo hi) [
        | inl (off, _) ↦ cc (on, off)
        | inr (_, inl (stopped, c)) ↦
            inl (begins' ∙ ap after_stop stopped, ltb→lt 0 s.count_fence later, c)
        | inr (_, inr (t, stopped)) ↦
            let closed = (stop_thread-ok true e s t stopped).2 in
            inr (
              done (update win t states) t (begins' ∙ ap after_stop stopped)
                (find-update_self win s t states there) (IsClosed-IsConsistent f.consistent closed)
                closed.stopped closed.count_epoch)
      ]
]
  where
    after_stop : Outcome WinState → Outcome States
    after_stop o = (o >>= λ v. ok (update win v states)) >>= reopen win

    begins : fence e win states ≡ (
        (if ltb 0 s.count_fence then clear_comm_check_thread true e win states else ok states)
        >>= reopen win)
    begins =
        ap
          (λ (o : Outcome WinState). o >>= λ v.
            (if ltb 0 v.count_fence then clear_comm_check_thread true e win states else ok states)
            >>= reopen win)
          (get_state-ok win states s there)

    done :
        (m : States) (t : WinState)
        → fence e win states ≡ reopen win m
        → find win m ≡ some t
        → IsConsistent t
        → t.thread ≡ false
        → t.count_epoch ≡ s.count_epoch
        → (states' : States) × (u : WinState) × (fence e win states ≡ ok states')
          × (find win states' ≡ some u)
          × IsReopened s u
    done m t same there' c off epoch =
        let (m', u, opens, found, fenced, running, next, emptied) =
          reopen-IsFenced win m t there' c off in
        (
          m',
          u,
          same ∙ opens,
          found,
          record {
            fenced = fenced;
            running = running;
            next_epoch = next ∙ ap (λ (n : ℕ). n + 1) epoch;
            emptied = emptied;
          },
        )
