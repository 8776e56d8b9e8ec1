-- ===== src/Rma/Windows/Sends.antt =====
-- rma_analyzer_update_on_comm_send: the local side of a one-sided call is saved, the remote side is
-- sent, and the send is counted.
use parcoach.Base.{
  subst, sym, if◌then◌else◌, ◌==◌, ℕ, ◌+◌, ◌≡◌, ◌≢◌, ap, ◌∙◌, inl, inr, some, Option-cases,
  get_elem?, set, arith,
}
use parcoach.Rma.Interval.{Access}
use parcoach.Rma.Store.{emplace}
use parcoach.Rma.Outcome.{Outcome, ok, >>=-eq-ok, ◌>>=◌}
use parcoach.Rma.Windows.{
  count_send, WinState, States, Message, find, update, get_state, save, save_interval,
  update_on_comm_send,
}
use parcoach.Rma.Windows.Lookup.{
  IsKeyed, update-IsKeyed, visit-IsKeyed, find-handle, visit-eq-ok, get_state-eq-ok, find-update,
  find-update_self,
}
use parcoach.Rma.Windows.Saves.{save_cases}

-- What a one-sided call leaves, where it returns.
pub record IsSent (local target : Access) (rank win : ℕ) (s : WinState) (states states' : States)
    (msg : Message) : Type 0 where
  pub sent : ℕ
  pub counted : get_elem? s.array rank ≡ some sent
  pub stored :
      find win states'
      ≡ some
          (record s { intervals = emplace local s.intervals; array = set s.array rank (sent + 1) })
  pub keyed : IsKeyed states → IsKeyed states'
  pub others : (k : ℕ) → win ≢ k → find k states' ≡ find k states
  pub message :
      msg ≡ record { target_rank = rank; tag = s.mpi_tag + s.count_epoch; content = target }

abbrev sending : ℕ → States → Message → WinState → Outcome (States × Message)
sending win m made sent = ok (update win sent m, made)

counted_send :
    (rank win : ℕ) (m m' : States) (t : WinState) (made msg : Message)
    → (count_send rank t >>= λ sent. sending win m made sent) ≡ ok (m', msg)
    → (n : ℕ) × (get_elem? t.array rank ≡ some n)
      × (m' ≡ update win (record t { array = set t.array rank (n + 1) }) m)
      × (msg ≡ made)
unfolding count_send
counted_send rank win m m' t made msg h = elim (Option-cases (get_elem? t.array rank)) [
  | inl outside ↦ absurd (ground arith)
  | inr (n, e) ↦ (n, e, ground arith, ground arith)
]

saved_state :
    (acc : Access) (s t : WinState)
    → save acc s ≡ ok t
    → t ≡ record s { intervals = emplace acc s.intervals }
saved_state acc s t h = ground (arith, save_cases acc s)

module _ (local target : Access) (rank win : ℕ) (states m states' : States)
    (s s₀ s₁ t₁ t : WinState) (msg : Message) (n : ℕ) (there : find win states ≡ some s)
    (got : find win states ≡ some s₀) (before : find win states ≡ some s₁)
    (saved : t₁ ≡ record s₁ { intervals = emplace local s₁.intervals })
    (found : (k : ℕ) → find k m ≡ (if win == k then some t₁ else find k states))
    (got' : find win m ≡ some t) (slot : get_elem? t.array rank ≡ some n)
    (m_keyed : IsKeyed states → IsKeyed m)
    (written : states' ≡ update win (record t { array = set t.array rank (n + 1) }) m)
    (made : msg
      ≡ record { target_rank = rank; tag = s₀.mpi_tag + s₀.count_epoch; content = target }) where
  same_state : t ≡ record s { intervals = emplace local s.intervals }
  same_state = ground (arith, found win)

  assemble : IsSent local target rank win s states states' msg
  assemble = record {
    sent = n;
    counted = ground (arith, same_state);
    stored =
        ap (find win) written
        ∙ find-update_self win t (record t { array = set t.array rank (n + 1) }) m got'
        ∙ ap (λ (v : WinState). some (record v { array = set v.array rank (n + 1) })) same_state;
    keyed = λ h. subst IsKeyed (sym written) (
        update-IsKeyed win (record t { array = set t.array rank (n + 1) }) m
          (ap (λ (v : WinState). v.state_win) same_state ∙ find-handle win states s h there)
          (m_keyed h));
    others = λ k ne.
        ap (find k) written
        ∙ ground
            (arith, found k, find-update k win (record t { array = set t.array rank (n + 1) }) m);
    message = ground arith;
  }

-- A one-sided call that returns has saved its local access in the window's store, counted one more
-- send to the target's rank, which is a rank of the window, sent the target access under the tag of
-- the window's current epoch, and changed no other window.
pub update_on_comm_send-IsSent :
    (local target : Access) (rank win : ℕ) (states states' : States) (msg : Message) (s : WinState)
    → find win states ≡ some s
    → update_on_comm_send local target rank win states ≡ ok (states', msg)
    → IsSent local target rank win s states states' msg
unfolding update_on_comm_send save_interval
update_on_comm_send-IsSent local target rank win states states' msg s there h =
    let (s₀, got, rest) = >>=-eq-ok (get_state win states) _ h in
    let (m, saves, rest') = >>=-eq-ok (save_interval local win states) _ rest in
    let (t, got', rest'') = >>=-eq-ok (get_state win m) _ rest' in
    let (n, slot, written, made) = counted_send rank win m states' t _ msg rest'' in
    let (s₁, t₁, before, saved, _, found) = visit-eq-ok (save local) win states m saves in
    assemble local target rank win states m states' s s₀ s₁ t₁ t msg n there
      (get_state-eq-ok win states s₀ got) before (saved_state local s₁ t₁ saved) found
      (get_state-eq-ok win m t got') slot
      (λ keyed.
        visit-IsKeyed (save local)
          (λ v u q. ap (λ (w : WinState). w.state_win) (saved_state local v u q)) win states m keyed
          saves)
      written made
