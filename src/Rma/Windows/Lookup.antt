-- ===== src/Rma/Windows/Lookup.antt =====
-- The map of the windows: lookup after each write, and its invariant.
use parcoach.Rma.Outcome.{Outcome, ok, ◌>>=◌, >>=-eq-ok}
use parcoach.Base.{
  ◌∙◌, sym, subst, inr, inl, Option-cases, ℕ, ◌<◌, ◌≤◌, ◌≡◌, refl, Option, none, some, [], ◌∷◌,
  ◌==◌, if◌then◌else◌, arith, All,
}
use parcoach.Rma.Windows.{get_state, WinState, States, find, update, insert, erase}

-- The keys ascend, and each state knows its own key.
abbrev pub IsKeyed : States → Type 0
IsKeyed [] = Unit
IsKeyed ((w, s) ∷ m) = (s.state_win ≡ w) × All (λ e. w < e.0) m × IsKeyed m

abbrev pub replaced : WinState → Option WinState → Option WinState
replaced t none = none
replaced t (some s) = some t

pub find-update :
    (k w : ℕ) (t : WinState) (m : States)
    → find k (update w t m) ≡ (if w == k then replaced t (find k m) else find k m)
unfolding find update
find-update k w t [] = ground arith
find-update k w t ((v, s) ∷ m) = ground (arith, find-update k w t m)

pub find-update_self :
    (w : ℕ) (s t : WinState) (m : States) → find w m ≡ some s → find w (update w t m) ≡ some t
find-update_self w s t m e = ground (arith, find-update w w t m)

pub find-insert :
    (k w : ℕ) (t : WinState) (m : States)
    → find w m ≡ none
    → find k (insert w t m) ≡ (if w == k then some t else find k m)
unfolding find insert
find-insert k w t [] h = ground arith
find-insert k w t ((v, s) ∷ m) h = ground (arith, find-insert k w t m)

find_below : (k w : ℕ) (m : States) → k ≤ w → All (λ e. w < e.0) m → find k m ≡ none
unfolding find
find_below k w [] lt h = refl
find_below k w ((v, s) ∷ m) lt h = ground (arith, find_below k w m lt h.1)

pub find-erase :
    (k w : ℕ) (m : States) → IsKeyed m → find k (erase w m) ≡ (if w == k then none else find k m)
unfolding find erase
find-erase k w [] h = ground arith
find-erase k w ((v, s) ∷ m) h = ground (arith, find-erase k w m h.2, find_below k v m)

All-update :
    (v w : ℕ) (t : WinState) (m : States) → All (λ e. v < e.0) m → All (λ e. v < e.0) (update w t m)
unfolding update
All-update v w t [] h = tt
All-update v w t ((u, s) ∷ m) h = ground (arith, All-update v w t m h.1)

pub update-IsKeyed :
    (w : ℕ) (t : WinState) (m : States) → t.state_win ≡ w → IsKeyed m → IsKeyed (update w t m)
unfolding update
update-IsKeyed w t [] e h = tt
update-IsKeyed w t ((v, s) ∷ m) e h = ground (arith, update-IsKeyed w t m, All-update v w t m)

All-insert :
    (v w : ℕ) (t : WinState) (m : States)
    → v < w
    → All (λ e. v < e.0) m
    → All (λ e. v < e.0) (insert w t m)
unfolding insert
All-insert v w t [] lt h = (lt, tt)
All-insert v w t ((u, s) ∷ m) lt h = ground (arith, All-insert v w t m)

All-lt : (v w : ℕ) (m : States) → v < w → All (λ e. w < e.0) m → All (λ e. v < e.0) m
All-lt v w [] lt h = tt
All-lt v w ((u, s) ∷ m) lt h = (omega arith, All-lt v w m lt h.1)

pub insert-IsKeyed :
    (w : ℕ) (t : WinState) (m : States) → t.state_win ≡ w → IsKeyed m → IsKeyed (insert w t m)
unfolding insert
insert-IsKeyed w t [] e h = (e, tt, tt)
insert-IsKeyed w t ((v, s) ∷ m) e h =
    ground (arith, insert-IsKeyed w t m, All-insert v w t m, All-lt w v m)

All-erase : (v w : ℕ) (m : States) → All (λ e. v < e.0) m → All (λ e. v < e.0) (erase w m)
unfolding erase
All-erase v w [] h = tt
All-erase v w ((u, s) ∷ m) h = ground (arith, All-erase v w m)

pub erase-IsKeyed : (w : ℕ) (m : States) → IsKeyed m → IsKeyed (erase w m)
unfolding erase
erase-IsKeyed w [] h = tt
erase-IsKeyed w ((v, s) ∷ m) h = ground (arith, erase-IsKeyed w m, All-erase v w m)

-- What a lookup finds is filed under its own handle.
pub find-handle :
    (k : ℕ) (m : States) (s : WinState) → IsKeyed m → find k m ≡ some s → s.state_win ≡ k
unfolding find
find-handle k [] s h e = cc
find-handle k ((v, t) ∷ m) s h e = ground (arith, find-handle k m s)

pub get_state-eq-ok :
    (win : ℕ) (m : States) (s : WinState) → get_state win m ≡ ok s → find win m ≡ some s
unfolding get_state
get_state-eq-ok win m s h = elim (Option-cases (find win m)) [
  | inl missing ↦ ground arith
  | inr (t, there) ↦ ground arith
]

-- The operations on one window look it up, make a step on its state and write the result back.
pub visit-eq-ok :
    (f : WinState → Outcome WinState) (win : ℕ) (m m' : States)
    → (get_state win m >>= λ s. f s >>= λ t. ok (update win t m)) ≡ ok m'
    → (s : WinState) × (t : WinState) × (find win m ≡ some s)
      × (f s ≡ ok t)
      × (m' ≡ update win t m)
      × ((k : ℕ) → find k m' ≡ (if win == k then some t else find k m))
visit-eq-ok f win m m' h =
    let (s, got, rest) = >>=-eq-ok (get_state win m) _ h in
    let (t, done, same) = >>=-eq-ok (f s) _ rest in
    let there = get_state-eq-ok win m s got in
    (s, t, there, done, ground arith, λ k. ground (arith, find-update k win t m))

pub visit-IsKeyed :
    (f : WinState → Outcome WinState)
    → ((s t : WinState) → f s ≡ ok t → t.state_win ≡ s.state_win)
    → (win : ℕ) (m m' : States) → IsKeyed m
    → (get_state win m >>= λ s. f s >>= λ t. ok (update win t m)) ≡ ok m'
    → IsKeyed m'
visit-IsKeyed f same win m m' keyed h =
    let (s, t, there, done, e, _) = visit-eq-ok f win m m' h in
    subst IsKeyed (sym e)
      (update-IsKeyed win t m (same s t done ∙ find-handle win m s keyed there) keyed)

pub get_state-ok :
    (win : ℕ) (m : States) (s : WinState) → find win m ≡ some s → get_state win m ≡ ok s
unfolding get_state
get_state-ok win m s e = ground arith
