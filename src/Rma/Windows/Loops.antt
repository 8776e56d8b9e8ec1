-- ===== src/Rma/Windows/Loops.antt =====
-- A loop over all windows, seen from one window.
use parcoach.Base.{
  sym, subst, ==_iff, ℕ, ◌<◌, ◌≡◌, refl, ◌∙◌, ◌⊎◌, inl, inr, Bool, true, false, ◌||◌, Option, some,
  List, [], ◌∷◌, ◌==◌, if◌then◌else◌, arith, All, Bool-cases,
}
use parcoach.Rma.Outcome.{Outcome, ok, >>=-eq-ok}
use parcoach.Rma.Windows.{WinState, States, find, for_each, handles}
use parcoach.Rma.Windows.Lookup.{IsKeyed}

-- Where the body of a loop returns, it has done one step on its own window and nothing else.
abbrev pub Acts : (ℕ → States → Outcome States) → (ℕ → WinState → Outcome WinState) → Type 0
Acts body step =
    (win : ℕ) (states states' : States)
    → body win states ≡ ok states'
    → (s : WinState) × (t : WinState) × (find win states ≡ some s)
      × (step win s ≡ ok t)
      × ((k : ℕ) → find k states' ≡ (if win == k then some t else find k states))

abbrev pub member : ℕ → List ℕ → Bool
member k [] = false
member k (w ∷ ws) = w == k || member k ws

abbrev pub IsDistinct : List ℕ → Type 0
IsDistinct [] = Unit
IsDistinct (w ∷ ws) = (member w ws ≡ false) × IsDistinct ws

member-handles :
    (k : ℕ) (s : WinState) (m : States)
    → IsKeyed m
    → find k m ≡ some s
    → member k (handles m) ≡ true
unfolding find
member-handles k s [] h e = cc
member-handles k s ((v, t) ∷ m) h e = ground (arith, member-handles k s m h.2)

member-above :
    (k : ℕ) (m : States) → IsKeyed m → All (λ e. k < e.0) m → member k (handles m) ≡ false
member-above k [] h lt = refl
member-above k ((v, t) ∷ m) h lt = ground (arith, member-above k m h.2)

IsDistinct-handles : (m : States) → IsKeyed m → IsDistinct (handles m)
IsDistinct-handles [] h = tt
IsDistinct-handles ((v, t) ∷ m) h = (ground (arith, member-above v m h.2), IsDistinct-handles m h.2)

module _ {body : ℕ → States → Outcome States} {step : ℕ → WinState → Outcome WinState}
    (acts : Acts body step) where
  abbrev Steps : ℕ → Option WinState → Option WinState → Type 0
  Steps k before after =
      (s : WinState) × (t : WinState) × (before ≡ some s) × (step k s ≡ ok t) × (after ≡ some t)

  here_visited :
      (w k : ℕ) (wins : List ℕ) (s t : WinState) (before between after : Option WinState)
      → w ≡ k
      → member w wins ≡ false
      → before ≡ some s
      → step w s ≡ ok t
      → between ≡ some t
      → ((member k wins ≡ false) × (after ≡ between))
        ⊎ ((member k wins ≡ true) × Steps k between after)
      → Steps k before after
  here_visited w k wins s t before between after e out b stepped m (inl (_, same)) =
      (s, t, b, subst (λ j. step j s ≡ ok t) e stepped, same ∙ m)
  here_visited w k wins s t before between after e out b stepped m (inr (hit, _)) =
      absurd (cc (subst (λ j. member j wins ≡ false) e out))

  -- A window that is not in the list stays as it is, and one that is in it makes one step.
  for_each-find :
      (wins : List ℕ) (states states' : States)
      → IsDistinct wins
      → for_each body wins states ≡ ok states'
      → (k : ℕ)
      → ((member k wins ≡ false) × (find k states' ≡ find k states))
        ⊎ ((member k wins ≡ true) × Steps k (find k states) (find k states'))
  unfolding for_each
  for_each-find [] states states' d h k = inl (refl, ground arith)
  for_each-find (w ∷ wins) states states' d h k =
      let (m, first, rest) = >>=-eq-ok (body w states) _ h in
      let (s, t, there, stepped, found) = acts w states m first in
      let others = for_each-find wins m states' d.1 rest k in
      elim (Bool-cases (w == k)) [
        | inl same ↦
            let e = (==_iff w k).0 same in
            rw same (
              inr (
                refl,
                here_visited w k wins s t (find k states) (find k m) (find k states') e d.0
                    (subst (λ j. find j states ≡ some s) e there) stepped (rw same at (found k))
                    others,
              ))
        | inr other ↦ rw other (
            subst
              (λ o.
                ((member k wins ≡ false) × (find k states' ≡ o))
                ⊎ ((member k wins ≡ true) × Steps k o (find k states')))
              (rw other at (found k)) others)
      ]

  pub for_each-handles :
      (states states' : States)
      → IsKeyed states
      → for_each body (handles states) states ≡ ok states'
      → (k : ℕ) (s : WinState) → find k states ≡ some s
      → (t : WinState) × (step k s ≡ ok t) × (find k states' ≡ some t)
  for_each-handles states states' keyed h k s e =
      elim (for_each-find (handles states) states states' (IsDistinct-handles states keyed) h k) [
        | inl (out, _) ↦ cc (member-handles k s states keyed e, out)
        | inr (_, (s', t, there, stepped, found)) ↦
            let same : s' ≡ s = ground arith in
            (t, subst (λ v. step k v ≡ ok t) same stepped, found)
      ]

  -- What the steps keep of a state, the loop keeps of all states.
  pub for_each-Keeps {ℓ} :
      (P : WinState → Type ℓ)
      → ((win : ℕ) (s t : WinState) → step win s ≡ ok t → P s → P t)
      → (m m' : States) → IsKeyed m
      → for_each body (handles m) m ≡ ok m'
      → ((k : ℕ) (s : WinState) → find k m ≡ some s → P s)
      → (k : ℕ) (s : WinState) → find k m' ≡ some s
      → P s
  for_each-Keeps P keeps m m' keyed h all k s e =
      elim (for_each-find (handles m) m m' (IsDistinct-handles m keyed) h k) [
        | inl (_, same) ↦ all k s (sym same ∙ e)
        | inr (_, (s₀, t, there, stepped, found)) ↦
            let same : t ≡ s = ground arith in subst P same (keeps k s₀ t stepped (all k s₀ there))
      ]

pub for_each-IsKeyed :
    (body : ℕ → States → Outcome States)
    → ((win : ℕ) (m m' : States) → IsKeyed m → body win m ≡ ok m' → IsKeyed m')
    → (wins : List ℕ) (m m' : States) → IsKeyed m
    → for_each body wins m ≡ ok m'
    → IsKeyed m'
unfolding for_each
for_each-IsKeyed body keeps [] m m' keyed h =
    let same : m ≡ m' = ground arith in subst IsKeyed same keyed
for_each-IsKeyed body keeps (w ∷ wins) m m' keyed h =
    let (n, first, rest) = >>=-eq-ok (body w m) _ h in
    for_each-IsKeyed body keeps wins n m' (keeps w m n keyed first) rest
