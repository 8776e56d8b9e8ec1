-- ===== src/Static/Flow/Merges.antt =====
-- Sequences of elements along the paths of a graph without loops, and tables that merge them.
use parcoach.Base.{
  ℕ, suc, zero, ◌<◌, ◌≡◌, ◌≢◌, ◌⊎◌, inl, inr, refl, sym, ap, ◌∙◌, subst, List, [], In, arith,
}
use parcoach.Static.Lists.{Elements, nil, cons, navs_element, append}

abbrev pub HasNavs : Elements → Type 0
HasNavs nil = ⊥
HasNavs (cons e es) = (e ≡ navs_element) ⊎ HasNavs es

-- The elements of a path from a block to an exit, one block after the other.
pub data Trace (succs : ℕ → List ℕ) (own : ℕ → Elements) : ℕ → Elements → Type 0 where
  at_exit : {b : ℕ} → succs b ≡ [] → Trace succs own b (own b)
  through :
      {b c : ℕ} {t : Elements}
      → In c (succs b)
      → Trace succs own c t
      → Trace succs own b (append (own b) t)

pub data Merged (succs : ℕ → List ℕ) (own list : ℕ → Elements) (b : ℕ) : Type 0 where
  no_successor : succs b ≡ [] → list b ≡ own b → Merged succs own list b
  different :
      (c d : ℕ)
      → In c (succs b)
      → In d (succs b)
      → list c ≢ list d
      → list b ≡ cons navs_element nil
      → Merged succs own list b
  alike :
      (c : ℕ)
      → In c (succs b)
      → ((d : ℕ) → In d (succs b) → list d ≡ list c)
      → list b ≡ append (own b) (list c)
      → Merged succs own list b

append_cancel : (xs ys zs : Elements) → append xs ys ≡ append xs zs → ys ≡ zs
unfolding append
append_cancel nil ys zs h = h
append_cancel (cons x xs) ys zs h = append_cancel xs ys zs cc

HasNavs-append : (xs ys : Elements) → HasNavs (append xs ys) → HasNavs xs ⊎ HasNavs ys
unfolding append
HasNavs-append nil ys h = inr h
HasNavs-append (cons x xs) ys (inl e) = inl (inl e)
HasNavs-append (cons x xs) ys (inr h) = elim (HasNavs-append xs ys h) [
  | inl a ↦ inl (inr a)
  | inr b ↦ inr b
]

append-HasNavs : (xs ys : Elements) → HasNavs ys → HasNavs (append xs ys)
unfolding append
append-HasNavs nil ys h = h
append-HasNavs (cons x xs) ys h = inr (append-HasNavs xs ys h)

module _ (Inside : ℕ → Type 0) (succs : ℕ → List ℕ) (own list : ℕ → Elements) (rank : ℕ → ℕ)
    (falls : (b c : ℕ) → In c (succs b) → rank c < rank b)
    (below : (b c : ℕ) → Inside b → In c (succs b) → Inside c)
    (clean : (b : ℕ) → Inside b → ¬ HasNavs (own b))
    (merged : (b : ℕ) → Inside b → Merged succs own list b) where
  abbrev pub IsUniform : ℕ → Type 0
  IsUniform b = Trace succs own b (list b) × ((t : Elements) → Trace succs own b t → t ≡ list b)

  abbrev pub Differ : ℕ → Type 0
  Differ b = (t : Elements) × (u : Elements) × Trace succs own b t × Trace succs own b u × (t ≢ u)

  without_navs : {b : ℕ} {t : Elements} → Inside b → Trace succs own b t → ¬ HasNavs t
  without_navs i (at_exit e) h = clean _ i h
  without_navs i (through m r) h = elim (HasNavs-append _ _ h) [
    | inl a ↦ clean _ i a
    | inr d ↦ without_navs (below _ _ i m) r d
  ]

  Differ-through : (b c : ℕ) → In c (succs b) → Differ c → Differ b
  Differ-through b c m (t, u, r, s, ne) = (
    append (own b) t,
    append (own b) u,
    through m r,
    through m s,
    λ e. ne (append_cancel (own b) t u e),
  )

  -- Two successors whose lists differ have paths that differ.
  apart :
      (b c d : ℕ)
      → In c (succs b)
      → In d (succs b)
      → list c ≢ list d
      → IsUniform c ⊎ (HasNavs (list c) × Differ c)
      → IsUniform d ⊎ (HasNavs (list d) × Differ d)
      → Differ b
  apart b c d m m' ne (inr (_, x)) v = Differ-through b c m x
  apart b c d m m' ne (inl u) (inr (_, x)) = Differ-through b d m' x
  apart b c d m m' ne (inl u) (inl v) = (
    append (own b) (list c),
    append (own b) (list d),
    through m u.0,
    through m' v.0,
    λ e. ne (append_cancel (own b) (list c) (list d) e),
  )

  exit_only : {b : ℕ} {t : Elements} → succs b ≡ [] → Trace succs own b t → t ≡ own b
  exit_only e (at_exit _) = refl
  exit_only {b} e (through {c = c} m r) = absurd (subst (In c) e m)

  through_only :
      {b : ℕ} {t : Elements} (c : ℕ)
      → In c (succs b)
      → ((d : ℕ) (u : Elements) → In d (succs b) → Trace succs own d u → u ≡ list c)
      → Trace succs own b t
      → t ≡ append (own b) (list c)
  through_only c m h (at_exit e) = absurd (subst (In c) e m)
  through_only {b} c m h (through {c = d} {t = u} m' r) = ap (append (own b)) (h d u m' r)

  split_by_rank : (n b : ℕ) → rank b < n → Inside b → IsUniform b ⊎ (HasNavs (list b) × Differ b)
  split_by_rank zero b lt i = absurd (omega arith)
  split_by_rank (suc n) b lt i =
      let lower : (c : ℕ) → In c (succs b) → IsUniform c ⊎ (HasNavs (list c) × Differ c) =
        λ c m. split_by_rank n c (let f = falls b c m in omega arith) (below b c i m) in
      elim (merged b i) [
        | no_successor e l ↦
            inl (subst (Trace succs own b) (sym l) (at_exit e), λ t r. exit_only e r ∙ sym l)
        | different c d m m' ne l ↦
            inr (subst HasNavs (sym l) (inl refl), apart b c d m m' ne (lower c m) (lower d m'))
        | alike c m same l ↦ elim (lower c m) [
          | inr (h, x) ↦
              inr
                (subst HasNavs (sym l) (append-HasNavs (own b) (list c) h), Differ-through b c m x)
          | inl u ↦ inl (
            subst (Trace succs own b) (sym l) (through m u.0),
            λ t r.
                through_only c m
                  (λ d v m' r'.
                    (uniform c d (below b c i m) u (same d m') (lower d m')).1 v r' ∙ same d m')
                  r
                ∙ sym l,
          )
        ]
      ]
    where
      uniform :
          (c d : ℕ)
          → Inside c
          → IsUniform c
          → list d ≡ list c
          → IsUniform d ⊎ (HasNavs (list d) × Differ d)
          → IsUniform d
      uniform c d i' u e (inl v) = v
      uniform c d i' u e (inr (h, _)) = absurd (without_navs i' u.0 (subst HasNavs e h))

  -- A merged table has NAVS at a block if two paths from it differ, and else what every path has.
  pub Merged-Trace :
      (b : ℕ) → Inside b → (¬ HasNavs (list b) → IsUniform b) × (HasNavs (list b) → Differ b)
  Merged-Trace b i = elim (split_by_rank (suc (rank b)) b (omega arith) i) [
    | inl u ↦ (λ _. u, λ h. absurd (without_navs i u.0 h))
    | inr (h, x) ↦ (λ none. absurd (none h), λ _. x)
  ]
