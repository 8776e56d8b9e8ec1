-- ===== src/Static/Flow/Traces.antt =====
-- The lists that the traversal computes in a function without loops, and the collectives on its paths.
use parcoach.Base.{
  ℕ, ◌<◌, ◌≡◌, ◌≢◌, ◌↔◌, inl, inr, refl, sym, ap, ◌∙◌, subst, true, false, Option, none, List, [],
  ◌∷◌, In,
}
use parcoach.Static.Collectives.{Text, Value}
use parcoach.Static.Lists.{
  Elements, CollectiveList, CollLists, Program, append, list_eq, neighbors_are_navs, create_from_bb,
}
use parcoach.Static.Flow.{Cfg, list_at, compute}
use parcoach.Static.Flow.Neighbors.{
  compute-header, compute_navs, compute_alike, neighbors_cases, added_flat,
}
use parcoach.Static.Flow.Merges.{
  HasNavs, Trace, Merged, no_successor, different, alike, Merged-Trace,
}

-- A function without loops whose lists are computed, and whose texts tell them apart.
module _ (print_operand : ℕ → Text) (p : Program) (cfg : Cfg) (comm : Option Value)
    (lists : CollLists)
    (below : (b c : ℕ) → In b cfg.blocks → In c (cfg.successors b) → In c cfg.blocks)
    (computed : (b : ℕ)
      → In b cfg.blocks
      → list_at lists b ≡ compute print_operand p cfg comm lists (cfg.successors b) b false)
    (decides : (c d : ℕ)
      → In c cfg.blocks
      → In d cfg.blocks
      → (list_eq print_operand (list_at lists c) (list_at lists d) ≡ true)
        ↔ (list_at lists c ≡ list_at lists d)) where
  -- What the calls of a block add themselves.
  abbrev pub own : ℕ → Elements
  own b = (create_from_bb p lists false (cfg.calls b) comm).list

  abbrev pub list_of : ℕ → Elements
  list_of b = (list_at lists b).list

  flat : (b : ℕ) → In b cfg.blocks → (list_at lists b).loop_header ≡ none
  flat b i =
      ap (λ (l : CollectiveList). l.loop_header) (computed b i)
      ∙ compute-header print_operand p cfg comm lists (cfg.successors b) b

  by_list :
      (c d : ℕ)
      → In c cfg.blocks
      → In d cfg.blocks
      → list_of c ≡ list_of d
      → list_at lists c ≡ list_at lists d
  by_list c d i j e =
      ap (λ h. record { loop_header = h; list = list_of c }) (flat c i)
      ∙ ap (λ es. record { loop_header = none; list = es }) e
      ∙ ap (λ h. record { loop_header = h; list = list_of d }) (sym (flat d j))

  one_block :
      (b : ℕ) (bbs : List ℕ)
      → In b cfg.blocks
      → cfg.successors b ≡ bbs
      → list_at lists b ≡ compute print_operand p cfg comm lists bbs b false
      → Merged cfg.successors own list_of b
  unfolding compute neighbors_are_navs
  one_block b [] i e l = no_successor e (ap (λ (x : CollectiveList). x.list) l)
  one_block b (c ∷ cs) i e l =
      let within : (d : ℕ) → In d (c ∷ cs) → In d cfg.blocks =
        λ d m. below b d i (subst (In d) (sym e) m) in
      elim (neighbors_cases print_operand (list_at lists) (c ∷ cs)
        (λ d d' m m'. decides d d' (within d m) (within d' m'))) [
          | inl (nav, (d, d', m, m', ne)) ↦
              different d d' (subst (In d) (sym e) m) (subst (In d') (sym e) m')
                (λ s. ne (by_list d d' (within d m) (within d' m') s))
                (ap (λ (x : CollectiveList). x.list) l
                  ∙ compute_navs print_operand p cfg comm lists (c ∷ cs) b nav)
          | inr (no', all) ↦
              alike c (subst (In c) (sym e) (inl refl))
                (λ d m. ap (λ (x : CollectiveList). x.list) (all d c (subst (In d) e m) (inl refl)))
                (ap (λ (x : CollectiveList). x.list) l
                  ∙ compute_alike print_operand p cfg comm lists c cs b no'
                  ∙ ap (append (own b))
                      (added_flat (list_at lists c) (flat c (within c (inl refl)))))
        ]

  -- Let a function have no loops and no edges out of it, let the list of each block be what visitBB computes from the lists
  -- of its successors, let the texts of these lists tell them apart, and let no block have NAVS of
  -- its own, from a function that it calls. If the list of a block has no NAVS, it is the sequence of
  -- the collectives on every path from the block to an exit. If it has NAVS, two paths from the block
  -- have different sequences.
  pub compute-Trace :
      (rank : ℕ → ℕ)
      → ((b c : ℕ) → In c (cfg.successors b) → rank c < rank b)
      → ((b : ℕ) → In b cfg.blocks → ¬ HasNavs (own b))
      → (b : ℕ) → In b cfg.blocks
      → (¬ HasNavs (list_of b)
          → Trace cfg.successors own b (list_of b)
            × ((t : Elements) → Trace cfg.successors own b t → t ≡ list_of b))
        × (HasNavs (list_of b)
            → (t : Elements) × (u : Elements) × Trace cfg.successors own b t
              × Trace cfg.successors own b u
              × (t ≢ u))
  compute-Trace rank falls clean b i =
      Merged-Trace (λ d. In d cfg.blocks) cfg.successors own list_of rank falls below clean
        (λ d j. one_block d (cfg.successors d) j refl (computed d j)) b i
