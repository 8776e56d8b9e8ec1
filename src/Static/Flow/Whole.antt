-- ===== src/Static/Flow/Whole.antt =====
-- The traversal of a function without loops and the collectives on its paths.
use parcoach.Base.{
  ℕ, zero, suc, ◌≤◌, ◌<◌, ◌≡◌, ◌≢◌, inl, inr, refl, sym, ap, ◌∙◌, subst, Bool-cases, false, Option,
  none, some, List, [], ◌∷◌, In, All, arith,
}
use std.Path.{fun_ext}
use parcoach.Static.Collectives.{Text, Value, Collective}
use parcoach.Static.Lists.{
  Elements, nil, cons, navs_element, append, CollectiveList, CollLists, Program, neighbors_are_navs,
  create_from_bb,
}
use parcoach.Static.Lists.Splits.{IsName}
use parcoach.Static.Lists.Texts.{IsHeader, AreOfKnown, list_eq_iff}
use parcoach.Static.Flow.{Cfg, LoopAggregationInfo, Visit, list_at, compute, visit_function}
use parcoach.Static.Flow.Neighbors.{
  compute-header, compute_navs, compute_alike, compute_nil, added_flat,
}
use parcoach.Static.Flow.Merges.{HasNavs, Trace}
use parcoach.Static.Flow.Traces.{compute-Trace}
use parcoach.Static.Flow.Ready.{IsLoopFree}
use parcoach.Static.Flow.Visits.{visit_function-computed}

-- How blocks and collectives are named: known collectives have names of their own, which are not
-- empty, not NAVS, and without parentheses, commas and asterisks, and LLVM prints no block with an
-- opening parenthesis, and the headers of loops each in a way of its own.
pub record IsNaming (print_operand : ℕ → Text) (IsBlock : ℕ → Type 0)
    (IsKnown : Collective → Type 0) : Type 0 where
  pub names : (c : Collective) → IsKnown c → IsName c.name
  pub unique : (c d : Collective) → IsKnown c → IsKnown d → c.name ≡ d.name → c ≡ d
  pub printed : (b : ℕ) → All (λ c. ¬ (c ≡ 40)) (print_operand b)
  pub distinct : (b d : ℕ) → IsBlock b → IsBlock d → print_operand b ≡ print_operand d → b ≡ d

module _ (print_operand : ℕ → Text) (IsBlock : ℕ → Type 0) (IsKnown : Collective → Type 0)
    (naming : IsNaming print_operand IsBlock IsKnown) where
  open naming use {names, unique, printed, distinct}

  abbrev pub Known : Elements → Type 0
  Known es = AreOfKnown print_operand IsBlock IsKnown names unique printed distinct es

  append-Known : (xs ys : Elements) → Known xs → Known ys → Known (append xs ys)
  unfolding append AreOfKnown
  append-Known nil ys k k' = k'
  append-Known (cons x xs) ys k k' = (k.0, append-Known xs ys k.1 k')

  navs-Known : Known (cons navs_element nil)
  unfolding AreOfKnown
  navs-Known = (tt, tt)

  module _ (p : Program) (cfg : Cfg) (comm : Option Value) (lists : CollLists)
      (computed : (b : ℕ)
        → In b cfg.blocks
        → list_at lists b ≡ compute print_operand p cfg comm lists (cfg.successors b) b false)
      (below : (b c : ℕ) → In b cfg.blocks → In c (cfg.successors b) → In c cfg.blocks)
      (own_known : (b : ℕ)
        → In b cfg.blocks
        → Known (create_from_bb p lists false (cfg.calls b) comm).list) where
    flat_list : (b : ℕ) → In b cfg.blocks → (list_at lists b).loop_header ≡ none
    flat_list b i =
        ap (λ (l : CollectiveList). l.loop_header) (computed b i)
        ∙ compute-header print_operand p cfg comm lists (cfg.successors b) b

    computed-Known :
        (b : ℕ) (bbs : List ℕ)
        → In b cfg.blocks
        → ((c : ℕ) → In c bbs → In c cfg.blocks × Known (list_at lists c).list)
        → Known (compute print_operand p cfg comm lists bbs b false).list
    computed-Known b bbs i h =
        elim (Bool-cases (neighbors_are_navs print_operand (list_at lists) bbs)) [
          | inl navs ↦
              subst Known (sym (compute_navs print_operand p cfg comm lists bbs b navs)) navs-Known
          | inr alike ↦ by_list bbs h alike
        ]
      where
        by_list :
            (bbs : List ℕ)
            → ((c : ℕ) → In c bbs → In c cfg.blocks × Known (list_at lists c).list)
            → neighbors_are_navs print_operand (list_at lists) bbs ≡ false
            → Known (compute print_operand p cfg comm lists bbs b false).list
        by_list [] h alike =
            subst (λ (l : CollectiveList). Known l.list)
              (sym (compute_nil print_operand p cfg comm lists b)) (own_known b i)
        by_list (c ∷ cs) h alike =
            let (inside, known) = h c (inl refl) in
            subst Known
              (sym (
                compute_alike print_operand p cfg comm lists c cs b alike
                ∙ ap (append _) (added_flat (list_at lists c) (flat_list c inside))))
              (append-Known _ _ (own_known b i) known)

    all-Known :
        (rank : ℕ → ℕ)
        → ((b c : ℕ) → In c (cfg.successors b) → rank c < rank b)
        → (n b : ℕ) → rank b < n
        → In b cfg.blocks
        → Known (list_at lists b).list
    all-Known rank falls zero b lt i = absurd (omega arith)
    all-Known rank falls (suc n) b lt i =
        subst (λ (l : CollectiveList). Known l.list) (sym (computed b i))
          (computed-Known b (cfg.successors b) i (λ c m.
            let f = falls b c m in
            (below b c i m, all-Known rank falls n c (omega arith) (below b c i m))))

  module _ (p : Program) (cfg : Cfg) (res : LoopAggregationInfo) (comm : Option Value)
      (free : IsLoopFree p cfg res comm) (lists : CollLists) where
    open free use {rank, falls, below}

    -- What the calls of a block add.
    abbrev pub own : ℕ → Elements
    own b = (create_from_bb p lists false (cfg.calls b) comm).list

    abbrev pub TellsPaths : CollLists → Type 0
    TellsPaths ls =
        (b : ℕ)
        → In b cfg.blocks
        → (¬ HasNavs (list_at ls b).list
            → Trace cfg.successors own b (list_at ls b).list
              × ((t : Elements) → Trace cfg.successors own b t → t ≡ (list_at ls b).list))
          × (HasNavs (list_at ls b).list
              → (t : Elements) × (u : Elements) × Trace cfg.successors own b t
                × Trace cfg.successors own b u
                × (t ≢ u))

    -- Let a function have no loops, and let its calls not call it back; let the collectives, and the
    -- headers of the loops, in what its calls add be named apart, with neither an unknown collective
    -- nor NAVS among them. Then the traversal of the
    -- function returns, given enough fuel. If the list that it leaves for a block has no NAVS, this is
    -- the sequence of the collectives on every path from the block to an exit; if it has NAVS, two
    -- paths from the block have different sequences.
    pub visit_function-Trace :
        ((b : ℕ) → In b cfg.blocks → Known (own b))
        → ((b : ℕ) → In b cfg.blocks → ¬ HasNavs (own b))
        → (n : ℕ) × (w : Visit) × ((fuel : ℕ)
            → n ≤ fuel
            → visit_function fuel print_operand p cfg res comm lists ≡ some w)
          × TellsPaths w.lists
    visit_function-Trace known clean =
        let (n, w, runs, at, kept) =
          visit_function-computed print_operand p cfg res comm free lists in
        (
          n,
          w,
          runs,
          tells w (λ b i. (at b i).1) (λ b. ap (λ (l : CollectiveList). l.list) (kept b false)),
        )
      where
        tells :
            (w : Visit)
            → ((b : ℕ)
                → In b cfg.blocks
                → list_at w.lists b
                  ≡ compute print_operand p cfg comm w.lists (cfg.successors b) b false)
            → ((b : ℕ) → (create_from_bb p w.lists false (cfg.calls b) comm).list ≡ own b)
            → TellsPaths w.lists
        tells w at kept =
            let known_list =
              all-Known p cfg comm w.lists at below (λ b i. subst Known (sym (kept b)) (known b i))
                rank falls in
            let flat : (c : ℕ)
                → In c cfg.blocks
                → IsHeader print_operand IsBlock IsKnown names unique printed distinct
                    (list_at w.lists c).loop_header =
              λ c i.
                subst (IsHeader print_operand IsBlock IsKnown names unique printed distinct)
                  (sym (
                    flat_list p cfg comm w.lists at below
                      (λ b i. subst Known (sym (kept b)) (known b i)) c i))
                  tt in
            subst
              (λ (f : ℕ → Elements).
                (b : ℕ)
                → In b cfg.blocks
                → (¬ HasNavs (list_at w.lists b).list
                    → Trace cfg.successors f b (list_at w.lists b).list
                      × ((t : Elements)
                          → Trace cfg.successors f b t
                          → t ≡ (list_at w.lists b).list))
                  × (HasNavs (list_at w.lists b).list
                      → (t : Elements) × (u : Elements) × Trace cfg.successors f b t
                        × Trace cfg.successors f b u
                        × (t ≢ u)))
              (fun_ext kept)
              (compute-Trace print_operand p cfg comm w.lists below at
                (λ c d i j.
                  list_eq_iff print_operand IsBlock IsKnown names unique printed distinct
                    (list_at w.lists c) (list_at w.lists d)
                    (flat c i, known_list (suc (rank c)) c (omega arith) i)
                    (flat d j, known_list (suc (rank d)) d (omega arith) j))
                rank falls (λ b i h. clean b i (subst HasNavs (kept b) h)))
