-- ===== src/Static/Flow/Neighbors.antt =====
-- Steps of the computation of a list: the loop header is kept, and neighbors are compared.
use parcoach.Base.{
  none, ℕ, ◌≡◌, ◌≢◌, ◌↔◌, ◌⊎◌, inl, inr, refl, sym, ap, ◌∙◌, true, false, Bool-cases, Option,
  Option-cases, List, [], ◌∷◌, In, arith,
}
use parcoach.Static.Flow.{Cfg, list_at, compute}
use parcoach.Static.Collectives.{Text, Value, CallInst, Function}
use parcoach.Static.Lists.{
  append, navs_element, empty_list, create_from_bb, cons, Element, nil, Elements, added,
  CollectiveList, CollLists, Program, extend_with, extend_with_element, list_eq, neighbors_are_navs,
  act_on_function, act_on_may_calls, act_on_call, act_on_calls,
}

act_on_function-header :
    (p : Program) (lists : CollLists) (comm : Option Value) (ci : CallInst) (f : Function)
    (l : CollectiveList)
    → (act_on_function p lists comm ci f l).loop_header ≡ l.loop_header
unfolding act_on_function extend_with extend_with_element
act_on_function-header p lists comm ci f l = ground arith

act_on_may_calls-header :
    (p : Program) (lists : CollLists) (comm : Option Value) (ci : CallInst) (fs : List Function)
    (l : CollectiveList)
    → (act_on_may_calls p lists comm ci fs l).loop_header ≡ l.loop_header
unfolding act_on_may_calls
act_on_may_calls-header p lists comm ci [] l = refl
act_on_may_calls-header p lists comm ci (f ∷ fs) l = ground (
  arith,
  act_on_may_calls-header p lists comm ci fs l,
  act_on_may_calls-header p lists comm ci fs (act_on_function p lists comm ci f l),
  act_on_function-header p lists comm ci f l,
)

act_on_call-header :
    (p : Program) (lists : CollLists) (comm : Option Value) (ci : CallInst) (l : CollectiveList)
    → (act_on_call p lists comm ci l).loop_header ≡ l.loop_header
unfolding act_on_call
act_on_call-header p lists comm ci l = elim (Option-cases ci.called_function) [
  | inr (f, e) ↦ ground (arith, act_on_function-header p lists comm ci f l)
  | inl e ↦ elim (Option-cases (p.indirect_calls ci.id)) [
    | inl e' ↦ ground arith
    | inr (fs, e') ↦ ground (arith, act_on_may_calls-header p lists comm ci fs l)
  ]
]

pub act_on_calls-header :
    (p : Program) (lists : CollLists) (comm : Option Value) (cis : List CallInst)
    (l : CollectiveList)
    → (act_on_calls p lists comm cis l).loop_header ≡ l.loop_header
unfolding act_on_calls
act_on_calls-header p lists comm [] l = refl
act_on_calls-header p lists comm (ci ∷ cis) l =
    act_on_calls-header p lists comm cis (act_on_call p lists comm ci l)
    ∙ act_on_call-header p lists comm ci l

only : (a c : ℕ) → In c (a ∷ []) → c ≡ a
only a c (inl e) = e
only a c (inr m) = absurd m

-- Either two neighbors have different lists, or all have the same, as far as their texts tell.
pub neighbors_cases :
    (print_operand : ℕ → Text) (computed : ℕ → CollectiveList) (bbs : List ℕ)
    → ((c d : ℕ)
        → In c bbs
        → In d bbs
        → (list_eq print_operand (computed c) (computed d) ≡ true) ↔ (computed c ≡ computed d))
    → ((neighbors_are_navs print_operand computed bbs ≡ true)
        × ((c : ℕ) × (d : ℕ) × In c bbs × In d bbs × (computed c ≢ computed d)))
      ⊎ ((neighbors_are_navs print_operand computed bbs ≡ false)
          × ((c d : ℕ) → In c bbs → In d bbs → computed c ≡ computed d))
unfolding neighbors_are_navs
neighbors_cases print_operand computed [] decides = inr (refl, λ c d m. absurd m)
neighbors_cases print_operand computed (a ∷ []) decides =
    inr (refl, λ c d m m'. ap computed (only a c m ∙ sym (only a d m')))
neighbors_cases print_operand computed (a ∷ b ∷ bbs) decides =
    elim (Bool-cases (list_eq print_operand (computed a) (computed b))) [
      | inr no' ↦ inl (
        rw no' refl,
        (
          a,
          b,
          inl refl,
          inr (inl refl),
          λ e. let yes' = (decides a b (inl refl) (inr (inl refl))).1 e in ground arith,
        ),
      )
      | inl equal ↦
          elim (neighbors_cases print_operand computed (b ∷ bbs)
            (λ c d m m'. decides c d (inr m) (inr m'))) [
              | inl (e, (c, d, m, m', ne)) ↦ inl (rw (equal, e) refl, (c, d, inr m, inr m', ne))
              | inr (e, all) ↦ inr (
                rw (equal, e) refl,
                extend ((decides a b (inl refl) (inr (inl refl))).0 equal) all,
              )
            ]
    ]
  where
    extend :
        (same : computed a ≡ computed b)
        → ((c d : ℕ) → In c (b ∷ bbs) → In d (b ∷ bbs) → computed c ≡ computed d)
        → (c d : ℕ) → In c (a ∷ b ∷ bbs)
        → In d (a ∷ b ∷ bbs)
        → computed c ≡ computed d
    extend same all c d (inl e) (inl e') = ap computed (e ∙ sym e')
    extend same all c d (inl e) (inr m') = ap computed e ∙ same ∙ all b d (inl refl) m'
    extend same all c d (inr m) (inl e') = all c b m (inl refl) ∙ sym same ∙ ap computed (sym e')
    extend same all c d (inr m) (inr m') = all c d m m'

pub added_flat : (l : CollectiveList) → l.loop_header ≡ none → added l ≡ l.list
unfolding added
added_flat l flat = elim (list_cases l.list) [
  | inl e ↦ ground arith
  | inr (x, xs, e) ↦ ground arith
]
  where
    list_cases : (es : Elements) → (es ≡ nil) ⊎ ((x : Element) × (xs : Elements) × (es ≡ cons x xs))
    list_cases nil = inl refl
    list_cases (cons x xs) = inr (x, xs, refl)

module _ (print_operand : ℕ → Text) (p : Program) (cfg : Cfg) (comm : Option Value)
    (lists : CollLists) where
  pub compute-header :
      (bbs : List ℕ) (b : ℕ)
      → (compute print_operand p cfg comm lists bbs b false).loop_header ≡ none
  unfolding compute create_from_bb extend_with extend_with_element
  compute-header bbs b = ground (arith, act_on_calls-header p lists comm (cfg.calls b) empty_list)

  pub compute_navs :
      (bbs : List ℕ) (b : ℕ)
      → neighbors_are_navs print_operand (list_at lists) bbs ≡ true
      → (compute print_operand p cfg comm lists bbs b false).list ≡ cons navs_element nil
  unfolding compute create_from_bb extend_with_element append
  compute_navs bbs b nav = ground arith

  pub compute_alike :
      (c : ℕ) (cs : List ℕ) (b : ℕ)
      → neighbors_are_navs print_operand (list_at lists) (c ∷ cs) ≡ false
      → (compute print_operand p cfg comm lists (c ∷ cs) b false).list
        ≡ append (create_from_bb p lists false (cfg.calls b) comm).list (added (list_at lists c))
  unfolding compute extend_with
  compute_alike c cs b alike' = ground arith

  pub compute_nil :
      (b : ℕ)
      → compute print_operand p cfg comm lists [] b false
        ≡ create_from_bb p lists false (cfg.calls b) comm
  unfolding compute neighbors_are_navs
  compute_nil b = refl
