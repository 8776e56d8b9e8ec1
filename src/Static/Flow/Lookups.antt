-- ===== src/Static/Flow/Lookups.antt =====
-- Lists that are looked up behind a write, and neighbors whose lists are the same.
use parcoach.Base.{
  ℕ, ◌≡◌, inl, inr, refl, ap, ◌∙◌, true, false, not, ◌||◌, Option, none, some, List, [], ◌∷◌, ◌==◌,
  In, if_true, if_false,
}
use parcoach.Static.Collectives.{Text}
use parcoach.Static.Lists.{CollectiveList, CollLists, list_eq, neighbors_are_navs}
use parcoach.Static.Flow.{empty_list, list_at, set_list}

pub neighbors_cong :
    (print_operand : ℕ → Text) (f g : ℕ → CollectiveList) (bbs : List ℕ)
    → ((c : ℕ) → In c bbs → f c ≡ g c)
    → neighbors_are_navs print_operand f bbs ≡ neighbors_are_navs print_operand g bbs
unfolding neighbors_are_navs
neighbors_cong print_operand f g [] h = refl
neighbors_cong print_operand f g (a ∷ []) h = refl
neighbors_cong print_operand f g (a ∷ b ∷ bbs) h =
    ap (λ x. not (list_eq print_operand x (f b)) || neighbors_are_navs print_operand f (b ∷ bbs))
      (h a (inl refl))
    ∙ ap (λ x. not (list_eq print_operand (g a) x) || neighbors_are_navs print_operand f (b ∷ bbs))
        (h b (inr (inl refl)))
    ∙ ap (λ x. not (list_eq print_operand (g a) (g b)) || x)
        (neighbors_cong print_operand f g (b ∷ bbs) (λ c m. h c (inr m)))

pub set_list_self :
    (lists : CollLists) (bb c : ℕ) (l : CollectiveList)
    → (c == bb) ≡ true
    → list_at (set_list lists bb l) c ≡ l
unfolding set_list
set_list_self lists bb c l e =
    ap (λ (o : Option CollectiveList). elim o [ none ↦ empty_list | some x ↦ x ])
      (if_true (some l) (lists c) e refl)

pub set_list_other :
    (lists : CollLists) (bb c : ℕ) (l : CollectiveList)
    → (c == bb) ≡ false
    → list_at (set_list lists bb l) c ≡ list_at lists c
unfolding set_list
set_list_other lists bb c l e =
    ap (λ (o : Option CollectiveList). elim o [ none ↦ empty_list | some x ↦ x ])
      (if_false (some l) (lists c) e refl)
