-- ===== src/Concurrency/Successors.antt =====
-- The loops over the successors of a block: what they add to the queue and to the colors.
use parcoach.Base.{
  ◌≡◌, refl, ◌∙◌, ap, inl, inr, ℕ, true, false, List, [], ◌∷◌, ◌&&◌, ◌==◌, arith, Bool-cases, subst,
  All, All-append, In, In-append,
}
use parcoach.Concurrency.Graph.{
  Color, white, grey, Analysis, set_color, is_black, is_white, visit_successor, visit_successors,
}

pub set_color-is_black :
    (c b : ℕ) (color : Color) (s : Analysis)
    → c == b ≡ false
    → is_black (set_color b color s) c ≡ is_black s c
set_color-is_black c b color s away = rw (away, is_black) refl

module _ (Reached : ℕ → Type 0) where
  -- A round adds reached blocks to the queue, turns none of them black and finds no loop header.
  abbrev pub Grows : List ℕ → Analysis → List ℕ → Analysis → Type 0
  Grows queue s queue' t =
      (All Reached queue → All Reached queue')
      × ((c : ℕ) → In c queue → In c queue')
      × ((c : ℕ) → is_black t c ≡ is_black s c)
      × ((c : ℕ) → t.lheader_map c ≡ s.lheader_map c)

  visit_successor-Grows :
      (b succ : ℕ) (queue : List ℕ) (s : Analysis)
      → Reached succ
      → let (queue', t) = visit_successor (λ c. true) b succ queue s in Grows queue s queue' t
  unfolding visit_successor
  visit_successor-Grows b succ queue s r =
      elim (Bool-cases (s.llatch_map b && s.lheader_map succ)) [
        | inl skip ↦ rw (skip, visit_successor) (λ h. h, λ c m. m, λ c. refl, λ c. refl)
        | inr taken ↦ elim (Bool-cases (is_white s succ)) [
          | inl new ↦
              rw (taken, new, visit_successor)
                (
                  λ h. All-append Reached queue (succ ∷ []) h (r, tt),
                  λ c m. (In-append c queue (succ ∷ [])).1 (inl m),
                  λ c. elim (Bool-cases (c == succ)) [
                    | inl here ↦
                        let at : c ≡ succ = ground arith in
                        let moved = ap s.color_map at in ground arith
                    | inr away ↦ set_color-is_black c succ grey s away
                  ],
                  λ c. refl,
                )
          | inr seen ↦ rw (taken, seen, visit_successor) (λ h. h, λ c m. m, λ c. refl, λ c. refl)
        ]
      ]

  pub visit_successors-Grows :
      (b : ℕ) (succs queue : List ℕ) (s : Analysis)
      → All Reached succs
      → let (queue', t) = visit_successors (λ c. true) b succs queue s in Grows queue s queue' t
  unfolding visit_successors
  visit_successors-Grows b [] queue s r = (λ h. h, λ c m. m, λ c. refl, λ c. refl)
  visit_successors-Grows b (succ ∷ succs) queue s r =
      let (queue', t) = visit_successor (λ c. true) b succ queue s in
      let first = visit_successor-Grows b succ queue s r.0 in
      let rest = visit_successors-Grows b succs queue' t r.1 in
      (
        λ h. rest.0 (first.0 h),
        λ c m. rest.1 c (first.1 c m),
        λ c. rest.2 c ∙ first.2 c,
        λ c. rest.3 c ∙ first.3 c,
      )

  visit_successor-other :
      (b c succ : ℕ) (queue : List ℕ) (s : Analysis)
      → c == succ ≡ false
      → let t = (visit_successor (λ d. true) b succ queue s).1 in
        (t.color_map c ≡ s.color_map c) × (t.llatch_map b ≡ s.llatch_map b)
  unfolding visit_successor
  visit_successor-other b c succ queue s away =
      elim (Bool-cases (s.llatch_map b && s.lheader_map succ)) [
        | inl skip ↦ rw (skip, visit_successor) (refl, refl)
        | inr taken ↦ elim (Bool-cases (is_white s succ)) [
          | inl new ↦ rw (taken, new, visit_successor) (rw away refl, refl)
          | inr seen ↦ rw (taken, seen, visit_successor) (refl, refl)
        ]
      ]

  visit_successor-white :
      (b succ : ℕ) (queue : List ℕ) (s : Analysis)
      → s.color_map succ ≡ white
      → s.llatch_map b ≡ false
      → In succ (visit_successor (λ d. true) b succ queue s).0
  unfolding visit_successor
  visit_successor-white b succ queue s w l =
      let new : is_white s succ ≡ true = ground arith in
      rw (l, new, visit_successor) ((In-append succ queue (succ ∷ [])).1 (inr (inl refl)))

  -- A white successor is in the queue afterwards.
  pub visit_successors-In :
      (b c : ℕ) (succs queue : List ℕ) (s : Analysis)
      → All Reached succs
      → In c succs
      → s.color_map c ≡ white
      → s.llatch_map b ≡ false
      → In c (visit_successors (λ d. true) b succs queue s).0
  unfolding visit_successors
  visit_successors-In b c [] queue s r m w l = absurd m
  visit_successors-In b c (succ ∷ succs) queue s r m w l =
      let (queue', t) = visit_successor (λ d. true) b succ queue s in
      elim (Bool-cases (c == succ)) [
        | inl here ↦
            let at : succ ≡ c = ground arith in
            let white' : s.color_map succ ≡ white = ap s.color_map at ∙ w in
            let found = visit_successor-white b succ queue s white' l in
            (visit_successors-Grows b succs queue' t r.1).1 c (subst (λ d. In d queue') at found)
        | inr away ↦
            let (color, latch) = visit_successor-other b c succ queue s away in
            visit_successors-In b c succs queue' t r.1 (ground arith) (color ∙ w) (latch ∙ l)
      ]
