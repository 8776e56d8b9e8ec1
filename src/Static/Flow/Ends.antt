-- ===== src/Static/Flow/Ends.antt =====
-- The traversal of a function without loops comes to its end, with the lists of all blocks.
use parcoach.Base.{
  ℕ, zero, suc, ◌≤◌, ◌<◌, ◌≡◌, inl, inr, refl, sym, ap, ◌∙◌, subst, Bool-cases, true, Option, some,
  List, [], ◌∷◌, ◌++◌, length, length-append, In, In-append, arith,
}
use parcoach.Static.Collectives.{Text, Value}
use parcoach.Static.Lists.{Program}
use parcoach.Static.Lists.Splits.{append_assoc}
use parcoach.Static.Flow.{
  CollLists, Cfg, LoopAggregationInfo, Visit, enqueue_all, all_done, visit_loop,
}
use parcoach.Static.Flow.Rounds.{step-IsOrdered}
use parcoach.Static.Flow.Remaining.{remaining, In-split}
use parcoach.Static.Flow.Ready.{
  IsLoopFree, Ordered, IsTight, step, Ends, behind, IsLess, ready, step_done, step_waits,
  step-IsTight, step-IsLess,
}

module _ (print_operand : ℕ → Text) (p : Program) (cfg : Cfg) (res : LoopAggregationInfo)
    (comm : Option Value) (free : IsLoopFree p cfg res comm) (lists₀ : CollLists) where
  open free use {no_header, no_exit, linked, back, no_recursion, rank, falls, above, below}

  visit_loop-cons :
      (fuel bb : ℕ) (queue : List ℕ) (v : Visit)
      → v.queue ≡ bb ∷ queue
      → visit_loop (suc fuel) print_operand p cfg res comm v
        ≡ visit_loop fuel print_operand p cfg res comm
            (step print_operand p cfg res comm free lists₀ bb queue v)
  unfolding visit_loop
  visit_loop-cons fuel bb queue v e = ground arith

  visit_loop-nil :
      (fuel : ℕ) (v : Visit)
      → v.queue ≡ []
      → visit_loop fuel print_operand p cfg res comm v ≡ some v
  unfolding visit_loop
  visit_loop-nil zero v e = ground arith
  visit_loop-nil (suc fuel) v e = ground arith

  step-Ends :
      (bb : ℕ) (queue : List ℕ) (v : Visit)
      → v.queue ≡ bb ∷ queue
      → Ends print_operand p cfg res comm free lists₀
          (step print_operand p cfg res comm free lists₀ bb queue v)
      → Ends print_operand p cfg res comm free lists₀ v
  step-Ends bb queue v e (n, w, runs, o, t, done) =
      (suc n, w, λ fuel le. round fuel le runs, o, t, done)
    where
      round :
          (fuel : ℕ)
          → suc n ≤ fuel
          → ((fuel : ℕ)
              → n ≤ fuel
              → visit_loop fuel print_operand p cfg res comm
                  (step print_operand p cfg res comm free lists₀ bb queue v)
                ≡ some w)
          → visit_loop fuel print_operand p cfg res comm v ≡ some w
      round zero le runs = absurd (omega arith)
      round (suc fuel) le runs = visit_loop-cons fuel bb queue v e ∙ runs fuel (omega arith)

  visit_front :
      (c : ℕ) (post : List ℕ) (v : Visit)
      → v.queue ≡ c ∷ post
      → all_done v (cfg.successors c) ≡ true
      → Ordered print_operand p cfg res comm free lists₀ v
      → IsTight print_operand p cfg res comm free lists₀ v
      → ((w : Visit)
          → Ordered print_operand p cfg res comm free lists₀ w
          → IsTight print_operand p cfg res comm free lists₀ w
          → IsLess print_operand p cfg res comm free lists₀ w v
          → Ends print_operand p cfg res comm free lists₀ w)
      → Ends print_operand p cfg res comm free lists₀ v
  visit_front c post v e done o t next =
      let same = step_done print_operand p cfg res comm free lists₀ c post v done in
      step-Ends c post v e (
        subst (Ends print_operand p cfg res comm free lists₀) (sym same) (
          next
            (enqueue_all (cfg.predecessors c)
              (behind print_operand p cfg res comm free lists₀ c post v))
            (subst (Ordered print_operand p cfg res comm free lists₀) same (
              step-IsOrdered print_operand p cfg res comm no_header no_exit linked no_recursion c
                post v (t.0 c (subst (In c) (sym e) (inl refl))).0 e o))
            (step-IsTight print_operand p cfg res comm free lists₀ c post v e t)
            (step-IsLess print_operand p cfg res comm free lists₀ c post v e o t)))

  -- Postponed blocks go to the end until one is ready.
  rotate :
      (pre : List ℕ) (c : ℕ) (post : List ℕ) (v : Visit)
      → v.queue ≡ pre ++ c ∷ post
      → all_done v (cfg.successors c) ≡ true
      → Ordered print_operand p cfg res comm free lists₀ v
      → IsTight print_operand p cfg res comm free lists₀ v
      → ((w : Visit)
          → Ordered print_operand p cfg res comm free lists₀ w
          → IsTight print_operand p cfg res comm free lists₀ w
          → IsLess print_operand p cfg res comm free lists₀ w v
          → Ends print_operand p cfg res comm free lists₀ w)
      → Ends print_operand p cfg res comm free lists₀ v
  unfolding all_done
  rotate [] c post v e done o t next = visit_front c post v e done o t next
  rotate (b ∷ pre) c post v e done o t next = elim (Bool-cases (all_done v (cfg.successors b))) [
    | inl done' ↦ visit_front b (pre ++ c ∷ post) v e done' o t next
    | inr waits ↦
        let same =
          step_waits print_operand p cfg res comm free lists₀ b (pre ++ c ∷ post) v waits in
        step-Ends b (pre ++ c ∷ post) v e (
          subst (Ends print_operand p cfg res comm free lists₀) (sym same) (
            rotate pre c (post ++ b ∷ []) (record v { queue = (pre ++ c ∷ post) ++ b ∷ [] })
              (append_assoc pre (c ∷ post) (b ∷ [])) done
              (subst (Ordered print_operand p cfg res comm free lists₀) same (
                step-IsOrdered print_operand p cfg res comm no_header no_exit linked no_recursion b
                  (pre ++ c ∷ post) v (t.0 b (subst (In b) (sym e) (inl refl))).0 e o))
              (tight e) (λ w o' t' less. next w o' t' (less_than e w less))))
  ]
    where
      tight :
          v.queue ≡ b ∷ pre ++ c ∷ post
          → IsTight print_operand p cfg res comm free lists₀
              (record v { queue = (pre ++ c ∷ post) ++ b ∷ [] })
      tight e = (
        λ x m. elim ((In-append x (pre ++ c ∷ post) (b ∷ [])).0 m) [
          | inl m' ↦ t.0 x (subst (In x) (sym e) (inr m'))
          | inr last ↦ elim last [
            | inl same ↦ t.0 x (subst (In x) (sym e) (inl same))
            | inr none_left ↦ absurd none_left
          ]
        ],
        t.1,
      )

      less_than :
          v.queue ≡ b ∷ pre ++ c ∷ post
          → (w : Visit)
          → IsLess print_operand p cfg res comm free lists₀ w
              (record v { queue = (pre ++ c ∷ post) ++ b ∷ [] })
          → IsLess print_operand p cfg res comm free lists₀ w v
      less_than e w (inl fewer) = inl fewer
      less_than e w (inr (le, lt)) =
          let front = ap length e in
          let rotated = length-append (pre ++ c ∷ post) (b ∷ []) in inr (le, omega arith)

  pub ends :
      (n m : ℕ) (v : Visit)
      → remaining cfg.blocks v.states < n
      → length v.queue < m
      → Ordered print_operand p cfg res comm free lists₀ v
      → IsTight print_operand p cfg res comm free lists₀ v
      → Ends print_operand p cfg res comm free lists₀ v
  ends zero m v lt lt' o t = absurd (omega arith)
  ends (suc n) zero v lt lt' o t = absurd (omega arith)
  ends (suc n) (suc m) v lt lt' o t = from_queue v.queue refl (λ w o' t' less. elim less [
    | inl fewer ↦ ends n (suc (length w.queue)) w (omega arith) (omega arith) o' t'
    | inr (le, shorter) ↦ ends (suc n) m w (omega arith) (omega arith) o' t'
  ])
    where
      from_queue :
          (queue : List ℕ)
          → v.queue ≡ queue
          → ((w : Visit)
              → Ordered print_operand p cfg res comm free lists₀ w
              → IsTight print_operand p cfg res comm free lists₀ w
              → IsLess print_operand p cfg res comm free lists₀ w v
              → Ends print_operand p cfg res comm free lists₀ w)
          → Ends print_operand p cfg res comm free lists₀ v
      from_queue [] e next = (0, v, λ fuel le. visit_loop-nil fuel v e, o, t, e)
      from_queue (bb ∷ queue) e next =
          let (c, m, done) = ready print_operand p cfg res comm free lists₀ bb queue v e o t in
          let (pre, post, place) = In-split c v.queue m in rotate pre c post v place done o t next
