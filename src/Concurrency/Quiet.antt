-- ===== src/Concurrency/Quiet.antt =====
-- analyzeBB: a block is analyzed without a report exactly when there is no race in it.
use parcoach.Base.{
  ◌≡◌, refl, sym, ◌⊎◌, inl, inr, ◌↔◌, ℕ, Bool, true, none, some, List, [], ◌∷◌, ◌||◌, arith,
  Bool-cases, Option-cases, List-cases, subst,
}
use parcoach.Concurrency.{
  Instruction, AccessMap, BlockState, find_access, insert_access, assign, report_aliases, is_write,
  memory_operand, is_synchro, is_load_or_store, analyze_access, analyze_instruction, analyze_bb,
}
use parcoach.Concurrency.Races.{
  conflict, Hits, Race, stored-is_one_sided, is_load_or_store-is_one_sided, memory_operand-none,
  conflict-none, memory_operand-is_synchro, conflict_of,
}
use parcoach.Concurrency.Blocks.{
  IsClean, IsAfter, Pending, insert_report-nil, report_aliases-nil, report_aliases-cases,
  nil-IsClean, synchro-IsAfter, other-IsAfter, insert_access-IsAfter, assign-IsAfter,
}
use parcoach.Concurrency.Clean.{
  aliases-IsCalm, stored-IsCalm, insert_access-IsClean, assign-IsClean,
}

module _ (may_alias : ℕ → ℕ → Bool) where
  -- An entry that the instruction conflicts with.
  abbrev Meets : Instruction → AccessMap → Type 0
  Meets i m =
      (y : ℕ) × (j : Instruction) × (find_access y m ≡ some j) × (conflict may_alias j i ≡ true)

  -- What an instruction does to a clean map: it reports a conflict, or it leaves a clean map.
  abbrev Effect : Instruction → AccessMap → BlockState → Type 0
  Effect i m t =
      (Meets i m × ¬ (t.results ≡ []))
      ⊎ ((t.results ≡ []) × IsClean may_alias t.accesses × IsAfter may_alias i m t.accesses)

  module _ (symmetric : (x y : ℕ) → may_alias x y ≡ may_alias y x) where
    stored-Effect :
        (i prev : Instruction) (x : ℕ) (s : BlockState)
        → memory_operand i ≡ some x
        → find_access x s.accesses ≡ some prev
        → IsClean may_alias s.accesses
        → s.results ≡ []
        → Effect i s.accesses (analyze_access may_alias i x s)
    unfolding analyze_access
    stored-Effect i prev x s e f c q = elim (Bool-cases (is_write prev || is_write i)) [
      | inl loud ↦
          let same = conflict_of may_alias prev i x x (c.keyed x prev f) e in
          let grows = insert_report-nil i prev s.results in
          inl ((x, prev, f, ground arith), λ none_found. grows (ground arith))
      | inr quiet ↦
          let calm = stored-IsCalm may_alias i prev x s.accesses c e f quiet in
          elim (Bool-cases (is_load_or_store i)) [
            | inl local' ↦
                let own = is_load_or_store-is_one_sided i local' in
                let next : analyze_access may_alias i x s ≡ s = ground arith in
                let sync = memory_operand-is_synchro i x e in
                subst (Effect i s.accesses) (sym next)
                  (inr (q, c, other-IsAfter may_alias i s.accesses sync own calm))
            | inr remote ↦
                let own = stored-is_one_sided i x e remote in
                let next : analyze_access may_alias i x s
                    ≡ record s { accesses = assign x i s.accesses } =
                  ground arith in
                subst (Effect i s.accesses) (sym next) (
                  inr (
                    q,
                    assign-IsClean may_alias i prev x s.accesses c e f quiet,
                    assign-IsAfter may_alias i prev x s.accesses c e own f quiet calm,
                  ))
          ]
    ]

    new-Effect :
        (i : Instruction) (x : ℕ) (s : BlockState)
        → memory_operand i ≡ some x
        → find_access x s.accesses ≡ none
        → IsClean may_alias s.accesses
        → s.results ≡ []
        → Effect i s.accesses (analyze_access may_alias i x s)
    unfolding analyze_access
    new-Effect i x s e f c q =
        elim (List-cases (report_aliases may_alias i x s.accesses s.results)) [
          | inl quiet ↦
              let off = (report_aliases-nil may_alias i x s.accesses s.results quiet).1 in
              let calm = aliases-IsCalm may_alias i x s.accesses c e f off in
              elim (Bool-cases (is_load_or_store i)) [
                | inl local' ↦
                    let own = is_load_or_store-is_one_sided i local' in
                    let sync = memory_operand-is_synchro i x e in
                    let next : analyze_access may_alias i x s ≡ s = ground arith in
                    subst (Effect i s.accesses) (sym next)
                      (inr (q, c, other-IsAfter may_alias i s.accesses sync own calm))
                | inr remote ↦
                    let own = stored-is_one_sided i x e remote in
                    let next : analyze_access may_alias i x s
                        ≡ record { accesses = insert_access x i s.accesses; results = [] } =
                      ground arith in
                    subst (Effect i s.accesses) (sym next) (
                      inr (
                        refl,
                        insert_access-IsClean may_alias symmetric i x s.accesses c e f off,
                        insert_access-IsAfter may_alias i x s.accesses e own f calm,
                      ))
              ]
          | inr (r, rs, loud) ↦
              elim (report_aliases-cases may_alias i x s.accesses s.results c.unique) [
                | inl same ↦ absurd (ground arith)
                | inr (y, j, g, hit) ↦
                    let same = conflict_of may_alias j i y x (c.keyed y j g) e in
                    inl ((y, j, g, ground arith), λ none_found. ground arith)
              ]
        ]

    instruction-Effect :
        (i : Instruction) (s : BlockState)
        → IsClean may_alias s.accesses
        → s.results ≡ []
        → Effect i s.accesses (analyze_instruction may_alias i s)
    unfolding analyze_instruction
    instruction-Effect i s c q = elim (Option-cases (memory_operand i)) [
      | inl out ↦ elim (Bool-cases (is_synchro i)) [
        | inl sync ↦
            let next : analyze_instruction may_alias i s ≡ record s { accesses = [] } =
              ground arith in
            subst (Effect i s.accesses) (sym next)
              (inr (q, nil-IsClean may_alias, synchro-IsAfter may_alias i s.accesses out sync))
        | inr off ↦
            let next : analyze_instruction may_alias i s ≡ s = ground arith in
            subst (Effect i s.accesses) (sym next) (
              inr (
                q,
                c,
                other-IsAfter may_alias i s.accesses off (memory_operand-none i out)
                    (λ y j g. conflict-none may_alias j i out),
              ))
      ]
      | inr (x, e) ↦
          let next : analyze_instruction may_alias i s ≡ analyze_access may_alias i x s =
            ground arith in
          subst (Effect i s.accesses) (sym next) (elim (Option-cases (find_access x s.accesses)) [
            | inl f ↦ new-Effect i x s e f c q
            | inr (prev, f) ↦ stored-Effect i prev x s e f c q
          ])
    ]

    Hits-head :
        (i j : Instruction) (is : List Instruction)
        → conflict may_alias j i ≡ true
        → Hits may_alias j (i ∷ is)
    Hits-head i j is hit = elim (Option-cases (memory_operand i)) [
      | inl out ↦ let off = conflict-none may_alias j i out in absurd (ground arith)
      | inr (x, e) ↦ (memory_operand-is_synchro i x e, inl hit)
    ]

    analyze_instruction-nil :
        (i : Instruction) (s : BlockState)
        → (analyze_instruction may_alias i s).results ≡ []
        → s.results ≡ []
    unfolding analyze_instruction analyze_access
    analyze_instruction-nil i s e = elim (Option-cases (memory_operand i)) [
      | inl out ↦ ground arith
      | inr (x, at) ↦ elim (Option-cases (find_access x s.accesses)) [
        | inl f ↦ (report_aliases-nil may_alias i x s.accesses s.results (ground arith)).0
        | inr (prev, f) ↦ let grows = insert_report-nil i prev s.results in ground arith
      ]
    ]

    -- Nothing that has been reported is forgotten.
    analyze_bb-loud :
        (is : List Instruction) (s : BlockState)
        → ¬ (s.results ≡ [])
        → ¬ ((analyze_bb may_alias is s).results ≡ [])
    unfolding analyze_bb
    analyze_bb-loud [] s h = h
    analyze_bb-loud (i ∷ is) s h =
        analyze_bb-loud is (analyze_instruction may_alias i s)
          (λ e. h (analyze_instruction-nil i s e))

    -- If the alias relation is symmetric, nothing has been reported yet, and the entries that the
    -- block has from before do not conflict, then the block is analyzed without a report exactly when
    -- none of them is hit by a conflicting instruction before a synchronisation, and no one-sided call
    -- of the block is.
    pub analyze_bb_iff :
        (is : List Instruction) (s : BlockState)
        → IsClean may_alias s.accesses
        → s.results ≡ []
        → ((analyze_bb may_alias is s).results ≡ [])
          ↔ (¬ Pending may_alias s.accesses is × ¬ Race may_alias is)
    unfolding analyze_bb
    analyze_bb_iff [] s c q = (λ e. (λ (y, j, g, h). h, λ r. r), λ h. q)
    analyze_bb_iff (i ∷ is) s c q = elim (instruction-Effect i s c q) [
      | inl ((y, j, g, hit), loud) ↦ (
        λ e. absurd (analyze_bb-loud is (analyze_instruction may_alias i s) loud e),
        λ h. absurd (h.0 (y, j, g, Hits-head i j is hit)),
      )
      | inr (quiet, clean, after) ↦
          let below = analyze_bb_iff is (analyze_instruction may_alias i s) clean quiet in
          (
            λ e.
                let (clear, apart) = below.0 e in
                (
                  λ p. clear ((after is).1 (inl p)),
                  λ r. elim r [ inl own ↦ clear ((after is).1 (inr own)) | inr rest ↦ apart rest ],
                ),
            λ h. below.1 (
              λ p. elim ((after is).0 p) [ inl old ↦ h.0 old | inr own ↦ h.1 (inl own) ],
              λ rest. h.1 (inr rest),
            ),
          )
    ]
