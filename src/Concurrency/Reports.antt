-- ===== src/Concurrency/Reports.antt =====
-- The reports of a function: the traversal reports nothing but conflicts.
use parcoach.Base.{
  ◌≡◌, inl, inr, ℕ, Bool, true, some, List, [], ◌∷◌, ◌||◌, ◌&&◌, ◌==◌, arith, Bool-cases,
  Option-cases, subst, All,
}
use parcoach.Concurrency.{
  instruction_id, Instruction, AccessMap, Reports, BlockState, find_access, insert_access, assign,
  insert_report, report_aliases, is_write, memory_operand, is_synchro, is_load_or_store,
  analyze_access, analyze_instruction, analyze_bb,
}
use parcoach.Concurrency.Races.{conflict, is_one_sided, stored-is_one_sided, conflict_of}

module _ (may_alias : ℕ → ℕ → Bool) (Known : Instruction → Type 0) where
  -- The second instruction is a one-sided call, and the first one conflicts with it.
  abbrev pub IsConflict : Instruction × Instruction → Type 0
  IsConflict (i, j) = Known i × Known j × (is_one_sided j ≡ true) × (conflict may_alias j i ≡ true)

  -- An entry is a known one-sided call on the memory that it is stored for.
  abbrev pub IsKept : ℕ × Instruction → Type 0
  IsKept (x, i) = Known i × (is_one_sided i ≡ true) × (memory_operand i ≡ some x)

  pub insert_access-IsKept :
      (x : ℕ) (i : Instruction) (m : AccessMap)
      → IsKept (x, i)
      → All IsKept m
      → All IsKept (insert_access x i m)
  unfolding insert_access
  insert_access-IsKept x i [] k h = (k, tt)
  insert_access-IsKept x i ((y, j) ∷ m) k h = elim (Bool-cases (y == x)) [
    | inl here ↦ rw here h
    | inr away ↦ rw away (h.0, insert_access-IsKept x i m k h.1)
  ]

  assign-IsKept :
      (x : ℕ) (i : Instruction) (m : AccessMap)
      → IsKept (x, i)
      → All IsKept m
      → All IsKept (assign x i m)
  unfolding assign
  assign-IsKept x i [] k h = tt
  assign-IsKept x i ((y, j) ∷ m) k h = elim (Bool-cases (y == x)) [
    | inl here ↦ rw here ((k.0, k.1, ground arith), h.1)
    | inr away ↦ rw away (h.0, assign-IsKept x i m k h.1)
  ]

  find_access-IsKept :
      (x : ℕ) (i : Instruction) (m : AccessMap)
      → find_access x m ≡ some i
      → All IsKept m
      → IsKept (x, i)
  unfolding find_access
  find_access-IsKept x i [] e h = absurd (ground arith)
  find_access-IsKept x i ((y, j) ∷ m) e h = elim (Bool-cases (y == x)) [
    | inl here ↦
        let same : j ≡ i = ground arith in
        let at : y ≡ x = ground arith in (subst Known same h.0.0, ground arith, ground arith)
    | inr away ↦ find_access-IsKept x i m (ground arith) h.1
  ]

  insert_report-IsConflict :
      (i j : Instruction) (rs : Reports)
      → IsConflict (i, j)
      → All IsConflict rs
      → All IsConflict (insert_report i j rs)
  unfolding insert_report
  insert_report-IsConflict i j [] c h = (c, tt)
  insert_report-IsConflict i j ((k, l) ∷ rs) c h =
      elim (Bool-cases
        ((instruction_id k == instruction_id i) && (instruction_id l == instruction_id j))) [
          | inl here ↦ rw here h
          | inr away ↦ rw away (h.0, insert_report-IsConflict i j rs c h.1)
        ]

  report_aliases-IsConflict :
      (i : Instruction) (x : ℕ) (m : AccessMap) (rs : Reports)
      → Known i
      → memory_operand i ≡ some x
      → All IsKept m
      → All IsConflict rs
      → All IsConflict (report_aliases may_alias i x m rs)
  unfolding report_aliases
  report_aliases-IsConflict i x [] rs k e h c = c
  report_aliases-IsConflict i x ((y, j) ∷ m) rs k e h c =
      elim (Bool-cases (may_alias y x && (is_write j || is_write i))) [
        | inl hit ↦
            let same = conflict_of may_alias j i y x h.0.2 e in
            let own : IsConflict (i, j) = (k, h.0.0, h.0.1, ground arith) in
            rw hit (
              report_aliases-IsConflict i x m (insert_report i j rs) k e h.1
                (insert_report-IsConflict i j rs own c))
        | inr off ↦ rw off (report_aliases-IsConflict i x m rs k e h.1 c)
      ]

  -- What holds of the accesses and the results throughout.
  abbrev pub IsSound : BlockState → Type 0
  IsSound s = All IsKept s.accesses × All IsConflict s.results

  analyze_access-IsSound :
      (i : Instruction) (x : ℕ) (s : BlockState)
      → Known i
      → memory_operand i ≡ some x
      → IsSound s
      → IsSound (analyze_access may_alias i x s)
  unfolding analyze_access
  analyze_access-IsSound i x s k e (h, c) = elim (Option-cases (find_access x s.accesses)) [
    | inl f ↦
        let reported = report_aliases-IsConflict i x s.accesses s.results k e h c in
        elim (Bool-cases (is_load_or_store i)) [
          | inl local' ↦ rw (f, analyze_access, local') (h, reported)
          | inr remote ↦
              rw (f, analyze_access, remote)
                (
                  insert_access-IsKept x i s.accesses (k, stored-is_one_sided i x e remote, e) h,
                  reported,
                )
        ]
    | inr (prev, f) ↦
        let (known, own, at) = find_access-IsKept x prev s.accesses f h in
        elim (Bool-cases (is_write prev || is_write i)) [
          | inl hit ↦
              let same = conflict_of may_alias prev i x x at e in
              let pair : IsConflict (i, prev) = (k, known, own, ground arith) in
              rw (f, analyze_access, hit) (h, insert_report-IsConflict i prev s.results pair c)
          | inr off ↦ elim (Bool-cases (is_load_or_store i)) [
            | inl local' ↦ rw (f, analyze_access, off, local') (h, c)
            | inr remote ↦
                rw (f, analyze_access, off, remote)
                  (assign-IsKept x i s.accesses (k, stored-is_one_sided i x e remote, e) h, c)
          ]
        ]
  ]

  pub analyze_bb-IsSound :
      (is : List Instruction) (s : BlockState)
      → All Known is
      → IsSound s
      → IsSound (analyze_bb may_alias is s)
  unfolding analyze_bb analyze_instruction
  analyze_bb-IsSound [] s k h = h
  analyze_bb-IsSound (i ∷ is) s k h =
      analyze_bb-IsSound is (analyze_instruction may_alias i s) k.1
        (elim (Option-cases (memory_operand i)) [
          | inl out ↦ elim (Bool-cases (is_synchro i)) [
            | inl sync ↦ rw (out, analyze_instruction, sync) (tt, h.1)
            | inr off ↦ rw (out, analyze_instruction, off) h
          ]
          | inr (x, e) ↦ rw (e, analyze_instruction) (analyze_access-IsSound i x s k.0 e h)
        ])
