-- ===== src/Concurrency/Blocks.antt =====
-- analyzeBB: what one instruction does to the map of a block in which nothing has been reported.
use parcoach.Base.{
  subst, ◌≡◌, refl, ◌⊎◌, inl, inr, ◌↔◌, ℕ, Bool, true, false, none, some, List, [], ◌∷◌, ◌||◌, ◌&&◌,
  ◌==◌, arith, Bool-cases, Option-cases,
}
use parcoach.Concurrency.{
  Instruction, AccessMap, Reports, find_access, insert_access, assign, insert_report,
  report_aliases, is_write, memory_operand, is_synchro,
}
use parcoach.Concurrency.Maps.{HasUniqueKeys, find_access-insert_access, find_access-assign}
use parcoach.Concurrency.Races.{
  conflict, Hits, is_one_sided, memory_operand-none, conflict-none, memory_operand-is_synchro,
  conflict_of,
}

pub insert_report-nil : (i j : Instruction) (rs : Reports) → ¬ (insert_report i j rs ≡ [])
unfolding insert_report
insert_report-nil i j [] e = ground arith
insert_report-nil i j ((k, l) ∷ rs) e = ground arith

module _ (may_alias : ℕ → ℕ → Bool) where
  -- The entry j, stored for y, may concern the memory x of i, and one of them writes.
  abbrev pub meets : ℕ → Instruction → ℕ → Instruction → Bool
  meets y j x i = may_alias y x && (is_write j || is_write i)

  pub report_aliases-nil :
      (i : Instruction) (x : ℕ) (m : AccessMap) (rs : Reports)
      → report_aliases may_alias i x m rs ≡ []
      → (rs ≡ []) × ((y : ℕ) (j : Instruction) → find_access y m ≡ some j → meets y j x i ≡ false)
  unfolding report_aliases find_access
  report_aliases-nil i x [] rs e = (e, λ y j f. ground arith)
  report_aliases-nil i x ((key, k) ∷ m) rs e = elim (Bool-cases (meets key k x i)) [
    | inl yes' ↦
        let below = report_aliases-nil i x m (insert_report i k rs) (ground arith) in
        absurd (insert_report-nil i k rs below.0)
    | inr no' ↦
        let below = report_aliases-nil i x m rs (ground arith) in
        (
          below.0,
          λ y j f. elim (Bool-cases (key == y)) [
            | inl here ↦ ground arith
            | inr away ↦ let calm = below.1 y j in ground arith
          ],
        )
  ]

  pub report_aliases-cases :
      (i : Instruction) (x : ℕ) (m : AccessMap) (rs : Reports)
      → HasUniqueKeys m
      → (report_aliases may_alias i x m rs ≡ rs)
        ⊎ ((y : ℕ) × (j : Instruction) × (find_access y m ≡ some j) × (meets y j x i ≡ true))
  unfolding report_aliases find_access
  report_aliases-cases i x [] rs u = inl refl
  report_aliases-cases i x ((key, k) ∷ m) rs u = elim (Bool-cases (meets key k x i)) [
    | inl yes' ↦ inr (key, k, ground arith, yes')
    | inr no' ↦ elim (report_aliases-cases i x m rs u.1) [
      | inl e ↦ inl (ground arith)
      | inr (y, j, f, t) ↦ inr (y, j, ground arith, t)
    ]
  ]

  -- A map without conflicts between its entries, each of which is stored for its own memory.
  pub record IsClean (m : AccessMap) : Type 0 where
    pub unique : HasUniqueKeys m
    pub keyed : (x : ℕ) (i : Instruction) → find_access x m ≡ some i → memory_operand i ≡ some x
    pub apart :
        (x y : ℕ) (i j : Instruction)
        → find_access x m ≡ some i
        → find_access y m ≡ some j
        → (x == y) ≡ false
        → meets x i y j ≡ false

  pub nil-IsClean : IsClean []
  unfolding find_access
  nil-IsClean = record {
    unique = tt;
    keyed = λ x i f. ground arith;
    apart = λ x y i j f g n. ground arith;
  }

  -- An entry of the map is hit by one of the instructions.
  abbrev pub Pending : AccessMap → List Instruction → Type 0
  Pending m is = (y : ℕ) × (j : Instruction) × (find_access y m ≡ some j) × Hits may_alias j is

  -- The instruction conflicts with no entry.
  abbrev pub IsCalm : Instruction → AccessMap → Type 0
  IsCalm i m = (y : ℕ) (j : Instruction) → find_access y m ≡ some j → conflict may_alias j i ≡ false

  -- The pending accesses behind an instruction: those from before it, and its own.
  abbrev pub IsAfter : Instruction → AccessMap → AccessMap → Type 0
  IsAfter i m m' =
      (is : List Instruction)
      → Pending m' is ↔ (Pending m (i ∷ is) ⊎ ((is_one_sided i ≡ true) × Hits may_alias i is))

  pub synchro-IsAfter :
      (i : Instruction) (m : AccessMap)
      → memory_operand i ≡ none
      → is_synchro i ≡ true
      → IsAfter i m []
  unfolding find_access
  synchro-IsAfter i m e f is =
      let own = memory_operand-none i e in
      (
        λ (y, j, g, h). absurd (ground arith),
        λ h. absurd (elim h [ inl (y, j, g, (off, _)) ↦ ground arith | inr (o, _) ↦ ground arith ]),
      )

  pub other-IsAfter :
      (i : Instruction) (m : AccessMap)
      → is_synchro i ≡ false
      → is_one_sided i ≡ false
      → IsCalm i m
      → IsAfter i m m
  other-IsAfter i m f own calm is = (
    λ (y, j, g, h). inl (y, j, g, (f, inr h)),
    λ h. elim h [
      | inl (y, j, g, (_, inl c)) ↦ let calm' = calm y j g in ground arith
      | inl (y, j, g, (_, inr h)) ↦ (y, j, g, h)
      | inr (o, _) ↦ ground arith
    ],
  )

  pub insert_access-IsAfter :
      (i : Instruction) (x : ℕ) (m : AccessMap)
      → memory_operand i ≡ some x
      → is_one_sided i ≡ true
      → find_access x m ≡ none
      → IsCalm i m
      → IsAfter i m (insert_access x i m)
  insert_access-IsAfter i x m e own f calm is =
      let sync = memory_operand-is_synchro i x e in
      (
        λ (y, j, g, h). elim (Bool-cases (x == y)) [
          | inl here ↦
              let e' = find_access-insert_access y x i m f in
              let same : j ≡ i = ground arith in inr (own, subst (λ k. Hits may_alias k is) same h)
          | inr away ↦
              let e' = find_access-insert_access y x i m f in
              inl (y, j, ground arith, (sync, inr h))
        ],
        λ h. elim h [
          | inl (y, j, g, (_, inl c)) ↦ let calm' = calm y j g in ground arith
          | inl (y, j, g, (_, inr h)) ↦
              let e' = find_access-insert_access y x i m f in (y, j, ground arith, h)
          | inr (o, h) ↦ let e' = find_access-insert_access x x i m f in (x, i, ground arith, h)
        ],
      )

  -- Two accesses to one memory of which none writes are hit by the same instructions.
  Hits-same :
      (i j : Instruction) (x : ℕ) (is : List Instruction)
      → memory_operand i ≡ some x
      → memory_operand j ≡ some x
      → is_write i || is_write j ≡ false
      → Hits may_alias i is
      → Hits may_alias j is
  Hits-same i j x [] e f w h = h
  Hits-same i j x (k ∷ is) e f w h = (
    h.0,
    elim h.1 [
      | inl c ↦ inl (elim (Option-cases (memory_operand k)) [
        | inl out ↦ let off = conflict-none may_alias i k out in ground arith
        | inr (y, at) ↦
            let left = conflict_of may_alias i k x y e at in
            let right = conflict_of may_alias j k x y f at in ground arith
      ])
      | inr h ↦ inr (Hits-same i j x is e f w h)
    ],
  )

  pub assign-IsAfter :
      (i prev : Instruction) (x : ℕ) (m : AccessMap)
      → IsClean m
      → memory_operand i ≡ some x
      → is_one_sided i ≡ true
      → find_access x m ≡ some prev
      → is_write prev || is_write i ≡ false
      → IsCalm i m
      → IsAfter i m (assign x i m)
  assign-IsAfter i prev x m c e own f w calm is =
      let sync = memory_operand-is_synchro i x e in
      (
        λ (y, j, g, h). elim (Bool-cases (x == y)) [
          | inl here ↦
              let e' = find_access-assign y x i prev m f in
              let same : j ≡ i = ground arith in inr (own, subst (λ k. Hits may_alias k is) same h)
          | inr away ↦
              let e' = find_access-assign y x i prev m f in inl (y, j, ground arith, (sync, inr h))
        ],
        λ h. elim h [
          | inl (y, j, g, (_, inl c)) ↦ let calm' = calm y j g in ground arith
          | inl (y, j, g, (_, inr h)) ↦ elim (Bool-cases (x == y)) [
            | inl here ↦
                let e' = find_access-assign x x i prev m f in
                (
                  x,
                  i,
                  ground arith,
                  Hits-same prev i x is (c.keyed x prev f) e w (
                      let same : j ≡ prev = ground arith in
                      subst (λ k. Hits may_alias k is) same h),
                )
            | inr away ↦ let e' = find_access-assign y x i prev m f in (y, j, ground arith, h)
          ]
          | inr (o, h) ↦ let e' = find_access-assign x x i prev m f in (x, i, ground arith, h)
        ],
      )
