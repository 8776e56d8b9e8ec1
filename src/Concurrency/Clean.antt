-- ===== src/Concurrency/Clean.antt =====
-- analyzeBB: the maps of a block stay clean where nothing is reported.
use parcoach.Base.{◌≡◌, ap, inl, inr, ℕ, Bool, false, none, some, ◌||◌, ◌==◌, arith, Bool-cases}
use parcoach.Concurrency.{
  Instruction, AccessMap, find_access, insert_access, assign, is_write, memory_operand,
}
use parcoach.Concurrency.Maps.{
  find_access-insert_access, find_access-assign, insert_access-HasUniqueKeys, assign-HasUniqueKeys,
}
use parcoach.Concurrency.Races.{conflict_of}
use parcoach.Concurrency.Blocks.{meets, IsClean, IsCalm}

module _ (may_alias : ℕ → ℕ → Bool) where
  -- No entry is met where none is stored for the memory of the instruction and no alias is.
  pub aliases-IsCalm :
      (i : Instruction) (x : ℕ) (m : AccessMap)
      → IsClean may_alias m
      → memory_operand i ≡ some x
      → find_access x m ≡ none
      → ((y : ℕ) (j : Instruction) → find_access y m ≡ some j → meets may_alias y j x i ≡ false)
      → IsCalm may_alias i m
  aliases-IsCalm i x m c e f calm y j g =
      let same = conflict_of may_alias j i y x (c.keyed y j g) e in
      let off = calm y j g in
      elim (Bool-cases (y == x)) [
        | inl here ↦
            let at : y ≡ x = ground arith in let lost = ap (λ k. find_access k m) at in ground arith
        | inr away ↦ ground arith
      ]

  -- No entry is met where one is stored for the memory of the instruction and neither writes.
  pub stored-IsCalm :
      (i prev : Instruction) (x : ℕ) (m : AccessMap)
      → IsClean may_alias m
      → memory_operand i ≡ some x
      → find_access x m ≡ some prev
      → is_write prev || is_write i ≡ false
      → IsCalm may_alias i m
  stored-IsCalm i prev x m c e f w y j g =
      let same = conflict_of may_alias j i y x (c.keyed y j g) e in
      elim (Bool-cases (y == x)) [
        | inl here ↦
            let at : y ≡ x = ground arith in let lost = ap (λ k. find_access k m) at in ground arith
        | inr away ↦ let off = c.apart y x j prev g f away in ground arith
      ]

  pub insert_access-IsClean :
      ((x y : ℕ) → may_alias x y ≡ may_alias y x)
      → (i : Instruction) (x : ℕ) (m : AccessMap) → IsClean may_alias m
      → memory_operand i ≡ some x
      → find_access x m ≡ none
      → ((y : ℕ) (j : Instruction) → find_access y m ≡ some j → meets may_alias y j x i ≡ false)
      → IsClean may_alias (insert_access x i m)
  insert_access-IsClean symmetric i x m c e f calm = record {
    unique = insert_access-HasUniqueKeys x i m f c.unique;
    keyed = λ y j g.
        let e' = find_access-insert_access y x i m f in
        elim (Bool-cases (x == y)) [
          | inl here ↦ ground arith
          | inr away ↦ c.keyed y j (ground arith)
        ];
    apart = λ y z j k g h n.
        let g' = find_access-insert_access y x i m f in
        let h' = find_access-insert_access z x i m f in
        elim (Bool-cases (x == y)) [
          | inl here ↦
              let at : x ≡ y = ground arith in
              let same : j ≡ i = ground arith in
              let off = calm z k (ground arith) in
              let swap = symmetric x z in let moved = ap (λ a. may_alias a z) at in ground arith
          | inr away ↦ elim (Bool-cases (x == z)) [
            | inl here ↦
                let at : x ≡ z = ground arith in
                let same : k ≡ i = ground arith in
                let off = calm y j (ground arith) in
                let moved = ap (λ a. may_alias y a) at in ground arith
            | inr far ↦ c.apart y z j k (ground arith) (ground arith) n
          ]
        ];
  }

  -- The new entry writes no more than the one that it replaces.
  pub assign-IsClean :
      (i prev : Instruction) (x : ℕ) (m : AccessMap)
      → IsClean may_alias m
      → memory_operand i ≡ some x
      → find_access x m ≡ some prev
      → is_write prev || is_write i ≡ false
      → IsClean may_alias (assign x i m)
  assign-IsClean i prev x m c e f w = record {
    unique = assign-HasUniqueKeys x i prev m f c.unique;
    keyed = λ y j g.
        let e' = find_access-assign y x i prev m f in
        elim (Bool-cases (x == y)) [
          | inl here ↦ ground arith
          | inr away ↦ c.keyed y j (ground arith)
        ];
    apart = λ y z j k g h n.
        let g' = find_access-assign y x i prev m f in
        let h' = find_access-assign z x i prev m f in
        elim (Bool-cases (x == y)) [
          | inl here ↦
              let at : x ≡ y = ground arith in
              let same : j ≡ i = ground arith in
              let moved = ap (λ a. find_access a m) at in
              let off = c.apart y z prev k (ground arith) (ground arith) n in ground arith
          | inr away ↦ elim (Bool-cases (x == z)) [
            | inl here ↦
                let at : x ≡ z = ground arith in
                let same : k ≡ i = ground arith in
                let moved = ap (λ a. find_access a m) at in
                let off = c.apart y z j prev (ground arith) (ground arith) n in ground arith
            | inr far ↦ c.apart y z j k (ground arith) (ground arith) n
          ]
        ];
  }
