-- ===== src/Concurrency/Races.antt =====
-- What the analysis looks for, without its map: two accesses with no synchronisation between them,
-- the first by a one-sided call, that may concern the same memory, and one of which writes.
use parcoach.Base.{
  ◌≡◌, refl, ◌⊎◌, ℕ, Bool, true, false, none, some, List, [], ◌∷◌, ◌||◌, ◌&&◌, ◌==◌, arith,
}
use parcoach.Concurrency.{
  Instruction, call, store, load, other, is_among, get_names, put_names, get_instruction_type,
  memory_operand, is_synchro, is_load_or_store, is_write,
}

-- A call of put or get.
unfoldable pub is_one_sided : Instruction → Bool
unfolding is_among
is_one_sided (call id (some name) operand) = is_among name get_names || is_among name put_names
is_one_sided (call id none operand) = false
is_one_sided (store id mem) = false
is_one_sided (load id mem) = false
is_one_sided (other id) = false

unfoldable pub conflict : (ℕ → ℕ → Bool) → Instruction → Instruction → Bool
unfolding memory_operand get_instruction_type
conflict may_alias i j = elim (memory_operand i) [
  | none ↦ false
  | some x ↦ elim (memory_operand j) [
    | none ↦ false
    | some y ↦ (x == y || may_alias x y) && (is_write i || is_write j)
  ]
]

-- One of the instructions conflicts with i, and no synchronisation stands before it.
abbrev pub Hits : (ℕ → ℕ → Bool) → Instruction → List Instruction → Type 0
Hits may_alias i [] = ⊥
Hits may_alias i (j ∷ js) =
    (is_synchro j ≡ false) × ((conflict may_alias i j ≡ true) ⊎ Hits may_alias i js)

abbrev pub Race : (ℕ → ℕ → Bool) → List Instruction → Type 0
Race may_alias [] = ⊥
Race may_alias (i ∷ is) = ((is_one_sided i ≡ true) × Hits may_alias i is) ⊎ Race may_alias is

pub stored-is_one_sided :
    (i : Instruction) (x : ℕ)
    → memory_operand i ≡ some x
    → is_load_or_store i ≡ false
    → is_one_sided i ≡ true
unfolding memory_operand is_load_or_store is_one_sided
stored-is_one_sided (call id none operand) x e l = ground arith
stored-is_one_sided (call id (some name) operand) x e l = ground arith
stored-is_one_sided (store id mem) x e l = ground arith
stored-is_one_sided (load id mem) x e l = ground arith
stored-is_one_sided (other id) x e l = ground arith

pub is_load_or_store-is_one_sided :
    (i : Instruction) → is_load_or_store i ≡ true → is_one_sided i ≡ false
unfolding is_load_or_store is_one_sided
is_load_or_store-is_one_sided (call id callee operand) l = ground arith
is_load_or_store-is_one_sided (store id mem) l = refl
is_load_or_store-is_one_sided (load id mem) l = refl
is_load_or_store-is_one_sided (other id) l = refl

-- An instruction without memory is no one-sided call and conflicts with nothing.
pub memory_operand-none : (i : Instruction) → memory_operand i ≡ none → is_one_sided i ≡ false
unfolding memory_operand is_one_sided
memory_operand-none (call id none operand) e = refl
memory_operand-none (call id (some name) operand) e = ground arith
memory_operand-none (store id mem) e = refl
memory_operand-none (load id mem) e = refl
memory_operand-none (other id) e = refl

pub conflict-none :
    (may_alias : ℕ → ℕ → Bool) (i j : Instruction)
    → memory_operand j ≡ none
    → conflict may_alias i j ≡ false
unfolding conflict
conflict-none may_alias i j e = ground arith

-- A synchronisation accesses no memory.
pub memory_operand-is_synchro :
    (i : Instruction) (x : ℕ) → memory_operand i ≡ some x → is_synchro i ≡ false
unfolding memory_operand is_synchro
memory_operand-is_synchro (call id none operand) x e = refl
memory_operand-is_synchro (call id (some name) operand) x e = ground arith
memory_operand-is_synchro (store id mem) x e = refl
memory_operand-is_synchro (load id mem) x e = refl
memory_operand-is_synchro (other id) x e = refl

pub conflict_of :
    (may_alias : ℕ → ℕ → Bool) (i j : Instruction) (x y : ℕ)
    → memory_operand i ≡ some x
    → memory_operand j ≡ some y
    → conflict may_alias i j ≡ ((x == y || may_alias x y) && (is_write i || is_write j))
unfolding conflict
conflict_of may_alias i j x y e f = ground arith
