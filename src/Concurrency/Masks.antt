-- ===== src/Concurrency/Masks.antt =====
-- analyzeBB: an access that has been reported is not stored.
use parcoach.Base.{◌≡◌, refl, ℕ, Bool, true, false, some, [], ◌∷◌, arith}
use parcoach.Concurrency.{
  is_load_or_store, Instruction, BlockState, find_access, insert_report, is_write, memory_operand,
  analyze_access, analyze_instruction, analyze_bb,
}
use parcoach.Concurrency.Races.{conflict, conflict_of}

-- A get on memory for which a put is stored is reported against the put and not stored. A load of
-- that memory behind it conflicts with the get, but it is compared with the put only: nothing more
-- is reported.
pub analyze_bb-masked :
    (may_alias : ℕ → ℕ → Bool) (p g l : Instruction) (x : ℕ) (s : BlockState)
    → find_access x s.accesses ≡ some p
    → is_write p ≡ false
    → is_write g ≡ true
    → is_write l ≡ false
    → is_load_or_store l ≡ true
    → memory_operand g ≡ some x
    → memory_operand l ≡ some x
    → ((analyze_bb may_alias (g ∷ l ∷ []) s).results ≡ insert_report g p s.results)
      × (conflict may_alias g l ≡ true)
unfolding analyze_bb analyze_instruction analyze_access
analyze_bb-masked may_alias p g l x s f read_p write_g read_l local' at_g at_l =
    let same = conflict_of may_alias g l x x at_g at_l in
    let t : BlockState = record s { results = insert_report g p s.results } in
    let first : analyze_instruction may_alias g s ≡ t = ground arith in
    let second : analyze_instruction may_alias l t ≡ t = ground arith in
    (rw (first, second, analyze_bb) refl, ground arith)
