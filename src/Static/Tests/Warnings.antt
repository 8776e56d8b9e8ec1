-- ===== src/Static/Tests/Warnings.antt =====
-- A warning about the collective in one branch of a function, whose condition is tainted.
use parcoach.Base.{
  false, sym, subst, arith, ℕ, zero, suc, ◌≡◌, ◌≢◌, inl, inr, refl, true, none, some, [], ◌∷◌, In,
}
use parcoach.Static.Collectives.{Value, Collective, other, Function, value_eq, find_collective}
use parcoach.Static.Lists.{
  neighbors_are_navs, Elements, coll_element, navs_element, nil, cons, append, CollLists,
  create_from_bb, navs_front,
}
use parcoach.Static.Flow.{list_at, compute}
use parcoach.Static.Flow.Merges.{Trace, at_exit, through}
use parcoach.Static.Flow.Whole.{own, TellsPaths}
use parcoach.Static.Warnings.{
  concerns, comm_for_collective, Facts, Terminator, conditional_branch, unconditional_branch,
  Warning, ListsPerComm, check_warnings, is_tainted_block,
}
use parcoach.Static.Warnings.Complete.{check_warnings-differ}
use parcoach.Static.Warnings.Paths.{IsPlain, check_warnings-TellsPaths}
use parcoach.Static.Tests.{
  coll, print_block, IsAnyBlock, IsColl, one, program, call, succs, branch, no_loops, no_lists,
  branch_comm-IsLoopFree, coll-IsNaming,
}

-- The lists that the traversal of the branch leaves.
abbrev lists : CollLists
lists zero = some (record { loop_header = none; list = cons navs_element nil })
lists (suc zero) = some one
lists (suc (suc n)) = some (record { loop_header = none; list = nil })

-- For another communicator nothing is called.
abbrev quiet_lists : CollLists
quiet_lists b = some (record { loop_header = none; list = nil })

abbrev both : ListsPerComm
both = (other 6, quiet_lists) ∷ (other 5, lists) ∷ []

abbrev own_for : Value → ℕ → Elements
own_for comm =
    own print_block IsAnyBlock IsColl coll-IsNaming program branch no_loops (some comm)
      (branch_comm-IsLoopFree comm) no_lists

abbrev own_of : ℕ → Elements
own_of = own_for (other 5)

exit_only : (n : ℕ) (t : Elements) → Trace succs own_of (suc n) t → t ≡ own_of (suc n)
exit_only n t (at_exit e) = refl
exit_only n t (through m trace) = absurd m

lists-TellsPaths :
    TellsPaths print_block IsAnyBlock IsColl coll-IsNaming program branch no_loops
      (some (other 5))
      (branch_comm-IsLoopFree (other 5))
      no_lists
      lists
unfolding create_from_bb append
lists-TellsPaths zero m = (
  λ h. absurd (h (inl refl)),
  λ h. (
    cons (coll_element coll) nil,
    nil,
    through {b = 0} {c = 1} (inl refl) (at_exit refl),
    through {b = 0} {c = 2} (inr (inl refl)) (at_exit refl),
    λ e. cc,
  ),
)
lists-TellsPaths (suc zero) m = (
  λ h. (at_exit refl, λ t trace. exit_only 0 t trace),
  λ h. absurd (elim h [ inl e ↦ cc | inr m' ↦ m' ]),
)
lists-TellsPaths (suc (suc n)) m =
    (λ h. (at_exit refl, λ t trace. exit_only (suc n) t trace), λ h. absurd h)

own_nil : (b : ℕ) → own_for (other 6) b ≡ nil
unfolding create_from_bb value_eq
own_nil zero = refl
own_nil (suc zero) = refl
own_nil (suc (suc n)) = refl

Trace-nil : (b : ℕ) (t : Elements) → Trace succs (own_for (other 6)) b t → t ≡ nil
unfolding append
Trace-nil b t (at_exit e) = own_nil b
Trace-nil b t (through {b = x} {t = u} m trace) =
    let rest = Trace-nil _ u trace in rw (own_nil x, rest) refl

nil-Trace : (b : ℕ) → Trace succs (own_for (other 6)) b nil
unfolding append create_from_bb value_eq
nil-Trace zero = through {b = 0} {c = 1} (inl refl) (at_exit refl)
nil-Trace (suc zero) = at_exit refl
nil-Trace (suc (suc n)) = at_exit refl

quiet-TellsPaths :
    TellsPaths print_block IsAnyBlock IsColl coll-IsNaming program branch no_loops
      (some (other 6))
      (branch_comm-IsLoopFree (other 6))
      no_lists
      quiet_lists
quiet-TellsPaths b m = (λ h. (nil-Trace b, Trace-nil b), λ h. absurd h)

both-TellsPaths :
    (comm : Value) (ls : CollLists)
    → In (comm, ls) both
    → TellsPaths print_block IsAnyBlock IsColl coll-IsNaming program branch no_loops
        (some comm)
        (branch_comm-IsLoopFree comm)
        no_lists
        ls
both-TellsPaths comm ls m = elim m [
  | inl e ↦ subst (λ (x : Value × CollLists). tells x) (sym e) quiet-TellsPaths
  | inr (inl e) ↦ subst (λ (x : Value × CollLists). tells x) (sym e) lists-TellsPaths
  | inr (inr m') ↦ absurd m'
]
  where
    tells : Value × CollLists → Type 0
    tells x =
        TellsPaths print_block IsAnyBlock IsColl coll-IsNaming program branch no_loops (some x.0)
          (branch_comm-IsLoopFree x.0) no_lists x.1

own-IsPlain : (comm : Value) (b : ℕ) → In b (0 ∷ 1 ∷ 2 ∷ []) → IsPlain (own_for comm b)
unfolding create_from_bb navs_front
own-IsPlain comm zero m = tt
own-IsPlain comm (suc zero) m = ground arith
own-IsPlain comm (suc (suc n)) m = tt

abbrev terminators : ℕ → Terminator
terminators zero = conditional_branch (other 7)
terminators (suc n) = unconditional_branch

abbrev facts : Facts
facts = record {
  call_inter_ipdf = λ ci. 0 ∷ [];
  is_tainted_value = λ v. true;
  loop_header = λ b. none;
  terminator = terminators;
}

abbrev callee : Function
callee = record { name = 98 ∷ []; entry_block = 90 }

abbrev warning : Warning
warning = record { call = call; missed_function = callee; conditionals = 0 ∷ [] }

warned : check_warnings facts program both (call ∷ []) ≡ some (warning ∷ [])
unfolding check_warnings value_eq navs_front
warned = refl

coll_found : find_collective program.registry program.activated callee ≡ some coll
unfolding find_collective
coll_found = refl

check_warnings-TellsPaths_example :
    In call (call ∷ [])
    × In {A = ℕ} 0 (0 ∷ [])
    × (is_tainted_block facts 0 ≡ true)
    × (coll' : Collective) × (find_collective program.registry program.activated callee
        ≡ some coll')
    × (comm : Value) × (ls : CollLists) × In (comm, ls) both
    × (concerns (comm_for_collective coll' call) comm ≡ true)
    × (t : Elements) × (u : Elements) × Trace succs (own_for comm) 0 t
    × Trace succs (own_for comm) 0 u
    × (t ≢ u)
check_warnings-TellsPaths_example =
    check_warnings-TellsPaths print_block IsAnyBlock IsColl coll-IsNaming program branch no_loops
      branch_comm-IsLoopFree (λ c. no_lists) both facts (call ∷ []) (warning ∷ []) warning 0
      both-TellsPaths own-IsPlain refl warned (inl refl) (inl refl) (inl refl)

zero_computed :
    record { loop_header = none; list = cons navs_element nil }
    ≡ compute print_block program branch (some (other 5)) lists (succs 0) 0 false
unfolding compute
zero_computed = refl

zero_differ : neighbors_are_navs print_block (list_at lists) (succs 0) ≡ true
unfolding neighbors_are_navs
zero_differ = refl

other_meant : concerns (comm_for_collective coll call) (other 5) ≡ true
unfolding comm_for_collective value_eq
other_meant = refl

zero_tainted : is_tainted_block facts 0 ≡ true
unfolding is_tainted_block
zero_tainted = refl

check_warnings-differ_example :
    (w : Warning) × In w (warning ∷ []) × (w.call ≡ call) × In 0 w.conditionals
check_warnings-differ_example =
    check_warnings-differ facts print_block program branch both (other 5) lists call (call ∷ [])
      (warning ∷ []) callee coll 0 _ warned (inr (inl refl)) (inl refl) refl coll_found other_meant
      (inl refl) zero_tainted refl refl zero_computed zero_differ
