-- ===== src/Static/Tests/Returns.antt =====
-- A function that loops forever, beside a block that returns.
use parcoach.Base.{
  ℕ, zero, suc, true, some, List, [], ◌∷◌, ◌≡◌, refl, inl, inr, In, arith, false, Bool, ◌↔◌,
}
use parcoach.Static.Returns.{
  Function, Inst, ret_inst, other_inst, has_return, function_does_not_ret,
}
use parcoach.Static.Returns.Reaches.{Reached, function_does_not_ret_iff}

abbrev endless_succs : ℕ → List ℕ
endless_succs zero = 1 ∷ []
endless_succs (suc zero) = 0 ∷ 1 ∷ []
endless_succs (suc (suc n)) = 0 ∷ []

abbrev endless_insts : ℕ → List Inst
endless_insts zero = other_inst ∷ []
endless_insts (suc zero) = []
endless_insts (suc (suc n)) = other_inst ∷ ret_inst ∷ []

abbrev endless : Function
endless = record { entry = 0; instructions = endless_insts; succs = endless_succs }

endless_closed : (b c : ℕ) → Reached endless b → In c (endless_succs b) → In c (0 ∷ 1 ∷ [])
endless_closed zero c r (inl e) = inr (inl e)
endless_closed zero c r (inr m) = absurd m
endless_closed (suc zero) c r i = i
endless_closed (suc (suc n)) c r (inl e) = inl e
endless_closed (suc (suc n)) c r (inr m) = absurd m

function_does_not_ret_iff_example :
    (b : Bool) × (function_does_not_ret 3 endless ≡ some b)
    × ((b ≡ true) ↔ ((x : ℕ) → Reached endless x → has_return (endless_insts x) ≡ false))
function_does_not_ret_iff_example =
    function_does_not_ret_iff endless (0 ∷ 1 ∷ []) 3 endless_closed (omega arith)

endless_run : function_does_not_ret 3 endless ≡ some true
unfolding function_does_not_ret
endless_run = refl

returns_run :
    function_does_not_ret 3
      (record { entry = 2; instructions = endless_insts; succs = endless_succs })
    ≡ some false
unfolding function_does_not_ret
returns_run = refl
