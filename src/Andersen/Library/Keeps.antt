-- ===== src/Andersen/Library/Keeps.antt =====
-- addConstraintForExternalLibrary: what it leaves of the factory and of the constraints.
use text.Mathlib.Text.{◌==◌ as str_eq}
use parcoach.Andersen.Names.{
  noop_funcs, malloc_funcs, realloc_funcs, ret_arg0_funcs, ret_arg1_funcs, ret_arg2_funcs,
  memcpy_funcs, convert_funcs, lookup_name,
}
use parcoach.Base.{
  not, ◌&&◌, ◌||◌, ◌≡◌, refl, inl, inr, Bool, true, false, Option, some, List, ◌++◌, arith,
  if◌then◌else◌, subst, ◌>>=◌,
}
use parcoach.Andersen.Constraints.{Constraint}
use parcoach.Andersen.Library.{
  is_null_operand, CallSite, Collected, add_known, add_constraint_for_external_library,
}
use parcoach.Andersen.Library.Below.{
  IsCollected, Extends, bind_some, some_inj, same-Extends, if_some,
}
use parcoach.Andersen.Library.Extends.{
  add_ret_arg0-Extends, add_ret_arg-Extends, add_convert-Extends, add_va_start-Extends,
  add_malloc-Extends, add_memcpy-Extends,
}

-- What is returned for a known function.
IsAdded : Collected → Bool × Collected → Type 0
IsAdded s r = Extends s r.1 × ((r.0 ≡ false) → r.1 ≡ s)

known-IsAdded :
    (s : Collected) (o : Option Collected) (r : Bool × Collected)
    → ((t : Collected) → o ≡ some t → Extends s t)
    → (o >>= (λ t. some (true, t))) ≡ some r
    → IsAdded s r
unfolding IsAdded
known-IsAdded s o r h e =
    let (t, at, e) = bind_some o _ e in
    subst (λ r. Extends s r.1 × ((r.0 ≡ false) → r.1 ≡ s)) (some_inj e)
      (h t at, λ f. absurd (ground arith))

add_known-IsAdded :
    (cs : CallSite) (s : Collected) (r : Bool × Collected)
    → IsCollected s
    → add_known cs s ≡ some r
    → IsAdded s r
unfolding add_known IsAdded
add_known-IsAdded cs s r h e = elim (if_some (lookup_name ret_arg1_funcs cs.name) e) [
  | inl (yes', e) ↦ known-IsAdded s _ r (λ t. add_ret_arg-Extends 1 cs s t h) e
  | inr (no', e) ↦ elim (if_some (lookup_name ret_arg2_funcs cs.name) e) [
    | inl (yes', e) ↦ known-IsAdded s _ r (λ t. add_ret_arg-Extends 2 cs s t h) e
    | inr (no', e) ↦ elim (if_some (lookup_name memcpy_funcs cs.name) e) [
      | inl (yes', e) ↦ known-IsAdded s _ r (λ t. add_memcpy-Extends cs s t h) e
      | inr (no', e) ↦ elim (if_some (lookup_name convert_funcs cs.name) e) [
        | inl (yes', e) ↦ known-IsAdded s _ r (λ t. add_convert-Extends cs s t h) e
        | inr (no', e) ↦ elim (if_some (str_eq cs.name "llvm.va_start") e) [
          | inl (yes', e) ↦ known-IsAdded s _ r (λ t. add_va_start-Extends cs s t h) e
          | inr (no', e) ↦
              subst (λ r. Extends s r.1 × ((r.0 ≡ false) → r.1 ≡ s)) (some_inj e)
                (same-Extends s h, λ f. refl)
        ]
      ]
    ]
  ]
]

-- If the factory is whole, with its four fixed nodes, and every constraint is between nodes of it, then
-- so it is after a call of an external function, unless an assertion fails. The constraints before are
-- kept, new ones come behind them, and where the function is not known nothing is changed.
pub add_constraint_for_external_library-IsCollected :
    (cs : CallSite) (s t : Collected) (known : Bool)
    → IsCollected s
    → add_constraint_for_external_library cs s ≡ some (known, t)
    → IsCollected t
      × ((new : List Constraint) × (t.constraints ≡ s.constraints ++ new))
      × ((known ≡ false) → t ≡ s)
unfolding add_constraint_for_external_library IsAdded
add_constraint_for_external_library-IsCollected cs s t known h e =
    let flat : IsAdded s (known, t) = elim (if_some (lookup_name noop_funcs cs.name) e) [
      | inl (yes', e) ↦
          subst (λ r. Extends s r.1 × ((r.0 ≡ false) → r.1 ≡ s)) (some_inj e)
            (same-Extends s h, λ f. refl)
      | inr (no', e) ↦
          let (is_null, at, e) =
            bind_some
              (if lookup_name realloc_funcs cs.name then is_null_operand cs 0 else some false) _
              e in
          elim (if_some
            (lookup_name malloc_funcs cs.name || (lookup_name realloc_funcs cs.name && not is_null))
            e) [
              | inl (yes', e) ↦ known-IsAdded s _ (known, t) (λ u. add_malloc-Extends cs s u h) e
              | inr (no', e) ↦
                  elim (if_some
                    (lookup_name ret_arg0_funcs cs.name
                      || (lookup_name realloc_funcs cs.name && is_null))
                    e) [
                      | inl (yes', e) ↦
                          known-IsAdded s _ (known, t) (λ u. add_ret_arg0-Extends cs s u h) e
                      | inr (no', e) ↦ add_known-IsAdded cs s (known, t) h e
                    ]
            ]
    ] in
    (flat.0.0, flat.0.1, flat.1)
