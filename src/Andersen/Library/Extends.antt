-- ===== src/Andersen/Library/Extends.antt =====
-- addConstraintForExternalLibrary: what the nodes and constraints for one kind of functions leave of
-- the factory and of the constraints.
use text.Mathlib.Text.{◌==◌ as str_eq}
use parcoach.Base.{◌≡◌, inl, inr, ℕ, none, some, [], ◌∷◌, ◌==◌, arith, subst, length, length-append}
use parcoach.Andersen.{
  new_node, obj_node, value_node, NodeFactory, invalid_index, create_value_node, create_object_node,
  get_vararg_node_for,
}
use parcoach.Andersen.Nodes.{IsWhole, create_value_node-IsWhole, create_object_node-IsWhole}
use parcoach.Andersen.Constraints.{addr_of, copy, load, store}
use parcoach.Andersen.Library.{
  is_null_operand, CallSite, Collected, operand_node, result_node, add_malloc, add_ret_arg0,
  add_ret_arg, add_memcpy, add_convert, add_va_start,
}
use parcoach.Andersen.Library.Below.{
  IsCollected, Extends, or_invalid-below, bind_some, some_inj, operand_node-below,
  emplace_constraint-Extends, grown-Extends, same-Extends, if_some, result_node-below,
}

pub add_ret_arg0-Extends :
    (cs : CallSite) (s t : Collected) → IsCollected s → add_ret_arg0 cs s ≡ some t → Extends s t
unfolding add_ret_arg0
add_ret_arg0-Extends cs s t h e = elim (if_some (result_node s.factory cs == invalid_index) e) [
  | inl (off, e) ↦ subst (Extends s) (some_inj e) (same-Extends s h)
  | inr (on, e) ↦
      let (i, at, e') = bind_some (operand_node s.factory cs 0) _ e in
      subst (Extends s) (some_inj e') (
        emplace_constraint-Extends copy _ i s s (same-Extends s h)
          (result_node-below s.factory cs h.whole on)
          (operand_node-below s.factory cs 0 i h.whole h.fixed at))
]

pub add_ret_arg-Extends :
    (n : ℕ) (cs : CallSite) (s t : Collected)
    → IsCollected s
    → add_ret_arg n cs s ≡ some t
    → Extends s t
unfolding add_ret_arg
add_ret_arg-Extends n cs s t h e = elim (if_some (result_node s.factory cs == invalid_index) e) [
  | inl (off, e) ↦ absurd (ground arith)
  | inr (on, e) ↦
      let (i, at, e') = bind_some (operand_node s.factory cs n) _ e in
      subst (Extends s) (some_inj e') (
        emplace_constraint-Extends copy _ i s s (same-Extends s h)
          (result_node-below s.factory cs h.whole on)
          (operand_node-below s.factory cs n i h.whole h.fixed at))
]

pub add_convert-Extends :
    (cs : CallSite) (s t : Collected) → IsCollected s → add_convert cs s ≡ some t → Extends s t
unfolding add_convert
add_convert-Extends cs s t h e =
    let (is_null, known, e) = bind_some (is_null_operand cs 1) _ e in
    elim (if_some is_null e) [
      | inl (yes', e) ↦ subst (Extends s) (some_inj e) (same-Extends s h)
      | inr (no', e) ↦
          let (i, at, e) = bind_some (operand_node s.factory cs 0) _ e in
          let (j, at', e) = bind_some (operand_node s.factory cs 1) _ e in
          let below = operand_node-below s.factory cs in
          subst (Extends s) (some_inj e) (
            emplace_constraint-Extends store i j s s (same-Extends s h)
              (below 0 i h.whole h.fixed at) (below 1 j h.whole h.fixed at'))
    ]

pub add_va_start-Extends :
    (cs : CallSite) (s t : Collected) → IsCollected s → add_va_start cs s ≡ some t → Extends s t
unfolding add_va_start get_vararg_node_for
add_va_start-Extends cs s t h e = elim (if_some cs.is_var_arg e) [
  | inl (yes', e) ↦
      let f = s.factory in
      let (i, at, e) = bind_some (operand_node f cs 0) _ e in
      elim (if_some (get_vararg_node_for f cs.parent == invalid_index) e) [
        | inl (off, e) ↦ absurd (ground arith)
        | inr (on, e) ↦ subst (Extends s) (some_inj e) (
            emplace_constraint-Extends addr_of i _ s s (same-Extends s h)
              (operand_node-below f cs 0 i h.whole h.fixed at)
              (or_invalid-below f.vararg_map cs.parent (length f.nodes) h.whole.varargs on))
      ]
  | inr (no', e) ↦ absurd (ground arith)
]

pub add_malloc-Extends :
    (cs : CallSite) (s t : Collected) → IsCollected s → add_malloc cs s ≡ some t → Extends s t
unfolding add_malloc create_object_node
add_malloc-Extends cs s t h e =
    let f : NodeFactory = (create_object_node (some cs.result) s.factory).1 in
    let whole : IsWhole f = create_object_node-IsWhole (some cs.result) s.factory h.whole in
    let size =
      length-append s.factory.nodes
        (new_node obj_node (length s.factory.nodes) (some cs.result) ∷ []) in
    let u : Collected = record s { factory = f } in
    let ext : Extends s u = grown-Extends s f h whole (omega arith) in
    let four = h.fixed in
    elim (if_some (result_node f cs == invalid_index) e) [
      | inl (off, e) ↦ elim (if_some (str_eq cs.name "posix_memalign") e) [
        | inl (named', e) ↦
            let (i, at, e) = bind_some (operand_node f cs 0) _ e in
            subst (Extends s) (some_inj e) (
              emplace_constraint-Extends store i _ s u ext
                (operand_node-below f cs 0 i whole (omega arith) at) (omega arith))
        | inr (other, e) ↦ absurd (ground arith)
      ]
      | inr (on, e) ↦ subst (Extends s) (some_inj e) (
          emplace_constraint-Extends addr_of _ _ s u ext (result_node-below f cs whole on)
            (omega arith))
    ]

pub add_memcpy-Extends :
    (cs : CallSite) (s t : Collected) → IsCollected s → add_memcpy cs s ≡ some t → Extends s t
unfolding add_memcpy create_value_node
add_memcpy-Extends cs s t h e =
    let (i, at, e) = bind_some (operand_node s.factory cs 0) _ e in
    let (j, at', e) = bind_some (operand_node s.factory cs 1) _ e in
    let f : NodeFactory = (create_value_node none s.factory).1 in
    let whole : IsWhole f = create_value_node-IsWhole none s.factory h.whole in
    let size =
      length-append s.factory.nodes (new_node value_node (length s.factory.nodes) none ∷ []) in
    let u : Collected = record s { factory = f } in
    let ext : Extends s u = grown-Extends s f h whole (omega arith) in
    let below = operand_node-below s.factory cs in
    let lt = below 0 i h.whole h.fixed at in
    let lt' = below 1 j h.whole h.fixed at' in
    let loaded =
      emplace_constraint-Extends load (length s.factory.nodes) j s u ext (omega arith)
        (omega arith) in
    let stored =
      emplace_constraint-Extends store i (length s.factory.nodes) s _ loaded (omega arith)
        (omega arith) in
    elim (if_some (result_node f cs == invalid_index) (some_inj e)) [
      | inl (off, e) ↦ subst (Extends s) e stored
      | inr (on, e) ↦ subst (Extends s) e (
          emplace_constraint-Extends copy _ i s _ stored (result_node-below f cs whole on)
            (omega arith))
    ]
