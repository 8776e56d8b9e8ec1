-- ===== src/Andersen/Nodes.antt =====
-- NodeFactory.cpp: what holds of the node factory in each state that its operations lead to.
use parcoach.Base.{
  ◌≡◌, refl, sym, inl, inr, ℕ, zero, suc, ◌≤◌, ◌<◌, false, Option, none, some, List, [], ◌∷◌, ◌++◌,
  ◌==◌, arith, if◌then◌else◌, Bool-cases, subst, length, length-append,
}
use parcoach.Andersen.{
  obj_node, value_node, AndersNode, AndersNodeType, NodeFactory, new_node, new_factory, map_to,
  target_of, set_target, merge_node, get_merge_target, create_value_node, create_object_node,
  create_return_node, create_vararg_node,
}
use parcoach.Andersen.Forest.{
  length-set_target, Leads, Reps, merge_node-Reps, get_merge_target-Reps,
}

-- The states that the operations lead to. Two representatives are merged only if they differ, and
-- getMergeTarget is given enough rounds.
pub data Made : NodeFactory → Type 0 where
  new : Made new_factory
  value : {f : NodeFactory} (v : Option ℕ) → Made f → Made (create_value_node v f).1
  object : {f : NodeFactory} (v : Option ℕ) → Made f → Made (create_object_node v f).1
  returned : {f : NodeFactory} (fn : ℕ) → Made f → Made (create_return_node fn f).1
  vararg : {f : NodeFactory} (fn : ℕ) → Made f → Made (create_vararg_node fn f).1
  merged :
      {f : NodeFactory} (n0 n1 : ℕ)
      → target_of f.nodes n0 ≡ some n0
      → target_of f.nodes n1 ≡ some n1
      → n0 == n1 ≡ false
      → Made f
      → Made (merge_node n0 n1 f)
  found :
      {f : NodeFactory} (n r k fuel : ℕ) (f' : NodeFactory)
      → Leads f.nodes k n r
      → k ≤ fuel
      → get_merge_target fuel f n ≡ some (r, f')
      → Made f
      → Made f'

abbrev IsBelow : ℕ → (ℕ → Option ℕ) → Type 0
IsBelow n m = (v i : ℕ) → m v ≡ some i → i < n

-- Every node has a representative, and the maps lead to nodes.
pub record IsWhole (f : NodeFactory) : Type 0 where
  pub represented : (n : ℕ) → n < length f.nodes → (r : ℕ) × Reps f.nodes n r
  pub values : IsBelow (length f.nodes) f.value_node_map
  pub objects : IsBelow (length f.nodes) f.obj_node_map
  pub returns : IsBelow (length f.nodes) f.return_map
  pub varargs : IsBelow (length f.nodes) f.vararg_map

target-append :
    (nodes rest : List AndersNode) (n t : ℕ)
    → target_of nodes n ≡ some t
    → target_of (nodes ++ rest) n ≡ some t
unfolding target_of
target-append [] rest n t e = ground arith
target-append (a ∷ nodes) rest zero t e = ground arith
target-append (a ∷ nodes) rest (suc n) t e = target-append nodes rest n t e

target-last :
    (nodes : List AndersNode) (a : AndersNode)
    → target_of (nodes ++ a ∷ []) (length nodes) ≡ some a.merge_target
unfolding target_of
target-last [] a = refl
target-last (b ∷ nodes) a = target-last nodes a

Leads-append :
    (nodes rest : List AndersNode) (k n r : ℕ) → Leads nodes k n r → Leads (nodes ++ rest) k n r
Leads-append nodes rest zero n r (e, h) = (e, target-append nodes rest n n h)
Leads-append nodes rest (suc k) n r (t, e, off, h) =
    (t, target-append nodes rest n t e, off, Leads-append nodes rest k t r h)

-- A new node represents itself, and the other nodes keep their representatives.
new-represented :
    (nodes : List AndersNode) (t : AndersNodeType) (v : Option ℕ)
    → ((n : ℕ) → n < length nodes → (r : ℕ) × Reps nodes n r)
    → (n : ℕ) → n < length (nodes ++ new_node t (length nodes) v ∷ [])
    → (r : ℕ) × Reps (nodes ++ new_node t (length nodes) v ∷ []) n r
new-represented nodes t v h n lt =
    let a = new_node t (length nodes) v in
    let size = length-append nodes (a ∷ []) in
    elim (Bool-cases (n == length nodes)) [
      | inl here ↦
          let at : length nodes ≡ n = ground arith in
          (
            n,
            (
              0,
              (refl, subst (λ m. target_of (nodes ++ a ∷ []) m ≡ some m) at (target-last nodes a)),
            ),
          )
      | inr away ↦
          let old : n < length nodes = ground arith in
          let (r, (k, leads)) = h n old in (r, (k, Leads-append nodes (a ∷ []) k n r leads))
    ]

grown-IsBelow :
    (m : ℕ → Option ℕ) (nodes : List AndersNode) (a : AndersNode)
    → IsBelow (length nodes) m
    → IsBelow (length (nodes ++ a ∷ [])) m
grown-IsBelow m nodes a h v i e =
    let size = length-append nodes (a ∷ []) in let lt = h v i e in ground arith

mapped-IsBelow :
    (m : ℕ → Option ℕ) (w : ℕ) (nodes : List AndersNode) (a : AndersNode)
    → IsBelow (length nodes) m
    → IsBelow (length (nodes ++ a ∷ [])) (map_to m w (length nodes))
mapped-IsBelow m w nodes a h v i e =
    let size = length-append nodes (a ∷ []) in
    let lt = h v i in
    elim (Bool-cases (v == w)) [ inl here ↦ ground arith | inr away ↦ ground arith ]

new_factory-root : (n : ℕ) → n < 4 → target_of new_factory.nodes n ≡ some n
unfolding target_of
new_factory-root zero lt = refl
new_factory-root (suc zero) lt = refl
new_factory-root (suc (suc zero)) lt = refl
new_factory-root (suc (suc (suc zero))) lt = refl
new_factory-root (suc (suc (suc (suc n)))) lt = absurd (omega arith)

new_factory-IsWhole : IsWhole new_factory
new_factory-IsWhole = record {
  represented = λ n lt. (n, (0, (refl, new_factory-root n lt)));
  values = λ v i e. ground arith;
  objects = λ v i e. ground arith;
  returns = λ v i e. ground arith;
  varargs = λ v i e. ground arith;
}

pub create_value_node-IsWhole :
    (v : Option ℕ) (f : NodeFactory) → IsWhole f → IsWhole (create_value_node v f).1
unfolding create_value_node
create_value_node-IsWhole none f h =
    let a = new_node value_node (length f.nodes) none in
    record {
      represented = new-represented f.nodes value_node none h.represented;
      values = grown-IsBelow f.value_node_map f.nodes a h.values;
      objects = grown-IsBelow f.obj_node_map f.nodes a h.objects;
      returns = grown-IsBelow f.return_map f.nodes a h.returns;
      varargs = grown-IsBelow f.vararg_map f.nodes a h.varargs;
    }
create_value_node-IsWhole (some w) f h =
    let a = new_node value_node (length f.nodes) (some w) in
    record {
      represented = new-represented f.nodes value_node (some w) h.represented;
      values = mapped-IsBelow f.value_node_map w f.nodes a h.values;
      objects = grown-IsBelow f.obj_node_map f.nodes a h.objects;
      returns = grown-IsBelow f.return_map f.nodes a h.returns;
      varargs = grown-IsBelow f.vararg_map f.nodes a h.varargs;
    }

pub create_object_node-IsWhole :
    (v : Option ℕ) (f : NodeFactory) → IsWhole f → IsWhole (create_object_node v f).1
unfolding create_object_node
create_object_node-IsWhole none f h =
    let a = new_node obj_node (length f.nodes) none in
    record {
      represented = new-represented f.nodes obj_node none h.represented;
      values = grown-IsBelow f.value_node_map f.nodes a h.values;
      objects = grown-IsBelow f.obj_node_map f.nodes a h.objects;
      returns = grown-IsBelow f.return_map f.nodes a h.returns;
      varargs = grown-IsBelow f.vararg_map f.nodes a h.varargs;
    }
create_object_node-IsWhole (some w) f h =
    let a = new_node obj_node (length f.nodes) (some w) in
    record {
      represented = new-represented f.nodes obj_node (some w) h.represented;
      values = grown-IsBelow f.value_node_map f.nodes a h.values;
      objects = mapped-IsBelow f.obj_node_map w f.nodes a h.objects;
      returns = grown-IsBelow f.return_map f.nodes a h.returns;
      varargs = grown-IsBelow f.vararg_map f.nodes a h.varargs;
    }

create_return_node-IsWhole :
    (fn : ℕ) (f : NodeFactory) → IsWhole f → IsWhole (create_return_node fn f).1
unfolding create_return_node
create_return_node-IsWhole fn f h =
    let a = new_node value_node (length f.nodes) (some fn) in
    record {
      represented = new-represented f.nodes value_node (some fn) h.represented;
      values = grown-IsBelow f.value_node_map f.nodes a h.values;
      objects = grown-IsBelow f.obj_node_map f.nodes a h.objects;
      returns = mapped-IsBelow f.return_map fn f.nodes a h.returns;
      varargs = grown-IsBelow f.vararg_map f.nodes a h.varargs;
    }

create_vararg_node-IsWhole :
    (fn : ℕ) (f : NodeFactory) → IsWhole f → IsWhole (create_vararg_node fn f).1
unfolding create_vararg_node
create_vararg_node-IsWhole fn f h =
    let a = new_node obj_node (length f.nodes) (some fn) in
    record {
      represented = new-represented f.nodes obj_node (some fn) h.represented;
      values = grown-IsBelow f.value_node_map f.nodes a h.values;
      objects = grown-IsBelow f.obj_node_map f.nodes a h.objects;
      returns = grown-IsBelow f.return_map f.nodes a h.returns;
      varargs = mapped-IsBelow f.vararg_map fn f.nodes a h.varargs;
    }

-- A vector of as many nodes in which the nodes are still represented.
renewed-IsWhole :
    (f : NodeFactory) (nodes : List AndersNode)
    → length nodes ≡ length f.nodes
    → ((n r : ℕ) → Reps f.nodes n r → (q : ℕ) × Reps nodes n q)
    → IsWhole f
    → IsWhole (record f { nodes = nodes })
renewed-IsWhole f nodes e keeps h = record {
  represented = λ n lt. let (r, rep) = h.represented n (subst (λ k. n < k) e lt) in keeps n r rep;
  values = subst (λ k. IsBelow k f.value_node_map) (sym e) h.values;
  objects = subst (λ k. IsBelow k f.obj_node_map) (sym e) h.objects;
  returns = subst (λ k. IsBelow k f.return_map) (sym e) h.returns;
  varargs = subst (λ k. IsBelow k f.vararg_map) (sym e) h.varargs;
}

-- In each state of the factory that its operations lead to, where only two different representatives are
-- merged, every node has a representative, so that getMergeTarget ends, and the maps from values and
-- functions lead to nodes.
pub Made-IsWhole : {f : NodeFactory} → Made f → IsWhole f
unfolding merge_node
Made-IsWhole new = new_factory-IsWhole
Made-IsWhole (value {f} v made) = create_value_node-IsWhole v f (Made-IsWhole made)
Made-IsWhole (object {f} v made) = create_object_node-IsWhole v f (Made-IsWhole made)
Made-IsWhole (returned {f} fn made) = create_return_node-IsWhole fn f (Made-IsWhole made)
Made-IsWhole (vararg {f} fn made) = create_vararg_node-IsWhole fn f (Made-IsWhole made)
Made-IsWhole (merged {f} n0 n1 e0 e1 off made) =
    renewed-IsWhole f (set_target f.nodes n1 n0) (length-set_target f.nodes n1 n0)
      (λ n r (k, leads). (if r == n1 then n0 else r, merge_node-Reps f n0 n1 e0 e1 off k n r leads))
      (Made-IsWhole made)
Made-IsWhole (found {f} n r k fuel f' leads le runs made) =
    let (_, nodes, returns, keeps, size) = get_merge_target-Reps f n r k fuel leads le in
    let same : record f { nodes = nodes } ≡ f' = ground arith in
    subst IsWhole same (
      renewed-IsWhole f nodes size
        (λ m q (j, old). let (l, _, near) = keeps j m q old in (q, (l, near))) (Made-IsWhole made))
