-- ===== src/Andersen/Library/Below.antt =====
-- addConstraintForExternalLibrary: nodes and constraints that are added to what is well-formed.
use parcoach.Base.{
  ap, ◌⊎◌, ◌≡◌, refl, sym, inl, inr, ℕ, ◌≤◌, ◌<◌, Bool, true, false, Option, none, some, List, [],
  ◌∷◌, ◌++◌, ◌==◌, arith, if◌then◌else◌, Bool-cases, Option-cases, subst, length, get_elem?, In,
  In-append, ◌>>=◌,
}
use parcoach.Andersen.{
  NodeFactory, get_element_ptr, int_to_ptr, ptr_to_int, bit_cast, addr_space_cast, other_opcode,
  Pointer, named, null_ptr, undef, other_constant, constant_expr, or_invalid, invalid_index,
  get_value_node_for,
}
use parcoach.Andersen.Nodes.{IsWhole}
use parcoach.Andersen.Constraints.{ConstraintType, Constraint}
use parcoach.Andersen.Library.{CallSite, Collected, emplace_constraint, operand_node, result_node}

-- The factory is whole, its fixed nodes are there, and the constraints are between its nodes.
pub record IsCollected (s : Collected) : Type 0 where
  pub whole : IsWhole s.factory
  pub fixed : 4 ≤ length s.factory.nodes
  pub between :
      (c : Constraint)
      → In c s.constraints
      → (c.dest < length s.factory.nodes) × (c.src < length s.factory.nodes)

-- The state is kept well-formed, and the constraints that it has stay where they are.
abbrev pub Extends : Collected → Collected → Type 0
Extends s t = IsCollected t × ((cs : List Constraint) × (t.constraints ≡ s.constraints ++ cs))

pub or_invalid-below :
    (m : ℕ → Option ℕ) (v n : ℕ)
    → ((w i : ℕ) → m w ≡ some i → i < n)
    → or_invalid (m v) == invalid_index ≡ false
    → or_invalid (m v) < n
or_invalid-below m v n h off = elim (Option-cases (m v)) [
  | inl lost ↦ absurd (ground arith)
  | inr (i, found) ↦ subst (λ o. or_invalid o < n) (sym found) (h v i found)
]

get_value_node_for-below :
    (f : NodeFactory) (p : Pointer) (i : ℕ)
    → IsWhole f
    → 4 ≤ length f.nodes
    → get_value_node_for f p ≡ some i
    → i == invalid_index ≡ false
    → i < length f.nodes
unfolding get_value_node_for
get_value_node_for-below f (named v) i h four e off =
    let below = or_invalid-below f.value_node_map v (length f.nodes) h.values in
    ground (arith, below)
get_value_node_for-below f null_ptr i h four e off = ground arith
get_value_node_for-below f undef i h four e off = ground arith
get_value_node_for-below f other_constant i h four e off = ground arith
get_value_node_for-below f (constant_expr get_element_ptr p) i h four e off =
    get_value_node_for-below f p i h four e off
get_value_node_for-below f (constant_expr int_to_ptr p) i h four e off = ground arith
get_value_node_for-below f (constant_expr ptr_to_int p) i h four e off = ground arith
get_value_node_for-below f (constant_expr bit_cast p) i h four e off =
    get_value_node_for-below f p i h four e off
get_value_node_for-below f (constant_expr addr_space_cast p) i h four e off =
    get_value_node_for-below f p i h four e off
get_value_node_for-below f (constant_expr other_opcode p) i h four e off = ground arith

pub bind_some :
    {A B : Type 0} (o : Option A) (k : A → Option B) {b : B}
    → (o >>= k) ≡ some b
    → (a : A) × (o ≡ some a) × (k a ≡ some b)
bind_some none k e = absurd (ground arith)
bind_some (some a) k e = (a, refl, e)

pub some_inj : {A : Type 0} {a b : A} → some a ≡ some b → a ≡ b
some_inj e = ground arith

appended : {A : Type 0} (xs ys zs : List A) → (xs ++ ys) ++ zs ≡ xs ++ (ys ++ zs)
appended [] ys zs = refl
appended (x ∷ xs) ys zs = ap (◌∷◌ x) (appended xs ys zs)

appended_nil : {A : Type 0} (xs : List A) → xs ++ [] ≡ xs
appended_nil [] = refl
appended_nil (x ∷ xs) = ap (◌∷◌ x) (appended_nil xs)

pub operand_node-below :
    (f : NodeFactory) (cs : CallSite) (n i : ℕ)
    → IsWhole f
    → 4 ≤ length f.nodes
    → operand_node f cs n ≡ some i
    → i < length f.nodes
unfolding operand_node
operand_node-below f cs n i h four e =
    let (p, at, e') = bind_some (get_elem? cs.operands n) _ e in
    let (j, found, e'') = bind_some (get_value_node_for f p) _ e' in
    let below = get_value_node_for-below f p j h four found in
    elim (Bool-cases (j == invalid_index)) [
      | inl off ↦ absurd (ground arith)
      | inr on ↦ let lt = below on in ground arith
    ]

pub emplace_constraint-Extends :
    (type : ConstraintType) (dest src : ℕ) (s t : Collected)
    → Extends s t
    → dest < length t.factory.nodes
    → src < length t.factory.nodes
    → Extends s (emplace_constraint type dest src t)
unfolding emplace_constraint
emplace_constraint-Extends type dest src s t (h, (cs, e)) lt lt' =
    let c : Constraint = record { type = type; dest = dest; src = src } in
    (
      record {
        whole = h.whole;
        fixed = h.fixed;
        between = λ d m. elim ((In-append d t.constraints (c ∷ [])).0 m) [
          | inl old ↦ h.between d old
          | inr (inl same) ↦
              subst (λ d. (d.dest < length t.factory.nodes) × (d.src < length t.factory.nodes))
                (sym same) (lt, lt')
          | inr (inr m) ↦ absurd m
        ];
      },
      (cs ++ c ∷ [], rw e (appended s.constraints cs (c ∷ []))),
    )

-- A larger factory.
pub grown-Extends :
    (s : Collected) (f : NodeFactory)
    → IsCollected s
    → IsWhole f
    → length s.factory.nodes ≤ length f.nodes
    → Extends s (record s { factory = f })
grown-Extends s f h whole le =
    let four = h.fixed in
    (
      record {
        whole = whole;
        fixed = omega arith;
        between = λ c m. let (lt, lt') = h.between c m in (omega arith, omega arith);
      },
      ([], sym (appended_nil s.constraints)),
    )

pub same-Extends : (s : Collected) → IsCollected s → Extends s s
same-Extends s h = (h, ([], sym (appended_nil s.constraints)))

-- Both ways that a conditional can have its value.
pub if_some :
    {A : Type 0} (b : Bool) {x y z : A}
    → (if b then x else y) ≡ z
    → ((b ≡ true) × (x ≡ z)) ⊎ ((b ≡ false) × (y ≡ z))
if_some true e = inl (refl, e)
if_some false e = inr (refl, e)

pub result_node-below :
    (f : NodeFactory) (cs : CallSite)
    → IsWhole f
    → result_node f cs == invalid_index ≡ false
    → result_node f cs < length f.nodes
unfolding result_node
result_node-below f cs h on =
    or_invalid-below f.value_node_map cs.result (length f.nodes) h.values on
