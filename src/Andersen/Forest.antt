-- ===== src/Andersen/Forest.antt =====
-- NodeFactory.cpp: the merge targets as a forest. getMergeTarget finds the root of a node, and its
-- path compression changes the root of no node.
use parcoach.Base.{
  ◌∙◌, length, ◌≡◌, refl, sym, ap, inl, inr, ℕ, zero, suc, ◌≤◌, false, some, List, [], ◌∷◌, ◌++◌,
  ◌==◌, arith, if◌then◌else◌, Bool-cases, subst, All, All-append,
}
use parcoach.Andersen.{
  AndersNode, NodeFactory, target_of, set_target, merge_node, follow, get_merge_target_const,
  follow_path, compress, get_merge_target,
}

-- After so many merge targets, the node n arrives at r, which is its own merge target.
abbrev pub Leads : List AndersNode → ℕ → ℕ → ℕ → Type 0
Leads nodes zero n r = (n ≡ r) × (target_of nodes n ≡ some n)
Leads nodes (suc k) n r =
    (t : ℕ) × (target_of nodes n ≡ some t) × (n == t ≡ false) × Leads nodes k t r

-- The node r represents n.
abbrev pub Reps : List AndersNode → ℕ → ℕ → Type 0
Reps nodes n r = (k : ℕ) × Leads nodes k n r

-- The same in no more than k merge targets.
abbrev pub Nearer : List AndersNode → ℕ → ℕ → ℕ → Type 0
Nearer nodes k n r = (j : ℕ) × (j ≤ k) × Leads nodes j n r

pub target-set :
    (nodes : List AndersNode) (i r m t : ℕ)
    → target_of nodes m ≡ some t
    → target_of (set_target nodes i r) m ≡ (if m == i then some r else some t)
unfolding target_of set_target
target-set [] i r m t e = ground arith
target-set (a ∷ nodes) zero r zero t e = ground arith
target-set (a ∷ nodes) zero r (suc m) t e = ground arith
target-set (a ∷ nodes) (suc i) r zero t e = ground arith
target-set (a ∷ nodes) (suc i) r (suc m) t e = ground (arith, target-set nodes i r m t)

pub Leads-root :
    (nodes : List AndersNode) (k n r : ℕ) → Leads nodes k n r → target_of nodes r ≡ some r
Leads-root nodes zero n r (e, h) = ground arith
Leads-root nodes (suc k) n r (t, e, off, h) = Leads-root nodes k t r h

-- A node has one representative.
pub Leads-unique :
    (nodes : List AndersNode) (k l n r q : ℕ) → Leads nodes k n r → Leads nodes l n q → r ≡ q
Leads-unique nodes zero zero n r q (e, h) (e', h') = ground arith
Leads-unique nodes zero (suc l) n r q (e, h) (t, e', off, h') = absurd (ground arith)
Leads-unique nodes (suc k) zero n r q (t, e', off, h') (e, h) = absurd (ground arith)
Leads-unique nodes (suc k) (suc l) n r q (t, e, off, h) (t', e', off', h') =
    let same : t ≡ t' = ground arith in
    Leads-unique nodes k l t r q h (subst (λ x. Leads nodes l x q) (sym same) h')

-- A node that is pointed at its representative.
set_target-own :
    (nodes : List AndersNode) (i r : ℕ)
    → Reps nodes i r
    → i == r ≡ false
    → Leads (set_target nodes i r) 1 i r
set_target-own nodes i r (zero, (e, h)) off = absurd (ground arith)
set_target-own nodes i r (suc k, (t, e, off', h)) off =
    let moved = target-set nodes i r i t e in
    let root = target-set nodes i r r r (Leads-root nodes k t r h) in
    (r, ground arith, off, (refl, ground arith))

-- To point a node at its representative changes no representative.
pub set_target-Nearer :
    (nodes : List AndersNode) (i r : ℕ)
    → Reps nodes i r
    → i == r ≡ false
    → (k m q : ℕ) → Leads nodes k m q
    → Nearer (set_target nodes i r) k m q
set_target-Nearer nodes i r (j, own) off zero m q (e, h) = elim (Bool-cases (m == i)) [
  | inl here ↦
      let at : m ≡ i = ground arith in
      let same =
        Leads-unique nodes zero j i q r (subst (λ x. Leads nodes zero x q) at (e, h)) own in
      absurd (ground arith)
  | inr away ↦ let same = target-set nodes i r m m h in (0, omega arith, (e, ground arith))
]
set_target-Nearer nodes i r (j, own) off (suc k) m q (t, e, off', h) = elim (Bool-cases (m == i)) [
  | inl here ↦
      let at : i ≡ m = ground arith in
      let h' : Leads nodes (suc k) m q = (t, e, off', h) in
      let same =
        Leads-unique nodes (suc k) j i q r (subst (λ x. Leads nodes (suc k) x q) (sym at) h') own in
      (
        1,
        omega arith,
        subst (λ x. Leads (set_target nodes i r) 1 x q) at
            (subst (λ x. Leads (set_target nodes i r) 1 i x) (sym same)
              (set_target-own nodes i r (j, own) off)),
      )
  | inr away ↦
      let same = target-set nodes i r m t e in
      let (l, le, rest) = set_target-Nearer nodes i r (j, own) off k t q h in
      (suc l, omega arith, (t, ground arith, off', rest))
]

-- Every node has the representative in the second vector that it has in the first, and is not
-- farther from it.
abbrev pub Keeps : List AndersNode → List AndersNode → Type 0
Keeps nodes nodes' = (k n r : ℕ) → Leads nodes k n r → Nearer nodes' k n r

-- The nodes of a path, which r represents without being one of them.
abbrev IsBelow : List AndersNode → ℕ → ℕ → Type 0
IsBelow nodes r i = Reps nodes i r × (i == r ≡ false)

compress-Keeps :
    (path : List ℕ) (r : ℕ) (nodes : List AndersNode)
    → All (IsBelow nodes r) path
    → Keeps nodes (compress path r nodes)
unfolding compress
compress-Keeps [] r nodes h k n q leads = (k, omega arith, leads)
compress-Keeps (i ∷ path) r nodes ((own, off), h) k n q leads =
    let keeps = set_target-Nearer nodes i r own off in
    let below =
      All-map path
        (λ j ((l, leads'), off').
          let (l', _, leads'') = keeps l j r leads' in ((l', leads''), off'))
        h in
    let (j, le, leads') = keeps k n q leads in
    let (j', le', leads'') = compress-Keeps path r (set_target nodes i r) below j n q leads' in
    (j', omega arith, leads'')
  where
    All-map : {P Q : ℕ → Type 0} (xs : List ℕ) → ((x : ℕ) → P x → Q x) → All P xs → All Q xs
    All-map [] f h = tt
    All-map (x ∷ xs) f (p, h) = (f x p, All-map xs f h)

pub follow-Leads :
    (fuel k : ℕ) (nodes : List AndersNode) (n r : ℕ)
    → Leads nodes k n r
    → k ≤ fuel
    → follow fuel nodes n ≡ some r
unfolding follow
follow-Leads zero zero nodes n r (e, h) le = ground arith
follow-Leads zero (suc k) nodes n r h le = absurd (omega arith)
follow-Leads (suc fuel) zero nodes n r (e, h) le = ground arith
follow-Leads (suc fuel) (suc k) nodes n r (t, e, off, h) le =
    let rest = follow-Leads fuel k nodes t r h (omega arith) in ground arith

below_root :
    (nodes : List AndersNode) (k n t r : ℕ)
    → target_of nodes n ≡ some t
    → n == t ≡ false
    → Leads nodes k t r
    → n == r ≡ false
below_root nodes k n t r e off h = elim (Bool-cases (n == r)) [
  | inl here ↦
      let at : n ≡ r = ground arith in
      let moved = ap (target_of nodes) at in
      let root = Leads-root nodes k t r h in absurd (ground arith)
  | inr away ↦ away
]

-- The loop returns the representative and a path of nodes below it.
follow_path-Leads :
    (fuel k : ℕ) (nodes : List AndersNode) (path : List ℕ) (n r : ℕ)
    → Leads nodes k n r
    → k ≤ fuel
    → All (IsBelow nodes r) path
    → (path' : List ℕ) × (follow_path fuel nodes path n ≡ some (r, path'))
      × All (IsBelow nodes r) path'
unfolding follow_path
follow_path-Leads zero zero nodes path n r (e, h) le below = (path, ground arith, below)
follow_path-Leads zero (suc k) nodes path n r h le below = absurd (omega arith)
follow_path-Leads (suc fuel) zero nodes path n r (e, h) le below = (path, ground arith, below)
follow_path-Leads (suc fuel) (suc k) nodes path n r (t, e, off, h) le below =
    let own : IsBelow nodes r n = ((suc k, (t, e, off, h)), below_root nodes k n t r e off h) in
    let (path', runs, below') =
      follow_path-Leads fuel k nodes (path ++ n ∷ []) t r h (omega arith)
        (All-append (IsBelow nodes r) path (n ∷ []) below (own, tt)) in
    (path', ground arith, below')

pub length-set_target :
    (nodes : List AndersNode) (i r : ℕ) → length (set_target nodes i r) ≡ length nodes
unfolding set_target
length-set_target [] i r = refl
length-set_target (a ∷ nodes) zero r = refl
length-set_target (a ∷ nodes) (suc i) r = ap suc (length-set_target nodes i r)

length-compress :
    (path : List ℕ) (r : ℕ) (nodes : List AndersNode)
    → length (compress path r nodes) ≡ length nodes
unfolding compress
length-compress [] r nodes = refl
length-compress (i ∷ path) r nodes =
    length-compress path r (set_target nodes i r) ∙ length-set_target nodes i r

-- getMergeTarget, with or without path compression, given rounds for the way to the root, returns
-- the representative, and every node keeps its representative when the path is compressed, and gets no farther from it.
pub get_merge_target-Reps :
    (f : NodeFactory) (n r k fuel : ℕ)
    → Leads f.nodes k n r
    → k ≤ fuel
    → (get_merge_target_const fuel f n ≡ some r)
      × (nodes : List AndersNode) × (get_merge_target fuel f n
          ≡ some (r, record f { nodes = nodes }))
      × Keeps f.nodes nodes
      × (length nodes ≡ length f.nodes)
unfolding get_merge_target get_merge_target_const
get_merge_target-Reps f n r zero fuel (e, h) le =
    let found = follow-Leads fuel zero f.nodes n r (e, h) (omega arith) in
    (ground arith, f.nodes, ground arith, (λ j m q leads. (j, omega arith, leads)), refl)
get_merge_target-Reps f n r (suc k) fuel (t, e, off, h) le =
    let found = follow-Leads fuel k f.nodes t r h (omega arith) in
    let below : IsBelow f.nodes r n =
      ((suc k, (t, e, off, h)), below_root f.nodes k n t r e off h) in
    let (path, runs, kept) =
      follow_path-Leads fuel k f.nodes (n ∷ []) t r h (omega arith) (below, tt) in
    (
      ground arith,
      compress path r f.nodes,
      let turn : t == n ≡ false = ground arith in rw (e, turn, runs, get_merge_target) refl,
      compress-Keeps path r f.nodes kept,
      length-compress path r f.nodes,
    )

-- mergeNode of two different representatives: the nodes that n1 represented are represented by n0
-- now, and all other nodes by the same node as before.
pub merge_node-Reps :
    (f : NodeFactory) (n0 n1 : ℕ)
    → target_of f.nodes n0 ≡ some n0
    → target_of f.nodes n1 ≡ some n1
    → n0 == n1 ≡ false
    → (k n r : ℕ) → Leads f.nodes k n r
    → Reps (merge_node n0 n1 f).nodes n (if r == n1 then n0 else r)
unfolding merge_node
merge_node-Reps f n0 n1 e0 e1 off zero n r (e, h) = elim (Bool-cases (n == n1)) [
  | inl here ↦
      let moved = target-set f.nodes n1 n0 n n h in
      let root = target-set f.nodes n1 n0 n0 n0 e0 in
      let value : n0 ≡ (if r == n1 then n0 else r) = ground arith in
      subst (Reps (set_target f.nodes n1 n0) n) value
        (1, (n0, ground arith, ground arith, (refl, ground arith)))
  | inr away ↦ let moved = target-set f.nodes n1 n0 n n h in (0, (ground arith, ground arith))
]
merge_node-Reps f n0 n1 e0 e1 off (suc k) n r (t, e, off', h) =
    let moved = target-set f.nodes n1 n0 n t e in
    let (l, rest) = merge_node-Reps f n0 n1 e0 e1 off k t r h in
    let away : n == n1 ≡ false = elim (Bool-cases (n == n1)) [
      | inl here ↦
          let at : n ≡ n1 = ground arith in
          let same = ap (target_of f.nodes) at in absurd (ground arith)
      | inr away ↦ away
    ] in
    (suc l, (t, ground arith, off', rest))
