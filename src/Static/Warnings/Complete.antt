-- ===== src/Static/Warnings/Complete.antt =====
-- checkWarnings: no conditional is left out.
use parcoach.Base.{
  Bool, Bool-cases, Option, ℕ, ◌≡◌, inl, inr, refl, sym, ap, ◌∙◌, subst, true, false, none, some,
  Option-cases, List, List-cases, [], ◌∷◌, In, arith,
}
use parcoach.Static.Collectives.{Text, Value, Collective, CallInst, Function, find_collective}
use parcoach.Static.Lists.{
  nil, cons, navs_element, navs_front, CollectiveList, CollLists, Program, neighbors_are_navs,
}
use parcoach.Static.Flow.{Cfg, list_at, compute}
use parcoach.Static.Flow.Neighbors.{compute_navs}
use parcoach.Static.Warnings.{
  Facts, ListsPerComm, list_block, has_navs_on, is_tainted_block, conditionals_of, Warning,
  comm_for_collective, check_call, check_warnings, concerns,
}
use parcoach.Static.Warnings.Paths.{conditionals_of_iff}

-- A warning about the call that names the conditional.
abbrev Reports : List Warning → CallInst → ℕ → Type 0
Reports ws ci b = (w : Warning) × In w ws × (w.call ≡ ci) × In b w.conditionals

-- Where the loop over the blocks finds all lists, so does that over the communicators for each block.
conditionals_of-found :
    (facts : Facts) (lists : ListsPerComm) (comm : Option Value) (bbs bs : List ℕ)
    → conditionals_of facts lists comm bbs ≡ some bs
    → (b : ℕ) → In b bbs
    → (v : Bool) × (has_navs_on facts lists comm b ≡ some v)
unfolding conditionals_of
conditionals_of-found facts lists comm [] bs e b m = absurd m
conditionals_of-found facts lists comm (bb ∷ bbs) bs e b m =
    elim (Option-cases (has_navs_on facts lists comm bb)) [
      | inl lost ↦ absurd (ground arith)
      | inr (v, found) ↦ elim (Option-cases (conditionals_of facts lists comm bbs)) [
        | inl lost ↦ absurd (ground arith)
        | inr (rest, runs) ↦ elim m [
          | inl same ↦ (v, ap (has_navs_on facts lists comm) same ∙ found)
          | inr m' ↦ conditionals_of-found facts lists comm bbs rest runs b m'
        ]
      ]
    ]

-- One communicator with NAVS is enough.
has_navs_on-In :
    (facts : Facts) (lists : ListsPerComm) (c : Option Value) (b : ℕ) (comm : Value)
    (ls : CollLists) (l : CollectiveList) (v : Bool)
    → has_navs_on facts lists c b ≡ some v
    → In (comm, ls) lists
    → concerns c comm ≡ true
    → ls (list_block facts b) ≡ some l
    → navs_front l.list ≡ true
    → v ≡ true
unfolding has_navs_on
has_navs_on-In facts [] c b comm ls l v e m meant stored front = absurd m
has_navs_on-In facts ((comm', ls') ∷ lists) c b comm ls l v e m meant stored front =
    elim (Option-cases (has_navs_on facts lists c b)) [
      | inl lost ↦ elim (Bool-cases (concerns c comm')) [
        | inl yes' ↦ elim (Option-cases (ls' (list_block facts b))) [
          | inl none_there ↦ absurd (ground arith)
          | inr (l', found) ↦ absurd (ground arith)
        ]
        | inr no' ↦ absurd (ground arith)
      ]
      | inr (more, runs) ↦ elim (Bool-cases (concerns c comm')) [
        | inl yes' ↦ elim (Option-cases (ls' (list_block facts b))) [
          | inl none_there ↦ absurd (ground arith)
          | inr (l', found) ↦ elim m [
            | inl same ↦
                let here : ls ≡ ls' = ap (λ (x : Value × CollLists). x.1) same in
                let l_same : some l ≡ some l' =
                  sym stored ∙ ap (λ (x : CollLists). x (list_block facts b)) here ∙ found in
                let l_is : l ≡ l' = ground arith in
                let front' : navs_front l'.list ≡ true =
                  sym (ap (λ (x : CollectiveList). navs_front x.list) l_is) ∙ front in
                ground arith
            | inr m' ↦
                let below =
                  has_navs_on-In facts lists c b comm ls l more runs m' meant stored front in
                elim (Bool-cases (navs_front l'.list)) [
                  | inl yes'' ↦ ground arith
                  | inr no'' ↦ ground arith
                ]
          ]
        ]
        | inr no' ↦ elim m [
          | inl same ↦
              let moved : concerns c comm ≡ concerns c comm' =
                ap (λ (x : Value × CollLists). concerns c x.0) same in
              absurd (ground arith)
          | inr m' ↦ has_navs_on-In facts lists c b comm ls l v (rw no' at e) m' meant stored front
        ]
      ]
    ]

module _ (facts : Facts) (p : Program) (lists : ListsPerComm) where
  later :
      (ci : CallInst) (cis : List CallInst) (ws : List Warning)
      → check_warnings facts p lists (ci ∷ cis) ≡ some ws
      → (rest : List Warning) × (check_warnings facts p lists cis ≡ some rest)
        × ((w : Warning) → In w rest → In w ws)
  unfolding check_warnings check_call
  later ci cis ws e = elim (Option-cases (check_warnings facts p lists cis)) [
    | inl lost ↦ absurd (ground arith)
    | inr (rest, runs) ↦ (
      rest,
      runs,
      elim (Option-cases ci.called_function) [
        | inl indirect ↦ let same : rest ≡ ws = ground arith in λ w m. subst (In w) same m
        | inr (f, direct) ↦ elim (Option-cases (find_collective p.registry p.activated f)) [
          | inl other' ↦ let same : rest ≡ ws = ground arith in λ w m. subst (In w) same m
          | inr (coll, at) ↦
              let comm = comm_for_collective coll ci in
              elim (Option-cases (conditionals_of facts lists comm (facts.call_inter_ipdf ci))) [
                | inl lost ↦ absurd (ground arith)
                | inr (bs, found) ↦ elim (List-cases bs) [
                  | inl empty ↦ let same : rest ≡ ws = ground arith in λ w m. subst (In w) same m
                  | inr (c, more, left) ↦
                      let new : Warning = record {
                        call = ci;
                        missed_function = f;
                        conditionals = c ∷ more;
                      } in
                      let same : new ∷ rest ≡ ws = ground arith in λ w m. subst (In w) same (inr m)
                ]
              ]
        ]
      ],
    )
  ]

  first :
      (ci : CallInst) (cis : List CallInst) (ws : List Warning) (f : Function) (coll : Collective)
      (b : ℕ)
      → check_warnings facts p lists (ci ∷ cis) ≡ some ws
      → ci.called_function ≡ some f
      → find_collective p.registry p.activated f ≡ some coll
      → In b (facts.call_inter_ipdf ci)
      → ((v : Bool) → has_navs_on facts lists (comm_for_collective coll ci) b ≡ some v → v ≡ true)
      → is_tainted_block facts b ≡ true
      → Reports ws ci b
  unfolding check_warnings check_call
  first ci cis ws f coll b e direct at governs navs tainted =
      let bbs = facts.call_inter_ipdf ci in
      let comm = comm_for_collective coll ci in
      elim (Option-cases (check_warnings facts p lists cis)) [
        | inl lost ↦ absurd (ground arith)
        | inr (rest, runs) ↦ elim (Option-cases (conditionals_of facts lists comm bbs)) [
          | inl lost ↦ absurd (ground arith)
          | inr (bs, found) ↦
              let (v, ran) = conditionals_of-found facts lists comm bbs bs found b governs in
              let here =
                (conditionals_of_iff facts lists comm bbs bs found b).1
                  (governs, ran ∙ ap some (navs v ran), tainted) in
              elim (List-cases bs) [
                | inl empty ↦ absurd (subst (In b) empty here)
                | inr (c, more, left) ↦
                    let new : Warning = record {
                      call = ci;
                      missed_function = f;
                      conditionals = c ∷ more;
                    } in
                    let same : new ∷ rest ≡ ws = ground arith in
                    (new, subst (In new) same (inl refl), refl, subst (In b) left here)
              ]
        ]
      ]

  -- A call of a collective in the function is warned about with each block that governs it, whose
  -- condition is tainted and whose list has NAVS.
  check_warnings-Reports :
      (ci : CallInst) (cis : List CallInst) (ws : List Warning) (f : Function) (coll : Collective)
      (b : ℕ)
      → check_warnings facts p lists cis ≡ some ws
      → In ci cis
      → ci.called_function ≡ some f
      → find_collective p.registry p.activated f ≡ some coll
      → In b (facts.call_inter_ipdf ci)
      → ((v : Bool) → has_navs_on facts lists (comm_for_collective coll ci) b ≡ some v → v ≡ true)
      → is_tainted_block facts b ≡ true
      → Reports ws ci b
  check_warnings-Reports ci [] ws f coll b e m direct at governs navs tainted = absurd m
  check_warnings-Reports ci (cj ∷ cis) ws f coll b e (inl is_first) direct at governs navs tainted =
      let e' = subst (λ c. check_warnings facts p lists (c ∷ cis) ≡ some ws) (sym is_first) e in
      first ci cis ws f coll b e' direct at governs navs tainted
  check_warnings-Reports ci (cj ∷ cis) ws f coll b e (inr m) direct at governs navs tainted =
      let (rest, runs, kept) = later cj cis ws e in
      let (w, found, same, named) =
        check_warnings-Reports ci cis rest f coll b runs m direct at governs navs tainted in
      (w, kept w found, same, named)

front_of_navs : navs_front (cons navs_element nil) ≡ true
unfolding navs_front
front_of_navs = refl

-- Let a block of a function without loops have the list that the traversal computes, for one of the
-- communicators in the map, which concerns a call of a collective. If no lookup fails, the lists of the
-- successors differ, the condition of the block is tainted and it governs the call, then a warning about
-- the call names it, whatever the other communicators have.
pub check_warnings-differ :
    (facts : Facts) (print_operand : ℕ → Text) (p : Program) (cfg : Cfg) (lists : ListsPerComm)
    (comm : Value) (ls : CollLists) (ci : CallInst) (cis : List CallInst) (ws : List Warning)
    (f : Function) (coll : Collective) (b : ℕ) (l : CollectiveList)
    → check_warnings facts p lists cis ≡ some ws
    → In (comm, ls) lists
    → In ci cis
    → ci.called_function ≡ some f
    → find_collective p.registry p.activated f ≡ some coll
    → concerns (comm_for_collective coll ci) comm ≡ true
    → In b (facts.call_inter_ipdf ci)
    → is_tainted_block facts b ≡ true
    → facts.loop_header b ≡ none
    → ls b ≡ some l
    → l ≡ compute print_operand p cfg (some comm) ls (cfg.successors b) b false
    → neighbors_are_navs print_operand (list_at ls) (cfg.successors b) ≡ true
    → (w : Warning) × In w ws × (w.call ≡ ci) × In b w.conditionals
check_warnings-differ facts print_operand p cfg lists comm ls ci cis ws f coll b l e known m direct
      at meant governs tainted flat stored computed differ =
    let navs_list : l.list ≡ cons navs_element nil =
      ap (λ (k : CollectiveList). k.list) computed
      ∙ compute_navs print_operand p cfg (some comm) ls (cfg.successors b) b differ in
    let front : navs_front l.list ≡ true = ap navs_front navs_list ∙ front_of_navs in
    let here : list_block facts b ≡ b = ground arith in
    let stored' : ls (list_block facts b) ≡ some l = ap ls here ∙ stored in
    check_warnings-Reports facts p lists ci cis ws f coll b e m direct at governs
      (λ v ran.
        has_navs_on-In facts lists (comm_for_collective coll ci) b comm ls l v ran known meant
          stored' front)
      tainted
