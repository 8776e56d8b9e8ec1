-- ===== src/Static/Warnings/Paths.antt =====
-- checkWarnings: which conditionals stand in a warning, and the paths behind them.
use parcoach.Base.{
  ℕ, ◌≡◌, ◌≢◌, inl, inr, ◌⊎◌, ◌↔◌, refl, sym, ap, ◌∙◌, subst, Bool-cases, true, false, Option, none,
  some, Option-cases, List, List-cases, [], ◌∷◌, In, arith, ◌&&◌,
}
use parcoach.Static.Collectives.{Text, Value, Collective, CallInst, find_collective}
use parcoach.Static.Lists.{
  coll_element, list_element, Elements, nil, cons, navs_element, navs_of, navs_front, append,
  CollLists, Program,
}
use parcoach.Static.Flow.{Cfg, LoopAggregationInfo, list_at}
use parcoach.Static.Flow.Merges.{HasNavs, Trace, at_exit, through}
use parcoach.Static.Flow.Ready.{IsLoopFree}
use parcoach.Static.Flow.Whole.{IsNaming, own, TellsPaths}
use parcoach.Static.Warnings.{
  Facts, ListsPerComm, list_block, has_navs_on, is_tainted_block, conditionals_of, Warning,
  comm_for_collective, check_call, check_warnings, concerns,
}

-- The conditionals of a call are the blocks that govern it, whose lists have NAVS and whose conditions
-- are tainted.
pub conditionals_of_iff :
    (facts : Facts) (lists : ListsPerComm) (comm : Option Value) (bbs bs : List ℕ)
    → conditionals_of facts lists comm bbs ≡ some bs
    → (b : ℕ)
    → In b bs ↔ (
        In b bbs × (has_navs_on facts lists comm b ≡ some true) × (is_tainted_block facts b ≡ true))
unfolding conditionals_of
conditionals_of_iff facts lists comm [] bs e b = ground arith
conditionals_of_iff facts lists comm (bb ∷ bbs) bs e b =
    elim (Option-cases (has_navs_on facts lists comm bb)) [
      | inl lost ↦ absurd (ground arith)
      | inr (navs, found) ↦ elim (Option-cases (conditionals_of facts lists comm bbs)) [
        | inl lost ↦ absurd (ground arith)
        | inr (rest, runs) ↦
            let below = conditionals_of_iff facts lists comm bbs rest runs b in
            elim (Bool-cases (navs && is_tainted_block facts bb)) [
              | inl reported ↦
                  let same : bb ∷ rest ≡ bs = ground arith in
                  let yes_navs : has_navs_on facts lists comm bb ≡ some true = ground arith in
                  subst
                    (λ xs. In b xs ↔ (
                      In b (bb ∷ bbs)
                      × (has_navs_on facts lists comm b ≡ some true)
                      × (is_tainted_block facts b ≡ true)))
                    same
                    (
                      λ m. elim m [
                        | inl at ↦ (
                          inl at,
                          ap (has_navs_on facts lists comm) at ∙ yes_navs,
                          ap (is_tainted_block facts) at ∙ ground arith,
                        )
                        | inr m' ↦ let (i, n, t) = below.0 m' in (inr i, n, t)
                      ],
                      λ (i, n, t). elim i [ inl at ↦ inl at | inr i' ↦ inr (below.1 (i', n, t)) ],
                    )
              | inr passed ↦
                  let same : rest ≡ bs = ground arith in
                  subst
                    (λ xs. In b xs ↔ (
                      In b (bb ∷ bbs)
                      × (has_navs_on facts lists comm b ≡ some true)
                      × (is_tainted_block facts b ≡ true)))
                    same
                    (
                      λ m. let (i, n, t) = below.0 m in (inr i, n, t),
                      λ (i, n, t). elim i [
                        | inl at ↦
                            let moved = ap (has_navs_on facts lists comm) at in
                            let moved' = ap (is_tainted_block facts) at in absurd (ground arith)
                        | inr i' ↦ below.1 (i', n, t)
                      ],
                    )
            ]
      ]
    ]

-- No element is NAVS or begins with one.
abbrev pub IsPlain : Elements → Type 0
IsPlain nil = Unit
IsPlain (cons e es) = (navs_of e ≡ false) × IsPlain es

append-IsPlain : (xs ys : Elements) → IsPlain xs → IsPlain ys → IsPlain (append xs ys)
unfolding append
append-IsPlain nil ys h k = k
append-IsPlain (cons x xs) ys h k = (h.0, append-IsPlain xs ys h.1 k)

Trace-IsPlain :
    (succs : ℕ → List ℕ) (own : ℕ → Elements) (blocks : List ℕ)
    → ((b c : ℕ) → In b blocks → In c (succs b) → In c blocks)
    → ((b : ℕ) → In b blocks → IsPlain (own b))
    → {b : ℕ} {t : Elements} → In b blocks
    → Trace succs own b t
    → IsPlain t
Trace-IsPlain succs own blocks below plain i (at_exit {b} e) = plain b i
Trace-IsPlain succs own blocks below plain i (through {b} {c} {t} m trace) =
    append-IsPlain (own b) t (plain b i)
      (Trace-IsPlain succs own blocks below plain (below b c i m) trace)

HasNavs-cases : (es : Elements) → HasNavs es ⊎ ¬ HasNavs es
HasNavs-cases nil = inr (λ h. h)
HasNavs-cases (cons navs_element es) = inl (inl refl)
HasNavs-cases (cons (coll_element c) es) = elim (HasNavs-cases es) [
  | inl h ↦ inl (inr h)
  | inr h ↦ inr (λ k. elim k [ inl e ↦ cc | inr k' ↦ h k' ])
]
HasNavs-cases (cons (list_element header inner) es) = elim (HasNavs-cases es) [
  | inl h ↦ inl (inr h)
  | inr h ↦ inr (λ k. elim k [ inl e ↦ cc | inr k' ↦ h k' ])
]

plain_front : (es : Elements) → IsPlain es → navs_front es ≡ false
unfolding navs_front
plain_front nil h = refl
plain_front (cons e es) h = h.0

-- A warning is about a call of a collective in the function, and its conditionals are those of the call.
abbrev IsWarned : Facts → Program → ListsPerComm → List CallInst → Warning → Type 0
IsWarned facts p lists cis w =
    In w.call cis
    × (coll : Collective) × (w.call.called_function ≡ some w.missed_function)
    × (find_collective p.registry p.activated w.missed_function ≡ some coll)
    × (conditionals_of facts lists (comm_for_collective coll w.call) (facts.call_inter_ipdf w.call)
        ≡ some w.conditionals)

warning_of :
    (facts : Facts) (p : Program) (lists : ListsPerComm) (cis : List CallInst) (ws : List Warning)
    → check_warnings facts p lists cis ≡ some ws
    → (w : Warning) → In w ws
    → IsWarned facts p lists cis w
unfolding check_warnings check_call
warning_of facts p lists [] ws e w m =
    let same : ws ≡ [] = ground arith in absurd (subst (In w) same m)
warning_of facts p lists (ci ∷ cis) ws e w m =
    elim (Option-cases (check_warnings facts p lists cis)) [
      | inl lost ↦ absurd (ground arith)
      | inr (rest, runs) ↦
          let below = warning_of facts p lists cis rest runs w in
          let wider : In w rest → IsWarned facts p lists (ci ∷ cis) w =
            λ m. let (i, c, d, f', h) = below m in (inr i, c, d, f', h) in
          let old : ws ≡ rest → IsWarned facts p lists (ci ∷ cis) w =
            λ same. wider (subst (In w) same m) in
          elim (Option-cases ci.called_function) [
            | inl indirect ↦ old (ground arith)
            | inr (f, direct) ↦ elim (Option-cases (find_collective p.registry p.activated f)) [
              | inl other' ↦ old (ground arith)
              | inr (coll, at) ↦
                  let comm = comm_for_collective coll ci in
                  elim (Option-cases
                    (conditionals_of facts lists comm (facts.call_inter_ipdf ci))) [
                      | inl lost ↦ absurd (ground arith)
                      | inr (bs, found) ↦ elim (List-cases bs) [
                        | inl empty ↦ old (ground arith)
                        | inr (b, more, some_left) ↦
                            let new : Warning = record {
                              call = ci;
                              missed_function = f;
                              conditionals = b ∷ more;
                            } in
                            let same : ws ≡ new ∷ rest = ground arith in
                            elim (subst (In w) same m) [
                              | inl is_new ↦
                                  subst (IsWarned facts p lists (ci ∷ cis)) (sym is_new)
                                    (inl refl, coll, direct, at, found ∙ ap some some_left)
                              | inr is_old ↦ wider is_old
                            ]
                      ]
                    ]
            ]
          ]
    ]

-- If the loop over the communicators finds NAVS, one that concerns the call has it.
front_of :
    (facts : Facts) (lists : ListsPerComm) (c : Option Value) (b : ℕ)
    → facts.loop_header b ≡ none
    → has_navs_on facts lists c b ≡ some true
    → (comm : Value) × (ls : CollLists) × In (comm, ls) lists
      × (concerns c comm ≡ true)
      × (navs_front (list_at ls b).list ≡ true)
unfolding has_navs_on
front_of facts [] c b flat e = absurd (ground arith)
front_of facts ((comm, ls) ∷ lists) c b flat e =
    let later : has_navs_on facts lists c b ≡ some true
        → (comm' : Value) × (ls' : CollLists) × In (comm', ls') ((comm, ls) ∷ lists)
          × (concerns c comm' ≡ true)
          × (navs_front (list_at ls' b).list ≡ true) =
      λ e.
        let (comm', ls', i, h, f) = front_of facts lists c b flat e in (comm', ls', inr i, h, f) in
    elim (Bool-cases (concerns c comm)) [
      | inl yes' ↦
          let at : list_block facts b ≡ b = ground arith in
          let moved = ap ls at in
          elim (Option-cases (ls b)) [
            | inl lost ↦ absurd (ground arith)
            | inr (l, found) ↦ elim (Bool-cases (navs_front l.list)) [
              | inl front ↦ (comm, ls, inl refl, yes', ground arith)
              | inr back ↦ elim (Option-cases (has_navs_on facts lists c b)) [
                | inl lost ↦ absurd (ground arith)
                | inr (more, runs) ↦
                    let same : more ≡ true = ground arith in later (runs ∙ ap some same)
              ]
            ]
          ]
      | inr no' ↦ later (rw no' at e)
    ]

-- In a function without loops, whose calls do not call it back, let the map have lists that tell the
-- paths for each of its communicators, and let no block add NAVS or a nested list that begins with it.
-- A conditional in a warning, if it is a block of the function and in no loop, governs a call of a collective in the
-- function, its condition is tainted, and for a communicator of the map that concerns the call there are
-- two paths from its block to an exit on which different sequences of collectives are called.
pub check_warnings-TellsPaths :
    (print_operand : ℕ → Text) (IsBlock : ℕ → Type 0) (IsKnown : Collective → Type 0)
    (naming : IsNaming print_operand IsBlock IsKnown) (p : Program) (cfg : Cfg)
    (res : LoopAggregationInfo) (free : (c : Value) → IsLoopFree p cfg res (some c))
    (before : Value → CollLists) (lists : ListsPerComm) (facts : Facts) (cis : List CallInst)
    (ws : List Warning) (w : Warning) (b : ℕ)
    → ((comm : Value) (ls : CollLists)
        → In (comm, ls) lists
        → TellsPaths print_operand IsBlock IsKnown naming p cfg res
            (some comm)
            (free comm)
            (before comm)
            ls)
    → ((comm : Value) (c : ℕ)
        → In c cfg.blocks
        → IsPlain (
            own print_operand IsBlock IsKnown naming p cfg res
              (some comm)
              (free comm)
              (before comm)
              c))
    → facts.loop_header b ≡ none
    → check_warnings facts p lists cis ≡ some ws
    → In w ws
    → In b w.conditionals
    → In b cfg.blocks
    → In w.call cis
      × In b (facts.call_inter_ipdf w.call)
      × (is_tainted_block facts b ≡ true)
      × (coll : Collective) × (find_collective p.registry p.activated w.missed_function ≡ some coll)
      × (comm : Value) × (ls : CollLists) × In (comm, ls) lists
      × (concerns (comm_for_collective coll w.call) comm ≡ true)
      × (t : Elements) × (u : Elements) × Trace cfg.successors
          (own print_operand IsBlock IsKnown naming p cfg res (some comm) (free comm) (before comm))
          b
          t
      × Trace cfg.successors
          (own print_operand IsBlock IsKnown naming p cfg res (some comm) (free comm) (before comm))
          b
          u
      × (t ≢ u)
check_warnings-TellsPaths print_operand IsBlock IsKnown naming p cfg res free before lists facts cis
      ws w b tells plain flat e m i inside =
    let (call, coll, direct, is_coll, conds) = warning_of facts p lists cis ws e w m in
    let c = comm_for_collective coll w.call in
    let (governs, navs, tainted) =
      (conditionals_of_iff facts lists c (facts.call_inter_ipdf w.call) w.conditionals conds b).0
        i in
    let (comm, ls, stored, meant, front) = front_of facts lists c b flat navs in
    let (alike, different) = tells comm ls stored b inside in
    elim (HasNavs-cases (list_at ls b).list) [
      | inl has_navs ↦
          let (t, u, on_t, on_u, differ) = different has_navs in
          (call, governs, tainted, coll, is_coll, comm, ls, stored, meant, t, u, on_t, on_u, differ)
      | inr none_left ↦
          let trace = (alike none_left).0 in
          let plain' = plain_front _ (
            Trace-IsPlain cfg.successors _ cfg.blocks (free comm).below (plain comm) inside
              trace) in
          absurd (ground arith)
    ]
