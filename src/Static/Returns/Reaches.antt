-- ===== src/Static/Returns/Reaches.antt =====
-- functionDoesNotRet: the search ends, and finds a return wherever one is reached.
use parcoach.Base.{
  ◌+◌, ◌≤◌, ℕ, zero, suc, Bool, true, false, some, List, [], ◌∷◌, ==_iff, if◌then◌else◌, ◌≡◌, refl,
  sym, ap, subst, inl, inr, ◌⊎◌, ◌↔◌, In, Bool-cases, arith, length,
}
use parcoach.Static.Loops.{has_block}
use parcoach.Static.Loops.Exits.{has_block_iff}
use parcoach.Static.Returns.{
  Function, Search, has_return, visit_succs, search_return, function_does_not_ret,
}

-- How many of the blocks are not seen.
abbrev missing : List ℕ → List ℕ → ℕ
missing seen [] = 0
missing seen (b ∷ bs) = if has_block b seen then missing seen bs else suc (missing seen bs)

missing_less : (s : ℕ) (seen bs : List ℕ) → missing (s ∷ seen) bs ≤ missing seen bs
unfolding has_block
missing_less s seen [] = omega arith
missing_less s seen (b ∷ bs) = ground (arith, missing_less s seen bs)

missing_drops :
    (s : ℕ) (seen bs : List ℕ)
    → In s bs
    → has_block s seen ≡ false
    → suc (missing (s ∷ seen) bs) ≤ missing seen bs
unfolding has_block
missing_drops s seen [] i new = absurd i
missing_drops s seen (b ∷ bs) (inl same) new = ground (arith, missing_less s seen bs, ==_iff b s)
missing_drops s seen (b ∷ bs) (inr i) new = ground (arith, missing_drops s seen bs i new)

missing_none : (bs : List ℕ) → missing [] bs ≡ length bs
unfolding has_block
missing_none [] = refl
missing_none (b ∷ bs) = ap suc (missing_none bs)

-- What the loop over the successors does to the search.
record IsVisited (blocks bs : List ℕ) (s t : Search) : Type 0 where
  kept : (x : ℕ) → In x s.seen → In x t.seen
  queued : (x : ℕ) → In x s.to_visit → In x t.to_visit
  pushed : (x : ℕ) → In x t.seen → In x s.seen ⊎ In x t.to_visit
  all_seen : (x : ℕ) → In x bs → In x t.seen
  from : (x : ℕ) → In x t.to_visit → In x s.to_visit ⊎ In x bs
  measure : length t.to_visit + missing t.seen blocks ≤ length s.to_visit + missing s.seen blocks

visit_one :
    (blocks : List ℕ) (b : ℕ) (s : Search)
    → In b blocks
    → IsVisited blocks
        (b ∷ [])
        s
        (if has_block b s.seen then s else record { to_visit = b ∷ s.to_visit; seen = b ∷ s.seen })
visit_one blocks b s i = elim (Bool-cases (has_block b s.seen)) [
  | inl old ↦ rw old (record {
    kept = λ x m. m;
    queued = λ x m. m;
    pushed = λ x m. inl m;
    all_seen = λ x m. elim m [
      | inl same ↦ subst (λ y. In y s.seen) (sym same) ((has_block_iff b s.seen).0 old)
      | inr m ↦ absurd m
    ];
    from = λ x m. inl m;
    measure = omega arith;
  })
  | inr new ↦
      let less = missing_drops b s.seen blocks i new in
      rw new (record {
        kept = λ x m. inr m;
        queued = λ x m. inr m;
        pushed = λ x m. elim m [ inl same ↦ inr (inl same) | inr m ↦ inl m ];
        all_seen = λ x m. elim m [ inl same ↦ inl same | inr m ↦ absurd m ];
        from = λ x m. elim m [ inl same ↦ inr (inl same) | inr m ↦ inl m ];
        measure = omega arith;
      })
]

visit_succs-IsVisited :
    (blocks bs : List ℕ) (s : Search)
    → ((b : ℕ) → In b bs → In b blocks)
    → IsVisited blocks bs s (visit_succs bs s)
unfolding visit_succs
visit_succs-IsVisited blocks [] s i = record {
  kept = λ x m. m;
  queued = λ x m. m;
  pushed = λ x m. inl m;
  all_seen = λ x m. absurd m;
  from = λ x m. inl m;
  measure = omega arith;
}
visit_succs-IsVisited blocks (b ∷ bs) s i =
    let one = visit_one blocks b s (i b (inl refl)) in
    let rest = visit_succs-IsVisited blocks bs _ (λ c j. i c (inr j)) in
    record {
      kept = λ x m. rest.kept x (one.kept x m);
      queued = λ x m. rest.queued x (one.queued x m);
      pushed = λ x m. elim (rest.pushed x m) [
        | inl m ↦ elim (one.pushed x m) [ inl m ↦ inl m | inr m ↦ inr (rest.queued x m) ]
        | inr m ↦ inr m
      ];
      all_seen = λ x m. elim m [
        | inl same ↦ rest.kept x (one.all_seen x (inl same))
        | inr m ↦ rest.all_seen x m
      ];
      from = λ x m. elim (rest.from x m) [
        | inl m ↦ elim (one.from x m) [
          | inl m ↦ inl m
          | inr (inl same) ↦ inr (inl same)
          | inr (inr m) ↦ absurd m
        ]
        | inr m ↦ inr (inr m)
      ];
      measure = (let a = one.measure in let b = rest.measure in omega arith);
    }

module _ (f : Function) where
  -- The blocks that a path leads to from the entry.
  pub data Reached : ℕ → Type 0 where
    at_entry : Reached f.entry
    to_succ : {b c : ℕ} → Reached b → In c (f.succs b) → Reached c

  -- A block is done if it has no return and its successors are seen.
  abbrev IsDone : Search → ℕ → Type 0
  IsDone s x = (has_return (f.instructions x) ≡ false) × ((y : ℕ) → In y (f.succs x) → In y s.seen)

  record IsSearch (s : Search) : Type 0 where
    reached : (x : ℕ) → In x s.to_visit → Reached x
    done : (x : ℕ) → (x ≡ f.entry) ⊎ In x s.seen → In x s.to_visit ⊎ IsDone s x

  visited_all : (s : Search) → IsSearch s → s.to_visit ≡ [] → (x : ℕ) → Reached x → IsDone s x
  visited_all s inv empty x r = elim (inv.done x (been r)) [
    | inl m ↦ absurd (subst (In x) empty m)
    | inr d ↦ d
  ]
    where
      been : {y : ℕ} → Reached y → (y ≡ f.entry) ⊎ In y s.seen
      been at_entry = inl refl
      been {y = y} (to_succ {b = b} r i) = elim (inv.done b (been r)) [
        | inl m ↦ absurd (subst (In b) empty m)
        | inr d ↦ inr (d.1 y i)
      ]

  step-IsSearch :
      (blocks : List ℕ) (bb : ℕ) (bbs seen : List ℕ) (t : Search)
      → IsSearch (record { to_visit = bb ∷ bbs; seen = seen })
      → has_return (f.instructions bb) ≡ false
      → IsVisited blocks (f.succs bb) (record { to_visit = bbs; seen = seen }) t
      → IsSearch t
  step-IsSearch blocks bb bbs seen t inv none_here v = record {
    reached = λ x m. elim (v.from x m) [
      | inl m ↦ inv.reached x (inr m)
      | inr i ↦ to_succ (inv.reached bb (inl refl)) i
    ];
    done = λ x m.
        let before : ((x ≡ f.entry) ⊎ In x seen) ⊎ In x t.to_visit = elim m [
          | inl e ↦ inl (inl e)
          | inr m ↦ elim (v.pushed x m) [ inl m ↦ inl (inr m) | inr m ↦ inr m ]
        ] in
        elim before [
          | inl b ↦ elim (inv.done x b) [
            | inl (inl same) ↦ inr (subst (IsDone t) (sym same) (none_here, v.all_seen))
            | inl (inr m) ↦ inl (v.queued x m)
            | inr d ↦ inr (d.0, λ y i. v.kept y (d.1 y i))
          ]
          | inr m ↦ inl m
        ];
  }

  -- What the search answers.
  abbrev pub IsAnswer : Bool → Type 0
  IsAnswer b =
      ((b ≡ true) → (x : ℕ) → Reached x → has_return (f.instructions x) ≡ false)
      × ((b ≡ false) → (x : ℕ) × Reached x × (has_return (f.instructions x) ≡ true))

  search_return-IsAnswer :
      (blocks : List ℕ)
      → ((b c : ℕ) → Reached b → In c (f.succs b) → In c blocks)
      → (fuel : ℕ) (bbs seen : List ℕ) → IsSearch (record { to_visit = bbs; seen = seen })
      → length bbs + missing seen blocks ≤ fuel
      → (b : Bool) × (search_return fuel f (record { to_visit = bbs; seen = seen }) ≡ some b)
        × IsAnswer b
  unfolding search_return
  search_return-IsAnswer blocks closed zero [] seen inv m =
      (true, refl, (λ t x r. (visited_all _ inv refl x r).0, λ e. absurd (ground arith)))
  search_return-IsAnswer blocks closed zero (bb ∷ bbs) seen inv m = absurd (omega arith)
  search_return-IsAnswer blocks closed (suc n) [] seen inv m =
      (true, refl, (λ t x r. (visited_all _ inv refl x r).0, λ e. absurd (ground arith)))
  search_return-IsAnswer blocks closed (suc n) (bb ∷ bbs) seen inv m =
      elim (Bool-cases (has_return (f.instructions bb))) [
        | inl here ↦ (
          false,
          rw here refl,
          (λ e. absurd (ground arith), λ e. (bb, inv.reached bb (inl refl), here)),
        )
        | inr away ↦
            let at = inv.reached bb (inl refl) in
            let s : Search = record { to_visit = bbs; seen = seen } in
            let t : Search = visit_succs (f.succs bb) s in
            let v : IsVisited blocks (f.succs bb) s t =
              visit_succs-IsVisited blocks (f.succs bb) s (λ c i. closed bb c at i) in
            let less = v.measure in
            let (b, runs, answer) =
              search_return-IsAnswer blocks closed n t.to_visit t.seen
                (step-IsSearch blocks bb bbs seen t inv away v) (omega arith) in
            (b, rw away runs, answer)
      ]

  -- If `blocks` has all successors of the blocks that a path from the entry leads to, one round more
  -- than it has elements is enough, and the function is said not to return exactly if no path from the
  -- entry leads to a block with a return.
  pub function_does_not_ret_iff :
      (blocks : List ℕ) (fuel : ℕ)
      → ((b c : ℕ) → Reached b → In c (f.succs b) → In c blocks)
      → suc (length blocks) ≤ fuel
      → (b : Bool) × (function_does_not_ret fuel f ≡ some b)
        × ((b ≡ true) ↔ ((x : ℕ) → Reached x → has_return (f.instructions x) ≡ false))
  unfolding function_does_not_ret
  function_does_not_ret_iff blocks fuel closed enough =
      let all_missing = missing_none blocks in
      let (b, runs, (all, some_one)) =
        search_return-IsAnswer blocks closed fuel (f.entry ∷ []) []
          (record {
            reached =
                λ x m. elim m [ inl same ↦ subst Reached (sym same) at_entry | inr m ↦ absurd m ];
            done = λ x m. elim m [ inl e ↦ inl (inl e) | inr m ↦ absurd m ];
          })
          (omega arith) in
      (
        b,
        runs,
        (
          all,
          λ none_there. elim (Bool-cases b) [
            | inl e ↦ e
            | inr e ↦
                let (x, r, h) = some_one e in
                let no_return = none_there x r in absurd (ground arith)
          ],
        ),
      )
