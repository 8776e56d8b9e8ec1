-- ===== src/Concurrency/Ready.antt =====
-- One round of the analysis of a function without loops: some block need not wait, and its visit leaves
-- fewer blocks that are not black.
use parcoach.Base.{
  ◌≡◌, ◌≢◌, refl, sym, ap, ◌∙◌, inl, inr, ◌⊎◌, ℕ, zero, suc, ◌<◌, Bool, true, false, List, [], ◌∷◌,
  ◌++◌, arith, Bool-cases, subst, In, In-append, List-cases,
}
use parcoach.Concurrency.Graph.{
  FunctionGraph, white, grey, black, Analysis, set_at, set_color, any_open, must_wait,
  visit_successors, analyze_block, visit_block,
}
use parcoach.Concurrency.Ends.{
  IsAcyclic, Color-cases, open_blocks, open_drops, colored, visit_successors-IsPushed,
}

some_open :
    (s : Analysis) (ps : List ℕ)
    → any_open s ps ≡ true
    → (p : ℕ) × In p ps × (s.color_map p ≢ black)
unfolding any_open
some_open s [] e = absurd (ground arith)
some_open s (p ∷ ps) e = elim (Color-cases (s.color_map p)) [
  | inl k ↦ (p, inl refl, λ b. cc (k, b))
  | inr (inl k) ↦ (p, inl refl, λ b. cc (k, b))
  | inr (inr k) ↦ let (q, m, ne) = some_open s ps (ground arith) in (q, inr m, ne)
]

none_open :
    (s : Analysis) (ps : List ℕ) → any_open s ps ≡ false → (p : ℕ) → In p ps → s.color_map p ≡ black
unfolding any_open
none_open s [] e p m = absurd m
none_open s (q ∷ ps) e p m = elim (Color-cases (s.color_map q)) [
  | inl k ↦ absurd (ground arith)
  | inr (inl k) ↦ absurd (ground arith)
  | inr (inr k) ↦ elim m [
    | inl same ↦ ap s.color_map same ∙ k
    | inr m' ↦ none_open s ps (ground arith) p m'
  ]
]

module _ (may_alias : ℕ → ℕ → Bool) (f : FunctionGraph) (acyclic : IsAcyclic f) where
  open acyclic use {entered, rank, rises, linked, below, above, reached}

  -- Grey blocks are in the queue, the successors of black ones are not white, and the entry is black or
  -- in the queue.
  pub record IsFlowing (queue : List ℕ) (s : Analysis) : Type 0 where
    pub headers : (b : ℕ) → s.lheader_map b ≡ false
    pub latches : (b : ℕ) → s.llatch_map b ≡ false
    pub queued : (b : ℕ) → s.color_map b ≡ grey → In b queue
    pub ordered : (b c : ℕ) → s.color_map b ≡ black → In c (f.successors b) → s.color_map c ≢ white
    pub entry : (s.color_map f.entry_block ≡ black) ⊎ In f.entry_block queue
    pub inside : (b : ℕ) → In b queue → In b f.blocks

  pub must_wait_value :
      (queue : List ℕ) (s : Analysis) (b : ℕ)
      → IsFlowing queue s
      → must_wait f s b ≡ any_open s (f.predecessors b)
  unfolding must_wait
  must_wait_value queue s b h = rw (h.headers b) refl

  -- Below any block that is not black, one is in the queue that need not wait.
  pub ready_from :
      (n b : ℕ) (queue : List ℕ) (s : Analysis)
      → rank b < n
      → IsFlowing queue s
      → In b f.blocks
      → s.color_map b ≢ black
      → (c : ℕ) × In c queue × (s.color_map c ≢ black) × (must_wait f s c ≡ false)
  ready_from zero b queue s lt h i ne = absurd (omega arith)
  ready_from (suc n) b queue s lt h i ne = elim (Bool-cases (any_open s (f.predecessors b))) [
    | inl waits ↦
        let (p, m, ne') = some_open s (f.predecessors b) waits in
        let r = rises p b m in ready_from n p queue s (omega arith) h (above p b i m) ne'
    | inr free ↦
        let black_below = none_open s (f.predecessors b) free in
        let here : In b queue = elim (reached b i) [
          | inl same ↦ elim h.entry [
            | inl e ↦ absurd (ne (ap s.color_map same ∙ e))
            | inr m ↦ subst (λ x. In x queue) (sym same) m
          ]
          | inr some_pred ↦ elim (List-cases (f.predecessors b)) [
            | inl empty ↦ absurd (some_pred empty)
            | inr (p, ps, e) ↦
                let m = subst (In p) (sym e) (inl refl) in
                let seen = h.ordered p b (black_below p m) (linked p b m) in
                elim (Color-cases (s.color_map b)) [
                  | inl k ↦ absurd (seen k)
                  | inr (inl k) ↦ h.queued b k
                  | inr (inr k) ↦ absurd (ne k)
                ]
          ]
        ] in
        (b, here, ne, must_wait_value queue s b h ∙ free)
  ]

  pub dropped :
      (bb : ℕ) (rest : List ℕ) (s : Analysis)
      → s.color_map bb ≡ black
      → IsFlowing (bb ∷ rest) s
      → IsFlowing rest s
  dropped bb rest s e h = record {
    headers = h.headers;
    latches = h.latches;
    queued = λ b k. elim (h.queued b k) [
      | inl same ↦ absurd (cc (ap s.color_map same, k, e))
      | inr m ↦ m
    ];
    ordered = h.ordered;
    entry = elim h.entry [
      | inl k ↦ inl k
      | inr (inl same) ↦ inl (ap s.color_map same ∙ e)
      | inr (inr m) ↦ inr m
    ];
    inside = λ b m. h.inside b (inr m);
  }

  pub rotated :
      (bb : ℕ) (rest : List ℕ) (s : Analysis)
      → IsFlowing (bb ∷ rest) s
      → IsFlowing (rest ++ bb ∷ []) s
  rotated bb rest s h = record {
    headers = h.headers;
    latches = h.latches;
    queued = λ b k. to_end b (h.queued b k);
    ordered = h.ordered;
    entry = elim h.entry [ inl k ↦ inl k | inr m ↦ inr (to_end f.entry_block m) ];
    inside = λ b m. elim ((In-append b rest (bb ∷ [])).0 m) [
      | inl m' ↦ h.inside b (inr m')
      | inr (inl same) ↦ h.inside b (inl same)
      | inr (inr none_left) ↦ absurd none_left
    ];
  }
    where
      to_end : (b : ℕ) → In b (bb ∷ rest) → In b (rest ++ bb ∷ [])
      to_end b (inl same) = (In-append b rest (bb ∷ [])).1 (inr (inl same))
      to_end b (inr m) = (In-append b rest (bb ∷ [])).1 (inl m)

  -- The colors behind the visit of a block.
  pub record IsVisit (bb : ℕ) (queue : List ℕ) (s t : Analysis) : Type 0 where
    pub flowing : IsFlowing queue t
    pub fewer : open_blocks t.color_map f.blocks < open_blocks s.color_map f.blocks

  pub visit_block-IsVisit :
      (bb : ℕ) (rest : List ℕ) (s : Analysis)
      → s.color_map bb ≢ black
      → IsFlowing (bb ∷ rest) s
      → IsVisit bb
          (visit_block may_alias f (λ b. true) bb rest s).0
          s
          (visit_block may_alias f (λ b. true) bb rest s).1
  unfolding visit_block analyze_block
  visit_block-IsVisit bb rest s ne h =
      let s₁ : Analysis = set_color bb grey (analyze_block may_alias f bb s) in
      let pushed = visit_successors-IsPushed bb (f.successors bb) rest s₁ h.latches in
      let t : Analysis = (visit_successors (λ b. true) bb (f.successors bb) rest s₁).1 in
      let last = colored t.color_map bb black in
      let first = colored s.color_map bb grey in
      let stays : (b : ℕ) → t.color_map b ≢ white → set_at t.color_map bb black b ≢ white =
        λ b k e. elim (last b) [ inl (_, e') ↦ cc (e', e) | inr (_, e') ↦ k (sym e' ∙ e) ] in
      let darkens : (b : ℕ) → s.color_map b ≡ black → set_at t.color_map bb black b ≡ black = λ b e.
        elim (last b) [
          | inl (_, e') ↦ e'
          | inr (_, e') ↦
              e'
              ∙ pushed.darker.blacks b (elim (first b) [
                | inl (same, _) ↦ absurd (ne (sym (ap s.color_map same) ∙ e))
                | inr (_, k) ↦ k ∙ e
              ])
        ] in
      let ends_black : set_at t.color_map bb black bb ≡ black = elim (last bb) [
        | inl (_, e) ↦ e
        | inr (other, _) ↦ absurd (other refl)
      ] in
      record {
        flowing = record {
          headers = λ b. ap (λ (l : ℕ → Bool). l b) pushed.same_headers ∙ h.headers b;
          latches = λ b. ap (λ (l : ℕ → Bool). l b) pushed.same_latches ∙ h.latches b;
          queued = λ b e. elim (last b) [
            | inl (_, e') ↦ absurd (cc (e', e))
            | inr (other, e') ↦ elim (pushed.pushed b (sym e' ∙ e)) [
              | inr m ↦ m
              | inl k ↦ elim (first b) [
                | inl (same, _) ↦ absurd (other same)
                | inr (_, k') ↦ elim (h.queued b (sym k' ∙ k)) [
                  | inl same ↦ absurd (other same)
                  | inr m ↦ pushed.kept b m
                ]
              ]
            ]
          ];
          ordered = λ b c e m. elim (last b) [
            | inl (same, _) ↦
                stays c (pushed.all_seen c (subst (λ x. In c (f.successors x)) same m))
            | inr (other, e') ↦
                let e₁ = pushed.no_black b (sym e' ∙ e) in
                elim (first b) [
                  | inl (_, k) ↦ absurd (cc (k, e₁))
                  | inr (_, k) ↦
                      let seen = h.ordered b c (sym k ∙ e₁) m in
                      stays c (
                        pushed.darker.seen c (λ w. elim (first c) [
                          | inl (_, k') ↦ cc (k', w)
                          | inr (_, k') ↦ seen (sym k' ∙ w)
                        ]))
                ]
          ];
          entry = elim h.entry [
            | inl e ↦ inl (darkens f.entry_block e)
            | inr (inl same) ↦ inl (ap (set_at t.color_map bb black) same ∙ ends_black)
            | inr (inr m) ↦ inr (pushed.kept f.entry_block m)
          ];
          inside = λ b m. elim (pushed.from b m) [
            | inl m' ↦ h.inside b (inr m')
            | inr m' ↦ below bb b (h.inside bb (inl refl)) m'
          ];
        };
        fewer =
            open_drops s.color_map (set_at t.color_map bb black) f.blocks bb darkens
              (h.inside bb (inl refl)) ne ends_black;
      }
