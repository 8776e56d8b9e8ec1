-- ===== src/Concurrency/Ends.antt =====
-- The traversal of a function without loops ends: some block of the queue never has to wait.
use parcoach.Base.{
  ◌≡◌, ◌≢◌, refl, sym, ap, ◌∙◌, inl, inr, ◌⊎◌, ℕ, suc, ◌≤◌, ◌<◌, Bool, true, false, List, [], ◌∷◌,
  ◌==◌, ==_iff, arith, Bool-cases, In, In-append,
}
use parcoach.Concurrency.Graph.{
  FunctionGraph, Color, white, grey, black, Analysis, set_at, is_white, visit_successor,
  visit_successors, end,
}

-- A function without loops, as LLVM has them: the rank grows along the edges, which are the same from
-- both ends and stay within the blocks, the entry is one of the blocks, and every other block has a
-- predecessor.
pub record IsAcyclic (f : FunctionGraph) : Type 0 where
  pub no_loop : f.loops ≡ end
  pub entered : In f.entry_block f.blocks
  pub rank : ℕ → ℕ
  pub rises : (b c : ℕ) → In b (f.predecessors c) → rank b < rank c
  pub linked : (b c : ℕ) → In b (f.predecessors c) → In c (f.successors b)
  pub below : (b c : ℕ) → In b f.blocks → In c (f.successors b) → In c f.blocks
  pub above : (b c : ℕ) → In c f.blocks → In b (f.predecessors c) → In b f.blocks
  pub reached : (c : ℕ) → In c f.blocks → (c ≡ f.entry_block) ⊎ (f.predecessors c ≢ [])

pub Color-cases : (c : Color) → (c ≡ white) ⊎ (c ≡ grey) ⊎ (c ≡ black)
Color-cases white = inl refl
Color-cases grey = inr (inl refl)
Color-cases black = inr (inr refl)

-- How many of the blocks are not black.
abbrev pub open_blocks : (ℕ → Color) → List ℕ → ℕ
open_blocks colors [] = 0
open_blocks colors (b ∷ bs) = elim (colors b) [
  | black ↦ open_blocks colors bs
  | _ ↦ suc (open_blocks colors bs)
]

-- Colors may only get darker; no block that is not grey or black becomes so but those listed.
pub record IsDarker (colors colors' : ℕ → Color) : Type 0 where
  pub blacks : (b : ℕ) → colors b ≡ black → colors' b ≡ black
  pub seen : (b : ℕ) → colors b ≢ white → colors' b ≢ white

open_less :
    (colors colors' : ℕ → Color) (bs : List ℕ)
    → ((b : ℕ) → colors b ≡ black → colors' b ≡ black)
    → open_blocks colors' bs ≤ open_blocks colors bs
open_less colors colors' [] h = omega arith
open_less colors colors' (b ∷ bs) h =
    let rest = open_less colors colors' bs h in
    let here = h b in
    elim (Color-cases (colors b)) [
      | inl e ↦ elim (Color-cases (colors' b)) [
        | inl e' ↦ ground arith
        | inr (inl e') ↦ ground arith
        | inr (inr e') ↦ ground arith
      ]
      | inr (inl e) ↦ elim (Color-cases (colors' b)) [
        | inl e' ↦ ground arith
        | inr (inl e') ↦ ground arith
        | inr (inr e') ↦ ground arith
      ]
      | inr (inr e) ↦ ground arith
    ]

pub open_drops :
    (colors colors' : ℕ → Color) (bs : List ℕ) (x : ℕ)
    → ((b : ℕ) → colors b ≡ black → colors' b ≡ black)
    → In x bs
    → colors x ≢ black
    → colors' x ≡ black
    → open_blocks colors' bs < open_blocks colors bs
open_drops colors colors' [] x h m ne e = absurd m
open_drops colors colors' (b ∷ bs) x h (inl same) ne e =
    let rest = open_less colors colors' bs h in
    let e' = ap colors' (sym same) ∙ e in
    let ne' : colors b ≢ black = λ k. ne (ap colors same ∙ k) in
    elim (Color-cases (colors b)) [
      | inl k ↦ ground arith
      | inr (inl k) ↦ ground arith
      | inr (inr k) ↦ absurd (ne' k)
    ]
open_drops colors colors' (b ∷ bs) x h (inr m) ne e =
    let rest = open_drops colors colors' bs x h m ne e in
    let here = h b in
    elim (Color-cases (colors b)) [
      | inl k ↦ elim (Color-cases (colors' b)) [
        | inl e' ↦ ground arith
        | inr (inl e') ↦ ground arith
        | inr (inr e') ↦ ground arith
      ]
      | inr (inl k) ↦ elim (Color-cases (colors' b)) [
        | inl e' ↦ ground arith
        | inr (inl e') ↦ ground arith
        | inr (inr e') ↦ ground arith
      ]
      | inr (inr k) ↦ ground arith
    ]

-- What visiting the successors does to the queue and the colors, where no latch is marked.
pub record IsPushed (bb : ℕ) (succs queue queue' : List ℕ) (s t : Analysis) : Type 0 where
  pub same_latches : t.llatch_map ≡ s.llatch_map
  pub same_headers : t.lheader_map ≡ s.lheader_map
  pub darker : IsDarker s.color_map t.color_map
  pub no_black : (b : ℕ) → t.color_map b ≡ black → s.color_map b ≡ black
  pub pushed : (b : ℕ) → t.color_map b ≡ grey → (s.color_map b ≡ grey) ⊎ In b queue'
  pub kept : (b : ℕ) → In b queue → In b queue'
  pub from : (b : ℕ) → In b queue' → In b queue ⊎ In b succs
  pub all_seen : (b : ℕ) → In b succs → t.color_map b ≢ white

pub colored :
    (colors : ℕ → Color) (bb : ℕ) (c : Color) (b : ℕ)
    → ((b ≡ bb) × (set_at colors bb c b ≡ c)) ⊎ ((b ≢ bb) × (set_at colors bb c b ≡ colors b))
colored colors bb c b = elim (Bool-cases (b == bb)) [
  | inl same ↦ inl ((==_iff b bb).0 same, rw same refl)
  | inr other ↦ inr (λ e. cc ((==_iff b bb).1 e, other), rw other refl)
]

visit_successor-IsPushed :
    (bb succ : ℕ) (queue : List ℕ) (s : Analysis)
    → ((b : ℕ) → s.llatch_map b ≡ false)
    → IsPushed bb
        (succ ∷ [])
        queue
        (visit_successor (λ b. true) bb succ queue s).0
        s
        (visit_successor (λ b. true) bb succ queue s).1
unfolding visit_successor
visit_successor-IsPushed bb succ queue s no_latch =
    let latch = no_latch bb in
    elim (Bool-cases (is_white s succ)) [
      | inr seen ↦
          rw (latch, seen, visit_successor)
            (record {
              same_latches = refl;
              same_headers = refl;
              darker = record { blacks = λ b e. e; seen = λ b e. e };
              no_black = λ b e. e;
              pushed = λ b e. inl e;
              kept = λ b m. m;
              from = λ b m. inl m;
              all_seen = λ b m. elim m [
                | inl same ↦ λ e. let moved = ap s.color_map same in absurd (ground arith)
                | inr m ↦ absurd m
              ];
            })
      | inl new ↦
          rw (latch, new, visit_successor)
            (record {
              same_latches = refl;
              same_headers = refl;
              darker = record {
                blacks = λ b e. elim (colored s.color_map succ grey b) [
                  | inl (same, k) ↦ let moved = ap s.color_map same in absurd (ground arith)
                  | inr (other, k) ↦ k ∙ e
                ];
                seen = λ b ne e. elim (colored s.color_map succ grey b) [
                  | inl (same, k) ↦ cc (k, e)
                  | inr (other, k) ↦ ne (sym k ∙ e)
                ];
              };
              no_black = λ b e. elim (colored s.color_map succ grey b) [
                | inl (same, k) ↦ absurd (cc (k, e))
                | inr (other, k) ↦ sym k ∙ e
              ];
              pushed = λ b e. elim (colored s.color_map succ grey b) [
                | inl (same, k) ↦ inr ((In-append b queue (succ ∷ [])).1 (inr (inl same)))
                | inr (other, k) ↦ inl (sym k ∙ e)
              ];
              kept = λ b m. (In-append b queue (succ ∷ [])).1 (inl m);
              from = λ b m. (In-append b queue (succ ∷ [])).0 m;
              all_seen = λ b m e. elim m [
                | inl same ↦ elim (colored s.color_map succ grey b) [
                  | inl (_, k) ↦ cc (k, e)
                  | inr (other, k) ↦ other same
                ]
                | inr m ↦ m
              ];
            })
    ]

pub visit_successors-IsPushed :
    (bb : ℕ) (succs queue : List ℕ) (s : Analysis)
    → ((b : ℕ) → s.llatch_map b ≡ false)
    → IsPushed bb succs queue
        (visit_successors (λ b. true) bb succs queue s).0
        s
        (visit_successors (λ b. true) bb succs queue s).1
unfolding visit_successors
visit_successors-IsPushed bb [] queue s no_latch = record {
  same_latches = refl;
  same_headers = refl;
  darker = record { blacks = λ b e. e; seen = λ b e. e };
  no_black = λ b e. e;
  pushed = λ b e. inl e;
  kept = λ b m. m;
  from = λ b m. inl m;
  all_seen = λ b m. absurd m;
}
visit_successors-IsPushed bb (succ ∷ succs) queue s no_latch =
    let (queue', t) = visit_successor (λ b. true) bb succ queue s in
    let one = visit_successor-IsPushed bb succ queue s no_latch in
    let rest =
      visit_successors-IsPushed bb succs queue' t
        (λ b. ap (λ (l : ℕ → Bool). l b) one.same_latches ∙ no_latch b) in
    record {
      same_latches = rest.same_latches ∙ one.same_latches;
      same_headers = rest.same_headers ∙ one.same_headers;
      darker = record {
        blacks = λ b e. rest.darker.blacks b (one.darker.blacks b e);
        seen = λ b e. rest.darker.seen b (one.darker.seen b e);
      };
      no_black = λ b e. one.no_black b (rest.no_black b e);
      pushed = λ b e. elim (rest.pushed b e) [
        | inl e' ↦ elim (one.pushed b e') [ inl k ↦ inl k | inr m ↦ inr (rest.kept b m) ]
        | inr m ↦ inr m
      ];
      kept = λ b m. rest.kept b (one.kept b m);
      from = λ b m. elim (rest.from b m) [
        | inl m' ↦ elim (one.from b m') [
          | inl k ↦ inl k
          | inr (inl same) ↦ inr (inl same)
          | inr (inr none_left) ↦ absurd none_left
        ]
        | inr m' ↦ inr (inr m')
      ];
      all_seen = λ b m. elim m [
        | inl same ↦ rest.darker.seen b (one.all_seen b (inl same))
        | inr m' ↦ rest.all_seen b m'
      ];
    }
