-- ===== src/Static/Flow/Remaining.antt =====
-- How many blocks are left to visit, and the front of a queue that is ready.
use parcoach.Base.{
  ℕ, ◌+◌, ◌≤◌, ◌<◌, ◌≡◌, ◌≢◌, inl, inr, refl, sym, ap, ◌∙◌, true, false, List, [], ◌∷◌, ◌++◌, In,
  arith,
}
use parcoach.Static.Flow.{NodeState, visited, Visit, all_done}
use parcoach.Static.Flow.Queue.{State-cases}

pub remaining : List ℕ → (ℕ → NodeState) → ℕ
remaining [] s = 0
remaining (b ∷ bs) s = (elim (s b) [ visited ↦ 0 | _ ↦ 1 ]) + remaining bs s

pub remaining_le :
    (bs : List ℕ) (s t : ℕ → NodeState)
    → ((b : ℕ) → s b ≡ visited → t b ≡ visited)
    → remaining bs t ≤ remaining bs s
unfolding remaining
remaining_le [] s t h = omega arith
remaining_le (b ∷ bs) s t h = elim (State-cases (s b)) [
  | inl e ↦ ground (arith, remaining_le bs s t h)
  | inr (inl e) ↦ ground (arith, remaining_le bs s t h)
  | inr (inr e) ↦ let e' = h b e in ground (arith, remaining_le bs s t h)
]

pub remaining_lt :
    (bs : List ℕ) (s t : ℕ → NodeState) (c : ℕ)
    → ((b : ℕ) → s b ≡ visited → t b ≡ visited)
    → In c bs
    → s c ≢ visited
    → t c ≡ visited
    → remaining bs t < remaining bs s
unfolding remaining
remaining_lt [] s t c h m ne e = absurd m
remaining_lt (b ∷ bs) s t c h (inl same) ne e =
    let e' : t b ≡ visited = ap t (sym same) ∙ e in
    let rest = remaining_le bs s t h in
    elim (State-cases (s b)) [
      | inl e'' ↦ ground arith
      | inr (inl e'') ↦ ground arith
      | inr (inr e'') ↦ absurd (ne (ap s same ∙ e''))
    ]
remaining_lt (b ∷ bs) s t c h (inr m) ne e =
    let rest = remaining_lt bs s t c h m ne e in
    elim (State-cases (s b)) [
      | inl e'' ↦ ground arith
      | inr (inl e'') ↦ ground arith
      | inr (inr e'') ↦ let e' = h b e'' in ground arith
    ]

-- A block that is not done, among blocks that are not all done.
pub not_done :
    (v : Visit) (bs : List ℕ) → all_done v bs ≡ false → (c : ℕ) × In c bs × (v.states c ≢ visited)
unfolding all_done
not_done v [] h = cc
not_done v (b ∷ bs) h = elim (State-cases (v.states b)) [
  | inl e ↦ (b, inl refl, λ d. cc (e, d))
  | inr (inl e) ↦ (b, inl refl, λ d. cc (e, d))
  | inr (inr e) ↦ let (c, m, ne) = not_done v bs (ground arith) in (c, inr m, ne)
]

pub In-all_done :
    (v : Visit) (bs : List ℕ) → ((c : ℕ) → In c bs → v.states c ≡ visited) → all_done v bs ≡ true
unfolding all_done
In-all_done v [] h = refl
In-all_done v (b ∷ bs) h =
    let e = h b (inl refl) in let rest = In-all_done v bs (λ c m. h c (inr m)) in ground arith

-- An entry of a list has a place in it.
pub In-split :
    (c : ℕ) (xs : List ℕ) → In c xs → (pre : List ℕ) × (post : List ℕ) × (xs ≡ pre ++ c ∷ post)
In-split c [] m = absurd m
In-split c (x ∷ xs) (inl e) = ([], xs, ap (λ y. y ∷ xs) (sym e))
In-split c (x ∷ xs) (inr m) = let (pre, post, e) = In-split c xs m in (x ∷ pre, post, ap (◌∷◌ x) e)
