-- ===== src/Static/Loops/Exits.antt =====
-- LoopVisitor::ComputeReversedMap: the loop that a block follows.
use parcoach.Base.{
  ℕ, Bool, true, false, Option, none, some, List, [], ◌∷◌, ◌==◌, if◌then◌else◌, ◌≡◌, refl, sym, ap,
  ◌∙◌, subst, inl, inr, ◌⊎◌, ◌↔◌, In, Bool-cases, Option-cases, arith,
}
use parcoach.Static.Loops.{reverse_header, map_at, has_block, reverse_exits, compute_reversed_map}

pub has_block_iff : (b : ℕ) (bs : List ℕ) → (has_block b bs ≡ true) ↔ In b bs
unfolding has_block
has_block_iff b [] = ground arith
has_block_iff b (c ∷ bs) = ground (arith, has_block_iff b bs)

reverse_exits_at :
    (header x : ℕ) (succs : List ℕ) (m : ℕ → Option ℕ)
    → reverse_exits header succs m x ≡ (if has_block x succs then some header else m x)
unfolding reverse_exits has_block
reverse_exits_at header x [] m = refl
reverse_exits_at header x (succ ∷ succs) m =
    let rest = reverse_exits_at header x succs (map_at m succ header) in
    elim (Bool-cases (x == succ)) [
      | inl here ↦ elim (Bool-cases (has_block x succs)) [
        | inl later ↦ rest ∙ rw (later, here) refl
        | inr last ↦ rest ∙ rw (last, here) refl
      ]
      | inr away ↦ elim (Bool-cases (has_block x succs)) [
        | inl later ↦ rest ∙ rw (later, away) refl
        | inr last ↦ rest ∙ rw (last, away) refl
      ]
    ]

module _ (exits_of : ℕ → Option (List ℕ)) where
  -- The block is an exit of the loop.
  abbrev pub IsExit : ℕ → ℕ → Type 0
  IsExit header x = (exits : List ℕ) × (exits_of header ≡ some exits) × In x exits

  is_exit : ℕ → ℕ → Bool
  is_exit header x = elim (exits_of header) [ none ↦ false | some exits ↦ has_block x exits ]

  is_exit-IsExit : (header x : ℕ) → (is_exit header x ≡ true) ↔ IsExit header x
  unfolding is_exit
  is_exit-IsExit header x = elim (Option-cases (exits_of header)) [
    | inl lost ↦ (λ h. absurd (ground arith), λ (exits, e, m). absurd (ground arith))
    | inr (bs, found) ↦
        let has = has_block_iff x bs in
        (
          λ h. (bs, found, has.0 (ground arith)),
          λ (exits, e, m).
              let same : exits ≡ bs = ground arith in
              let own = has.1 (subst (In x) same m) in ground arith,
        )
  ]

  one_header :
      (header x : ℕ) (m : ℕ → Option ℕ)
      → reverse_header exits_of header m x ≡ (if is_exit header x then some header else m x)
  unfolding is_exit reverse_header
  one_header header x m = elim (Option-cases (exits_of header)) [
    | inl lost ↦ rw (lost, reverse_header, is_exit) refl
    | inr (bs, found) ↦ rw (found, reverse_header, is_exit) (reverse_exits_at header x bs m)
  ]

  -- The last of the loops in the map that has the exit.
  abbrev last_of : List ℕ → ℕ → Option ℕ → Option ℕ
  last_of [] x o = o
  last_of (h ∷ hs) x o = last_of hs x (if is_exit h x then some h else o)

  reversed_last :
      (headers : List ℕ) (x : ℕ) (m : ℕ → Option ℕ)
      → compute_reversed_map exits_of headers m x ≡ last_of headers x (m x)
  unfolding compute_reversed_map
  reversed_last [] x m = refl
  reversed_last (h ∷ hs) x m =
      reversed_last hs x (reverse_header exits_of h m) ∙ ap (last_of hs x) (one_header h x m)

  last_of-some :
      (headers : List ℕ) (x h : ℕ) (o : Option ℕ)
      → last_of headers x o ≡ some h
      → (In h headers × IsExit h x) ⊎ (o ≡ some h)
  last_of-some [] x h o e = inr e
  last_of-some (g ∷ hs) x h o e = elim (Bool-cases (is_exit g x)) [
    | inl yes' ↦
        let value : (if is_exit g x then some g else o) ≡ some g = rw yes' refl in
        elim (last_of-some hs x h (some g) (sym (ap (last_of hs x) value) ∙ e)) [
          | inl (i, exit) ↦ inl (inr i, exit)
          | inr same ↦
              let at : g ≡ h = ground arith in
              inl (inl (sym at), subst (λ k. IsExit k x) at ((is_exit-IsExit g x).0 yes'))
        ]
    | inr no' ↦
        let value : (if is_exit g x then some g else o) ≡ o = rw no' refl in
        elim (last_of-some hs x h o (sym (ap (last_of hs x) value) ∙ e)) [
          | inl (i, exit) ↦ inl (inr i, exit)
          | inr same ↦ inr same
        ]
  ]

  last_of-only :
      (headers : List ℕ) (x h : ℕ) (o : Option ℕ)
      → In h headers ⊎ (o ≡ some h)
      → IsExit h x
      → ((g : ℕ) → In g headers → IsExit g x → g ≡ h)
      → last_of headers x o ≡ some h
  last_of-only [] x h o (inl m) own only = absurd m
  last_of-only [] x h o (inr e) own only = e
  last_of-only (g ∷ hs) x h o m own only = elim (Bool-cases (is_exit g x)) [
    | inl yes' ↦
        let at = only g (inl refl) ((is_exit-IsExit g x).0 yes') in
        let value : (if is_exit g x then some g else o) ≡ some h = rw yes' (ap some at) in
        ap (last_of hs x) value
        ∙ last_of-only hs x h (some h) (inr refl) own (λ k i. only k (inr i))
    | inr no' ↦
        let value : (if is_exit g x then some g else o) ≡ o = rw no' refl in
        let below : In h hs ⊎ (o ≡ some h) = elim m [
          | inl (inl here) ↦
              let exit = (is_exit-IsExit g x).1 (subst (λ k. IsExit k x) here own) in
              absurd (ground arith)
          | inl (inr i) ↦ inl i
          | inr e ↦ inr e
        ] in
        ap (last_of hs x) value ∙ last_of-only hs x h o below own (λ k i. only k (inr i))
  ]

  -- Where no two loops in the map share an exit, the reversed map leads a block to the header of the
  -- loop that it is an exit of, and no other block to a header.
  pub compute_reversed_map_iff :
      (headers : List ℕ) (x h : ℕ)
      → ((g k : ℕ) → In g headers → In k headers → IsExit g x → IsExit k x → g ≡ k)
      → (compute_reversed_map exits_of headers (λ b. none) x ≡ some h) ↔ (In h headers × IsExit h x)
  compute_reversed_map_iff headers x h only =
      let value = reversed_last headers x (λ b. none) in
      (
        λ e. elim (last_of-some headers x h none (sym value ∙ e)) [
          | inl found ↦ found
          | inr impossible ↦ cc
        ],
        λ (i, exit).
            value ∙ last_of-only headers x h none (inl i) exit (λ g j own. only g h j i own exit),
      )
