-- ===== src/Andersen/Worklist.antt =====
-- ConstraintSolving.cpp, AndersWorkList: with its set beside it the queue is a queue without
-- duplicates.
use parcoach.Base.{
  subst, ◌≡◌, refl, sym, ◌∙◌, ap, inl, inr, ◌↔◌, ℕ, Option, none, some, List, [], ◌∷◌, ◌++◌, ◌==◌,
  arith, if◌then◌else◌, Bool-cases, In, In-append, ◌>>=◌,
}
use parcoach.Andersen.Constraints.{WorkList, has_index, erase_index, enqueue_node, dequeue_node}
use parcoach.Andersen.Sets.{
  IsAscending, In-insert_index, In-erase_index, has_index_iff, insert_index-IsAscending,
  erase_index-IsAscending,
}

abbrev pub IsDistinct : List ℕ → Type 0
IsDistinct [] = Unit
IsDistinct (n ∷ ns) = (¬ In n ns) × IsDistinct ns

-- The set has the elements of the queue, which are all different.
pub record IsConsistent (w : WorkList) : Type 0 where
  pub ascending : IsAscending w.set
  pub same : (n : ℕ) → In n w.list ↔ In n w.set
  pub distinct : IsDistinct w.list

IsDistinct-append : (n : ℕ) (ns : List ℕ) → IsDistinct ns → ¬ In n ns → IsDistinct (ns ++ n ∷ [])
IsDistinct-append n [] h off = (off, tt)
IsDistinct-append n (m ∷ ns) h off = (
  λ found. elim ((In-append m ns (n ∷ [])).0 found) [
    | inl old ↦ h.0 old
    | inr (inl e) ↦ off (inl (sym e))
    | inr (inr none_left) ↦ none_left
  ],
  IsDistinct-append n ns h.1 (λ found. off (inr found)),
)

enqueue_node-IsConsistent :
    (n : ℕ) (w : WorkList) → IsConsistent w → IsConsistent (enqueue_node n w)
unfolding enqueue_node
enqueue_node-IsConsistent n w h = elim (Bool-cases (has_index n w.set)) [
  | inl here ↦ rw (here, enqueue_node) h
  | inr away ↦
      let absent : ¬ In n w.list =
        λ m. let old = (h.same n).0 m in let seen = (has_index_iff n w.set).1 old in ground arith in
      rw (away, enqueue_node)
        (record {
          ascending = insert_index-IsAscending n w.set h.ascending;
          same = λ m.
              let old = h.same m in
              let added = In-append m w.list (n ∷ []) in
              let put = In-insert_index m n w.set in ground arith;
          distinct = IsDistinct-append n w.list h.distinct absent;
        })
]

dequeue_node-IsConsistent :
    (n : ℕ) (rest set : List ℕ)
    → IsConsistent (record { list = n ∷ rest; set = set })
    → IsConsistent (record { list = rest; set = (erase_index n set).1 })
dequeue_node-IsConsistent n rest set h = record {
  ascending = erase_index-IsAscending n set h.ascending;
  same = λ m.
      let old = h.same m in
      let taken = In-erase_index m n set h.ascending in
      let off = h.distinct.0 in
      (
        λ found. taken.1 (
          old.0 (inr found),
          elim (Bool-cases (m == n)) [
            | inl here ↦
                let at : m ≡ n = ground arith in absurd (off (subst (λ k. In k rest) at found))
            | inr away ↦ away
          ],
        ),
        λ found. elim (old.1 (taken.0 found).0) [
          | inl e ↦ let away = (taken.0 found).1 in absurd (ground arith)
          | inr left ↦ left
        ],
      );
  distinct = h.distinct.1;
}

-- The queue without duplicates that a worklist is meant to be.
abbrev push : ℕ → List ℕ → List ℕ
push n q = if has_index n q then q else q ++ n ∷ []

pub data Operation : Type 0 where
  put_in : ℕ → Operation
  take_out : Operation

-- What a sequence of operations takes out, none if it takes from an empty queue.
unfoldable pub run : List Operation → WorkList → Option (List ℕ)
unfolding enqueue_node dequeue_node
run [] w = some []
run (put_in n ∷ ops) w = run ops (enqueue_node n w)
run (take_out ∷ ops) w = do (n, w') ← dequeue_node w; rest ← run ops w'; some (n ∷ rest)

unfoldable pub run_queue_of : List Operation → List ℕ → Option (List ℕ)
unfolding has_index
run_queue_of [] q = some []
run_queue_of (put_in n ∷ ops) q = run_queue_of ops (push n q)
run_queue_of (take_out ∷ ops) [] = none
run_queue_of (take_out ∷ ops) (n ∷ q) = do rest ← run_queue_of ops q; some (n ∷ rest)

enqueue_node-push :
    (n : ℕ) (w : WorkList) → IsConsistent w → (enqueue_node n w).list ≡ push n w.list
unfolding enqueue_node
enqueue_node-push n w h =
    let old = h.same n in
    let left = has_index_iff n w.list in let right = has_index_iff n w.set in ground arith

run_on :
    (ops : List Operation) (list set : List ℕ)
    → IsConsistent (record { list = list; set = set })
    → run ops (record { list = list; set = set }) ≡ run_queue_of ops list
unfolding run run_queue_of
run_on [] list set h = refl
run_on (put_in n ∷ ops) list set h =
    let w : WorkList = record { list = list; set = set } in
    run_on ops (enqueue_node n w).list (enqueue_node n w).set (enqueue_node-IsConsistent n w h)
    ∙ ap (run_queue_of ops) (enqueue_node-push n w h)
run_on (take_out ∷ ops) [] set h = refl
run_on (take_out ∷ ops) (n ∷ rest) set h =
    ap (λ o. o >>= (λ out. some (n ∷ out)))
      (run_on ops rest (erase_index n set).1 (dequeue_node-IsConsistent n rest set h))

-- Whatever the order of insertions and removals, a worklist whose set agrees with its queue gives out
-- what a first-in first-out queue gives out that takes no element it holds already.
pub run-refines :
    (ops : List Operation) (w : WorkList) → IsConsistent w → run ops w ≡ run_queue_of ops w.list
run-refines ops w h = run_on ops w.list w.set h
