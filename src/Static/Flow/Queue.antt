-- ===== src/Static/Flow/Queue.antt =====
-- What enqueueing does to the states of the blocks and to the queue.
use parcoach.Base.{
  ℕ, ◌≡◌, ◌≢◌, ◌⊎◌, inl, inr, refl, sym, ap, ◌∙◌, subst, Bool-cases, true, false, List, [], ◌∷◌,
  ◌++◌, ◌==◌, ==_iff, In, In-append, if_true, if_false, arith,
}
use parcoach.Static.Flow.{
  NodeState, unvisited, pushed, visited, Visit, set_state, enqueue, enqueue_all, all_done,
}

pub State-cases : (s : NodeState) → (s ≡ unvisited) ⊎ ((s ≡ pushed) ⊎ (s ≡ visited))
State-cases unvisited = inl refl
State-cases pushed = inr (inl refl)
State-cases visited = inr (inr refl)

pub all_done-In :
    (v : Visit) (bs : List ℕ) (c : ℕ) → all_done v bs ≡ true → In c bs → v.states c ≡ visited
unfolding all_done
all_done-In v [] c h m = absurd m
all_done-In v (b ∷ bs) c h (inl e) =
    subst (λ x. v.states x ≡ visited) (sym e) (done (v.states b) (ground arith))
  where
    done : (s : NodeState) → (elim s [ visited ↦ true | _ ↦ false ]) ≡ true → s ≡ visited
    done unvisited h = cc
    done pushed h = cc
    done visited h = refl
all_done-In v (b ∷ bs) c h (inr m) = all_done-In v bs c (ground arith) m

-- One state has come from another by enqueueing.
pub record IsEnqueued (bs : List ℕ) (v w : Visit) : Type 0 where
  pub kept : (c : ℕ) → v.states c ≢ unvisited → w.states c ≡ v.states c
  pub no_visit : (c : ℕ) → w.states c ≡ visited → v.states c ≡ visited
  pub seen : (c : ℕ) → In c bs → w.states c ≢ unvisited
  pub queued :
      ((c : ℕ) → v.states c ≡ pushed → In c v.queue) → (c : ℕ) → w.states c ≡ pushed → In c w.queue
  pub lists : w.lists ≡ v.lists
  pub origin : (c : ℕ) → In c w.queue → In c v.queue ⊎ In c bs
  pub still : ((c : ℕ) → In c bs → v.states c ≢ unvisited) → w.queue ≡ v.queue

pub enqueue-IsEnqueued : (b : ℕ) (v : Visit) → IsEnqueued (b ∷ []) v (enqueue b v)
unfolding enqueue
enqueue-IsEnqueued b v = elim (State-cases (v.states b)) [
  | inl new ↦
      let same : record v { queue = v.queue ++ b ∷ []; states = set_state v.states b pushed }
          ≡ enqueue b v =
        ground arith in
      subst (IsEnqueued (b ∷ []) v) same (pushes new)
  | inr old ↦
      let same : v ≡ enqueue b v = ground arith in
      subst (IsEnqueued (b ∷ []) v) same (record {
        kept = λ c h. refl;
        no_visit = λ c e. e;
        seen = λ c m e. let e' = subst (λ x. v.states x ≡ unvisited) (is_b c m) e in ground arith;
        queued = λ h c e. h c e;
        lists = refl;
        origin = λ c m. inl m;
        still = λ h. refl;
      })
]
  where
    is_b : (c : ℕ) → In c (b ∷ []) → c ≡ b
    is_b c (inl e) = e
    is_b c (inr m) = absurd m

    pushes :
        v.states b ≡ unvisited
        → IsEnqueued
            (b ∷ [])
            v
            (record v { queue = v.queue ++ b ∷ []; states = set_state v.states b pushed })
    pushes new = record {
      kept = λ c old. if_false pushed (v.states c) (differs c old) refl;
      no_visit = λ c e. elim (Bool-cases (c == b)) [
        | inl same ↦ absurd (cc (if_true pushed (v.states c) same refl, e))
        | inr other ↦ sym (if_false pushed (v.states c) other refl) ∙ e
      ];
      seen = λ c m e. cc (if_true pushed (v.states c) ((==_iff c b).1 (is_b c m)) refl, e);
      queued = λ h c e. elim (Bool-cases (c == b)) [
        | inl same ↦ (In-append c v.queue (b ∷ [])).1 (inr (inl ((==_iff c b).0 same)))
        | inr other ↦
            (In-append c v.queue (b ∷ [])).1
              (inl (h c (sym (if_false pushed (v.states c) other refl) ∙ e)))
      ];
      lists = refl;
      origin = λ c m. (In-append c v.queue (b ∷ [])).0 m;
      still = λ h. absurd (h b (inl refl) new);
    }
      where
        differs : (c : ℕ) → v.states c ≢ unvisited → (c == b) ≡ false
        differs c old = elim (Bool-cases (c == b)) [
          | inl same ↦ absurd (old (ap v.states ((==_iff c b).0 same) ∙ new))
          | inr other ↦ other
        ]

pub enqueue_all-IsEnqueued : (bs : List ℕ) (v : Visit) → IsEnqueued bs v (enqueue_all bs v)
unfolding enqueue_all
enqueue_all-IsEnqueued [] v = record {
  kept = λ c h. refl;
  no_visit = λ c e. e;
  seen = λ c m e. absurd m;
  queued = λ h c e. h c e;
  lists = refl;
  origin = λ c m. inl m;
  still = λ h. refl;
}
enqueue_all-IsEnqueued (b ∷ bs) v =
    let one = enqueue-IsEnqueued b v in
    let more = enqueue_all-IsEnqueued bs (enqueue b v) in
    record {
      kept = λ c h. more.kept c (λ e. h (sym (one.kept c h) ∙ e)) ∙ one.kept c h;
      no_visit = λ c e. one.no_visit c (more.no_visit c e);
      seen = λ c m e. later c m e one more;
      queued = λ h c e. more.queued (one.queued h) c e;
      lists = more.lists ∙ one.lists;
      origin = λ c m. elim (more.origin c m) [
        | inr behind ↦ inr (inr behind)
        | inl before ↦ elim (one.origin c before) [
          | inl old ↦ inl old
          | inr first ↦ elim first [ inl same ↦ inr (inl same) | inr none_left ↦ absurd none_left ]
        ]
      ];
      still = λ h.
          more.still (λ c m e. h c (inr m) (sym (one.kept c (h c (inr m))) ∙ e))
          ∙ one.still (λ c m. alone c m (h b (inl refl)));
    }
  where
    alone : (c : ℕ) → In c (b ∷ []) → v.states b ≢ unvisited → v.states c ≢ unvisited
    alone c (inl e) h new = h (subst (λ x. v.states x ≡ unvisited) e new)
    alone c (inr m) h new = absurd m

    later :
        (c : ℕ)
        → In c (b ∷ bs)
        → (enqueue_all bs (enqueue b v)).states c ≡ unvisited
        → IsEnqueued (b ∷ []) v (enqueue b v)
        → IsEnqueued bs (enqueue b v) (enqueue_all bs (enqueue b v))
        → ⊥
    later c (inl same) e one more =
        let new = one.seen c (inl same) in new (sym (more.kept c new) ∙ e)
    later c (inr m) e one more = more.seen c m e
