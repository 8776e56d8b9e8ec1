-- ===== src/Static/Lists/Texts.antt =====
-- The text of a list determines it: the comparison of texts decides whether two lists are equal.
use parcoach.Base.{
  ℕ, ◌≡◌, ◌≢◌, ◌↔◌, inl, inr, refl, sym, ap, ◌∙◌, true, none, some, Option, [], ◌∷◌, ◌++◌, All,
  arith,
}
use parcoach.Static.Collectives.{Text, Collective}
use parcoach.Static.Lists.{
  Element, Elements, coll_element, navs_element, list_element, nil, cons, CollectiveList, navs_text,
  header_text, element_text, elements_text, rest_text, to_string, list_eq,
}
use parcoach.Static.Lists.Splits.{
  text_eq_iff, append_assoc, IsName, Stops, split_at_stop, cons_parts, IsDelimiter, Names_clean,
}

-- Which collectives are known, each under a name of its own, and how LLVM prints a block, with no
-- parenthesis in it; which blocks head loops, each printed in a way of its own.
module _ (print_operand : ℕ → Text) (IsBlock : ℕ → Type 0) (IsKnown : Collective → Type 0)
    (names : (c : Collective) → IsKnown c → IsName c.name)
    (unique : (c d : Collective) → IsKnown c → IsKnown d → c.name ≡ d.name → c ≡ d)
    (printed : (b : ℕ) → All (λ c. ¬ (c ≡ 40)) (print_operand b))
    (distinct : (b d : ℕ) → IsBlock b → IsBlock d → print_operand b ≡ print_operand d → b ≡ d) where
  -- If there is a loop header, it is one of the blocks.
  abbrev pub IsHeader : Option ℕ → Type 0
  IsHeader none = Unit
  IsHeader (some b) = IsBlock b

  -- The elements' collectives are known, and so are the headers of nested lists.
  unfoldable mutual
    pub OfKnown : Element → Type 0
    OfKnown (coll_element c) = IsKnown c
    OfKnown navs_element = Unit
    OfKnown (list_element header es) = IsHeader header × AreOfKnown es

    pub AreOfKnown : Elements → Type 0
    AreOfKnown nil = Unit
    AreOfKnown (cons e es) = OfKnown e × AreOfKnown es

  abbrev element_txt : Element → Text
  element_txt e = element_text print_operand e

  abbrev elements_txt : Elements → Text
  elements_txt es = elements_text print_operand es

  abbrev rest_txt : Elements → Text
  rest_txt es = rest_text print_operand es

  header_split :
      (h h' : Option ℕ) (r r' : Text)
      → IsHeader h
      → IsHeader h'
      → header_text print_operand h ++ 40 ∷ r ≡ header_text print_operand h' ++ 40 ∷ r'
      → (h ≡ h') × (r ≡ r')
  unfolding Stops
  header_split none none r r' i i' e = (refl, (cons_parts e).1)
  header_split none (some b) r r' i i' e = absurd (let c = (cons_parts e).0 in omega arith)
  header_split (some b) none r r' i i' e = absurd (let c = (cons_parts e).0 in omega arith)
  header_split (some b) (some d) r r' i i' e =
      let tails : print_operand b ++ 40 ∷ r ≡ print_operand d ++ 40 ∷ r' = (cons_parts e).1 in
      let (same, tail) =
        split_at_stop (λ c. c ≡ 40) (print_operand b) (print_operand d) (40 ∷ r) (40 ∷ r')
          (printed b) (printed d) refl refl tails in
      (ap some (distinct b d i i' same), (cons_parts tail).1)

  -- The first byte of an element tells what it is, and does not close the list.
  element_first :
      (e : Element) → OfKnown e → (c : ℕ) × (t : Text) × (element_txt e ≡ c ∷ t) × (c ≢ 41)
  unfolding OfKnown element_text
  element_first (coll_element c) k = first c.name (names c k)
    where
      first : (n : Text) → IsName n → (c : ℕ) × (t : Text) × (n ≡ c ∷ t) × (c ≢ 41)
      first [] h = absurd (h.nonempty refl)
      first (c ∷ t) h = (c, t, refl, h.clean.0.1)
  element_first navs_element k = (78, 65 ∷ 86 ∷ 83 ∷ [], refl, λ e. omega arith)
  element_first (list_element none es) k = (40, elements_txt es, refl, λ e. omega arith)
  element_first (list_element (some b) es) k =
      (42, print_operand b ++ 40 ∷ elements_txt es, refl, λ e. omega arith)

  rest_Stops : (es : Elements) (r : Text) → Stops IsDelimiter (rest_txt es ++ r)
  unfolding Stops rest_text
  rest_Stops nil r = inl refl
  rest_Stops (cons e es) r = inr refl

  not_closed : (e : Element) (s r r' : Text) → OfKnown e → 41 ∷ r ≢ (element_txt e ++ s) ++ r'
  not_closed e s r r' k h =
      let (c, t, first, ne) = element_first e k in
      let h' = h ∙ ap (λ (x : Text). (x ++ s) ++ r') first in ne (sym (cons_parts h').0)

  name_or_list :
      (n r t : Text) (h : Option ℕ) → IsName n → n ++ r ≢ header_text print_operand h ++ 40 ∷ t
  name_or_list [] r t h k e = k.nonempty refl
  name_or_list (c ∷ n) r t none k e = k.clean.0.0 (cons_parts e).0
  name_or_list (c ∷ n) r t (some b) k e = k.clean.0.2 (cons_parts e).0

  navs_or_list :
      (r t : Text) (h : Option ℕ) → navs_text ++ r ≢ header_text print_operand h ++ 40 ∷ t
  navs_or_list r t none e = let c = (cons_parts e).0 in omega arith
  navs_or_list r t (some b) e = let c = (cons_parts e).0 in omega arith

  navs_clean : All (λ c. ¬ IsDelimiter c) navs_text
  navs_clean =
      (λ d. ground arith, (λ d. ground arith, (λ d. ground arith, (λ d. ground arith, tt))))

  name_or_navs :
      (n r r' : Text)
      → IsName n
      → Stops IsDelimiter r
      → Stops IsDelimiter r'
      → n ++ r ≢ navs_text ++ r'
  name_or_navs n r r' k s s' e =
      k.not_navs (split_at_stop IsDelimiter n navs_text r r' (Names_clean n k) navs_clean s s' e).0

  mutual
    unfolding OfKnown element_text

    element_inj :
        (e e' : Element) (r r' : Text)
        → OfKnown e
        → OfKnown e'
        → Stops IsDelimiter r
        → Stops IsDelimiter r'
        → element_txt e ++ r ≡ element_txt e' ++ r'
        → (e ≡ e') × (r ≡ r')
    element_inj (coll_element c) (coll_element d) r r' k k' s s' h =
        let (same, tail) =
          split_at_stop IsDelimiter c.name d.name r r' (Names_clean c.name (names c k))
            (Names_clean d.name (names d k')) s s' h in
        (ap coll_element (unique c d k k' same), tail)
    element_inj (coll_element c) navs_element r r' k k' s s' h =
        absurd (name_or_navs c.name r r' (names c k) s s' h)
    element_inj (coll_element c) (list_element x es) r r' k k' s s' h = absurd (
        name_or_list c.name r _ x (names c k) (h ∙ append_assoc (header_text print_operand x) _ r'))
    element_inj navs_element (coll_element d) r r' k k' s s' h =
        absurd (name_or_navs d.name r' r (names d k') s' s (sym h))
    element_inj navs_element navs_element r r' k k' s s' h =
        (refl, (split_at_stop IsDelimiter navs_text navs_text r r' navs_clean navs_clean s s' h).1)
    element_inj navs_element (list_element x es) r r' k k' s s' h =
        absurd (navs_or_list r _ x (h ∙ append_assoc (header_text print_operand x) _ r'))
    element_inj (list_element x es) (coll_element d) r r' k k' s s' h = absurd (
        name_or_list d.name r' _ x (names d k')
          (sym h ∙ append_assoc (header_text print_operand x) _ r))
    element_inj (list_element x es) navs_element r r' k k' s s' h =
        absurd (navs_or_list r' _ x (sym h ∙ append_assoc (header_text print_operand x) _ r))
    element_inj (list_element x es) (list_element y es') r r' k k' s s' h =
        let (same, tail) =
          header_split x y (elements_txt es ++ r) (elements_txt es' ++ r') k.0 k'.0 (
            sym (append_assoc (header_text print_operand x) _ r)
            ∙ h
            ∙ append_assoc (header_text print_operand y) _ r') in
        let (list, end) = elements_inj es es' r r' k.1 k'.1 tail in
        (ap (λ z. list_element z es) same ∙ ap (list_element y) list, end)

    elements_inj :
        (es es' : Elements) (r r' : Text)
        → AreOfKnown es
        → AreOfKnown es'
        → elements_txt es ++ r ≡ elements_txt es' ++ r'
        → (es ≡ es') × (r ≡ r')
    elements_inj nil nil r r' k k' h = (refl, (cons_parts h).1)
    elements_inj nil (cons e es) r r' k k' h = absurd (not_closed e (rest_txt es) r r' k'.0 h)
    elements_inj (cons e es) nil r r' k k' h = absurd (not_closed e (rest_txt es) r' r k.0 (sym h))
    elements_inj (cons e es) (cons e' es') r r' k k' h =
        let h' =
          sym (append_assoc (element_txt e) (rest_txt es) r)
          ∙ h
          ∙ append_assoc (element_txt e') (rest_txt es') r' in
        let (head, tail) =
          element_inj e e' (rest_txt es ++ r) (rest_txt es' ++ r') k.0 k'.0 (rest_Stops es r)
            (rest_Stops es' r') h' in
        let (list, end) = rest_inj es es' r r' k.1 k'.1 tail in
        (ap (λ z. cons z es) head ∙ ap (cons e') list, end)

    rest_inj :
        (es es' : Elements) (r r' : Text)
        → AreOfKnown es
        → AreOfKnown es'
        → rest_txt es ++ r ≡ rest_txt es' ++ r'
        → (es ≡ es') × (r ≡ r')
    rest_inj nil nil r r' k k' h = (refl, (cons_parts h).1)
    rest_inj nil (cons e es) r r' k k' h = absurd (let c = (cons_parts h).0 in omega arith)
    rest_inj (cons e es) nil r r' k k' h = absurd (let c = (cons_parts h).0 in omega arith)
    rest_inj (cons e es) (cons e' es') r r' k k' h =
        let h₀ = (cons_parts (cons_parts h).1).1 in
        let h' =
          sym (append_assoc (element_txt e) (rest_txt es) r)
          ∙ h₀
          ∙ append_assoc (element_txt e') (rest_txt es') r' in
        let (head, tail) =
          element_inj e e' (rest_txt es ++ r) (rest_txt es' ++ r') k.0 k'.0 (rest_Stops es r)
            (rest_Stops es' r') h' in
        let (list, end) = rest_inj es es' r r' k.1 k'.1 tail in
        (ap (λ z. cons z es) head ∙ ap (cons e') list, end)

  -- Let the collectives of two lists have names of their own, which are not empty, not NAVS, and without
  -- parentheses, commas and asterisks, and let LLVM print no block with an opening parenthesis, and the
  -- headers of the loops in the two lists each in a way of its own. Then the comparison of the texts of
  -- the lists says whether they are equal: in their elements, nested lists included, and in their loop
  -- headers.
  pub list_eq_iff :
      (l l' : CollectiveList)
      → IsHeader l.loop_header × AreOfKnown l.list
      → IsHeader l'.loop_header × AreOfKnown l'.list
      → (list_eq print_operand l l' ≡ true) ↔ (l ≡ l')
  unfolding list_eq to_string
  list_eq_iff l l' k k' = (
    λ h.
        let texts = (text_eq_iff (to_string print_operand l) (to_string print_operand l')).0 h in
        let (header, tail) =
          header_split l.loop_header l'.loop_header (elements_txt l.list) (elements_txt l'.list) k.0
            k'.0 texts in
        let list =
          (elements_inj l.list l'.list [] [] k.1 k'.1 (ap (λ (t : Text). t ++ []) tail)).0 in
        ap (λ h. record { loop_header = h; list = l.list }) header
        ∙ ap (λ es. record { loop_header = l'.loop_header; list = es }) list,
    λ same.
        (text_eq_iff (to_string print_operand l) (to_string print_operand l')).1
          (ap (to_string print_operand) same),
  )
