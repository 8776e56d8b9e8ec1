-- ===== src/Static/Lists/Splits.antt =====
-- Texts that are put together from parts which a delimiter ends.
use parcoach.Base.{ℕ, ◌≡◌, ◌≢◌, ◌↔◌, ◌⊎◌, refl, ap, subst, true, [], ◌∷◌, ◌++◌, All, arith}
use parcoach.Static.Collectives.{Text, text_eq}
use parcoach.Static.Lists.{navs_text}

pub text_eq_iff : (s t : Text) → (text_eq s t ≡ true) ↔ (s ≡ t)
unfolding text_eq
text_eq_iff [] [] = (λ h. refl, λ h. refl)
text_eq_iff [] (c ∷ t) = (λ h. cc, λ h. cc)
text_eq_iff (c ∷ s) [] = (λ h. cc, λ h. cc)
text_eq_iff (c ∷ s) (d ∷ t) = ground (arith, text_eq_iff s t)

pub append_assoc : (xs ys zs : Text) → (xs ++ ys) ++ zs ≡ xs ++ (ys ++ zs)
append_assoc [] ys zs = refl
append_assoc (x ∷ xs) ys zs = ap (◌∷◌ x) (append_assoc xs ys zs)

-- A name of a collective.
pub record IsName (n : Text) : Type 0 where
  pub clean : All (λ c. (c ≢ 40) × (c ≢ 41) × (c ≢ 42) × (c ≢ 44)) n
  pub nonempty : n ≢ []
  pub not_navs : n ≢ navs_text

unfoldable pub Stops : (ℕ → Type 0) → Text → Type 0
Stops stop [] = ⊥
Stops stop (c ∷ r) = stop c

pub split_at_stop :
    (stop : ℕ → Type 0) (n n' r r' : Text)
    → All (λ c. ¬ stop c) n
    → All (λ c. ¬ stop c) n'
    → Stops stop r
    → Stops stop r'
    → n ++ r ≡ n' ++ r'
    → (n ≡ n') × (r ≡ r')
unfolding Stops
split_at_stop stop [] [] r r' c c' s s' h = (refl, h)
split_at_stop stop [] (d ∷ n') [] r' c c' s s' h = cc
split_at_stop stop [] (d ∷ n') (e ∷ r) r' c c' s s' h =
    absurd (let same : e ≡ d = cc in c'.0 (subst stop same s))
split_at_stop stop (d ∷ n) [] r [] c c' s s' h = cc
split_at_stop stop (d ∷ n) [] r (e ∷ r') c c' s s' h =
    absurd (let same : e ≡ d = cc in c.0 (subst stop same s'))
split_at_stop stop (d ∷ n) (d' ∷ n') r r' c c' s s' h =
    let tail : n ++ r ≡ n' ++ r' = cc in
    let ih = split_at_stop stop n n' r r' c.1 c'.1 s s' tail in (cc (h, ih.0), ih.1)

pub cons_parts : {c d : ℕ} {s t : Text} → c ∷ s ≡ d ∷ t → (c ≡ d) × (s ≡ t)
cons_parts h = (cc, cc)

abbrev pub IsDelimiter : ℕ → Type 0
IsDelimiter c = (c ≡ 41) ⊎ (c ≡ 44)

pub Names_clean : (n : Text) → IsName n → All (λ c. ¬ IsDelimiter c) n
Names_clean n h = go n h.clean
  where
    go :
        (m : Text)
        → All (λ c. (c ≢ 40) × (c ≢ 41) × (c ≢ 42) × (c ≢ 44)) m
        → All (λ c. ¬ IsDelimiter c) m
    go [] a = tt
    go (c ∷ m) (a, b) = (λ d. ground arith, go m b)
