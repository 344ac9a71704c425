-- ===== src/Domains/Blocking.antt =====
-- Which emails the blocklist refuses, `is_blocked` of app/services/disposable_domains.py.
use amazee_ai.Common.Lists.{any-false}
use amazee_ai.Domains.Labels.{
  IsFree, IsLabel, labels-join, strip_dots-join, strip_start_free, strip_end_free,
}
use amazee_ai.Domains.{
  Text, Unicode, after_last, candidate_suffixes, extract_domain, same_text, suffixes, Table,
  at_sign, has_sign, join, dot, has_text, strip, has_domain, strip_end, suffixes_of, is_blocked,
}
use amazee_ai.Common.{
  [], true, false, refl, arith, inl, inr, ◌≡◌, ◌≤◌, ◌↔◌, ◌∷◌, ◌++◌, ◌==◌, ◌∙◌, ◌||◌, ℕ, Bool, List,
  All, Bool-cases, ap, sym, any, length, map, All-mono, ap₂,
}

-- A label of a host: a label without an @.
abbrev pub IsHostLabel : Text → Type 0
IsHostLabel s = IsLabel s × IsFree (λ a. a == at_sign) s

-- A text without white space and capitals.
pub record IsPlain (u : Unicode) (s : Text) : Type 0 where
  pub lowered : u.lower s ≡ s
  pub spaceless : IsFree u.is_space s

IsFree-append : (p : ℕ → Bool) (s t : Text) → IsFree p s → IsFree p t → IsFree p (s ++ t)
IsFree-append p [] t h k = k
IsFree-append p (a ∷ s) t h k = (h.0, IsFree-append p s t h.1 k)

IsFree-back : (p : ℕ → Bool) (s t : Text) → IsFree p (s ++ t) → IsFree p t
IsFree-back p [] t h = h
IsFree-back p (a ∷ s) t h = IsFree-back p s t h.1

IsFree-join :
    (p : ℕ → Bool) (ss : List Text) → p dot ≡ false → All (IsFree p) ss → IsFree p (join dot ss)
unfolding join
IsFree-join p [] d h = tt
IsFree-join p (s ∷ []) d h = h.0
IsFree-join p (s ∷ t ∷ ss) d h =
    IsFree-append p s (dot ∷ join dot (t ∷ ss)) h.0 (d, IsFree-join p (t ∷ ss) d h.1)

has_sign_inside : (c : ℕ) (s t : Text) → has_sign c (s ++ c ∷ t) ≡ true
unfolding any
has_sign_inside c [] t = ground arith
has_sign_inside c (a ∷ s) t = ground (arith, has_sign_inside c s t)

after_last-append : (c : ℕ) (s t : Text) → IsFree (λ a. a == c) t → after_last c (s ++ c ∷ t) ≡ t
unfolding after_last
after_last-append c [] t h =
    let absent : has_sign c t ≡ false = any-false (λ a. a == c) t h in ground (arith, absent)
after_last-append c (a ∷ s) t h = rw (has_sign_inside c s t) (after_last-append c s t h)

strip_free : (p : ℕ → Bool) (s : Text) → IsFree p s → strip p s ≡ s
strip_free p s h = ap (strip_end p) (strip_start_free p s h) ∙ strip_end_free p s h

-- The domain of a plain address is what follows its @.
extract_domain-address :
    (u : Unicode) (name : Text) (ls : List Text)
    → IsPlain u (name ++ at_sign ∷ join dot ls)
    → All IsHostLabel ls
    → extract_domain u (name ++ at_sign ∷ join dot ls) ≡ join dot ls
unfolding extract_domain
extract_domain-address u name ls plain h =
    let domain = join dot ls in
    let email = name ++ at_sign ∷ domain in
    let stripped : strip u.is_space email ≡ email = strip_free u.is_space email plain.spaceless in
    let lowered : u.lower email ≡ email = plain.lowered in
    let no_sign : IsFree (λ a. a == at_sign) domain =
      IsFree-join (λ a. a == at_sign) ls refl
        (All-mono IsHostLabel (IsFree (λ a. a == at_sign)) ls (λ s k. k.1) h) in
    let no_space : IsFree u.is_space domain =
      (IsFree-back u.is_space name (at_sign ∷ domain) plain.spaceless).1 in
    let bare : strip u.is_space domain ≡ domain = strip_free u.is_space domain no_space in
    rw
      (
        stripped,
        lowered,
        has_sign_inside at_sign name domain,
        after_last-append at_sign name domain no_sign,
        bare,
      )
      (strip_dots-join ls (All-mono IsHostLabel IsLabel ls (λ s k. k.0) h))

candidate_suffixes-join :
    (s t : Text) (ss : List Text)
    → All IsLabel (s ∷ t ∷ ss)
    → candidate_suffixes (join dot (s ∷ t ∷ ss)) ≡ map (join dot) (suffixes (s ∷ t ∷ ss))
unfolding candidate_suffixes
candidate_suffixes-join s t ss h =
    ap (suffixes_of (join dot (s ∷ t ∷ ss))) (labels-join s (t ∷ ss) h)

pub same_text_sym : (s t : Text) → same_text s t ≡ same_text t s
unfolding same_text
same_text_sym [] [] = refl
same_text_sym [] (b ∷ t) = refl
same_text_sym (a ∷ s) [] = refl
same_text_sym (a ∷ s) (b ∷ t) = ground (arith, same_text_sym s t)

any-or :
    {A : Type 0} (p q : A → Bool) (xs : List A) → any (λ x. p x || q x) xs ≡ (any p xs || any q xs)
unfolding any
any-or p q [] = refl
any-or p q (x ∷ xs) = ground (arith, any-or p q xs)

any_cong :
    {A : Type 0} (p q : A → Bool) → ((x : A) → p x ≡ q x) → (xs : List A) → any p xs ≡ any q xs
unfolding any
any_cong p q same [] = refl
any_cong p q same (x ∷ xs) = ap₂ (λ a b. a || b) (same x) (any_cong p q same xs)

any_none : {A : Type 0} (xs : List A) → any (λ x. false) xs ≡ false
unfolding any
any_none [] = refl
any_none (x ∷ xs) = any_none xs

-- A row names one of the suffixes when one of the suffixes is in the table.
hit_swapped :
    (sss : List (List Text)) (table : Table)
    → any (λ r. has_text r.domain (map (join dot) sss)) table
      ≡ any (λ ss. has_domain (join dot ss) table) sss
unfolding any
hit_swapped [] table = any_none table
hit_swapped (ss ∷ sss) table =
    any-or (λ r. same_text r.domain (join dot ss)) (λ r. has_text r.domain (map (join dot) sss))
      table
    ∙ ap₂ (λ a b. a || b)
        (any_cong (λ r. same_text r.domain (join dot ss)) (λ r. same_text (join dot ss) r.domain)
          (λ r. same_text_sym r.domain (join dot ss)) table)
        (hit_swapped sss table)

-- The labels end in at least two that pass the test.
abbrev pub SplitAt : (List Text → Bool) → List Text → Type 0
SplitAt q ls =
    (front : List Text) × (back : List Text) × (ls ≡ front ++ back)
    × (2 ≤ length back)
    × (q back ≡ true)

any-suffixes : (q : List Text → Bool) (ls : List Text) → (any q (suffixes ls) ≡ true) → SplitAt q ls
unfolding any suffixes
any-suffixes q [] h = absurd (ground arith)
any-suffixes q (s ∷ []) h = absurd (ground arith)
any-suffixes q (s ∷ t ∷ ss) h = elim (Bool-cases (q (s ∷ t ∷ ss))) [
  | inl here ↦ ([], s ∷ t ∷ ss, refl, omega arith, here)
  | inr later ↦
      let rest : any q (suffixes (t ∷ ss)) ≡ true = ground arith in
      let (front, back, e, l, k) = any-suffixes q (t ∷ ss) rest in
      (s ∷ front, back, ap (λ x. s ∷ x) e, l, k)
]

suffixes-any :
    (q : List Text → Bool) (front back : List Text)
    → 2 ≤ length back
    → q back ≡ true
    → any q (suffixes (front ++ back)) ≡ true
unfolding any suffixes
suffixes-any q [] [] l h = absurd (omega (arith, l))
suffixes-any q [] (s ∷ []) l h = absurd (omega (arith, l))
suffixes-any q [] (s ∷ t ∷ ss) l h = rw h refl
suffixes-any q (s ∷ []) [] l h = absurd (omega (arith, l))
suffixes-any q (s ∷ []) (t ∷ ss) l h = ground (arith, suffixes-any q [] (t ∷ ss) l h)
suffixes-any q (s ∷ t ∷ front) back l h = ground (arith, suffixes-any q (t ∷ front) back l h)

-- A plain address at a host of at least two labels is refused exactly when the table has the host or
-- one of the domains of at least two labels that it lies below.
pub is_blocked-below :
    (u : Unicode) (table : Table) (name : Text) (s t : Text) (ss : List Text)
    → IsPlain u (name ++ at_sign ∷ join dot (s ∷ t ∷ ss))
    → All IsHostLabel (s ∷ t ∷ ss)
    → (is_blocked u true table (name ++ at_sign ∷ join dot (s ∷ t ∷ ss)) ≡ true)
      ↔ SplitAt (λ back. has_domain (join dot back) table) (s ∷ t ∷ ss)
unfolding is_blocked
is_blocked-below u table name s t ss plain h =
    let ls = s ∷ t ∷ ss in
    let q : List Text → Bool = λ back. has_domain (join dot back) table in
    let labelled : All IsLabel ls = All-mono IsHostLabel IsLabel ls (λ x k. k.0) h in
    let asked : is_blocked u true table (name ++ at_sign ∷ join dot ls) ≡ any q (suffixes ls) =
      ap (λ d. any (λ r. has_text r.domain (candidate_suffixes d)) table)
        (extract_domain-address u name ls plain h)
      ∙ ap (λ cs. any (λ r. has_text r.domain cs) table) (candidate_suffixes-join s t ss labelled)
      ∙ hit_swapped (suffixes ls) table in
    (
      λ hit. any-suffixes q ls (sym asked ∙ hit),
      λ found.
          let (front, back, e, l, k) = found in
          asked ∙ ap (λ x. any q (suffixes x)) e ∙ suffixes-any q front back l k,
    )
