-- ===== src/Domains/Labels.antt =====
-- The labels of a domain, app/services/disposable_domains.py: texts that are joined by dots and taken
-- apart again.
use amazee_ai.Domains.{
  Text, split, strip_end, strip_start, is_empty, join, keep_end, labels, dot, strip_dots,
}
use amazee_ai.Common.{
  [], false, refl, arith, ◌≡◌, ◌∷◌, ◌++◌, ◌==◌, ◌∙◌, ℕ, Bool, List, All, not, ap, select, All-mono,
}

-- No code point of the text passes the test.
abbrev pub IsFree : (ℕ → Bool) → Text → Type 0
IsFree p = All (λ a. p a ≡ false)

-- A text that is not empty and has no dot in it.
abbrev pub IsLabel : Text → Type 0
IsLabel s = (is_empty s ≡ false) × IsFree (λ a. a == dot) s

pub strip_start_free : (p : ℕ → Bool) (s : Text) → IsFree p s → strip_start p s ≡ s
unfolding strip_start
strip_start_free p [] h = refl
strip_start_free p (a ∷ s) h = rw h.0 refl

keep_end_free : (p : ℕ → Bool) (a : ℕ) (s : Text) → p a ≡ false → keep_end p a s ≡ a ∷ s
keep_end_free p a [] h = rw h refl
keep_end_free p a (b ∷ s) h = refl

keep_end_full : (p : ℕ → Bool) (a : ℕ) (s : Text) → is_empty s ≡ false → keep_end p a s ≡ a ∷ s
keep_end_full p a [] h = absurd (ground arith)
keep_end_full p a (b ∷ s) h = refl

-- What has no such code point in front keeps it.
strip_end-append :
    (p : ℕ → Bool) (s t : Text) → IsFree p s → strip_end p (s ++ t) ≡ s ++ strip_end p t
unfolding strip_end
strip_end-append p [] t h = refl
strip_end-append p (a ∷ s) t h =
    rw (strip_end-append p s t h.1) (keep_end_free p a (s ++ strip_end p t) h.0)

pub strip_end_free : (p : ℕ → Bool) (s : Text) → IsFree p s → strip_end p s ≡ s
unfolding strip_end
strip_end_free p [] h = refl
strip_end_free p (a ∷ s) h = rw (strip_end_free p s h.1) (keep_end_free p a s h.0)

join_full :
    (c : ℕ) (s : Text) (ss : List Text) → is_empty s ≡ false → is_empty (join c (s ∷ ss)) ≡ false
unfolding join
join_full c [] ss h = absurd (ground arith)
join_full c (a ∷ s) [] h = refl
join_full c (a ∷ s) (t ∷ ss) h = refl

strip_start-join :
    (s : Text) (ss : List Text)
    → IsLabel s
    → strip_start (λ a. a == dot) (join dot (s ∷ ss)) ≡ join dot (s ∷ ss)
unfolding strip_start join
strip_start-join [] ss h = absurd (ground (arith, h.0))
strip_start-join (a ∷ s) [] h = rw h.1.0 refl
strip_start-join (a ∷ s) (t ∷ ss) h = rw h.1.0 refl

strip_end-join :
    (ss : List Text) → All IsLabel ss → strip_end (λ a. a == dot) (join dot ss) ≡ join dot ss
unfolding strip_end join
strip_end-join [] h = refl
strip_end-join (s ∷ []) h = strip_end_free (λ a. a == dot) s h.0.1
strip_end-join (s ∷ t ∷ ss) h =
    strip_end-append (λ a. a == dot) s (dot ∷ join dot (t ∷ ss)) h.0.1
    ∙ ap (λ x. s ++ x)
        (ap (keep_end (λ a. a == dot) dot) (strip_end-join (t ∷ ss) h.1)
          ∙ keep_end_full (λ a. a == dot) dot (join dot (t ∷ ss)) (join_full dot t ss h.1.0.0))

-- A domain made of labels has no dot at either end.
pub strip_dots-join : (ss : List Text) → All IsLabel ss → strip_dots (join dot ss) ≡ join dot ss
unfolding strip_end strip_start join
strip_dots-join [] h = refl
strip_dots-join (s ∷ ss) h =
    ap (strip_end (λ a. a == dot)) (strip_start-join s ss h.0) ∙ strip_end-join (s ∷ ss) h

split_free : (c : ℕ) (s : Text) → IsFree (λ a. a == c) s → split c s ≡ s ∷ []
unfolding split
split_free c [] h = refl
split_free c (a ∷ s) h = rw (h.0, split_free c s h.1) refl

split-append : (c : ℕ) (s t : Text) → IsFree (λ a. a == c) s → split c (s ++ c ∷ t) ≡ s ∷ split c t
unfolding split
split-append c [] t h = ground arith
split-append c (a ∷ s) t h = rw (h.0, split-append c s t h.1) refl

split-join :
    (c : ℕ) (s : Text) (ss : List Text)
    → All (IsFree (λ a. a == c)) (s ∷ ss)
    → split c (join c (s ∷ ss)) ≡ s ∷ ss
unfolding join
split-join c s [] h = split_free c s h.0
split-join c s (t ∷ ss) h =
    split-append c s (join c (t ∷ ss)) h.0 ∙ ap (λ x. s ∷ x) (split-join c t ss h.1)

select_full : (ss : List Text) → All IsLabel ss → select (λ s. not (is_empty s)) ss ≡ ss
unfolding select
select_full [] h = refl
select_full (s ∷ ss) h = rw (h.0.0, select_full ss h.1) refl

-- Labels that are joined and taken apart are the labels.
pub labels-join :
    (s : Text) (ss : List Text) → All IsLabel (s ∷ ss) → labels (join dot (s ∷ ss)) ≡ s ∷ ss
labels-join s ss h =
    ap (select (λ t. not (is_empty t)))
      (split-join dot s ss (All-mono IsLabel (IsFree (λ a. a == dot)) (s ∷ ss) (λ t k. k.1) h))
    ∙ select_full (s ∷ ss) h
