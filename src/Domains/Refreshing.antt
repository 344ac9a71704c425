-- ===== src/Domains/Refreshing.antt =====
-- The refresh of the blocklist, `refresh_disposable_domains` of app/services/disposable_domains.py.
use amazee_ai.Domains.{Text, same_text, Table, has_text, set_of, has_domain, missing}
use amazee_ai.Common.{
  [], none, some, true, refl, arith, inl, inr, ◌≡◌, ◌∷◌, ◌++◌, ◌∙◌, ◌||◌, ◌&&◌, Bool, List, Option,
  Bool-cases, not, ap, ap₂, sym, any, select, subst,
}

pub same_text_sound : (s t : Text) → same_text s t ≡ true → s ≡ t
unfolding same_text
same_text_sound [] [] h = refl
same_text_sound [] (b ∷ t) h = absurd (ground arith)
same_text_sound (a ∷ s) [] h = absurd (ground arith)
same_text_sound (a ∷ s) (b ∷ t) h =
    let one : a ≡ b = ground arith in
    let rest : s ≡ t = same_text_sound s t (ground arith) in ap₂ (λ x y. x ∷ y) one rest

pub has_text-append :
    (d : Text) (xs ys : List Text) → has_text d (xs ++ ys) ≡ (has_text d xs || has_text d ys)
unfolding any
has_text-append d [] ys = refl
has_text-append d (x ∷ xs) ys = ground (arith, has_text-append d xs ys)

pub has_text-set_of : (d : Text) (xs : List Text) → has_text d (set_of xs) ≡ has_text d xs
unfolding any set_of
has_text-set_of d [] = refl
has_text-set_of d (x ∷ xs) = elim (Bool-cases (has_text x xs)) [
  | inl again ↦ rw again (elim (Bool-cases (same_text d x)) [
    | inl same ↦ rw same (
        has_text-set_of d xs
        ∙ subst (λ y. has_text y xs ≡ true) (sym (same_text_sound d x same)) again)
    | inr other ↦ rw other (has_text-set_of d xs)
  ])
  | inr new ↦ rw new (ap (λ b. same_text d x || b) (has_text-set_of d xs))
]

-- The missing texts are those of the baseline that the table lacks.
pub has_text-missing :
    (d : Text) (base : List Text) (table : Table)
    → has_text d (missing base table) ≡ (has_text d base && not (has_domain d table))
unfolding any select
has_text-missing d [] table = refl
has_text-missing d (x ∷ xs) table = elim (Bool-cases (same_text d x)) [
  | inl same ↦
      let one = same_text_sound d x same in
      let both : has_domain d table ≡ has_domain x table = ap (λ y. has_domain y table) one in
      ground (arith, same, both, has_text-missing d xs table)
  | inr other ↦ ground (arith, other, has_text-missing d xs table)
]

-- What the table has before: the upstream list, where it was fetched, else the table.
abbrev pub kept_text : Text → Option (List Text) → Table → Bool
kept_text d none table = has_domain d table
kept_text d (some remote) table = has_text d remote
