-- ===== src/Access/Slugs.antt =====
-- The slugs that a team is given, `effective_team_group_slugs` of app/services/access_groups.py.
use amazee_ai.Common.{
  [], inl, inr, refl, arith, ◌≡◌, ◌||◌, ◌∷◌, ◌∙◌, any, Bool, List, Bool-cases, ap, some, true, ◌++◌,
  subst, ℕ, none, if_false, false, ◌↔◌, ◌⊎◌, ◌&&◌, ◌==◌, map, select, sym,
}
use amazee_ai.Common.Sort.{sort_by, insert_by}
use amazee_ai.Access.{
  Region, Catalog, CatalogSettings, effective_team_group_slugs, set_of, String, same_text,
  text_before, catalog_manages, slugs_where, is_default, is_opted_in, Group, has_pair,
}
use mathlib.Core.List.{Memᴰ}
use text.Mathlib.TextEquality.{eq_iff}

abbrev pub has_slug : String → List String → Bool
has_slug s = any (λ t. same_text t s)

any-insert_by :
    (p : String → Bool) (x : String) (xs : List String)
    → any p (insert_by text_before x xs) ≡ (p x || any p xs)
unfolding any insert_by
any-insert_by p x [] = refl
any-insert_by p x (y ∷ ys) = ground (arith, any-insert_by p x ys)

any-sort_by : (p : String → Bool) (xs : List String) → any p (sort_by text_before xs) ≡ any p xs
unfolding any sort_by
any-sort_by p [] = refl
any-sort_by p (x ∷ xs) =
    any-insert_by p x (sort_by text_before xs) ∙ ap (λ b. p x || b) (any-sort_by p xs)

has_slug-set_of : (s : String) (xs : List String) → has_slug s (set_of xs) ≡ has_slug s xs
unfolding any set_of
has_slug-set_of s [] = refl
has_slug-set_of s (x ∷ xs) = elim (Bool-cases (any (λ t. same_text t x) xs)) [
  | inl again ↦ rw again (elim (Bool-cases (same_text x s)) [
    | inl same ↦ rw same (
        has_slug-set_of s xs
        ∙ subst (λ y. any (λ t. same_text t y) xs ≡ true) ((eq_iff x s).0 same) again)
    | inr other ↦ rw other (has_slug-set_of s xs)
  ])
  | inr new ↦ rw new (ap (λ b. same_text x s || b) (has_slug-set_of s xs))
]

any-append : (p : String → Bool) (xs ys : List String) → any p (xs ++ ys) ≡ (any p xs || any p ys)
unfolding any
any-append p [] ys = refl
any-append p (x ∷ xs) ys = ground (arith, any-append p xs ys)

has_pair-Mem : (a b : ℕ) (ps : List (ℕ × ℕ)) → has_pair a b ps ≡ true → Memᴰ (a, b) ps
unfolding any
has_pair-Mem a b [] h = absurd (ground arith)
has_pair-Mem a b (x ∷ xs) h = elim (Bool-cases (x.0 == a && x.1 == b)) [
  | inl e ↦ Memᴰ.head (ground (arith, e))
  | inr e ↦ Memᴰ.tail (has_pair-Mem a b xs (ground (arith, e, h)))
]

Mem-has_pair : (a b : ℕ) (ps : List (ℕ × ℕ)) → Memᴰ (a, b) ps → has_pair a b ps ≡ true
unfolding any
Mem-has_pair a b [] m = elim m [ ]
Mem-has_pair a b (x ∷ xs) (Memᴰ.head e) = ground (arith, e)
Mem-has_pair a b (x ∷ xs) (Memᴰ.tail m) = ground (arith, Mem-has_pair a b xs m)

-- A group of the list that passes the test has the slug.
abbrev IsSlugOf : (Group → Bool) → String → List Group → Type 0
IsSlugOf p slug gs = (g : Group) × Memᴰ g gs × (g.slug ≡ slug) × (p g ≡ true)

module _ (p : Group → Bool) (slug : String) where
  abbrev slug_passes : List Group → Bool
  slug_passes gs = has_slug slug (map (λ g. g.slug) (select p gs))

  slug-IsSlugOf : (gs : List Group) → slug_passes gs ≡ true → IsSlugOf p slug gs
  unfolding any select
  slug-IsSlugOf [] h = absurd (ground arith)
  slug-IsSlugOf (x ∷ xs) h = elim (Bool-cases (p x && same_text x.slug slug)) [
    | inl e ↦ (x, Memᴰ.head refl, (eq_iff x.slug slug).0 (ground (arith, e)), ground (arith, e))
    | inr e ↦
        let rest = slug-IsSlugOf xs (ground (arith, e, h)) in
        (rest.0, Memᴰ.tail rest.1, rest.2, rest.3)
  ]

  IsSlugOf-slug :
      (gs : List Group) (g : Group) → Memᴰ g gs → g.slug ≡ slug → p g ≡ true → slug_passes gs ≡ true
  unfolding any select
  IsSlugOf-slug [] g m named passes = elim m [ ]
  IsSlugOf-slug (x ∷ xs) g (Memᴰ.head same) named passes =
      let text : same_text x.slug slug ≡ true =
        (eq_iff x.slug slug).1 (ap (λ y. y.slug) (sym same) ∙ named) in
      let test : p x ≡ true = ap p (sym same) ∙ passes in ground (arith, text, test)
  IsSlugOf-slug (x ∷ xs) g (Memᴰ.tail m) named passes =
      let rest = IsSlugOf-slug xs g m named passes in
      elim (Bool-cases (p x)) [ inl e ↦ ground (arith, e, rest) | inr e ↦ ground (arith, e, rest) ]

-- A team has a group in a region: the region's default group, or one that it opted into and that is
-- deployed to the region.
abbrev pub HasGroup : Catalog → ℕ → Region → ℕ → Group → Type 0
HasGroup c team r d g =
    (g.id ≡ d) ⊎ (Memᴰ (team, g.id) c.team_groups × Memᴰ (g.id, r.id) c.group_regions)

is_default_iff :
    (r : Region) (d : ℕ) (g : Group)
    → r.default_access_group_id ≡ some d
    → (is_default r g ≡ true) ↔ (g.id ≡ d)
is_default_iff r d g has = (λ h. ground (arith, has, h), λ h. ground (arith, has, h))

is_opted_in_iff :
    (c : Catalog) (team : ℕ) (r : Region) (g : Group)
    → (is_opted_in c team r g ≡ true)
      ↔ (Memᴰ (team, g.id) c.team_groups × Memᴰ (g.id, r.id) c.group_regions)
is_opted_in_iff c team r g = (
  λ h. (
    has_pair-Mem team g.id c.team_groups (ground (arith, h)),
    has_pair-Mem g.id r.id c.group_regions (ground (arith, h)),
  ),
  λ h.
      let opted = Mem-has_pair team g.id c.team_groups h.0 in
      let deployed = Mem-has_pair g.id r.id c.group_regions h.1 in ground (arith, opted, deployed),
)

or_true : (a b : Bool) → b ≡ true → (a || b) ≡ true
or_true true b h = refl
or_true false b h = h

or_cases : (a b : Bool) → (a || b) ≡ true → (a ≡ true) ⊎ (b ≡ true)
or_cases true b h = inl refl
or_cases false b h = inr h

-- Where a region has a default group and is managed, a slug is in a team's list exactly when it is that of
-- a group which is the default group, or which the team opted into and which is deployed to the region.
pub effective_team_group_slugs-members :
    (settings : CatalogSettings) (c : Catalog) (team : ℕ) (r : Region) (d : ℕ) (slug : String)
    → r.default_access_group_id ≡ some d
    → catalog_manages settings r.name ≡ true
    → (slugs : List String) × (effective_team_group_slugs settings c team r ≡ some slugs)
      × ((has_slug slug slugs ≡ true)
          ↔ ((g : Group) × Memᴰ g c.groups × (g.slug ≡ slug) × HasGroup c team r d g))
unfolding effective_team_group_slugs
effective_team_group_slugs-members settings c team r d slug has managed =
    let all = slugs_where (is_default r) c ++ slugs_where (is_opted_in c team r) c in
    let members =
      any-sort_by (λ t. same_text t slug) (set_of all)
      ∙ has_slug-set_of slug all
      ∙ any-append (λ t. same_text t slug) (slugs_where (is_default r) c)
          (slugs_where (is_opted_in c team r) c) in
    (
      sort_by text_before (set_of all),
      if_false none _ (ground (arith, has, managed)),
      (
        λ h. elim (or_cases _ _ (sym members ∙ h)) [
          | inl e ↦
              let x = slug-IsSlugOf (is_default r) slug c.groups e in
              (x.0, x.1, x.2, inl ((is_default_iff r d x.0 has).0 x.3))
          | inr e ↦
              let x = slug-IsSlugOf (is_opted_in c team r) slug c.groups e in
              (x.0, x.1, x.2, inr ((is_opted_in_iff c team r x.0).0 x.3))
        ],
        λ x. members ∙ elim x.3 [
          | inl e ↦
              ap (λ b. b || has_slug slug (slugs_where (is_opted_in c team r) c))
                (IsSlugOf-slug (is_default r) slug c.groups x.0 x.1 x.2
                  ((is_default_iff r d x.0 has).1 e))
          | inr e ↦ or_true (has_slug slug (slugs_where (is_default r) c)) _ (
              IsSlugOf-slug (is_opted_in c team r) slug c.groups x.0 x.1 x.2
                ((is_opted_in_iff c team r x.0).1 e))
        ],
      ),
    )
