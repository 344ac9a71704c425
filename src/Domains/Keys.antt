-- ===== src/Domains/Keys.antt =====
-- The primary key of the blocklist through a refresh, app/services/disposable_domains.py.
use amazee_ai.Domains.Blocking.{same_text_sym}
use amazee_ai.Domains.Refreshing.{has_text-missing, has_text-set_of, has_text-append}
use amazee_ai.Common.Lists.{any-false, select_sound}
use amazee_ai.Domains.{
  Table, Text, refresh_disposable_domains, refresh_table, DisposableDomain, baseline_domains,
  has_text, missing, row_of, set_of, Unicode, baseline_row, has_domain, Inputs, same_text,
  remote_domains,
}
use amazee_ai.Domains.{set_of}
use amazee_ai.Common.{
  [], none, some, true, false, refl, arith, inl, inr, ◌≡◌, ◌∷◌, ◌++◌, ◌∙◌, ◌||◌, List, Option, All,
  Bool-cases, not, ap, ap₂, sym, any, map, select, subst, All-mono,
}

-- No text comes twice.
abbrev pub IsDuplicateFree : List Text → Type 0
IsDuplicateFree [] = Unit
IsDuplicateFree (s ∷ ss) = (has_text s ss ≡ false) × IsDuplicateFree ss

abbrev pub domains : Table → List Text
domains = map (λ r. r.domain)

set_of-IsDuplicateFree : (xs : List Text) → IsDuplicateFree (set_of xs)
unfolding set_of
set_of-IsDuplicateFree [] = tt
set_of-IsDuplicateFree (x ∷ xs) = elim (Bool-cases (has_text x xs)) [
  | inl again ↦ rw again (set_of-IsDuplicateFree xs)
  | inr new ↦ rw new (has_text-set_of x xs ∙ new, set_of-IsDuplicateFree xs)
]

IsDuplicateFree-append :
    (xs ys : List Text)
    → IsDuplicateFree xs
    → IsDuplicateFree ys
    → All (λ y. has_text y xs ≡ false) ys
    → IsDuplicateFree (xs ++ ys)
unfolding any
IsDuplicateFree-append [] ys h k n = k
IsDuplicateFree-append (x ∷ xs) ys h k n =
    let absent : has_text x ys ≡ false = any-false (same_text x) ys (
      All-mono (λ y. has_text y (x ∷ xs) ≡ false) (λ y. same_text x y ≡ false) ys
        (λ y e. same_text_sym x y ∙ ground (arith, e)) n) in
    (
      has_text-append x xs ys ∙ ap₂ (λ a b. a || b) h.0 absent,
      IsDuplicateFree-append xs ys h.1 k (
          All-mono (λ y. has_text y (x ∷ xs) ≡ false) (λ y. has_text y xs ≡ false) ys
            (λ y e. ground (arith, e)) n),
    )

missing-IsDuplicateFree :
    (base : List Text) (table : Table) → IsDuplicateFree base → IsDuplicateFree (missing base table)
unfolding select
missing-IsDuplicateFree [] table h = tt
missing-IsDuplicateFree (x ∷ xs) table h = elim (Bool-cases (has_domain x table)) [
  | inl there ↦ rw there (missing-IsDuplicateFree xs table h.1)
  | inr absent ↦
      rw absent
        (has_text-missing x xs table ∙ ground (arith, h.0), missing-IsDuplicateFree xs table h.1)
]

has_text-domains : (d : Text) (table : Table) → has_text d (domains table) ≡ has_domain d table
unfolding any
has_text-domains d [] = refl
has_text-domains d (r ∷ rows) = ap (λ b. same_text d r.domain || b) (has_text-domains d rows)

domains-map :
    (f : Text → DisposableDomain)
    → ((d : Text) → (f d).domain ≡ d)
    → (xs : List Text) → domains (map f xs) ≡ xs
domains-map f same [] = refl
domains-map f same (x ∷ xs) = ap₂ (λ a b. a ∷ b) (same x) (domains-map f same xs)

domains-append : (xs ys : Table) → domains (xs ++ ys) ≡ domains xs ++ domains ys
domains-append [] ys = refl
domains-append (x ∷ xs) ys = ap (λ r. x.domain ∷ r) (domains-append xs ys)

refresh_table-IsDuplicateFree :
    (base : List Text) (remote : Option (List Text)) (table : Table)
    → IsDuplicateFree base
    → IsDuplicateFree (domains table)
    → IsDuplicateFree (domains (refresh_table base remote table))
unfolding refresh_table
refresh_table-IsDuplicateFree base (some remote) table h k =
    subst IsDuplicateFree (sym (domains-map (row_of base) (λ d. refl) (set_of (base ++ remote))))
      (set_of-IsDuplicateFree (base ++ remote))
refresh_table-IsDuplicateFree base none table h k =
    let new = missing base table in
    let shape : domains (table ++ map baseline_row new) ≡ domains table ++ new =
      domains-append table (map baseline_row new)
      ∙ ap (λ x. domains table ++ x) (domains-map baseline_row (λ d. refl) new) in
    let absent : All (λ d. has_text d (domains table) ≡ false) new =
      All-mono (λ d. not (has_domain d table) ≡ true) (λ d. has_text d (domains table) ≡ false) new
        (λ d e. has_text-domains d table ∙ ground (arith, e))
        (select_sound (λ d. not (has_domain d table)) base) in
    subst IsDuplicateFree (sym shape)
      (IsDuplicateFree-append (domains table) new k (missing-IsDuplicateFree base table h) absent)

-- A refresh keeps the primary key: no domain comes twice in the table, whichever way the fetch of the
-- upstream list goes.
refresh_disposable_domains-IsDuplicateFree :
    (u : Unicode) (i : Inputs) (table : Table)
    → IsDuplicateFree (domains table)
    → IsDuplicateFree (domains (refresh_disposable_domains u i table).1)
unfolding refresh_disposable_domains baseline_domains
refresh_disposable_domains-IsDuplicateFree u i table k =
    refresh_table-IsDuplicateFree (baseline_domains u i) (remote_domains u i.fetch) table
      (set_of-IsDuplicateFree _) k
