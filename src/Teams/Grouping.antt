-- ===== src/Teams/Grouping.antt =====
-- The keys of a team by region, `get_team_keys_by_region` of app/core/team_service.py, and the calls
-- that loop over them.
use amazee_ai.Common.{
  [], none, some, false, inl, inr, refl, arith, ◌≡◌, ◌&&◌, ◌||◌, ◌∷◌, ◌++◌, ◌==◌, ◌∙◌, any, ℕ, Bool,
  select, List, truthy, Bool-cases, map, ap, ap₂, ==_iff, Option-cases,
}
use amazee_ai.Teams.{
  TeamKey, Region, RegionKey, Call, add_to_region, group_key, group_keys, calls_of,
}

-- Some key of some group passes a test on its region's number and itself.
unfoldable pub any_grouped : (ℕ → RegionKey → Bool) → List (Region × List RegionKey) → Bool
any_grouped q gs = any (λ g. any (q g.0.id) g.1) gs

-- A key with a token and a region passes.
abbrev pub key_passes : (ℕ → RegionKey → Bool) → TeamKey → Bool
key_passes q k = elim k.litellm_token [
  | none ↦ false
  | some token ↦
      truthy (some token)
      && elim k.region [ none ↦ false | some r ↦ q r.id (record { id = k.id; token = token }) ]
]

pub any-append {ℓ} :
    {A : Type ℓ} (p : A → Bool) (xs ys : List A) → any p (xs ++ ys) ≡ (any p xs || any p ys)
unfolding any
any-append p [] ys = refl
any-append p (x ∷ xs) ys = ground (arith, any-append p xs ys)

pub any-select {ℓ} :
    {A : Type ℓ} (p q : A → Bool) (xs : List A) → any p (select q xs) ≡ any (λ x. q x && p x) xs
unfolding any select
any-select p q [] = refl
any-select p q (x ∷ xs) = ground (arith, any-select p q xs)

any-map {ℓ} :
    {A B : Type ℓ} (p : B → Bool) (f : A → B) (xs : List A)
    → any p (map f xs) ≡ any (λ x. p (f x)) xs
unfolding any
any-map p f [] = refl
any-map p f (x ∷ xs) = ap (λ b. p (f x) || b) (any-map p f xs)

any_grouped-add_to_region :
    (q : ℕ → RegionKey → Bool) (r : Region) (k : RegionKey) (gs : List (Region × List RegionKey))
    → any_grouped q (add_to_region r k gs) ≡ (q r.id k || any_grouped q gs)
unfolding any_grouped add_to_region any
any_grouped-add_to_region q r k [] = ground arith
any_grouped-add_to_region q r k (g ∷ gs) = elim (Bool-cases (g.0.id == r.id)) [
  | inl same ↦
      let e : q g.0.id k ≡ q r.id k = ap (λ n. q n k) ((==_iff g.0.id r.id).0 same) in
      rw same (ground (arith, any-append (q g.0.id) g.1 (k ∷ []), e))
  | inr other ↦ rw other (ground (arith, any_grouped-add_to_region q r k gs))
]

any_grouped-group_key :
    (q : ℕ → RegionKey → Bool) (k : TeamKey) (gs : List (Region × List RegionKey))
    → any_grouped q (group_key k gs) ≡ (key_passes q k || any_grouped q gs)
unfolding group_key
any_grouped-group_key q k gs = elim (Option-cases k.litellm_token) [
  | inl no_token ↦ rw (no_token, group_key) refl
  | inr (token, has_token) ↦ elim (Option-cases k.region) [
    | inl no_region ↦ rw (has_token, no_region, group_key) (ground arith)
    | inr (r, in_region) ↦
        rw (has_token, in_region, group_key)
          (ground (arith, any_grouped-add_to_region q r (record { id = k.id; token = token }) gs))
  ]
]

pub any_grouped-group_keys :
    (q : ℕ → RegionKey → Bool) (ks : List TeamKey) (gs : List (Region × List RegionKey))
    → any_grouped q (group_keys ks gs) ≡ (any (key_passes q) ks || any_grouped q gs)
unfolding group_keys any
any_grouped-group_keys q [] gs = refl
any_grouped-group_keys q (k ∷ ks) gs =
    ground (arith, any_grouped-group_keys q ks (group_key k gs), any_grouped-group_key q k gs)

-- A call of the loop passes a test exactly when some grouped key makes one that does.
pub any-calls_of :
    (p : Call → Bool) (q : ℕ → RegionKey → Bool) (call : Region → RegionKey → Call)
    (gs : List (Region × List RegionKey))
    → ((r : Region) (k : RegionKey) → p (call r k) ≡ q r.id k)
    → any p (calls_of call gs) ≡ any_grouped q gs
unfolding any any_grouped calls_of
any-calls_of p q call [] h = refl
any-calls_of p q call (g ∷ gs) h =
    any-append p (map (call g.0) g.1) (calls_of call gs)
    ∙ ap₂ (λ a b. a || b) (any-map p (call g.0) g.1 ∙ (λ i. any (λ k. h g.0 k i) g.1))
        (any-calls_of p q call gs h)
