-- ===== src/Limits/Startup.antt =====
-- The system's limits that `setup_default_limits` of app/core/limit_service.py leaves at start.
use amazee_ai.Limits.Defaults.{
  setup_default_limit, default_limits, setup_default_limits, setup_limits,
}
use amazee_ai.Limits.Applying.{set_limit}
use amazee_ai.Limits.Setting.{
  is_valid_request, update_default_limits_for_resource, add_limit, set_limit_with, created,
  write_request, after_write,
}
use amazee_ai.Limits.Model.{
  LimitedResource, ResourceType, Settings, find_limit, Store, ok, system, owned_by, same_owner,
  Result, bind_result, user, user_key, service_key, vector_db, budget, rpm,
}
use amazee_ai.Common.{
  [], none, true, refl, arith, inl, inr, ◌≡◌, ◌||◌, ◌∷◌, ◌++◌, ◌∙◌, ℕ, Bool, List, All,
  Option-cases, find_first, map, is_some, ap, subst, sym, false,
}

module _ {A : Type 0} (p : A → Bool) where
  is_some-find_append :
      (xs : List A) (y : A)
      → is_some (find_first p (xs ++ y ∷ [])) ≡ (is_some (find_first p xs) || p y)
  unfolding find_first
  is_some-find_append [] y = ground arith
  is_some-find_append (x ∷ xs) y = ground (arith, is_some-find_append xs y)

  is_some-find_map :
      (f : A → A)
      → ((x : A) → p (f x) ≡ p x)
      → (xs : List A) → is_some (find_first p (map f xs)) ≡ is_some (find_first p xs)
  unfolding find_first
  is_some-find_map f same [] = refl
  is_some-find_map f same (x ∷ xs) = ground (arith, same x, is_some-find_map f same xs)

-- The system has a row for the resource.
abbrev pub HasDefault : ResourceType → Store → Type 0
HasDefault resource s = is_some (find_limit system 0 resource s) ≡ true

-- The resources that the system's limits are for.
abbrev pub default_resources : List ResourceType
default_resources = user ∷ user_key ∷ service_key ∷ vector_db ∷ budget ∷ rpm ∷ []

-- A valid limit of the system.
abbrev IsSystemRequest : LimitedResource → Type 0
IsSystemRequest r = (is_valid_request r ≡ true) × (r.owner_type ≡ system) × (r.owner_id ≡ 0)

-- The rows after one is added.
abbrev added : Settings → LimitedResource → Store → Store
added c r s =
    update_default_limits_for_resource c r.resource r.max_value (add_limit (created r s.next_id) s)

is_some-find_added :
    (c : Settings) (r : LimitedResource) (s : Store) (resource : ResourceType)
    → is_some (find_limit system 0 resource (added c r s)) ≡ (
        is_some (find_limit system 0 resource s)
        || owned_by system 0 resource (created r s.next_id))
unfolding find_limit update_default_limits_for_resource add_limit
is_some-find_added c r s resource =
    is_some-find_map (owned_by system 0 resource) _ (λ x. ground arith)
      (s.limits ++ created r s.next_id ∷ [])
    ∙ is_some-find_append (owned_by system 0 resource) s.limits (created r s.next_id)

created_owned :
    (r : LimitedResource) (id : ℕ)
    → IsSystemRequest r
    → owned_by system 0 r.resource (created r id) ≡ true
unfolding created
created_owned r id h = let kind = h.1 in let owner = h.2 in ground (arith, kind, owner)

new_has :
    (c : Settings) (r : LimitedResource) (s : Store)
    → IsSystemRequest r
    → HasDefault r.resource (added c r s)
new_has c r s h = ground (arith, is_some-find_added c r s r.resource, created_owned r s.next_id h)

module _ (c : Settings) where
  set_limit-new :
      (r : LimitedResource) (s : Store)
      → is_valid_request r ≡ true
      → same_owner r.owner_type system ≡ true
      → find_limit r.owner_type r.owner_id r.resource s ≡ none
      → set_limit c r s ≡ (ok (created r s.next_id), added c r s)
  unfolding set_limit set_limit_with write_request after_write
  set_limit-new r s good top e = rw (good, e, write_request, top) refl

  set_limit-missing :
      (r : LimitedResource) (s : Store)
      → IsSystemRequest r
      → find_limit system 0 r.resource s ≡ none
      → set_limit c r s ≡ (ok (created r s.next_id), added c r s)
  set_limit-missing r s h e =
      let kind = h.1 in
      let owner = h.2 in
      let top : same_owner r.owner_type system ≡ true = rw kind refl in
      let query : find_limit r.owner_type r.owner_id r.resource s ≡ none = rw (kind, owner) e in
      set_limit-new r s h.0 top query

  present_kept :
      (r : LimitedResource) (s : Store)
      → HasDefault r.resource s
      → setup_default_limit c r s ≡ (ok tt, s)
  unfolding setup_default_limit
  present_kept r s h = elim (Option-cases (find_limit system 0 r.resource s)) [
    | inl e ↦ absurd (ground arith)
    | inr (l, e) ↦ rw e refl
  ]

  missing_added :
      (r : LimitedResource) (s : Store)
      → IsSystemRequest r
      → find_limit system 0 r.resource s ≡ none
      → setup_default_limit c r s ≡ (ok tt, added c r s)
  unfolding setup_default_limit
  missing_added r s h e = rw (e, set_limit-missing r s h e) refl

  -- One missing limit is written, and no row goes.
  setup_default_limit-has :
      (r : LimitedResource) (s : Store)
      → IsSystemRequest r
      → ((setup_default_limit c r s).0 ≡ ok tt)
        × HasDefault r.resource (setup_default_limit c r s).1
        × ((q : ResourceType) → HasDefault q s → HasDefault q (setup_default_limit c r s).1)
  setup_default_limit-has r s h = elim (Option-cases (find_limit system 0 r.resource s)) [
    | inl e ↦
        rw (missing_added r s h e)
          (refl, new_has c r s h, λ q k. ground (arith, is_some-find_added c r s q))
    | inr (l, e) ↦
        let here : HasDefault r.resource s = rw e refl in
        rw (present_kept r s here) (refl, here, λ q k. k)
  ]

  -- The call is done, each resource has its row, and no row is gone.
  abbrev Sets : List LimitedResource → Store → Result (Unit {0}) × Store → Type 0
  Sets rs s x =
      (x.0 ≡ ok tt)
      × All (λ r. HasDefault r.resource x.1) rs
      × ((q : ResourceType) → HasDefault q s → HasDefault q x.1)

  setup_limits-has :
      (rs : List LimitedResource) (s : Store)
      → All IsSystemRequest rs
      → Sets rs s (setup_limits c rs s)
  unfolding setup_limits
  setup_limits-has [] s h = (refl, tt, λ q k. k)
  setup_limits-has (r ∷ rs) s h =
      let one = setup_default_limit-has r s h.0 in
      let s' = (setup_default_limit c r s).1 in
      let rest = setup_limits-has rs s' h.1 in
      let step : setup_limits c (r ∷ rs) s ≡ setup_limits c rs s' =
        ap (λ x. bind_result (x, s') (λ _. setup_limits c rs)) one.0 in
      subst (Sets (r ∷ rs) s) (sym step)
        (rest.0, (rest.2 r.resource one.1, rest.1), λ q k. rest.2 q (one.2 q k))

  setup_limits-present :
      (rs : List LimitedResource) (s : Store)
      → All (λ r. HasDefault r.resource s) rs
      → setup_limits c rs s ≡ (ok tt, s)
  unfolding setup_limits
  setup_limits-present [] s h = refl
  setup_limits-present (r ∷ rs) s h = rw (present_kept r s h.0) (setup_limits-present rs s h.1)

  default_limits-valid : All IsSystemRequest default_limits
  unfolding default_limits is_valid_request
  default_limits-valid = (
    (refl, refl, refl),
    (
      (refl, refl, refl),
      ((refl, refl, refl), ((refl, refl, refl), ((refl, refl, refl), ((refl, refl, refl), tt)))),
    ),
  )

  default_limits-six :
      (s : Store)
      → All (λ r. HasDefault r.resource s) default_limits
      → All (λ q. HasDefault q s) default_resources
  unfolding default_limits
  default_limits-six s h = h

  -- Whatever the rows are: with limits enabled, setting up the default limits raises nothing, leaves
  -- the system with a row for each of users, keys per user, service keys, vector databases, budget and
  -- RPM, and changes nothing when it runs again; with limits not enabled it changes nothing at all.
  pub setup_default_limits-idempotent :
      (s : Store)
      → ((setup_default_limits c true s).0 ≡ ok tt)
        × All (λ q. HasDefault q (setup_default_limits c true s).1) default_resources
        × (setup_default_limits c true (setup_default_limits c true s).1
            ≡ (ok tt, (setup_default_limits c true s).1))
        × (setup_default_limits c false s ≡ (ok tt, s))
  unfolding setup_default_limits
  setup_default_limits-idempotent s =
      let first = setup_limits-has default_limits s default_limits-valid in
      (
        first.0,
        default_limits-six (setup_limits c default_limits s).1 first.1,
        setup_limits-present default_limits (setup_limits c default_limits s).1 first.1,
        refl,
      )
