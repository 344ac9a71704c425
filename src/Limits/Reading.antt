-- ===== src/Limits/Reading.antt =====
-- The limits that a team has, app/core/limit_service.py: its own rows over the system's, each
-- missing one of which is written down for the team; and what the products and the defaults allow.
use amazee_ai.Limits.Setting.{set_limit_with}
use amazee_ai.Limits.Model.{
  Limit, Product, ResourceType, Settings, Team, Action, LimitedResource, Store, same_resource,
  service_key, TeamProduct, gets, is_budget, pure, same_owner, team_owner, vector_db, default,
  raise, requires_pool_purchase_gate, system, user, dedicated_default_for, user_key, value_error,
  budget, rpm, ◌>>=◌, find_limit, or_raise,
}
use amazee_ai.Common.{
  [], none, some, true, ◌&&◌, ◌∷◌, ◌==◌, if◌then◌else◌, List, Option, ℕ, Bool, max, map, not,
  select,
}

-- `effective_limits[limit.resource] = limit`: a dict keeps the place of a key.
unfoldable pub put_limit : Limit → List Limit → List Limit
put_limit l [] = l ∷ []
put_limit l (m ∷ ms) = if same_resource m.resource l.resource then l ∷ ms else m ∷ put_limit l ms

unfoldable pub put_limits : List Limit → List Limit → List Limit
unfolding put_limit
put_limits [] dict = dict
put_limits (l ∷ ls) dict = put_limits ls (put_limit l dict)

abbrev pub is_system_limit : Limit → Bool
is_system_limit l = same_owner l.owner_type system

abbrev pub is_team_limit : ℕ → Limit → Bool
is_team_limit team l = same_owner l.owner_type team_owner && l.owner_id == team

-- A pool team inherits no budget from the system.
abbrev pub is_inherited : Team → Limit → Bool
is_inherited t l = not (is_budget l.resource && requires_pool_purchase_gate t)

unfoldable pub effective_limits : Team → Store → List Limit
unfolding put_limits
effective_limits t s =
    put_limits (select (is_team_limit t.id) s.limits)
      (put_limits (select (is_inherited t) (select is_system_limit s.limits)) [])

-- The team's copy of a system limit.
abbrev pub team_copy : Team → Limit → LimitedResource
team_copy t l = record {
  limit_type = l.limit_type;
  resource = l.resource;
  unit = l.unit;
  max_value = l.max_value;
  current_value = l.current_value;
  owner_type = team_owner;
  owner_id = t.id;
  limited_by = default;
  set_by = none;
}

module _ (c : Settings) (propagate : ℕ → ℕ → Action (Unit {0})) where
  unfoldable pub materialize_limit : Team → Limit → Action Limit
  materialize_limit t l =
      if is_system_limit l then set_limit_with c propagate true (team_copy t l) else pure l

  unfoldable pub materialize_limits : Team → List Limit → Action (List Limit)
  unfolding materialize_limit
  materialize_limits t [] = pure []
  materialize_limits t (l ∷ ls) = do
    m ← materialize_limit t l
    ms ← materialize_limits t ls
    pure (m ∷ ms)

  unfoldable pub get_team_limits_with : Team → Action (List Limit)
  unfolding materialize_limits effective_limits
  get_team_limits_with t = do limits ← gets (effective_limits t); materialize_limits t limits

-- SQL's MAX over a column: NULLs do not count, and there may be none.
pub max_of : List (Option ℕ) → Option ℕ
max_of [] = none
max_of (none ∷ vs) = max_of vs
max_of (some v ∷ vs) = elim (max_of vs) [ none ↦ some v | some w ↦ some (max v w) ]

abbrev pub coalesce : Option ℕ → ℕ → ℕ
coalesce none d = d
coalesce (some v) d = v

abbrev pub products_of : ℕ → Store → List TeamProduct
products_of team s = select (λ p. p.team_id == team) s.team_products

pub product_max : (Product → Option ℕ) → ℕ → Store → Option ℕ
unfolding max_of
product_max column team s = max_of (map (λ p. column p.product) (products_of team s))

-- `get_team_product_limit_for_resource`
unfoldable pub get_team_product_limit_for_resource : ℕ → ResourceType → Store → Option ℕ
unfolding product_max
get_team_product_limit_for_resource team service_key s =
    product_max (λ p. p.service_key_count) team s
get_team_product_limit_for_resource team vector_db s = product_max (λ p. p.vector_db_count) team s
get_team_product_limit_for_resource team user s = product_max (λ p. p.user_count) team s
get_team_product_limit_for_resource team user_key s = product_max (λ p. p.keys_per_user) team s
get_team_product_limit_for_resource team budget s = product_max (λ p. p.max_budget_per_key) team s
get_team_product_limit_for_resource team rpm s = product_max (λ p. p.rpm_per_key) team s
get_team_product_limit_for_resource team _ s = none

-- `get_user_product_limit_for_resource`; a user without a team joins no product.
pub get_user_product_limit_for_resource : Option ℕ → ResourceType → Action (Option ℕ)
unfolding product_max
get_user_product_limit_for_resource (some team) user_key =
    gets (product_max (λ p. p.keys_per_user) team)
get_user_product_limit_for_resource none user_key = pure none
get_user_product_limit_for_resource _ _ = raise value_error

-- The constants at the head of the file, dollars in cents.
abbrev pub default_user_count : ℕ
default_user_count = 1

abbrev pub default_keys_per_user : ℕ
default_keys_per_user = 1

abbrev pub default_service_keys : ℕ
default_service_keys = 5

abbrev pub default_vector_db_count : ℕ
default_vector_db_count = 5

abbrev pub default_key_duration : ℕ
default_key_duration = 30

abbrev pub default_max_spend : ℕ
default_max_spend = 2700

abbrev pub default_rpm_per_key : ℕ
default_rpm_per_key = 500

pub hardcoded_default : ResourceType → Option ℕ
hardcoded_default service_key = some default_service_keys
hardcoded_default vector_db = some default_vector_db_count
hardcoded_default user = some default_user_count
hardcoded_default user_key = some default_keys_per_user
hardcoded_default budget = some default_max_spend
hardcoded_default rpm = some default_rpm_per_key
hardcoded_default _ = none

-- `get_default_team_limit_for_resource`
unfoldable pub get_default_team_limit_for_resource : ResourceType → Action ℕ
unfolding hardcoded_default
get_default_team_limit_for_resource resource = do
  row ← gets (find_limit system 0 resource)
  elim row [ some l ↦ pure l.max_value | none ↦ or_raise (hardcoded_default resource) value_error ]

-- `get_default_user_limit_for_resource`
unfoldable pub get_default_user_limit_for_resource : ResourceType → Action ℕ
get_default_user_limit_for_resource resource = do
  row ← gets (find_limit system 0 resource)
  elim row [
    | some l ↦ pure l.max_value
    | none ↦
        if same_resource resource user_key then pure default_keys_per_user else raise value_error
  ]

-- `_get_team_default_limit_for_resource`
unfoldable pub get_team_default_limit_for_resource : Settings → Team → ResourceType → Action ℕ
unfolding get_default_team_limit_for_resource
get_team_default_limit_for_resource c t resource =
    if is_budget resource && requires_pool_purchase_gate t
    then pure 0
    else (elim (if t.hide_public_regions then dedicated_default_for c resource else none) [
      | some v ↦ pure v
      | none ↦ get_default_team_limit_for_resource resource
    ])
