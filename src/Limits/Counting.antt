-- ===== src/Limits/Counting.antt =====
-- Counters and the checks before a resource is created, app/core/limit_service.py.
use amazee_ai.Common.Table.{find_row}
use amazee_ai.Limits.Reading.{
  product_max, coalesce, default_keys_per_user, default_service_keys, default_vector_db_count,
  default_user_count,
}
use amazee_ai.Limits.Applying.{set_limit}
use amazee_ai.Limits.Setting.{write_limit}
use amazee_ai.Limits.Model.{
  Key, LimitType, OwnerType, Settings, Store, Action, Limit, ResourceType, Result, LimitedResource,
  raised, team_owner, ◌>>=◌, ◌>>◌, control_plane, gets, is_control_plane, or_raise, raise_if,
  service_key, user_owner, vector_db, count, find_limit, find_team, is_count, payment_required,
  type_error, user_key, default, limit_not_found, not_found, pure, modify,
  requires_pool_purchase_gate, value_error, user, no_result,
}
use amazee_ai.Common.{
  none, some, true, false, ◌+◌, ◌-◌, ◌&&◌, ◌||◌, ◌==◌, if◌then◌else◌, Option, ℕ, Bool, any, is_none,
  is_some, length, not, select, leb, ltb,
}

abbrev pub is_data_plane : LimitType → Bool
is_data_plane t = not (is_control_plane t)

-- `_verify_control_plane_count`
unfoldable pub verify_control_plane_count : OwnerType → ℕ → ResourceType → Action Limit
verify_control_plane_count kind owner resource = do
  l ← (gets (find_limit kind owner resource) >>= λ found. or_raise found limit_not_found)
  raise_if (is_data_plane l.limit_type) value_error
  raise_if (not (is_count l.unit)) value_error
  pure l

abbrev pub with_current : ℕ → Limit → Limit
with_current v l = record l { current_value = some v }

-- A row whose counter is NULL cannot be compared.
unfoldable pub increment_resource : OwnerType → ℕ → ResourceType → Action Bool
unfolding verify_control_plane_count write_limit
increment_resource kind owner resource = do
  l ← verify_control_plane_count kind owner resource
  current ← or_raise l.current_value type_error
  if leb l.max_value current
      then pure false
      else (modify (write_limit (with_current (current + 1) l)) >> pure true)

pub decrement_resource : OwnerType → ℕ → ResourceType → Action Bool
unfolding verify_control_plane_count write_limit
decrement_resource kind owner resource = do
  l ← verify_control_plane_count kind owner resource
  current ← or_raise l.current_value type_error
  if ltb 0 current
      then (modify (write_limit (with_current (current - 1) l)) >> pure true)
      else pure true

-- `set_current_value`; `scalar_one` raises where the row is gone.
pub set_current_value : Limit → ℕ → Action (Unit {0})
unfolding write_limit
set_current_value l value = do
  current ←
      (if is_control_plane l.limit_type && is_count l.unit
        then or_raise l.current_value type_error
        else pure 0)
  raise_if (ltb 0 current) value_error
  row ← (gets (λ s. find_row (λ x. x.id) l.id s.limits) >>= λ found. or_raise found no_result)
  modify (write_limit (with_current value row))

abbrev pub same_id : Option ℕ → ℕ → Bool
same_id none k = false
same_id (some j) k = j == k

abbrev pub is_service_key_of : ℕ → Key → Bool
is_service_key_of team k = same_id k.team_id team && is_none k.owner_id && is_some k.litellm_token

abbrev pub is_key_of_user : ℕ → Key → Bool
is_key_of_user owner k = same_id k.owner_id owner && is_some k.litellm_token

-- A stored counter that differs from the count is corrected. (Writing an equal one changes nothing.)
unfoldable pub correct_count : OwnerType → ℕ → ResourceType → ℕ → Action (Unit {0})
unfolding write_limit
correct_count kind owner resource actual = do
  found ← gets (find_limit kind owner resource)
  elim found [ none ↦ pure tt | some l ↦ modify (write_limit (with_current actual l)) ]

-- `_validate_and_correct_service_key_count`
unfoldable pub validate_and_correct_service_key_count : ℕ → Action (Unit {0})
unfolding correct_count
validate_and_correct_service_key_count team = do
  actual ← gets (λ s. length (select (is_service_key_of team) s.keys))
  correct_count team_owner team service_key actual

-- `_validate_and_correct_user_key_count`
unfoldable pub validate_and_correct_user_key_count : ℕ → Action (Unit {0})
unfolding correct_count
validate_and_correct_user_key_count owner = do
  actual ← gets (λ s. length (select (is_key_of_user owner) s.keys))
  correct_count user_owner owner user_key actual

-- The keys that the team owns or one of its users does.
pub is_team_key : Store → ℕ → Key → Bool
is_team_key s team k =
    same_id k.team_id team || any (λ u. same_id u.team_id team && same_id k.owner_id u.id) s.users

pub count_team_keys : (Key → Bool) → ℕ → Store → ℕ
unfolding is_team_key
count_team_keys p team s = length (select (λ k. is_team_key s team k && p k) s.keys)

abbrev pub counter_request : OwnerType → ℕ → ResourceType → ℕ → ℕ → LimitedResource
counter_request kind owner resource value current = record {
  limit_type = control_plane;
  resource = resource;
  unit = count;
  max_value = value;
  current_value = some current;
  owner_type = kind;
  owner_id = owner;
  limited_by = default;
  set_by = none;
}

-- `except LimitNotFoundError`
unfoldable pub on_not_found : {A : Type 0} → Result A × Store → Action A → Result A × Store
on_not_found (raised limit_not_found, s) fallback = fallback s
on_not_found (r, s) fallback = (r, s)

-- The counter is taken, or 402 is raised.
unfoldable pub take_or_refuse : OwnerType → ℕ → ResourceType → Action (Unit {0})
unfolding increment_resource
take_or_refuse kind owner resource = do
  taken ← increment_resource kind owner resource
  raise_if (not taken) payment_required

module _ (c : Settings) where
  -- Behind `except`: the limit is created from what the products allow and what there is, and the
  -- resource in progress is counted.
  pub create_and_take : OwnerType → ℕ → ResourceType → ℕ → ℕ → Action (Unit {0})
  unfolding increment_resource
  create_and_take kind owner resource value current = do
    set_limit c (counter_request kind owner resource value current)
    taken ← increment_resource kind owner resource
    raise_if (leb value current && not taken) payment_required

  pub check_team_user_limit : ℕ → Action (Unit {0})
  unfolding take_or_refuse create_and_take on_not_found
  check_team_user_limit team = do
    t ← (gets (find_team team) >>= λ found. or_raise found not_found)
    if requires_pool_purchase_gate t then pure tt else (λ s.
        on_not_found (take_or_refuse team_owner team user s) (do
          value ← gets (product_max (λ p. p.user_count) team)
          current ← gets (λ s'. length (select (λ u. same_id u.team_id team) s'.users))
          create_and_take team_owner team user (coalesce value default_user_count) current))

  unfoldable pub check_user_key_limits : ℕ → ℕ → Action (Unit {0})
  unfolding take_or_refuse create_and_take on_not_found count_team_keys
      validate_and_correct_user_key_count
  check_user_key_limits team owner s =
      on_not_found
        ((validate_and_correct_user_key_count owner >> take_or_refuse user_owner owner user_key) s)
        (do
          value ← gets (product_max (λ p. p.keys_per_user) team)
          current ← gets (count_team_keys (is_key_of_user owner) team)
          create_and_take user_owner owner user_key (coalesce value default_keys_per_user) current)

  unfoldable pub check_service_key_limits : ℕ → Action (Unit {0})
  unfolding take_or_refuse increment_resource on_not_found count_team_keys
      validate_and_correct_service_key_count
  check_service_key_limits team s =
      on_not_found
        ((validate_and_correct_service_key_count team >> take_or_refuse team_owner team service_key)
          s)
        (do
          found ← gets (product_max (λ p. p.service_key_count) team)
          let value = coalesce found default_service_keys
          current ← gets (count_team_keys (λ k. is_none k.owner_id && is_some k.litellm_token) team)
          set_limit c (counter_request team_owner team service_key value current)
          increment_resource team_owner team service_key
          raise_if (leb value current) payment_required)

  unfoldable pub check_key_limits : ℕ → Option ℕ → Action (Unit {0})
  unfolding check_user_key_limits check_service_key_limits
  check_key_limits team (some owner) = check_user_key_limits team owner
  check_key_limits team none = check_service_key_limits team

  unfoldable pub check_vector_db_limits : ℕ → Action (Unit {0})
  unfolding take_or_refuse create_and_take on_not_found count_team_keys
  check_vector_db_limits team s = on_not_found (take_or_refuse team_owner team vector_db s) (do
    value ← gets (product_max (λ p. p.vector_db_count) team)
    current ← gets (count_team_keys (λ k. is_some k.database_name) team)
    create_and_take team_owner team vector_db (coalesce value default_vector_db_count) current)
