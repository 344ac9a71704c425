-- ===== src/Limits/Setting.antt =====
-- `_set_limit` of app/core/limit_service.py: one limit is created or changed, under the hierarchy of
-- its sources; the change of a system limit reaches the defaults below it, and the change of a
-- team's budget is handed to `propagate`, which app/core/limit_service.py ties to the team's keys.
use Prim.Native.String.{String}
use amazee_ai.Common.Table.{set_row}
use amazee_ai.Limits.Model.{
  Limit, LimitedResource, Settings, ResourceType, Store, Team, Action, is_budget, same_resource,
  is_control_plane, is_default, is_manual, requires_pool_purchase_gate, same_owner, system,
  dedicated_default_for, modify, team_owner, find_team, pure, ◌>>◌, raise_if, value_error, ◌>>=◌,
  gets, find_limit,
}
use amazee_ai.Common.{
  [], none, some, true, false, suc, ◌&&◌, ◌||◌, ◌∷◌, ◌++◌, if◌then◌else◌, Bool, Option, ℕ, map, not,
  is_none, is_some, truthy,
}

-- The three ValueErrors at the head.
unfoldable pub is_valid_request : LimitedResource → Bool
is_valid_request r =
    not (is_control_plane r.limit_type && is_none r.current_value)
    && not (is_manual r.limited_by && not (truthy r.set_by))
    && not
        (same_owner r.owner_type system && not (is_default r.limited_by || is_manual r.limited_by))

abbrev pub kept_set_by : LimitedResource → Option String
kept_set_by r = if is_manual r.limited_by then r.set_by else none

-- The existing row, with the new values.
unfoldable pub updated : LimitedResource → Limit → Limit
updated r l = record l {
  limit_type = r.limit_type;
  unit = r.unit;
  max_value = r.max_value;
  current_value = r.current_value;
  limited_by = r.limited_by;
  set_by = kept_set_by r;
}

unfoldable pub created : LimitedResource → ℕ → Limit
created r id = record {
  id = id;
  limit_type = r.limit_type;
  resource = r.resource;
  unit = r.unit;
  max_value = r.max_value;
  current_value = r.current_value;
  owner_type = r.owner_type;
  owner_id = r.owner_id;
  limited_by = r.limited_by;
  set_by = kept_set_by r;
}

unfoldable pub write_limit : Limit → Store → Store
write_limit l s = record s { limits = set_row (λ x. x.id) l s.limits }

unfoldable pub add_limit : Limit → Store → Store
add_limit l s = record s { limits = s.limits ++ l ∷ []; next_id = suc s.next_id }

-- The row, created or updated, unless a manual limit stands in the way.
unfoldable pub write_request : LimitedResource → Option Limit → Action Limit
unfolding updated created write_limit add_limit
write_request r (some l) = do
  raise_if (is_manual l.limited_by && not (is_manual r.limited_by)) value_error
  modify (write_limit (updated r l))
  pure (updated r l)
write_request r none = do
  id ← gets (λ s. s.next_id)
  modify (add_limit (created r id))
  pure (created r id)

-- `_should_skip_system_default_update_for_team`
pub should_skip_system_default_update_for_team : Settings → Team → ResourceType → Bool
should_skip_system_default_update_for_team c t resource =
    if is_budget resource && requires_pool_purchase_gate t
    then true
    else (if not t.hide_public_regions then false else is_some (dedicated_default_for c resource))

abbrev pub skips_team : Settings → ResourceType → Option Team → Bool
skips_team c resource none = false
skips_team c resource (some t) = should_skip_system_default_update_for_team c t resource

-- A default limit of a team or a user that follows the system limit of its resource.
unfoldable pub follows_system : Settings → ResourceType → Store → Limit → Bool
unfolding should_skip_system_default_update_for_team
follows_system c resource s l =
    same_resource l.resource resource
    && is_default l.limited_by
    && not (same_owner l.owner_type system)
    && not (same_owner l.owner_type team_owner && skips_team c resource (find_team l.owner_id s))

-- `_update_default_limits_for_resource`
unfoldable pub update_default_limits_for_resource : Settings → ResourceType → ℕ → Store → Store
unfolding follows_system
update_default_limits_for_resource c resource value s = record s {
  limits =
      map (λ l. if follows_system c resource s l then record l { max_value = value } else l)
        s.limits;
}

-- What follows the write, by whose limit was written.
unfoldable pub after_write :
    Settings → (ℕ → ℕ → Action (Unit {0})) → Bool → LimitedResource → Action (Unit {0})
unfolding update_default_limits_for_resource
after_write c propagate trigger r =
    if same_owner r.owner_type system
    then modify (update_default_limits_for_resource c r.resource r.max_value)
    else (if same_owner r.owner_type team_owner && is_budget r.resource && trigger
        then propagate r.owner_id r.max_value
        else pure tt)

unfoldable pub set_limit_with :
    Settings → (ℕ → ℕ → Action (Unit {0})) → Bool → LimitedResource → Action Limit
unfolding is_valid_request write_request after_write
set_limit_with c propagate trigger r = do
  raise_if (not (is_valid_request r)) value_error
  existing ← gets (find_limit r.owner_type r.owner_id r.resource)
  l ← write_request r existing
  after_write c propagate trigger r
  pure l
