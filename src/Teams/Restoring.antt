-- ===== src/Teams/Restoring.antt =====
-- `restore_soft_deleted_team` of app/core/team_service.py. A failed call is logged, and its region is
-- among the warnings that the restoration returns.
use amazee_ai.Common.{
  [], none, some, true, false, ◌||◌, ◌∷◌, ◌++◌, if◌then◌else◌, Bool, List, ℕ, Option, Instant, any,
  select, is_none,
}
use Prim.Native.String.{String}
use amazee_ai.Teams.{
  Region, RegionKey, Member, Call, TeamStore, get_team_keys_by_region, duration_call, create_team,
  create_user, add_team_member, same_text, in_team, set_users_active, restore, calls_of,
}

-- DEFAULT_KEY_DURATION of app/core/limit_service.py.
abbrev pub restored_key_days : ℕ
restored_key_days = 30

pub data RestoreResult : Type 0 where
  restored : List String → RestoreResult
  value_error : RestoreResult

abbrev pub has_name : String → List String → Bool
has_name name = any (λ n. same_text n name)

-- `if region.name not in failed_regions: failed_regions.append(region.name)`
abbrev pub add_name : String → List String → List String
add_name name names = if has_name name names then names else names ++ name ∷ []

-- `fails` answers the calls of LiteLLM; `models` is the list that a team gets in a region.
module _ (fails : Call → Bool) (models : Region → Option (List String)) where
  -- A user is created, and made a member if that worked: the calls, and whether one failed.
  unfoldable pub provision_user : ℕ → Region → Member → List Call × Bool
  provision_user team r u =
      let create = create_user r.id u.id in
      let add = add_team_member r.id team u.id in
      if fails create then (create ∷ [], true) else (create ∷ add ∷ [], fails add)

  unfoldable pub provision_users : ℕ → Region → List Member → List Call × Bool
  unfolding provision_user
  provision_users team r [] = ([], false)
  provision_users team r (u ∷ us) =
      let one = provision_user team r u in
      let rest = provision_users team r us in (one.0 ++ rest.0, one.1 || rest.1)

  -- The team is created, and its users if that worked.
  unfoldable pub provision_region : ℕ → List Member → Region → List Call × Bool
  unfolding provision_users
  provision_region team users r =
      let create = create_team r.id team (models r) in
      let us = provision_users team r users in
      if fails create then (create ∷ [], true) else (create ∷ us.0, us.1)

  -- All regions: the calls, and the names of those where one failed.
  unfoldable pub provision_regions : ℕ → List Member → List Region → List Call × List String
  unfolding provision_region
  provision_regions team users [] = ([], [])
  provision_regions team users (r ∷ rs) =
      let one = provision_region team users r in
      let rest = provision_regions team users rs in
      (one.0 ++ rest.0, if one.1 then r.name ∷ rest.1 else rest.1)

  -- The keys of one region get their duration back.
  unfoldable pub unexpire_keys : Region → List RegionKey → List String → List String
  unexpire_keys r [] names = names
  unexpire_keys r (k ∷ ks) names =
      unexpire_keys r ks
        (if fails (duration_call restored_key_days r k) then add_name r.name names else names)

  unfoldable pub unexpire_groups : List (Region × List RegionKey) → List String → List String
  unfolding unexpire_keys
  unexpire_groups [] names = names
  unexpire_groups (g ∷ gs) names = unexpire_groups gs (unexpire_keys g.0 g.1 names)

  -- `regions` are the active regions that the team is allowed in.
  unfoldable pub restore_soft_deleted_team :
      Instant → List Region → TeamStore → RestoreResult × TeamStore
  unfolding provision_regions unexpire_groups
  restore_soft_deleted_team now regions s =
      let team = s.team.id in
      let members = select (λ u. in_team team u.team_id) s.users in
      let provisioned = provision_regions team members regions in
      let groups = get_team_keys_by_region team s in
      let warnings = unexpire_groups groups provisioned.1 in
      if is_none s.team.deleted_at then (value_error, s) else (
        restored warnings,
        record s {
          team = record (s.team) {
            deleted_at = none;
            retention_warning_sent_at = none;
            is_active = true;
            updated_at = some now;
          };
          users = set_users_active true team s.users;
          audit = s.audit ++ restore now warnings ∷ [];
          calls = s.calls ++ (provisioned.0 ++ calls_of (duration_call restored_key_days) groups);
        },
      )
