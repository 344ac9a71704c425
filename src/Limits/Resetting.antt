-- ===== src/Limits/Resetting.antt =====
-- The reset of limits, app/core/limit_service.py: a limit goes back to what the products of its team
-- allow, or else to the default, also where it was set by hand.
use amazee_ai.Limits.Setting.{write_limit}
use amazee_ai.Limits.Reading.{
  get_user_product_limit_for_resource, get_team_product_limit_for_resource,
  get_default_user_limit_for_resource, get_team_default_limit_for_resource,
}
use amazee_ai.Limits.Applying.{get_team_limits}
use amazee_ai.Limits.Model.{
  Limit, OwnerType, Settings, Action, LimitSource, ResourceType, Team, pure, raise, same_owner,
  ◌>>=◌, gets, user_owner, value_error, ◌>>◌, find_limit, find_team, or_raise, same_resource,
  limit_not_found, modify, product, user_key, find_user, attribute_error, default, system,
  team_owner,
}
use amazee_ai.Common.{
  [], none, some, ◌&&◌, ◌∷◌, ◌==◌, if◌then◌else◌, List, Option, ℕ, find_first, Bool,
}

-- The team whose products count, for an owner; none for a user without a team.
unfoldable pub reset_team : OwnerType → ℕ → Action (Option Team)
reset_team system owner = raise value_error
reset_team team_owner owner = do
  found ← gets (find_team owner)
  elim found [ none ↦ raise limit_not_found | some t ↦ pure (some t) ]
reset_team user_owner owner = do
  u ← gets (find_user owner)
  elim u [
    | none ↦ raise attribute_error
    | some v ↦ elim v.team_id [
      | none ↦ pure none
      | some team ↦
          if team == 0
          then pure none
          else (gets (find_team team) >>= λ found. elim found [
            | none ↦ raise limit_not_found
            | some t ↦ pure (some t)
          ])
    ]
  ]

abbrev pub is_user_key_limit : Limit → Bool
is_user_key_limit l = same_owner l.owner_type user_owner && same_resource l.resource user_key

module _ (c : Settings) where
  -- The product's limit first, then the default.
  unfoldable pub reset_value : Team → Limit → Action (ℕ × LimitSource)
  reset_value t l = do
    found ←
        if is_user_key_limit l
        then get_user_product_limit_for_resource (some t.id) l.resource
        else gets (get_team_product_limit_for_resource t.id l.resource)
    elim found [
      | some v ↦ pure (v, product)
      | none ↦
          (if is_user_key_limit l
            then get_default_user_limit_for_resource l.resource
            else get_team_default_limit_for_resource c t l.resource)
          >>= λ v. pure (v, default)
    ]

  abbrev pub reset_to : Limit → ℕ × LimitSource → Limit
  reset_to l v = record l { max_value = v.0; limited_by = v.1; set_by = some "reset" }

  -- `_reset_limit`
  unfoldable pub reset_row : Limit → Action Limit
  unfolding reset_team reset_value
  reset_row l = do
    stored ← gets (λ s. find_first (λ x. x.id == l.id) s.limits)
    row ← or_raise stored value_error
    team ← reset_team l.owner_type l.owner_id
    elim team [
      | none ↦ pure row
      | some t ↦
          reset_value t l >>= λ v. modify (write_limit (reset_to row v)) >> pure (reset_to row v)
    ]

  unfoldable pub reset_limit : OwnerType → ℕ → ResourceType → Action Limit
  unfolding reset_row
  reset_limit kind owner resource = do
    found ← gets (find_limit kind owner resource)
    l ← or_raise found limit_not_found
    reset_row l

  unfoldable pub reset_rows : List Limit → Action (Unit {0})
  unfolding reset_row
  reset_rows [] = pure tt
  reset_rows (l ∷ ls) = reset_row l >> reset_rows ls

  pub reset_team_limits : Team → Action (List Limit)
  unfolding reset_rows get_team_limits
  reset_team_limits t = do limits ← get_team_limits c t; reset_rows limits; get_team_limits c t
