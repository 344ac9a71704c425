-- ===== src/Limits/Applying.antt =====
-- The operations of the limit service that set limits from products and defaults,
-- app/core/limit_service.py. `levels` bounds how deep a team's budget change sets further limits: the
-- change of a periodic team's budget reads the team's limits, which writes the missing ones down.
use amazee_ai.Limits.Reading.{
  get_team_limits_with, coalesce, get_team_default_limit_for_resource,
  get_team_product_limit_for_resource, product_max, default_key_duration, default_max_spend,
  default_rpm_per_key, get_default_user_limit_for_resource, get_user_product_limit_for_resource,
}
use amazee_ai.Limits.Setting.{set_limit_with}
use amazee_ai.Limits.Model.{
  Result, BudgetType, OwnerType, ResourceType, Settings, Action, Limit, LimitedResource,
  Propagation, Result, Team, UnitType, LimitSource, Store, dollar, is_budget, is_manual, periodic,
  pure, same_resource, user, ◌>>=◌, control_plane, gets, gigabyte, ok, pool,
  requires_pool_purchase_gate, resource_code, service_key, ◌>>◌, count, data_plane, find_team,
  raised, team_owner, vector_db, budget, product, raise_if, modify, rpm, storage, default,
  not_found, User, find_limit, user_key, user_owner,
}
use amazee_ai.Common.{
  [], none, some, true, false, zero, suc, ◌&&◌, ◌||◌, ◌∷◌, ◌++◌, if◌then◌else◌, Option, ℕ, Bool,
  List, find_first, leb, not, is_none,
}

-- `get_token_restrictions` up to its return: the limits that the service knows, then the products'
-- and the constants. An exception of the limit service is logged and passed over.
pub record TokenRestrictions : Type 0 where
  pub max_key_duration : ℕ
  pub max_spend : ℕ
  pub rpm_limit : ℕ

-- The loop over the team's limits: the last row of a resource counts.
pub last_max : ResourceType → List Limit → Option ℕ
last_max resource [] = none
last_max resource (l ∷ ls) = elim (last_max resource ls) [
  | some v ↦ some v
  | none ↦ if same_resource l.resource resource then some l.max_value else none
]

-- `try ... except Exception`
abbrev pub caught : Result (List Limit) × Store → Result (List Limit) × Store
caught (ok ls, s) = (ok ls, s)
caught (raised e, s) = (ok [], s)

module _ (c : Settings) where
  unfoldable pub get_token_restrictions_with :
      (ℕ → ℕ → Action (Unit {0})) → ℕ → Action TokenRestrictions
  unfolding last_max
  get_token_restrictions_with propagate team = do
    found ← gets (find_team team)
    limits ← elim found [
      | none ↦ pure []
      | some t ↦ λ s. caught (get_team_limits_with c propagate t s)
    ]
    raise_if (is_none found) not_found
    days ← gets (product_max (λ p. p.renewal_period_days) team)
    spend ← gets (product_max (λ p. p.max_budget_per_key) team)
    rate ← gets (product_max (λ p. p.rpm_per_key) team)
    pure (record {
      max_key_duration = coalesce days default_key_duration;
      max_spend = coalesce (last_max budget limits) (coalesce spend default_max_spend);
      rpm_limit = coalesce (last_max rpm limits) (coalesce rate default_rpm_per_key);
    })

  unfoldable pub enqueue : Propagation → Store → Store
  enqueue p s = record s { propagations = s.propagations ++ p ∷ [] }

  -- The amount and the duration that go to the executor, for a team that was found.
  unfoldable pub enqueue_budget : (ℕ → ℕ → Action (Unit {0})) → ℕ → ℕ → Team → Action (Unit {0})
  unfolding enqueue get_token_restrictions_with
  enqueue_budget propagate team amount t =
      let on_keys = not (requires_pool_purchase_gate t) in
      let message : ℕ → Propagation = λ days. record {
        team_id = team;
        budget_amount = amount;
        duration_days = days;
        apply_to_keys = on_keys;
        update_key_limits = on_keys;
      } in
      elim on_keys [
        | true ↦
            get_token_restrictions_with propagate team
            >>= (λ r. modify (enqueue (message r.max_key_duration)))
        | false ↦ modify (enqueue (message c.pool_purchase_expiry_days))
      ]

  -- `_trigger_team_budget_propagation`, up to the executor's queue.
  unfoldable pub trigger_team_budget_propagation : ℕ → ℕ → ℕ → Action (Unit {0})
  unfolding enqueue_budget
  trigger_team_budget_propagation zero team amount = pure tt
  trigger_team_budget_propagation (suc levels) team amount = do
    found ← gets (find_team team)
    elim found [
      | none ↦ pure tt
      | some t ↦ enqueue_budget (trigger_team_budget_propagation levels) team amount t
    ]

  -- What follows the change of a team's budget.
  abbrev pub propagate : ℕ → ℕ → Action (Unit {0})
  propagate = trigger_team_budget_propagation 2

  unfoldable pub set_limit : LimitedResource → Action Limit
  set_limit r = set_limit_with c propagate true r

  unfoldable pub get_team_limits : Team → Action (List Limit)
  get_team_limits t = get_team_limits_with c propagate t

  pub get_token_restrictions : ℕ → Action TokenRestrictions
  get_token_restrictions team = get_token_restrictions_with propagate team

-- `_get_unit_for_resource`
pub get_unit_for_resource : ResourceType → UnitType
get_unit_for_resource budget = dollar
get_unit_for_resource storage = gigabyte
get_unit_for_resource _ = count

-- `control_plane_limits`
abbrev pub in_control_plane : ResourceType → Bool
in_control_plane r = leb (resource_code r) 4

abbrev pub current_of : Option Limit → Option ℕ
current_of none = none
current_of (some l) = l.current_value

-- `_get_limit_details`, as the request that it goes into.
unfoldable pub request_for :
    OwnerType → ℕ → ResourceType → Option Limit → ℕ → LimitSource → LimitedResource
unfolding get_unit_for_resource
request_for kind owner resource existing value source = record {
  limit_type = if in_control_plane resource then control_plane else data_plane;
  resource = resource;
  unit = if in_control_plane resource then count else get_unit_for_resource resource;
  max_value = value;
  current_value =
      if in_control_plane resource
      then some (coalesce (current_of existing) 0)
      else current_of existing;
  owner_type = kind;
  owner_id = owner;
  limited_by = source;
  set_by = none;
}

abbrev pub is_manual_limit : Option Limit → Bool
is_manual_limit none = false
is_manual_limit (some l) = is_manual l.limited_by

-- `limit_map.get(resource)`
unfoldable pub limit_of : ResourceType → List Limit → Option Limit
limit_of resource ls = find_first (λ l. same_resource l.resource resource) ls

abbrev pub is_periodic : BudgetType → Bool
is_periodic periodic = true
is_periodic pool = false

-- The reasons to pass a resource over.
unfoldable pub skips_resource : Team → Option Limit → ResourceType → Bool
skips_resource t old resource =
    (is_budget resource && is_periodic t.budget_type)
    || is_manual_limit old
    || (is_budget resource && requires_pool_purchase_gate t)

pub team_resources : List ResourceType
team_resources = user ∷ service_key ∷ vector_db ∷ budget ∷ rpm ∷ []

module _ (c : Settings) where
  unfoldable pub set_team_limit :
      Team → Option Limit → ResourceType → LimitSource → ℕ → Action (Unit {0})
  unfolding request_for set_limit
  set_team_limit t old resource source v =
      set_limit c (request_for team_owner t.id resource old v source) >> pure tt

  -- The product's limit first, then the default.
  unfoldable pub set_product_or_default :
      Team → Option Limit → ResourceType → Option ℕ → Action (Unit {0})
  unfolding set_team_limit get_team_default_limit_for_resource
  set_product_or_default t old resource (some v) = set_team_limit t old resource product v
  set_product_or_default t old resource none =
      get_team_default_limit_for_resource c t resource >>= set_team_limit t old resource default

  -- The loop's body in `set_team_limits`, which runs over the five `team_resources` only.
  unfoldable pub apply_team_resource : Team → List Limit → ResourceType → Action (Unit {0})
  unfolding limit_of skips_resource set_product_or_default get_team_product_limit_for_resource
  apply_team_resource t existing resource s =
      let old = limit_of resource existing in
      let set =
        set_product_or_default t old resource (get_team_product_limit_for_resource t.id resource s)
          s in
      if skips_resource t old resource then (ok tt, s) else set

  unfoldable pub apply_team_resources : Team → List Limit → List ResourceType → Action (Unit {0})
  unfolding apply_team_resource
  apply_team_resources t existing [] = pure tt
  apply_team_resources t existing (r ∷ rs) =
      apply_team_resource t existing r >> apply_team_resources t existing rs

  unfoldable pub set_team_limits : Team → Action (Unit {0})
  unfolding apply_team_resources team_resources get_team_limits
  set_team_limits t = do
    existing ← get_team_limits c t
    apply_team_resources t existing team_resources

-- `set_user_limits`: the one resource of a user, USER_KEY. `existing` is the user's own limit or the
-- team's, as `get_user_limits` lays them over one another.
pub get_user_limit : Settings → User → ResourceType → Action (Option Limit)
unfolding limit_of get_team_limits
get_user_limit c u resource = do
  team ← gets (λ s. elim u.team_id [ none ↦ none | some t ↦ find_team t s ])
  inherited ← elim team [ none ↦ pure [] | some t ↦ get_team_limits c t ]
  own ← gets (find_limit user_owner u.id resource)
  pure (elim own [ some l ↦ some l | none ↦ limit_of resource inherited ])

pub set_user_limits : Settings → User → Action (Unit {0})
unfolding get_user_limit request_for set_limit get_default_user_limit_for_resource
set_user_limits c u = do
  old ← get_user_limit c u user_key
  if is_manual_limit old
      then pure tt
      else (get_user_product_limit_for_resource u.team_id user_key >>= λ v. elim v [
        | some w ↦ set_limit c (request_for user_owner u.id user_key old w product) >> pure tt
        | none ↦ get_default_user_limit_for_resource user_key >>= λ w.
            set_limit c (request_for user_owner u.id user_key old w default) >> pure tt
      ])
