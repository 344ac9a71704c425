-- ===== src/Limits/Model.antt =====
-- The data of the limit service: the enums of app/schemas/limits.py, the rows of app/db/models.py
-- that it reads and writes, and its calls as steps that change the rows or raise.
-- The Float columns hold natural numbers: counts as they are, dollars in cents.
use Prim.Native.String.{String}
use amazee_ai.Common.{
  none, some, true, false, ◌&&◌, ◌==◌, if◌then◌else◌, Bool, List, Option, ℕ, find_first,
}

pub data LimitType : Type 0 where
  control_plane data_plane : LimitType

pub data ResourceType : Type 0 where
  user_key service_key user vector_db gpt_instance budget rpm storage document : ResourceType

pub data UnitType : Type 0 where
  count dollar gigabyte : UnitType

pub data OwnerType : Type 0 where
  system team_owner user_owner : OwnerType

pub data LimitSource : Type 0 where
  product default manual : LimitSource

pub data BudgetType : Type 0 where
  periodic pool : BudgetType

-- Members of an enum are told apart by a number.
abbrev pub resource_code : ResourceType → ℕ
resource_code user_key = 0
resource_code service_key = 1
resource_code user = 2
resource_code vector_db = 3
resource_code gpt_instance = 4
resource_code budget = 5
resource_code rpm = 6
resource_code storage = 7
resource_code document = 8

abbrev pub same_resource : ResourceType → ResourceType → Bool
same_resource a b = resource_code a == resource_code b

abbrev pub same_owner : OwnerType → OwnerType → Bool
same_owner system system = true
same_owner team_owner team_owner = true
same_owner user_owner user_owner = true
same_owner _ _ = false

abbrev pub is_control_plane : LimitType → Bool
is_control_plane control_plane = true
is_control_plane data_plane = false

abbrev pub is_count : UnitType → Bool
is_count count = true
is_count _ = false

abbrev pub is_manual : LimitSource → Bool
is_manual manual = true
is_manual _ = false

abbrev pub is_default : LimitSource → Bool
is_default default = true
is_default _ = false

-- A row of `limited_resources`.
pub record Limit : Type 0 where
  pub id : ℕ
  pub limit_type : LimitType
  pub resource : ResourceType
  pub unit : UnitType
  pub max_value : ℕ
  pub current_value : Option ℕ
  pub owner_type : OwnerType
  pub owner_id : ℕ
  pub limited_by : LimitSource
  pub set_by : Option String

-- `LimitedResourceCreate`: the arguments of `set_limit`.
pub record LimitedResource : Type 0 where
  pub limit_type : LimitType
  pub resource : ResourceType
  pub unit : UnitType
  pub max_value : ℕ
  pub current_value : Option ℕ
  pub owner_type : OwnerType
  pub owner_id : ℕ
  pub limited_by : LimitSource
  pub set_by : Option String

pub record Team : Type 0 where
  pub id : ℕ
  pub budget_type : BudgetType
  pub require_purchase_for_requests : Bool
  pub hide_public_regions : Bool

pub record User : Type 0 where
  pub id : ℕ
  pub team_id : Option ℕ

pub record Product : Type 0 where
  pub user_count : Option ℕ
  pub keys_per_user : Option ℕ
  pub service_key_count : Option ℕ
  pub max_budget_per_key : Option ℕ
  pub rpm_per_key : Option ℕ
  pub vector_db_count : Option ℕ
  pub renewal_period_days : Option ℕ

-- A row of `team_products`, joined with its product.
pub record TeamProduct : Type 0 where
  pub team_id : ℕ
  pub product : Product

-- A row of `ai_tokens`.
pub record Key : Type 0 where
  pub owner_id : Option ℕ
  pub team_id : Option ℕ
  pub litellm_token : Option String
  pub database_name : Option String

-- A propagation that was handed to the executor.
pub record Propagation : Type 0 where
  pub team_id : ℕ
  pub budget_amount : ℕ
  pub duration_days : ℕ
  pub apply_to_keys : Bool
  pub update_key_limits : Bool

pub record Store : Type 0 where
  pub limits : List Limit
  pub next_id : ℕ
  pub teams : List Team
  pub users : List User
  pub team_products : List TeamProduct
  pub keys : List Key
  pub propagations : List Propagation

-- The settings that the service reads.
pub record Settings : Type 0 where
  pub dedicated_default_user_count : Option ℕ
  pub dedicated_default_service_keys : Option ℕ
  pub dedicated_default_vector_db_count : Option ℕ
  pub dedicated_default_rpm_per_key : Option ℕ
  pub pool_purchase_expiry_days : ℕ

-- What is raised: ValueError, LimitNotFoundError, the TypeError of a comparison with None, the
-- HTTPExceptions 402 and 404, the NoResultFound of `scalar_one`, and the AttributeError of a field of
-- None.
pub data Error : Type 0 where
  value_error limit_not_found type_error payment_required not_found no_result attribute_error :
      Error

pub data Result (A : Type 0) : Type 0 where
  ok : A → Result A
  raised : Error → Result A

-- A call: what is written before a raise stays written.
abbrev pub Action : Type 0 → Type 0
Action A = Store → Result A × Store

abbrev pub pure : {A : Type 0} → A → Action A
pure a s = (ok a, s)

abbrev pub raise : {A : Type 0} → Error → Action A
raise e s = (raised e, s)

abbrev pub raise_if : Bool → Error → Action (Unit {0})
raise_if c e s = (if c then raised e else ok tt, s)

abbrev pub gets : {A : Type 0} → (Store → A) → Action A
gets f s = (ok (f s), s)

abbrev pub modify : (Store → Store) → Action (Unit {0})
modify f s = (ok tt, f s)

abbrev pub or_raise : {A : Type 0} → Option A → Error → Action A
or_raise none e = raise e
or_raise (some a) e = pure a

abbrev pub bind_result : {A B : Type 0} → Result A × Store → (A → Action B) → Result B × Store
bind_result (ok a, s) f = f a s
bind_result (raised e, s) f = (raised e, s)

infixl 5 ◌>>=◌ ◌>>◌
abbrev pub ◌>>=◌ : {A B : Type 0} → Action A → (A → Action B) → Action B
◌>>=◌ m f s = bind_result (m s) f

abbrev pub ◌>>◌ : {A B : Type 0} → Action A → Action B → Action B
m >> k = m >>= λ _. k

-- `budget_type == POOL and require_purchase_for_requests`
abbrev pub requires_pool_purchase_gate : Team → Bool
requires_pool_purchase_gate t =
    elim t.budget_type [ pool ↦ true | periodic ↦ false ] && t.require_purchase_for_requests

abbrev pub is_budget : ResourceType → Bool
is_budget r = same_resource r budget

-- The unique key of the table.
abbrev pub owned_by : OwnerType → ℕ → ResourceType → Limit → Bool
owned_by kind owner resource l =
    same_owner l.owner_type kind && l.owner_id == owner && same_resource l.resource resource

unfoldable pub find_limit : OwnerType → ℕ → ResourceType → Store → Option Limit
find_limit kind owner resource s = find_first (owned_by kind owner resource) s.limits

unfoldable pub find_team : ℕ → Store → Option Team
find_team team s = find_first (λ t. t.id == team) s.teams

unfoldable pub find_user : ℕ → Store → Option User
find_user owner s = find_first (λ u. u.id == owner) s.users

-- `_dedicated_default_for`
pub dedicated_default_for : Settings → ResourceType → Option ℕ
dedicated_default_for c user = c.dedicated_default_user_count
dedicated_default_for c service_key = c.dedicated_default_service_keys
dedicated_default_for c vector_db = c.dedicated_default_vector_db_count
dedicated_default_for c rpm = c.dedicated_default_rpm_per_key
dedicated_default_for c _ = none
