-- ===== src/Rbac.antt =====
-- Role-based access, app/core/rbac.py and app/core/roles.py: the effective role of a user, the check
-- of an endpoint's dependency, and the gate on the declared team of a key.
use amazee_ai.Common.{
  [], none, some, true, false, ◌&&◌, ◌||◌, ◌∷◌, ◌++◌, ◌==◌, if◌then◌else◌, Bool, List, Option, not,
  ℕ, find_first, is_some, is_none,
}
pub mod Passing
pub mod Scope
mod Tests

-- The texts of `UserRole`; `blank` is the empty text, `unknown` any other one.
pub data Role : Type 0 where
  system_admin user sales team_admin key_creator read_only blank unknown : Role

abbrev pub role_code : Role → ℕ
role_code system_admin = 0
role_code user = 1
role_code sales = 2
role_code team_admin = 3
role_code key_creator = 4
role_code read_only = 5
role_code blank = 6
role_code unknown = 7

abbrev pub same_role : Role → Role → Bool
same_role a b = role_code a == role_code b

-- `role in roles`
abbrev pub has_role : List Role → Role → Bool
has_role [] r = false
has_role (q ∷ qs) r = same_role q r || has_role qs r

-- A row of `users`, as far as the check reads it; a NULL flag is false to it.
pub record User : Type 0 where
  pub id : ℕ
  pub is_admin : Bool
  pub role : Option Role
  pub team_id : Option ℕ

abbrev pub admin_roles : List Role
admin_roles = team_admin ∷ system_admin ∷ []

abbrev pub key_management_roles : List Role
key_management_roles = key_creator ∷ admin_roles

abbrev pub read_access_roles : List Role
read_access_roles = read_only ∷ key_management_roles

abbrev pub system_access_roles : List Role
system_access_roles = system_admin ∷ sales ∷ []

abbrev pub system_roles : List Role
system_roles = system_admin ∷ user ∷ sales ∷ []

abbrev pub team_roles : List Role
team_roles = team_admin ∷ key_creator ∷ read_only ∷ []

abbrev pub all_roles : List Role
all_roles = system_roles ++ team_roles

-- `user.role or UserRole.USER`, behind the downgrade of a stored system_admin.
pub role_or_user : Option Role → Role
role_or_user none = user
role_or_user (some system_admin) = user
role_or_user (some blank) = user
role_or_user (some r) = r

pub get_effective_role : User → Role
unfolding role_or_user
get_effective_role u = if u.is_admin then system_admin else role_or_user u.role

-- Whether the constraints are violated.
pub validate_user_type_constraints : User → Bool
unfolding get_effective_role
validate_user_type_constraints u =
    if u.is_admin && is_some u.team_id
    then true
    else (if is_none u.team_id && has_role team_roles (get_effective_role u)
        then true
        else is_some u.team_id && has_role system_roles (get_effective_role u))

pub record RbacDependency : Type 0 where
  pub allowed_roles : List Role
  pub require_team_membership : Bool

pub data Access : Type 0 where
  granted : Role → Access
  forbidden : Access

-- `not user.team_id`: a team 0 counts as none.
abbrev pub has_no_team : Option ℕ → Bool
has_no_team none = true
has_no_team (some t) = t == 0

pub check_access : RbacDependency → User → Access
unfolding validate_user_type_constraints get_effective_role
check_access d u =
    if validate_user_type_constraints u
    then forbidden
    else (if not (has_role d.allowed_roles (get_effective_role u))
        then forbidden
        else (if d.require_team_membership && has_no_team u.team_id && not u.is_admin
            then forbidden
            else granted (get_effective_role u)))

abbrev pub dependency : List Role → Bool → RbacDependency
dependency roles team = record { allowed_roles = roles; require_team_membership = team }

abbrev pub require_system_admin : RbacDependency
require_system_admin = dependency (system_admin ∷ []) false

abbrev pub require_team_admin : RbacDependency
require_team_admin = dependency admin_roles true

abbrev pub require_key_creator_or_higher : RbacDependency
require_key_creator_or_higher = dependency key_management_roles true

abbrev pub require_private_ai_access : RbacDependency
require_private_ai_access = dependency (key_management_roles ++ user ∷ []) false

abbrev pub require_private_ai_direct_access : RbacDependency
require_private_ai_direct_access = dependency (key_management_roles ++ user ∷ []) true

abbrev pub require_read_only_or_higher : RbacDependency
require_read_only_or_higher = dependency read_access_roles true

abbrev pub require_sales_or_higher : RbacDependency
require_sales_or_higher = dependency system_access_roles false

abbrev pub require_any_role : RbacDependency
require_any_role = dependency all_roles false

-- The owner and the team of a row of `ai_tokens`.
pub record KeyScope : Type 0 where
  pub team_id : Option ℕ
  pub owner_id : Option ℕ

abbrev pub same_id : Option ℕ → ℕ → Bool
same_id none k = false
same_id (some j) k = j == k

pub key_in_team : KeyScope → ℕ → List User → Bool
key_in_team k team users = elim k.team_id [
  | some t ↦ t == team
  | none ↦ elim (find_first (λ u. same_id k.owner_id u.id) users) [
    | none ↦ false
    | some owner ↦ same_id owner.team_id team
  ]
]

-- Whether the gate lets the request pass; it raises 404 otherwise.
pub enforce_declared_team_scope : KeyScope → Option ℕ → List User → Bool
unfolding key_in_team
enforce_declared_team_scope k none users = true
enforce_declared_team_scope k (some team) users = key_in_team k team users
