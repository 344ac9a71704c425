-- ===== src/Rbac/Passing.antt =====
-- Who passes which dependency.
use amazee_ai.Rbac.{
  check_access, RbacDependency, User, role_or_user, Role, require_system_admin, require_team_admin,
  granted, require_private_ai_direct_access, has_role, system_admin, team_admin, has_no_team,
  system_roles, team_roles, get_effective_role, forbidden, validate_user_type_constraints,
}
use amazee_ai.Common.{
  none, some, true, false, arith, ◌≡◌, ◌↔◌, ◌&&◌, is_some, is_none, if◌then◌else◌, Bool, not, subst,
  Option, ℕ,
}

-- Only the flag makes a system administrator: whatever the role column holds, a user passes
-- `require_system_admin` exactly with `is_admin` set and no team.
require_system_admin_iff :
    (u : User)
    → (check_access require_system_admin u ≡ granted system_admin)
      ↔ ((u.is_admin ≡ true) × (u.team_id ≡ none))
unfolding check_access role_or_user
require_system_admin_iff u = (λ h. ground arith, λ h. ground (arith, h.0, h.1))

-- `require_system_admin` grants no other role.
pub require_system_admin_only :
    (u : User) (r : Role) → check_access require_system_admin u ≡ granted r → u.is_admin ≡ true
unfolding check_access role_or_user
require_system_admin_only u r h = ground arith

-- A user without the flag passes `require_team_admin` exactly as a member of a team (of a nonzero
-- number) whose role column is "admin".
require_team_admin_iff :
    (u : User)
    → u.is_admin ≡ false
    → (check_access require_team_admin u ≡ granted team_admin)
      ↔ ((u.role ≡ some team_admin) × (has_no_team u.team_id ≡ false))
unfolding check_access role_or_user
require_team_admin_iff u h = (λ g. ground arith, λ g. ground (arith, g.0, g.1))

-- What a grant shows of the three tests.
granted_inv :
    (r : Role) (invalid allowed homeless : Bool) (e : Role)
    → (if invalid
        then forbidden
        else (if not allowed then forbidden else (if homeless then forbidden else granted e)))
      ≡ granted r
    → (e ≡ r) × (invalid ≡ false) × (allowed ≡ true)
granted_inv r true allowed homeless e h = absurd (ground arith)
granted_inv r false false homeless e h = absurd (ground arith)
granted_inv r false true true e h = absurd (ground arith)
granted_inv r false true false e h = ground arith

valid_inv :
    (admin_member : Bool) (t : Option ℕ) (of_system of_team : Bool)
    → (if admin_member
        then true
        else (if is_none t && of_team then true else is_some t && of_system))
      ≡ false
    → (is_some t && of_system ≡ false) × (is_none t && of_team ≡ false)
valid_inv admin_member t of_system of_team h = ground arith

-- Whichever dependency grants a role, it is one that the dependency allows and no other than the
-- user's effective role; a user with a team never holds a system role, and one without a team never
-- a team role.
pub check_access-separates :
    (d : RbacDependency) (u : User) (r : Role)
    → check_access d u ≡ granted r
    → (get_effective_role u ≡ r)
      × (has_role d.allowed_roles r ≡ true)
      × (is_some u.team_id && has_role system_roles r ≡ false)
      × (is_none u.team_id && has_role team_roles r ≡ false)
unfolding check_access
check_access-separates d u r h =
    let (same, valid, allowed) =
      granted_inv r (validate_user_type_constraints u)
        (has_role d.allowed_roles (get_effective_role u))
        (d.require_team_membership && has_no_team u.team_id && not u.is_admin)
        (get_effective_role u) h in
    let (no_system, no_team) =
      valid_inv (u.is_admin && is_some u.team_id) u.team_id
        (has_role system_roles (get_effective_role u)) (has_role team_roles (get_effective_role u))
        valid in
    (
      same,
      subst (λ q. has_role d.allowed_roles q ≡ true) same allowed,
      subst (λ q. is_some u.team_id && has_role system_roles q ≡ false) same no_system,
      subst (λ q. is_none u.team_id && has_role team_roles q ≡ false) same no_team,
    )

-- The minting endpoints are closed to a user without a team, whatever the role, but for a system
-- administrator.
require_private_ai_direct_access-teamless :
    (u : User) (r : Role)
    → u.team_id ≡ none
    → check_access require_private_ai_direct_access u ≡ granted r
    → u.is_admin ≡ true
unfolding check_access
require_private_ai_direct_access-teamless u r t h = ground arith
