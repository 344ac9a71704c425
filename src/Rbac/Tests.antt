-- ===== src/Rbac/Tests.antt =====
-- Concrete users and keys.
use amazee_ai.Rbac.Passing.{check_access-separates}
use amazee_ai.Rbac.{
  check_access, User, get_effective_role, require_system_admin, forbidden, system_admin, team_admin,
  user, has_role, require_any_role, system_roles, team_roles,
}
use amazee_ai.Common.{none, some, true, false, refl, ◌≡◌, ◌&&◌, is_some, is_none}

abbrev root : User
root = record { id = 1; is_admin = true; role = some user; team_id = none }

-- A row that claims the administrator's role without the flag.
abbrev impostor : User
impostor = record { id = 2; is_admin = false; role = some system_admin; team_id = none }

abbrev leader : User
leader = record { id = 3; is_admin = false; role = some team_admin; team_id = some 7 }

impostor_refused : check_access require_system_admin impostor ≡ forbidden
unfolding check_access
impostor_refused = refl

check_access-separates_example :
    (get_effective_role leader ≡ team_admin)
    × (has_role require_any_role.allowed_roles team_admin ≡ true)
    × (is_some leader.team_id && has_role system_roles team_admin ≡ false)
    × (is_none leader.team_id && has_role team_roles team_admin ≡ false)
unfolding check_access
check_access-separates_example = check_access-separates require_any_role leader team_admin refl
